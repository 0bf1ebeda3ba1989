-- ===== src/Base/Sorted.antt =====
-- Lists sorted by a numeric key, and the binary searches in them.
use Prim.Native.Nat.{ℕ, zero, suc, ◌≤◌}
use mathlib.Core.Path.{◌≡◌, sym, ◌∙◌}
use mathlib.Core.Bool.{Bool, true, false, false≢true}
use mathlib.Core.List.{List, [], ◌∷◌}
use mathlib.Core.Logic.{inl, inr}
use native.Mathlib.Omega.{arith}
use vrs.Base.Tests.{Bool-cases}
use vrs.Base.Lists.{All, All-map, take, drop}
use vrs.Base.Search.{test_at, leading, IsPartitioned}

module _ {ℓ} {A : Type ℓ} (key : A → ℕ) where
  -- Each key is at most the keys behind it.
  abbrev pub IsSortedBy : List A → Type 0
  IsSortedBy [] = Unit
  IsSortedBy (x ∷ rest) = All (λ (y : A). key x ≤ key y) rest × IsSortedBy rest

module _ {ℓ} {A : Type ℓ} (key : A → ℕ) (test : ℕ → Bool) where
  -- The test of a key, which holds of every smaller key too.
  abbrev pub IsDownward : Type 0
  IsDownward = (a b : ℕ) → a ≤ b → test b ≡ true → test a ≡ true

  abbrev pub by_key : A → Bool
  by_key x = test (key x)

  head_passes :
      IsDownward
      → (a : ℕ) (rest : List A) (j : ℕ) → All (λ (y : A). a ≤ key y) rest
      → test_at by_key rest j ≡ true
      → test a ≡ true
  head_passes down a [] j h e = absurd (ground arith)
  head_passes down a (y ∷ rest) zero h e = down a (key y) h.0 e
  head_passes down a (y ∷ rest) (suc j) h e = head_passes down a rest j h.1 e

  -- A sorted list is partitioned by such a test.
  pub IsSortedBy-IsPartitioned :
      IsDownward → (l : List A) → IsSortedBy key l → IsPartitioned by_key l
  IsSortedBy-IsPartitioned down [] s i j le h = absurd (ground arith)
  IsSortedBy-IsPartitioned down (x ∷ l) s zero zero le h = h
  IsSortedBy-IsPartitioned down (x ∷ l) s zero (suc j) le h = head_passes down (key x) l j s.0 h
  IsSortedBy-IsPartitioned down (x ∷ l) s (suc i) zero le h = absurd (omega arith)
  IsSortedBy-IsPartitioned down (x ∷ l) s (suc i) (suc j) le h =
      IsSortedBy-IsPartitioned down l s.1 i j (omega arith) h

  -- The elements before the turning point pass the test.
  pub take-leading : (l : List A) → All (λ (x : A). test (key x) ≡ true) (take (leading by_key l) l)
  take-leading [] = tt
  take-leading (x ∷ l) = elim (Bool-cases (test (key x))) [
    | inl e ↦ rw e (e, take-leading l)
    | inr e ↦ rw e tt
  ]

  -- In a sorted list the elements behind it fail the test.
  pub drop-leading :
      IsDownward
      → (l : List A) → IsSortedBy key l
      → All (λ (x : A). test (key x) ≡ false) (drop (leading by_key l) l)
  drop-leading down [] s = tt
  drop-leading down (x ∷ l) s = elim (Bool-cases (test (key x))) [
    | inl e ↦ rw e (drop-leading down l s.1)
    | inr e ↦ rw e (
      e,
      All-map _ _
          (λ y le. elim (Bool-cases (test (key y))) [
            | inl f ↦ absurd (false≢true (sym e ∙ down (key x) (key y) le f))
            | inr f ↦ f
          ])
          l s.0,
    )
  ]

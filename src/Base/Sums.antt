-- ===== src/Base/Sums.antt =====
-- The sum of a weight over a list, which says what the list holds, whatever its order.
use Prim.Native.Nat.{ℕ, zero, suc, ◌+◌, ◌<◌}
use mathlib.Core.Path.{◌≡◌, refl, sym, ap, ◌∙◌}
use mathlib.Core.Bool.{Bool, true}
use mathlib.Core.List.{List, [], ◌∷◌, ◌++◌}
use native.Mathlib.Omega.{arith}
use vrs.Base.Tests.{if◌then◌else◌, Bool-cases}
use mathlib.Core.Logic.{inl, inr}
use mathlib.Core.Option.{some}
use vrs.Base.Lists.{length, All, get_elem?, some_injective}

module _ {ℓ} {A : Type ℓ} where
  abbrev pub sum_by : (A → ℕ) → List A → ℕ
  sum_by w [] = 0
  sum_by w (x ∷ xs) = w x + sum_by w xs

  -- The two lists hold the same elements, each as often: take the weight that is 1 at one
  -- element and 0 at the others.
  abbrev pub SameElements : List A → List A → Type ℓ
  SameElements xs ys = (w : A → ℕ) → sum_by w xs ≡ sum_by w ys

  pub sum_by-append : (w : A → ℕ) (xs ys : List A) → sum_by w (xs ++ ys) ≡ sum_by w xs + sum_by w ys
  sum_by-append w [] ys = omega arith
  sum_by-append w (x ∷ xs) ys = omega (arith, sum_by-append w xs ys)

  pub sum_by-length : (xs : List A) → sum_by (λ x. 1) xs ≡ length xs
  sum_by-length [] = omega arith
  sum_by-length (x ∷ xs) = omega (arith, sum_by-length xs)

  failures : (A → Bool) → A → ℕ
  failures test x = if test x then 0 else 1

  no_failures :
      (test : A → Bool) (xs : List A)
      → All (λ (x : A). test x ≡ true) xs
      → sum_by (failures test) xs ≡ 0
  unfolding failures
  no_failures test [] h = omega arith
  no_failures test (x ∷ xs) h = ground (arith, h.0, no_failures test xs h.1)

  all_pass :
      (test : A → Bool) (xs : List A)
      → sum_by (failures test) xs ≡ 0
      → All (λ (x : A). test x ≡ true) xs
  unfolding failures
  all_pass test [] h = tt
  all_pass test (x ∷ xs) h = (ground arith, all_pass test xs (ground arith))

  -- A test that passes throughout a list passes throughout one with the same elements.
  pub SameElements-All :
      (test : A → Bool) (xs ys : List A)
      → SameElements xs ys
      → All (λ (x : A). test x ≡ true) xs
      → All (λ (y : A). test y ≡ true) ys
  SameElements-All test xs ys same h =
      all_pass test ys (sym (same (failures test)) ∙ no_failures test xs h)

  hits : (A → Bool) → A → ℕ
  hits test x = if test x then 1 else 0

  hit_counts :
      (test : A → Bool) (xs : List A) (i : ℕ) {x : A}
      → get_elem? xs i ≡ some x
      → test x ≡ true
      → 0 < sum_by (hits test) xs
  unfolding hits
  hit_counts test [] i e t = absurd cc
  hit_counts test (y ∷ xs) zero e t =
      let hit : test y ≡ true = ap test (some_injective e) ∙ t in ground (arith, hit)
  hit_counts test (y ∷ xs) (suc i) e t = omega (arith, hit_counts test xs i e t)

  find_hit :
      (test : A → Bool) (xs : List A)
      → 0 < sum_by (hits test) xs
      → (i : ℕ) × (x : A) × (get_elem? xs i ≡ some x) × (test x ≡ true)
  unfolding hits
  find_hit test [] h = absurd (omega arith)
  find_hit test (x ∷ xs) h = elim (Bool-cases (test x)) [
    | inl e ↦ (0, x, refl, e)
    | inr e ↦ let (i, y, at, t) = find_hit test xs (ground (arith, e)) in (suc i, y, at, t)
  ]

  -- What a test finds in a list it finds in one with the same elements.
  pub SameElements-get_elem? :
      (test : A → Bool) (xs ys : List A) (i : ℕ) {x : A}
      → SameElements xs ys
      → get_elem? xs i ≡ some x
      → test x ≡ true
      → (j : ℕ) × (y : A) × (get_elem? ys j ≡ some y) × (test y ≡ true)
  SameElements-get_elem? test xs ys i same e t =
      find_hit test ys (omega (arith, hit_counts test xs i e t, same (hits test)))

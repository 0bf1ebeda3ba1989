-- ===== src/Base/Search.antt =====
-- The binary searches of <algorithm> that the readers call: `lower_bound`, `upper_bound` and
-- `partition_point` as the halving loop that the C++ standard prescribes.
use Prim.Native.Nat.{ℕ, zero, suc, ◌+◌, ◌-◌, ◌/◌, ◌≤◌, ◌<◌}
use mathlib.Core.Path.{◌≡◌, refl, sym, ◌∙◌}
use mathlib.Core.Bool.{Bool, true, false, false≢true}
use mathlib.Core.List.{List, [], ◌∷◌}
use mathlib.Core.Option.{none, some}
use mathlib.Core.Logic.{inl, inr}
use native.Mathlib.Omega.{arith}
use vrs.Base.Tests.{◌==◌, if◌then◌else◌, Bool-cases}
use vrs.Base.Lists.{length, get_elem?}

module _ {ℓ} {A : Type ℓ} (p : A → Bool) where
  -- The test at an index; past the end it fails.
  abbrev pub test_at : List A → ℕ → Bool
  test_at xs i = elim (get_elem? xs i) [ none ↦ false | some a ↦ p a ]

  -- `first` is the iterator and `len` the distance that is left to search.
  search : ℕ → List A → ℕ → ℕ → ℕ
  search zero xs first len = first
  search (suc fuel) xs first len =
      let right = search fuel xs (first + len / 2 + 1) (len - len / 2 - 1) in
      let left = search fuel xs first (len / 2) in
      if len == 0 then first else if test_at xs (first + len / 2) then right else left

  -- The index of the first element that fails the test, by halving.
  unfoldable pub partition_point : List A → ℕ
  unfolding search
  partition_point xs = search (length xs) xs 0 (length xs)

  -- Every element that passes stands before every element that fails.
  abbrev pub IsPartitioned : List A → Type 0
  IsPartitioned xs = (i j : ℕ) → i ≤ j → test_at xs j ≡ true → test_at xs i ≡ true

  -- How many elements at the front pass.
  abbrev pub leading : List A → ℕ
  leading [] = 0
  leading (x ∷ xs) = if p x then suc (leading xs) else 0

  pub test_at-leading : (xs : List A) → test_at xs (leading xs) ≡ false
  test_at-leading [] = refl
  test_at-leading (x ∷ xs) = elim (Bool-cases (p x)) [
    | inl e ↦ rw e (test_at-leading xs)
    | inr e ↦ rw e e
  ]

  pub test_at_below_leading : (xs : List A) (i : ℕ) → i < leading xs → test_at xs i ≡ true
  test_at_below_leading [] i h = absurd (omega arith)
  test_at_below_leading (x ∷ xs) zero h = ground arith
  test_at_below_leading (x ∷ xs) (suc i) h = ground (arith, test_at_below_leading xs i)

  pub leading-length : (xs : List A) → leading xs ≤ length xs
  leading-length [] = omega arith
  leading-length (x ∷ xs) = ground (arith, leading-length xs)

  test_at_past : (xs : List A) (i : ℕ) → length xs ≤ i → test_at xs i ≡ false
  test_at_past [] i h = refl
  test_at_past (x ∷ xs) zero h = absurd (omega arith)
  test_at_past (x ∷ xs) (suc i) h = test_at_past xs i (omega arith)

  -- The index where the test turns from true to false is `leading`.
  pub leading_unique :
      (xs : List A) (r : ℕ)
      → ((i : ℕ) → i < r → test_at xs i ≡ true)
      → test_at xs r ≡ false
      → r ≡ leading xs
  leading_unique xs r below at =
      ground (arith, below (leading xs), test_at-leading xs, test_at_below_leading xs r, at)

  search-leading :
      (xs : List A)
      → IsPartitioned xs
      → (fuel first len : ℕ) → len ≤ fuel
      → ((i : ℕ) → i < first → test_at xs i ≡ true)
      → ((i : ℕ) → first + len ≤ i → test_at xs i ≡ false)
      → search fuel xs first len ≡ leading xs
  unfolding search
  search-leading xs part zero first len h below above =
      leading_unique xs first below (above first (omega arith))
  search-leading xs part (suc fuel) first len h below above = elim (Bool-cases (len == 0)) [
    | inl e ↦ rw e (leading_unique xs first below (above first (ground arith)))
    | inr e ↦ elim (Bool-cases (test_at xs (first + len / 2))) [
      | inl t ↦
          rw (e, t)
            (search-leading xs part fuel (first + len / 2 + 1) (len - len / 2 - 1) (omega arith)
              (λ i hi. part i (first + len / 2) (omega arith) t) (λ i hi. above i (ground arith)))
      | inr t ↦
          rw (e, t)
            (search-leading xs part fuel first (len / 2) (ground arith) below (λ i hi.
              elim (Bool-cases (test_at xs i)) [
                | inl s ↦ absurd (false≢true (sym t ∙ part (first + len / 2) i hi s))
                | inr s ↦ s
              ]))
    ]
  ]

  -- On a partitioned list the search finds the number of elements that pass.
  pub partition_point-leading : (xs : List A) → IsPartitioned xs → partition_point xs ≡ leading xs
  unfolding partition_point
  partition_point-leading xs part =
      search-leading xs part (length xs) 0 (length xs) (omega arith) (λ i h. absurd (omega arith))
        (λ i h. test_at_past xs i (omega arith))

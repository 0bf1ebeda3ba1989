-- ===== src/Base/Ordered.antt =====
-- Lists in the order of a Boolean comparison, which need not go by one number.
use mathlib.Core.Path.{◌≡◌, refl, ap}
use mathlib.Core.Bool.{Bool, true, false, false≢true}
use mathlib.Core.List.{List, [], ◌∷◌, ◌++◌}
use mathlib.Core.Logic.{inl, inr}
use Prim.Native.Nat.{ℕ, zero, suc, ◌+◌}
use native.Mathlib.Omega.{arith}
use vrs.Base.Tests.{if◌then◌else◌, Bool-cases}
use vrs.Base.Lists.{All, All-map, take, drop}
use vrs.Base.Search.{leading, test_at, IsPartitioned}
use vrs.Base.Sums.{sum_by}

module _ {ℓ} {A : Type ℓ} (less : A → A → Bool) where
  -- What a comparison for sorting has to satisfy.
  pub record IsWeakOrder : Type ℓ where
    pub asymmetric : (a b : A) → less a b ≡ true → less b a ≡ false
    pub below : (a b c : A) → less b a ≡ false → less b c ≡ true → less a c ≡ true
    pub transitive : (a b c : A) → less b a ≡ false → less c b ≡ false → less c a ≡ false

  -- No element is less than one before it.
  abbrev pub IsOrderedBy : List A → Type 0
  IsOrderedBy [] = Unit
  IsOrderedBy (x ∷ rest) = All (λ (y : A). less y x ≡ false) rest × IsOrderedBy rest

  -- The reference insertion: behind all that is less.
  abbrev pub insert_ordered : A → List A → List A
  insert_ordered r [] = r ∷ []
  insert_ordered r (x ∷ l) = if less x r then x ∷ insert_ordered r l else r ∷ x ∷ l

  pub sum_by-insert_ordered :
      (w : A → ℕ) (r : A) (l : List A) → sum_by w (insert_ordered r l) ≡ w r + sum_by w l
  sum_by-insert_ordered w r [] = refl
  sum_by-insert_ordered w r (x ∷ l) = elim (Bool-cases (less x r)) [
    | inl e ↦ rw e (omega (arith, sum_by-insert_ordered w r l))
    | inr e ↦ rw e refl
  ]

  insert_ordered-All :
      (P : A → Type 0) (r : A) (l : List A) → P r → All P l → All P (insert_ordered r l)
  insert_ordered-All P r [] p h = (p, tt)
  insert_ordered-All P r (x ∷ l) p h = elim (Bool-cases (less x r)) [
    | inl e ↦ rw e (h.0, insert_ordered-All P r l p h.1)
    | inr e ↦ rw e (p, h)
  ]

  -- Where the elements that are less end, the insertion is a splice.
  pub insert_ordered-splice :
      (r : A) (l : List A)
      → let n = leading (λ (x : A). less x r) l in take n l ++ (r ∷ drop n l) ≡ insert_ordered r l
  insert_ordered-splice r [] = refl
  insert_ordered-splice r (x ∷ l) = elim (Bool-cases (less x r)) [
    | inl e ↦ rw e (ap (◌∷◌ x) (insert_ordered-splice r l))
    | inr e ↦ rw e refl
  ]

  abbrev pub last_of : A → List A → A
  last_of x [] = x
  last_of x (y ∷ rest) = last_of y rest

  module _ (order : IsWeakOrder) where
    pub insert_ordered-IsOrderedBy :
        (r : A) (l : List A) → IsOrderedBy l → IsOrderedBy (insert_ordered r l)
    insert_ordered-IsOrderedBy r [] s = (tt, tt)
    insert_ordered-IsOrderedBy r (x ∷ l) s = elim (Bool-cases (less x r)) [
      | inl e ↦ rw e (
        insert_ordered-All (λ (y : A). less y x ≡ false) r l (order.asymmetric x r e) s.0,
        insert_ordered-IsOrderedBy r l s.1,
      )
      | inr e ↦ rw e ((e, All-map _ _ (λ y h. order.transitive r x y e h) l s.0), s)
    ]

    passes_before :
        (r x : A) (l : List A) (j : ℕ)
        → All (λ (y : A). less y x ≡ false) l
        → test_at (λ (y : A). less y r) l j ≡ true
        → less x r ≡ true
    passes_before r x [] j h e = absurd (false≢true e)
    passes_before r x (y ∷ l) zero h e = order.below x y r h.0 e
    passes_before r x (y ∷ l) (suc j) h e = passes_before r x l j h.1 e

    -- An ordered list is partitioned by what is less than an element.
    pub IsOrderedBy-IsPartitioned :
        (r : A) (l : List A) → IsOrderedBy l → IsPartitioned (λ (x : A). less x r) l
    IsOrderedBy-IsPartitioned r [] s i j le e = absurd (false≢true e)
    IsOrderedBy-IsPartitioned r (x ∷ l) s zero zero le e = e
    IsOrderedBy-IsPartitioned r (x ∷ l) s zero (suc j) le e = passes_before r x l j s.0 e
    IsOrderedBy-IsPartitioned r (x ∷ l) s (suc i) zero le e = absurd (omega arith)
    IsOrderedBy-IsPartitioned r (x ∷ l) s (suc i) (suc j) le e =
        IsOrderedBy-IsPartitioned r l s.1 i j (omega arith) e

    below_last :
        (r x : A) (l : List A) → IsOrderedBy (x ∷ l) → less (last_of x l) r ≡ true → less x r ≡ true
    below_last r x [] s e = e
    below_last r x (y ∷ l) s e = order.below x y r s.0.0 (below_last r y l s.1 e)

    -- Where the last element is less, the insertion is at the end.
    pub insert_ordered-append :
        (r x : A) (l : List A)
        → IsOrderedBy (x ∷ l)
        → less (last_of x l) r ≡ true
        → (x ∷ l) ++ (r ∷ []) ≡ insert_ordered r (x ∷ l)
    insert_ordered-append r x [] s e = rw e refl
    insert_ordered-append r x (y ∷ l) s e =
        rw (below_last r x (y ∷ l) s e) (ap (◌∷◌ x) (insert_ordered-append r y l s.1 e))

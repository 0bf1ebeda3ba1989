-- ===== src/RecordManager/Order.antt =====
-- Sorted lists of records, and what a list of records holds.
use mathlib.Core.List.{reverse-cons}
use vrs.Base.{ℕ, ◌+◌, ◌≤◌, ◌<◌, ◌≡◌, refl, ◌∙◌, ap, List, [], ◌∷◌, ◌++◌, reverse, arith, All}
use vrs.Base.{All-append, leb, if◌then◌else◌}
use vrs.Base.Sorted.{IsSortedBy}
use vrs.Record.{Record}

-- Oldest first.
abbrev pub IsSorted : List Record → Type 0
IsSorted = IsSortedBy (λ (r : Record). r.timestamp)

-- The sum of a weight over a list. Two lists with equal sums for every weight hold the same
-- records, each as often: take the weight that is 1 at one record and 0 at the others.
pub total : (Record → ℕ) → List Record → ℕ
total w [] = 0
total w (r ∷ rest) = w r + total w rest

abbrev pub SameRecords : List Record → List Record → Type 0
SameRecords xs ys = (w : Record → ℕ) → total w xs ≡ total w ys

pub total-nil : (w : Record → ℕ) → total w [] ≡ 0
unfolding total
total-nil w = refl

pub total-cons :
    (w : Record → ℕ) (r : Record) (xs : List Record) → total w (r ∷ xs) ≡ w r + total w xs
unfolding total
total-cons w r xs = refl

pub total-append :
    (w : Record → ℕ) (xs ys : List Record) → total w (xs ++ ys) ≡ total w xs + total w ys
unfolding total
total-append w [] ys = omega arith
total-append w (x ∷ xs) ys = omega (arith, total-append w xs ys)

pub total-reverse : (w : Record → ℕ) (xs : List Record) → total w (reverse xs) ≡ total w xs
total-reverse w [] = refl
total-reverse w (x ∷ xs) =
    rw (reverse-cons, total-append)
      (omega (arith, total-reverse w xs, total-cons w x xs, total-cons w x [], total-nil w))

pub ruleset totals = (arith, total-nil, total-cons, total-append, total-reverse)

-- Newest first.
abbrev pub IsDescending : List Record → Type 0
IsDescending [] = Unit
IsDescending (r ∷ rest) = All (λ (x : Record). x.timestamp ≤ r.timestamp) rest × IsDescending rest

pub All-reverse : (P : Record → Type 0) (xs : List Record) → All P xs → All P (reverse xs)
All-reverse P [] h = tt
All-reverse P (x ∷ xs) h =
    rw reverse-cons (All-append P (reverse xs) (x ∷ []) (All-reverse P xs h.1) (h.0, tt))

IsDescending-snoc :
    (xs : List Record) (x : Record)
    → IsDescending xs
    → All (λ (y : Record). x.timestamp ≤ y.timestamp) xs
    → IsDescending (xs ++ (x ∷ []))
IsDescending-snoc [] x d a = (tt, tt)
IsDescending-snoc (y ∷ xs) x d a =
    (All-append _ xs (x ∷ []) d.0 (a.0, tt), IsDescending-snoc xs x d.1 a.1)

pub IsDescending-reverse : (xs : List Record) → IsSorted xs → IsDescending (reverse xs)
IsDescending-reverse [] h = tt
IsDescending-reverse (x ∷ xs) h =
    rw reverse-cons
      (IsDescending-snoc (reverse xs) x (IsDescending-reverse xs h.1) (All-reverse _ xs h.0))

-- ===== src/RecordManager/Insert.antt =====
-- The insertion of `RecordManager::createRecord` into the active records.
use mathlib.Core.List.{reverse-reverse, reverse-cons, append_assoc, append-nil}
use vrs.Base.{ℕ, ◌+◌, ◌≤◌, ◌<◌, ◌≡◌, refl, sym, ◌∙◌, ap, List, [], ◌∷◌, ◌++◌, reverse, arith, All}
use vrs.Base.{All-map, leb, ltb, if◌then◌else◌, Bool-cases, inl, inr}
use vrs.Record.{Record}
use vrs.RecordManager.{insert_before, insert_from_back, insert_active}
use vrs.RecordManager.Order.{
  IsSorted, IsDescending, IsDescending-reverse, All-reverse, total, totals, total-append,
  total-reverse,
}

-- Insertion behind the last record that is not newer, walking from the oldest record on.
pub insert_sorted : Record → List Record → List Record
insert_sorted new [] = new ∷ []
insert_sorted new (r ∷ rest) =
    if leb r.timestamp new.timestamp then r ∷ insert_sorted new rest else new ∷ r ∷ rest

insert_sorted_between :
    (new : Record) (front back : List Record)
    → All (λ (x : Record). x.timestamp ≤ new.timestamp) front
    → All (λ (x : Record). new.timestamp < x.timestamp) back
    → insert_sorted new (front ++ back) ≡ front ++ (new ∷ back)
unfolding insert_sorted
insert_sorted_between new [] [] hf hb = refl
insert_sorted_between new [] (b ∷ back) hf hb = ground arith
insert_sorted_between new (r ∷ front) back hf hb =
    ground (arith, insert_sorted_between new front back hf.1 hb)

not_newer :
    (new r : Record) (older : List Record)
    → r.timestamp ≤ new.timestamp
    → IsDescending (r ∷ older)
    → All (λ (x : Record). x.timestamp ≤ new.timestamp) (reverse (r ∷ older))
not_newer new r older h d =
    All-reverse _ (r ∷ older) (h, All-map _ _ (λ x hx. omega arith) older d.0)

reverse_cons_append :
    (o : Record) (older back : List Record)
    → reverse older ++ (o ∷ back) ≡ reverse (o ∷ older) ++ back
reverse_cons_append o older back =
    sym (append_assoc (reverse older) (o ∷ []) back)
    ∙ ap (λ (l : List Record). l ++ back) (sym (reverse-cons o older))

-- The place behind a record that is not newer, where all behind it are.
after_last :
    (new r : Record) (older newer : List Record)
    → r.timestamp ≤ new.timestamp
    → IsDescending (r ∷ older)
    → All (λ (x : Record). new.timestamp < x.timestamp) newer
    → reverse older ++ (r ∷ new ∷ newer) ≡ insert_sorted new (reverse older ++ (r ∷ newer))
after_last new r older newer h d hn =
    reverse_cons_append r older (new ∷ newer)
    ∙ sym (insert_sorted_between new (reverse (r ∷ older)) newer (not_newer new r older h d) hn)
    ∙ ap (insert_sorted new) (sym (reverse_cons_append r older newer))

insert_before-insert_sorted :
    (new : Record) (older : List Record) (r : Record) (newer : List Record)
    → IsDescending (r ∷ older)
    → All (λ (x : Record). new.timestamp < x.timestamp) newer
    → insert_before new older r newer ≡ insert_sorted new (reverse older ++ (r ∷ newer))
unfolding insert_before
insert_before-insert_sorted new [] r newer d hn =
    elim (Bool-cases (leb r.timestamp new.timestamp)) [
      | inl e ↦ rw e (sym (insert_sorted_between new (r ∷ []) newer (ground arith) hn))
      | inr e ↦ rw e (sym (insert_sorted_between new [] (r ∷ newer) tt (ground arith, hn)))
    ]
insert_before-insert_sorted new (o ∷ older) r newer d hn =
    elim (Bool-cases (ltb new.timestamp r.timestamp)) [
      | inl e ↦ rw e (
          insert_before-insert_sorted new older o (r ∷ newer) d.1 (ground arith, hn)
          ∙ ap (insert_sorted new) (reverse_cons_append o older (r ∷ newer)))
      | inr e ↦ rw e (after_last new r (o ∷ older) newer (ground arith) d hn)
    ]

insert_from_back-insert_sorted :
    (new : Record) (rev : List Record)
    → IsDescending rev
    → insert_from_back new rev ≡ insert_sorted new (reverse rev)
insert_from_back-insert_sorted new [] d = unfold insert_sorted in refl
insert_from_back-insert_sorted new (r ∷ older) d =
    elim (Bool-cases (leb r.timestamp new.timestamp)) [
      | inl e ↦ rw e (
          sym (reverse_cons_append r older (new ∷ []))
          ∙ after_last new r older [] (ground arith) d tt
          ∙ ap (insert_sorted new) (reverse_cons_append r older [] ∙ append-nil _))
      | inr e ↦ rw e (
          insert_before-insert_sorted new older r [] d tt
          ∙ ap (insert_sorted new) (reverse_cons_append r older [] ∙ append-nil _))
    ]

-- On sorted records the walk from the newest record back inserts at the same place as the walk
-- from the oldest record on: behind every record that is not newer.
pub insert_active-insert_sorted :
    (new : Record) (active : List Record)
    → IsSorted active
    → insert_active new active ≡ insert_sorted new active
unfolding insert_active
insert_active-insert_sorted new active s =
    insert_from_back-insert_sorted new (reverse active) (IsDescending-reverse active s)
    ∙ ap (insert_sorted new) (reverse-reverse active)

insert_sorted-All :
    (P : Record → Type 0) (new : Record) (l : List Record)
    → P new
    → All P l
    → All P (insert_sorted new l)
unfolding insert_sorted
insert_sorted-All P new [] hn h = (hn, tt)
insert_sorted-All P new (r ∷ rest) hn h = elim (Bool-cases (leb r.timestamp new.timestamp)) [
  | inl e ↦ rw e (h.0, insert_sorted-All P new rest hn h.1)
  | inr e ↦ rw e (hn, h)
]

pub insert_sorted-IsSorted :
    (new : Record) (l : List Record) → IsSorted l → IsSorted (insert_sorted new l)
unfolding insert_sorted
insert_sorted-IsSorted new [] s = (tt, tt)
insert_sorted-IsSorted new (r ∷ rest) s = elim (Bool-cases (leb r.timestamp new.timestamp)) [
  | inl e ↦
      rw e (insert_sorted-All _ new rest (ground arith) s.0, insert_sorted-IsSorted new rest s.1)
  | inr e ↦ rw e ((ground arith, All-map _ _ (λ x hx. ground arith) rest s.0), s)
]

total-insert_before :
    (w : Record → ℕ) (new : Record) (older : List Record) (r : Record) (newer : List Record)
    → total w (insert_before new older r newer) ≡ w new + (w r + (total w older + total w newer))
unfolding insert_before
total-insert_before w new [] r newer = elim (Bool-cases (leb r.timestamp new.timestamp)) [
  | inl e ↦ rw e (omega totals)
  | inr e ↦ rw e (omega totals)
]
total-insert_before w new (o ∷ older) r newer = elim (Bool-cases (ltb new.timestamp r.timestamp)) [
  | inl e ↦ rw e (omega (totals, total-insert_before w new older o (r ∷ newer)))
  | inr e ↦ rw (e, total-append, total-reverse) (omega totals)
]

total-insert_from_back :
    (w : Record → ℕ) (new : Record) (rev : List Record)
    → total w (insert_from_back new rev) ≡ w new + total w rev
total-insert_from_back w new [] = omega totals
total-insert_from_back w new (r ∷ older) = elim (Bool-cases (leb r.timestamp new.timestamp)) [
  | inl e ↦ rw (e, total-append, total-reverse) (omega totals)
  | inr e ↦ rw e (omega (totals, total-insert_before w new older r []))
]

-- The insertion keeps every record and adds the new one, whether the records are sorted or not.
pub total-insert_active :
    (w : Record → ℕ) (new : Record) (active : List Record)
    → total w (insert_active new active) ≡ w new + total w active
unfolding insert_active
total-insert_active w new active =
    total-insert_from_back w new (reverse active)
    ∙ ap (λ (n : ℕ). w new + n) (total-reverse w active)

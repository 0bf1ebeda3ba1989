-- ===== src/FileReader/ByTime/Found.antt =====
-- The lookups by time find the first record that is not before the time.
use vrs.Base.{ℕ, ◌≤◌, ◌≡◌, refl, ◌∙◌, arith, Bool, true, false, ◌&&◌, inl, inr}
use vrs.Base.{
  Option, none, some, List, [], ◌∷◌, get_elem?, drop, ltb, leb, if◌then◌else◌, Bool-cases, All,
}
use vrs.Base.Search.{leading, partition_point-leading}
use vrs.Base.Sorted.{IsSortedBy, IsSortedBy-IsPartitioned, drop-leading}
use vrs.Record.{RecordType, same_type}
use vrs.FileReader.{RecordInfo}
use vrs.FileReader.ByTime.{
  is_before, lower_bound_time, find_by_time, find_type_by_time, skip_to_type,
}

-- The first element that passes a test, by a search from the front.
abbrev pub first_where {ℓ} : {A : Type ℓ} → (A → Bool) → List A → Option A
first_where p [] = none
first_where p (x ∷ xs) = if p x then some x else first_where p xs

module _ {A : Type 0} (info : A → RecordInfo) where
  abbrev pub IsInOrder : List A → Type 0
  IsInOrder = IsSortedBy (λ (a : A). (info a).timestamp)

  downward : (time a b : ℕ) → a ≤ b → ltb b time ≡ true → ltb a time ≡ true
  downward time a b le h = ground arith

  pub lower_bound_time-leading :
      (index : List A) (time : ℕ)
      → IsInOrder index
      → lower_bound_time info index time ≡ leading (is_before info time) index
  lower_bound_time-leading index time s = partition_point-leading (is_before info time) index (
      IsSortedBy-IsPartitioned (λ (a : A). (info a).timestamp) (λ k. ltb k time) (downward time)
        index s)

  -- From the time on, and of the type.
  abbrev pub is_wanted : RecordType → ℕ → A → Bool
  is_wanted t time a = leb time (info a).timestamp && same_type (info a).record_type t

  first_not_before :
      (time : ℕ) (index : List A)
      → get_elem? index (leading (is_before info time) index)
        ≡ first_where (λ (a : A). leb time (info a).timestamp) index
  first_not_before time [] = refl
  first_not_before time (a ∷ index) = ground (arith, first_not_before time index)

  skip_wanted :
      (t : RecordType) (time : ℕ) (l : List A)
      → All (λ (a : A). ltb (info a).timestamp time ≡ false) l
      → skip_to_type info t l ≡ first_where (is_wanted t time) l
  skip_wanted t time [] h = refl
  skip_wanted t time (a ∷ l) h = ground (arith, h.0, skip_wanted t time l h.1)

  first_where-drop :
      (t : RecordType) (time : ℕ) (index : List A)
      → first_where (is_wanted t time) (drop (leading (is_before info time) index) index)
        ≡ first_where (is_wanted t time) index
  first_where-drop t time [] = refl
  first_where-drop t time (a ∷ index) = elim (Bool-cases (ltb (info a).timestamp time)) [
    | inl e ↦
        let early : leb time (info a).timestamp ≡ false = ground arith in
        rw (e, early) (first_where-drop t time index)
    | inr e ↦ rw e refl
  ]

  -- In an index in order of time, the binary search finds the first record that is not before the
  -- time, and the search that goes on from there the first such record of the type.
  pub find_by_time-first_where :
      (t : RecordType) (time : ℕ) (index : List A)
      → IsInOrder index
      → (find_by_time info index time ≡ first_where (λ (a : A). leb time (info a).timestamp) index)
        × (find_type_by_time info t index time ≡ first_where (is_wanted t time) index)
  find_by_time-first_where t time index s =
      let bound = lower_bound_time-leading index time s in
      rw bound (
        first_not_before time index,
        skip_wanted t time (drop (leading (is_before info time) index) index) (
              drop-leading (λ (a : A). (info a).timestamp) (λ k. ltb k time) (downward time) index
                s)
            ∙ first_where-drop t time index,
      )

-- ===== src/FileReader/Query/Place.antt =====
-- `getRecordStreamIndex` gives back the place of a record in its stream's index.
use vrs.Base.{ℕ, zero, suc, ◌≤◌, ◌<◌, ◌≡◌, refl, ◌∙◌, ap, arith, Bool, true, false, inl, inr}
use vrs.Base.{
  some, some_injective, List, [], ◌∷◌, length, get_elem?, filter, lt→ltb, le→leb, ltb, Bool-cases,
  All, All-map, All-get_elem?,
}
use vrs.Base.Search.{partition_point, leading, partition_point-leading}
use vrs.Base.Sorted.{IsSortedBy, IsSortedBy-IsPartitioned}
use vrs.FileReader.{RecordInfo, Pointer, FileReader}
use vrs.FileReader.Pointers.{pointers, of_stream, stream_pointers, IsIndexed, get_index-IsIndexed}
use vrs.FileReader.Query.{get_record_stream_index, in_range, last_position, is_lower}

-- Each position is lower than those behind it.
abbrev IsIncreasing : List Pointer → Type 0
IsIncreasing [] = Unit
IsIncreasing (p ∷ rest) = All (λ (q : Pointer). p.position < q.position) rest × IsIncreasing rest

pointers_from :
    (records : List RecordInfo) (i : ℕ) → All (λ (q : Pointer). i ≤ q.position) (pointers records i)
pointers_from [] i = tt
pointers_from (r ∷ records) i = (
  omega arith,
  All-map _ _ (λ q h. omega arith) (pointers records (suc i)) (pointers_from records (suc i)),
)

pointers-IsIncreasing : (records : List RecordInfo) (i : ℕ) → IsIncreasing (pointers records i)
pointers-IsIncreasing [] i = tt
pointers-IsIncreasing (r ∷ records) i = (
  All-map _ _ (λ q h. omega arith) (pointers records (suc i)) (pointers_from records (suc i)),
  pointers-IsIncreasing records (suc i),
)

All-filter :
    (P : Pointer → Type 0) (test : Pointer → Bool) (l : List Pointer)
    → All P l
    → All P (filter test l)
All-filter P test [] h = tt
All-filter P test (p ∷ l) h = elim (Bool-cases (test p)) [
  | inl e ↦ rw e (h.0, All-filter P test l h.1)
  | inr e ↦ rw e (All-filter P test l h.1)
]

filter-IsIncreasing :
    (test : Pointer → Bool) (l : List Pointer) → IsIncreasing l → IsIncreasing (filter test l)
filter-IsIncreasing test [] h = tt
filter-IsIncreasing test (p ∷ l) h = elim (Bool-cases (test p)) [
  | inl e ↦ rw e (All-filter _ test l h.0, filter-IsIncreasing test l h.1)
  | inr e ↦ rw e (filter-IsIncreasing test l h.1)
]

IsIncreasing-IsSortedBy :
    (l : List Pointer) → IsIncreasing l → IsSortedBy (λ (p : Pointer). p.position) l
IsIncreasing-IsSortedBy [] h = tt
IsIncreasing-IsSortedBy (p ∷ l) h =
    (All-map _ _ (λ q lt. omega arith) l h.0, IsIncreasing-IsSortedBy l h.1)

-- The elements lower than the one at `k` are those before it.
leading-get_elem? :
    (l : List Pointer) (k : ℕ) {p : Pointer}
    → IsIncreasing l
    → get_elem? l k ≡ some p
    → leading (is_lower p.position) l ≡ k
leading-get_elem? [] k h e = cc
leading-get_elem? (q ∷ l) zero {p} h e =
    let first : q ≡ p = some_injective e in
    let not_lower : ltb q.position p.position ≡ false = ground arith in rw not_lower refl
leading-get_elem? (q ∷ l) (suc k) {p} h e =
    let above : q.position < p.position =
      All-get_elem? (λ (r : Pointer). q.position < r.position) l k h.0 e in
    let lower : ltb q.position p.position ≡ true = ground arith in
    rw lower (ap suc (leading-get_elem? l k h.1 e))

last_position_highest :
    (last : ℕ) (l : List Pointer)
    → All (λ (q : Pointer). last < q.position) l
    → IsIncreasing l
    → (last ≤ last_position last l) × All (λ (q : Pointer). q.position ≤ last_position last l) l
last_position_highest last [] h s = (omega arith, tt)
last_position_highest last (p ∷ l) h s =
    let (above, all_above) = last_position_highest p.position l s.0 s.1 in
    (omega (arith, h.0, above), (above, all_above))

get_elem?-in_range :
    (l : List Pointer) (k : ℕ) {p : Pointer}
    → IsIncreasing l
    → get_elem? l k ≡ some p
    → in_range p.position l ≡ true
get_elem?-in_range [] k s e = cc
get_elem?-in_range (q ∷ l) zero {p} s e =
    let first : q ≡ p = some_injective e in
    let (above, all_above) = last_position_highest q.position l s.0 s.1 in
    rw (← first, le→leb q.position q.position (omega arith), le→leb _ _ above) refl
get_elem?-in_range (q ∷ l) (suc k) {p} s e =
    let (above, all_above) = last_position_highest q.position l s.0 s.1 in
    let low : q.position < p.position =
      All-get_elem? (λ (r : Pointer). q.position < r.position) l k s.0 e in
    let high : p.position ≤ last_position q.position l =
      All-get_elem? (λ (r : Pointer). r.position ≤ last_position q.position l) l k all_above e in
    rw (le→leb q.position p.position (omega arith), le→leb _ _ high) refl

index_below : (l : List Pointer) (k : ℕ) {p : Pointer} → get_elem? l k ≡ some p → k < length l
index_below [] k e = cc
index_below (q ∷ l) zero e = omega arith
index_below (q ∷ l) (suc k) e = omega (arith, index_below l k e)

partition_point-get_elem? :
    (l : List Pointer) (k : ℕ) (p : Pointer)
    → IsIncreasing l
    → get_elem? l k ≡ some p
    → partition_point (is_lower p.position) l ≡ k
partition_point-get_elem? l k p s e =
    partition_point-leading (is_lower p.position) l (
      IsSortedBy-IsPartitioned (λ (q : Pointer). q.position) (λ n. ltb n p.position)
        (λ a b le h. ground arith) l (IsIncreasing-IsSortedBy l s))
    ∙ leading-get_elem? l k s e

-- In a reader whose stream indexes are not made yet or are right, a record of a stream that
-- stands at the place `k` of the stream's index has `k` for its stream index.
pub get_record_stream_index-get_elem? :
    (reader : FileReader) (p : Pointer) (k : ℕ)
    → IsIndexed reader
    → get_elem? (stream_pointers reader.record_index p.info.stream_id) k ≡ some p
    → (get_record_stream_index reader p).1 ≡ k
unfolding get_record_stream_index
get_record_stream_index-get_elem? reader p k w e =
    let id = p.info.stream_id in
    let l = stream_pointers reader.record_index id in
    let (same_index, same_records, same_requests, after) = get_index-IsIndexed reader id w in
    let increasing : IsIncreasing l =
      filter-IsIncreasing (of_stream id) (pointers reader.record_index 0)
        (pointers-IsIncreasing reader.record_index 0) in
    rw
      (
        same_index,
        partition_point-get_elem? l k p increasing e,
        get_elem?-in_range l k increasing e,
        lt→ltb k (length l) (index_below l k e),
      )
      refl

-- ===== src/FileReader/Query/Streams.antt =====
-- The streams of a type, the records of a type and the last of them, by the filtered lists.
use mathlib.Core.List.{reverse-cons}
use vrs.Base.{ℕ, suc, ◌+◌, ◌-◌, ◌≤◌, ◌≡◌, refl, ◌∙◌, ap, arith, Bool, inl, inr}
use vrs.Base.{
  Option, none, some, List, [], ◌∷◌, ◌++◌, length, get_elem?, filter, reverse, ◌==◌, if◌then◌else◌,
  Bool-cases, Option-cases,
}
use vrs.StreamId.{StreamId, undefined}
use vrs.Record.{RecordType}
use vrs.FileReader.{Pointer, FileReader, has_type}
use vrs.FileReader.Pointers.{stream_pointers, IsIndexed, get_index-IsIndexed}
use vrs.FileReader.Seek.{of_type}
use vrs.FileReader.Query.{
  find_stream, get_stream_for_type, count_type, get_type_count, find_type, get_last_record,
}

abbrev pub has_type_id : ℕ → StreamId → Bool
has_type_id type_id id = id.type_id == type_id

-- The element at an index, or the undefined id past the end.
abbrev pub stream_at : List StreamId → ℕ → StreamId
stream_at ids n = elim (get_elem? ids n) [ none ↦ undefined | some id ↦ id ]

find_stream-filter :
    (ids : List StreamId) (type_id n hits : ℕ)
    → hits ≤ n
    → find_stream ids type_id n hits ≡ stream_at (filter (has_type_id type_id) ids) (n - hits)
unfolding find_stream
find_stream-filter [] type_id n hits h = refl
find_stream-filter (id ∷ rest) type_id n hits h = elim (Bool-cases (id.type_id == type_id)) [
  | inr e ↦ rw e (find_stream-filter rest type_id n hits h)
  | inl e ↦ elim (Bool-cases (hits == n)) [
    | inl f ↦ let here : n - hits ≡ 0 = ground arith in rw (e, f, here) refl
    | inr f ↦
        let behind : n - hits ≡ suc (n - suc hits) = ground arith in
        rw (e, f, behind) (find_stream-filter rest type_id n (suc hits) (ground arith))
  ]
]

-- The stream with a type and a number is the one with that number among the streams of the type, in
-- the order of the streams, or the undefined stream when there are not so many.
pub get_stream_for_type-filter :
    (reader : FileReader) (type_id n : ℕ)
    → get_stream_for_type reader type_id n
      ≡ stream_at (filter (has_type_id type_id) reader.stream_ids) n
unfolding get_stream_for_type
get_stream_for_type-filter reader type_id n =
    find_stream-filter reader.stream_ids type_id n 0 (omega arith)
    ∙ ap (stream_at (filter (has_type_id type_id) reader.stream_ids)) (omega arith)

count_type-length :
    (t : RecordType) (index : List Pointer) (count : ℕ)
    → count_type t index count ≡ count + length (of_type t index)
unfolding count_type
count_type-length t [] count = omega arith
count_type-length t (p ∷ rest) count = elim (Bool-cases (has_type t p)) [
  | inl e ↦ rw e (omega (arith, count_type-length t rest (suc count)))
  | inr e ↦ rw e (omega (arith, count_type-length t rest count))
]

find_type-append :
    (t : RecordType) (xs : List Pointer) (p : Pointer)
    → find_type t (xs ++ (p ∷ []))
      ≡ elim (find_type t xs) [ none ↦ (if has_type t p then some p else none) | some q ↦ some q ]
unfolding find_type
find_type-append t [] p = refl
find_type-append t (x ∷ xs) p = ground (arith, find_type-append t xs p)

-- The last element.
abbrev pub last_of : List Pointer → Option Pointer
last_of [] = none
last_of (p ∷ rest) = elim (last_of rest) [ none ↦ some p | some q ↦ some q ]

find_type-last_of :
    (t : RecordType) (index : List Pointer)
    → find_type t (reverse index) ≡ last_of (of_type t index)
unfolding find_type
find_type-last_of t [] = refl
find_type-last_of t (p ∷ rest) =
    rw (reverse-cons p rest, find_type-append t (reverse rest) p, find_type-last_of t rest)
      (elim (Option-cases (last_of (of_type t rest))) [
        | inl f ↦
            rw f
              (elim (Bool-cases (has_type t p)) [ inl e ↦ rw (e, f) refl | inr e ↦ rw (e, f) refl ])
        | inr (q, f) ↦
            rw f
              (elim (Bool-cases (has_type t p)) [ inl e ↦ rw (e, f) refl | inr e ↦ rw (e, f) refl ])
      ])

-- In a reader whose stream indexes are not made yet or are right, the count of a stream's
-- records of a type is the number of these records among the file's, and the last record of the
-- type is the last of them, if there is any.
pub get_type_count-length :
    (reader : FileReader) (id : StreamId) (t : RecordType)
    → IsIndexed reader
    → let records = of_type t (stream_pointers reader.record_index id) in
      ((get_type_count reader id t).1 ≡ length records)
      × ((get_last_record reader id t).1 ≡ last_of records)
unfolding get_last_record
get_type_count-length reader id t w =
    let (same_index, same_records, same_requests, after) = get_index-IsIndexed reader id w in
    rw same_index (
      count_type-length t (stream_pointers reader.record_index id) 0 ∙ (omega arith),
      find_type-last_of t (stream_pointers reader.record_index id),
    )

-- ===== src/FileReader/Cache.antt =====
-- `RecordFileReader::getRecord(streamId, recordType, indexNumber)`: the lookup that starts at the
-- result of an earlier one finds what a search from the start would find.
use vrs.Base.{ℕ, ◌≤◌, ◌≡◌, refl, sym, ◌∙◌, ap, subst, arith, true, ◌&&◌, inl, inr}
use vrs.Base.{List, [], ◌∷◌, length, length-filter, get_elem?, get_elem?_past, take, drop}
use vrs.Base.{Option, none, some, All, if◌then◌else◌, Bool-cases, Option-cases, leb}
use vrs.StreamId.{StreamId, same}
use vrs.Record.{RecordType, same_type}
use vrs.FileReader.{
  RecordInfo, Pointer, FileReader, Request, has_type, find_request, save_request, seek, start_of,
  finish_lookup, get_record_of_type, get_index,
}
use vrs.FileReader.Seek.{of_type, seek-IsHit, IsFound, IsHit-IsFound}
use vrs.FileReader.Pointers.{stream_pointers, same→≡, IsIndexed, get_index-IsIndexed}

pub same_type→≡ : (t u : RecordType) → same_type t u ≡ true → t ≡ u
same_type→≡ RecordType.undefined RecordType.undefined h = refl
same_type→≡ RecordType.state RecordType.state h = refl
same_type→≡ RecordType.configuration RecordType.configuration h = refl
same_type→≡ RecordType.data_type RecordType.data_type h = refl
same_type→≡ RecordType.tags RecordType.tags h = refl
same_type→≡ _ _ h = absurd (ground arith)

-- A request tells how many records of its type stand before the place where its record was found.
abbrev pub IsRemembered : List RecordInfo → Request → Type 0
IsRemembered records q =
    length (of_type q.record_type (take q.search_index (stream_pointers records q.stream_id)))
    ≡ q.index_number

-- The state of a reader between two calls.
pub record IsOpen (reader : FileReader) : Type 0 where
  pub indexed : IsIndexed reader
  pub remembered : All (IsRemembered reader.record_index) reader.last_request

find_request-All :
    (P : Request → Type 0) (id : StreamId) (t : RecordType) (l : List Request) {q : Request}
    → All P l
    → find_request id t l ≡ some q
    → P q × (q.stream_id ≡ id) × (q.record_type ≡ t)
unfolding find_request
find_request-All P id t [] w e = cc
find_request-All P id t (x ∷ l) {q} w e =
    elim (Bool-cases (same id x.stream_id && same_type t x.record_type)) [
      | inl f ↦
          let found : x ≡ q = ground arith in
          let same_id : x.stream_id ≡ id = sym (same→≡ id x.stream_id (ground arith)) in
          let same_t : x.record_type ≡ t = sym (same_type→≡ t x.record_type (ground arith)) in
          subst (λ (z : Request). P z × (z.stream_id ≡ id) × (z.record_type ≡ t)) found
            (w.0, same_id, same_t)
      | inr f ↦ find_request-All P id t l w.1 (ground arith)
    ]

save_request-All :
    (P : Request → Type 0) (new : Request) (l : List Request)
    → P new
    → All P l
    → All P (save_request new l)
unfolding save_request
save_request-All P new [] h w = (h, tt)
save_request-All P new (x ∷ l) h w =
    elim (Bool-cases (same new.stream_id x.stream_id && same_type new.record_type x.record_type)) [
      | inl f ↦ rw f (h, w.1)
      | inr f ↦ rw f (w.0, save_request-All P new l h w.1)
    ]

-- Where the search starts, as many records of the type stand before as it has counted.
start_of-counted :
    (records : List RecordInfo) (id : StreamId) (t : RecordType) (n : ℕ) (l : List Request)
    → All (IsRemembered records) l
    → let (i, hits) = start_of (find_request id t l) n in
      (hits ≤ n) × (length (of_type t (take i (stream_pointers records id))) ≡ hits)
unfolding start_of
start_of-counted records id t n l w = elim (Option-cases (find_request id t l)) [
  | inl e ↦ rw e (omega arith, refl)
  | inr (q, e) ↦
      let (counted, same_id, same_t) = find_request-All (IsRemembered records) id t l w e in
      elim (Bool-cases (leb q.index_number n)) [
        | inl f ↦ rw (e, f, ← same_id, ← same_t) (ground arith, counted)
        | inr f ↦ rw (e, f) (omega arith, refl)
      ]
]

finish_lookup-IsOpen :
    (reader : FileReader) (id : StreamId) (t : RecordType) (n : ℕ)
    → IsOpen reader
    → (o : Option (Pointer × ℕ)) → IsFound t n (stream_pointers reader.record_index id) o
    → let (reader', found) = finish_lookup reader id t n o in
      (found ≡ get_elem? (of_type t (stream_pointers reader.record_index id)) n) × IsOpen reader'
unfolding finish_lookup IsFound
finish_lookup-IsOpen reader id t n w none f = (sym f, w)
finish_lookup-IsOpen reader id t n w (some (p, j)) f = (
  sym f.0,
  record {
    indexed = record { ids_given = w.indexed.ids_given; indexed = w.indexed.indexed };
    remembered =
        save_request-All (IsRemembered reader.record_index) _ reader.last_request f.1 w.remembered;
  },
)

get_index-IsOpen :
    (reader : FileReader) (id : StreamId) → IsOpen reader → IsOpen (get_index reader id).0
get_index-IsOpen reader id w =
    let (same_index, same_records, same_requests, indexed) =
      get_index-IsIndexed reader id w.indexed in
    record { indexed = indexed; remembered = rw (same_records, same_requests) w.remembered }

lookup-IsOpen :
    (reader : FileReader) (id : StreamId) (t : RecordType) (n : ℕ) (index : List Pointer)
    → IsOpen reader
    → index ≡ stream_pointers reader.record_index id
    → let (i, hits) = start_of (find_request id t reader.last_request) n in
      let (reader', found) =
        (if leb (length index) n
          then (reader, none)
          else finish_lookup reader id t n (seek t n (drop i index) i hits)) in
      (found ≡ get_elem? (of_type t index) n) × IsOpen reader'
lookup-IsOpen reader id t n index w e = elim (Bool-cases (leb (length index) n)) [
  | inl past ↦
      let beyond : length (of_type t index) ≤ n =
        ground (arith, length-filter (has_type t) index) in
      rw past (sym (get_elem?_past (of_type t index) n beyond), w)
  | inr within ↦
      let start = start_of (find_request id t reader.last_request) n in
      let (fewer, counted) =
        start_of-counted reader.record_index id t n reader.last_request w.remembered in
      rw (within, e)
        (finish_lookup-IsOpen reader id t n w _ (
          IsHit-IsFound t n (stream_pointers reader.record_index id) start.0 start.1 fewer counted _
            (seek-IsHit t n (drop start.0 (stream_pointers reader.record_index id)) start.0 start.1
              fewer)))
]

-- In a reader whose stream indexes are not made yet or are right, and whose remembered requests
-- are right, the lookup of the n-th record of a type in a stream, which may start at a
-- remembered request, gives the n-th of the stream's records of that type, in the order of the
-- file's index, or nothing if there are not so many; and the reader that it leaves is such a one
-- again.
pub get_record_of_type-IsOpen :
    (reader : FileReader) (id : StreamId) (t : RecordType) (n : ℕ)
    → IsOpen reader
    → let (reader', found) = get_record_of_type reader id t n in
      (found ≡ get_elem? (of_type t (stream_pointers reader.record_index id)) n) × IsOpen reader'
unfolding get_record_of_type
get_record_of_type-IsOpen reader id t n w =
    let (same_index, same_records, same_requests, indexed) =
      get_index-IsIndexed reader id w.indexed in
    let reader' = (get_index reader id).0 in
    let here : (get_index reader id).1 ≡ stream_pointers reader'.record_index id =
      same_index ∙ ap (λ (l : List RecordInfo). stream_pointers l id) (sym same_records) in
    let (found, after) =
      lookup-IsOpen reader' id t n (get_index reader id).1 (get_index-IsOpen reader id w) here in
    (found ∙ ap (λ (l : List Pointer). get_elem? (of_type t l) n) same_index, after)

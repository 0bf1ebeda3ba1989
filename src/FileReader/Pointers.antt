-- ===== src/FileReader/Pointers.antt =====
-- `RecordFileReader::getIndex`: the index of a stream is the file's index, filtered.
use vrs.Base.{ℕ, suc, ◌≡◌, refl, sym, ◌∙◌, ap, arith, Bool, true, false, ◌&&◌, not, inl, inr}
use vrs.Base.{List, [], ◌∷◌, ◌++◌, filter, if◌then◌else◌, Bool-cases}
use mathlib.Core.List.{append-nil, append_assoc}
use vrs.StreamId.{StreamId, same}
use vrs.FileReader.{
  RecordInfo, Pointer, StreamIndex, FileReader, push_pointer, fill_indexes, pointers_of, enter_key,
  is_empty, make_indexes, get_index,
}

pub same→≡ : (a b : StreamId) → same a b ≡ true → a ≡ b
same→≡ a b h =
    let p : a.type_id ≡ b.type_id = ground arith in
    let q : a.instance_id ≡ b.instance_id = ground arith in
    let change_type : (x : ℕ) → a.type_id ≡ x → a ≡ record a { type_id = x } =
      λ x e. ap (λ (y : ℕ). record a { type_id = y }) e in
    change_type b.type_id p ∙ ap (λ (y : ℕ). record b { instance_id = y }) q

-- The pointers to the records of a list that starts at the position `i`.
abbrev pub pointers : List RecordInfo → ℕ → List Pointer
pointers [] i = []
pointers (r ∷ rest) i = record { position = i; info = r } ∷ pointers rest (suc i)

abbrev pub of_stream : StreamId → Pointer → Bool
of_stream id p = same id p.info.stream_id

-- The records of a stream, in the order of the file's index.
abbrev pub stream_pointers : List RecordInfo → StreamId → List Pointer
stream_pointers records id = filter (of_stream id) (pointers records 0)

pointers_of-push_pointer :
    (id key : StreamId) (p : Pointer) (m : StreamIndex)
    → pointers_of id (push_pointer key p m)
      ≡ pointers_of id m ++ (if same id key then p ∷ [] else [])
unfolding pointers_of push_pointer
pointers_of-push_pointer id key p [] = ground arith
pointers_of-push_pointer id key p ((k, ps) ∷ m) =
    ground
      (arith, pointers_of-push_pointer id key p m, append-nil ps, append-nil (pointers_of id m))

pointers_of-fill_indexes :
    (id : StreamId) (records : List RecordInfo) (i : ℕ) (m : StreamIndex)
    → pointers_of id (fill_indexes records i m)
      ≡ pointers_of id m ++ filter (of_stream id) (pointers records i)
unfolding fill_indexes
pointers_of-fill_indexes id [] i m = sym (append-nil (pointers_of id m))
pointers_of-fill_indexes id (r ∷ records) i m =
    let p : Pointer = record { position = i; info = r } in
    rw
      (
        pointers_of-fill_indexes id records (suc i) (push_pointer r.stream_id p m),
        pointers_of-push_pointer id r.stream_id p m,
      )
      (elim (Bool-cases (same id r.stream_id)) [
        | inl e ↦ rw e (append_assoc (pointers_of id m) (p ∷ []) _)
        | inr e ↦ rw (e, append-nil (pointers_of id m)) refl
      ])

pointers_of-enter_key :
    (id key : StreamId) (m : StreamIndex) → pointers_of id (enter_key key m) ≡ pointers_of id m
unfolding pointers_of enter_key
pointers_of-enter_key id key [] = ground arith
pointers_of-enter_key id key ((k, ps) ∷ m) = ground (arith, pointers_of-enter_key id key m)

-- The state of a reader's stream indexes: not made yet, or those of the file's index.
pub record IsIndexed (reader : FileReader) : Type 0 where
  pub ids_given : is_empty reader.stream_ids ≡ true → reader.record_index ≡ []
  pub indexed :
      is_empty reader.stream_index ≡ false
      → (id : StreamId)
      → pointers_of id reader.stream_index ≡ stream_pointers reader.record_index id

filled :
    (reader : FileReader) (id : StreamId)
    → pointers_of id (fill_indexes reader.record_index 0 [])
      ≡ stream_pointers reader.record_index id
unfolding pointers_of
filled reader id = pointers_of-fill_indexes id reader.record_index 0 []

no_records :
    (records : List RecordInfo) (id : StreamId)
    → is_empty records ≡ true
    → pointers_of id [] ≡ stream_pointers records id
unfolding pointers_of
no_records [] id e = refl
no_records (r ∷ rest) id e = absurd (ground arith)

empty_list {ℓ} : {A : Type ℓ} (l : List A) → is_empty l ≡ true → l ≡ []
empty_list [] e = refl
empty_list (x ∷ l) e = absurd (ground arith)

make_indexes-stream_pointers :
    (reader : FileReader) (id : StreamId)
    → IsIndexed reader
    → pointers_of id (make_indexes reader) ≡ stream_pointers reader.record_index id
unfolding make_indexes
make_indexes-stream_pointers reader id w = elim (Bool-cases (is_empty reader.stream_index)) [
  | inr e ↦ rw e (w.indexed e id)
  | inl e ↦ elim (Bool-cases (is_empty reader.record_index)) [
    | inl n ↦
        let not_made : not (is_empty reader.stream_ids) && false ≡ false = ground arith in
        rw (e, empty_list reader.stream_index e, n, not_made) (no_records reader.record_index id n)
    | inr n ↦ elim (Bool-cases (is_empty reader.stream_ids)) [
      | inl g ↦ absurd (ground (arith, w.ids_given g))
      | inr g ↦ rw (e, n, g) (filled reader id)
    ]
  ]
]

-- In a reader whose stream indexes are not made yet or are right, the index that `getIndex`
-- gives for the stream `id` is the file's index without the other streams' records; the reader
-- that it leaves has the same records and requests, and is such a one again.
pub get_index-IsIndexed :
    (reader : FileReader) (id : StreamId)
    → IsIndexed reader
    → let (reader', index) = get_index reader id in
      (index ≡ stream_pointers reader.record_index id)
      × (reader'.record_index ≡ reader.record_index)
      × (reader'.last_request ≡ reader.last_request)
      × IsIndexed reader'
unfolding get_index
get_index-IsIndexed reader id w = (
  make_indexes-stream_pointers reader id w,
  refl,
  refl,
  record {
    ids_given = w.ids_given;
    indexed = λ n other.
        pointers_of-enter_key other id (make_indexes reader)
        ∙ make_indexes-stream_pointers reader other w;
  },
)

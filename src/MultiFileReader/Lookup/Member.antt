-- ===== src/MultiFileReader/Lookup/Member.antt =====
-- Pointers to records as elements of the files' indexes.
use vrs.Base.{ℕ, ◌≡◌, refl, sym, ◌∙◌, ap, arith, Bool, true, ◌&&◌, ◌==◌, ==_refl}
use vrs.Base.{some, List, get_elem?}
use vrs.Base.Sums.{SameElements, SameElements-get_elem?}
use vrs.Record.{same_type, type_id}
use vrs.FileReader.Cache.{same_type→≡}
use vrs.MultiFileReader.{RecordPointer}

-- The numbers that make a pointer.
is_equal : RecordPointer → RecordPointer → Bool
is_equal p q =
    (p.reader == q.reader && p.place.position == q.place.position)
    && (p.place.info.timestamp == q.place.info.timestamp
        && p.place.info.file_offset == q.place.info.file_offset)
    && (p.place.info.stream_id.type_id == q.place.info.stream_id.type_id
        && p.place.info.stream_id.instance_id == q.place.info.stream_id.instance_id)
    && same_type p.place.info.record_type q.place.info.record_type

is_equal_refl : (p : RecordPointer) → is_equal p p ≡ true
unfolding is_equal
is_equal_refl p =
    rw
      (
        ==_refl p.reader,
        ==_refl p.place.position,
        ==_refl p.place.info.timestamp,
        ==_refl p.place.info.file_offset,
        ==_refl p.place.info.stream_id.type_id,
        ==_refl p.place.info.stream_id.instance_id,
        ==_refl (type_id p.place.info.record_type),
      )
      refl

is_equal→≡ : (p q : RecordPointer) → is_equal p q ≡ true → p ≡ q
unfolding is_equal
is_equal→≡ p q e =
    let reader : p.reader ≡ q.reader = ground arith in
    let position : p.place.position ≡ q.place.position = ground arith in
    let timestamp : p.place.info.timestamp ≡ q.place.info.timestamp = ground arith in
    let file_offset : p.place.info.file_offset ≡ q.place.info.file_offset = ground arith in
    let stream_type : p.place.info.stream_id.type_id ≡ q.place.info.stream_id.type_id =
      ground arith in
    let instance : p.place.info.stream_id.instance_id ≡ q.place.info.stream_id.instance_id =
      ground arith in
    let kind : p.place.info.record_type ≡ q.place.info.record_type =
      same_type→≡ p.place.info.record_type q.place.info.record_type (ground arith) in
    rw (reader, position, timestamp, file_offset, stream_type, instance, kind) refl

-- An element of a list is one of every list with the same elements.
pub same_member :
    (xs ys : List RecordPointer) (i : ℕ) (p : RecordPointer)
    → SameElements xs ys
    → get_elem? xs i ≡ some p
    → (j : ℕ) × (get_elem? ys j ≡ some p)
same_member xs ys i p same e =
    let (j, q, at, t) = SameElements-get_elem? (is_equal p) xs ys i same e (is_equal_refl p) in
    (j, at ∙ ap some (sym (is_equal→≡ p q t)))

-- ===== src/IndexRecord/Offsets.antt =====
-- The offsets that the two loops give to the records, and the records that they drop.
use vrs.Base.{ℕ, max, suc, ◌+◌, ◌≤◌, ◌<◌, ◌≡◌, refl, sym, ◌∙◌, ap, arith, true, false, inl, inr}
use mathlib.Core.List.{append-nil, append_assoc}
use vrs.Base.{
  some, List, [], ◌∷◌, ◌++◌, length, take, ltb, if◌then◌else◌, Bool-cases, All, length-append,
}
use vrs.FileReader.{RecordInfo}
use vrs.IndexRecord.{
  DiskRecordInfo, IndexReader, emplace, info_at, insert_stream, get_stream_id, read_classic,
  read_split, take_split_entry,
}

-- How many entries from the front end within the file, up to the first that does not.
abbrev pub fitting : ℕ → ℕ → List DiskRecordInfo → ℕ
fitting total offset [] = 0
fitting total offset (d ∷ rest) =
    if ltb total (offset + d.record_size)
    then 0
    else suc (fitting total (offset + d.record_size) rest)

-- Each record stands where the one before it ends.
abbrev pub laid_out : ℕ → List DiskRecordInfo → List RecordInfo
laid_out offset [] = []
laid_out offset (d ∷ rest) = info_at d offset ∷ laid_out (offset + d.record_size) rest

abbrev pub sum_sizes : List DiskRecordInfo → ℕ
sum_sizes [] = 0
sum_sizes (d ∷ rest) = d.record_size + sum_sizes rest

-- What a loop over `entries` from `offset` on leaves.
pub record IsRead (entries : List DiskRecordInfo) (offset : ℕ) (reader reader' : IndexReader)
    (offset' : ℕ) : Type 0 where
  pub kept :
      reader'.index
      ≡ reader.index
        ++ laid_out offset (take (fitting reader.total_file_size offset entries) entries)
  pub dropped :
      reader'.dropped_record_count + fitting reader.total_file_size offset entries
      ≡ reader.dropped_record_count + length entries
  pub ended :
      offset' ≡ offset + sum_sizes (take (fitting reader.total_file_size offset entries) entries)
  pub within : offset' ≤ max offset reader.total_file_size

classic_step :
    (count : ℕ) (entries : List DiskRecordInfo) (reader : IndexReader) (offset : ℕ)
    → reader.dropped_record_count ≡ 0
    → count ≡ length reader.index + length entries
    → let (reader', offset') = read_classic count entries reader offset in
      IsRead entries offset reader reader' offset'
unfolding read_classic emplace
classic_step count [] reader offset h k = record {
  kept = sym (append-nil reader.index);
  dropped = omega (arith, h, k);
  ended = omega arith;
  within = omega arith;
}
classic_step count (d ∷ rest) reader offset h k =
    let next = offset + d.record_size in
    elim (Bool-cases (ltb reader.total_file_size next)) [
      | inl e ↦ rw e (record {
        kept = rw e (sym (append-nil reader.index));
        dropped = rw e (omega (arith, h, k));
        ended = rw e (omega arith);
        within = omega arith;
      })
      | inr e ↦
          let rest_read =
            classic_step count rest (emplace (info_at d offset) reader) next h
              (omega (arith, k, length-append reader.index (info_at d offset ∷ []))) in
          rw e (record {
            kept = rw e (rest_read.kept ∙ append_assoc reader.index (info_at d offset ∷ []) _);
            dropped = rw e (omega (arith, rest_read.dropped));
            ended = rw e (omega (arith, rest_read.ended));
            within = ground (arith, rest_read.within);
          })
    ]

-- The loop of the classic index, started without dropped records and with an empty index, keeps the
-- longest run of entries from the front that end within the file, and gives to each record the
-- offset where the one before it ends; the others are counted as dropped, and the loop ends where the
-- last record kept does, which is within the file unless the first record starts behind it.
pub read_classic-IsRead :
    (entries : List DiskRecordInfo) (reader : IndexReader) (offset : ℕ)
    → reader.dropped_record_count ≡ 0
    → reader.index ≡ []
    → let (reader', offset') = read_classic (length entries) entries reader offset in
      IsRead entries offset reader reader' offset'
read_classic-IsRead entries reader offset h k =
    let empty : length reader.index ≡ 0 = ap length k in
    classic_step (length entries) entries reader offset h (omega (arith, empty))

-- After the first record that is dropped, all are.
split_drops :
    (entries : List DiskRecordInfo) (reader : IndexReader) (used : ℕ)
    → All (λ (d : DiskRecordInfo). reader.record_header_size ≤ d.record_size) entries
    → 0 < reader.dropped_record_count
    → read_split entries reader used
      ≡ some (
        record reader { dropped_record_count = reader.dropped_record_count + length entries },
        used,
      )
unfolding read_split take_split_entry
split_drops [] reader used w h =
    let same_count : reader.dropped_record_count ≡ reader.dropped_record_count + 0 = omega arith in
    ap (λ (n : ℕ). some (record reader { dropped_record_count = n }, used)) same_count
split_drops (d ∷ rest) reader used w h =
    let large : ltb d.record_size reader.record_header_size ≡ false = ground (arith, w.0) in
    let some_dropped : ltb 0 reader.dropped_record_count ≡ true = ground arith in
    rw (large, some_dropped)
      (split_drops rest (record reader { dropped_record_count = reader.dropped_record_count + 1 })
          used w.1 (omega arith)
        ∙ ap (λ (n : ℕ). some (record reader { dropped_record_count = n }, used)) (omega arith))

-- On entries that are at least as large as a record header, and started without dropped records,
-- the loop of the split index returns, without an error, and keeps the longest run of entries
-- from the front that end within the file, each record at the offset where the one before it
-- ends; the others are counted as dropped, and the loop ends where the last record kept does.
pub read_split-IsRead :
    (entries : List DiskRecordInfo) (reader : IndexReader) (used : ℕ)
    → All (λ (d : DiskRecordInfo). reader.record_header_size ≤ d.record_size) entries
    → reader.dropped_record_count ≡ 0
    → (reader' : IndexReader) × (used' : ℕ) × (read_split entries reader used
        ≡ some (reader', used'))
      × IsRead entries used reader reader' used'
unfolding read_split take_split_entry emplace
read_split-IsRead [] reader used w h = (
  reader,
  used,
  refl,
  record {
    kept = sym (append-nil reader.index);
    dropped = omega (arith, h);
    ended = omega arith;
    within = omega arith;
  },
)
read_split-IsRead (d ∷ rest) reader used w h =
    let large : ltb d.record_size reader.record_header_size ≡ false = ground (arith, w.0) in
    let none_dropped : ltb 0 reader.dropped_record_count ≡ false = ground (arith, h) in
    elim (Bool-cases (ltb reader.total_file_size (used + d.record_size))) [
      | inl e ↦
          let reader' = record reader {
            dropped_record_count = reader.dropped_record_count + 1 + length rest;
          } in
          let stops =
            split_drops rest
              (record reader { dropped_record_count = reader.dropped_record_count + 1 }) used w.1
              (omega arith) in
          (
            reader',
            used,
            rw (large, none_dropped, e) stops,
            record {
              kept = rw e (sym (append-nil reader.index));
              dropped = rw e (omega (arith, h));
              ended = rw e (omega arith);
              within = omega arith;
            },
          )
      | inr e ↦
          let next = record (emplace (info_at d used) reader) {
            stream_ids = insert_stream (get_stream_id d) reader.stream_ids;
          } in
          let (reader', used', more, rest_read) =
            read_split-IsRead rest next (used + d.record_size) w.1 h in
          (
            reader',
            used',
            rw (large, none_dropped, e) more,
            record {
              kept = rw e (rest_read.kept ∙ append_assoc reader.index (info_at d used ∷ []) _);
              dropped = rw e (omega (arith, rest_read.dropped));
              ended = rw e (omega (arith, rest_read.ended));
              within = ground (arith, rest_read.within);
            },
          )
    ]

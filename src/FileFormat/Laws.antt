-- ===== src/FileFormat/Laws.antt =====
-- What the readers rely on of the headers.
use vrs.Base.{
  ℕ, ◌+◌, ◌/◌, ◌%◌, ◌^◌, ◌≤◌, ◌<◌, ◌≡◌, refl, arith, Bool, true, false, ◌&&◌, ◌||◌, inl, inr, ◌⊎◌,
}
use vrs.Base.{ltb, leb, ◌==◌, if◌then◌else◌, Bool-cases}
use vrs.StreamId.{StreamId, IsUint16}
use vrs.Record.{RecordType}
use vrs.FileFormat.{
  FileHeader, init, init_with, looks_like_our_files, looks_like_avrs_file, is_format_supported,
  enable_front_index_record_support, get_end_of_user_records_offset, signed_less, signed_min,
  make_record_header, get_stream_id, read_recordable_type_id, size_of_file_header,
  size_of_record_header, original_file_format_version, front_index_file_format_version,
  zstd_format_version,
}

-- A header that `init` has set, with or without a front index then, is recognised as that of a VRS
-- file in a supported format, and its creation id agrees with the clock but for the 30 lowest bits.
pub init-looks_like_avrs_file :
    (now random_bits : ℕ) (header : FileHeader)
    → let new = init now random_bits header in
      (looks_like_avrs_file new ≡ true)
      × (is_format_supported new ≡ true)
      × (looks_like_avrs_file (enable_front_index_record_support new) ≡ true)
      × (is_format_supported (enable_front_index_record_support new) ≡ true)
      × (new.creation_id / 2 ^ 30 ≡ now / 2 ^ 30)
unfolding looks_like_our_files is_format_supported init_with
init-looks_like_avrs_file now random_bits header = (refl, refl, refl, refl, omega arith)

-- In a header that is recognised, the sizes of the headers are at least those of the structures, and
-- at most 200 bytes more.
pub looks_like_our_files_sizes :
    (header : FileHeader) (magic1 magic2 magic3 : ℕ)
    → looks_like_our_files header magic1 magic2 magic3 ≡ true
    → (size_of_file_header ≤ header.file_header_size)
      × (header.file_header_size ≤ size_of_file_header + 200)
      × (size_of_record_header ≤ header.record_header_size)
      × (header.record_header_size ≤ size_of_record_header + 200)
unfolding looks_like_our_files
looks_like_our_files_sizes header magic1 magic2 magic3 h =
    (ground arith, ground arith, ground arith, ground arith)

-- An estimate that is in the file, and is the offset unless it is the end of the file.
abbrev IsEstimate : ℕ → ℕ → ℕ → Type 0
IsEstimate file_size offset end = (end ≤ file_size) × ((end ≡ file_size) ⊎ (end ≡ offset))

IsEstimate-if :
    (file_size offset a b : ℕ) (test : Bool)
    → (test ≡ true → IsEstimate file_size offset a)
    → IsEstimate file_size offset b
    → IsEstimate file_size offset (if test then a else b)
IsEstimate-if file_size offset a b true h k = h refl
IsEstimate-if file_size offset a b false h k = k

signed_min-IsEstimate :
    (file_size offset : ℕ)
    → file_size < 2 ^ 63
    → offset < 2 ^ 64
    → signed_less 0 offset ≡ true
    → IsEstimate file_size offset (signed_min file_size offset)
signed_min-IsEstimate a b h q p = elim (Bool-cases (signed_less b a)) [
  | inl e ↦ rw e (ground arith, inr refl)
  | inr e ↦ rw e (omega arith, inl refl)
]

-- For a file size that an int64_t holds, whatever the header holds, the estimate of the end of
-- the user records is never past the end of the file, and it is that end or the offset of the
-- index record.
pub get_end_of_user_records_offset_bounds :
    (header : FileHeader) (file_size : ℕ)
    → file_size < 2 ^ 63
    → header.index_record_offset < 2 ^ 64
    → let end = get_end_of_user_records_offset header file_size in
      (end ≤ file_size) × ((end ≡ file_size) ⊎ (end ≡ header.index_record_offset))
unfolding get_end_of_user_records_offset
get_end_of_user_records_offset_bounds header file_size h k =
    let offset = header.index_record_offset in
    let whole : IsEstimate file_size offset file_size = (omega arith, inl refl) in
    let cut = signed_min-IsEstimate file_size offset h k in
    let choose = IsEstimate-if file_size offset in
    choose _ _ (looks_like_avrs_file header)
      (λ _.
        choose _ _ (header.file_format_version == original_file_format_version)
          (λ _. choose _ _ (signed_less 0 offset) cut whole)
          (choose _ _
            (header.file_format_version == front_index_file_format_version
              || header.file_format_version == zstd_format_version)
            (λ _.
              choose _ _
                (signed_less 0 offset && signed_less header.first_user_record_offset offset)
                (λ both. cut (ground (arith, both))) whole)
            whole))
      whole

-- A record header gives back the stream that it was made for, if that stream's ids fit 16 bits.
pub get_stream_id-make_record_header :
    (t : RecordType) (id : StreamId)
    (timestamp version compression previous_size size uncompressed_size : ℕ)
    → IsUint16 id
    → get_stream_id
        (make_record_header t id timestamp version compression previous_size size uncompressed_size)
      ≡ id
unfolding get_stream_id make_record_header read_recordable_type_id
get_stream_id-make_record_header t id timestamp version compression previous_size size
      uncompressed_size w =
    let not_legacy : ltb id.type_id (2 ^ 31) && leb 100000 id.type_id ≡ false =
      ground (arith, w.type_fits) in
    let kept : id.type_id % 65536 ≡ id.type_id = omega (arith, w.type_fits) in
    rw (not_legacy, kept) refl

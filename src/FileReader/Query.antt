-- ===== src/FileReader/Query.antt =====
-- The counts, the last record, the streams of a type, and a record's places in the indexes:
-- vrs/RecordFileReader.cpp.
use vrs.Base.{
  ℕ, zero, suc, ◌+◌, ◌-◌, ◌≤◌, ◌<◌, Bool, true, false, ◌&&◌, ltb, leb, ◌==◌, if◌then◌else◌,
}
use vrs.Base.{
  Option, none, some, List, [], ◌∷◌, length, get_elem?, reverse, ◌≡◌, refl, sym, ◌∙◌, ap, arith,
}
use vrs.Base.Search.{partition_point}
use vrs.StreamId.{StreamId, undefined}
use vrs.Record.{RecordType, same_type, data_type}
use vrs.FileReader.{RecordInfo, Pointer, FileReader, get_index, has_type}
pub mod Streams
pub mod Place

-- `getStreamForType`'s loop.
unfoldable pub find_stream : List StreamId → ℕ → ℕ → ℕ → StreamId
find_stream [] type_id index_number hit_count = undefined
find_stream (id ∷ rest) type_id index_number hit_count =
    let after_hit = find_stream rest type_id index_number (suc hit_count) in
    let after_miss = find_stream rest type_id index_number hit_count in
    if id.type_id == type_id
    then (if hit_count == index_number then id else after_hit)
    else after_miss

unfoldable pub get_stream_for_type : FileReader → ℕ → ℕ → StreamId
unfolding find_stream
get_stream_for_type reader type_id index_number =
    find_stream reader.stream_ids type_id index_number 0

-- `getRecordCount(streamId)`
abbrev pub get_record_count : FileReader → StreamId → FileReader × ℕ
get_record_count reader id = let (reader', index) = get_index reader id in (reader', length index)

-- The loop of `getRecordCount(streamId, recordType)`.
unfoldable pub count_type : RecordType → List Pointer → ℕ → ℕ
count_type t [] count = count
count_type t (p ∷ rest) count = count_type t rest (if has_type t p then suc count else count)

abbrev pub get_type_count : FileReader → StreamId → RecordType → FileReader × ℕ
get_type_count reader id t =
    let (reader', index) = get_index reader id in (reader', count_type t index 0)

-- The loop of `getLastRecord`, over the reversed index.
unfoldable pub find_type : RecordType → List Pointer → Option Pointer
find_type t [] = none
find_type t (p ∷ rest) = let later = find_type t rest in if has_type t p then some p else later

unfoldable pub get_last_record : FileReader → StreamId → RecordType → FileReader × Option Pointer
get_last_record reader id t =
    let (reader', index) = get_index reader id in (reader', find_type t (reverse index))

-- `getFirstDataRecordTime`: without a data record the source returns 0.
unfoldable pub first_data_time : List RecordInfo → ℕ
first_data_time [] = 0
first_data_time (r ∷ rest) =
    let later = first_data_time rest in
    if same_type r.record_type data_type then r.timestamp else later

-- `getRecordIndex`, for a pointer into the index
abbrev pub get_record_index : FileReader → Pointer → ℕ
get_record_index reader p =
    if ltb p.position (length reader.record_index) then p.position else length reader.record_index

-- `back()`, by a walk from an element on.
abbrev pub last_position : ℕ → List Pointer → ℕ
last_position last [] = last
last_position last (p ∷ more) = last_position p.position more

-- The pointer is in the range of a non-empty index.
abbrev pub in_range : ℕ → List Pointer → Bool
in_range position [] = false
in_range position (front ∷ rest) =
    leb front.position position && leb position (last_position front.position rest)

abbrev pub is_lower : ℕ → Pointer → Bool
is_lower position p = ltb p.position position

unfoldable pub get_record_stream_index : FileReader → Pointer → FileReader × ℕ
get_record_stream_index reader p =
    let (reader', index) = get_index reader p.info.stream_id in
    let match = partition_point (is_lower p.position) index in
    (
      reader',
      if in_range p.position index && ltb match (length index)
          then match
          else length reader.record_index,
    )

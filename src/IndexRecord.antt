-- ===== src/IndexRecord.antt =====
-- `IndexRecord::Reader` of vrs/IndexRecord.cpp: how the entries of an index record, once read from
-- the file, become the index in memory, and where a split index and the first record stand.
use vrs.Base.{
  ℕ, zero, suc, ◌+◌, ◌-◌, ◌/◌, ◌%◌, ◌≤◌, ◌<◌, Bool, true, false, ◌&&◌, ◌||◌, not, ltb, leb, ◌==◌,
  if◌then◌else◌,
}
use vrs.Base.{Option, none, some, List, [], ◌∷◌, ◌++◌, length}
use vrs.StreamId.{StreamId, same, less}
use vrs.Record.{RecordType}
use vrs.FileFormat.{read_recordable_type_id, signed_less}
use vrs.FileReader.{RecordInfo, info_less}
pub mod Sorting
pub mod Offsets
pub mod Chunks
pub mod Rebuild
pub mod Examples

-- `type_id` is the int32_t on disk, by its bits.
pub record DiskRecordInfo : Type 0 where
  pub timestamp : ℕ
  pub record_size : ℕ
  pub record_type : RecordType
  pub type_id : ℕ
  pub instance_id : ℕ

abbrev pub get_stream_id : DiskRecordInfo → StreamId
get_stream_id d = record {
  type_id = read_recordable_type_id d.type_id;
  instance_id = d.instance_id;
}

pub record IndexReader : Type 0 where
  pub total_file_size : ℕ
  pub record_header_size : ℕ
  pub stream_ids : List StreamId
  pub index : List RecordInfo
  pub sort_error_count : ℕ
  pub dropped_record_count : ℕ

-- `streamIds_.insert(streamId)`, in a set in order
unfoldable pub insert_stream : StreamId → List StreamId → List StreamId
insert_stream id [] = id ∷ []
insert_stream id (x ∷ rest) =
    let later = insert_stream id rest in
    if same id x then x ∷ rest else if less id x then id ∷ x ∷ rest else x ∷ later

-- The new record is lower than the one at the end of the index, if there is one.
unfoldable pub lower_than_back : RecordInfo → List RecordInfo → Bool
lower_than_back new [] = false
lower_than_back new (r ∷ []) = info_less new r
lower_than_back new (r ∷ s ∷ rest) = lower_than_back new (s ∷ rest)

-- `index_.emplace_back(...)` and the count of the records out of order
unfoldable pub emplace : RecordInfo → IndexReader → IndexReader
emplace new reader = record reader {
  index = reader.index ++ (new ∷ []);
  sort_error_count = reader.sort_error_count + (if lower_than_back new reader.index then 1 else 0);
}

abbrev pub info_at : DiskRecordInfo → ℕ → RecordInfo
info_at d offset = record {
  timestamp = d.timestamp;
  file_offset = offset;
  stream_id = get_stream_id d;
  record_type = d.record_type;
}

-- The loop of `readClassicIndexRecord`; `count` is `recordStructs.size()`. It returns the offset
-- where it ends, which becomes `outUsedFileSize`. The count of the dropped records, cast to an
-- int32_t in the source, is taken to fit it: 2 ^ 31 entries of 19 bytes each are more than a record
-- can have, whose size is a uint32_t, and would take 40 GB in memory where they are compressed.
unfoldable pub read_classic : ℕ → List DiskRecordInfo → IndexReader → ℕ → IndexReader × ℕ
read_classic count [] reader offset = (reader, offset)
read_classic count (d ∷ rest) reader offset =
    let next = offset + d.record_size in
    let more = read_classic count rest (emplace (info_at d offset) reader) next in
    if ltb reader.total_file_size next
    then (record reader { dropped_record_count = count - length reader.index }, offset)
    else more

-- One round of the loop of `readSplitIndexRecord`, behind the check of the size.
unfoldable pub take_split_entry : DiskRecordInfo → IndexReader → ℕ → IndexReader × ℕ
take_split_entry d reader used =
    let following = used + d.record_size in
    if ltb 0 reader.dropped_record_count || ltb reader.total_file_size following
    then (record reader { dropped_record_count = reader.dropped_record_count + 1 }, used)
    else (
      record (emplace (info_at d used) reader) {
        stream_ids = insert_stream (get_stream_id d) reader.stream_ids;
      },
      following,
    )

-- That loop: `none` is INDEX_RECORD_ERROR.
unfoldable pub read_split : List DiskRecordInfo → IndexReader → ℕ → Option (IndexReader × ℕ)
read_split [] reader used = some (reader, used)
read_split (d ∷ rest) reader used =
    let (reader', used') = take_split_entry d reader used in
    let more = read_split rest reader' used' in
    if ltb d.record_size reader.record_header_size then none else more

-- What `readSplitIndexRecord` finds out before it reads the entries. The offset of the first user
-- record, an int64_t of the file's header, is given by its bits.
pub record SplitPlan : Type 0 where
  pub index_byte_size : ℕ
  pub first_user_record_offset : ℕ
  pub index_complete : Bool
  pub has_split_head_chunk : Bool

-- The plan in the chunk at the start of the file, whose end is `next_chunk_start`.
abbrev pub head_chunk_plan : ℕ → ℕ → ℕ → ℕ → ℕ → SplitPlan
head_chunk_plan total_file_size current_pos next_chunk_start index_byte_size
      first_user_record_offset =
    let chunk_left = next_chunk_start - current_pos in
    let too_short = not (index_byte_size == 0) && ltb chunk_left index_byte_size in
    let unreached =
      not (first_user_record_offset == 0)
      && signed_less next_chunk_start first_user_record_offset in
    record {
      index_byte_size = if index_byte_size == 0 || too_short then chunk_left else index_byte_size;
      first_user_record_offset =
          if first_user_record_offset == 0 || unreached
          then next_chunk_start
          else first_user_record_offset;
      index_complete =
          (ltb 0 index_byte_size && signed_less 0 first_user_record_offset)
          && not too_short
          && not unreached;
      has_split_head_chunk = ltb next_chunk_start total_file_size;
    }

-- `none` is the error that the file is not recoverable.
unfoldable pub plan_head_chunk : ℕ → ℕ → ℕ → ℕ → ℕ → Option SplitPlan
plan_head_chunk total_file_size current_pos next_chunk_start index_byte_size
      first_user_record_offset =
    if index_byte_size == 0
      && (next_chunk_start == total_file_size && first_user_record_offset == 0)
    then none
    else some (
        head_chunk_plan total_file_size current_pos next_chunk_start index_byte_size
          first_user_record_offset)

-- The part of `readSplitIndexRecord` before it reads. `chunk_start` and `chunk_size` are what
-- `getChunkRange` gives; the checks that XR_VERIFY makes of them lead to the error.
unfoldable pub plan_split : ℕ → ℕ → ℕ → ℕ → ℕ → ℕ → Option SplitPlan
plan_split total_file_size current_pos chunk_start chunk_size index_byte_size
      first_user_record_offset =
    let next_chunk_start = chunk_start + chunk_size in
    if not (ltb 0 chunk_size)
      || not (leb chunk_start current_pos && ltb current_pos next_chunk_start)
    then none
    else if chunk_start == 0
    then plan_head_chunk total_file_size current_pos next_chunk_start index_byte_size
        first_user_record_offset
    else some (record {
      index_byte_size = 0;
      first_user_record_offset = current_pos;
      index_complete = false;
      has_split_head_chunk = ltb chunk_start total_file_size;
    })

-- `sizeof(DiskRecordInfo)`
abbrev pub size_of_disk_record_info : ℕ
size_of_disk_record_info = 19

-- The number of entries to read, and if the index record has no bytes beyond them.
unfoldable pub entries_to_read : ℕ → ℕ → ℕ × Bool
entries_to_read uncompressed_size index_byte_size =
    let size = (if uncompressed_size == 0 then index_byte_size else uncompressed_size) in
    let extra = size % size_of_disk_record_info in
    ((size - extra) / size_of_disk_record_info, extra == 0)

-- What becomes of `indexComplete_`, where `read_count` of the entries are read: bytes beyond the
-- entries are ignored, and compressed entries may be missing.
unfoldable pub is_still_complete : SplitPlan → ℕ → ℕ → Bool
is_still_complete plan uncompressed_size read_count =
    let (count, exact) = entries_to_read uncompressed_size plan.index_byte_size in
    plan.index_complete && (exact && (uncompressed_size == 0 || leb count read_count))

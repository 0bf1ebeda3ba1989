-- ===== src/IndexRecord/Rebuild.antt =====
-- `IndexRecord::Reader::rebuildIndex` of vrs/IndexRecord.cpp, up to where a new index would be
-- written: the headers of the records are read one after the other, each where the record before it
-- ends. What the file gives at a position is a parameter, as is the reading of a split index record,
-- the loops of which are `plan_split` and `read_split`. The progress logger does not cancel.
use vrs.Base.{
  ℕ, zero, suc, ◌+◌, ◌-◌, ◌%◌, ◌^◌, ◌≤◌, ◌<◌, ◌≡◌, refl, arith, Bool, true, false, ◌&&◌, ◌||◌, not,
  ltb, leb, ◌==◌, if◌then◌else◌,
}
use vrs.Base.{Option, none, some, List, [], ◌∷◌, ◌++◌, length}
use vrs.Base.Ordered.{IsWeakOrder, insert_ordered}
use vrs.Record.{RecordType, undefined, state, configuration, data_type, tags}
use vrs.FileFormat.{RecordHeader, get_stream_id, read_recordable_type_id}
use vrs.FileReader.{RecordInfo, info_less, is_empty}
use vrs.IndexRecord.{DiskRecordInfo, IndexReader, emplace, insert_stream}
pub mod Chain
pub mod Complete
pub mod Examples

-- What a read of a header gives: at the end of the file, nothing.
pub data HeaderRead : Type 0 where
  at_end unreadable : HeaderRead
  header : RecordHeader → HeaderRead

-- `kSplitIndexFormatVersion`
abbrev pub split_index_format_version : ℕ
split_index_format_version = 3

-- `getRecordType`, for the numbers that are types of records in an index
abbrev pub record_type_of : ℕ → RecordType
record_type_of n =
    if n == 1
    then state
    else if n == 2
    then configuration
    else if n == 3
    then data_type
    else if n == 4
    then tags
    else undefined

abbrev pub is_user_type : RecordHeader → Bool
is_user_type h =
    h.record_type == 1 || h.record_type == 2 || h.record_type == 3 || h.record_type == 4

abbrev pub recordable_type : RecordHeader → ℕ
recordable_type h = read_recordable_type_id h.recordable_type_id

-- `RecordableTypeId::VRSIndex` and `RecordableTypeId::VRSDescription`
abbrev pub is_internal : RecordHeader → Bool
is_internal h = recordable_type h == 1 || recordable_type h == 2

abbrev pub is_split_index : RecordHeader → Bool
is_split_index h = recordable_type h == 1 && h.format_version == split_index_format_version

-- The locals of `rebuildIndex`, and the members that it changes.
pub record Rebuild : Type 0 where
  pub reader : IndexReader
  -- `diskIndex_`, without which `none`
  pub disk_index : Option (List DiskRecordInfo)
  pub absolute_position : ℕ
  pub previous_record_size : ℕ
  pub distrust_last_record : Bool
  -- `error != 0`
  pub failed : Bool

-- What `readSplitIndexRecord` does to the reader's members and to `diskIndex_`, and the file size
-- that it takes to be used.
abbrev pub SplitIndexRead : Type 0
SplitIndexRead =
    IndexReader → Option (List DiskRecordInfo) → IndexReader × Option (List DiskRecordInfo) × ℕ

pub data Round : Type 0 where
  go_on stop : Rebuild → Round

abbrev pub fail : Rebuild → Round
fail s = stop (record s { failed = true })

abbrev pub distrust : Rebuild → Round
distrust s = stop (record s { failed = true; distrust_last_record = true })

-- What stands behind the record.
abbrev pub advance : RecordHeader → Rebuild → Rebuild
advance h s = record s {
  absolute_position = s.absolute_position + h.record_size;
  previous_record_size = h.record_size;
}

abbrev pub info_of : RecordHeader → ℕ → RecordInfo
info_of h position = record {
  timestamp = h.timestamp;
  file_offset = position;
  stream_id = get_stream_id h;
  record_type = record_type_of h.record_type;
}

abbrev pub disk_info_of : RecordHeader → DiskRecordInfo
disk_info_of h = record {
  timestamp = h.timestamp;
  record_size = h.record_size;
  record_type = record_type_of h.record_type;
  type_id = (get_stream_id h).type_id;
  instance_id = (get_stream_id h).instance_id;
}

abbrev pub add_disk_info :
    RecordHeader → Option (List DiskRecordInfo) → Option (List DiskRecordInfo)
add_disk_info h none = none
add_disk_info h (some infos) = some (infos ++ (disk_info_of h ∷ []))

-- A record goes into the index.
unfoldable pub add_to_index : RecordHeader → Rebuild → Rebuild
add_to_index h s = record s {
  reader = record (emplace (info_of h s.absolute_position) s.reader) {
    stream_ids = insert_stream (get_stream_id h) s.reader.stream_ids;
  };
  disk_index = add_disk_info h s.disk_index;
}

abbrev pub index_header : RecordHeader → Rebuild → Round
index_header h s =
    if is_internal h
    then go_on (advance h s)
    else if is_user_type h
    then go_on (advance h (add_to_index h s))
    else distrust s

-- Where the split index was read, the records that it lists are skipped; the position behind them
-- is `used`, and 0 if there is none.
unfoldable pub after_split_index : RecordHeader → Rebuild → IndexReader → ℕ → Rebuild
after_split_index h s reader used =
    if is_empty reader.index
    then record s {
      reader = record reader { stream_ids = []; index = [] };
      absolute_position = if ltb 0 used then used else s.absolute_position + h.record_size;
      previous_record_size = reader.record_header_size;
    }
    else record s { reader = reader; absolute_position = used }

-- `index_.pop_back()`
abbrev pub pop_back : List RecordInfo → List RecordInfo
pop_back [] = []
pop_back (r ∷ []) = []
pop_back (r ∷ t ∷ rest) = r ∷ pop_back (t ∷ rest)

-- `index_.back().fileOffset`
abbrev pub last_offset : List RecordInfo → ℕ
last_offset [] = 0
last_offset (r ∷ []) = r.file_offset
last_offset (r ∷ t ∷ rest) = last_offset (t ∷ rest)

-- The difference of two offsets as a `uint32_t`.
abbrev pub wrap_difference : ℕ → ℕ → ℕ
wrap_difference a b = (a + (2 ^ 32 - b % 2 ^ 32)) % 2 ^ 32

-- `sort(index_.begin(), index_.end())`
abbrev pub sort_index : List RecordInfo → List RecordInfo
sort_index [] = []
sort_index (r ∷ rest) = insert_ordered info_less r (sort_index rest)

-- What follows the loop.
unfoldable pub finish : Rebuild → Rebuild
finish s =
    if s.distrust_last_record && not (is_empty s.reader.index)
    then record s {
      reader = record s.reader { index = sort_index (pop_back s.reader.index) };
      absolute_position = s.absolute_position - s.previous_record_size;
    }
    else record s { reader = record s.reader { index = sort_index s.reader.index } }

module _ (read_header : ℕ → HeaderRead) (cannot_go_to : ℕ → Bool)
    (read_split_index : SplitIndexRead) (has_split_head_chunk : Bool) where
  abbrev pub take_split_index : RecordHeader → Rebuild → Round
  take_split_index h s =
      let (reader, infos, used) = read_split_index s.reader s.disk_index in
      let after = after_split_index h (record s { disk_index = infos }) reader used in
      let s' =
        (if is_empty reader.index then after else record after {
          previous_record_size = wrap_difference used (last_offset reader.index);
        }) in
      if cannot_go_to s'.absolute_position then fail s' else go_on s'

  -- A header, behind the checks of its sizes: its data is skipped.
  abbrev pub take_record : RecordHeader → Rebuild → Round
  take_record h s =
      let next = s.absolute_position + h.record_size in
      if ltb s.reader.record_header_size h.record_size
      then (if ltb s.reader.total_file_size next
          then fail s
          else if cannot_go_to next
          then fail s
          else index_header h s)
      else index_header h s

  unfoldable pub take_header : RecordHeader → Rebuild → Round
  take_header h s =
      if not (h.previous_record_size == s.previous_record_size)
        && not (has_split_head_chunk && is_empty s.reader.index)
      then distrust s
      else if ltb h.record_size s.reader.record_header_size
      then distrust s
      else if is_split_index h
      then take_split_index h s
      else take_record h s

  -- A round of the loop.
  unfoldable pub take_read : HeaderRead → Rebuild → Round
  take_read at_end s = stop s
  take_read unreadable s = fail s
  take_read (header h) s = take_header h s

  abbrev pub after_round : Round → (Rebuild → Option Rebuild) → Option Rebuild
  after_round (go_on s) more = more s
  after_round (stop s) more = some (finish s)

  unfoldable pub rebuild_loop : ℕ → Rebuild → Option Rebuild
  rebuild_loop zero s = none
  rebuild_loop (suc fuel) s =
      after_round (take_read (read_header s.absolute_position) s) (λ s'. rebuild_loop fuel s')

  -- `rebuildIndex` from the first record on. Each record is as large as its header at least, so one
  -- round more than the file has bytes is enough for a file without a split index record.
  unfoldable pub rebuild_index : IndexReader → Bool → ℕ → Option Rebuild
  rebuild_index reader write_fixed_index first_position =
      rebuild_loop (suc reader.total_file_size) (record {
        reader = record reader { stream_ids = []; index = []; sort_error_count = 0 };
        disk_index = if write_fixed_index then some [] else none;
        absolute_position = first_position;
        previous_record_size = 0;
        distrust_last_record = false;
        failed = false;
      })

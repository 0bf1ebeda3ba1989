-- ===== src/FileReader/ByTime.antt =====
-- The lookups by time of vrs/RecordFileReader.cpp. The C++ writes each of them twice, for a vector
-- of records and for one of pointers: here `info` says what an element of the vector tells.
use vrs.Base.{
  ℕ, zero, suc, ◌+◌, ◌-◌, ◌≤◌, ◌<◌, Bool, true, false, ◌&&◌, ltb, leb, ◌==◌, if◌then◌else◌,
}
use vrs.Base.{Option, none, some, List, [], ◌∷◌, length, get_elem?, drop}
use vrs.Base.Search.{partition_point}
use vrs.StreamId.{StreamId, is_valid}
use vrs.Record.{RecordType, same_type, data_type}
use vrs.FileReader.{RecordInfo, Pointer, FileReader, get_index}
pub mod Found
pub mod Nearest

-- `abs(a - b)`
abbrev pub distance : ℕ → ℕ → ℕ
distance a b = (a - b) + (b - a)

module _ {A : Type 0} (info : A → RecordInfo) where
  -- `timeCompare`, `ptrTimeCompare` with the time that is looked for
  abbrev pub is_before : ℕ → A → Bool
  is_before time a = ltb (info a).timestamp time

  -- `lower_bound(...)`
  abbrev pub lower_bound_time : List A → ℕ → ℕ
  lower_bound_time index time = partition_point (is_before time) index

  -- The loop that skips the records of other types.
  abbrev pub skip_to_type : RecordType → List A → Option A
  skip_to_type t [] = none
  skip_to_type t (a ∷ rest) =
      let later = skip_to_type t rest in if same_type (info a).record_type t then some a else later

  abbrev pub find_by_time : List A → ℕ → Option A
  find_by_time index time = get_elem? index (lower_bound_time index time)

  abbrev pub find_type_by_time : RecordType → List A → ℕ → Option A
  find_type_by_time t index time = skip_to_type t (drop (lower_bound_time index time) index)

  -- The test and the assignment in the loop of `getNearestRecordByTime`.
  abbrev pub nearer : ℕ → ℕ → Option A → A → Option A
  nearer time epsilon none a =
      if leb (distance (info a).timestamp time) epsilon then some a else none
  nearer time epsilon (some best) a =
      if leb (distance (info a).timestamp time) epsilon
        && ltb (distance (info a).timestamp time) (distance (info best).timestamp time)
      then some a
      else some best

  -- That loop, over `count` elements from an index on.
  abbrev pub nearest_in : List A → ℕ → ℕ → ℕ → ℕ → Option A → Option A
  nearest_in index time epsilon start zero nearest = nearest
  nearest_in index time epsilon start (suc count) nearest =
      nearest_in index time epsilon (start + 1) count
        (elim (get_elem? index start) [ none ↦ nearest | some a ↦ nearer time epsilon nearest a ])

  unfoldable pub find_nearest : List A → ℕ → ℕ → Option A
  find_nearest index time epsilon =
      let bound = lower_bound_time index time in
      let start = (if bound == 0 then bound else bound - 1) in
      let end = (if bound == length index then bound else bound + 1) in
      nearest_in index time epsilon start (end - start) none

abbrev pub pointer_info : Pointer → RecordInfo
pointer_info p = p.info

abbrev pub record_info : RecordInfo → RecordInfo
record_info r = r

-- `getRecordByTime(timestamp)`
abbrev pub get_record_by_time : FileReader → ℕ → Option RecordInfo
get_record_by_time reader time = find_by_time record_info reader.record_index time

-- `getRecordByTime(recordType, timestamp)`
abbrev pub get_type_by_time : FileReader → RecordType → ℕ → Option RecordInfo
get_type_by_time reader t time = find_type_by_time record_info t reader.record_index time

-- `getRecordByTime(streamId, timestamp)`
abbrev pub get_stream_record_by_time : FileReader → StreamId → ℕ → FileReader × Option Pointer
get_stream_record_by_time reader id time =
    let (reader', index) = get_index reader id in (reader', find_by_time pointer_info index time)

-- `getRecordByTime(streamId, recordType, timestamp)`
abbrev pub get_stream_type_by_time :
    FileReader → StreamId → RecordType → ℕ → FileReader × Option Pointer
get_stream_type_by_time reader id t time =
    let (reader', index) = get_index reader id in
    (reader', find_type_by_time pointer_info t index time)

-- `getNearestRecordByTime(timestamp, epsilon, streamId)` for a stream
abbrev pub get_stream_nearest_by_time : FileReader → ℕ → ℕ → StreamId → FileReader × Option Pointer
get_stream_nearest_by_time reader time epsilon id =
    let (reader', index) = get_index reader id in
    (reader', find_nearest pointer_info index time epsilon)

-- `getNearestRecordByTime(timestamp, epsilon)`, the stream id being undefined
abbrev pub get_nearest_by_time : FileReader → ℕ → ℕ → Option RecordInfo
get_nearest_by_time reader time epsilon = find_nearest record_info reader.record_index time epsilon

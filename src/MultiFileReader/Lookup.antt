-- ===== src/MultiFileReader/Lookup.antt =====
-- What an open `MultiRecordFileReader` answers: vrs/MultiRecordFileReader.cpp. A lookup in one of the
-- files may fill that file's stream indexes, so it gives the reader back.
use vrs.Base.{
  ℕ, zero, suc, ◌+◌, ◌-◌, Bool, true, false, ◌&&◌, ltb, ◌==◌, if◌then◌else◌, ◌>>=◌, map, reverse,
}
use vrs.Base.{Option, none, some, List, [], ◌∷◌, ◌++◌, length, get_elem?}
use vrs.StreamId.{StreamId, undefined, is_valid}
use vrs.Record.{RecordType, same_type}
use vrs.FileReader.{RecordInfo, Pointer, FileReader, get_index, get_record_of_type}
use vrs.FileReader.Tags.{Text, StreamTags, no_tags, get_tags, get_streams, get_stream_for_tag}
use vrs.FileReader.Query.{get_record_count, get_type_count}
use vrs.FileReader.ByTime.{
  pointer_info, find_by_time, find_nearest, get_stream_record_by_time, get_stream_nearest_by_time,
}
use vrs.MultiFileReader.{
  SourceReader, RecordPointer, unique_of, get_stream_id_reader_pair, has_single_file,
}
use vrs.MultiFileReader.Merge.{record_pointers}
use vrs.MultiFileReader.Open.{MultiReader}
pub mod Member
pub mod ByTime

abbrev put_reader : ℕ → FileReader → List SourceReader → List SourceReader
put_reader k fr [] = []
put_reader zero fr (r ∷ rest) = record r { file_reader = fr } ∷ rest
put_reader (suc k) fr (r ∷ rest) = r ∷ put_reader k fr rest

module _ {A : Type 0} where
  -- A call on the reader `k`, which may change it.
  abbrev in_reader : ℕ → (FileReader → FileReader × A) → A → MultiReader → MultiReader × A
  in_reader k call missing m = elim (get_elem? m.readers k) [
    | none ↦ (m, missing)
    | some r ↦
        let (fr, a) = call r.file_reader in (record m { readers = put_reader k fr m.readers }, a)
  ]

  -- How a call for a stream is passed on: to the single file under the same id, or to the file that
  -- the unique id leads to, under the stream's id there.
  unfoldable pub by_stream :
      (ℕ → StreamId → FileReader → FileReader × A) → A → MultiReader → StreamId → MultiReader × A
  by_stream call missing m id =
      if m.is_opened
      then (if has_single_file m.readers
          then in_reader 0 (call 0 id) missing m
          else elim (get_stream_id_reader_pair id m.unique_ids.by_unique) [
            | none ↦ (m, missing)
            | some e ↦ in_reader e.reader (call e.reader e.stream_id) missing m
          ])
      else (m, missing)

abbrev in_file : ℕ → Pointer → RecordPointer
in_file k p = record { reader = k; place = p }

abbrev in_file? : ℕ → FileReader × Option Pointer → FileReader × Option RecordPointer
in_file? k (fr, none) = (fr, none)
in_file? k (fr, some p) = (fr, some (in_file k p))

-- `getRecordCount(uniqueStreamId)`
abbrev pub get_stream_count : MultiReader → StreamId → MultiReader × ℕ
get_stream_count = by_stream (λ k id fr. get_record_count fr id) 0

-- `getRecordCount(uniqueStreamId, recordType)`
abbrev pub get_stream_type_count : RecordType → MultiReader → StreamId → MultiReader × ℕ
get_stream_type_count t = by_stream (λ k id fr. get_type_count fr id t) 0

-- `getIndex(streamId)`
abbrev pub get_stream_index : MultiReader → StreamId → MultiReader × List RecordPointer
get_stream_index =
    by_stream (λ k id fr. let (fr', index) = get_index fr id in (fr', map (in_file k) index)) []

-- `getRecord(streamId, indexNumber)`
abbrev pub get_stream_record : MultiReader → StreamId → ℕ → MultiReader × Option RecordPointer
get_stream_record m id index_number =
    let (m', index) = get_stream_index m id in (m', get_elem? index index_number)

-- `getRecord(streamId, recordType, indexNumber)`
abbrev pub get_stream_type_record :
    RecordType → ℕ → MultiReader → StreamId → MultiReader × Option RecordPointer
get_stream_type_record t index_number =
    by_stream (λ k id fr. in_file? k (get_record_of_type fr id t index_number)) none

-- `getRecordByTime(streamId, timestamp)`
abbrev pub get_stream_by_time : ℕ → MultiReader → StreamId → MultiReader × Option RecordPointer
get_stream_by_time time =
    by_stream (λ k id fr. in_file? k (get_stream_record_by_time fr id time)) none

abbrev has_record_type : RecordType → RecordPointer → Bool
has_record_type t p = same_type p.place.info.record_type t

abbrev find_record : RecordType → List RecordPointer → Option RecordPointer
find_record t [] = none
find_record t (p ∷ rest) =
    let later = find_record t rest in if has_record_type t p then some p else later

-- `getLastRecord(streamId, recordType)`
abbrev pub get_last_stream_record :
    RecordType → MultiReader → StreamId → MultiReader × Option RecordPointer
get_last_stream_record t m id =
    let (m', index) = get_stream_index m id in (m', find_record t (reverse index))

-- The index of all records: the single file's own one, or the merged one; a null one is empty.
abbrev pub index_of : List SourceReader → Option (List RecordPointer) → List RecordPointer
index_of (r ∷ []) merged = record_pointers 0 r.file_reader.record_index 0
index_of readers none = []
index_of readers (some index) = index

abbrev pub global_index : MultiReader → List RecordPointer
global_index m = index_of m.readers m.record_index

-- `getRecordCount()`
abbrev pub get_count : MultiReader → ℕ
get_count m = if m.is_opened then length (global_index m) else 0

-- `getRecord(globalIndex)`
unfoldable pub get_record : MultiReader → ℕ → Option RecordPointer
get_record m i = if m.is_opened then get_elem? (global_index m) i else none

-- The loop of `getFirstRecord`, from an index on.
unfoldable pub first_record : RecordType → MultiReader → ℕ → ℕ → Option RecordPointer
first_record t m zero i = none
first_record t m (suc left) i =
    let later = first_record t m left (suc i) in
    get_record m i >>= λ p. if has_record_type t p then some p else later

-- `getFirstRecord(recordType)`
unfoldable pub get_first_record : RecordType → MultiReader → Option RecordPointer
unfolding first_record
get_first_record t m = first_record t m (get_count m) 0

-- The loop of `getLastRecord(recordType)`, down from a count.
unfoldable pub last_record : RecordType → MultiReader → ℕ → Option RecordPointer
last_record t m zero = none
last_record t m (suc i) =
    let later = last_record t m i in
    get_record m i >>= λ p. if has_record_type t p then some p else later

-- `getLastRecord(recordType)`
unfoldable pub get_last_record : RecordType → MultiReader → Option RecordPointer
unfolding last_record
get_last_record t m = last_record t m (get_count m)

abbrev pub info_of : RecordPointer → RecordInfo
info_of p = p.place.info

-- `getRecordByTime(timestamp)`
unfoldable pub get_record_by_time : MultiReader → ℕ → Option RecordPointer
get_record_by_time m time = if m.is_opened then find_by_time info_of (global_index m) time else none

-- `getNearestRecordByTime(timestamp, epsilon, streamId)`
unfoldable pub get_nearest_record_by_time :
    MultiReader → ℕ → ℕ → StreamId → MultiReader × Option RecordPointer
get_nearest_record_by_time m time epsilon id =
    if m.is_opened
    then (if is_valid id
        then by_stream (λ k s fr. in_file? k (get_stream_nearest_by_time fr time epsilon s)) none m
            id
        else (m, find_nearest info_of (global_index m) time epsilon))
    else (m, none)

-- `belongsTo` and `getReader`: the reader whose index the pointer points into.
unfoldable pub get_reader : MultiReader → RecordPointer → Option SourceReader
get_reader m p = get_elem? m.readers p.reader >>= λ r.
    if ltb p.place.position (length r.file_reader.record_index) then some r else none

-- `getUniqueStreamId`; the outer `none` is an exception, the inner one a null pointer.
unfoldable pub get_unique_stream_id : MultiReader → Option RecordPointer → Option StreamId
get_unique_stream_id m none = some undefined
get_unique_stream_id m (some p) =
    if m.is_opened
    then (if has_single_file m.readers then some (info_of p).stream_id else elim (get_reader m p) [
      | none ↦ some (info_of p).stream_id
      | some r ↦ unique_of p.reader (info_of p).stream_id m.unique_ids.by_stream
    ])
    else some undefined

-- `getTags(uniqueStreamId)`
unfoldable pub get_stream_tags : MultiReader → StreamId → StreamTags
get_stream_tags m id =
    let tags_in : ℕ → StreamId → StreamTags =
      λ k s. elim (get_elem? m.readers k) [ none ↦ no_tags | some r ↦ get_tags r.stream_tags s ] in
    if m.is_opened
    then (if has_single_file m.readers
        then tags_in 0 id
        else elim (get_stream_id_reader_pair id m.unique_ids.by_unique) [
          | none ↦ no_tags
          | some e ↦ tags_in e.reader e.stream_id
        ])
    else no_tags

-- The streams to choose from: those of the single file, or the unique ids.
unfoldable pub stream_ids : MultiReader → List StreamId
stream_ids m = elim m.readers [ r ∷ [] ↦ r.file_reader.stream_ids | _ ↦ m.unique_ids.ids ]

-- `getStreams()`
abbrev pub get_all_streams : MultiReader → List StreamId
get_all_streams m = if m.is_opened then stream_ids m else []

-- `getStreams(typeId, flavor)`
unfoldable pub select_streams : Text → MultiReader → ℕ → Text → List StreamId
select_streams flavor_tag_name m type_id flavor =
    get_streams (get_stream_tags m) flavor_tag_name (stream_ids m) type_id flavor

-- `getStreamForTag`
unfoldable pub stream_for_tag : Text → MultiReader → Text → Text → ℕ → StreamId
stream_for_tag flavor_tag_name m name tag type_id =
    if m.is_opened
    then get_stream_for_tag (get_stream_tags m) flavor_tag_name (stream_ids m) name tag type_id
    else undefined

-- `getTotalSourceSize`
abbrev pub get_total_source_size : List SourceReader → ℕ
get_total_source_size [] = 0
get_total_source_size (r ∷ rest) = r.source_size + get_total_source_size rest

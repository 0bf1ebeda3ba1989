-- ===== src/MultiFileReader.antt =====
-- Several files read as one: vrs/MultiRecordFileReader.cpp and vrs/MultiRecordFileReader.h.
-- A `RecordFileReader*` is the reader's place in `readers_`; a pointer to a record is the place of
-- its reader, and the record's position in that reader's index with what stands there. A std::set is
-- the sorted list of its elements, a std::map an association list.
pub mod Fresh
pub mod Naming
pub mod Merge
pub mod Related
pub mod Open
pub mod Lookup
pub mod Examples
use vrs.Base.{ℕ, zero, suc, ◌+◌, ◌%◌, Bool, true, false, ◌&&◌, ◌||◌, ltb, ◌==◌, if◌then◌else◌}
use vrs.Base.{Option, none, some, List, [], ◌∷◌, length, ◌>>=◌}
use vrs.StreamId.{StreamId, same, less}
use vrs.FileReader.{Pointer, FileReader}
use vrs.FileReader.Tags.{Tags, StreamTags}

-- What a `RecordFileReader` of the list keeps of its file: its index, the file's tags, the tags of
-- each stream, and the size of its source.
pub record SourceReader : Type 0 where
  pub file_reader : FileReader
  pub file_tags : Tags
  pub stream_tags : List (StreamId × StreamTags)
  pub source_size : ℕ

-- `const IndexRecord::RecordInfo*`
pub record RecordPointer : Type 0 where
  pub reader : ℕ
  pub place : Pointer

-- An entry of `readerStreamIdToUniqueMap_` and of `uniqueToStreamIdReaderPairMap_`.
pub record UniqueEntry : Type 0 where
  pub reader : ℕ
  pub stream_id : StreamId
  pub unique_id : StreamId

pub record UniqueIds : Type 0 where
  -- `uniqueStreamIds_`
  pub ids : List StreamId
  -- `readerStreamIdToUniqueMap_`
  pub by_stream : List UniqueEntry
  -- `uniqueToStreamIdReaderPairMap_`
  pub by_unique : List UniqueEntry

-- `set::find(id) != end()`
abbrev pub contains : StreamId → List StreamId → Bool
contains id [] = false
contains id (other ∷ rest) = same id other || contains id rest

-- `set::emplace`
abbrev pub insert_id : StreamId → List StreamId → List StreamId
insert_id id [] = id ∷ []
insert_id id (other ∷ rest) =
    let later = insert_id id rest in
    if less id other
    then id ∷ other ∷ rest
    else if same id other
    then other ∷ rest
    else other ∷ later

abbrev pub is_stream : ℕ → StreamId → UniqueEntry → Bool
is_stream reader id e = reader == e.reader && same id e.stream_id

-- `readerStreamIdToUniqueMap_[reader][streamId] = uniqueStreamId`
unfoldable pub assign : UniqueEntry → List UniqueEntry → List UniqueEntry
assign new [] = new ∷ []
assign new (e ∷ rest) =
    let later = assign new rest in
    if is_stream new.reader new.stream_id e then new ∷ rest else e ∷ later

-- `uniqueToStreamIdReaderPairMap_.emplace(...)`, which keeps an entry that is there
unfoldable pub emplace_unique : UniqueEntry → List UniqueEntry → List UniqueEntry
emplace_unique new [] = new ∷ []
emplace_unique new (e ∷ rest) =
    let later = emplace_unique new rest in
    if same new.unique_id e.unique_id then e ∷ rest else e ∷ later

-- `readerStreamIdToUniqueMap_.at(reader).at(streamId)`, which throws on a missing key
unfoldable pub unique_of : ℕ → StreamId → List UniqueEntry → Option StreamId
unique_of reader id [] = none
unique_of reader id (e ∷ rest) =
    let later = unique_of reader id rest in
    if is_stream reader id e then some e.unique_id else later

-- `getStreamIdReaderPair`
unfoldable pub get_stream_id_reader_pair : StreamId → List UniqueEntry → Option UniqueEntry
get_stream_id_reader_pair id [] = none
get_stream_id_reader_pair id (e ∷ rest) =
    let later = get_stream_id_reader_pair id rest in if same id e.unique_id then some e else later

abbrev pub next_instance : StreamId → StreamId
next_instance id = record id { instance_id = suc id.instance_id % 65536 }

-- `generateUniqueStreamId`: the rounds of its loop, at most `fuel` of them.
unfoldable pub next_free : ℕ → List StreamId → StreamId → Option StreamId
next_free zero ids id = none
next_free (suc fuel) ids id =
    let candidate = next_instance id in
    let later = next_free fuel ids candidate in
    if contains candidate ids then later else some candidate

unfoldable pub generate_unique_stream_id : List StreamId → StreamId → Option StreamId
unfolding next_free
generate_unique_stream_id ids id = next_free (suc (length ids)) ids id

-- The id that a stream gets.
abbrev pub choose_unique_id : List StreamId → StreamId → Option StreamId
choose_unique_id ids id = if contains id ids then generate_unique_stream_id ids id else some id

abbrev pub enter_unique_id : ℕ → StreamId → UniqueIds → StreamId → UniqueIds
enter_unique_id reader id known unique =
    let entry : UniqueEntry = record { reader = reader; stream_id = id; unique_id = unique } in
    record {
      ids = insert_id unique known.ids;
      by_stream = assign entry known.by_stream;
      by_unique = emplace_unique entry known.by_unique;
    }

-- The inner loop of `initializeUniqueStreamIds`, and the outer one from the reader `reader` on.
unfoldable pub add_streams : ℕ → List StreamId → UniqueIds → Option UniqueIds
add_streams reader [] known = some known
add_streams reader (id ∷ rest) known = do
  unique ← choose_unique_id known.ids id
  add_streams reader rest (enter_unique_id reader id known unique)

unfoldable pub add_readers : ℕ → List SourceReader → UniqueIds → Option UniqueIds
add_readers reader [] known = some known
add_readers reader (r ∷ rest) known = do
  known' ← add_streams reader r.file_reader.stream_ids known
  add_readers (suc reader) rest known'

-- `hasSingleFile`
abbrev pub has_single_file : List SourceReader → Bool
has_single_file readers = length readers == 1

abbrev pub no_unique_ids : UniqueIds
no_unique_ids = record { ids = []; by_stream = []; by_unique = [] }

-- `initializeUniqueStreamIds`
unfoldable pub initialize_unique_stream_ids : List SourceReader → UniqueIds → Option UniqueIds
initialize_unique_stream_ids readers known =
    if has_single_file readers then some known else add_readers 0 readers known

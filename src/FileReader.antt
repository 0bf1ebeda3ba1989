-- ===== src/FileReader.antt =====
-- The index of an open file and its lookups: vrs/RecordFileReader.cpp and `RecordInfo` of
-- vrs/IndexRecord.h. A pointer into `recordIndex_`, which does not change while a file is open, is
-- the record's position and what stands there. A std::map is an association list.
pub mod Pointers
pub mod Seek
pub mod Cache
pub mod ByTime
pub mod Query
pub mod Tags
pub mod Examples
use vrs.Base.{
  ℕ, zero, suc, ◌+◌, ◌≤◌, ◌<◌, Bool, true, false, ◌&&◌, ◌||◌, not, ltb, leb, ◌==◌, if◌then◌else◌,
}
use vrs.Base.{Option, none, some, List, [], ◌∷◌, ◌++◌, length, get_elem?, filter, reverse, drop}
use vrs.StreamId.{StreamId, same, less, undefined}
use vrs.Record.{RecordType, same_type}

pub record RecordInfo : Type 0 where
  pub timestamp : ℕ
  pub file_offset : ℕ
  pub stream_id : StreamId
  pub record_type : RecordType

-- `RecordInfo::operator<`
abbrev pub info_less : RecordInfo → RecordInfo → Bool
info_less a b =
    ltb a.timestamp b.timestamp
    || (leb a.timestamp b.timestamp
        && (less a.stream_id b.stream_id
            || (same a.stream_id b.stream_id && ltb a.file_offset b.file_offset)))

pub record Pointer : Type 0 where
  pub position : ℕ
  pub info : RecordInfo

-- `streamIndex_`
abbrev pub StreamIndex : Type 0
StreamIndex = List (StreamId × List Pointer)

-- What `lastRequest_` keeps for a stream and a type: the index asked for, and where it was found.
pub record Request : Type 0 where
  pub stream_id : StreamId
  pub record_type : RecordType
  pub index_number : ℕ
  pub search_index : ℕ

pub record FileReader : Type 0 where
  pub stream_ids : List StreamId
  pub record_index : List RecordInfo
  pub stream_index : StreamIndex
  pub last_request : List Request

-- `streamIndex_[id].emplace_back(&record)`
unfoldable pub push_pointer : StreamId → Pointer → StreamIndex → StreamIndex
push_pointer id p [] = (id, p ∷ []) ∷ []
push_pointer id p ((key, pointers) ∷ rest) =
    let later = push_pointer id p rest in
    if same id key then (key, pointers ++ (p ∷ [])) ∷ rest else (key, pointers) ∷ later

-- The loop of `getIndex` that fills the stream indexes, from the position `i` on.
unfoldable pub fill_indexes : List RecordInfo → ℕ → StreamIndex → StreamIndex
fill_indexes [] i indexes = indexes
fill_indexes (r ∷ rest) i indexes =
    fill_indexes rest (suc i) (push_pointer r.stream_id (record { position = i; info = r }) indexes)

-- The value of `streamIndex_[id]`, where a missing key has an empty vector.
unfoldable pub pointers_of : StreamId → StreamIndex → List Pointer
pointers_of id [] = []
pointers_of id ((key, pointers) ∷ rest) =
    let later = pointers_of id rest in if same id key then pointers else later

-- What `streamIndex_[id]` leaves: a missing key is entered.
unfoldable pub enter_key : StreamId → StreamIndex → StreamIndex
enter_key id [] = (id, []) ∷ []
enter_key id ((key, pointers) ∷ rest) =
    let later = enter_key id rest in
    if same id key then (key, pointers) ∷ rest else (key, pointers) ∷ later

abbrev pub is_empty {ℓ} : {A : Type ℓ} → List A → Bool
is_empty [] = true
is_empty (x ∷ xs) = false

-- The stream indexes are made when they are first needed.
unfoldable pub make_indexes : FileReader → StreamIndex
make_indexes reader =
    if is_empty reader.stream_index
      && (not (is_empty reader.stream_ids) && not (is_empty reader.record_index))
    then fill_indexes reader.record_index 0 []
    else reader.stream_index

unfoldable pub get_index : FileReader → StreamId → FileReader × List Pointer
get_index reader id =
    let indexes = make_indexes reader in
    (record reader { stream_index = enter_key id indexes }, pointers_of id indexes)

-- `getRecord(globalIndex)`
abbrev pub get_record_at : FileReader → ℕ → Option RecordInfo
get_record_at reader global_index = get_elem? reader.record_index global_index

-- `getRecord(streamId, indexNumber)`
abbrev pub get_record : FileReader → StreamId → ℕ → FileReader × Option Pointer
get_record reader id index_number =
    let (reader', index) = get_index reader id in (reader', get_elem? index index_number)

abbrev pub has_type : RecordType → Pointer → Bool
has_type t p = same_type p.info.record_type t

-- `lastRequest_.find(queryType)`
unfoldable pub find_request : StreamId → RecordType → List Request → Option Request
find_request id t [] = none
find_request id t (q ∷ rest) =
    let later = find_request id t rest in
    if same id q.stream_id && same_type t q.record_type then some q else later

-- `lastRequest_[queryType] = make_pair(indexNumber, searchIndex)`
unfoldable pub save_request : Request → List Request → List Request
save_request new [] = new ∷ []
save_request new (q ∷ rest) =
    let later = save_request new rest in
    if same new.stream_id q.stream_id && same_type new.record_type q.record_type
    then new ∷ rest
    else q ∷ later

-- The search loop of `getRecord(streamId, recordType, indexNumber)` over the index from
-- `search_index` on: the record found, and its place in the stream's index.
unfoldable pub seek : RecordType → ℕ → List Pointer → ℕ → ℕ → Option (Pointer × ℕ)
seek t index_number [] search_index hit_count = none
seek t index_number (p ∷ rest) search_index hit_count =
    let after_hit = seek t index_number rest (suc search_index) (suc hit_count) in
    let after_miss = seek t index_number rest (suc search_index) hit_count in
    if has_type t p
    then (if hit_count == index_number then some (p, search_index) else after_hit)
    else after_miss

-- Where the search starts: at the last request's result, if it was for this index or a lower one.
unfoldable pub start_of : Option Request → ℕ → ℕ × ℕ
start_of none index_number = (0, 0)
start_of (some q) index_number =
    if leb q.index_number index_number then (q.search_index, q.index_number) else (0, 0)

unfoldable pub finish_lookup :
    FileReader → StreamId → RecordType → ℕ → Option (Pointer × ℕ) → FileReader × Option Pointer
finish_lookup reader id t index_number none = (reader, none)
finish_lookup reader id t index_number (some (p, search_index)) = (
  record reader {
    last_request =
        save_request
          (record {
            stream_id = id;
            record_type = t;
            index_number = index_number;
            search_index = search_index;
          })
          reader.last_request;
  },
  some p,
)

-- `getRecord(streamId, recordType, indexNumber)`
unfoldable pub get_record_of_type :
    FileReader → StreamId → RecordType → ℕ → FileReader × Option Pointer
get_record_of_type reader id t index_number =
    let (reader', index) = get_index reader id in
    let (search_index, hit_count) =
      start_of (find_request id t reader'.last_request) index_number in
    if leb (length index) index_number
    then (reader', none)
    else finish_lookup reader' id t index_number
        (seek t index_number (drop search_index index) search_index hit_count)

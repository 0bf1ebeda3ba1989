-- ===== src/RecordManager.antt =====
-- vrs/RecordManager.h and vrs/RecordManager.cpp: the records of one stream that wait to be written,
-- and the cache of records to reuse. The mutex makes each method one step; `createRecord` lets it
-- go while it copies a large record, and what other threads do then is not modelled.
-- A pointer to a record is the record; `deleted` collects what the manager deletes, so that
-- nothing can be lost or freed twice unseen.
pub mod Order
pub mod Insert
pub mod Create
pub mod Purge
pub mod Collect
pub mod Examples
use vrs.Base.{ℕ, zero, suc, ◌+◌, ◌-◌, ◌*◌, ◌/◌, ◌%◌, ◌^◌, min}
use vrs.Base.{Bool, true, false, ◌&&◌, ◌||◌, not, Option, none, some, List, [], ◌∷◌, ◌++◌, reverse}
use vrs.Base.{ltb, leb, ◌==◌, if◌then◌else◌, length, take, drop}
use vrs.Base.Search.{partition_point}
use vrs.Record.{Record, RecordType, state, configuration, tags, same_type, fresh, set_record}

pub record RecordManager : Type 0 where
  pub active_records : List Record
  pub cache : List Record
  pub deleted : List Record
  pub max_cache_size : ℕ
  pub min_bytes_over_allocation : ℕ
  pub min_percent_over_allocation : ℕ
  pub creation_order : ℕ

abbrev pub default_max_cache_size : ℕ
default_max_cache_size = 50

-- `RecordManager::RecordManager`
abbrev pub new_manager : RecordManager
new_manager = record {
  active_records = [];
  cache = [];
  deleted = [];
  max_cache_size = default_max_cache_size;
  min_bytes_over_allocation = 0;
  min_percent_over_allocation = 0;
  creation_order = 0;
}

-- `kMaxCycledRecordAge`, one second, in ticks.
abbrev pub max_cycled_record_age : ℕ
max_cycled_record_age = 1000000000

-- A `size_t` has 64 bits.
abbrev size_mod : ℕ
size_mod = 2 ^ 64

-- `getAdjustedRecordBufferSize`
unfoldable pub get_adjusted_record_buffer_size : RecordManager → ℕ → ℕ
get_adjusted_record_buffer_size m requested =
    if m.min_percent_over_allocation == 0
    then (requested + m.min_bytes_over_allocation) % size_mod
    else let percent = requested * m.min_percent_over_allocation % size_mod / 100 in
      if m.min_bytes_over_allocation == 0
      then (requested + percent) % size_mod
      else (requested + min m.min_bytes_over_allocation percent) % size_mod

abbrev pub set_max_cache_size : ℕ → RecordManager → RecordManager
set_max_cache_size max m = record m { max_cache_size = max }

abbrev pub set_record_buffer_over_allocation_mins : ℕ → ℕ → RecordManager → RecordManager
set_record_buffer_over_allocation_mins min_bytes min_percent m = record m {
  min_bytes_over_allocation = min_bytes;
  min_percent_over_allocation = min_percent;
}

-- `getAcceptableOverCapacity`: 20% more
abbrev pub get_acceptable_over_capacity : ℕ → ℕ
get_acceptable_over_capacity capacity = (capacity + capacity / 5) % size_mod

-- The first record of the cache whose buffer fits, and the cache without it.
unfoldable pub take_fitting : ℕ → ℕ → List Record → Option (Record × List Record)
take_fitting data_size max_size [] = none
take_fitting data_size max_size (r ∷ rest) =
    if leb data_size r.buffer_capacity && leb r.buffer_capacity max_size
    then some (r, rest)
    else elim (take_fitting data_size max_size rest) [
      | none ↦ none
      | some (found, others) ↦ some (found, r ∷ others)
    ]

-- `cache_.back()` and the cache after `pop_back`
abbrev pub split_last : List Record → Option (Record × List Record)
split_last [] = none
split_last (r ∷ rest) = elim (split_last rest) [
  | none ↦ some (r, [])
  | some (back, others) ↦ some (back, r ∷ others)
]

-- The fallback: the last record of the cache, if the cache is full or that record is old.
abbrev take_last : ℕ → List Record → Option (Record × List Record)
take_last now cache = elim (split_last cache) [
  | none ↦ none
  | some (back, others) ↦
      if leb default_max_cache_size (length cache)
        || ltb (back.timestamp + max_cycled_record_age) now
      then some (back, others)
      else none
]

-- Step 1 of `createRecord`: a record to reuse, and the cache without it.
unfoldable pub find_reusable : ℕ → ℕ → List Record → Option (Record × List Record)
unfolding take_fitting
find_reusable now data_size cache =
    elim (take_fitting data_size (get_acceptable_over_capacity data_size) cache) [
      | some found ↦ some found
      | none ↦ take_last now cache
    ]

-- Step 3: the walk back from the newest record. `older` is what stands before the iterator's
-- record `r`, nearest first, and `newer` what stands behind it.
unfoldable pub insert_before : Record → List Record → Record → List Record → List Record
insert_before new [] r newer =
    if leb r.timestamp new.timestamp then r ∷ new ∷ newer else new ∷ r ∷ newer
insert_before new (o ∷ older) r newer =
    let further = insert_before new older o (r ∷ newer) in
    if ltb new.timestamp r.timestamp then further else reverse (o ∷ older) ++ (r ∷ new ∷ newer)

abbrev insert_from_back : Record → List Record → List Record
insert_from_back new [] = new ∷ []
insert_from_back new (r ∷ older) =
    if leb r.timestamp new.timestamp
    then reverse (r ∷ older) ++ (new ∷ [])
    else insert_before new older r []

unfoldable pub insert_active : Record → List Record → List Record
unfolding insert_before
insert_active new active = insert_from_back new (reverse active)

abbrev insert_created : RecordManager → Record → RecordManager × Record
insert_created m r = (record m { active_records = insert_active r m.active_records }, r)

-- `createRecord`; `now` is the time of the call and `bytes` what the data source holds.
unfoldable pub create_record :
    ℕ → RecordManager → ℕ → RecordType → ℕ → List ℕ → RecordManager × Record
create_record now m timestamp record_type format_version bytes =
    let order = (m.creation_order + 1) % size_mod in
    let adjusted = get_adjusted_record_buffer_size m (length bytes) in
    elim (find_reusable now (length bytes) m.cache) [
      | some (r, others) ↦
          insert_created (record m { cache = others; creation_order = order })
            (set_record r adjusted timestamp record_type format_version bytes order)
      | none ↦
          insert_created (record m { creation_order = order })
            (set_record fresh adjusted timestamp record_type format_version bytes order)
    ]

-- ===== src/RecordManager/Purge.antt =====
-- `RecordManager::purgeOldRecords`, `purgeCache` and `recycle` of vrs/RecordManager.cpp.
pub mod Laws
pub mod Kept
pub mod Survivors
use vrs.Base.{ℕ, ◌+◌, ◌%◌, ◌^◌, Bool, true, false, ◌&&◌, Option, none, some, List, [], ◌∷◌, ◌++◌}
use vrs.Base.{ltb, if◌then◌else◌, length}
use vrs.Record.{Record, RecordType, state, configuration, tags, same_type}
use vrs.RecordManager.{RecordManager}

-- The local variables of the loop, with the lists that it changes.
pub record PurgeState : Type 0 where
  pub last_state : Option Record
  pub last_configuration : Option Record
  pub tags_records : List Record
  pub cache : List Record
  pub deleted : List Record
  pub count : ℕ

-- `last == nullptr || last->getTimestamp() < record->getTimestamp()`
abbrev pub newer_than : Option Record → Record → Bool
newer_than none r = true
newer_than (some last) r = ltb last.timestamp r.timestamp

-- What follows the tests: a record that was not kept goes to the cache or is deleted.
abbrev pub release : Bool → ℕ → Option Record → PurgeState → PurgeState
release recycle_buffers max_cache_size none s = s
release recycle_buffers max_cache_size (some r) s =
    if recycle_buffers && ltb (length s.cache) max_cache_size
    then record s { cache = s.cache ++ (r ∷ []); count = (s.count + 1) % 2 ^ 32 }
    else record s { deleted = r ∷ s.deleted; count = (s.count + 1) % 2 ^ 32 }

-- The body of the loop: a newest state or configuration record is kept in place of the one kept so
-- far, and a tags record is always kept.
unfoldable pub purge_one : Bool → ℕ → Record → PurgeState → PurgeState
purge_one recycle_buffers max_cache_size r s =
    if same_type r.record_type state && newer_than s.last_state r
    then release recycle_buffers max_cache_size s.last_state (record s { last_state = some r })
    else if same_type r.record_type configuration && newer_than s.last_configuration r
    then release recycle_buffers max_cache_size s.last_configuration
        (record s { last_configuration = some r })
    else if same_type r.record_type tags
    then record s { tags_records = s.tags_records ++ (r ∷ []) }
    else release recycle_buffers max_cache_size (some r) s

-- The loop: it takes the first record as long as that is older than `oldest`.
unfoldable pub purge_loop : Bool → ℕ → ℕ → List Record → PurgeState → List Record × PurgeState
purge_loop recycle_buffers max_cache_size oldest [] s = ([], s)
purge_loop recycle_buffers max_cache_size oldest (r ∷ rest) s =
    let more =
      purge_loop recycle_buffers max_cache_size oldest rest
        (purge_one recycle_buffers max_cache_size r s) in
    if ltb r.timestamp oldest then more else (r ∷ rest, s)

-- `emplace_front`, for a pointer that may be null
abbrev pub to_front : Option Record → List Record → List Record
to_front none l = l
to_front (some r) l = r ∷ l

abbrev pub purge_start : RecordManager → PurgeState
purge_start m = record {
  last_state = none;
  last_configuration = none;
  tags_records = [];
  cache = m.cache;
  deleted = m.deleted;
  count = 0;
}

unfoldable pub purge_old_records : RecordManager → ℕ → Bool → RecordManager × ℕ
purge_old_records m oldest recycle_buffers =
    let (rest, s) =
      purge_loop recycle_buffers m.max_cache_size oldest m.active_records (purge_start m) in
    (
      record m {
        active_records =
            s.tags_records ++ to_front s.last_configuration (to_front s.last_state rest);
        cache = s.cache;
        deleted = s.deleted;
      },
      s.count,
    )

-- `purgeCache`
unfoldable pub purge_cache : RecordManager → RecordManager
purge_cache m = record m { deleted = m.cache ++ m.deleted; cache = [] }

-- `recycle`, of a record that the manager gave out; `now` is the time of the call.
unfoldable pub recycle : ℕ → RecordManager → Record → RecordManager
recycle now m r =
    if ltb (length m.cache) m.max_cache_size
    then record m { cache = m.cache ++ (record r { timestamp = now } ∷ []) }
    else record m { deleted = r ∷ m.deleted }

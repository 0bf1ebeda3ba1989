-- ===== src/RecordManager/Purge/Survivors.antt =====
-- What `RecordManager::purgeOldRecords` leaves among the active records, for each record.
use vrs.Base.{ℕ, ◌≤◌, ◌<◌, ◌≡◌, ◌⊎◌, inl, inr, arith, Bool, true, false, List, leb, Bool-cases}
use vrs.Record.{Record, same_type, tags, state, configuration}
use vrs.RecordManager.{RecordManager}
use vrs.RecordManager.Purge.{purge_old_records}
use vrs.RecordManager.Purge.Kept.{In, purge_old_records-IsSpread}

-- For a record that was active: it is old or still active; if it is a tags record, it is active; if it
-- is a state or a configuration record, one of its type that is not older is active.
pub record IsKept (oldest : ℕ) (active : List Record) (x : Record) : Type 0 where
  pub recent : (x.timestamp < oldest) ⊎ In x active
  pub tagged : (same_type x.record_type tags ≡ false) ⊎ In x active
  pub newest_state :
      (same_type x.record_type state ≡ false)
      ⊎ (q : Record) × In q active
        × (same_type q.record_type state ≡ true)
        × (x.timestamp ≤ q.timestamp)
  pub newest_configuration :
      (same_type x.record_type configuration ≡ false)
      ⊎ (q : Record) × In q active
        × (same_type q.record_type configuration ≡ true)
        × (x.timestamp ≤ q.timestamp)

-- By cases on a test: a statement that holds under it, or its failure.
under_test {ℓ} : {P : Type ℓ} (b : Bool) → (b ≡ true → P) → (b ≡ false) ⊎ P
under_test b h = elim (Bool-cases b) [ inl e ↦ inr (h e) | inr e ↦ inl e ]

-- A purge keeps every active record that is not old and every tags record among the active ones, and
-- for each state and each configuration record it keeps one of the same type that is not older.
pub purge_old_records-IsKept :
    (m : RecordManager) (oldest : ℕ) (recycle_buffers : Bool) (x : Record)
    → In x m.active_records
    → IsKept oldest (purge_old_records m oldest recycle_buffers).0.active_records x
purge_old_records-IsKept m oldest b x h =
    let w = purge_old_records-IsSpread m oldest b x h in
    record {
      recent = elim (Bool-cases (leb oldest x.timestamp)) [
        | inl e ↦ inr (w.recent (ground arith))
        | inr e ↦ inl (ground arith)
      ];
      tagged = under_test (same_type x.record_type tags) w.tagged;
      newest_state = under_test (same_type x.record_type state) w.newest_state;
      newest_configuration =
          under_test (same_type x.record_type configuration) w.newest_configuration;
    }

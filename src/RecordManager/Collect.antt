-- ===== src/RecordManager/Collect.antt =====
-- `RecordManager::collectOldRecords`, and what a purge does to the order that it relies on.
use vrs.Base.{ℕ, ◌≤◌, ◌<◌, ◌≡◌, refl, ap, arith, Bool, true, false, inl, inr, not}
use vrs.Base.{none, some, List, [], ◌∷◌, ◌++◌, All, ltb, take, drop, take-append-drop}
use vrs.Base.{Bool-cases, All-map, ◌∙◌}
use vrs.Base.Sorted.{IsSortedBy-IsPartitioned, take-leading, drop-leading}
use vrs.Base.Search.{partition_point, leading, partition_point-leading}
use vrs.Record.{Record, state, configuration, same_type}
use vrs.RecordManager.{RecordManager}
use vrs.RecordManager.Order.{IsSorted}
use vrs.RecordManager.Purge.{
  PurgeState, newer_than, purge_old_records, purge_loop, purge_one, purge_start,
}

-- The test of `upper_bound`'s comparison: the record is not newer than `age`.
abbrev pub not_newer_than : ℕ → Record → Bool
not_newer_than age r = not (ltb age r.timestamp)

not_newer_downward : (age : ℕ) (a b : ℕ) → a ≤ b → not (ltb age b) ≡ true → not (ltb age a) ≡ true
not_newer_downward age a b le h = ground arith

-- `upper_bound` is a search by halving; `splice` moves what stands before the iterator.
abbrev collected_count : ℕ → List Record → ℕ
collected_count max_age [] = 0
collected_count max_age (r ∷ rest) = partition_point (not_newer_than max_age) (r ∷ rest)

unfoldable pub collect_old_records : RecordManager → ℕ → RecordManager × List Record
collect_old_records m max_age =
    let n = collected_count max_age m.active_records in
    (record m { active_records = drop n m.active_records }, take n m.active_records)

collected_count-leading :
    (age : ℕ) (l : List Record)
    → IsSorted l
    → collected_count age l ≡ leading (not_newer_than age) l
collected_count-leading age [] s = refl
collected_count-leading age (r ∷ l) s = partition_point-leading (not_newer_than age) (r ∷ l) (
    IsSortedBy-IsPartitioned (λ (x : Record). x.timestamp) (λ t. not (ltb age t))
      (not_newer_downward age) (r ∷ l) s)

-- From sorted active records `collectOldRecords` takes, in order, exactly the records that are not
-- newer than `max_age`, and leaves the others.
pub collect_old_records_exact :
    (m : RecordManager) (max_age : ℕ)
    → IsSorted m.active_records
    → let (m', collected) = collect_old_records m max_age in
      (collected ++ m'.active_records ≡ m.active_records)
      × All (λ (r : Record). r.timestamp ≤ max_age) collected
      × All (λ (r : Record). max_age < r.timestamp) m'.active_records
unfolding collect_old_records
collect_old_records_exact m max_age s =
    let l = m.active_records in
    rw (collected_count-leading max_age l s) (
      take-append-drop (leading (not_newer_than max_age) l) l,
      All-map _ _ (λ r h. ground arith) _
          (take-leading (λ (x : Record). x.timestamp) (λ t. not (ltb max_age t)) l),
      All-map _ _ (λ r h. ground arith) _
          (drop-leading (λ (x : Record). x.timestamp) (λ t. not (ltb max_age t))
            (not_newer_downward max_age) l s),
    )

purge_loop_stops :
    (b : Bool) (max oldest : ℕ) (rest : List Record) (s : PurgeState)
    → All (λ (r : Record). oldest ≤ r.timestamp) rest
    → purge_loop b max oldest rest s ≡ (rest, s)
unfolding purge_loop
purge_loop_stops b max oldest [] s h = refl
purge_loop_stops b max oldest (r ∷ rest) s h = ground arith

-- One round on an old record.
purge_loop_step :
    (b : Bool) (max oldest : ℕ) (r : Record) (rest : List Record) (s : PurgeState)
    → r.timestamp < oldest
    → purge_loop b max oldest (r ∷ rest) s ≡ purge_loop b max oldest rest (purge_one b max r s)
unfolding purge_loop
purge_loop_step b max oldest r rest s h = ground arith

purge_one-state :
    (b : Bool) (max : ℕ) (r : Record) (s : PurgeState)
    → same_type r.record_type state ≡ true
    → s.last_state ≡ none
    → purge_one b max r s ≡ record s { last_state = some r }
unfolding purge_one
purge_one-state b max r s h e = elim (Bool-cases (newer_than s.last_state r)) [
  | inl n ↦ rw (h, n, e)
  | inr n ↦ absurd (ground arith)
]

purge_one-configuration :
    (b : Bool) (max : ℕ) (r : Record) (s : PurgeState)
    → same_type r.record_type configuration ≡ true
    → s.last_configuration ≡ none
    → purge_one b max r s ≡ record s { last_configuration = some r }
unfolding purge_one
purge_one-configuration b max r s h e = elim (Bool-cases (newer_than s.last_configuration r)) [
  | inl n ↦ let other : same_type r.record_type state ≡ false = ground arith in rw (other, h, n, e)
  | inr n ↦ absurd (ground arith)
]

-- When the active records start with a state record and a configuration record that is newer, both
-- older than the oldest timestamp, and no other record is, a purge puts the configuration record in
-- front of the state record: the active records are then not sorted.
pub purge_old_records_unsorted :
    (m : RecordManager) (oldest : ℕ) (recycle_buffers : Bool) (st cf : Record) (rest : List Record)
    → m.active_records ≡ st ∷ cf ∷ rest
    → same_type st.record_type state ≡ true
    → same_type cf.record_type configuration ≡ true
    → st.timestamp < cf.timestamp
    → cf.timestamp < oldest
    → All (λ (r : Record). oldest ≤ r.timestamp) rest
    → ((purge_old_records m oldest recycle_buffers).0.active_records ≡ cf ∷ st ∷ rest)
      × ¬ IsSorted (purge_old_records m oldest recycle_buffers).0.active_records
unfolding purge_old_records
purge_old_records_unsorted m oldest b st cf rest e hs hc lt old young =
    let max = m.max_cache_size in
    let run = purge_loop b max oldest in
    let s0 = purge_start m in
    let s1 : PurgeState = record s0 { last_state = some st } in
    let s2 : PurgeState = record s1 { last_configuration = some cf } in
    let first : run (st ∷ cf ∷ rest) s0 ≡ run (cf ∷ rest) s1 =
      purge_loop_step b max oldest st (cf ∷ rest) s0 (omega arith)
      ∙ ap (run (cf ∷ rest)) (purge_one-state b max st s0 hs refl) in
    let second : run (cf ∷ rest) s1 ≡ run rest s2 =
      purge_loop_step b max oldest cf rest s1 old
      ∙ ap (run rest) (purge_one-configuration b max cf s1 hc refl) in
    let whole : run m.active_records s0 ≡ (rest, s2) =
      ap (λ (l : List Record). run l s0) e
      ∙ first
      ∙ second
      ∙ purge_loop_stops b max oldest rest s2 young in
    rw whole (refl, λ s. absurd (omega (arith, s.0.0)))

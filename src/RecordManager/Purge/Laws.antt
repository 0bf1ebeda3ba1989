-- ===== src/RecordManager/Purge/Laws.antt =====
-- `purgeOldRecords` loses no record and frees none twice.
use vrs.Base.{ℕ, ◌+◌, ◌≡◌, refl, arith, Bool, inl, inr}
use vrs.Base.{Option, none, some, List, [], ◌∷◌, ◌++◌, length, ltb, Bool-cases, ◌&&◌}
use vrs.Record.{Record, state, configuration, tags, same_type}
use vrs.RecordManager.{RecordManager}
use vrs.RecordManager.Order.{SameRecords, total, totals}
use vrs.RecordManager.Purge.{
  PurgeState, newer_than, release, purge_one, purge_loop, to_front, purge_start, purge_old_records,
}

total_option : (Record → ℕ) → Option Record → ℕ
total_option w none = 0
total_option w (some r) = w r

-- All records that the loop holds besides those that it has not come to.
held : (Record → ℕ) → PurgeState → ℕ
held w s =
    total_option w s.last_state
    + total_option w s.last_configuration
    + total w s.tags_records
    + total w s.cache
    + total w s.deleted

held-release :
    (w : Record → ℕ) (b : Bool) (max : ℕ) (o : Option Record) (s : PurgeState)
    → held w (release b max o s) ≡ total_option w o + held w s
unfolding held total_option
held-release w b max none s = omega arith
held-release w b max (some r) s = elim (Bool-cases (b && ltb (length s.cache) max)) [
  | inl e ↦ rw e (omega totals)
  | inr e ↦ rw e (omega totals)
]

held-purge_one :
    (w : Record → ℕ) (b : Bool) (max : ℕ) (r : Record) (s : PurgeState)
    → held w (purge_one b max r s) ≡ w r + held w s
unfolding purge_one held total_option
held-purge_one w b max r s =
    elim (Bool-cases (same_type r.record_type state && newer_than s.last_state r)) [
      | inl e ↦
          rw e (omega (arith, held-release w b max s.last_state (record s { last_state = some r })))
      | inr e ↦
          rw e
            (elim (Bool-cases
              (same_type r.record_type configuration && newer_than s.last_configuration r)) [
                | inl f ↦ rw f (
                    omega (
                      arith,
                      held-release w b max s.last_configuration
                          (record s { last_configuration = some r }),
                    ))
                | inr f ↦ rw f (elim (Bool-cases (same_type r.record_type tags)) [
                  | inl g ↦ rw g (omega totals)
                  | inr g ↦ rw g (omega (arith, held-release w b max (some r) s))
                ])
              ])
    ]

held-purge_loop :
    (w : Record → ℕ) (b : Bool) (max oldest : ℕ) (active : List Record) (s : PurgeState)
    → let (rest, s') = purge_loop b max oldest active s in
      total w rest + held w s' ≡ total w active + held w s
unfolding purge_loop
held-purge_loop w b max oldest [] s = refl
held-purge_loop w b max oldest (r ∷ rest) s = elim (Bool-cases (ltb r.timestamp oldest)) [
  | inl e ↦ rw e (
      omega (
        totals,
        held-purge_loop w b max oldest rest (purge_one b max r s),
        held-purge_one w b max r s,
      ))
  | inr e ↦ rw e refl
]

total-to_front :
    (w : Record → ℕ) (o : Option Record) (l : List Record)
    → total w (to_front o l) ≡ total_option w o + total w l
unfolding total_option
total-to_front w none l = omega arith
total-to_front w (some r) l = omega totals

abbrev pub everything : RecordManager → List Record
everything m = m.active_records ++ (m.cache ++ m.deleted)

-- The active, the cached and the deleted records together are the same records before and after a
-- purge: none is lost, and none is both kept and deleted or deleted twice.
pub purge_old_records-SameRecords :
    (m : RecordManager) (oldest : ℕ) (recycle_buffers : Bool)
    → SameRecords (everything (purge_old_records m oldest recycle_buffers).0) (everything m)
unfolding purge_old_records held total_option
purge_old_records-SameRecords m oldest b w =
    let (rest, s) = purge_loop b m.max_cache_size oldest m.active_records (purge_start m) in
    omega (
      totals,
      held-purge_loop w b m.max_cache_size oldest m.active_records (purge_start m),
      total-to_front w s.last_configuration (to_front s.last_state rest),
      total-to_front w s.last_state rest,
    )

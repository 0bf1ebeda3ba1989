-- ===== src/RecordManager/Examples.antt =====
-- Runs of the record manager, and its theorems at concrete inputs.
use vrs.Base.{some, ℕ, ◌≤◌, ◌<◌, ◌≡◌, refl, arith, true, inl, inr, [], ◌∷◌, ◌++◌, All}
use vrs.Base.Search.{partition_point}
use vrs.Record.{Record, RecordType, state, configuration, data_type, tags, fresh}
use vrs.RecordManager.{RecordManager, new_manager, create_record, insert_active, take_fitting}
use vrs.RecordManager.Order.{IsSorted, SameRecords}
use vrs.RecordManager.Insert.{insert_sorted, insert_active-insert_sorted}
use vrs.RecordManager.Create.{IsCreated, create_record-IsCreated}
use vrs.RecordManager.Purge.{purge_old_records, purge_loop, purge_one}
use vrs.RecordManager.Purge.Laws.{everything, purge_old_records-SameRecords}
use vrs.RecordManager.Purge.Survivors.{IsKept, purge_old_records-IsKept}
use vrs.RecordManager.Collect.{
  collect_old_records, collect_old_records_exact, purge_old_records_unsorted,
}

abbrev at_time : RecordType → ℕ → Record
at_time t n = record fresh { record_type = t; timestamp = n }

abbrev sized : ℕ → Record
sized n = record fresh { buffer_capacity = n }

abbrev busy : RecordManager
busy = record new_manager {
  active_records =
      at_time tags 0
      ∷ at_time configuration 1
      ∷ at_time state 2
      ∷ at_time configuration 3
      ∷ at_time data_type 4
      ∷ at_time data_type 9
      ∷ [];
  cache = sized 2 ∷ sized 10 ∷ sized 11 ∷ [];
}

-- The purge keeps the tags record, then the last configuration, then the last state.
purge_busy :
    (purge_old_records busy 5 true).0.active_records
    ≡ at_time tags 0 ∷ at_time configuration 3 ∷ at_time state 2 ∷ at_time data_type 9 ∷ []
unfolding purge_old_records purge_loop purge_one
purge_busy = refl

insert_late :
    insert_active (at_time data_type 3) (at_time state 1 ∷ at_time tags 3 ∷ at_time state 5 ∷ [])
    ≡ at_time state 1 ∷ at_time tags 3 ∷ at_time data_type 3 ∷ at_time state 5 ∷ []
unfolding insert_active
insert_late = refl

insert_active-insert_sorted_example :
    insert_active (at_time data_type 3) busy.active_records
    ≡ insert_sorted (at_time data_type 3) busy.active_records
insert_active-insert_sorted_example =
    insert_active-insert_sorted (at_time data_type 3) busy.active_records (omega arith)

take_ten : take_fitting 10 12 busy.cache ≡ some (sized 10, sized 2 ∷ sized 11 ∷ [])
unfolding take_fitting
take_ten = refl

create_record-IsCreated_example :
    IsCreated 7 busy
      (create_record 7 busy 3 data_type 1 (8 ∷ 9 ∷ [])).0
      (8 ∷ 9 ∷ [])
      (create_record 7 busy 3 data_type 1 (8 ∷ 9 ∷ [])).1
create_record-IsCreated_example = create_record-IsCreated 7 busy 3 data_type 1 (8 ∷ 9 ∷ [])

busy-IsSorted : IsSorted busy.active_records
busy-IsSorted = omega arith

purge_old_records-SameRecords_example :
    SameRecords (everything (purge_old_records busy 5 true).0) (everything busy)
purge_old_records-SameRecords_example = purge_old_records-SameRecords busy 5 true

purge_old_records-IsKept_example :
    IsKept 5 (purge_old_records busy 5 true).0.active_records (at_time configuration 1)
purge_old_records-IsKept_example =
    purge_old_records-IsKept busy 5 true (at_time configuration 1) (inr (inl refl))

collect_old_records_exact_example :
    ((collect_old_records busy 3).1 ++ (collect_old_records busy 3).0.active_records
      ≡ busy.active_records)
    × All (λ (r : Record). r.timestamp ≤ 3) (collect_old_records busy 3).1
    × All (λ (r : Record). 3 < r.timestamp) (collect_old_records busy 3).0.active_records
collect_old_records_exact_example = collect_old_records_exact busy 3 (omega arith)

abbrev crossed : RecordManager
crossed = record new_manager {
  active_records = at_time state 2 ∷ at_time configuration 3 ∷ at_time data_type 9 ∷ [];
}

purge_old_records_unsorted_example :
    ((purge_old_records crossed 5 true).0.active_records
      ≡ at_time configuration 3 ∷ at_time state 2 ∷ at_time data_type 9 ∷ [])
    × ¬ IsSorted (purge_old_records crossed 5 true).0.active_records
purge_old_records_unsorted_example =
    purge_old_records_unsorted crossed 5 true (at_time state 2) (at_time configuration 3)
      (at_time data_type 9 ∷ []) refl refl refl (omega arith) (omega arith) (omega arith)

-- A call at age 2 then takes a record of time 3 too.
collect_too_new :
    (collect_old_records (purge_old_records crossed 5 true).0 2).1
    ≡ at_time configuration 3 ∷ at_time state 2 ∷ []
unfolding collect_old_records purge_old_records purge_loop purge_one partition_point
collect_too_new = refl

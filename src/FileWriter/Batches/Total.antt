-- ===== src/FileWriter/Batches/Total.antt =====
-- The loops of `addRecordBatchesToSortedRecords` in vrs/RecordFileWriter.cpp, from the batches to the
-- sorted records.
use vrs.Base.{ℕ, zero, suc, ◌+◌, ◌%◌, ◌^◌, ◌≤◌, ◌≡◌, refl, arith, inl, inr}
use vrs.Base.{some, List, [], ◌∷◌, ◌++◌, length, Bool-cases}
use vrs.Base.Sums.{sum_by, sum_by-append, SameElements}
use vrs.StreamId.{StreamId}
use vrs.Record.{Record}
use vrs.FileWriter.{SortRecord, sort_less, get_size, RecordBatch}
use vrs.FileWriter.Batches.{
  RecordList, get_record, push, push_records, push_batch, push_batches, Sorting, add_run, push_left,
  add_lists, record_count, add_record_batches_to_sorted_records,
}
use vrs.FileWriter.Batches.Sorted.{
  IsOrdered, IsGood, add_run-IsRun, sort_records, queue_records, push_records-sum_by,
}

push-record_count :
    (l : RecordList) (queue : List RecordList)
    → record_count (push l queue) ≡ suc (length l.after) + record_count queue
unfolding push
push-record_count l [] = refl
push-record_count l (m ∷ queue) = elim (Bool-cases (sort_less (get_record l) (get_record m))) [
  | inl e ↦ rw e refl
  | inr e ↦ rw e (omega (arith, push-record_count l queue))
]

push_left-record_count :
    (id : StreamId) (records : List Record) (queue : List RecordList)
    → record_count (push_left id records queue) ≡ length records + record_count queue
push_left-record_count id [] queue = omega arith
push_left-record_count id (here ∷ after) queue =
    push-record_count (record { stream_id = id; here = here; after = after }) queue

-- What the `while` loop leaves: the records of the queue are in.
record IsDone (base : ℕ) (queue : List RecordList) (s s' : Sorting) : Type 0 where
  good : IsGood base s'
  held :
      (w : SortRecord → ℕ) → sum_by w s'.sorted ≡ sum_by w s.sorted + sum_by w (queue_records queue)

add_lists_total :
    (base fuel : ℕ) (queue : List RecordList) (s : Sorting)
    → IsGood base s
    → record_count queue ≤ fuel
    → (s' : Sorting) × (add_lists fuel queue s ≡ some s') × IsDone base queue s s'
unfolding add_lists
add_lists_total base fuel [] s g h = (s, refl, record { good = g; held = λ w. omega arith })
add_lists_total base zero (l ∷ queue) s g h = absurd (omega arith)
add_lists_total base (suc fuel) (l ∷ queue) s g h =
    let (left, s1) = add_run l.stream_id l.here l.after queue s in
    let run = add_run-IsRun base l.stream_id l.here l.after queue s g in
    let next = push_left l.stream_id left queue in
    let fewer : record_count next ≤ fuel =
      omega (arith, push_left-record_count l.stream_id left queue, run.shorter) in
    let (s', done, d) = add_lists_total base fuel next s1 run.good fewer in
    (
      s',
      done,
      record {
        good = d.good;
        held = λ w. omega (
          arith,
          d.held w,
          run.held w,
          push_records-sum_by w l.stream_id left queue,
          sum_by-append w (sort_records l.stream_id (l.here ∷ l.after)) (queue_records queue),
        );
      },
    )

-- The records of batches.
abbrev pub batch_records : RecordBatch → List SortRecord
batch_records [] = []
batch_records (s ∷ rest) = sort_records s.stream_id s.records ++ batch_records rest

abbrev pub all_records : List RecordBatch → List SortRecord
all_records [] = []
all_records (batch ∷ rest) = batch_records batch ++ all_records rest

push_batch-sum_by :
    (w : SortRecord → ℕ) (batch : RecordBatch) (queue : List RecordList)
    → sum_by w (queue_records (push_batch batch queue))
      ≡ sum_by w (batch_records batch) + sum_by w (queue_records queue)
unfolding push_batch
push_batch-sum_by w [] queue = omega arith
push_batch-sum_by w (s ∷ rest) queue = omega (
  arith,
  push_batch-sum_by w rest (push_records s queue),
  push_records-sum_by w s.stream_id s.records queue,
  sum_by-append w (sort_records s.stream_id s.records) (batch_records rest),
)

push_batches-sum_by :
    (w : SortRecord → ℕ) (batches : List RecordBatch) (queue : List RecordList)
    → sum_by w (queue_records (push_batches batches queue))
      ≡ sum_by w (all_records batches) + sum_by w (queue_records queue)
unfolding push_batches
push_batches-sum_by w [] queue = omega arith
push_batches-sum_by w (batch ∷ rest) queue = omega (
  arith,
  push_batches-sum_by w rest (push_batch batch queue),
  push_batch-sum_by w batch queue,
  sum_by-append w (batch_records batch) (all_records rest),
)

-- From records that are sorted, and batches of lists in any order, the merge ends with sorted
-- records that hold exactly those that were there and those of the batches, each as often; the size
-- that it adds up is that of the batches' records, modulo 2 ^ 64.
pub add_record_batches_to_sorted_records-IsOrdered :
    (batches : List RecordBatch) (sorted : List SortRecord)
    → IsOrdered sorted
    → (s : Sorting) × (add_record_batches_to_sorted_records batches sorted ≡ some s)
      × IsOrdered s.sorted
      × SameElements s.sorted (sorted ++ all_records batches)
      × (s.added_size ≡ sum_by get_size (all_records batches) % 2 ^ 64)
unfolding add_record_batches_to_sorted_records
add_record_batches_to_sorted_records-IsOrdered batches sorted o =
    let queue = push_batches batches [] in
    let base = sum_by get_size sorted in
    let start : IsGood base (record { sorted = sorted; added_size = 0 }) = record {
      ordered = o;
      counted = omega arith;
      fits = omega arith;
    } in
    let (s, done, d) =
      add_lists_total base (record_count queue) queue (record { sorted = sorted; added_size = 0 })
        start (omega arith) in
    (
      s,
      done,
      d.good.ordered,
      λ w. omega (
        arith,
        d.held w,
        push_batches-sum_by w batches [],
        sum_by-append w sorted (all_records batches),
      ),
      omega (
        arith,
        d.good.counted,
        d.good.fits,
        d.held get_size,
        push_batches-sum_by get_size batches [],
      ),
    )

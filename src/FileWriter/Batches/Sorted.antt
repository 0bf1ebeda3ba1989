-- ===== src/FileWriter/Batches/Sorted.antt =====
-- `addRecordBatchesToSortedRecords` of vrs/RecordFileWriter.cpp sorts, whatever the order of the
-- lists that it is given: the reference that it replaces collects all records and sorts them.
use vrs.Base.{ℕ, ◌+◌, ◌%◌, ◌^◌, ◌<◌, ◌≡◌, refl, ◌∙◌, ap, arith, inl, inr}
use vrs.Base.{List, [], ◌∷◌, ◌++◌, length, take, drop, Bool-cases}
use vrs.Base.Search.{partition_point-leading}
use vrs.Base.Sums.{sum_by, sum_by-append}
use vrs.Base.Ordered.{
  IsOrderedBy, insert_ordered, sum_by-insert_ordered, insert_ordered-splice,
  insert_ordered-IsOrderedBy, IsOrderedBy-IsPartitioned, insert_ordered-append, last_of,
}
use vrs.StreamId.{StreamId}
use vrs.Record.{Record}
use vrs.FileWriter.{SortRecord, sort_less, sort_less-IsWeakOrder, get_size}
use vrs.FileWriter.Batches.{
  RecordList, get_record, push, insert_point, add_record, Sorting, add_one, before_top, add_run,
  push_left,
}

abbrev pub IsOrdered : List SortRecord → Type 0
IsOrdered = IsOrderedBy sort_less

splice-insert_ordered :
    (r : SortRecord) (sorted : List SortRecord)
    → IsOrdered sorted
    → take (insert_point r sorted) sorted ++ (r ∷ drop (insert_point r sorted) sorted)
      ≡ insert_ordered sort_less r sorted
splice-insert_ordered r sorted s =
    rw
      (partition_point-leading (λ (x : SortRecord). sort_less x r) sorted
        (IsOrderedBy-IsPartitioned sort_less sort_less-IsWeakOrder r sorted s))
      (insert_ordered-splice sort_less r sorted)

-- Both ways in, the fast one and the search, are the reference insertion.
add_record-insert_ordered :
    (r : SortRecord) (sorted : List SortRecord)
    → IsOrdered sorted
    → add_record r sorted ≡ insert_ordered sort_less r sorted
unfolding add_record
add_record-insert_ordered r [] s = refl
add_record-insert_ordered r (x ∷ sorted) s =
    elim (Bool-cases (sort_less (last_of sort_less x sorted) r)) [
      | inl e ↦ rw e (insert_ordered-append sort_less sort_less-IsWeakOrder r x sorted s e)
      | inr e ↦ rw e (splice-insert_ordered r (x ∷ sorted) s)
    ]

-- What the loops keep, where the records that were there first have the size `base`.
pub record IsGood (base : ℕ) (s : Sorting) : Type 0 where
  pub ordered : IsOrdered s.sorted
  pub counted : (s.added_size + base) % 2 ^ 64 ≡ sum_by get_size s.sorted % 2 ^ 64
  pub fits : s.added_size < 2 ^ 64

add_one-sum_by :
    (w : SortRecord → ℕ) (r : SortRecord) (s : Sorting)
    → IsOrdered s.sorted
    → sum_by w (add_one r s).sorted ≡ w r + sum_by w s.sorted
add_one-sum_by w r s o =
    ap (sum_by w) (add_record-insert_ordered r s.sorted o)
    ∙ sum_by-insert_ordered sort_less w r s.sorted

add_one-IsGood :
    (base : ℕ) (r : SortRecord) (s : Sorting) → IsGood base s → IsGood base (add_one r s)
add_one-IsGood base r s g =
    let inserted = add_record-insert_ordered r s.sorted g.ordered in
    record {
      ordered =
          rw inserted
            (insert_ordered-IsOrderedBy sort_less sort_less-IsWeakOrder r s.sorted g.ordered);
      counted = omega (arith, g.counted, add_one-sum_by get_size r s g.ordered);
      fits = omega arith;
    }

abbrev pub sort_records : StreamId → List Record → List SortRecord
sort_records id [] = []
sort_records id (r ∷ rest) = record { item = r; stream_id = id } ∷ sort_records id rest

abbrev pub queue_records : List RecordList → List SortRecord
queue_records [] = []
queue_records (l ∷ queue) = sort_records l.stream_id (l.here ∷ l.after) ++ queue_records queue

-- A run takes one record at least from the front of its list.
pub record IsRun (base : ℕ) (id : StreamId) (records left : List Record) (s s' : Sorting)
    : Type 0 where
  pub good : IsGood base s'
  pub held :
      (w : SortRecord → ℕ)
      → sum_by w s'.sorted + sum_by w (sort_records id left)
        ≡ sum_by w s.sorted + sum_by w (sort_records id records)
  pub shorter : length left < length records

pub add_run-IsRun :
    (base : ℕ) (id : StreamId) (here : Record) (after : List Record) (queue : List RecordList)
    (s : Sorting)
    → IsGood base s
    → let (left, s') = add_run id here after queue s in IsRun base id (here ∷ after) left s s'
unfolding add_run
add_run-IsRun base id here [] queue s g =
    let r : SortRecord = record { item = here; stream_id = id } in
    record {
      good = add_one-IsGood base r s g;
      held = λ w. omega (arith, add_one-sum_by w r s g.ordered);
      shorter = omega arith;
    }
add_run-IsRun base id here (next ∷ after) queue s g =
    let r : SortRecord = record { item = here; stream_id = id } in
    let added : (w : SortRecord → ℕ) → sum_by w (add_one r s).sorted ≡ w r + sum_by w s.sorted =
      λ w. add_one-sum_by w r s g.ordered in
    let run = add_run-IsRun base id next after queue (add_one r s) (add_one-IsGood base r s g) in
    elim (Bool-cases (before_top (record { item = next; stream_id = id }) queue)) [
      | inl e ↦ rw e (record {
        good = run.good;
        held = λ w. omega (arith, run.held w, added w);
        shorter = omega (arith, run.shorter);
      })
      | inr e ↦ rw e (record {
        good = add_one-IsGood base r s g;
        held = λ w. omega (arith, added w);
        shorter = omega arith;
      })
    ]

pub push-sum_by :
    (w : SortRecord → ℕ) (l : RecordList) (queue : List RecordList)
    → sum_by w (queue_records (push l queue)) ≡ sum_by w (queue_records (l ∷ queue))
unfolding push
push-sum_by w l [] = refl
push-sum_by w l (m ∷ queue) =
    let own = sort_records l.stream_id l.after in
    let others = sort_records m.stream_id m.after in
    elim (Bool-cases (sort_less (get_record l) (get_record m))) [
      | inl e ↦ rw e refl
      | inr e ↦ rw e (
          omega (
            arith,
            push-sum_by w l queue,
            sum_by-append w others (queue_records (push l queue)),
            sum_by-append w own (queue_records queue),
            sum_by-append w own (queue_records (m ∷ queue)),
            sum_by-append w others (queue_records queue),
          ))
    ]

pub push_records-sum_by :
    (w : SortRecord → ℕ) (id : StreamId) (records : List Record) (queue : List RecordList)
    → sum_by w (queue_records (push_left id records queue))
      ≡ sum_by w (sort_records id records) + sum_by w (queue_records queue)
push_records-sum_by w id [] queue = omega arith
push_records-sum_by w id (here ∷ after) queue =
    let l : RecordList = record { stream_id = id; here = here; after = after } in
    push-sum_by w l queue ∙ sum_by-append w (sort_records id (here ∷ after)) (queue_records queue)

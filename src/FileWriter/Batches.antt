-- ===== src/FileWriter/Batches.antt =====
-- `addRecordBatchesToSortedRecords` of vrs/RecordFileWriter.cpp. The std::priority_queue is the list
-- of its elements in the order that it gives them out.
pub mod Sorted
pub mod Total
use vrs.Base.{
  ℕ, zero, suc, ◌+◌, ◌%◌, ◌^◌, Bool, true, false, ◌||◌, if◌then◌else◌, ◌>>=◌, Option, none, some,
  List, [], ◌∷◌, ◌++◌, length, take, drop,
}
use vrs.Base.Search.{partition_point}
use vrs.Base.Ordered.{last_of}
use vrs.StreamId.{StreamId}
use vrs.Record.{Record}
use vrs.FileReader.{is_empty}
use vrs.FileWriter.{SortRecord, sort_less, get_size, StreamRecords, RecordBatch}

-- `RecordList`, with a record at its iterator, and those behind it.
pub record RecordList : Type 0 where
  pub stream_id : StreamId
  pub here : Record
  pub after : List Record

-- `getRecord`
abbrev pub get_record : RecordList → SortRecord
get_record l = record { item = l.here; stream_id = l.stream_id }

-- `pq.push`: the list with the oldest record leaves first
unfoldable pub push : RecordList → List RecordList → List RecordList
push l [] = l ∷ []
push l (m ∷ queue) =
    let later = push l queue in
    if sort_less (get_record l) (get_record m) then l ∷ m ∷ queue else m ∷ later

abbrev pub push_records : StreamRecords → List RecordList → List RecordList
push_records s queue = elim s.records [
  | [] ↦ queue
  | here ∷ after ↦ push (record { stream_id = s.stream_id; here = here; after = after }) queue
]

-- The loops over the batches.
unfoldable pub push_batch : RecordBatch → List RecordList → List RecordList
unfolding push
push_batch [] queue = queue
push_batch (s ∷ rest) queue = push_batch rest (push_records s queue)

unfoldable pub push_batches : List RecordBatch → List RecordList → List RecordList
push_batches [] queue = queue
push_batches (batch ∷ rest) queue = push_batches rest (push_batch batch queue)

-- One record into the sorted ones: at the end, or at its `lower_bound`.
abbrev pub back_is_less : List SortRecord → SortRecord → Bool
back_is_less [] r = true
back_is_less (x ∷ rest) r = sort_less (last_of sort_less x rest) r

abbrev pub insert_point : SortRecord → List SortRecord → ℕ
insert_point r sorted = partition_point (λ (x : SortRecord). sort_less x r) sorted

unfoldable pub add_record : SortRecord → List SortRecord → List SortRecord
add_record r sorted =
    if back_is_less sorted r
    then sorted ++ (r ∷ [])
    else take (insert_point r sorted) sorted ++ (r ∷ drop (insert_point r sorted) sorted)

-- The sorted records, and `addedRecordSize`, a uint64_t.
pub record Sorting : Type 0 where
  pub sorted : List SortRecord
  pub added_size : ℕ

abbrev pub add_one : SortRecord → Sorting → Sorting
add_one r s = record {
  sorted = add_record r s.sorted;
  added_size = (s.added_size + get_size r) % 2 ^ 64;
}

abbrev pub before_top : SortRecord → List RecordList → Bool
before_top r [] = true
before_top r (top ∷ queue) = sort_less r (get_record top)

-- The `do` loop on the list that left the queue: what is left of the list.
unfoldable pub add_run :
    StreamId → Record → List Record → List RecordList → Sorting → List Record × Sorting
add_run id here [] queue s = ([], add_one (record { item = here; stream_id = id }) s)
add_run id here (next ∷ after) queue s =
    let s' = add_one (record { item = here; stream_id = id }) s in
    let later = add_run id next after queue s' in
    if before_top (record { item = next; stream_id = id }) queue then later else (next ∷ after, s')

abbrev pub push_left : StreamId → List Record → List RecordList → List RecordList
push_left id left queue = push_records (record { stream_id = id; records = left }) queue

-- The `while` loop, in at most `fuel` rounds.
unfoldable pub add_lists : ℕ → List RecordList → Sorting → Option Sorting
unfolding push
add_lists fuel [] s = some s
add_lists zero (l ∷ queue) s = none
add_lists (suc fuel) (l ∷ queue) s =
    let (left, s') = add_run l.stream_id l.here l.after queue s in
    add_lists fuel (push_left l.stream_id left queue) s'

abbrev pub record_count : List RecordList → ℕ
record_count [] = 0
record_count (l ∷ queue) = suc (length l.after) + record_count queue

-- `addRecordBatchesToSortedRecords`: each round handles a record at least, so as many rounds as
-- there are records are enough.
unfoldable pub add_record_batches_to_sorted_records :
    List RecordBatch → List SortRecord → Option Sorting
unfolding push_batches add_lists
add_record_batches_to_sorted_records batches sorted =
    let queue = push_batches batches [] in
    add_lists (record_count queue) queue (record { sorted = sorted; added_size = 0 })

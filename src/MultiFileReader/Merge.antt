-- ===== src/MultiFileReader/Merge.antt =====
-- The merge of the files' indexes: `createConsolidatedIndex` and `timeLessThan` of
-- vrs/MultiRecordFileReader.cpp. The std::priority_queue is the list of its elements in the order
-- that it gives them out; equal ones leave in the order they came. `none` is an exception of
-- `map::at`, or a step past the end of a reader's index.
pub mod Queue
pub mod Start
pub mod Sorted
pub mod Index
use vrs.Base.{
  ℕ, zero, suc, ◌+◌, Bool, true, false, ◌&&◌, ◌||◌, not, ltb, ◌==◌, if◌then◌else◌, ◌>>=◌,
}
use vrs.Base.{Option, none, some, List, [], ◌∷◌, length}
use vrs.StreamId.{StreamId, same, less}
use vrs.FileReader.{RecordInfo}
use vrs.MultiFileReader.{SourceReader, RecordPointer, UniqueIds, unique_of, has_single_file}

-- `getUniqueStreamIdInternal(record)`
abbrev unique_id_of : UniqueIds → RecordPointer → Option StreamId
unique_id_of known p = unique_of p.reader p.place.info.stream_id known.by_stream

abbrev pub time_of : RecordPointer → ℕ
time_of p = p.place.info.timestamp

-- `timeLessThan`
unfoldable pub time_less_than : UniqueIds → RecordPointer → RecordPointer → Option Bool
time_less_than known lhs rhs =
    if not (time_of lhs == time_of rhs) then some (ltb (time_of lhs) (time_of rhs)) else (do
      lhs_id ← unique_id_of known lhs
      rhs_id ← unique_id_of known rhs
      some (
          less lhs_id rhs_id
          || (same lhs_id rhs_id && ltb lhs.place.info.file_offset rhs.place.info.file_offset)))

-- An element of the queue: a record, and the records behind it in its reader's index.
pub record QueueEntry : Type 0 where
  pub here : RecordPointer
  pub after : List RecordPointer

-- `recordPQueue.emplace`
unfoldable pub emplace : UniqueIds → QueueEntry → List QueueEntry → Option (List QueueEntry)
emplace known e [] = some (e ∷ [])
emplace known e (f ∷ queue) =
    let later = emplace known e queue in
    time_less_than known e.here f.here >>= λ first.
    if first then some (e ∷ f ∷ queue) else later >>= λ queue'. some (f ∷ queue')

-- The locals of `createConsolidatedIndex`.
pub record Merging : Type 0 where
  pub queue : List QueueEntry
  pub terminal_record_ptrs : List RecordPointer
  pub index_size : ℕ

abbrev pub record_pointers : ℕ → List RecordInfo → ℕ → List RecordPointer
record_pointers reader [] i = []
record_pointers reader (r ∷ rest) i =
    record { reader = reader; place = record { position = i; info = r } }
    ∷ record_pointers reader rest (suc i)

-- `&readerIndex.back()`, by a walk from a record on
abbrev pub last_pointer : RecordPointer → List RecordPointer → RecordPointer
last_pointer p [] = p
last_pointer p (next ∷ rest) = last_pointer next rest

abbrev pub same_pointer : RecordPointer → RecordPointer → Bool
same_pointer p q = p.reader == q.reader && p.place.position == q.place.position

-- `terminalRecordPtrs.find(record) != end()`
abbrev pub is_terminal : List RecordPointer → RecordPointer → Bool
is_terminal [] p = false
is_terminal (t ∷ rest) p = same_pointer p t || is_terminal rest p

-- What a reader's index adds before the merge.
unfoldable pub add_index : UniqueIds → List RecordPointer → Merging → Option Merging
unfolding emplace
add_index known [] m = some m
add_index known (front ∷ rest) m = do
  queue' ← emplace known (record { here = front; after = rest }) m.queue
  some (record {
    queue = queue';
    terminal_record_ptrs = last_pointer front rest ∷ m.terminal_record_ptrs;
    index_size = m.index_size + suc (length rest);
  })

unfoldable pub add_indexes : UniqueIds → ℕ → List SourceReader → Merging → Option Merging
add_indexes known reader [] m = some m
add_indexes known reader (r ∷ rest) m = do
  m' ← add_index known (record_pointers reader r.file_reader.record_index 0) m
  add_indexes known (suc reader) rest m'

-- `recordPQueue.emplace(record + 1)`
unfoldable pub emplace_next :
    UniqueIds → List RecordPointer → List QueueEntry → Option (List QueueEntry)
emplace_next known [] queue = none
emplace_next known (next ∷ rest) queue = emplace known (record { here = next; after = rest }) queue

-- What the `while` loop appends to the index, in at most `fuel` rounds.
unfoldable pub merge :
    ℕ → UniqueIds → List RecordPointer → List QueueEntry → Option (List RecordPointer)
merge fuel known terminals [] = some []
merge zero known terminals (e ∷ queue) = none
merge (suc fuel) known terminals (e ∷ queue) = do
  queue' ← if is_terminal terminals e.here then some queue else emplace_next known e.after queue
  rest ← merge fuel known terminals queue'
  some (e.here ∷ rest)

abbrev pub no_merging : Merging
no_merging = record { queue = []; terminal_record_ptrs = []; index_size = 0 }

-- `createConsolidatedIndex`; a null `recordIndex_` is `none`. One round per record is enough.
unfoldable pub create_consolidated_index :
    UniqueIds → List SourceReader → Option (Option (List RecordPointer))
create_consolidated_index known readers = if has_single_file readers then some none else (do
  m ← add_indexes known 0 readers no_merging
  index ← merge m.index_size known m.terminal_record_ptrs m.queue
  some (some index))

-- ===== src/MultiFileReader/Merge/Index.antt =====
-- `createConsolidatedIndex` of vrs/MultiRecordFileReader.cpp as a whole: the merged index.
use vrs.Base.{ℕ, suc, ◌+◌, ◌<◌, ◌≡◌, refl, arith, false}
use vrs.Base.{some, List, [], ◌∷◌, ◌++◌, All, All-map, All-both, All-append_inv, length}
use vrs.Base.Sums.{sum_by-append, sum_by-length, SameElements}
use vrs.Base.Sorted.{IsSortedBy}
use vrs.FileReader.{RecordInfo}
use vrs.MultiFileReader.{SourceReader, UniqueIds, RecordPointer, has_single_file}
use vrs.MultiFileReader.Merge.{
  time_of, QueueEntry, Merging, record_pointers, last_pointer, add_index, add_indexes, no_merging,
  create_consolidated_index,
}
use vrs.MultiFileReader.Merge.Queue.{HasId, entry_pointers, queue_pointers, emplace-IsInserted}
use vrs.MultiFileReader.Merge.Sorted.{IsEnding, IsIndexEnd, merge_total}
use vrs.MultiFileReader.Merge.Start.{
  info_time, IsReady, record_pointers-IsSortedBy, reader_of-record_pointers,
  last_pointer-record_pointers, record_pointers-IsEnding, IsEnding-other,
}

-- The records of one reader more are in the queue.
record IsAdded (known : UniqueIds) (k : ℕ) (pointers : List RecordPointer) (m m' : Merging)
    : Type 0 where
  ready : IsReady known k m'
  held : SameElements (queue_pointers m'.queue) (pointers ++ queue_pointers m.queue)

module _ (known : UniqueIds) (k : ℕ) (m : Merging) (w : IsReady known k m) where
  later_reader : IsReady known (suc k) m
  later_reader = record {
    entries = w.entries;
    sorted = w.sorted;
    earlier =
        All-map _ _ (λ e h. All-map _ _ (λ p le. omega arith) (entry_pointers e) h) m.queue
          w.earlier;
    earlier_ends = All-map _ _ (λ t le. omega arith) m.terminal_record_ptrs w.earlier_ends;
    size = w.size;
  }

  -- The entries that are there stay right when a terminal record of the reader `k` comes in.
  entries_kept :
      (last : RecordPointer)
      → last.reader ≡ k
      → All (IsIndexEnd known (last ∷ m.terminal_record_ptrs)) m.queue
  entries_kept last e =
      All-map _ _
        (λ f h. record {
          named = h.0.named;
          ordered = h.0.ordered;
          ending =
              IsEnding-other last m.terminal_record_ptrs (entry_pointers f)
                (All-map _ _ (λ p le. omega (arith, le, e)) (entry_pointers f) h.1) h.0.ending;
        })
        m.queue
        (All-both (IsIndexEnd known m.terminal_record_ptrs)
          (λ (f : QueueEntry). All (λ (p : RecordPointer). p.reader < k) (entry_pointers f)) m.queue
          w.entries w.earlier)

  add_index_total :
      (records : List RecordInfo)
      → All (HasId known) (record_pointers k records 0)
      → IsSortedBy info_time records
      → (m' : Merging) × (add_index known (record_pointers k records 0) m ≡ some m')
        × IsAdded known (suc k) (record_pointers k records 0) m m'
  unfolding add_index
  add_index_total [] h s = (m, refl, record { ready = later_reader; held = λ v. refl })
  add_index_total (r ∷ records) h s =
      let front : RecordPointer = record {
        reader = k;
        place = record { position = 0; info = r };
      } in
      let rest = record_pointers k records 1 in
      let e : QueueEntry = record { here = front; after = rest } in
      let last = last_pointer front rest in
      let at = last_pointer-record_pointers k front records refl in
      let heads = All-map _ _ (λ f x. x.named.0) m.queue w.entries in
      let (queue', done, i) = emplace-IsInserted known e m.queue h.0 heads w.sorted in
      let ending : IsEnding (last ∷ m.terminal_record_ptrs) (front ∷ rest) =
        record_pointers-IsEnding k last m.terminal_record_ptrs (r ∷ records) 0 at.0
          (omega (arith, at.1)) w.earlier_ends in
      let new : IsIndexEnd known (last ∷ m.terminal_record_ptrs) e = record {
        named = h;
        ordered = record_pointers-IsSortedBy k (r ∷ records) 0 s;
        ending = ending;
      } in
      let own : All (λ (p : RecordPointer). p.reader < suc k) (front ∷ rest) =
        All-map _ _ (λ p x. omega (arith, x)) (front ∷ rest)
          (reader_of-record_pointers k (r ∷ records) 0) in
      (
        record {
          queue = queue';
          terminal_record_ptrs = last ∷ m.terminal_record_ptrs;
          index_size = m.index_size + suc (length rest);
        },
        rw done refl,
        record {
          ready = record {
            entries = i.all _ new (entries_kept last at.0);
            sorted = i.sorted;
            earlier =
                i.all
                  (λ (f : QueueEntry).
                    All (λ (p : RecordPointer). p.reader < suc k) (entry_pointers f))
                  own later_reader.earlier;
            earlier_ends = (omega (arith, at.0), later_reader.earlier_ends);
            size = omega (
              arith,
              i.held (λ p. 1),
              w.size,
              sum_by-append (λ p. 1) (front ∷ rest) (queue_pointers m.queue),
              sum_by-length rest,
            );
          };
          held = i.held;
        },
      )

-- The records of all files, one file after the other, from the reader `k` on.
abbrev pub all_pointers : ℕ → List SourceReader → List RecordPointer
all_pointers k [] = []
all_pointers k (r ∷ rest) =
    record_pointers k r.file_reader.record_index 0 ++ all_pointers (suc k) rest

-- Each file's index is in the order of the timestamps.
abbrev pub AllInOrder : List SourceReader → Type 0
AllInOrder = All (λ (r : SourceReader). IsSortedBy info_time r.file_reader.record_index)

add_indexes_total :
    (known : UniqueIds) (k : ℕ) (readers : List SourceReader) (m : Merging)
    → IsReady known k m
    → All (HasId known) (all_pointers k readers)
    → AllInOrder readers
    → (m' : Merging) × (add_indexes known k readers m ≡ some m')
      × IsAdded known (k + length readers) (all_pointers k readers) m m'
unfolding add_indexes
add_indexes_total known k [] m w h s =
    let same_place : k ≡ k + 0 = omega arith in
    (m, refl, record { ready = rw (← same_place) w; held = λ v. refl })
add_indexes_total known k (r ∷ rest) m w h s =
    let index = record_pointers k r.file_reader.record_index 0 in
    let parts = All-append_inv (HasId known) index (all_pointers (suc k) rest) h in
    let (m1, done1, a1) = add_index_total known k m w r.file_reader.record_index parts.0 s.0 in
    let (m2, done2, a2) = add_indexes_total known (suc k) rest m1 a1.ready parts.1 s.1 in
    let same_place : suc k + length rest ≡ k + suc (length rest) = omega arith in
    (
      m2,
      rw done1 done2,
      record {
        ready = rw (← same_place) a2.ready;
        held = λ v. omega (
          arith,
          a1.held v,
          a2.held v,
          sum_by-append v index (queue_pointers m.queue),
          sum_by-append v (all_pointers (suc k) rest) (queue_pointers m1.queue),
          sum_by-append v (index ++ all_pointers (suc k) rest) (queue_pointers m.queue),
          sum_by-append v index (all_pointers (suc k) rest),
        );
      },
    )

-- For several files, each with its index in the order of the timestamps and only with records of
-- streams that have a unique id, the merge ends without an exception or a step past the end of a
-- file's index, and the index that it makes is in the order of the timestamps and holds exactly
-- the records of all the files, each as often.
pub create_consolidated_index-SameElements :
    (known : UniqueIds) (readers : List SourceReader)
    → has_single_file readers ≡ false
    → All (HasId known) (all_pointers 0 readers)
    → AllInOrder readers
    → (index : List RecordPointer) × (create_consolidated_index known readers ≡ some (some index))
      × IsSortedBy time_of index
      × SameElements index (all_pointers 0 readers)
unfolding create_consolidated_index
create_consolidated_index-SameElements known readers several h s =
    let start : IsReady known 0 no_merging = record {
      entries = tt;
      sorted = tt;
      earlier = tt;
      earlier_ends = tt;
      size = refl;
    } in
    let (m, done, a) = add_indexes_total known 0 readers no_merging start h s in
    let (index, found, merged) =
      merge_total known m.terminal_record_ptrs m.index_size m.queue a.ready.entries a.ready.sorted
        (omega (arith, a.ready.size)) in
    rw (several, done, found)
      (
        index,
        refl,
        merged.sorted,
        λ v. omega (arith, merged.held v, a.held v, sum_by-append v (all_pointers 0 readers) []),
      )

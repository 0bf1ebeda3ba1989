-- ===== src/MultiFileReader/Merge/Sorted.antt =====
-- The `while` loop of `createConsolidatedIndex` in vrs/MultiRecordFileReader.cpp: what it appends.
use vrs.Base.{ℕ, zero, suc, ◌≤◌, ◌≡◌, refl, arith, if◌then◌else◌}
use vrs.Base.{some, List, [], ◌∷◌, ◌++◌, All, All-map}
use vrs.Base.Sums.{sum_by, SameElements}
use vrs.Base.Sorted.{IsSortedBy}
use vrs.FileReader.{is_empty}
use vrs.MultiFileReader.{UniqueIds, RecordPointer}
use vrs.MultiFileReader.Merge.{time_of, QueueEntry, is_terminal, emplace_next, merge}
use vrs.MultiFileReader.Merge.Queue.{
  HasId, entry_pointers, queue_pointers, head_time, emplace-IsInserted,
}

-- The last of these records, and no other, is terminal.
abbrev pub IsEnding : List RecordPointer → List RecordPointer → Type 0
IsEnding terminals [] = Unit
IsEnding terminals (p ∷ rest) = (is_terminal terminals p ≡ is_empty rest) × IsEnding terminals rest

-- What the queue holds of a reader's index: records of known streams, oldest first, up to the end.
pub record IsIndexEnd (known : UniqueIds) (terminals : List RecordPointer) (e : QueueEntry)
    : Type 0 where
  pub named : All (HasId known) (entry_pointers e)
  pub ordered : IsSortedBy time_of (entry_pointers e)
  pub ending : IsEnding terminals (entry_pointers e)

module _ (known : UniqueIds) (terminals : List RecordPointer) where
  heads_named :
      (queue : List QueueEntry)
      → All (IsIndexEnd known terminals) queue
      → All (λ (f : QueueEntry). HasId known f.here) queue
  heads_named queue h = All-map _ _ (λ f w. w.named.0) queue h

  -- The queue of the next round.
  record IsNext (here : RecordPointer) (after : List RecordPointer) (queue queue' : List QueueEntry)
      : Type 0 where
    entries : All (IsIndexEnd known terminals) queue'
    sorted : IsSortedBy head_time queue'
    held : SameElements (queue_pointers queue') (after ++ queue_pointers queue)
    above :
        (b : ℕ)
        → b ≤ time_of here
        → All (λ (f : QueueEntry). b ≤ head_time f) queue
        → All (λ (f : QueueEntry). b ≤ head_time f) queue'

  follow_up :
      (here : RecordPointer) (after : List RecordPointer) (queue : List QueueEntry)
      → IsIndexEnd known terminals (record { here = here; after = after })
      → All (IsIndexEnd known terminals) queue
      → IsSortedBy head_time queue
      → (queue' : List QueueEntry) × ((if is_terminal terminals here
            then some queue
            else emplace_next known after queue)
          ≡ some queue')
        × IsNext here after queue queue'
  unfolding emplace_next
  follow_up here [] queue w ws s =
      rw w.ending.0
        (queue, refl, record { entries = ws; sorted = s; held = λ v. refl; above = λ b le h. h })
  follow_up here (next ∷ rest) queue w ws s =
      let e : QueueEntry = record { here = next; after = rest } in
      let (queue', done, i) =
        emplace-IsInserted known e queue w.named.1.0 (heads_named queue ws) s in
      rw w.ending.0 (
        queue',
        done,
        record {
          entries =
              i.all (IsIndexEnd known terminals)
                (record { named = w.named.1; ordered = w.ordered.1; ending = w.ending.1 }) ws;
          sorted = i.sorted;
          held = i.held;
          above = λ b le h.
              i.all (λ (f : QueueEntry). b ≤ head_time f) (omega (arith, w.ordered.0.0)) h;
        },
      )

  -- The merged index of what a queue holds.
  pub record IsMerged (queue : List QueueEntry) (merged : List RecordPointer) : Type 0 where
    pub sorted : IsSortedBy time_of merged
    pub held : SameElements merged (queue_pointers queue)
    above :
        (b : ℕ)
        → All (λ (f : QueueEntry). b ≤ head_time f) queue
        → All (λ (p : RecordPointer). b ≤ time_of p) merged

  pub merge_total :
      (fuel : ℕ) (queue : List QueueEntry)
      → All (IsIndexEnd known terminals) queue
      → IsSortedBy head_time queue
      → sum_by (λ p. 1) (queue_pointers queue) ≤ fuel
      → (merged : List RecordPointer) × (merge fuel known terminals queue ≡ some merged)
        × IsMerged queue merged
  unfolding merge
  merge_total fuel [] ws s h =
      ([], refl, record { sorted = tt; held = λ w. refl; above = λ b a. tt })
  merge_total zero (e ∷ queue) ws s h = absurd (omega arith)
  merge_total (suc fuel) (e ∷ queue) ws s h =
      let (queue', done, n) = follow_up e.here e.after queue ws.0 ws.1 s.1 in
      let fewer : sum_by (λ p. 1) (queue_pointers queue') ≤ fuel = omega (arith, n.held (λ p. 1)) in
      let (merged, found, m) = merge_total fuel queue' n.entries n.sorted fewer in
      rw (done, found)
        (
          e.here ∷ merged,
          refl,
          record {
            sorted = (m.above (head_time e) (n.above (head_time e) (omega arith) s.0), m.sorted);
            held = λ w. omega (arith, m.held w, n.held w);
            above = λ b a. (a.0, m.above b (n.above b a.0 a.1));
          },
        )

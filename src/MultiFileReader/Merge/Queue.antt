-- ===== src/MultiFileReader/Merge/Queue.antt =====
-- The priority queue of `createConsolidatedIndex` in vrs/MultiRecordFileReader.cpp: what an insertion
-- leaves.
use vrs.Base.{ℕ, ◌≤◌, ◌≡◌, refl, arith, Bool, true, false, inl, inr, ◌⊎◌, ◌==◌}
use vrs.Base.{some, List, [], ◌∷◌, ◌++◌, Bool-cases, All, All-map}
use vrs.Base.Sums.{sum_by, sum_by-append}
use vrs.Base.Sorted.{IsSortedBy}
use vrs.MultiFileReader.{UniqueIds, RecordPointer}
use vrs.MultiFileReader.Naming.{IsNamed}
use vrs.MultiFileReader.Merge.{time_of, time_less_than, QueueEntry, emplace}

-- The record's stream has a unique id.
abbrev pub HasId : UniqueIds → RecordPointer → Type 0
HasId known p = IsNamed known p.reader p.place.info.stream_id

-- The comparison does not throw, and goes by the timestamps first.
pub time_less_than_total :
    (known : UniqueIds) (a b : RecordPointer)
    → HasId known a
    → HasId known b
    → (first : Bool) × (time_less_than known a b ≡ some first)
      × (((first ≡ true) × (time_of a ≤ time_of b)) ⊎ ((first ≡ false) × (time_of b ≤ time_of a)))
unfolding time_less_than
time_less_than_total known a b ha hb = elim (Bool-cases (time_of a == time_of b)) [
  | inl e ↦
      rw (e, ha.forth, hb.forth)
        (
          _,
          refl,
          elim (Bool-cases _) [ inl f ↦ inl (f, ground arith) | inr f ↦ inr (f, ground arith) ],
        )
  | inr e ↦ rw e (
    _,
    refl,
    elim (Bool-cases _) [ inl f ↦ inl (f, ground arith) | inr f ↦ inr (f, ground arith) ],
  )
]

-- The records that a queue stands for: those at hand and those behind them.
abbrev pub entry_pointers : QueueEntry → List RecordPointer
entry_pointers e = e.here ∷ e.after

abbrev pub queue_pointers : List QueueEntry → List RecordPointer
queue_pointers [] = []
queue_pointers (e ∷ queue) = entry_pointers e ++ queue_pointers queue

abbrev pub head_time : QueueEntry → ℕ
head_time e = time_of e.here

pub record IsInserted (e : QueueEntry) (queue queue' : List QueueEntry) : Type 1 where
  pub sorted : IsSortedBy head_time queue'
  pub held :
      (w : RecordPointer → ℕ)
      → sum_by w (queue_pointers queue') ≡ sum_by w (queue_pointers (e ∷ queue))
  pub all : (P : QueueEntry → Type 0) → P e → All P queue → All P queue'

pub emplace-IsInserted :
    (known : UniqueIds) (e : QueueEntry) (queue : List QueueEntry)
    → HasId known e.here
    → All (λ (f : QueueEntry). HasId known f.here) queue
    → IsSortedBy head_time queue
    → (queue' : List QueueEntry) × (emplace known e queue ≡ some queue') × IsInserted e queue queue'
unfolding emplace
emplace-IsInserted known e [] h hs s =
    (e ∷ [], refl, record { sorted = (tt, tt); held = λ w. refl; all = λ P p ps. (p, tt) })
emplace-IsInserted known e (f ∷ queue) h hs s =
    let (first, found, order) = time_less_than_total known e.here f.here h hs.0 in
    elim order [
      | inl (before, le) ↦
          rw (found, before)
            (
              e ∷ f ∷ queue,
              refl,
              record {
                sorted = ((le, All-map _ _ (λ g k. omega arith) queue s.0), s);
                held = λ w. refl;
                all = λ P p ps. (p, ps);
              },
            )
      | inr (behind, le) ↦
          let (queue', done, w) = emplace-IsInserted known e queue h hs.1 s.1 in
          rw (found, behind, done)
            (
              f ∷ queue',
              refl,
              record {
                sorted = (w.all (λ (g : QueueEntry). head_time f ≤ head_time g) le s.0, w.sorted);
                held = λ v. omega (
                  arith,
                  w.held v,
                  sum_by-append v (entry_pointers f) (queue_pointers queue'),
                  sum_by-append v (entry_pointers f) (queue_pointers queue),
                  sum_by-append v (entry_pointers e) (queue_pointers queue),
                  sum_by-append v (entry_pointers e) (queue_pointers (f ∷ queue)),
                );
                all = λ P p ps. (ps.0, w.all P p ps.1);
              },
            )
    ]

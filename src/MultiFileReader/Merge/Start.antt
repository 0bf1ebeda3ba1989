-- ===== src/MultiFileReader/Merge/Start.antt =====
-- The first loop of `createConsolidatedIndex` in vrs/MultiRecordFileReader.cpp: the queue and the
-- terminal records that it starts the merge with.
use vrs.Base.{ℕ, suc, ◌+◌, ◌≤◌, ◌<◌, ◌≡◌, refl, arith, true, false}
use vrs.Base.{List, [], ◌∷◌, All, length}
use vrs.Base.Sums.{sum_by}
use vrs.Base.Sorted.{IsSortedBy}
use vrs.FileReader.{RecordInfo}
use vrs.MultiFileReader.{UniqueIds, RecordPointer}
use vrs.MultiFileReader.Merge.{
  time_of, QueueEntry, Merging, record_pointers, last_pointer, same_pointer, is_terminal,
}
use vrs.MultiFileReader.Merge.Queue.{entry_pointers, queue_pointers, head_time}
use vrs.MultiFileReader.Merge.Sorted.{IsEnding, IsIndexEnd}

abbrev pub info_time : RecordInfo → ℕ
info_time r = r.timestamp

All-record_pointers :
    (P : RecordInfo → Type 0) (k : ℕ) (records : List RecordInfo) (i : ℕ)
    → All P records
    → All (λ (p : RecordPointer). P p.place.info) (record_pointers k records i)
All-record_pointers P k [] i h = tt
All-record_pointers P k (r ∷ records) i h = (h.0, All-record_pointers P k records (suc i) h.1)

pub record_pointers-IsSortedBy :
    (k : ℕ) (records : List RecordInfo) (i : ℕ)
    → IsSortedBy info_time records
    → IsSortedBy time_of (record_pointers k records i)
record_pointers-IsSortedBy k [] i s = tt
record_pointers-IsSortedBy k (r ∷ records) i s = (
  All-record_pointers (λ (x : RecordInfo). info_time r ≤ info_time x) k records (suc i) s.0,
  record_pointers-IsSortedBy k records (suc i) s.1,
)

pub reader_of-record_pointers :
    (k : ℕ) (records : List RecordInfo) (i : ℕ)
    → All (λ (p : RecordPointer). p.reader ≡ k) (record_pointers k records i)
reader_of-record_pointers k [] i = tt
reader_of-record_pointers k (r ∷ records) i = (refl, reader_of-record_pointers k records (suc i))

pub last_pointer-record_pointers :
    (k : ℕ) (p : RecordPointer) (records : List RecordInfo)
    → p.reader ≡ k
    → let last = last_pointer p (record_pointers k records (suc p.place.position)) in
      (last.reader ≡ k) × (last.place.position ≡ p.place.position + length records)
last_pointer-record_pointers k p [] e = (e, omega arith)
last_pointer-record_pointers k p (r ∷ records) e =
    let next : RecordPointer = record {
      reader = k;
      place = record { position = suc p.place.position; info = r };
    } in
    let w = last_pointer-record_pointers k next records refl in (w.0, omega (arith, w.1))

is_terminal_other :
    (terminals : List RecordPointer) (k : ℕ) (p : RecordPointer)
    → p.reader ≡ k
    → All (λ (t : RecordPointer). t.reader < k) terminals
    → is_terminal terminals p ≡ false
is_terminal_other [] k p e h = refl
is_terminal_other (t ∷ terminals) k p e h =
    ground (arith, is_terminal_other terminals k p e h.1, h.0)

pub record_pointers-IsEnding :
    (k : ℕ) (last : RecordPointer) (terminals : List RecordPointer) (records : List RecordInfo)
    (i : ℕ)
    → last.reader ≡ k
    → suc last.place.position ≡ i + length records
    → All (λ (t : RecordPointer). t.reader < k) terminals
    → IsEnding (last ∷ terminals) (record_pointers k records i)
record_pointers-IsEnding k last terminals [] i e at h = tt
record_pointers-IsEnding k last terminals (r ∷ []) i e at h =
    let p : RecordPointer = record { reader = k; place = record { position = i; info = r } } in
    let here : same_pointer p last ≡ true = ground arith in (rw here refl, tt)
record_pointers-IsEnding k last terminals (r ∷ next ∷ records) i e at h =
    let p : RecordPointer = record { reader = k; place = record { position = i; info = r } } in
    let apart : same_pointer p last ≡ false = ground arith in
    (
      rw apart (is_terminal_other terminals k p refl h),
      record_pointers-IsEnding k last terminals (next ∷ records) (suc i) e (omega arith) h,
    )

pub IsEnding-other :
    (last : RecordPointer) (terminals pointers : List RecordPointer)
    → All (λ (p : RecordPointer). p.reader < last.reader) pointers
    → IsEnding terminals pointers
    → IsEnding (last ∷ terminals) pointers
IsEnding-other last terminals [] a h = tt
IsEnding-other last terminals (p ∷ pointers) a h =
    let apart : same_pointer p last ≡ false = ground (arith, a.0) in
    (rw apart h.0, IsEnding-other last terminals pointers a.1 h.1)

-- What the loop keeps, before the reader `k`.
pub record IsReady (known : UniqueIds) (k : ℕ) (m : Merging) : Type 0 where
  pub entries : All (IsIndexEnd known m.terminal_record_ptrs) m.queue
  pub sorted : IsSortedBy head_time m.queue
  pub earlier :
      All (λ (e : QueueEntry). All (λ (p : RecordPointer). p.reader < k) (entry_pointers e)) m.queue
  pub earlier_ends : All (λ (t : RecordPointer). t.reader < k) m.terminal_record_ptrs
  pub size : sum_by (λ p. 1) (queue_pointers m.queue) ≡ m.index_size

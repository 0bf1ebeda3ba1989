-- ===== src/FileWriter/Threads/Runs.antt =====
-- The runs of `writeRecordsMultiThread` in vrs/RecordFileWriter.cpp: they end, they are not stuck
-- before, and they write what one thread writes.
use mathlib.Core.List.{append_assoc, map-append}
use vrs.Base.{
  subst, ℕ, suc, ◌+◌, ◌*◌, ◌≤◌, ◌<◌, ◌≡◌, refl, sym, ◌∙◌, ap, arith, true, false, ◌&&◌, inl, inr,
  ◌⊎◌,
}
use vrs.Base.{
  Option, List, [], ◌∷◌, ◌++◌, length, Bool-cases, All, All-map, All-append, All-append_inv,
  length-append, none, ◌==◌,
}
use vrs.FileReader.{is_empty}
use vrs.FileWriter.{SortRecord}
use vrs.FileWriter.Write.{
  Output, Writing, should_try_to_compress, compress_record, handle_record,
  write_records_single_thread,
}
use vrs.FileWriter.Threads.{
  Job, JobStatus, compressing, compressed, no_compression, is_ready, jobs_of, jobs_after,
  payload_of, Queued, Threads, status_steps, queue_steps, steps_left, jobs_used, is_finished,
  first_status, Step, Step.dispatch, Step.finish_job, Step.write_front, Run, Run.here, Run.next,
  start_threads, expected, queued_records,
}

queue_steps-append :
    (xs ys : List Queued) → queue_steps (xs ++ ys) ≡ queue_steps xs + queue_steps ys
queue_steps-append [] ys = omega arith
queue_steps-append (q ∷ xs) ys = omega (arith, queue_steps-append xs ys)

jobs_used-append : (xs ys : List Queued) → jobs_used (xs ++ ys) ≡ jobs_used xs + jobs_used ys
jobs_used-append [] ys = omega arith
jobs_used-append (q ∷ xs) ys = omega (arith, jobs_used-append xs ys)

status_steps_bound : (status : JobStatus) → (1 ≤ status_steps status) × (status_steps status ≤ 2)
status_steps_bound (compressing job) = omega arith
status_steps_bound (compressed job) = omega arith
status_steps_bound no_compression = omega arith

module _ {File : Type 0} (o : Output File) where
  Step-steps_left : {t u : Threads File} → Step o t u → suc (steps_left u) ≤ steps_left t
  Step-steps_left (dispatch r rest queue job jobs w) =
      let new : Queued = record { sort_record = r; status = first_status o w r job } in
      omega (
        arith,
        queue_steps-append queue (new ∷ []),
        (status_steps_bound (first_status o w r job)).1,
      )
  Step-steps_left (finish_job r rest ahead behind job jobs w) =
      let old : Queued = record { sort_record = r; status = compressing job } in
      let new : Queued = record { sort_record = r; status = compressed (compress_record o r) } in
      omega
        (arith, queue_steps-append ahead (old ∷ behind), queue_steps-append ahead (new ∷ behind))
  Step-steps_left (write_front q rest queue jobs w ready) =
      omega (arith, (status_steps_bound q.status).0)

  IsStaffed : ℕ → Threads File → Type 0
  IsStaffed total t = length t.available_jobs + jobs_used t.write_queue ≡ total

  dispatched_jobs :
      (w : Writing File) (r : SortRecord) (job : Job) (jobs : List Job)
      → let status = first_status o w r job in
        length (jobs_after o status job jobs) + length (jobs_of status) ≡ suc (length jobs)
  dispatched_jobs w r job jobs = elim (Bool-cases (w.error == 0 && should_try_to_compress o r)) [
    | inl e ↦ rw e (omega arith)
    | inr e ↦ rw e (omega arith)
  ]

  Step-IsStaffed :
      {t u : Threads File} (total : ℕ) → Step o t u → IsStaffed total t → IsStaffed total u
  unfolding IsStaffed
  Step-IsStaffed total (dispatch r rest queue job jobs w) h =
      let new : Queued = record { sort_record = r; status = first_status o w r job } in
      omega (arith, h, jobs_used-append queue (new ∷ []), dispatched_jobs w r job jobs)
  Step-IsStaffed total (finish_job r rest ahead behind job jobs w) h =
      let old : Queued = record { sort_record = r; status = compressing job } in
      let new : Queued = record { sort_record = r; status = compressed (compress_record o r) } in
      omega (arith, h, jobs_used-append ahead (old ∷ behind), jobs_used-append ahead (new ∷ behind))
  Step-IsStaffed total (write_front q rest queue jobs w ready) h =
      omega (arith, h, length-append jobs (jobs_of q.status))

  -- What is queued of a record is what one thread would write of it: the job that ended holds the
  -- record's compressed payload, and a record without a job is one that is not compressed, or that
  -- is skipped.
  StatusIsRight : Writing File → SortRecord → JobStatus → Type 0
  StatusIsRight w r (compressing job) = Unit
  StatusIsRight w r (compressed job) = job ≡ compress_record o r
  StatusIsRight w r no_compression = (0 < w.error) ⊎ (compress_record o r ≡ none)

  QueueIsRight : Writing File → List Queued → Type 0
  QueueIsRight w = All (λ (q : Queued). StatusIsRight w q.sort_record q.status)

  handle_record_skips :
      (payload : Option (List ℕ)) (r : SortRecord) (w : Writing File)
      → 0 < w.error
      → handle_record o payload r w ≡ record w { recycled = w.recycled ++ (r ∷ []) }
  unfolding handle_record
  handle_record_skips payload r w h =
      let some_error : (w.error == 0) ≡ false = ground (arith, h) in rw some_error refl

  handle_record_keeps_error :
      (payload : Option (List ℕ)) (r : SortRecord) (w : Writing File)
      → 0 < w.error
      → 0 < (handle_record o payload r w).error
  handle_record_keeps_error payload r w h =
      let same_error : (handle_record o payload r w).error ≡ w.error =
        ap (λ (v : Writing File). v.error) (handle_record_skips payload r w h) in
      omega arith

  StatusIsRight-later :
      (w w' : Writing File) (r : SortRecord) (status : JobStatus)
      → (0 < w.error → 0 < w'.error)
      → StatusIsRight w r status
      → StatusIsRight w' r status
  unfolding StatusIsRight
  StatusIsRight-later w w' r (compressing job) later h = tt
  StatusIsRight-later w w' r (compressed job) later h = h
  StatusIsRight-later w w' r no_compression later (inl h) = inl (later h)
  StatusIsRight-later w w' r no_compression later (inr e) = inr e

  first_status-StatusIsRight :
      (w : Writing File) (r : SortRecord) (job : Job) → StatusIsRight w r (first_status o w r job)
  unfolding StatusIsRight compress_record
  first_status-StatusIsRight w r job =
      let Right : JobStatus → Type 0 = λ status. StatusIsRight w r status in
      elim (Bool-cases (w.error == 0 && should_try_to_compress o r)) [
        | inl e ↦
            let sent : compressing job ≡ first_status o w r job = rw e refl in subst Right sent tt
        | inr e ↦
            let kept : no_compression ≡ first_status o w r job = rw e refl in
            subst Right kept (elim (Bool-cases (should_try_to_compress o r)) [
              | inl tried ↦ inl (ground (arith, e, tried))
              | inr not_tried ↦ inr (rw not_tried refl)
            ])
      ]

  Step-QueueIsRight :
      {t u : Threads File}
      → Step o t u
      → QueueIsRight t.writing t.write_queue
      → QueueIsRight u.writing u.write_queue
  unfolding QueueIsRight StatusIsRight
  Step-QueueIsRight (dispatch r rest queue job jobs w) h =
      All-append (λ (q : Queued). StatusIsRight w q.sort_record q.status) queue _ h
        (first_status-StatusIsRight w r job, tt)
  Step-QueueIsRight (finish_job r rest ahead behind job jobs w) h =
      let Right = λ (q : Queued). StatusIsRight w q.sort_record q.status in
      let parts = All-append_inv Right ahead _ h in
      All-append Right ahead _ parts.0 (refl, parts.1.1)
  Step-QueueIsRight (write_front q rest queue jobs w ready) h =
      All-map _ _
        (λ (p : Queued) right.
          StatusIsRight-later w (handle_record o (payload_of q.status) q.sort_record w)
            p.sort_record p.status (handle_record_keeps_error (payload_of q.status) q.sort_record w)
            right)
        queue h.1

  -- The record at the front is written as one thread writes it.
  front_payload :
      (w : Writing File) (r : SortRecord) (status : JobStatus)
      → is_ready status ≡ true
      → StatusIsRight w r status
      → handle_record o (payload_of status) r w ≡ handle_record o (compress_record o r) r w
  unfolding StatusIsRight
  front_payload w r (compressing job) ready h = absurd cc
  front_payload w r (compressed job) ready h = ap (λ (p : Option (List ℕ)). handle_record o p r w) h
  front_payload w r no_compression ready (inl h) =
      handle_record_skips none r w h ∙ sym (handle_record_skips (compress_record o r) r w h)
  front_payload w r no_compression ready (inr e) =
      ap (λ (p : Option (List ℕ)). handle_record o p r w) (sym e)

  -- What one thread would make of the state stays the same.
  Step-expected :
      {t u : Threads File}
      → Step o t u
      → QueueIsRight t.writing t.write_queue
      → expected o u ≡ expected o t
  unfolding write_records_single_thread QueueIsRight
  Step-expected (dispatch r rest queue job jobs w) h =
      ap (λ (l : List SortRecord). write_records_single_thread o l w)
        (ap (λ (l : List SortRecord). l ++ rest)
            (map-append (λ (q : Queued). q.sort_record) queue _)
          ∙ append_assoc _ (r ∷ []) rest)
  Step-expected (finish_job r rest ahead behind job jobs w) h =
      ap (λ (l : List SortRecord). write_records_single_thread o (l ++ rest) w)
        (map-append (λ (q : Queued). q.sort_record) ahead _
          ∙ sym (map-append (λ (q : Queued). q.sort_record) ahead _))
  Step-expected (write_front q rest queue jobs w ready) h =
      ap (write_records_single_thread o (queued_records o queue ++ rest))
        (front_payload w q.sort_record q.status ready h.0)

  abbrev state : List SortRecord → List Queued → List Job → Writing File → Threads File
  state rest queue jobs w = record {
    records_to_compress = rest;
    write_queue = queue;
    available_jobs = jobs;
    writing = w;
  }

  -- The record at the front waits for its job, or can be written.
  handle_front :
      (r : SortRecord) (status : JobStatus) (rest : List SortRecord) (queue : List Queued)
      (jobs : List Job) (w : Writing File)
      → (u : Threads File) × Step o
          (state rest (record { sort_record = r; status = status } ∷ queue) jobs w)
          u
  handle_front r (compressing job) rest queue jobs w = (_, finish_job r rest [] queue job jobs w)
  handle_front r (compressed job) rest queue jobs w =
      (_, write_front (record { sort_record = r; status = compressed job }) rest queue jobs w refl)
  handle_front r no_compression rest queue jobs w =
      (_, write_front (record { sort_record = r; status = no_compression }) rest queue jobs w refl)

  -- A state whose jobs are all accounted for can go on until it is finished.
  go_on :
      (rest : List SortRecord) (queue : List Queued) (jobs : List Job) (w : Writing File)
      → 0 < length jobs + jobs_used queue
      → is_empty rest && is_empty queue ≡ false
      → (u : Threads File) × Step o (state rest queue jobs w) u
  go_on [] [] jobs w h e = absurd (ground arith)
  go_on (r ∷ rest) [] [] w h e = absurd (omega arith)
  go_on (r ∷ rest) [] (job ∷ jobs) w h e = (_, dispatch r rest [] job jobs w)
  go_on rest (q ∷ queue) jobs w h e = handle_front q.sort_record q.status rest queue jobs w

  Run-steps_left : {s t : Threads File} {n : ℕ} → Run o s n t → n + steps_left t ≤ steps_left s
  Run-steps_left here = omega arith
  Run-steps_left (next run step) = omega (arith, Run-steps_left run, Step-steps_left step)

  Run-IsStaffed :
      {s t : Threads File} {n : ℕ} (total : ℕ) → Run o s n t → IsStaffed total s → IsStaffed total t
  Run-IsStaffed total here h = h
  Run-IsStaffed total (next run step) h = Step-IsStaffed total step (Run-IsStaffed total run h)

  Run-QueueIsRight :
      {s t : Threads File} {n : ℕ}
      → Run o s n t
      → QueueIsRight s.writing s.write_queue
      → QueueIsRight t.writing t.write_queue
  Run-QueueIsRight here h = h
  Run-QueueIsRight (next run step) h = Step-QueueIsRight step (Run-QueueIsRight run h)

  Run-expected :
      {s t : Threads File} {n : ℕ}
      → Run o s n t
      → QueueIsRight s.writing s.write_queue
      → expected o t ≡ expected o s
  Run-expected here h = refl
  Run-expected (next run step) h = Step-expected step (Run-QueueIsRight run h) ∙ Run-expected run h

  -- The loop starts with records, at least one job, and a writer's state. However the jobs end, a
  -- run of it has at most three steps for each record; and after each run that is not finished, and
  -- so at every point of the loop, some step is possible, so it is never stuck.
  pub Run-start_threads_total :
      (records : List SortRecord) (jobs : List Job) (w : Writing File) (n : ℕ) (t : Threads File)
      → 0 < length jobs
      → Run o (start_threads o records jobs w) n t
      → (n ≤ 3 * length records) × ((is_finished t ≡ true) ⊎ ((u : Threads File) × Step o t u))
  unfolding IsStaffed
  Run-start_threads_total records jobs w n t some_job run =
      let staffed = Run-IsStaffed (length jobs) run (omega arith) in
      (
        omega (arith, Run-steps_left run),
        elim (Bool-cases (is_finished t)) [
          | inl e ↦ inl e
          | inr e ↦ inr (
              go_on t.records_to_compress t.write_queue t.available_jobs t.writing
                (omega (arith, some_job, staffed)) e)
        ],
      )

  written_all :
      (rest : List SortRecord) (queue : List Queued) (jobs : List Job) (w : Writing File)
      → is_finished (state rest queue jobs w) ≡ true
      → expected o (state rest queue jobs w) ≡ w
  unfolding write_records_single_thread
  written_all [] [] jobs w e = refl
  written_all (r ∷ rest) queue jobs w e = absurd (ground arith)
  written_all [] (q ∷ queue) jobs w e = absurd (ground arith)

  -- Whatever the order in which the compression jobs end, and whatever the jobs hold at the start, a
  -- run that is finished leaves what one thread leaves that compresses and writes the records in
  -- their order: the same file, index, error, chunk and counts, and the same records given back in
  -- the same order.
  pub Run-write_records_single_thread :
      (records : List SortRecord) (jobs : List Job) (w : Writing File) (n : ℕ) (t : Threads File)
      → is_finished t ≡ true
      → Run o (start_threads o records jobs w) n t
      → t.writing ≡ write_records_single_thread o records w
  unfolding QueueIsRight
  Run-write_records_single_thread records jobs w n t e run =
      sym (written_all t.records_to_compress t.write_queue t.available_jobs t.writing e)
      ∙ Run-expected run tt

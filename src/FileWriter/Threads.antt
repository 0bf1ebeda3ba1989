-- ===== src/FileWriter/Threads.antt =====
-- `writeRecordsMultiThread` of vrs/RecordFileWriter.cpp: threads compress the records while one thread
-- writes them in order. What the threads may do next is a step relation, over every order in which
-- the jobs can end. A record of `writeQueue` stands with what became of it: its job is under way,
-- its job is among the `compressionResults`, or it stands there without a job. Records that are
-- collected while the loop runs are left out: it runs on those it was given.
pub mod Runs
use vrs.Base.{
  ℕ, zero, suc, ◌+◌, ◌*◌, ◌≤◌, ◌<◌, ◌≡◌, refl, sym, ◌∙◌, ap, arith, Bool, true, false, ◌&&◌, ◌==◌,
  inl, inr,
}
use vrs.Base.{Option, none, List, [], ◌∷◌, ◌++◌, length, map, Bool-cases, if◌then◌else◌}
use vrs.FileReader.{is_empty}
use vrs.FileWriter.{SortRecord}
use vrs.FileWriter.Write.{
  Output, Writing, should_try_to_compress, compress_record, handle_record,
  write_records_single_thread,
}

-- What a job's compressor holds: a compressed payload, or `none` for the size 0.
abbrev pub Job : Type 0
Job = Option (List ℕ)

-- A job holds what it held before, until it ends.
pub data JobStatus : Type 0 where
  compressing compressed : Job → JobStatus
  no_compression : JobStatus

-- There is a result to write.
abbrev pub is_ready : JobStatus → Bool
is_ready (compressing job) = false
is_ready (compressed job) = true
is_ready no_compression = true

-- The jobs that are taken for it.
abbrev pub jobs_of : JobStatus → List Job
jobs_of (compressing job) = job ∷ []
jobs_of (compressed job) = job ∷ []
jobs_of no_compression = []

-- `job->getCompressor()` and `job->getCompressedSize()`; those of `noCompressionJob` are empty.
abbrev pub payload_of : JobStatus → Option (List ℕ)
payload_of (compressing job) = job
payload_of (compressed job) = job
payload_of no_compression = none

pub record Queued : Type 0 where
  pub sort_record : SortRecord
  pub status : JobStatus

-- The locals of `writeRecordsMultiThread`.
pub record Threads (File : Type 0) : Type 0 where
  pub records_to_compress : List SortRecord
  pub write_queue : List Queued
  pub available_jobs : List Job
  pub writing : Writing File

-- How much is left to do: a record to compress takes three steps at most.
abbrev pub status_steps : JobStatus → ℕ
status_steps (compressing job) = 2
status_steps (compressed job) = 1
status_steps no_compression = 1

abbrev pub queue_steps : List Queued → ℕ
queue_steps [] = 0
queue_steps (q ∷ queue) = status_steps q.status + queue_steps queue

abbrev pub steps_left : {File : Type 0} → Threads File → ℕ
steps_left t = 3 * length t.records_to_compress + queue_steps t.write_queue

-- The jobs that are not available.
abbrev pub jobs_used : List Queued → ℕ
jobs_used [] = 0
jobs_used (q ∷ queue) = length (jobs_of q.status) + jobs_used queue

-- The condition of the outer loop fails.
abbrev pub is_finished : {File : Type 0} → Threads File → Bool
is_finished t = is_empty t.records_to_compress && is_empty t.write_queue

module _ {File : Type 0} (o : Output File) where
  -- What a record is queued as, where `job` is the first of the available jobs, and the jobs that
  -- are available then.
  abbrev pub first_status : Writing File → SortRecord → Job → JobStatus
  first_status w r job =
      if w.error == 0 && should_try_to_compress o r then compressing job else no_compression

  abbrev pub jobs_after : JobStatus → Job → List Job → List Job
  jobs_after (compressing taken) job jobs = jobs
  jobs_after (compressed taken) job jobs = jobs
  jobs_after no_compression job jobs = job ∷ jobs

  pub data Step : Threads File → Threads File → Type 0 where
    -- the next record is queued, which takes an available job if it is to be compressed
    dispatch :
        (r : SortRecord) (rest : List SortRecord) (queue : List Queued) (job : Job)
        (jobs : List Job) (w : Writing File)
        → Step
            (record {
              records_to_compress = r ∷ rest;
              write_queue = queue;
              available_jobs = job ∷ jobs;
              writing = w;
            })
            (record {
              records_to_compress = rest;
              write_queue =
                  queue ++ (record { sort_record = r; status = first_status w r job } ∷ []);
              available_jobs = jobs_after (first_status w r job) job jobs;
              writing = w;
            })
    -- some job ends, and its result is received
    finish_job :
        (r : SortRecord) (rest : List SortRecord) (ahead behind : List Queued) (job : Job)
        (jobs : List Job) (w : Writing File)
        → Step
            (record {
              records_to_compress = rest;
              write_queue =
                  ahead ++ (record { sort_record = r; status = compressing job } ∷ behind);
              available_jobs = jobs;
              writing = w;
            })
            (record {
              records_to_compress = rest;
              write_queue =
                  ahead
                  ++ (record { sort_record = r; status = compressed (compress_record o r) }
                      ∷ behind);
              available_jobs = jobs;
              writing = w;
            })
    -- the record at the front of the queue has its result, and is written with what its job holds
    write_front :
        (q : Queued) (rest : List SortRecord) (queue : List Queued) (jobs : List Job)
        (w : Writing File)
        → is_ready q.status ≡ true
        → Step
            (record {
              records_to_compress = rest;
              write_queue = q ∷ queue;
              available_jobs = jobs;
              writing = w;
            })
            (record {
              records_to_compress = rest;
              write_queue = queue;
              available_jobs = jobs ++ jobs_of q.status;
              writing = handle_record o (payload_of q.status) q.sort_record w;
            })

  -- A run of `n` steps.
  pub data Run (s : Threads File) : ℕ → Threads File → Type 0 where
    here : Run s 0 s
    next : {n : ℕ} {t u : Threads File} → Run s n t → Step t u → Run s (suc n) u

  -- The state before the loop, with the jobs, all of them available.
  abbrev pub start_threads : List SortRecord → List Job → Writing File → Threads File
  start_threads records jobs w = record {
    records_to_compress = records;
    write_queue = [];
    available_jobs = jobs;
    writing = w;
  }

  abbrev pub queued_records : List Queued → List SortRecord
  queued_records = map (λ (q : Queued). q.sort_record)

  -- What one thread would make of the state, from here on.
  abbrev pub expected : Threads File → Writing File
  expected t =
      write_records_single_thread o (queued_records t.write_queue ++ t.records_to_compress)
        t.writing

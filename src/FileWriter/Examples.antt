-- ===== src/FileWriter/Examples.antt =====
-- The writer at work on a few records, and its theorems at concrete inputs.
use vrs.Base.{ℕ, ◌*◌, ◌≤◌, ◌%◌, ◌^◌, ◌≡◌, refl, arith, true, false, ◌⊎◌, if◌then◌else◌}
use vrs.Base.{Option, none, some, List, [], ◌∷◌, ◌++◌, length, ◌==◌}
use vrs.Base.Sums.{sum_by, SameElements}
use vrs.StreamId.{StreamId}
use vrs.Record.{Record, fresh, data_type}
use vrs.FileFormat.{RecordHeader, make_record_header}
use vrs.FileWriter.{SortRecord, get_size, RecordBatch}
use vrs.FileWriter.Batches.{Sorting, add_record_batches_to_sorted_records}
use vrs.FileWriter.Batches.Sorted.{IsOrdered}
use vrs.FileWriter.Batches.Total.{all_records, add_record_batches_to_sorted_records-IsOrdered}
use vrs.FileWriter.Write.{
  IndexWriter, Output, write_record, Writing, write_records_single_thread, handle_record,
  write_next, after_write, start_chunk, compress_record,
}
use vrs.FileWriter.Write.Prefix.{IsWritten, write_records_single_thread-IsWritten}
use vrs.FileWriter.Threads.{
  Job, compressed, Threads, is_finished, Step, Step.dispatch, Step.finish_job, Step.write_front,
  Run, Run.here, Run.next, start_threads,
}
use vrs.FileWriter.Threads.Runs.{Run-start_threads_total, Run-write_records_single_thread}

abbrev camera : StreamId
camera = record { type_id = 200; instance_id = 1 }

abbrev imu : StreamId
imu = record { type_id = 300; instance_id = 1 }

abbrev item : ℕ → ℕ → Record
item time size = record fresh {
  timestamp = time;
  record_type = data_type;
  buffer_used_size = size;
  creation_order = time;
}

abbrev of_stream : StreamId → ℕ → ℕ → SortRecord
of_stream id time size = record { item = item time size; stream_id = id }

-- Two batches; the second has a record that is older than some of the first.
abbrev batches : List RecordBatch
batches =
    (record { stream_id = camera; records = item 2 10 ∷ item 6 20 ∷ [] }
      ∷ record { stream_id = imu; records = item 3 5 ∷ [] }
      ∷ [])
    ∷ (record { stream_id = imu; records = item 4 5 ∷ item 8 5 ∷ [] } ∷ [])
    ∷ []

add_record_batches_to_sorted_records-IsOrdered_example :
    (s : Sorting) × (add_record_batches_to_sorted_records batches (of_stream imu 1 5 ∷ []) ≡ some s)
    × IsOrdered s.sorted
    × SameElements s.sorted ((of_stream imu 1 5 ∷ []) ++ all_records batches)
    × (s.added_size ≡ sum_by get_size (all_records batches) % 2 ^ 64)
add_record_batches_to_sorted_records-IsOrdered_example =
    add_record_batches_to_sorted_records-IsOrdered batches (of_stream imu 1 5 ∷ []) (tt, tt)

-- A file is the times of its records, each with the size of the payload in memory, and takes three
-- records.
abbrev write_header : List ℕ → RecordHeader → List ℕ × Option ℕ
write_header file header =
    if length file == 6 then (file, some 27) else (file ++ (header.timestamp ∷ []), none)

abbrev write_bytes : List ℕ → List ℕ → List ℕ × Option ℕ
write_bytes file bytes = (file ++ (length bytes ∷ []), none)

-- Each payload of at least 250 bytes shrinks to two.
abbrev output : Output (List ℕ)
output = record {
  write_header = write_header;
  write_bytes = write_bytes;
  compression_type = λ r. 2;
  add_chunk = λ file. file;
  write_infos = λ entries. none;
  max_chunk_size = 1000;
  has_preset = λ r. true;
  compress_payload = λ r. some (1 ∷ 2 ∷ []);
}

abbrev empty_index : IndexWriter
empty_index = record {
  has_split_head = false;
  written_records = [];
  appended = [];
  written_bytes_count = 0;
  written_index_count = 0;
}

abbrev writing : Writing (List ℕ)
writing = record {
  error = 0;
  file = [];
  current_chunk_size = 0;
  last_record_size = 0;
  queue_byte_size = none;
  index = empty_index;
  recycled = [];
}

abbrev few : List SortRecord
few =
    of_stream camera 2 300
    ∷ of_stream imu 3 5
    ∷ of_stream camera 4 300
    ∷ of_stream imu 5 5
    ∷ of_stream imu 6 5
    ∷ []

-- The fourth write fails.
few_file : (write_records_single_thread output few writing).file ≡ 2 ∷ 2 ∷ 3 ∷ 0 ∷ 4 ∷ 2 ∷ []
unfolding write_records_single_thread handle_record write_next after_write write_record
    make_record_header start_chunk compress_record
few_file = refl

write_records_single_thread-IsWritten_example :
    IsWritten output few writing (write_records_single_thread output few writing)
write_records_single_thread-IsWritten_example =
    write_records_single_thread-IsWritten output few writing refl

abbrev one : List SortRecord
one = of_stream camera 2 300 ∷ []

-- Two jobs, which hold nothing, and something from before.
abbrev jobs : List Job
jobs = some (9 ∷ []) ∷ none ∷ []

abbrev start : Threads (List ℕ)
start = start_threads output one jobs writing

abbrev done : Threads (List ℕ)
done = record {
  records_to_compress = [];
  write_queue = [];
  available_jobs = none ∷ some (1 ∷ 2 ∷ []) ∷ [];
  writing = write_records_single_thread output one writing;
}

-- One record: its job is sent, ends, and the record is written.
one_record : Run output start 3 done
unfolding write_records_single_thread compress_record
one_record =
    next
      (next
        (next here (dispatch (of_stream camera 2 300) [] [] (some (9 ∷ [])) (none ∷ []) writing))
        (finish_job (of_stream camera 2 300) [] [] [] (some (9 ∷ [])) (none ∷ []) writing))
      (write_front
        (record { sort_record = of_stream camera 2 300; status = compressed (some (1 ∷ 2 ∷ [])) })
        [] [] (none ∷ []) writing refl)

Run-start_threads_total_example :
    (3 ≤ 3 * length one)
    × ((is_finished done ≡ true) ⊎ ((u : Threads (List ℕ)) × Step output done u))
Run-start_threads_total_example =
    Run-start_threads_total output one jobs writing 3 done (omega arith) one_record

Run-write_records_single_thread_example :
    done.writing ≡ write_records_single_thread output one writing
Run-write_records_single_thread_example =
    Run-write_records_single_thread output one jobs writing 3 done refl one_record

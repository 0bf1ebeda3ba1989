-- ===== src/FileWriter/Write/Prefix.antt =====
-- What `writeRecordsSingleThread` of vrs/RecordFileWriter.cpp leaves: the records whose writes
-- succeeded, up to the first that did not, are in the index, and all are recycled.
use mathlib.Core.List.{append-nil, append_assoc}
use vrs.Base.{ℕ, suc, ◌+◌, ◌<◌, ◌≡◌, refl, sym, ◌∙◌, ap, arith, ◌&&◌, inl, inr, ◌⊎◌}
use vrs.Base.{
  if◌then◌else◌, subst, true, false, Option, none, some, List, [], ◌∷◌, ◌++◌, length, Bool-cases,
  ltb, leb, ◌==◌,
}
use vrs.FileWriter.{SortRecord, get_size}
use vrs.FileWriter.Write.{
  IndexEntry, IndexWriter, Output, entry_of, write_record, compress_record, fetch_sub,
  max_batch_size, WriteResult, written, failed, Writing, after_append, append_to_split_index_record,
  add_index_record, start_chunk, after_write, write_next, handle_record,
  write_records_single_thread,
}

-- The index as a reader of the file gets it: what is in the head file, and what waits.
abbrev pub all_entries : IndexWriter → List IndexEntry
all_entries w = w.appended ++ w.written_records

after_append-all_entries :
    (o : Option ℕ) (w : IndexWriter) → all_entries (after_append o w) ≡ all_entries w
after_append-all_entries none w = refl
after_append-all_entries (some bytes) w = append-nil (w.appended ++ w.written_records)

-- What the writes depend on.
pub record Disk (File : Type 0) : Type 0 where
  pub file : File
  pub current_chunk_size : ℕ
  pub last_record_size : ℕ

module _ {File : Type 0} (o : Output File) where
  abbrev pub disk_of : Writing File → Disk File
  disk_of s = record {
    file = s.file;
    current_chunk_size = s.current_chunk_size;
    last_record_size = s.last_record_size;
  }

  -- The disk before a record is written: with a new chunk if the record would make the chunk as large
  -- as is allowed or larger, and there is something in it.
  abbrev pub chunked : SortRecord → Disk File → Disk File
  chunked r d =
      if ltb 0 d.current_chunk_size && leb o.max_chunk_size (d.current_chunk_size + get_size r)
      then record d { file = o.add_chunk d.file; current_chunk_size = 0 }
      else d

  -- What the write of a record, compressed if it is worth it, gives on a disk.
  abbrev pub write_on : Disk File → SortRecord → File × WriteResult
  write_on d r = write_record o d.file r d.last_record_size (compress_record o r)

  abbrev pub moved : Disk File → File → ℕ → Disk File
  moved d file size = record {
    file = file;
    current_chunk_size = d.current_chunk_size + size;
    last_record_size = size;
  }

  -- The writes of the records, one after the other, up to the first that fails: the entries of those
  -- that succeeded, with the sizes that their writes gave, and the error, 0 if there is none.
  pub data Writes : List SortRecord → Disk File → List IndexEntry → ℕ → Disk File → Type 0 where
    no_more : (d : Disk File) → Writes [] d [] 0 d
    fails :
        (r : SortRecord) (rest : List SortRecord) (d : Disk File) (file : File) (code : ℕ)
        → write_on (chunked r d) r ≡ (file, failed code)
        → Writes (r ∷ rest) d [] (suc code) (record (chunked r d) { file = file })
    succeeds :
        (r : SortRecord) (rest : List SortRecord) (d : Disk File) (file : File) (size : ℕ)
        (entries : List IndexEntry) (error : ℕ) (d' : Disk File)
        → write_on (chunked r d) r ≡ (file, written size)
        → Writes rest (moved (chunked r d) file size) entries error d'
        → Writes (r ∷ rest) d (entry_of o r size ∷ entries) error d'

  all_entries-add_index_record :
      (e : IndexEntry) (w : IndexWriter)
      → all_entries (add_index_record o e w) ≡ all_entries w ++ (e ∷ [])
  unfolding add_index_record append_to_split_index_record
  all_entries-add_index_record e w =
      let w' : IndexWriter = record w { written_records = w.written_records ++ (e ∷ []) } in
      let added = sym (append_assoc w.appended w.written_records (e ∷ [])) in
      elim (Bool-cases
        (w.has_split_head && leb max_batch_size (length (w.written_records ++ (e ∷ []))))) [
          | inl t ↦ rw t (after_append-all_entries (o.write_infos w'.written_records) w' ∙ added)
          | inr t ↦ rw t added
        ]

  -- What is left of a record, with the disk `d` before its write and the entries before it.
  data Outcome (r : SortRecord) (d : Disk File) (before : List IndexEntry) (s' : Writing File)
      : Type 0 where
    failure :
        (file : File) (code : ℕ)
        → write_on d r ≡ (file, failed code)
        → s'.error ≡ suc code
        → disk_of s' ≡ record d { file = file }
        → all_entries s'.index ≡ before
        → Outcome r d before s'
    success :
        (file : File) (size : ℕ)
        → write_on d r ≡ (file, written size)
        → s'.error ≡ 0
        → disk_of s' ≡ moved d file size
        → all_entries s'.index ≡ before ++ (entry_of o r size ∷ [])
        → Outcome r d before s'

  after_write-Outcome :
      (r : SortRecord) (s : Writing File) (result : File × WriteResult)
      → s.error ≡ 0
      → write_on (disk_of s) r ≡ result
      → Outcome r (disk_of s) (all_entries s.index) (after_write o r s result)
  unfolding after_write
  after_write-Outcome r s (file, failed code) good e = failure file code e refl refl refl
  after_write-Outcome r s (file, written size) good e =
      success file size e good refl (all_entries-add_index_record (entry_of o r size) s.index)

  -- The new chunk changes nothing but the disk.
  record IsChunked (r : SortRecord) (s s' : Writing File) : Type 0 where
    error : s'.error ≡ s.error
    index : s'.index ≡ s.index
    recycled : s'.recycled ≡ s.recycled
    disk : disk_of s' ≡ chunked r (disk_of s)

  start_chunk-IsChunked : (r : SortRecord) (s : Writing File) → IsChunked r s (start_chunk o r s)
  unfolding start_chunk
  start_chunk-IsChunked r s =
      elim (Bool-cases
        (ltb 0 s.current_chunk_size && leb o.max_chunk_size (s.current_chunk_size + get_size r))) [
          | inl e ↦ rw e (record { error = refl; index = refl; recycled = refl; disk = rw e refl })
          | inr e ↦ rw e (record { error = refl; index = refl; recycled = refl; disk = rw e refl })
        ]

  Outcome-recycled :
      (r : SortRecord) (d : Disk File) (before : List IndexEntry) (s : Writing File)
      (recycled : List SortRecord)
      → Outcome r d before s
      → Outcome r d before (record s { recycled = recycled })
  Outcome-recycled r d before s recycled (failure file code e error disk index) =
      failure file code e error disk index
  Outcome-recycled r d before s recycled (success file size e error disk index) =
      success file size e error disk index

  recycled-after_write :
      (r : SortRecord) (s : Writing File) (result : File × WriteResult)
      → (after_write o r s result).recycled ≡ s.recycled
  unfolding after_write
  recycled-after_write r s (file, failed code) = refl
  recycled-after_write r s (file, written size) = refl

  abbrev handle : SortRecord → Writing File → Writing File
  handle r s = handle_record o (compress_record o r) r s

  -- A record that is handled without an error before it.
  record IsHandled (r : SortRecord) (s s' : Writing File) : Type 0 where
    outcome : Outcome r (chunked r (disk_of s)) (all_entries s.index) s'
    recycled : s'.recycled ≡ s.recycled ++ (r ∷ [])

  handle_record-IsHandled :
      (r : SortRecord) (s : Writing File) → s.error ≡ 0 → IsHandled r s (handle r s)
  unfolding handle_record write_next
  handle_record-IsHandled r s good =
      let ready = start_chunk o r s in
      let c = start_chunk-IsChunked r s in
      let sent : Writing File = record ready {
        queue_byte_size = fetch_sub ready.queue_byte_size (get_size r);
      } in
      let result = write_on (disk_of sent) r in
      let no_error : (s.error == 0) ≡ true = ground (arith, good) in
      let after = after_write-Outcome r sent result (c.error ∙ good) refl in
      let at_disk =
        subst
          (λ (d : Disk File). Outcome r d (all_entries ready.index) (after_write o r sent result))
          c.disk after in
      let at_index =
        subst
          (λ (w : IndexWriter).
            Outcome r (chunked r (disk_of s)) (all_entries w) (after_write o r sent result))
          c.index at_disk in
      rw no_error (record {
        outcome = Outcome-recycled r _ _ _ _ at_index;
        recycled =
            ap (λ (l : List SortRecord). l ++ (r ∷ []))
              (recycled-after_write r sent result ∙ c.recycled);
      })

  abbrev write_all : List SortRecord → Writing File → Writing File
  write_all = write_records_single_thread o

  record IsSkipped (records : List SortRecord) (s s' : Writing File) : Type 0 where
    error : s'.error ≡ s.error
    disk : disk_of s' ≡ disk_of s
    index : s'.index ≡ s.index
    recycled : s'.recycled ≡ s.recycled ++ records

  write_all-IsSkipped :
      (records : List SortRecord) (s : Writing File)
      → 0 < s.error
      → IsSkipped records s (write_all records s)
  unfolding write_records_single_thread handle_record
  write_all-IsSkipped [] s h = record {
    error = refl;
    disk = refl;
    index = refl;
    recycled = sym (append-nil s.recycled);
  }
  write_all-IsSkipped (r ∷ records) s h =
      let some_error : (s.error == 0) ≡ false = ground (arith, h) in
      let later = write_all-IsSkipped records (record s { recycled = s.recycled ++ (r ∷ []) }) h in
      rw some_error (record {
        error = later.error;
        disk = later.disk;
        index = later.index;
        recycled = later.recycled ∙ append_assoc s.recycled (r ∷ []) records;
      })

  -- What is left of records that were written in their order.
  pub record IsWritten (records : List SortRecord) (s s' : Writing File) : Type 0 where
    pub recycled : s'.recycled ≡ s.recycled ++ records
    pub entries : List IndexEntry
    pub run : Writes records (disk_of s) entries s'.error (disk_of s')
    pub indexed : all_entries s'.index ≡ all_entries s.index ++ entries
    pub complete :
        ((s'.error ≡ 0) × (length entries ≡ length records))
        ⊎ ((0 < s'.error) × (length entries < length records))

  after_failure :
      (r : SortRecord) (records : List SortRecord) (s s1 : Writing File) (file : File) (code : ℕ)
      → write_on (chunked r (disk_of s)) r ≡ (file, failed code)
      → s1.error ≡ suc code
      → disk_of s1 ≡ record (chunked r (disk_of s)) { file = file }
      → all_entries s1.index ≡ all_entries s.index
      → s1.recycled ≡ s.recycled ++ (r ∷ [])
      → IsWritten (r ∷ records) s (write_all records s1)
  after_failure r records s s1 file code e error disk index recycled =
      let later = write_all-IsSkipped records s1 (omega (arith, error)) in
      let s' = write_all records s1 in
      let run : Writes (r ∷ records) (disk_of s) [] s'.error (disk_of s') =
        subst (λ (n : ℕ). Writes (r ∷ records) (disk_of s) [] n (disk_of s'))
          (sym (later.error ∙ error))
          (subst (λ (d : Disk File). Writes (r ∷ records) (disk_of s) [] (suc code) d)
            (sym (later.disk ∙ disk)) (fails r records (disk_of s) file code e)) in
      record {
        recycled =
            later.recycled
            ∙ ap (λ (l : List SortRecord). l ++ records) recycled
            ∙ append_assoc s.recycled (r ∷ []) records;
        entries = [];
        run = run;
        indexed = ap all_entries later.index ∙ index ∙ sym (append-nil (all_entries s.index));
        complete = inr (omega (arith, later.error, error), omega arith);
      }

  -- A writer without an error, on one thread, recycles all the records it is given, in their order.
  -- It writes them one after the other until a write fails, each compressed if that is tried and
  -- works, with the size of the record before it, and in a new chunk where it would fill the chunk.
  -- To its index, in the head file or waiting for it, it adds one entry for each write that
  -- succeeded, with the record's timestamp, stream and type and the size that the write gave; and it
  -- ends with the error of the write that failed, or, if all records were written, without an error.
  pub write_records_single_thread-IsWritten :
      (records : List SortRecord) (s : Writing File)
      → s.error ≡ 0
      → IsWritten records s (write_records_single_thread o records s)
  unfolding write_records_single_thread
  write_records_single_thread-IsWritten [] s h = record {
    recycled = sym (append-nil s.recycled);
    entries = [];
    run = subst (λ (n : ℕ). Writes [] (disk_of s) [] n (disk_of s)) (sym h) (no_more (disk_of s));
    indexed = sym (append-nil (all_entries s.index));
    complete = inl (h, refl);
  }
  write_records_single_thread-IsWritten (r ∷ records) s h =
      let one = handle_record-IsHandled r s h in
      elim one.outcome [
        | failure file code e error disk index ↦
            after_failure r records s (handle r s) file code e error disk index one.recycled
        | success file size e error disk index ↦
            let later = write_records_single_thread-IsWritten records (handle r s) error in
            let s' = write_all records (handle r s) in
            record {
              recycled =
                  later.recycled
                  ∙ ap (λ (l : List SortRecord). l ++ records) one.recycled
                  ∙ append_assoc s.recycled (r ∷ []) records;
              entries = entry_of o r size ∷ later.entries;
              run = succeeds r records (disk_of s) file size later.entries s'.error (disk_of s') e (
                  subst (λ (d : Disk File). Writes records d later.entries s'.error (disk_of s'))
                    disk later.run);
              indexed =
                  later.indexed
                  ∙ ap (λ (l : List IndexEntry). l ++ later.entries) index
                  ∙ append_assoc (all_entries s.index) (entry_of o r size ∷ []) later.entries;
              complete = elim later.complete [
                | inl (fine, all) ↦ inl (fine, ap suc all)
                | inr (bad, fewer) ↦ inr (bad, omega (arith, fewer))
              ];
            }
      ]

-- ===== src/FileWriter/Write.antt =====
-- The records are written and indexed: `writeRecordsSingleThread` of vrs/RecordFileWriter.cpp, and
-- `IndexRecord::Writer::addRecord` of vrs/IndexRecord.cpp, with `compress` of vrs/Compressor.cpp and
-- `writeRecord` of vrs/Record.cpp. The file is a parameter, with what a write to it gives, and so is what the compression libraries make
-- of a record; the count of bytes that wait is `none` where it is not tracked.
pub mod Prefix
use vrs.Base.{
  ℕ, zero, suc, ◌+◌, ◌-◌, ◌%◌, ◌^◌, Bool, true, false, ◌&&◌, not, ltb, leb, ◌==◌, if◌then◌else◌,
}
use vrs.Base.{Option, none, some, List, [], ◌∷◌, ◌++◌, length, take}
use vrs.StreamId.{StreamId}
use vrs.FileFormat.{RecordHeader, make_record_header, size_of_record_header}
use vrs.Record.{RecordType}
use vrs.FileWriter.{SortRecord, get_size}

-- What `Writer::addRecord` is given of a record.
pub record IndexEntry : Type 0 where
  pub timestamp : ℕ
  pub record_size : ℕ
  pub stream_id : StreamId
  pub record_type : RecordType

-- `IndexRecord::Writer`: the entries that wait, and those that are in the split head file, if there
-- is one.
pub record IndexWriter : Type 0 where
  pub has_split_head : Bool
  pub written_records : List IndexEntry
  pub appended : List IndexEntry
  pub written_bytes_count : ℕ
  pub written_index_count : ℕ

-- `kMaxBatchSize`
abbrev pub max_batch_size : ℕ
max_batch_size = 100000

-- A write gives the size of the record on disk, or an error, which is not 0 and stands as one less.
pub data WriteResult : Type 0 where
  written : ℕ → WriteResult
  failed : ℕ → WriteResult

-- The locals of `writeRecordsSingleThread`, and the members that it changes.
pub record Writing {ℓ} (File : Type ℓ) : Type ℓ where
  pub error : ℕ
  pub file : File
  pub current_chunk_size : ℕ
  pub last_record_size : ℕ
  pub queue_byte_size : Option ℕ
  pub index : IndexWriter
  -- the records that were given back to their managers
  pub recycled : List SortRecord

abbrev pub after_append : Option ℕ → IndexWriter → IndexWriter
after_append none w = w
after_append (some bytes) w = record w {
  written_records = [];
  appended = w.appended ++ w.written_records;
  written_bytes_count = w.written_bytes_count + bytes;
  written_index_count = w.written_index_count + length w.written_records;
}

-- The code that the writer calls.
pub record Output (File : Type 0) : Type 0 where
  -- `file.write(...)` of a header and of bytes: an error, if there is one, is one more than given
  pub write_header : File → RecordHeader → File × Option ℕ
  pub write_bytes : File → List ℕ → File × Option ℕ
  pub add_chunk : File → File
  -- how many bytes `writeDiskInfos` wrote, or that it failed
  pub write_infos : List IndexEntry → Option ℕ
  pub max_chunk_size : ℕ
  -- the record's manager has a compression preset, which is not `None`
  pub has_preset : SortRecord → Bool
  -- the number of the compression type that its preset stands for, which is not `None`
  pub compression_type : SortRecord → ℕ
  -- what lz4 or zstd make of the payload, or that they fail
  pub compress_payload : SortRecord → Option (List ℕ)

-- `kMinByteCountForCompression`
abbrev pub min_byte_count_for_compression : ℕ
min_byte_count_for_compression = 250

-- `atomic<uint64_t>::fetch_sub`
abbrev pub fetch_sub : Option ℕ → ℕ → Option ℕ
fetch_sub none n = none
fetch_sub (some q) n = some ((q + (2 ^ 64 - n % 2 ^ 64)) % 2 ^ 64)

module _ {File : Type 0} (o : Output File) where
  -- `shouldTryToCompress`
  abbrev pub should_try_to_compress : SortRecord → Bool
  should_try_to_compress r = o.has_preset r && leb min_byte_count_for_compression (get_size r)

  -- `compressRecord`: `none` is the size 0, with which the record is written as it is.
  unfoldable pub compress_record : SortRecord → Option (List ℕ)
  compress_record r = if should_try_to_compress r then o.compress_payload r else none

  -- `appendToSplitIndexRecord`
  unfoldable pub append_to_split_index_record : IndexWriter → IndexWriter
  append_to_split_index_record w = after_append (o.write_infos w.written_records) w

  -- `Writer::addRecord`, whose status the caller drops
  unfoldable pub add_index_record : IndexEntry → IndexWriter → IndexWriter
  add_index_record e w =
      let w' = record w { written_records = w.written_records ++ (e ∷ []) } in
      if w.has_split_head && leb max_batch_size (length w'.written_records)
      then append_to_split_index_record w'
      else w'

  -- A new chunk before a record that would make the chunk too large.
  unfoldable pub start_chunk : SortRecord → Writing File → Writing File
  start_chunk r s =
      if ltb 0 s.current_chunk_size && leb o.max_chunk_size (s.current_chunk_size + get_size r)
      then record s { file = o.add_chunk s.file; current_chunk_size = 0 }
      else s

  abbrev pub entry_of : SortRecord → ℕ → IndexEntry
  entry_of r size = record {
    timestamp = r.item.timestamp;
    record_size = size;
    stream_id = r.stream_id;
    record_type = r.item.record_type;
  }

  -- What follows the write.
  unfoldable pub after_write : SortRecord → Writing File → File × WriteResult → Writing File
  after_write r s (file, failed code) = record s { file = file; error = suc code }
  after_write r s (file, written size) = record s {
    file = file;
    last_record_size = size;
    index = add_index_record (entry_of r size) s.index;
    current_chunk_size = s.current_chunk_size + size;
  }

  abbrev pub after_data : ℕ → File × Option ℕ → File × WriteResult
  after_data size (file, some code) = (file, failed code)
  after_data size (file, none) = (file, written size)

  abbrev pub after_header : List ℕ → ℕ → File × Option ℕ → File × WriteResult
  after_header bytes size (file, some code) = (file, failed code)
  after_header bytes size (file, none) = after_data size (o.write_bytes file bytes)

  -- The header, then the bytes, of which there are `byte_count`.
  abbrev pub write_parts : File → SortRecord → ℕ → ℕ → ℕ → ℕ → List ℕ → File × WriteResult
  write_parts file r last_size compression uncompressed_size byte_count bytes =
      let size = (size_of_record_header + byte_count) % 2 ^ 32 in
      after_header bytes size (
        o.write_header file (
          make_record_header r.item.record_type r.stream_id r.item.timestamp r.item.format_version
            compression last_size size uncompressed_size))

  abbrev pub write_uncompressed : File → SortRecord → ℕ → File × WriteResult
  write_uncompressed file r last_size =
      write_parts file r last_size 0 0 (get_size r) (take (get_size r) r.item.buffer)

  -- `Record::writeRecord`, given the size of the record before.
  unfoldable pub write_record : File → SortRecord → ℕ → Option (List ℕ) → File × WriteResult
  write_record file r last_size none = write_uncompressed file r last_size
  write_record file r last_size (some payload) =
      if ltb 0 (length payload)
      then write_parts file r last_size (o.compression_type r) (get_size r % 2 ^ 32)
          (length payload) payload
      else write_uncompressed file r last_size

  -- The record is written with a compressed payload, if there is one.
  unfoldable pub write_next : Option (List ℕ) → SortRecord → Writing File → Writing File
  write_next payload r s =
      let ready = start_chunk r s in
      let sent = record ready { queue_byte_size = fetch_sub ready.queue_byte_size (get_size r) } in
      after_write r sent (write_record sent.file r sent.last_record_size payload)

  -- A round of the loop: after an error a record is skipped, and recycled like the others.
  unfoldable pub handle_record : Option (List ℕ) → SortRecord → Writing File → Writing File
  handle_record payload r s =
      let s' = (if s.error == 0 then write_next payload r s else s) in
      record s' { recycled = s'.recycled ++ (r ∷ []) }

  -- `writeRecordsSingleThread`
  unfoldable pub write_records_single_thread : List SortRecord → Writing File → Writing File
  write_records_single_thread [] s = s
  write_records_single_thread (r ∷ rest) s =
      write_records_single_thread rest (handle_record (compress_record r) r s)

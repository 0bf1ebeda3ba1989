-- ===== src/IndexRecord/Examples.antt =====
-- The theorems on index records at concrete inputs.
use vrs.Base.{ℕ, true, false, ◌^◌, ◌-◌, ◌≤◌, ◌≡◌, refl, arith, ◌⊎◌, none, some, List, [], ◌∷◌, All}
use vrs.Record.{data_type}
use vrs.FileFormat.{read_recordable_type_id}
use vrs.IndexRecord.{
  DiskRecordInfo, IndexReader, SplitPlan, read_classic, read_split, take_split_entry, emplace,
  info_at, insert_stream, lower_than_back, plan_split, plan_head_chunk, head_chunk_plan,
  is_still_complete, entries_to_read,
}
use vrs.IndexRecord.Sorting.{IsCounted, read_split-read_classic-IsCounted}
use vrs.IndexRecord.Offsets.{IsRead, read_classic-IsRead, read_split-IsRead}
use vrs.IndexRecord.Chunks.{IsSound, IsWhole, plan_split-IsSound}

abbrev entry : ℕ → ℕ → DiskRecordInfo
entry time size = record {
  timestamp = time;
  record_size = size;
  record_type = data_type;
  type_id = 200;
  instance_id = 1;
}

abbrev entries : List DiskRecordInfo
entries = entry 5 100 ∷ entry 4 200 ∷ entry 6 900 ∷ entry 7 50 ∷ []

abbrev empty_reader : IndexReader
empty_reader = record {
  total_file_size = 1000;
  record_header_size = 32;
  stream_ids = [];
  index = [];
  sort_error_count = 0;
  dropped_record_count = 0;
}

classic_end : (read_classic 4 entries empty_reader 80).1 ≡ 380
unfolding read_classic emplace
classic_end = refl

read_classic-IsRead_example :
    let (reader', offset') = read_classic 4 entries empty_reader 80 in
    IsRead entries 80 empty_reader reader' offset'
read_classic-IsRead_example = read_classic-IsRead entries empty_reader 80 refl refl

entries_large : All (λ (d : DiskRecordInfo). 32 ≤ d.record_size) entries
entries_large = (omega arith, (omega arith, (omega arith, (omega arith, tt))))

read_split-IsRead_example :
    (reader' : IndexReader) × (used' : ℕ) × (read_split entries empty_reader 80
      ≡ some (reader', used'))
    × IsRead entries 80 empty_reader reader' used'
read_split-IsRead_example = read_split-IsRead entries empty_reader 80 entries_large refl

abbrev split_reader : IndexReader
split_reader = record empty_reader {
  stream_ids = record { type_id = 200; instance_id = 1 } ∷ [];
  index = info_at (entry 5 100) 80 ∷ info_at (entry 4 200) 180 ∷ [];
  sort_error_count = 1;
  dropped_record_count = 2;
}

split_run : read_split entries empty_reader 80 ≡ some (split_reader, 380)
unfolding read_split take_split_entry emplace insert_stream lower_than_back read_recordable_type_id
split_run = refl

read_split-read_classic-IsCounted_example :
    IsCounted (read_classic 4 entries empty_reader 80).0
    × ((read_split entries empty_reader 80 ≡ none)
        ⊎ ((reader' : IndexReader) × (used' : ℕ) × (read_split entries empty_reader 80
              ≡ some (reader', used'))
            × IsCounted reader'))
read_split-read_classic-IsCounted_example =
    read_split-read_classic-IsCounted entries empty_reader 80 4 refl

one_out_of_order : (read_classic 4 entries empty_reader 80).0.sort_error_count ≡ 1
unfolding read_classic emplace lower_than_back
one_out_of_order = refl

abbrev plan : SplitPlan
plan = head_chunk_plan 9000 112 2000 5000 0

plan_found : plan_split 9000 112 0 2000 5000 0 ≡ some plan
unfolding plan_split plan_head_chunk
plan_found = refl

-- A negative offset is kept, and the index is not complete.
negative_offset :
    plan_split 9000 112 0 2000 190 (2 ^ 64 - 5)
    ≡ some (record {
      index_byte_size = 190;
      first_user_record_offset = 2 ^ 64 - 5;
      index_complete = false;
      has_split_head_chunk = true;
    })
unfolding plan_split plan_head_chunk
negative_offset = refl

-- Ten entries, compressed.
abbrev whole_plan : SplitPlan
whole_plan = head_chunk_plan 9000 112 2000 60 2000

whole_plan_found : plan_split 9000 112 0 2000 60 2000 ≡ some whole_plan
unfolding plan_split plan_head_chunk
whole_plan_found = refl

whole : is_still_complete whole_plan 190 10 ≡ true
unfolding is_still_complete entries_to_read
whole = refl

plan_split-IsSound_example :
    IsSound 112 2000 60 2000 whole_plan
    × ((is_still_complete whole_plan 190 10 ≡ false) ⊎ IsWhole whole_plan 190 10)
plan_split-IsSound_example =
    plan_split-IsSound 9000 112 0 2000 60 2000 whole_plan 190 10 (omega arith) whole_plan_found

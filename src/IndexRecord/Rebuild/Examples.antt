-- ===== src/IndexRecord/Rebuild/Examples.antt =====
-- An index is rebuilt from a file of three records and a broken end.
use vrs.Base.{ℕ, ◌≡◌, refl, arith, Bool, true, false, inr, if◌then◌else◌, ◌==◌}
use vrs.Base.{some, List, [], ◌∷◌}
use vrs.FileFormat.{RecordHeader, read_recordable_type_id}
use vrs.IndexRecord.{IndexReader}
use vrs.IndexRecord.Rebuild.{
  HeaderRead, SplitIndexRead, at_end, unreadable, header, Rebuild, rebuild_index,
}
use vrs.IndexRecord.Rebuild.Chain.{user_infos, end_of}
use vrs.IndexRecord.Rebuild.Complete.{IsRebuilt, rebuild_index-IsRebuilt}

abbrev header_of : ℕ → ℕ → ℕ → ℕ → RecordHeader
header_of type_id time previous_size size = record {
  record_size = size;
  previous_record_size = previous_size;
  recordable_type_id = type_id;
  format_version = 1;
  timestamp = time;
  recordable_instance_id = 1;
  record_type = 3;
  compression_type = 0;
  uncompressed_size = 0;
}

-- A description, then two records of a stream that are out of order.
abbrev description : RecordHeader
description = header_of 2 0 0 40

abbrev first : RecordHeader
first = header_of 200 7 40 100

abbrev second : RecordHeader
second = header_of 200 5 100 60

abbrev headers : List RecordHeader
headers = description ∷ first ∷ second ∷ []

abbrev read_header : ℕ → HeaderRead
read_header position =
    if position == 80
    then header description
    else if position == 120
    then header first
    else if position == 220
    then header second
    else if position == 280
    then unreadable
    else at_end

abbrev cannot_go_to : ℕ → Bool
cannot_go_to position = false

abbrev read_split_index : SplitIndexRead
read_split_index reader infos = (reader, infos, 0)

abbrev opened : IndexReader
opened = record {
  total_file_size = 290;
  record_header_size = 32;
  stream_ids = [];
  index = [];
  sort_error_count = 0;
  dropped_record_count = 0;
}

rebuild_index-IsRebuilt_example :
    (s : Rebuild) × (rebuild_index read_header cannot_go_to read_split_index false opened true 80
      ≡ some s)
    × IsRebuilt read_header cannot_go_to read_split_index false
        (user_infos 80 headers)
        (end_of 80 headers)
        s
unfolding read_recordable_type_id
rebuild_index-IsRebuilt_example =
    rebuild_index-IsRebuilt read_header cannot_go_to read_split_index false opened true 80 headers
      (omega arith) (omega arith)
      (
        record {
          found = refl;
          previous = refl;
          large_enough = omega arith;
          in_file = omega arith;
          reachable = refl;
          no_split_index = refl;
          known_type = refl;
        },
        (
          record {
            found = refl;
            previous = refl;
            large_enough = omega arith;
            in_file = omega arith;
            reachable = refl;
            no_split_index = refl;
            known_type = refl;
          },
          (
            record {
              found = refl;
              previous = refl;
              large_enough = omega arith;
              in_file = omega arith;
              reachable = refl;
              no_split_index = refl;
              known_type = refl;
            },
            inr refl,
          ),
        ),
      )

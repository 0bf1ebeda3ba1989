-- ===== src/FileFormat/Examples.antt =====
-- The theorems on headers at concrete inputs.
use vrs.Base.{◌≤◌, ◌≡◌, ◌⊎◌, refl, arith, true}
use vrs.StreamId.{StreamId}
use vrs.FileFormat.{
  FileHeader, looks_like_our_files, get_end_of_user_records_offset, magic_header1, magic_header2,
  magic_header3, read_recordable_type_id,
}
use vrs.FileFormat.Laws.{get_end_of_user_records_offset_bounds}

abbrev blank : FileHeader
blank = record {
  magic_header1 = 0;
  magic_header2 = 0;
  creation_id = 0;
  file_header_size = 0;
  record_header_size = 0;
  index_record_offset = 5000;
  description_record_offset = 80;
  first_user_record_offset = 0;
  magic_header3 = 0;
  file_format_version = 0;
}

abbrev written : FileHeader
written = record blank {
  magic_header1 = magic_header1;
  magic_header2 = magic_header2;
  magic_header3 = magic_header3;
  file_header_size = 80;
  record_header_size = 40;
  file_format_version = 827544150;
}

written_recognised : looks_like_our_files written magic_header1 magic_header2 magic_header3 ≡ true
unfolding looks_like_our_files
written_recognised = refl

get_end_of_user_records_offset_bounds_example :
    let end = get_end_of_user_records_offset written 6000 in
    (end ≤ 6000) × ((end ≡ 6000) ⊎ (end ≡ 5000))
get_end_of_user_records_offset_bounds_example =
    get_end_of_user_records_offset_bounds written 6000 (omega arith) (omega arith)

index_is_the_end : get_end_of_user_records_offset written 6000 ≡ 5000
unfolding get_end_of_user_records_offset looks_like_our_files
index_is_the_end = refl

abbrev camera : StreamId
camera = record { type_id = 65501; instance_id = 3 }

legacy_test_device : read_recordable_type_id 100001 ≡ 65501
unfolding read_recordable_type_id
legacy_test_device = refl

-- ===== src/FileFormat.antt =====
-- The headers of a file and of its records: vrs/FileFormat.h and vrs/FileFormat.cpp.
-- `LittleEndian<T>` holds a T: an unsigned number, or the bits of a signed one.
use vrs.Base.{
  ℕ, ◌+◌, ◌-◌, ◌*◌, ◌%◌, ◌^◌, ◌<◌, Bool, true, false, ◌&&◌, ◌||◌, not, ltb, leb, ◌==◌,
  if◌then◌else◌,
}
use vrs.StreamId.{StreamId}
use vrs.Record.{RecordType, type_id}
pub mod Laws
pub mod Examples

-- The letters are ASCII, so `|` of the shifted bytes is their sum.
abbrev pub four_char_code : ℕ → ℕ → ℕ → ℕ → ℕ
four_char_code a b c d = a + b * 2 ^ 8 + c * 2 ^ 16 + d * 2 ^ 24

abbrev pub magic_header1 : ℕ
magic_header1 = four_char_code b'V' b'i' b's' b'i'

abbrev pub magic_header2 : ℕ
magic_header2 = four_char_code b'o' b'n' b'R' b'e'

abbrev pub magic_header3 : ℕ
magic_header3 = four_char_code b'c' b'o' b'r' b'd'

abbrev pub original_file_format_version : ℕ
original_file_format_version = four_char_code b'V' b'R' b'S' b'1'

abbrev pub front_index_file_format_version : ℕ
front_index_file_format_version = four_char_code b'V' b'R' b'S' b'2'

abbrev pub zstd_format_version : ℕ
zstd_format_version = four_char_code b'V' b'R' b'S' b'3'

pub record FileHeader : Type 0 where
  pub magic_header1 : ℕ
  pub magic_header2 : ℕ
  pub creation_id : ℕ
  pub file_header_size : ℕ
  pub record_header_size : ℕ
  pub index_record_offset : ℕ
  pub description_record_offset : ℕ
  pub first_user_record_offset : ℕ
  pub magic_header3 : ℕ
  pub file_format_version : ℕ

-- `sizeof(FileHeader)`: the fields above, and three of 8 bytes for future use
abbrev pub size_of_file_header : ℕ
size_of_file_header = 80

-- `sizeof(RecordHeader)`
abbrev pub size_of_record_header : ℕ
size_of_record_header = 32

-- `a < b` for the bits of two int64_t values
abbrev pub signed_less : ℕ → ℕ → Bool
signed_less a b = ltb ((a + 2 ^ 63) % 2 ^ 64) ((b + 2 ^ 63) % 2 ^ 64)

-- `init(magic1, magic2, magic3, formatVersion)`, given the clock and the random bits. The masks
-- of 30 bits are remainders.
unfoldable pub init_with : ℕ → ℕ → ℕ → ℕ → ℕ → ℕ → FileHeader → FileHeader
init_with now random_bits magic1 magic2 magic3 version header = record header {
  magic_header1 = magic1;
  magic_header2 = magic2;
  magic_header3 = magic3;
  file_header_size = size_of_file_header;
  record_header_size = size_of_record_header;
  creation_id = now - now % 2 ^ 30 + random_bits % 2 ^ 30;
  file_format_version = version;
}

-- `init()`
abbrev pub init : ℕ → ℕ → FileHeader → FileHeader
init now random_bits =
    init_with now random_bits magic_header1 magic_header2 magic_header3 original_file_format_version

abbrev max_header_growth : ℕ
max_header_growth = 200

unfoldable pub looks_like_our_files : FileHeader → ℕ → ℕ → ℕ → Bool
looks_like_our_files header magic1 magic2 magic3 =
    if not (header.magic_header1 == magic1)
      || not (header.magic_header2 == magic2)
      || not (header.magic_header3 == magic3)
    then false
    else if ltb header.file_header_size size_of_file_header
        || ltb header.record_header_size size_of_record_header
    then false
    else leb header.file_header_size (size_of_file_header + max_header_growth)
      && leb header.record_header_size (size_of_record_header + max_header_growth)

abbrev pub looks_like_avrs_file : FileHeader → Bool
looks_like_avrs_file header = looks_like_our_files header magic_header1 magic_header2 magic_header3

unfoldable pub is_format_supported : FileHeader → Bool
is_format_supported header =
    header.file_format_version == original_file_format_version
    || header.file_format_version == front_index_file_format_version
    || header.file_format_version == zstd_format_version

abbrev pub enable_front_index_record_support : FileHeader → FileHeader
enable_front_index_record_support header = record header {
  file_format_version = front_index_file_format_version;
}

-- `min<int64_t>(a, b)`
abbrev pub signed_min : ℕ → ℕ → ℕ
signed_min a b = if signed_less b a then b else a

unfoldable pub get_end_of_user_records_offset : FileHeader → ℕ → ℕ
get_end_of_user_records_offset header file_size =
    let positive = signed_less 0 header.index_record_offset in
    if looks_like_avrs_file header
    then (if header.file_format_version == original_file_format_version
        then (if positive then signed_min file_size header.index_record_offset else file_size)
        else if header.file_format_version == front_index_file_format_version
            || header.file_format_version == zstd_format_version
        then (if positive && signed_less header.first_user_record_offset header.index_record_offset
            then signed_min file_size header.index_record_offset
            else file_size)
        else file_size)
    else file_size

abbrev pub test_devices : ℕ
test_devices = 65500

-- `readRecordableTypeId`, of the bits of an int32_t; a RecordableTypeId is a uint16_t.
unfoldable pub read_recordable_type_id : ℕ → ℕ
read_recordable_type_id raw =
    if ltb raw (2 ^ 31) && leb 100000 raw
    then (raw - 100000 + test_devices) % 65536
    else raw % 65536

pub record RecordHeader : Type 0 where
  pub record_size : ℕ
  pub previous_record_size : ℕ
  pub recordable_type_id : ℕ
  pub format_version : ℕ
  pub timestamp : ℕ
  pub recordable_instance_id : ℕ
  pub record_type : ℕ
  pub compression_type : ℕ
  pub uncompressed_size : ℕ

-- The constructor; a compression type is its number.
unfoldable pub make_record_header : RecordType → StreamId → ℕ → ℕ → ℕ → ℕ → ℕ → ℕ → RecordHeader
make_record_header t id timestamp version compression previous_size size uncompressed_size =
    record {
      record_size = size;
      previous_record_size = previous_size;
      recordable_type_id = id.type_id;
      format_version = version;
      timestamp = timestamp;
      recordable_instance_id = id.instance_id;
      record_type = type_id t;
      compression_type = compression % 256;
      uncompressed_size = uncompressed_size;
    }

unfoldable pub get_stream_id : RecordHeader → StreamId
get_stream_id header = record {
  type_id = read_recordable_type_id header.recordable_type_id;
  instance_id = header.recordable_instance_id;
}

-- `Record::kMaxTimestamp`, as `max_timestamp`
unfoldable pub init_index_header : ℕ → ℕ → ℕ → ℕ → ℕ → RecordHeader → RecordHeader
init_index_header max_timestamp version index_size previous_size compression header =
    record header {
      record_type = type_id RecordType.data_type;
      record_size = (size_of_record_header + index_size) % 2 ^ 32;
      previous_record_size = previous_size;
      format_version = version;
      recordable_type_id = 1;
      timestamp = max_timestamp;
      compression_type = compression % 256;
    }

unfoldable pub init_description_header : ℕ → ℕ → ℕ → ℕ → RecordHeader → RecordHeader
init_description_header max_timestamp version size previous_size header = record header {
  record_type = type_id RecordType.data_type;
  record_size = size;
  previous_record_size = previous_size;
  format_version = version;
  recordable_type_id = 2;
  timestamp = max_timestamp;
}

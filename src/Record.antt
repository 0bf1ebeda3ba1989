-- ===== src/Record.antt =====
-- vrs/Record.h and vrs/Record.cpp: a record in memory, with its buffer.
-- A timestamp, a double in the source, is a number of ticks: the code compares timestamps, and adds
-- an age to one. A `std::vector` of bytes is its bytes and its capacity.
pub mod Buffer
use vrs.Base.{ℕ, ◌+◌, ◌-◌, max, Bool, true, false, List, [], ◌++◌, length, take, drop, replicate}
use vrs.Base.{ltb, leb, if◌then◌else◌, ◌==◌}

-- `Record::Type`
pub data RecordType : Type 0 where
  undefined state configuration data_type tags : RecordType

abbrev pub type_id : RecordType → ℕ
type_id undefined = 0
type_id state = 1
type_id configuration = 2
type_id data_type = 3
type_id tags = 4

abbrev pub same_type : RecordType → RecordType → Bool
same_type a b = type_id a == type_id b

pub record Record : Type 0 where
  pub timestamp : ℕ
  pub record_type : RecordType
  pub format_version : ℕ
  pub buffer : List ℕ
  pub buffer_capacity : ℕ
  pub buffer_used_size : ℕ
  pub creation_order : ℕ

-- `new Record(manager)`: no field but the empty buffer has a value yet; they read as 0 here.
abbrev pub fresh : Record
fresh = record {
  timestamp = 0;
  record_type = undefined;
  format_version = 0;
  buffer = [];
  buffer_capacity = 0;
  buffer_used_size = 0;
  creation_order = 0;
}

-- `vector::resize`; a byte that is added has no value yet, and reads as 0 here.
abbrev resize : List ℕ → ℕ → List ℕ
resize buffer n = take n buffer ++ replicate (n - length buffer) 0

-- `DataSource::copyTo` to the start of the buffer
abbrev copy_to : List ℕ → List ℕ → List ℕ
copy_to bytes buffer = bytes ++ drop (length bytes) buffer

-- The buffer that `Record::set` leaves when there are bytes to hold.
abbrev set_buffer : Record → List ℕ → List ℕ
set_buffer r bytes =
    if ltb (length r.buffer) (length bytes)
    then copy_to bytes (
        if ltb r.buffer_capacity (length bytes)
        then resize (resize r.buffer 0) (length bytes)
        else resize r.buffer (length bytes))
    else copy_to bytes r.buffer

-- The capacity; `adjusted` is the size that the manager answers for a new allocation, and
-- `vector::reserve` never shrinks, and `vector::resize` grows the capacity where it must.
abbrev set_capacity : Record → ℕ → List ℕ → ℕ
set_capacity r adjusted bytes =
    if ltb (length r.buffer) (length bytes)
    then (if ltb r.buffer_capacity (length bytes)
        then max (max r.buffer_capacity adjusted) (length bytes)
        else r.buffer_capacity)
    else r.buffer_capacity

-- `Record::set`; `bytes` are what the data source copies.
unfoldable pub set_record : Record → ℕ → ℕ → RecordType → ℕ → List ℕ → ℕ → Record
set_record r adjusted timestamp record_type format_version bytes creation_order = record {
  timestamp = timestamp;
  record_type = record_type;
  format_version = format_version;
  buffer = if ltb 0 (length bytes) then set_buffer r bytes else r.buffer;
  buffer_capacity =
      if ltb 0 (length bytes) then set_capacity r adjusted bytes else r.buffer_capacity;
  buffer_used_size = length bytes;
  creation_order = creation_order;
}

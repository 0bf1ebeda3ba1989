-- ===== src/FileWriter.antt =====
-- How a file's writer orders and writes records: vrs/RecordFileWriter.cpp and
-- vrs/RecordFileWriter.h. `Batches` sorts what was collected, `Write` writes it on one thread, and
-- `Threads` with threads that compress.
pub mod Batches
pub mod Write
pub mod Threads
pub mod Examples
use vrs.Base.{ℕ, Bool, ◌&&◌, ◌||◌, ltb, leb, List, ◌≡◌, refl, arith, true, false}
use vrs.Base.Ordered.{IsWeakOrder}
use vrs.StreamId.{StreamId, same, less}
use vrs.Record.{Record}

-- `SortRecord`; a pointer to a record is the record.
pub record SortRecord : Type 0 where
  pub item : Record
  pub stream_id : StreamId

-- `SortRecord::operator<`
abbrev pub sort_less : SortRecord → SortRecord → Bool
sort_less a b =
    ltb a.item.timestamp b.item.timestamp
    || (leb a.item.timestamp b.item.timestamp
        && (less a.stream_id b.stream_id
            || (same a.stream_id b.stream_id && ltb a.item.creation_order b.item.creation_order)))

-- `Record::getSize`
abbrev pub get_size : SortRecord → ℕ
get_size r = r.item.buffer_used_size

-- A list of the records of one stream, as `collectOldRecords` makes it.
pub record StreamRecords : Type 0 where
  pub stream_id : StreamId
  pub records : List Record

-- `RecordBatch`
abbrev pub RecordBatch : Type 0
RecordBatch = List StreamRecords

sort_less_asymmetric : (a b : SortRecord) → sort_less a b ≡ true → sort_less b a ≡ false
sort_less_asymmetric a b h = ground arith

sort_less_below :
    (a b c : SortRecord) → sort_less b a ≡ false → sort_less b c ≡ true → sort_less a c ≡ true
sort_less_below a b c h k = ground arith

sort_less_transitive :
    (a b c : SortRecord) → sort_less b a ≡ false → sort_less c b ≡ false → sort_less c a ≡ false
sort_less_transitive a b c h k = ground arith

pub sort_less-IsWeakOrder : IsWeakOrder sort_less
sort_less-IsWeakOrder = record {
  asymmetric = sort_less_asymmetric;
  below = sort_less_below;
  transitive = sort_less_transitive;
}

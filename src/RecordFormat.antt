-- ===== src/RecordFormat.antt =====
-- vrs/RecordFormat.h and vrs/RecordFormat.cpp: how a record is made of content blocks. `Image` and
-- `Audio` are the specs of such blocks, `Content` the blocks, and `Blocks` the formats of records.
pub mod Image
pub mod Audio
pub mod Content
pub mod Blocks
pub mod Text
pub mod Examples

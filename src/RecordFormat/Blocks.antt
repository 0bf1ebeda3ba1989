-- ===== src/RecordFormat/Blocks.antt =====
-- `RecordFormat` of vrs/RecordFormat.h and vrs/RecordFormat.cpp: the sizes of a record's blocks.
-- The sums of sizes are size_t values and wrap modulo 2 ^ 64.
pub mod Sizes
pub mod Split
pub mod Examples
use vrs.Base.{
  ℕ, zero, suc, ◌+◌, ◌-◌, ◌%◌, ◌^◌, Bool, true, false, not, ltb, leb, ◌==◌, if◌then◌else◌,
}
use vrs.Base.{Option, none, some, List, [], ◌∷◌, length, drop, get_elem?}
use vrs.RecordFormat.Image.{size_unknown}
use vrs.RecordFormat.Content.{
  ContentType, ContentBlock, block_of_type, content_type_id, get_block_size,
}

-- The blocks of a record
abbrev pub RecordFormat : Type 0
RecordFormat = List ContentBlock

abbrev pub is_unknown : ℕ → Bool
is_unknown size = size == size_unknown

-- `getContentBlock`: past the end stands an empty block.
abbrev pub get_content_block : RecordFormat → ℕ → ContentBlock
get_content_block format index = elim (get_elem? format index) [
  | some block ↦ block
  | none ↦ block_of_type ContentType.empty size_unknown
]

-- The loop of `getRemainingBlocksSize` over the blocks that are left.
unfoldable pub add_block_sizes : List ContentBlock → ℕ → ℕ
add_block_sizes [] size = size
add_block_sizes (block ∷ rest) size =
    let block_size = get_block_size block in
    let more = add_block_sizes rest ((size + block_size) % 2 ^ 64) in
    if is_unknown block_size then size_unknown else more

unfoldable pub get_remaining_blocks_size : RecordFormat → ℕ → ℕ
unfolding add_block_sizes
get_remaining_blocks_size format first = add_block_sizes (drop first format) 0

abbrev pub get_record_size : RecordFormat → ℕ
get_record_size format = get_remaining_blocks_size format 0

-- The loop of `getUsedBlocksCount`, from the last block down.
unfoldable pub used_blocks : RecordFormat → ℕ → ℕ
used_blocks format zero = 0
used_blocks format (suc k) =
    let fewer = used_blocks format k in
    if not (content_type_id (get_content_block format k).content_type == 1) then suc k else fewer

unfoldable pub get_used_blocks_count : RecordFormat → ℕ
unfolding used_blocks
get_used_blocks_count format = used_blocks format (length format)

unfoldable pub get_blocks_of_type_count : RecordFormat → ContentType → ℕ
get_blocks_of_type_count [] type = 0
get_blocks_of_type_count (block ∷ rest) type =
    (if content_type_id block.content_type == content_type_id type then 1 else 0)
    + get_blocks_of_type_count rest type

-- `getBlockSize(blockIndex, remainingSize)`, for an index in range: the size of a block, where
-- `remaining` bytes are left for it and the blocks behind it.
unfoldable pub block_size_at : ContentBlock → RecordFormat → ℕ → ℕ
block_size_at block rest remaining =
    let block_size = get_block_size block in
    let rest_size = add_block_sizes rest 0 in
    if not (is_unknown block_size)
    then (if leb block_size remaining then block_size else size_unknown)
    else if is_unknown rest_size
    then size_unknown
    else if leb rest_size remaining
    then remaining - rest_size
    else size_unknown

unfoldable pub get_block_size_in : RecordFormat → ℕ → ℕ → ℕ
unfolding block_size_at
get_block_size_in format index remaining =
    block_size_at (get_content_block format index) (drop (index + 1) format) remaining

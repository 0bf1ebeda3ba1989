-- ===== src/RecordFormat/Blocks/Sizes.antt =====
-- What `getRemainingBlocksSize` and `getUsedBlocksCount` of vrs/RecordFormat.cpp compute.
use vrs.Base.{ℕ, ◌+◌, ◌%◌, ◌^◌, ◌<◌, ◌≡◌, refl, arith, Bool, true, false, not, ◌&&◌, inl, inr}
use vrs.Base.{List, [], ◌∷◌, if◌then◌else◌, Bool-cases, drop}
use vrs.RecordFormat.Image.{size_unknown}
use vrs.RecordFormat.Content.{ContentBlock, get_block_size}
use vrs.RecordFormat.Blocks.{RecordFormat, is_unknown, add_block_sizes, get_remaining_blocks_size}

abbrev pub IsKnown : ContentBlock → Type 0
IsKnown block = is_unknown (get_block_size block) ≡ false

abbrev pub all_known : List ContentBlock → Bool
all_known [] = true
all_known (block ∷ rest) = not (is_unknown (get_block_size block)) && all_known rest

-- The sum of the sizes, without any bound.
abbrev pub sum_sizes : List ContentBlock → ℕ
sum_sizes [] = 0
sum_sizes (block ∷ rest) = get_block_size block + sum_sizes rest

pub add_block_sizes-sum :
    (blocks : List ContentBlock) (size : ℕ)
    → size < 2 ^ 64
    → add_block_sizes blocks size
      ≡ (if all_known blocks then (size + sum_sizes blocks) % 2 ^ 64 else size_unknown)
unfolding add_block_sizes
add_block_sizes-sum [] size h = omega arith
add_block_sizes-sum (block ∷ rest) size h = elim (Bool-cases (is_unknown (get_block_size block))) [
  | inl e ↦ rw e refl
  | inr e ↦ rw e (elim (Bool-cases (all_known rest)) [
    | inl k ↦
        let tail =
          add_block_sizes-sum rest ((size + get_block_size block) % 2 ^ 64) (omega arith) in
        ground (arith, tail, k)
    | inr k ↦
        let tail =
          add_block_sizes-sum rest ((size + get_block_size block) % 2 ^ 64) (omega arith) in
        ground (arith, tail, k)
  ])
]

-- From any block on, the remaining size is the sum of the blocks' sizes modulo 2 ^ 64 when every
-- one of these sizes is known, and the unknown size when any is not.
pub get_remaining_blocks_size-sum_sizes :
    (format : RecordFormat) (first : ℕ)
    → get_remaining_blocks_size format first ≡ (
        if all_known (drop first format)
        then sum_sizes (drop first format) % 2 ^ 64
        else size_unknown)
unfolding get_remaining_blocks_size
get_remaining_blocks_size-sum_sizes format first =
    ground (arith, add_block_sizes-sum (drop first format) 0 (omega arith))

-- ===== src/RecordFormat/Blocks/Split.antt =====
-- How `getBlockSize(blockIndex, remainingSize)` of vrs/RecordFormat.cpp splits the bytes of a record
-- between its blocks, read in order.
use vrs.Base.{ℕ, zero, suc, ◌+◌, ◌-◌, ◌^◌, ◌≤◌, ◌<◌, ◌≡◌, refl, ◌∙◌, ap, arith, true}
use vrs.Base.{List, [], ◌∷◌, ◌++◌, le→leb, length, map, All}
use vrs.RecordFormat.Image.{size_unknown}
use vrs.RecordFormat.Content.{ContentBlock, get_block_size}
use vrs.RecordFormat.Blocks.{
  RecordFormat, is_unknown, add_block_sizes, block_size_at, get_block_size_in,
}
use vrs.RecordFormat.Blocks.Sizes.{IsKnown, all_known, sum_sizes, add_block_sizes-sum}

-- The sizes that a reader gets that asks for `count` blocks in order, from the block `first` on: it
-- reads each block in full before it asks for the next.
abbrev pub block_sizes : RecordFormat → ℕ → ℕ → ℕ → List ℕ
block_sizes format first zero remaining = []
block_sizes format first (suc count) remaining =
    let size = get_block_size_in format first remaining in
    size ∷ block_sizes format (suc first) count (remaining - size)

-- The same by recursion on the blocks.
abbrev walk : RecordFormat → ℕ → List ℕ
walk [] remaining = []
walk (block ∷ rest) remaining =
    let size = block_size_at block rest remaining in size ∷ walk rest (remaining - size)

get_block_size_in-cons :
    (block : ContentBlock) (format : RecordFormat) (i remaining : ℕ)
    → get_block_size_in (block ∷ format) (suc i) remaining ≡ get_block_size_in format i remaining
unfolding get_block_size_in
get_block_size_in-cons block format i remaining = ground arith

get_block_size_in-head :
    (block : ContentBlock) (format : RecordFormat) (remaining : ℕ)
    → get_block_size_in (block ∷ format) 0 remaining ≡ block_size_at block format remaining
unfolding get_block_size_in
get_block_size_in-head block format remaining = refl

block_sizes-cons :
    (block : ContentBlock) (format : RecordFormat) (first count remaining : ℕ)
    → block_sizes (block ∷ format) (suc first) count remaining
      ≡ block_sizes format first count remaining
block_sizes-cons block format first zero remaining = refl
block_sizes-cons block format first (suc count) remaining =
    rw (get_block_size_in-cons block format first remaining) (
      ap (◌∷◌ (get_block_size_in format first remaining)) (
        block_sizes-cons block format (suc first) count
          (remaining - get_block_size_in format first remaining)))

block_sizes-walk :
    (format : RecordFormat) (remaining : ℕ)
    → block_sizes format 0 (length format) remaining ≡ walk format remaining
block_sizes-walk [] remaining = refl
block_sizes-walk (block ∷ rest) remaining = rw (get_block_size_in-head block rest remaining) (
    let size = block_size_at block rest remaining in
    ap (◌∷◌ size) (
      block_sizes-cons block rest 0 (length rest) (remaining - size)
      ∙ block_sizes-walk rest (remaining - size)))

block_size_at_known :
    (block : ContentBlock) (rest : RecordFormat) (remaining : ℕ)
    → IsKnown block
    → get_block_size block ≤ remaining
    → block_size_at block rest remaining ≡ get_block_size block
unfolding block_size_at
block_size_at_known block rest remaining known h = rw (known, le→leb _ _ h) refl

known_sum :
    (rest : RecordFormat)
    → All IsKnown rest
    → sum_sizes rest < 2 ^ 64
    → add_block_sizes rest 0 ≡ sum_sizes rest
known_sum rest known h =
    ground (arith, add_block_sizes-sum rest 0 (omega arith), known_all rest known)
  where
    known_all : (l : RecordFormat) → All IsKnown l → all_known l ≡ true
    known_all [] k = refl
    known_all (block ∷ l) k = rw (k.0) (known_all l k.1)

block_size_at_unknown :
    (block : ContentBlock) (rest : RecordFormat) (remaining : ℕ)
    → is_unknown (get_block_size block) ≡ true
    → All IsKnown rest
    → sum_sizes rest ≤ remaining
    → remaining < size_unknown
    → block_size_at block rest remaining ≡ remaining - sum_sizes rest
unfolding block_size_at
block_size_at_unknown block rest remaining unknown known h bound =
    rw (unknown, known_sum rest known (omega arith)) (ground arith)

walk_known :
    (blocks : RecordFormat) (remaining : ℕ)
    → All IsKnown blocks
    → sum_sizes blocks ≤ remaining
    → walk blocks remaining ≡ map get_block_size blocks
walk_known [] remaining known h = refl
walk_known (block ∷ rest) remaining known h =
    rw (block_size_at_known block rest remaining known.0 (omega arith)) (
      ap (◌∷◌ (get_block_size block))
        (walk_known rest (remaining - get_block_size block) known.1 (omega arith)))

walk_unknown :
    (front : RecordFormat) (block : ContentBlock) (back : RecordFormat) (remaining : ℕ)
    → All IsKnown front
    → is_unknown (get_block_size block) ≡ true
    → All IsKnown back
    → sum_sizes front + sum_sizes back ≤ remaining
    → remaining < size_unknown
    → walk (front ++ (block ∷ back)) remaining
      ≡ map get_block_size front
        ++ ((remaining - (sum_sizes front + sum_sizes back)) ∷ map get_block_size back)
walk_unknown [] block back remaining kf u kb h bound =
    let size = remaining - sum_sizes back in
    rw
      (
        block_size_at_unknown block back remaining u kb (omega arith) bound,
        walk_known back (remaining - size) kb (omega arith),
      )
      (ground arith)
walk_unknown (x ∷ front) block back remaining kf u kb h bound =
    rw
      (
        block_size_at_known x (front ++ (block ∷ back)) remaining kf.0 (omega arith),
        walk_unknown front block back (remaining - get_block_size x) kf.1 u kb (omega arith)
            (omega arith),
      )
      (ground arith)

-- When all blocks have a known size and the record has as many bytes or more, a reader that asks for
-- the blocks in order gets each block's own size.
pub block_sizes_known :
    (format : RecordFormat) (total : ℕ)
    → All IsKnown format
    → sum_sizes format ≤ total
    → block_sizes format 0 (length format) total ≡ map get_block_size format
block_sizes_known format total known h =
    block_sizes-walk format total ∙ walk_known format total known h

-- When exactly one block has an unknown size, the other blocks fit in the record and the
-- record's size is known, a reader that asks for the blocks in order gets their own sizes for
-- these, and for that one block all the bytes that the others leave: the record is split without
-- a gap.
pub block_sizes_unknown :
    (front : RecordFormat) (block : ContentBlock) (back : RecordFormat) (total : ℕ)
    → All IsKnown front
    → is_unknown (get_block_size block) ≡ true
    → All IsKnown back
    → sum_sizes front + sum_sizes back ≤ total
    → total < size_unknown
    → block_sizes (front ++ (block ∷ back)) 0 (length (front ++ (block ∷ back))) total
      ≡ map get_block_size front
        ++ ((total - (sum_sizes front + sum_sizes back)) ∷ map get_block_size back)
block_sizes_unknown front block back total kf u kb h bound =
    block_sizes-walk (front ++ (block ∷ back)) total
    ∙ walk_unknown front block back total kf u kb h bound

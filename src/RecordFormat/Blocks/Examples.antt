-- ===== src/RecordFormat/Blocks/Examples.antt =====
-- The theorems on the sizes of blocks at concrete inputs.
use vrs.Base.{◌+◌, ◌-◌, ◌≤◌, ◌≡◌, refl, arith, true, [], ◌∷◌, ◌++◌}
use vrs.Base.{map}
use vrs.RecordFormat.Image.{size_unknown}
use vrs.RecordFormat.Content.{ContentBlock, ContentType, block_of_type, get_block_size}
use vrs.RecordFormat.Blocks.{is_unknown}
use vrs.RecordFormat.Blocks.Sizes.{IsKnown, sum_sizes}
use vrs.RecordFormat.Blocks.Split.{block_sizes, block_sizes_unknown}

abbrev layout : ContentBlock
layout = block_of_type ContentType.data_layout 24

abbrev bytes : ContentBlock
bytes = block_of_type ContentType.custom size_unknown

abbrev trailer : ContentBlock
trailer = block_of_type ContentType.custom 8

layout-IsKnown : IsKnown layout
unfolding get_block_size
layout-IsKnown = refl

trailer-IsKnown : IsKnown trailer
unfolding get_block_size
trailer-IsKnown = refl

bytes_unknown : is_unknown (get_block_size bytes) ≡ true
unfolding get_block_size
bytes_unknown = refl

sizes_small : sum_sizes (layout ∷ []) + sum_sizes (trailer ∷ []) ≤ 100
unfolding get_block_size
sizes_small = omega arith

block_sizes_unknown_example :
    block_sizes ((layout ∷ []) ++ (bytes ∷ trailer ∷ [])) 0 3 100
    ≡ map get_block_size (layout ∷ [])
      ++ ((100 - (sum_sizes (layout ∷ []) + sum_sizes (trailer ∷ [])))
          ∷ map get_block_size (trailer ∷ []))
block_sizes_unknown_example =
    block_sizes_unknown (layout ∷ []) bytes (trailer ∷ []) 100 (layout-IsKnown, tt) bytes_unknown
      (trailer-IsKnown, tt) sizes_small (omega arith)

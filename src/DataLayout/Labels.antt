-- ===== src/DataLayout/Labels.antt =====
-- The labels of the pieces in the structures of a data layout: `DataLayouter` of vrs/DataLayout.cpp,
-- whose prefix names the structures that are being constructed. A text is the list of its bytes.
use vrs.Base.{ℕ, ◌+◌, ◌-◌, ◌≡◌, refl, arith, false, ltb, lt→ltb, if◌then◌else◌}
use vrs.Base.{List, [], ◌∷◌, ◌++◌, length, take, length-append, take-append}

-- `dataLayoutPieceLabel`, which `dataLayoutStructStart` follows too
abbrev pub data_layout_piece_label : List ℕ → List ℕ → List ℕ
data_layout_piece_label [] label = label
data_layout_piece_label (c ∷ prefix) label = (c ∷ prefix) ++ (b'/' ∷ label)

abbrev pub data_layout_struct_start : List ℕ → List ℕ → List ℕ
data_layout_struct_start prefix struct_name = data_layout_piece_label prefix struct_name

unfoldable pub data_layout_struct_end : List ℕ → List ℕ → List ℕ
data_layout_struct_end prefix struct_name =
    if ltb (length struct_name) (length prefix)
    then take (length prefix - (length struct_name + 1)) prefix
    else []

not_longer : (n : ℕ) → ltb n n ≡ false
not_longer n = ground arith

take_prefix :
    (c : ℕ) (prefix name : List ℕ)
    → length ((c ∷ prefix) ++ (b'/' ∷ name)) - (length name + 1) ≡ length (c ∷ prefix)
take_prefix c prefix name = omega (arith, length-append (c ∷ prefix) (b'/' ∷ name))

-- Ending a structure that was started gives back the prefix from before it, whatever the names are.
pub data_layout_struct_end-data_layout_struct_start :
    (prefix name : List ℕ)
    → data_layout_struct_end (data_layout_struct_start prefix name) name ≡ prefix
unfolding data_layout_struct_end
data_layout_struct_end-data_layout_struct_start [] name = rw (not_longer (length name)) refl
data_layout_struct_end-data_layout_struct_start (c ∷ prefix) name =
    rw
      (
        lt→ltb (length name) (length ((c ∷ prefix) ++ (b'/' ∷ name)))
            (omega (arith, length-append (c ∷ prefix) (b'/' ∷ name))),
        take_prefix c prefix name,
      )
      (take-append (c ∷ prefix) (b'/' ∷ name))

-- ===== src/DataLayout/Examples.antt =====
-- A layout of a number, a text and two texts is collected.
use vrs.Base.{◌≡◌, refl, arith, ℕ, List, [], ◌∷◌, true, false, get_elem?, some, none}
use vrs.DataLayout.{
  Piece, text, texts, Layout, init_layout, collect_variable_data_and_update_index, store_strings,
  fixed_offsets, collect_pieces, get_var_data, get_value,
}
use vrs.DataLayout.Mapping.{
  PieceSpec, is_match, find_match, map_pieces, all_required_match, IsMapped,
}
use vrs.DataLayout.Mapping.Found.{map_pieces-IsMapped}
use vrs.DataLayout.Elements.{store_string}
use vrs.DataLayout.Collected.{IsCollected, collect_variable_data_and_update_index-IsCollected}

abbrev pieces : List Piece
pieces = text (b'v' ∷ b'r' ∷ b's' ∷ []) ∷ texts ((b'a' ∷ []) ∷ [] ∷ []) ∷ text [] ∷ []

-- Fixed data of a piece of 4 bytes and one of 8.
abbrev layout : Layout
layout = init_layout (4 ∷ 8 ∷ []) pieces

offsets : fixed_offsets 0 (4 ∷ 8 ∷ []) ≡ 0 ∷ 4 ∷ []
offsets = refl

bytes_of_texts :
    store_strings ((b'a' ∷ []) ∷ [] ∷ []) (2 ∷ 0 ∷ 0 ∷ 0 ∷ []) 13
    ≡ 2 ∷ 0 ∷ 0 ∷ 0 ∷ 1 ∷ 0 ∷ 0 ∷ 0 ∷ b'a' ∷ 0 ∷ 0 ∷ 0 ∷ 0 ∷ []
unfolding store_strings store_string
bytes_of_texts = refl

collect_variable_data_and_update_index-IsCollected_example :
    (l' : Layout) × (collect_variable_data_and_update_index layout ≡ some l')
    × IsCollected layout l'
unfolding init_layout
collect_variable_data_and_update_index-IsCollected_example =
    collect_variable_data_and_update_index-IsCollected layout refl (omega arith)

abbrev piece : List ℕ → ℕ → PieceSpec
piece label offset = record {
  label = label;
  piece_type = 1;
  fixed_size = 4;
  element_type_name = b'i' ∷ [];
  required = true;
  offset = offset;
}

-- The record's layout has the pieces in another order, and not the last one.
abbrev searched : List PieceSpec
searched = piece (b'b' ∷ []) 0 ∷ piece (b'a' ∷ []) 4 ∷ piece (b'c' ∷ []) 8 ∷ []

abbrev given : List PieceSpec
given = piece (b'a' ∷ []) 0 ∷ piece (b'b' ∷ []) 4 ∷ []

not_all_found : (map_pieces searched given 0).1 ≡ false
unfolding map_pieces find_match is_match
not_all_found = refl

map_pieces-IsMapped_example :
    ((i : ℕ) (p : PieceSpec)
      → get_elem? searched i ≡ some p
      → (p' : PieceSpec) × (get_elem? (map_pieces searched given 0).0 i ≡ some p')
        × IsMapped given p p')
    × ((map_pieces searched given 0).1 ≡ all_required_match searched given)
map_pieces-IsMapped_example = map_pieces-IsMapped searched given 0

-- A new layout with only an empty text has no memory for it, so that the default is read.
abbrev empty_text : Layout
empty_text = init_layout [] (text [] ∷ [])

empty_text_lost :
    (l' : Layout) × (collect_variable_data_and_update_index empty_text ≡ some l')
    × (get_value (text []) (get_var_data l' 0) ≡ none)
unfolding init_layout collect_variable_data_and_update_index collect_pieces get_var_data get_value
empty_text_lost = (_, refl, refl)

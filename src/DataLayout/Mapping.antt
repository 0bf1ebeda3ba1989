-- ===== src/DataLayout/Mapping.antt =====
-- The mapping of the pieces of a layout onto those of a record's layout: `mapPieces` of
-- vrs/DataLayout.cpp.
use vrs.Base.{
  ℕ, suc, ◌+◌, ◌-◌, ◌^◌, ◌≤◌, ◌≡◌, refl, sym, ◌∙◌, ap, arith, Bool, true, false, ◌&&◌, ◌||◌, not,
  ◌==◌, min, inl, inr, ◌⊎◌, Bool-cases, if◌then◌else◌,
}
use vrs.Base.{
  Option, none, some, List, [], ◌∷◌, ◌++◌, length, get_elem?, take, drop, take-append-drop,
  some_injective, Option-cases,
}
use vrs.FileReader.Tags.{same_text}
pub mod Found

-- What the mapping sees of a piece; a label and a type's name are lists of their bytes.
pub record PieceSpec : Type 0 where
  pub label : List ℕ
  pub piece_type : ℕ
  pub fixed_size : ℕ
  pub element_type_name : List ℕ
  pub required : Bool
  pub offset : ℕ

-- `DataLayout::kNotFound`
abbrev pub not_found : ℕ
not_found = 2 ^ 64 - 1

unfoldable pub is_match : PieceSpec → PieceSpec → Bool
is_match p g =
    p.piece_type == g.piece_type
    && p.fixed_size == g.fixed_size
    && (same_text p.label g.label && same_text p.element_type_name g.element_type_name)

-- A linear search, the first of the pieces being number `index`: what is found, and the index after.
unfoldable pub find_match : PieceSpec → List PieceSpec → ℕ → Option (PieceSpec × ℕ)
find_match p [] index = none
find_match p (g ∷ rest) index =
    let more = find_match p rest (suc index) in if is_match p g then some (g, suc index) else more

abbrev pub or_search {ℓ} : {A : Type ℓ} → Option A → Option A → Option A
or_search none other = other
or_search (some a) other = some a

-- From where the last match was, then from the beginning.
abbrev pub find_piece : PieceSpec → List PieceSpec → ℕ → Option (PieceSpec × ℕ)
find_piece p given next =
    or_search (find_match p (drop next given) next)
      (find_match p (take (min next (length given)) given) 0)

pub record Mapped : Type 0 where
  pub piece : PieceSpec
  -- that the piece is found, or is not required
  pub fine : Bool
  pub next_match_start_index : ℕ

abbrev pub set_offset : PieceSpec → Option (PieceSpec × ℕ) → ℕ → Mapped
set_offset p none next = record {
  piece = record p { offset = not_found };
  fine = not p.required;
  next_match_start_index = next;
}
set_offset p (some (g, after)) next = record {
  piece = record p { offset = g.offset };
  fine = true;
  next_match_start_index = after;
}

-- The pieces with their offsets, and whether all the required ones were found.
unfoldable pub map_pieces : List PieceSpec → List PieceSpec → ℕ → List PieceSpec × Bool
map_pieces [] given next = ([], true)
map_pieces (p ∷ pieces) given next =
    let m = set_offset p (find_piece p given next) next in
    let (rest, fine) = map_pieces pieces given m.next_match_start_index in
    (m.piece ∷ rest, m.fine && fine)

-- `mapLayout`: the pieces of fixed size, those of variable size, and `hasAllRequiredPieces_`.
abbrev pub map_layout :
    List PieceSpec
    → List PieceSpec
    → List PieceSpec
    → List PieceSpec
    → List PieceSpec × (List PieceSpec × Bool)
map_layout fixed_size_pieces var_size_pieces target_fixed target_var =
    let (fixed, fixed_fine) = map_pieces fixed_size_pieces target_fixed 0 in
    let (var, var_fine) = map_pieces var_size_pieces target_var 0 in
    (fixed, (var, var_fine && fixed_fine))

-- Whether a piece of a list matches.
abbrev pub any_match : PieceSpec → List PieceSpec → Bool
any_match p [] = false
any_match p (g ∷ given) = is_match p g || any_match p given

-- Whether every piece that is required has a match.
abbrev pub all_required_match : List PieceSpec → List PieceSpec → Bool
all_required_match [] given = true
all_required_match (p ∷ pieces) given =
    (any_match p given || not p.required) && all_required_match pieces given

-- Some piece of the list matches, and stands at the offset.
abbrev pub MatchesAt : PieceSpec → ℕ → List PieceSpec → Type 0
MatchesAt p position given =
    (i : ℕ) × (g : PieceSpec) × (get_elem? given i ≡ some g)
    × (is_match p g ≡ true)
    × (position ≡ g.offset)

-- What a piece becomes.
abbrev pub IsMapped : List PieceSpec → PieceSpec → PieceSpec → Type 0
IsMapped given p p' =
    (p' ≡ record p { offset = p'.offset })
    × ((MatchesAt p p'.offset given) ⊎ ((any_match p given ≡ false) × (p'.offset ≡ not_found)))

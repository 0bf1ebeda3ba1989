-- ===== src/DataLayout.antt =====
-- The variable size pieces of a data layout and their index: vrs/DataLayout.cpp, vrs/DataLayout.h and
-- vrs/DataPieceString.h. The layout is not mapped onto another; the index stands behind the fixed data.
use vrs.Base.{
  ℕ, zero, suc, ◌+◌, ◌-◌, ◌*◌, ◌%◌, ◌^◌, ◌≤◌, ◌<◌, ◌≡◌, refl, arith, Bool, true, false, ◌&&◌, ◌||◌,
  not, ltb, leb, ◌==◌, min, if◌then◌else◌,
}
use vrs.Base.{
  Option, none, some, ◌>>=◌, List, [], ◌∷◌, ◌++◌, length, get_elem?, take, drop, replicate,
}
use vrs.Base.Sums.{sum_by}
use vrs.DataLayout.Elements.{store_uint32, store_string, load_uint32, load_string, element_size}
pub mod Elements
pub mod Strings
pub mod Collected
pub mod Mapping
pub mod Labels
pub mod Examples

-- A piece of variable size, with what is staged: `DataPieceString` and `DataPieceVector<string>`.
pub data Piece : Type 0 where
  text : List ℕ → Piece
  texts : List (List ℕ) → Piece

-- `getVariableSize`
abbrev pub get_variable_size : Piece → ℕ
get_variable_size (text s) = length s
get_variable_size (texts values) = 4 + sum_by element_size values

abbrev pub or_stay : Option (List ℕ) → List ℕ → (List ℕ → List ℕ) → List ℕ
or_stay none written more = written
or_stay (some written') written more = more written'

-- The loop of `DataPieceVector<string>::collectVariableData`: it ends where a store fails.
unfoldable pub store_strings : List (List ℕ) → List ℕ → ℕ → List ℕ
store_strings [] written size = written
store_strings (s ∷ values) written size =
    or_stay (store_string s written size) written (λ written'. store_strings values written' size)

-- `collectVariableData`: the bytes that are written.
abbrev pub collect_variable_data : Piece → ℕ → List ℕ
collect_variable_data (text s) size = take (min size (length s)) s
collect_variable_data (texts values) size =
    or_stay (store_uint32 (length values % 2 ^ 32) [] size) []
      (λ written. store_strings values written size)

-- `DataLayout::IndexEntry`
pub record IndexEntry : Type 0 where
  pub offset : ℕ
  pub entry_length : ℕ

-- `sizeof(IndexEntry)`
abbrev pub size_of_index_entry : ℕ
size_of_index_entry = 8

-- `fixedData_` is `fixed_data`, then the index.
pub record Layout : Type 0 where
  pub fixed_data_size_needed : ℕ
  pub fixed_data : List ℕ
  pub var_size_pieces : List Piece
  pub var_size_index : List IndexEntry
  pub var_data : List ℕ
  -- if `varData_` ever had memory: before that, `varData_.data()` is a null pointer
  pub var_data_allocated : Bool

-- The offsets of the pieces of fixed size.
abbrev pub fixed_offsets : ℕ → List ℕ → List ℕ
fixed_offsets offset [] = []
fixed_offsets offset (size ∷ sizes) = offset ∷ fixed_offsets (offset + size) sizes

-- `initLayout` of a new layout, from the sizes of its pieces of fixed size; it is filled with zeros.
unfoldable pub init_layout : List ℕ → List Piece → Layout
init_layout sizes pieces =
    let offset = sum_by (λ size. size) sizes in
    record {
      fixed_data_size_needed = offset + length pieces * size_of_index_entry;
      fixed_data = replicate offset 0;
      var_size_pieces = pieces;
      var_size_index = replicate (length pieces) (record { offset = 0; entry_length = 0 });
      var_data = [];
      var_data_allocated = false;
    }

-- `fixedData_.size()`
abbrev pub fixed_data_size : Layout → ℕ
fixed_data_size l = length l.fixed_data + length l.var_size_index * size_of_index_entry

abbrev pub get_var_data_size_needed : Layout → ℕ
get_var_data_size_needed l = sum_by get_variable_size l.var_size_pieces

-- `setOffset` and `setLength`
abbrev pub index_entry : ℕ → ℕ → IndexEntry
index_entry offset size = record { offset = offset % 2 ^ 32; entry_length = size % 2 ^ 32 }

abbrev pub in_front :
    IndexEntry → List ℕ → Option (List IndexEntry × List ℕ) → Option (List IndexEntry × List ℕ)
in_front e written rest = do (entries, bytes) ← rest; some (e ∷ entries, written ++ bytes)

-- The loop of `collectVariableDataAndUpdateIndex`, which aborts where a piece does not write what
-- it needs: the index and the bytes of the pieces from `offset` on.
unfoldable pub collect_pieces : ℕ → List Piece → Option (List IndexEntry × List ℕ)
collect_pieces offset [] = some ([], [])
collect_pieces offset (piece ∷ pieces) =
    let size = get_variable_size piece in
    let written = collect_variable_data piece size in
    let rest = collect_pieces (offset + size) pieces in
    if length written == size then in_front (index_entry offset size) written rest else none

-- The layout with the index and the data; `varData_` was resized for it.
abbrev pub with_var_data : List IndexEntry → List ℕ → Layout → Layout
with_var_data entries bytes l = record l {
  var_size_index = entries;
  var_data = bytes;
  var_data_allocated = l.var_data_allocated || ltb 0 (length bytes);
}

unfoldable pub collect_variable_data_and_update_index : Layout → Option Layout
collect_variable_data_and_update_index l = do
  (entries, bytes) ← collect_pieces 0 l.var_size_pieces
  some (with_var_data entries bytes l)

-- The loop of `isVarDataIndexValid`, from `current_offset` on: whether all is good.
unfoldable pub check_entries : ℕ → ℕ → List IndexEntry → Bool
check_entries max_offset current_offset [] = current_offset == max_offset
check_entries max_offset current_offset (e ∷ entries) =
    (e.offset == current_offset && leb (e.offset + e.entry_length) max_offset)
    && check_entries max_offset (current_offset + e.entry_length) entries

unfoldable pub is_var_data_index_valid : Layout → Bool
is_var_data_index_valid l =
    if not (l.fixed_data_size_needed == fixed_data_size l)
    then false
    else if ltb (fixed_data_size l) (length l.var_size_pieces * size_of_index_entry)
    then false
    else check_entries (length l.var_data) 0 l.var_size_index

abbrev pub last_entry_end : List IndexEntry → ℕ
last_entry_end [] = 0
last_entry_end (e ∷ []) = e.offset + e.entry_length
last_entry_end (e ∷ e' ∷ entries) = last_entry_end (e' ∷ entries)

unfoldable pub get_var_data_size_from_index : Layout → ℕ
get_var_data_size_from_index l =
    if fixed_data_size l == l.fixed_data_size_needed then last_entry_end l.var_size_index else 0

abbrev pub entry_data : IndexEntry → List ℕ → Option (List ℕ)
entry_data e var_data =
    if leb (e.offset + e.entry_length) (length var_data)
    then some (take e.entry_length (drop e.offset var_data))
    else none

abbrev pub read_entry : List IndexEntry → List ℕ → ℕ → Option (List ℕ)
read_entry entries var_data i = do e ← get_elem? entries i; entry_data e var_data

-- `getVarData<int8_t>`: `none` is a null pointer, which `varData_.data()` is where it has no memory.
unfoldable pub get_var_data : Layout → ℕ → Option (List ℕ)
get_var_data l i = if l.var_data_allocated then read_entry l.var_size_index l.var_data i else none

unfoldable pub load_strings : ℕ → List ℕ → ℕ → Option (List (List ℕ))
load_strings zero source read_size = some []
load_strings (suc count) source read_size = do
  (s, after) ← load_string source read_size
  values ← load_strings count source after
  some (s ∷ values)

-- What follows where the size of the vector was read. The product of the check is of a
-- `uint32_t`, which wraps before, and a `size_t`.
abbrev pub load_declared : ℕ → List ℕ → ℕ → Option (List (List ℕ))
load_declared vector_size source after =
    if leb ((vector_size + 1) % 2 ^ 32 * 4) (length source)
    then load_strings vector_size source after
    else none

-- `DataPieceVector<string>::get`: `none` where the default values are given.
unfoldable pub get_strings : List ℕ → Option (List (List ℕ))
get_strings source = do
  (vector_size, after) ← load_uint32 source 0
  load_declared vector_size source after

abbrev pub or_empty : Option (List ℕ) → List ℕ
or_empty none = []
or_empty (some bytes) = bytes

-- `get` of a piece, from its data: a piece with the value that is found, or `none` where that is
-- the default.
unfoldable pub get_value : Piece → Option (List ℕ) → Option Piece
get_value (text s) found = do bytes ← found; some (text bytes)
get_value (texts staged) found = do values ← get_strings (or_empty found); some (texts values)

-- ===== src/DataLayout/Collected.antt =====
-- `collectVariableDataAndUpdateIndex` of vrs/DataLayout.cpp: the index that it writes is valid, and
-- every piece is read back through it.
use mathlib.Core.List.{append_assoc}
use vrs.Base.{
  if◌then◌else◌, none, ℕ, zero, suc, ◌+◌, ◌*◌, ◌%◌, ◌^◌, ◌≤◌, ◌<◌, ◌≡◌, refl, ◌∙◌, ap, subst, arith,
  Bool, true, false, ◌&&◌, ◌||◌, Bool-cases, inl, inr, ltb, leb, ==_refl, le→leb, min,
}
use vrs.Base.{
  some, List, [], ◌∷◌, ◌++◌, length, get_elem?, take, length-append, take-append, some_injective,
}
use vrs.Base.Sums.{sum_by}
use vrs.DataLayout.{
  Piece, text, texts, IndexEntry, Layout, get_variable_size, collect_variable_data, index_entry,
  collect_pieces, collect_variable_data_and_update_index, check_entries, is_var_data_index_valid,
  last_entry_end, get_var_data_size_from_index, entry_data, read_entry, with_var_data, get_var_data,
  get_value, get_var_data_size_needed, size_of_index_entry,
}
use vrs.DataLayout.Strings.{
  not_less, drop-append, take_whole, length-collect_variable_data,
  get_strings-collect_variable_data,
}

-- The bytes of a piece.
abbrev bytes_of : Piece → List ℕ
bytes_of p = collect_variable_data p (get_variable_size p)

record AreCollected (front : List ℕ) (pieces : List Piece) (entries : List IndexEntry)
    (bytes : List ℕ) : Type 0 where
  sized : length bytes ≡ sum_by get_variable_size pieces
  counted : length entries ≡ length pieces
  checked : check_entries (length front + length bytes) (length front) entries ≡ true
  readable :
      (i : ℕ) (p : Piece)
      → get_elem? pieces i ≡ some p
      → read_entry entries (front ++ bytes) i ≡ some (bytes_of p)

entry_data_collected :
    (front written rest : List ℕ)
    → length front + length written < 2 ^ 32
    → entry_data (index_entry (length front) (length written)) (front ++ (written ++ rest))
      ≡ some written
entry_data_collected front written rest h =
    let at : length front % 2 ^ 32 ≡ length front = omega arith in
    let long : length written % 2 ^ 32 ≡ length written = omega arith in
    let fits : leb (length front + length written) (length (front ++ (written ++ rest))) ≡ true =
      le→leb (length front + length written) (length (front ++ (written ++ rest)))
        (omega (arith, length-append front (written ++ rest), length-append written rest)) in
    rw (at, long, fits, drop-append front (written ++ rest), take-append written rest) refl

check_first :
    (offset size more max_offset : ℕ) (entries : List IndexEntry)
    → offset + size + more ≡ max_offset
    → max_offset < 2 ^ 32
    → check_entries max_offset (offset + size) entries ≡ true
    → check_entries max_offset offset (index_entry offset size ∷ entries) ≡ true
unfolding check_entries
check_first offset size more max_offset entries e h rest =
    let at : offset % 2 ^ 32 ≡ offset = omega arith in
    let long : size % 2 ^ 32 ≡ size = omega arith in
    rw (at, long, ==_refl offset, le→leb (offset + size) max_offset (omega arith)) rest

after_and : (a b : Bool) → (a && b) ≡ true → b ≡ true
after_and true b h = h
after_and false true h = refl
after_and false false h = h

last_entry_end_checked :
    (max_offset offset : ℕ) (e : IndexEntry) (entries : List IndexEntry)
    → check_entries max_offset offset (e ∷ entries) ≡ true
    → last_entry_end (e ∷ entries) ≡ max_offset
unfolding check_entries
last_entry_end_checked max_offset offset e [] h = ground arith
last_entry_end_checked max_offset offset e (e' ∷ entries) h =
    last_entry_end_checked max_offset (offset + e.entry_length) e' entries
      (after_and _ (check_entries max_offset (offset + e.entry_length) (e' ∷ entries)) h)

last_entry_end-check_entries :
    (max_offset : ℕ) (entries : List IndexEntry)
    → check_entries max_offset 0 entries ≡ true
    → last_entry_end entries ≡ max_offset
unfolding check_entries
last_entry_end-check_entries max_offset [] h = ground arith
last_entry_end-check_entries max_offset (e ∷ entries) h =
    last_entry_end_checked max_offset 0 e entries h

read_collected :
    (front : List ℕ) (piece : Piece) (pieces : List Piece) (entries : List IndexEntry)
    (bytes : List ℕ)
    → length (bytes_of piece) ≡ get_variable_size piece
    → length front + get_variable_size piece < 2 ^ 32
    → AreCollected (front ++ bytes_of piece) pieces entries bytes
    → (i : ℕ) (p : Piece) → get_elem? (piece ∷ pieces) i ≡ some p
    → read_entry
        (index_entry (length front) (get_variable_size piece) ∷ entries)
        (front ++ (bytes_of piece ++ bytes))
        i
      ≡ some (bytes_of p)
read_collected front piece pieces entries bytes exact h c zero p e =
    let first : entry_data (index_entry (length front) (get_variable_size piece))
          (front ++ (bytes_of piece ++ bytes))
        ≡ some (bytes_of piece) =
      subst
        (λ (n : ℕ).
          entry_data (index_entry (length front) n) (front ++ (bytes_of piece ++ bytes))
          ≡ some (bytes_of piece))
        exact (entry_data_collected front (bytes_of piece) bytes (omega (arith, exact))) in
    first ∙ ap (λ (x : Piece). some (bytes_of x)) (some_injective e)
read_collected front piece pieces entries bytes exact h c (suc i) p e =
    rw (append_assoc front (bytes_of piece) bytes) at (c.readable i p e)

-- One more piece in front.
collect_one :
    (front : List ℕ) (piece : Piece) (pieces : List Piece) (entries : List IndexEntry)
    (bytes : List ℕ)
    → length front + sum_by get_variable_size (piece ∷ pieces) < 2 ^ 32
    → AreCollected (front ++ bytes_of piece) pieces entries bytes
    → AreCollected front
        (piece ∷ pieces)
        (index_entry (length front) (get_variable_size piece) ∷ entries)
        (bytes_of piece ++ bytes)
collect_one front piece pieces entries bytes h c =
    let exact : length (bytes_of piece) ≡ get_variable_size piece =
      length-collect_variable_data piece (omega arith) in
    let whole : length (bytes_of piece ++ bytes) ≡ get_variable_size piece + length bytes =
      omega (arith, length-append (bytes_of piece) bytes, exact) in
    let here : length (front ++ bytes_of piece) ≡ length front + get_variable_size piece =
      omega (arith, length-append front (bytes_of piece), exact) in
    let end : length (front ++ bytes_of piece) + length bytes
        ≡ length front + length (bytes_of piece ++ bytes) =
      omega (arith, here, whole) in
    record {
      sized = omega (arith, whole, c.sized);
      counted = omega (arith, c.counted);
      checked =
          check_first (length front) (get_variable_size piece) (length bytes)
            (length front + length (bytes_of piece ++ bytes)) entries (omega (arith, whole))
            (omega (arith, whole, c.sized))
            (subst
              (λ (n : ℕ). check_entries n (length front + get_variable_size piece) entries ≡ true)
              end
              (subst
                (λ (n : ℕ).
                  check_entries (length (front ++ bytes_of piece) + length bytes) n entries ≡ true)
                here c.checked));
      readable = read_collected front piece pieces entries bytes exact (omega arith) c;
    }

found_one :
    (front : List ℕ) (piece : Piece) (pieces : List Piece) (entries : List IndexEntry)
    (bytes : List ℕ)
    → length (bytes_of piece) ≡ get_variable_size piece
    → length (front ++ bytes_of piece) ≡ length front + get_variable_size piece
    → collect_pieces (length (front ++ bytes_of piece)) pieces ≡ some (entries, bytes)
    → collect_pieces (length front) (piece ∷ pieces)
      ≡ some
          (index_entry (length front) (get_variable_size piece) ∷ entries, bytes_of piece ++ bytes)
unfolding collect_pieces
found_one front piece pieces entries bytes exact here found =
    let next : collect_pieces (length front + get_variable_size piece) pieces
        ≡ some (entries, bytes) =
      rw here at found in
    rw (exact, ==_refl (get_variable_size piece), next) refl

empty_checked : (offset : ℕ) → check_entries (offset + 0) offset [] ≡ true
unfolding check_entries
empty_checked offset = ground arith

collect_pieces_total :
    (pieces : List Piece) (front : List ℕ)
    → length front + sum_by get_variable_size pieces < 2 ^ 32
    → (entries : List IndexEntry) × (bytes : List ℕ) × (collect_pieces (length front) pieces
        ≡ some (entries, bytes))
      × AreCollected front pieces entries bytes
unfolding collect_pieces
collect_pieces_total [] front h = (
  [],
  [],
  refl,
  record {
    sized = refl;
    counted = refl;
    checked = empty_checked (length front);
    readable = λ i p e. absurd cc;
  },
)
collect_pieces_total (piece ∷ pieces) front h =
    let exact : length (bytes_of piece) ≡ get_variable_size piece =
      length-collect_variable_data piece (omega arith) in
    let here : length (front ++ bytes_of piece) ≡ length front + get_variable_size piece =
      omega (arith, length-append front (bytes_of piece), exact) in
    let (entries, bytes, found, c) =
      collect_pieces_total pieces (front ++ bytes_of piece) (omega (arith, here)) in
    (
      index_entry (length front) (get_variable_size piece) ∷ entries,
      bytes_of piece ++ bytes,
      found_one front piece pieces entries bytes exact here found,
      collect_one front piece pieces entries bytes h c,
    )

-- What `collect_variable_data_and_update_index` makes of a layout.
pub record IsCollected (l l' : Layout) : Type 0 where
  pub valid : is_var_data_index_valid l' ≡ true
  pub indexed : get_var_data_size_from_index l' ≡ length l'.var_data
  pub needed : length l'.var_data ≡ get_var_data_size_needed l
  pub allocated :
      l'.var_data_allocated ≡ (l.var_data_allocated || ltb 0 (get_var_data_size_needed l))
  pub read_back :
      (i : ℕ) (p : Piece)
      → get_elem? l.var_size_pieces i ≡ some p
      → get_value p (get_var_data l' i) ≡ (if l'.var_data_allocated then some p else none)

take_all : (s : List ℕ) → take (min (length s) (length s)) s ≡ s
take_all s = let same : min (length s) (length s) ≡ length s = omega arith in rw same (take_whole s)

get_value_found :
    (p : Piece) → get_variable_size p < 2 ^ 32 → get_value p (some (bytes_of p)) ≡ some p
unfolding get_value
get_value_found (text s) h = ap (λ bytes. some (text bytes)) (take_all s)
get_value_found (texts values) h = rw (get_strings-collect_variable_data values h) refl

get_value_null : (p : Piece) → get_variable_size p ≡ 0 → get_value p none ≡ none
unfolding get_value
get_value_null (text s) e = refl
get_value_null (texts values) e = absurd (omega arith)

piece_fits :
    (pieces : List Piece) (i : ℕ) (p : Piece)
    → get_elem? pieces i ≡ some p
    → get_variable_size p ≤ sum_by get_variable_size pieces
piece_fits [] i p e = absurd cc
piece_fits (x ∷ pieces) zero p e =
    let same : get_variable_size x ≡ get_variable_size p =
      ap get_variable_size (some_injective e) in
    omega arith
piece_fits (x ∷ pieces) (suc i) p e = omega (arith, piece_fits pieces i p e)

add_zero : (n : ℕ) → 0 + n ≡ n
add_zero n = omega arith

layout-IsCollected :
    (l : Layout) (entries : List IndexEntry) (bytes : List ℕ)
    → l.fixed_data_size_needed
      ≡ length l.fixed_data + length l.var_size_pieces * size_of_index_entry
    → get_var_data_size_needed l < 2 ^ 32
    → AreCollected [] l.var_size_pieces entries bytes
    → IsCollected l (with_var_data entries bytes l)
unfolding is_var_data_index_valid get_var_data_size_from_index get_var_data
layout-IsCollected l entries bytes e h c =
    let same : l.fixed_data_size_needed
        ≡ length l.fixed_data + length entries * size_of_index_entry =
      omega (arith, e, c.counted) in
    let good : check_entries (length bytes) 0 entries ≡ true =
      subst (λ (n : ℕ). check_entries n 0 entries ≡ true) (add_zero (length bytes)) c.checked in
    let roomy : ltb (length l.fixed_data + length entries * size_of_index_entry)
          (length l.var_size_pieces * size_of_index_entry)
        ≡ false =
      not_less (length l.fixed_data + length entries * size_of_index_entry)
        (length l.var_size_pieces * size_of_index_entry) (omega (arith, c.counted)) in
    record {
      valid =
          rw (same, ==_refl (length l.fixed_data + length entries * size_of_index_entry), roomy)
            good;
      indexed =
          rw (same, ==_refl (length l.fixed_data + length entries * size_of_index_entry))
            (last_entry_end-check_entries (length bytes) entries good);
      needed = c.sized;
      allocated = ap (λ (n : ℕ). l.var_data_allocated || ltb 0 n) c.sized;
      read_back = λ i p found.
          (let fits = piece_fits l.var_size_pieces i p found in
            elim (Bool-cases (l.var_data_allocated || ltb 0 (length bytes))) [
              | inl some_memory ↦ rw some_memory (
                  ap (get_value p) (c.readable i p found) ∙ get_value_found p (omega (arith, fits)))
              | inr no_memory ↦
                  let empty : length bytes ≡ 0 = ground (arith, no_memory) in
                  rw no_memory (get_value_null p (omega (arith, fits, c.sized, empty)))
            ]);
    }

-- Take a layout whose fixed data is as large as its initialisation makes it, and whose staged pieces
-- need less than 4 GB in all. Then collecting its variable data does not abort. The index it writes
-- is valid, gives the size of the data, and that size is what the pieces said they need. Where the
-- pieces need a byte, or the layout held a byte before, every piece, read through the index, has the
-- value that was staged, and not the default; else, which is only where all the staged values are
-- empty texts, every piece reads as its default.
pub collect_variable_data_and_update_index-IsCollected :
    (l : Layout)
    → l.fixed_data_size_needed
      ≡ length l.fixed_data + length l.var_size_pieces * size_of_index_entry
    → get_var_data_size_needed l < 2 ^ 32
    → (l' : Layout) × (collect_variable_data_and_update_index l ≡ some l') × IsCollected l l'
unfolding collect_variable_data_and_update_index
collect_variable_data_and_update_index-IsCollected l e h =
    let (entries, bytes, found, c) = collect_pieces_total l.var_size_pieces [] (omega arith) in
    let done : collect_variable_data_and_update_index l ≡ some (with_var_data entries bytes l) =
      rw found refl in
    (with_var_data entries bytes l, done, layout-IsCollected l entries bytes e h c)

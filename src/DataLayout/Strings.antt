-- ===== src/DataLayout/Strings.antt =====
-- Texts in the buffer of a data layout: what is stored is loaded again, and fits what is needed.
use mathlib.Core.List.{append-nil, append_assoc}
use vrs.Base.{
  ℕ, ◌+◌, ◌*◌, ◌%◌, ◌^◌, ◌≤◌, ◌<◌, ◌≡◌, refl, sym, ◌∙◌, ap, arith, true, false, ltb, leb, le→leb,
}
use vrs.Base.{
  some, List, [], ◌∷◌, ◌++◌, length, take, drop, length-append, length-take, take-append, min,
}
use vrs.Base.Sums.{sum_by}
use vrs.DataLayout.Elements.{
  read_unaligned, write_unaligned, element_size, store_uint32, store_string, load_uint32,
  load_bytes, load_string,
}
use vrs.DataLayout.{
  Piece, text, texts, get_variable_size, store_strings, collect_variable_data, load_strings,
  get_strings,
}

-- The bytes of a text and of texts, one after the other.
abbrev pub encode : List ℕ → List ℕ
encode s = write_unaligned (length s) ++ s

abbrev pub encode_all : List (List ℕ) → List ℕ
encode_all [] = []
encode_all (s ∷ values) = encode s ++ encode_all values

pub drop-append : (xs ys : List ℕ) → drop (length xs) (xs ++ ys) ≡ ys
drop-append [] ys = refl
drop-append (x ∷ xs) ys = drop-append xs ys

pub take_whole : (s : List ℕ) → take (length s) s ≡ s
take_whole [] = refl
take_whole (x ∷ s) = ap (λ rest. x ∷ rest) (take_whole s)

read_unaligned-write_unaligned :
    (n : ℕ) (rest : List ℕ) → n < 2 ^ 32 → read_unaligned (write_unaligned n ++ rest) ≡ n
read_unaligned-write_unaligned n rest h = omega arith

length-encode_all :
    (values : List (List ℕ)) → length (encode_all values) ≡ sum_by element_size values
length-encode_all [] = omega arith
length-encode_all (s ∷ values) =
    omega (arith, length-encode_all values, length-append s (encode_all values))

pub not_less : (a b : ℕ) → b ≤ a → ltb a b ≡ false
not_less a b h = ground arith

store_string_fits :
    (s written : List ℕ) (size : ℕ)
    → length s < 2 ^ 32
    → length written + element_size s ≤ size
    → store_string s written size ≡ some (written ++ encode s)
unfolding store_string
store_string_fits s written size h fits =
    let same : length s % 2 ^ 32 ≡ length s = omega arith in
    rw (same, not_less size (length written + 4 + length s) (omega arith), take_whole s) refl

store_strings_fits :
    (values : List (List ℕ)) (written : List ℕ) (size : ℕ)
    → size < 2 ^ 32
    → length written + sum_by element_size values ≤ size
    → store_strings values written size ≡ written ++ encode_all values
unfolding store_strings
store_strings_fits [] written size h fits = sym (append-nil written)
store_strings_fits (s ∷ values) written size h fits =
    rw (store_string_fits s written size (omega arith) (omega arith)) (
      store_strings_fits values (written ++ encode s) size h
        (omega (arith, length-append written (encode s)))
      ∙ append_assoc written (encode s) (encode_all values))

load_uint32_stored :
    (n : ℕ) (front rest : List ℕ)
    → n < 2 ^ 32
    → load_uint32 (front ++ (write_unaligned n ++ rest)) (length front) ≡ some (n, length front + 4)
unfolding load_uint32
load_uint32_stored n front rest h =
    rw
      (
        not_less (length (front ++ (write_unaligned n ++ rest))) (length front + 4)
            (omega (arith, length-append front (write_unaligned n ++ rest))),
        drop-append front (write_unaligned n ++ rest),
        read_unaligned-write_unaligned n rest h,
      )
      refl

load_bytes_stored :
    (front s rest : List ℕ)
    → load_bytes (length s) (front ++ (s ++ rest)) (length front)
      ≡ some (s, length front + length s)
load_bytes_stored front s rest =
    rw
      (
        not_less (length (front ++ (s ++ rest))) (length front + length s)
            (omega (arith, length-append front (s ++ rest), length-append s rest)),
        drop-append front (s ++ rest),
        take-append s rest,
      )
      refl

load_string_stored :
    (s front rest : List ℕ)
    → length s < 2 ^ 32
    → load_string (front ++ (encode s ++ rest)) (length front)
      ≡ some (s, length (front ++ encode s))
unfolding load_string
load_string_stored s front rest h =
    let split : (front ++ write_unaligned (length s)) ++ (s ++ rest) ≡ front ++ (encode s ++ rest) =
      append_assoc front (write_unaligned (length s)) (s ++ rest) in
    let here : length (front ++ write_unaligned (length s)) ≡ length front + 4 =
      length-append front (write_unaligned (length s)) in
    let loaded : load_bytes (length s) (front ++ (encode s ++ rest)) (length front + 4)
        ≡ some (s, length front + 4 + length s) =
      rw (split, here) at (load_bytes_stored (front ++ write_unaligned (length s)) s rest) in
    let end : length (front ++ encode s) ≡ length front + 4 + length s =
      omega (arith, length-append front (encode s)) in
    rw (load_uint32_stored (length s) front (s ++ rest) h, loaded, end) refl

load_strings_stored :
    (values : List (List ℕ)) (front : List ℕ)
    → sum_by element_size values < 2 ^ 32
    → load_strings (length values) (front ++ encode_all values) (length front) ≡ some values
unfolding load_strings
load_strings_stored [] front h = refl
load_strings_stored (s ∷ values) front h =
    let rest : load_strings (length values) (front ++ (encode s ++ encode_all values))
          (length (front ++ encode s))
        ≡ some values =
      rw (append_assoc front (encode s) (encode_all values)) at
        (load_strings_stored values (front ++ encode s) (omega arith)) in
    rw (load_string_stored s front (encode_all values) (omega arith), rest) refl

few_strings : (values : List (List ℕ)) → 4 * length values ≤ sum_by element_size values
few_strings [] = omega arith
few_strings (s ∷ values) = omega (arith, few_strings values)

store_uint32_fits : (n size : ℕ) → 4 ≤ size → store_uint32 n [] size ≡ some (write_unaligned n)
unfolding store_uint32
store_uint32_fits n size h = rw (not_less size 4 h) refl

collect_texts :
    (values : List (List ℕ))
    → get_variable_size (texts values) < 2 ^ 32
    → collect_variable_data (texts values) (get_variable_size (texts values))
      ≡ write_unaligned (length values) ++ encode_all values
collect_texts values h =
    let same : length values % 2 ^ 32 ≡ length values = omega (arith, few_strings values) in
    rw (same, store_uint32_fits (length values) (4 + sum_by element_size values) (omega arith))
      (store_strings_fits values (write_unaligned (length values)) (4 + sum_by element_size values)
        h (omega arith))

-- A piece that needs less than 4 GB writes just what it needs.
pub length-collect_variable_data :
    (piece : Piece)
    → get_variable_size piece < 2 ^ 32
    → length (collect_variable_data piece (get_variable_size piece)) ≡ get_variable_size piece
length-collect_variable_data (text s) h = omega (arith, length-take (min (length s) (length s)) s)
length-collect_variable_data (texts values) h =
    ap length (collect_texts values h) ∙ omega (arith, length-encode_all values)

enough_left :
    (n size : ℕ) → 4 + 4 * n ≤ size → size < 2 ^ 32 → leb ((n + 1) % 2 ^ 32 * 4) size ≡ true
enough_left n size h fits = le→leb ((n + 1) % 2 ^ 32 * 4) size (omega arith)

pub get_strings-collect_variable_data :
    (values : List (List ℕ))
    → get_variable_size (texts values) < 2 ^ 32
    → get_strings (collect_variable_data (texts values) (get_variable_size (texts values)))
      ≡ some values
unfolding get_strings
get_strings-collect_variable_data values h =
    let front = write_unaligned (length values) in
    let loaded : load_uint32 (front ++ encode_all values) 0 ≡ some (length values, 4) =
      load_uint32_stored (length values) [] (encode_all values)
        (omega (arith, few_strings values)) in
    let enough : leb ((length values + 1) % 2 ^ 32 * 4) (length (front ++ encode_all values))
        ≡ true =
      enough_left (length values) (length (front ++ encode_all values))
        (omega (arith, few_strings values, length-encode_all values))
        (omega (arith, length-encode_all values)) in
    rw (collect_texts values h, loaded, enough) (load_strings_stored values front (omega arith))

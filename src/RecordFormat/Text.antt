-- ===== src/RecordFormat/Text.antt =====
-- The text forms of vrs/RecordFormat.cpp: `escapeString` and `unescapeString`, by which a codec's
-- name goes through the description of a record format. A text is the list of its bytes.
use vrs.Base.{
  ℕ, zero, suc, ◌+◌, ◌-◌, ◌*◌, ◌/◌, ◌%◌, ◌≤◌, ◌<◌, Bool, true, false, ◌&&◌, ◌||◌, ltb, leb, ◌==◌,
  if◌then◌else◌,
}
use vrs.Base.{
  ◌≡◌, refl, sym, ◌∙◌, ap, arith, inl, inr, List, [], ◌∷◌, ◌++◌, length, All, Bool-cases,
}
pub mod TagName
pub mod Examples

-- `lowXdigit`: of the low four bits
abbrev pub low_xdigit : ℕ → ℕ
low_xdigit i = let c = i % 16 in if ltb c 10 then b'0' + c else b'A' + c - 10

-- `isxdigit`
abbrev pub is_xdigit : ℕ → Bool
is_xdigit c = (leb b'0' c && leb c b'9') || (leb b'A' c && leb c b'F') || (leb b'a' c && leb c b'f')

-- `xdigitToChar`
abbrev pub xdigit_to_char : ℕ → ℕ
xdigit_to_char c = if leb c b'9' then c - b'0' else 10 + c - (if leb c b'Z' then b'A' else b'a')

-- `strchr(kEscapeChars, c) != nullptr`
abbrev pub is_escape_char : ℕ → Bool
is_escape_char c = c == b'+' || c == b'/' || c == 92 || c == b'%' || c == b' ' || c == 34 || c == 39

-- The test of `escapeString`: a byte from 128 on is a negative char, and escaped as well.
abbrev pub needs_escape : ℕ → Bool
needs_escape c = ltb c 32 || leb 127 c || is_escape_char c

unfoldable pub escape_string : List ℕ → List ℕ
escape_string [] = []
escape_string (c ∷ s) =
    let rest = escape_string s in
    if needs_escape c then b'%' ∷ low_xdigit (c / 16) ∷ low_xdigit c ∷ rest else c ∷ rest

-- The character that is added where none is decoded; the loop ends at a zero byte.
abbrev keep_char : ℕ → List ℕ → List ℕ
keep_char c rest = if c == 0 then [] else c ∷ rest

-- The loop of `unescapeString`: `left` is how much of `length` is left, and behind the text stands
-- a zero byte.
abbrev unescape : ℕ → List ℕ → List ℕ
unescape zero s = []
unescape (suc left) [] = []
unescape (suc left) (c ∷ []) = keep_char c (unescape left [])
unescape (suc left) (c ∷ d ∷ []) = keep_char c (unescape left (d ∷ []))
unescape (suc left) (c ∷ d ∷ e ∷ s) =
    let plain = keep_char c (unescape left (d ∷ e ∷ s)) in
    let decoded = (xdigit_to_char d * 16 + xdigit_to_char e) % 256 ∷ unescape (left - 2) s in
    if c == b'%' && (ltb 1 left && (is_xdigit d && is_xdigit e)) then decoded else plain

unfoldable pub unescape_string : List ℕ → ℕ → List ℕ
unescape_string s length = unescape length s

low_xdigit_read :
    (i : ℕ) → (is_xdigit (low_xdigit i) ≡ true) × (xdigit_to_char (low_xdigit i) ≡ i % 16)
low_xdigit_read i = ground arith

unescape-keep :
    (left c : ℕ) (s : List ℕ)
    → needs_escape c ≡ false
    → unescape (suc left) (c ∷ s) ≡ c ∷ unescape left s
unescape-keep left c [] h = let text : (c == 0) ≡ false = ground arith in rw text refl
unescape-keep left c (d ∷ []) h = let text : (c == 0) ≡ false = ground arith in rw text refl
unescape-keep left c (d ∷ e ∷ s) h =
    let text : (c == 0) ≡ false = ground arith in
    let plain : (c == b'%') ≡ false = ground arith in rw (text, plain) refl

unescape-decode :
    (left c : ℕ) (s : List ℕ)
    → c < 256
    → 1 < left
    → unescape (suc left) (b'%' ∷ low_xdigit (c / 16) ∷ low_xdigit c ∷ s)
      ≡ c ∷ unescape (left - 2) s
unescape-decode left c s byte enough =
    let high = low_xdigit_read (c / 16) in
    let low = low_xdigit_read c in
    let both : (c / 16 % 16 * 16 + c % 16) % 256 ≡ c = omega arith in
    let fits : ltb 1 left ≡ true = ground arith in
    rw (high.0, low.0, high.1, low.1, both, fits) refl

unescape-escape_string :
    (left : ℕ) (s : List ℕ)
    → All (λ (c : ℕ). c < 256) s
    → length (escape_string s) ≤ left
    → unescape left (escape_string s) ≡ s
unfolding escape_string
unescape-escape_string zero [] h le = refl
unescape-escape_string (suc left) [] h le = refl
unescape-escape_string zero (c ∷ s) h le = elim (Bool-cases (needs_escape c)) [
  | inl e ↦ absurd (omega (arith, rw e at le))
  | inr e ↦ absurd (omega (arith, rw e at le))
]
unescape-escape_string (suc left) (c ∷ s) h le = elim (Bool-cases (needs_escape c)) [
  | inl e ↦
      let fits : suc (suc (length (escape_string s))) ≤ left = omega (arith, rw e at le) in
      rw (e, unescape-decode left c (escape_string s) h.0 (omega arith))
        (ap (◌∷◌ c) (unescape-escape_string (left - 2) s h.1 (omega arith)))
  | inr e ↦
      let fits : length (escape_string s) ≤ left = omega (arith, rw e at le) in
      rw (e, unescape-keep left c (escape_string s) e)
        (ap (◌∷◌ c) (unescape-escape_string left s h.1 fits))
]

-- A text of bytes, zero bytes among them or not, reads back as itself from its escaped form, when
-- the length given is at least that of the escaped form.
pub unescape_string-escape_string :
    (s : List ℕ) (left : ℕ)
    → All (λ (c : ℕ). c < 256) s
    → length (escape_string s) ≤ left
    → unescape_string (escape_string s) left ≡ s
unfolding unescape_string
unescape_string-escape_string s left h le = unescape-escape_string left s h le

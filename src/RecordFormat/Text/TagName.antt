-- ===== src/RecordFormat/Text/TagName.antt =====
-- The names of the tags that hold record formats: `getRecordFormatTagName` and
-- `parseRecordFormatTagName` of vrs/RecordFormat.cpp, with `readUInt32` of vrs/helpers/Strings.cpp
-- and the type names of vrs/Record.cpp.
use mathlib.Core.List.{append-nil}
use vrs.Base.{ℕ, ◌^◌, ◌<◌, Bool, true, false, ◌&&◌, ◌||◌, ltb, leb, ◌==◌, if◌then◌else◌, ◌>>=◌}
use vrs.Base.{◌≡◌, refl, sym, ◌∙◌, ap, arith, Option, none, some, List, [], ◌∷◌, ◌++◌}
use vrs.Base.Decimal.{to_string, is_digit, scan_number, scan_number-to_string, to_string_leads}
use vrs.Record.{RecordType, undefined, state, configuration, data_type, tags}

-- `Record::typeName`
unfoldable pub type_name : RecordType → List ℕ
type_name undefined = b'U' ∷ b'n' ∷ b'd' ∷ b'e' ∷ b'f' ∷ b'i' ∷ b'n' ∷ b'e' ∷ b'd' ∷ []
type_name state = b'S' ∷ b't' ∷ b'a' ∷ b't' ∷ b'e' ∷ []
type_name configuration =
    b'C' ∷ b'o' ∷ b'n' ∷ b'f' ∷ b'i' ∷ b'g' ∷ b'u' ∷ b'r' ∷ b'a' ∷ b't' ∷ b'i' ∷ b'o' ∷ b'n' ∷ []
type_name data_type = b'D' ∷ b'a' ∷ b't' ∷ b'a' ∷ []
type_name tags = b'T' ∷ b'a' ∷ b'g' ∷ b's' ∷ []

-- `kRecordFormatTagPrefix`
abbrev pub record_format_tag_prefix : List ℕ
record_format_tag_prefix = b'R' ∷ b'F' ∷ b':' ∷ []

-- `kFieldSeparator`
abbrev pub field_separator : List ℕ
field_separator = b':' ∷ []

-- `getRecordFormatTagName`
unfoldable pub get_record_format_tag_name : RecordType → ℕ → List ℕ
get_record_format_tag_name record_type format_version =
    record_format_tag_prefix
    ++ (type_name record_type ++ (field_separator ++ to_string format_version))

-- `strncmp(str, prefix, length) == 0`, and what stands behind the prefix
unfoldable pub strip_prefix : List ℕ → List ℕ → Option (List ℕ)
strip_prefix [] s = some s
strip_prefix (c ∷ prefix) [] = none
strip_prefix (c ∷ prefix) (d ∷ s) =
    let rest = strip_prefix prefix s in if c == d then rest else none

-- What `strtoll` skips: `isspace`
abbrev skip_spaces : List ℕ → List ℕ
skip_spaces [] = []
skip_spaces (c ∷ s) =
    let rest = skip_spaces s in if c == b' ' || (leb 9 c && leb c 13) then rest else c ∷ s

abbrev starts_number : List ℕ → Bool
starts_number [] = false
starts_number (c ∷ s) = is_digit c

-- The digits behind a sign; without a digit `strtoll` reads nothing. A value too large for a
-- long long int is one too large for a uint32_t as well.
abbrev read_digits : Bool → List ℕ → Option (ℕ × List ℕ)
read_digits negative s =
    let (value, rest) = scan_number 0 s in
    if starts_number s
    then (if negative
        then (if value == 0 then some (0, rest) else none)
        else if ltb value (2 ^ 32)
        then some (value, rest)
        else none)
    else none

abbrev read_signed : List ℕ → Option (ℕ × List ℕ)
read_signed [] = none
read_signed (c ∷ s) =
    if c == b'-'
    then read_digits true s
    else if c == b'+'
    then read_digits false s
    else read_digits false (c ∷ s)

-- `readUInt32`: the value and the text behind it.
unfoldable pub read_uint32 : List ℕ → Option (ℕ × List ℕ)
read_uint32 s = read_signed (skip_spaces s)

abbrev or_else :
    Option (RecordType × List ℕ) → Option (RecordType × List ℕ) → Option (RecordType × List ℕ)
or_else none other = other
or_else (some r) other = some r

abbrev try_type : RecordType → List ℕ → Option (RecordType × List ℕ)
try_type t s = strip_prefix (type_name t) s >>= λ rest. some (t, rest)

-- `getRecordType`: the type, and the text behind its name.
unfoldable pub get_record_type : List ℕ → Option (RecordType × List ℕ)
unfolding type_name strip_prefix
get_record_type s =
    or_else (try_type data_type s) (or_else (try_type configuration s) (try_type state s))

abbrev at_end : ℕ × List ℕ → Option ℕ
at_end (version, []) = some version
at_end (version, c ∷ s) = if c == 0 then some version else none

-- `parseRecordFormatTagName`: the type and the version, where it succeeds.
unfoldable pub parse_record_format_tag_name : List ℕ → Option (RecordType × ℕ)
parse_record_format_tag_name name = do
  typed ← strip_prefix record_format_tag_prefix name
  found ← get_record_type typed
  numbered ← strip_prefix field_separator found.1
  read ← read_uint32 numbered
  version ← at_end read
  some (found.0, version)

read_uint32-to_string : (n : ℕ) → n < 2 ^ 32 → read_uint32 (to_string n) ≡ some (n, [])
unfolding read_uint32
read_uint32-to_string n h =
    let (c, s, e, d) = to_string_leads n in
    let whole : scan_number 0 (c ∷ s) ≡ (n, []) =
      ap (scan_number 0) (sym e) ∙ (rw append-nil at (scan_number-to_string n [] tt)) in
    let no_space : c == b' ' || (leb 9 c && leb c 13) ≡ false = ground arith in
    let no_minus : (c == b'-') ≡ false = ground arith in
    let no_plus : (c == b'+') ≡ false = ground arith in
    let fits : ltb n (2 ^ 32) ≡ true = ground arith in
    rw (e, no_space, no_minus, no_plus, d, whole, fits) refl

-- The types whose tags are looked for.
abbrev pub has_formats : RecordType → Bool
has_formats undefined = false
has_formats tags = false
has_formats t = true

-- The name of the tag for a type and a version that fits a uint32_t reads back as that type and
-- version for data, configuration and state records, and is refused for the two other types.
pub parse_record_format_tag_name-get_record_format_tag_name :
    (t : RecordType) (version : ℕ)
    → version < 2 ^ 32
    → parse_record_format_tag_name (get_record_format_tag_name t version)
      ≡ (if has_formats t then some (t, version) else none)
unfolding parse_record_format_tag_name get_record_format_tag_name get_record_type type_name
    strip_prefix
parse_record_format_tag_name-get_record_format_tag_name undefined version h = refl
parse_record_format_tag_name-get_record_format_tag_name tags version h = refl
parse_record_format_tag_name-get_record_format_tag_name state version h =
    rw (read_uint32-to_string version h) refl
parse_record_format_tag_name-get_record_format_tag_name configuration version h =
    rw (read_uint32-to_string version h) refl
parse_record_format_tag_name-get_record_format_tag_name data_type version h =
    rw (read_uint32-to_string version h) refl

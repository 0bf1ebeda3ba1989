-- ===== src/StreamId.antt =====
-- vrs/StreamId.h and vrs/StreamId.cpp: the identifier of a stream, its order, and its numeric name.
-- A type id is a uint16_t, an instance id a uint16_t; a text is the list of its bytes.
pub mod Order
pub mod Name
pub mod Examples
use vrs.Base.{ℕ, ◌%◌, ◌^◌, ◌<◌, Bool, true, false, ◌&&◌, ◌||◌, not, List, [], ◌∷◌, ◌++◌}
use vrs.Base.{ltb, ◌==◌, if◌then◌else◌}
use vrs.Base.Decimal.{to_string, scan_digits, is_digit}

pub record StreamId : Type 0 where
  pub type_id : ℕ
  pub instance_id : ℕ

-- `RecordableTypeId::Undefined`
abbrev pub undefined_type_id : ℕ
undefined_type_id = 65535

abbrev pub undefined : StreamId
undefined = record { type_id = undefined_type_id; instance_id = 0 }

-- Both ids fit a uint16_t.
pub record IsUint16 (id : StreamId) : Type 0 where
  pub type_fits : id.type_id < 65536
  pub instance_fits : id.instance_id < 65536

abbrev pub same : StreamId → StreamId → Bool
same a b = a.type_id == b.type_id && a.instance_id == b.instance_id

abbrev pub differs : StreamId → StreamId → Bool
differs a b = not (same a b)

abbrev pub less : StreamId → StreamId → Bool
less a b = ltb a.type_id b.type_id || (a.type_id == b.type_id && ltb a.instance_id b.instance_id)

abbrev pub is_valid : StreamId → Bool
is_valid id = not (id.type_id == undefined_type_id)

unfoldable pub get_numeric_name : StreamId → List ℕ
unfolding to_string
get_numeric_name id = to_string id.type_id ++ (b'-' ∷ to_string id.instance_id)

-- `*s` is a digit, where the text ends with a zero byte.
abbrev pub at_digit : List ℕ → Bool
at_digit [] = false
at_digit (c ∷ s) = is_digit c

-- `*s == 0`: the end of the text, or a zero byte in it.
abbrev pub at_end : List ℕ → Bool
at_end [] = true
at_end (c ∷ s) = c == 0

-- The part from the instance id on: `index` is a uint16_t and wraps at each digit.
abbrev instance_part : ℕ → List ℕ → StreamId
instance_part type_id s =
    if at_digit s
    then (let (index, rest) = scan_digits 65536 0 s in
        if at_end rest
        then record { type_id = type_id % 65536; instance_id = index }
        else undefined)
    else undefined

-- `if (*s++ == '-')`
abbrev after_type : ℕ → List ℕ → StreamId
after_type type_id [] = undefined
after_type type_id (c ∷ s) = if c == b'-' then instance_part type_id s else undefined

-- `recordableTypeId` is an int, taken modulo 2 ^ 32. Past 2 ^ 31 the source has no meaning.
unfoldable pub from_numeric_name : List ℕ → StreamId
unfolding scan_digits
from_numeric_name s =
    if at_digit s
    then (let (type_id, rest) = scan_digits (2 ^ 32) 0 s in after_type type_id rest)
    else undefined

-- ===== src/StreamId/Name.antt =====
-- `getNumericName` and `fromNumericName` of vrs/StreamId.cpp.
use mathlib.Core.List.{append-nil}
use native.Mathlib.Nat.{mod-eq_of_lt}
use vrs.Base.{ℕ, ◌<◌, ◌%◌, ◌^◌, ◌≡◌, refl, ◌∙◌, ap, true, List, [], ◌∷◌, ◌++◌, arith}
use vrs.Base.Decimal.{to_string, scan_digits, scan_digits-to_string, to_string_leads}
use vrs.StreamId.{StreamId, IsUint16, get_numeric_name, from_numeric_name, at_digit}

at_digit-to_string : (n : ℕ) (s : List ℕ) → at_digit (to_string n ++ s) ≡ true
at_digit-to_string n s = let (c, t, e, d) = to_string_leads n in rw e d

at_digit_alone : (n : ℕ) → at_digit (to_string n) ≡ true
at_digit_alone n = rw append-nil at (at_digit-to_string n [])

scan_digits_alone : (m : ℕ) → scan_digits 65536 0 (to_string m) ≡ (m % 65536, [])
scan_digits_alone m = rw append-nil at (scan_digits-to_string 65536 m [] (omega arith) tt)

-- A name of two decimal numbers, the first below 2 ^ 31, reads as these numbers modulo 2 ^ 16, so a
-- number that is too large for its field aliases another stream.
pub from_numeric_name-to_string :
    (n m : ℕ)
    → n < 2 ^ 31
    → from_numeric_name (to_string n ++ (b'-' ∷ to_string m))
      ≡ record { type_id = n % 65536; instance_id = m % 65536 }
unfolding from_numeric_name
from_numeric_name-to_string n m small =
    rw
      (
        at_digit-to_string n (b'-' ∷ to_string m),
        scan_digits-to_string (2 ^ 32) n (b'-' ∷ to_string m) (omega arith) refl,
        at_digit_alone m,
        scan_digits_alone m,
      )
      (ap (λ (t : ℕ). record { type_id = t; instance_id = m % 65536 }) (omega arith))

-- The numeric name of an id whose parts fit their fields reads back as that id.
pub from_numeric_name-get_numeric_name :
    (id : StreamId) → IsUint16 id → from_numeric_name (get_numeric_name id) ≡ id
unfolding get_numeric_name
from_numeric_name-get_numeric_name id h =
    from_numeric_name-to_string id.type_id id.instance_id (omega (arith, h.type_fits))
    ∙ rw (mod-eq_of_lt h.type_fits, mod-eq_of_lt h.instance_fits)

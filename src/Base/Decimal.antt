-- ===== src/Base/Decimal.antt =====
-- Decimal text: `std::to_string` of an unsigned number, and the digit loops that read it back.
-- A text is the list of its bytes.
use vrs.Base.Tests.{ltb, leb, if◌then◌else◌, Bool-cases}
use vrs.Base.Lists.{All}
use Prim.Native.Nat.{ℕ, zero, suc, ◌+◌, ◌-◌, ◌*◌, ◌/◌, ◌%◌, ◌≤◌, ◌<◌}
use mathlib.Core.Path.{◌≡◌, refl, sym, ap, ◌∙◌}
use mathlib.Core.Bool.{Bool, true, false, ◌&&◌}
use mathlib.Core.List.{List, [], ◌∷◌, ◌++◌}
use mathlib.Core.Logic.{◌≢◌, inl, inr}
use native.Mathlib.Omega.{arith}
use native.Mathlib.Nat.{add-mul-mod_self_right, div-add-mod, zero-mod}

-- `*s >= '0' && *s <= '9'`
abbrev pub is_digit : ℕ → Bool
is_digit c = leb b'0' c && leb c b'9'

-- The digits of `n` before those of `rest`. Each round divides by ten, so `n` rounds are enough.
decimal : ℕ → ℕ → List ℕ → List ℕ
decimal zero n rest = (b'0' + n) ∷ rest
decimal (suc fuel) n rest =
    let more = decimal fuel (n / 10) ((b'0' + n % 10) ∷ rest) in
    if ltb n 10 then (b'0' + n) ∷ rest else more

unfoldable pub to_string : ℕ → List ℕ
unfolding decimal
to_string n = decimal n n []

-- `for (; is_digit(*s); ++s) acc = 10 * acc + (*s - '0')` on a type of `m` values.
unfoldable pub scan_digits : ℕ → ℕ → List ℕ → ℕ × List ℕ
scan_digits m acc [] = (acc, [])
scan_digits m acc (c ∷ s) =
    let rest = scan_digits m ((10 * acc + (c - b'0')) % m) s in
    if is_digit c then rest else (acc, c ∷ s)

-- The number that a text of digits stands for, after the number `acc`.
value : ℕ → List ℕ → ℕ
value acc [] = acc
value acc (c ∷ s) = value (10 * acc + (c - b'0')) s

abbrev pub IsDigit : ℕ → Type 0
IsDigit c = (b'0' ≤ c) × (c ≤ b'9')

-- What may follow a number: nothing, or a byte that is no digit.
abbrev pub EndsNumber : List ℕ → Type 0
EndsNumber [] = Unit
EndsNumber (c ∷ s) = is_digit c ≡ false

value-decimal :
    (fuel n : ℕ) (rest : List ℕ) → n ≤ fuel → value 0 (decimal fuel n rest) ≡ value n rest
unfolding decimal value
value-decimal zero n rest h = ground arith
value-decimal (suc fuel) n rest h = elim (Bool-cases (ltb n 10)) [
  | inl e ↦ rw e (ground arith)
  | inr e ↦
      rw (e, value-decimal fuel (n / 10) ((b'0' + n % 10) ∷ rest) (ground arith))
        (ap (λ (v : ℕ). value v rest) (omega arith))
]

decimal-All :
    (fuel n : ℕ) (rest : List ℕ) → n ≤ fuel → All IsDigit rest → All IsDigit (decimal fuel n rest)
unfolding decimal
decimal-All zero n rest h a = (omega arith, a)
decimal-All (suc fuel) n rest h a =
    ground (arith, decimal-All fuel (n / 10) ((b'0' + n % 10) ∷ rest))

digit_true : (c : ℕ) → IsDigit c → is_digit c ≡ true
digit_true c h = ground arith

digit_mod : (m acc d : ℕ) → 0 < m → (10 * (acc % m) + d) % m ≡ (10 * acc + d) % m
digit_mod m acc d h =
    sym (add-mul-mod_self_right (10 * (acc % m) + d) (10 * (acc / m)) m)
    ∙ ap (λ (t : ℕ). t % m) (omega (arith, div-add-mod acc m))

-- Reading wraps around at every digit, which gives the value of the digits modulo `m`.
scan_digits-value :
    (m acc : ℕ) (s rest : List ℕ)
    → 0 < m
    → All IsDigit s
    → EndsNumber rest
    → scan_digits m (acc % m) (s ++ rest) ≡ (value acc s % m, rest)
unfolding scan_digits value
scan_digits-value m acc [] [] hm hs hr = refl
scan_digits-value m acc [] (c ∷ rest) hm hs hr = rw hr
scan_digits-value m acc (c ∷ s) rest hm hs hr =
    rw (digit_true c hs.0, digit_mod m acc (c - b'0') hm)
      (scan_digits-value m (10 * acc + (c - b'0')) s rest hm hs.1 hr)

decimal-ne-nil : (fuel n : ℕ) (rest : List ℕ) → decimal fuel n rest ≢ []
unfolding decimal
decimal-ne-nil zero n rest = λ e. cc
decimal-ne-nil (suc fuel) n rest =
    ground (arith, decimal-ne-nil fuel (n / 10) ((b'0' + n % 10) ∷ rest))

digits_lead :
    (s : List ℕ)
    → s ≢ []
    → All IsDigit s
    → (c : ℕ) × (t : List ℕ) × (s ≡ c ∷ t) × (is_digit c ≡ true)
digits_lead [] ne h = absurd (ne refl)
digits_lead (c ∷ t) ne h = (c, t, refl, digit_true c h.0)

-- A number that was printed is read back modulo the size of the type, and the rest is left.
pub scan_digits-to_string :
    (m n : ℕ) (rest : List ℕ)
    → 0 < m
    → EndsNumber rest
    → scan_digits m 0 (to_string n ++ rest) ≡ (n % m, rest)
unfolding to_string value
scan_digits-to_string m n rest hm hr =
    (rw (zero-mod m) at
      (scan_digits-value m 0 (decimal n n []) rest hm (decimal-All n n [] (omega arith) tt) hr))
    ∙ ap (λ (v : ℕ). (v % m, rest)) (value-decimal n n [] (omega arith))

-- A printed number begins with a digit.
pub to_string_leads : (n : ℕ) → (c : ℕ) × (s : List ℕ) × (to_string n ≡ c ∷ s) × (is_digit c ≡ true)
unfolding to_string
to_string_leads n = digits_lead _ (decimal-ne-nil n n []) (decimal-All n n [] (omega arith) tt)

-- The digits at the front of a text, as a number without a bound.
unfoldable pub scan_number : ℕ → List ℕ → ℕ × List ℕ
scan_number acc [] = (acc, [])
scan_number acc (c ∷ s) =
    let rest = scan_number (10 * acc + (c - b'0')) s in if is_digit c then rest else (acc, c ∷ s)

scan_number-value :
    (acc : ℕ) (s rest : List ℕ)
    → All IsDigit s
    → EndsNumber rest
    → scan_number acc (s ++ rest) ≡ (value acc s, rest)
unfolding scan_number value
scan_number-value acc [] [] hs hr = refl
scan_number-value acc [] (c ∷ rest) hs hr = rw hr
scan_number-value acc (c ∷ s) rest hs hr =
    rw (digit_true c hs.0) (scan_number-value (10 * acc + (c - b'0')) s rest hs.1 hr)

-- A number that was printed is read back, and the rest is left.
pub scan_number-to_string :
    (n : ℕ) (rest : List ℕ) → EndsNumber rest → scan_number 0 (to_string n ++ rest) ≡ (n, rest)
unfolding to_string value
scan_number-to_string n rest hr =
    scan_number-value 0 (decimal n n []) rest (decimal-All n n [] (omega arith) tt) hr
    ∙ ap (λ (v : ℕ). (v, rest)) (value-decimal n n [] (omega arith))

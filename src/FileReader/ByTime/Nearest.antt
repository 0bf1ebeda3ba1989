-- ===== src/FileReader/ByTime/Nearest.antt =====
-- `getNearestRecordByTime` finds the nearest record of all.
use vrs.Base.{
  ℕ, zero, suc, ◌+◌, ◌-◌, ◌≤◌, ◌<◌, ◌≡◌, refl, ◌∙◌, ap, arith, false, ◌&&◌, inl, inr, ◌⊎◌,
}
use vrs.Base.{
  Option, none, some, some_injective, All-get_elem?, List, [], ◌∷◌, length, get_elem?,
  get_elem?_within, ltb, leb, leb→le, ◌==◌, if◌then◌else◌, Bool-cases,
}
use vrs.Base.Search.{leading, leading-length, test_at-leading, test_at_below_leading}
use vrs.FileReader.{RecordInfo}
use vrs.FileReader.ByTime.{distance, is_before, nearer, nearest_in, find_nearest}
use vrs.FileReader.ByTime.Found.{IsInOrder, lower_bound_time-leading}

module _ {A : Type 0} (info : A → RecordInfo) where
  abbrev pub time_of : A → ℕ
  time_of a = (info a).timestamp

  -- Nothing is within `epsilon`, or an element is, and none is nearer.
  pub IsNearest : List A → ℕ → ℕ → Option A → Type 0
  IsNearest index time epsilon none =
      (j : ℕ) (q : A) → get_elem? index j ≡ some q → epsilon < distance (time_of q) time
  IsNearest index time epsilon (some p) =
      ((i : ℕ) × (get_elem? index i ≡ some p))
      × (distance (time_of p) time ≤ epsilon)
      × ((j : ℕ) (q : A)
          → get_elem? index j ≡ some q
          → distance (time_of p) time ≤ distance (time_of q) time)

  in_order :
      (index : List A) (i j : ℕ) {p q : A}
      → IsInOrder info index
      → i ≤ j
      → get_elem? index i ≡ some p
      → get_elem? index j ≡ some q
      → time_of p ≤ time_of q
  in_order [] i j s le ep eq = cc
  in_order (a ∷ index) zero zero {p} {q} s le ep eq =
      let first : a ≡ p = some_injective ep in
      let second : a ≡ q = some_injective eq in rw (← first, ← second) (omega arith)
  in_order (a ∷ index) zero (suc j) {p} {q} s le ep eq =
      let first : a ≡ p = some_injective ep in
      rw (← first) (All-get_elem? (λ (b : A). time_of a ≤ time_of b) index j s.0 eq)
  in_order (a ∷ index) (suc i) zero s le ep eq = absurd (omega arith)
  in_order (a ∷ index) (suc i) (suc j) s le ep eq = in_order index i j s.1 (omega arith) ep eq

  below :
      (time : ℕ) (index : List A) (i : ℕ) {q : A}
      → i < leading (is_before info time) index
      → get_elem? index i ≡ some q
      → time_of q < time
  below time index i {q} h e =
      ground (arith, test_at_below_leading (is_before info time) index i h, e)

  from :
      (time : ℕ) (index : List A) {q : A}
      → get_elem? index (leading (is_before info time) index) ≡ some q
      → time ≤ time_of q
  from time index {q} e = ground (arith, test_at-leading (is_before info time) index, e)

  one_candidate :
      (index : List A) (time epsilon i : ℕ) (c : A)
      → get_elem? index i ≡ some c
      → ((j : ℕ) (q : A)
          → get_elem? index j ≡ some q
          → distance (time_of c) time ≤ distance (time_of q) time)
      → IsNearest index time epsilon (nearer info time epsilon none c)
  unfolding IsNearest
  one_candidate index time epsilon i c e best =
      elim (Bool-cases (leb (distance (time_of c) time) epsilon)) [
        | inl f ↦ rw f ((i, e), leb→le _ _ f, best)
        | inr f ↦ rw f (λ j q g. ground (arith, best j q g, f))
      ]

  two_candidates :
      (index : List A) (time epsilon i k : ℕ) (c d : A)
      → get_elem? index i ≡ some c
      → get_elem? index k ≡ some d
      → ((j : ℕ) (q : A)
          → get_elem? index j ≡ some q
          → (distance (time_of c) time ≤ distance (time_of q) time)
            ⊎ (distance (time_of d) time ≤ distance (time_of q) time))
      → IsNearest index time epsilon (nearer info time epsilon (nearer info time epsilon none c) d)
  unfolding IsNearest
  two_candidates index time epsilon i k c d e g best =
      let near = λ (a : A). leb (distance (time_of a) time) epsilon in
      let closer = ltb (distance (time_of d) time) (distance (time_of c) time) in
      elim (Bool-cases (near c)) [
        | inl fc ↦ elim (Bool-cases (near d && closer)) [
          | inl f ↦ rw (fc, f) ((k, g), ground arith, λ j q h. ground (arith, best j q h, f))
          | inr f ↦ rw (fc, f) ((i, e), leb→le _ _ fc, λ j q h. ground (arith, best j q h, f, fc))
        ]
        | inr fc ↦ elim (Bool-cases (near d)) [
          | inl f ↦ rw (fc, f) ((k, g), leb→le _ _ f, λ j q h. ground (arith, best j q h, f, fc))
          | inr f ↦ rw (fc, f) (λ j q h. ground (arith, best j q h, f, fc))
        ]
      ]

  abbrev try_next : ℕ → ℕ → Option A → Option A → Option A
  try_next time epsilon nearest none = nearest
  try_next time epsilon nearest (some a) = nearer info time epsilon nearest a

  nearest_in_one :
      (index : List A) (time epsilon i : ℕ) {c : A}
      → get_elem? index i ≡ some c
      → nearest_in info index time epsilon i 1 none ≡ nearer info time epsilon none c
  nearest_in_one index time epsilon i e = ap (try_next time epsilon none) e

  nearest_in_two :
      (index : List A) (time epsilon i : ℕ) {c d : A}
      → get_elem? index i ≡ some c
      → get_elem? index (i + 1) ≡ some d
      → nearest_in info index time epsilon i 2 none
        ≡ nearer info time epsilon (nearer info time epsilon none c) d
  nearest_in_two index time epsilon i {c} {d} e g =
      ap
        (λ (o : Option A).
          try_next time epsilon (try_next time epsilon none o) (get_elem? index (i + 1)))
        e
      ∙ ap (try_next time epsilon (nearer info time epsilon none c)) g

  distance_below : (time c q : ℕ) → q ≤ c → c < time → distance c time ≤ distance q time
  distance_below time c q h k = omega arith

  distance_above : (time c q : ℕ) → c ≤ q → time ≤ c → distance c time ≤ distance q time
  distance_above time c q h k = omega arith

  index_within : (index : List A) (j : ℕ) {q : A} → get_elem? index j ≡ some q → j < length index
  index_within [] j e = cc
  index_within (a ∷ index) zero e = omega arith
  index_within (a ∷ index) (suc j) e = omega (arith, index_within index j e)

  -- Where the search ends, as an index: the candidates are the elements on its two sides.
  IsNearest-bound :
      (index : List A) (time epsilon bound : ℕ)
      → IsInOrder info index
      → bound ≤ length index
      → ((i : ℕ) (q : A) → i < bound → get_elem? index i ≡ some q → time_of q < time)
      → ((q : A) → get_elem? index bound ≡ some q → time ≤ time_of q)
      → let start = (if bound == 0 then bound else bound - 1) in
        let end = (if bound == length index then bound else bound + 1) in
        IsNearest index time epsilon (nearest_in info index time epsilon start (end - start) none)
  unfolding IsNearest
  IsNearest-bound [] time epsilon zero s le early late = λ j q e. absurd (ground arith)
  IsNearest-bound (a ∷ index) time epsilon zero s le early late =
      let some_left : 0 == length (a ∷ index) ≡ false = ground arith in
      rw some_left (
        one_candidate (a ∷ index) time epsilon 0 a refl
          (λ j q e. ground (arith, late a refl, in_order (a ∷ index) 0 j s (omega arith) refl e)))
  IsNearest-bound index time epsilon (suc b) s le early late =
      let (c, ec) = get_elem?_within index b (omega arith) in
      let not_first : suc b == 0 ≡ false = ground arith in
      let before : suc b - 1 ≡ b = omega arith in
      elim (Bool-cases (suc b == length index)) [
        | inl last ↦
            let one : suc b - b ≡ 1 = omega arith in
            rw (not_first, last, before, one, nearest_in_one index time epsilon b ec)
              (one_candidate index time epsilon b c ec (λ j q e.
                distance_below time (time_of c) (time_of q)
                  (in_order index j b s (ground (arith, index_within index j e)) e ec)
                  (early b c (omega arith) ec)))
        | inr more ↦
            let (d, ed) = get_elem?_within index (suc b) (ground arith) in
            let two : suc b + 1 - b ≡ 2 = omega arith in
            let next : get_elem? index (b + 1) ≡ some d = ap (get_elem? index) (omega arith) ∙ ed in
            rw (not_first, more, before, two, nearest_in_two index time epsilon b ec next)
              (two_candidates index time epsilon b (suc b) c d ec ed (λ j q e.
                elim (Bool-cases (leb j b)) [
                  | inl f ↦ inl (
                      distance_below time (time_of c) (time_of q)
                        (in_order index j b s (ground arith) e ec) (early b c (omega arith) ec))
                  | inr f ↦ inr (
                      distance_above time (time_of d) (time_of q)
                        (in_order index (suc b) j s (ground arith) ed e) (late d ed))
                ]))
      ]

  -- In an index in order of time: if the lookup finds nothing, no element is within `epsilon` of the
  -- time; if it finds an element, that element is within `epsilon`, and no other is nearer.
  pub find_nearest-IsNearest :
      (index : List A) (time epsilon : ℕ)
      → IsInOrder info index
      → IsNearest index time epsilon (find_nearest info index time epsilon)
  unfolding find_nearest
  find_nearest-IsNearest index time epsilon s = rw (lower_bound_time-leading info index time s) (
      IsNearest-bound index time epsilon (leading (is_before info time) index) s
        (leading-length (is_before info time) index) (λ i q. below time index i)
        (λ q. from time index))

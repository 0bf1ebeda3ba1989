-- ===== src/FileReader/Seek.antt =====
-- The search loop of `RecordFileReader::getRecord(streamId, recordType, indexNumber)`: what it finds
-- when it starts behind some elements.
use vrs.Base.{
  ℕ, zero, suc, ◌+◌, ◌-◌, ◌≤◌, ◌<◌, ◌≡◌, refl, sym, ◌∙◌, ap, arith, true, false, inl, inr,
}
use vrs.Base.{
  List, [], ◌∷◌, ◌++◌, length, filter, filter-append, length-append, get_elem?, take, drop,
  take-append-drop,
}
use vrs.Base.{Option, none, some, Bool-cases, ◌==◌}
use vrs.Record.{RecordType}
use vrs.FileReader.{Pointer, has_type, seek}

-- The records of a type, among those of an index.
abbrev pub of_type : RecordType → List Pointer → List Pointer
of_type t index = filter (has_type t) index

-- A hit of the search is the record asked for, and so many of its type stand before it.
pub IsHit : RecordType → ℕ → List Pointer → ℕ → ℕ → Option (Pointer × ℕ) → Type 0
IsHit t n index i hits none = get_elem? (of_type t index) (n - hits) ≡ none
IsHit t n index i hits (some (p, j)) =
    (get_elem? (of_type t index) (n - hits) ≡ some p)
    × (i ≤ j)
    × (length (of_type t (take (j - i) index)) + hits ≡ n)

get_elem?_behind :
    (p : Pointer) (l : List Pointer) (k : ℕ) → 0 < k → get_elem? (p ∷ l) k ≡ get_elem? l (k - 1)
get_elem?_behind p l zero h = absurd (omega arith)
get_elem?_behind p l (suc k) h = ap (get_elem? l) (omega arith)

take_behind : (p : Pointer) (l : List Pointer) (k : ℕ) → 0 < k → take k (p ∷ l) ≡ p ∷ take (k - 1) l
take_behind p l zero h = absurd (omega arith)
take_behind p l (suc k) h = ap (λ (n : ℕ). p ∷ take n l) (omega arith)

IsHit-cons_same :
    (t : RecordType) (n : ℕ) (p : Pointer) (index : List Pointer) (i hits : ℕ)
    → has_type t p ≡ true
    → hits < n
    → (o : Option (Pointer × ℕ)) → IsHit t n index (suc i) (suc hits) o
    → IsHit t n (p ∷ index) i hits o
unfolding IsHit
IsHit-cons_same t n p index i hits e h none w =
    rw (e, get_elem?_behind p (of_type t index) (n - hits) (omega arith))
      (ap (get_elem? (of_type t index)) (omega arith) ∙ w)
IsHit-cons_same t n p index i hits e h (some (q, j)) w =
    let one_less : j - i - 1 ≡ j - suc i = omega arith in
    rw
      (
        e,
        get_elem?_behind p (of_type t index) (n - hits) (omega arith),
        take_behind p index (j - i) (omega arith),
        one_less,
        e,
      )
      (ap (get_elem? (of_type t index)) (omega arith) ∙ w.0, omega (arith, w.1), omega (arith, w.2))

IsHit-cons_other :
    (t : RecordType) (n : ℕ) (p : Pointer) (index : List Pointer) (i hits : ℕ)
    → has_type t p ≡ false
    → (o : Option (Pointer × ℕ)) → IsHit t n index (suc i) hits o
    → IsHit t n (p ∷ index) i hits o
unfolding IsHit
IsHit-cons_other t n p index i hits e none w = rw e w
IsHit-cons_other t n p index i hits e (some (q, j)) w =
    rw (e, take_behind p index (j - i) (omega arith), e)
      (
        w.0,
        omega (arith, w.1),
        ap (λ (k : ℕ). length (of_type t (take k index)) + hits) (omega arith) ∙ w.2,
      )

pub seek-IsHit :
    (t : RecordType) (n : ℕ) (index : List Pointer) (i hits : ℕ)
    → hits ≤ n
    → IsHit t n index i hits (seek t n index i hits)
unfolding seek IsHit
seek-IsHit t n [] i hits h = refl
seek-IsHit t n (p ∷ index) i hits h = elim (Bool-cases (has_type t p)) [
  | inr e ↦ rw e (
      IsHit-cons_other t n p index i hits e (seek t n index (suc i) hits)
        (seek-IsHit t n index (suc i) hits h))
  | inl e ↦ elim (Bool-cases (hits == n)) [
    | inl f ↦
        let same_count : hits ≡ n = ground arith in
        let none_left : n - hits ≡ 0 = omega arith in
        let none_passed : i - i ≡ 0 = omega arith in
        rw (e, f) (rw (e, none_left, none_passed) (refl, omega arith, omega arith))
    | inr f ↦
        rw (e, f)
          (IsHit-cons_same t n p index i hits e (ground arith) (seek t n index (suc i) (suc hits))
            (seek-IsHit t n index (suc i) (suc hits) (ground arith)))
  ]
]

get_elem?-append :
    (xs ys : List Pointer) (n : ℕ)
    → length xs ≤ n
    → get_elem? (xs ++ ys) n ≡ get_elem? ys (n - length xs)
get_elem?-append [] ys n h = ap (get_elem? ys) (omega arith)
get_elem?-append (x ∷ xs) ys zero h = absurd (omega arith)
get_elem?-append (x ∷ xs) ys (suc n) h =
    get_elem?-append xs ys n (omega arith) ∙ ap (get_elem? ys) (omega arith)

take-nil : (k : ℕ) → take {A = Pointer} k [] ≡ []
take-nil zero = refl
take-nil (suc k) = refl

take_split : (i k : ℕ) (xs : List Pointer) → take (i + k) xs ≡ take i xs ++ take k (drop i xs)
take_split zero k xs = ap (λ (n : ℕ). take n xs) (omega arith)
take_split (suc i) k [] =
    let next : suc i + k ≡ suc (i + k) = omega arith in rw next (sym (take-nil k))
take_split (suc i) k (x ∷ xs) =
    let next : suc i + k ≡ suc (i + k) = omega arith in rw next (ap (◌∷◌ x) (take_split i k xs))

of_type_split :
    (t : RecordType) (index : List Pointer) (i n hits : ℕ)
    → hits ≤ n
    → length (of_type t (take i index)) ≡ hits
    → get_elem? (of_type t index) n ≡ get_elem? (of_type t (drop i index)) (n - hits)
of_type_split t index i n hits h counted =
    let parts : of_type t index ≡ of_type t (take i index) ++ of_type t (drop i index) =
      ap (of_type t) (sym (take-append-drop i index))
      ∙ filter-append (has_type t) (take i index) (drop i index) in
    rw parts (
      get_elem?-append (of_type t (take i index)) (of_type t (drop i index)) n
        (omega (arith, counted))
      ∙ ap (λ (k : ℕ). get_elem? (of_type t (drop i index)) (n - k)) counted)

-- What the caller gets, in terms of the whole index, from a search that starts behind `i` elements.
unfoldable pub IsFound : RecordType → ℕ → List Pointer → Option (Pointer × ℕ) → Type 0
IsFound t n index none = get_elem? (of_type t index) n ≡ none
IsFound t n index (some (p, j)) =
    (get_elem? (of_type t index) n ≡ some p) × (length (of_type t (take j index)) ≡ n)

pub IsHit-IsFound :
    (t : RecordType) (n : ℕ) (index : List Pointer) (i hits : ℕ)
    → hits ≤ n
    → length (of_type t (take i index)) ≡ hits
    → (o : Option (Pointer × ℕ)) → IsHit t n (drop i index) i hits o
    → IsFound t n index o
unfolding IsHit IsFound
IsHit-IsFound t n index i hits h counted none w = of_type_split t index i n hits h counted ∙ w
IsHit-IsFound t n index i hits h counted (some (p, j)) w =
    let whole : j ≡ i + (j - i) = omega (arith, w.1) in
    let parts : of_type t (take j index)
        ≡ of_type t (take i index) ++ of_type t (take (j - i) (drop i index)) =
      ap (λ (k : ℕ). of_type t (take k index)) whole
      ∙ ap (of_type t) (take_split i (j - i) index)
      ∙ filter-append (has_type t) (take i index) (take (j - i) (drop i index)) in
    (
      of_type_split t index i n hits h counted ∙ w.0,
      ap length parts
          ∙ length-append (of_type t (take i index)) (of_type t (take (j - i) (drop i index)))
          ∙ (omega (arith, counted, w.2)),
    )

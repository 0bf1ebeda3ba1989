-- ===== src/RecordManager/Create.antt =====
-- `RecordManager::createRecord`: which record it reuses, and what it leaves.
use vrs.Base.{ℕ, ◌+◌, ◌≡◌, refl, sym, ◌∙◌, ap, arith, Bool, true, false, ◌&&◌, inl, inr, ◌⊎◌}
use vrs.Base.{List, [], ◌∷◌, ◌++◌, none, some, length, take, leb, Option-cases, Bool-cases, All}
use vrs.Record.{Record, RecordType, fresh}
use vrs.Record.Buffer.{set_record_payload}
use vrs.RecordManager.{
  RecordManager, take_fitting, split_last, find_reusable, get_acceptable_over_capacity,
  insert_active, create_record,
}
use vrs.RecordManager.Order.{IsSorted, SameRecords, total, totals, total-cons}
use vrs.RecordManager.Insert.{
  insert_active-insert_sorted, insert_sorted-IsSorted, total-insert_active,
}

abbrev pub fits : ℕ → ℕ → Record → Bool
fits data_size max_size r = leb data_size r.buffer_capacity && leb r.buffer_capacity max_size

-- A record found in a longer cache is its head, or was found behind it.
take_fitting_cons :
    (d m : ℕ) (x : Record) (cache : List Record) {r : Record} {others : List Record}
    → take_fitting d m (x ∷ cache) ≡ some (r, others)
    → (fits d m x ≡ true) × (x ≡ r) × (others ≡ cache)
      ⊎ (fits d m x ≡ false)
        × ((rest : List Record) × (take_fitting d m cache ≡ some (r, rest)) × (others ≡ x ∷ rest))
unfolding take_fitting
take_fitting_cons d m x cache e = elim (Bool-cases (fits d m x)) [
  | inl f ↦ inl (f, ground arith, ground arith)
  | inr f ↦ elim (Option-cases (take_fitting d m cache)) [
    | inl n ↦ absurd (ground arith)
    | inr ((q, rest), g) ↦ inr (f, (rest, ground arith, ground arith))
  ]
]

-- A record that `take_fitting` finds is the first that fits, and the others keep their order.
pub take_fitting_first :
    (data_size max_size : ℕ) (cache : List Record) {r : Record} {others : List Record}
    → take_fitting data_size max_size cache ≡ some (r, others)
    → (front : List Record) × (back : List Record) × (cache ≡ front ++ (r ∷ back))
      × (others ≡ front ++ back)
      × (fits data_size max_size r ≡ true)
      × All (λ (x : Record). fits data_size max_size x ≡ false) front
unfolding take_fitting
take_fitting_first d m [] e = cc
take_fitting_first d m (x ∷ cache) e = elim (take_fitting_cons d m x cache e) [
  | inl (f, same, rest) ↦ ([], cache, ap (λ (q : Record). q ∷ cache) same, rest, ground arith, tt)
  | inr (f, (rest, g, same)) ↦
      let (front, back, whole, kept, fit, skipped) = take_fitting_first d m cache g in
      (x ∷ front, back, ap (◌∷◌ x) whole, same ∙ ap (◌∷◌ x) kept, fit, (f, skipped))
]

take_fitting-none :
    (data_size max_size : ℕ) (cache : List Record)
    → take_fitting data_size max_size cache ≡ none
    → All (λ (x : Record). fits data_size max_size x ≡ false) cache
unfolding take_fitting
take_fitting-none d m [] e = tt
take_fitting-none d m (x ∷ cache) e = elim (Bool-cases (fits d m x)) [
  | inl f ↦ absurd (ground arith)
  | inr f ↦ (f, take_fitting-none d m cache (ground arith))
]

total-take_fitting :
    (w : Record → ℕ) (data_size max_size : ℕ) (cache : List Record) {r : Record}
    {others : List Record}
    → take_fitting data_size max_size cache ≡ some (r, others)
    → total w cache ≡ w r + total w others
total-take_fitting w d m [] e = unfold take_fitting in cc
total-take_fitting w d m (x ∷ cache) e = elim (take_fitting_cons d m x cache e) [
  | inl (f, same, rest) ↦ rw (← same, rest) (omega totals)
  | inr (f, (rest, g, same)) ↦ rw same (omega (totals, total-take_fitting w d m cache g))
]

split_last-none : (cache : List Record) → split_last cache ≡ none → cache ≡ []
split_last-none [] e = refl
split_last-none (x ∷ cache) e = absurd (ground arith)

total-split_last :
    (w : Record → ℕ) (cache : List Record) {r : Record} {others : List Record}
    → split_last cache ≡ some (r, others)
    → total w cache ≡ w r + total w others
total-split_last w [] e = cc
total-split_last w (x ∷ cache) {r} {others} e = elim (Option-cases (split_last cache)) [
  | inl n ↦
      let last : x ≡ r = ground arith in
      let none_left : others ≡ [] = ground arith in
      rw (← last, none_left, split_last-none cache n) (total-cons w x [])
  | inr ((q, rest), g) ↦
      let last : r ≡ q = ground arith in
      let kept : others ≡ x ∷ rest = ground arith in
      rw (last, kept) (omega (totals, total-split_last w cache g))
]

-- What step 1 finds was in the cache, and the other records stay there.
total-find_reusable :
    (w : Record → ℕ) (now size : ℕ) (cache : List Record) {r : Record} {others : List Record}
    → find_reusable now size cache ≡ some (r, others)
    → total w cache ≡ w r + total w others
unfolding find_reusable
total-find_reusable w now size cache {r} {others} e =
    elim (Option-cases (take_fitting size (get_acceptable_over_capacity size) cache)) [
      | inr ((q, rest), g) ↦
          let found : r ≡ q = ground arith in
          let kept : others ≡ rest = ground arith in
          rw (found, kept) (total-take_fitting w _ _ cache g)
      | inl n ↦ elim (Option-cases (split_last cache)) [
        | inl k ↦ absurd (ground arith)
        | inr ((q, rest), g) ↦
            let found : r ≡ q = ground arith in
            let kept : others ≡ rest = ground arith in rw (found, kept) (total-split_last w cache g)
      ]
    ]

insert_active-IsSorted :
    (new : Record) (active : List Record) → IsSorted active → IsSorted (insert_active new active)
insert_active-IsSorted new active s =
    rw (insert_active-insert_sorted new active s) (insert_sorted-IsSorted new active s)

-- What `createRecord` does with the lists of the manager, in terms of the record `reused` that it
-- starts from: it comes out of the cache, or it is a new one and the cache stays.
pub record IsCreated (now : ℕ) (m m' : RecordManager) (bytes : List ℕ) (made : Record)
    : Type 0 where
  pub reused : Record
  pub taken :
      (reused ≡ fresh) × (m'.cache ≡ m.cache) × (find_reusable now (length bytes) m.cache ≡ none)
      ⊎ SameRecords m.cache (reused ∷ m'.cache)
  pub inserted : SameRecords m'.active_records (made ∷ m.active_records)
  pub payload : take made.buffer_used_size made.buffer ≡ bytes
  pub none_deleted : m'.deleted ≡ m.deleted

-- Every call of `createRecord` adds exactly one record to the active ones, which holds the data in
-- full; it takes at most one record out of the cache, makes a new one only if no cached record may
-- be reused, and deletes none.
pub create_record-IsCreated :
    (now : ℕ) (m : RecordManager) (timestamp : ℕ) (t : RecordType) (version : ℕ) (bytes : List ℕ)
    → let (m', made) = create_record now m timestamp t version bytes in
      IsCreated now m m' bytes made
unfolding create_record
create_record-IsCreated now m timestamp t version bytes =
    elim (Option-cases (find_reusable now (length bytes) m.cache)) [
      | inl n ↦
          rw (n, create_record)
            (record {
              reused = fresh;
              taken = inl (refl, refl, n);
              inserted = λ w.
                  total-insert_active w _ m.active_records ∙ sym (total-cons w _ m.active_records);
              payload = set_record_payload fresh _ timestamp t version bytes _;
              none_deleted = refl;
            })
      | inr ((r, others), g) ↦
          rw (g, create_record)
            (record {
              reused = r;
              taken =
                  inr (λ w. total-find_reusable w now _ m.cache g ∙ sym (total-cons w r others));
              inserted = λ w.
                  total-insert_active w _ m.active_records ∙ sym (total-cons w _ m.active_records);
              payload = set_record_payload r _ timestamp t version bytes _;
              none_deleted = refl;
            })
    ]

-- A call of `createRecord` keeps sorted active records sorted.
pub create_record-IsSorted :
    (now : ℕ) (m : RecordManager) (timestamp : ℕ) (t : RecordType) (version : ℕ) (bytes : List ℕ)
    → IsSorted m.active_records
    → IsSorted (create_record now m timestamp t version bytes).0.active_records
unfolding create_record
create_record-IsSorted now m timestamp t version bytes s =
    elim (Option-cases (find_reusable now (length bytes) m.cache)) [
      | inl n ↦ rw (n, create_record) (insert_active-IsSorted _ m.active_records s)
      | inr ((r, others), g) ↦ rw (g, create_record) (insert_active-IsSorted _ m.active_records s)
    ]

-- ===== src/MultiFileReader/Fresh.antt =====
-- `generateUniqueStreamId` of vrs/MultiRecordFileReader.cpp: its loop ends.
use vrs.Base.{
  ℕ, zero, suc, ◌+◌, ◌%◌, ◌≤◌, ◌<◌, ◌≡◌, refl, sym, ◌∙◌, arith, true, false, not, inl, inr,
}
use vrs.Base.{some, List, [], ◌∷◌, length, filter, Bool-cases, some_injective, subst}
use vrs.StreamId.{StreamId, same}
use vrs.MultiFileReader.{contains, next_instance, next_free, generate_unique_stream_id}

abbrev without : StreamId → List StreamId → List StreamId
without id ids = filter (λ (other : StreamId). not (same id other)) ids

contains-without :
    (id gone : StreamId) (ids : List StreamId)
    → same id gone ≡ false
    → contains id (without gone ids) ≡ contains id ids
contains-without id gone [] h = refl
contains-without id gone (x ∷ ids) h = ground (arith, contains-without id gone ids h)

length-without_le : (id : StreamId) (ids : List StreamId) → length (without id ids) ≤ length ids
length-without_le id [] = omega arith
length-without_le id (x ∷ ids) = ground (arith, length-without_le id ids)

length-without :
    (id : StreamId) (ids : List StreamId)
    → contains id ids ≡ true
    → length (without id ids) < length ids
length-without id [] h = absurd (ground arith)
length-without id (x ∷ ids) h = elim (Bool-cases (same id x)) [
  | inl e ↦ rw e (omega (arith, length-without_le id ids))
  | inr e ↦
      let later : contains id ids ≡ true = ground arith in
      rw e (omega (arith, length-without id ids later))
]

-- Between a stream id and one that is `d` instances behind it the loop does not come back.
next_free-without :
    (fuel d : ℕ) (ids : List StreamId) (id gone : StreamId)
    → id.instance_id ≡ (gone.instance_id + d) % 65536
    → gone.instance_id < 65536
    → fuel + d < 65536
    → next_free fuel (without gone ids) id ≡ next_free fuel ids id
unfolding next_free
next_free-without zero d ids id gone e fits h = refl
next_free-without (suc fuel) d ids id gone e fits h =
    let apart : same (next_instance id) gone ≡ false = ground arith in
    rw
      (
        contains-without (next_instance id) gone ids apart,
        next_free-without fuel (suc d) ids (next_instance id) gone (omega arith) fits (omega arith),
      )
      refl

-- A stream id that the loop can end with.
pub record IsFree (ids : List StreamId) (id free : StreamId) : Type 0 where
  pub unused : contains free ids ≡ false
  pub same_type_id : free.type_id ≡ id.type_id
  pub fits : free.instance_id < 65536

pub next_free-IsFree :
    (fuel : ℕ) (ids : List StreamId) (id free : StreamId)
    → next_free fuel ids id ≡ some free
    → IsFree ids id free
unfolding next_free
next_free-IsFree zero ids id free e = cc
next_free-IsFree (suc fuel) ids id free e = elim (Bool-cases (contains (next_instance id) ids)) [
  | inl c ↦
      let r = next_free-IsFree fuel ids (next_instance id) free (rw c at e) in
      record { unused = r.unused; same_type_id = r.same_type_id; fits = r.fits }
  | inr c ↦
      let here : next_instance id ≡ free = some_injective (rw c at e) in
      subst (IsFree ids id) here (record { unused = c; same_type_id = refl; fits = omega arith })
]

next_free_total :
    (fuel : ℕ) (ids : List StreamId) (id : StreamId)
    → length ids < fuel
    → fuel ≤ 65536
    → (free : StreamId) × (next_free fuel ids id ≡ some free)
unfolding next_free
next_free_total zero ids id h le = absurd (omega arith)
next_free_total (suc fuel) ids id h le =
    let c = next_instance id in
    elim (Bool-cases (contains c ids)) [
      | inr e ↦ rw e (c, refl)
      | inl e ↦
          let (free, found) =
            next_free_total fuel (without c ids) c (omega (arith, length-without c ids e))
              (omega arith) in
          rw e (
            free,
            sym (next_free-without fuel 0 ids c c (omega arith) (omega arith) (omega arith))
                ∙ found,
          )
    ]

-- Where fewer than 65536 unique ids are taken, the loop of `generateUniqueStreamId` ends, within
-- one round more than there are ids: with an id that is not taken, has the type of the colliding
-- stream, and an instance id that fits a uint16_t.
pub generate_unique_stream_id-IsFree :
    (ids : List StreamId) (id : StreamId)
    → length ids < 65536
    → (free : StreamId) × (generate_unique_stream_id ids id ≡ some free) × IsFree ids id free
unfolding generate_unique_stream_id
generate_unique_stream_id-IsFree ids id h =
    let (free, found) = next_free_total (suc (length ids)) ids id (omega arith) (omega arith) in
    (free, found, next_free-IsFree (suc (length ids)) ids id free found)

-- ===== src/RecordManager/Purge/Kept.antt =====
-- What `purgeOldRecords` keeps: all tags records, the newest state and configuration records, and
-- all that is not old.
use vrs.Base.{ℕ, ◌≤◌, ◌<◌, ◌≡◌, refl, subst, arith, Bool, true, inl, inr, ◌⊎◌, ◌&&◌}
use vrs.Base.{Option, none, some, List, [], ◌∷◌, ◌++◌, ltb, ltb→lt, Bool-cases, if◌then◌else◌}
use vrs.Record.{Record, RecordType, state, configuration, tags, same_type}
use vrs.RecordManager.{RecordManager}
use vrs.RecordManager.Purge.{
  PurgeState, newer_than, release, purge_one, purge_loop, to_front, purge_start, purge_old_records,
}

-- The record is one of the list.
abbrev pub In : Record → List Record → Type 0
In r [] = ⊥
In r (x ∷ xs) = (x ≡ r) ⊎ In r xs

In-append_left : (r : Record) (xs ys : List Record) → In r xs → In r (xs ++ ys)
In-append_left r [] ys h = elim h [ ]
In-append_left r (x ∷ xs) ys (inl e) = inl e
In-append_left r (x ∷ xs) ys (inr h) = inr (In-append_left r xs ys h)

In-append_right : (r : Record) (xs ys : List Record) → In r ys → In r (xs ++ ys)
In-append_right r [] ys h = h
In-append_right r (x ∷ xs) ys h = inr (In-append_right r xs ys h)

-- A record of the type is held that is not older than `r`.
abbrev Covers : RecordType → Option Record → Record → Type 0
Covers t none r = ⊥
Covers t (some q) r = (same_type q.record_type t ≡ true) × (r.timestamp ≤ q.timestamp)

-- The record kept so far, if any, has the type.
abbrev IsTyped : RecordType → Option Record → Type 0
IsTyped t none = Unit
IsTyped t (some q) = same_type q.record_type t ≡ true

-- The update of a kept record in one round.
abbrev keep : RecordType → Option Record → Record → Option Record
keep t o r = if same_type r.record_type t && newer_than o r then some r else o

IsTyped-keep :
    (t : RecordType) (o : Option Record) (r : Record) → IsTyped t o → IsTyped t (keep t o r)
IsTyped-keep t o r h = elim (Bool-cases (same_type r.record_type t && newer_than o r)) [
  | inl e ↦ rw e (ground arith)
  | inr e ↦ rw e h
]

Covers-keep :
    (t : RecordType) (o : Option Record) (r x : Record) → Covers t o x → Covers t (keep t o r) x
Covers-keep t none r x h = absurd h
Covers-keep t (some q) r x h =
    elim (Bool-cases (same_type r.record_type t && newer_than (some q) r)) [
      | inl e ↦ rw e (ground arith)
      | inr e ↦ rw e h
    ]

Covers-keep_self :
    (t : RecordType) (o : Option Record) (r : Record)
    → IsTyped t o
    → same_type r.record_type t ≡ true
    → Covers t (keep t o r) r
Covers-keep_self t none r y h = rw h (h, omega arith)
Covers-keep_self t (some q) r y h = elim (Bool-cases (ltb q.timestamp r.timestamp)) [
  | inl e ↦ rw (h, e) (h, omega arith)
  | inr e ↦ rw (h, e) (y, ground arith)
]

module _ (b : Bool) (max : ℕ) where
  last_state-release :
      (o : Option Record) (s : PurgeState) → (release b max o s).last_state ≡ s.last_state
  last_state-release none s = refl
  last_state-release (some r) s = ground arith

  last_configuration-release :
      (o : Option Record) (s : PurgeState)
      → (release b max o s).last_configuration ≡ s.last_configuration
  last_configuration-release none s = refl
  last_configuration-release (some r) s = ground arith

  tags_records-release :
      (o : Option Record) (s : PurgeState) → (release b max o s).tags_records ≡ s.tags_records
  tags_records-release none s = refl
  tags_records-release (some r) s = ground arith

  -- One round replaces the state record by a newer one, or keeps it.
  last_state-purge_one :
      (r : Record) (s : PurgeState) → (purge_one b max r s).last_state ≡ keep state s.last_state r
  unfolding purge_one
  last_state-purge_one r s = ground (
    arith,
    last_state-release s.last_state (record s { last_state = some r }),
    last_state-release s.last_configuration (record s { last_configuration = some r }),
    last_state-release (some r) s,
  )

  last_configuration-purge_one :
      (r : Record) (s : PurgeState)
      → (purge_one b max r s).last_configuration ≡ keep configuration s.last_configuration r
  unfolding purge_one
  last_configuration-purge_one r s = ground (
    arith,
    last_configuration-release s.last_state (record s { last_state = some r }),
    last_configuration-release s.last_configuration (record s { last_configuration = some r }),
    last_configuration-release (some r) s,
  )

  tags_records-purge_one :
      (r : Record) (s : PurgeState)
      → (purge_one b max r s).tags_records
        ≡ (if same_type r.record_type tags then s.tags_records ++ (r ∷ []) else s.tags_records)
  unfolding purge_one
  tags_records-purge_one r s = ground (
    arith,
    tags_records-release s.last_state (record s { last_state = some r }),
    tags_records-release s.last_configuration (record s { last_configuration = some r }),
    tags_records-release (some r) s,
  )

  -- What the loop may assume of its variables.
  record IsKeeping (s : PurgeState) : Type 0 where
    state_typed : IsTyped state s.last_state
    configuration_typed : IsTyped configuration s.last_configuration

  IsKeeping-purge_one :
      (r : Record) (s : PurgeState) → IsKeeping s → IsKeeping (purge_one b max r s)
  IsKeeping-purge_one r s k = record {
    state_typed = rw (last_state-purge_one r s) (IsTyped-keep state s.last_state r k.state_typed);
    configuration_typed =
        rw (last_configuration-purge_one r s)
          (IsTyped-keep configuration s.last_configuration r k.configuration_typed);
  }

  -- What is kept of a record that was taken off the active ones.
  abbrev Kept : PurgeState → Record → Type 0
  Kept s x =
      (same_type x.record_type tags ≡ true → In x s.tags_records)
      × (same_type x.record_type state ≡ true → Covers state s.last_state x)
      × (same_type x.record_type configuration ≡ true → Covers configuration s.last_configuration x)

  Kept-purge_one : (r x : Record) (s : PurgeState) → Kept s x → Kept (purge_one b max r s) x
  Kept-purge_one r x s k = (
    λ h. rw (tags_records-purge_one r s) (In-extended (k.0 h)),
    λ h. rw (last_state-purge_one r s) (Covers-keep state s.last_state r x (k.1 h)),
    λ h.
        rw (last_configuration-purge_one r s)
          (Covers-keep configuration s.last_configuration r x (k.2 h)),
  )
    where
      In-extended :
          In x s.tags_records
          → In x
              (if same_type r.record_type tags then s.tags_records ++ (r ∷ []) else s.tags_records)
      In-extended h = elim (Bool-cases (same_type r.record_type tags)) [
        | inl e ↦ rw e (In-append_left x s.tags_records (r ∷ []) h)
        | inr e ↦ rw e h
      ]

  Kept-purge_one_self : (r : Record) (s : PurgeState) → IsKeeping s → Kept (purge_one b max r s) r
  Kept-purge_one_self r s k = (
    λ h. rw (tags_records-purge_one r s, h) (In-append_right r s.tags_records (r ∷ []) (inl refl)),
    λ h. rw (last_state-purge_one r s) (Covers-keep_self state s.last_state r k.state_typed h),
    λ h.
        rw (last_configuration-purge_one r s)
          (Covers-keep_self configuration s.last_configuration r k.configuration_typed h),
  )

  Kept-purge_loop :
      (oldest : ℕ) (active : List Record) (x : Record) (s : PurgeState)
      → Kept s x
      → Kept (purge_loop b max oldest active s).1 x
  unfolding purge_loop
  Kept-purge_loop oldest [] x s k = k
  Kept-purge_loop oldest (r ∷ rest) x s k = elim (Bool-cases (ltb r.timestamp oldest)) [
    | inl e ↦ rw e (Kept-purge_loop oldest rest x (purge_one b max r s) (Kept-purge_one r x s k))
    | inr e ↦ rw e k
  ]

  -- A record that is old was taken and is kept as its type asks; any other record stays.
  purge_loop_spread :
      (oldest : ℕ) (active : List Record) (s : PurgeState) (x : Record)
      → IsKeeping s
      → In x active
      → In x (purge_loop b max oldest active s).0
        ⊎ (x.timestamp < oldest) × Kept (purge_loop b max oldest active s).1 x
  unfolding purge_loop
  purge_loop_spread oldest [] s x k h = elim h [ ]
  purge_loop_spread oldest (r ∷ rest) s x k (inl same) =
      elim (Bool-cases (ltb r.timestamp oldest)) [
        | inl e ↦ rw e (
            subst
              (λ y.
                In y (purge_loop b max oldest rest (purge_one b max r s)).0
                ⊎ (y.timestamp < oldest)
                  × Kept (purge_loop b max oldest rest (purge_one b max r s)).1 y)
              same
              (inr (
                ltb→lt _ _ e,
                Kept-purge_loop oldest rest r (purge_one b max r s) (Kept-purge_one_self r s k),
              )))
        | inr e ↦ rw e (inl (inl same))
      ]
  purge_loop_spread oldest (r ∷ rest) s x k (inr h) = elim (Bool-cases (ltb r.timestamp oldest)) [
    | inl e ↦
        rw e (purge_loop_spread oldest rest (purge_one b max r s) x (IsKeeping-purge_one r s k) h)
    | inr e ↦ rw e (inl (inr h))
  ]

-- What a purge leaves for a record that was active before it.
pub record IsSpread (oldest : ℕ) (active : List Record) (x : Record) : Type 0 where
  pub recent : oldest ≤ x.timestamp → In x active
  pub tagged : same_type x.record_type tags ≡ true → In x active
  pub newest_state :
      same_type x.record_type state ≡ true
      → (q : Record) × In q active
        × (same_type q.record_type state ≡ true)
        × (x.timestamp ≤ q.timestamp)
  pub newest_configuration :
      same_type x.record_type configuration ≡ true
      → (q : Record) × In q active
        × (same_type q.record_type configuration ≡ true)
        × (x.timestamp ≤ q.timestamp)

-- A covered record has one in its place at the front of the list.
Covers-to_front :
    (t : RecordType) (o : Option Record) (x : Record) (l : List Record)
    → Covers t o x
    → (q : Record) × In q (to_front o l)
      × (same_type q.record_type t ≡ true)
      × (x.timestamp ≤ q.timestamp)
Covers-to_front t none x l h = absurd h
Covers-to_front t (some q) x l h = (q, inl refl, h.0, h.1)

In-to_front : (o : Option Record) (x : Record) (l : List Record) → In x l → In x (to_front o l)
In-to_front none x l h = h
In-to_front (some q) x l h = inr h

-- A purge keeps every record that is not old and every tags record, and for each state and each
-- configuration record it keeps one of the same type that is not older.
pub purge_old_records-IsSpread :
    (m : RecordManager) (oldest : ℕ) (recycle_buffers : Bool) (x : Record)
    → In x m.active_records
    → IsSpread oldest (purge_old_records m oldest recycle_buffers).0.active_records x
unfolding purge_old_records
purge_old_records-IsSpread m oldest b x h =
    let (rest, s) = purge_loop b m.max_cache_size oldest m.active_records (purge_start m) in
    elim (purge_loop_spread b m.max_cache_size oldest m.active_records (purge_start m) x
      (record { state_typed = tt; configuration_typed = tt }) h) [
        | inl stays ↦
            let found =
              In-append_right x s.tags_records _
                (In-to_front s.last_configuration x _ (In-to_front s.last_state x rest stays)) in
            record {
              recent = λ _. found;
              tagged = λ _. found;
              newest_state = λ y. (x, found, y, omega arith);
              newest_configuration = λ y. (x, found, y, omega arith);
            }
        | inr (old, kept) ↦ record {
          recent = λ young. absurd (omega arith);
          tagged = λ y. In-append_left x s.tags_records _ (kept.0 y);
          newest_state = λ y.
              let (q, i, t, le) = Covers-to_front state s.last_state x rest (kept.1 y) in
              (
                q,
                In-append_right q s.tags_records _ (In-to_front s.last_configuration q _ i),
                t,
                le,
              );
          newest_configuration = λ y.
              let (q, i, t, le) =
                Covers-to_front configuration s.last_configuration x (to_front s.last_state rest)
                  (kept.2 y) in
              (q, In-append_right q s.tags_records _ i, t, le);
        }
      ]

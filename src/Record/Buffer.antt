-- ===== src/Record/Buffer.antt =====
-- What `Record::set` leaves in a record's buffer.
use vrs.Base.{ℕ, ◌-◌, ◌≤◌, ◌≡◌, refl, ◌∙◌, ap, arith, max, inl, inr}
use vrs.Base.{List, [], ◌∷◌, length, take, drop, replicate, ltb, Bool-cases, ltb→lt, lt→ltb}
use vrs.Base.{length-append, length-drop, length-take, length-replicate, take-append}
use vrs.Record.{Record, RecordType, copy_to, resize, set_buffer, set_record}

-- The vector's size is at most its capacity.
pub record IsWithin (r : Record) : Type 0 where
  pub size : length r.buffer ≤ r.buffer_capacity

length-copy_to : (bytes old : List ℕ) → length (copy_to bytes old) ≡ max (length bytes) (length old)
length-copy_to bytes old =
    omega (arith, length-append bytes (drop (length bytes) old), length-drop (length bytes) old)

length-resize : (old : List ℕ) (n : ℕ) → length (resize old n) ≡ n
length-resize old n = omega (
  arith,
  length-append (take n old) (replicate (n - length old) 0),
  length-take n old,
  length-replicate {A = ℕ} (n - length old) 0,
)

set_buffer_shape :
    (r : Record) (bytes : List ℕ) → (old : List ℕ) × (set_buffer r bytes ≡ copy_to bytes old)
set_buffer_shape r bytes = elim (Bool-cases (ltb (length r.buffer) (length bytes))) [
  | inl e ↦ elim (Bool-cases (ltb r.buffer_capacity (length bytes))) [
    | inl f ↦ (resize (resize r.buffer 0) (length bytes), rw (e, f))
    | inr f ↦ (resize r.buffer (length bytes), rw (e, f))
  ]
  | inr e ↦ (r.buffer, rw e)
]

length-set_buffer :
    (r : Record) (bytes : List ℕ)
    → length (set_buffer r bytes) ≡ max (length bytes) (length r.buffer)
length-set_buffer r bytes = elim (Bool-cases (ltb (length r.buffer) (length bytes))) [
  | inl e ↦ elim (Bool-cases (ltb r.buffer_capacity (length bytes))) [
    | inl f ↦ rw (e, f, length-copy_to, length-resize) (omega (arith, ltb→lt _ _ e))
    | inr f ↦ rw (e, f, length-copy_to, length-resize) (omega (arith, ltb→lt _ _ e))
  ]
  | inr e ↦ rw (e, length-copy_to)
]

take-set_buffer : (r : Record) (bytes : List ℕ) → take (length bytes) (set_buffer r bytes) ≡ bytes
take-set_buffer r bytes =
    let (old, e) = set_buffer_shape r bytes in
    ap (take (length bytes)) e ∙ take-append bytes (drop (length bytes) old)

-- Whatever the record held, the used part of its buffer is the data that was set.
pub set_record_payload :
    (r : Record) (adjusted timestamp : ℕ) (t : RecordType) (version : ℕ) (bytes : List ℕ)
    (order : ℕ)
    → let s = set_record r adjusted timestamp t version bytes order in
      take s.buffer_used_size s.buffer ≡ bytes
unfolding set_record
set_record_payload r adjusted timestamp t version [] order = refl
set_record_payload r adjusted timestamp t version (b ∷ bytes) order =
    rw (lt→ltb 0 (length (b ∷ bytes)) (omega arith)) (take-set_buffer r (b ∷ bytes))

set_record-IsWithin :
    (r : Record) (adjusted timestamp : ℕ) (t : RecordType) (version : ℕ) (bytes : List ℕ)
    (order : ℕ)
    → IsWithin r
    → IsWithin (set_record r adjusted timestamp t version bytes order)
unfolding set_record
set_record-IsWithin r adjusted timestamp t version bytes order h = record {
  size = ground (arith, h.size, length-set_buffer r bytes);
}

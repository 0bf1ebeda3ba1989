-- ===== src/IndexRecord/Chunks.antt =====
-- Where a split index and the first user record are taken to be.
use vrs.Base.{
  ℕ, ◌+◌, ◌-◌, ◌*◌, ◌/◌, ◌%◌, ◌^◌, ◌≤◌, ◌<◌, ◌≡◌, refl, arith, true, false, ◌&&◌, ◌||◌, not, inl,
  inr, ◌⊎◌,
}
use vrs.Base.{some, subst, ltb, leb, ◌==◌, Bool-cases, if◌then◌else◌}
use vrs.FileFormat.{signed_less}
use vrs.IndexRecord.{
  SplitPlan, head_chunk_plan, plan_head_chunk, plan_split, entries_to_read, is_still_complete,
  size_of_disk_record_info,
}

-- A plan for the chunk that ends at `next_chunk_start`: it reads no byte beyond the chunk's end, the
-- records do not start behind it, and a complete index has the size and the place that the headers
-- say.
pub record IsSound (current_pos next_chunk_start index_byte_size first_user_record_offset : ℕ)
    (plan : SplitPlan) : Type 0 where
  pub reads_within : current_pos + plan.index_byte_size ≤ next_chunk_start
  pub starts_within : signed_less next_chunk_start plan.first_user_record_offset ≡ false
  pub complete :
      (plan.index_complete ≡ false)
      ⊎ (plan.index_byte_size ≡ index_byte_size)
        × (plan.first_user_record_offset ≡ first_user_record_offset)
        × (signed_less 0 first_user_record_offset ≡ true)

-- The index is complete in the end: the bytes of the entries are those that the header says, none is
-- left over, and all the entries are read.
pub record IsWhole (plan : SplitPlan) (uncompressed_size read_count : ℕ) : Type 0 where
  pub planned : plan.index_complete ≡ true
  pub exact :
      (entries_to_read uncompressed_size plan.index_byte_size).0 * size_of_disk_record_info
      ≡ (if uncompressed_size == 0 then plan.index_byte_size else uncompressed_size)
  pub all_read :
      (uncompressed_size ≡ 0)
      ⊎ ((entries_to_read uncompressed_size plan.index_byte_size).0 ≤ read_count)

not_signed_less : (a b : ℕ) → b < a → a < 2 ^ 63 → signed_less a b ≡ false
not_signed_less a b h small = ground arith

head_chunk_plan-IsSound :
    (total current_pos next_chunk_start index_byte_size first : ℕ)
    → current_pos < next_chunk_start
    → IsSound current_pos next_chunk_start index_byte_size first
        (head_chunk_plan total current_pos next_chunk_start index_byte_size first)
head_chunk_plan-IsSound total current_pos next_chunk_start index_byte_size first h = record {
  reads_within = ground arith;
  starts_within = ground arith;
  complete = ground arith;
}

exact_entries : (size : ℕ) → (size % 19 == 0) ≡ true → (size - size % 19) / 19 * 19 ≡ size
exact_entries size e = let none_left : size % 19 ≡ 0 = ground arith in omega arith

is_still_complete-IsWhole :
    (plan : SplitPlan) (uncompressed_size read_count : ℕ)
    → is_still_complete plan uncompressed_size read_count ≡ true
    → IsWhole plan uncompressed_size read_count
unfolding is_still_complete entries_to_read
is_still_complete-IsWhole plan uncompressed_size read_count e = record {
  planned = ground arith;
  exact =
      exact_entries (if uncompressed_size == 0 then plan.index_byte_size else uncompressed_size)
        (ground arith);
  all_read = ground arith;
}

chunk-IsSound :
    (total current_pos chunk_start chunk_size index_byte_size first : ℕ) (plan : SplitPlan)
    → chunk_start + chunk_size < 2 ^ 63
    → plan_split total current_pos chunk_start chunk_size index_byte_size first ≡ some plan
    → IsSound current_pos (chunk_start + chunk_size) index_byte_size first plan
unfolding plan_split plan_head_chunk
chunk-IsSound total current_pos chunk_start chunk_size index_byte_size first plan small e =
    let next = chunk_start + chunk_size in
    elim (Bool-cases
      (not (ltb 0 chunk_size) || not (leb chunk_start current_pos && ltb current_pos next))) [
        | inl f ↦ absurd (ground arith)
        | inr f ↦
            let inside : current_pos < next = ground (arith, f) in
            elim (Bool-cases (chunk_start == 0)) [
              | inr g ↦
                  let found : record {
                    index_byte_size = 0;
                    first_user_record_offset = current_pos;
                    index_complete = false;
                    has_split_head_chunk = ltb chunk_start total;
                  }
                      ≡ plan =
                    ground arith in
                  subst (IsSound current_pos next index_byte_size first) found (record {
                    reads_within = omega (arith, inside);
                    starts_within = not_signed_less next current_pos inside small;
                    complete = inl refl;
                  })
              | inl g ↦ elim (Bool-cases (index_byte_size == 0 && (next == total && first == 0))) [
                | inl k ↦ absurd (ground arith)
                | inr k ↦
                    let found : head_chunk_plan total current_pos next index_byte_size first
                        ≡ plan =
                      ground arith in
                    subst (IsSound current_pos next index_byte_size first) found
                      (head_chunk_plan-IsSound total current_pos next index_byte_size first inside)
              ]
            ]
      ]

-- In a chunk that ends before 2 ^ 63: where `readSplitIndexRecord` goes on to read, it reads no byte
-- of the index beyond the current chunk and takes the user records to start at its end at the
-- latest. Where the index is complete after its entries were read, the bytes to read are those that
-- the index record's header says, the user records start where the file's header says, which is a
-- positive offset, and the entries are whole, with no byte left over and, if they are compressed,
-- none missing.
pub plan_split-IsSound :
    (total current_pos chunk_start chunk_size index_byte_size first : ℕ) (plan : SplitPlan)
    (uncompressed_size read_count : ℕ)
    → chunk_start + chunk_size < 2 ^ 63
    → plan_split total current_pos chunk_start chunk_size index_byte_size first ≡ some plan
    → IsSound current_pos (chunk_start + chunk_size) index_byte_size first plan
      × ((is_still_complete plan uncompressed_size read_count ≡ false)
          ⊎ IsWhole plan uncompressed_size read_count)
plan_split-IsSound total current_pos chunk_start chunk_size index_byte_size first plan
      uncompressed_size read_count small e =
    (
      chunk-IsSound total current_pos chunk_start chunk_size index_byte_size first plan small e,
      elim (Bool-cases (is_still_complete plan uncompressed_size read_count)) [
        | inl f ↦ inr (is_still_complete-IsWhole plan uncompressed_size read_count f)
        | inr f ↦ inl f
      ],
    )

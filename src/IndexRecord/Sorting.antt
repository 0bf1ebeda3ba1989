-- ===== src/IndexRecord/Sorting.antt =====
-- `sortErrorCount_` counts the records of the index that are lower than the one before.
use vrs.Base.{ℕ, ◌+◌, ◌≡◌, refl, arith, ◌||◌, inl, inr, ◌⊎◌}
use vrs.Base.{none, some, Option-cases, List, [], ◌∷◌, ◌++◌, ltb, if◌then◌else◌, Bool-cases}
use vrs.FileReader.{RecordInfo, info_less}
use vrs.IndexRecord.{
  DiskRecordInfo, IndexReader, emplace, lower_than_back, info_at, read_classic, read_split,
  take_split_entry,
}

-- The neighbours that are out of order.
abbrev pub inversions : List RecordInfo → ℕ
inversions [] = 0
inversions (r ∷ []) = 0
inversions (r ∷ s ∷ rest) = (if info_less s r then 1 else 0) + inversions (s ∷ rest)

inversions-snoc :
    (l : List RecordInfo) (new : RecordInfo)
    → inversions (l ++ (new ∷ [])) ≡ inversions l + (if lower_than_back new l then 1 else 0)
unfolding lower_than_back
inversions-snoc [] new = refl
inversions-snoc (r ∷ []) new = omega arith
inversions-snoc (r ∷ s ∷ rest) new = omega (arith, inversions-snoc (s ∷ rest) new)

abbrev pub IsCounted : IndexReader → Type 0
IsCounted reader = reader.sort_error_count ≡ inversions reader.index

emplace-IsCounted :
    (new : RecordInfo) (reader : IndexReader) → IsCounted reader → IsCounted (emplace new reader)
unfolding emplace
emplace-IsCounted new reader w = omega (arith, w, inversions-snoc reader.index new)

read_classic-IsCounted :
    (count : ℕ) (entries : List DiskRecordInfo) (reader : IndexReader) (offset : ℕ)
    → IsCounted reader
    → IsCounted (read_classic count entries reader offset).0
unfolding read_classic
read_classic-IsCounted count [] reader offset w = w
read_classic-IsCounted count (d ∷ rest) reader offset w =
    elim (Bool-cases (ltb reader.total_file_size (offset + d.record_size))) [
      | inl e ↦ rw e w
      | inr e ↦ rw e (
          read_classic-IsCounted count rest (emplace (info_at d offset) reader)
            (offset + d.record_size) (emplace-IsCounted (info_at d offset) reader w))
    ]

take_split_entry-IsCounted :
    (d : DiskRecordInfo) (reader : IndexReader) (used : ℕ)
    → IsCounted reader
    → IsCounted (take_split_entry d reader used).0
unfolding take_split_entry
take_split_entry-IsCounted d reader used w =
    elim (Bool-cases
      (ltb 0 reader.dropped_record_count || ltb reader.total_file_size (used + d.record_size))) [
        | inl e ↦ rw e w
        | inr e ↦ rw e (emplace-IsCounted (info_at d used) reader w)
      ]

read_split-IsCounted :
    (entries : List DiskRecordInfo) (reader reader' : IndexReader) (used used' : ℕ)
    → IsCounted reader
    → read_split entries reader used ≡ some (reader', used')
    → IsCounted reader'
unfolding read_split
read_split-IsCounted [] reader reader' used used' w e =
    let same_reader : reader ≡ reader' = ground arith in rw (← same_reader) w
read_split-IsCounted (d ∷ rest) reader reader' used used' w e =
    elim (Bool-cases (ltb d.record_size reader.record_header_size)) [
      | inl small ↦ absurd (ground arith)
      | inr large ↦
          let (next, next_used) = take_split_entry d reader used in
          read_split-IsCounted rest next reader' next_used used'
            (take_split_entry-IsCounted d reader used w) (ground arith)
    ]

-- Started with a count of sort errors that is the number of neighbours of the index that are out
-- of order, the loop of the classic index leaves such a count; that of the split index returns the
-- error, or leaves such a count too.
pub read_split-read_classic-IsCounted :
    (entries : List DiskRecordInfo) (reader : IndexReader) (used count : ℕ)
    → IsCounted reader
    → IsCounted (read_classic count entries reader used).0
      × ((read_split entries reader used ≡ none)
          ⊎ ((reader' : IndexReader) × (used' : ℕ) × (read_split entries reader used
                ≡ some (reader', used'))
              × IsCounted reader'))
read_split-read_classic-IsCounted entries reader used count w = (
  read_classic-IsCounted count entries reader used w,
  elim (Option-cases (read_split entries reader used)) [
    | inl e ↦ inl e
    | inr ((reader', used'), e) ↦
        inr (reader', used', e, read_split-IsCounted entries reader reader' used used' w e)
  ],
)

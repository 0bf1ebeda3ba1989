-- ===== src/MultiFileReader/Lookup/ByTime.antt =====
-- The lookup by time over several files, `getRecordByTime` of vrs/MultiRecordFileReader.cpp.
use vrs.Base.{
  ℕ, suc, ◌≤◌, ◌<◌, ◌≡◌, refl, ◌∙◌, ap, arith, Bool, true, false, ◌||◌, inl, inr, ◌⊎◌, subst, ltb,
  leb,
}
use vrs.Base.{Option, none, some, List, [], ◌∷◌, All, All-map, Bool-cases, get_elem?}
use vrs.Base.Sums.{SameElements, SameElements-All}
use vrs.Base.Sorted.{IsSortedBy}
use vrs.Record.{undefined}
use vrs.FileReader.ByTime.{find_by_time}
use vrs.FileReader.ByTime.Found.{first_where, find_by_time-first_where}
use vrs.MultiFileReader.{SourceReader, RecordPointer, has_single_file}
use vrs.MultiFileReader.Merge.{time_of}
use vrs.MultiFileReader.Merge.Index.{all_pointers}
use vrs.MultiFileReader.Open.{MultiReader}
use vrs.MultiFileReader.Open.Ready.{IsOpened}
use vrs.MultiFileReader.Lookup.Member.{same_member}
use vrs.MultiFileReader.Lookup.{info_of, index_of, global_index, get_record_by_time}

-- Among the records of the files: all are earlier than the time, or `p` is one of them that is not
-- earlier, and no record that is not earlier is before `p`.
pub IsFirst : ℕ → List SourceReader → Option RecordPointer → Type 0
IsFirst time files none = All (λ (q : RecordPointer). time_of q < time) (all_pointers 0 files)
IsFirst time files (some p) =
    ((i : ℕ) × (get_elem? (all_pointers 0 files) i ≡ some p))
    × (time ≤ time_of p)
    × All (λ (q : RecordPointer). (time_of q < time) ⊎ (time_of p ≤ time_of q))
        (all_pointers 0 files)

-- The record that a search from the front finds, as tests on the others.
abbrev is_earlier : ℕ → Option RecordPointer → RecordPointer → Bool
is_earlier time none q = ltb (time_of q) time
is_earlier time (some p) q = ltb (time_of q) time || leb (time_of p) (time_of q)

abbrev not_before : ℕ → RecordPointer → Bool
not_before time p = leb time (time_of p)

is_earlier-cons :
    (time : ℕ) (o : Option RecordPointer) (index : List RecordPointer) (q : RecordPointer)
    → time_of q < time
    → All (λ (r : RecordPointer). is_earlier time o r ≡ true) index
    → All (λ (r : RecordPointer). is_earlier time o r ≡ true) (q ∷ index)
is_earlier-cons time none index q lt h = (ground arith, h)
is_earlier-cons time (some p) index q lt h = (ground arith, h)

first_where-is_earlier :
    (time : ℕ) (index : List RecordPointer)
    → IsSortedBy time_of index
    → All
        (λ (q : RecordPointer). is_earlier time (first_where (not_before time) index) q ≡ true)
        index
first_where-is_earlier time [] s = tt
first_where-is_earlier time (p ∷ index) s =
    let Fits : Option RecordPointer → Type 0 =
      λ o. All (λ (q : RecordPointer). is_earlier time o q ≡ true) (p ∷ index) in
    elim (Bool-cases (not_before time p)) [
      | inl e ↦
          let here : some p ≡ first_where (not_before time) (p ∷ index) = rw e refl in
          subst Fits here (
            ground arith,
            All-map (λ (q : RecordPointer). time_of p ≤ time_of q) _ (λ q le. ground arith) index
                s.0,
          )
      | inr e ↦
          let later : first_where (not_before time) index
              ≡ first_where (not_before time) (p ∷ index) =
            rw e refl in
          subst Fits later (
            is_earlier-cons time (first_where (not_before time) index) index p (ground arith)
              (first_where-is_earlier time index s.1))
    ]

first_where-not_before :
    (time : ℕ) (index : List RecordPointer) {p : RecordPointer}
    → first_where (not_before time) index ≡ some p
    → time ≤ time_of p
first_where-not_before time [] e = cc
first_where-not_before time (q ∷ index) {p} e = elim (Bool-cases (not_before time q)) [
  | inl f ↦ ground (arith, rw f at e)
  | inr f ↦ first_where-not_before time index (rw f at e)
]

first_where-get_elem? :
    (time : ℕ) (index : List RecordPointer) {p : RecordPointer}
    → first_where (not_before time) index ≡ some p
    → (i : ℕ) × (get_elem? index i ≡ some p)
first_where-get_elem? time [] e = absurd cc
first_where-get_elem? time (q ∷ index) {p} e = elim (Bool-cases (not_before time q)) [
  | inl f ↦ (0, rw f at e)
  | inr f ↦ let (i, at) = first_where-get_elem? time index (rw f at e) in (suc i, at)
]

-- From the tests to the statement.
IsFirst-tests :
    (time : ℕ) (files : List SourceReader) (index : List RecordPointer) (o : Option RecordPointer)
    → SameElements index (all_pointers 0 files)
    → first_where (not_before time) index ≡ o
    → All (λ (q : RecordPointer). is_earlier time o q ≡ true) index
    → IsFirst time files o
unfolding IsFirst
IsFirst-tests time files index none held e h =
    All-map (λ (q : RecordPointer). is_earlier time none q ≡ true) _ (λ q t. ground arith)
      (all_pointers 0 files) (SameElements-All (is_earlier time none) index _ held h)
IsFirst-tests time files index (some p) held e h = (
  (let (i, at) = first_where-get_elem? time index e in
      same_member index (all_pointers 0 files) i p held at),
  first_where-not_before time index e,
  All-map (λ (q : RecordPointer). is_earlier time (some p) q ≡ true) _
      (λ q t. elim (Bool-cases (ltb (time_of q) time)) [
        | inl f ↦ inl (ground arith)
        | inr f ↦ inr (ground arith)
      ])
      (all_pointers 0 files) (SameElements-All (is_earlier time (some p)) index _ held h),
)

index_of_several :
    (files : List SourceReader) (index : List RecordPointer)
    → has_single_file files ≡ false
    → index_of files (some index) ≡ index
index_of_several [] index e = refl
index_of_several (r ∷ []) index e = absurd (ground arith)
index_of_several (r ∷ s ∷ rest) index e = refl

-- In a reader that is open on several files, the lookup by time looks at the records of all the
-- files: it finds none just when all are earlier than the time, and else one of these records that
-- is not earlier, where every record of every file is earlier than the time or not before the one
-- found.
pub get_record_by_time-IsFirst :
    (files : List SourceReader) (m : MultiReader) (time : ℕ)
    → has_single_file files ≡ false
    → IsOpened files m
    → IsFirst time files (get_record_by_time m time)
unfolding get_record_by_time
get_record_by_time-IsFirst files m time several w =
    let whole : global_index m ≡ w.index =
      ap (λ (l : List SourceReader). index_of l m.record_index) w.has_files
      ∙ ap (index_of files) w.has_index
      ∙ index_of_several files w.index several in
    let found : find_by_time info_of (global_index m) time ≡ first_where (not_before time) w.index =
      ap (λ (l : List RecordPointer). find_by_time info_of l time) whole
      ∙ (find_by_time-first_where info_of undefined time w.index w.sorted).0 in
    rw (w.opened, found)
      (IsFirst-tests time files w.index (first_where (not_before time) w.index) w.held refl
        (first_where-is_earlier time w.index w.sorted))

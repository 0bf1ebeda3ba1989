-- ===== src/MultiFileReader/Open/Failed.antt =====
-- `open` of vrs/MultiRecordFileReader.cpp where it fails: `close` does nothing on a reader that is not
-- open yet, so the files that were opened stay.
use vrs.Base.{◌≡◌, refl, arith, Bool, true, false, ◌&&◌, inl, inr}
use vrs.Base.{some, List, [], ◌∷◌, ◌++◌, Bool-cases}
use vrs.FileReader.{is_empty}
use vrs.FileReader.Tags.{Text}
use vrs.MultiFileReader.{SourceReader}
use vrs.MultiFileReader.Related.{are_files_related}
use vrs.MultiFileReader.Open.{
  Status, invalid_request, is_success, MultiReader, Opening, open_files, close, fail, opening,
  with_files, open_specs,
}

is_empty-append :
    (readers : List SourceReader) (r : SourceReader) → is_empty (readers ++ (r ∷ [])) ≡ false
is_empty-append [] r = refl
is_empty-append (s ∷ readers) r = refl

module _ {FileSpec : Type 0} (open_file : FileSpec → Status × SourceReader)
    (close_file : SourceReader → Status) (get_easy_path : FileSpec → Text) where
  open_files-is_empty :
      (specs : List FileSpec) (o : Opening)
      → is_empty o.readers ≡ false
      → is_empty (open_files open_file close_file get_easy_path specs o).readers ≡ false
  unfolding open_files
  open_files-is_empty [] o h = h
  open_files-is_empty (spec ∷ specs) o h = elim (Bool-cases (is_success (open_file spec).0)) [
    | inl e ↦ rw e (open_files-is_empty specs _ (is_empty-append o.readers (open_file spec).1))
    | inr e ↦ rw e (is_empty-append o.readers (open_file spec).1)
  ]

  -- Some file was tried, so some reader is there.
  some_reader :
      (specs : List FileSpec) (o : Opening)
      → is_empty specs ≡ false
      → is_empty (open_files open_file close_file get_easy_path specs o).readers ≡ false
  unfolding open_files
  some_reader [] o h = absurd (ground arith)
  some_reader (spec ∷ specs) o h = elim (Bool-cases (is_success (open_file spec).0)) [
    | inl e ↦ rw e (open_files-is_empty specs _ (is_empty-append o.readers (open_file spec).1))
    | inr e ↦ rw e (is_empty-append o.readers (open_file spec).1)
  ]

  -- All the files open, and they are related.
  abbrev pub can_open : List FileSpec → MultiReader → Bool
  can_open specs m =
      is_success (opening open_file close_file get_easy_path specs m).status
      && are_files_related (opening open_file close_file get_easy_path specs m).readers

  open_again :
      (others : List FileSpec) (m : MultiReader)
      → is_empty m.readers ≡ false
      → open_specs open_file close_file get_easy_path others m ≡ some (invalid_request, m)
  unfolding open_specs
  open_again others m e =
      rw e (elim (Bool-cases (is_empty others)) [ inl f ↦ rw f refl | inr f ↦ rw f refl ])

  fail-closed :
      (status : Status) (m : MultiReader)
      → m.is_opened ≡ false
      → fail open_file close_file get_easy_path status m ≡ some (status, m)
  unfolding close
  fail-closed status m e = rw e refl

  -- What a reader that is not open, with no file in it, keeps of a failed `open`.
  failed-open_specs :
      (specs : List FileSpec) (m : MultiReader)
      → m.is_opened ≡ false
      → m.readers ≡ []
      → is_empty specs ≡ false
      → can_open specs m ≡ false
      → (status : Status) × (is_success status ≡ false)
        × (open_specs open_file close_file get_easy_path specs m
            ≡ some (
              status,
              with_files open_file close_file get_easy_path
                  (opening open_file close_file get_easy_path specs m)
                  m,
            ))
  unfolding open_specs
  failed-open_specs specs m closed none_yet given bad =
      let o = opening open_file close_file get_easy_path specs m in
      let m' = with_files open_file close_file get_easy_path o m in
      let fresh : is_empty m.readers ≡ true = rw none_yet refl in
      elim (Bool-cases (is_success o.status)) [
        | inr e ↦ rw (given, fresh, e) (o.status, e, fail-closed o.status m' closed)
        | inl e ↦
            let unrelated : are_files_related o.readers ≡ false = ground arith in
            rw (given, fresh, e, unrelated)
              (invalid_request, refl, fail-closed invalid_request m' closed)
      ]

  -- Take a reader that is not open and holds no file, and a list of files of which one does not
  -- open, or which are not related. Then `open` returns an error, and the reader is not open; but
  -- every later `open`, of whatever files, is refused as a second one, with INVALID_REQUEST.
  pub open_specs-open_specs_failed :
      (specs others : List FileSpec) (m : MultiReader)
      → m.is_opened ≡ false
      → m.readers ≡ []
      → is_empty specs ≡ false
      → can_open specs m ≡ false
      → (status : Status) × (m' : MultiReader) × (open_specs open_file close_file get_easy_path
            specs m
          ≡ some (status, m'))
        × (is_success status ≡ false)
        × (m'.is_opened ≡ false)
        × (open_specs open_file close_file get_easy_path others m' ≡ some (invalid_request, m'))
  open_specs-open_specs_failed specs others m closed none_yet given bad =
      let o = opening open_file close_file get_easy_path specs m in
      let m' = with_files open_file close_file get_easy_path o m in
      let (status, failed, found) = failed-open_specs specs m closed none_yet given bad in
      (status, m', found, failed, closed, open_again others m' (some_reader specs _ given))

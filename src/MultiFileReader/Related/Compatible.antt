-- ===== src/MultiFileReader/Related/Compatible.antt =====
-- `areFilesRelated` of vrs/MultiRecordFileReader.cpp compares each file with one other only; that is
-- enough for all pairs.
use vrs.Base.{◌≡◌, refl, sym, ◌∙◌, arith, true, false, ◌||◌, inl, inr, ◌↔◌}
use vrs.Base.{List, [], ◌∷◌, All, All-map, Bool-cases}
use vrs.FileReader.{is_empty}
use vrs.FileReader.Tags.{Text, same_text, same_text→≡, same_text_refl}
use vrs.MultiFileReader.{SourceReader, has_single_file}
use vrs.MultiFileReader.Related.{
  file_tag, expected_value, values_match, tag_matches, tags_match, are_files_related,
  related_file_tags, empty_text, AreCompatible, AllCompatible,
}

all_compatible :
    (tag : Text) (r : SourceReader) (rest : List SourceReader)
    → file_tag tag r ≡ []
    → All (AreCompatible tag r) rest
all_compatible tag r [] e = tt
all_compatible tag r (s ∷ rest) e = (inl e, all_compatible tag r rest e)

AreCompatible-same :
    (tag : Text) (a r : SourceReader) (rest : List SourceReader)
    → file_tag tag a ≡ file_tag tag r
    → All (AreCompatible tag a) rest
    → All (AreCompatible tag r) rest
AreCompatible-same tag a r rest e h =
    All-map _ _
      (λ s c. elim c [
        | inl none_here ↦ inl (sym e ∙ none_here)
        | inr (inl none_there) ↦ inr (inl none_there)
        | inr (inr equal) ↦ inr (inr (sym e ∙ equal))
      ])
      rest h

values_match-AllCompatible :
    (tag : Text) (a : SourceReader) (rest : List SourceReader)
    → values_match tag (file_tag tag a) rest ≡ true
    → All (AreCompatible tag a) rest × AllCompatible tag rest
unfolding values_match AllCompatible
values_match-AllCompatible tag a [] h = (tt, tt)
values_match-AllCompatible tag a (r ∷ rest) h =
    let later : values_match tag (file_tag tag a) rest ≡ true = ground arith in
    let w = values_match-AllCompatible tag a rest later in
    elim (Bool-cases (is_empty (file_tag tag r))) [
      | inl e ↦
          let missing = empty_text (file_tag tag r) e in
          ((inr (inl missing), w.0), (all_compatible tag r rest missing, w.1))
      | inr e ↦
          let equal = same_text→≡ (file_tag tag a) (file_tag tag r) (ground arith) in
          ((inr (inr equal), w.0), (AreCompatible-same tag a r rest equal w.0, w.1))
    ]

AllCompatible-values_match :
    (tag : Text) (a : SourceReader) (rest : List SourceReader)
    → is_empty (file_tag tag a) ≡ false
    → All (AreCompatible tag a) rest
    → values_match tag (file_tag tag a) rest ≡ true
unfolding values_match
AllCompatible-values_match tag a [] n h = refl
AllCompatible-values_match tag a (r ∷ rest) n h =
    let later = AllCompatible-values_match tag a rest n h.1 in
    elim h.0 [
      | inl e ↦ absurd (ground (arith, n, e))
      | inr (inl e) ↦
          let gone : is_empty (file_tag tag r) ≡ true = rw e refl in rw (gone, later) refl
      | inr (inr e) ↦
          let equal : same_text (file_tag tag a) (file_tag tag r) ≡ true =
            rw (← e) (same_text_refl (file_tag tag a)) in
          rw (equal, later) (ground arith)
    ]

tag_matches-AllCompatible :
    (readers : List SourceReader) (tag : Text)
    → (tag_matches readers tag ≡ true) ↔ AllCompatible tag readers
unfolding tag_matches expected_value AllCompatible
tag_matches-AllCompatible [] tag = (λ h. tt, λ h. refl)
tag_matches-AllCompatible (r ∷ rest) tag = elim (Bool-cases (is_empty (file_tag tag r))) [
  | inl e ↦
      let w = tag_matches-AllCompatible rest tag in
      rw e (λ h. (all_compatible tag r rest (empty_text (file_tag tag r) e), w.0 h), λ h. w.1 h.1)
  | inr e ↦
      rw (e, e)
        (values_match-AllCompatible tag r rest, λ h. AllCompatible-values_match tag r rest e h.0)
]

tags_match-AllCompatible :
    (readers : List SourceReader) (tags : List Text)
    → (tags_match readers tags ≡ true) ↔ All (λ (tag : Text). AllCompatible tag readers) tags
unfolding tags_match
tags_match-AllCompatible readers [] = (λ h. tt, λ h. refl)
tags_match-AllCompatible readers (tag ∷ tags) =
    let here = tag_matches-AllCompatible readers tag in
    let later = tags_match-AllCompatible readers tags in
    (
      λ h. (here.0 (ground arith), later.0 (ground arith)),
      λ h. ground (arith, here.1 h.0, later.1 h.1),
    )

few_compatible :
    (readers : List SourceReader) (tags : List Text)
    → is_empty readers || has_single_file readers ≡ true
    → All (λ (tag : Text). AllCompatible tag readers) tags
unfolding AllCompatible
few_compatible readers [] h = tt
few_compatible [] (tag ∷ tags) h = (tt, few_compatible [] tags h)
few_compatible (r ∷ []) (tag ∷ tags) h = ((tt, tt), few_compatible (r ∷ []) tags h)
few_compatible (r ∷ s ∷ rest) (tag ∷ tags) h = absurd (ground arith)

-- Files count as related exactly when, for each related tag, any two of them are compatible: one
-- of the two does not have the tag, or has it empty, or both have the same value.
pub are_files_related-AllCompatible :
    (readers : List SourceReader)
    → (are_files_related readers ≡ true)
      ↔ All (λ (tag : Text). AllCompatible tag readers) related_file_tags
unfolding are_files_related
are_files_related-AllCompatible readers =
    let w = tags_match-AllCompatible readers related_file_tags in
    elim (Bool-cases (is_empty readers || has_single_file readers)) [
      | inl e ↦ rw e (λ h. few_compatible readers related_file_tags e, λ h. refl)
      | inr e ↦ rw e w
    ]

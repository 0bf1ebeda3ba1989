-- ===== src/MultiFileReader/Related.antt =====
-- `areFilesRelated` of vrs/MultiRecordFileReader.cpp: the related tags have one value at most.
pub mod Compatible
use vrs.Base.{
  ◌≡◌, refl, sym, ◌∙◌, arith, Bool, true, false, ◌&&◌, ◌||◌, ◌==◌, ==_iff, inl, inr, ◌⊎◌, ◌↔◌, ap,
}
use vrs.Base.{List, [], ◌∷◌, length, All, All-map, Bool-cases, if◌then◌else◌, ℕ, subst}
use vrs.FileReader.{is_empty}
use vrs.FileReader.Tags.{Text, same_text, get_tag}
use vrs.MultiFileReader.{SourceReader, has_single_file}

-- `tag_conventions::kCaptureTimeEpoch`
abbrev pub capture_time_epoch : Text
capture_time_epoch =
    b'c' ∷ b'a' ∷ b'p' ∷ b't' ∷ b'u' ∷ b'r' ∷ b'e' ∷ b'_' ∷ b't' ∷ b'i' ∷ b'm' ∷ b'e' ∷ b'_' ∷ b'e'
    ∷ b'p' ∷ b'o' ∷ b'c' ∷ b'h' ∷ []

-- `tag_conventions::kSessionId`
abbrev pub session_id : Text
session_id = b's' ∷ b'e' ∷ b's' ∷ b's' ∷ b'i' ∷ b'o' ∷ b'n' ∷ b'_' ∷ b'i' ∷ b'd' ∷ []

-- `kRelatedFileTags`
abbrev pub related_file_tags : List Text
related_file_tags = capture_time_epoch ∷ session_id ∷ []

abbrev pub file_tag : Text → SourceReader → Text
file_tag tag r = get_tag r.file_tags tag

-- The `do` loop: the first value that is not empty, and the readers behind it.
unfoldable pub expected_value : Text → List SourceReader → Text × List SourceReader
expected_value tag [] = ([], [])
expected_value tag (r ∷ rest) =
    let later = expected_value tag rest in
    if is_empty (file_tag tag r) then later else (file_tag tag r, rest)

-- The `while` loop over the readers behind.
unfoldable pub values_match : Text → Text → List SourceReader → Bool
values_match tag expected [] = true
values_match tag expected (r ∷ rest) =
    (is_empty (file_tag tag r) || same_text expected (file_tag tag r))
    && values_match tag expected rest

-- A round of the `for` loop.
unfoldable pub tag_matches : List SourceReader → Text → Bool
unfolding expected_value values_match
tag_matches readers tag =
    let (expected, rest) = expected_value tag readers in
    is_empty expected || values_match tag expected rest

unfoldable pub tags_match : List SourceReader → List Text → Bool
tags_match readers [] = true
tags_match readers (tag ∷ tags) = tag_matches readers tag && tags_match readers tags

unfoldable pub are_files_related : List SourceReader → Bool
unfolding tags_match
are_files_related readers =
    is_empty readers || has_single_file readers || tags_match readers related_file_tags

pub empty_text : (s : Text) → is_empty s ≡ true → s ≡ []
empty_text [] h = refl
empty_text (c ∷ s) h = absurd (ground arith)

-- Two files may go together by a tag: one does not have it, or both have the same value.
abbrev pub AreCompatible : Text → SourceReader → SourceReader → Type 0
AreCompatible tag a b =
    (file_tag tag a ≡ []) ⊎ (file_tag tag b ≡ []) ⊎ (file_tag tag a ≡ file_tag tag b)

-- Any two of the files may.
pub AllCompatible : Text → List SourceReader → Type 0
AllCompatible tag [] = Unit
AllCompatible tag (r ∷ rest) = All (AreCompatible tag r) rest × AllCompatible tag rest

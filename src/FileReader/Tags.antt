-- ===== src/FileReader/Tags.antt =====
-- The tags of a file and of its streams, and the streams that they select: vrs/RecordFileReader.cpp.
-- A text is the list of its bytes, a std::map of texts an association list.
use vrs.Base.{ℕ, suc, Bool, true, false, ◌&&◌, ◌||◌, ◌==◌, if◌then◌else◌}
use vrs.Base.{◌≡◌, refl, arith, List, [], ◌∷◌}
use vrs.StreamId.{StreamId, same, undefined, undefined_type_id}
use vrs.FileReader.{is_empty}

abbrev pub Text : Type 0
Text = List ℕ

abbrev pub same_text : Text → Text → Bool
same_text [] [] = true
same_text (c ∷ s) (d ∷ t) = c == d && same_text s t
same_text s t = false

pub same_text→≡ : (s t : Text) → same_text s t ≡ true → s ≡ t
same_text→≡ [] [] h = refl
same_text→≡ [] (d ∷ t) h = absurd (ground arith)
same_text→≡ (c ∷ s) [] h = absurd (ground arith)
same_text→≡ (c ∷ s) (d ∷ t) h =
    let head : c ≡ d = ground arith in
    let tail : s ≡ t = same_text→≡ s t (ground arith) in rw (head, tail) refl

pub same_text_refl : (s : Text) → same_text s s ≡ true
same_text_refl [] = refl
same_text_refl (c ∷ s) = ground (arith, same_text_refl s)

abbrev pub Tags : Type 0
Tags = List (Text × Text)

-- `getTag`: the value of a tag, which is empty for a missing one.
unfoldable pub get_tag : Tags → Text → Text
get_tag [] name = []
get_tag ((key, value) ∷ rest) name =
    let later = get_tag rest name in if same_text key name then value else later

pub record StreamTags : Type 0 where
  pub user : Tags
  pub vrs : Tags

abbrev pub no_tags : StreamTags
no_tags = record { user = []; vrs = [] }

-- `getTags(streamId)`: those of an unknown stream are empty.
unfoldable pub get_tags : List (StreamId × StreamTags) → StreamId → StreamTags
get_tags [] id = no_tags
get_tags ((key, tags) ∷ rest) id =
    let later = get_tags rest id in if same key id then tags else later

-- The selections, by the streams of a reader, the tags of a stream, and the name of the flavor tag,
-- `Recordable::getFlavorTagName()`.
module _ (tags_of : StreamId → StreamTags) (flavor_tag_name : Text) where
  abbrev pub get_flavor : StreamId → Text
  get_flavor id = get_tag (tags_of id).vrs flavor_tag_name

  abbrev pub is_selected : ℕ → Text → StreamId → Bool
  is_selected type_id flavor id =
      (type_id == undefined_type_id || id.type_id == type_id)
      && (is_empty flavor || same_text (get_flavor id) flavor)

  -- `getStreams(typeId, flavor)`
  unfoldable pub get_streams : List StreamId → ℕ → Text → List StreamId
  get_streams [] type_id flavor = []
  get_streams (id ∷ rest) type_id flavor =
      let later = get_streams rest type_id flavor in
      if is_selected type_id flavor id then id ∷ later else later

  -- The loop of `getStreamForFlavor`: `hitCount` grows at each hit.
  unfoldable pub flavor_at : List StreamId → ℕ → Text → ℕ → ℕ → StreamId
  flavor_at [] type_id flavor index_number hit_count = undefined
  flavor_at (id ∷ rest) type_id flavor index_number hit_count =
      let after_hit = flavor_at rest type_id flavor index_number (suc hit_count) in
      let after_miss = flavor_at rest type_id flavor index_number hit_count in
      if id.type_id == type_id && same_text (get_flavor id) flavor
      then (if hit_count == index_number then id else after_hit)
      else after_miss

  -- `getStreamForTag`
  unfoldable pub get_stream_for_tag : List StreamId → Text → Text → ℕ → StreamId
  get_stream_for_tag [] name tag type_id = undefined
  get_stream_for_tag (id ∷ rest) name tag type_id =
      let later = get_stream_for_tag rest name tag type_id in
      if (type_id == undefined_type_id || id.type_id == type_id)
        && same_text (get_tag (tags_of id).user name) tag
      then id
      else later

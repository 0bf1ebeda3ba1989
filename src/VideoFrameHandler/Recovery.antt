-- ===== src/VideoFrameHandler/Recovery.antt =====
-- `readMissingFrames`: from the frame that was refused to its group in the file, and back.
use vrs.Base.{
  ℕ, suc, ◌+◌, ◌-◌, ◌^◌, ◌≤◌, ◌<◌, ◌≡◌, refl, sym, subst, ◌∙◌, ap, arith, true, false, ◌&&◌, inl,
  inr, ◌⊎◌,
}
use vrs.Base.{
  Option, some, List, [], ◌∷◌, ◌++◌, ltb, ◌==◌, Bool-cases, take, drop, length, get_elem?,
  length-take, length-drop, take-append-drop,
}
use mathlib.Core.List.{append_assoc}
use vrs.Record.{data_type}
use vrs.FileReader.{RecordInfo, Pointer, FileReader, get_index}
use vrs.FileReader.Pointers.{stream_pointers, IsIndexed, get_index-IsIndexed}
use vrs.FileReader.ByTime.{find_type_by_time, pointer_info}
use vrs.FileReader.Query.{get_record_stream_index}
use vrs.FileReader.Query.Place.{get_record_stream_index-get_elem?}
use vrs.VideoFrameHandler.{
  Frame, Handler, success, is_missing_frames, next_index, read_frames, read_from_key_frame,
  read_missing_frames, get_frames_to_skip, invalid_frame_index,
}
use vrs.VideoFrameHandler.Missing.{IsGroup, IsPlayer, IsReady, IsAt, read_group, read_frames_skip}

IsGroup-append_inv :
    (frame_of : Pointer → Frame) (time i : ℕ) (xs ys : List Pointer)
    → IsGroup frame_of time i (xs ++ ys)
    → IsGroup frame_of time i xs × IsGroup frame_of time (i + length xs) ys
IsGroup-append_inv frame_of time i [] ys g =
    let here : i ≡ i + 0 = omega arith in (tt, subst (λ (n : ℕ). IsGroup frame_of time n ys) here g)
IsGroup-append_inv frame_of time i (x ∷ xs) ys g =
    let (front, back) = IsGroup-append_inv frame_of time (suc i) xs ys g.3 in
    let here : suc i + length xs ≡ i + length (x ∷ xs) = omega arith in
    ((g.0, g.1, g.2, front), subst (λ (n : ℕ). IsGroup frame_of time n ys) here back)

drop-length : (front back : List Pointer) → drop (length front) (front ++ back) ≡ back
drop-length [] back = refl
drop-length (x ∷ front) back = drop-length front back

get_elem?-length :
    (front back : List Pointer) (p : Pointer)
    → get_elem? (front ++ (p ∷ back)) (length front) ≡ some p
get_elem?-length [] back p = refl
get_elem?-length (x ∷ front) back p = get_elem?-length front back p

module _ {D : Type 0} where
  frames_to_skip_bound :
      (h : Handler D)
      → h.decoded_index < 2 ^ 32
      → (get_frames_to_skip h ≤ h.requested_index)
        × ((get_frames_to_skip h ≡ 0)
            ⊎ (h.decoded_timestamp ≡ h.requested_timestamp)
              × (h.decoded_index + 1 ≡ get_frames_to_skip h))
  unfolding get_frames_to_skip
  frames_to_skip_bound h small =
      elim (Bool-cases (
        h.is_video
        && h.decoded_timestamp == h.requested_timestamp
        && ltb (next_index h) h.requested_index)) [
          | inr e ↦ rw e (omega arith, inl refl)
          | inl e ↦ rw e (
            ground (arith, e),
            elim (Bool-cases (ltb h.decoded_index (2 ^ 32 - 1))) [
              | inl f ↦ inr (ground (arith, e), ground (arith, f))
              | inr f ↦ inl (ground (arith, f))
            ],
          )
        ]

module _ {D : Type 0} (make_decoder : List ℕ → Option D) (decode : D → Frame → D × ℕ)
    (read_record : Handler D → Pointer → Handler D × ℕ) (frame_of : Pointer → Frame) where
  abbrev IsHere : ℕ → ℕ → Handler D → Type 0
  IsHere = IsAt make_decoder decode read_record frame_of

  behind_passed :
      (time i last skip : ℕ) (passed rest tail : List Pointer) (h : Handler D)
      → IsPlayer make_decoder decode read_record frame_of
      → IsGroup frame_of time i passed × IsGroup frame_of time (i + skip) rest
      → length passed ≡ skip
      → i + skip + length rest ≡ suc last
      → i + skip ≤ last
      → last < 2 ^ 32
      → IsReady make_decoder decode read_record frame_of time (i + skip) h
      → let (h', answer) = read_frames read_record true last ((passed ++ rest) ++ tail) i skip h in
        (answer ≡ success) × IsHere time last h'
  behind_passed time i last skip passed [] tail h player g count whole le small ready =
      absurd (omega (arith, whole))
  behind_passed time i last skip passed (p ∷ rest) tail h player g count whole le small ready =
      rw
        (
          append_assoc passed (p ∷ rest) tail,
          read_frames_skip make_decoder decode read_record frame_of time i last skip passed
              ((p ∷ rest) ++ tail) h g.0 count le,
        )
        (read_group make_decoder decode read_record frame_of time (i + skip) last p rest tail h
          player g.1 (omega (arith, whole)) small ready)

  recover :
      (frames tail : List Pointer) (h : Handler D)
      → IsPlayer make_decoder decode read_record frame_of
      → IsGroup frame_of h.requested_timestamp 0 frames
      → length frames ≡ suc h.requested_index
      → h.requested_index < 2 ^ 32
      → h.decoded_index < 2 ^ 32
      → let (h', answer) =
          read_frames read_record true h.requested_index
            (frames ++ tail)
            0
            (get_frames_to_skip h)
            h in
        (answer ≡ success) × IsHere h.requested_timestamp h.requested_index h'
  recover frames tail h player g count small small_decoded =
      let skip = get_frames_to_skip h in
      let (bound, ready) = frames_to_skip_bound h small_decoded in
      let parts = take-append-drop skip frames in
      let front_length : length (take skip frames) ≡ skip =
        omega (arith, length-take skip frames, count, bound) in
      let groups =
        IsGroup-append_inv frame_of h.requested_timestamp 0 (take skip frames) (drop skip frames)
          (subst (IsGroup frame_of h.requested_timestamp 0) (sym parts) g) in
      let back =
        subst (λ (n : ℕ). IsGroup frame_of h.requested_timestamp n (drop skip frames))
          (ap (λ (n : ℕ). 0 + n) front_length) groups.1 in
      subst
        (λ (l : List Pointer).
          let (h', answer) = read_frames read_record true h.requested_index (l ++ tail) 0 skip h in
          (answer ≡ success) × IsHere h.requested_timestamp h.requested_index h')
        parts
        (behind_passed h.requested_timestamp 0 h.requested_index skip (take skip frames)
          (drop skip frames) tail h player (groups.0, back) front_length
          (omega (arith, length-drop skip frames, count, bound)) (omega (arith, bound)) small
          (ground (arith, ready)))

  from_key_frame :
      (reader : FileReader) (key : Pointer) (front more tail : List Pointer) (h : Handler D)
      → IsPlayer make_decoder decode read_record frame_of
      → IsIndexed reader
      → stream_pointers reader.record_index key.info.stream_id ≡ front ++ ((key ∷ more) ++ tail)
      → key.info.timestamp ≡ h.requested_timestamp
      → IsGroup frame_of h.requested_timestamp 0 (key ∷ more)
      → length more ≡ h.requested_index
      → h.requested_index < 2 ^ 32
      → h.decoded_index < 2 ^ 32
      → let (reader', (h', answer)) =
          read_from_key_frame read_record reader (some key) key.info.stream_id true h in
        (answer ≡ success) × IsHere h.requested_timestamp h.requested_index h'
  unfolding read_from_key_frame get_record_stream_index
  from_key_frame reader key front more tail h player w place same_time g count small small_decoded =
      let id = key.info.stream_id in
      let (same_index, same_records, same_requests, indexed) = get_index-IsIndexed reader id w in
      let reader' = (get_index reader id).0 in
      let again = get_index-IsIndexed reader' id indexed in
      let index : (get_index reader' id).1 ≡ front ++ ((key ∷ more) ++ tail) =
        again.0 ∙ ap (λ (l : List RecordInfo). stream_pointers l id) same_records ∙ place in
      let at : get_elem? (stream_pointers reader.record_index id) (length front) ≡ some key =
        ap (λ (l : List Pointer). get_elem? l (length front)) place
        ∙ get_elem?-length front (more ++ tail) key in
      let on_time : key.info.timestamp == h.requested_timestamp ≡ true =
        ground (arith, same_time) in
      let behind_front = drop-length front ((key ∷ more) ++ tail) in
      rw
        (
          on_time,
          get_record_stream_index-get_elem? reader key (length front) w at,
          index,
          behind_front,
        )
        (recover (key ∷ more) tail h player g (ap suc count) small small_decoded)

  -- When a frame, with an index that is valid, is missing, its stream's index has the records
  -- of its group one after the other from the key frame on, the search by time finds the key
  -- frame, with the time that was asked for, and reading a record decodes its frame without
  -- another error, then reading the missing frames exactly succeeds, and the frame is the last
  -- one decoded, with no frame missing.
  pub read_missing_frames-IsAt :
      (reader : FileReader) (key : Pointer) (front more tail : List Pointer) (h : Handler D)
      → IsPlayer make_decoder decode read_record frame_of
      → IsIndexed reader
      → stream_pointers reader.record_index key.info.stream_id ≡ front ++ ((key ∷ more) ++ tail)
      → find_type_by_time pointer_info data_type
          (front ++ ((key ∷ more) ++ tail))
          h.requested_timestamp
        ≡ some key
      → key.info.timestamp ≡ h.requested_timestamp
      → IsGroup frame_of h.requested_timestamp 0 (key ∷ more)
      → length more ≡ h.requested_index
      → h.requested_index < invalid_frame_index
      → h.decoded_index < 2 ^ 32
      → is_missing_frames h ≡ true
      → let (reader', (h', answer)) =
          read_missing_frames read_record reader key.info.stream_id true h in
        (answer ≡ success) × IsHere h.requested_timestamp h.requested_index h'
  unfolding read_missing_frames
  read_missing_frames-IsAt reader key front more tail h player w place found same_time g count valid
        small missing =
      let id = key.info.stream_id in
      let (same_index, same_records, same_requests, indexed) = get_index-IsIndexed reader id w in
      let invalid : h.requested_index == invalid_frame_index ≡ false = ground (arith, valid) in
      let index : (get_index reader id).1 ≡ front ++ ((key ∷ more) ++ tail) = same_index ∙ place in
      rw (missing, invalid, index, found)
        (from_key_frame (get_index reader id).0 key front more tail h player indexed
          (ap (λ (l : List RecordInfo). stream_pointers l id) same_records ∙ place) same_time g
          count (omega (arith, valid)) small)

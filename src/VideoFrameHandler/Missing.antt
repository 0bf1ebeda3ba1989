-- ===== src/VideoFrameHandler/Missing.antt =====
-- `readMissingFrames` reaches the frame that was asked for.
use vrs.Base.{
  ℕ, suc, ◌+◌, ◌-◌, ◌^◌, ◌≤◌, ◌<◌, ◌≡◌, refl, sym, ◌∙◌, ap, arith, true, false, inr, ◌⊎◌,
}
use vrs.Base.{Option, List, [], ◌∷◌, ◌++◌, ltb, leb, length}
use vrs.Record.{data_type}
use vrs.FileReader.{Pointer, has_type}
use vrs.VideoFrameHandler.{
  Frame, Handler, success, is_missing_frames, try_to_decode_frame, read_frames,
}
use vrs.VideoFrameHandler.Sequence.{try_to_decode_frame_good}

-- The records of the frames `first`, `first + 1`, ..., `last` of the group with the timestamp `time`.
abbrev pub IsGroup : (Pointer → Frame) → ℕ → ℕ → List Pointer → Type 0
IsGroup frame_of time first [] = Unit
IsGroup frame_of time first (p ∷ rest) =
    (has_type data_type p ≡ true)
    × ((frame_of p).key_frame_timestamp ≡ time)
    × ((frame_of p).key_frame_index ≡ first)
    × IsGroup frame_of time (suc first) rest

module _ {D : Type 0} (make_decoder : List ℕ → Option D) (decode : D → Frame → D × ℕ)
    (read_record : Handler D → Pointer → Handler D × ℕ) (frame_of : Pointer → Frame) where
  -- Reading a record decodes its frame, and meets no other error.
  abbrev pub IsPlayer : Type 0
  IsPlayer =
      (h : Handler D) (p : Pointer)
      → read_record h p ≡ ((try_to_decode_frame make_decoder decode h (frame_of p)).0, 0)

  -- The frame `first` of the group may come next.
  abbrev pub IsReady : ℕ → ℕ → Handler D → Type 0
  IsReady time first h = (first ≡ 0) ⊎ (h.decoded_timestamp ≡ time) × (h.decoded_index + 1 ≡ first)

  -- The frame is decoded, and no frame is missing.
  pub record IsAt (time number : ℕ) (h : Handler D) : Type 0 where
    pub timestamp : h.decoded_timestamp ≡ time
    pub index : h.decoded_index ≡ number
    pub good : is_missing_frames h ≡ false

  next_decoded :
      (h : Handler D) (f : Frame) (time first : ℕ)
      → f.key_frame_timestamp ≡ time
      → f.key_frame_index ≡ first
      → first < 2 ^ 32
      → IsReady time first h
      → IsAt time first (try_to_decode_frame make_decoder decode h f).0
  next_decoded h f time first et ei small ready =
      let w = try_to_decode_frame_good make_decoder decode h f (ground (arith, ready)) in
      record { timestamp = w.timestamp ∙ et; index = w.index ∙ ei; good = w.good }

  read_frames_done :
      (last : ℕ) (tail : List Pointer) (i : ℕ) (h : Handler D)
      → last < i
      → read_frames read_record true last tail i 0 h ≡ (h, success)
  unfolding read_frames
  read_frames_done last [] i h lt = refl
  read_frames_done last (p ∷ tail) i h lt =
      let past : leb i last ≡ false = ground arith in rw past refl

  -- With the frames before read, one round reads the frame `first`.
  read_frames_next :
      (time first last : ℕ) (p : Pointer) (l : List Pointer) (h : Handler D)
      → IsPlayer
      → IsGroup frame_of time first (p ∷ [])
      → first ≤ last
      → last < 2 ^ 32
      → IsReady time first h
      → read_frames read_record true last (p ∷ l) first 0 h
        ≡ read_frames read_record true last l
            (suc first)
            0
            (try_to_decode_frame make_decoder decode h (frame_of p)).0
  unfolding read_frames
  read_frames_next time first last p l h player g le small ready =
      let here = next_decoded h (frame_of p) time first g.1 g.2 (omega arith) ready in
      let due : leb first last ≡ true = ground arith in
      let behind : first + 1 ≡ suc first = omega arith in
      rw (due, g.0, player h p, here.good, behind) refl

  -- Then the loop reads the others of the group, and stops behind them.
  pub read_group :
      (time first last : ℕ) (p : Pointer) (group tail : List Pointer) (h : Handler D)
      → IsPlayer
      → IsGroup frame_of time first (p ∷ group)
      → first + length group ≡ last
      → last < 2 ^ 32
      → IsReady time first h
      → let (h', answer) = read_frames read_record true last ((p ∷ group) ++ tail) first 0 h in
        (answer ≡ success) × IsAt time last h'
  read_group time first last p [] tail h player g count small ready =
      let here = next_decoded h (frame_of p) time first g.1 g.2 (omega (arith, count)) ready in
      let at_last : first ≡ last = omega (arith, count) in
      rw
        (
          read_frames_next time first last p tail h player g (omega (arith, count)) small ready,
          read_frames_done last tail (suc first)
              (try_to_decode_frame make_decoder decode h (frame_of p)).0 (omega (arith, count)),
        )
        (refl, rw (← at_last) here)
  read_group time first last p (q ∷ group) tail h player g count small ready =
      let here = next_decoded h (frame_of p) time first g.1 g.2 (omega (arith, count)) ready in
      let h' = (try_to_decode_frame make_decoder decode h (frame_of p)).0 in
      let next_ready : IsReady time (suc first) h' =
        inr (here.timestamp, omega (arith, here.index)) in
      rw
        (read_frames_next time first last p ((q ∷ group) ++ tail) h player (g.0, g.1, g.2, tt)
          (omega (arith, count)) small ready)
        (read_group time (suc first) last q group tail h' player g.3 (omega (arith, count)) small
          next_ready)

  -- The frames that are decoded already are passed over.
  pub read_frames_skip :
      (time i last skip : ℕ) (passed l : List Pointer) (h : Handler D)
      → IsGroup frame_of time i passed
      → length passed ≡ skip
      → i + skip ≤ last
      → read_frames read_record true last (passed ++ l) i skip h
        ≡ read_frames read_record true last l (i + skip) 0 h
  unfolding read_frames
  read_frames_skip time i last skip [] l h g count le =
      let none_left : skip ≡ 0 = sym count in
      let here : i + 0 ≡ i = omega arith in rw (none_left, here) refl
  read_frames_skip time i last skip (p ∷ passed) l h g count le =
      let due : leb i last ≡ true = ground (arith, count) in
      let some_left : ltb 0 skip ≡ true = ground (arith, count) in
      let next : suc i + (skip - 1) ≡ i + skip = omega (arith, count) in
      let behind : i + 1 ≡ suc i = omega arith in
      rw (due, g.0, some_left, behind)
        (read_frames_skip time (suc i) last (skip - 1) passed l h g.3 (omega (arith, count))
            (omega (arith, count))
          ∙ ap (λ (n : ℕ). read_frames read_record true last l n 0 h) next)

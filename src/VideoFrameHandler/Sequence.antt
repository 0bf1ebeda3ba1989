-- ===== src/VideoFrameHandler/Sequence.antt =====
-- Which frames reach the decoder.
use vrs.Base.{ℕ, ◌≡◌, refl, sym, subst, ◌∙◌, arith, Bool, true, false, inl, inr, ◌⊎◌}
use vrs.Base.{Option, none, some, List, Bool-cases}
use vrs.VideoFrameHandler.{
  Frame, DecodeStatus, status, codec_not_found, decoder_for, Handler, frame_sequence_error,
  is_missing_frames, next_index, is_in_sequence, request_frame, run_decoder, decode_if_good,
  try_to_decode_frame,
}

module _ {D : Type 0} (make_decoder : List ℕ → Option D) (decode : D → Frame → D × ℕ) where
  abbrev try_decode : Handler D → Frame → Handler D × DecodeStatus
  try_decode = try_to_decode_frame make_decoder decode

  -- A frame that may follow the last one decoded: a key frame, or the next of the same group.
  abbrev pub Follows : Handler D → Frame → Type 0
  Follows h f =
      (f.key_frame_index ≡ 0)
      ⊎ (f.key_frame_timestamp ≡ h.decoded_timestamp) × (f.key_frame_index ≡ next_index h)

  -- What the decoder did: there is none for the codec, or it decoded the frame and gave the answer.
  abbrev pub IsRun : Handler D → Handler D → Frame → DecodeStatus → Type 0
  IsRun h h' f answer =
      ((decoder_for make_decoder decode h f ≡ none)
        × (h'.decoder ≡ h.decoder)
        × (answer ≡ codec_not_found))
      ⊎ ((d : D) × (decoder_for make_decoder decode h f ≡ some d)
          × (h'.decoder ≡ some (decode d f).0)
          × (answer ≡ status (decode d f).1))

  -- What is noted of a frame that is in sequence.
  pub record IsNoted (h h' : Handler D) (f : Frame) : Type 0 where
    pub follows : Follows h f
    pub timestamp : h'.decoded_timestamp ≡ f.key_frame_timestamp
    pub index : h'.decoded_index ≡ f.key_frame_index
    pub good : is_missing_frames h' ≡ false

  pub record IsAccepted (h h' : Handler D) (f : Frame) (answer : DecodeStatus) : Type 0 where
    pub noted : IsNoted h h' f
    pub run : IsRun h h' f answer

  pub record IsRefused (h h' : Handler D) (f : Frame) (answer : DecodeStatus) : Type 0 where
    pub out_of_sequence : ¬ Follows h f
    pub reported : answer ≡ frame_sequence_error
    pub missing : is_missing_frames h' ≡ true
    pub timestamp : h'.decoded_timestamp ≡ h.decoded_timestamp
    pub index : h'.decoded_index ≡ h.decoded_index
    pub wanted_timestamp : h'.requested_timestamp ≡ f.key_frame_timestamp
    pub wanted_index : h'.requested_index ≡ f.key_frame_index
    pub decoder_kept : h'.decoder ≡ h.decoder

  request_frame-good :
      (h : Handler D) (f : Frame) → (request_frame h f).video_good_state ≡ is_in_sequence h f
  unfolding request_frame
  request_frame-good h f = refl

  request_frame-IsNoted :
      (h : Handler D) (f : Frame) → is_in_sequence h f ≡ true → IsNoted h (request_frame h f) f
  unfolding request_frame
  request_frame-IsNoted h f e = record {
    follows = ground (arith, e);
    timestamp = rw e refl;
    index = rw e refl;
    good = rw e refl;
  }

  request_frame-IsRefused :
      (h : Handler D) (f : Frame)
      → is_in_sequence h f ≡ false
      → IsRefused h (request_frame h f) f frame_sequence_error
  unfolding request_frame
  request_frame-IsRefused h f e = record {
    out_of_sequence = λ w. elim w [
      | inl first ↦ absurd (ground (arith, e, first))
      | inr (same, next) ↦ absurd (ground (arith, e, same, next))
    ];
    reported = refl;
    missing = rw e refl;
    timestamp = rw e refl;
    index = rw e refl;
    wanted_timestamp = refl;
    wanted_index = refl;
    decoder_kept = refl;
  }

  -- The decoder's answer changes nothing but the decoder.
  run_decoder-IsAccepted :
      (o : Option D) (h k : Handler D) (f : Frame)
      → decoder_for make_decoder decode h f ≡ o
      → k.decoder ≡ h.decoder
      → IsNoted h k f
      → let (h', answer) = run_decoder make_decoder decode o k f in IsAccepted h h' f answer
  unfolding run_decoder
  run_decoder-IsAccepted none h k f e kept w = record { noted = w; run = inl (e, kept, refl) }
  run_decoder-IsAccepted (some d) h k f e kept w = record {
    noted = record { follows = w.follows; timestamp = w.timestamp; index = w.index; good = w.good };
    run = inr (d, e, refl, refl);
  }

  -- The two outcomes, by the test.
  in_sequence-IsAccepted :
      (h : Handler D) (f : Frame)
      → is_in_sequence h f ≡ true
      → let (h', answer) = try_to_decode_frame make_decoder decode h f in IsAccepted h h' f answer
  unfolding try_to_decode_frame decode_if_good request_frame
  in_sequence-IsAccepted h f e =
      let k = request_frame h f in
      let outcome = λ (b : Bool). decode_if_good make_decoder decode b k f in
      subst (λ (b : Bool). IsAccepted h (outcome b).0 f (outcome b).1)
        (sym (request_frame-good h f ∙ e))
        (run_decoder-IsAccepted (decoder_for make_decoder decode h f) h k f refl refl
          (request_frame-IsNoted h f e))

  pub try_to_decode_frame_good :
      (h : Handler D) (f : Frame)
      → is_in_sequence h f ≡ true
      → IsNoted h (try_to_decode_frame make_decoder decode h f).0 f
  try_to_decode_frame_good h f e = (in_sequence-IsAccepted h f e).noted

  try_to_decode_frame-IsRefused :
      (h : Handler D) (f : Frame)
      → is_in_sequence h f ≡ false
      → let (h', answer) = try_to_decode_frame make_decoder decode h f in IsRefused h h' f answer
  unfolding try_to_decode_frame decode_if_good
  try_to_decode_frame-IsRefused h f e =
      let k = request_frame h f in
      let outcome = λ (b : Bool). decode_if_good make_decoder decode b k f in
      subst (λ (b : Bool). IsRefused h (outcome b).0 f (outcome b).1)
        (sym (request_frame-good h f ∙ e)) (request_frame-IsRefused h f e)

  -- Either a frame is a key frame or the next frame of the group decoded last: then no frame is
  -- missing, it is noted as the last one decoded, and the decoder in use, or else the one that is
  -- made for its codec, decodes it and gives the answer; where none can be made, the answer is that
  -- the codec is not found, although the frame is noted. Or it is neither: then it is refused as
  -- out of sequence, frames are missing, the decoder and what was decoded last stay as they were,
  -- and the frame is noted as the one wanted.
  pub try_to_decode_frame-IsAccepted :
      (h : Handler D) (f : Frame)
      → let (h', answer) = try_to_decode_frame make_decoder decode h f in
        IsAccepted h h' f answer ⊎ IsRefused h h' f answer
  try_to_decode_frame-IsAccepted h f = elim (Bool-cases (is_in_sequence h f)) [
    | inl e ↦ inl (in_sequence-IsAccepted h f e)
    | inr e ↦ inr (try_to_decode_frame-IsRefused h f e)
  ]

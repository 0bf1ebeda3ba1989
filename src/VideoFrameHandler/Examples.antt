-- ===== src/VideoFrameHandler/Examples.antt =====
-- The theorems on video frames at concrete inputs.
use vrs.Base.{ℕ, suc, ◌-◌, ◌≡◌, ◌⊎◌, refl, arith, true, Option, some, List, [], ◌∷◌}
use vrs.Base.Search.{partition_point}
use vrs.StreamId.{StreamId}
use vrs.Record.{RecordType, data_type, configuration}
use vrs.FileReader.{Pointer, FileReader}
use vrs.FileReader.Pointers.{stream_pointers, IsIndexed}
use vrs.FileReader.ByTime.{find_type_by_time, pointer_info}
use vrs.VideoFrameHandler.{
  Frame, Handler, success, new_handler, try_to_decode_frame, read_missing_frames,
}
use vrs.VideoFrameHandler.Sequence.{IsAccepted, IsRefused, try_to_decode_frame-IsAccepted}
use vrs.VideoFrameHandler.Missing.{IsAt}
use vrs.VideoFrameHandler.Recovery.{read_missing_frames-IsAt}

abbrev camera : StreamId
camera = record { type_id = 200; instance_id = 1 }

abbrev frame : ℕ → ℕ → Frame
frame time index = record {
  key_frame_timestamp = time;
  key_frame_index = index;
  codec_name = b'v' ∷ [];
  payload = [];
}

-- A decoder that counts what it decodes.
abbrev make_counter : List ℕ → Option ℕ
make_counter name = some 0

abbrev count_frame : ℕ → Frame → ℕ × ℕ
count_frame d f = (suc d, 0)

-- The frames follow each other by one tick, from the key frame at 10 on.
abbrev frame_of : Pointer → Frame
frame_of p = frame 10 (p.info.timestamp - 10)

abbrev play : Handler ℕ → Pointer → Handler ℕ × ℕ
play h p = ((try_to_decode_frame make_counter count_frame h (frame_of p)).0, 0)

abbrev pointer : ℕ → RecordType → ℕ → Pointer
pointer position t time = record {
  position = position;
  info = record { timestamp = time; file_offset = 0; stream_id = camera; record_type = t };
}

abbrev reader : FileReader
reader = record {
  stream_ids = camera ∷ [];
  record_index =
      (pointer 0 configuration 5).info
      ∷ (pointer 1 data_type 10).info
      ∷ (pointer 2 data_type 11).info
      ∷ (pointer 3 data_type 12).info
      ∷ (pointer 4 data_type 20).info
      ∷ [];
  stream_index = [];
  last_request = [];
}

reader-IsIndexed : IsIndexed reader
reader-IsIndexed = record {
  ids_given = λ e. absurd (ground (arith, e));
  indexed = λ e id. absurd (ground (arith, e));
}

-- The frame 2 is asked for when only the key frame was decoded.
abbrev waiting : Handler ℕ
waiting = record new_handler {
  decoded_timestamp = 10;
  decoded_index = 0;
  requested_timestamp = 10;
  requested_index = 2;
  is_video = true;
}

try_to_decode_frame-IsAccepted_example :
    let (h', answer) = try_to_decode_frame make_counter count_frame waiting (frame 10 1) in
    IsAccepted make_counter count_frame waiting h' (frame 10 1) answer
    ⊎ IsRefused make_counter count_frame waiting h' (frame 10 1) answer
try_to_decode_frame-IsAccepted_example =
    try_to_decode_frame-IsAccepted make_counter count_frame waiting (frame 10 1)

key_frame_found :
    find_type_by_time pointer_info data_type (stream_pointers reader.record_index camera) 10
    ≡ some (pointer 1 data_type 10)
unfolding partition_point
key_frame_found = refl

read_missing_frames-IsAt_example :
    let (reader', (h', answer)) = read_missing_frames play reader camera true waiting in
    (answer ≡ success) × IsAt make_counter count_frame play frame_of 10 2 h'
read_missing_frames-IsAt_example =
    read_missing_frames-IsAt make_counter count_frame play frame_of reader (pointer 1 data_type 10)
      (pointer 0 configuration 5 ∷ []) (pointer 2 data_type 11 ∷ pointer 3 data_type 12 ∷ [])
      (pointer 4 data_type 20 ∷ []) waiting (λ h p. refl) reader-IsIndexed refl key_frame_found refl
      ((refl, refl, refl, (refl, refl, refl, (refl, refl, refl, tt)))) refl (omega arith)
      (omega arith) refl

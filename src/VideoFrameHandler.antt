-- ===== src/VideoFrameHandler.antt =====
-- vrs/utils/VideoFrameHandler.h and vrs/utils/VideoFrameHandler.cpp: frames of a video are decoded
-- in sequence, and the frames that are missing are read first.
-- A codec's decoder and what the factory makes are parameters, as is the player that a read calls.
use vrs.Base.{
  ℕ, zero, suc, ◌+◌, ◌-◌, ◌%◌, ◌^◌, ◌≤◌, ◌<◌, Bool, true, false, ◌&&◌, ◌||◌, not, ltb, leb, ◌==◌,
  if◌then◌else◌,
}
use vrs.Base.{Option, none, some, List, [], ◌∷◌, drop}
use vrs.StreamId.{StreamId}
use vrs.Record.{RecordType, data_type}
use vrs.FileReader.{RecordInfo, Pointer, FileReader, get_index, has_type}
use vrs.FileReader.ByTime.{get_stream_type_by_time}
use vrs.FileReader.Query.{get_record_stream_index}
pub mod Sequence
pub mod Missing
pub mod Recovery
pub mod Examples

-- `kInvalidFrameIndex`
abbrev pub invalid_frame_index : ℕ
invalid_frame_index = 2 ^ 32 - 1

-- What a content block of an encoded image says, and its bytes.
pub record Frame : Type 0 where
  pub key_frame_timestamp : ℕ
  pub key_frame_index : ℕ
  pub codec_name : List ℕ
  pub payload : List ℕ

-- `DecodeStatus`: `status` is what the decoder returns.
pub data DecodeStatus : Type 0 where
  status : ℕ → DecodeStatus
  codec_not_found frame_sequence_error : DecodeStatus

-- What `readMissingFrames` returns; `read_error` is a reader's error code.
pub data ReadStatus : Type 0 where
  success failure : ReadStatus
  read_error : ℕ → ReadStatus

pub record Handler (D : Type 0) : Type 0 where
  pub decoder : Option D
  pub decoded_timestamp : ℕ
  pub decoded_index : ℕ
  pub requested_timestamp : ℕ
  pub requested_index : ℕ
  pub video_good_state : Bool
  pub is_video : Bool

module _ {D : Type 0} where
  abbrev pub new_handler : Handler D
  new_handler = record {
    decoder = none;
    decoded_timestamp = 0;
    decoded_index = invalid_frame_index;
    requested_timestamp = 0;
    requested_index = invalid_frame_index;
    video_good_state = false;
    is_video = false;
  }

  abbrev pub is_missing_frames : Handler D → Bool
  is_missing_frames h = h.is_video && not h.video_good_state

  -- The index after the one decoded, a uint32_t.
  abbrev pub next_index : Handler D → ℕ
  next_index h = (h.decoded_index + 1) % 2 ^ 32

  unfoldable pub get_frames_to_skip : Handler D → ℕ
  get_frames_to_skip h =
      if h.is_video
        && h.decoded_timestamp == h.requested_timestamp
        && ltb (next_index h) h.requested_index
      then next_index h
      else 0

  abbrev pub reset : Handler D → Handler D
  reset h = record h {
    decoded_index = invalid_frame_index;
    decoded_timestamp = 0;
    requested_index = invalid_frame_index;
    requested_timestamp = 0;
    video_good_state = false;
  }

  -- The test for `videoGoodState_`.
  abbrev pub is_in_sequence : Handler D → Frame → Bool
  is_in_sequence h f =
      f.key_frame_index == 0
      || (f.key_frame_timestamp == h.decoded_timestamp && f.key_frame_index == next_index h)

  -- What `tryToDecodeFrame` sets before it decodes.
  unfoldable pub request_frame : Handler D → Frame → Handler D
  request_frame h f =
      let good = is_in_sequence h f in
      record h {
        is_video = true;
        requested_timestamp = f.key_frame_timestamp;
        requested_index = f.key_frame_index;
        video_good_state = good;
        decoded_timestamp = if good then f.key_frame_timestamp else h.decoded_timestamp;
        decoded_index = if good then f.key_frame_index else h.decoded_index;
      }

module _ {D : Type 0} (make_decoder : List ℕ → Option D) (decode : D → Frame → D × ℕ) where
  -- The decoder in use, or the one that the factory makes.
  abbrev pub decoder_for : Handler D → Frame → Option D
  decoder_for h f = elim h.decoder [ some d ↦ some d | none ↦ make_decoder f.codec_name ]

  unfoldable pub run_decoder : Option D → Handler D → Frame → Handler D × DecodeStatus
  run_decoder none h f = (h, codec_not_found)
  run_decoder (some d) h f =
      let (d', code) = decode d f in (record h { decoder = some d' }, status code)

  -- `if (videoGoodState_)`, and what is returned.
  unfoldable pub decode_if_good : Bool → Handler D → Frame → Handler D × DecodeStatus
  decode_if_good true h f = run_decoder (decoder_for h f) h f
  decode_if_good false h f = (h, frame_sequence_error)

  unfoldable pub try_to_decode_frame : Handler D → Frame → Handler D × DecodeStatus
  try_to_decode_frame h f = let h' = request_frame h f in decode_if_good h'.video_good_state h' f

module _ {D : Type 0} (read_record : Handler D → Pointer → Handler D × ℕ) where
  -- The loop of `readMissingFrames`, over the stream's index from `recordIndex` on.
  unfoldable pub read_frames : Bool → ℕ → List Pointer → ℕ → ℕ → Handler D → Handler D × ReadStatus
  read_frames exact key_frame_index [] frame_index to_skip h = (h, success)
  read_frames exact key_frame_index (p ∷ rest) frame_index to_skip h =
      let skipped = read_frames exact key_frame_index rest (frame_index + 1) (to_skip - 1) h in
      let (h', error) = read_record h p in
      let more = read_frames exact key_frame_index rest (frame_index + 1) to_skip h' in
      if leb frame_index key_frame_index && has_type data_type p
      then (if ltb 0 to_skip
          then skipped
          else if not (error == 0)
          then (h', read_error error)
          else if is_missing_frames h'
          then (h', failure)
          else if not exact
          then (h', success)
          else more)
      else (h, success)

  -- What follows the search for the key frame.
  unfoldable pub read_from_key_frame :
      FileReader
      → Option Pointer
      → StreamId
      → Bool
      → Handler D
      → FileReader × (Handler D × ReadStatus)
  read_from_key_frame reader none id exact h = (reader, (h, failure))
  read_from_key_frame reader (some key_frame) id exact h =
      let (reader', record_index) = get_record_stream_index reader key_frame in
      let (reader'', index) = get_index reader' id in
      if not (key_frame.info.timestamp == h.requested_timestamp) then (reader, (h, failure)) else (
        reader'',
        read_frames exact h.requested_index (drop record_index index) 0 (get_frames_to_skip h) h,
      )

  -- `readMissingFrames`, for a record of the stream `id`
  unfoldable pub read_missing_frames :
      FileReader → StreamId → Bool → Handler D → FileReader × (Handler D × ReadStatus)
  read_missing_frames reader id exact h =
      let (reader', key_frame) =
        get_stream_type_by_time reader id data_type h.requested_timestamp in
      if is_missing_frames h
        && not (h.requested_index == invalid_frame_index)
        && (exact || get_frames_to_skip h == 0)
      then read_from_key_frame reader' key_frame id exact h
      else (reader, (h, success))

-- ===== src/RecordFormat/Audio.antt =====
-- `AudioContentBlockSpec` of vrs/RecordFormat.h and vrs/RecordFormat.cpp: sample formats, sample
-- blocks and block sizes. A uint8_t wraps modulo 256, a uint32_t modulo 2 ^ 32.
pub mod Size
use vrs.Base.{ℕ, ◌+◌, ◌*◌, ◌/◌, ◌%◌, ◌^◌, Bool, true, false, ◌&&◌, not, ltb, ◌==◌, if◌then◌else◌}
use vrs.RecordFormat.Image.{size_unknown}

pub data AudioFormat : Type 0 where
  undefined pcm count : AudioFormat

abbrev pub audio_format_id : AudioFormat → ℕ
audio_format_id undefined = 0
audio_format_id pcm = 1
audio_format_id count = 2

pub data AudioSampleFormat : Type 0 where
  undefined s8 u8 a_law mu_law s16_le u16_le s16_be u16_be : AudioSampleFormat
  s24_le u24_le s24_be u24_be s32_le u32_le s32_be u32_be : AudioSampleFormat
  f32_le f32_be f64_le f64_be count : AudioSampleFormat

abbrev pub sample_format_id : AudioSampleFormat → ℕ
sample_format_id undefined = 0
sample_format_id s8 = 1
sample_format_id u8 = 2
sample_format_id a_law = 3
sample_format_id mu_law = 4
sample_format_id s16_le = 5
sample_format_id u16_le = 6
sample_format_id s16_be = 7
sample_format_id u16_be = 8
sample_format_id s24_le = 9
sample_format_id u24_le = 10
sample_format_id s24_be = 11
sample_format_id u24_be = 12
sample_format_id s32_le = 13
sample_format_id u32_le = 14
sample_format_id s32_be = 15
sample_format_id u32_be = 16
sample_format_id f32_le = 17
sample_format_id f32_be = 18
sample_format_id f64_le = 19
sample_format_id f64_be = 20
sample_format_id count = 21

pub record AudioSpec : Type 0 where
  pub audio_format : AudioFormat
  pub sample_format : AudioSampleFormat
  pub sample_block_stride : ℕ
  pub channel_count : ℕ
  pub sample_rate : ℕ
  pub sample_count : ℕ

-- What `clear` sets.
abbrev pub empty_audio : AudioSpec
empty_audio = record {
  audio_format = AudioFormat.undefined;
  sample_format = AudioSampleFormat.undefined;
  sample_block_stride = 0;
  channel_count = 0;
  sample_rate = 0;
  sample_count = 0;
}

-- The constructor of PCM audio
abbrev pub pcm_audio : AudioSampleFormat → ℕ → ℕ → ℕ → ℕ → AudioSpec
pcm_audio sample_format channel_count sample_rate sample_count sample_block_stride = record {
  audio_format = pcm;
  sample_format = sample_format;
  sample_block_stride = sample_block_stride;
  channel_count = channel_count;
  sample_rate = sample_rate;
  sample_count = sample_count;
}

-- `operator==` does not look at the audio format.
abbrev pub same_audio : AudioSpec → AudioSpec → Bool
same_audio a b =
    sample_format_id a.sample_format == sample_format_id b.sample_format
    && (a.channel_count == b.channel_count
        && (a.sample_block_stride == b.sample_block_stride
            && (a.sample_count == b.sample_count && a.sample_rate == b.sample_rate)))

abbrev pub is_compatible_with : AudioSpec → AudioSpec → Bool
is_compatible_with a b =
    sample_format_id a.sample_format == sample_format_id b.sample_format
    && (a.channel_count == b.channel_count && a.sample_rate == b.sample_rate)

unfoldable pub is_little_endian : AudioSampleFormat → Bool
is_little_endian s16_be = false
is_little_endian u16_be = false
is_little_endian s24_be = false
is_little_endian u24_be = false
is_little_endian s32_be = false
is_little_endian u32_be = false
is_little_endian f32_be = false
is_little_endian f64_be = false
is_little_endian _ = true

unfoldable pub is_ieee_float : AudioSampleFormat → Bool
is_ieee_float f32_le = true
is_ieee_float f64_le = true
is_ieee_float f32_be = true
is_ieee_float f64_be = true
is_ieee_float _ = false

unfoldable pub get_bits_per_sample : AudioSampleFormat → ℕ
get_bits_per_sample s8 = 8
get_bits_per_sample u8 = 8
get_bits_per_sample a_law = 8
get_bits_per_sample mu_law = 8
get_bits_per_sample s16_le = 16
get_bits_per_sample s16_be = 16
get_bits_per_sample u16_le = 16
get_bits_per_sample u16_be = 16
get_bits_per_sample s24_le = 24
get_bits_per_sample s24_be = 24
get_bits_per_sample u24_le = 24
get_bits_per_sample u24_be = 24
get_bits_per_sample s32_le = 32
get_bits_per_sample s32_be = 32
get_bits_per_sample u32_le = 32
get_bits_per_sample u32_be = 32
get_bits_per_sample f32_le = 32
get_bits_per_sample f32_be = 32
get_bits_per_sample f64_le = 64
get_bits_per_sample f64_be = 64
get_bits_per_sample undefined = 0
get_bits_per_sample count = 0

abbrev pub get_bytes_per_sample : AudioSampleFormat → ℕ
get_bytes_per_sample format = (get_bits_per_sample format + 7) / 8

-- The result is a uint8_t.
unfoldable pub get_sample_block_stride : AudioSpec → ℕ
get_sample_block_stride spec =
    if not (spec.sample_block_stride == 0)
    then spec.sample_block_stride
    else get_bytes_per_sample spec.sample_format * spec.channel_count % 256

abbrev pub is_sample_block_format_defined : AudioSpec → Bool
is_sample_block_format_defined spec =
    audio_format_id spec.audio_format == 1
    && (not (sample_format_id spec.sample_format == 0) && not (spec.channel_count == 0))

unfoldable pub get_block_size : AudioSpec → ℕ
get_block_size spec =
    if not (sample_format_id spec.sample_format == 0)
      && (ltb 0 spec.channel_count && ltb 0 spec.sample_count)
    then get_sample_block_stride spec * spec.sample_count % 2 ^ 32
    else size_unknown

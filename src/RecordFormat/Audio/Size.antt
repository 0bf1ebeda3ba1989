-- ===== src/RecordFormat/Audio/Size.antt =====
-- The size in bytes of audio blocks.
use vrs.Base.{ℕ, ◌*◌, ◌%◌, ◌^◌, ◌≤◌, ◌<◌, ◌≡◌, ◌≢◌, refl, ap, arith, false}
use vrs.Base.{◌==◌, lt→ltb}
use vrs.RecordFormat.Audio.{
  AudioSampleFormat, sample_format_id, pcm_audio, get_bits_per_sample, get_bytes_per_sample,
  get_sample_block_stride, get_block_size,
}
use native.Mathlib.Nat.{mod-eq_of_lt}

-- The bytes per sample hold its bits, and no byte is left over.
get_bytes_per_sample_exact :
    (f : AudioSampleFormat) → 8 * get_bytes_per_sample f ≡ get_bits_per_sample f
unfolding get_bits_per_sample
get_bytes_per_sample_exact AudioSampleFormat.s8 = refl
get_bytes_per_sample_exact _ = refl

known_format :
    (f : AudioSampleFormat) → f ≢ AudioSampleFormat.undefined → (sample_format_id f == 0) ≡ false
known_format AudioSampleFormat.undefined u = absurd (u refl)
known_format _ u = refl

get_block_size_product :
    (f : AudioSampleFormat) (channels rate samples : ℕ)
    → f ≢ AudioSampleFormat.undefined
    → 0 < channels
    → 0 < samples
    → get_block_size (pcm_audio f channels rate samples 0)
      ≡ get_bytes_per_sample f * channels % 256 * samples % 2 ^ 32
unfolding get_block_size get_sample_block_stride
get_block_size_product f channels rate samples u hc hs =
    rw (known_format f u, lt→ltb _ _ hc, lt→ltb _ _ hs)

-- A PCM block of a known sample format, with at least one channel and one sample, no explicit stride
-- and at most 255 bytes for one sample of all channels, has for its size, in bits, samples * channels * bits per sample, as long as the
-- size in bytes fits 32 bits.
pub get_block_size_bits :
    (f : AudioSampleFormat) (channels rate samples : ℕ)
    → f ≢ AudioSampleFormat.undefined
    → 0 < channels
    → 0 < samples
    → get_bytes_per_sample f * channels < 256
    → get_bytes_per_sample f * channels * samples < 2 ^ 32
    → 8 * get_block_size (pcm_audio f channels rate samples 0)
      ≡ get_bits_per_sample f * channels * samples
get_block_size_bits f channels rate samples u hc hs narrow fits =
    rw
      (
        get_block_size_product f channels rate samples u hc hs,
        mod-eq_of_lt narrow,
        mod-eq_of_lt fits,
      )
      (omega (arith, ap (λ (t : ℕ). t * channels * samples) (get_bytes_per_sample_exact f)))

less_transitive : (a b : ℕ) → a < b → b < 2 ^ 32 → a < 2 ^ 32
less_transitive a b h k = omega arith

smaller_product : (a b n : ℕ) → a < b → 0 < n → a * n < b * n
smaller_product a b n h k = grind arith

-- A PCM block of a known sample format, with at least one channel and one sample, no explicit stride,
-- 256 bytes or more for one sample of all channels, and less than 4 GB in all, has a size that is
-- too small: less than bytes per sample * channels * samples.
pub get_block_size_too_small :
    (f : AudioSampleFormat) (channels rate samples : ℕ)
    → f ≢ AudioSampleFormat.undefined
    → 0 < channels
    → 0 < samples
    → 256 ≤ get_bytes_per_sample f * channels
    → get_bytes_per_sample f * channels * samples < 2 ^ 32
    → get_block_size (pcm_audio f channels rate samples 0)
      < get_bytes_per_sample f * channels * samples
get_block_size_too_small f channels rate samples u hc hs wide fits =
    let stride = get_bytes_per_sample f * channels in
    let cut : stride % 256 * samples < stride * samples =
      smaller_product (stride % 256) stride samples (omega arith) hs in
    rw
      (
        get_block_size_product f channels rate samples u hc hs,
        mod-eq_of_lt (less_transitive (stride % 256 * samples) (stride * samples) cut fits),
      )
      cut

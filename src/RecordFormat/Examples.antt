-- ===== src/RecordFormat/Examples.antt =====
-- The theorems on images and audio at concrete inputs.
use vrs.Base.{◌*◌, ◌<◌, ◌≡◌, ◌≢◌, refl, ap, arith}
use vrs.RecordFormat.Image
use vrs.RecordFormat.Image.{
  ImageFormat, PixelFormat, raw_image, size_unknown, get_stride, get_raw_image_size,
  pixel_format_id,
}
use vrs.RecordFormat.Image.Size.{
  image_bytes, get_block_size-image_bytes, get_block_size-row_bytes_too_large, row_bytes,
}
use vrs.RecordFormat.Audio
use vrs.RecordFormat.Audio.{AudioSampleFormat, pcm_audio, get_bits_per_sample}
use vrs.RecordFormat.Audio.Size.{get_block_size_bits, get_block_size_too_small}

yuv_defined : PixelFormat.yuv_i420_split ≢ PixelFormat.undefined
yuv_defined e = absurd (omega (arith, ap pixel_format_id e))

yuv_counted : PixelFormat.yuv_i420_split ≢ PixelFormat.count
yuv_counted e = absurd (omega (arith, ap pixel_format_id e))

get_block_size-image_bytes_example :
    Image.get_block_size (raw_image PixelFormat.yuv_i420_split 5 3 0)
    ≡ image_bytes PixelFormat.yuv_i420_split 5 3
get_block_size-image_bytes_example =
    get_block_size-image_bytes PixelFormat.yuv_i420_split 5 3 yuv_defined yuv_counted (omega arith)
      (omega arith) (omega arith) (omega arith)

grey_known : pixel_format_id PixelFormat.grey8 ≢ 0
grey_known e = absurd (omega (arith, e))

get_block_size-row_bytes_too_large_example :
    Image.get_block_size (raw_image PixelFormat.grey8 16000 300000 0)
    ≢ row_bytes PixelFormat.grey8 16000 * 300000
unfolding row_bytes
get_block_size-row_bytes_too_large_example =
    get_block_size-row_bytes_too_large PixelFormat.grey8 16000 300000 refl grey_known (omega arith)
      (omega arith) (omega arith) (omega arith)

-- Its 4 GB are taken for 64 KB.
large_image : get_raw_image_size (raw_image PixelFormat.grey8 65536 65537 0) ≡ 65536
unfolding get_raw_image_size get_stride Image.get_plane_stride Image.get_plane_height
large_image = refl

s16_defined : AudioSampleFormat.s16_le ≢ AudioSampleFormat.undefined
s16_defined e = absurd (omega (arith, ap Audio.sample_format_id e))

get_block_size_bits_example :
    8 * Audio.get_block_size (pcm_audio AudioSampleFormat.s16_le 2 48000 1024 0)
    ≡ get_bits_per_sample AudioSampleFormat.s16_le * 2 * 1024
unfolding get_bits_per_sample
get_block_size_bits_example =
    get_block_size_bits AudioSampleFormat.s16_le 2 48000 1024 s16_defined (omega arith)
      (omega arith) (omega arith) (omega arith)

get_block_size_too_small_example :
    Audio.get_block_size (pcm_audio AudioSampleFormat.s16_le 130 48000 1024 0)
    < Audio.get_bytes_per_sample AudioSampleFormat.s16_le * 130 * 1024
unfolding get_bits_per_sample
get_block_size_too_small_example =
    get_block_size_too_small AudioSampleFormat.s16_le 130 48000 1024 s16_defined (omega arith)
      (omega arith) (omega arith) (omega arith)

-- With 128 channels of 16 bits, nothing is left of the size.
wide_block : Audio.get_block_size (pcm_audio AudioSampleFormat.s16_le 128 48000 1024 0) ≡ 0
unfolding Audio.get_block_size Audio.get_sample_block_stride get_bits_per_sample
wide_block = refl

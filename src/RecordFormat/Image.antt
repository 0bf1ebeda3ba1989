-- ===== src/RecordFormat/Image.antt =====
-- `ImageContentBlockSpec` of vrs/RecordFormat.cpp: pixel formats, strides, planes and sizes.
-- A uint32_t product wraps modulo 2 ^ 32, and a size_t has 64 bits. The timestamp of the key frame
-- is a number of ticks, with `none` for the value `kInvalidTimestamp`.
pub mod Size
use vrs.Base.{
  ℕ, suc, ◌+◌, ◌-◌, ◌*◌, ◌/◌, ◌%◌, ◌^◌, Bool, true, false, ◌&&◌, not, Option, none, some,
}
use vrs.Base.{List, [], ltb, leb, ◌==◌, if◌then◌else◌}

-- `ContentBlock::kSizeUnknown`
abbrev pub size_unknown : ℕ
size_unknown = 2 ^ 64 - 1

abbrev pub uint32_mod : ℕ
uint32_mod = 2 ^ 32

pub data ImageFormat : Type 0 where
  undefined raw jpg png video count : ImageFormat

abbrev pub image_format_id : ImageFormat → ℕ
image_format_id undefined = 0
image_format_id raw = 1
image_format_id jpg = 2
image_format_id png = 3
image_format_id video = 4
image_format_id count = 5

pub data PixelFormat : Type 0 where
  undefined grey8 bgr8 depth32f rgb8 yuv_i420_split rgba8 rgb10 rgb12 : PixelFormat
  grey10 grey12 grey16 rgb32f scalar64f yuy2 rgb_ir_raw_4x4 rgba32f : PixelFormat
  bayer8_rggb raw10 raw10_bayer_rggb count : PixelFormat

abbrev pub pixel_format_id : PixelFormat → ℕ
pixel_format_id undefined = 0
pixel_format_id grey8 = 1
pixel_format_id bgr8 = 2
pixel_format_id depth32f = 3
pixel_format_id rgb8 = 4
pixel_format_id yuv_i420_split = 5
pixel_format_id rgba8 = 6
pixel_format_id rgb10 = 7
pixel_format_id rgb12 = 8
pixel_format_id grey10 = 9
pixel_format_id grey12 = 10
pixel_format_id grey16 = 11
pixel_format_id rgb32f = 12
pixel_format_id scalar64f = 13
pixel_format_id yuy2 = 14
pixel_format_id rgb_ir_raw_4x4 = 15
pixel_format_id rgba32f = 16
pixel_format_id bayer8_rggb = 17
pixel_format_id raw10 = 18
pixel_format_id raw10_bayer_rggb = 19
pixel_format_id count = 20

-- `ImageContentBlockSpec`; the codec's name is a text of bytes.
pub record ImageSpec : Type 0 where
  pub image_format : ImageFormat
  pub pixel_format : PixelFormat
  pub width : ℕ
  pub height : ℕ
  pub stride : ℕ
  pub codec_name : List ℕ
  pub key_frame_timestamp : Option ℕ
  pub key_frame_index : ℕ
  pub codec_quality : ℕ

abbrev pub quality_undefined : ℕ
quality_undefined = 255

-- The default constructor, and what `clear` sets.
abbrev pub empty_image : ImageSpec
empty_image = record {
  image_format = ImageFormat.undefined;
  pixel_format = PixelFormat.undefined;
  width = 0;
  height = 0;
  stride = 0;
  codec_name = [];
  key_frame_timestamp = none;
  key_frame_index = 0;
  codec_quality = quality_undefined;
}

-- The constructor of raw images
abbrev pub raw_image : PixelFormat → ℕ → ℕ → ℕ → ImageSpec
raw_image pixel_format width height stride = record empty_image {
  image_format = ImageFormat.raw;
  pixel_format = pixel_format;
  width = width;
  height = height;
  stride = stride;
}

-- The constructor of images in a format whose data has the image's specs
abbrev pub encoded_image : ImageFormat → ℕ → ℕ → ImageSpec
encoded_image image_format width height = record empty_image {
  image_format = image_format;
  width = width;
  height = height;
}

-- The constructor with all specs
abbrev pub full_image :
    ImageFormat → PixelFormat → ℕ → ℕ → ℕ → List ℕ → ℕ → Option ℕ → ℕ → ImageSpec
full_image image_format pixel_format width height stride codec_name codec_quality timestamp index =
    record {
      image_format = image_format;
      pixel_format = pixel_format;
      width = width;
      height = height;
      stride = stride;
      codec_name = codec_name;
      key_frame_timestamp = timestamp;
      key_frame_index = index;
      codec_quality = codec_quality;
    }

-- The constructor of frames of a video
abbrev pub video_image : List ℕ → ℕ → PixelFormat → ℕ → ℕ → ℕ → ImageSpec
video_image codec_name codec_quality pixel_format width height stride = record empty_image {
  image_format = ImageFormat.video;
  pixel_format = pixel_format;
  width = width;
  height = height;
  stride = stride;
  codec_name = codec_name;
  codec_quality = codec_quality;
}

-- The copy with a key frame
abbrev pub image_with_key_frame : ImageSpec → ℕ → ℕ → ImageSpec
image_with_key_frame spec timestamp index = record spec {
  key_frame_timestamp = some timestamp;
  key_frame_index = index;
}

-- `clear` leaves the key frame's timestamp and index as they are.
abbrev pub clear : ImageSpec → ImageSpec
clear spec = record spec {
  image_format = ImageFormat.undefined;
  pixel_format = PixelFormat.undefined;
  width = 0;
  height = 0;
  stride = 0;
  codec_name = [];
  codec_quality = quality_undefined;
}

abbrev pub is_quality_valid : ℕ → Bool
is_quality_valid quality = leb quality 100

abbrev pub get_codec_quality : ImageSpec → ℕ
get_codec_quality spec =
    if is_quality_valid spec.codec_quality then spec.codec_quality else quality_undefined

unfoldable pub get_channel_count_per_pixel : PixelFormat → ℕ
get_channel_count_per_pixel grey8 = 1
get_channel_count_per_pixel grey10 = 1
get_channel_count_per_pixel grey12 = 1
get_channel_count_per_pixel grey16 = 1
get_channel_count_per_pixel depth32f = 1
get_channel_count_per_pixel scalar64f = 1
get_channel_count_per_pixel bayer8_rggb = 1
get_channel_count_per_pixel raw10_bayer_rggb = 1
get_channel_count_per_pixel raw10 = 1
get_channel_count_per_pixel bgr8 = 3
get_channel_count_per_pixel rgb8 = 3
get_channel_count_per_pixel rgb10 = 3
get_channel_count_per_pixel rgb12 = 3
get_channel_count_per_pixel rgb32f = 3
get_channel_count_per_pixel rgb_ir_raw_4x4 = 3
get_channel_count_per_pixel yuv_i420_split = 3
get_channel_count_per_pixel yuy2 = 3
get_channel_count_per_pixel rgba8 = 4
get_channel_count_per_pixel rgba32f = 4
get_channel_count_per_pixel undefined = 0
get_channel_count_per_pixel count = 0

unfoldable pub get_bytes_per_pixel : PixelFormat → ℕ
get_bytes_per_pixel grey8 = 1
get_bytes_per_pixel rgb_ir_raw_4x4 = 1
get_bytes_per_pixel bayer8_rggb = 1
get_bytes_per_pixel grey10 = 2
get_bytes_per_pixel grey12 = 2
get_bytes_per_pixel grey16 = 2
get_bytes_per_pixel rgb8 = 3
get_bytes_per_pixel bgr8 = 3
get_bytes_per_pixel depth32f = 4
get_bytes_per_pixel rgba8 = 4
get_bytes_per_pixel rgb10 = 6
get_bytes_per_pixel rgb12 = 6
get_bytes_per_pixel scalar64f = 8
get_bytes_per_pixel rgb32f = 12
get_bytes_per_pixel rgba32f = 16
get_bytes_per_pixel yuy2 = size_unknown
get_bytes_per_pixel yuv_i420_split = size_unknown
get_bytes_per_pixel raw10 = size_unknown
get_bytes_per_pixel raw10_bayer_rggb = size_unknown
get_bytes_per_pixel undefined = size_unknown
get_bytes_per_pixel count = size_unknown

abbrev pub is_yuv_split : PixelFormat → Bool
is_yuv_split p = pixel_format_id p == 5

abbrev pub get_plane_count : PixelFormat → ℕ
get_plane_count p = if is_yuv_split p then 3 else 1

-- The stride of a format whose pixels do not take whole bytes each.
unfoldable pub packed_stride : PixelFormat → ℕ → ℕ
packed_stride yuv_i420_split width = width
packed_stride raw10 width = (width + 3) % uint32_mod / 4 * 5 % uint32_mod
packed_stride raw10_bayer_rggb width = (width + 3) % uint32_mod / 4 * 5 % uint32_mod
packed_stride yuy2 width = (width + 1) % uint32_mod / 2 * 4 % uint32_mod
packed_stride _ width = 0

unfoldable pub get_stride : ImageSpec → ℕ
unfolding get_bytes_per_pixel packed_stride
get_stride spec =
    let bytes = get_bytes_per_pixel spec.pixel_format in
    if ltb 0 spec.stride
    then spec.stride
    else if not (bytes == size_unknown)
    then spec.width * (bytes % uint32_mod) % uint32_mod
    else packed_stride spec.pixel_format spec.width

unfoldable pub get_plane_stride : ImageSpec → ℕ → ℕ
get_plane_stride spec plane =
    if is_yuv_split spec.pixel_format
    then (if plane == 0
        then (if ltb 0 spec.stride then spec.stride else spec.width)
        else if ltb plane 3
        then (spec.width + 1) % uint32_mod / 2
        else 0)
    else if plane == 0
    then get_stride spec
    else 0

unfoldable pub get_plane_height : ImageSpec → ℕ → ℕ
get_plane_height spec plane =
    if plane == 0
    then spec.height
    else if ltb (get_plane_count spec.pixel_format) plane
    then 0
    else if is_yuv_split spec.pixel_format
    then (spec.height + 1) % uint32_mod / 2
    else 0

-- The loop over the planes: `left` planes from `plane` on. Each product is a uint32_t.
unfoldable pub add_planes : ImageSpec → ℕ → ℕ → ℕ → ℕ
add_planes spec ℕ.zero plane size = size
add_planes spec (suc left) plane size =
    add_planes spec left (plane + 1)
      ((size + get_plane_stride spec plane * get_plane_height spec plane % uint32_mod) % 2 ^ 64)

unfoldable pub get_raw_image_size : ImageSpec → ℕ
unfolding add_planes
get_raw_image_size spec =
    let size = add_planes spec (get_plane_count spec.pixel_format) 0 0 in
    if not (pixel_format_id spec.pixel_format == 0) && (ltb 0 spec.width && ltb 0 spec.height)
    then (if ltb 0 size then size else size_unknown)
    else size_unknown

unfoldable pub get_block_size : ImageSpec → ℕ
unfolding get_raw_image_size
get_block_size spec =
    if image_format_id spec.image_format == 1 then get_raw_image_size spec else size_unknown

-- ===== src/RecordFormat/Content.antt =====
-- `ContentBlock` of vrs/RecordFormat.h and vrs/RecordFormat.cpp.
use vrs.Base.{ℕ, ◌==◌, if◌then◌else◌, List}
use vrs.RecordFormat.Image
use vrs.RecordFormat.Image.{
  ImageFormat, PixelFormat, ImageSpec, empty_image, size_unknown, image_format_id, pixel_format_id,
  image_with_key_frame, encoded_image, video_image, raw_image,
}
use vrs.RecordFormat.Audio
use vrs.RecordFormat.Audio.{AudioSpec, empty_audio, same_audio}

pub data ContentType : Type 0 where
  custom empty data_layout image audio count : ContentType

abbrev pub content_type_id : ContentType → ℕ
content_type_id custom = 0
content_type_id empty = 1
content_type_id data_layout = 2
content_type_id image = 3
content_type_id audio = 4
content_type_id count = 5

-- `size` is what `size_` holds: `size_unknown`, or the block's size.
pub record ContentBlock : Type 0 where
  pub content_type : ContentType
  pub size : ℕ
  pub image_spec : ImageSpec
  pub audio_spec : AudioSpec

-- `ContentBlock(ContentType, size_t)`
abbrev pub block_of_type : ContentType → ℕ → ContentBlock
block_of_type content_type size = record {
  content_type = content_type;
  size = size;
  image_spec = empty_image;
  audio_spec = empty_audio;
}

-- `ContentBlock(const ImageContentBlockSpec&, size_t)`
abbrev pub image_block : ImageSpec → ℕ → ContentBlock
image_block spec size = record (block_of_type image size) { image_spec = spec }

-- `ContentBlock(ImageFormat, uint32_t, uint32_t)`
abbrev pub encoded_image_block : ImageFormat → ℕ → ℕ → ContentBlock
encoded_image_block image_format width height =
    image_block (encoded_image image_format width height) size_unknown

-- `ContentBlock(const string&, uint8_t, PixelFormat, ...)`
abbrev pub video_block : List ℕ → ℕ → PixelFormat → ℕ → ℕ → ℕ → ContentBlock
video_block codec_name codec_quality pixel_format width height stride =
    image_block (video_image codec_name codec_quality pixel_format width height stride) size_unknown

-- `ContentBlock(PixelFormat, ...)`
abbrev pub raw_image_block : PixelFormat → ℕ → ℕ → ℕ → ContentBlock
raw_image_block pixel_format width height stride =
    image_block (raw_image pixel_format width height stride) size_unknown

-- `ContentBlock(AudioSampleFormat, ...)`
abbrev pub audio_block : AudioSpec → ContentBlock
audio_block spec = record (block_of_type audio size_unknown) { audio_spec = spec }

-- The size that the content's own format gives.
abbrev pub content_size : ContentType → ImageSpec → AudioSpec → ℕ → ℕ
content_size image spec _ size = Image.get_block_size spec
content_size audio _ spec size = Audio.get_block_size spec
content_size _ _ _ size = size

unfoldable pub get_block_size : ContentBlock → ℕ
get_block_size block =
    if content_type_id block.content_type == 1
    then 0
    else if block.size == size_unknown
    then content_size block.content_type block.image_spec block.audio_spec block.size
    else block.size

-- `ContentBlock(const ContentBlock&, double, uint32_t)`: an image block with a key frame
abbrev pub with_key_frame : ContentBlock → ℕ → ℕ → ContentBlock
with_key_frame block timestamp index =
    image_block (image_with_key_frame block.image_spec timestamp index) (get_block_size block)

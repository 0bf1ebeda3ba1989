-- ===== src/RecordFormat/Image/Size.antt =====
-- The size in bytes of raw images.
use vrs.Base.{
  ℕ, ◌+◌, ◌*◌, ◌/◌, ◌%◌, ◌^◌, ◌≤◌, ◌<◌, ◌≡◌, ◌≢◌, refl, ap, sym, ◌∙◌, arith, zero, suc, false, inl,
  inr, Bool-cases,
}
use vrs.Base.{ltb, ◌==◌, if◌then◌else◌, lt→ltb}
use vrs.RecordFormat.Image.{
  PixelFormat, ImageSpec, raw_image, size_unknown, uint32_mod, is_yuv_split, pixel_format_id,
  get_stride, get_plane_count, get_plane_stride, get_plane_height, add_planes, get_raw_image_size,
  get_block_size,
}
use native.Mathlib.Nat.{mod-eq_of_lt}

-- How many bytes a row of `width` pixels takes, one after the other: whole bytes for each pixel, or
-- 5 bytes for 4 pixels of 10 bits, or 4 bytes for 2 pixels of a `yuy2` image.
unfoldable pub row_bytes : PixelFormat → ℕ → ℕ
row_bytes PixelFormat.grey8 width = width
row_bytes PixelFormat.rgb_ir_raw_4x4 width = width
row_bytes PixelFormat.bayer8_rggb width = width
row_bytes PixelFormat.grey10 width = 2 * width
row_bytes PixelFormat.grey12 width = 2 * width
row_bytes PixelFormat.grey16 width = 2 * width
row_bytes PixelFormat.bgr8 width = 3 * width
row_bytes PixelFormat.rgb8 width = 3 * width
row_bytes PixelFormat.depth32f width = 4 * width
row_bytes PixelFormat.rgba8 width = 4 * width
row_bytes PixelFormat.rgb10 width = 6 * width
row_bytes PixelFormat.rgb12 width = 6 * width
row_bytes PixelFormat.scalar64f width = 8 * width
row_bytes PixelFormat.rgb32f width = 12 * width
row_bytes PixelFormat.rgba32f width = 16 * width
row_bytes PixelFormat.yuy2 width = (width + 1) / 2 * 4
row_bytes PixelFormat.raw10 width = (width + 3) / 4 * 5
row_bytes PixelFormat.raw10_bayer_rggb width = (width + 3) / 4 * 5
row_bytes PixelFormat.yuv_i420_split width = width
row_bytes PixelFormat.undefined width = 0
row_bytes PixelFormat.count width = 0

get_stride-row_bytes :
    (p : PixelFormat) (w h : ℕ) → w < 2 ^ 14 → get_stride (raw_image p w h 0) ≡ row_bytes p w
unfolding get_stride row_bytes
get_stride-row_bytes PixelFormat.grey8 w h lt = omega arith
get_stride-row_bytes _ w h lt = omega arith

row_bytes_bound : (p : PixelFormat) (w : ℕ) → w < 2 ^ 14 → row_bytes p w < 2 ^ 18
unfolding row_bytes
row_bytes_bound PixelFormat.grey8 w lt = omega arith
row_bytes_bound _ w lt = omega arith

row_bytes_pos :
    (p : PixelFormat) (w : ℕ)
    → p ≢ PixelFormat.undefined
    → p ≢ PixelFormat.count
    → 0 < w
    → 0 < row_bytes p w
unfolding row_bytes
row_bytes_pos PixelFormat.undefined w u c lt = absurd (u refl)
row_bytes_pos PixelFormat.count w u c lt = absurd (c refl)
row_bytes_pos _ w u c lt = omega arith

-- The size that the loop adds up, where the guards of the image's dimensions pass.
guarded_size : ℕ → ℕ
guarded_size size = if ltb 0 size then size else size_unknown

get_raw_image_size-add_planes :
    (spec : ImageSpec)
    → pixel_format_id spec.pixel_format ≢ 0
    → 0 < spec.width
    → 0 < spec.height
    → get_raw_image_size spec
      ≡ guarded_size (add_planes spec (get_plane_count spec.pixel_format) 0 0)
unfolding get_raw_image_size guarded_size
get_raw_image_size-add_planes spec known w h =
    let some_format : (pixel_format_id spec.pixel_format == 0) ≡ false = ground arith in
    rw (some_format, lt→ltb _ _ w, lt→ltb _ _ h)

add_planes_one :
    (spec : ImageSpec)
    → is_yuv_split spec.pixel_format ≡ false
    → add_planes spec 1 0 0 ≡ get_stride spec * spec.height % uint32_mod
unfolding add_planes get_plane_stride get_plane_height
add_planes_one spec one = rw one (omega arith)

product_bound : (a b : ℕ) → a < 2 ^ 18 → b < 2 ^ 14 → a * b < 2 ^ 32
product_bound a b ha hb = grind arith

product_pos : (a b : ℕ) → 0 < a → 0 < b → 0 < a * b
product_pos a b ha hb = grind arith

-- The bytes of all planes: a `yuv_i420_split` image has two more, of half the width and half the
-- height, rounded up.
pub image_bytes : PixelFormat → ℕ → ℕ → ℕ
image_bytes p width height =
    if is_yuv_split p
    then width * height + 2 * ((width + 1) / 2 * ((height + 1) / 2))
    else row_bytes p width * height

guarded_size_pos : (n : ℕ) → 0 < n → guarded_size n ≡ n
unfolding guarded_size
guarded_size_pos n h = rw (lt→ltb 0 n h)

half_exact : (w : ℕ) → w < 2 ^ 14 → (w + 1) % uint32_mod / 2 ≡ (w + 1) / 2
half_exact w ws = omega arith

add_planes_three :
    (w h : ℕ)
    → w < 2 ^ 14
    → h < 2 ^ 14
    → add_planes (raw_image PixelFormat.yuv_i420_split w h 0) 3 0 0
      ≡ w * h + 2 * ((w + 1) / 2 * ((h + 1) / 2))
unfolding add_planes get_plane_stride get_plane_height
add_planes_three w h ws hs =
    rw (half_exact w ws, half_exact h hs)
      (omega (
        arith,
        product_bound w h (omega arith) hs,
        product_bound ((w + 1) / 2) ((h + 1) / 2) (omega arith) (omega arith),
      ))

block_size_one_plane :
    (p : PixelFormat) (w h : ℕ)
    → is_yuv_split p ≡ false
    → p ≢ PixelFormat.undefined
    → p ≢ PixelFormat.count
    → pixel_format_id p ≢ 0
    → 0 < w
    → w < 2 ^ 14
    → 0 < h
    → h < 2 ^ 14
    → get_raw_image_size (raw_image p w h 0) ≡ row_bytes p w * h
block_size_one_plane p w h one u c known w0 ws h0 hs =
    let bound = product_bound (row_bytes p w) h (row_bytes_bound p w ws) hs in
    let size : get_stride (raw_image p w h 0) * h % uint32_mod ≡ row_bytes p w * h =
      rw (get_stride-row_bytes p w h ws) (mod-eq_of_lt bound) in
    get_raw_image_size-add_planes (raw_image p w h 0) known w0 h0
    ∙ ap (λ (n : ℕ). guarded_size (add_planes (raw_image p w h 0) n 0 0)) (rw one)
    ∙ ap guarded_size (add_planes_one (raw_image p w h 0) one ∙ size)
    ∙ guarded_size_pos _ (product_pos (row_bytes p w) h (row_bytes_pos p w u c w0) h0)

wrapped_size : ℕ → ℕ
wrapped_size n = guarded_size (n % uint32_mod)

wrapped_size_differs : (n : ℕ) → 2 ^ 32 ≤ n → n < 2 ^ 63 → wrapped_size n ≢ n
unfolding wrapped_size guarded_size
wrapped_size_differs n large fits e = elim (Bool-cases (ltb 0 (n % uint32_mod))) [
  | inl some_bytes ↦
      let same : n % uint32_mod ≡ n = rw some_bytes at e in omega (arith, same, large)
  | inr no_bytes ↦ let same : size_unknown ≡ n = rw no_bytes at e in omega (arith, same, fits)
]

some_rows : (a b : ℕ) → 2 ^ 32 ≤ a * b → 0 < b
some_rows a zero h = absurd (grind arith)
some_rows a (suc b) h = omega arith

large_product : (a b : ℕ) → a < 2 ^ 18 → b < 2 ^ 32 → a * b < 2 ^ 63
large_product a b ha hb = grind arith

-- A raw image in one plane, of a known pixel format, with no explicit stride, with at least one and
-- less than 2 ^ 14 pixels in its width, and with less than 2 ^ 32 rows, never has its bytes for its
-- block size where it takes 4 GB or more.
pub get_block_size-row_bytes_too_large :
    (p : PixelFormat) (width height : ℕ)
    → is_yuv_split p ≡ false
    → pixel_format_id p ≢ 0
    → 0 < width
    → width < 2 ^ 14
    → height < 2 ^ 32
    → 2 ^ 32 ≤ row_bytes p width * height
    → get_block_size (raw_image p width height 0) ≢ row_bytes p width * height
unfolding get_block_size wrapped_size
get_block_size-row_bytes_too_large p w h one known w0 ws hs large e =
    let h0 : 0 < h = some_rows (row_bytes p w) h large in
    let single : get_plane_count p ≡ 1 = rw one refl in
    let size : get_raw_image_size (raw_image p w h 0) ≡ wrapped_size (row_bytes p w * h) =
      get_raw_image_size-add_planes (raw_image p w h 0) known w0 h0
      ∙ ap (λ (n : ℕ). guarded_size (add_planes (raw_image p w h 0) n 0 0)) single
      ∙ ap guarded_size (add_planes_one (raw_image p w h 0) one)
      ∙ ap (λ (n : ℕ). guarded_size (n * h % uint32_mod)) (get_stride-row_bytes p w h ws) in
    wrapped_size_differs (row_bytes p w * h) large
      (large_product (row_bytes p w) h (row_bytes_bound p w ws) hs) (sym size ∙ e)

-- A raw image of a known pixel format, with no explicit stride, and with at least one and less than
-- 2 ^ 14 pixels in its width and in its height, has for its block size the bytes of its planes.
pub get_block_size-image_bytes :
    (p : PixelFormat) (width height : ℕ)
    → p ≢ PixelFormat.undefined
    → p ≢ PixelFormat.count
    → 0 < width
    → width < 2 ^ 14
    → 0 < height
    → height < 2 ^ 14
    → get_block_size (raw_image p width height 0) ≡ image_bytes p width height
unfolding get_block_size image_bytes
get_block_size-image_bytes PixelFormat.undefined w h u c w0 ws h0 hs = absurd (u refl)
get_block_size-image_bytes PixelFormat.yuv_i420_split w h u c w0 ws h0 hs =
    get_raw_image_size-add_planes (raw_image PixelFormat.yuv_i420_split w h 0) (omega arith) w0 h0
    ∙ ap guarded_size (add_planes_three w h ws hs)
    ∙ guarded_size_pos _ (omega (arith, product_pos w h w0 h0))
get_block_size-image_bytes p w h u c w0 ws h0 hs =
    block_size_one_plane p w h refl u c (omega arith) w0 ws h0 hs

-- ===== src/Display/Framebuffer.antt =====
-- kernel/src/display/framebuffer.rs: a pixel buffer and the drawing in it. The backing, on the heap or
-- mapped from the device, is the list of its bytes. `none` is the panic of a slice out of range.
pub mod Pixels
pub mod Drawing
pub mod Painted
pub mod Rects
mod Tests
use hyperion_os.Base.{
  ℕ, zero, suc, ◌+◌, ◌-◌, ◌*◌, ◌%◌, ◌^◌, List, [], ◌∷◌, ◌++◌, Option, none, some, Bool, true, false,
  ◌==◌, ltb, leb, ◌||◌, if◌then◌else◌, length, take, drop, replicate, min,
}

pub data PixelFormat : Type 0 where
  bgra8 rgba8 : PixelFormat

pub bytes_per_pixel : PixelFormat → ℕ
bytes_per_pixel bgra8 = 4
bytes_per_pixel rgba8 = 4

pub record Framebuffer : Type 0 where
  pub width : ℕ
  pub height : ℕ
  pub stride : ℕ
  pub format : PixelFormat
  pub pixels : List ℕ

-- The products are of type `u32`.
pub new : ℕ → ℕ → PixelFormat → Framebuffer
new width height format =
    let stride = width * bytes_per_pixel format % 2 ^ 32 in
    record {
      width = width;
      height = height;
      stride = stride;
      format = format;
      pixels = replicate (stride * height % 2 ^ 32) 0;
    }

pub record Rgba : Type 0 where
  pub r : ℕ
  pub g : ℕ
  pub b : ℕ
  pub a : ℕ

unfoldable pub encode_rgba : PixelFormat → Rgba → List ℕ
encode_rgba bgra8 c = c.b ∷ c.g ∷ c.r ∷ c.a ∷ []
encode_rgba rgba8 c = c.r ∷ c.g ∷ c.b ∷ c.a ∷ []

-- `buf[off..off + 4].copy_from_slice(&pix)`.
unfoldable pub copy_pixel : ℕ → List ℕ → List ℕ → Option (List ℕ)
copy_pixel off pix buf =
    if ltb (length buf) (off + 4) then none else some (take off buf ++ pix ++ drop (off + 4) buf)

unfoldable pub with_pixels : Framebuffer → Option (List ℕ) → Option Framebuffer
with_pixels f none = none
with_pixels f (some buf) = some (record f { pixels = buf })

unfoldable pub put_pixel : ℕ → ℕ → Rgba → Framebuffer → Option Framebuffer
put_pixel x y rgba f =
    if leb f.width x || leb f.height y
    then some f
    else with_pixels f
        (copy_pixel ((y * f.stride + x * 4) % 2 ^ 32) (encode_rgba f.format rgba) f.pixels)

unfoldable pub and_then : Option (List ℕ) → (List ℕ → Option (List ℕ)) → Option (List ℕ)
and_then none k = none
and_then (some buf) k = k buf

-- `n` pixels from the offset `off` on.
unfoldable pub fill_row : ℕ → ℕ → List ℕ → List ℕ → Option (List ℕ)
fill_row zero off pix buf = some buf
fill_row (suc n) off pix buf = and_then (copy_pixel off pix buf) (fill_row n (off + 4) pix)

-- `rows` rows of `n` pixels from the offset `off` on, `stride` apart.
unfoldable pub fill_rows : ℕ → ℕ → ℕ → ℕ → List ℕ → List ℕ → Option (List ℕ)
fill_rows zero n off stride pix buf = some buf
fill_rows (suc rows) n off stride pix buf =
    and_then (fill_row n off pix buf) (fill_rows rows n (off + stride) stride pix)

unfoldable pub clear : Rgba → Framebuffer → Option Framebuffer
clear rgba f =
    with_pixels f (fill_rows f.height f.width 0 f.stride (encode_rgba f.format rgba) f.pixels)

-- The width of a row is `x_end - x` on `u32`, which wraps where `x` is behind the end.
pub fill_rect : ℕ → ℕ → ℕ → ℕ → Rgba → Framebuffer → Option Framebuffer
fill_rect x y w h rgba f =
    let x_end = min ((x + w) % 2 ^ 32) f.width in
    let y_end = min ((y + h) % 2 ^ 32) f.height in
    with_pixels f (
      fill_rows (y_end - y) ((x_end + 2 ^ 32 - x) % 2 ^ 32) (y * f.stride + x * 4) f.stride
        (encode_rgba f.format rgba) f.pixels)

unfoldable pub then_fill : ℕ → ℕ → ℕ → ℕ → Rgba → Option Framebuffer → Option Framebuffer
then_fill x y w h rgba none = none
then_fill x y w h rgba (some f) = fill_rect x y w h rgba f

unfoldable pub stroke_rect : ℕ → ℕ → ℕ → ℕ → Rgba → Framebuffer → Option Framebuffer
stroke_rect x y w h rgba f =
    if w == 0 || h == 0
    then some f
    else then_fill ((x + (w - 1)) % 2 ^ 32) y 1 h rgba (
        then_fill x y 1 h rgba
          (then_fill x ((y + (h - 1)) % 2 ^ 32) w 1 rgba (fill_rect x y w 1 rgba f)))

pub byte_len : Framebuffer → ℕ
byte_len f = length f.pixels

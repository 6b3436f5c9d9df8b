-- ===== src/Display/Framebuffer/Rects.antt =====
-- kernel/src/display/framebuffer.rs: what a rectangle leaves in each pixel.
use hyperion_os.Base.{
  Bool-cases, ℕ, ◌+◌, ◌-◌, ◌*◌, ◌%◌, ◌^◌, ◌<◌, ◌≤◌, ◌≡◌, refl, ap, subst, List, Option, none, some,
  Bool, leb, if◌then◌else◌, length, get_or, arith, min,
}
use native.Mathlib.Nat.{add-mul, mul-le-mul_right}
use hyperion_os.Display.Framebuffer.{
  Framebuffer, Rgba, encode_rgba, with_pixels, fill_rows, fill_rect,
}
use hyperion_os.Display.Framebuffer.Pixels.{IsValid, length-encode}
use hyperion_os.Base.{inl, inr, leb→le, leb→gt}
use hyperion_os.Display.Framebuffer.Painted.{Shows, inside, pixel_byte, fill_rows-Shows}

-- A frame buffer of which the byte at `i` is `v`: no panic.
abbrev pub PixelShows : ℕ → ℕ → Option Framebuffer → Type 0
PixelShows i v none = ⊥
PixelShows i v (some f) = get_or f.pixels i 0 ≡ v

with_pixels-PixelShows :
    (len i v : ℕ) (f : Framebuffer) (o : Option (List ℕ))
    → Shows len i v o
    → PixelShows i v (with_pixels f o)
unfolding with_pixels
with_pixels-PixelShows len i v f none s = s
with_pixels-PixelShows len i v f (some buf) s = s.1

-- The byte `j` of a pixel where a rectangle of the colour is drawn.
abbrev pub drawn_byte : ℕ → ℕ → ℕ → ℕ → Rgba → Framebuffer → ℕ → ℕ → ℕ → ℕ
drawn_byte x y w h rgba f c r j =
    if inside x w y h c r
    then get_or (encode_rgba f.format rgba) j 0
    else get_or f.pixels (pixel_byte f.stride c r j) 0

rect-Shows :
    (x n y y_end c r j : ℕ) (pix : List ℕ) (f : Framebuffer)
    → IsValid f
    → length pix ≡ 4
    → x + n ≤ f.width
    → y_end ≤ f.height
    → c < f.width
    → j < 4
    → Shows
        (length f.pixels)
        (pixel_byte f.stride c r j)
        (if inside x n y (y_end - y) c r
          then get_or pix j 0
          else get_or f.pixels (pixel_byte f.stride c r j) 0)
        (fill_rows (y_end - y) n (y * f.stride + x * 4) f.stride pix f.pixels)
unfolding fill_rows
rect-Shows x n y y_end c r j pix f v p a b d k = elim (Bool-cases (leb y y_end)) [
  | inl e ↦
      fill_rows-Shows (y_end - y) f.stride f.width x n y c r j pix f.pixels p v.rows_fit a d k (
        omega (
          arith,
          v.bytes,
          add-mul y (y_end - y) f.stride,
          mul-le-mul_right f.stride b,
          ap (λ (k : ℕ). k * f.stride) (whole (leb→le y y_end e)),
        ))
  | inr e ↦ subst none_drawn (none_left (leb→gt y y_end e)) (refl, ground arith)
]
  where
    whole : y ≤ y_end → y + (y_end - y) ≡ y_end
    whole h = omega (arith, h)

    none_left : y_end < y → 0 ≡ y_end - y
    none_left h = omega (arith, h)

    none_drawn : ℕ → Type 0
    none_drawn rows =
        Shows (length f.pixels) (pixel_byte f.stride c r j)
          (if inside x n y rows c r
            then get_or pix j 0
            else get_or f.pixels (pixel_byte f.stride c r j) 0)
          (fill_rows rows n (y * f.stride + x * 4) f.stride pix f.pixels)

-- In a valid frame buffer, a rectangle that starts at a column of the buffer and ends below 2^32 is drawn
-- without a panic: the pixels of the buffer inside the rectangle get the colour, byte for byte, and all
-- others keep theirs.
pub fill_rect_lem :
    (x y w h c r j : ℕ) (rgba : Rgba) (f : Framebuffer)
    → IsValid f
    → x ≤ f.width
    → x + w < 2 ^ 32
    → y + h < 2 ^ 32
    → c < f.width
    → r < f.height
    → j < 4
    → PixelShows
        (pixel_byte f.stride c r j)
        (drawn_byte x y w h rgba f c r j)
        (fill_rect x y w h rgba f)
unfolding fill_rect
fill_rect_lem x y w h c r j rgba f v a b d i k l =
    with_pixels-PixelShows (length f.pixels) (pixel_byte f.stride c r j)
      (drawn_byte x y w h rgba f c r j) f _
      (subst
        (λ (t : Bool).
          Shows (length f.pixels) (pixel_byte f.stride c r j)
            (if t then get_or pix j 0 else get_or f.pixels (pixel_byte f.stride c r j) 0)
            (fill_rows (y_end - y) n (y * f.stride + x * 4) f.stride pix f.pixels))
        (ground (arith, a, b, d, i, k, v.narrow))
        (rect-Shows x n y y_end c r j pix f v (length-encode f.format rgba)
          (omega (arith, a, v.narrow, b)) (omega arith) i l))
  where
    pix : List ℕ
    pix = encode_rgba f.format rgba

    n : ℕ
    n = (min ((x + w) % 2 ^ 32) f.width + 2 ^ 32 - x) % 2 ^ 32

    y_end : ℕ
    y_end = min ((y + h) % 2 ^ 32) f.height

-- ===== src/Display/Framebuffer/Pixels.antt =====
-- kernel/src/display/framebuffer.rs: what drawing leaves of the buffer.
use hyperion_os.Base.{
  ℕ, zero, suc, ◌+◌, ◌-◌, ◌*◌, ◌%◌, ◌^◌, ◌<◌, ◌≤◌, ◌≡◌, refl, sym, ap, subst, ◌∙◌, List, ◌++◌,
  Option, none, some, ltb, leb, Bool-cases, inl, inr, if◌then◌else◌, length, take, drop, min, arith,
  length-append, length-take, length-drop, leb→le, leb→gt,
}
use native.Mathlib.Nat.{suc-mul, add-mul, mul-le-mul_right}
use hyperion_os.Display.Framebuffer.{
  PixelFormat, bgra8, rgba8, Framebuffer, Rgba, encode_rgba, copy_pixel, with_pixels, and_then,
  fill_row, fill_rows, clear, fill_rect,
}

-- The result is a buffer of the length `n`: no panic.
abbrev pub Fills : ℕ → Option (List ℕ) → Type 0
Fills n none = ⊥
Fills n (some buf) = length buf ≡ n

pub length-encode : (format : PixelFormat) (c : Rgba) → length (encode_rgba format c) ≡ 4
unfolding encode_rgba
length-encode bgra8 c = refl
length-encode rgba8 c = refl

pub copy_pixel-Fills :
    (off : ℕ) (pix buf : List ℕ)
    → length pix ≡ 4
    → off + 4 ≤ length buf
    → Fills (length buf) (copy_pixel off pix buf)
unfolding copy_pixel
copy_pixel-Fills off pix buf p h = elim (Bool-cases (ltb (length buf) (off + 4))) [
  | inl e ↦ absurd (ground (arith, e, h))
  | inr e ↦
      subst (Fills (length buf))
        (sym (ap (λ b. if b then none else some (take off buf ++ pix ++ drop (off + 4) buf)) e))
        (length-append (take off buf ++ pix) (drop (off + 4) buf)
          ∙ omega (
            arith,
            length-append (take off buf) pix,
            length-take off buf,
            length-drop (off + 4) buf,
            p,
            h,
          ))
]

pub and_then-Fills :
    (n : ℕ) (o : Option (List ℕ)) (k : List ℕ → Option (List ℕ))
    → Fills n o
    → ((buf : List ℕ) → length buf ≡ n → Fills n (k buf))
    → Fills n (and_then o k)
unfolding and_then
and_then-Fills n none k f g = f
and_then-Fills n (some buf) k f g = g buf f

fill_row-Fills :
    (n off : ℕ) (pix buf : List ℕ)
    → length pix ≡ 4
    → off + n * 4 ≤ length buf
    → Fills (length buf) (fill_row n off pix buf)
unfolding fill_row
fill_row-Fills zero off pix buf p h = refl
fill_row-Fills (suc n) off pix buf p h =
    and_then-Fills (length buf) (copy_pixel off pix buf) (fill_row n (off + 4) pix)
      (copy_pixel-Fills off pix buf p (omega (arith, h)))
      (λ b e.
        subst (λ l. Fills l (fill_row n (off + 4) pix b)) e
          (fill_row-Fills n (off + 4) pix b p (omega (arith, h, e))))

-- Each of the rows ends inside a buffer of the length `len`.
abbrev Room : ℕ → ℕ → ℕ → ℕ → ℕ → Type 0
Room zero n off stride len = Unit {0}
Room (suc rows) n off stride len = (off + n * 4 ≤ len) × Room rows n (off + stride) stride len

fill_rows-Fills :
    (rows n off stride : ℕ) (pix buf : List ℕ)
    → length pix ≡ 4
    → Room rows n off stride (length buf)
    → Fills (length buf) (fill_rows rows n off stride pix buf)
unfolding fill_rows
fill_rows-Fills zero n off stride pix buf p h = refl
fill_rows-Fills (suc rows) n off stride pix buf p h =
    and_then-Fills (length buf) (fill_row n off pix buf)
      (fill_rows rows n (off + stride) stride pix) (fill_row-Fills n off pix buf p h.0)
      (λ b e.
        subst (λ l. Fills l (fill_rows rows n (off + stride) stride pix b)) e
          (fill_rows-Fills rows n (off + stride) stride pix b p
            (subst (Room rows n (off + stride) stride) (sym e) h.1)))

room :
    (rows n base x stride len : ℕ)
    → (x + n) * 4 ≤ stride
    → base + rows * stride ≤ len
    → Room rows n (base + x * 4) stride len
room zero n base x stride len f h = tt
room (suc rows) n base x stride len f h = (
  omega (arith, f, h, suc-mul rows stride),
  subst (λ o. Room rows n o stride len) shift
      (room rows n (base + stride) x stride len f (omega (arith, h, suc-mul rows stride))),
)
  where
    shift : base + stride + x * 4 ≡ base + x * 4 + stride
    shift = omega arith

-- A frame buffer whose rows fit its stride and whose bytes are those of its rows.
pub record IsValid (f : Framebuffer) : Type 0 where
  pub narrow : f.width < 2 ^ 32
  pub rows_fit : f.width * 4 ≤ f.stride
  pub bytes : f.height * f.stride ≤ length f.pixels

-- The buffer after drawing: no panic, the same shape, as many bytes.
abbrev pub Drawn : Framebuffer → Option Framebuffer → Type 0
Drawn f none = ⊥
Drawn f (some p) = (p ≡ record f { pixels = p.pixels }) × (length p.pixels ≡ length f.pixels)

pub with_pixels-Drawn :
    (f : Framebuffer) (o : Option (List ℕ)) → Fills (length f.pixels) o → Drawn f (with_pixels f o)
unfolding with_pixels
with_pixels-Drawn f none d = d
with_pixels-Drawn f (some buf) d = (refl, d)

-- The rows of a rectangle from `y` to `y_end` inside the buffer.
rect-Room :
    (x n y y_end : ℕ) (f : Framebuffer)
    → IsValid f
    → x + n ≤ f.width
    → y_end ≤ f.height
    → Room (y_end - y) n (y * f.stride + x * 4) f.stride (length f.pixels)
rect-Room x n y y_end f v i j = elim (Bool-cases (leb y y_end)) [
  | inl e ↦
      room (y_end - y) n (y * f.stride) x f.stride (length f.pixels) (omega (arith, v.rows_fit, i))
        (omega (
          arith,
          v.bytes,
          add-mul y (y_end - y) f.stride,
          mul-le-mul_right f.stride j,
          ap (λ k. k * f.stride) (whole (leb→le y y_end e)),
        ))
  | inr e ↦
      subst (λ r. Room r n (y * f.stride + x * 4) f.stride (length f.pixels))
        (none_left (leb→gt y y_end e)) tt
]
  where
    whole : y ≤ y_end → y + (y_end - y) ≡ y_end
    whole h = omega (arith, h)

    none_left : y_end < y → 0 ≡ y_end - y
    none_left h = omega (arith, h)

-- In a valid frame buffer, a rectangle that starts at a column of the buffer, or right behind the last,
-- is drawn without a panic, whatever its size and its first row; the shape of the buffer and the number
-- of its bytes stay.
pub fill_rect-Drawn :
    (x y w h : ℕ) (rgba : Rgba) (f : Framebuffer)
    → IsValid f
    → x ≤ f.width
    → x + w < 2 ^ 32
    → Drawn f (fill_rect x y w h rgba f)
unfolding fill_rect
fill_rect-Drawn x y w h rgba f v i j = with_pixels-Drawn f _ (
    fill_rows-Fills (min ((y + h) % 2 ^ 32) f.height - y)
      ((min ((x + w) % 2 ^ 32) f.width + 2 ^ 32 - x) % 2 ^ 32) (y * f.stride + x * 4) f.stride
      (encode_rgba f.format rgba) f.pixels (length-encode f.format rgba)
      (rect-Room x ((min ((x + w) % 2 ^ 32) f.width + 2 ^ 32 - x) % 2 ^ 32) y
        (min ((y + h) % 2 ^ 32) f.height) f v (omega (arith, i, j, v.narrow)) (omega arith)))

-- In a valid frame buffer `clear` does not panic; the shape of the buffer and the number of its bytes
-- stay.
pub clear-Drawn : (rgba : Rgba) (f : Framebuffer) → IsValid f → Drawn f (clear rgba f)
unfolding clear
clear-Drawn rgba f v = with_pixels-Drawn f _ (
    fill_rows-Fills f.height f.width 0 f.stride (encode_rgba f.format rgba) f.pixels
      (length-encode f.format rgba)
      (room f.height f.width 0 0 f.stride (length f.pixels) (omega (arith, v.rows_fit))
        (omega (arith, v.bytes))))

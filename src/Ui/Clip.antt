-- ===== src/Ui/Clip.antt =====
-- kernel/src/ui/canvas.rs: what clipping leaves of a rectangle, and what a clipped rectangle paints.
use hyperion_os.Base.{
  ℕ, ◌+◌, ◌-◌, ◌^◌, ◌<◌, ◌≤◌, ◌≡◌, subst, Bool, ltb, leb, ◌&&◌, ◌||◌, if◌then◌else◌, if_both,
  get_or, arith, min,
}
use hyperion_os.Display.Framebuffer.{Framebuffer, Rgba, encode_rgba}
use hyperion_os.Display.Framebuffer
use hyperion_os.Display.Framebuffer.Pixels.{IsValid}
use hyperion_os.Display.Framebuffer.Painted.{inside, pixel_byte}
use hyperion_os.Display.Framebuffer.Rects.{PixelShows, fill_rect_lem}
use hyperion_os.Ui.Words.{is_positive, max_zero}
use hyperion_os.Ui.Canvas.{clip, visible, on_rect, fill_rect}

-- Whether `c` is one of the `w` numbers from the signed number `x` on.
abbrev pub covers : ℕ → ℕ → ℕ → Bool
covers x w c = if is_positive x then leb x c && ltb c (x + w) else ltb (c + 2 ^ 32) (x + w)

-- Whether the pixel is inside a rectangle.
abbrev pub in_rect : ℕ × ℕ × ℕ × ℕ → ℕ → ℕ → Bool
in_rect (x, y, w, h) c r = inside x w y h c r

-- The rectangle ends inside the screen.
abbrev pub Inside : ℕ → ℕ → ℕ × ℕ × ℕ × ℕ → Type 0
Inside sw sh (x, y, w, h) = (x + w ≤ sw) × (y + h ≤ sh)

-- A clipped rectangle ends inside the screen, whatever was asked for.
pub clip-Inside : (x y w h sw sh : ℕ) → Inside sw sh (clip x y w h sw sh)
unfolding clip visible
clip-Inside x y w h sw sh =
    if_both (Inside sw sh) (leb sw (max_zero x) || leb sh (max_zero y))
      (λ e. (omega arith, omega arith)) (λ e. (ground (arith, e), ground (arith, e)))

-- One side of the rectangle.
side :
    (x w sw c : ℕ)
    → x < 2 ^ 32
    → w < 2 ^ 31
    → c < sw
    → max_zero x < sw
    → (leb (max_zero x) c && ltb c (max_zero x + min (visible x w) (sw - max_zero x)))
      ≡ covers x w c
unfolding visible
side x w sw c a b d e = ground (arith, a, b, d, e)

-- A pixel of the screen is inside the clipped rectangle exactly if it is inside the rectangle of the
-- signed corner and the sizes below 2^31 that was asked for.
pub clip_lem :
    (x y w h sw sh c r : ℕ)
    → x < 2 ^ 32
    → y < 2 ^ 32
    → w < 2 ^ 31
    → h < 2 ^ 31
    → c < sw
    → r < sh
    → in_rect (clip x y w h sw sh) c r ≡ covers x w c && covers y h r
unfolding clip
clip_lem x y w h sw sh c r a b d e i k =
    if_both (λ t. in_rect t c r ≡ covers x w c && covers y h r)
      (leb sw (max_zero x) || leb sh (max_zero y)) (λ t. ground (arith, t, a, b, i, k))
      (λ t.
        ground
          (arith, side x w sw c a d i (ground (arith, t)), side y h sh r b e k (ground (arith, t))))

drawn_rect :
    (t : ℕ × ℕ × ℕ × ℕ) (c r j : ℕ) (rgba : Rgba) (f : Framebuffer)
    → IsValid f
    → f.height < 2 ^ 32
    → Inside f.width f.height t
    → c < f.width
    → r < f.height
    → j < 4
    → PixelShows
        (pixel_byte f.stride c r j)
        (if in_rect t c r
          then get_or (encode_rgba f.format rgba) j 0
          else get_or f.pixels (pixel_byte f.stride c r j) 0)
        (on_rect Framebuffer.fill_rect t rgba f)
drawn_rect (x, y, w, h) c r j rgba f v n t i k l =
    fill_rect_lem x y w h c r j rgba f v (omega (arith, t)) (omega (arith, t, v.narrow))
      (omega (arith, t, n)) i k l

-- On a valid frame buffer below 2^32 rows, `Canvas::fill_rect` at a signed corner with sizes below 2^31
-- does not panic: the pixels of the buffer that the rectangle covers get the colour, and all others keep
-- theirs.
pub canvas_fill_rect_lem :
    (x y w h c r j : ℕ) (rgba : Rgba) (f : Framebuffer)
    → IsValid f
    → f.height < 2 ^ 32
    → x < 2 ^ 32
    → y < 2 ^ 32
    → w < 2 ^ 31
    → h < 2 ^ 31
    → c < f.width
    → r < f.height
    → j < 4
    → PixelShows
        (pixel_byte f.stride c r j)
        (if covers x w c && covers y h r
          then get_or (encode_rgba f.format rgba) j 0
          else get_or f.pixels (pixel_byte f.stride c r j) 0)
        (fill_rect x y w h rgba f)
unfolding fill_rect
canvas_fill_rect_lem x y w h c r j rgba f v n a b d e i k l =
    subst
      (λ (t : Bool).
        PixelShows (pixel_byte f.stride c r j)
          (if t
            then get_or (encode_rgba f.format rgba) j 0
            else get_or f.pixels (pixel_byte f.stride c r j) 0)
          (fill_rect x y w h rgba f))
      (clip_lem x y w h f.width f.height c r a b d e i k)
      (drawn_rect (clip x y w h f.width f.height) c r j rgba f v n
        (clip-Inside x y w h f.width f.height) i k l)

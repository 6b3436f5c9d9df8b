-- ===== src/Display/Framebuffer/Drawing.antt =====
-- kernel/src/display/framebuffer.rs: drawing after drawing.
use hyperion_os.Base.{
  ℕ, ◌+◌, ◌-◌, ◌*◌, ◌%◌, ◌^◌, ◌<◌, ◌≤◌, ◌≡◌, refl, sym, ap, subst, ◌∙◌, Option, none, some, ◌==◌,
  leb, ◌||◌, if_both, length, arith,
}
use native.Mathlib.Nat.{suc-mul, mul-le-mul_right}
use hyperion_os.Display.Framebuffer.{
  Framebuffer, Rgba, encode_rgba, put_pixel, fill_rect, then_fill, stroke_rect,
}
use hyperion_os.Display.Framebuffer.Pixels.{
  IsValid, Drawn, fill_rect-Drawn, with_pixels-Drawn, copy_pixel-Fills, length-encode,
}

-- A second call of the drawing functions, on the buffer that the first leaves.
unfoldable pub then_draw :
    Option Framebuffer → (Framebuffer → Option Framebuffer) → Option Framebuffer
then_draw none k = none
then_draw (some f) k = k f

-- A buffer of the same shape and as many bytes is valid, too.
Drawn-IsValid : (f p : Framebuffer) → IsValid f → Drawn f (some p) → IsValid p
Drawn-IsValid f p v d =
    subst IsValid (sym d.0)
      (record { narrow = v.narrow; rows_fit = v.rows_fit; bytes = omega (arith, v.bytes, d.1) })

Drawn-trans :
    (f p : Framebuffer) (o : Option Framebuffer) → Drawn f (some p) → Drawn p o → Drawn f o
Drawn-trans f p none d e = e
Drawn-trans f p (some q) d e =
    (e.0 ∙ ap (λ (r : Framebuffer). record r { pixels = q.pixels }) d.0, e.1 ∙ d.1)

pub then_draw-Drawn :
    (f : Framebuffer) (o : Option Framebuffer) (k : Framebuffer → Option Framebuffer)
    → IsValid f
    → Drawn f o
    → ((p : Framebuffer) → IsValid p → p.width ≡ f.width → p.height ≡ f.height → Drawn p (k p))
    → Drawn f (then_draw o k)
unfolding then_draw
then_draw-Drawn f none k v d h = d
then_draw-Drawn f (some p) k v d h = Drawn-trans f p (k p) d (
    h p (Drawn-IsValid f p v d) (ap (λ (r : Framebuffer). r.width) d.0)
      (ap (λ (r : Framebuffer). r.height) d.0))

-- In a valid frame buffer `put_pixel` does not panic, wherever the pixel is; the shape of the buffer and
-- the number of its bytes stay.
pub put_pixel-Drawn :
    (x y : ℕ) (c : Rgba) (f : Framebuffer) → IsValid f → Drawn f (put_pixel x y c f)
unfolding put_pixel
put_pixel-Drawn x y c f v =
    if_both (Drawn f) (leb f.width x || leb f.height y) (λ e. (refl, refl))
      (λ e. with_pixels-Drawn f _ (
        copy_pixel-Fills ((y * f.stride + x * 4) % 2 ^ 32) (encode_rgba f.format c) f.pixels
          (length-encode f.format c)
          (omega (arith, below (ground (arith, e)) (ground (arith, e))))))
  where
    below : x < f.width → y < f.height → y * f.stride + x * 4 + 4 ≤ length f.pixels
    below i j = omega (
      arith,
      i,
      v.rows_fit,
      v.bytes,
      suc-mul y f.stride,
      mul-le-mul_right {m = y + 1} {n = f.height} f.stride (omega (arith, j)),
    )

then_fill_lem :
    (x y w h : ℕ) (c : Rgba) (o : Option Framebuffer)
    → then_fill x y w h c o ≡ then_draw o (fill_rect x y w h c)
unfolding then_fill then_draw
then_fill_lem x y w h c none = refl
then_fill_lem x y w h c (some f) = refl

-- In a valid frame buffer, the border of a rectangle whose columns are columns of the buffer is drawn
-- without a panic; the shape of the buffer and the number of its bytes stay.
pub stroke_rect-Drawn :
    (x y w h : ℕ) (c : Rgba) (f : Framebuffer)
    → IsValid f
    → x + w ≤ f.width
    → Drawn f (stroke_rect x y w h c f)
unfolding stroke_rect
stroke_rect-Drawn x y w h c f v i =
    if_both (Drawn f) (w == 0 || h == 0) (λ e. (refl, refl)) (λ e. sides (ground (arith, e)))
  where
    after :
        (x y w h : ℕ) (o : Option Framebuffer)
        → x ≤ f.width
        → x + w < 2 ^ 32
        → Drawn f o
        → Drawn f (then_fill x y w h c o)
    after x y w h o i j d = subst (Drawn f) (sym (then_fill_lem x y w h c o)) (
        then_draw-Drawn f o (fill_rect x y w h c) v d
          (λ p u a b. fill_rect-Drawn x y w h c p u (omega (arith, i, a)) j))

    sides :
        0 < w
        → Drawn f (
            then_fill ((x + (w - 1)) % 2 ^ 32) y 1 h c (
              then_fill x y 1 h c
                (then_fill x ((y + (h - 1)) % 2 ^ 32) w 1 c (fill_rect x y w 1 c f))))
    sides p =
        after ((x + (w - 1)) % 2 ^ 32) y 1 h _ (omega (arith, i, v.narrow))
          (omega (arith, i, v.narrow))
          (after x y 1 h _ (omega (arith, i)) (omega (arith, i, v.narrow)) (
            after x ((y + (h - 1)) % 2 ^ 32) w 1 _ (omega (arith, i)) (omega (arith, i, v.narrow))
              (fill_rect-Drawn x y w 1 c f v (omega (arith, i)) (omega (arith, i, v.narrow)))))

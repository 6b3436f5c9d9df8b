-- ===== src/Display/Compositor/Blit.antt =====
-- kernel/src/display/compositor.rs: composing layers does not panic.
use hyperion_os.Base.{
  ℕ, zero, suc, ◌+◌, ◌*◌, ◌%◌, ◌^◌, ◌<◌, ◌≤◌, ◌≡◌, refl, subst, List, [], ◌∷◌, false, ◌==◌, leb,
  if_both, length, get_or, take, drop, arith, length-take, length-drop,
}
use native.Mathlib.Nat.{suc-mul, mul-le-mul_right}
use hyperion_os.Display.Framebuffer.{Framebuffer}
use hyperion_os.Display.Framebuffer.Pixels.{
  IsValid, Drawn, Fills, and_then-Fills, copy_pixel-Fills, with_pixels-Drawn, clear-Drawn,
}
use hyperion_os.Display.Framebuffer.Drawing.{then_draw-Drawn}
use hyperion_os.Display.Compositor.{
  Layer, Compositor, less_signed, insert_by_z, sort_by_z, is_outside, blit_pixel, blit_cols,
  blit_rows, blit, blit_all, render,
}

-- The last byte of a pixel is inside the buffer.
pixel_inside :
    (x y : ℕ) (f : Framebuffer)
    → IsValid f
    → x < f.width
    → y < f.height
    → y * f.stride + x * 4 + 4 ≤ length f.pixels
pixel_inside x y f v i j = omega (
  arith,
  i,
  v.rows_fit,
  v.bytes,
  suc-mul y f.stride,
  mul-le-mul_right {m = y + 1} {n = f.height} f.stride (omega (arith, j)),
)

is_outside_lem : (d end : ℕ) → is_outside d end ≡ false → d < end
unfolding is_outside
is_outside_lem d end o = ground (arith, o)

blit_pixel-Fills :
    (so do_ : ℕ) (src dst : List ℕ)
    → so + 4 ≤ length src
    → do_ + 4 ≤ length dst
    → Fills (length dst) (blit_pixel src so do_ dst)
unfolding blit_pixel
blit_pixel-Fills so do_ src dst h k =
    if_both (Fills (length dst)) (leb (length src) (so + 3)) (λ e. absurd (ground (arith, e, h)))
      (λ e.
        if_both (Fills (length dst)) (get_or src (so + 3) 0 == 0) (λ t. refl)
          (λ t.
            copy_pixel-Fills do_ (take 4 (drop so src)) dst
              (omega (arith, h, length-take 4 (drop so src), length-drop so src)) k))

module _ (src target : Framebuffer) (u : IsValid src) (v : IsValid target) (x y : ℕ) where
  blit_cols-Fills :
      (n sx sy dy : ℕ) (dst : List ℕ)
      → sx + n ≡ src.width
      → sy < src.height
      → dy < target.height
      → length dst ≡ length target.pixels
      → Fills (length target.pixels) (blit_cols n sx src target x sy dy dst)
  unfolding blit_cols
  blit_cols-Fills zero sx sy dy dst e i j l = l
  blit_cols-Fills (suc n) sx sy dy dst e i j l =
      and_then-Fills (length target.pixels) _ (blit_cols n (sx + 1) src target x sy dy)
        (if_both (Fills (length target.pixels)) (is_outside ((x + sx) % 2 ^ 32) target.width)
          (λ o. l)
          (λ o.
            subst
              (λ k. Fills k (
                blit_pixel src.pixels ((sy * src.stride + sx * 4) % 2 ^ 32)
                  ((dy * target.stride + (x + sx) % 2 ^ 32 * 4) % 2 ^ 32) dst))
              l
              (blit_pixel-Fills ((sy * src.stride + sx * 4) % 2 ^ 32)
                ((dy * target.stride + (x + sx) % 2 ^ 32 * 4) % 2 ^ 32) src.pixels dst
                (omega (arith, pixel_inside sx sy src u (omega (arith, e)) i))
                (omega (
                  arith,
                  l,
                  pixel_inside ((x + sx) % 2 ^ 32) dy target v
                      (is_outside_lem ((x + sx) % 2 ^ 32) target.width o) j,
                )))))
        (λ b k. blit_cols-Fills n (sx + 1) sy dy b (omega (arith, e)) i j k)

  blit_rows-Fills :
      (n sy : ℕ) (dst : List ℕ)
      → sy + n ≡ src.height
      → length dst ≡ length target.pixels
      → Fills (length target.pixels) (blit_rows n sy src target x y dst)
  unfolding blit_rows
  blit_rows-Fills zero sy dst e l = l
  blit_rows-Fills (suc n) sy dst e l =
      and_then-Fills (length target.pixels) _ (blit_rows n (sy + 1) src target x y)
        (if_both (Fills (length target.pixels)) (is_outside ((y + sy) % 2 ^ 32) target.height)
          (λ o. l)
          (λ o.
            blit_cols-Fills src.width 0 sy ((y + sy) % 2 ^ 32) dst (omega arith) (omega (arith, e))
              (is_outside_lem ((y + sy) % 2 ^ 32) target.height o) l))
        (λ b k. blit_rows-Fills n (sy + 1) b (omega (arith, e)) k)

  blit-Drawn : Drawn target (blit src x y target)
  unfolding blit
  blit-Drawn =
      with_pixels-Drawn target _ (blit_rows-Fills src.height 0 target.pixels (omega arith) refl)

-- Every layer has a valid frame buffer.
abbrev pub AllValid : List Layer → Type 0
AllValid [] = Unit {0}
AllValid (l ∷ ls) = IsValid l.fb × AllValid ls

insert_by_z-AllValid :
    (l : Layer) (ls : List Layer) → IsValid l.fb → AllValid ls → AllValid (insert_by_z l ls)
unfolding insert_by_z
insert_by_z-AllValid l [] v h = (v, tt)
insert_by_z-AllValid l (m ∷ ms) v h =
    if_both AllValid (less_signed m.z l.z) (λ e. (h.0, insert_by_z-AllValid l ms v h.1))
      (λ e. (v, h))

sort_by_z-AllValid : (ls : List Layer) → AllValid ls → AllValid (sort_by_z ls)
unfolding sort_by_z
sort_by_z-AllValid [] h = tt
sort_by_z-AllValid (l ∷ ls) h =
    insert_by_z-AllValid l (sort_by_z ls) h.0 (sort_by_z-AllValid ls h.1)

blit_all-Drawn :
    (ls : List Layer) (f : Framebuffer) → AllValid ls → IsValid f → Drawn f (blit_all ls f)
unfolding blit_all
blit_all-Drawn [] f h v = (refl, refl)
blit_all-Drawn (l ∷ ls) f h v =
    then_draw-Drawn f _ (blit_all ls) v (blit-Drawn l.fb f h.0 v l.x l.y)
      (λ p u a b. blit_all-Drawn ls p h.1 u)

-- A compositor whose monitor and layers have valid frame buffers renders without a panic, wherever the
-- layers stand; the shape of the monitor's buffer and the number of its bytes stay.
pub render-Drawn :
    (c : Compositor) → IsValid c.monitor.fb → AllValid c.layers → Drawn c.monitor.fb (render c)
unfolding render
render-Drawn c v h =
    then_draw-Drawn c.monitor.fb _ (blit_all (sort_by_z c.layers)) v
      (clear-Drawn c.background c.monitor.fb v)
      (λ p u a b. blit_all-Drawn (sort_by_z c.layers) p (sort_by_z-AllValid c.layers h) u)

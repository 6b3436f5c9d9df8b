-- ===== src/Display/Compositor.antt =====
-- kernel/src/display/compositor.rs: layers in the order of their depth, copied to the monitor. A layer
-- holds its frame buffer as it is when `render` takes the lock of it; `i32` is a word of 32 bits.
mod Tests
pub mod Blit
use hyperion_os.Base.{
  ℕ, zero, suc, ◌+◌, ◌*◌, ◌%◌, ◌^◌, List, [], ◌∷◌, ◌++◌, Option, none, some, Bool, not, ◌==◌, ltb,
  leb, ◌||◌, if◌then◌else◌, length, get_or, take, drop,
}
use hyperion_os.Display.Framebuffer.{Framebuffer, Rgba, clear, copy_pixel, with_pixels, and_then}
use hyperion_os.Display.Framebuffer.Drawing.{then_draw}
use hyperion_os.Display.Monitor.{Monitor}

pub record Layer : Type 0 where
  pub fb : Framebuffer
  pub x : ℕ
  pub y : ℕ
  pub z : ℕ

pub record Compositor : Type 0 where
  pub monitor : Monitor
  pub layers : List Layer
  pub background : Rgba

pub new : Monitor → Compositor
new monitor = record {
  monitor = monitor;
  layers = [];
  background = record { r = 16; g = 24; b = 36; a = 255 };
}

pub set_background : Rgba → Compositor → Compositor
set_background rgba c = record c { background = rgba }

pub push_layer : Layer → Compositor → Compositor
push_layer layer c = record c { layers = c.layers ++ layer ∷ [] }

pub clear_layers : Compositor → Compositor
clear_layers c = record c { layers = [] }

-- The order of `i32`.
pub less_signed : ℕ → ℕ → Bool
less_signed a b = ltb ((a + 2 ^ 31) % 2 ^ 32) ((b + 2 ^ 31) % 2 ^ 32)

-- `sort_by_key(|l| l.z)`, which keeps the order of equal keys.
pub insert_by_z : Layer → List Layer → List Layer
insert_by_z l [] = l ∷ []
insert_by_z l (m ∷ ms) = if less_signed m.z l.z then m ∷ insert_by_z l ms else l ∷ m ∷ ms

pub sort_by_z : List Layer → List Layer
sort_by_z [] = []
sort_by_z (l ∷ ls) = insert_by_z l (sort_by_z ls)

-- A place outside the target: `d < 0 || d as u32 >= end`.
pub is_outside : ℕ → ℕ → Bool
is_outside d end = leb (2 ^ 31) d || leb end d

-- A pixel whose fourth byte is zero is left out.
pub blit_pixel : List ℕ → ℕ → ℕ → List ℕ → Option (List ℕ)
blit_pixel src so do_ dst =
    if leb (length src) (so + 3)
    then none
    else if get_or src (so + 3) 0 == 0
    then some dst
    else copy_pixel do_ (take 4 (drop so src)) dst

-- The columns of the source from `sx` on, of which there are `n`, in the row `sy` and in the row `dy` of
-- the target.
pub blit_cols : ℕ → ℕ → Framebuffer → Framebuffer → ℕ → ℕ → ℕ → List ℕ → Option (List ℕ)
blit_cols zero sx src target x sy dy dst = some dst
blit_cols (suc n) sx src target x sy dy dst =
    let dx = (x + sx) % 2 ^ 32 in
    and_then
      (if is_outside dx target.width
        then some dst
        else blit_pixel src.pixels ((sy * src.stride + sx * 4) % 2 ^ 32)
            ((dy * target.stride + dx * 4) % 2 ^ 32) dst)
      (blit_cols n (sx + 1) src target x sy dy)

pub blit_rows : ℕ → ℕ → Framebuffer → Framebuffer → ℕ → ℕ → List ℕ → Option (List ℕ)
blit_rows zero sy src target x y dst = some dst
blit_rows (suc n) sy src target x y dst =
    let dy = (y + sy) % 2 ^ 32 in
    and_then
      (if is_outside dy target.height
        then some dst
        else blit_cols src.width 0 src target x sy dy dst)
      (blit_rows n (sy + 1) src target x y)

pub blit : Framebuffer → ℕ → ℕ → Framebuffer → Option Framebuffer
blit src x y dst = with_pixels dst (blit_rows src.height 0 src dst x y dst.pixels)

pub blit_all : List Layer → Framebuffer → Option Framebuffer
blit_all [] target = some target
blit_all (l ∷ ls) target = then_draw (blit l.fb l.x l.y target) (blit_all ls)

pub render : Compositor → Option Framebuffer
render c = then_draw (clear c.background c.monitor.fb) (blit_all (sort_by_z c.layers))

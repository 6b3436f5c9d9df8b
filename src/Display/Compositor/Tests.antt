-- ===== src/Display/Compositor/Tests.antt =====
-- kernel/src/display/compositor.rs: the theorems at a monitor of two pixels under two layers.
use hyperion_os.Base.{ℕ, ◌≡◌, refl, [], ◌∷◌, some, arith}
use hyperion_os.Base.Text.{codes}
use hyperion_os.Display.Framebuffer.{
  Framebuffer, PixelFormat, clear, with_pixels, fill_rows, fill_row, and_then, copy_pixel,
  encode_rgba,
}
use hyperion_os.Display.Framebuffer.Pixels.{IsValid, Drawn}
use hyperion_os.Display.Framebuffer.Drawing.{then_draw}
use hyperion_os.Display.Monitor.{Monitor, MonitorKind}
use hyperion_os.Display.Compositor.{
  Compositor, new, set_background, push_layer, clear_layers, less_signed, insert_by_z, sort_by_z,
  is_outside, blit_pixel, blit_cols, blit_rows, blit, blit_all, render,
}
use hyperion_os.Display.Compositor.Blit.{render-Drawn}

abbrev screen : Framebuffer
screen = record {
  width = 2;
  height = 1;
  stride = 8;
  format = PixelFormat.bgra8;
  pixels = 0 ∷ 0 ∷ 0 ∷ 0 ∷ 0 ∷ 0 ∷ 0 ∷ 0 ∷ [];
}

-- One pixel of the colour `v`.
abbrev dot : ℕ → Framebuffer
dot v = record {
  width = 1;
  height = 1;
  stride = 4;
  format = PixelFormat.bgra8;
  pixels = v ∷ v ∷ v ∷ 255 ∷ [];
}

abbrev monitor : Monitor
monitor = record {
  name = codes "m";
  kind = MonitorKind.virtual;
  width = 2;
  height = 1;
  fb = screen;
  id = 0;
}

-- The layer above is pushed first.
abbrev scene : Compositor
scene = record {
  monitor = monitor;
  layers =
      record { fb = dot 7; x = 1; y = 0; z = 2 }
      ∷ record { fb = dot 9; x = 1; y = 0; z = 1 }
      ∷ record { fb = dot 5; x = 4294967295; y = 0; z = 3 }
      ∷ [];
  background = record { r = 1; g = 2; b = 3; a = 4 };
}

screen-IsValid : IsValid screen
screen-IsValid = record { narrow = omega arith; rows_fit = omega arith; bytes = omega arith }

dot-IsValid : (v : ℕ) → IsValid (dot v)
dot-IsValid v = record { narrow = omega arith; rows_fit = omega arith; bytes = omega arith }

render-Drawn_example : Drawn screen (render scene)
render-Drawn_example =
    render-Drawn scene (screen-IsValid) (dot-IsValid 7, (dot-IsValid 9, (dot-IsValid 5, tt)))

-- The layer of the greatest depth is on top, and the one left of the screen is not seen.
on_top : render scene ≡ some (record screen { pixels = 3 ∷ 2 ∷ 1 ∷ 4 ∷ 7 ∷ 7 ∷ 7 ∷ 255 ∷ [] })
unfolding render then_draw clear with_pixels fill_rows fill_row and_then copy_pixel encode_rgba
    sort_by_z insert_by_z less_signed blit_all blit blit_rows blit_cols blit_pixel is_outside
on_top = refl

emptied :
    (clear_layers (
      push_layer
        (record { fb = dot 1; x = 0; y = 0; z = 0 })
        (set_background scene.background (new monitor)))).layers
    ≡ []
unfolding clear_layers push_layer set_background new
emptied = refl

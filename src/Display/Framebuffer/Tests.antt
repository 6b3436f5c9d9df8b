-- ===== src/Display/Framebuffer/Tests.antt =====
-- kernel/src/display/framebuffer.rs: the theorems at a buffer of two rows of three pixels.
use hyperion_os.Base.{◌≡◌, refl, none, some, replicate, arith}
use hyperion_os.Display.Framebuffer.{
  PixelFormat, Framebuffer, Rgba, new, bytes_per_pixel, fill_rect, clear, put_pixel, stroke_rect,
  byte_len, then_fill, with_pixels, fill_rows, fill_row, and_then, copy_pixel, encode_rgba,
}
use hyperion_os.Display.Framebuffer.Drawing.{stroke_rect-Drawn}
use hyperion_os.Display.Framebuffer.Painted.{pixel_byte}
use hyperion_os.Display.Framebuffer.Rects.{PixelShows, drawn_byte, fill_rect_lem}
use hyperion_os.Display.Framebuffer.Pixels.{IsValid, Drawn, fill_rect-Drawn, clear-Drawn}

abbrev screen : Framebuffer
screen = record {
  width = 3;
  height = 2;
  stride = 12;
  format = PixelFormat.bgra8;
  pixels = replicate 24 0;
}

abbrev red : Rgba
red = record { r = 255; g = 0; b = 0; a = 255 }

screen-IsValid : IsValid screen
screen-IsValid = record { narrow = omega arith; rows_fit = omega arith; bytes = omega arith }

fill_rect-Drawn_example : Drawn screen (fill_rect 1 1 9 9 red screen)
fill_rect-Drawn_example =
    fill_rect-Drawn 1 1 9 9 red screen screen-IsValid (omega arith) (omega arith)

clear-Drawn_example : Drawn screen (clear red screen)
clear-Drawn_example = clear-Drawn red screen screen-IsValid

same_bytes : byte_len (new 3 2 PixelFormat.bgra8) ≡ 24
unfolding byte_len new bytes_per_pixel
same_bytes = refl

outside : put_pixel 3 0 red screen ≡ some screen
unfolding put_pixel
outside = refl

flat : stroke_rect 0 0 0 5 red screen ≡ some screen
unfolding stroke_rect
flat = refl

-- A rectangle behind the last column makes the width wrap.
behind : fill_rect 4 0 1 1 red screen ≡ none
unfolding fill_rect with_pixels fill_rows fill_row and_then copy_pixel encode_rgba
behind = refl

one_pixel : stroke_rect 4 0 1 1 red screen ≡ none
unfolding stroke_rect then_fill fill_rect with_pixels fill_rows fill_row and_then copy_pixel
    encode_rgba
one_pixel = refl

fill_rect_lem_example :
    PixelShows
      (pixel_byte 12 2 1 0)
      (drawn_byte 1 1 9 9 red screen 2 1 0)
      (fill_rect 1 1 9 9 red screen)
fill_rect_lem_example =
    fill_rect_lem 1 1 9 9 2 1 0 red screen screen-IsValid (omega arith) (omega arith) (omega arith)
      (omega arith) (omega arith) (omega arith)

stroke_rect-Drawn_example : Drawn screen (stroke_rect 1 7 2 9 red screen)
stroke_rect-Drawn_example = stroke_rect-Drawn 1 7 2 9 red screen screen-IsValid (omega arith)

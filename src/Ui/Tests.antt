-- ===== src/Ui/Tests.antt =====
-- kernel/src/ui: the theorems at a screen of three by two pixels, and glyphs.
use hyperion_os.Base.{
  ℕ, ◌-◌, ◌^◌, ◌≡◌, refl, none, some, true, false, ◌&&◌, if◌then◌else◌, get_or, replicate, arith,
}
use hyperion_os.Base.Text.{codes}
use hyperion_os.Display.Framebuffer.{Framebuffer, PixelFormat, Rgba, encode_rgba}
use hyperion_os.Display.Framebuffer
use hyperion_os.Display.Framebuffer.Pixels.{IsValid, Drawn}
use hyperion_os.Display.Framebuffer.Painted.{pixel_byte}
use hyperion_os.Display.Framebuffer.Rects.{PixelShows}
use hyperion_os.Ui.Words.{halve}
use hyperion_os.Ui.Font.{missing, glyph_for, has_pixel}
use hyperion_os.Ui.Canvas
use hyperion_os.Ui.Canvas.{clip, fill_rect}
use hyperion_os.Ui.Clip.{covers, in_rect, clip_lem, canvas_fill_rect_lem}
use hyperion_os.Ui.Widgets.{
  Widget, panel, label, button, leaf, child, new_panel, new_label, with_border, add, new_button,
  render, white,
}
use hyperion_os.Ui.Safe.{widget_render-Drawn}

abbrev screen : Framebuffer
screen = record {
  width = 3;
  height = 2;
  stride = 12;
  format = PixelFormat.bgra8;
  pixels = replicate 24 0;
}

screen-IsValid : IsValid screen
screen-IsValid = record { narrow = omega arith; rows_fit = omega arith; bytes = omega arith }

-- The column -1.
abbrev left : ℕ
left = 4294967295

clip_lem_example : in_rect (clip left 0 3 1 3 2) 1 0 ≡ covers left 3 1 && covers 0 1 0
clip_lem_example =
    clip_lem left 0 3 1 3 2 1 0 (omega arith) (omega arith) (omega arith) (omega arith)
      (omega arith) (omega arith)

clipped : clip left 0 3 1 3 2 ≡ (0, 0, 2, 1)
unfolding clip Canvas.visible
clipped = refl

canvas_fill_rect_lem_example :
    PixelShows
      (pixel_byte 12 1 0 3)
      (if covers left 3 1 && covers 0 1 0
        then get_or (encode_rgba PixelFormat.bgra8 white) 3 0
        else get_or screen.pixels (pixel_byte 12 1 0 3) 0)
      (fill_rect left 0 3 1 white screen)
canvas_fill_rect_lem_example =
    canvas_fill_rect_lem left 0 3 1 1 0 3 white screen screen-IsValid (omega arith) (omega arith)
      (omega arith) (omega arith) (omega arith) (omega arith) (omega arith) (omega arith)

-- A button on a panel.
abbrev ok : Widget
ok = button (new_button left left 4 4 (codes "OK"))

abbrev box : Widget
box =
    panel (record { x = 0; y = 0; w = 3; h = 2; fill = white; border = some white })
      (child ok (child (label (record { x = 5; y = 5; text = codes "x"; colour = white })) leaf))

widget_render-Drawn_example : Drawn screen (render box screen)
widget_render-Drawn_example = widget_render-Drawn box screen screen-IsValid

no_border :
    new_panel 0 0 1 1 white
    ≡ panel (record { x = 0; y = 0; w = 1; h = 1; fill = white; border = none }) leaf
unfolding new_panel
no_border = refl

unknown_glyph : glyph_for 200 ≡ missing
unfolding glyph_for
unknown_glyph = refl

-- The first row of a backslash is drawn at the right end, so that it leans like a slash.
backslash_right : has_pixel (get_or (glyph_for 92) 0 0) 7 ≡ true
unfolding glyph_for has_pixel
backslash_right = refl

backslash_left : has_pixel (get_or (glyph_for 92) 0 0) 0 ≡ false
unfolding glyph_for has_pixel
backslash_left = refl

rounds_to_zero : halve (2 ^ 32 - 3) ≡ 2 ^ 32 - 1
rounds_to_zero = refl

cleared : Canvas.clear white screen ≡ Framebuffer.clear white screen
unfolding Canvas.clear
cleared = refl

built :
    panel
      (with_border white (record { x = 0; y = 0; w = 3; h = 2; fill = white; border = none }))
      (add (label (new_label 5 5 (codes "x") white)) (add ok leaf))
    ≡ box
unfolding with_border add new_label
built = refl

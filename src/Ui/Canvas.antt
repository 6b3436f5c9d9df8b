-- ===== src/Ui/Canvas.antt =====
-- kernel/src/ui/canvas.rs: drawing clipped to the frame buffer. `none` is a panic.
use hyperion_os.Base.{
  ℕ, ◌+◌, ◌-◌, ◌*◌, ◌%◌, ◌^◌, List, [], ◌∷◌, Option, some, leb, ◌||◌, if◌then◌else◌, min,
}
use hyperion_os.Display.Framebuffer.{Framebuffer, Rgba}
use hyperion_os.Display.Framebuffer
use hyperion_os.Display.Framebuffer.Drawing.{then_draw}
use hyperion_os.Ui.Words.{max_zero, min_zero}
use hyperion_os.Ui.Font.{draw_char}

-- The length that is left of `w` from `x` on, before it is cut at the end of the screen.
unfoldable pub visible : ℕ → ℕ → ℕ
visible x w = max_zero ((w + min_zero x) % 2 ^ 32)

unfoldable pub clip : ℕ → ℕ → ℕ → ℕ → ℕ → ℕ → ℕ × ℕ × ℕ × ℕ
clip x y w h sw sh =
    let nx = max_zero x in
    let ny = max_zero y in
    if leb sw nx || leb sh ny
    then (0, 0, 0, 0)
    else (nx, ny, min (visible x w) (sw - nx), min (visible y h) (sh - ny))

unfoldable pub clear : Rgba → Framebuffer → Option Framebuffer
clear rgba f = Framebuffer.clear rgba f

-- A call of a drawing function with a clipped rectangle.
abbrev pub on_rect :
    (ℕ → ℕ → ℕ → ℕ → Rgba → Framebuffer → Option Framebuffer)
    → ℕ × ℕ × ℕ × ℕ
    → Rgba
    → Framebuffer
    → Option Framebuffer
on_rect draw (x, y, w, h) rgba f = draw x y w h rgba f

unfoldable pub fill_rect : ℕ → ℕ → ℕ → ℕ → Rgba → Framebuffer → Option Framebuffer
fill_rect x y w h rgba f = on_rect Framebuffer.fill_rect (clip x y w h f.width f.height) rgba f

unfoldable pub stroke_rect : ℕ → ℕ → ℕ → ℕ → Rgba → Framebuffer → Option Framebuffer
stroke_rect x y w h rgba f = on_rect Framebuffer.stroke_rect (clip x y w h f.width f.height) rgba f

-- The characters from the index `i` on, each eight columns behind the one before.
unfoldable pub draw_chars : ℕ → ℕ → ℕ → List ℕ → Rgba → Framebuffer → Option Framebuffer
draw_chars i x y [] rgba f = some f
draw_chars i x y (ch ∷ text) rgba f =
    then_draw (draw_char ((x + i * 8) % 2 ^ 32) y ch rgba f) (draw_chars (i + 1) x y text rgba)

unfoldable pub draw_text : ℕ → ℕ → List ℕ → Rgba → Framebuffer → Option Framebuffer
draw_text x y text rgba f = draw_chars 0 x y text rgba f

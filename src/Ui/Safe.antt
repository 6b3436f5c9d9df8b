-- ===== src/Ui/Safe.antt =====
-- kernel/src/ui: no widget panics, wherever it stands.
use hyperion_os.Base.{
  ℕ, zero, suc, ◌+◌, ◌*◌, ◌%◌, ◌^◌, refl, List, [], ◌∷◌, Option, none, some, ◌&&◌, if_both, arith,
}
use hyperion_os.Display.Framebuffer.{Framebuffer, Rgba}
use hyperion_os.Display.Framebuffer
use hyperion_os.Display.Framebuffer.Pixels.{IsValid, Drawn, fill_rect-Drawn}
use hyperion_os.Display.Framebuffer.Drawing.{then_draw-Drawn, put_pixel-Drawn, stroke_rect-Drawn}
use hyperion_os.Ui.Words.{is_positive}
use hyperion_os.Ui.Font.{glyph_for, has_pixel, put_inside, draw_cols, draw_rows, draw_char}
use hyperion_os.Ui.Canvas.{clip, on_rect, fill_rect, stroke_rect, draw_chars, draw_text}
use hyperion_os.Ui.Clip.{Inside, clip-Inside}
use hyperion_os.Ui.Widgets.{
  Widget, panel, label, button, Children, leaf, child, Frame, Label, Button, black, render_frame,
  render_label, render_button, render, render_children,
}

put_inside-Drawn :
    (px py : ℕ) (c : Rgba) (f : Framebuffer) → IsValid f → Drawn f (put_inside px py c f)
unfolding put_inside
put_inside-Drawn px py c f v =
    if_both (Drawn f) (is_positive px && is_positive py) (λ e. put_pixel-Drawn px py c f v)
      (λ e. (refl, refl))

draw_cols-Drawn :
    (n col bits x py : ℕ) (c : Rgba) (f : Framebuffer)
    → IsValid f
    → Drawn f (draw_cols n col bits x py c f)
unfolding draw_cols
draw_cols-Drawn zero col bits x py c f v = (refl, refl)
draw_cols-Drawn (suc n) col bits x py c f v =
    then_draw-Drawn f _ (draw_cols n (col + 1) bits x py c) v
      (if_both (Drawn f) (has_pixel bits col) (λ e. put_inside-Drawn ((x + col) % 2 ^ 32) py c f v)
        (λ e. (refl, refl)))
      (λ p u a b. draw_cols-Drawn n (col + 1) bits x py c p u)

draw_rows-Drawn :
    (glyph : List ℕ) (row x y : ℕ) (c : Rgba) (f : Framebuffer)
    → IsValid f
    → Drawn f (draw_rows glyph row x y c f)
unfolding draw_rows
draw_rows-Drawn [] row x y c f v = (refl, refl)
draw_rows-Drawn (bits ∷ rest) row x y c f v =
    then_draw-Drawn f _ (draw_rows rest (row + 1) x y c) v
      (draw_cols-Drawn 8 0 bits x ((y + row) % 2 ^ 32) c f v)
      (λ p u a b. draw_rows-Drawn rest (row + 1) x y c p u)

draw_chars-Drawn :
    (i x y : ℕ) (text : List ℕ) (c : Rgba) (f : Framebuffer)
    → IsValid f
    → Drawn f (draw_chars i x y text c f)
unfolding draw_chars draw_char
draw_chars-Drawn i x y [] c f v = (refl, refl)
draw_chars-Drawn i x y (ch ∷ text) c f v =
    then_draw-Drawn f _ (draw_chars (i + 1) x y text c) v
      (draw_rows-Drawn (glyph_for ch) 0 ((x + i * 8) % 2 ^ 32) y c f v)
      (λ p u a b. draw_chars-Drawn (i + 1) x y text c p u)

draw_text-Drawn :
    (x y : ℕ) (text : List ℕ) (c : Rgba) (f : Framebuffer)
    → IsValid f
    → Drawn f (draw_text x y text c f)
unfolding draw_text
draw_text-Drawn x y text c f v = draw_chars-Drawn 0 x y text c f v

fill_clipped :
    (t : ℕ × ℕ × ℕ × ℕ) (c : Rgba) (f : Framebuffer)
    → IsValid f
    → Inside f.width f.height t
    → Drawn f (on_rect Framebuffer.fill_rect t c f)
fill_clipped (x, y, w, h) c f v i =
    fill_rect-Drawn x y w h c f v (omega (arith, i)) (omega (arith, i, v.narrow))

stroke_clipped :
    (t : ℕ × ℕ × ℕ × ℕ) (c : Rgba) (f : Framebuffer)
    → IsValid f
    → Inside f.width f.height t
    → Drawn f (on_rect Framebuffer.stroke_rect t c f)
stroke_clipped (x, y, w, h) c f v i = stroke_rect-Drawn x y w h c f v i.0

fill-Drawn :
    (x y w h : ℕ) (c : Rgba) (f : Framebuffer) → IsValid f → Drawn f (fill_rect x y w h c f)
unfolding fill_rect
fill-Drawn x y w h c f v =
    fill_clipped (clip x y w h f.width f.height) c f v (clip-Inside x y w h f.width f.height)

stroke-Drawn :
    (x y w h : ℕ) (c : Rgba) (f : Framebuffer) → IsValid f → Drawn f (stroke_rect x y w h c f)
unfolding stroke_rect
stroke-Drawn x y w h c f v =
    stroke_clipped (clip x y w h f.width f.height) c f v (clip-Inside x y w h f.width f.height)

border-Drawn :
    (q : Frame) (o : Option Rgba) (p : Framebuffer)
    → IsValid p
    → Drawn p (elim o [ none ↦ some p | some b ↦ stroke_rect q.x q.y q.w q.h b p ])
border-Drawn q none p v = (refl, refl)
border-Drawn q (some b) p v = stroke-Drawn q.x q.y q.w q.h b p v

render_frame-Drawn : (q : Frame) (f : Framebuffer) → IsValid f → Drawn f (render_frame q f)
unfolding render_frame
render_frame-Drawn q f v =
    then_draw-Drawn f _ _ v (fill-Drawn q.x q.y q.w q.h q.fill f v)
      (λ p u a b. border-Drawn q q.border p u)

render_button-Drawn : (q : Button) (f : Framebuffer) → IsValid f → Drawn f (render_button q f)
unfolding render_button
render_button-Drawn q f v =
    then_draw-Drawn f _ _ v
      (then_draw-Drawn f _ (stroke_rect q.x q.y q.w q.h black) v
        (fill-Drawn q.x q.y q.w q.h q.bg f v) (λ p u a b. stroke-Drawn q.x q.y q.w q.h black p u))
      (λ p u a b. draw_text-Drawn _ _ q.label q.fg p u)

render_label-Drawn : (l : Label) (f : Framebuffer) → IsValid f → Drawn f (render_label l f)
unfolding render_label
render_label-Drawn l f v = draw_text-Drawn l.x l.y l.text l.colour f v

mutual
  unfolding render render_children

  widget-Drawn : (w : Widget) (f : Framebuffer) → IsValid f → Drawn f (render w f)
  widget-Drawn (panel q children) f v =
      then_draw-Drawn f (render_frame q f) (render_children children) v (render_frame-Drawn q f v)
        (λ p u a b. children-Drawn children p u)
  widget-Drawn (label l) f v = render_label-Drawn l f v
  widget-Drawn (button q) f v = render_button-Drawn q f v

  children-Drawn : (ws : Children) (f : Framebuffer) → IsValid f → Drawn f (render_children ws f)
  children-Drawn leaf f v = (refl, refl)
  children-Drawn (child w ws) f v =
      then_draw-Drawn f (render w f) (render_children ws) v (widget-Drawn w f v)
        (λ p u a b. children-Drawn ws p u)

-- A widget with all that it contains is drawn in a valid frame buffer without a panic, whatever its
-- corner, its sizes and its text; the shape of the buffer and the number of its bytes stay.
pub widget_render-Drawn : (w : Widget) (f : Framebuffer) → IsValid f → Drawn f (render w f)
widget_render-Drawn w f v = widget-Drawn w f v

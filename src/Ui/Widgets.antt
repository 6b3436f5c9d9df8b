-- ===== src/Ui/Widgets.antt =====
-- kernel/src/ui/widgets.rs: panels, labels and buttons. A text is the list of its code points.
use hyperion_os.Base.{ℕ, ◌+◌, ◌-◌, ◌%◌, ◌^◌, List, Option, none, some}
use hyperion_os.Display.Framebuffer.{Framebuffer, Rgba}
use hyperion_os.Display.Framebuffer.Drawing.{then_draw}
use hyperion_os.Ui.Words.{halve}
use hyperion_os.Ui.Canvas.{fill_rect, stroke_rect, draw_text}

pub record Label : Type 0 where
  pub x : ℕ
  pub y : ℕ
  pub text : List ℕ
  pub colour : Rgba

pub record Button : Type 0 where
  pub x : ℕ
  pub y : ℕ
  pub w : ℕ
  pub h : ℕ
  pub label : List ℕ
  pub fg : Rgba
  pub bg : Rgba

-- A panel without its children.
pub record Frame : Type 0 where
  pub x : ℕ
  pub y : ℕ
  pub w : ℕ
  pub h : ℕ
  pub fill : Rgba
  pub border : Option Rgba

-- The implementors of `Widget`; the boxed children of a panel in their order.
mutual
  pub data Widget : Type 0 where
    panel : Frame → Children → Widget
    label : Label → Widget
    button : Button → Widget

  pub data Children : Type 0 where
    leaf : Children
    child : Widget → Children → Children

unfoldable pub new_panel : ℕ → ℕ → ℕ → ℕ → Rgba → Widget
new_panel x y w h fill =
    panel (record { x = x; y = y; w = w; h = h; fill = fill; border = none }) leaf

unfoldable pub with_border : Rgba → Frame → Frame
with_border c p = record p { border = some c }

-- `children.push(w)`.
unfoldable pub add : Widget → Children → Children
add w leaf = child w leaf
add w (child v rest) = child v (add w rest)

unfoldable pub new_label : ℕ → ℕ → List ℕ → Rgba → Label
new_label x y text colour = record { x = x; y = y; text = text; colour = colour }

abbrev pub white : Rgba
white = record { r = 255; g = 255; b = 255; a = 255 }

abbrev pub blue : Rgba
blue = record { r = 51; g = 85; b = 204; a = 255 }

abbrev pub black : Rgba
black = record { r = 0; g = 0; b = 0; a = 255 }

unfoldable pub new_button : ℕ → ℕ → ℕ → ℕ → List ℕ → Button
new_button x y w h text = record { x = x; y = y; w = w; h = h; label = text; fg = white; bg = blue }

unfoldable pub render_frame : Frame → Framebuffer → Option Framebuffer
render_frame p f =
    then_draw (fill_rect p.x p.y p.w p.h p.fill f)
      (λ g. elim p.border [ none ↦ some g | some b ↦ stroke_rect p.x p.y p.w p.h b g ])

unfoldable pub render_label : Label → Framebuffer → Option Framebuffer
render_label l f = draw_text l.x l.y l.text l.colour f

unfoldable pub render_button : Button → Framebuffer → Option Framebuffer
render_button b f =
    then_draw (then_draw (fill_rect b.x b.y b.w b.h b.bg f) (stroke_rect b.x b.y b.w b.h black)) (
      draw_text ((b.x + 6) % 2 ^ 32) ((b.y + halve ((b.h + (2 ^ 32 - 8)) % 2 ^ 32)) % 2 ^ 32)
        b.label b.fg)

unfoldable mutual
  pub render : Widget → Framebuffer → Option Framebuffer
  render (panel p children) f = then_draw (render_frame p f) (render_children children)
  render (label l) f = render_label l f
  render (button b) f = render_button b f

  pub render_children : Children → Framebuffer → Option Framebuffer
  render_children leaf f = some f
  render_children (child w rest) f = then_draw (render w f) (render_children rest)

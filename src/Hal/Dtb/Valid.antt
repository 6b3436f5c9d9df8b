-- ===== src/Hal/Dtb/Valid.antt =====
-- kernel/src/hal/dtb.rs: the arrays of the walk keep their eight places, the depth stays inside them,
-- and the walk ends.
use hyperion_os.Base.{
  ◌*◌, ◌&&◌, ℕ, ◌+◌, ◌<◌, ◌≡◌, refl, List, Option, none, some, Bool, ltb, if_both, length, get_or,
  arith, length-set,
}
use hyperion_os.Base.Ord.{Name, name_eq}
use hyperion_os.Base.Text.{codes}
use hyperion_os.Hal.BootInfo.{FramebufferInfo}
use hyperion_os.Hal.Dtb.Bytes.{read_cells, be32, until_nul, utf8_or_empty}
use hyperion_os.Hal.Dtb.Nodes.{
  fb_entry, WalkCtx, NodeProps, max_depth, handle_prop, set_reg, set_compatible, set_stdout, fb_set,
  set_some, parent_cells,
}

-- The depth indexes the arrays, which have their eight places.
abbrev pub InBounds : WalkCtx × NodeProps → Type 0
InBounds (c, p) =
    (c.depth < max_depth)
    × (length c.address_cells ≡ max_depth)
    × (length c.size_cells ≡ max_depth)
    × (length p.compatible ≡ max_depth)
    × (length p.reg ≡ max_depth)
    × (length p.clock ≡ max_depth)
    × (length p.name ≡ max_depth)
    × (length p.fb ≡ max_depth)

length-set_some :
    (d : ℕ) (cells : List ℕ) (o : Option ℕ) → length (set_some d cells o) ≡ length cells
length-set_some d cells none = refl
length-set_some d cells (some v) = length-set cells d v

set_reg-InBounds :
    (value : List ℕ) (ac sc : ℕ) (c : WalkCtx) (p : NodeProps)
    → InBounds (c, p)
    → InBounds (c, set_reg value c.depth ac sc p)
unfolding set_reg
set_reg-InBounds value ac sc c p v =
    if_both (λ q. InBounds (c, q)) (ltb (length value) ((ac + sc) * 4)) (λ e. v)
      (λ e. ground (
        arith,
        v,
        length-set p.reg c.depth (some (read_cells value 0 ac, read_cells value (ac * 4) sc)),
      ))

set_stdout-InBounds :
    (is_utf8 : List ℕ → Bool) (value : List ℕ) (c : WalkCtx) (p : NodeProps)
    → InBounds (c, p)
    → InBounds (set_stdout is_utf8 value c, p)
unfolding set_stdout
set_stdout-InBounds is_utf8 value c p v =
    if_both (λ d. InBounds (d, p)) (ltb 0 c.depth && c.in_chosen && is_utf8 (until_nul value))
      (λ e. v) (λ e. v)

fb_set-InBounds :
    (f : FramebufferInfo → FramebufferInfo) (c : WalkCtx) (p : NodeProps)
    → InBounds (c, p)
    → InBounds (c, fb_set f c.depth p)
unfolding fb_set
fb_set-InBounds f c p v =
    ground (arith, v, length-set p.fb c.depth (some (f (fb_entry (get_or p.fb c.depth none)))))

-- A property changes no depth and no length.
pub handle_prop-InBounds :
    (is_utf8 : List ℕ → Bool) (pname : Name) (value : List ℕ) (c : WalkCtx) (p : NodeProps)
    → InBounds (c, p)
    → InBounds (handle_prop is_utf8 pname value (c, p))
unfolding handle_prop set_compatible
handle_prop-InBounds is_utf8 pname value c p v =
    if_both InBounds (name_eq pname (codes "#address-cells"))
      (λ _. ground (arith, v, length-set_some c.depth c.address_cells (be32 value 0)))
      (λ _.
        if_both InBounds (name_eq pname (codes "#size-cells"))
          (λ _. ground (arith, v, length-set_some c.depth c.size_cells (be32 value 0)))
          (λ _.
            if_both InBounds (name_eq pname (codes "compatible"))
              (λ _. ground (
                arith,
                v,
                length-set p.compatible c.depth (utf8_or_empty is_utf8 (until_nul value)),
              ))
              (λ _.
                if_both InBounds (name_eq pname (codes "reg"))
                  (λ _.
                    set_reg-InBounds value (parent_cells c.address_cells c.depth)
                      (parent_cells c.size_cells c.depth) c p v)
                  (λ _.
                    if_both InBounds (name_eq pname (codes "clock-frequency"))
                      (λ _. ground (arith, v, length-set_some c.depth p.clock (be32 value 0)))
                      (λ _.
                        if_both InBounds (name_eq pname (codes "stdout-path"))
                          (λ _. set_stdout-InBounds is_utf8 value c p v)
                          (λ _.
                            if_both InBounds (name_eq pname (codes "width"))
                              (λ _. fb_set-InBounds _ c p v)
                              (λ _.
                                if_both InBounds (name_eq pname (codes "height"))
                                  (λ _. fb_set-InBounds _ c p v)
                                  (λ _.
                                    if_both InBounds (name_eq pname (codes "stride"))
                                      (λ _. fb_set-InBounds _ c p v)
                                      (λ _.
                                        if_both InBounds (name_eq pname (codes "format"))
                                          (λ _. fb_set-InBounds _ c p v) (λ _. v))))))))))

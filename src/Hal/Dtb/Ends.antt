-- ===== src/Hal/Dtb/Ends.antt =====
-- kernel/src/hal/dtb.rs: the walk ends on every structure block, and stays inside its arrays.
use hyperion_os.Base.{
  [], ℕ, zero, suc, ◌+◌, ◌-◌, ◌^◌, ◌≤◌, ◌<◌, ◌≡◌, refl, List, Option, none, some, Bool, ◌==◌, ltb,
  leb, if_both, length, get_or, take, drop, arith, length-set,
}
use hyperion_os.Base.Ord.{Name}
use hyperion_os.Hal.BootInfo.{BootInfo}
use hyperion_os.Hal.Dtb.Bytes.{be32, cstr}
use hyperion_os.Hal.Dtb.Nodes.{WalkCtx, NodeProps, max_depth, default_ctx, no_props}
use hyperion_os.Hal.Dtb.Walk.{
  Walk, Flow, next, done, stuck, SkipFlow, again, skipped, returned, exhausted, begin_node,
  end_node, prop, nop, after_name, after_skip, open_ctx, open_props, open_node, leave, close_node,
  put_prop, read_prop, token, round, and_next, rounds, walk,
}
use hyperion_os.Hal.Dtb.Fuel.{IsBytes, align4_lem, after_name_le, SkipEnds, skip-Ends}
use hyperion_os.Hal.Dtb.Valid.{InBounds, handle_prop-InBounds}

-- A round that starts at `cursor`, in a block of `len` bytes, ends the walk, or reads a token, moves the
-- cursor forward and stays inside the arrays.
abbrev pub Goes : ℕ → ℕ → Flow → Type 0
Goes len cursor (next w) = (cursor + 4 ≤ len) × (cursor < w.cursor) × InBounds (w.ctx, w.props)
Goes len cursor (done info) = Unit {0}
Goes len cursor stuck = ⊥

open-InBounds :
    (name : Name) (c : WalkCtx) (p : NodeProps)
    → c.depth + 1 < max_depth
    → InBounds (c, p)
    → InBounds (open_ctx (c.depth + 1) name c, open_props (c.depth + 1) name p)
unfolding open_ctx open_props
open-InBounds name c p h v = (
  h,
  omega (
    arith,
    v,
    length-set c.address_cells (c.depth + 1) (get_or c.address_cells (c.depth + 1 - 1) 0),
  ),
  omega (arith, v, length-set c.size_cells (c.depth + 1) (get_or c.size_cells (c.depth + 1 - 1) 0)),
  omega (arith, v, length-set p.compatible (c.depth + 1) []),
  omega (arith, v, length-set p.reg (c.depth + 1) none),
  omega (arith, v, length-set p.clock (c.depth + 1) 0),
  omega (arith, v, length-set p.name (c.depth + 1) name),
  omega (arith, v, length-set p.fb (c.depth + 1) none),
)

leave-InBounds :
    (name : Name) (c : WalkCtx) (p : NodeProps) → InBounds (c, p) → InBounds (leave name c, p)
unfolding leave
leave-InBounds name c p v = ground (arith, v)

module _ (is_utf8 : List ℕ → Bool) (block : List ℕ) (small : length block < 2 ^ 32)
    (bytes : IsBytes block) where
  after_skip-Goes :
      (c d : ℕ) (w : Walk) (f : SkipFlow)
      → c + 4 ≤ length block
      → c < d
      → InBounds (w.ctx, w.props)
      → SkipEnds d f
      → Goes (length block) c (after_skip w f)
  unfolding after_skip
  after_skip-Goes c d w (again n e) h k v s = s
  after_skip-Goes c d w (skipped e) h k v s = (h, omega (arith, k, s), v)
  after_skip-Goes c d w returned h k v s = tt
  after_skip-Goes c d w exhausted h k v s = s

  open_node-Goes :
      (c : ℕ) (w : Walk)
      → w.cursor ≡ c + 4
      → c + 4 ≤ length block
      → InBounds (w.ctx, w.props)
      → Goes (length block) c (open_node is_utf8 block w)
  unfolding open_node
  open_node-Goes c w e h v =
      if_both (Goes (length block) c) (leb max_depth (w.ctx.depth + 1))
        (λ d. after_skip-Goes c (after_name is_utf8 block w.cursor) w _ h forward v (
          skip-Ends is_utf8 block small bytes (length block + 1) 1
            (after_name is_utf8 block w.cursor) (omega arith) (omega arith)))
        (λ d. (
          h,
          forward,
          open-InBounds (cstr is_utf8 block w.cursor) w.ctx w.props (ground (arith, d)) v,
        ))
    where
      forward : c < after_name is_utf8 block w.cursor
      forward =
          omega
            (arith, e, h, after_name_le is_utf8 block small bytes w.cursor (omega (arith, e, h)))

  close_node-Goes :
      (c : ℕ) (w : Walk)
      → w.cursor ≡ c + 4
      → c + 4 ≤ length block
      → InBounds (w.ctx, w.props)
      → Goes (length block) c (close_node w)
  unfolding close_node
  close_node-Goes c w e h v =
      if_both (Goes (length block) c) (w.ctx.depth == 0) (λ d. tt)
        (λ d. (
          h,
          omega (arith, e),
          leave-InBounds (get_or w.props.name w.ctx.depth []) w.ctx w.props v,
        ))

  module _ (strings : List ℕ) where
    put_prop-Goes :
        (c value_end pnameoff : ℕ) (w : Walk)
        → c + 4 ≤ value_end
        → c + 4 ≤ length block
        → InBounds (w.ctx, w.props)
        → Goes (length block) c (put_prop is_utf8 block strings value_end pnameoff w)
    unfolding put_prop
    put_prop-Goes c value_end pnameoff w g h v =
        if_both (Goes (length block) c) (ltb (length block) value_end) (λ e. tt)
          (λ e. (
            h,
            omega (arith, g, align4_lem value_end (ground (arith, small, e))),
            handle_prop-InBounds is_utf8 (cstr is_utf8 strings pnameoff)
                (take (value_end - w.cursor) (drop w.cursor block)) w.ctx w.props v,
          ))

    read_prop-Goes :
        (c : ℕ) (w : Walk) (plen pnameoff : Option ℕ)
        → w.cursor ≡ c + 4
        → c + 4 ≤ length block
        → InBounds (w.ctx, w.props)
        → Goes (length block) c (read_prop is_utf8 block strings w plen pnameoff)
    unfolding read_prop
    read_prop-Goes c w (some l) (some o) e h v =
        put_prop-Goes c (w.cursor + 8 + l) o (record w { cursor = w.cursor + 8 }) (omega (arith, e))
          h v
    read_prop-Goes c w none o e h v = tt
    read_prop-Goes c w (some l) none e h v = tt

    token-Goes :
        (c t : ℕ) (w : Walk)
        → w.cursor ≡ c + 4
        → c + 4 ≤ length block
        → InBounds (w.ctx, w.props)
        → Goes (length block) c (token is_utf8 block strings w t)
    unfolding token
    token-Goes c t w e h v =
        if_both G (t == begin_node) (λ _. open_node-Goes c w e h v)
          (λ _.
            if_both G (t == end_node) (λ _. close_node-Goes c w e h v)
              (λ _.
                if_both G (t == prop)
                  (λ _. read_prop-Goes c w (be32 block w.cursor) (be32 block (w.cursor + 4)) e h v)
                  (λ _. if_both G (t == nop) (λ _. (h, omega (arith, e), v)) (λ _. tt))))
      where
        G : Flow → Type 0
        G = Goes (length block) c

    found-Goes :
        (w : Walk) (o : Option ℕ)
        → w.cursor + 4 ≤ length block
        → InBounds (w.ctx, w.props)
        → Goes (length block) w.cursor (elim o [
          | none ↦ done w.info
          | some t ↦ token is_utf8 block strings (record w { cursor = w.cursor + 4 }) t
        ])
    found-Goes w none h v = tt
    found-Goes w (some t) h v = token-Goes w.cursor t (record w { cursor = w.cursor + 4 }) refl h v

    -- A round of the walk whose depth is inside the arrays of eight ends the walk, or reads a token, moves
    -- the cursor forward and leaves the depth inside the arrays and the arrays at their length.
    pub round-Goes :
        (w : Walk)
        → InBounds (w.ctx, w.props)
        → Goes (length block) w.cursor (round is_utf8 block strings w)
    unfolding round
    round-Goes w v =
        if_both (Goes (length block) w.cursor) (ltb (length block) (w.cursor + 4)) (λ e. tt)
          (λ e. found-Goes w (be32 block w.cursor) (ground (arith, e)) v)

    and_next-ends :
        (loop : Walk → Option BootInfo) (c : ℕ) (f : Flow)
        → ((w : Walk)
            → c + 4 ≤ length block
            → c < w.cursor
            → InBounds (w.ctx, w.props)
            → (b : BootInfo) × (loop w ≡ some b))
        → Goes (length block) c f
        → (b : BootInfo) × (and_next loop f ≡ some b)
    unfolding and_next
    and_next-ends loop c (next w) l g = l w g.0 g.1 g.2
    and_next-ends loop c (done info) l g = (info, refl)
    and_next-ends loop c stuck l g = absurd g

    rounds-end :
        (fuel : ℕ) (w : Walk)
        → length block < fuel + w.cursor
        → 0 < fuel
        → InBounds (w.ctx, w.props)
        → (b : BootInfo) × (rounds is_utf8 block strings fuel w ≡ some b)
    unfolding rounds
    rounds-end zero w l p v = absurd (omega arith)
    rounds-end (suc fuel) w l p v =
        and_next-ends (rounds is_utf8 block strings fuel) w.cursor (round is_utf8 block strings w)
          (λ x h k u. rounds-end fuel x (omega (arith, l, h, k)) (omega (arith, l, h)) u)
          (round-Goes w v)

    -- On every structure block below 4 GiB, however malformed, the walk ends with a description of the
    -- machine: its loops do not run out of their rounds.
    pub walk_ends : (info : BootInfo) → (b : BootInfo) × (walk is_utf8 block strings info ≡ some b)
    unfolding walk default_ctx no_props
    walk_ends info =
        rounds-end (length block + 1) _ (omega arith) (omega arith)
          (omega arith, refl, refl, refl, refl, refl, refl, refl)

-- ===== src/Hal/Dtb/Walk.antt =====
-- kernel/src/hal/dtb.rs: the walk over the tokens of the structure block, and the reading of a blob.
-- Both loops run on fuel; a `return` of `walk` is `done`.
use hyperion_os.Base.{
  ℕ, zero, suc, ◌+◌, ◌-◌, List, [], Option, none, some, Bool, false, ◌==◌, ltb, leb, ◌&&◌, ◌||◌,
  if◌then◌else◌, length, get_or, set, take, drop,
}
use hyperion_os.Base.Ord.{Name, name_eq}
use hyperion_os.Base.Text.{codes}
use hyperion_os.Hal.BootInfo.{BootInfo, qemu_virt_fallback}
use hyperion_os.Hal.Dtb.Bytes.{be32, cstr, align4}
use hyperion_os.Hal.Dtb.Nodes.{
  WalkCtx, NodeProps, default_ctx, no_props, max_depth, handle_prop, act_on_node,
}

abbrev pub fdt_magic : ℕ
fdt_magic = 3490578157

abbrev pub begin_node : ℕ
begin_node = 1

abbrev pub end_node : ℕ
end_node = 2

abbrev pub prop : ℕ
prop = 3

abbrev pub nop : ℕ
nop = 4

pub record Walk : Type 0 where
  pub cursor : ℕ
  pub ctx : WalkCtx
  pub props : NodeProps
  pub info : BootInfo

-- How a round of the walk ends.
pub data Flow : Type 0 where
  next : Walk → Flow
  done : BootInfo → Flow
  stuck : Flow

-- How a round of the loop over a subtree that is too deep ends, and how the loop ends.
pub data SkipFlow : Type 0 where
  again : ℕ → ℕ → SkipFlow
  skipped : ℕ → SkipFlow
  returned : SkipFlow
  exhausted : SkipFlow

unfoldable pub skip_prop : ℕ → ℕ → Option ℕ → SkipFlow
skip_prop nesting cursor none = returned
skip_prop nesting cursor (some plen) = again nesting (align4 (cursor + (8 + plen)))

unfoldable pub and_again : (ℕ → ℕ → SkipFlow) → SkipFlow → SkipFlow
and_again loop (again nesting cursor) = loop nesting cursor
and_again loop (skipped cursor) = skipped cursor
and_again loop returned = returned
and_again loop exhausted = exhausted

-- `continue` behind a skipped subtree.
unfoldable pub after_skip : Walk → SkipFlow → Flow
after_skip w (again nesting cursor) = stuck
after_skip w (skipped cursor) = next (record w { cursor = cursor })
after_skip w returned = done w.info
after_skip w exhausted = stuck

-- The context and the properties of a node that opens at `depth`.
unfoldable pub open_ctx : ℕ → Name → WalkCtx → WalkCtx
open_ctx depth name c = record c {
  depth = depth;
  address_cells = set c.address_cells depth (get_or c.address_cells (depth - 1) 0);
  size_cells = set c.size_cells depth (get_or c.size_cells (depth - 1) 0);
  cur_name = name;
  in_chosen = c.in_chosen || name_eq name (codes "chosen");
}

unfoldable pub open_props : ℕ → Name → NodeProps → NodeProps
open_props depth name p = record {
  compatible = set p.compatible depth [];
  reg = set p.reg depth none;
  clock = set p.clock depth 0;
  name = set p.name depth name;
  fb = set p.fb depth none;
}

unfoldable pub leave : Name → WalkCtx → WalkCtx
leave name c = record c {
  depth = c.depth - 1;
  in_chosen = if name_eq name (codes "chosen") then false else c.in_chosen;
}

unfoldable pub act : WalkCtx → NodeProps → BootInfo → BootInfo
act c p info =
    act_on_node (get_or p.name c.depth []) (get_or p.compatible c.depth [])
      (get_or p.reg c.depth none) (get_or p.clock c.depth 0) (get_or p.fb c.depth none) c info

unfoldable pub close_node : Walk → Flow
close_node w =
    if w.ctx.depth == 0
    then done w.info
    else next (record w {
      ctx = leave (get_or w.props.name w.ctx.depth []) w.ctx;
      info = act w.ctx w.props w.info;
    })

unfoldable pub and_next : (Walk → Option BootInfo) → Flow → Option BootInfo
and_next loop (next w) = loop w
and_next loop (done info) = some info
and_next loop stuck = none

module _ (is_utf8 : List ℕ → Bool) (block : List ℕ) where
  -- The cursor behind the name that it stands at.
  unfoldable pub after_name : ℕ → ℕ
  after_name cursor = align4 (cursor + length (cstr is_utf8 block cursor) + 1)

  unfoldable pub skip_token : ℕ → ℕ → ℕ → SkipFlow
  skip_token nesting cursor t =
      if t == begin_node
      then again (nesting + 1) (after_name cursor)
      else if t == end_node
      then again (nesting - 1) cursor
      else if t == prop
      then skip_prop nesting cursor (be32 block cursor)
      else if t == nop
      then again nesting cursor
      else returned

  unfoldable pub skip_round : ℕ → ℕ → SkipFlow
  skip_round nesting cursor =
      if nesting == 0 || ltb (length block) (cursor + 4)
      then skipped cursor
      else elim (be32 block cursor) [ none ↦ returned | some t ↦ skip_token nesting (cursor + 4) t ]

  unfoldable pub skip : ℕ → ℕ → ℕ → SkipFlow
  skip zero nesting cursor = exhausted
  skip (suc fuel) nesting cursor = and_again (skip fuel) (skip_round nesting cursor)

  unfoldable pub open_node : Walk → Flow
  open_node w =
      if leb max_depth (w.ctx.depth + 1)
      then after_skip w (skip (length block + 1) 1 (after_name w.cursor))
      else next (record {
        cursor = after_name w.cursor;
        ctx = open_ctx (w.ctx.depth + 1) (cstr is_utf8 block w.cursor) w.ctx;
        props = open_props (w.ctx.depth + 1) (cstr is_utf8 block w.cursor) w.props;
        info = w.info;
      })

  module _ (strings : List ℕ) where
    -- The property whose value goes from the cursor to `value_end`.
    unfoldable pub put_prop : ℕ → ℕ → Walk → Flow
    put_prop value_end pnameoff w =
        if ltb (length block) value_end
        then done w.info
        else let (c, p) =
            handle_prop is_utf8 (cstr is_utf8 strings pnameoff)
              (take (value_end - w.cursor) (drop w.cursor block)) (w.ctx, w.props) in
          next (record w { cursor = align4 value_end; ctx = c; props = p })

    unfoldable pub read_prop : Walk → Option ℕ → Option ℕ → Flow
    read_prop w (some plen) (some pnameoff) =
        put_prop (w.cursor + 8 + plen) pnameoff (record w { cursor = w.cursor + 8 })
    read_prop w _ _ = done w.info

    unfoldable pub token : Walk → ℕ → Flow
    token w t =
        if t == begin_node
        then open_node w
        else if t == end_node
        then close_node w
        else if t == prop
        then read_prop w (be32 block w.cursor) (be32 block (w.cursor + 4))
        else if t == nop
        then next w
        else done w.info

    unfoldable pub round : Walk → Flow
    round w =
        if ltb (length block) (w.cursor + 4) then done w.info else elim (be32 block w.cursor) [
          | none ↦ done w.info
          | some t ↦ token (record w { cursor = w.cursor + 4 }) t
        ]

    unfoldable pub rounds : ℕ → Walk → Option BootInfo
    rounds zero w = none
    rounds (suc fuel) w = and_next (rounds fuel) (round w)

    -- `walk`, with a round for each byte of the block and one more; `none` means that the fuel ran
    -- out.
    unfoldable pub walk : BootInfo → Option BootInfo
    walk info =
        rounds (length block + 1)
          (record { cursor = 0; ctx = default_ctx; props = no_props; info = info })

-- `bytes[offset..offset + size]`.
abbrev pub slice : List ℕ → ℕ → ℕ → List ℕ
slice bytes offset size = take size (drop offset bytes)

-- The structure block and the strings block, if both are inside `totalsize`.
unfoldable pub cut_blocks :
    List ℕ → ℕ → Option ℕ → Option ℕ → Option ℕ → Option ℕ → Option (List ℕ × List ℕ)
cut_blocks blob totalsize (some off_struct) (some off_strings) (some size_struct)
      (some strings_size) =
    if ltb totalsize (off_struct + size_struct) || ltb totalsize (off_strings + strings_size)
    then none
    else some (slice blob off_struct size_struct, slice blob off_strings strings_size)
cut_blocks blob totalsize _ _ _ _ = none

unfoldable pub blocks : List ℕ → ℕ → Option (List ℕ × List ℕ)
blocks blob totalsize =
    cut_blocks blob totalsize (be32 blob 8) (be32 blob 12) (be32 blob 36) (be32 blob 32)

abbrev pub header_size : ℕ
header_size = 40

-- The size of the blob, if the header has the magic number and a size that is large enough.
unfoldable pub checked_size : Option ℕ → Option ℕ → Option ℕ
checked_size (some magic) (some totalsize) =
    if magic == fdt_magic && leb header_size totalsize then some totalsize else none
checked_size _ _ = none

unfoldable pub walk_blocks : (List ℕ → Bool) → BootInfo → Option (List ℕ × List ℕ) → Option BootInfo
walk_blocks is_utf8 info none = some info
walk_blocks is_utf8 info (some (block, strings)) = walk is_utf8 block strings info

unfoldable pub parse_blob :
    (List ℕ → Bool) → (ℕ → ℕ → List ℕ) → ℕ → BootInfo → Option ℕ → Option BootInfo
parse_blob is_utf8 slice_at dtb_addr info none = some info
parse_blob is_utf8 slice_at dtb_addr info (some totalsize) =
    walk_blocks is_utf8 info (blocks (slice_at dtb_addr totalsize) totalsize)

-- `slice_at a n` are the `n` bytes of memory at the address `a`.
unfoldable pub parse_or_fallback : (List ℕ → Bool) → (ℕ → ℕ → List ℕ) → ℕ → Option BootInfo
parse_or_fallback is_utf8 slice_at dtb_addr =
    let info = record qemu_virt_fallback { fw_table_addr = dtb_addr } in
    if dtb_addr == 0
    then some info
    else parse_blob is_utf8 slice_at dtb_addr info (
        checked_size (be32 (slice_at dtb_addr header_size) 0)
          (be32 (slice_at dtb_addr header_size) 4))

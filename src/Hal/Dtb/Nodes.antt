-- ===== src/Hal/Dtb/Nodes.antt =====
-- kernel/src/hal/dtb.rs: what the walk keeps, and what it makes of a property and of a whole node.
-- An array of eight is a list; the walk reads and writes it below its length.
use hyperion_os.Base.{
  ℕ, ◌+◌, ◌-◌, ◌*◌, ◌/◌, ◌^◌, List, [], ◌∷◌, Option, none, some, Bool, true, false, not, ◌==◌, ltb,
  ◌&&◌, ◌||◌, if◌then◌else◌, length, get_or, set, replicate, min, max,
}
use hyperion_os.Base.Ord.{Name, name_eq}
use hyperion_os.Base.Text.{codes, starts_with, contains, before, behind, one_of}
use hyperion_os.Hal.BootInfo.{
  BootInfo, FramebufferInfo, PixelFormat, IntcKind, ConsoleKind, MemoryRegion, as_slice, push,
  empty,
}
use hyperion_os.Hal.Dtb.Bytes.{be32, or_zero, until_nul, utf8_or_empty, read_cells}

abbrev pub max_depth : ℕ
max_depth = 8

pub record WalkCtx : Type 0 where
  pub depth : ℕ
  pub address_cells : List ℕ
  pub size_cells : List ℕ
  pub cur_compatible : Name
  pub stdout_path : Name
  pub in_chosen : Bool
  pub cur_name : Name

-- The properties of the open nodes, by their depth.
pub record NodeProps : Type 0 where
  pub compatible : List Name
  pub reg : List (Option (ℕ × ℕ))
  pub clock : List ℕ
  pub name : List Name
  pub fb : List (Option FramebufferInfo)

unfoldable pub default_ctx : WalkCtx
default_ctx = record {
  depth = 0;
  address_cells = set (replicate max_depth 0) 0 2;
  size_cells = set (replicate max_depth 0) 0 1;
  cur_compatible = [];
  stdout_path = [];
  in_chosen = false;
  cur_name = [];
}

unfoldable pub no_props : NodeProps
no_props = record {
  compatible = replicate max_depth [];
  reg = replicate max_depth none;
  clock = replicate max_depth 0;
  name = replicate max_depth [];
  fb = replicate max_depth none;
}

-- The entry that `get_or_insert` gives.
unfoldable pub fb_entry : Option FramebufferInfo → FramebufferInfo
fb_entry (some fb) = fb
fb_entry none = record {
  base = 0;
  width = 0;
  height = 0;
  stride_bytes = 0;
  bpp = 32;
  format = PixelFormat.bgra8888;
}

unfoldable pub fb_set : (FramebufferInfo → FramebufferInfo) → ℕ → NodeProps → NodeProps
fb_set f depth p = record p { fb = set p.fb depth (some (f (fb_entry (get_or p.fb depth none)))) }

-- `if let Some(v) = … { cells[depth] = v; }`.
abbrev pub set_some : ℕ → List ℕ → Option ℕ → List ℕ
set_some depth cells none = cells
set_some depth cells (some v) = set cells depth v

unfoldable pub format_of : Name → PixelFormat
format_of s =
    if one_of s (codes "a8b8g8r8" ∷ codes "x8b8g8r8" ∷ codes "r8g8b8a8" ∷ codes "r8g8b8x8" ∷ [])
    then PixelFormat.rgba8888
    else PixelFormat.bgra8888

unfoldable pub set_format : (List ℕ → Bool) → List ℕ → FramebufferInfo → FramebufferInfo
set_format is_utf8 value fb =
    if is_utf8 (until_nul value)
    then record fb { format = format_of (until_nul value); bpp = 32 }
    else fb

-- The cells of the parent, which are at least one.
unfoldable pub parent_cells : List ℕ → ℕ → ℕ
parent_cells cells depth = max (get_or cells (depth - 1) 0) 1

unfoldable pub set_reg : List ℕ → ℕ → ℕ → ℕ → NodeProps → NodeProps
set_reg value depth ac sc p = if ltb (length value) ((ac + sc) * 4) then p else record p {
  reg = set p.reg depth (some (read_cells value 0 ac, read_cells value (ac * 4) sc));
}

unfoldable pub set_compatible : Name → WalkCtx × NodeProps → WalkCtx × NodeProps
set_compatible s (c, p) =
    (record c { cur_compatible = s }, record p { compatible = set p.compatible c.depth s })

unfoldable pub set_stdout : (List ℕ → Bool) → List ℕ → WalkCtx → WalkCtx
set_stdout is_utf8 value c =
    if ltb 0 c.depth && c.in_chosen && is_utf8 (until_nul value)
    then record c { stdout_path = until_nul value }
    else c

unfoldable pub handle_prop :
    (List ℕ → Bool) → Name → List ℕ → WalkCtx × NodeProps → WalkCtx × NodeProps
handle_prop is_utf8 pname value (c, p) =
    if name_eq pname (codes "#address-cells")
    then (record c { address_cells = set_some c.depth c.address_cells (be32 value 0) }, p)
    else if name_eq pname (codes "#size-cells")
    then (record c { size_cells = set_some c.depth c.size_cells (be32 value 0) }, p)
    else if name_eq pname (codes "compatible")
    then set_compatible (utf8_or_empty is_utf8 (until_nul value)) (c, p)
    else if name_eq pname (codes "reg")
    then (
      c,
      set_reg value c.depth (parent_cells c.address_cells c.depth)
          (parent_cells c.size_cells c.depth) p,
    )
    else if name_eq pname (codes "clock-frequency")
    then (c, record p { clock = set_some c.depth p.clock (be32 value 0) })
    else if name_eq pname (codes "stdout-path")
    then (set_stdout is_utf8 value c, p)
    else if name_eq pname (codes "width")
    then (c, fb_set (λ fb. record fb { width = or_zero (be32 value 0) }) c.depth p)
    else if name_eq pname (codes "height")
    then (c, fb_set (λ fb. record fb { height = or_zero (be32 value 0) }) c.depth p)
    else if name_eq pname (codes "stride")
    then (c, fb_set (λ fb. record fb { stride_bytes = or_zero (be32 value 0) }) c.depth p)
    else if name_eq pname (codes "format")
    then (c, fb_set (set_format is_utf8 value) c.depth p)
    else (c, p)

unfoldable pub uart_kind_for : Name → Option ConsoleKind
uart_kind_for compatible =
    if one_of compatible (codes "arm,pl011" ∷ codes "arm,primecell" ∷ [])
    then some ConsoleKind.pl011
    else if one_of compatible (
        codes "ns16550"
        ∷ codes "ns16550a"
        ∷ codes "snps,dw-apb-uart"
        ∷ codes "fsl,16550"
        ∷ codes "nvidia,tegra20-uart"
        ∷ [])
    then some ConsoleKind.ns16550
    else if one_of compatible (codes "brcm,bcm2835-aux-uart" ∷ codes "brcm,bcm2837-aux-uart" ∷ [])
    then some ConsoleKind.bcm_mini_uart
    else none

abbrev is_nil {ℓ} : {A : Type ℓ} → List A → Bool
is_nil [] = true
is_nil (x ∷ xs) = false

-- The test on the last component of the path.
unfoldable pub last_matches : Name → Name → Bool
last_matches last node_name =
    name_eq last node_name
    || (one_of last (codes "serial0" ∷ codes "serial1" ∷ codes "serial2" ∷ [])
        && contains node_name (codes "serial"))
    || contains node_name last
    || contains last (before b'@' node_name)

unfoldable pub path_matches_node : Name → Name → Bool
path_matches_node stdout_path node_name =
    if is_nil stdout_path || is_nil node_name
    then false
    else last_matches (behind b'/' [] (before b':' stdout_path)) node_name

-- The memory map of the fallback alone.
unfoldable pub is_fallback : List MemoryRegion → Bool
is_fallback (r ∷ []) = r.base == 1073741824 && r.size == 256 * 1024 * 1024
is_fallback _ = false

unfoldable pub add_memory : ℕ × ℕ → BootInfo → BootInfo
add_memory (base, size) info =
    let kept =
      if not (info.fw_table_addr == 0) && is_fallback (as_slice info.memory)
      then empty
      else info.memory in
    record info { memory = push (record { base = base; size = size }) kept }

unfoldable pub set_intc : IntcKind → ℕ × ℕ → BootInfo → BootInfo
set_intc kind (base, size) info = record info {
  intc = record {
    kind = kind;
    primary = record { base = base; size = size };
    secondary = info.intc.secondary;
  };
}

unfoldable pub set_console : ConsoleKind → ℕ × ℕ → ℕ → BootInfo → BootInfo
set_console kind (base, size) clock_hz info = record info {
  console = record { kind = kind; regs = record { base = base; size = size }; clock_hz = clock_hz };
}

abbrev is_pl011 : ConsoleKind → Bool
is_pl011 ConsoleKind.pl011 = true
is_pl011 _ = false

-- Whether a UART node becomes the console.
unfoldable pub takes_console : WalkCtx → Name → BootInfo → Bool
takes_console c name info =
    if not (is_nil c.stdout_path)
    then path_matches_node c.stdout_path name
    else not (info.fw_table_addr == 0)
      && info.console.regs.base == 150994944
      && is_pl011 info.console.kind

-- `saturating_mul` on `u32`.
unfoldable pub with_stride : FramebufferInfo → FramebufferInfo
with_stride fb =
    if fb.stride_bytes == 0 && not (fb.bpp == 0) && not (fb.width == 0)
    then record fb { stride_bytes = min (fb.width * (fb.bpp / 8)) (2 ^ 32 - 1) }
    else fb

unfoldable pub set_framebuffer : Option FramebufferInfo → Option (ℕ × ℕ) → BootInfo → BootInfo
set_framebuffer (some fb) (some (base, size)) info = record info {
  framebuffer = some (with_stride (record fb { base = base }));
}
set_framebuffer _ _ info = info

-- `if let Some(r) = reg { … }`.
abbrev if_some : (ℕ × ℕ → BootInfo → BootInfo) → Option (ℕ × ℕ) → BootInfo → BootInfo
if_some f none info = info
if_some f (some r) info = f r info

abbrev if_console : WalkCtx → Name → ConsoleKind → ℕ → ℕ × ℕ → BootInfo → BootInfo
if_console c name kind clock_hz r info =
    if takes_console c name info then set_console kind r clock_hz info else info

unfoldable pub act_on_node :
    Name → Name → Option (ℕ × ℕ) → ℕ → Option FramebufferInfo → WalkCtx → BootInfo → BootInfo
act_on_node name compatible reg clock_hz fb c info =
    if starts_with name (codes "memory")
    then if_some add_memory reg info
    else if one_of compatible (codes "arm,gic-v3" ∷ [])
    then if_some (set_intc IntcKind.gic_v3) reg info
    else if one_of compatible (
        codes "arm,gic-400"
        ∷ codes "arm,cortex-a15-gic"
        ∷ codes "arm,cortex-a9-gic"
        ∷ codes "arm,gic"
        ∷ [])
    then if_some (set_intc IntcKind.gic_v2) reg info
    else if one_of compatible (codes "arm,armv8-timer" ∷ codes "arm,armv7-timer" ∷ [])
        && not (clock_hz == 0)
    then record info { timer_freq_hz = clock_hz }
    else elim (uart_kind_for compatible) [
      | some kind ↦ if_some (if_console c name kind clock_hz) reg info
      | none ↦
          if name_eq compatible (codes "simple-framebuffer")
            || (c.in_chosen && starts_with name (codes "framebuffer"))
          then set_framebuffer fb reg info
          else info
    ]

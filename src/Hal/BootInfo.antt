-- ===== src/Hal/BootInfo.antt =====
-- kernel/src/hal/boot_info.rs: the description of the machine, its memory map, and the hand-off of
-- the UEFI stub.
pub mod Memory
pub mod Handoff
mod Tests
use hyperion_os.Base.{
  ℕ, zero, suc, ◌+◌, ◌*◌, ◌%◌, ◌^◌, List, [], ◌∷◌, Option, none, some, Bool, true, false, not, ◌==◌,
  ltb, leb, ◌&&◌, ◌||◌, if◌then◌else◌, set, take, replicate, min,
}

pub data ConsoleKind : Type 0 where
  pl011 ns16550 bcm_mini_uart : ConsoleKind

pub data IntcKind : Type 0 where
  gic_v2 gic_v3 apic pic8259 : IntcKind

pub record RegSpec : Type 0 where
  pub base : ℕ
  pub size : ℕ

pub record MemoryRegion : Type 0 where
  pub base : ℕ
  pub size : ℕ

pub data PixelFormat : Type 0 where
  bgra8888 rgba8888 : PixelFormat

pub record FramebufferInfo : Type 0 where
  pub base : ℕ
  pub width : ℕ
  pub height : ℕ
  pub stride_bytes : ℕ
  pub bpp : ℕ
  pub format : PixelFormat

abbrev pub max_memory_regions : ℕ
max_memory_regions = 8

abbrev pub uefi_handoff_magic : ℕ
uefi_handoff_magic = 5213286370822736200

abbrev pub uefi_handoff_version : ℕ
uefi_handoff_version = 1

pub record ConsoleSpec : Type 0 where
  pub kind : ConsoleKind
  pub regs : RegSpec
  pub clock_hz : ℕ

pub record IntcSpec : Type 0 where
  pub kind : IntcKind
  pub primary : RegSpec
  pub secondary : RegSpec

pub record MemoryMap : Type 0 where
  pub regions : List MemoryRegion
  pub len : ℕ

pub record BootInfo : Type 0 where
  pub console : ConsoleSpec
  pub memory : MemoryMap
  pub intc : IntcSpec
  pub timer_freq_hz : ℕ
  pub framebuffer : Option FramebufferInfo
  pub fw_table_addr : ℕ

unfoldable pub empty : MemoryMap
empty = record { regions = replicate max_memory_regions (record { base = 0; size = 0 }); len = 0 }

unfoldable pub push : MemoryRegion → MemoryMap → MemoryMap
push region m =
    if ltb m.len max_memory_regions && ltb 0 region.size
    then record { regions = set m.regions m.len region; len = m.len + 1 }
    else m

unfoldable pub as_slice : MemoryMap → List MemoryRegion
as_slice m = take m.len m.regions

-- `max_by_key(|r| r.size)`, with the greatest so far: of equal ones the last.
pub largest_from : MemoryRegion → List MemoryRegion → MemoryRegion
largest_from best [] = best
largest_from best (r ∷ rs) = largest_from (if leb best.size r.size then r else best) rs

pub largest_of : List MemoryRegion → Option MemoryRegion
largest_of [] = none
largest_of (r ∷ rs) = some (largest_from r rs)

pub largest : MemoryMap → Option MemoryRegion
largest m = largest_of (as_slice m)

-- `sum` wraps in the release profile.
unfoldable pub sum_sizes : List MemoryRegion → ℕ
sum_sizes [] = 0
sum_sizes (r ∷ rs) = (r.size + sum_sizes rs) % 2 ^ 64

unfoldable pub total_bytes : MemoryMap → ℕ
total_bytes m = sum_sizes (as_slice m)

pub record UefiHandoff : Type 0 where
  pub magic : ℕ
  pub version : ℕ
  pub console_kind : ℕ
  pub console_base : ℕ
  pub console_size : ℕ
  pub console_clock_hz : ℕ
  pub intc_kind : ℕ
  pub intc_primary_base : ℕ
  pub intc_primary_size : ℕ
  pub intc_secondary_base : ℕ
  pub intc_secondary_size : ℕ
  pub timer_freq_hz : ℕ
  pub memory_len : ℕ
  pub memory : List MemoryRegion
  pub framebuffer_present : ℕ
  pub framebuffer_base : ℕ
  pub framebuffer_size : ℕ
  pub framebuffer_width : ℕ
  pub framebuffer_height : ℕ
  pub framebuffer_stride_bytes : ℕ
  pub framebuffer_bpp : ℕ
  pub framebuffer_format : ℕ
  pub fw_table_addr : ℕ

pub console_kind_of : ℕ → Option ConsoleKind
console_kind_of k =
    if k == 0
    then some ConsoleKind.pl011
    else if k == 1
    then some ConsoleKind.ns16550
    else if k == 2
    then some ConsoleKind.bcm_mini_uart
    else none

pub intc_kind_of : ℕ → Option IntcKind
intc_kind_of k =
    if k == 0
    then some IntcKind.gic_v2
    else if k == 1
    then some IntcKind.gic_v3
    else if k == 2
    then some IntcKind.apic
    else if k == 3
    then some IntcKind.pic8259
    else none

pub pixel_format_of : ℕ → Option PixelFormat
pixel_format_of k =
    if k == 0 then some PixelFormat.bgra8888 else if k == 1 then some PixelFormat.rgba8888 else none

-- `for region in self.memory.iter().take(len) { memory.push(region) }`.
unfoldable pub push_all : List MemoryRegion → MemoryMap → MemoryMap
push_all [] m = m
push_all (r ∷ rs) m = push_all rs (push r m)

pub memory_of : UefiHandoff → MemoryMap
memory_of h = push_all (take (min h.memory_len max_memory_regions) h.memory) empty

-- The frame buffer, or the early return of `None`, the outer `none`.
pub framebuffer_of : UefiHandoff → Option (Option FramebufferInfo)
framebuffer_of h =
    if not (h.framebuffer_present == 0)
    then elim (pixel_format_of h.framebuffer_format) [
      | none ↦ none
      | some format ↦ some (
          some (record {
            base = h.framebuffer_base;
            width = h.framebuffer_width;
            height = h.framebuffer_height;
            stride_bytes = h.framebuffer_stride_bytes;
            bpp = h.framebuffer_bpp;
            format = format;
          }))
    ]
    else some none

pub assemble :
    UefiHandoff
    → Option ConsoleKind
    → Option IntcKind
    → Option (Option FramebufferInfo)
    → Option BootInfo
assemble h (some console) (some intc) (some framebuffer) = some (record {
  console = record {
    kind = console;
    regs = record { base = h.console_base; size = h.console_size };
    clock_hz = h.console_clock_hz;
  };
  memory = memory_of h;
  intc = record {
    kind = intc;
    primary = record { base = h.intc_primary_base; size = h.intc_primary_size };
    secondary = record { base = h.intc_secondary_base; size = h.intc_secondary_size };
  };
  timer_freq_hz = h.timer_freq_hz;
  framebuffer = framebuffer;
  fw_table_addr = h.fw_table_addr;
})
assemble h _ _ _ = none

pub to_boot_info : UefiHandoff → Option BootInfo
to_boot_info h =
    if not (h.magic == uefi_handoff_magic) || not (h.version == uefi_handoff_version)
    then none
    else assemble h (console_kind_of h.console_kind) (intc_kind_of h.intc_kind) (framebuffer_of h)

-- A map of one region, as in the fallbacks.
abbrev one_region : ℕ → ℕ → MemoryMap
one_region base size = record {
  regions = set empty.regions 0 (record { base = base; size = size });
  len = 1;
}

unfoldable pub qemu_virt_fallback : BootInfo
qemu_virt_fallback = record {
  console = record {
    kind = ConsoleKind.pl011;
    regs = record { base = 150994944; size = 4096 };
    clock_hz = 24000000;
  };
  memory = one_region 1073741824 (256 * 1024 * 1024);
  intc = record {
    kind = IntcKind.gic_v2;
    primary = record { base = 134217728; size = 65536 };
    secondary = record { base = 134283264; size = 65536 };
  };
  timer_freq_hz = 0;
  framebuffer = none;
  fw_table_addr = 0;
}

unfoldable pub qemu_q35_fallback : BootInfo
qemu_q35_fallback = record {
  console = record {
    kind = ConsoleKind.ns16550;
    regs = record { base = 1016; size = 8 };
    clock_hz = 1843200;
  };
  memory = one_region 1048576 (128 * 1024 * 1024);
  intc = record {
    kind = IntcKind.apic;
    primary = record { base = 4276092928; size = 4096 };
    secondary = record { base = 4273995776; size = 4096 };
  };
  timer_freq_hz = 0;
  framebuffer = none;
  fw_table_addr = 0;
}

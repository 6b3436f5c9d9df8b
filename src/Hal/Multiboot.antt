-- ===== src/Hal/Multiboot.antt =====
-- kernel/src/hal/multiboot.rs: the walk over the tags of a Multiboot2 information block. `byte` gives the
-- bytes of memory; both loops run on fuel, and `none` means that it ran out. The block lies so far below
-- the top of memory that no address wraps.
pub mod Entries
pub mod Ends
mod Tests
use hyperion_os.Base.{
  ℕ, zero, suc, ◌+◌, ◌-◌, ◌*◌, ◌^◌, List, Option, none, some, Bool, true, false, not, ◌==◌, ltb,
  leb, ◌&&◌, ◌||◌, if◌then◌else◌, min, bit_and,
}
use hyperion_os.Hal.BootInfo.{
  BootInfo, MemoryMap, MemoryRegion, IntcKind, ConsoleKind, ConsoleSpec, PixelFormat,
  FramebufferInfo, empty, push, total_bytes, qemu_q35_fallback,
}

abbrev pub mb2_magic : ℕ
mb2_magic = 920085129

abbrev pub tag_end : ℕ
tag_end = 0

abbrev pub tag_basic_mem_info : ℕ
tag_basic_mem_info = 4

abbrev pub tag_memory_map : ℕ
tag_memory_map = 6

abbrev pub tag_framebuffer_info : ℕ
tag_framebuffer_info = 8

abbrev pub tag_efi64_systab : ℕ
tag_efi64_systab = 12

abbrev pub tag_rsdp_old : ℕ
tag_rsdp_old = 14

abbrev pub tag_rsdp_new : ℕ
tag_rsdp_new = 15

abbrev pub mem_type_available : ℕ
mem_type_available = 1

-- `size_of::<FbTag>()`.
abbrev pub fb_tag_size : ℕ
fb_tag_size = 32

-- What the walk keeps.
pub record Scan : Type 0 where
  pub bi : BootInfo
  pub have_real_memory : Bool

module _ (byte : ℕ → ℕ) where
  pub le32 : ℕ → ℕ
  le32 a = byte a + byte (a + 1) * 256 + byte (a + 2) * 65536 + byte (a + 3) * 16777216

  pub le64 : ℕ → ℕ
  le64 a = le32 a + le32 (a + 4) * 2 ^ 32

  -- An entry of the memory map tag at `p`.
  pub add_entry : ℕ → MemoryMap → MemoryMap
  add_entry p m =
      if le32 (p + 16) == mem_type_available && not (le64 (p + 8) == 0)
      then push (record { base = le64 p; size = le64 (p + 8) }) m
      else m

  pub read_entries : ℕ → ℕ → ℕ → ℕ → MemoryMap → Option MemoryMap
  read_entries zero entry_size entries_end p m = none
  read_entries (suc fuel) entry_size entries_end p m =
      let rest = read_entries fuel entry_size entries_end (p + entry_size) (add_entry p m) in
      if leb (p + entry_size) entries_end && not (entry_size == 0) then rest else some m

  pub set_memory : Scan → Option MemoryMap → Option Scan
  set_memory s none = none
  set_memory s (some m) =
      if total_bytes m == 0
      then some s
      else some (record { bi = record s.bi { memory = m }; have_real_memory = true })

  pub memory_map_tag : ℕ → ℕ → Scan → Option Scan
  memory_map_tag cur size s =
      set_memory s (read_entries (size + 1) (le32 (cur + 8)) (cur + size) (cur + 16) empty)

  pub basic_map : ℕ → ℕ → MemoryMap
  basic_map mem_lower mem_upper =
      let low =
        if mem_lower == 0
        then empty
        else push (record { base = 0; size = mem_lower * 1024 }) empty in
      if mem_upper == 0 then low else push (record { base = 1048576; size = mem_upper * 1024 }) low

  pub basic_mem_tag : ℕ → Scan → Scan
  basic_mem_tag cur s =
      let m = basic_map (le32 (cur + 8)) (le32 (cur + 12)) in
      if s.have_real_memory || total_bytes m == 0
      then s
      else record s { bi = record s.bi { memory = m } }

  -- Bits from 16 on are red in the format whose first byte is blue.
  pub framebuffer_tag : ℕ → ℕ → Scan → Scan
  framebuffer_tag cur size s =
      if leb fb_tag_size size && byte (cur + 29) == 1 && byte (cur + 28) == 32
      then record s {
        bi = record s.bi {
          framebuffer = some (record {
            base = le64 (cur + 8);
            width = le32 (cur + 20);
            height = le32 (cur + 24);
            stride_bytes = le32 (cur + 16);
            bpp = byte (cur + 28);
            format =
                if leb 16 (byte (cur + fb_tag_size))
                then PixelFormat.bgra8888
                else PixelFormat.rgba8888;
          });
        };
      }
      else s

  pub systab_tag : ℕ → ℕ → Scan → Scan
  systab_tag mbi_ptr cur s =
      if s.bi.fw_table_addr == mbi_ptr
      then record s { bi = record s.bi { fw_table_addr = le64 (cur + 8) } }
      else s

  pub handle_tag : ℕ → ℕ → ℕ → ℕ → Scan → Option Scan
  handle_tag mbi_ptr cur typ size s =
      if typ == tag_memory_map
      then memory_map_tag cur size s
      else if typ == tag_basic_mem_info
      then some (basic_mem_tag cur s)
      else if typ == tag_framebuffer_info
      then some (framebuffer_tag cur size s)
      else if typ == tag_rsdp_old || typ == tag_rsdp_new
      then some (record s { bi = record s.bi { fw_table_addr = cur + 8 } })
      else if typ == tag_efi64_systab
      then some (systab_tag mbi_ptr cur s)
      else some s

  -- `(hdr.size as u64 + 7) & !7`.
  pub align8 : ℕ → ℕ
  align8 size = bit_and (size + 7) (2 ^ 64 - 2 ^ 3)

  pub and_scan : (Scan → Option Scan) → Option Scan → Option Scan
  and_scan loop none = none
  and_scan loop (some s) = loop s

  -- The loop over the tags up to `end`.
  pub scan : ℕ → ℕ → ℕ → ℕ → Scan → Option Scan
  scan zero mbi_ptr end cur s = none
  scan (suc fuel) mbi_ptr end cur s =
      if ltb end (cur + 8) || le32 cur == tag_end || ltb (le32 (cur + 4)) 8
      then some s
      else and_scan (scan fuel mbi_ptr end (cur + align8 (le32 (cur + 4))))
          (handle_tag mbi_ptr cur (le32 cur) (le32 (cur + 4)) s)

  -- The console of a PC, if the description has one of another machine.
  pub fix_console : ConsoleKind → BootInfo → BootInfo
  fix_console ConsoleKind.ns16550 bi = bi
  fix_console _ bi = record bi {
    console = record {
      kind = ConsoleKind.ns16550;
      regs = record { base = 1016; size = 8 };
      clock_hz = 1843200;
    };
  }

  pub scanned : Option Scan → Option BootInfo
  scanned none = none
  scanned (some s) = some (fix_console s.bi.console.kind s.bi)

  pub start : ℕ → BootInfo
  start mbi_ptr = record qemu_q35_fallback {
    fw_table_addr = mbi_ptr;
    intc = record {
      kind = IntcKind.apic;
      primary = record { base = 4276092928; size = 4096 };
      secondary = record { base = 4273995776; size = 4096 };
    };
  }

  -- A round moves at least eight bytes forward, so that the size of the block is fuel enough.
  pub parse_or_fallback : ℕ → ℕ → Option BootInfo
  parse_or_fallback mbi_ptr magic =
      if not (magic == mb2_magic) || mbi_ptr == 0
      then some (start mbi_ptr)
      else if ltb (le32 mbi_ptr) 16 || ltb (16 * 1024 * 1024) (le32 mbi_ptr)
      then some (start mbi_ptr)
      else scanned (
          scan (le32 mbi_ptr + 1) mbi_ptr (min (mbi_ptr + le32 mbi_ptr) (2 ^ 64 - 1)) (mbi_ptr + 8)
            (record { bi = start mbi_ptr; have_real_memory = false }))

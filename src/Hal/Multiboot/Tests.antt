-- ===== src/Hal/Multiboot/Tests.antt =====
-- kernel/src/hal/multiboot.rs: the theorems at a block with a memory map of two entries.
use hyperion_os.Base.{
  true, zero, suc, ℕ, ◌<◌, ◌≡◌, refl, List, [], ◌∷◌, ◌++◌, Option, none, some, get_or, replicate,
  arith,
}
use hyperion_os.Hal.BootInfo.{BootInfo, MemoryMap, MemoryRegion, as_slice, empty}
use hyperion_os.Hal.BootInfo.Memory.{sized}
use hyperion_os.Hal.BootInfo.{push, total_bytes, sum_sizes, qemu_q35_fallback}
use hyperion_os.Hal.Multiboot.{
  Scan, parse_or_fallback, read_entries, le32, le64, add_entry, set_memory, memory_map_tag,
  basic_map, basic_mem_tag, framebuffer_tag, systab_tag, handle_tag, align8, and_scan, scan,
  fix_console, scanned, start,
}
use hyperion_os.Hal.Multiboot.Entries.{Entry, Stored, read_entries_lem}
use hyperion_os.Hal.Multiboot.Ends.{Ends, multiboot-Ends}

-- `n` bytes, the first of them `a` and `b`.
abbrev word : ℕ → ℕ → ℕ → List ℕ
word a b n = a ∷ b ∷ replicate n 0

abbrev entry : ℕ → ℕ → ℕ → List ℕ
entry base size typ = word 0 base 6 ++ word 0 size 6 ++ word typ 0 2 ++ word 0 0 2

-- A block at the address 8: its header, the tag of the memory map, and the last tag.
abbrev block : List ℕ
block =
    replicate 8 0
    ++ (word 88 0 6
        ++ word 6 0 2
        ++ word 64 0 2
        ++ word 24 0 2
        ++ word 0 0 2
        ++ entry 16 32 1
        ++ entry 64 8 2
        ++ word 0 0 6)

abbrev byte : ℕ → ℕ
byte a = get_or block a 0

-- A list of bytes reads as bytes everywhere.
abbrev AllBytes : List ℕ → Type 0
AllBytes [] = Unit {0}
AllBytes (b ∷ bs) = (b < 256) × AllBytes bs

bytes_lt : (bs : List ℕ) (a : ℕ) → AllBytes bs → get_or bs a 0 < 256
bytes_lt [] a h = omega arith
bytes_lt (b ∷ bs) zero h = h.0
bytes_lt (b ∷ bs) (suc a) h = bytes_lt bs a h.1

multiboot-Ends_example : Ends (parse_or_fallback byte 8 920085129)
multiboot-Ends_example = multiboot-Ends byte (λ a. bytes_lt block a (ground arith)) 8 920085129

-- The two entries of the block.
abbrev stored : List Entry
stored =
    record { base_addr = 4096; len = 8192; typ = 1 }
    ∷ record { base_addr = 16384; len = 2048; typ = 2 }
    ∷ []

stored_there : Stored byte 24 32 stored
stored_there = (
  (refl, (refl, (refl, (refl, (refl, (refl, (refl, (refl, tt)))))))),
  (refl, (refl, (refl, (refl, (refl, (refl, (refl, (refl, tt)))))))),
  (refl, (refl, (refl, (refl, tt)))),
  (
    (refl, (refl, (refl, (refl, (refl, (refl, (refl, (refl, tt)))))))),
    (refl, (refl, (refl, (refl, (refl, (refl, (refl, (refl, tt)))))))),
    (refl, (refl, (refl, (refl, tt)))),
    tt,
  ),
)

read_entries_lem_example :
    (m : MemoryMap) × (read_entries byte 65 24 80 32 empty ≡ some m)
    × (as_slice m ≡ record { base = 4096; size = 8192 } ∷ [])
unfolding sized
read_entries_lem_example =
    read_entries_lem byte stored 65 24 80 32 (omega arith) (omega arith) (omega arith) (omega arith)
      (omega arith, omega arith, omega arith, (omega arith, omega arith, omega arith, tt))
      stored_there

-- The memory of a description that came out.
abbrev banks : Option BootInfo → List MemoryRegion
banks none = []
banks (some b) = as_slice b.memory

parsed : banks (parse_or_fallback byte 8 920085129) ≡ record { base = 4096; size = 8192 } ∷ []
unfolding parse_or_fallback scan and_scan handle_tag memory_map_tag set_memory read_entries
    add_entry align8 scanned start fix_console le32 le64 push as_slice empty total_bytes sum_sizes
    qemu_q35_fallback
parsed = refl

-- 640 KiB of low memory and 1 MiB behind the first.
basic :
    as_slice (basic_map byte 640 1024)
    ≡ record { base = 0; size = 655360 } ∷ record { base = 1048576; size = 1048576 } ∷ []
unfolding basic_map push as_slice empty
basic = refl

abbrev scan_start : Scan
scan_start = record { bi = qemu_q35_fallback; have_real_memory = true }

kept : basic_mem_tag byte 16 scan_start ≡ scan_start
unfolding basic_mem_tag
kept = refl

no_picture : framebuffer_tag byte 16 31 scan_start ≡ scan_start
unfolding framebuffer_tag
no_picture = refl

no_table : systab_tag byte 8 16 scan_start ≡ scan_start
unfolding systab_tag qemu_q35_fallback
no_table = refl

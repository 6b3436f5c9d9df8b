-- ===== src/Hal/Multiboot/Ends.antt =====
-- kernel/src/hal/multiboot.rs: the walk over the tags ends.
use hyperion_os.Base.{
  ℕ, zero, suc, ◌+◌, ◌-◌, ◌*◌, ◌^◌, ◌<◌, ◌≤◌, refl, Option, none, some, false, not, ◌==◌, ltb, leb,
  ◌&&◌, ◌||◌, if_both, arith, min,
}
use hyperion_os.Base.Bits.{bit_and-align}
use hyperion_os.Hal.BootInfo.{MemoryMap, empty, total_bytes}
use hyperion_os.Hal.Multiboot.{
  Scan, mb2_magic, tag_end, tag_memory_map, tag_basic_mem_info, tag_framebuffer_info, tag_rsdp_old,
  tag_rsdp_new, tag_efi64_systab, le32, add_entry, read_entries, set_memory, memory_map_tag,
  handle_tag, align8, and_scan, scan, scanned, start, parse_or_fallback,
}

-- The fuel did not run out.
abbrev pub Ends {ℓ} : {A : Type ℓ} → Option A → Type 0
Ends none = ⊥
Ends (some a) = Unit {0}

module _ (byte : ℕ → ℕ) (bytes : (a : ℕ) → byte a < 256) where
  read_entries-Ends :
      (fuel es end p : ℕ) (m : MemoryMap)
      → end < fuel + p
      → 0 < fuel
      → Ends (read_entries byte fuel es end p m)
  unfolding read_entries
  read_entries-Ends zero es end p m h z = absurd (omega arith)
  read_entries-Ends (suc fuel) es end p m h z =
      if_both Ends (leb (p + es) end && not (es == 0))
        (λ e.
          read_entries-Ends fuel es end (p + es) (add_entry byte p m) (ground (arith, e, h))
            (ground (arith, e, h)))
        (λ e. tt)

  set_memory-Ends : (s : Scan) (o : Option MemoryMap) → Ends o → Ends (set_memory byte s o)
  unfolding set_memory
  set_memory-Ends s none h = h
  set_memory-Ends s (some m) h = if_both Ends (total_bytes m == 0) (λ e. tt) (λ e. tt)

  handle_tag-Ends :
      (mbi_ptr cur typ size : ℕ) (s : Scan) → Ends (handle_tag byte mbi_ptr cur typ size s)
  unfolding handle_tag memory_map_tag
  handle_tag-Ends mbi_ptr cur typ size s =
      if_both Ends (typ == tag_memory_map)
        (λ _. set_memory-Ends s _ (
          read_entries-Ends (size + 1) (le32 byte (cur + 8)) (cur + size) (cur + 16) empty
            (omega arith) (omega arith)))
        (λ _.
          if_both Ends (typ == tag_basic_mem_info) (λ _. tt)
            (λ _.
              if_both Ends (typ == tag_framebuffer_info) (λ _. tt)
                (λ _.
                  if_both Ends (typ == tag_rsdp_old || typ == tag_rsdp_new) (λ _. tt)
                    (λ _. if_both Ends (typ == tag_efi64_systab) (λ _. tt) (λ _. tt)))))

  le32-lt : (a : ℕ) → le32 byte a < 2 ^ 32
  unfolding le32
  le32-lt a = omega (arith, bytes a, bytes (a + 1), bytes (a + 2), bytes (a + 3))

  align8_le : (n : ℕ) → n < 2 ^ 32 → n ≤ align8 byte n
  unfolding align8
  align8_le n h = omega (arith, h, bit_and-align 3 61 (n + 7) refl (omega (arith, h)))

  and_scan-Ends :
      (loop : Scan → Option Scan) (o : Option Scan)
      → ((s : Scan) → Ends (loop s))
      → Ends o
      → Ends (and_scan byte loop o)
  unfolding and_scan
  and_scan-Ends loop none l h = h
  and_scan-Ends loop (some s) l h = l s

  scan-Ends :
      (fuel mbi_ptr end cur : ℕ) (s : Scan)
      → end < fuel + cur
      → 0 < fuel
      → Ends (scan byte fuel mbi_ptr end cur s)
  unfolding scan
  scan-Ends zero mbi_ptr end cur s h z = absurd (omega arith)
  scan-Ends (suc fuel) mbi_ptr end cur s h z =
      if_both Ends (ltb end (cur + 8) || le32 byte cur == tag_end || ltb (le32 byte (cur + 4)) 8)
        (λ e. tt)
        (λ e.
          and_scan-Ends _ _
            (λ t.
              scan-Ends fuel mbi_ptr end (cur + align8 byte (le32 byte (cur + 4))) t
                (ground (arith, e, h, align8_le (le32 byte (cur + 4)) (le32-lt (cur + 4))))
                (ground (arith, e, h)))
            (handle_tag-Ends mbi_ptr cur (le32 byte cur) (le32 byte (cur + 4)) s))

  scanned-Ends : (o : Option Scan) → Ends o → Ends (scanned byte o)
  unfolding scanned
  scanned-Ends none h = h
  scanned-Ends (some s) h = tt

  -- Whatever bytes stand in memory at the address that the boot loader hands over, the parser ends with a
  -- description of the machine.
  pub multiboot-Ends : (mbi_ptr magic : ℕ) → Ends (parse_or_fallback byte mbi_ptr magic)
  unfolding parse_or_fallback
  multiboot-Ends mbi_ptr magic =
      if_both Ends (not (magic == mb2_magic) || mbi_ptr == 0) (λ _. tt)
        (λ _.
          if_both Ends (ltb (le32 byte mbi_ptr) 16 || ltb (16 * 1024 * 1024) (le32 byte mbi_ptr))
            (λ _. tt)
            (λ _. scanned-Ends _ (
              scan-Ends (le32 byte mbi_ptr + 1) mbi_ptr
                (min (mbi_ptr + le32 byte mbi_ptr) (2 ^ 64 - 1)) (mbi_ptr + 8)
                (record { bi = start byte mbi_ptr; have_real_memory = false }) (omega arith)
                (omega arith))))

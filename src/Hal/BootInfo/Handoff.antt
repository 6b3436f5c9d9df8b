-- ===== src/Hal/BootInfo/Handoff.antt =====
-- kernel/src/hal/boot_info.rs: which hand-offs of the UEFI stub are accepted, and the memory map that
-- the kernel takes from one.
use hyperion_os.Base.{
  ℕ, ◌≡◌, ◌≤◌, refl, sym, ap, ◌∙◌, List, [], ◌∷◌, Option, none, some, Bool, true, false, not, ◌==◌,
  ltb, ◌&&◌, ◌||◌, if◌then◌else◌, Bool-cases, inl, inr, take, min, arith, length, length-take,
  take-all,
}
use hyperion_os.Hal.BootInfo.{
  BootInfo, MemoryMap, UefiHandoff, MemoryRegion, ConsoleKind, IntcKind, FramebufferInfo,
  uefi_handoff_magic, uefi_handoff_version, max_memory_regions, console_kind_of, intc_kind_of,
  pixel_format_of, framebuffer_of, assemble, to_boot_info, memory_of, empty, as_slice,
}
use hyperion_os.Hal.BootInfo.Memory.{sized, push_all_lem, empty-IsValid}

abbrev pub is_some {ℓ} : {A : Type ℓ} → Option A → Bool
is_some none = false
is_some (some a) = true

-- The hand-off has the magic number and the version, and its kinds and its pixel format, if it has a
-- frame buffer, are known ones.
abbrev pub is_known : UefiHandoff → Bool
is_known h =
    (h.magic == uefi_handoff_magic)
    && (h.version == uefi_handoff_version)
    && ltb h.console_kind 3
    && ltb h.intc_kind 4
    && (h.framebuffer_present == 0 || ltb h.framebuffer_format 2)

known_console : (k : ℕ) → is_some (console_kind_of k) ≡ ltb k 3
unfolding console_kind_of
known_console k = ground arith

known_intc : (k : ℕ) → is_some (intc_kind_of k) ≡ ltb k 4
unfolding intc_kind_of
known_intc k = ground arith

known_framebuffer :
    (h : UefiHandoff)
    → is_some (framebuffer_of h) ≡ (h.framebuffer_present == 0 || ltb h.framebuffer_format 2)
unfolding framebuffer_of pixel_format_of
known_framebuffer h = ground arith

assemble_known :
    (h : UefiHandoff) (c : Option ConsoleKind) (i : Option IntcKind)
    (f : Option (Option FramebufferInfo))
    → is_some (assemble h c i f) ≡ is_some c && is_some i && is_some f
unfolding assemble
assemble_known h none i f = refl
assemble_known h (some c) none f = refl
assemble_known h (some c) (some i) none = refl
assemble_known h (some c) (some i) (some f) = refl

-- A hand-off gives a description of the machine exactly if its magic number and version are right and
-- its kinds and pixel format are known ones.
pub to_boot_info-known : (h : UefiHandoff) → is_some (to_boot_info h) ≡ is_known h
unfolding to_boot_info
to_boot_info-known h = ground (
  arith,
  assemble_known h (console_kind_of h.console_kind) (intc_kind_of h.intc_kind) (framebuffer_of h),
  known_console h.console_kind,
  known_intc h.intc_kind,
  known_framebuffer h,
)

-- The memory of a description, or `m`.
memory_or : MemoryMap → Option BootInfo → MemoryMap
memory_or m none = m
memory_or m (some b) = b.memory

assemble_memory :
    (h : UefiHandoff) (c : Option ConsoleKind) (i : Option IntcKind)
    (f : Option (Option FramebufferInfo))
    → memory_or (memory_of h) (assemble h c i f) ≡ memory_of h
unfolding assemble memory_or
assemble_memory h none i f = refl
assemble_memory h (some c) none f = refl
assemble_memory h (some c) (some i) none = refl
assemble_memory h (some c) (some i) (some f) = refl

to_boot_info_memory : (h : UefiHandoff) → memory_or (memory_of h) (to_boot_info h) ≡ memory_of h
unfolding to_boot_info memory_or
to_boot_info_memory h =
    elim (Bool-cases
      (not (h.magic == uefi_handoff_magic) || not (h.version == uefi_handoff_version))) [
        | inl e ↦ ap (λ b. memory_or (memory_of h) (if b then none else whole)) e
        | inr e ↦
            ap (λ b. memory_or (memory_of h) (if b then none else whole)) e
            ∙ assemble_memory h _ _ _
      ]
  where
    whole : Option BootInfo
    whole =
        assemble h (console_kind_of h.console_kind) (intc_kind_of h.intc_kind) (framebuffer_of h)

length-sized : (rs : List MemoryRegion) → length (sized rs) ≤ length rs
unfolding sized
length-sized [] = omega arith
length-sized (r ∷ rs) = ground (arith, length-sized rs)

-- The memory map of an accepted hand-off holds, in their order, the banks that have a size among those
-- that it counts, and no more than eight of them are read.
pub handoff_memory :
    (h : UefiHandoff) (b : BootInfo)
    → to_boot_info h ≡ some b
    → as_slice b.memory ≡ sized (take (min h.memory_len max_memory_regions) h.memory)
unfolding memory_or memory_of as_slice empty
handoff_memory h b e =
    ap as_slice (ap (memory_or (memory_of h)) (sym e) ∙ to_boot_info_memory h)
    ∙ push_all_lem counted empty empty-IsValid
    ∙ take-all max_memory_regions (sized counted) (
        omega
          (arith, length-sized counted, length-take (min h.memory_len max_memory_regions) h.memory))
  where
    counted : List MemoryRegion
    counted = take (min h.memory_len max_memory_regions) h.memory

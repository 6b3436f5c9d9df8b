-- ===== src/Hal/Multiboot/Entries.antt =====
-- kernel/src/hal/multiboot.rs: the entries of the memory map tag.
use hyperion_os.Base.{
  ◌^◌, ◌%◌, ◌/◌, ℕ, zero, suc, ◌+◌, ◌*◌, ◌<◌, ◌≤◌, ◌≡◌, refl, ap, ◌∙◌, List, [], ◌∷◌, length, some,
  not, ◌==◌, leb, ◌&&◌, if◌then◌else◌, if_both, take, arith,
}
use native.Mathlib.Nat.{suc-mul}
use hyperion_os.Hal.BootInfo.{
  MemoryMap, MemoryRegion, empty, push, push_all, as_slice, max_memory_regions,
}
use hyperion_os.Hal.BootInfo.Memory.{sized, push_all_lem, empty-IsValid}
use hyperion_os.Hal.Multiboot.{le32, le64, add_entry, read_entries}

-- An entry of the memory map as the boot loader writes it.
pub record Entry : Type 0 where
  pub base_addr : ℕ
  pub len : ℕ
  pub typ : ℕ

-- `x` in `n` bytes, the lowest first.
abbrev pub le_bytes : ℕ → ℕ → List ℕ
le_bytes zero x = []
le_bytes (suc n) x = x % 256 ∷ le_bytes n (x / 256)

-- The regions of the entries of the available kind.
abbrev pub usable : List Entry → List MemoryRegion
usable [] = []
usable (e ∷ es) =
    if e.typ == 1 then record { base = e.base_addr; size = e.len } ∷ usable es else usable es

-- The numbers fit their fields.
abbrev pub Fits : List Entry → Type 0
Fits [] = Unit {0}
Fits (e ∷ es) = (e.base_addr < 2 ^ 64) × (e.len < 2 ^ 64) × (e.typ < 2 ^ 32) × Fits es

module _ (byte : ℕ → ℕ) where
  -- The bytes stand in memory from `a` on.
  abbrev pub At : ℕ → List ℕ → Type 0
  At a [] = Unit {0}
  At a (b ∷ bs) = (byte a ≡ b) × At (a + 1) bs

  -- The entries stand in memory from `p` on, `size` bytes apart.
  abbrev pub Stored : ℕ → ℕ → List Entry → Type 0
  Stored size p [] = Unit {0}
  Stored size p (e ∷ es) =
      At p (le_bytes 8 e.base_addr)
      × At (p + 8) (le_bytes 8 e.len)
      × At (p + 16) (le_bytes 4 e.typ)
      × Stored size (p + size) es

  next : (a : ℕ) → (byte (a + 1 + 1) ≡ byte (a + 2)) × (byte (a + 1 + 1 + 1) ≡ byte (a + 3))
  next a = (ap byte (omega arith), ap byte (omega arith))

  -- A word of four bytes, with the bytes of what is above it.
  le32-At : (a x : ℕ) → At a (le_bytes 4 x) → le32 byte a ≡ x % 2 ^ 32
  unfolding le32
  le32-At a x t = omega (arith, t.0, t.1.0, t.1.1.0, t.1.1.1.0, next a)

  le64-At : (a x : ℕ) → x < 2 ^ 64 → At a (le_bytes 8 x) → le64 byte a ≡ x
  unfolding le64
  le64-At a x h t = omega (
    arith,
    h,
    le32-At a x (t.0, (t.1.0, (t.1.1.0, (t.1.1.1.0, tt)))),
    le32-At (a + 1 + 1 + 1 + 1) (x / 256 / 256 / 256 / 256) t.1.1.1.1,
    moved,
  )
    where
      moved : le32 byte (a + 1 + 1 + 1 + 1) ≡ le32 byte (a + 4)
      moved = ap (le32 byte) (omega arith)

  -- A region without a length is not kept by `push` either.
  push-sized :
      (r : MemoryRegion) (m : MemoryMap) → (if not (r.size == 0) then push r m else m) ≡ push r m
  unfolding push
  push-sized r m = ground arith

  add_entry-usable :
      (p : ℕ) (e : Entry) (es : List Entry) (m : MemoryMap)
      → Fits (e ∷ es)
      → At p (le_bytes 8 e.base_addr)
      → At (p + 8) (le_bytes 8 e.len)
      → At (p + 16) (le_bytes 4 e.typ)
      → push_all (usable es) (add_entry byte p m) ≡ push_all (usable (e ∷ es)) m
  unfolding add_entry push_all
  add_entry-usable p e es m f a b c =
      rw (add_entry, le64-At p e.base_addr f.0 a, le64-At (p + 8) e.len f.1 b, typ)
        (if_both
          (λ us.
            push_all (usable es) (
              if (e.typ == 1) && not (e.len == 0)
              then push (record { base = e.base_addr; size = e.len }) m
              else m)
            ≡ push_all us m)
          (e.typ == 1)
          (λ t. rw t (
            ap (push_all (usable es)) (push-sized (record { base = e.base_addr; size = e.len }) m)))
          (λ t. rw t refl))
    where
      typ : le32 byte (p + 16) ≡ e.typ
      typ = omega (arith, le32-At (p + 16) e.typ c, f.2)

  read_entries-usable :
      (es : List Entry) (fuel size end p : ℕ) (m : MemoryMap)
      → 0 < size
      → length es < fuel
      → p + length es * size ≤ end
      → end < p + length es * size + size
      → Fits es
      → Stored size p es
      → read_entries byte fuel size end p m ≡ some (push_all (usable es) m)
  unfolding read_entries push_all
  read_entries-usable es zero size end p m z l a b f t = absurd (omega arith)
  read_entries-usable [] (suc fuel) size end p m z l a b f t =
      if_both (λ o. o ≡ some m) (leb (p + size) end && not (size == 0))
        (λ e. absurd (ground (arith, e, a, b))) (λ e. refl)
  read_entries-usable (x ∷ es) (suc fuel) size end p m z l a b f t =
      if_both (λ o. o ≡ some (push_all (usable (x ∷ es)) m)) (leb (p + size) end && not (size == 0))
        (λ e.
          read_entries-usable es fuel size end (p + size) (add_entry byte p m) z (omega (arith, l))
            (omega (arith, a, suc-mul (length es) size))
            (omega (arith, b, suc-mul (length es) size)) f.3 t.3
          ∙ ap some (add_entry-usable p x es m f t.0 t.1 t.2))
        (λ e. absurd (ground (arith, e, z, a, suc-mul (length es) size)))

  -- If entries of a positive size stand in memory and fill the tag up to less than one more, the reading
  -- ends with a map that holds the regions of those that are available and have a length, in their
  -- order, the first eight of them. The fuel exceeds the number of entries.
  pub read_entries_lem :
      (es : List Entry) (fuel size end p : ℕ)
      → 0 < size
      → length es < fuel
      → p + length es * size ≤ end
      → end < p + length es * size + size
      → Fits es
      → Stored size p es
      → ((m : MemoryMap) × (read_entries byte fuel size end p empty ≡ some m)
          × (as_slice m ≡ take max_memory_regions (sized (usable es))))
  unfolding empty as_slice
  read_entries_lem es fuel size end p z l a b f t = (
    push_all (usable es) empty,
    read_entries-usable es fuel size end p empty z l a b f t,
    push_all_lem (usable es) empty empty-IsValid,
  )

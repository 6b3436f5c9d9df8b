-- ===== src/Mm/Vmm.antt =====
-- kernel/src/mm/vmm.rs: an address space as its root frame and its mappings, keyed by their first
-- address. `map` allocates the root from the frame allocator, so that state is passed through; the
-- bytes of the frame, which it zeroes, are no part of the model.
pub mod Valid
pub mod Translate
mod Tests
use hyperion_os.Base.{
  ℕ, zero, suc, ◌+◌, ◌-◌, ◌%◌, ◌^◌, List, [], ◌∷◌, Bool, Option, none, some, ltb, leb, ◌==◌, ◌&&◌,
  if◌then◌else◌, bit_and,
}
use hyperion_os.Base.BTreeMap
use hyperion_os.Base.BTreeMap.{BTreeMap}
use hyperion_os.Base.Ord.{nat_ord}
use hyperion_os.Base.Result.{Result, ok, err, ◌>>=◌, ◌>>◌}
use hyperion_os.Mm.Pmm.{Pmm, alloc_frame}

abbrev pub page_size : ℕ
page_size = 4096

pub data MapError : Type 0 where
  zero_length unaligned length_overflow overlap out_of_memory : MapError

pub record Mapping : Type 0 where
  pub va : ℕ
  pub pa : ℕ
  pub len : ℕ

pub record AddressSpace : Type 0 where
  pub root : ℕ
  pub mappings : BTreeMap ℕ Mapping

pub new_unmaterialised : AddressSpace
new_unmaterialised = record { root = 0; mappings = [] }

-- The mask is `!(PAGE_SIZE - 1)`; `usize` has 64 bits, so `try_from` accepts every value.
pub normalise_len : ℕ → Result MapError ℕ
normalise_len len =
    if len == 0
    then err zero_length
    else if ltb (len + (page_size - 1)) (2 ^ 64)
    then ok (bit_and (len + (page_size - 1)) (2 ^ 64 - page_size))
    else err length_overflow

pub ensure_page_aligned : ℕ → Result MapError (Unit {0})
ensure_page_aligned addr = if bit_and addr (page_size - 1) == 0 then ok tt else err unaligned

pub checked_end : ℕ → ℕ → Result MapError ℕ
checked_end start len = if ltb (start + len) (2 ^ 64) then ok (start + len) else err length_overflow

pub ranges_overlap : ℕ → ℕ → ℕ → ℕ → Bool
ranges_overlap a_start a_end b_start b_end = ltb a_start b_end && ltb b_start a_end

-- `for existing in self.mappings.values()`.
pub check_overlaps : ℕ → ℕ → BTreeMap ℕ Mapping → Result MapError (Unit {0})
check_overlaps start end [] = ok tt
check_overlaps start end ((k, existing) ∷ rest) =
    let later = check_overlaps start end rest in
    do
      existing_end ← checked_end existing.va existing.len
      if ranges_overlap start end existing.va existing_end then err overlap else later

-- What `map` checks before it changes anything; the result is the rounded length.
pub checks : AddressSpace → ℕ → ℕ → ℕ → Result MapError ℕ
checks s va pa len = do
  len ← normalise_len len
  ensure_page_aligned va
  ensure_page_aligned pa
  end ← checked_end va len
  check_overlaps va end s.mappings
  ok len

-- `self.root = alloc_frame().ok_or(OutOfMemory)?`.
pub set_root : AddressSpace → Option ℕ × Pmm → Result MapError (Unit {0}) × AddressSpace × Pmm
set_root s (none, p) = (err out_of_memory, s, p)
set_root s (some frame, p) = (ok tt, record s { root = frame }, p)

pub ensure_root : AddressSpace → Pmm → Result MapError (Unit {0}) × AddressSpace × Pmm
ensure_root s p = if s.root == 0 then set_root s (alloc_frame p) else (ok tt, s, p)

pub insert_mapping : Mapping → AddressSpace → AddressSpace
insert_mapping m s = record s { mappings = BTreeMap.insert m.va m s.mappings }

-- `self.ensure_root()?; self.mappings.insert(..)`.
pub commit :
    Mapping
    → Result MapError (Unit {0}) × AddressSpace × Pmm
    → Result MapError (Unit {0}) × AddressSpace × Pmm
commit m (err e, s, p) = (err e, s, p)
commit m (ok _, s, p) = (ok tt, insert_mapping m s, p)

pub map : ℕ → ℕ → ℕ → AddressSpace → Pmm → Result MapError (Unit {0}) × AddressSpace × Pmm
map va pa len s p = elim (checks s va pa len) [
  | err e ↦ (err e, s, p)
  | ok rounded ↦ commit (record { va = va; pa = pa; len = rounded }) (ensure_root s p)
]

pub unmap : ℕ → AddressSpace → Option Mapping × AddressSpace
unmap va s = (BTreeMap.get va s.mappings, record s { mappings = BTreeMap.remove va s.mappings })

-- The second half of `translate`, on what `range(..=va).next_back()` gives.
pub offset_in : ℕ → Option (ℕ × Mapping) → Option ℕ
offset_in va none = none
offset_in va (some (start, m)) =
    if ltb va start
    then none
    else if ltb (va - start) m.len
    then some ((m.pa + (va - start)) % 2 ^ 64)
    else none

pub translate : AddressSpace → ℕ → Option ℕ
translate s va = offset_in va (BTreeMap.floor va s.mappings)

-- ===== src/Mm/Vmm/Valid.antt =====
-- kernel/src/mm/vmm.rs: the invariant of an address space.
use hyperion_os.Base.{ℕ, ◌+◌, ◌-◌, ◌/◌, ◌*◌, ◌%◌, ◌^◌, ◌<◌, ◌≤◌, ◌≡◌, ◌⊎◌, inl, inr, [], ◌∷◌, arith}
use hyperion_os.Base.Bits.{page_mask, page_offset}
use hyperion_os.Base.BTreeMap
use hyperion_os.Base.BTreeMap.{BTreeMap}
use hyperion_os.Base.Ord.{nat_ord}
use hyperion_os.Base.Result.{Result-cases, Result, ok, err}
use hyperion_os.Mm.Pmm.{Pmm}
use hyperion_os.Mm.Vmm.{
  Mapping, AddressSpace, MapError, page_size, normalise_len, ensure_page_aligned, checked_end,
  ranges_overlap, check_overlaps, checks, set_root, ensure_root, insert_mapping, commit, map, unmap,
}

-- From `lo` on, the mappings stand under their own addresses, in ascending order, apart from one
-- another, page by page, and end below the top of the address space.
abbrev pub From : ℕ → BTreeMap ℕ Mapping → Type 0
From lo [] = Unit {0}
From lo ((k, m) ∷ rest) =
    (lo ≤ k)
    × (m.va ≡ k)
    × (0 < m.len)
    × (m.va + m.len < 2 ^ 64)
    × (m.va % page_size ≡ 0)
    × (m.pa % page_size ≡ 0)
    × (m.len % page_size ≡ 0)
    × From (m.va + m.len) rest

abbrev pub IsValid : AddressSpace → Type 0
IsValid s = From 0 s.mappings

-- A new mapping that passed the checks.
pub record Fits (m : Mapping) (ms : BTreeMap ℕ Mapping) : Type 0 where
  pub some_len : 0 < m.len
  pub below : m.va + m.len < 2 ^ 64
  pub va_aligned : m.va % page_size ≡ 0
  pub pa_aligned : m.pa % page_size ≡ 0
  pub len_aligned : m.len % page_size ≡ 0
  pub apart : check_overlaps m.va (m.va + m.len) ms ≡ ok tt

normalise_len-ok :
    (len r : ℕ)
    → normalise_len len ≡ ok r
    → (len ≤ r) × (r < len + page_size) × (r % page_size ≡ 0) × (0 < len)
unfolding normalise_len
normalise_len-ok len r h = ground (arith, page_mask (len + (page_size - 1)))

pub checks-Fits :
    (s : AddressSpace) (va pa len : ℕ) (r : ℕ)
    → checks s va pa len ≡ ok r
    → Fits (record { va = va; pa = pa; len = r }) s.mappings
unfolding checks ensure_page_aligned checked_end
checks-Fits s va pa len r h = ground (arith, normalise_len-ok len r, page_offset va, page_offset pa)

pub checks-rounds :
    (s : AddressSpace) (va pa len r : ℕ)
    → checks s va pa len ≡ ok r
    → r ≡ (len + 4095) / 4096 * 4096
unfolding checks ensure_page_aligned checked_end
checks-rounds s va pa len r h = ground (arith, normalise_len-ok len r)

-- A mapping that overlaps nothing lies on one side of each mapping.
pub apart_step :
    (start end k : ℕ) (w : Mapping) (ms : BTreeMap ℕ Mapping)
    → w.va + w.len < 2 ^ 64
    → check_overlaps start end ((k, w) ∷ ms) ≡ ok tt
    → ((end ≤ w.va) ⊎ (w.va + w.len ≤ start)) × (check_overlaps start end ms ≡ ok tt)
unfolding check_overlaps checked_end ranges_overlap
apart_step start end k w ms b h = ground arith

pub Fits-tail :
    (m : Mapping) (k : ℕ) (w : Mapping) (ms : BTreeMap ℕ Mapping)
    → w.va + w.len < 2 ^ 64
    → Fits m ((k, w) ∷ ms)
    → Fits m ms
Fits-tail m k w ms b f = ground (arith, apart_step m.va (m.va + m.len) k w ms b f.apart)

pub From-mono : (lo hi : ℕ) (ms : BTreeMap ℕ Mapping) → lo ≤ hi → From hi ms → From lo ms
From-mono lo hi [] h v = tt
From-mono lo hi ((k, w) ∷ ms) h v = ground arith

pub From-insert :
    (m : Mapping) (lo : ℕ) (ms : BTreeMap ℕ Mapping)
    → Fits m ms
    → lo ≤ m.va
    → From lo ms
    → From lo (BTreeMap.insert m.va m ms)
unfolding BTreeMap.insert
From-insert m lo [] f h v = omega arith
From-insert m lo ((k, w) ∷ ms) f h v = ground (
  arith,
  apart_step m.va (m.va + m.len) k w ms,
  From-insert m (w.va + w.len) ms (Fits-tail m k w ms (omega arith) f),
)

From-remove : (lo va : ℕ) (ms : BTreeMap ℕ Mapping) → From lo ms → From lo (BTreeMap.remove va ms)
unfolding BTreeMap.remove
From-remove lo va [] v = tt
From-remove lo va ((k, w) ∷ ms) v =
    ground (arith, From-remove (w.va + w.len) va ms, From-mono lo (w.va + w.len) ms)

pub mappings-ensure_root : (s : AddressSpace) (p : Pmm) → (ensure_root s p).1.mappings ≡ s.mappings
unfolding ensure_root set_root
mappings-ensure_root s p = ground arith

commit-IsValid :
    (m : Mapping) (r : Result MapError (Unit {0}) × AddressSpace × Pmm)
    → Fits m r.1.mappings
    → From 0 r.1.mappings
    → IsValid (commit m r).1
unfolding commit insert_mapping
commit-IsValid m (ok _, s, p) f v = From-insert m 0 s.mappings f (omega arith) v
commit-IsValid m (err e, s, p) f v = v

-- Every call of `map` keeps the mappings of an address space page-aligned and apart, whatever it
-- returns.
pub map-IsValid :
    (s : AddressSpace) (p : Pmm) (va pa len : ℕ) → IsValid s → IsValid (map va pa len s p).1
unfolding map
map-IsValid s p va pa len v = elim (Result-cases (checks s va pa len)) [
  | inl (r, e) ↦
      rw (e, map)
        (commit-IsValid (record { va = va; pa = pa; len = r }) (ensure_root s p)
          (rw (mappings-ensure_root s p) (checks-Fits s va pa len r e))
          (rw (mappings-ensure_root s p) v))
  | inr (x, e) ↦ rw (e, map) v
]

-- `unmap` keeps the mappings of an address space page-aligned and apart.
pub unmap-IsValid : (va : ℕ) (s : AddressSpace) → IsValid s → IsValid (unmap va s).1
unfolding unmap
unmap-IsValid va s v = From-remove 0 va s.mappings v

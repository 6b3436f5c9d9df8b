-- ===== src/Mm/Vmm/Translate.antt =====
-- kernel/src/mm/vmm.rs: `translate` against the mapping that covers the address, and how `map`
-- and `unmap` change it.
use hyperion_os.Base.{
  ℕ, ◌+◌, ◌-◌, ◌/◌, ◌*◌, ◌%◌, ◌^◌, ◌<◌, ◌≤◌, ◌≡◌, refl, ◌∙◌, ◌⊎◌, inl, inr, [], ◌∷◌, Bool, Option,
  none, some, ltb, leb, ◌==◌, ◌&&◌, if◌then◌else◌, arith, Bool-cases, ap,
}
use hyperion_os.Base.BTreeMap
use hyperion_os.Base.BTreeMap.{BTreeMap}
use hyperion_os.Base.Ord.{nat_ord}
use hyperion_os.Base.Result.{Result, ok, err, Result-cases}
use hyperion_os.Mm.Pmm.{Pmm, alloc_frame}
use hyperion_os.Mm.Pmm.Alloc.{alloc_frame-none}
use hyperion_os.Mm.Vmm.{
  Mapping, AddressSpace, MapError, checks, set_root, ensure_root, insert_mapping, commit, map,
  unmap, offset_in, translate,
}
use hyperion_os.Mm.Vmm.Valid.{
  From, checks-rounds, IsValid, Fits, Fits-tail, apart_step, checks-Fits, mappings-ensure_root,
  map-IsValid, unmap-IsValid,
}

-- `va` lies in the range of the mapping.
abbrev pub covers : Mapping → ℕ → Bool
covers m va = leb m.va va && ltb va (m.va + m.len)

-- The physical address that the mapping gives to `va`.
abbrev pub image : Mapping → ℕ → ℕ
image m va = (m.pa + (va - m.va)) % 2 ^ 64

-- The specification: the image under the mapping that covers the address, wherever it stands.
pub lookup : BTreeMap ℕ Mapping → ℕ → Option ℕ
lookup [] va = none
lookup ((k, m) ∷ ms) va = if covers m va then some (image m va) else lookup ms va

lookup_below : (lo va : ℕ) (ms : BTreeMap ℕ Mapping) → From lo ms → va < lo → lookup ms va ≡ none
unfolding lookup
lookup_below lo va [] v h = refl
lookup_below lo va ((k, m) ∷ ms) v h = ground (arith, lookup_below (m.va + m.len) va ms)

floor_below :
    (lo va : ℕ) (ms : BTreeMap ℕ Mapping) → From lo ms → va < lo → BTreeMap.floor va ms ≡ none
unfolding BTreeMap.floor
floor_below lo va [] v h = refl
floor_below lo va ((k, m) ∷ ms) v h = ground arith

offset_in-floor :
    (lo va : ℕ) (ms : BTreeMap ℕ Mapping)
    → From lo ms
    → offset_in va (BTreeMap.floor va ms) ≡ lookup ms va
unfolding BTreeMap.floor offset_in lookup
offset_in-floor lo va [] v = refl
offset_in-floor lo va ((k, m) ∷ ms) v = ground (
  arith,
  offset_in-floor (m.va + m.len) va ms,
  lookup_below (m.va + m.len) va ms,
  floor_below (m.va + m.len) va ms,
)

-- In a valid address space `translate` finds the mapping that covers the address, and answers
-- nothing when no mapping does.
pub translate-lookup :
    (s : AddressSpace) (va : ℕ) → IsValid s → translate s va ≡ lookup s.mappings va
unfolding translate
translate-lookup s va v = offset_in-floor 0 va s.mappings v

lookup-insert :
    (m : Mapping) (lo va : ℕ) (ms : BTreeMap ℕ Mapping)
    → Fits m ms
    → From lo ms
    → lookup (BTreeMap.insert m.va m ms) va
      ≡ (if covers m va then some (image m va) else lookup ms va)
unfolding BTreeMap.insert lookup
lookup-insert m lo va [] f v = refl
lookup-insert m lo va ((k, w) ∷ ms) f v = ground (
  arith,
  apart_step m.va (m.va + m.len) k w ms,
  lookup-insert m (w.va + w.len) va ms (Fits-tail m k w ms (omega arith) f),
)

get-From :
    (va lo : ℕ) (ms : BTreeMap ℕ Mapping)
    → From lo ms
    → (BTreeMap.get va ms ≡ none)
      ⊎ ((m : Mapping) × (BTreeMap.get va ms ≡ some m) × (m.va ≡ va) × (lo ≤ va))
unfolding BTreeMap.get
get-From va lo [] v = inl refl
get-From va lo ((k, m) ∷ ms) v = elim (Bool-cases (k == va)) [
  | inl e ↦ inr (m, rw e, ground arith, ground arith)
  | inr e ↦ elim (get-From va (m.va + m.len) ms v.7) [
    | inl n ↦ inl (rw e n)
    | inr (w, g, a, b) ↦ inr (w, rw e g, a, omega arith)
  ]
]

commit-ok :
    (m : Mapping) (r : Result MapError (Unit {0}) × AddressSpace × Pmm)
    → (commit m r).0 ≡ ok tt
    → (commit m r).1.mappings ≡ BTreeMap.insert m.va m r.1.mappings
unfolding commit insert_mapping
commit-ok m (ok _, s, p) h = refl
commit-ok m (err e, s, p) h = cc

map-ok :
    (s : AddressSpace) (p : Pmm) (va pa len r : ℕ)
    → checks s va pa len ≡ ok r
    → (map va pa len s p).0 ≡ ok tt
    → (map va pa len s p).1.mappings
      ≡ BTreeMap.insert va (record { va = va; pa = pa; len = r }) s.mappings
unfolding map
map-ok s p va pa len r c h =
    rw (c, map)
      (commit-ok _ (ensure_root s p) (rw (c, map) at h)
        ∙ ap (BTreeMap.insert va _) (mappings-ensure_root s p))

commit-err :
    (m : Mapping) (r : Result MapError (Unit {0}) × AddressSpace × Pmm) (e : MapError)
    → (commit m r).0 ≡ err e
    → (r.0 ≡ err e) × (commit m r ≡ (err e, r.1, r.2))
unfolding commit
commit-err m (ok _, s, p) e h = cc
commit-err m (err x, s, p) e h = (h, ground arith)

ensure_root-err :
    (s : AddressSpace) (p : Pmm) (e : MapError)
    → (ensure_root s p).0 ≡ err e
    → ((ensure_root s p).1 ≡ s) × ((ensure_root s p).2 ≡ p)
unfolding ensure_root set_root
ensure_root-err s p e h = elim (Bool-cases (s.root == 0)) [
  | inl z ↦ rw (z, ensure_root) (go (alloc_frame p) refl (rw (z, ensure_root) at h))
  | inr z ↦ absurd (cc (rw (z, ensure_root) at h))
]
  where
    go :
        (r : Option ℕ × Pmm)
        → alloc_frame p ≡ r
        → (set_root s r).0 ≡ err e
        → ((set_root s r).1 ≡ s) × ((set_root s r).2 ≡ p)
    go (none, q) a k = (refl, ground (arith, alloc_frame-none p))
    go (some f, q) a k = cc

-- After `map` returns `Ok`, an address in the new range, of the length rounded up to pages, is
-- translated to the new physical range, and every other address as before.
pub translate-map :
    (s : AddressSpace) (p : Pmm) (va pa len x : ℕ)
    → IsValid s
    → (map va pa len s p).0 ≡ ok tt
    → translate (map va pa len s p).1 x ≡ (
        if leb va x && ltb x (va + (len + 4095) / 4096 * 4096)
        then some ((pa + (x - va)) % 2 ^ 64)
        else translate s x)
unfolding map
translate-map s p va pa len x v h = elim (Result-cases (checks s va pa len)) [
  | inr (e, c) ↦ absurd (cc (rw (c, map) at h))
  | inl (r, c) ↦
      translate-lookup (map va pa len s p).1 x (map-IsValid s p va pa len v)
      ∙ ap (λ ms. lookup ms x) (map-ok s p va pa len r c h)
      ∙ ground (
        arith,
        lookup-insert (record { va = va; pa = pa; len = r }) 0 x s.mappings
            (checks-Fits s va pa len r c) v,
        translate-lookup s x v,
        checks-rounds s va pa len r c,
      )
]

-- When `map` returns an error, the address space and the frames are as before.
pub map_error :
    (s : AddressSpace) (p : Pmm) (va pa len : ℕ) (e : MapError)
    → (map va pa len s p).0 ≡ err e
    → map va pa len s p ≡ (err e, s, p)
unfolding map
map_error s p va pa len e h = elim (Result-cases (checks s va pa len)) [
  | inr (x, c) ↦ rw (c, map) (ground (arith, rw (c, map) at h))
  | inl (r, c) ↦
      rw (c, map)
        (ground (
          arith,
          commit-err (record { va = va; pa = pa; len = r }) (ensure_root s p) e (rw (c, map) at h),
          ensure_root-err s p e,
        ))
]

lookup-remove :
    (va lo x : ℕ) (ms : BTreeMap ℕ Mapping)
    → From lo ms
    → lookup (BTreeMap.remove va ms) x ≡ elim (BTreeMap.get va ms) [
      | none ↦ lookup ms x
      | some m ↦ if covers m x then none else lookup ms x
    ]
unfolding BTreeMap.remove BTreeMap.get lookup
lookup-remove va lo x [] v = refl
lookup-remove va lo x ((k, m) ∷ ms) v = ground (
  arith,
  lookup-remove va (m.va + m.len) x ms,
  lookup_below (m.va + m.len) x ms,
  get-From va (m.va + m.len) ms,
)

-- What `unmap va` answers and leaves, by the mapping that is kept under `va`.
abbrev pub Unmapped : AddressSpace → ℕ → ℕ → Option Mapping → Option Mapping × AddressSpace → Type 0
Unmapped s va x none r = (r.0 ≡ none) × (translate r.1 x ≡ translate s x)
Unmapped s va x (some m) r =
    (r.0 ≡ some m)
    × (m.va ≡ va)
    × (translate r.1 x ≡ (if leb va x && ltb x (va + m.len) then none else translate s x))

translate_after :
    (s : AddressSpace) (va x : ℕ)
    → IsValid s
    → translate (unmap va s).1 x ≡ elim (BTreeMap.get va s.mappings) [
      | none ↦ translate s x
      | some m ↦ if covers m x then none else translate s x
    ]
unfolding unmap
translate_after s va x v = ground (
  arith,
  translate-lookup (unmap va s).1 x (unmap-IsValid va s v),
  translate-lookup s x v,
  lookup-remove va 0 x s.mappings v,
)

-- In a valid space, `unmap va` answers the mapping kept under `va`, which starts there, and afterwards
-- its addresses have no translation and every other address has the one it had; if there is no such
-- mapping, it answers `None` and every address keeps its translation.
pub translate-unmap :
    (s : AddressSpace) (va x : ℕ)
    → IsValid s
    → Unmapped s va x (BTreeMap.get va s.mappings) (unmap va s)
unfolding unmap
translate-unmap s va x v = elim (get-From va 0 s.mappings v) [
  | inl e ↦ rw e (refl, (translate_after s va x v ∙ rw e refl))
  | inr (m, e, a, b) ↦ rw e (refl, a, (translate_after s va x v ∙ rw (e, a) refl))
]

-- ===== src/Hal/BootInfo/Memory.antt =====
-- kernel/src/hal/boot_info.rs: the memory map as the list of its banks.
use hyperion_os.Base.{
  ℕ, zero, suc, ◌+◌, ◌≤◌, ◌<◌, ◌≡◌, refl, sym, ap, subst, ◌∙◌, List, [], ◌∷◌, ◌++◌, Option, none,
  some, Bool, true, false, ltb, leb, ◌&&◌, Bool-cases, inl, inr, ◌⊎◌, if◌then◌else◌, length, set,
  take, arith, length-set, length-take, take-append, take-all, leb→le, leb→gt,
}
use mathlib.Core.List.{append-nil, append_assoc}
use hyperion_os.Hal.BootInfo.{
  MemoryRegion, MemoryMap, max_memory_regions, empty, push, push_all, as_slice, largest, largest_of,
  largest_from,
}

-- The banks that have a size.
unfoldable pub sized : List MemoryRegion → List MemoryRegion
sized [] = []
sized (r ∷ rs) = if ltb 0 r.size then r ∷ sized rs else sized rs

-- The map has its eight places, and no more than that are taken.
pub record IsValid (m : MemoryMap) : Type 0 where
  pub places : length m.regions ≡ max_memory_regions
  pub few : m.len ≤ max_memory_regions

take-set :
    (n : ℕ) (xs : List MemoryRegion) (r : MemoryRegion)
    → n < length xs
    → take (n + 1) (set xs n r) ≡ take n xs ++ r ∷ []
take-set n [] r h = absurd (omega arith)
take-set zero (x ∷ xs) r h = refl
take-set (suc n) (x ∷ xs) r h =
    ap (λ k. take k (x ∷ set xs n r)) next ∙ ap (◌∷◌ x) (take-set n xs r (omega arith))
  where
    next : suc n + 1 ≡ suc (n + 1)
    next = omega arith

push-IsValid : (r : MemoryRegion) (m : MemoryMap) → IsValid m → IsValid (push r m)
unfolding push
push-IsValid r m v = elim (Bool-cases (ltb m.len max_memory_regions && ltb 0 r.size)) [
  | inl e ↦
      subst IsValid
        (sym (
          ap (λ b. if b then record { regions = set m.regions m.len r; len = m.len + 1 } else m) e))
        (record {
          places = length-set m.regions m.len r ∙ v.places;
          few = ground (arith, e, v.few);
        })
  | inr e ↦
      subst IsValid
        (sym (
          ap (λ b. if b then record { regions = set m.regions m.len r; len = m.len + 1 } else m) e))
        v
]

push-slice :
    (r : MemoryRegion) (m : MemoryMap)
    → IsValid m
    → as_slice (push r m)
      ≡ (if ltb m.len max_memory_regions && ltb 0 r.size then as_slice m ++ r ∷ [] else as_slice m)
unfolding push as_slice
push-slice r m v = elim (Bool-cases (ltb m.len max_memory_regions && ltb 0 r.size)) [
  | inl e ↦ rw e (take-set m.len m.regions r (ground (arith, e, v.places)))
  | inr e ↦ rw e refl
]

-- The bank that `largest` returns, of a first one and the others.
abbrev Greatest : MemoryRegion → List MemoryRegion → Type 0
Greatest best [] = Unit {0}
Greatest best (r ∷ rs) = (r.size ≤ best.size) × Greatest best rs

abbrev pub Among : MemoryRegion → List MemoryRegion → Type 0
Among r [] = ⊥
Among r (s ∷ ss) = (r ≡ s) ⊎ Among r ss

-- A bank that is among the first and the others, and that no one exceeds.
abbrev Chosen : MemoryRegion → List MemoryRegion → MemoryRegion → Type 0
Chosen best rs r = (best.size ≤ r.size) × Greatest r rs × Among r (best ∷ rs)

later : (best r : MemoryRegion) (rs : List MemoryRegion) → Among r rs → Among r (best ∷ rs)
later best r rs a = inr a

Chosen-next :
    (best r l : MemoryRegion) (rs : List MemoryRegion)
    → best.size ≤ r.size
    → Chosen r rs l
    → Chosen best (r ∷ rs) l
Chosen-next best r l rs h c = (omega (arith, c.0, h), (c.0, c.1), inr c.2)

Chosen-keep :
    (best r l : MemoryRegion) (rs : List MemoryRegion)
    → r.size < best.size
    → Chosen best rs l
    → Chosen best (r ∷ rs) l
Chosen-keep best r l rs h c =
    (c.0, (omega (arith, c.0, h), c.1), elim c.2 [ inl e ↦ inl e | inr a ↦ inr (inr a) ])

largest_from-Chosen :
    (best : MemoryRegion) (rs : List MemoryRegion) → Chosen best rs (largest_from best rs)
unfolding largest_from
largest_from-Chosen best [] = (omega arith, tt, inl refl)
largest_from-Chosen best (r ∷ rs) = elim (Bool-cases (leb best.size r.size)) [
  | inl e ↦
      subst (Chosen best (r ∷ rs)) (sym (ap (λ b. largest_from (if b then r else best) rs) e)) (
        Chosen-next best r (largest_from r rs) rs (leb→le best.size r.size e)
          (largest_from-Chosen r rs))
  | inr e ↦
      subst (Chosen best (r ∷ rs)) (sym (ap (λ b. largest_from (if b then r else best) rs) e)) (
        Chosen-keep best r (largest_from best rs) rs (leb→gt best.size r.size e)
          (largest_from-Chosen best rs))
]

-- What `largest` returns of a list of banks: nothing of the empty one, otherwise a bank of the list
-- that no bank of it exceeds.
abbrev pub Largest : List MemoryRegion → Option MemoryRegion → Type 0
Largest rs none = rs ≡ []
Largest rs (some r) = Among r rs × Greatest r rs

largest_of-Largest : (rs : List MemoryRegion) → Largest rs (largest_of rs)
unfolding largest_of
largest_of-Largest [] = refl
largest_of-Largest (r ∷ rs) = (c.2, (c.0, c.1))
  where
    c : Chosen r rs (largest_from r rs)
    c = largest_from-Chosen r rs

-- `largest` returns nothing exactly for an empty map, and otherwise one of the banks that no bank of the
-- map exceeds.
pub largest_lem : (m : MemoryMap) → Largest (as_slice m) (largest m)
unfolding largest
largest_lem m = largest_of-Largest (as_slice m)

length-slice : (m : MemoryMap) → IsValid m → length (as_slice m) ≡ m.len
unfolding as_slice
length-slice m v = length-take m.len m.regions ∙ omega (arith, v.places, v.few)

cut :
    (r : MemoryRegion) (m : MemoryMap) (rest : List MemoryRegion)
    → IsValid m
    → ltb m.len max_memory_regions ≡ false
    → take max_memory_regions (as_slice m ++ rest) ≡ as_slice m
cut r m rest v e =
    take-append max_memory_regions (as_slice m) rest (length-slice m v ∙ ground (arith, e, v.few))

push-step :
    (r : MemoryRegion) (m : MemoryMap) (rs : List MemoryRegion)
    → IsValid m
    → take max_memory_regions (as_slice (push r m) ++ sized rs)
      ≡ take max_memory_regions (as_slice m ++ sized (r ∷ rs))
unfolding sized
push-step r m rs v = elim (Bool-cases (ltb 0 r.size)) [
  | inr e ↦ rw e (ap (λ s. take max_memory_regions (s ++ sized rs)) (push-slice r m v ∙ unsized e))
  | inl e ↦ rw e (elim (Bool-cases (ltb m.len max_memory_regions)) [
    | inl l ↦
        ap (λ s. take max_memory_regions (s ++ sized rs)) (push-slice r m v ∙ pushed l e)
        ∙ ap (take max_memory_regions) (append_assoc (as_slice m) (r ∷ []) (sized rs))
    | inr f ↦
        ap (λ s. take max_memory_regions (s ++ sized rs)) (push-slice r m v ∙ full f)
        ∙ cut r m (sized rs) v f
        ∙ sym (cut r m (r ∷ sized rs) v f)
  ])
]
  where
    pick : Bool → List MemoryRegion
    pick b = if b then as_slice m ++ r ∷ [] else as_slice m

    unsized :
        ltb 0 r.size ≡ false → pick (ltb m.len max_memory_regions && ltb 0 r.size) ≡ as_slice m
    unsized e = ap pick {y = false} (ground (arith, e))

    pushed :
        ltb m.len max_memory_regions ≡ true
        → ltb 0 r.size ≡ true
        → pick (ltb m.len max_memory_regions && ltb 0 r.size) ≡ as_slice m ++ r ∷ []
    pushed l e = ap pick {y = true} (ground (arith, l, e))

    full :
        ltb m.len max_memory_regions ≡ false
        → pick (ltb m.len max_memory_regions && ltb 0 r.size) ≡ as_slice m
    full f = ap pick {y = false} (ground (arith, f))

-- Pushing banks onto a map with its eight places adds those that have a size, in their order, until the
-- map is full.
pub push_all_lem :
    (rs : List MemoryRegion) (m : MemoryMap)
    → IsValid m
    → as_slice (push_all rs m) ≡ take max_memory_regions (as_slice m ++ sized rs)
unfolding push_all sized
push_all_lem [] m v = sym (
    ap (take max_memory_regions) (append-nil (as_slice m))
    ∙ take-all max_memory_regions (as_slice m) (omega (arith, length-slice m v, v.few)))
push_all_lem (r ∷ rs) m v = push_all_lem rs (push r m) (push-IsValid r m v) ∙ push-step r m rs v

pub empty-IsValid : IsValid empty
unfolding empty
empty-IsValid = record { places = refl; few = omega arith }

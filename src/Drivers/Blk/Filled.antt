-- ===== src/Drivers/Blk/Filled.antt =====
-- kernel/src/drivers/virtio/blk.rs: filling the descriptors of a chain keeps the chain
-- and the free list.
use hyperion_os.Base.{
  get_or, ℕ, ◌≡◌, ◌<◌, refl, sym, ap, subst, ◌∙◌, List, [], ◌∷◌, true, false, length, get_or-set_ne,
  get_or-set_self, length-set, arith,
}
use hyperion_os.Drivers.Virtqueue.{desc_default, Desc, Virtqueue, desc_at, desc_default, has_next}
use hyperion_os.Drivers.Virtqueue.Links.{Fresh, Distinct, Chain, IsFree, Links-set, Chain-set}
use hyperion_os.Drivers.Virtqueue.Free.{Apart}
use hyperion_os.Drivers.Blk.{Slot, put, fill}

-- A request for each descriptor of the chain, with the flag NEXT on all but the last.
abbrev pub Fits : List Slot → List ℕ → Type 0
Fits [] cs = ⊥
Fits (s ∷ ss) [] = ⊥
Fits (s ∷ []) (x ∷ []) = (d : Desc) → d.flags ≡ s.flags → has_next d ≡ false
Fits (s ∷ []) (x ∷ y ∷ cs) = ⊥
Fits (s ∷ t ∷ ss) (x ∷ []) = ⊥
Fits (s ∷ t ∷ ss) (x ∷ y ∷ cs) =
    ((d : Desc) → d.flags ≡ s.flags → has_next d ≡ true) × Fits (t ∷ ss) (y ∷ cs)

at_put :
    (q : Virtqueue) (x : ℕ) (s : Slot)
    → x < length q.desc
    → desc_at (put x s q) x ≡ record (desc_at q x) { addr = s.addr; len = s.len; flags = s.flags }
unfolding put
at_put q x s b = get_or-set_self q.desc x _ desc_default b

put-IsFree :
    (q : Virtqueue) (x : ℕ) (s : Slot) (fs : List ℕ)
    → IsFree q fs
    → Fresh x fs
    → IsFree (put x s q) fs
unfolding put
put-IsFree q x s fs v f = record {
  table = length-set q.desc x _ ∙ v.table;
  small = v.small;
  counted = v.counted;
  few = v.few;
  linked = Links-set q.desc q.free_head x _ fs f v.linked;
  distinct = v.distinct;
}

-- What is left of the chain after its first descriptor is filled.
rest_put :
    (q : Virtqueue) (x y : ℕ) (s : Slot) (cs : List ℕ)
    → x < length q.desc
    → Fresh x (y ∷ cs)
    → Chain q.desc (desc_at q x).next (y ∷ cs)
    → Chain (put x s q).desc (desc_at (put x s q) x).next (y ∷ cs)
unfolding put
rest_put q x y s cs b f c =
    subst (λ n. Chain (put x s q).desc n (y ∷ cs))
      (sym (ap (λ (d : Desc). d.next) (at_put q x s b))) (Chain-set q.desc _ x _ (y ∷ cs) f c)

-- A descriptor off the chain stays.
pub off_fill :
    (ss : List Slot) (cs : List ℕ) (q : Virtqueue) (i h : ℕ)
    → Fits ss cs
    → Fresh i cs
    → Distinct cs
    → Chain q.desc h cs
    → desc_at (fill ss h q) i ≡ desc_at q i
unfolding fill put
off_fill [] cs q i h t f d c = absurd t
off_fill (s ∷ ss) [] q i h t f d c = absurd t
off_fill (s ∷ []) (x ∷ []) q i h t f d (e, b, c) =
    subst (λ k. desc_at (put k s q) i ≡ desc_at q i) (sym e)
      (get_or-set_ne q.desc x i _ desc_default (λ e. f.0 (sym e)))
off_fill (s ∷ []) (x ∷ y ∷ cs) q i h t f d c = absurd t
off_fill (s ∷ t ∷ ss) (x ∷ []) q i h u f d c = absurd u
off_fill (s ∷ t ∷ ss) (x ∷ y ∷ cs) q i h u f d (e, b, n, c) =
    subst (λ k. desc_at (fill (s ∷ t ∷ ss) k q) i ≡ desc_at q i) (sym e)
      (off_fill (t ∷ ss) (y ∷ cs) (put x s q) i _ u.1 f.1 d.1 (rest_put q x y s cs b d.0 c)
        ∙ get_or-set_ne q.desc x i _ desc_default (λ e. f.0 (sym e)))

pub length-fill :
    (ss : List Slot) (h : ℕ) (q : Virtqueue) → length (fill ss h q).desc ≡ length q.desc
unfolding fill put
length-fill [] h q = refl
length-fill (s ∷ ss) h q =
    length-fill ss (desc_at (put h s q) h).next (put h s q) ∙ length-set q.desc h _

pub size-fill : (ss : List Slot) (h : ℕ) (q : Virtqueue) → (fill ss h q).size ≡ q.size
unfolding fill put
size-fill [] h q = refl
size-fill (s ∷ ss) h q = size-fill ss (desc_at (put h s q) h).next (put h s q)

pub fill-IsFree :
    (ss : List Slot) (cs fs : List ℕ) (q : Virtqueue) (h : ℕ)
    → Fits ss cs
    → Apart cs fs
    → Distinct cs
    → Chain q.desc h cs
    → IsFree q fs
    → IsFree (fill ss h q) fs
unfolding fill
fill-IsFree [] cs fs q h t a d c v = absurd t
fill-IsFree (s ∷ ss) [] fs q h t a d c v = absurd t
fill-IsFree (s ∷ []) (x ∷ []) fs q h t a d (e, b, c) v =
    subst (λ k. IsFree (put k s q) fs) (sym e) (put-IsFree q x s fs v a.0)
fill-IsFree (s ∷ []) (x ∷ y ∷ cs) fs q h t a d c v = absurd t
fill-IsFree (s ∷ t ∷ ss) (x ∷ []) fs q h u a d c v = absurd u
fill-IsFree (s ∷ t ∷ ss) (x ∷ y ∷ cs) fs q h u a d (e, b, n, c) v =
    subst (λ k. IsFree (fill (s ∷ t ∷ ss) k q) fs) (sym e)
      (fill-IsFree (t ∷ ss) (y ∷ cs) fs (put x s q) _ u.1 a.1 d.1 (rest_put q x y s cs b d.0 c)
        (put-IsFree q x s fs v a.0))

pub fill-Chain :
    (ss : List Slot) (cs : List ℕ) (q : Virtqueue) (h : ℕ)
    → Fits ss cs
    → Distinct cs
    → Chain q.desc h cs
    → Chain (fill ss h q).desc h cs
unfolding fill
fill-Chain [] cs q h t d c = absurd t
fill-Chain (s ∷ ss) [] q h t d c = absurd t
fill-Chain (s ∷ []) (x ∷ []) q h t d (e, b, c) =
    subst (λ k. Chain (put k s q).desc h (x ∷ [])) (sym e)
      (
        e,
        omega (arith, length-fill (s ∷ []) x q, b),
        t (desc_at (put x s q) x) (ap (λ (d : Desc). d.flags) (at_put q x s b)),
      )
fill-Chain (s ∷ []) (x ∷ y ∷ cs) q h t d c = absurd t
fill-Chain (s ∷ t ∷ ss) (x ∷ []) q h u d c = absurd u
fill-Chain (s ∷ t ∷ ss) (x ∷ y ∷ cs) q h u d (e, b, n, c) =
    subst (λ k. Chain (fill (s ∷ t ∷ ss) k q).desc h (x ∷ y ∷ cs)) (sym e)
      (
        e,
        omega (arith, length-fill (s ∷ t ∷ ss) x q, b),
        u.0 _ (ap (λ (d : Desc). d.flags) kept ∙ ap (λ (d : Desc). d.flags) (at_put q x s b)),
        subst (λ n. Chain (fill (s ∷ t ∷ ss) x q).desc n (y ∷ cs))
            (sym (ap (λ (d : Desc). d.next) kept))
            (fill-Chain (t ∷ ss) (y ∷ cs) (put x s q) _ u.1 d.1 (rest_put q x y s cs b d.0 c)),
      )
  where
    kept : desc_at (fill (s ∷ t ∷ ss) x q) x ≡ desc_at (put x s q) x
    kept = off_fill (t ∷ ss) (y ∷ cs) (put x s q) x _ u.1 d.0 d.1 (rest_put q x y s cs b d.0 c)

-- The descriptors hold the addresses, the lengths and the flags.
abbrev pub Held : List Desc → List Slot → List ℕ → Type 0
Held d [] cs = Unit {0}
Held d (s ∷ ss) [] = ⊥
Held d (s ∷ ss) (x ∷ cs) =
    ((get_or d x desc_default).addr ≡ s.addr)
    × ((get_or d x desc_default).len ≡ s.len)
    × ((get_or d x desc_default).flags ≡ s.flags)
    × Held d ss cs

pub fill-Held :
    (ss : List Slot) (cs : List ℕ) (q : Virtqueue) (h : ℕ)
    → Fits ss cs
    → Distinct cs
    → Chain q.desc h cs
    → Held (fill ss h q).desc ss cs
unfolding fill
fill-Held [] cs q h t d c = absurd t
fill-Held (s ∷ ss) [] q h t d c = absurd t
fill-Held (s ∷ []) (x ∷ []) q h t d (e, b, c) =
    subst (λ k. Held (put k s q).desc (s ∷ []) (x ∷ [])) (sym e)
      (
        ap (λ (d : Desc). d.addr) (at_put q x s b),
        ap (λ (d : Desc). d.len) (at_put q x s b),
        ap (λ (d : Desc). d.flags) (at_put q x s b),
        tt,
      )
fill-Held (s ∷ []) (x ∷ y ∷ cs) q h t d c = absurd t
fill-Held (s ∷ t ∷ ss) (x ∷ []) q h u d c = absurd u
fill-Held (s ∷ t ∷ ss) (x ∷ y ∷ cs) q h u d (e, b, n, c) =
    subst (λ k. Held (fill (s ∷ t ∷ ss) k q).desc (s ∷ t ∷ ss) (x ∷ y ∷ cs)) (sym e)
      (
        ap (λ (d : Desc). d.addr) kept,
        ap (λ (d : Desc). d.len) kept,
        ap (λ (d : Desc). d.flags) kept,
        fill-Held (t ∷ ss) (y ∷ cs) (put x s q) _ u.1 d.1 (rest_put q x y s cs b d.0 c),
      )
  where
    kept :
        desc_at (fill (s ∷ t ∷ ss) x q) x
        ≡ record (desc_at q x) { addr = s.addr; len = s.len; flags = s.flags }
    kept =
        off_fill (t ∷ ss) (y ∷ cs) (put x s q) x _ u.1 d.0 d.1 (rest_put q x y s cs b d.0 c)
        ∙ at_put q x s b

-- ===== src/Drivers/Virtqueue/Free.antt =====
-- kernel/src/drivers/virtio/queue.rs: freeing a chain puts its descriptors back on the free list.
use hyperion_os.Base.{
  ℕ, zero, suc, ◌+◌, ◌-◌, ◌<◌, ◌≤◌, ◌≡◌, refl, sym, ap, subst, ◌∙◌, List, [], ◌∷◌, Option, some,
  length, set, take, drop, get_or-set_self, length-set, length-take, length-drop, arith,
}
use hyperion_os.Drivers.Virtqueue.{
  Desc, Virtqueue, desc_default, desc_at, vring_desc_f_next, alloc_desc, link, link_next, link_from,
  chain_from, alloc_chain, free_one, free_from, free_chain,
}
use hyperion_os.Drivers.Virtqueue.Links.{
  Fresh, Distinct, Links, Chain, IsFree, Links-set, Chain-set,
}
use hyperion_os.Drivers.Virtqueue.Chains.{Allocated, alloc_chain_lem}

-- No descriptor of the first list is in the second.
abbrev pub Apart : List ℕ → List ℕ → Type 0
Apart [] ys = Unit {0}
Apart (x ∷ xs) ys = Fresh x ys × Apart xs ys

abbrev pub rev_append : List ℕ → List ℕ → List ℕ
rev_append [] ys = ys
rev_append (x ∷ xs) ys = rev_append xs (x ∷ ys)

Apart-cons : (x : ℕ) (xs ys : List ℕ) → Fresh x xs → Apart xs ys → Apart xs (x ∷ ys)
Apart-cons x [] ys f a = tt
Apart-cons x (y ∷ xs) ys f a = (((λ e. f.0 (sym e)), a.0), Apart-cons x xs ys f.1 a.1)

free_one-IsFree :
    (q : Virtqueue) (x : ℕ) (fs : List ℕ)
    → IsFree q fs
    → Fresh x fs
    → x < length q.desc
    → suc (length fs) ≤ q.size
    → IsFree (free_one x q) (x ∷ fs)
unfolding free_one
free_one-IsFree q x fs v f b h = record {
  table = length-set q.desc x _ ∙ v.table;
  small = v.small;
  counted = omega (arith, v.counted, v.small);
  few = omega (arith, v.counted, v.small);
  linked = (
    refl,
    omega (arith, length-set q.desc x d),
    subst (λ n. Links (set q.desc x d) n fs)
        (sym (ap (λ (e : Desc). e.next) (get_or-set_self q.desc x d desc_default b)))
        (Links-set q.desc q.free_head x d fs f v.linked),
  );
  distinct = (f, v.distinct);
}
  where
    d : Desc
    d = record (desc_at q x) { flags = vring_desc_f_next; next = q.free_head }

-- The queue that a free leaves.
abbrev pub Freed : List ℕ → Option Virtqueue → Type 0
Freed fs o = (q : Virtqueue) × (o ≡ some q) × IsFree q fs

free_from_lem :
    (fuel idx : ℕ) (q : Virtqueue) (cs fs : List ℕ)
    → Chain q.desc idx cs
    → Distinct cs
    → Apart cs fs
    → IsFree q fs
    → length cs ≤ fuel
    → length cs + length fs ≤ q.size
    → Freed (rev_append cs fs) (free_from fuel idx q)
unfolding free_from free_one
free_from_lem fuel idx q [] fs c d a v h s = elim c [ ]
free_from_lem zero idx q (x ∷ cs) fs c d a v h s = absurd (omega arith)
free_from_lem (suc fuel) idx q (x ∷ []) fs (e, b, c) d a v h s =
    subst (λ i. Freed (x ∷ fs) (free_from (suc fuel) i q)) (sym e)
      (rw c (free_one x q, refl, free_one-IsFree q x fs v a.0 b (omega arith)))
free_from_lem (suc fuel) idx q (x ∷ y ∷ cs) fs (e, b, n, c) d a v h s =
    subst (λ i. Freed (rev_append (x ∷ y ∷ cs) fs) (free_from (suc fuel) i q)) (sym e)
      (rw n (
        free_from_lem fuel (desc_at q x).next (free_one x q) (y ∷ cs) (x ∷ fs)
          (Chain-set q.desc _ x _ (y ∷ cs) d.0 c) d.1 (Apart-cons x (y ∷ cs) fs d.0 a.1)
          (free_one-IsFree q x fs v a.0 b (omega arith)) (omega arith) (omega arith)))

-- Freeing a chain of distinct descriptors that are not free puts each of them back on the free list,
-- the last of the chain first; the loop comes to an end.
pub free_chain_lem :
    (head : ℕ) (q : Virtqueue) (cs fs : List ℕ)
    → Chain q.desc head cs
    → Distinct cs
    → Apart cs fs
    → IsFree q fs
    → length cs + length fs ≤ q.size
    → Freed (rev_append cs fs) (free_chain head q)
unfolding free_chain
free_chain_lem head q cs fs c d a v s = free_from_lem q.size head q cs fs c d a v (omega arith) s

Fresh-take : (x n : ℕ) (xs : List ℕ) → Fresh x xs → Fresh x (take n xs)
Fresh-take x zero xs f = tt
Fresh-take x (suc n) [] f = tt
Fresh-take x (suc n) (y ∷ xs) f = (f.0, Fresh-take x n xs f.1)

Fresh-drop : (x n : ℕ) (xs : List ℕ) → Fresh x xs → Fresh x (drop n xs)
Fresh-drop x zero xs f = f
Fresh-drop x (suc n) [] f = tt
Fresh-drop x (suc n) (y ∷ xs) f = Fresh-drop x n xs f.1

Distinct-take : (n : ℕ) (xs : List ℕ) → Distinct xs → Distinct (take n xs)
Distinct-take zero xs d = tt
Distinct-take (suc n) [] d = tt
Distinct-take (suc n) (x ∷ xs) d = (Fresh-take x n xs d.0, Distinct-take n xs d.1)

Apart-take-drop : (n : ℕ) (xs : List ℕ) → Distinct xs → Apart (take n xs) (drop n xs)
Apart-take-drop zero xs d = tt
Apart-take-drop (suc n) [] d = tt
Apart-take-drop (suc n) (x ∷ xs) d = (Fresh-drop x n xs d.0, Apart-take-drop n xs d.1)

size-link_from : (rounds prev : ℕ) (q : Virtqueue) → (link_from rounds prev q).1.size ≡ q.size
unfolding link_from link_next alloc_desc link
size-link_from zero prev q = refl
size-link_from (suc rounds) prev q =
    ground (arith, size-link_from rounds q.free_head (link prev q.free_head (alloc_desc q).1))

pub size-alloc_chain : (n : ℕ) (q : Virtqueue) → (alloc_chain n q).1.size ≡ q.size
unfolding alloc_chain chain_from alloc_desc
size-alloc_chain n q = ground (arith, size-link_from (n - 1) q.free_head (alloc_desc q).1)

-- In a valid queue, a chain of `n` descriptors that are free can be allocated and freed again: every
-- descriptor that was free is free afterwards, the chain's in reverse before the others.
pub free_chain-alloc_chain :
    (n : ℕ) (q : Virtqueue) (free : List ℕ)
    → IsFree q free
    → 0 < n
    → n ≤ length free
    → ((head : ℕ) × ((alloc_chain n q).0 ≡ some head)
        × Freed (rev_append (take n free) (drop n free)) (free_chain head (alloc_chain n q).1))
free_chain-alloc_chain n q free v p h = go (alloc_chain_lem n q free v p h)
  where
    go :
        Allocated n free (alloc_chain n q)
        → ((head : ℕ) × ((alloc_chain n q).0 ≡ some head)
            × Freed (rev_append (take n free) (drop n free)) (free_chain head (alloc_chain n q).1))
    go (head, e, c, w) = (
      head,
      e,
      free_chain_lem head (alloc_chain n q).1 (take n free) (drop n free) c
          (Distinct-take n free v.distinct) (Apart-take-drop n free v.distinct) w
          (omega (
            arith,
            size-alloc_chain n q,
            length-take n free,
            length-drop n free,
            v.counted,
            v.few,
          )),
    )

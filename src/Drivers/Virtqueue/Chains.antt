-- ===== src/Drivers/Virtqueue/Chains.antt =====
-- kernel/src/drivers/virtio/queue.rs: allocating a chain takes descriptors off the free list, and
-- freeing it puts them back.
use hyperion_os.Base.{
  ℕ, zero, suc, ◌-◌, ◌^◌, ◌<◌, ◌≤◌, ◌≡◌, ◌≢◌, refl, sym, ap, subst, ◌∙◌, List, [], ◌∷◌, Option,
  none, some, Bool, true, false, if◌then◌else◌, length, set, take, drop, get_or-set_ne,
  get_or-set_self, length-set, arith, bit_or, bit_and, ◌⊎◌,
}
use hyperion_os.Drivers.Virtqueue.{
  Desc, Virtqueue, desc_default, desc_at, vring_desc_f_next, has_next, alloc_desc, link, link_next,
  link_from, chain_from, alloc_chain,
}
use hyperion_os.Drivers.Virtqueue.Links.{Fresh, Chain, IsFree, Links-set}

-- The queue without its free descriptor `x`.
abbrev pub took : ℕ → Virtqueue → Virtqueue
took x q = record q {
  free_head = (desc_at q x).next;
  num_free = q.num_free - 1;
  desc = set q.desc x desc_default;
}

-- `alloc_desc` takes the first descriptor off the free list and clears it.
pub alloc_desc_lem :
    (q : Virtqueue) (x : ℕ) (free : List ℕ)
    → IsFree q (x ∷ free)
    → alloc_desc q ≡ (some x, took x q)
unfolding alloc_desc
alloc_desc_lem q x free v = ground (arith, v.linked.0, v.counted)

took-IsFree : (q : Virtqueue) (x : ℕ) (free : List ℕ) → IsFree q (x ∷ free) → IsFree (took x q) free
took-IsFree q x free v = record {
  table = length-set q.desc x desc_default ∙ v.table;
  small = v.small;
  counted = omega (arith, v.counted);
  few = omega (arith, v.few);
  linked = Links-set q.desc _ x desc_default free v.distinct.0 v.linked.2;
  distinct = v.distinct.1;
}

-- Where the loop of `alloc_chain` stands: `prev` is the last of the chain, and no longer free.
record Linking (q : Virtqueue) (prev : ℕ) (free : List ℕ) : Type 0 where
  valid : IsFree q free
  fresh : Fresh prev free
  bound : prev < length q.desc
  clear : (desc_at q prev).flags ≡ 0

link-IsFree :
    (q : Virtqueue) (prev next : ℕ) (free : List ℕ)
    → IsFree q free
    → Fresh prev free
    → IsFree (link prev next q) free
unfolding link
link-IsFree q prev next free v f = record {
  table = length-set q.desc prev _ ∙ v.table;
  small = v.small;
  counted = v.counted;
  few = v.few;
  linked = Links-set q.desc q.free_head prev _ free f v.linked;
  distinct = v.distinct;
}

-- One round of the loop: `x` comes off the free list and behind `prev`.
abbrev round : Virtqueue → ℕ → ℕ → Virtqueue
round q prev x = link prev x (took x q)

module _ (q : Virtqueue) (prev x : ℕ) (free : List ℕ) (l : Linking q prev (x ∷ free)) where
  length-step : length (round q prev x).desc ≡ length q.desc
  unfolding link
  length-step = length-set _ prev _ ∙ length-set q.desc x desc_default

  step-other : (i : ℕ) → x ≢ i → prev ≢ i → desc_at (round q prev x) i ≡ desc_at q i
  unfolding link
  step-other i a b =
      get_or-set_ne _ prev i _ desc_default b ∙ get_or-set_ne q.desc x i _ desc_default a

  step-new : desc_at (round q prev x) x ≡ desc_default
  unfolding link
  step-new =
      get_or-set_ne _ prev x _ desc_default l.fresh.0
      ∙ get_or-set_self q.desc x desc_default desc_default l.valid.linked.1

  step-prev :
      ((desc_at (round q prev x) prev).next ≡ x) × (has_next (desc_at (round q prev x) prev) ≡ true)
  unfolding link has_next
  step-prev = ground (
    arith,
    l.clear,
    length-set q.desc x desc_default,
    get_or-set_ne q.desc x prev desc_default desc_default (λ e. l.fresh.0 (sym e)),
    get_or-set_self (set q.desc x desc_default) prev
        (record (desc_at (took x q) prev) {
          flags = bit_or (desc_at (took x q) prev).flags vring_desc_f_next;
          next = x;
        })
        desc_default,
  )

  step-Linking : Linking (round q prev x) x free
  step-Linking = record {
    valid = link-IsFree (took x q) prev x free (took-IsFree q x free l.valid) l.fresh.1;
    fresh = l.valid.distinct.0;
    bound = omega (arith, length-step, l.valid.linked.1);
    clear = ap (λ (d : Desc). d.flags) step-new;
  }

-- What the rounds of the loop leave: a chain of `prev` and the first `rounds` free descriptors, the
-- other descriptors as they were.
record Linked (q : Virtqueue) (prev : ℕ) (free : List ℕ) (rounds : ℕ) (r : Bool × Virtqueue)
    : Type 0 where
  done : r.0 ≡ true
  rest : IsFree r.1 (drop rounds free)
  chain : Chain r.1.desc prev (prev ∷ take rounds free)
  same_length : length r.1.desc ≡ length q.desc
  frame : (i : ℕ) → Fresh i (prev ∷ free) → desc_at r.1 i ≡ desc_at q i

Linked-round :
    (q : Virtqueue) (prev x : ℕ) (free : List ℕ) (rounds : ℕ) (r : Bool × Virtqueue)
    → Linking q prev (x ∷ free)
    → Linked (round q prev x) x free rounds r
    → Linked q prev (x ∷ free) (suc rounds) r
Linked-round q prev x free rounds r l ih = record {
  done = ih.done;
  rest = ih.rest;
  chain = (
    refl,
    omega (arith, ih.same_length, length-step q prev x free l, l.bound),
    subst (λ d. has_next d ≡ true) (sym kept) (step-prev q prev x free l).1,
    subst (λ n. Chain r.1.desc n (x ∷ take rounds free))
        (sym (ap (λ (d : Desc). d.next) kept ∙ (step-prev q prev x free l).0)) ih.chain,
  );
  same_length = ih.same_length ∙ length-step q prev x free l;
  frame =
      λ i f. ih.frame i f.1 ∙ step-other q prev x free l i (λ e. f.1.0 (sym e)) (λ e. f.0 (sym e));
}
  where
    kept : desc_at r.1 prev ≡ desc_at (round q prev x) prev
    kept = ih.frame prev l.fresh

no_flags : (d : Desc) → d.flags ≡ 0 → has_next d ≡ false
unfolding has_next
no_flags d e = ground (arith, ap (λ (f : ℕ). bit_and f vring_desc_f_next) e)

link_from_lem :
    (rounds prev : ℕ) (q : Virtqueue) (free : List ℕ)
    → Linking q prev free
    → rounds ≤ length free
    → Linked q prev free rounds (link_from rounds prev q)
unfolding link_from link_next
link_from_lem zero prev q free l h = record {
  done = refl;
  rest = l.valid;
  chain = (refl, l.bound, no_flags (desc_at q prev) l.clear);
  same_length = refl;
  frame = λ i f. refl;
}
link_from_lem (suc rounds) prev q [] l h = absurd (omega arith)
link_from_lem (suc rounds) prev q (x ∷ free) l h = rw (alloc_desc_lem q x free l.valid) (
    Linked-round q prev x free rounds _ l
      (link_from_lem rounds x (round q prev x) free (step-Linking q prev x free l) (omega arith)))

start-Linking :
    (q : Virtqueue) (x : ℕ) (free : List ℕ) → IsFree q (x ∷ free) → Linking (took x q) x free
start-Linking q x free v = record {
  valid = took-IsFree q x free v;
  fresh = v.distinct.0;
  bound = omega (arith, length-set q.desc x desc_default, v.linked.1);
  clear =
      ap (λ (d : Desc). d.flags) (get_or-set_self q.desc x desc_default desc_default v.linked.1);
}

-- What a chain of `n` descriptors is given: its head, the chain, and the rest of the free list.
abbrev pub Allocated : ℕ → List ℕ → Option ℕ × Virtqueue → Type 0
Allocated n free r =
    (head : ℕ) × (r.0 ≡ some head) × Chain r.1.desc head (take n free) × IsFree r.1 (drop n free)

chain-Allocated :
    (n x : ℕ) (q : Virtqueue) (free : List ℕ) (r : Bool × Virtqueue)
    → Linked (took x q) x free n r
    → Allocated (suc n) (x ∷ free) (if r.0 then some x else none, r.1)
chain-Allocated n x q free r l = (x, ap (λ b. if b then some x else none) l.done, l.chain, l.rest)

chain_from-some :
    (n x : ℕ) (q : Virtqueue)
    → chain_from (suc n) (some x, q)
      ≡ (if (link_from n x q).0 then some x else none, (link_from n x q).1)
unfolding chain_from
chain_from-some n x q =
    ap (λ k. (if (link_from k x q).0 then some x else none, (link_from k x q).1)) less
  where
    less : suc n - 1 ≡ n
    less = omega arith

alloc_chain-chain_from :
    (n x : ℕ) (q : Virtqueue) (free : List ℕ)
    → IsFree q (x ∷ free)
    → suc n ≤ length (x ∷ free)
    → alloc_chain (suc n) q ≡ chain_from (suc n) (some x, took x q)
unfolding alloc_chain
alloc_chain-chain_from n x q free v h =
    ground (arith, v.few, v.small, v.counted, alloc_desc_lem q x free v)

-- In a valid queue, a request for `n` descriptors that are free gets a chain of the first `n` of the
-- free list, in its order; the rest stays free, in its order.
pub alloc_chain_lem :
    (n : ℕ) (q : Virtqueue) (free : List ℕ)
    → IsFree q free
    → 0 < n
    → n ≤ length free
    → Allocated n free (alloc_chain n q)
alloc_chain_lem n q [] v p h = absurd (omega arith)
alloc_chain_lem zero q (x ∷ free) v p h = absurd (omega arith)
alloc_chain_lem (suc n) q (x ∷ free) v p h =
    subst (Allocated (suc n) (x ∷ free))
      (sym (alloc_chain-chain_from n x q free v h ∙ chain_from-some n x (took x q)))
      (chain-Allocated n x q free (link_from n x (took x q))
        (link_from_lem n x (took x q) free (start-Linking q x free v) (omega arith)))

-- A valid queue with fewer than `n` free descriptors refuses a request for `n`, below 2^16, and so
-- does every queue one for none; the queue stays as it was.
pub alloc_chain-none :
    (n : ℕ) (q : Virtqueue) (free : List ℕ)
    → IsFree q free
    → n < 2 ^ 16
    → (n ≡ 0) ⊎ (length free < n)
    → alloc_chain n q ≡ (none, q)
unfolding alloc_chain
alloc_chain-none n q free v h k = ground (arith, v.counted)

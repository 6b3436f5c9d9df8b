-- ===== src/Drivers/Virtqueue/Same.antt =====
-- kernel/src/drivers/virtio/queue.rs: the operations on the rings leave the descriptors.
use hyperion_os.Base.{
  ◌+◌, ◌≤◌, if_both, ℕ, ◌≡◌, refl, sym, ap, subst, ◌∙◌, List, [], ◌∷◌, Option, none, some, not,
  ◌==◌, bit_and, length, arith,
}
use hyperion_os.Drivers.Virtqueue.{
  free_chain, Desc, Virtqueue, push_avail, wait_used, pop_used, has_next, vring_desc_f_next,
}
use hyperion_os.Drivers.Virtqueue.Free.{Apart, Freed, rev_append, free_chain_lem}
use hyperion_os.Drivers.Virtqueue.Links.{Distinct, Chain, Links, IsFree}

pub has_next-flags :
    (d : Desc) (flags : ℕ)
    → d.flags ≡ flags
    → has_next d ≡ not (bit_and flags vring_desc_f_next == 0)
unfolding has_next
has_next-flags d flags e = ap (λ f. not (bit_and f vring_desc_f_next == 0)) e

-- The queues that hold the same descriptors.
abbrev pub Same : Virtqueue → Virtqueue → Type 0
Same q p =
    (p.size ≡ q.size) × (p.desc ≡ q.desc) × (p.free_head ≡ q.free_head) × (p.num_free ≡ q.num_free)

pub push_avail-Same : (head : ℕ) (q : Virtqueue) → Same q (push_avail head q)
unfolding push_avail
push_avail-Same head q = (refl, refl, refl, refl)

pub wait_used-Same : (rings : List (List ℕ)) (q : Virtqueue) → Same q (wait_used rings q).1
unfolding wait_used pop_used
wait_used-Same [] q =
    if_both {A = Option (ℕ × ℕ) × Virtqueue} (λ r. Same q r.1) _ (λ e. (refl, refl, refl, refl))
      (λ e. (refl, refl, refl, refl))
wait_used-Same (ring ∷ rings) q =
    by_poll (pop_used q) pop_used-Same (wait_used-Same rings (record q { used = ring }))
  where
    pop_used-Same : Same q (pop_used q).1
    pop_used-Same =
        if_both {A = Option (ℕ × ℕ) × Virtqueue} (λ r. Same q r.1) _ (λ e. (refl, refl, refl, refl))
          (λ e. (refl, refl, refl, refl))

    by_poll :
        (r : Option (ℕ × ℕ) × Virtqueue)
        → Same q r.1
        → Same q (wait_used rings (record q { used = ring })).1
        → Same q
            (elim r.0 as (λ o. Option (ℕ × ℕ) × Virtqueue) [
              | some e ↦ (some e, r.1)
              | none ↦ wait_used rings (record q { used = ring })
            ]).1
    by_poll (none, p) k later = later
    by_poll (some e, p) k later = k

pub Same-IsFree : (q p : Virtqueue) (fs : List ℕ) → Same q p → IsFree q fs → IsFree p fs
Same-IsFree q p fs (s, d, h, n) v = record {
  table = ap length d ∙ v.table ∙ sym s;
  small = omega (arith, v.small);
  counted = n ∙ v.counted;
  few = omega (arith, v.few);
  linked =
      subst (λ t. Links t p.free_head fs) (sym d) (subst (λ i. Links q.desc i fs) (sym h) v.linked);
  distinct = v.distinct;
}

-- A chain that the device has answered can be freed.
pub free_chain-wait_used :
    (head : ℕ) (rings : List (List ℕ)) (q p : Virtqueue) (cs fs : List ℕ)
    → Same p q
    → Chain p.desc head cs
    → Distinct cs
    → Apart cs fs
    → IsFree p fs
    → length cs + length fs ≤ p.size
    → Freed (rev_append cs fs) (free_chain head (wait_used rings q).1)
free_chain-wait_used head rings q p cs fs s c d t v h =
    free_chain_lem head _ cs fs (subst (λ l. Chain l head cs) (sym (later.1 ∙ s.1)) c) d t
      (Same-IsFree q _ fs later (Same-IsFree p q fs s v)) (omega (arith, h, later.0, s.0))
  where
    later : Same q (wait_used rings q).1
    later = wait_used-Same rings q

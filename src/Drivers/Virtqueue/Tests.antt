-- ===== src/Drivers/Virtqueue/Tests.antt =====
-- kernel/src/drivers/virtio/queue.rs: the theorems at a queue of four descriptors.
use hyperion_os.Drivers.Virtqueue.{pop_used}
use hyperion_os.Drivers.Virtqueue.{wait_used, le32}
use hyperion_os.Base.{
  ℕ, ◌≡◌, refl, some, none, List, [], ◌∷◌, arith, inr, if◌then◌else◌, ◌==◌, ◌+◌, ◌*◌, ◌%◌, ◌^◌,
  length,
}
use hyperion_os.Drivers.Virtqueue.{
  Virtqueue, new, alloc_chain, free_chain, push_avail, le16, desc_default, has_next,
}
use hyperion_os.Drivers.Virtqueue.Links.{IsFree, Chain, new-IsFree}
use hyperion_os.Drivers.Virtqueue.Chains.{Allocated, alloc_chain_lem, alloc_chain-none}
use hyperion_os.Drivers.Virtqueue.Free.{Freed, free_chain_lem, free_chain-alloc_chain}
use hyperion_os.Drivers.Virtqueue.Rings.{avail_entry, avail_idx, push_avail_lem}
use hyperion_os.Drivers.Virtqueue.Used.{drain, entries, read_to, drain_lem}

abbrev four : Virtqueue
four = new 4

abbrev all_four : List ℕ
all_four = 0 ∷ 1 ∷ 2 ∷ 3 ∷ []

new-IsFree_example : IsFree four all_four
new-IsFree_example = new-IsFree 4 (omega arith)

four-IsFree : IsFree four all_four
four-IsFree = new-IsFree 4 (omega arith)

alloc_chain_lem_example : Allocated 3 all_four (alloc_chain 3 four)
alloc_chain_lem_example = alloc_chain_lem 3 four all_four four-IsFree (omega arith) (omega arith)

alloc_chain-none_example : alloc_chain 5 four ≡ (none, four)
alloc_chain-none_example =
    alloc_chain-none 5 four all_four four-IsFree (omega arith) (inr (omega arith))

free_chain-alloc_chain_example :
    (head : ℕ) × ((alloc_chain 3 four).0 ≡ some head)
    × Freed (2 ∷ 1 ∷ 0 ∷ 3 ∷ []) (free_chain head (alloc_chain 3 four).1)
free_chain-alloc_chain_example =
    free_chain-alloc_chain 3 four all_four four-IsFree (omega arith) (omega arith)

-- A queue of two descriptors, the first of them a chain of its own and the second free.
abbrev half : Virtqueue
half = record {
  size = 2;
  desc = desc_default ∷ record { addr = 0; len = 0; flags = 1; next = 0 } ∷ [];
  avail = [];
  used = [];
  free_head = 1;
  num_free = 1;
  last_used_idx = 0;
}

half-IsFree : IsFree half (1 ∷ [])
half-IsFree = record {
  table = refl;
  small = omega arith;
  counted = refl;
  few = omega arith;
  linked = (refl, omega arith, tt);
  distinct = (tt, tt);
}

half-Chain : Chain half.desc 0 (0 ∷ [])
unfolding has_next
half-Chain = (refl, omega arith, refl)

free_chain_lem_example : Freed (0 ∷ 1 ∷ []) (free_chain 0 half)
free_chain_lem_example =
    free_chain_lem 0 half (0 ∷ []) (1 ∷ []) half-Chain (tt, tt)
      (((λ e. absurd (omega (arith, e))), tt), tt) half-IsFree (omega arith)

sized : four.size ≡ 2 ^ 2
unfolding new
sized = refl

four_avail : length four.avail ≡ 4 + 2 * four.size + 2
unfolding new
four_avail = refl

push_avail_lem_example :
    (avail_entry (push_avail 3 four) 0
      ≡ (if 0 == avail_idx four % four.size then 3 else avail_entry four 0))
    × (avail_idx (push_avail 3 four) ≡ (avail_idx four + 1) % 2 ^ 16)
    × (push_avail 3 four ≡ record four { avail = (push_avail 3 four).avail })
push_avail_lem_example = push_avail_lem 2 3 0 four sized four_avail (omega arith)

-- The device has returned two chains.
abbrev returned : Virtqueue
returned = record {
  size = 2;
  desc = [];
  avail = [];
  used = 0 ∷ 0 ∷ 2 ∷ 0 ∷ 1 ∷ 0 ∷ 0 ∷ 0 ∷ 9 ∷ 0 ∷ 0 ∷ 0 ∷ 0 ∷ 0 ∷ 0 ∷ 0 ∷ 5 ∷ 0 ∷ 0 ∷ 0 ∷ [];
  free_head = 0;
  num_free = 0;
  last_used_idx = 0;
}

two_ahead : le16 returned.used 2 ≡ 2
unfolding le16
two_ahead = refl

drain_lem_example :
    drain 3 returned ≡ (entries returned 0 2, read_to (le16 returned.used 2) returned)
drain_lem_example =
    drain_lem 1 2 3 returned refl (omega arith) (omega arith) (omega arith) two_ahead

abbrev idle : Virtqueue
idle = record returned { used = 0 ∷ 0 ∷ 0 ∷ 0 ∷ [] }

waited : (wait_used (returned.used ∷ []) idle).0 ≡ some (1, 9)
unfolding wait_used pop_used le16 le32
waited = refl

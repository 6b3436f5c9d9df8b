-- ===== src/Drivers/Transmit.antt =====
-- kernel/src/drivers/virtio/net.rs: sending a frame over the transmit queue. The address of the
-- heap buffer is an argument, and the device is one: a function from the bytes of the buffer and the
-- queue to what it leaves in the used ring between two polls.
use hyperion_os.Base.{
  ℕ, ◌+◌, ◌%◌, ◌^◌, ◌≤◌, ◌≡◌, refl, ap, subst, ◌∙◌, List, [], ◌∷◌, ◌++◌, Option, none, some, ltb,
  length, replicate, if◌then◌else◌, arith, if_both,
}
use hyperion_os.Base.Result.{Result, ok, err}
use hyperion_os.Drivers.Virtqueue.{Virtqueue, alloc_chain, free_chain, push_avail, wait_used}
use hyperion_os.Drivers.Virtqueue.Links.{Distinct, Chain, IsFree}
use hyperion_os.Drivers.Virtqueue.Chains.{Allocated, alloc_chain_lem}
use hyperion_os.Drivers.Virtqueue.Free.{Apart, Freed, rev_append, size-alloc_chain}
use hyperion_os.Drivers.Virtqueue.Same.{free_chain-wait_used, Same, push_avail-Same, has_next-flags}
use hyperion_os.Drivers.Blk.{Slot, fill}
use hyperion_os.Drivers.Blk.Filled.{Fits, fill-IsFree, fill-Chain, size-fill}

abbrev mtu : ℕ
mtu = 1514

abbrev hdr_bytes : ℕ
hdr_bytes = 12

data NetError : Type 0 where
  frame_too_large : NetError
  queue_full : NetError

abbrev Device : Type 0
Device = List ℕ → Virtqueue → List (List ℕ)

-- What `send` returned, and the queue; `none` means that the call still spins.
abbrev Sent : Type 0
Sent = Option (Result NetError ℕ × Virtqueue)

-- The header is zeroed.
unfoldable with_header : List ℕ → List ℕ
with_header frame = replicate hdr_bytes 0 ++ frame

-- The one descriptor of a frame; its length is `buf.len() as u32`.
slot : ℕ → List ℕ → Slot
slot addr frame = record { addr = addr; len = length (with_header frame) % 2 ^ 32; flags = 0 }

-- The queue as the device is notified.
post : ℕ → List ℕ → ℕ → Virtqueue → Virtqueue
post addr frame head q = push_avail head (fill (slot addr frame ∷ []) head q)

-- `q.free_chain(head)`, and the length of the frame is returned.
finish : ℕ → List ℕ → Virtqueue → Sent
finish head frame q = elim (free_chain head q) [
  | none ↦ none
  | some q' ↦ some (ok (length frame), q')
]

-- `q.wait_used()` and what follows.
complete : ℕ → List ℕ → List (List ℕ) → Virtqueue → Sent
complete head frame rings q = elim (wait_used rings q).0 [
  | none ↦ none
  | some e ↦ finish head frame (wait_used rings q).1
]

transmit : Device → ℕ → List ℕ → Virtqueue → Sent
transmit device addr frame q = elim (alloc_chain 1 q).0 [
  | none ↦ some (err queue_full, (alloc_chain 1 q).1)
  | some head ↦
      let q' = post addr frame head (alloc_chain 1 q).1 in
      complete head frame (device (with_header frame) q') q'
]

send : Device → ℕ → List ℕ → Virtqueue → Sent
send device addr frame q =
    if ltb mtu (length frame) then some (err frame_too_large, q) else transmit device addr frame q

-- The queue as the device is notified, where `x` is the first free descriptor.
abbrev posted : ℕ → List ℕ → ℕ → Virtqueue → Virtqueue
posted addr frame x q = post addr frame x (alloc_chain 1 q).1

-- The call returned `n`, in a queue with the free list `fs`.
abbrev Done : ℕ → List ℕ → Sent → Type 0
Done n fs o = (q : Virtqueue) × (o ≡ some (ok n, q)) × IsFree q fs

finish-Done :
    (head : ℕ) (frame : List ℕ) (q : Virtqueue) (fs : List ℕ)
    → Freed fs (free_chain head q)
    → Done (length frame) fs (finish head frame q)
unfolding finish
finish-Done head frame q fs (p, e, v) = rw (e, finish) (p, refl, v)

slot-Fits : (addr : ℕ) (frame : List ℕ) (x : ℕ) → Fits (slot addr frame ∷ []) (x ∷ [])
unfolding slot
slot-Fits addr frame x d e = has_next-flags d _ e

complete-Done :
    (head : ℕ) (frame : List ℕ) (rings : List (List ℕ)) (q p : Virtqueue) (cs fs : List ℕ)
    (used : ℕ × ℕ)
    → (wait_used rings q).0 ≡ some used
    → Same p q
    → Chain p.desc head cs
    → Distinct cs
    → Apart cs fs
    → IsFree p fs
    → length cs + length fs ≤ p.size
    → Done (length frame) (rev_append cs fs) (complete head frame rings q)
unfolding complete
complete-Done head frame rings q p cs fs used w s c d t v h =
    rw (w, complete)
      (finish-Done head frame (wait_used rings q).1 _
        (free_chain-wait_used head rings q p cs fs s c d t v h))

posted-Same :
    (addr : ℕ) (frame : List ℕ) (x : ℕ) (q : Virtqueue)
    → Same (fill (slot addr frame ∷ []) x (alloc_chain 1 q).1) (posted addr frame x q)
unfolding post
posted-Same addr frame x q = push_avail-Same x _

-- A frame of at most 1514 bytes, sent on a valid queue with a free descriptor `x` and taken by the
-- device while the call waits, is sent in full, and the descriptor is free again.
send_lem :
    (device : Device) (addr : ℕ) (frame : List ℕ) (q : Virtqueue) (x : ℕ) (fs : List ℕ)
    (used : ℕ × ℕ)
    → length frame ≤ mtu
    → IsFree q (x ∷ fs)
    → (wait_used (device (with_header frame) (posted addr frame x q)) (posted addr frame x q)).0
      ≡ some used
    → Done (length frame) (x ∷ fs) (send device addr frame q)
unfolding send transmit
send_lem device addr frame q x fs used small v w =
    if_both (Done (length frame) (x ∷ fs)) (ltb mtu (length frame))
      (λ e. absurd (ground (arith, e, small)))
      (λ e. go (alloc_chain_lem 1 q (x ∷ fs) v (omega arith) (omega arith)))
  where
    go :
        Allocated 1 (x ∷ fs) (alloc_chain 1 q)
        → Done (length frame) (x ∷ fs) (transmit device addr frame q)
    go (head, e, c, free) =
        rw (e ∙ ap some c.0, transmit)
          (complete-Done x frame _ (posted addr frame x q)
            (fill (slot addr frame ∷ []) x (alloc_chain 1 q).1) (x ∷ []) fs used w
            (posted-Same addr frame x q)
            (fill-Chain (slot addr frame ∷ []) (x ∷ []) _ x (slot-Fits addr frame x) (tt, tt) chain)
            (tt, tt) (v.distinct.0, tt)
            (fill-IsFree (slot addr frame ∷ []) (x ∷ []) fs _ x (slot-Fits addr frame x)
              (v.distinct.0, tt) (tt, tt) chain free)
            (omega (
              arith,
              v.counted,
              v.few,
              size-fill (slot addr frame ∷ []) x (alloc_chain 1 q).1,
              size-alloc_chain 1 q,
            )))
      where
        chain : Chain (alloc_chain 1 q).1.desc x (x ∷ [])
        chain = subst (λ h. Chain (alloc_chain 1 q).1.desc h (x ∷ [])) c.0 c

-- ===== src/Drivers/Blk/Served.antt =====
-- kernel/src/drivers/virtio/blk.rs: a request that the device answers gives its descriptors back.
use hyperion_os.Base.{
  if◌then◌else◌, ◌≢◌, ◌*◌, ◌%◌, inr, ℕ, ◌≡◌, ◌^◌, ◌<◌, ap, List, [], ◌∷◌, Option, none, some,
  length, arith, ◌==◌,
}
use hyperion_os.Base.Result.{Result, ok, err}
use hyperion_os.Drivers.Virtqueue.{Virtqueue, alloc_chain}
use hyperion_os.Drivers.Virtqueue.Links.{Chain, IsFree}
use hyperion_os.Drivers.Virtqueue.Chains.{alloc_chain-none}
use hyperion_os.Drivers.Virtqueue.Same.{Same}
use hyperion_os.Drivers.Blk.{
  Slot, read_sectors, write_sectors, sector_size, slots, post, Buffers, Answer, Device, Outcome,
  do_request, BlkError,
}
use hyperion_os.Drivers.Blk.Filled.{Held}

-- The queue as the device is notified, where `x` is the first free descriptor.
abbrev pub posted : Buffers → ℕ → ℕ → ℕ → Virtqueue → Virtqueue
posted b ty n x q = post b ty n x (alloc_chain 3 q).1

-- What the device leaves.
abbrev pub answer : Device → Buffers → ℕ → ℕ → ℕ → List ℕ → ℕ → Virtqueue → Answer
answer device b ty sector n bytes x q =
    device (record { ty = ty; reserved = 0; sector = sector }) bytes (posted b ty n x q)

-- The call returned a result and the bytes that the device left in the data buffer, in a queue with
-- the free list `fs`; the result is success if the status byte is 0 and an error of the device if not.
abbrev pub Served : Answer → List ℕ → Outcome → Type 0
Served a fs o =
    (r : Result BlkError (Unit {0})) × (q : Virtqueue) × (o ≡ some ((r, a.contents), q))
    × (a.code ≡ 0 → r ≡ ok tt)
    × (a.code ≢ 0 → r ≡ err BlkError.device_error)
    × IsFree q fs

-- What the device is asked: the header in 16 bytes and the data, which it writes for a read, both
-- followed by a further descriptor, and the status byte, which it writes.
abbrev pub asked : Buffers → ℕ → ℕ → List Slot
asked b ty n =
    record { addr = b.header; len = 16; flags = 1 }
    ∷ record { addr = b.data_buf; len = n * 512 % 2 ^ 32; flags = if ty == 0 then 3 else 1 }
    ∷ record { addr = b.status; len = 1; flags = 2 }
    ∷ []

-- The descriptors are chained in the queue of which the device is notified, and ask it this.
abbrev pub Asked : List Slot → Virtqueue → ℕ → List ℕ → Type 0
Asked slots q head cs = Chain q.desc head cs × Held q.desc slots cs

-- A valid queue with fewer than three free descriptors refuses the request; the data and the queue
-- stay as they were.
pub do_request_full :
    (device : Device) (b : Buffers) (ty sector n : ℕ) (bytes : List ℕ) (q : Virtqueue)
    (free : List ℕ)
    → IsFree q free
    → length free < 3
    → do_request device b ty sector n bytes q ≡ some ((err BlkError.queue_full, bytes), q)
unfolding do_request
do_request_full device b ty sector n bytes q free v h =
    rw (ap (λ (r : Option ℕ × Virtqueue). r.0) refused, do_request)
      (ap (λ (r : Option ℕ × Virtqueue). some ((err BlkError.queue_full, bytes), r.1)) refused)
  where
    refused : alloc_chain 3 q ≡ (none, q)
    refused = alloc_chain-none 3 q free v (omega arith) (inr h)

-- A buffer shorter than the sectors is refused by both calls, before anything is allocated.
sectors_short :
    (device : Device) (b : Buffers) (sector n : ℕ) (buf : List ℕ) (q : Virtqueue)
    → length buf < n * sector_size % 2 ^ 64
    → (read_sectors device b sector n buf q ≡ some ((err BlkError.buffer_too_small, buf), q))
      × (write_sectors device b sector n buf q ≡ some ((err BlkError.buffer_too_small, buf), q))
unfolding read_sectors write_sectors
sectors_short device b sector n buf q h = (ground (arith, h), ground (arith, h))

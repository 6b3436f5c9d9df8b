-- ===== src/Drivers/Blk.antt =====
-- kernel/src/drivers/virtio/blk.rs: the requests of a block device over its virtqueue. The
-- addresses of the request's three buffers are arguments, and the device is one: a function from
-- what it is given, the header, the data and the queue, to what it leaves in memory.
pub mod Filled
pub mod Served
mod Tests
use hyperion_os.Base.{
  bit_or, set, ℕ, ◌*◌, ◌%◌, ◌^◌, List, [], ◌∷◌, Option, none, some, ltb, ◌==◌, if◌then◌else◌,
  length, take,
}
use hyperion_os.Base.Result.{Result, ok, err}
use hyperion_os.Drivers.Virtqueue.{
  Desc, Virtqueue, desc_at, vring_desc_f_next, vring_desc_f_write, alloc_chain, free_chain,
  push_avail, wait_used,
}

abbrev pub virtio_blk_t_in : ℕ
virtio_blk_t_in = 0

abbrev pub virtio_blk_t_out : ℕ
virtio_blk_t_out = 1

abbrev pub virtio_blk_s_ok : ℕ
virtio_blk_s_ok = 0

abbrev pub sector_size : ℕ
sector_size = 512

pub record ReqHeader : Type 0 where
  pub ty : ℕ
  pub reserved : ℕ
  pub sector : ℕ

pub data BlkError : Type 0 where
  buffer_too_small : BlkError
  queue_full : BlkError
  device_error : BlkError

-- Where the header, the data and the status byte are.
pub record Buffers : Type 0 where
  pub header : ℕ
  pub data_buf : ℕ
  pub status : ℕ

-- What the device leaves: the used ring at each poll, the data and the status byte.
pub record Answer : Type 0 where
  pub rings : List (List ℕ)
  pub contents : List ℕ
  pub code : ℕ

abbrev pub Device : Type 0
Device = ReqHeader → List ℕ → Virtqueue → Answer

-- The address, the length and the flags that a descriptor is given.
pub record Slot : Type 0 where
  pub addr : ℕ
  pub len : ℕ
  pub flags : ℕ

-- `q.desc[idx].addr`, `len` and `flags` are set; `next` stays.
pub put : ℕ → Slot → Virtqueue → Virtqueue
put idx s q = record q {
  desc = set q.desc idx (record (desc_at q idx) { addr = s.addr; len = s.len; flags = s.flags });
}

-- The walk along the chain, with `idx = q.desc[idx].next` between two descriptors.
pub fill : List Slot → ℕ → Virtqueue → Virtqueue
fill [] idx q = q
fill (s ∷ slots) idx q = fill slots (desc_at (put idx s q) idx).next (put idx s q)

-- The header is 16 bytes long; the length of the data is `(n * SECTOR_SIZE) as u32`.
pub slots : Buffers → ℕ → ℕ → List Slot
slots b ty n =
    record { addr = b.header; len = 16; flags = vring_desc_f_next }
    ∷ record {
      addr = b.data_buf;
      len = n * sector_size % 2 ^ 32;
      flags =
          if ty == virtio_blk_t_in
          then bit_or vring_desc_f_next vring_desc_f_write
          else vring_desc_f_next;
    }
    ∷ record { addr = b.status; len = 1; flags = vring_desc_f_write }
    ∷ []

-- The queue as the device is notified.
pub post : Buffers → ℕ → ℕ → ℕ → Virtqueue → Virtqueue
post b ty n head q = push_avail head (fill (slots b ty n) head q)

-- The outcome of a request, the buffer and the queue; `none` means that the call still spins.
abbrev pub Outcome : Type 0
Outcome = Option ((Result BlkError (Unit {0}) × List ℕ) × Virtqueue)

abbrev pub verdict : Answer → Result BlkError (Unit {0}) × List ℕ
verdict a = (if a.code == virtio_blk_s_ok then ok tt else err device_error, a.contents)

-- `q.free_chain(head)` and the test of the status byte.
pub finish : ℕ → Answer → Virtqueue → Outcome
finish head a q = elim (free_chain head q) [ none ↦ none | some q' ↦ some (verdict a, q') ]

-- `q.wait_used()` and what follows.
pub complete : ℕ → Answer → Virtqueue → Outcome
complete head a q = elim (wait_used a.rings q).0 [
  | none ↦ none
  | some e ↦ finish head a (wait_used a.rings q).1
]

pub do_request : Device → Buffers → ℕ → ℕ → ℕ → List ℕ → Virtqueue → Outcome
do_request device b ty sector n data_in q = elim (alloc_chain 3 q).0 [
  | none ↦ some ((err queue_full, data_in), (alloc_chain 3 q).1)
  | some head ↦
      let q' = post b ty n head (alloc_chain 3 q).1 in
      complete head (device (record { ty = ty; reserved = 0; sector = sector }) data_in q') q'
]

pub read_sectors : Device → Buffers → ℕ → ℕ → List ℕ → Virtqueue → Outcome
read_sectors device b sector n buf q =
    if ltb (length buf) (n * sector_size % 2 ^ 64)
    then some ((err buffer_too_small, buf), q)
    else do_request device b virtio_blk_t_in sector n buf q

-- The request works on a copy of the first bytes; `buf` itself stays.
pub write_sectors : Device → Buffers → ℕ → ℕ → List ℕ → Virtqueue → Outcome
write_sectors device b sector n buf q =
    if ltb (length buf) (n * sector_size % 2 ^ 64)
    then some ((err buffer_too_small, buf), q)
    else do_request device b virtio_blk_t_out sector n (take (n * sector_size % 2 ^ 64) buf) q

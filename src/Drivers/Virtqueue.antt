-- ===== src/Drivers/Virtqueue.antt =====
-- kernel/src/drivers/virtio/queue.rs: a split virtqueue. The rings are byte vectors, as in the
-- source; the device writes the used ring. The fences order the writes for the device and change
-- no state. An index of a valid queue is in range, so the default of `get_or` is never read.
pub mod Links
pub mod Chains
pub mod Free
pub mod Rings
pub mod Used
pub mod Same
mod Tests
use hyperion_os.Base.{
  ℕ, zero, suc, ◌+◌, ◌-◌, ◌*◌, ◌/◌, ◌%◌, ◌^◌, List, [], ◌∷◌, Option, none, some, Bool, true, false,
  not, ◌==◌, ltb, ◌||◌, if◌then◌else◌, bit_and, bit_or, get_or, set, replicate,
}

pub record Desc : Type 0 where
  pub addr : ℕ
  pub len : ℕ
  pub flags : ℕ
  pub next : ℕ

abbrev pub desc_default : Desc
desc_default = record { addr = 0; len = 0; flags = 0; next = 0 }

abbrev pub vring_desc_f_next : ℕ
vring_desc_f_next = 1

abbrev pub vring_desc_f_write : ℕ
vring_desc_f_write = 2

pub record Virtqueue : Type 0 where
  pub size : ℕ
  pub desc : List Desc
  pub avail : List ℕ
  pub used : List ℕ
  pub free_head : ℕ
  pub num_free : ℕ
  pub last_used_idx : ℕ

-- `for i in 0..size`: the free descriptors from `i` on, `rounds` of them. `i + 1` wraps at 16 bits.
unfoldable pub free_descs : ℕ → ℕ → ℕ → List Desc
free_descs size zero i = []
free_descs size (suc rounds) i =
    record {
      addr = 0;
      len = 0;
      flags = vring_desc_f_next;
      next = if ltb ((i + 1) % 2 ^ 16) size then (i + 1) % 2 ^ 16 else 0;
    }
    ∷ free_descs size rounds (i + 1)

-- The source asserts that `size` is a power of two.
unfoldable pub new : ℕ → Virtqueue
new size = record {
  size = size;
  desc = free_descs size size 0;
  avail = replicate (4 + 2 * size + 2) 0;
  used = replicate (4 + 8 * size + 2) 0;
  free_head = 0;
  num_free = size;
  last_used_idx = 0;
}

abbrev pub desc_at : Virtqueue → ℕ → Desc
desc_at q i = get_or q.desc i desc_default

unfoldable pub alloc_desc : Virtqueue → Option ℕ × Virtqueue
alloc_desc q = if q.num_free == 0 then (none, q) else (
  some q.free_head,
  record q {
    free_head = (desc_at q q.free_head).next;
    num_free = q.num_free - 1;
    desc = set q.desc q.free_head desc_default;
  },
)

-- `desc[prev].flags |= NEXT; desc[prev].next = next`.
unfoldable pub link : ℕ → ℕ → Virtqueue → Virtqueue
link prev next q = record q {
  desc = set q.desc prev (record (desc_at q prev) {
    flags = bit_or (desc_at q prev).flags vring_desc_f_next;
    next = next;
  });
}

-- `let next = self.alloc_desc()?` in the loop of `alloc_chain`; the function is the rest of the
-- loop, and `false` is the early return of `None`.
unfoldable pub link_next :
    (ℕ → Virtqueue → Bool × Virtqueue) → ℕ → Option ℕ × Virtqueue → Bool × Virtqueue
link_next loop prev (none, q) = (false, q)
link_next loop prev (some next, q) = loop next (link prev next q)

-- `for _ in 1..n`, with the rounds left.
unfoldable pub link_from : ℕ → ℕ → Virtqueue → Bool × Virtqueue
link_from zero prev q = (true, q)
link_from (suc rounds) prev q = link_next (link_from rounds) prev (alloc_desc q)

-- `let head = self.alloc_desc()?` and what follows.
unfoldable pub chain_from : ℕ → Option ℕ × Virtqueue → Option ℕ × Virtqueue
chain_from n (none, q) = (none, q)
chain_from n (some head, q) =
    let (done, q') = link_from (n - 1) head q in (if done then some head else none, q')

-- `n as u16` drops the high bits.
unfoldable pub alloc_chain : ℕ → Virtqueue → Option ℕ × Virtqueue
alloc_chain n q =
    if ltb q.num_free (n % 2 ^ 16) || n == 0 then (none, q) else chain_from n (alloc_desc q)

pub has_next : Desc → Bool
has_next d = not (bit_and d.flags vring_desc_f_next == 0)

-- The body of the loop of `free_chain`.
pub free_one : ℕ → Virtqueue → Virtqueue
free_one idx q = record q {
  desc = set q.desc idx (record (desc_at q idx) { flags = vring_desc_f_next; next = q.free_head });
  free_head = idx;
  num_free = (q.num_free + 1) % 2 ^ 16;
}

-- `loop`, on fuel; `none` means that the fuel ran out.
pub free_from : ℕ → ℕ → Virtqueue → Option Virtqueue
free_from zero idx q = none
free_from (suc fuel) idx q =
    let rest = free_from fuel (desc_at q idx).next (free_one idx q) in
    if has_next (desc_at q idx) then rest else some (free_one idx q)

-- A chain has no more descriptors than the table.
pub free_chain : ℕ → Virtqueue → Option Virtqueue
free_chain head q = free_from q.size head q

-- `u16::from_le_bytes` and `u32::from_le_bytes` of the bytes at `off`.
unfoldable pub le16 : List ℕ → ℕ → ℕ
le16 bytes off = get_or bytes off 0 + 256 * get_or bytes (off + 1) 0

unfoldable pub le32 : List ℕ → ℕ → ℕ
le32 bytes off =
    get_or bytes off 0
    + 256 * get_or bytes (off + 1) 0
    + 65536 * get_or bytes (off + 2) 0
    + 16777216 * get_or bytes (off + 3) 0

-- Two bytes of `x.to_le_bytes()` at `off`.
unfoldable pub put16 : List ℕ → ℕ → ℕ → List ℕ
put16 bytes off x = set (set bytes off (x % 256)) (off + 1) (x / 256 % 256)

unfoldable pub push_avail : ℕ → Virtqueue → Virtqueue
push_avail head q =
    let avail_idx = le16 q.avail 2 in
    let slot = bit_and avail_idx (q.size - 1) in
    record q { avail = put16 (put16 q.avail (4 + slot * 2) head) 2 ((avail_idx + 1) % 2 ^ 16) }

unfoldable pub pop_used : Virtqueue → Option (ℕ × ℕ) × Virtqueue
pop_used q =
    let device_idx = le16 q.used 2 in
    let slot = bit_and q.last_used_idx (q.size - 1) in
    let off = 4 + slot * 8 in
    if device_idx == q.last_used_idx then (none, q) else (
      some (le32 q.used off, le32 q.used (off + 4)),
      record q { last_used_idx = (q.last_used_idx + 1) % 2 ^ 16 },
    )

-- `wait_used` spins while the device writes the used ring: the list is what it leaves there between
-- two polls. `none` means that the call still spins.
unfoldable pub wait_used : List (List ℕ) → Virtqueue → Option (ℕ × ℕ) × Virtqueue
wait_used [] q = pop_used q
wait_used (used ∷ later) q = elim (pop_used q).0 [
  | some e ↦ (some e, (pop_used q).1)
  | none ↦ wait_used later (record q { used = used })
]

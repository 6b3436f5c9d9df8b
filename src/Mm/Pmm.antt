-- ===== src/Mm/Pmm.antt =====
-- kernel/src/mm/pmm.rs: the bitmap allocator of 4 KiB frames. The state is `PMM` under its lock
-- with the two counters. `usize` is 64 bits wide. The bank that `hal::info()` reports and the
-- address of `__kernel_end` are arguments of `init`.
pub mod Bitmap
pub mod Valid
pub mod Alloc
pub mod Init
mod Tests
use hyperion_os.Base.{
  ℕ, Bool, zero, suc, ◌+◌, ◌-◌, ◌*◌, ◌/◌, ◌%◌, ◌^◌, min, bit_and, bit_or, List, Option, none, some,
  ltb, leb, ◌==◌, ◌&&◌, not, if◌then◌else◌, get_or, set, replicate,
}

abbrev pub page_size : ℕ
page_size = 4096

abbrev pub max_managed_bytes : ℕ
max_managed_bytes = 256 * 1024 * 1024

abbrev pub max_frames : ℕ
max_frames = max_managed_bytes / page_size

abbrev pub bitmap_words : ℕ
bitmap_words = max_frames / 64

pub record Pmm : Type 0 where
  pub bitmap : List ℕ
  pub base : ℕ
  pub num_frames : ℕ
  pub next_hint : ℕ
  pub free_frames : ℕ
  pub total_bytes : ℕ

-- A bank that `hal::info().memory.largest()` returns.
pub record Bank : Type 0 where
  pub base : ℕ
  pub size : ℕ

-- `x.saturating_add(y)` on `u64`.
abbrev pub saturating_add : ℕ → ℕ → ℕ
saturating_add a b = min (a + b) (2 ^ 64 - 1)

-- The first frame: the page at or above the kernel's end, if that lies in the bank.
pub pool_base : Bank → ℕ → ℕ
pool_base b kend =
    let bank_end = saturating_add b.base b.size in
    let raw_base = if leb b.base kend && ltb kend bank_end then kend else b.base in
    bit_and ((raw_base + page_size - 1) % 2 ^ 64) (2 ^ 64 - page_size)

pub pool_frames : Bank → ℕ → ℕ
pool_frames b kend =
    let usable_bytes = min (saturating_add b.base b.size - pool_base b kend) max_managed_bytes in
    min (usable_bytes / page_size) max_frames

pub init : Option Bank → ℕ → Pmm → Pmm
init none kend p = p
init (some b) kend p = record {
  bitmap = replicate bitmap_words 0;
  base = pool_base b kend;
  num_frames = pool_frames b kend;
  next_hint = 0;
  free_frames = pool_frames b kend;
  total_bytes = pool_frames b kend * page_size;
}

-- `bitmap[word] & (1u64 << bit) == 0` for the word and the bit of frame `idx`.
pub is_clear : List ℕ → ℕ → Bool
is_clear bitmap idx = bit_and (get_or bitmap (idx / 64) 0) (2 ^ (idx % 64)) == 0

-- `bitmap[word] |= 1u64 << bit`.
pub set_bit : List ℕ → ℕ → List ℕ
set_bit bitmap idx = set bitmap (idx / 64) (bit_or (get_or bitmap (idx / 64) 0) (2 ^ (idx % 64)))

-- `bitmap[word] &= !(1u64 << bit)`.
pub clear_bit : List ℕ → ℕ → List ℕ
clear_bit bitmap idx =
    set bitmap (idx / 64) (bit_and (get_or bitmap (idx / 64) 0) (2 ^ 64 - 1 - 2 ^ (idx % 64)))

-- The body of the loop of `alloc_frame` once it has found the clear bit `idx`.
pub take_frame : Pmm → ℕ → Option ℕ × Pmm
take_frame p idx = (
  some ((p.base + idx * page_size) % 2 ^ 64),
  record p {
    bitmap = set_bit p.bitmap idx;
    next_hint = (idx + 1) % p.num_frames;
    free_frames = (p.free_frames + 2 ^ 64 - 1) % 2 ^ 64;
  },
)

-- `for i in 0..n`, with the rounds left and the next `i`.
pub alloc_from : Pmm → ℕ → ℕ → Option ℕ × Pmm
alloc_from p zero i = (none, p)
alloc_from p (suc rounds) i =
    let rest = alloc_from p rounds (i + 1) in
    let idx = (p.next_hint + i) % p.num_frames in
    if is_clear p.bitmap idx then take_frame p idx else rest

pub alloc_frame : Pmm → Option ℕ × Pmm
alloc_frame p = if p.num_frames == 0 then (none, p) else alloc_from p p.num_frames 0

pub free_frame : ℕ → Pmm → Pmm
free_frame addr p =
    if ltb addr p.base
    then p
    else (let off = addr - p.base in
        let idx = off / page_size in
        if not (off % page_size == 0)
        then p
        else if leb p.num_frames idx
        then p
        else if is_clear p.bitmap idx
        then p
        else record p {
          bitmap = clear_bit p.bitmap idx;
          free_frames = (p.free_frames + 1) % 2 ^ 64;
        })

pub free_bytes : Pmm → ℕ
free_bytes p = p.free_frames * page_size % 2 ^ 64

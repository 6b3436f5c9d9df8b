-- ===== src/Mm/Pmm/Valid.antt =====
-- kernel/src/mm/pmm.rs: the invariant of the allocator and the operations that keep it.
use hyperion_os.Base.{
  ℕ, zero, suc, ◌+◌, ◌-◌, ◌*◌, ◌/◌, ◌%◌, ◌^◌, ◌<◌, ◌≤◌, ◌≡◌, refl, List, true, false, ◌==◌,
  if◌then◌else◌, length, length-set, arith,
}
use hyperion_os.Mm.Pmm.{
  Pmm, page_size, max_frames, bitmap_words, is_clear, set_bit, clear_bit, take_frame, alloc_from,
  alloc_frame, free_frame,
}
use hyperion_os.Mm.Pmm.Bitmap.{is_clear-set_bit, is_clear-clear_bit}
use native.Mathlib.Nat.{mod-lt}

-- The clear bits below `n`.
abbrev pub count_clear : List ℕ → ℕ → ℕ
count_clear m zero = 0
count_clear m (suc n) = (if is_clear m n then 1 else 0) + count_clear m n

pub record IsValid (p : Pmm) : Type 0 where
  pub words : length p.bitmap ≡ bitmap_words
  pub frames : p.num_frames ≤ max_frames
  pub hint : p.next_hint ≤ p.num_frames
  pub counted : p.free_frames ≡ count_clear p.bitmap p.num_frames
  pub fits : p.base + p.num_frames * page_size ≤ 2 ^ 64
  pub aligned : p.base % page_size ≡ 0
  pub total : p.total_bytes ≡ p.num_frames * page_size

-- Two bitmaps that differ in the bit `i` alone.
module _ (m m' : List ℕ) (i : ℕ) where
  count_clear-same :
      (n : ℕ)
      → ((j : ℕ) → is_clear m' j ≡ (if i == j then false else is_clear m j))
      → n ≤ i
      → count_clear m' n ≡ count_clear m n
  count_clear-same zero h k = refl
  count_clear-same (suc n) h k = ground (arith, h n, count_clear-same n h (omega arith))

  pub count_clear-less :
      (n : ℕ)
      → ((j : ℕ) → is_clear m' j ≡ (if i == j then false else is_clear m j))
      → i < n
      → is_clear m i ≡ true
      → count_clear m' n + 1 ≡ count_clear m n
  count_clear-less zero h k c = elim k [ ]
  count_clear-less (suc n) h k c = ground (arith, h n, count_clear-same n h, count_clear-less n h)

-- Setting a clear bit takes one from the count.
pub count_clear-set_bit :
    (m : List ℕ) (i n : ℕ)
    → i / 64 < length m
    → i < n
    → is_clear m i ≡ true
    → count_clear (set_bit m i) n + 1 ≡ count_clear m n
count_clear-set_bit m i n w k c =
    count_clear-less m (set_bit m i) i n (λ j. is_clear-set_bit m i j w) k c

-- Clearing a set bit adds one.
pub count_clear-clear_bit :
    (m : List ℕ) (i n : ℕ)
    → i / 64 < length m
    → i < n
    → is_clear m i ≡ false
    → count_clear (clear_bit m i) n ≡ count_clear m n + 1
count_clear-clear_bit m i n w k c = omega (
  arith,
  count_clear-less (clear_bit m i) m i n back k (ground (arith, is_clear-clear_bit m i i w)),
)
  where
    back : (j : ℕ) → is_clear m j ≡ (if i == j then false else is_clear (clear_bit m i) j)
    back j = ground (arith, is_clear-clear_bit m i j w)

pub count_clear-le : (m : List ℕ) (n : ℕ) → count_clear m n ≤ n
count_clear-le m zero = omega arith
count_clear-le m (suc n) = ground (arith, count_clear-le m n)

length-set_bit : (m : List ℕ) (i : ℕ) → length (set_bit m i) ≡ length m
unfolding set_bit
length-set_bit m i = length-set m _ _

length-clear_bit : (m : List ℕ) (i : ℕ) → length (clear_bit m i) ≡ length m
unfolding clear_bit
length-clear_bit m i = length-set m _ _

pub take_frame-IsValid :
    (p : Pmm) (idx : ℕ)
    → IsValid p
    → idx < p.num_frames
    → is_clear p.bitmap idx ≡ true
    → IsValid (take_frame p idx).1
unfolding take_frame
take_frame-IsValid p idx v h c = ground (
  arith,
  length-set_bit p.bitmap idx,
  count_clear-set_bit p.bitmap idx p.num_frames,
  count_clear-le p.bitmap p.num_frames,
)

alloc_from-IsValid :
    (p : Pmm) (rounds i : ℕ) → IsValid p → 0 < p.num_frames → IsValid (alloc_from p rounds i).1
unfolding alloc_from
alloc_from-IsValid p zero i v h = v
alloc_from-IsValid p (suc rounds) i v h = ground (
  arith,
  alloc_from-IsValid p rounds (i + 1) v h,
  take_frame-IsValid p ((p.next_hint + i) % p.num_frames) v,
  mod-lt (p.next_hint + i) h,
)

-- `alloc_frame` keeps the invariant, whether it finds a frame or not.
pub alloc_frame-IsValid : (p : Pmm) → IsValid p → IsValid (alloc_frame p).1
unfolding alloc_frame
alloc_frame-IsValid p v = ground (arith, alloc_from-IsValid p p.num_frames 0 v)

-- `free_frame` keeps the invariant for every address, also one that was never handed out.
pub free_frame-IsValid : (addr : ℕ) (p : Pmm) → IsValid p → IsValid (free_frame addr p)
unfolding free_frame
free_frame-IsValid addr p v = ground (
  arith,
  length-clear_bit p.bitmap ((addr - p.base) / page_size),
  count_clear-clear_bit p.bitmap ((addr - p.base) / page_size) p.num_frames,
  count_clear-le (clear_bit p.bitmap ((addr - p.base) / page_size)) p.num_frames,
)

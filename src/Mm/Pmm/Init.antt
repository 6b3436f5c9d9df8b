-- ===== src/Mm/Pmm/Init.antt =====
-- kernel/src/mm/pmm.rs, `init`: the pool that is cut out of the largest bank.
use hyperion_os.Base.{
  ℕ, zero, suc, ◌+◌, ◌-◌, ◌*◌, ◌/◌, ◌%◌, ◌^◌, ◌≤◌, ◌≡◌, refl, sym, some, true, if◌then◌else◌, leb,
  ltb, ◌&&◌, get_or, replicate, length-replicate, arith, bit_and, ap,
}
use Prim.Native.Nat.{bit_and-bitwise}
use hyperion_os.Base.Bits.{page_mask}
use hyperion_os.Mm.Pmm.{Pmm, Bank, page_size, init, pool_base, pool_frames, is_clear, bitmap_words}
use hyperion_os.Mm.Pmm.Valid.{IsValid, count_clear}

get_or-replicate : (n i : ℕ) → get_or {A = ℕ} (replicate n 0) i 0 ≡ 0
get_or-replicate zero i = refl
get_or-replicate (suc n) zero = refl
get_or-replicate (suc n) (suc i) = get_or-replicate n i

is_clear-replicate : (n j : ℕ) → is_clear (replicate n 0) j ≡ true
unfolding is_clear
is_clear-replicate n j = ground (
  arith,
  get_or-replicate n (j / 64),
  ap (λ (w : ℕ). bit_and w (2 ^ (j % 64))) (get_or-replicate n (j / 64)),
  and_zero (2 ^ (j % 64)),
)
  where
    and_zero : (b : ℕ) → bit_and 0 b ≡ 0
    and_zero b = bit_and-bitwise 0 b

count_clear-replicate : (w n : ℕ) → count_clear (replicate w 0) n ≡ n
count_clear-replicate w zero = refl
count_clear-replicate w (suc n) = ground (arith, is_clear-replicate w n, count_clear-replicate w n)

-- `base` is the first page boundary at or above the kernel's end, or above the start of the bank.
pool_base_lem :
    (b : Bank) (kend : ℕ)
    → b.base + b.size + page_size ≤ 2 ^ 64
    → (pool_base b kend
        ≡ ((if leb b.base kend && ltb kend (b.base + b.size) then kend else b.base) + 4095)
          / 4096
          * 4096)
unfolding pool_base
pool_base_lem b kend h = ground (
  arith,
  page_mask
      (((if leb b.base kend && ltb kend (b.base + b.size) then kend else b.base) + 4095) % 2 ^ 64),
)

-- `init` on a bank that ends a page below the top of the address space gives a valid allocator:
-- every managed frame is free, the pool starts at or above the bank's start, or at or above the
-- kernel's end if that lies inside the bank, and it ends inside the bank.
pub init-IsValid :
    (b : Bank) (kend : ℕ) (p : Pmm)
    → b.base + b.size + page_size ≤ 2 ^ 64
    → IsValid (init (some b) kend p)
      × ((init (some b) kend p).free_frames ≡ (init (some b) kend p).num_frames)
      × ((if leb b.base kend && ltb kend (b.base + b.size) then kend else b.base)
          ≤ (init (some b) kend p).base)
      × ((init (some b) kend p).num_frames * page_size
          ≤ b.base + b.size - (init (some b) kend p).base)
unfolding init pool_frames
init-IsValid b kend p h = (
  record {
    words = length-replicate {A = ℕ} bitmap_words 0;
    frames = omega arith;
    hint = omega arith;
    counted = sym (count_clear-replicate bitmap_words (pool_frames b kend));
    fits = ground (arith, pool_base_lem b kend h);
    aligned = ground (arith, pool_base_lem b kend h);
    total = refl;
  },
  refl,
  ground (arith, pool_base_lem b kend h),
  ground (arith, pool_base_lem b kend h),
)

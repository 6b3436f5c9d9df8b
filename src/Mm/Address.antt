-- ===== src/Mm/Address.antt =====
-- kernel/src/mm/address.rs: physical addresses as 64-bit words. Additions wrap, as in the
-- release profile.
mod Tests
use hyperion_os.Base.{ℕ, ◌+◌, ◌-◌, ◌*◌, ◌/◌, ◌%◌, ◌^◌, ◌<◌, ◌≤◌, ◌≡◌, ap, ◌∙◌, bit_and, arith}
use hyperion_os.Base.Bits.{bit_and-align, pow_lt, pow_pos}

-- `!(align - 1)` on `u64`.
pub align_mask : ℕ → ℕ
align_mask align = 2 ^ 64 - 1 - (align + 2 ^ 64 - 1) % 2 ^ 64

pub align_down : ℕ → ℕ → ℕ
align_down addr align = bit_and addr (align_mask align)

pub align_up : ℕ → ℕ → ℕ
align_up addr align = bit_and ((addr + align + 2 ^ 64 - 1) % 2 ^ 64) (align_mask align)

align_mask-pow : (k : ℕ) → k < 64 → align_mask (2 ^ k) ≡ 2 ^ 64 - 2 ^ k
unfolding align_mask
align_mask-pow k h = omega (arith, pow_lt k 64 h, pow_pos k)

mask-align : (k x : ℕ) → k < 64 → x < 2 ^ 64 → bit_and x (align_mask (2 ^ k)) ≡ x / 2 ^ k * 2 ^ k
mask-align k x h b =
    ap (bit_and x) (align_mask-pow k h) ∙ bit_and-align k (64 - k) x (omega (arith, h)) b

-- For an alignment of 2^k, k < 64, `align_down` gives the greatest multiple of it up to the address,
-- and `align_up` the least one from the address on, as long as that does not pass the end of the
-- 64-bit addresses.
pub align_lem :
    (k addr : ℕ)
    → k < 64
    → addr + 2 ^ k ≤ 2 ^ 64
    → (align_down addr (2 ^ k) ≡ addr / 2 ^ k * 2 ^ k)
      × (align_up addr (2 ^ k) ≡ (addr + 2 ^ k - 1) / 2 ^ k * 2 ^ k)
unfolding align_down align_up
align_lem k addr h b = (
  mask-align k addr h (omega (arith, b, pow_pos k)),
  ap (λ x. bit_and x (align_mask (2 ^ k))) small
      ∙ mask-align k (addr + 2 ^ k - 1) h (omega (arith, b, pow_pos k)),
)
  where
    small : (addr + 2 ^ k + 2 ^ 64 - 1) % 2 ^ 64 ≡ addr + 2 ^ k - 1
    small = omega (arith, b, pow_pos k)

-- ===== src/Mm/Pmm/Bitmap.antt =====
-- kernel/src/mm/pmm.rs: what setting and clearing one bit of the bitmap does to all others.
use hyperion_os.Base.{
  ℕ, zero, suc, ◌-◌, ◌*◌, ◌/◌, ◌%◌, ◌^◌, ◌<◌, ◌≤◌, ◌≡◌, bit_and, bit_or, List, true, false, ◌==◌,
  if◌then◌else◌, get_or, set, length, get_or-set_self, get_or-set_ne, arith,
}
use hyperion_os.Base.Bits.{
  bit, bit_and-pow, bit-bit_or, bit-bit_and, bit-pow, bit-complement, bit-le-one, pow_pos, pow_lt,
}
use hyperion_os.Mm.Pmm.{is_clear, set_bit, clear_bit}
use native.Mathlib.Decide.{ℕ_discrete}

-- The digit that a frame has in the bitmap.
abbrev pub digit : List ℕ → ℕ → ℕ
digit m j = bit (j % 64) (get_or m (j / 64) 0)

pub is_clear-digit : (m : List ℕ) (j : ℕ) → is_clear m j ≡ (digit m j == 0)
unfolding is_clear
is_clear-digit m j = rw (bit_and-pow (get_or m (j / 64) 0) (j % 64)) (
    times (digit m j) (2 ^ (j % 64)) (bit-le-one (j % 64) (get_or m (j / 64) 0)) (pow_pos (j % 64)))
  where
    times : (d q : ℕ) → d ≤ 1 → 1 ≤ q → (d * q == 0) ≡ (d == 0)
    times zero q h k = ground arith
    times (suc zero) q h k = ground arith
    times (suc (suc d)) q h k = absurd (omega arith)

digit-set :
    (m : List ℕ) (i j w : ℕ)
    → i / 64 < length m
    → digit (set m (i / 64) w) j ≡ (if i / 64 == j / 64 then bit (j % 64) w else digit m j)
digit-set m i j w h = elim (ℕ_discrete (i / 64) (j / 64)) [
  | yes e ↦ ground (arith, get_or-set_self m (i / 64) w 0)
  | no ne ↦ ground (arith, get_or-set_ne m (i / 64) (j / 64) w 0 ne)
]

pub is_clear-set_bit :
    (m : List ℕ) (i j : ℕ)
    → i / 64 < length m
    → is_clear (set_bit m i) j ≡ (if i == j then false else is_clear m j)
unfolding set_bit
is_clear-set_bit m i j h = ground (
  arith,
  is_clear-digit (set_bit m i) j,
  is_clear-digit m j,
  digit-set m i j (bit_or (get_or m (i / 64) 0) (2 ^ (i % 64))) h,
  bit-bit_or (j % 64) (get_or m (i / 64) 0) (2 ^ (i % 64)),
  bit-pow (j % 64) (i % 64),
)

pub is_clear-clear_bit :
    (m : List ℕ) (i j : ℕ)
    → i / 64 < length m
    → is_clear (clear_bit m i) j ≡ (if i == j then true else is_clear m j)
unfolding clear_bit
is_clear-clear_bit m i j h = ground (
  arith,
  is_clear-digit (clear_bit m i) j,
  is_clear-digit m j,
  digit-set m i j (bit_and (get_or m (i / 64) 0) (2 ^ 64 - 1 - 2 ^ (i % 64))) h,
  bit-bit_and (j % 64) (get_or m (i / 64) 0) (2 ^ 64 - 1 - 2 ^ (i % 64)),
  bit-complement 64 (j % 64) (2 ^ (i % 64)) (pow_lt (i % 64) 64 (omega arith)),
  bit-pow (j % 64) (i % 64),
  bit-le-one (j % 64) (get_or m (i / 64) 0),
)

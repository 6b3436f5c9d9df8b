-- ===== src/Base/Bits.antt =====
-- Laws of the bit operations at variables, for the masks and shifts of the source. `bit i x` is
-- the digit that `x & (1 << i)` tests.
use Prim.Native.Nat.{
  ℕ, zero, suc, ◌+◌, ◌-◌, ◌*◌, ◌/◌, ◌%◌, ◌^◌, ◌≤◌, ◌<◌, min, max, bit_and, bit_or, digits,
  bit_and-bitwise, bit_or-bitwise,
}
use mathlib.Core.Path.{◌≡◌, refl, sym, ◌∙◌, ap}
use native.Mathlib.Omega.{arith}
use native.Mathlib.Nat.{
  div-div-eq-div-mul, pow-suc, mod-eq-sub-mul-div, mod-eq_of_lt, div-lt_iff_lt-mul, mul-sub,
  mul_comm,
}
use hyperion_os.Base.Tests.{◌==◌, if◌then◌else◌}

abbrev pub bit : ℕ → ℕ → ℕ
bit zero x = x % 2
bit (suc i) x = bit i (x / 2)

pub bit-le-one : (i x : ℕ) → bit i x ≤ 1
bit-le-one zero x = omega arith
bit-le-one (suc i) x = bit-le-one i (x / 2)

-- `2 ^ (n + 1)` is even.
pub pow_two : (n : ℕ) → 2 ^ suc n ≡ 2 * 2 ^ n
pow_two n = omega (arith, pow-suc 2 n)

pub pow_pos : (n : ℕ) → 1 ≤ 2 ^ n
pow_pos zero = omega arith
pow_pos (suc n) = omega (arith, pow_two n, pow_pos n)

pub pow_lt : (i n : ℕ) → i < n → 2 ^ i < 2 ^ n
pow_lt i zero h = elim h [ ]
pow_lt zero (suc n) h = omega (arith, pow_two n, pow_pos n)
pow_lt (suc i) (suc n) h = omega (arith, pow_two i, pow_two n, pow_lt i n (omega arith))

pub pow_add : (k j n : ℕ) → k + j ≡ n → 2 ^ k * 2 ^ j ≡ 2 ^ n
pow_add zero j n e = omega (arith, ap (λ (t : ℕ). 2 ^ t) j_n)
  where
    j_n : j ≡ n
    j_n = omega arith
pow_add (suc k) j zero e = absurd (omega arith)
pow_add (suc k) j (suc n) e =
    omega (arith, pow_two n, pow_add k j n (omega arith), ap (λ (t : ℕ). t * 2 ^ j) (pow_two k))

-- Enough rounds of the digit recursion give the same number.
digits_fuel :
    (z : ℕ → ℕ) (f : ℕ → ℕ → ℕ) (n m a b : ℕ) → a ≤ n → a ≤ m → digits z f n a b ≡ digits z f m a b
digits_fuel z f zero zero a b p q = refl
digits_fuel z f zero (suc m) zero b p q = refl
digits_fuel z f zero (suc m) (suc a) b p q = absurd (omega arith)
digits_fuel z f (suc n) zero zero b p q = refl
digits_fuel z f (suc n) zero (suc a) b p q = absurd (omega arith)
digits_fuel z f (suc n) (suc m) zero b p q = refl
digits_fuel z f (suc n) (suc m) (suc a) b p q =
    ap (λ k. k * 2 + f (suc a % 2) (b % 2))
      (digits_fuel z f n m (suc a / 2) (b / 2) (omega arith) (omega arith))

pub bit_and_step : (a b : ℕ) → bit_and a b ≡ bit_and (a / 2) (b / 2) * 2 + min (a % 2) (b % 2)
bit_and_step zero b = omega (arith, bit_and-bitwise 0 b, bit_and-bitwise 0 (b / 2))
bit_and_step (suc a) b = omega (
  arith,
  bit_and-bitwise (suc a) b,
  bit_and-bitwise (suc a / 2) (b / 2),
  digits_fuel (λ _. 0) min a (suc a / 2) (suc a / 2) (b / 2) (omega arith) (omega arith),
)

pub bit_or_step : (a b : ℕ) → bit_or a b ≡ bit_or (a / 2) (b / 2) * 2 + max (a % 2) (b % 2)
bit_or_step zero b = omega (arith, bit_or-bitwise 0 b, bit_or-bitwise 0 (b / 2))
bit_or_step (suc a) b = omega (
  arith,
  bit_or-bitwise (suc a) b,
  bit_or-bitwise (suc a / 2) (b / 2),
  digits_fuel (λ c. c) max a (suc a / 2) (suc a / 2) (b / 2) (omega arith) (omega arith),
)

pub bit-bit_or : (i a b : ℕ) → bit i (bit_or a b) ≡ max (bit i a) (bit i b)
bit-bit_or zero a b = omega (arith, bit_or_step a b)
bit-bit_or (suc i) a b = ap (bit i) half ∙ bit-bit_or i (a / 2) (b / 2)
  where
    half : bit_or a b / 2 ≡ bit_or (a / 2) (b / 2)
    half = omega (arith, bit_or_step a b)

pub bit-bit_and : (i a b : ℕ) → bit i (bit_and a b) ≡ min (bit i a) (bit i b)
bit-bit_and zero a b = omega (arith, bit_and_step a b)
bit-bit_and (suc i) a b = ap (bit i) half ∙ bit-bit_and i (a / 2) (b / 2)
  where
    half : bit_and a b / 2 ≡ bit_and (a / 2) (b / 2)
    half = omega (arith, bit_and_step a b)

bit-zero : (i : ℕ) → bit i 0 ≡ 0
bit-zero zero = refl
bit-zero (suc i) = bit-zero i

-- `1 << j` has one digit.
pub bit-pow : (i j : ℕ) → bit i (2 ^ j) ≡ (if i == j then 1 else 0)
bit-pow zero zero = refl
bit-pow zero (suc j) = ground (arith, pow_two j)
bit-pow (suc i) zero = ground (arith, bit-zero i)
bit-pow (suc i) (suc j) = ap (bit i) half ∙ bit-pow i j ∙ ground arith
  where
    half : 2 ^ suc j / 2 ≡ 2 ^ j
    half = omega (arith, pow_two j)

bit_and-zero : (n a : ℕ) → a ≤ n → bit_and a 0 ≡ 0
bit_and-zero zero zero h = refl
bit_and-zero zero (suc a) h = absurd (omega arith)
bit_and-zero (suc n) zero h = refl
bit_and-zero (suc n) (suc a) h =
    omega (arith, bit_and_step (suc a) 0, bit_and-zero n (suc a / 2) (omega arith))

-- `x & (1 << j)`.
pub bit_and-pow : (x j : ℕ) → bit_and x (2 ^ j) ≡ bit j x * 2 ^ j
bit_and-pow x zero = omega (arith, bit_and_step x 1, bit_and-zero (x / 2) (x / 2) (omega arith))
bit_and-pow x (suc j) =
    bit_and_step x (2 ^ suc j)
    ∙ ap (λ k. bit_and (x / 2) k * 2 + min (x % 2) (2 ^ suc j % 2)) half
    ∙ omega (arith, bit_and-pow (x / 2) j, pow_two j, ap (λ k. bit j (x / 2) * k) (pow_two j))
  where
    half : 2 ^ suc j / 2 ≡ 2 ^ j
    half = omega (arith, pow_two j)

-- The complement within `n` bits.
pub bit-complement : (n i x : ℕ) → x < 2 ^ n → i < n → bit i (2 ^ n - 1 - x) ≡ 1 - bit i x
bit-complement zero i x h p = elim p [ ]
bit-complement (suc n) zero x h p = omega (arith, pow_two n)
bit-complement (suc n) (suc i) x h p =
    ap (bit i) half ∙ bit-complement n i (x / 2) (omega (arith, pow_two n)) (omega arith)
  where
    half : (2 ^ suc n - 1 - x) / 2 ≡ 2 ^ n - 1 - x / 2
    half = omega (arith, pow_two n)

pub bit_or-lt : (n a b : ℕ) → a < 2 ^ n → b < 2 ^ n → bit_or a b < 2 ^ n
bit_or-lt zero a b p q = omega (arith, ap (λ k. bit_or k b) zero_a, bit_or-bitwise 0 b)
  where
    zero_a : a ≡ 0
    zero_a = omega arith
bit_or-lt (suc n) a b p q = omega (
  arith,
  bit_or_step a b,
  pow_two n,
  bit_or-lt n (a / 2) (b / 2) (omega (arith, pow_two n)) (omega (arith, pow_two n)),
)

pub bit_and-lt : (n a b : ℕ) → a < 2 ^ n → bit_and a b < 2 ^ n
bit_and-lt zero a b p = omega (arith, ap (λ k. bit_and k b) zero_a, bit_and-bitwise 0 b)
  where
    zero_a : a ≡ 0
    zero_a = omega arith
bit_and-lt (suc n) a b p =
    omega
      (arith, bit_and_step a b, pow_two n, bit_and-lt n (a / 2) (b / 2) (omega (arith, pow_two n)))

mod_double : (a p : ℕ) → a % (2 * p) ≡ a / 2 % p * 2 + a % 2
mod_double a p = omega (
  arith,
  mod-eq-sub-mul-div a (2 * p),
  mod-eq-sub-mul-div (a / 2) p,
  div-div-eq-div-mul a 2 p,
  ap (λ k. p * k) (div-div-eq-div-mul a 2 p),
)

-- `x & (2^n - 1)`.
pub bit_and-ones : (n x : ℕ) → bit_and x (2 ^ n - 1) ≡ x % 2 ^ n
bit_and-ones zero x = omega (arith, bit_and-zero x x (omega arith))
bit_and-ones (suc n) x =
    bit_and_step x (2 ^ suc n - 1)
    ∙ ap (λ k. bit_and (x / 2) k * 2 + min (x % 2) ((2 ^ suc n - 1) % 2)) half
    ∙ omega (
      arith,
      bit_and-ones n (x / 2),
      pow_two n,
      pow_pos n,
      mod_double x (2 ^ n),
      ap (λ k. x % k) (pow_two n),
    )
  where
    half : (2 ^ suc n - 1) / 2 ≡ 2 ^ n - 1
    half = omega (arith, pow_two n, pow_pos n)

-- A mask whose low `k` digits are zero.
pub bit_and-shift : (k x c : ℕ) → bit_and x (c * 2 ^ k) ≡ bit_and (x / 2 ^ k) c * 2 ^ k
bit_and-shift zero x c = omega (arith, ap (λ d. bit_and x d) e, ap (λ d. bit_and d c) f)
  where
    e : c * 2 ^ 0 ≡ c
    e = omega arith

    f : x / 2 ^ 0 ≡ x
    f = omega arith
bit_and-shift (suc k) x c =
    bit_and_step x (c * 2 ^ suc k)
    ∙ ap (λ d. bit_and (x / 2) d * 2 + min (x % 2) (c * 2 ^ suc k % 2)) half
    ∙ omega (
      arith,
      bit_and-shift k (x / 2) c,
      ap (λ d. bit_and d c * (2 * 2 ^ k)) quotient,
      even,
      ap (λ d. bit_and (x / 2 ^ suc k) c * d) (pow_two k),
    )
  where
    even : c * 2 ^ suc k ≡ 2 * (c * 2 ^ k)
    even = omega (arith, ap (λ d. c * d) (pow_two k))

    half : c * 2 ^ suc k / 2 ≡ c * 2 ^ k
    half = omega (arith, even)

    quotient : x / 2 ^ suc k ≡ x / 2 / 2 ^ k
    quotient = ap (λ d. x / d) (pow_two k) ∙ sym (div-div-eq-div-mul x 2 (2 ^ k))

-- `x & !(2^k - 1)` on 64-bit words, for k up to 64: the low `k` digits are cleared.
pub bit_and-align :
    (k j x : ℕ) → k + j ≡ 64 → x < 2 ^ 64 → bit_and x (2 ^ 64 - 2 ^ k) ≡ x / 2 ^ k * 2 ^ k
bit_and-align k j x e h =
    ap (bit_and x) mask
    ∙ bit_and-shift k x (2 ^ j - 1)
    ∙ ap (λ (t : ℕ). t * 2 ^ k) (bit_and-ones j (x / 2 ^ k) ∙ mod-eq_of_lt small)
  where
    whole : 2 ^ k * 2 ^ j ≡ 2 ^ 64
    whole = pow_add k j 64 e

    mask : 2 ^ 64 - 2 ^ k ≡ (2 ^ j - 1) * 2 ^ k
    mask = omega (arith, whole, mul-sub (2 ^ k) (2 ^ j) 1, mul_comm (2 ^ k) (2 ^ j - 1))

    small : x / 2 ^ k < 2 ^ j
    small = (div-lt_iff_lt-mul (pow_pos k)).1 (omega (arith, whole))

-- `x & !0xfff`, the mask of the 4 KiB pages.
pub page_mask : (x : ℕ) → x < 2 ^ 64 → bit_and x (2 ^ 64 - 4096) ≡ x / 4096 * 4096
page_mask x h = bit_and-align 12 52 x refl h

-- `x & 0xfff`.
pub page_offset : (x : ℕ) → bit_and x 4095 ≡ x % 4096
page_offset x = bit_and-ones 12 x

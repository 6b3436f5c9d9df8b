-- ===== src/Proc/PerCpu.antt =====
-- kernel/src/proc/percpu.rs: the table of CPUs and the mask of those online. The register that holds
-- a CPU's own number is not modelled.
mod Tests
use hyperion_os.Base.{
  ℕ, zero, suc, ◌+◌, ◌*◌, ◌/◌, ◌%◌, ◌^◌, ◌≤◌, ◌≡◌, ap, ◌∙◌, List, [], ◌∷◌, Option, none, some, Bool,
  true, false, not, ◌==◌, ltb, leb, if◌then◌else◌, set, replicate, bit_and, bit_or, arith,
}
use hyperion_os.Base.Bits.{bit, bit-bit_or, bit-pow, bit_and-pow, bit-le-one, pow_pos}

abbrev pub max_cpus : ℕ
max_cpus = 8

-- The statics `ONLINE_MASK`, `REGISTERED` and `PER_CPU`.
pub record Cpus : Type 0 where
  pub online : ℕ
  pub registered : ℕ
  pub table : List (Option ℕ)

pub boot : Cpus
boot = record { online = 0; registered = 0; table = replicate max_cpus none }

pub register_boot_cpu : ℕ → Cpus → Cpus
register_boot_cpu cpu_id s = if leb max_cpus cpu_id then s else record s {
  table = set s.table cpu_id (some cpu_id);
  registered = (s.registered + 1) % 2 ^ 32;
}

pub mark_online : ℕ → Cpus → Cpus
mark_online cpu_id s =
    if leb max_cpus cpu_id then s else record s { online = bit_or s.online (2 ^ cpu_id) }

pub online_mask : Cpus → ℕ
online_mask s = s.online

-- `u64::count_ones`, over the `n` low bits.
pub count_ones : ℕ → ℕ → ℕ
count_ones zero mask = 0
count_ones (suc n) mask = mask % 2 + count_ones n (mask / 2)

pub online_count : Cpus → ℕ
online_count s = count_ones 64 (online_mask s)

pub registered_count : Cpus → ℕ
registered_count s = s.registered

-- `for i in 0..MAX_CPUS`, from `i` on with `rounds` left.
pub online_from : ℕ → ℕ → ℕ → List ℕ
online_from mask i zero = []
online_from mask i (suc rounds) =
    if not (bit_and mask (2 ^ i) == 0)
    then i ∷ online_from mask (i + 1) rounds
    else online_from mask (i + 1) rounds

pub online_cpus : Cpus → List ℕ
online_cpus s = online_from (online_mask s) 0 max_cpus

-- Whether a number is in a list.
pub listed : ℕ → List ℕ → Bool
listed i [] = false
listed i (j ∷ js) = if i == j then true else listed i js

scaled : (p b : ℕ) → 1 ≤ p → b ≤ 1 → not (b * p == 0) ≡ (b == 1)
scaled p zero h l = ground arith
scaled p (suc zero) h l = ground arith
scaled p (suc (suc b)) h l = absurd (omega arith)

tested : (mask i : ℕ) → not (bit_and mask (2 ^ i) == 0) ≡ (bit i mask == 1)
tested mask i =
    ap (λ k. not (k == 0)) (bit_and-pow mask i)
    ∙ scaled (2 ^ i) (bit i mask) (pow_pos i) (bit-le-one i mask)

listed-online_from :
    (mask j i n : ℕ)
    → listed j (online_from mask i n)
      ≡ (if leb i j then (if ltb j (i + n) then bit j mask == 1 else false) else false)
unfolding listed online_from
listed-online_from mask j i zero = ground arith
listed-online_from mask j i (suc n) = ground (
  arith,
  tested mask i,
  listed-online_from mask j (i + 1) n,
  λ (e : i ≡ j). ap (λ (k : ℕ). bit k mask) e,
)

-- A CPU below `MAX_CPUS` that is marked as online is listed, and so is every other one exactly if it
-- was before; a number that is out of range changes nothing and is never listed.
pub mark_online_lem :
    (i j : ℕ) (s : Cpus)
    → listed j (online_cpus (mark_online i s)) ≡ (
        if ltb i max_cpus
        then (if i == j then true else listed j (online_cpus s))
        else listed j (online_cpus s))
unfolding mark_online online_cpus online_mask
mark_online_lem i j s = ground (
  arith,
  listed-online_from s.online j 0 8,
  listed-online_from (bit_or s.online (2 ^ i)) j 0 8,
  bit-bit_or j s.online (2 ^ i),
  bit-pow j i,
  bit-le-one j s.online,
)

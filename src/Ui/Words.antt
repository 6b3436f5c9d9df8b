-- ===== src/Ui/Words.antt =====
-- The type `i32` of the code under kernel/src/ui: a word of 32 bits, negative from 2^31 on.
use hyperion_os.Base.{ℕ, ◌-◌, ◌/◌, ◌%◌, ◌^◌, Bool, ltb, if◌then◌else◌}

-- `v >= 0`.
abbrev pub is_positive : ℕ → Bool
is_positive v = ltb v (2 ^ 31)

-- `v.max(0) as u32`.
abbrev pub max_zero : ℕ → ℕ
max_zero v = if ltb v (2 ^ 31) then v else 0

-- `v.min(0)`.
abbrev pub min_zero : ℕ → ℕ
min_zero v = if ltb v (2 ^ 31) then 0 else v

-- `-v`.
abbrev pub negate : ℕ → ℕ
negate v = (2 ^ 32 - v) % 2 ^ 32

-- `v / 2`, which rounds towards zero.
abbrev pub halve : ℕ → ℕ
halve v = if ltb v (2 ^ 31) then v / 2 else negate ((2 ^ 32 - v) / 2)

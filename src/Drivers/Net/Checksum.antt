-- ===== src/Drivers/Net/Checksum.antt =====
-- kernel/src/drivers/net/mod.rs: the internet checksum.
use hyperion_os.Base.{
  ℕ, suc, ◌+◌, ◌*◌, ◌/◌, ◌%◌, ◌^◌, ◌<◌, ◌≤◌, ◌≡◌, refl, sym, subst, ◌∙◌, List, [], ◌∷◌, Option,
  none, some, Bool, true, false, ◌-◌, Bool-cases, inl, inr, ltb, ltb→lt, ltb→ge, length, arith,
}
use mathlib.Core.Option
use hyperion_os.Drivers.Net.{sum_words, fold, csum16}

abbrev pub AreBytes : List ℕ → Type 0
AreBytes [] = Unit {0}
AreBytes (b ∷ bs) = (b < 256) × AreBytes bs

-- A folded sum: below 2^16, and the same modulo 2^16 - 1.
abbrev Folds : ℕ → Option ℕ → Type 0
Folds x none = ⊥
Folds x (some y) = (y < 65536) × (y % 65535 ≡ x % 65535)

-- The rounds that a sum takes.
fold_done : (fuel x : ℕ) → x < 65536 → fold (suc fuel) x ≡ some x
unfolding fold
fold_done fuel x h = ground (arith, h)

fold_step : (fuel x : ℕ) → 65536 ≤ x → fold (suc fuel) x ≡ fold fuel (x % 65536 + x / 65536)
unfolding fold
fold_step fuel x h = ground (arith, h)

Folds-step : (x y : ℕ) (o : Option ℕ) → y % 65535 ≡ x % 65535 → Folds y o → Folds x o
Folds-step x y none e f = f
Folds-step x y (some z) e f = (f.0, f.1 ∙ e)

one_round : (x : ℕ) → (x % 65536 + x / 65536) % 65535 ≡ x % 65535
one_round x = omega arith

fold_within :
    (fuel x : ℕ)
    → ((y : ℕ) → y ≡ x % 65536 + x / 65536 → Folds y (fold fuel y))
    → Folds x (fold (suc fuel) x)
fold_within fuel x ih = elim (Bool-cases (ltb x 65536)) [
  | inl e ↦ subst (Folds x) (sym (fold_done fuel x (ltb→lt x 65536 e))) (ltb→lt x 65536 e, refl)
  | inr e ↦
      subst (Folds x) (sym (fold_step fuel x (ltb→ge x 65536 e)))
        (Folds-step x (x % 65536 + x / 65536) _ (one_round x) (ih (x % 65536 + x / 65536) refl))
]

fold_small : (x : ℕ) → x < 65536 → Folds x (fold 1 x)
fold_small x h = subst (Folds x) (sym (fold_done 0 x h)) (h, refl)

fold_lem : (x : ℕ) → x < 2 ^ 32 → Folds x (fold 4 x)
fold_lem x h = fold_within 3 x (λ y e.
    fold_within 2 y (λ z f. fold_within 1 z (λ w g. fold_small w (omega (arith, h, e, f, g)))))

sum_words-le : (bytes : List ℕ) → AreBytes bytes → sum_words bytes ≤ 65536 * length bytes
unfolding sum_words
sum_words-le [] b = omega arith
sum_words-le (x ∷ []) b = omega (arith, b.0)
sum_words-le (x ∷ y ∷ bytes) b = omega (arith, b.0, b.1.0, sum_words-le bytes b.1.1)

-- The sum of the bytes, where those at even places weigh 256 and the others 1.
abbrev pub weighed : Bool → List ℕ → ℕ
weighed even [] = 0
weighed true (b ∷ bytes) = b * 256 + weighed false bytes
weighed false (b ∷ bytes) = b + weighed true bytes

sum_words-weighed : (bytes : List ℕ) → sum_words bytes ≡ weighed true bytes
unfolding sum_words
sum_words-weighed [] = refl
sum_words-weighed (a ∷ []) = omega arith
sum_words-weighed (a ∷ b ∷ bytes) = omega (arith, sum_words-weighed bytes)

-- A checksum `c` of bytes whose words sum to `x`: a word that makes the sum and itself a multiple of
-- 2^16 - 1, which is what a receiver tests.
abbrev pub Checks : ℕ → Option ℕ → Type 0
Checks x o = (c : ℕ) × (o ≡ some c) × (c < 65536) × ((x + c) % 65535 ≡ 0)

csum_of : (x : ℕ) (o : Option ℕ) → Folds x o → Checks x (Option.map (λ sum. 2 ^ 16 - 1 - sum) o)
csum_of x none f = elim f [ ]
csum_of x (some y) f = (2 ^ 16 - 1 - y, refl, omega arith, omega (arith, f.0, f.1))

-- The folding of the sum of fewer than 2^16 bytes comes to an end, and the checksum is a word that
-- makes the sum of the bytes, those at even places 256 times, and itself a multiple of 2^16 - 1, which
-- is what a receiver tests.
pub csum16_lem :
    (bytes : List ℕ)
    → AreBytes bytes
    → length bytes < 65536
    → Checks (weighed true bytes) (csum16 bytes)
unfolding csum16
csum16_lem bytes b h =
    subst (λ x. Checks x (csum16 bytes)) (sum_words-weighed bytes)
      (csum_of (sum_words bytes) (fold 4 (sum_words bytes))
        (fold_lem (sum_words bytes) (omega (arith, h, sum_words-le bytes b))))

-- ===== src/Drivers/Net/Sums.antt =====
-- kernel/src/drivers/net/mod.rs: the sum of the bytes of a header that stands inside a frame.
use hyperion_os.Base.{
  ℕ, zero, suc, ◌+◌, ◌*◌, ◌/◌, ◌%◌, ◌<◌, ◌≤◌, ◌≡◌, ◌≢◌, refl, ap, subst, ◌∙◌, List, [], ◌∷◌, Bool,
  true, false, length, get_or, arith,
}
use hyperion_os.Drivers.Net.Checksum.{weighed}

-- The sum of `n` bytes from `k` on, by turns 256 times and once.
abbrev pub sum_at : Bool → (ℕ → ℕ) → ℕ → ℕ → ℕ
sum_at even f k zero = 0
sum_at true f k (suc n) = f k * 256 + sum_at false f (k + 1) n
sum_at false f k (suc n) = f k + sum_at true f (k + 1) n

pub weighed-sum_at :
    (even : Bool) (f : ℕ → ℕ) (k : ℕ) (ys : List ℕ)
    → ((i : ℕ) → i < length ys → get_or ys i 0 ≡ f (k + i))
    → weighed even ys ≡ sum_at even f k (length ys)
weighed-sum_at true f k [] h = refl
weighed-sum_at false f k [] h = refl
weighed-sum_at true f k (y ∷ ys) h = omega (
  arith,
  h 0 (omega arith) ∙ ap f here,
  weighed-sum_at false f (k + 1) ys (λ i b. h (suc i) (omega (arith, b)) ∙ ap f (next i)),
)
  where
    here : k + 0 ≡ k
    here = omega arith

    next : (i : ℕ) → k + suc i ≡ k + 1 + i
    next i = omega arith
weighed-sum_at false f k (y ∷ ys) h = omega (
  arith,
  h 0 (omega arith) ∙ ap f here,
  weighed-sum_at true f (k + 1) ys (λ i b. h (suc i) (omega (arith, b)) ∙ ap f (next i)),
)
  where
    here : k + 0 ≡ k
    here = omega arith

    next : (i : ℕ) → k + suc i ≡ k + 1 + i
    next i = omega arith

sum_at-same :
    (even : Bool) (f g : ℕ → ℕ) (k n : ℕ)
    → ((i : ℕ) → k ≤ i → i < k + n → f i ≡ g i)
    → sum_at even f k n ≡ sum_at even g k n
sum_at-same true f g k zero h = refl
sum_at-same false f g k zero h = refl
sum_at-same true f g k (suc n) h = omega (
  arith,
  h k (omega arith) (omega arith),
  sum_at-same false f g (k + 1) n (λ i a b. h i (omega (arith, a)) (omega (arith, b))),
)
sum_at-same false f g k (suc n) h = omega (
  arith,
  h k (omega arith) (omega arith),
  sum_at-same true f g (k + 1) n (λ i a b. h i (omega (arith, a)) (omega (arith, b))),
)

-- The bytes `g` are the bytes `f` with the checksum `c` in the two places that `f` has empty.
pub sum_at-checksum :
    (f g : ℕ → ℕ) (c j : ℕ)
    → f 24 ≡ 0
    → f 25 ≡ 0
    → g 24 ≡ c / 256
    → g 25 ≡ c % 256
    → ((i : ℕ) → i ≢ 24 → i ≢ 25 → i < 26 + j → g i ≡ f i)
    → sum_at true g 14 (12 + j) ≡ sum_at true f 14 (12 + j) + c
sum_at-checksum f g c j f4 f5 g4 g5 h =
    subst (λ n. sum_at true g 14 n ≡ sum_at true f 14 n + c) count
      (omega (
        arith,
        f4,
        f5,
        g4,
        g5,
        low 14 (omega arith),
        low 15 (omega arith),
        low 16 (omega arith),
        low 17 (omega arith),
        low 18 (omega arith),
        low 19 (omega arith),
        low 20 (omega arith),
        low 21 (omega arith),
        low 22 (omega arith),
        low 23 (omega arith),
        sum_at-same true g f 26 j (λ i a b.
            h i (λ e. absurd (omega (arith, a, e))) (λ e. absurd (omega (arith, a, e)))
              (omega (arith, b))),
      ))
  where
    count : suc (suc (suc (suc (suc (suc (suc (suc (suc (suc (suc (suc j))))))))))) ≡ 12 + j
    count = omega arith

    low : (i : ℕ) → i < 24 → g i ≡ f i
    low i b =
        h i (λ e. absurd (omega (arith, b, e))) (λ e. absurd (omega (arith, b, e)))
          (omega (arith, b))

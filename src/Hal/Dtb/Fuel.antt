-- ===== src/Hal/Dtb/Fuel.antt =====
-- kernel/src/hal/dtb.rs: the cursor moves forward in every round, and the depth stays below eight.
use hyperion_os.Base.{
  if_both, bit_and, ℕ, zero, suc, ◌+◌, ◌-◌, ◌*◌, ◌/◌, ◌^◌, ◌≤◌, ◌<◌, ◌≡◌, refl, List, [], ◌∷◌,
  Option, none, some, Bool, ◌==◌, ltb, leb, ◌||◌, Bool-cases, inl, inr, length, take, drop, arith,
  length-drop,
}
use hyperion_os.Base.Bits.{bit_and-align}
use hyperion_os.Hal.Dtb.Bytes.{be32, be_word, from_be, until_nul, cstr, align4}
use hyperion_os.Hal.Dtb.Walk.{
  SkipFlow, again, skipped, returned, exhausted, begin_node, end_node, prop, nop, after_name,
  skip_prop, skip_token, skip_round, and_again, skip,
}

-- Every byte is below 256.
abbrev pub IsBytes : List ℕ → Type 0
IsBytes [] = Unit {0}
IsBytes (b ∷ bs) = (b < 256) × IsBytes bs

pub IsBytes-drop : (n : ℕ) (bs : List ℕ) → IsBytes bs → IsBytes (drop n bs)
IsBytes-drop zero bs h = h
IsBytes-drop (suc n) [] h = h
IsBytes-drop (suc n) (b ∷ bs) h = IsBytes-drop n bs h.1

from_be-lt : (bs : List ℕ) → IsBytes bs → from_be 0 (take 4 bs) < 2 ^ 32
unfolding from_be
from_be-lt [] h = omega arith
from_be-lt (a ∷ []) h = omega (arith, h.0)
from_be-lt (a ∷ b ∷ []) h = omega (arith, h.0, h.1.0)
from_be-lt (a ∷ b ∷ c ∷ []) h = omega (arith, h.0, h.1.0, h.1.1.0)
from_be-lt (a ∷ b ∷ c ∷ d ∷ bs) h = omega (arith, h.0, h.1.0, h.1.1.0, h.1.1.1.0)

-- Below 2^32, and nothing is.
abbrev pub Below : Option ℕ → Type 0
Below none = Unit {0}
Below (some v) = v < 2 ^ 32

pub be32-Below : (bs : List ℕ) (o : ℕ) → IsBytes bs → Below (be32 bs o)
unfolding be32 be_word
be32-Below bs o h = elim (Bool-cases (leb (2 ^ 64) (o + 4) || ltb (length bs) (o + 4))) [
  | inl e ↦ rw e tt
  | inr e ↦ rw e (from_be-lt (drop o bs) (IsBytes-drop o bs h))
]

pub align4_lem : (c : ℕ) → c + 3 < 2 ^ 64 → (c ≤ align4 c) × (align4 c ≤ c + 3)
unfolding align4
align4_lem c h = (omega (arith, e), omega (arith, e))
  where
    e : bit_and (c + 3) (2 ^ 64 - 2 ^ 2) ≡ (c + 3) / 2 ^ 2 * 2 ^ 2
    e = bit_and-align 2 62 (c + 3) refl h

until_nul_le : (bs : List ℕ) → length (until_nul bs) ≤ length bs
unfolding until_nul
until_nul_le [] = omega arith
until_nul_le (b ∷ bs) = ground (arith, until_nul_le bs)

cstr_le : (is_utf8 : List ℕ → Bool) (bs : List ℕ) (o : ℕ) → length (cstr is_utf8 bs o) ≤ length bs
unfolding cstr
cstr_le is_utf8 bs o = ground (arith, until_nul_le (drop o bs), length-drop o bs)

-- A round of the skipping loop, over a block of `len` bytes, ends it, or reads a token and moves the
-- cursor forward.
abbrev Skips : ℕ → ℕ → SkipFlow → Type 0
Skips len cursor (again nesting c) = (cursor + 4 ≤ len) × (cursor < c)
Skips len cursor (skipped c) = cursor ≤ c
Skips len cursor returned = Unit {0}
Skips len cursor exhausted = ⊥

-- The loop ends, with its cursor at most further on.
abbrev pub SkipEnds : ℕ → SkipFlow → Type 0
SkipEnds cursor (again nesting c) = ⊥
SkipEnds cursor (skipped c) = cursor ≤ c
SkipEnds cursor returned = Unit {0}
SkipEnds cursor exhausted = ⊥

module _ (is_utf8 : List ℕ → Bool) (block : List ℕ) (small : length block < 2 ^ 32)
    (bytes : IsBytes block) where
  pub after_name_le : (c : ℕ) → c ≤ length block → c ≤ after_name is_utf8 block c
  unfolding after_name
  after_name_le c h = omega (
    arith,
    small,
    cstr_le is_utf8 block c,
    align4_lem (c + length (cstr is_utf8 block c) + 1)
        (omega (arith, small, cstr_le is_utf8 block c)),
  )

  skip_prop-Skips :
      (n c : ℕ) (v : Option ℕ)
      → c + 4 ≤ length block
      → Below v
      → Skips (length block) c (skip_prop n (c + 4) v)
  unfolding skip_prop
  skip_prop-Skips n c none h b = tt
  skip_prop-Skips n c (some plen) h b =
      (h, omega (arith, small, align4_lem (c + 4 + (8 + plen)) (omega (arith, small))))

  skip_token-Skips :
      (n c t : ℕ)
      → c + 4 ≤ length block
      → Skips (length block) c (skip_token is_utf8 block n (c + 4) t)
  unfolding skip_token
  skip_token-Skips n c t h =
      if_both S (t == begin_node) (λ e. (h, omega (arith, after_name_le (c + 4) h)))
        (λ e.
          if_both S (t == end_node) (λ e. (h, omega arith))
            (λ e.
              if_both S (t == prop)
                (λ e. skip_prop-Skips n c (be32 block (c + 4)) h (be32-Below block (c + 4) bytes))
                (λ e. if_both S (t == nop) (λ e. (h, omega arith)) (λ e. tt))))
    where
      S : SkipFlow → Type 0
      S = Skips (length block) c

  skip_found-Skips :
      (n c : ℕ) (o : Option ℕ)
      → c + 4 ≤ length block
      → Skips
          (length block)
          c
          (elim o [ none ↦ returned | some t ↦ skip_token is_utf8 block n (c + 4) t ])
  skip_found-Skips n c none h = tt
  skip_found-Skips n c (some t) h = skip_token-Skips n c t h

  skip_round-Skips : (n c : ℕ) → Skips (length block) c (skip_round is_utf8 block n c)
  unfolding skip_round
  skip_round-Skips n c =
      if_both (Skips (length block) c) (n == 0 || ltb (length block) (c + 4)) (λ e. omega arith)
        (λ e. skip_found-Skips n c (be32 block c) (ground (arith, e)))

  and_again-Ends :
      (loop : ℕ → ℕ → SkipFlow) (c : ℕ) (f : SkipFlow)
      → ((n d : ℕ) → c + 4 ≤ length block → c < d → SkipEnds d (loop n d))
      → Skips (length block) c f
      → SkipEnds c (and_again loop f)
  unfolding and_again
  and_again-Ends loop c (again n d) l h = weaken (loop n d) (l n d h.0 h.1)
    where
      weaken : (f : SkipFlow) → SkipEnds d f → SkipEnds c f
      weaken (again n d) e = e
      weaken (skipped d') e = omega (arith, e, h.1)
      weaken returned e = e
      weaken exhausted e = e
  and_again-Ends loop c (skipped d) l h = h
  and_again-Ends loop c returned l h = h
  and_again-Ends loop c exhausted l h = h

  -- The loop over a subtree ends: it has a round for each byte that is left.
  pub skip-Ends :
      (fuel n c : ℕ) → length block < fuel + c → 0 < fuel → SkipEnds c (skip is_utf8 block fuel n c)
  unfolding skip
  skip-Ends zero n c l p = absurd (omega arith)
  skip-Ends (suc fuel) n c l p =
      and_again-Ends (skip is_utf8 block fuel) c (skip_round is_utf8 block n c)
        (λ m d h k. skip-Ends fuel m d (omega (arith, l, h, k)) (omega (arith, l, h)))
        (skip_round-Skips n c)

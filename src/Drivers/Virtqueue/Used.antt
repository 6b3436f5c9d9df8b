-- ===== src/Drivers/Virtqueue/Used.antt =====
-- kernel/src/drivers/virtio/queue.rs: the used ring as the driver reads it, one completion after the
-- other.
use hyperion_os.Base.{
  ℕ, zero, suc, ◌+◌, ◌-◌, ◌*◌, ◌%◌, ◌^◌, ◌<◌, ◌≡◌, refl, sym, ap, subst, ◌∙◌, List, [], ◌∷◌, Option,
  none, some, arith, bit_and,
}
use hyperion_os.Base.Bits.{bit_and-ones}
use hyperion_os.Drivers.Virtqueue.{Virtqueue, le16, le32, pop_used}

-- The slot of the used ring for the running index `i`: a descriptor's id and a length.
abbrev pub used_entry : Virtqueue → ℕ → ℕ × ℕ
used_entry q i = (le32 q.used (4 + i % q.size * 8), le32 q.used (4 + i % q.size * 8 + 4))

-- What a call of `pop_used` and the ones after it return.
pub drain_step :
    (Virtqueue → List (ℕ × ℕ) × Virtqueue) → Option (ℕ × ℕ) × Virtqueue → List (ℕ × ℕ) × Virtqueue
drain_step rest (none, q) = ([], q)
drain_step rest (some e, q) = let (es, p) = rest q in (e ∷ es, p)

-- Calls of `pop_used` until it returns `None`, at most `n` of them: what they return.
pub drain : ℕ → Virtqueue → List (ℕ × ℕ) × Virtqueue
drain zero q = ([], q)
drain (suc n) q = drain_step (drain n) (pop_used q)

-- The entries of the `n` running indices from `i` on, which wrap at 2^16.
abbrev pub entries : Virtqueue → ℕ → ℕ → List (ℕ × ℕ)
entries q i zero = []
entries q i (suc n) = used_entry q i ∷ entries q ((i + 1) % 2 ^ 16) n

-- The queue once it has read up to the running index `i`.
abbrev pub read_to : ℕ → Virtqueue → Virtqueue
read_to i q = record q { last_used_idx = i }

pop_used-some :
    (k m : ℕ) (q : Virtqueue)
    → q.size ≡ 2 ^ k
    → q.last_used_idx < 2 ^ 16
    → suc m < 2 ^ 16
    → le16 q.used 2 ≡ (q.last_used_idx + suc m) % 2 ^ 16
    → pop_used q ≡ (some (used_entry q q.last_used_idx), read_to ((q.last_used_idx + 1) % 2 ^ 16) q)
unfolding pop_used
pop_used-some k m q s l b e = ground (
  arith,
  subst (λ n. bit_and q.last_used_idx (n - 1) ≡ q.last_used_idx % n) (sym s)
      (bit_and-ones k q.last_used_idx),
)

pop_used-none :
    (q : Virtqueue)
    → q.last_used_idx < 2 ^ 16
    → le16 q.used 2 ≡ (q.last_used_idx + 0) % 2 ^ 16
    → pop_used q ≡ (none, q)
unfolding pop_used
pop_used-none q l e = ground arith

wraps : (l m : ℕ) → (l + suc m) % 2 ^ 16 ≡ ((l + 1) % 2 ^ 16 + m) % 2 ^ 16
wraps l m = omega arith

entries-read_to : (q : Virtqueue) (j i m : ℕ) → entries (read_to j q) i m ≡ entries q i m
entries-read_to q j i zero = refl
entries-read_to q j i (suc m) = ap (◌∷◌ (used_entry q i)) (entries-read_to q j ((i + 1) % 2 ^ 16) m)

-- When the device's index is `m` ahead of the driver's, modulo 2^16, `m < 2^16`, more than `m` calls
-- of `pop_used` return the `m` entries between the two indices, in order, and then `None`; the
-- driver's index is then the device's, and nothing else has changed.
pub drain_lem :
    (k m n : ℕ) (q : Virtqueue)
    → q.size ≡ 2 ^ k
    → q.last_used_idx < 2 ^ 16
    → m < 2 ^ 16
    → m < n
    → le16 q.used 2 ≡ (q.last_used_idx + m) % 2 ^ 16
    → drain n q ≡ (entries q q.last_used_idx m, read_to (le16 q.used 2) q)
unfolding drain drain_step
drain_lem k m zero q s l b h e = elim h [ ]
drain_lem k zero (suc n) q s l b h e =
    rw (pop_used-none q l e) (ap (λ i. ([], read_to i q)) (omega (arith, e, l)))
drain_lem k (suc m) (suc n) q s l b h e =
    rw
      (
        pop_used-some k m q s l b e,
        drain_lem k m n (read_to ((q.last_used_idx + 1) % 2 ^ 16) q) s (omega arith)
            (omega (arith, b)) (omega (arith, h)) (e ∙ wraps q.last_used_idx m),
        entries-read_to q ((q.last_used_idx + 1) % 2 ^ 16) ((q.last_used_idx + 1) % 2 ^ 16) m,
      )
      refl

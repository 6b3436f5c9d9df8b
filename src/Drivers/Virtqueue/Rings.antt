-- ===== src/Drivers/Virtqueue/Rings.antt =====
-- kernel/src/drivers/virtio/queue.rs: the available ring as the device reads it, and the used ring
-- as the driver does.
use hyperion_os.Base.{
  ℕ, ◌+◌, ◌-◌, ◌*◌, ◌/◌, ◌%◌, ◌^◌, ◌<◌, ◌≡◌, ◌⊎◌, inl, inr, refl, sym, ap, subst, ◌∙◌, List, false,
  ◌==◌, if◌then◌else◌, length, set, get_or-set_ne, get_or-set_self, length-set, arith, bit_and,
  Bool-cases, ==_iff,
}
use hyperion_os.Base.Bits.{bit_and-ones, pow_pos}
use hyperion_os.Drivers.Virtqueue.{Virtqueue, le16, put16, push_avail}

le16-put16 :
    (bytes : List ℕ) (off x : ℕ)
    → off + 1 < length bytes
    → x < 2 ^ 16
    → le16 (put16 bytes off x) off ≡ x
unfolding le16 put16
le16-put16 bytes off x h b = ground (
  arith,
  get_or-set_ne (set bytes off (x % 256)) (off + 1) off (x / 256 % 256) 0 (omega arith),
  get_or-set_self bytes off (x % 256) 0 (omega arith),
  get_or-set_self (set bytes off (x % 256)) (off + 1) (x / 256 % 256) 0
      (omega (arith, length-set bytes off (x % 256))),
)

le16-put16_apart :
    (bytes : List ℕ) (off j x : ℕ)
    → (j + 1 < off) ⊎ (off + 1 < j)
    → le16 (put16 bytes off x) j ≡ le16 bytes j
unfolding le16 put16
le16-put16_apart bytes off j x h = ground (
  arith,
  get_or-set_ne (set bytes off (x % 256)) (off + 1) j (x / 256 % 256) 0 (omega arith),
  get_or-set_ne bytes off j (x % 256) 0 (omega arith),
  get_or-set_ne (set bytes off (x % 256)) (off + 1) (j + 1) (x / 256 % 256) 0 (omega arith),
  get_or-set_ne bytes off (j + 1) (x % 256) 0 (omega arith),
)

length-put16 : (bytes : List ℕ) (off x : ℕ) → length (put16 bytes off x) ≡ length bytes
unfolding put16
length-put16 bytes off x = length-set _ (off + 1) _ ∙ length-set bytes off _

-- The device's view of the available ring: its index, and the entries of its slots.
abbrev pub avail_idx : Virtqueue → ℕ
avail_idx q = le16 q.avail 2

abbrev pub avail_entry : Virtqueue → ℕ → ℕ
avail_entry q slot = le16 q.avail (4 + slot * 2)

-- The available ring once `head` is written to `slot`.
pushed : ℕ → ℕ → Virtqueue → List ℕ
pushed slot head q = put16 (put16 q.avail (4 + slot * 2) head) 2 ((avail_idx q + 1) % 2 ^ 16)

push_avail-pushed :
    (k head : ℕ) (q : Virtqueue)
    → q.size ≡ 2 ^ k
    → push_avail head q ≡ record q { avail = pushed (avail_idx q % q.size) head q }
unfolding push_avail pushed
push_avail-pushed k head q s =
    ap
      (λ i. record q {
        avail = put16 (put16 q.avail (4 + i * 2) head) 2 ((avail_idx q + 1) % 2 ^ 16);
      })
      (subst (λ n. bit_and (avail_idx q) (n - 1) ≡ avail_idx q % n) (sym s)
        (bit_and-ones k (avail_idx q)))

pushed_idx :
    (slot head : ℕ) (q : Virtqueue)
    → 3 < length q.avail
    → le16 (pushed slot head q) 2 ≡ (avail_idx q + 1) % 2 ^ 16
unfolding pushed
pushed_idx slot head q h =
    le16-put16 (put16 q.avail (4 + slot * 2) head) 2 ((avail_idx q + 1) % 2 ^ 16)
      (omega (arith, length-put16 q.avail (4 + slot * 2) head)) (omega arith)

pushed_entry :
    (slot j head : ℕ) (q : Virtqueue)
    → 4 + slot * 2 + 1 < length q.avail
    → head < 2 ^ 16
    → le16 (pushed slot head q) (4 + j * 2) ≡ (if j == slot then head else avail_entry q j)
unfolding pushed
pushed_entry slot j head q h b =
    le16-put16_apart (put16 q.avail (4 + slot * 2) head) 2 (4 + j * 2) _ (inr (omega arith))
    ∙ elim (Bool-cases (j == slot)) [
      | inl e ↦ rw (e, (==_iff j slot).0 e) (le16-put16 q.avail (4 + slot * 2) head h b)
      | inr e ↦ rw e (le16-put16_apart q.avail (4 + slot * 2) (4 + j * 2) head (other e))
    ]
  where
    other : (j == slot) ≡ false → (4 + j * 2 + 1 < 4 + slot * 2) ⊎ (4 + slot * 2 + 1 < 4 + j * 2)
    other e = ground arith

-- In a queue of 2^k descriptors, `push_avail` writes the head to the slot that the ring's index
-- selects, leaves the other slots as they were, adds one to the index modulo 2^16, and changes
-- nothing but the available ring.
pub push_avail_lem :
    (k head j : ℕ) (q : Virtqueue)
    → q.size ≡ 2 ^ k
    → length q.avail ≡ 4 + 2 * q.size + 2
    → head < 2 ^ 16
    → (avail_entry (push_avail head q) j
        ≡ (if j == avail_idx q % q.size then head else avail_entry q j))
      × (avail_idx (push_avail head q) ≡ (avail_idx q + 1) % 2 ^ 16)
      × (push_avail head q ≡ record q { avail = (push_avail head q).avail })
push_avail_lem k head j q s l b =
    subst
      (λ p.
        (avail_entry p j ≡ (if j == slot then head else avail_entry q j))
        × (avail_idx p ≡ (avail_idx q + 1) % 2 ^ 16)
        × (p ≡ record q { avail = p.avail }))
      (sym (push_avail-pushed k head q s))
      (pushed_entry slot j head q room b, pushed_idx slot head q (omega (arith, l)), refl)
  where
    slot : ℕ
    slot = avail_idx q % q.size

    room : 4 + (avail_idx q % q.size) * 2 + 1 < length q.avail
    room = omega (arith, l, s, pow_pos k)

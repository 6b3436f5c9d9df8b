-- ===== src/Drivers/Virtqueue/Links.antt =====
-- kernel/src/drivers/virtio/queue.rs: the free list and the chains as lists of indices.
use hyperion_os.Base.{
  ℕ, zero, suc, ◌+◌, ◌^◌, ◌<◌, ◌≤◌, ◌≡◌, ◌≢◌, refl, sym, ap, subst, List, [], ◌∷◌, true, false, ltb,
  if◌then◌else◌, length, get_or, set, get_or-set_ne, length-set, arith,
}
use hyperion_os.Drivers.Virtqueue.{Desc, Virtqueue, desc_default, free_descs, new, has_next}

abbrev pub Fresh : ℕ → List ℕ → Type 0
Fresh x [] = Unit {0}
Fresh x (y ∷ ys) = (x ≢ y) × Fresh x ys

abbrev pub Distinct : List ℕ → Type 0
Distinct [] = Unit {0}
Distinct (x ∷ xs) = Fresh x xs × Distinct xs

-- Following `next` from `h` visits the descriptors `xs`.
abbrev pub Links : List Desc → ℕ → List ℕ → Type 0
Links d h [] = Unit {0}
Links d h (x ∷ xs) = (h ≡ x) × (x < length d) × Links d (get_or d x desc_default).next xs

-- The chain from `h` is `xs`: each descriptor but the last has the flag NEXT.
abbrev pub Chain : List Desc → ℕ → List ℕ → Type 0
Chain d h [] = ⊥
Chain d h (x ∷ []) = (h ≡ x) × (x < length d) × (has_next (get_or d x desc_default) ≡ false)
Chain d h (x ∷ y ∷ ys) =
    (h ≡ x)
    × (x < length d)
    × (has_next (get_or d x desc_default) ≡ true)
    × Chain d (get_or d x desc_default).next (y ∷ ys)

-- The queue has a table of `size` descriptors, and `free` lists its free ones.
pub record IsFree (q : Virtqueue) (free : List ℕ) : Type 0 where
  pub table : length q.desc ≡ q.size
  pub small : q.size < 2 ^ 16
  pub counted : q.num_free ≡ length free
  pub few : q.num_free ≤ q.size
  pub linked : Links q.desc q.free_head free
  pub distinct : Distinct free

pub Links-set :
    (d : List Desc) (h i : ℕ) (v : Desc) (xs : List ℕ)
    → Fresh i xs
    → Links d h xs
    → Links (set d i v) h xs
Links-set d h i v [] f l = tt
Links-set d h i v (x ∷ xs) f (e, b, l) = (
  e,
  omega (arith, length-set d i v),
  rw (get_or-set_ne d i x v desc_default f.0) (Links-set d _ i v xs f.1 l),
)

pub Chain-set :
    (d : List Desc) (h i : ℕ) (v : Desc) (xs : List ℕ)
    → Fresh i xs
    → Chain d h xs
    → Chain (set d i v) h xs
Chain-set d h i v [] f c = c
Chain-set d h i v (x ∷ []) f (e, b, c) =
    (e, omega (arith, length-set d i v), rw (get_or-set_ne d i x v desc_default f.0) c)
Chain-set d h i v (x ∷ y ∷ ys) f (e, b, n, c) = (
  e,
  omega (arith, length-set d i v),
  rw (get_or-set_ne d i x v desc_default f.0) n,
  rw (get_or-set_ne d i x v desc_default f.0) (Chain-set d _ i v (y ∷ ys) f.1 c),
)

-- The numbers from `i` on, `n` of them.
abbrev pub count_up : ℕ → ℕ → List ℕ
count_up i zero = []
count_up i (suc n) = i ∷ count_up (i + 1) n

Fresh-count_up : (x i n : ℕ) → x < i → Fresh x (count_up i n)
Fresh-count_up x i zero h = tt
Fresh-count_up x i (suc n) h = (omega arith, Fresh-count_up x (i + 1) n (omega arith))

Distinct-count_up : (i n : ℕ) → Distinct (count_up i n)
Distinct-count_up i zero = tt
Distinct-count_up i (suc n) =
    (Fresh-count_up i (i + 1) n (omega arith), Distinct-count_up (i + 1) n)

length-count_up : (i n : ℕ) → length (count_up i n) ≡ n
length-count_up i zero = refl
length-count_up i (suc n) = ap suc (length-count_up (i + 1) n)

length-free_descs : (size n i : ℕ) → length (free_descs size n i) ≡ n
unfolding free_descs
length-free_descs size zero i = refl
length-free_descs size (suc n) i = ap suc (length-free_descs size n (i + 1))

next-free_descs :
    (size n i k : ℕ)
    → k < n
    → i + n ≡ size
    → size < 2 ^ 16
    → (get_or (free_descs size n i) k desc_default).next
      ≡ (if ltb (i + k + 1) size then i + k + 1 else 0)
unfolding free_descs
next-free_descs size zero i k h e s = elim h [ ]
next-free_descs size (suc n) i zero h e s = ground arith
next-free_descs size (suc n) i (suc k) h e s = ground (arith, next-free_descs size n (i + 1) k)

Links-new :
    (size n i : ℕ) → i + n ≡ size → size < 2 ^ 16 → Links (free_descs size size 0) i (count_up i n)
Links-new size zero i e s = tt
Links-new size (suc zero) i e s = (refl, omega (arith, length-free_descs size size 0), tt)
Links-new size (suc (suc n)) i e s = (
  refl,
  omega (arith, length-free_descs size size 0),
  subst (λ h. Links (free_descs size size 0) h (count_up (i + 1) (suc n))) (sym next)
      (Links-new size (suc n) (i + 1) (omega arith) s),
)
  where
    next : (get_or (free_descs size size 0) i desc_default).next ≡ i + 1
    next = ground (arith, next-free_descs size size 0 i)

-- A new queue of fewer than 2^16 descriptors is valid, with all its descriptors free in order.
pub new-IsFree : (size : ℕ) → size < 2 ^ 16 → IsFree (new size) (count_up 0 size)
unfolding new
new-IsFree size s = record {
  table = length-free_descs size size 0;
  small = s;
  counted = sym (length-count_up 0 size);
  few = omega arith;
  linked = Links-new size size 0 (omega arith) s;
  distinct = Distinct-count_up 0 size;
}

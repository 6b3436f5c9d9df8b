-- ===== src/Mm/Pmm/Alloc.antt =====
-- kernel/src/mm/pmm.rs: which frame `alloc_frame` hands out and what `free_frame` gives back.
use hyperion_os.Base.{
  ℕ, zero, suc, ◌+◌, ◌-◌, ◌*◌, ◌/◌, ◌%◌, ◌<◌, ◌≤◌, ◌≡◌, refl, ◌⊎◌, inl, inr, List, Option, none,
  some, Bool, true, false, ◌==◌, if◌then◌else◌, ltb, not, ◌&&◌, arith, Bool-cases, ap, ◌∙◌, subst,
  ==_iff,
}
use hyperion_os.Mm.Pmm.{Pmm, page_size, is_clear, take_frame, alloc_from, alloc_frame, free_frame}
use hyperion_os.Mm.Pmm.Bitmap.{is_clear-set_bit, is_clear-clear_bit}
use hyperion_os.Mm.Pmm.Valid.{
  IsValid, alloc_frame-IsValid, count_clear, count_clear-set_bit, count_clear-le,
}
use native.Mathlib.Decide.{ℕ_discrete}
use native.Mathlib.Nat.{mod-lt, add-mul-mod_self_left, add-mod-mod, mod-eq_of_lt, mod-add-div}

-- The address of a frame.
abbrev pub frame_addr : Pmm → ℕ → ℕ
frame_addr p idx = p.base + idx * page_size

-- What a call of `alloc_frame` may do: refuse when no frame is free, or take a clear one.
abbrev pub Alloc : Pmm → Option ℕ × Pmm → Type 0
Alloc p r =
    ((r ≡ (none, p)) × (p.free_frames ≡ 0))
    ⊎ ((idx : ℕ) × (idx < p.num_frames)
        × (is_clear p.bitmap idx ≡ true)
        × (r.0 ≡ some (frame_addr p idx))
        × ((j : ℕ) → is_clear r.1.bitmap j ≡ (if idx == j then false else is_clear p.bitmap j))
        × (r.1.free_frames + 1 ≡ p.free_frames))

count_clear-zero :
    (m : List ℕ) (n : ℕ) → ((j : ℕ) → j < n → is_clear m j ≡ false) → count_clear m n ≡ 0
count_clear-zero m zero h = refl
count_clear-zero m (suc n) h =
    ground (arith, h n (omega arith), count_clear-zero m n (λ j k. h j (omega arith)))

-- The rounds from `start` reach every frame.
reaches : (start n j : ℕ) → j < n → (i : ℕ) × (i < n) × ((start + i) % n ≡ j)
reaches start n j h = (
  (j + n - start % n) % n,
  mod-lt _ (omega arith),
  add-mod-mod start (j + n - start % n) n
      ∙ ap (λ (t : ℕ). t % n) round
      ∙ add-mul-mod_self_left j n (start / n + 1)
      ∙ mod-eq_of_lt h,
)
  where
    round : start + (j + n - start % n) ≡ j + n * (start / n + 1)
    round = omega (arith, mod-add-div start n, mod-lt start {m = n} (omega arith))

module _ (p : Pmm) (v : IsValid p) where
  take_frame-Alloc :
      (idx : ℕ) → idx < p.num_frames → is_clear p.bitmap idx ≡ true → Alloc p (take_frame p idx)
  unfolding take_frame
  take_frame-Alloc idx h c = inr (
    idx,
    h,
    c,
    ap some (mod-eq_of_lt (omega arith)),
    λ j. is_clear-set_bit p.bitmap idx j (omega arith),
    omega (
      arith,
      count_clear-set_bit p.bitmap idx p.num_frames (omega arith) h c,
      count_clear-le p.bitmap p.num_frames,
    ),
  )

  -- A scan either takes a frame or finds none clear among those it visits.
  scanned :
      (rounds i : ℕ)
      → 0 < p.num_frames
      → Alloc p (alloc_from p rounds i)
        ⊎ ((alloc_from p rounds i ≡ (none, p))
            × ((k : ℕ)
                → i ≤ k
                → k < i + rounds
                → is_clear p.bitmap ((p.next_hint + k) % p.num_frames) ≡ false))
  unfolding alloc_from
  scanned zero i h = inr (refl, λ k a b. absurd (omega arith))
  scanned (suc rounds) i h =
      elim (Bool-cases (is_clear p.bitmap ((p.next_hint + i) % p.num_frames))) [
        | inl c ↦ inl (rw c (take_frame-Alloc _ (mod-lt _ h) c))
        | inr c ↦ rw c (later c (scanned rounds (i + 1) h))
      ]
    where
      later :
          is_clear p.bitmap ((p.next_hint + i) % p.num_frames) ≡ false
          → Alloc p (alloc_from p rounds (i + 1))
            ⊎ ((alloc_from p rounds (i + 1) ≡ (none, p))
                × ((k : ℕ)
                    → i + 1 ≤ k
                    → k < i + 1 + rounds
                    → is_clear p.bitmap ((p.next_hint + k) % p.num_frames) ≡ false))
          → Alloc p (alloc_from p rounds (i + 1))
            ⊎ ((alloc_from p rounds (i + 1) ≡ (none, p))
                × ((k : ℕ)
                    → i ≤ k
                    → k < i + suc rounds
                    → is_clear p.bitmap ((p.next_hint + k) % p.num_frames) ≡ false))
      later c (inl a) = inl a
      later c (inr (e, f)) = inr (
        e,
        λ k a b. elim (ℕ_discrete i k) [
          | yes same ↦
              subst (λ t. is_clear p.bitmap ((p.next_hint + t) % p.num_frames) ≡ false) same c
          | no other ↦ f k (omega arith) (omega arith)
        ],
      )

-- In a valid allocator `alloc_frame` refuses exactly when every managed frame is in use, and then
-- changes nothing; otherwise it returns the address of a frame that was free, marks that frame and
-- no other, and lowers the count of free frames by one.
pub alloc_frame_lem : (p : Pmm) → IsValid p → Alloc p (alloc_frame p)
unfolding alloc_frame
alloc_frame_lem p v = elim (Bool-cases (p.num_frames == 0)) [
  | inl e ↦ rw e (inl (refl, v.counted ∙ ap (count_clear p.bitmap) ((==_iff p.num_frames 0).0 e)))
  | inr e ↦ rw e (found (scanned p v p.num_frames 0 (ground arith)))
]
  where
    found :
        Alloc p (alloc_from p p.num_frames 0)
          ⊎ ((alloc_from p p.num_frames 0 ≡ (none, p))
              × ((k : ℕ)
                  → 0 ≤ k
                  → k < 0 + p.num_frames
                  → is_clear p.bitmap ((p.next_hint + k) % p.num_frames) ≡ false))
        → Alloc p (alloc_from p p.num_frames 0)
    found (inl a) = a
    found (inr (e, f)) = inl (
      e,
      v.counted
          ∙ count_clear-zero p.bitmap p.num_frames
              (λ j h. all j (reaches p.next_hint p.num_frames j h)),
    )
      where
        all :
            (j : ℕ)
            → ((i : ℕ) × (i < p.num_frames) × ((p.next_hint + i) % p.num_frames ≡ j))
            → is_clear p.bitmap j ≡ false
        all j (i, small, hit) =
            subst (λ t. is_clear p.bitmap t ≡ false) hit (f i (omega arith) (omega arith))

frame_index : (p : Pmm) (idx : ℕ) → (frame_addr p idx - p.base) / page_size ≡ idx
frame_index p idx = omega arith

-- `addr` is the address of a managed frame in use.
abbrev pub owns : Pmm → ℕ → ℕ → Bool
owns p addr j = addr == frame_addr p j && ltb j p.num_frames

-- In a valid allocator `free_frame addr` clears the bit of the managed frame that starts at `addr`
-- and no other bit; the count of free frames grows by one if there is such a frame and it was in
-- use, and stays the same otherwise; base, size and hint stay as they were.
pub free_frame_lem :
    (addr : ℕ) (p : Pmm) (j : ℕ)
    → IsValid p
    → (is_clear (free_frame addr p).bitmap j
        ≡ (if owns p addr j then true else is_clear p.bitmap j))
      × ((free_frame addr p).free_frames ≡ (
          if owns p addr ((addr - p.base) / page_size)
            && not (is_clear p.bitmap ((addr - p.base) / page_size))
          then p.free_frames + 1
          else p.free_frames))
      × ((free_frame addr p).base ≡ p.base)
      × ((free_frame addr p).num_frames ≡ p.num_frames)
      × ((free_frame addr p).next_hint ≡ p.next_hint)
unfolding free_frame
free_frame_lem addr p j v = (
  ground (arith, is_clear-clear_bit p.bitmap ((addr - p.base) / page_size) j, found),
  ground (arith, count_clear-le p.bitmap p.num_frames),
  ground arith,
  ground arith,
  ground arith,
)
  where
    found : owns p addr j ≡ true → j ≡ (addr - p.base) / page_size
    found h = ground arith

alloc_from-same :
    (p : Pmm) (rounds i : ℕ)
    → ((alloc_from p rounds i).1.base ≡ p.base)
      × ((alloc_from p rounds i).1.num_frames ≡ p.num_frames)
unfolding alloc_from take_frame
alloc_from-same p zero i = (refl, refl)
alloc_from-same p (suc rounds) i = ground (arith, alloc_from-same p rounds (i + 1))

pub alloc_frame-same :
    (p : Pmm) → ((alloc_frame p).1.base ≡ p.base) × ((alloc_frame p).1.num_frames ≡ p.num_frames)
unfolding alloc_frame
alloc_frame-same p = ground (arith, alloc_from-same p p.num_frames 0)

alloc_from-none :
    (p : Pmm) (rounds i : ℕ) → (alloc_from p rounds i).0 ≡ none → alloc_from p rounds i ≡ (none, p)
unfolding alloc_from take_frame
alloc_from-none p zero i e = refl
alloc_from-none p (suc rounds) i e = ground (arith, alloc_from-none p rounds (i + 1))

-- A refusal changes nothing, in any state.
pub alloc_frame-none : (p : Pmm) → (alloc_frame p).0 ≡ none → alloc_frame p ≡ (none, p)
unfolding alloc_frame
alloc_frame-none p e = ground (arith, alloc_from-none p p.num_frames 0)

-- A frame that `alloc_frame` returned can be given back at once: every bit and the count of free
-- frames are as they were before the allocation.
pub free_frame-alloc_frame :
    (p : Pmm) (addr j : ℕ)
    → IsValid p
    → (alloc_frame p).0 ≡ some addr
    → (is_clear (free_frame addr (alloc_frame p).1).bitmap j ≡ is_clear p.bitmap j)
      × ((free_frame addr (alloc_frame p).1).free_frames ≡ p.free_frames)
free_frame-alloc_frame p addr j v e = elim (alloc_frame_lem p v) [
  | inl (refused, _) ↦ absurd (cc (ap (λ r. r.0) refused))
  | inr (idx, h, c, taken, others, count) ↦ ground (
    arith,
    free_frame_lem addr (alloc_frame p).1 j (alloc_frame-IsValid p v),
    alloc_frame-same p,
    others j,
    others idx,
    frame_index p idx,
  )
]

-- ===== src/Hal/Dtb/Parse.antt =====
-- kernel/src/hal/dtb.rs: the reading of a whole blob ends.
use hyperion_os.Base.{
  ℕ, zero, suc, ◌+◌, ◌^◌, ◌<◌, ◌≡◌, refl, List, [], ◌∷◌, Option, none, some, Bool, ◌==◌, ltb, ◌||◌,
  if_both, length, take, drop, arith, length-take,
}
use hyperion_os.Hal.BootInfo.{BootInfo}
use hyperion_os.Hal.Dtb.Bytes.{be32}
use hyperion_os.Hal.Dtb.Walk.{cut_blocks, blocks, walk_blocks, parse_blob, parse_or_fallback}
use hyperion_os.Hal.Dtb.Fuel.{IsBytes, IsBytes-drop, Below, be32-Below}
use hyperion_os.Hal.Dtb.Ends.{walk_ends}

-- A description comes out.
abbrev pub Ends : Option BootInfo → Type 0
Ends o = (b : BootInfo) × (o ≡ some b)

-- The blocks, if there are any, are bytes, and below 4 GiB.
abbrev Cut : Option (List ℕ × List ℕ) → Type 0
Cut none = Unit {0}
Cut (some (block, strings)) = (length block < 2 ^ 32) × IsBytes block

pub IsBytes-take : (n : ℕ) (bs : List ℕ) → IsBytes bs → IsBytes (take n bs)
IsBytes-take zero bs h = tt
IsBytes-take (suc n) [] h = tt
IsBytes-take (suc n) (b ∷ bs) h = (h.0, IsBytes-take n bs h.1)

cut_blocks-Cut :
    (blob : List ℕ) (n : ℕ) (a b c d : Option ℕ)
    → IsBytes blob
    → Below c
    → Cut (cut_blocks blob n a b c d)
unfolding cut_blocks
cut_blocks-Cut blob n (some a) (some b) (some c) (some d) h k =
    if_both Cut (ltb n (a + c) || ltb n (b + d)) (λ e. tt)
      (λ e. (
        omega (arith, k, length-take c (drop a blob)),
        IsBytes-take c (drop a blob) (IsBytes-drop a blob h),
      ))
cut_blocks-Cut blob n none b c d h k = tt
cut_blocks-Cut blob n (some a) none c d h k = tt
cut_blocks-Cut blob n (some a) (some b) none d h k = tt
cut_blocks-Cut blob n (some a) (some b) (some c) none h k = tt

walk_blocks-Ends :
    (is_utf8 : List ℕ → Bool) (info : BootInfo) (o : Option (List ℕ × List ℕ))
    → Cut o
    → Ends (walk_blocks is_utf8 info o)
unfolding walk_blocks
walk_blocks-Ends is_utf8 info none h = (info, refl)
walk_blocks-Ends is_utf8 info (some (block, strings)) h =
    walk_ends is_utf8 block h.0 h.1 strings info

parse_blob-Ends :
    (is_utf8 : List ℕ → Bool) (slice_at : ℕ → ℕ → List ℕ) (a : ℕ) (info : BootInfo) (o : Option ℕ)
    → ((x n : ℕ) → IsBytes (slice_at x n))
    → Ends (parse_blob is_utf8 slice_at a info o)
unfolding parse_blob blocks
parse_blob-Ends is_utf8 slice_at a info none h = (info, refl)
parse_blob-Ends is_utf8 slice_at a info (some n) h =
    walk_blocks-Ends is_utf8 info (blocks (slice_at a n) n) (
      cut_blocks-Cut (slice_at a n) n _ _ (be32 (slice_at a n) 36) _ (h a n)
        (be32-Below (slice_at a n) 36 (h a n)))

-- Whatever bytes stand in memory at the address of the blob, the parser ends with a description of the
-- machine.
pub parse_or_fallback-Ends :
    (is_utf8 : List ℕ → Bool) (slice_at : ℕ → ℕ → List ℕ) (dtb_addr : ℕ)
    → ((x n : ℕ) → IsBytes (slice_at x n))
    → Ends (parse_or_fallback is_utf8 slice_at dtb_addr)
unfolding parse_or_fallback
parse_or_fallback-Ends is_utf8 slice_at a h =
    if_both Ends (a == 0) (λ e. (_, refl)) (λ e. parse_blob-Ends is_utf8 slice_at a _ _ h)

-- ===== src/Base/Bytes.antt =====
-- Reading lists of bytes that are put together, where a byte behind the end reads as zero.
use Prim.Native.Nat.{ℕ, zero, suc, ◌+◌, ◌-◌, ◌≤◌}
use mathlib.Core.Path.{◌≡◌, refl, ap, ◌∙◌}
use mathlib.Core.Bool.{◌&&◌}
use mathlib.Core.List.{List, [], ◌∷◌, ◌++◌}
use native.Mathlib.Omega.{arith}
use hyperion_os.Base.Tests.{ltb, leb, if◌then◌else◌}
use hyperion_os.Base.Lists.{length, get_or, take, drop, length-append, length-take}

pub get_or-append :
    (xs ys : List ℕ) (i : ℕ)
    → get_or (xs ++ ys) i 0
      ≡ (if ltb i (length xs) then get_or xs i 0 else get_or ys (i - length xs) 0)
get_or-append [] ys i = ground arith
get_or-append (x ∷ xs) ys zero = ground arith
get_or-append (x ∷ xs) ys (suc i) = ground (arith, get_or-append xs ys i)

pub get_or-take :
    (n i : ℕ) (xs : List ℕ) → get_or (take n xs) i 0 ≡ (if ltb i n then get_or xs i 0 else 0)
get_or-take zero i xs = ground arith
get_or-take (suc n) i [] = ground arith
get_or-take (suc n) zero (x ∷ xs) = ground arith
get_or-take (suc n) (suc i) (x ∷ xs) = ground (arith, get_or-take n i xs)

pub get_or-drop : (n i : ℕ) (xs : List ℕ) → get_or (drop n xs) i 0 ≡ get_or xs (n + i) 0
get_or-drop zero i xs = ap (λ k. get_or xs k 0) (omega arith)
get_or-drop (suc n) i [] = refl
get_or-drop (suc n) i (x ∷ xs) = get_or-drop n i xs ∙ ap (λ k. get_or (x ∷ xs) k 0) next
  where
    next : suc (n + i) ≡ suc n + i
    next = omega arith

-- `buf` copied over the bytes of `v` from `offset` on.
pub get_or-splice :
    (offset i : ℕ) (buf v : List ℕ)
    → offset + length buf ≤ length v
    → get_or (take offset v ++ buf ++ drop (offset + length buf) v) i 0 ≡ (
        if leb offset i && ltb i (offset + length buf)
        then get_or buf (i - offset) 0
        else get_or v i 0)
get_or-splice offset i buf v h = ground (
  arith,
  get_or-append (take offset v ++ buf) (drop (offset + length buf) v) i,
  get_or-append (take offset v) buf i,
  length-append (take offset v) buf,
  length-take offset v,
  get_or-take offset i v,
  get_or-drop (offset + length buf) (i - length (take offset v ++ buf)) v,
  λ (e : offset + length buf + (i - length (take offset v ++ buf)) ≡ i).
      ap (λ (k : ℕ). get_or v k 0) e,
  λ (e : i - length (take offset v) ≡ i - offset). ap (λ (k : ℕ). get_or buf k 0) e,
)

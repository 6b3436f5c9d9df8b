-- ===== src/Base/Text.antt =====
-- Literals of the source as lists of bytes, and the functions of `str` that the source calls.
use Prim.Native.Nat.{ℕ}
use Prim.Native.Char.{code}
use Prim.Native.String.{String}
use mathlib.Core.Bool.{Bool, true, false, ◌&&◌, ◌||◌}
use mathlib.Core.List.{List, [], ◌∷◌, ◌++◌}
use hyperion_os.Base.Tests.{◌==◌, if◌then◌else◌}
use hyperion_os.Base.Ord.{Name, name_eq}

-- The bytes of a literal, all of them ASCII.
abbrev pub codes : String → Name
codes String.[] = []
codes (String.◌∷◌ c s) = code c ∷ codes s

abbrev pub starts_with : Name → Name → Bool
starts_with s [] = true
starts_with [] (p ∷ ps) = false
starts_with (c ∷ s) (p ∷ ps) = c == p && starts_with s ps

-- `s.contains(p)`: `p` starts somewhere in `s`, the empty one everywhere.
abbrev pub contains : Name → Name → Bool
contains [] p = starts_with [] p
contains (c ∷ s) p = starts_with (c ∷ s) p || contains s p

-- `s.split(c).next()`: what stands before the first `c`.
abbrev pub before : ℕ → Name → Name
before c [] = []
before c (b ∷ s) = if b == c then [] else b ∷ before c s

-- `s.rsplit(c).next()`: what stands behind the last `c`, with what has been read since.
abbrev pub behind : ℕ → Name → Name → Name
behind c seen [] = seen
behind c seen (b ∷ s) = if b == c then behind c [] s else behind c (seen ++ b ∷ []) s

abbrev pub one_of : Name → List Name → Bool
one_of s [] = false
one_of s (w ∷ ws) = name_eq w s || one_of s ws

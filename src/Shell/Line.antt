-- ===== src/Shell/Line.antt =====
-- kernel/src/shell/mod.rs: the reading of a line. The bytes that arrive are an argument, those that are
-- echoed are a result; `none` means that the reader still waits.
pub mod Screen
mod Tests
use hyperion_os.Base.{
  ℕ, List, [], ◌∷◌, ◌++◌, Option, none, some, Bool, ◌==◌, leb, ◌&&◌, ◌||◌, if◌then◌else◌,
}

-- `buf.pop()`: what is left of a line.
pub pop : List ℕ → Option (List ℕ)
pop [] = none
pop (c ∷ cs) = elim (pop cs) [ none ↦ some [] | some rest ↦ some (c ∷ rest) ]

abbrev pub is_newline : ℕ → Bool
is_newline b = b == 13 || b == 10

abbrev pub is_erase : ℕ → Bool
is_erase b = b == 127 || b == 8

abbrev pub is_printable : ℕ → Bool
is_printable b = leb 32 b && leb b 126

-- The line and the echo after the last byte is erased.
pub erase : List ℕ → List ℕ → Option (List ℕ) → List ℕ × List ℕ
erase buf out none = (buf, out)
erase buf out (some rest) = (rest, out ++ 8 ∷ 32 ∷ 8 ∷ [])

-- A key that does not end the line.
pub on_key : ℕ → List ℕ × List ℕ → List ℕ × List ℕ
on_key b (buf, out) =
    if is_erase b
    then erase buf out (pop buf)
    else if is_printable b
    then (buf ++ b ∷ [], out ++ b ∷ [])
    else (buf, out)

-- The line, the echo, and the bytes that are left.
pub read_line : List ℕ → List ℕ × List ℕ → Option (List ℕ × List ℕ × List ℕ)
read_line [] s = none
read_line (b ∷ bs) s =
    let rest = read_line bs (on_key b s) in
    if is_newline b then some (s.0, s.1 ++ 13 ∷ 10 ∷ [], bs) else rest

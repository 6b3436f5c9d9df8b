-- ===== src/Shell/Line/Tests.antt =====
-- kernel/src/shell/mod.rs: lines with erased characters.
use hyperion_os.Base.{ℕ, ◌≡◌, refl, List, [], ◌∷◌, some}
use hyperion_os.Shell.Line.{pop, erase, on_key, read_line}
use hyperion_os.Shell.Line.Screen.{Read, read_line-Read, is_some, has_newline, read_line-newline}

-- "ax", erase, "b", a byte that is ignored, the end of the line, and one byte more.
abbrev typed : List ℕ
typed = 97 ∷ 120 ∷ 127 ∷ 98 ∷ 1 ∷ 13 ∷ 99 ∷ []

line :
    read_line typed ([], [])
    ≡ some (97 ∷ 98 ∷ [], 97 ∷ 120 ∷ 8 ∷ 32 ∷ 8 ∷ 98 ∷ 13 ∷ 10 ∷ [], 99 ∷ [])
unfolding read_line on_key erase pop
line = refl

read_line-Read_example : Read (read_line typed ([], []))
read_line-Read_example = read_line-Read typed

read_line-newline_example : is_some (read_line typed ([], [])) ≡ has_newline typed
read_line-newline_example = read_line-newline typed ([], [])

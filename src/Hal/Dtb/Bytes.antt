-- ===== src/Hal/Dtb/Bytes.antt =====
-- kernel/src/hal/dtb.rs: reading the bytes of the blob. `is_utf8` is the test of
-- `core::str::from_utf8`.
use hyperion_os.Base.{
  ℕ, ◌+◌, ◌-◌, ◌*◌, ◌^◌, List, [], ◌∷◌, Option, none, some, Bool, ◌==◌, ltb, leb, ◌||◌,
  if◌then◌else◌, length, take, drop, bit_and,
}
use hyperion_os.Base.Ord.{Name}

-- `from_be_bytes`, with the number read so far.
unfoldable pub from_be : ℕ → List ℕ → ℕ
from_be n [] = n
from_be n (b ∷ bs) = from_be (n * 256 + b) bs

-- `offset.checked_add(n)` fails where the sum leaves 64 bits.
unfoldable pub be_word : ℕ → List ℕ → ℕ → Option ℕ
be_word n bytes offset =
    if leb (2 ^ 64) (offset + n) || ltb (length bytes) (offset + n)
    then none
    else some (from_be 0 (take n (drop offset bytes)))

unfoldable pub be32 : List ℕ → ℕ → Option ℕ
be32 bytes offset = be_word 4 bytes offset

unfoldable pub be64 : List ℕ → ℕ → Option ℕ
be64 bytes offset = be_word 8 bytes offset

-- `unwrap_or(0)`.
abbrev pub or_zero : Option ℕ → ℕ
or_zero none = 0
or_zero (some v) = v

-- `&tail[..end]`, where `end` is the position of the first NUL or the length.
unfoldable pub until_nul : List ℕ → List ℕ
until_nul [] = []
until_nul (b ∷ bs) = if b == 0 then [] else b ∷ until_nul bs

-- `from_utf8(…).unwrap_or("")`.
abbrev pub utf8_or_empty : (List ℕ → Bool) → List ℕ → Name
utf8_or_empty is_utf8 bytes = if is_utf8 bytes then bytes else []

unfoldable pub cstr : (List ℕ → Bool) → List ℕ → ℕ → Name
cstr is_utf8 bytes offset =
    if leb (length bytes) offset then [] else utf8_or_empty is_utf8 (until_nul (drop offset bytes))

-- `(cursor + 3) & !3` on a `usize`; the cursors of a blob below 4 GiB do not wrap.
unfoldable pub align4 : ℕ → ℕ
align4 cursor = bit_and (cursor + 3) (2 ^ 64 - 2 ^ 2)

unfoldable pub read_cells : List ℕ → ℕ → ℕ → ℕ
read_cells bytes offset cells =
    if cells == 1
    then or_zero (be32 bytes offset)
    else if cells == 2
    then or_zero (be64 bytes offset)
    else 0

-- ===== src/Display/Framebuffer/Painted.antt =====
-- kernel/src/display/framebuffer.rs: which bytes a rectangle paints, and with what.
use hyperion_os.Base.{
  ℕ, zero, suc, ◌+◌, ◌-◌, ◌*◌, ◌%◌, ◌<◌, ◌≤◌, ◌≡◌, refl, ap, subst, ◌∙◌, List, ◌++◌, Option, none,
  some, Bool, ltb, leb, ◌&&◌, if◌then◌else◌, if_both, length, get_or, take, drop, arith,
  length-append, length-take, length-drop,
}
use hyperion_os.Base.Bytes.{get_or-splice}
use native.Mathlib.Nat.{suc-mul, mul-le-mul_right}
use hyperion_os.Display.Framebuffer.{copy_pixel, and_then, fill_row, fill_rows}

-- A buffer of `len` bytes, of which the one at `i` is `v`: no panic.
abbrev pub Shows : ℕ → ℕ → ℕ → Option (List ℕ) → Type 0
Shows len i v none = ⊥
Shows len i v (some buf) = (length buf ≡ len) × (get_or buf i 0 ≡ v)

-- The byte at `i` when the pixels from `off` to `end` are painted.
abbrev painted : ℕ → ℕ → List ℕ → List ℕ → ℕ → ℕ
painted off end pix buf i =
    if leb off i && ltb i end then get_or pix ((i - off) % 4) 0 else get_or buf i 0

first_pixel :
    (off i : ℕ) (pix : List ℕ) → i < off + 4 → get_or pix (i - off) 0 ≡ get_or pix ((i - off) % 4) 0
first_pixel off i pix h = ap (λ k. get_or pix k 0) (omega (arith, h))

copy_pixel-Shows :
    (off i : ℕ) (pix buf : List ℕ)
    → length pix ≡ 4
    → off + 4 ≤ length buf
    → Shows (length buf) i (painted off (off + 4) pix buf i) (copy_pixel off pix buf)
unfolding copy_pixel
copy_pixel-Shows off i pix buf p h =
    if_both (Shows (length buf) i (painted off (off + 4) pix buf i)) (ltb (length buf) (off + 4))
      (λ e. absurd (ground (arith, e, h)))
      (λ e. (
        length-append (take off buf ++ pix) (drop (off + 4) buf)
            ∙ omega (
              arith,
              length-append (take off buf) pix,
              length-take off buf,
              length-drop (off + 4) buf,
              p,
              h,
            ),
        subst
              (λ k.
                get_or (take off buf ++ pix ++ drop (off + k) buf) i 0
                ≡ (if leb off i && ltb i (off + k) then get_or pix (i - off) 0 else get_or buf i 0))
              p (get_or-splice off i pix buf (omega (arith, p, h)))
            ∙ ground (arith, first_pixel off i pix),
      ))

and_then-Shows :
    (len i v : ℕ) (o : Option (List ℕ)) (k : List ℕ → Option (List ℕ)) (u : ℕ)
    → Shows len i u o
    → ((buf : List ℕ) → length buf ≡ len → get_or buf i 0 ≡ u → Shows len i v (k buf))
    → Shows len i v (and_then o k)
unfolding and_then
and_then-Shows len i v none k u s h = s
and_then-Shows len i v (some buf) k u s h = h buf s.0 s.1

next_pixel :
    (off i : ℕ) (pix : List ℕ)
    → off + 4 ≤ i
    → get_or pix ((i - (off + 4)) % 4) 0 ≡ get_or pix ((i - off) % 4) 0
next_pixel off i pix h = ap (λ k. get_or pix k 0) (omega (arith, h))

painted_next :
    (n off i : ℕ) (pix buf b : List ℕ)
    → get_or b i 0 ≡ painted off (off + 4) pix buf i
    → painted (off + 4) (off + 4 + n * 4) pix b i ≡ painted off (off + suc n * 4) pix buf i
painted_next n off i pix buf b g = ground (arith, g, next_pixel off i pix, suc-mul n 4)

fill_row-Shows :
    (n off i : ℕ) (pix buf : List ℕ)
    → length pix ≡ 4
    → off + n * 4 ≤ length buf
    → Shows (length buf) i (painted off (off + n * 4) pix buf i) (fill_row n off pix buf)
unfolding fill_row
fill_row-Shows zero off i pix buf p h = (refl, ground arith)
fill_row-Shows (suc n) off i pix buf p h =
    and_then-Shows (length buf) i (painted off (off + suc n * 4) pix buf i) (copy_pixel off pix buf)
      (fill_row n (off + 4) pix) (painted off (off + 4) pix buf i)
      (copy_pixel-Shows off i pix buf p (omega (arith, h)))
      (λ b e g.
        subst
          (λ l. Shows l i (painted off (off + suc n * 4) pix buf i) (fill_row n (off + 4) pix b)) e
          (subst (λ v. Shows (length b) i v (fill_row n (off + 4) pix b))
            (painted_next n off i pix buf b g)
            (fill_row-Shows n (off + 4) i pix b p (omega (arith, h, e)))))

-- Whether the column is one of `n` from `x` on, and the row one of `rows` from `y` on.
abbrev pub inside : ℕ → ℕ → ℕ → ℕ → ℕ → ℕ → Bool
inside x n y rows c r = leb x c && ltb c (x + n) && leb y r && ltb r (y + rows)

-- The byte `j` of the pixel in the column `c` and the row `r`.
abbrev pub pixel_byte : ℕ → ℕ → ℕ → ℕ → ℕ
pixel_byte stride c r j = r * stride + c * 4 + j

rows_apart : (stride r y : ℕ) → r < y → r * stride + stride ≤ y * stride
rows_apart stride r y h =
    omega (arith, suc-mul r stride, mul-le-mul_right {m = r + 1} {n = y} stride (omega (arith, h)))

rows_same : (stride r y : ℕ) → r ≡ y → r * stride ≡ y * stride
rows_same stride r y e = ap (λ (k : ℕ). k * stride) e

-- The pixel is in the row that is painted exactly if its bytes are among those of the row.
row_iff :
    (stride width x n y c r j : ℕ)
    → width * 4 ≤ stride
    → x + n ≤ width
    → c < width
    → j < 4
    → (leb (y * stride + x * 4) (pixel_byte stride c r j)
        && ltb (pixel_byte stride c r j) (y * stride + x * 4 + n * 4))
      ≡ inside x n y 1 c r
row_iff stride width x n y c r j s a b k =
    ground (arith, rows_apart stride r y, rows_apart stride y r, rows_same stride r y)

painted_byte :
    (stride x y c r j : ℕ) (pix : List ℕ)
    → r ≡ y
    → x ≤ c
    → j < 4
    → get_or pix ((pixel_byte stride c r j - (y * stride + x * 4)) % 4) 0 ≡ get_or pix j 0
painted_byte stride x y c r j pix e h k =
    ap (λ i. get_or pix i 0) (omega (arith, rows_same stride r y e, h, k))

painted_pixel :
    (stride width x n y c r j : ℕ) (pix buf : List ℕ)
    → width * 4 ≤ stride
    → x + n ≤ width
    → c < width
    → j < 4
    → painted (y * stride + x * 4) (y * stride + x * 4 + n * 4) pix buf (pixel_byte stride c r j)
      ≡ (if inside x n y 1 c r then get_or pix j 0 else get_or buf (pixel_byte stride c r j) 0)
painted_pixel stride width x n y c r j pix buf s a b k =
    ap
      (λ t.
        if t
        then get_or pix ((pixel_byte stride c r j - (y * stride + x * 4)) % 4) 0
        else get_or buf (pixel_byte stride c r j) 0)
      (row_iff stride width x n y c r j s a b k)
    ∙ ground (arith, painted_byte stride x y c r j pix)

pub fill_rows-Shows :
    (rows stride width x n y c r j : ℕ) (pix buf : List ℕ)
    → length pix ≡ 4
    → width * 4 ≤ stride
    → x + n ≤ width
    → c < width
    → j < 4
    → y * stride + rows * stride ≤ length buf
    → Shows
        (length buf)
        (pixel_byte stride c r j)
        (if inside x n y rows c r then get_or pix j 0 else get_or buf (pixel_byte stride c r j) 0)
        (fill_rows rows n (y * stride + x * 4) stride pix buf)
unfolding fill_rows
fill_rows-Shows zero stride width x n y c r j pix buf p s a b k h = (refl, ground arith)
fill_rows-Shows (suc rows) stride width x n y c r j pix buf p s a b k h =
    and_then-Shows (length buf) i v (fill_row n off pix buf)
      (fill_rows rows n (off + stride) stride pix) u
      (subst (λ v. Shows (length buf) i v (fill_row n off pix buf))
        (painted_pixel stride width x n y c r j pix buf s a b k)
        (fill_row-Shows n off i pix buf p (omega (arith, a, s, h, suc-mul rows stride))))
      (λ d e g.
        subst (λ l. Shows l i v (fill_rows rows n (off + stride) stride pix d)) e
          (subst (λ o. Shows (length d) i v (fill_rows rows n o stride pix d))
            (omega (arith, suc-mul y stride))
            (subst
              (λ v. Shows (length d) i v (fill_rows rows n (suc y * stride + x * 4) stride pix d))
              (ground (arith, g))
              (fill_rows-Shows rows stride width x n (suc y) c r j pix d p s a b k
                (omega (arith, h, e, suc-mul rows stride, suc-mul y stride))))))
  where
    i : ℕ
    i = pixel_byte stride c r j

    off : ℕ
    off = y * stride + x * 4

    u : ℕ
    u = if inside x n y 1 c r then get_or pix j 0 else get_or buf i 0

    v : ℕ
    v = if inside x n y (suc rows) c r then get_or pix j 0 else get_or buf i 0

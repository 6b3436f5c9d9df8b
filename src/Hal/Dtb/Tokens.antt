-- ===== src/Hal/Dtb/Tokens.antt =====
-- kernel/src/hal/dtb.rs: the walk of a well-formed structure block, read as the list of its tokens.
use hyperion_os.Base.{
  ℕ, zero, suc, ◌+◌, ◌-◌, ◌/◌, ◌%◌, ◌^◌, ◌<◌, ◌≡◌, refl, sym, ap, ◌∙◌, List, [], ◌∷◌, ◌++◌, some,
  Bool, true, ◌==◌, ltb, leb, ◌||◌, ◌&&◌, if◌then◌else◌, if_both, length, get_or, take, drop,
  replicate, arith, length-drop, length-append, length-replicate, drop-append,
}
use hyperion_os.Base.Bits.{bit_and-align}
use hyperion_os.Base.Ord.{Name, name_eq}
use hyperion_os.Base.Text.{codes}
use hyperion_os.Hal.BootInfo.{BootInfo}
use hyperion_os.Hal.Dtb.Bytes.{be32, be_word, from_be, until_nul, cstr, utf8_or_empty, align4}
use hyperion_os.Hal.Dtb.Nodes.{
  WalkCtx, NodeProps, max_depth, handle_prop, set_compatible, set_stdout,
}
use hyperion_os.Hal.Dtb.Walk.{begin_node, end_node, prop, nop, open_ctx, open_props, leave, act}

-- A token of the structure block.
pub data Token : Type 0 where
  begin : Name → Token
  end : Token
  property : ℕ → List ℕ → Token
  no_op : Token

-- `to_be_bytes` of a `u32`.
abbrev pub be_bytes : ℕ → List ℕ
be_bytes v = v / 16777216 ∷ v / 65536 % 256 ∷ v / 256 % 256 ∷ v % 256 ∷ []

-- The zeros up to the next multiple of four.
abbrev pub pad : ℕ → List ℕ
pad n = replicate ((4 - n % 4) % 4) 0

-- The bytes of a token, before those of the rest.
abbrev pub emit : Token → List ℕ → List ℕ
emit (begin name) rest = be_bytes begin_node ++ (name ++ (0 ∷ (pad (length name + 1) ++ rest)))
emit end rest = be_bytes end_node ++ rest
emit (property off value) rest =
    be_bytes prop
    ++ (be_bytes (length value) ++ (be_bytes off ++ (value ++ (pad (length value) ++ rest))))
emit no_op rest = be_bytes nop ++ rest

-- A structure block with these tokens and FDT_END.
abbrev pub encode : List Token → List ℕ
encode [] = be_bytes 9
encode (t ∷ ts) = emit t (encode ts)

-- What the walk makes of the tokens.
unfoldable pub run :
    (List ℕ → Bool) → List ℕ → List Token → WalkCtx × NodeProps → BootInfo → BootInfo
run is_utf8 strings [] s info = info
run is_utf8 strings (begin name ∷ ts) (c, p) info =
    run is_utf8 strings ts (open_ctx (c.depth + 1) name c, open_props (c.depth + 1) name p) info
run is_utf8 strings (end ∷ ts) (c, p) info =
    let rest = run is_utf8 strings ts (leave (get_or p.name c.depth []) c, p) (act c p info) in
    if c.depth == 0 then info else rest
run is_utf8 strings (property off value ∷ ts) s info =
    run is_utf8 strings ts (handle_prop is_utf8 (cstr is_utf8 strings off) value s) info
run is_utf8 strings (no_op ∷ ts) s info = run is_utf8 strings ts s info

abbrev pub NoNul : List ℕ → Type 0
NoNul [] = Unit {0}
NoNul (b ∷ bs) = (0 < b) × NoNul bs

-- Names are text without a NUL, offsets fit their word, and from the depth `d` the nodes stay above the
-- deepest that the walk follows.
abbrev pub Readable : (List ℕ → Bool) → ℕ → List Token → Type 0
Readable is_utf8 d [] = Unit {0}
Readable is_utf8 d (begin name ∷ ts) =
    NoNul name × (is_utf8 name ≡ true) × (d + 1 < max_depth) × Readable is_utf8 (d + 1) ts
Readable is_utf8 d (end ∷ ts) = Readable is_utf8 (d - 1) ts
Readable is_utf8 d (property off value ∷ ts) = (off < 2 ^ 32) × Readable is_utf8 d ts
Readable is_utf8 d (no_op ∷ ts) = Readable is_utf8 d ts

drop_nil : (n : ℕ) → drop {A = ℕ} n [] ≡ []
drop_nil zero = refl
drop_nil (suc n) = refl

drop-drop : (m n : ℕ) (xs : List ℕ) → drop (m + n) xs ≡ drop n (drop m xs)
drop-drop zero n xs = ap (λ k. drop k xs) (omega arith)
drop-drop (suc m) n [] = drop_nil (suc m + n) ∙ sym (drop_nil n)
drop-drop (suc m) n (x ∷ xs) = ap (λ k. drop k (x ∷ xs)) shift ∙ drop-drop m n xs
  where
    shift : suc m + n ≡ suc (m + n)
    shift = omega arith

pub advance :
    (c : ℕ) (block xs rest : List ℕ) → drop c block ≡ xs ++ rest → drop (c + length xs) block ≡ rest
advance c block xs rest e =
    drop-drop c (length xs) block ∙ ap (drop (length xs)) e ∙ drop-append (length xs) xs rest refl

pub room_for :
    (c : ℕ) (block xs rest : List ℕ)
    → drop c block ≡ xs ++ rest
    → 0 < length xs
    → c + length xs + length rest ≡ length block
room_for c block xs rest e p =
    omega (arith, ap length e, length-drop c block, length-append xs rest, p)

from_be_bytes : (v : ℕ) → v < 2 ^ 32 → from_be 0 (be_bytes v) ≡ v
unfolding from_be
from_be_bytes v h = omega (arith, h)

pub be32_at :
    (c v : ℕ) (block rest : List ℕ)
    → length block < 2 ^ 32
    → v < 2 ^ 32
    → drop c block ≡ be_bytes v ++ rest
    → be32 block c ≡ some v
unfolding be32 be_word
be32_at c v block rest small h e =
    if_both (λ o. o ≡ some v) (leb (2 ^ 64) (c + 4) || ltb (length block) (c + 4))
      (λ b. absurd (ground (arith, b, small, room_for c block (be_bytes v) rest e (omega arith))))
      (λ b. ap some (ap (λ bs. from_be 0 (take 4 bs)) e ∙ from_be_bytes v h))

until_nul-append : (name rest : List ℕ) → NoNul name → until_nul (name ++ (0 ∷ rest)) ≡ name
unfolding until_nul
until_nul-append [] rest n = refl
until_nul-append (b ∷ bs) rest n = ground (arith, n, until_nul-append bs rest n.1)

pub cstr_at :
    (is_utf8 : List ℕ → Bool) (c : ℕ) (block name rest : List ℕ)
    → NoNul name
    → is_utf8 name ≡ true
    → drop c block ≡ name ++ (0 ∷ rest)
    → cstr is_utf8 block c ≡ name
unfolding cstr
cstr_at is_utf8 c block name rest n u e =
    if_both (λ s. s ≡ name) (leb (length block) c)
      (λ b.
        absurd (ground (arith, b, length-drop c block, ap length e, length-append name (0 ∷ rest))))
      (λ b.
        ap (λ bs. utf8_or_empty is_utf8 (until_nul bs)) e
        ∙ ap (utf8_or_empty is_utf8) (until_nul-append name rest n)
        ∙ ap (λ b. if b then name else []) u)

pub align4-pad :
    (c n : ℕ) → c % 4 ≡ 0 → c + n + 3 < 2 ^ 64 → align4 (c + n) ≡ c + n + length (pad n)
unfolding align4
align4-pad c n z h =
    bit_and-align 2 62 (c + n + 3) refl h
    ∙ omega (arith, z, length-replicate {A = ℕ} ((4 - n % 4) % 4) 0)

pub handle_prop-depth :
    (is_utf8 : List ℕ → Bool) (pname : Name) (value : List ℕ) (c : WalkCtx) (p : NodeProps)
    → (handle_prop is_utf8 pname value (c, p)).0.depth ≡ c.depth
unfolding handle_prop set_compatible set_stdout
handle_prop-depth is_utf8 pname value c p =
    if_both same (name_eq pname (codes "#address-cells")) (λ _. refl)
      (λ _.
        if_both same (name_eq pname (codes "#size-cells")) (λ _. refl)
          (λ _.
            if_both same (name_eq pname (codes "compatible")) (λ _. refl)
              (λ _.
                if_both same (name_eq pname (codes "reg")) (λ _. refl)
                  (λ _.
                    if_both same (name_eq pname (codes "clock-frequency")) (λ _. refl)
                      (λ _.
                        if_both same (name_eq pname (codes "stdout-path"))
                          (λ _.
                            if_both (λ (d : WalkCtx). d.depth ≡ c.depth)
                              (ltb 0 c.depth && c.in_chosen && is_utf8 (until_nul value))
                              (λ _. refl) (λ _. refl))
                          (λ _.
                            if_both same (name_eq pname (codes "width")) (λ _. refl)
                              (λ _.
                                if_both same (name_eq pname (codes "height")) (λ _. refl)
                                  (λ _.
                                    if_both same (name_eq pname (codes "stride")) (λ _. refl)
                                      (λ _.
                                        if_both same (name_eq pname (codes "format")) (λ _. refl)
                                          (λ _. refl))))))))))
  where
    same : WalkCtx × NodeProps → Type 0
    same s = s.0.depth ≡ c.depth

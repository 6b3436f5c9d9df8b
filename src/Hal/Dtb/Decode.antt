-- ===== src/Hal/Dtb/Decode.antt =====
-- kernel/src/hal/dtb.rs: the walk over the bytes of a list of tokens is the run of the tokens.
use hyperion_os.Base.{
  inl, inr, Bool-cases, Bool-cases, ℕ, zero, suc, ◌+◌, ◌-◌, ◌%◌, ◌^◌, ◌≤◌, ◌<◌, ◌≡◌, refl, sym, ap,
  subst, ◌∙◌, List, [], ◌∷◌, ◌++◌, Option, none, some, Bool, true, ◌==◌, ltb, leb, if_both, length,
  take, drop, arith, length-drop, length-append, length-replicate, take-append,
}
use hyperion_os.Base.Ord.{Name}
use hyperion_os.Hal.BootInfo.{BootInfo}
use hyperion_os.Hal.Dtb.Bytes.{be32, cstr, align4}
use hyperion_os.Hal.Dtb.Nodes.{WalkCtx, NodeProps, max_depth, default_ctx, no_props, handle_prop}
use hyperion_os.Hal.Dtb.Walk.{
  Walk, Flow, next, done, after_name, open_ctx, open_props, open_node, leave, close_node, put_prop,
  read_prop, token, round, and_next, rounds, walk,
}
use hyperion_os.Hal.Dtb.Tokens.{
  Token, begin, end, property, no_op, be_bytes, pad, encode, run, NoNul, Readable, advance,
  room_for, be32_at, cstr_at, align4-pad, handle_prop-depth,
}

put : ℕ → WalkCtx × NodeProps → BootInfo → Flow
put c (x, p) info = next (record { cursor = c; ctx = x; props = p; info = info })

module _ (is_utf8 : List ℕ → Bool) (block strings : List ℕ) (small : length block < 2 ^ 32) where
  -- A round reads the token that stands at the cursor.
  round_reads :
      (w : Walk) (t : ℕ) (rest : List ℕ)
      → t < 2 ^ 32
      → drop w.cursor block ≡ be_bytes t ++ rest
      → round is_utf8 block strings w
        ≡ token is_utf8 block strings (record w { cursor = w.cursor + 4 }) t
  unfolding round
  round_reads w t rest h e =
      if_both (λ f. f ≡ token is_utf8 block strings (record w { cursor = w.cursor + 4 }) t)
        (ltb (length block) (w.cursor + 4))
        (λ b. absurd (ground (arith, b, room_for w.cursor block (be_bytes t) rest e (omega arith))))
        (λ b. ap read (be32_at w.cursor t block rest small h e))
    where
      read : Option ℕ → Flow
      read o = elim o [
        | none ↦ done w.info
        | some t ↦ token is_utf8 block strings (record w { cursor = w.cursor + 4 }) t
      ]

  begin_lem :
      (w : Walk) (name rest : List ℕ)
      → NoNul name
      → is_utf8 name ≡ true
      → w.ctx.depth + 1 < max_depth
      → drop w.cursor block ≡ name ++ (0 ∷ rest)
      → open_node is_utf8 block w
        ≡ next (record {
          cursor = align4 (w.cursor + length name + 1);
          ctx = open_ctx (w.ctx.depth + 1) name w.ctx;
          props = open_props (w.ctx.depth + 1) name w.props;
          info = w.info;
        })
  unfolding open_node after_name
  begin_lem w name rest n u h e =
      if_both (λ f. f ≡ opened name) (leb max_depth (w.ctx.depth + 1))
        (λ b. absurd (ground (arith, b, h)))
        (λ b. ap opened (cstr_at is_utf8 w.cursor block name rest n u e))
    where
      opened : Name → Flow
      opened s = next (record {
        cursor = align4 (w.cursor + length s + 1);
        ctx = open_ctx (w.ctx.depth + 1) s w.ctx;
        props = open_props (w.ctx.depth + 1) s w.props;
        info = w.info;
      })

  value_of :
      (c : ℕ) (value rest : List ℕ)
      → drop c block ≡ value ++ rest
      → take (c + length value - c) (drop c block) ≡ value
  value_of c value rest e =
      ap (λ k. take k (drop c block)) (omega arith)
      ∙ ap (take (length value)) e
      ∙ take-append (length value) value rest refl

  put_prop_lem :
      (w : Walk) (off : ℕ) (value rest : List ℕ)
      → w.cursor + length value ≤ length block
      → drop w.cursor block ≡ value ++ rest
      → put_prop is_utf8 block strings (w.cursor + length value) off w
        ≡ put
            (align4 (w.cursor + length value))
            (handle_prop is_utf8 (cstr is_utf8 strings off) value (w.ctx, w.props))
            w.info
  unfolding put_prop put
  put_prop_lem w off value rest h e =
      if_both
        (λ f.
          f
          ≡ put (align4 (w.cursor + length value))
              (handle_prop is_utf8 (cstr is_utf8 strings off) value (w.ctx, w.props)) w.info)
        (ltb (length block) (w.cursor + length value)) (λ b. absurd (ground (arith, b, h)))
        (λ b.
          ap
            (λ v.
              put (align4 (w.cursor + length value))
                (handle_prop is_utf8 (cstr is_utf8 strings off) v (w.ctx, w.props)) w.info)
            (value_of w.cursor value rest e))

  property_lem :
      (w : Walk) (off : ℕ) (value rest : List ℕ)
      → off < 2 ^ 32
      → drop w.cursor block ≡ be_bytes (length value) ++ (be_bytes off ++ (value ++ rest))
      → read_prop is_utf8 block strings w (be32 block w.cursor) (be32 block (w.cursor + 4))
        ≡ put
            (align4 (w.cursor + 8 + length value))
            (handle_prop is_utf8 (cstr is_utf8 strings off) value (w.ctx, w.props))
            w.info
  unfolding read_prop
  property_lem w off value rest h e =
      ap (λ o. read_prop is_utf8 block strings w o (be32 block (w.cursor + 4)))
        (be32_at w.cursor (length value) block (be_bytes off ++ (value ++ rest)) small short e)
      ∙ ap (read_prop is_utf8 block strings w (some (length value)))
          (be32_at (w.cursor + 4) off block (value ++ rest) small h behind)
      ∙ put_prop_lem (record w { cursor = w.cursor + 8 }) off value rest
          (omega (
            arith,
            room_for (w.cursor + 4) block (be_bytes off) (value ++ rest) behind (omega arith),
            length-append value rest,
          ))
          (ap (λ k. drop k block) (omega arith)
            ∙ advance (w.cursor + 4) block (be_bytes off) (value ++ rest) behind)
    where
      behind : drop (w.cursor + 4) block ≡ be_bytes off ++ (value ++ rest)
      behind = advance w.cursor block (be_bytes (length value)) (be_bytes off ++ (value ++ rest)) e

      short : length value < 2 ^ 32
      short = omega (
        arith,
        small,
        room_for w.cursor block (be_bytes (length value)) (be_bytes off ++ (value ++ rest)) e
            (omega arith),
        length-append (be_bytes off) (value ++ rest),
        length-append value rest,
      )

  -- Behind `n` bytes and their padding.
  padded :
      (c n m : ℕ) (rest : List ℕ)
      → m ≡ c + n
      → c % 4 ≡ 0
      → m < 2 ^ 33
      → drop m block ≡ pad n ++ rest
      → (align4 m % 4 ≡ 0) × (drop (align4 m) block ≡ rest)
  padded c n m rest q z h e = (
    omega (arith, cursor, z, length-replicate {A = ℕ} ((4 - n % 4) % 4) 0),
    ap (λ k. drop k block) cursor
        ∙ advance (c + n) block (pad n) rest (ap (λ k. drop k block) (sym q) ∙ e),
  )
    where
      cursor : align4 m ≡ c + n + length (pad n)
      cursor = ap align4 q ∙ align4-pad c n z (omega (arith, h, q))

  begin_rest :
      (c : ℕ) (name rest : List ℕ)
      → c % 4 ≡ 0
      → drop (c + 4) block ≡ name ++ (0 ∷ (pad (length name + 1) ++ rest))
      → c + 4 ≤ length block
      → (align4 (c + 4 + length name + 1) % 4 ≡ 0)
        × (drop (align4 (c + 4 + length name + 1)) block ≡ rest)
  begin_rest c name rest z e h =
      padded (c + 4) (length name + 1) (c + 4 + length name + 1) rest (omega arith)
        (omega (arith, z))
        (omega (
          arith,
          small,
          h,
          ap length e,
          length-drop (c + 4) block,
          length-append name (0 ∷ (pad (length name + 1) ++ rest)),
        ))
        (advance (c + 4 + length name) block (0 ∷ []) (pad (length name + 1) ++ rest)
          (advance (c + 4) block name (0 ∷ (pad (length name + 1) ++ rest)) e))

  property_rest :
      (c off : ℕ) (value rest : List ℕ)
      → c % 4 ≡ 0
      → drop (c + 4) block
        ≡ be_bytes (length value) ++ (be_bytes off ++ (value ++ (pad (length value) ++ rest)))
      → (align4 (c + 4 + 8 + length value) % 4 ≡ 0)
        × (drop (align4 (c + 4 + 8 + length value)) block ≡ rest)
  property_rest c off value rest z e =
      padded (c + 4 + 8) (length value) (c + 4 + 8 + length value) rest refl (omega (arith, z))
        (omega (
          arith,
          small,
          room_for (c + 4) block (be_bytes (length value) ++ be_bytes off)
              (value ++ (pad (length value) ++ rest)) e (omega arith),
          length-append value (pad (length value) ++ rest),
        ))
        (advance (c + 4 + 8) block value (pad (length value) ++ rest) (
          advance (c + 4) block (be_bytes (length value) ++ be_bytes off)
            (value ++ (pad (length value) ++ rest)) e))

  -- The walk at a list of tokens, with enough rounds.
  rounds-run :
      (ts : List Token) (fuel : ℕ) (w : Walk)
      → length ts < fuel
      → w.cursor % 4 ≡ 0
      → Readable is_utf8 w.ctx.depth ts
      → drop w.cursor block ≡ encode ts
      → rounds is_utf8 block strings fuel w ≡ some (run is_utf8 strings ts (w.ctx, w.props) w.info)
  unfolding rounds run token and_next close_node put open_ctx open_props leave
  rounds-run ts zero w l z r e = absurd (omega arith)
  rounds-run [] (suc fuel) w l z r e =
      ap (and_next (rounds is_utf8 block strings fuel)) (round_reads w 9 [] (omega arith) e)
  rounds-run (begin name ∷ ts) (suc fuel) w l z r e =
      ap (and_next (rounds is_utf8 block strings fuel)) (
        round_reads w 1 _ (omega arith) e
        ∙ begin_lem (record w { cursor = w.cursor + 4 }) name (pad (length name + 1) ++ encode ts)
            r.0 r.1 r.2 behind)
      ∙ rounds-run ts fuel _ (omega (arith, l)) rest.0 r.3 rest.1
    where
      behind : drop (w.cursor + 4) block ≡ name ++ (0 ∷ (pad (length name + 1) ++ encode ts))
      behind =
          advance w.cursor block (be_bytes 1) (name ++ (0 ∷ (pad (length name + 1) ++ encode ts))) e

      rest :
          (align4 (w.cursor + 4 + length name + 1) % 4 ≡ 0)
          × (drop (align4 (w.cursor + 4 + length name + 1)) block ≡ encode ts)
      rest =
          begin_rest w.cursor name (encode ts) z behind
            (omega (arith, room_for w.cursor block (be_bytes 1) _ e (omega arith)))
  rounds-run (end ∷ ts) (suc fuel) w l z r e =
      ap (and_next (rounds is_utf8 block strings fuel)) (round_reads w 2 _ (omega arith) e)
      ∙ elim (Bool-cases (w.ctx.depth == 0)) [
        | inl b ↦ rw b refl
        | inr b ↦ rw b (
            rounds-run ts fuel _ (omega (arith, l)) (omega (arith, z)) r
              (advance w.cursor block (be_bytes 2) (encode ts) e))
      ]
  rounds-run (property off value ∷ ts) (suc fuel) w l z r e =
      ap (and_next (rounds is_utf8 block strings fuel)) (
        round_reads w 3 _ (omega arith) e
        ∙ property_lem (record w { cursor = w.cursor + 4 }) off value
            (pad (length value) ++ encode ts) r.0 behind)
      ∙ rounds-run ts fuel _ (omega (arith, l)) rest.0
          (subst (λ d. Readable is_utf8 d ts)
            (sym (handle_prop-depth is_utf8 (cstr is_utf8 strings off) value w.ctx w.props)) r.1)
          rest.1
    where
      behind :
          drop (w.cursor + 4) block
          ≡ be_bytes (length value)
            ++ (be_bytes off ++ (value ++ (pad (length value) ++ encode ts)))
      behind = advance w.cursor block (be_bytes 3) _ e

      rest :
          (align4 (w.cursor + 4 + 8 + length value) % 4 ≡ 0)
          × (drop (align4 (w.cursor + 4 + 8 + length value)) block ≡ encode ts)
      rest = property_rest w.cursor off value (encode ts) z behind
  rounds-run (no_op ∷ ts) (suc fuel) w l z r e =
      ap (and_next (rounds is_utf8 block strings fuel)) (round_reads w 4 _ (omega arith) e)
      ∙ rounds-run ts fuel (record w { cursor = w.cursor + 4 }) (omega (arith, l))
          (omega (arith, z)) r (advance w.cursor block (be_bytes 4) (encode ts) e)

length-encode : (ts : List Token) → length ts < length (encode ts)
length-encode [] = omega arith
length-encode (begin name ∷ ts) = omega (
  arith,
  length-encode ts,
  length-append name (0 ∷ (pad (length name + 1) ++ encode ts)),
  length-append (pad (length name + 1)) (encode ts),
)
length-encode (end ∷ ts) = omega (arith, length-encode ts)
length-encode (property off value ∷ ts) = omega (
  arith,
  length-encode ts,
  length-append value (pad (length value) ++ encode ts),
  length-append (pad (length value)) (encode ts),
)
length-encode (no_op ∷ ts) = omega (arith, length-encode ts)

-- The walk over the bytes of a list of tokens, closed by FDT_END and below 4 GiB, ends, and makes of the
-- description of the machine what the tokens say one after the other. The names are text without a NUL
-- and the nodes lie above the deepest that the walk follows.
pub walk-encode :
    (is_utf8 : List ℕ → Bool) (strings : List ℕ) (ts : List Token) (info : BootInfo)
    → length (encode ts) < 2 ^ 32
    → Readable is_utf8 0 ts
    → walk is_utf8 (encode ts) strings info
      ≡ some (run is_utf8 strings ts (default_ctx, no_props) info)
unfolding walk default_ctx no_props
walk-encode is_utf8 strings ts info small r =
    rounds-run is_utf8 (encode ts) strings small ts (length (encode ts) + 1) _
      (omega (arith, length-encode ts)) refl r refl

-- ===== src/Shell/Line/Screen.antt =====
-- kernel/src/shell/mod.rs: the terminal shows the line that is read.
use hyperion_os.Base.{
  ℕ, ◌≡◌, refl, sym, ap, subst, ◌∙◌, List, [], ◌∷◌, ◌++◌, Option, none, some, Bool, true, false,
  ◌==◌, ◌||◌, if◌then◌else◌, if_both, arith,
}
use hyperion_os.Shell.Line.{pop, is_newline, is_erase, is_printable, erase, on_key, read_line}

-- A terminal: what stands before the cursor and behind it.
abbrev pub Terminal : Type 0
Terminal = List ℕ × List ℕ

abbrev tail : List ℕ → List ℕ
tail [] = []
tail (c ∷ cs) = cs

-- The cursor one to the left, over the byte `c` that stands there.
abbrev last_or : List ℕ → ℕ → ℕ
last_or [] d = d
last_or (c ∷ cs) d = last_or cs c

abbrev back : Terminal → Option (List ℕ) → Terminal
back (left, right) none = (left, right)
back (left, right) (some rest) = (rest, last_or left 32 ∷ right)

-- A backspace moves the cursor, any other byte is written under it.
abbrev pub put : ℕ → Terminal → Terminal
put b (left, right) = if b == 8 then back (left, right) (pop left) else (left ++ b ∷ [], tail right)

abbrev pub show : List ℕ → Terminal → Terminal
show [] t = t
show (b ∷ bs) t = show bs (put b t)

show-append : (xs ys : List ℕ) (t : Terminal) → show (xs ++ ys) t ≡ show ys (show xs t)
show-append [] ys t = refl
show-append (x ∷ xs) ys t = show-append xs ys (put x t)

abbrev pub Blank : List ℕ → Type 0
Blank [] = Unit {0}
Blank (c ∷ cs) = (c ≡ 32) × Blank cs

-- The terminal that has echoed `out` shows the line, and blanks behind it.
abbrev pub Shown : List ℕ → List ℕ → Type 0
Shown buf out = ((show out ([], [])).0 ≡ buf) × Blank (show out ([], [])).1

pop-append : (cs : List ℕ) (c : ℕ) → pop (cs ++ c ∷ []) ≡ some cs
unfolding pop
pop-append [] c = refl
pop-append (d ∷ cs) c = rw (pop-append cs c) refl

last-append : (cs : List ℕ) (c d : ℕ) → last_or (cs ++ c ∷ []) d ≡ c
last-append [] c d = refl
last-append (e ∷ cs) c d = last-append cs c e

Blank-tail : (cs : List ℕ) → Blank cs → Blank (tail cs)
Blank-tail [] h = h
Blank-tail (c ∷ cs) h = h.1

put_key :
    (b : ℕ) (buf : List ℕ) (t : Terminal)
    → is_printable b ≡ true
    → t.0 ≡ buf
    → Blank t.1
    → ((put b t).0 ≡ buf ++ b ∷ []) × Blank (put b t).1
put_key b buf (left, right) p e h =
    if_both (λ (t : Terminal). (t.0 ≡ buf ++ b ∷ []) × Blank t.1) (b == 8)
      (λ k. absurd (ground (arith, p, k))) (λ k. (ap (λ l. l ++ b ∷ []) e, Blank-tail right h))

put_erase :
    (buf rest : List ℕ) (t : Terminal)
    → pop buf ≡ some rest
    → t.0 ≡ buf
    → Blank t.1
    → ((put 8 (put 32 (put 8 t))).0 ≡ rest) × Blank (put 8 (put 32 (put 8 t))).1
put_erase buf rest (left, right) p e h =
    rw (ap pop e ∙ p, pop-append rest 32, last-append rest 32 32) (refl, (refl, h))

on_key-Shown :
    (b : ℕ) (buf out : List ℕ)
    → Shown buf out
    → Shown (on_key b (buf, out)).0 (on_key b (buf, out)).1
unfolding on_key erase
on_key-Shown b buf out h =
    if_both S (is_erase b) (λ e. erased (pop buf) refl)
      (λ e.
        if_both S (is_printable b)
          (λ p.
            subst (λ (t : Terminal). (t.0 ≡ buf ++ b ∷ []) × Blank t.1)
              (sym (show-append out (b ∷ []) ([], [])))
              (put_key b buf (show out ([], [])) p h.0 h.1))
          (λ p. h))
  where
    S : List ℕ × List ℕ → Type 0
    S s = Shown s.0 s.1

    erased : (o : Option (List ℕ)) → pop buf ≡ o → S (erase buf out o)
    erased none p = h
    erased (some rest) p =
        subst (λ (t : Terminal). (t.0 ≡ rest) × Blank t.1)
          (sym (show-append out (8 ∷ 32 ∷ 8 ∷ []) ([], [])))
          (put_erase buf rest (show out ([], [])) p h.0 h.1)

-- What `read_line` returns: the echo is what makes the terminal show the line, and the end of the line.
abbrev pub Read : Option (List ℕ × List ℕ × List ℕ) → Type 0
Read none = Unit {0}
Read (some (line, out, rest)) = (echo : List ℕ) × (out ≡ echo ++ 13 ∷ 10 ∷ []) × Shown line echo

bytes-Read : (bs : List ℕ) (s : List ℕ × List ℕ) → Shown s.0 s.1 → Read (read_line bs s)
unfolding read_line
bytes-Read [] s h = tt
bytes-Read (b ∷ bs) s h =
    if_both Read (is_newline b) (λ e. (s.1, refl, h))
      (λ e. bytes-Read bs (on_key b s) (on_key-Shown b s.0 s.1 h))

-- Whatever is typed, erased characters included, when `read_line` returns a line, the terminal shows
-- that line and blanks behind it when the line ends.
pub read_line-Read : (bs : List ℕ) → Read (read_line bs ([], []))
read_line-Read bs = bytes-Read bs ([], []) (refl, tt)

-- Whether there is a carriage return or a line feed.
abbrev pub has_newline : List ℕ → Bool
has_newline [] = false
has_newline (b ∷ bs) = is_newline b || has_newline bs

abbrev pub is_some {ℓ} : {A : Type ℓ} → Option A → Bool
is_some none = false
is_some (some a) = true

-- `read_line` returns exactly if a carriage return or a line feed arrives.
pub read_line-newline :
    (bs : List ℕ) (s : List ℕ × List ℕ) → is_some (read_line bs s) ≡ has_newline bs
unfolding read_line
read_line-newline [] s = refl
read_line-newline (b ∷ bs) s = ground (arith, read_line-newline bs (on_key b s))

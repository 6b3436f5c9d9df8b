-- ===== src/Fs/Ramfs/Bytes.antt =====
-- kernel/src/fs/ramfs.rs: the bytes of a file under `read_at` and `write_at`.
use mathlib.Core.Option
use hyperion_os.Base.{
  if_both, ◌%◌, ◌^◌, Option, none, some, ℕ, zero, suc, ◌+◌, ◌-◌, ◌≤◌, ◌<◌, ◌≡◌, refl, sym, ap, ◌∙◌,
  List, [], ◌∷◌, ◌++◌, ltb, leb, Bool-cases, inl, inr, ltb→lt, ltb→ge, if◌then◌else◌, length,
  get_or, take, drop, replicate, min, max, arith, length-append, length-take, length-drop,
  length-replicate, get_or-set_self, get_or-set_ne, ◌&&◌, ◌==◌, ==_iff, ◌⊎◌, leb→le, take-append,
  drop-append, drop-all, take-min,
}
use mathlib.Core.List.{append_assoc}
use hyperion_os.Base.Bytes.{get_or-append, get_or-splice}
use hyperion_os.Base.Result.{Result, ok}
use hyperion_os.Fs.Ramfs.{
  FsError, NodeData, RamNode, Heap, absent, node_at, data_at, put_data, resize, overwrite, read_at,
  write_at, write_bytes,
}

-- What `write_at` makes of a file's bytes.
pub written : ℕ → List ℕ → List ℕ → List ℕ
written offset buf v =
    overwrite offset buf
      (if ltb (length v) (offset + length buf) then resize (offset + length buf) v else v)

get_or-replicate : (n i : ℕ) → get_or (replicate {A = ℕ} n 0) i 0 ≡ 0
get_or-replicate zero i = refl
get_or-replicate (suc n) zero = refl
get_or-replicate (suc n) (suc i) = get_or-replicate n i

get_or_past : (i : ℕ) (xs : List ℕ) → length xs ≤ i → get_or xs i 0 ≡ 0
get_or_past i [] h = refl
get_or_past zero (x ∷ xs) h = absurd (omega arith)
get_or_past (suc i) (x ∷ xs) h = get_or_past i xs (omega arith)

get_or-resize : (n i : ℕ) (v : List ℕ) → get_or (resize n v) i 0 ≡ get_or v i 0
unfolding resize
get_or-resize n i v = ground (
  arith,
  get_or-append v (replicate (n - length v) 0) i,
  get_or-replicate (n - length v) (i - length v),
  get_or_past i v,
)

length-resize : (n : ℕ) (v : List ℕ) → length (resize n v) ≡ max n (length v)
unfolding resize
length-resize n v =
    omega (
      arith,
      length-append v (replicate (n - length v) 0),
      length-replicate {A = ℕ} (n - length v) 0,
    )

get_or-overwrite :
    (offset i : ℕ) (buf v : List ℕ)
    → offset + length buf ≤ length v
    → get_or (overwrite offset buf v) i 0 ≡ (
        if leb offset i && ltb i (offset + length buf)
        then get_or buf (i - offset) 0
        else get_or v i 0)
unfolding overwrite
get_or-overwrite offset i buf v h = get_or-splice offset i buf v h

length-overwrite :
    (offset : ℕ) (buf v : List ℕ)
    → offset + length buf ≤ length v
    → length (overwrite offset buf v) ≡ length v
unfolding overwrite
length-overwrite offset buf v h =
    length-append (take offset v ++ buf) (drop (offset + length buf) v)
    ∙ omega (
      arith,
      length-append (take offset v) buf,
      length-take offset v,
      length-drop (offset + length buf) v,
      h,
    )

-- After a write of `buf` at `offset`, the bytes there are those of `buf`; the others are as before,
-- or 0 behind the old end; the file ends where it did or where the write ends.
pub written_lem :
    (offset i : ℕ) (buf v : List ℕ)
    → (length (written offset buf v) ≡ max (length v) (offset + length buf))
      × (get_or (written offset buf v) i 0 ≡ (
          if leb offset i && ltb i (offset + length buf)
          then get_or buf (i - offset) 0
          else get_or v i 0))
unfolding written
written_lem offset i buf v = elim (Bool-cases (ltb (length v) (offset + length buf))) [
  | inl e ↦ rw e (
    length-overwrite offset buf (resize (offset + length buf) v) (omega (arith, longer))
        ∙ omega (arith, longer, ltb→lt (length v) (offset + length buf) e),
    get_or-overwrite offset i buf (resize (offset + length buf) v) (omega (arith, longer))
        ∙ ap
            (λ k.
              if leb offset i && ltb i (offset + length buf) then get_or buf (i - offset) 0 else k)
            (get_or-resize (offset + length buf) i v),
  )
  | inr e ↦ rw e (
    length-overwrite offset buf v (ltb→ge (length v) (offset + length buf) e)
        ∙ omega (arith, ltb→ge (length v) (offset + length buf) e),
    get_or-overwrite offset i buf v (ltb→ge (length v) (offset + length buf) e),
  )
]
  where
    longer : length (resize (offset + length buf) v) ≡ max (offset + length buf) (length v)
    longer = length-resize (offset + length buf) v

read_back :
    (offset : ℕ) (buf v : List ℕ)
    → offset ≤ length v
    → take (length buf) (drop offset (overwrite offset buf v)) ≡ buf
unfolding overwrite
read_back offset buf v h =
    ap (λ u. take (length buf) (drop offset u)) (append_assoc (take offset v) buf rest)
    ∙ ap (take (length buf))
        (drop-append offset (take offset v) (buf ++ rest) (omega (arith, length-take offset v)))
    ∙ take-append (length buf) buf rest refl
  where
    rest : List ℕ
    rest = drop (offset + length buf) v

written-read_back :
    (offset : ℕ) (buf v : List ℕ) → take (length buf) (drop offset (written offset buf v)) ≡ buf
unfolding written
written-read_back offset buf v = elim (Bool-cases (ltb (length v) (offset + length buf))) [
  | inl e ↦ rw e (
      read_back offset buf (resize (offset + length buf) v)
        (omega (arith, length-resize (offset + length buf) v)))
  | inr e ↦ rw e (read_back offset buf v (omega (arith, ltb→ge (length v) (offset + length buf) e)))
]

-- What `read_at` gives of the bytes of a file.
abbrev pub served : ℕ → ℕ → List ℕ → Result FsError (List ℕ)
served offset len v =
    if leb (length v) offset then ok [] else ok (take (min (length v - offset) len) (drop offset v))

pub read_at-served :
    (h : Heap) (i offset len : ℕ) (v : List ℕ)
    → data_at h i ≡ NodeData.file v
    → read_at h i offset len ≡ served offset len v
unfolding read_at
read_at-served h i offset len v e = rw (read_at, e) refl

-- Below 2^63 nothing wraps and nothing panics.
write_bytes-written :
    (offset : ℕ) (buf v : List ℕ)
    → offset + length buf < 2 ^ 63
    → write_bytes offset buf v ≡ some (written offset buf v)
unfolding write_bytes written
write_bytes-written offset buf v b =
    if_both (λ o. o ≡ some (written offset buf v))
      (ltb (length v) ((offset + length buf) % 2 ^ 64)
        && leb (2 ^ 63) ((offset + length buf) % 2 ^ 64))
      (λ e. absurd (ground (arith, e, b)))
      (λ e.
        if_both (λ o. o ≡ some (written offset buf v)) (ltb ((offset + length buf) % 2 ^ 64) offset)
          (λ f. absurd (ground (arith, f, b)))
          (λ f.
            ap (λ end. some (overwrite offset buf (if ltb (length v) end then resize end v else v)))
              (omega (arith, b))))

write_at-written :
    (h : Heap) (i offset : ℕ) (buf v : List ℕ)
    → offset + length buf < 2 ^ 63
    → data_at h i ≡ NodeData.file v
    → write_at i offset buf h
      ≡ some (ok (length buf), put_data i (NodeData.file (written offset buf v)) h)
unfolding write_at
write_at-written h i offset buf v b e =
    rw (write_at, e) (rw (write_bytes-written offset buf v b) refl)

-- A write that would end at 2^63 or behind it panics, on a file and with bytes that are shorter: this is
-- so after a `seek` to such an offset.
pub write_at_far :
    (h : Heap) (i offset : ℕ) (buf v : List ℕ)
    → length v < 2 ^ 63
    → length buf < 2 ^ 63
    → offset < 2 ^ 64
    → 2 ^ 63 ≤ offset + length buf
    → data_at h i ≡ NodeData.file v
    → write_at i offset buf h ≡ none
unfolding write_at write_bytes
write_at_far h i offset buf v s t o b e =
    rw (write_at, e)
      (ap
        (λ (w : Option (List ℕ)).
          Option.map (λ v'. (ok (length buf), put_data i (NodeData.file v') h)) w)
        far)
  where
    far : write_bytes offset buf v ≡ none
    far = ground (arith, s, t, o, b)

take_none : (n : ℕ) → take {A = ℕ} n [] ≡ []
take_none zero = refl
take_none (suc n) = refl

pub served-take :
    (offset len : ℕ) (v : List ℕ) → served offset len v ≡ ok (take len (drop offset v))
served-take offset len v = elim (Bool-cases (leb (length v) offset)) [
  | inl e ↦
      rw e (
        ap ok
          (sym (ap (take len) (drop-all offset v (leb→le (length v) offset e)) ∙ take_none len)))
  | inr e ↦ rw e (
      ap ok (
        ap (λ n. take (min n len) (drop offset v)) (sym (length-drop offset v))
        ∙ take-min len (drop offset v)))
]

-- The bytes `w` are those of `v` with `buf` put in at `offset`: the bytes there are those of `buf`, the
-- others are as before, or 0 behind the old end, and the file ends where it did or where the write ends.
abbrev pub Over : ℕ → List ℕ → List ℕ → List ℕ → Type 0
Over offset buf v w =
    (length w ≡ max (length v) (offset + length buf))
    × ((k : ℕ)
        → get_or w k 0 ≡ (
            if leb offset k && ltb k (offset + length buf)
            then get_or buf (k - offset) 0
            else get_or v k 0))

-- What a write of `buf` at `offset` does: it does not panic, all of its bytes are taken, they are put in
-- the file's, node `j` is the file or stays, and a read at the offset gives the bytes back.
abbrev pub Written : Heap → ℕ → ℕ → ℕ → List ℕ → List ℕ → Option (Result FsError ℕ × Heap) → Type 0
Written h i j offset buf v o =
    (h' : Heap) × (w : List ℕ) × (o ≡ some (ok (length buf), h'))
    × (data_at h' i ≡ NodeData.file w)
    × Over offset buf v w
    × ((i ≡ j) ⊎ (node_at h' j ≡ node_at h j))
    × (read_at h' i offset (length buf) ≡ ok buf)

-- A write to a file that ends below 2^63 takes all of its bytes and puts them in the file's at the
-- offset, with zeros between the old end and the offset; no other node changes, and a read of as many
-- bytes at the same offset gives them back.
pub write_at_lem :
    (h : Heap) (i j offset : ℕ) (buf v : List ℕ)
    → i < length h
    → data_at h i ≡ NodeData.file v
    → offset + length buf < 2 ^ 63
    → Written h i j offset buf v (write_at i offset buf h)
write_at_lem h i j offset buf v b e z = (
  put_data i (NodeData.file (written offset buf v)) h,
  written offset buf v,
  write_at-written h i offset buf v z e,
  self,
  ((written_lem offset 0 buf v).0, (λ k. (written_lem offset k buf v).1)),
  elim (Bool-cases (i == j)) [
    | inl s ↦ inl ((==_iff i j).0 s)
    | inr n ↦ inr (get_or-set_ne h i j _ absent (λ k. absurd (ground (arith, n, k))))
  ],
  read_at-served (put_data i (NodeData.file (written offset buf v)) h) i offset (length buf) _ self
      ∙ served-take offset (length buf) (written offset buf v)
      ∙ ap ok (written-read_back offset buf v),
)
  where
    self :
        data_at (put_data i (NodeData.file (written offset buf v)) h) i
        ≡ NodeData.file (written offset buf v)
    self = ap (λ (n : RamNode). n.data_of) (get_or-set_self h i _ absent b)

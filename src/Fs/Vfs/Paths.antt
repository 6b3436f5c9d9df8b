-- ===== src/Fs/Vfs/Paths.antt =====
-- kernel/src/fs/vfs.rs: the components of a path, and what `open` and `remove` make of a path's
-- parent.
use hyperion_os.Base.{
  ℕ, ◌≡◌, refl, sym, ap, ◌∙◌, List, [], ◌∷◌, ◌++◌, Option, none, some, false, ◌==◌, Bool-cases,
  Option-cases, ◌⊎◌, inl, inr,
}
use hyperion_os.Base.Ord.{Name}
use hyperion_os.Base.Result.{◌>>=◌, ok}
use hyperion_os.Fs.Ramfs.{InodeRef, Heap, FileType, regular, directory, ftype, lookup}
use hyperion_os.Fs.Vfs.{
  slash, split_from, non_empty, components, walk, Vfs, resolve, strip_slash, rsplit_once,
  split_parent,
}

split_from-slash :
    (seen p q : Name) → split_from seen (p ++ slash ∷ q) ≡ split_from seen p ++ split_from [] q
unfolding split_from
split_from-slash seen [] q = refl
split_from-slash seen (c ∷ p) q = elim (Bool-cases (c == slash)) [
  | inl e ↦ rw e (ap (◌∷◌ seen) (split_from-slash [] p q))
  | inr e ↦ rw e (split_from-slash (seen ++ c ∷ []) p q)
]

non_empty-append : (xs ys : List Name) → non_empty (xs ++ ys) ≡ non_empty xs ++ non_empty ys
unfolding non_empty
non_empty-append [] ys = refl
non_empty-append ([] ∷ xs) ys = non_empty-append xs ys
non_empty-append ((b ∷ c) ∷ xs) ys = ap (◌∷◌ (b ∷ c)) (non_empty-append xs ys)

-- The components of two paths joined by a slash are those of the first and then those of the second.
pub components-join : (p q : Name) → components (p ++ slash ∷ q) ≡ components p ++ components q
unfolding components
components-join p q =
    ap non_empty (split_from-slash [] p q) ∙ non_empty-append (split_from [] p) (split_from [] q)

FileType-cases : (t : FileType) → (t ≡ FileType.regular) ⊎ (t ≡ FileType.directory)
FileType-cases regular = inl refl
FileType-cases directory = inr refl

-- A walk along two lists of components is a walk along the first and, from where it ends, along the
-- second; the first failure is the result.
pub walk-append :
    (h : Heap) (cur : InodeRef) (xs ys : List Name)
    → walk h cur (xs ++ ys) ≡ (walk h cur xs >>= λ mid. walk h mid ys)
unfolding walk
walk-append h cur [] ys = refl
walk-append h cur (x ∷ xs) ys = elim (FileType-cases (ftype h cur)) [
  | inl e ↦ rw (walk, e) refl
  | inr e ↦ elim (Option-cases (lookup h cur x)) [
    | inl n ↦ rw (walk, e, n) refl
    | inr f ↦ rw (walk, e, f.1) (walk-append h f.0 xs ys)
  ]
]

-- A path is resolved by a walk along its components from the root, whether it starts with a slash or
-- not.
pub resolve-walk :
    (c : ℕ) (p : Name) (s : Vfs) → resolve (c ∷ p) s ≡ walk s.heap s.mount (components (c ∷ p))
unfolding resolve strip_slash components split_from non_empty walk
resolve-walk c p s = elim (Bool-cases (c == slash)) [
  | inl e ↦ rw (e, resolve, strip_slash, components, split_from, non_empty) (below p)
  | inr e ↦ rw (e, resolve, strip_slash) (rw (e, components, split_from) refl)
]
  where
    below :
        (q : Name)
        → (elim q [ [] ↦ ok s.mount | d ∷ rest ↦ walk s.heap s.mount (components (d ∷ rest)) ])
          ≡ walk s.heap s.mount (components q)
    below [] = refl
    below (d ∷ rest) = refl

-- The path of `p`, which is not empty, a slash and `q` is resolved by resolving `p` and walking from
-- there along the components of `q`; the first failure is the result. Both paths may start with a slash
-- or without one, and empty components, as between two slashes in a row, count for nothing.
pub resolve_join :
    (c : ℕ) (p q : Name) (s : Vfs)
    → resolve (c ∷ p ++ slash ∷ q) s ≡ (resolve (c ∷ p) s >>= λ mid. walk s.heap mid (components q))
resolve_join c p q s =
    resolve-walk c (p ++ slash ∷ q) s
    ∙ ap (walk s.heap s.mount) (components-join (c ∷ p) q)
    ∙ walk-append s.heap s.mount (components (c ∷ p)) (components q)
    ∙ ap (λ r. r >>= λ mid. walk s.heap mid (components q)) (sym (resolve-walk c p s))

abbrev pub NoSlash : Name → Type 0
NoSlash [] = Unit {0}
NoSlash (c ∷ n) = ((c == slash) ≡ false) × NoSlash n

rsplit_once-name : (n : Name) → NoSlash n → rsplit_once n ≡ none
unfolding rsplit_once
rsplit_once-name [] f = refl
rsplit_once-name (c ∷ n) f = rw (rsplit_once-name n f.1, f.0) refl

rsplit_once-join : (p n : Name) → NoSlash n → rsplit_once (p ++ slash ∷ n) ≡ some (p, n)
unfolding rsplit_once
rsplit_once-join [] n f = rw (rsplit_once-name n f) refl
rsplit_once-join (c ∷ p) n f = rw (rsplit_once-join p n f) refl

-- The parent of the path of `p`, a slash and a name without one is `p`, or the root if `p` is empty; the
-- parent of a lone name is the root.
pub split_parent_lem :
    (c : ℕ) (p n : Name)
    → NoSlash n
    → (split_parent (c ∷ p ++ slash ∷ n) ≡ (c ∷ p, n))
      × (split_parent (slash ∷ n) ≡ (slash ∷ [], n))
      × (split_parent n ≡ (slash ∷ [], n))
unfolding split_parent
split_parent_lem c p n f = (
  rw (split_parent, rsplit_once-join (c ∷ p) n f) refl,
  rw (split_parent, rsplit_once-join [] n f) refl,
  rw (split_parent, rsplit_once-name n f) refl,
)

-- The path of a name, which may have a parent: `n`, or `p`, a slash and `n`.
abbrev pub path_of : Option Name → Name → Name
path_of none n = n
path_of (some p) n = p ++ slash ∷ n

-- The path of the parent: that of the root where none is named.
abbrev pub parent_of : Option Name → Name
parent_of none = slash ∷ []
parent_of (some []) = slash ∷ []
parent_of (some (c ∷ p)) = c ∷ p

pub split_parent-path_of :
    (o : Option Name) (n : Name) → NoSlash n → split_parent (path_of o n) ≡ (parent_of o, n)
unfolding split_parent
split_parent-path_of none n f = (split_parent_lem 0 [] n f).2
split_parent-path_of (some []) n f = (split_parent_lem 0 [] n f).1
split_parent-path_of (some (c ∷ p)) n f = (split_parent_lem c p n f).0

resolve_root : (s : Vfs) → resolve (slash ∷ []) s ≡ ok s.mount
unfolding resolve strip_slash
resolve_root s = refl

-- A path is resolved by resolving that of its parent and looking the name up there.
pub resolve-path_of :
    (o : Option Name) (c : ℕ) (n : Name) (s : Vfs)
    → resolve (path_of o (c ∷ n)) s
      ≡ (resolve (parent_of o) s >>= λ mid. walk s.heap mid (components (c ∷ n)))
unfolding walk components non_empty split_from
resolve-path_of none c n s =
    resolve-walk c n s
    ∙ ap (λ r. r >>= λ mid. walk s.heap mid (components (c ∷ n))) (sym (resolve_root s))
resolve-path_of (some []) c n s =
    resolve-walk slash (c ∷ n) s
    ∙ ap (walk s.heap s.mount) (components-join [] (c ∷ n))
    ∙ ap (λ r. r >>= λ mid. walk s.heap mid (components (c ∷ n))) (sym (resolve_root s))
resolve-path_of (some (d ∷ p)) c n s = resolve_join d p (c ∷ n) s

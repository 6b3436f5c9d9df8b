-- ===== src/Fs/Vfs/Created.antt =====
-- kernel/src/fs/vfs.rs: a file that `open` creates is found under its path.
use hyperion_os.Base.{
  ℕ, ◌<◌, ◌≡◌, refl, sym, ap, subst, ◌∙◌, List, [], ◌∷◌, ◌++◌, Option, none, some, Bool, true,
  false, length, if◌then◌else◌,
}
use mathlib.Core.List.{append-nil, append_assoc}
use mathlib.Core.Bool.{false≢true}
use hyperion_os.Base.Ord.{Name, name_ord, name_eq_refl}
use hyperion_os.Base.BTreeMap.{BTreeMap}
use hyperion_os.Base.Result.{Result, ok, err, ◌>>=◌}
use hyperion_os.Fs.Ramfs.{
  NodeData, RamNode, InodeRef, Heap, FileType, FsError, data_at, lookup, ftype, enter, create_file,
  new_file,
}
use hyperion_os.Fs.Ramfs.Entries.{Created, is_new, enter_lem}
use hyperion_os.Fs.Ramfs.Kept.{lookup-enter, lookup-directory}
use hyperion_os.Fs.Vfs.{
  Vfs, File, slash, resolve, walk, components, non_empty, split_from, open_file, opened, create_at,
  has_flag, create_flag,
}
use hyperion_os.Fs.Vfs.Paths.{
  NoSlash, path_of, parent_of, resolve-walk, resolve-path_of, split_parent-path_of,
}

abbrev is_ok {ℓ κ} : {E : Type ℓ} {A : Type κ} → Result E A → Bool
is_ok (ok a) = true
is_ok (err e) = false

err_ok : {A : Type 0} (e : FsError) (j : InodeRef) → err e ≡ ok j → A
err_ok e j p = absurd (false≢true (ap is_ok p))

-- A heap in which every entry of another is found.
abbrev Keeps : Heap → Heap → Type 0
Keeps h h' = (x y : InodeRef) (k : Name) → lookup h x k ≡ some y → lookup h' x k ≡ some y

FileType-elim :
    (t : FileType) {A : Type 0} → (t ≡ FileType.regular → A) → (t ≡ FileType.directory → A) → A
FileType-elim FileType.regular f g = f refl
FileType-elim FileType.directory f g = g refl

walk_step :
    (h h' : Heap) (cur j : InodeRef) (x : Name) (xs : List Name) (t : FileType)
    (o : Option InodeRef)
    → Keeps h h'
    → ((next : InodeRef) → walk h next xs ≡ ok j → walk h' next xs ≡ ok j)
    → ftype h cur ≡ t
    → lookup h cur x ≡ o
    → walk h cur (x ∷ xs) ≡ ok j
    → walk h' cur (x ∷ xs) ≡ ok j
unfolding walk
walk_step h h' cur j x xs FileType.regular o k f e l w =
    err_ok FsError.not_a_directory j (sym (rw (walk, e) refl) ∙ w)
walk_step h h' cur j x xs FileType.directory none k f e l w =
    err_ok FsError.not_found j (sym (rw (walk, e, l) refl) ∙ w)
walk_step h h' cur j x xs FileType.directory (some next) k f e l w =
    rw (walk, lookup-directory h' cur next x (k cur next x l), k cur next x l)
      (f next (sym (rw (walk, e, l) refl) ∙ w))

-- A walk that succeeds takes the same way in a heap that keeps the entries.
walk-Keeps :
    (h h' : Heap) (cur j : InodeRef) (xs : List Name)
    → Keeps h h'
    → walk h cur xs ≡ ok j
    → walk h' cur xs ≡ ok j
unfolding walk
walk-Keeps h h' cur j [] k w = w
walk-Keeps h h' cur j (x ∷ xs) k w =
    walk_step h h' cur j x xs (ftype h cur) (lookup h cur x) k (λ next. walk-Keeps h h' next j xs k)
      refl refl w

split_from-name : (seen n : Name) → NoSlash n → split_from seen n ≡ (seen ++ n) ∷ []
unfolding split_from
split_from-name seen [] f = ap (λ t. t ∷ []) (sym (append-nil seen))
split_from-name seen (c ∷ n) f =
    rw f.0
      (split_from-name (seen ++ c ∷ []) n f.1 ∙ ap (λ t. t ∷ []) (append_assoc seen (c ∷ []) n))

-- The only component of a name.
components-name : (c : ℕ) (n : Name) → NoSlash (c ∷ n) → components (c ∷ n) ≡ (c ∷ n) ∷ []
unfolding components non_empty
components-name c n f = ap non_empty (split_from-name [] (c ∷ n) f)

walk-name :
    (h : Heap) (i : InodeRef) (c : ℕ) (n : Name) (o : Option InodeRef)
    → NoSlash (c ∷ n)
    → ftype h i ≡ FileType.directory
    → lookup h i (c ∷ n) ≡ o
    → walk h i (components (c ∷ n)) ≡ (elim o [ none ↦ err FsError.not_found | some j ↦ ok j ])
unfolding walk
walk-name h i c n none f t l = ap (walk h i) (components-name c n f) ∙ rw (walk, t, l) refl
walk-name h i c n (some j) f t l = ap (walk h i) (components-name c n f) ∙ rw (walk, t, l) refl

along :
    (c : ℕ) (p : Name) (s : Vfs) (i : InodeRef) (h' : Heap)
    → Keeps s.heap h'
    → resolve (c ∷ p) s ≡ ok i
    → resolve (c ∷ p) (record s { heap = h' }) ≡ ok i
along c p s i h' k r =
    resolve-walk c p (record s { heap = h' })
    ∙ walk-Keeps s.heap h' s.mount i (components (c ∷ p)) k (sym (resolve-walk c p s) ∙ r)

-- The parent of a path is found again in a heap that keeps the entries.
resolve-Keeps :
    (o : Option Name) (s : Vfs) (i : InodeRef) (h' : Heap)
    → Keeps s.heap h'
    → resolve (parent_of o) s ≡ ok i
    → resolve (parent_of o) (record s { heap = h' }) ≡ ok i
resolve-Keeps none s i h' k r = along slash [] s i h' k r
resolve-Keeps (some []) s i h' k r = along slash [] s i h' k r
resolve-Keeps (some (c ∷ p)) s i h' k r = along c p s i h' k r

module _ (o : Option Name) (c : ℕ) (n : Name) (s : Vfs) (i : InodeRef)
    (m : BTreeMap Name InodeRef) where
  abbrev path : Name
  path = path_of o (c ∷ n)

  abbrev node : RamNode
  node = record { name = c ∷ n; data_of = NodeData.file [] }

  abbrev entered : Heap
  entered = (enter i (c ∷ n) m (length s.heap, s.heap ++ node ∷ [])).1

  module _ (f : NoSlash (c ∷ n)) (r : resolve (parent_of o) s ≡ ok i) (b : i < length s.heap)
      (e : data_at s.heap i ≡ NodeData.dir m) (l : lookup s.heap i (c ∷ n) ≡ none) where
    made :
        Created s.heap i
          (c ∷ n)
          (c ∷ n)
          (NodeData.file [])
          (enter i (c ∷ n) m (length s.heap, s.heap ++ node ∷ []))
    made = enter_lem s.heap i (c ∷ n) (c ∷ n) node m b e

    unresolved : resolve path s ≡ err FsError.not_found
    unfolding ftype
    unresolved =
        resolve-path_of o c n s
        ∙ ap (λ q. q >>= λ mid. walk s.heap mid (components (c ∷ n))) r
        ∙ walk-name s.heap i c n none f (rw (ftype, e) refl) l

    found : lookup entered i (c ∷ n) ≡ some (length s.heap)
    found =
        made.2
        ∙ ap (λ t. if t then some (length s.heap) else lookup s.heap i (c ∷ n))
            (name_eq_refl (c ∷ n))

    created : resolve path (record s { heap = entered }) ≡ ok (length s.heap)
    created =
        resolve-path_of o c n (record s { heap = entered })
        ∙ ap (λ q. q >>= λ mid. walk entered mid (components (c ∷ n)))
            (resolve-Keeps o s i entered (λ x y k. lookup-enter s.heap node i x y (c ∷ n) k m b e l)
              r)
        ∙ walk-name entered i c n (some (length s.heap)) f
            (lookup-directory entered i (length s.heap) (c ∷ n) found) found

    made_file : create_file i (c ∷ n) [] s.heap ≡ (ok (length s.heap), entered)
    unfolding create_file new_file enter
    made_file = rw (create_file, e, is_new s.heap i (c ∷ n) m e l) refl

    made_at : create_at (parent_of o, c ∷ n) s ≡ (ok (length s.heap), record s { heap = entered })
    unfolding create_at
    made_at = rw (create_at, r, made_file) refl

    -- `open` with CREATE of a path to a name that is not empty, alone or behind a slash, whose parent is a
    -- directory without the name, gives a new file at its start; afterwards the path leads to that file,
    -- which is empty.
    pub open_file-resolve :
        (flags : ℕ)
        → has_flag flags create_flag ≡ true
        → ((open_file path flags s).0
            ≡ ok (record { inode = length s.heap; offset = 0; flags = flags }))
          × (resolve path (open_file path flags s).1 ≡ ok (length s.heap))
          × (data_at (open_file path flags s).1.heap (length s.heap) ≡ NodeData.file [])
    unfolding open_file opened
    open_file-resolve flags g =
        subst
          (λ (t : Result FsError File × Vfs).
            (t.0 ≡ ok (record { inode = length s.heap; offset = 0; flags = flags }))
            × (resolve path t.1 ≡ ok (length s.heap))
            × (data_at t.1.heap (length s.heap) ≡ NodeData.file []))
          (sym whole) (refl, created, made.1)
      where
        whole : open_file path flags s ≡ (
          ok (record { inode = length s.heap; offset = 0; flags = flags }),
          record s { heap = entered },
        )
        whole =
            rw (open_file, unresolved, g, split_parent-path_of o (c ∷ n) f)
              (ap (opened flags) made_at)

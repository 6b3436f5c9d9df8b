-- ===== src/Fs/Ramfs/Entries.antt =====
-- kernel/src/fs/ramfs.rs: the entries of a directory.
use hyperion_os.Base.{
  ℕ, zero, suc, ◌<◌, ◌≡◌, refl, sym, ap, ◌∙◌, subst, List, [], ◌∷◌, ◌++◌, none, some, true, false,
  length, arith, if◌then◌else◌, get_or-set_self, get_or-set_ne, length-append, ==_iff, ◌==◌, ◌⊎◌,
  inl, inr, Bool-cases,
}
use hyperion_os.Base.Ord.{Name, name_ord, name_eq}
use hyperion_os.Base.BTreeMap.{
  BTreeMap, get, contains_key, get-insert, get-remove, contains_key-get, IsSorted,
}
use hyperion_os.Base.Result.{Result, ok, err}
use hyperion_os.Fs.Ramfs.{
  FsError, NodeData, RamNode, InodeRef, Heap, absent, node_at, data_at, put_data, lookup,
  create_file, create_dir, remove, ftype, list, file, dir, new_file, new_dir, enter, is_full_dir,
}

pub node_at-append_lt : (h t : Heap) (i : ℕ) → i < length h → node_at (h ++ t) i ≡ node_at h i
node_at-append_lt [] t i b = absurd (omega arith)
node_at-append_lt (n ∷ h) t zero b = refl
node_at-append_lt (n ∷ h) t (suc i) b = node_at-append_lt h t i (omega arith)

node_at-append_end : (h : Heap) (n : RamNode) → node_at (h ++ n ∷ []) (length h) ≡ n
node_at-append_end [] n = refl
node_at-append_end (m ∷ h) n = node_at-append_end h n

pub lookup-get :
    (h : Heap) (i : ℕ) (key : Name) (m : BTreeMap Name InodeRef)
    → data_at h i ≡ NodeData.dir m
    → lookup h i key ≡ get key m
unfolding lookup
lookup-get h i key m e = rw (lookup, e) refl

pub data_at-put : (h : Heap) (i : ℕ) (d : NodeData) → i < length h → data_at (put_data i d h) i ≡ d
data_at-put h i d b = ap (λ (n : RamNode). n.data_of) (get_or-set_self h i _ absent b)

-- What a creation of `key` in the directory `i` leaves: the new node, which `lookup` finds under its
-- name; the other names of the directory give what they gave.
abbrev pub Created : Heap → ℕ → Name → Name → NodeData → Result FsError InodeRef × Heap → Type 0
Created h i key other d r =
    (r.0 ≡ ok (length h))
    × (data_at r.1 (length h) ≡ d)
    × (lookup r.1 i other ≡ (if name_eq key other then some (length h) else lookup h i other))

-- The two creations, for a node `n`.
pub enter_lem :
    (h : Heap) (i : ℕ) (key other : Name) (n : RamNode) (m : BTreeMap Name InodeRef)
    → i < length h
    → data_at h i ≡ NodeData.dir m
    → Created h i key other n.data_of (enter i key m (length h, h ++ n ∷ []))
unfolding enter
enter_lem h i key other n m b e = (
  refl,
  ap (λ (k : RamNode). k.data_of)
      (get_or-set_ne (h ++ n ∷ []) i (length h) _ absent (λ k. absurd (omega (arith, k, b)))
        ∙ node_at-append_end h n),
  lookup-get _ i other _
        (data_at-put (h ++ n ∷ []) i _ (omega (arith, b, length-append h (n ∷ []))))
      ∙ get-insert key other (length h) m
      ∙ ap (λ o. if name_eq key other then some (length h) else o) (sym (lookup-get h i other m e)),
)

-- The name is new in the directory.
pub is_new :
    (h : Heap) (i : ℕ) (key : Name) (m : BTreeMap Name InodeRef)
    → data_at h i ≡ NodeData.dir m
    → lookup h i key ≡ none
    → contains_key key m ≡ false
is_new h i key m e l = (contains_key-get key m).1 (sym (lookup-get h i key m e) ∙ l)

-- In a directory without the name `key`, `create_file` makes a node with the contents and enters it
-- under the name; the directory's other names give what they gave.
pub create_file_lem :
    (h : Heap) (i : ℕ) (key other : Name) (contents : List ℕ) (m : BTreeMap Name InodeRef)
    → i < length h
    → data_at h i ≡ NodeData.dir m
    → lookup h i key ≡ none
    → Created h i key other (NodeData.file contents) (create_file i key contents h)
unfolding create_file new_file
create_file_lem h i key other contents m b e l =
    subst (Created h i key other (NodeData.file contents))
      (sym (rw (create_file, e, is_new h i key m e l) refl))
      (enter_lem h i key other (record { name = key; data_of = NodeData.file contents }) m b e)

-- In a directory without the name `key`, `create_dir` makes an empty directory and enters it under the
-- name; the directory's other names give what they gave.
pub create_dir_lem :
    (h : Heap) (i : ℕ) (key other : Name) (m : BTreeMap Name InodeRef)
    → i < length h
    → data_at h i ≡ NodeData.dir m
    → lookup h i key ≡ none
    → Created h i key other (NodeData.dir []) (create_dir i key h)
unfolding create_dir new_dir
create_dir_lem h i key other m b e l =
    subst (Created h i key other (NodeData.dir []))
      (sym (rw (create_dir, e, is_new h i key m e l) refl))
      (enter_lem h i key other (record { name = key; data_of = NodeData.dir [] }) m b e)

abbrev pub Removal : Type 0
Removal = Result FsError (Unit {0}) × Heap

-- The name `key` is taken out of the directory `i`: `other` is any name, `j` any node.
abbrev pub Gone : Heap → ℕ → Name → Name → ℕ → Removal → Type 0
Gone h i key other j r =
    (r.0 ≡ ok tt)
    × (lookup r.1 i other ≡ (if name_eq key other then none else lookup h i other))
    × ((i ≡ j) ⊎ (node_at r.1 j ≡ node_at h j))

-- What `remove` of a name does, by what the name's node holds.
abbrev pub Removed : Heap → ℕ → Name → Name → ℕ → NodeData → Removal → Type 0
Removed h i key other j (file v) r = Gone h i key other j r
Removed h i key other j (dir []) r = Gone h i key other j r
Removed h i key other j (dir (e ∷ m)) r = r ≡ (err FsError.not_empty, h)

take_out :
    (h : Heap) (i n j : ℕ) (key other : Name) (m : BTreeMap Name InodeRef)
    → i < length h
    → data_at h i ≡ NodeData.dir m
    → IsSorted m
    → get key m ≡ some n
    → is_full_dir h n ≡ false
    → Gone h i key other j (remove i key h)
unfolding remove
take_out h i n j key other m b e s found f =
    subst (Gone h i key other j) (sym (rw (remove, e, found, f) refl)) (
      refl,
      lookup-get _ i other _ (data_at-put h i _ b)
          ∙ get-remove key other m s
          ∙ ap (λ o. if name_eq key other then none else o) (sym (lookup-get h i other m e)),
      elim (Bool-cases (i == j)) [
        | inl t ↦ inl ((==_iff i j).0 t)
        | inr t ↦ inr (get_or-set_ne h i j _ absent (λ k. absurd (ground (arith, t, k))))
      ],
    )

remove-Removed :
    (h : Heap) (i n j : ℕ) (key other : Name) (m : BTreeMap Name InodeRef) (d : NodeData)
    → i < length h
    → data_at h i ≡ NodeData.dir m
    → IsSorted m
    → get key m ≡ some n
    → data_at h n ≡ d
    → Removed h i key other j d (remove i key h)
unfolding remove is_full_dir ftype list
remove-Removed h i n j key other m (file v) b e s f d =
    take_out h i n j key other m b e s f (rw (is_full_dir, ftype, d) refl)
remove-Removed h i n j key other m (dir []) b e s f d =
    take_out h i n j key other m b e s f (rw (is_full_dir, ftype, d) (rw (list, d) refl))
remove-Removed h i n j key other m (dir (k ∷ ks)) b e s f d = rw (remove, e, f, full) refl
  where
    full : is_full_dir h n ≡ true
    full = rw (is_full_dir, ftype, d) (rw (list, d) refl)

-- In a directory whose entries ascend, `remove` takes out a name whose node is a file or an empty
-- directory: it is then not found, the other names give what they gave, and no other node changes. A
-- name whose node is a directory with an entry is refused as not empty, and nothing changes.
pub remove_lem :
    (h : Heap) (i n j : ℕ) (key other : Name) (m : BTreeMap Name InodeRef)
    → i < length h
    → data_at h i ≡ NodeData.dir m
    → IsSorted m
    → lookup h i key ≡ some n
    → Removed h i key other j (data_at h n) (remove i key h)
remove_lem h i n j key other m b e s l =
    remove-Removed h i n j key other m (data_at h n) b e s (sym (lookup-get h i key m e) ∙ l) refl

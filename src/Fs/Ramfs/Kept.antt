-- ===== src/Fs/Ramfs/Kept.antt =====
-- kernel/src/fs/ramfs.rs: a creation leaves every entry that was there.
use hyperion_os.Base.{
  ℕ, zero, suc, ◌<◌, ◌≤◌, ◌≡◌, ◌≢◌, refl, sym, ap, ◌∙◌, subst, List, [], ◌∷◌, ◌++◌, none, some,
  length, arith, if_both, get_or-set_ne, length-append,
}
use native.Mathlib.Decide.{dec_lt}
use mathlib.Core.Option.{none-ne-some}
use hyperion_os.Base.{◌==◌, ==_iff, Bool-cases, inl, inr}
use hyperion_os.Base.Ord.{Name, name_ord, name_eq, name_eq_iff}
use hyperion_os.Base.BTreeMap.{BTreeMap, get, insert, get-insert}
use hyperion_os.Fs.Ramfs.{
  NodeData, RamNode, InodeRef, Heap, FileType, absent, node_at, data_at, put_data, lookup, ftype,
  enter,
}
use hyperion_os.Fs.Ramfs.Entries.{lookup-get, data_at-put, node_at-append_lt}

node_at-past : (h : Heap) (i : ℕ) → length h ≤ i → node_at h i ≡ absent
node_at-past [] i b = refl
node_at-past (n ∷ h) zero b = absurd (omega arith)
node_at-past (n ∷ h) (suc i) b = node_at-past h i (omega arith)

lookup-file :
    (h : Heap) (x : InodeRef) (k : Name) (v : List ℕ)
    → data_at h x ≡ NodeData.file v
    → lookup h x k ≡ none
unfolding lookup
lookup-file h x k v e = rw (lookup, e) refl

-- What has an entry is a directory, and stands in the heap.
data_lookup :
    (h : Heap) (x y : InodeRef) (k : Name) (d : NodeData)
    → data_at h x ≡ d
    → lookup h x k ≡ some y
    → (m : BTreeMap Name InodeRef) × (data_at h x ≡ NodeData.dir m)
data_lookup h x y k (NodeData.file v) e l =
    absurd (none-ne-some y (sym (lookup-file h x k v e) ∙ l))
data_lookup h x y k (NodeData.dir m) e l = (m, e)

lookup-lt : (h : Heap) (x y : InodeRef) (k : Name) → lookup h x k ≡ some y → x < length h
lookup-lt h x y k l = elim (dec_lt x (length h)) [
  | yes b ↦ b
  | no b ↦ absurd (
      none-ne-some y (
        sym (
          lookup-file h x k []
            (ap (λ (n : RamNode). n.data_of) (node_at-past h x (omega (arith, b)))))
        ∙ l))
]

pub lookup-directory :
    (h : Heap) (x y : InodeRef) (k : Name) → lookup h x k ≡ some y → ftype h x ≡ FileType.directory
unfolding ftype
lookup-directory h x y k l = rw (ftype, (data_lookup h x y k (data_at h x) refl l).1) refl

-- A node that is not the directory written.
lookup-put_ne :
    (h : Heap) (n : RamNode) (i x y : InodeRef) (k : Name) (d : NodeData)
    → i ≢ x
    → lookup h x k ≡ some y
    → lookup (put_data i d (h ++ n ∷ [])) x k ≡ some y
unfolding lookup
lookup-put_ne h n i x y k d ne l =
    subst
      (λ (r : RamNode).
        (elim r.data_of [ NodeData.file v ↦ none | NodeData.dir m ↦ get k m ]) ≡ some y)
      (sym (
        get_or-set_ne (h ++ n ∷ []) i x (record (node_at (h ++ n ∷ []) i) { data_of = d }) absent ne
        ∙ node_at-append_lt h (n ∷ []) x (lookup-lt h x y k l)))
      l

same_dir :
    (key k : Name) (fresh y : InodeRef) (m : BTreeMap Name InodeRef)
    → get key m ≡ none
    → get k m ≡ some y
    → get k (insert key fresh m) ≡ some y
same_dir key k fresh y m a l =
    get-insert key k fresh m
    ∙ if_both (λ o. o ≡ some y) (name_eq key k)
        (λ e.
          absurd
            (none-ne-some y (sym (subst (λ t. get t m ≡ none) ((name_eq_iff key k).0 e) a) ∙ l)))
        (λ e. l)

-- An entry that was found is found after a node is entered under a name that the directory did not have.
pub lookup-enter :
    (h : Heap) (n : RamNode) (i x y : InodeRef) (key k : Name) (m : BTreeMap Name InodeRef)
    → i < length h
    → data_at h i ≡ NodeData.dir m
    → lookup h i key ≡ none
    → lookup h x k ≡ some y
    → lookup (enter i key m (length h, h ++ n ∷ [])).1 x k ≡ some y
unfolding enter
lookup-enter h n i x y key k m b e a l = elim (Bool-cases (i == x)) [
  | inl t ↦ same ((==_iff i x).0 t)
  | inr t ↦ lookup-put_ne h n i x y k _ (λ q. absurd (ground (arith, t, q))) l
]
  where
    same :
        i ≡ x
        → lookup (put_data i (NodeData.dir (insert key (length h) m)) (h ++ n ∷ [])) x k ≡ some y
    same q =
        ap (λ z. lookup (put_data i (NodeData.dir (insert key (length h) m)) (h ++ n ∷ [])) z k)
          (sym q)
        ∙ lookup-get _ i k _
            (data_at-put (h ++ n ∷ []) i _ (omega (arith, b, length-append h (n ∷ []))))
        ∙ same_dir key k (length h) y m (sym (lookup-get h i key m e) ∙ a)
            (sym (lookup-get h i k m e) ∙ ap (λ z. lookup h z k) q ∙ l)

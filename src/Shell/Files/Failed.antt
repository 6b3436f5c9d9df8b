-- ===== src/Shell/Files/Failed.antt =====
-- kernel/src/shell/commands.rs: a command that reports a failure has changed nothing.
use hyperion_os.Base.{◌≡◌, refl, ap, List, [], ◌∷◌, Option, none, some, if_both, if◌then◌else◌}
use hyperion_os.Base.Ord.{Name, name_ord}
use hyperion_os.Base.BTreeMap.{BTreeMap, get, contains_key}
use hyperion_os.Base.BTreeMap
use hyperion_os.Base.Result.{Result, ok, err}
use hyperion_os.Fs.Ramfs.{
  NodeData, file, dir, FsError, InodeRef, Heap, data_at, create_dir, new_dir, enter, is_full_dir,
}
use hyperion_os.Fs.Ramfs
use hyperion_os.Fs.Vfs.{Vfs, resolve, split_parent, remove, remove_at}
use hyperion_os.Shell.Files.{Output, failed, rm_output, mkdir_output, mkdir_at, cmd_rm, cmd_mkdir}

-- An operation on the nodes that fails leaves them.
abbrev Kept {ℓ} : {A : Type ℓ} → Heap → Result FsError A × Heap → Type 0
Kept h (ok a, h') = Unit {0}
Kept h (err e, h') = h' ≡ h

-- A command whose output is a failure leaves the file system.
abbrev pub Unchanged : Vfs → List Output × Vfs → Type 0
Unchanged s (failed e ∷ outs, s') = s' ≡ s
Unchanged s (_, s') = Unit {0}

entry-Kept :
    (i : InodeRef) (key : Name) (h : Heap) (m : BTreeMap Name InodeRef) (o : Option InodeRef)
    → Kept {A = Unit {0}} h (elim o [
      | none ↦ (err FsError.not_found, h)
      | some entry ↦
          if is_full_dir h entry
          then (err FsError.not_empty, h)
          else (ok tt, Ramfs.put_data i (NodeData.dir (BTreeMap.remove key m)) h)
    ])
entry-Kept i key h m none = refl
entry-Kept i key h m (some entry) =
    if_both (Kept {A = Unit {0}} h) (is_full_dir h entry) (λ e. refl) (λ e. tt)

remove-Kept : (i : InodeRef) (key : Name) (h : Heap) → Kept {A = Unit {0}} h (Ramfs.remove i key h)
unfolding Ramfs.remove
remove-Kept i key h = by_data (data_at h i)
  where
    by_data :
        (d : NodeData)
        → Kept {A = Unit {0}} h (elim d [
          | file v ↦ (err FsError.not_a_directory, h)
          | dir m ↦ elim (get key m) [
            | none ↦ (err FsError.not_found, h)
            | some entry ↦
                if is_full_dir h entry
                then (err FsError.not_empty, h)
                else (ok tt, Ramfs.put_data i (NodeData.dir (BTreeMap.remove key m)) h)
          ]
        ])
    by_data (file v) = refl
    by_data (dir m) = entry-Kept i key h m (get key m)

create_dir-Kept : (i : InodeRef) (key : Name) (h : Heap) → Kept h (create_dir i key h)
unfolding create_dir enter
create_dir-Kept i key h = by_data (data_at h i)
  where
    by_data :
        (d : NodeData)
        → Kept {A = InodeRef} h (elim d [
          | file v ↦ (err FsError.not_a_directory, h)
          | dir m ↦
              if contains_key key m
              then (err FsError.already_exists, h)
              else enter i key m (new_dir key h)
        ])
    by_data (file v) = refl
    by_data (dir m) = if_both (Kept {A = InodeRef} h) (contains_key key m) (λ e. refl) (λ e. tt)

mkdir_output-Unchanged :
    (path : Name) (s : Vfs) (r : Result FsError InodeRef × Heap)
    → Kept s.heap r
    → Unchanged s (mkdir_output path s r)
unfolding mkdir_output
mkdir_output-Unchanged path s (ok i, h) k = tt
mkdir_output-Unchanged path s (err e, h) k = ap (λ t. record s { heap = t }) k

mkdir_at-Unchanged : (path : Name) (t : Name × Name) (s : Vfs) → Unchanged s (mkdir_at path t s)
unfolding mkdir_at
mkdir_at-Unchanged path (parent, key) s = by_parent (resolve parent s)
  where
    by_parent :
        (r : Result FsError InodeRef)
        → Unchanged s (elim r [
          | ok p ↦ mkdir_output path s (create_dir p key s.heap)
          | err e ↦ (failed e ∷ [], s)
        ])
    by_parent (ok p) = mkdir_output-Unchanged path s _ (create_dir-Kept p key s.heap)
    by_parent (err e) = refl

rm_output-Unchanged :
    (path : Name) (s : Vfs) (r : Result FsError (Unit {0}) × Heap)
    → Kept s.heap r
    → Unchanged s (rm_output path (r.0, record s { heap = r.1 }))
unfolding rm_output
rm_output-Unchanged path s (ok u, h) k = tt
rm_output-Unchanged path s (err e, h) k = ap (λ t. record s { heap = t }) k

remove_at-Unchanged :
    (path : Name) (t : Name × Name) (s : Vfs) → Unchanged s (rm_output path (remove_at t s))
unfolding remove_at rm_output
remove_at-Unchanged path (parent, key) s = by_parent (resolve parent s)
  where
    by_parent :
        (r : Result FsError InodeRef)
        → Unchanged s (
            rm_output path (elim r [
              | err e ↦ (err e, s)
              | ok p ↦
                  ((Ramfs.remove p key s.heap).0, record s { heap = (Ramfs.remove p key s.heap).1 })
            ]))
    by_parent (ok p) = rm_output-Unchanged path s _ (remove-Kept p key s.heap)
    by_parent (err e) = refl

-- When `rm` or `mkdir` reports a failure, the file system is as it was.
pub failed-Unchanged :
    (args : List Name) (s : Vfs) → Unchanged s (cmd_rm args s) × Unchanged s (cmd_mkdir args s)
unfolding cmd_rm cmd_mkdir remove
failed-Unchanged [] s = (tt, tt)
failed-Unchanged (path ∷ args) s =
    (remove_at-Unchanged path (split_parent path) s, mkdir_at-Unchanged path (split_parent path) s)

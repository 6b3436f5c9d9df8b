-- ===== src/Fs/Vfs/Tests.antt =====
-- kernel/src/fs/vfs.rs: the theorems at a file system with one file in its root.
use mathlib.Core.Option
use hyperion_os.Base.BTreeMap
use hyperion_os.Fs.Ramfs
use hyperion_os.Fs.Vfs.{
  File, write, write_offset, moved, seek, has_flag, init, list_root, root_create_file,
  root_create_dir, create_at, open_file, opened, remove_at, remove, rsplit_once, create_flag,
}
use hyperion_os.Base.{ℕ, ◌≡◌, refl, some, [], ◌∷◌, ◌++◌}
use hyperion_os.Base.Ord.{name_ord}
use hyperion_os.Base.BTreeMap.{get}
use hyperion_os.Base.Result.{Result, ok, ◌>>=◌}
use hyperion_os.Fs.Ramfs.{Heap, FsError, NodeData, lookup, ftype}
use hyperion_os.Fs.Vfs.{
  Vfs, slash, resolve, walk, components, non_empty, split_from, strip_slash, read_to_string,
  split_parent,
}
use hyperion_os.Fs.Ramfs.{data_at}
use hyperion_os.Base.{none, true, arith}
use hyperion_os.Fs.Vfs.Created.{open_file-resolve}
use hyperion_os.Fs.Vfs.Files.{read_to_string_lem}
use hyperion_os.Fs.Vfs.Paths.{resolve_join, split_parent_lem}

-- The root with the file "a".
abbrev one_file : Vfs
one_file = record {
  heap =
      record { name = []; data_of = NodeData.dir ((97 ∷ [], 1) ∷ []) }
      ∷ record { name = 97 ∷ []; data_of = NodeData.file (7 ∷ 8 ∷ []) }
      ∷ [];
  mount = 0;
}

resolved : resolve (slash ∷ 97 ∷ []) one_file ≡ ok 1
unfolding resolve walk components non_empty split_from strip_slash lookup ftype get
resolved = refl

read_to_string_lem_example :
    read_to_string (λ bytes. bytes) (slash ∷ 97 ∷ []) one_file ≡ some (ok (7 ∷ 8 ∷ []))
read_to_string_lem_example =
    read_to_string_lem (λ bytes. bytes) (slash ∷ 97 ∷ []) one_file 1 (7 ∷ 8 ∷ []) resolved refl

resolve_join_example :
    resolve (97 ∷ [] ++ slash ∷ 98 ∷ []) one_file
    ≡ (resolve (97 ∷ []) one_file >>= λ mid. walk one_file.heap mid (components (98 ∷ [])))
resolve_join_example = resolve_join 97 [] (98 ∷ []) one_file

split_parent_lem_example :
    (split_parent (97 ∷ [] ++ slash ∷ 98 ∷ []) ≡ (97 ∷ [], 98 ∷ []))
    × (split_parent (slash ∷ 98 ∷ []) ≡ (slash ∷ [], 98 ∷ []))
    × (split_parent (98 ∷ []) ≡ (slash ∷ [], 98 ∷ []))
split_parent_lem_example = split_parent_lem 97 [] (98 ∷ []) (refl, tt)

-- A file opened for appending.
abbrev log : File
log = record { inode = 1; offset = 0; flags = 10 }

appended :
    Option.map
      (λ (r : Result FsError ℕ × File × Heap). r.1.offset)
      (write (9 ∷ []) (seek 1 log) one_file.heap)
    ≡ some 3
unfolding write write_offset moved seek has_flag Ramfs.size Ramfs.write_at Ramfs.write_bytes
    Ramfs.resize Ramfs.overwrite
appended = refl

-- A new file system with the directory "d", and then the file "d/f" made by `open`.
abbrev with_dir : Vfs
with_dir = (root_create_dir (100 ∷ []) init).1

abbrev with_file : Vfs
with_file = (open_file (100 ∷ slash ∷ 102 ∷ []) create_flag with_dir).1

made : list_root with_dir ≡ (100 ∷ []) ∷ []
unfolding list_root Ramfs.list root_create_dir init Ramfs.create_dir Ramfs.new_root Ramfs.new_dir
    Ramfs.enter BTreeMap.insert BTreeMap.contains_key
made = refl

root_file : list_root (root_create_file (102 ∷ []) [] init).1 ≡ (102 ∷ []) ∷ []
unfolding list_root Ramfs.list root_create_file init Ramfs.create_file Ramfs.new_root Ramfs.new_dir
    Ramfs.new_file Ramfs.enter BTreeMap.insert BTreeMap.contains_key
root_file = refl

removed : list_root (remove (slash ∷ 97 ∷ []) one_file).1 ≡ []
unfolding list_root Ramfs.list remove remove_at split_parent rsplit_once resolve walk components
    non_empty split_from strip_slash Ramfs.remove Ramfs.is_full_dir Ramfs.ftype BTreeMap.get
    BTreeMap.remove
removed = refl

opened_new : (resolve (100 ∷ slash ∷ 102 ∷ []) with_file) ≡ ok 2
unfolding open_file opened create_at has_flag split_parent rsplit_once resolve walk components
    non_empty split_from strip_slash Ramfs.ftype Ramfs.lookup BTreeMap.get BTreeMap.insert
    BTreeMap.contains_key Ramfs.create_file Ramfs.new_file Ramfs.enter root_create_dir init
    Ramfs.create_dir Ramfs.new_root Ramfs.new_dir
opened_new = refl

root_found : resolve (slash ∷ []) one_file ≡ ok 0
unfolding resolve strip_slash
root_found = refl

no_b : lookup one_file.heap 0 (98 ∷ []) ≡ none
unfolding lookup get
no_b = refl

creates : has_flag 6 create_flag ≡ true
unfolding has_flag
creates = refl

open_file-resolve_example :
    ((open_file (98 ∷ []) 6 one_file).0 ≡ ok (record { inode = 2; offset = 0; flags = 6 }))
    × (resolve (98 ∷ []) (open_file (98 ∷ []) 6 one_file).1 ≡ ok 2)
    × (data_at (open_file (98 ∷ []) 6 one_file).1.heap 2 ≡ NodeData.file [])
open_file-resolve_example =
    open_file-resolve none 98 [] one_file 0 ((97 ∷ [], 1) ∷ []) (refl, tt) root_found (omega arith)
      refl no_b 6 creates

-- The same for a path with a slash in front.
slash_b :
    (open_file (slash ∷ 98 ∷ []) 6 one_file).0 ≡ ok (record { inode = 2; offset = 0; flags = 6 })
slash_b =
    (open_file-resolve (some []) 98 [] one_file 0 ((97 ∷ [], 1) ∷ []) (refl, tt) root_found
      (omega arith) refl no_b 6 creates).0

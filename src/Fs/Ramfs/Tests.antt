-- ===== src/Fs/Ramfs/Tests.antt =====
-- kernel/src/fs/ramfs.rs: the theorems at a root directory with a file and a directory in it.
use hyperion_os.Fs.Ramfs.{data_at}
use hyperion_os.Fs.Ramfs.{name, new_root, new_dir}
use hyperion_os.Base.{◌≡◌, refl, some, none, [], ◌∷◌, arith, length, get_or}
use hyperion_os.Base.Ord.{Name, name_ord}
use hyperion_os.Base.BTreeMap.{BTreeMap, get, IsSorted}
use hyperion_os.Base.Result.{err}
use hyperion_os.Fs.Ramfs.{
  FsError, NodeData, Heap, InodeRef, lookup, create_file, create_dir, remove, write_at,
}
use hyperion_os.Fs.Ramfs.Bytes.{written, written_lem, Written, write_at_lem}
use hyperion_os.Fs.Ramfs.Entries.{Created, create_file_lem, create_dir_lem, remove_lem, Gone}

abbrev entries : BTreeMap Name InodeRef
entries = (97 ∷ [], 1) ∷ (98 ∷ [], 2) ∷ []

abbrev inner : BTreeMap Name InodeRef
inner = (97 ∷ [], 1) ∷ []

-- The root, the file "a" of two bytes, and the directory "b" that holds the file as well.
abbrev heap : Heap
heap =
    record { name = []; data_of = NodeData.dir entries }
    ∷ record { name = 97 ∷ []; data_of = NodeData.file (7 ∷ 8 ∷ []) }
    ∷ record { name = 98 ∷ []; data_of = NodeData.dir inner }
    ∷ []

entries-IsSorted : IsSorted entries
entries-IsSorted = ((refl, tt), (tt, tt))

found_a : lookup heap 0 (97 ∷ []) ≡ some 1
unfolding lookup get
found_a = refl

found_b : lookup heap 0 (98 ∷ []) ≡ some 2
unfolding lookup get
found_b = refl

no_c : lookup heap 0 (99 ∷ []) ≡ none
unfolding lookup get
no_c = refl

written_lem_example :
    (length (written 1 (5 ∷ 6 ∷ []) (7 ∷ 8 ∷ [])) ≡ 3)
    × (get_or (written 1 (5 ∷ 6 ∷ []) (7 ∷ 8 ∷ [])) 2 0 ≡ 6)
written_lem_example = written_lem 1 2 (5 ∷ 6 ∷ []) (7 ∷ 8 ∷ [])

write_at_lem_example : Written heap 1 0 1 (5 ∷ 6 ∷ []) (7 ∷ 8 ∷ []) (write_at 1 1 (5 ∷ 6 ∷ []) heap)
write_at_lem_example =
    write_at_lem heap 1 0 1 (5 ∷ 6 ∷ []) (7 ∷ 8 ∷ []) (omega arith) refl (omega arith)

create_file_lem_example :
    Created heap 0
      (99 ∷ [])
      (97 ∷ [])
      (NodeData.file (1 ∷ []))
      (create_file 0 (99 ∷ []) (1 ∷ []) heap)
create_file_lem_example =
    create_file_lem heap 0 (99 ∷ []) (97 ∷ []) (1 ∷ []) entries (omega arith) refl no_c

create_dir_lem_example :
    Created heap 0 (99 ∷ []) (99 ∷ []) (NodeData.dir []) (create_dir 0 (99 ∷ []) heap)
create_dir_lem_example = create_dir_lem heap 0 (99 ∷ []) (99 ∷ []) entries (omega arith) refl no_c

remove_lem_example : Gone heap 0 (97 ∷ []) (98 ∷ []) 2 (remove 0 (97 ∷ []) heap)
remove_lem_example =
    remove_lem heap 0 1 2 (97 ∷ []) (98 ∷ []) entries (omega arith) refl entries-IsSorted found_a

-- The directory "b" is not empty.
refused : remove 0 (98 ∷ []) heap ≡ (err FsError.not_empty, heap)
refused =
    remove_lem heap 0 2 2 (98 ∷ []) (97 ∷ []) entries (omega arith) refl entries-IsSorted found_b

named : name heap 1 ≡ 97 ∷ []
unfolding name
named = refl

empty_root : data_at (new_root []).1 0 ≡ NodeData.dir []
unfolding new_root new_dir
empty_root = refl

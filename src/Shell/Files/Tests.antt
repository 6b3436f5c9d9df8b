-- ===== src/Shell/Files/Tests.antt =====
-- kernel/src/shell/commands.rs: commands on a root with one file.
use mathlib.Core.Option
use hyperion_os.Base.{List, ◌≡◌, refl, [], ◌∷◌, some, true, false}
use hyperion_os.Base.Text.{codes}
use hyperion_os.Base.Ord.{name_ord}
use hyperion_os.Base.BTreeMap.{get, contains_key, insert}
use hyperion_os.Fs.Ramfs.{
  NodeData, FsError, ftype, lookup, create_dir, create_file, new_dir, new_file, enter, is_full_dir,
  write_at, write_bytes, resize, overwrite, read_at, size,
}
use hyperion_os.Fs.Ramfs
use hyperion_os.Fs.Vfs.{
  Vfs, resolve, walk, components, non_empty, split_from, strip_slash, split_parent, rsplit_once,
  open_file, opened, has_flag, write, write_offset, moved, read_to_string, read_to_bytes, read_all,
  read_loop, read_chunk, read, remove, remove_at,
}
use hyperion_os.Shell.Files.{
  Output, entry, text, wrote, failed, join, cmd_echo, list_entries, list_or_empty, first_or_root,
  cmd_ls, strip_cr, lines_from, cat_output, cmd_cat, wrote_output, write_opened, cmd_write,
  rm_output, cmd_rm, mkdir_output, mkdir_at, cmd_mkdir,
}
use hyperion_os.Shell.Files.Failed.{Unchanged, failed-Unchanged}

-- The root with the file "a".
abbrev one_file : Vfs
one_file = record {
  heap =
      record { name = []; data_of = NodeData.dir ((codes "a", 1) ∷ []) }
      ∷ record { name = codes "a"; data_of = NodeData.file (codes "hi") }
      ∷ [];
  mount = 0;
}

failed-Unchanged_example :
    Unchanged one_file (cmd_rm (codes "/b" ∷ []) one_file)
    × Unchanged one_file (cmd_mkdir (codes "/b" ∷ []) one_file)
failed-Unchanged_example = failed-Unchanged (codes "/b" ∷ []) one_file

said : cmd_echo (codes "a" ∷ codes "b" ∷ []) ≡ text (codes "a b") ∷ []
unfolding cmd_echo join
said = refl

listed : cmd_ls [] one_file ≡ entry (codes "a") false ∷ []
unfolding cmd_ls first_or_root resolve strip_slash list_or_empty list_entries Ramfs.list lookup get
    ftype
listed = refl

shown : cmd_cat (λ bytes. bytes) (codes "/a" ∷ []) one_file ≡ some (text (codes "hi") ∷ [])
unfolding cmd_cat cat_output lines_from strip_cr read_to_string read_to_bytes read_all open_file
    opened resolve strip_slash walk components non_empty split_from ftype lookup get size read_loop
    read_chunk read has_flag read_at
shown = refl

written :
    Option.map (λ (r : List Output × Vfs). r.0) (cmd_write (codes "/a" ∷ codes "me" ∷ []) one_file)
    ≡ some (wrote 2 ∷ [])
unfolding cmd_write write_opened wrote_output join write write_offset moved write_at write_bytes
    open_file opened resolve strip_slash walk components non_empty split_from ftype lookup get
    has_flag
written = refl

missing : (cmd_rm (codes "/b" ∷ []) one_file).0 ≡ failed FsError.not_found ∷ []
unfolding cmd_rm rm_output remove remove_at split_parent rsplit_once resolve strip_slash walk
    components non_empty split_from Ramfs.remove get
missing = refl

-- A slash at the end makes a directory with an empty name, which no path leads to.
nameless :
    (cmd_ls [] (cmd_mkdir (codes "/" ∷ []) one_file).1)
    ≡ entry [] true ∷ entry (codes "a") false ∷ []
unfolding cmd_mkdir mkdir_at mkdir_output split_parent rsplit_once resolve strip_slash create_dir
    new_dir enter contains_key insert cmd_ls first_or_root list_or_empty list_entries Ramfs.list
    lookup get ftype
nameless = refl

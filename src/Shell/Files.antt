-- ===== src/Shell/Files.antt =====
-- kernel/src/shell/commands.rs: the commands on files. A line of output is what is put into its format;
-- `lossy` is `String::from_utf8_lossy`.
pub mod Failed
mod Tests
use mathlib.Core.Option
use hyperion_os.Base.{
  ℕ, List, [], ◌∷◌, ◌++◌, Option, none, some, Bool, true, false, ◌==◌, if◌then◌else◌,
}
use hyperion_os.Base.Ord.{Name}
use hyperion_os.Base.Text.{codes}
use hyperion_os.Base.Result.{Result, ok, err}
use hyperion_os.Fs.Ramfs.{FileType, FsError, InodeRef, Heap, ftype, lookup, create_dir}
use hyperion_os.Fs.Ramfs
use hyperion_os.Fs.Vfs.{
  Vfs, File, slash, resolve, open_file, write, remove, split_parent, write_flag, create_flag,
  read_to_string,
}

pub data Output : Type 0 where
  usage : Name → Output
  entry : Name → Bool → Output
  no_entries : Output
  text : Name → Output
  wrote : ℕ → Output
  removed : Name → Output
  created : Name → Output
  failed : FsError → Output

-- `args.join(" ")`.
pub join : List Name → Name
join [] = []
join (a ∷ []) = a
join (a ∷ b ∷ args) = a ++ 32 ∷ join (b ∷ args)

pub cmd_echo : List Name → List Output
cmd_echo args = text (join args) ∷ []

abbrev is_dir : FileType → Bool
is_dir FileType.regular = false
is_dir FileType.directory = true

-- An entry with a slash behind the name of a directory.
pub list_entries : Heap → InodeRef → List Name → List Output
list_entries h i [] = []
list_entries h i (key ∷ keys) = elim (lookup h i key) [
  | none ↦ list_entries h i keys
  | some child ↦ entry key (is_dir (ftype h child)) ∷ list_entries h i keys
]

pub list_or_empty : Heap → InodeRef → List Name → List Output
list_or_empty h i [] = no_entries ∷ []
list_or_empty h i (key ∷ keys) = list_entries h i (key ∷ keys)

pub first_or_root : List Name → Name
first_or_root [] = slash ∷ []
first_or_root (path ∷ args) = path

pub cmd_ls : List Name → Vfs → List Output
cmd_ls args s = elim (resolve (first_or_root args) s) [
  | ok node ↦ list_or_empty s.heap node (Ramfs.list s.heap node)
  | err e ↦ failed e ∷ []
]

-- The bytes of a line without a carriage return at its end.
pub strip_cr : Name → Name
strip_cr [] = []
strip_cr (c ∷ []) = if c == 13 then [] else c ∷ []
strip_cr (c ∷ d ∷ cs) = c ∷ strip_cr (d ∷ cs)

-- `s.lines()`, with the line that has been read so far: no line behind the last line feed.
pub lines_from : Name → Name → List Output
lines_from [] [] = []
lines_from (c ∷ seen) [] = text (c ∷ seen) ∷ []
lines_from seen (b ∷ bs) =
    if b == 10 then text (strip_cr seen) ∷ lines_from [] bs else lines_from (seen ++ b ∷ []) bs

pub cat_output : Result FsError Name → List Output
cat_output (ok s) = lines_from [] s
cat_output (err e) = failed e ∷ []

-- `none` would be a reading that does not end.
pub cmd_cat : (List ℕ → Name) → List Name → Vfs → Option (List Output)
cmd_cat lossy [] s = some (usage (codes "cat <path>") ∷ [])
cmd_cat lossy (path ∷ args) s = elim (read_to_string lossy path s) [
  | none ↦ none
  | some r ↦ some (cat_output r)
]

pub wrote_output : Vfs → Result FsError ℕ × File × Heap → List Output × Vfs
wrote_output s (ok n, f, h) = (wrote n ∷ [], record s { heap = h })
wrote_output s (err e, f, h) = (failed e ∷ [], record s { heap = h })

pub write_opened : Name → Result FsError File × Vfs → Option (List Output × Vfs)
write_opened contents (ok f, s) = Option.map (wrote_output s) (write contents f s.heap)
write_opened contents (err e, s) = some (failed e ∷ [], s)

-- `none` would be a write that panics.
pub cmd_write : List Name → Vfs → Option (List Output × Vfs)
cmd_write (path ∷ word ∷ words) s = write_opened (join (word ∷ words)) (open_file path 6 s)
cmd_write _ s = some (usage (codes "write <path> <text...>") ∷ [], s)

pub rm_output : Name → Result FsError (Unit {0}) × Vfs → List Output × Vfs
rm_output path (ok u, s) = (removed path ∷ [], s)
rm_output path (err e, s) = (failed e ∷ [], s)

pub cmd_rm : List Name → Vfs → List Output × Vfs
cmd_rm [] s = (usage (codes "rm <path>") ∷ [], s)
cmd_rm (path ∷ args) s = rm_output path (remove path s)

pub mkdir_output : Name → Vfs → Result FsError InodeRef × Heap → List Output × Vfs
mkdir_output path s (ok i, h) = (created path ∷ [], record s { heap = h })
mkdir_output path s (err e, h) = (failed e ∷ [], record s { heap = h })

-- The parent and the name are those that `split_parent` gives.
pub mkdir_at : Name → Name × Name → Vfs → List Output × Vfs
mkdir_at path (parent, key) s = elim (resolve parent s) [
  | ok p ↦ mkdir_output path s (create_dir p key s.heap)
  | err e ↦ (failed e ∷ [], s)
]

pub cmd_mkdir : List Name → Vfs → List Output × Vfs
cmd_mkdir [] s = (usage (codes "mkdir <path>") ∷ [], s)
cmd_mkdir (path ∷ args) s = mkdir_at path (split_parent path) s

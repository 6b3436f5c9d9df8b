-- ===== src/Fs/Vfs.antt =====
-- kernel/src/fs/vfs.rs: paths, open files and the root. A path is the list of its bytes.
pub mod Paths
pub mod Files
pub mod Created
mod Tests
use mathlib.Core.Option
use hyperion_os.Base.{
  ℕ, zero, suc, ◌+◌, ◌^◌, List, [], ◌∷◌, ◌++◌, Option, none, some, Bool, true, false, not, ◌==◌,
  if◌then◌else◌, length, bit_and,
}
use hyperion_os.Base.Ord.{Name}
use hyperion_os.Base.Result.{Result, ok, err, ◌>>=◌, ok_or}
use hyperion_os.Fs.Ramfs.{
  FileType, FsError, InodeRef, Heap, ftype, read_at, write_at, lookup, create_file, create_dir,
  new_root,
}
use hyperion_os.Fs.Ramfs

-- `OpenFlags`, a word of bits.
abbrev pub read_flag : ℕ
read_flag = 1

abbrev pub write_flag : ℕ
write_flag = 2

abbrev pub create_flag : ℕ
create_flag = 4

abbrev pub append_flag : ℕ
append_flag = 8

unfoldable pub has_flag : ℕ → ℕ → Bool
has_flag flags flag = bit_and flags flag == flag

pub record File : Type 0 where
  pub inode : InodeRef
  pub offset : ℕ
  pub flags : ℕ

-- The bytes read and the file with its offset moved behind them.
unfoldable pub read : Heap → ℕ → File → Result FsError (List ℕ) × File
read h len f =
    if not (has_flag f.flags read_flag)
    then (err FsError.io, f)
    else elim (read_at h f.inode f.offset len) [
      | ok bytes ↦ (ok bytes, record f { offset = f.offset + length bytes })
      | err e ↦ (err e, f)
    ]

-- The offset of a file opened with APPEND is the end of the file at each write.
unfoldable pub write_offset : Heap → File → ℕ
write_offset h f = if has_flag f.flags append_flag then Ramfs.size h f.inode else f.offset

unfoldable pub moved : File → ℕ → Result FsError ℕ × Heap → Result FsError ℕ × File × Heap
moved f offset (ok n, h) = (ok n, record f { offset = offset + n }, h)
moved f offset (err e, h) = (err e, record f { offset = offset }, h)

-- The end of a call that panics is `none`.
unfoldable pub write : List ℕ → File → Heap → Option (Result FsError ℕ × File × Heap)
write buf f h =
    if not (has_flag f.flags write_flag)
    then some (err FsError.io, f, h)
    else Option.map (moved f (write_offset h f)) (write_at f.inode (write_offset h f) buf h)

pub seek : ℕ → File → File
seek off f = record f { offset = off }

-- The root of a mounted file system; before `init` every call panics.
pub record Vfs : Type 0 where
  pub heap : Heap
  pub mount : InodeRef

pub init : Vfs
init = let (root, h) = new_root [] in record { heap = h; mount = root }

-- The byte of '/'.
abbrev pub slash : ℕ
slash = 47

-- `path.split('/')`, with the component that has been read so far.
unfoldable pub split_from : Name → Name → List Name
split_from seen [] = seen ∷ []
split_from seen (c ∷ path) =
    if c == slash then seen ∷ split_from [] path else split_from (seen ++ c ∷ []) path

-- `.filter(|c| !c.is_empty())`.
unfoldable pub non_empty : List Name → List Name
non_empty [] = []
non_empty ([] ∷ cs) = non_empty cs
non_empty ((b ∷ c) ∷ cs) = (b ∷ c) ∷ non_empty cs

unfoldable pub components : Name → List Name
components path = non_empty (split_from [] path)

-- The loop of `resolve`.
unfoldable pub walk : Heap → InodeRef → List Name → Result FsError InodeRef
walk h cur [] = ok cur
walk h cur (comp ∷ comps) = elim (ftype h cur) [
  | FileType.regular ↦ err FsError.not_a_directory
  | FileType.directory ↦ elim (lookup h cur comp) [
    | none ↦ err FsError.not_found
    | some next ↦ walk h next comps
  ]
]

-- `path.strip_prefix('/').unwrap_or(path)`.
unfoldable pub strip_slash : Name → Name
strip_slash [] = []
strip_slash (c ∷ path) = if c == slash then path else c ∷ path

unfoldable pub resolve : Name → Vfs → Result FsError InodeRef
resolve [] s = err FsError.invalid_path
resolve (c ∷ path) s = elim (strip_slash (c ∷ path)) [
  | [] ↦ ok s.mount
  | d ∷ rest ↦ walk s.heap s.mount (components (d ∷ rest))
]

pub list_root : Vfs → List Name
list_root s = Ramfs.list s.heap s.mount

abbrev on_heap {ℓ} : {A : Type ℓ} → Vfs → A × Heap → A × Vfs
on_heap s (a, h) = (a, record s { heap = h })

pub root_create_file : Name → List ℕ → Vfs → Result FsError InodeRef × Vfs
root_create_file key contents s = on_heap s (create_file s.mount key contents s.heap)

pub root_create_dir : Name → Vfs → Result FsError InodeRef × Vfs
root_create_dir key s = on_heap s (create_dir s.mount key s.heap)

-- `path.rsplit_once('/')`: the parts before and behind the last slash.
unfoldable pub rsplit_once : Name → Option (Name × Name)
rsplit_once [] = none
rsplit_once (c ∷ path) = elim (rsplit_once path) [
  | some (p, n) ↦ some (c ∷ p, n)
  | none ↦ if c == slash then some ([], path) else none
]

unfoldable pub split_parent : Name → Name × Name
split_parent path = elim (rsplit_once path) [
  | some ([], n) ↦ (slash ∷ [], n)
  | some ((c ∷ p), n) ↦ (c ∷ p, n)
  | none ↦ (slash ∷ [], path)
]

unfoldable pub opened : ℕ → Result FsError InodeRef × Vfs → Result FsError File × Vfs
opened flags (ok inode, s) = (ok (record { inode = inode; offset = 0; flags = flags }), s)
opened flags (err e, s) = (err e, s)

-- The arm for a path that is not found, when the flags have CREATE.
unfoldable pub create_at : Name × Name → Vfs → Result FsError InodeRef × Vfs
create_at (parent_path, key) s = elim (resolve parent_path s) [
  | err e ↦ (err e, s)
  | ok parent ↦ on_heap s (create_file parent key [] s.heap)
]

unfoldable pub open_file : Name → ℕ → Vfs → Result FsError File × Vfs
open_file path flags s = opened flags (elim (resolve path s) [
  | ok i ↦ (ok i, s)
  | err FsError.not_found ↦
      if has_flag flags create_flag
      then create_at (split_parent path) s
      else (err FsError.not_found, s)
  | err e ↦ (err e, s)
])

unfoldable pub remove_at : Name × Name → Vfs → Result FsError (Unit {0}) × Vfs
remove_at (parent_path, key) s = elim (resolve parent_path s) [
  | err e ↦ (err e, s)
  | ok parent ↦ on_heap s (Ramfs.remove parent key s.heap)
]

unfoldable pub remove : Name → Vfs → Result FsError (Unit {0}) × Vfs
remove path s = remove_at (split_parent path) s

-- What a round of the loop of `read_to_string` does with its chunk.
unfoldable pub read_chunk :
    (File → List ℕ → Option (Result FsError (List ℕ)))
    → List ℕ
    → Result FsError (List ℕ) × File
    → Option (Result FsError (List ℕ))
read_chunk loop out (err e, f) = some (err e)
read_chunk loop out (ok [], f) = some (ok out)
read_chunk loop out (ok (b ∷ bs), f) = loop f (out ++ b ∷ bs)

-- The loop on fuel, with the bytes read so far; `none` means that the fuel ran out.
unfoldable pub read_loop : ℕ → Heap → File → List ℕ → Option (Result FsError (List ℕ))
read_loop zero h f out = none
read_loop (suc fuel) h f out = read_chunk (read_loop fuel h) out (read h 256 f)

-- `read_to_string` up to `String::from_utf8_lossy`. A call needs a round for each byte at most, and
-- one more.
unfoldable pub read_all : Result FsError File × Vfs → Option (Result FsError (List ℕ))
read_all (err e, s') = some (err e)
read_all (ok f, s') = read_loop (Ramfs.size s'.heap f.inode + 1) s'.heap f []

unfoldable pub read_to_bytes : Name → Vfs → Option (Result FsError (List ℕ))
read_to_bytes path s = read_all (open_file path read_flag s)

-- `read_to_string`, where `lossy` is `String::from_utf8_lossy`.
unfoldable pub read_to_string : (List ℕ → Name) → Name → Vfs → Option (Result FsError Name)
read_to_string lossy path s = elim (read_to_bytes path s) [
  | none ↦ none
  | some (ok bytes) ↦ some (ok (lossy bytes))
  | some (err e) ↦ some (err e)
]

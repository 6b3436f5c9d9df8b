-- ===== src/Fs/Ramfs.antt =====
-- kernel/src/fs/inode.rs and kernel/src/fs/ramfs.rs: files and directories in memory. An inode is
-- shared by its `Arc`, so the nodes stand in a heap and an `InodeRef` is an index in it; a node is
-- never moved, and one that nothing refers to stays. A call locks one node at a time.
pub mod Bytes
pub mod Entries
pub mod Kept
mod Tests
use mathlib.Core.Option
use hyperion_os.Base.{
  ℕ, zero, suc, ◌+◌, ◌-◌, ◌%◌, ◌^◌, List, [], ◌∷◌, ◌++◌, map, Option, none, some, Bool, true, false,
  ◌&&◌, not, ltb, leb, if◌then◌else◌, length, get_or, set, take, drop, replicate, min,
}
use hyperion_os.Base.Ord.{Name, name_ord}
use hyperion_os.Base.BTreeMap.{BTreeMap, get, contains_key, insert}
use hyperion_os.Base.BTreeMap
use hyperion_os.Base.Result.{Result, ok, err}

pub data FileType : Type 0 where
  regular : FileType
  directory : FileType

pub data FsError : Type 0 where
  not_found : FsError
  not_a_directory : FsError
  already_exists : FsError
  invalid_path : FsError
  io : FsError
  not_empty : FsError

abbrev pub InodeRef : Type 0
InodeRef = ℕ

pub data NodeData : Type 0 where
  file : List ℕ → NodeData
  dir : BTreeMap Name InodeRef → NodeData

pub record RamNode : Type 0 where
  pub name : Name
  pub data_of : NodeData

abbrev pub Heap : Type 0
Heap = List RamNode

abbrev pub absent : RamNode
absent = record { name = []; data_of = NodeData.file [] }

abbrev pub node_at : Heap → InodeRef → RamNode
node_at h i = get_or h i absent

-- The node's `data`, replaced under its lock.
abbrev pub put_data : InodeRef → NodeData → Heap → Heap
put_data i d h = set h i (record (node_at h i) { data_of = d })

abbrev pub data_at : Heap → InodeRef → NodeData
data_at h i = (node_at h i).data_of

-- `Arc::new`: the new reference, and the heap with the node.
unfoldable pub new_file : Name → List ℕ → Heap → InodeRef × Heap
new_file name contents h =
    (length h, h ++ record { name = name; data_of = NodeData.file contents } ∷ [])

unfoldable pub new_dir : Name → Heap → InodeRef × Heap
new_dir name h = (length h, h ++ record { name = name; data_of = NodeData.dir [] } ∷ [])

unfoldable pub ftype : Heap → InodeRef → FileType
ftype h i = elim (data_at h i) [ file v ↦ FileType.regular | dir m ↦ FileType.directory ]

pub name : Heap → InodeRef → Name
name h i = (node_at h i).name

unfoldable pub size : Heap → InodeRef → ℕ
size h i = elim (data_at h i) [ file v ↦ length v | dir m ↦ length m ]

-- The bytes that `read_at` copies into a buffer of `len` bytes; their number is the call's result.
unfoldable pub read_at : Heap → InodeRef → ℕ → ℕ → Result FsError (List ℕ)
read_at h i offset len = elim (data_at h i) [
  | file v ↦
      if leb (length v) offset
      then ok []
      else ok (take (min (length v - offset) len) (drop offset v))
  | dir m ↦ err FsError.io
]

-- `v.resize(n, 0)` where `n` is more than the length.
unfoldable pub resize : ℕ → List ℕ → List ℕ
resize n v = v ++ replicate (n - length v) 0

-- `v[offset..offset + buf.len()].copy_from_slice(buf)`.
unfoldable pub overwrite : ℕ → List ℕ → List ℕ → List ℕ
overwrite offset buf v = take offset v ++ buf ++ drop (offset + length buf) v

-- The bytes that a write leaves. The sum wraps; `resize` panics from 2^63 on, and the slice panics if
-- its end comes before its start, each of which is `none`.
unfoldable pub write_bytes : ℕ → List ℕ → List ℕ → Option (List ℕ)
write_bytes offset buf v =
    let end = (offset + length buf) % 2 ^ 64 in
    if ltb (length v) end && leb (2 ^ 63) end
    then none
    else if ltb end offset
    then none
    else some (overwrite offset buf (if ltb (length v) end then resize end v else v))

-- The end of a call that panics is `none`.
unfoldable pub write_at : InodeRef → ℕ → List ℕ → Heap → Option (Result FsError ℕ × Heap)
write_at i offset buf h = elim (data_at h i) [
  | file v ↦
      Option.map (λ v'. (ok (length buf), put_data i (NodeData.file v') h))
        (write_bytes offset buf v)
  | dir m ↦ some (err FsError.io, h)
]

unfoldable pub list : Heap → InodeRef → List Name
list h i = elim (data_at h i) [ file v ↦ [] | dir m ↦ map (λ e. e.0) m ]

unfoldable pub lookup : Heap → InodeRef → Name → Option InodeRef
lookup h i key = elim (data_at h i) [ file v ↦ none | dir m ↦ get key m ]

-- `m.insert(name, n.clone()); Ok(n)` for the new node.
unfoldable pub enter :
    InodeRef → Name → BTreeMap Name InodeRef → InodeRef × Heap → Result FsError InodeRef × Heap
enter i key m (n, h) = (ok n, put_data i (NodeData.dir (insert key n m)) h)

unfoldable pub create_file : InodeRef → Name → List ℕ → Heap → Result FsError InodeRef × Heap
create_file i key contents h = elim (data_at h i) [
  | file v ↦ (err FsError.not_a_directory, h)
  | dir m ↦
      if contains_key key m
      then (err FsError.already_exists, h)
      else enter i key m (new_file key contents h)
]

unfoldable pub create_dir : InodeRef → Name → Heap → Result FsError InodeRef × Heap
create_dir i key h = elim (data_at h i) [
  | file v ↦ (err FsError.not_a_directory, h)
  | dir m ↦
      if contains_key key m then (err FsError.already_exists, h) else enter i key m (new_dir key h)
]

-- Whether an entry is a directory that holds something.
unfoldable pub is_full_dir : Heap → InodeRef → Bool
is_full_dir h e = elim (ftype h e) [
  | regular ↦ false
  | directory ↦ elim (list h e) [ [] ↦ false | n ∷ ns ↦ true ]
]

unfoldable pub remove : InodeRef → Name → Heap → Result FsError (Unit {0}) × Heap
remove i key h = elim (data_at h i) [
  | file v ↦ (err FsError.not_a_directory, h)
  | dir m ↦ elim (get key m) [
    | none ↦ (err FsError.not_found, h)
    | some entry ↦
        if is_full_dir h entry
        then (err FsError.not_empty, h)
        else (ok tt, put_data i (NodeData.dir (BTreeMap.remove key m)) h)
  ]
]

unfoldable pub new_root : Heap → InodeRef × Heap
new_root h = new_dir [] h

-- ===== src/Fs/Vfs/Files.antt =====
-- kernel/src/fs/vfs.rs: reading a whole file, and appending to one.
use hyperion_os.Base.{
  ℕ, zero, suc, ◌+◌, ◌-◌, ◌≤◌, ◌<◌, ◌≡◌, refl, sym, ap, subst, ◌∙◌, List, [], ◌∷◌, ◌++◌, some, true,
  length, take, drop, arith, length-take, length-drop, drop-all,
}
use mathlib.Core.List.{append-nil, append_assoc}
use hyperion_os.Base.Result.{Result, ok, err}
use hyperion_os.Fs.Ramfs.{FsError, NodeData, Heap, data_at, read_at}
use hyperion_os.Fs.Ramfs
use hyperion_os.Fs.Ramfs.Bytes.{read_at-served, served-take}
use hyperion_os.Base.Ord.{Name}
use hyperion_os.Fs.Vfs.{
  Vfs, resolve, opened, open_file, read_all, read_to_bytes, read_to_string, File, has_flag,
  read_flag, read, read_chunk, read_loop,
}

drop_none : (n : ℕ) → drop {A = ℕ} n [] ≡ []
drop_none zero = refl
drop_none (suc n) = refl

take_rest : (n : ℕ) (xs : List ℕ) → take n xs ++ drop (length (take n xs)) xs ≡ xs
take_rest zero xs = refl
take_rest (suc n) [] = refl
take_rest (suc n) (x ∷ xs) = ap (◌∷◌ x) (take_rest n xs)

drop-drop : (n m : ℕ) (xs : List ℕ) → drop n (drop m xs) ≡ drop (m + n) xs
drop-drop n zero xs = ap (λ k. drop k xs) (omega arith)
drop-drop n (suc m) [] = drop_none n ∙ sym (drop_none (suc m + n))
drop-drop n (suc m) (x ∷ xs) = drop-drop n m xs ∙ ap (λ k. drop k (x ∷ xs)) next
  where
    next : suc (m + n) ≡ suc m + n
    next = omega arith

-- What `read` does with the bytes that the inode gives.
read_with : File → Result FsError (List ℕ) → Result FsError (List ℕ) × File
read_with f (ok bytes) = (ok bytes, record f { offset = f.offset + length bytes })
read_with f (err e) = (err e, f)

read-read_with :
    (h : Heap) (f : File) (v : List ℕ)
    → has_flag f.flags read_flag ≡ true
    → data_at h f.inode ≡ NodeData.file v
    → read h 256 f ≡ read_with f (ok (take 256 (drop f.offset v)))
unfolding read read_with
read-read_with h f v r e =
    rw (r, read_at-served h f.inode f.offset 256 v e, served-take f.offset 256 v) refl

read_chunk_lem :
    (fuel : ℕ) (h : Heap) (f : File) (out v c : List ℕ)
    → has_flag f.flags read_flag ≡ true
    → data_at h f.inode ≡ NodeData.file v
    → length v - f.offset < suc fuel
    → take 256 (drop f.offset v) ≡ c
    → ((g : File) (o : List ℕ)
        → g.flags ≡ f.flags
        → g.inode ≡ f.inode
        → length v - g.offset < fuel
        → read_loop fuel h g o ≡ some (ok (o ++ drop g.offset v)))
    → read_chunk (read_loop fuel h) out (read_with f (ok c)) ≡ some (ok (out ++ drop f.offset v))
unfolding read_chunk read_with
read_chunk_lem fuel h f out v [] r e b t ih =
    ap (λ u. some (ok u))
      (sym (ap (λ d. out ++ d) (drop-all 0 (drop f.offset v) none_left) ∙ append-nil out))
  where
    none_left : length (drop f.offset v) ≤ 0
    none_left = omega (arith, ap (λ c. length c) t, length-take 256 (drop f.offset v))
read_chunk_lem fuel h f out v (x ∷ c) r e b t ih =
    ih (record f { offset = f.offset + suc (length c) }) (out ++ x ∷ c) refl refl
      (omega
        (arith, b, ap (λ d. length d) t, length-take 256 (drop f.offset v), length-drop f.offset v))
    ∙ ap (λ u. some (ok u))
        (append_assoc out (x ∷ c) (drop (f.offset + suc (length c)) v) ∙ ap (λ d. out ++ d) whole)
  where
    whole : (x ∷ c) ++ drop (f.offset + suc (length c)) v ≡ drop f.offset v
    whole =
        ap (λ d. (x ∷ c) ++ d) (sym (drop-drop (suc (length c)) f.offset v))
        ∙ subst (λ d. d ++ drop (length d) (drop f.offset v) ≡ drop f.offset v) t
            (take_rest 256 (drop f.offset v))

-- The loop reads the rest of the file, given fuel for each byte left and one more.
read_loop_lem :
    (fuel : ℕ) (h : Heap) (f : File) (out v : List ℕ)
    → has_flag f.flags read_flag ≡ true
    → data_at h f.inode ≡ NodeData.file v
    → length v - f.offset < fuel
    → read_loop fuel h f out ≡ some (ok (out ++ drop f.offset v))
unfolding read_loop
read_loop_lem zero h f out v r e b = elim b [ ]
read_loop_lem (suc fuel) h f out v r e b =
    ap (read_chunk (read_loop fuel h) out) (read-read_with h f v r e)
    ∙ read_chunk_lem fuel h f out v (take 256 (drop f.offset v)) r e b refl (λ g o k i l.
      read_loop_lem fuel h g o v (ap (λ n. has_flag n read_flag) k ∙ r) (ap (data_at h) i ∙ e) l)

open_existing :
    (path : Name) (flags i : ℕ) (s : Vfs)
    → resolve path s ≡ ok i
    → open_file path flags s ≡ (ok (record { inode = i; offset = 0; flags = flags }), s)
unfolding open_file opened
open_existing path flags i s e = rw (open_file, e) refl

size-file :
    (h : Heap) (i : ℕ) (v : List ℕ) → data_at h i ≡ NodeData.file v → Ramfs.size h i ≡ length v
unfolding Ramfs.size
size-file h i v e = rw (Ramfs.size, e) refl

load :
    (path : Name) (s : Vfs) (i : ℕ) (v : List ℕ)
    → resolve path s ≡ ok i
    → data_at s.heap i ≡ NodeData.file v
    → read_to_bytes path s ≡ some (ok v)
unfolding read_to_bytes read_all has_flag
load path s i v e d =
    ap read_all (open_existing path read_flag i s e)
    ∙ read_loop_lem (Ramfs.size s.heap i + 1) s.heap
        (record { inode = i; offset = 0; flags = read_flag }) [] v refl d
        (omega (arith, size-file s.heap i v d))

-- A file that is there, opened by `read_to_string`, is read to its end, byte for byte, and the loop
-- comes to an end; `lossy` is `String::from_utf8_lossy`.
pub read_to_string_lem :
    (lossy : List ℕ → Name) (path : Name) (s : Vfs) (i : ℕ) (v : List ℕ)
    → resolve path s ≡ ok i
    → data_at s.heap i ≡ NodeData.file v
    → read_to_string lossy path s ≡ some (ok (lossy v))
unfolding read_to_string
read_to_string_lem lossy path s i v e d = rw (read_to_string, load path s i v e d) refl

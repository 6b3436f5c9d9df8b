-- ===== src/Ipc/Caps.antt =====
-- kernel/src/ipc/caps.rs: the table of capabilities of a process. A capability holds an
-- `Arc<Port>`, which is a reference into the store of ports; rights are the bits of a `u32`.
mod Tests
use hyperion_os.Base.{
  ℕ, zero, suc, ◌+◌, ◌%◌, ◌^◌, ◌<◌, ◌≤◌, ◌≡◌, refl, List, [], ◌∷◌, Option, none, some, Bool, ◌==◌,
  if◌then◌else◌, length, arith,
}
use hyperion_os.Base.BTreeMap
use hyperion_os.Base.BTreeMap.{BTreeMap}
use hyperion_os.Base.Ord.{nat_ord}
use mathlib.Core.Option

pub data Capability : Type 0 where
  port : ℕ → Capability

pub record Entry : Type 0 where
  pub cap : Capability
  pub rights : ℕ

pub record CapTable : Type 0 where
  pub next : ℕ
  pub entries : BTreeMap ℕ Entry

pub new : CapTable
new = record { next = 1; entries = [] }

pub insert : Capability → ℕ → CapTable → ℕ × CapTable
insert cap rights t = (
  t.next,
  record {
    next = (t.next + 1) % 2 ^ 32;
    entries = BTreeMap.insert t.next (record { cap = cap; rights = rights }) t.entries;
  },
)

pub get : ℕ → CapTable → Option (Capability × ℕ)
get h t = Option.map (λ (e : Entry). (e.cap, e.rights)) (BTreeMap.get h t.entries)

pub remove : ℕ → CapTable → Option Capability × CapTable
remove h t = (
  Option.map (λ (e : Entry). e.cap) (BTreeMap.get h t.entries),
  record t { entries = BTreeMap.remove h t.entries },
)

pub len : CapTable → ℕ
len t = length t.entries

pub is_empty : CapTable → Bool
is_empty t = length t.entries == 0

-- A client's calls.
pub data Call : Type 0 where
  inserts : Capability → ℕ → Call
  removes : ℕ → Call

-- The handles that a row of calls hands out, and the table after it.
pub run : List Call → CapTable → List ℕ × CapTable
run [] t = ([], t)
run (inserts c r ∷ calls) t =
    let (h, t') = insert c r t in let (hs, u) = run calls t' in (h ∷ hs, u)
run (removes h ∷ calls) t = run calls (remove h t).1

-- Every handle is below `next`.
abbrev pub Below : ℕ → BTreeMap ℕ Entry → Type 0
Below n [] = Unit {0}
Below n ((k, e) ∷ m) = (k < n) × Below n m

pub record IsValid (t : CapTable) : Type 0 where
  pub sorted : BTreeMap.IsSorted t.entries
  pub below : Below t.next t.entries
  pub positive : 0 < t.next

-- The number of insertions in a row of calls.
abbrev pub insertions : List Call → ℕ
insertions [] = 0
insertions (inserts c r ∷ calls) = suc (insertions calls)
insertions (removes h ∷ calls) = insertions calls

-- The numbers from `n` on, `k` of them.
abbrev pub count_up : ℕ → ℕ → List ℕ
count_up n zero = []
count_up n (suc k) = n ∷ count_up (n + 1) k

Below-mono : (n k : ℕ) (m : BTreeMap ℕ Entry) → n ≤ k → Below n m → Below k m
Below-mono n k [] h b = tt
Below-mono n k ((j, e) ∷ m) h b = (omega arith, Below-mono n k m h b.1)

insert_last :
    (n : ℕ) (e : Entry) (m : BTreeMap ℕ Entry)
    → Below n m
    → (Below (n + 1) (BTreeMap.insert n e m))
      × (length (BTreeMap.insert n e m) ≡ length m + 1)
      × (BTreeMap.get n m ≡ none)
unfolding BTreeMap.insert BTreeMap.get
insert_last n e [] b = ground arith
insert_last n e ((j, w) ∷ m) b = ground (arith, insert_last n e m b.1, Below-mono n (n + 1) m)

Below-remove : (n h : ℕ) (m : BTreeMap ℕ Entry) → Below n m → Below n (BTreeMap.remove h m)
unfolding BTreeMap.remove
Below-remove n h [] b = tt
Below-remove n h ((j, w) ∷ m) b = ground (arith, Below-remove n h m b.1)

-- While `next` has not come round, `insert` returns a handle that was not in the table, keeps the
-- table valid, grows it by one entry, makes the new handle name the given capability with the given
-- rights, and leaves what every other handle names.
pub insert_lem :
    (c : Capability) (r : ℕ) (t : CapTable) (h : ℕ)
    → IsValid t
    → t.next + 1 < 2 ^ 32
    → IsValid (insert c r t).1
      × (get (insert c r t).0 t ≡ none)
      × (len (insert c r t).1 ≡ len t + 1)
      × (get h (insert c r t).1 ≡ (if t.next == h then some (c, r) else get h t))
unfolding insert get len
insert_lem c r t h v n = (
  record {
    sorted = BTreeMap.insert-IsSorted t.next (record { cap = c; rights = r }) t.entries v.sorted;
    below = ground (arith, insert_last t.next (record { cap = c; rights = r }) t.entries v.below);
    positive = omega arith;
  },
  ground (arith, insert_last t.next (record { cap = c; rights = r }) t.entries v.below),
  ground (arith, insert_last t.next (record { cap = c; rights = r }) t.entries v.below),
  ground (arith, BTreeMap.get-insert t.next h (record { cap = c; rights = r }) t.entries),
)

pub remove_lem :
    (h j : ℕ) (t : CapTable)
    → IsValid t
    → IsValid (remove h t).1 × (get j (remove h t).1 ≡ (if h == j then none else get j t))
unfolding remove get
remove_lem h j t v = (
  record {
    sorted = BTreeMap.remove-IsSorted h t.entries v.sorted;
    below = Below-remove t.next h t.entries v.below;
    positive = v.positive;
  },
  ground (arith, BTreeMap.get-remove h j t.entries v.sorted),
)

-- In a valid table, as long as `next` does not come round, a row of insertions and removals hands
-- out consecutive handles: none is handed out twice, also after it was removed, and none is zero.
pub run-count_up :
    (calls : List Call) (t : CapTable)
    → IsValid t
    → t.next + insertions calls < 2 ^ 32
    → ((run calls t).0 ≡ count_up t.next (insertions calls)) × IsValid (run calls t).1
unfolding run insert remove
run-count_up [] t v h = (refl, v)
run-count_up (inserts c r ∷ calls) t v h =
    ground (arith, run-count_up calls (insert c r t).1 (insert_lem c r t 0 v (omega arith)).0)
run-count_up (removes j ∷ calls) t v h = run-count_up calls (remove j t).1 (remove_lem j 0 t v).0 h

-- Once `next` has come round to a live handle, `insert` replaces the capability behind it.
pub insert_wrapped :
    (c : Capability) (r : ℕ) (t : CapTable) (e : Capability × ℕ)
    → BTreeMap.IsSorted t.entries
    → get t.next t ≡ some e
    → (get t.next (insert c r t).1 ≡ some (c, r)) × (len (insert c r t).1 ≡ len t)
unfolding insert get len
insert_wrapped c r t e s h = ground (
  arith,
  BTreeMap.get-insert t.next t.next (record { cap = c; rights = r }) t.entries,
  BTreeMap.length-insert t.next (record { cap = c; rights = r }) t.entries s,
  BTreeMap.contains_key-get t.next t.entries,
)

-- ===== src/Ipc/Caps/Tests.antt =====
-- kernel/src/ipc/caps.rs: the theorems at small tables.
use hyperion_os.Ipc.Caps.{new}
use hyperion_os.Base.{true}
use hyperion_os.Ipc.Caps.{is_empty}
use hyperion_os.Base.{◌≡◌, refl, some, none, List, [], ◌∷◌, ◌+◌, arith}
use hyperion_os.Base.BTreeMap
use hyperion_os.Ipc.Caps.{
  Capability, CapTable, insert, get, remove, len, Call, run, IsValid, insert_lem, remove_lem,
  run-count_up, insert_wrapped,
}

abbrev two : CapTable
two = record {
  next = 3;
  entries =
      (1, record { cap = Capability.port 7; rights = 1 })
      ∷ (2, record { cap = Capability.port 8; rights = 3 })
      ∷ [];
}

two-IsValid : IsValid two
two-IsValid = record {
  sorted = ((refl, tt), (tt, tt));
  below = (omega arith, (omega arith, tt));
  positive = omega arith;
}

-- The table once `next` has come round to the handle 2.
abbrev around : CapTable
around = record two { next = 2 }

taken : get around.next around ≡ some (Capability.port 8, 3)
unfolding get BTreeMap.get
taken = refl

insert_lem_example :
    IsValid (insert (Capability.port 9) 1 two).1
    × (get (insert (Capability.port 9) 1 two).0 two ≡ none)
    × (len (insert (Capability.port 9) 1 two).1 ≡ len two + 1)
    × (get 3 (insert (Capability.port 9) 1 two).1 ≡ some (Capability.port 9, 1))
insert_lem_example = insert_lem (Capability.port 9) 1 two 3 two-IsValid (omega arith)

remove_lem_example : IsValid (remove 1 two).1 × (get 1 (remove 1 two).1 ≡ none)
remove_lem_example = remove_lem 1 1 two two-IsValid

abbrev calls : List Call
calls =
    Call.inserts (Capability.port 9) 1 ∷ Call.removes 3 ∷ Call.inserts (Capability.port 9) 1 ∷ []

run-count_up_example : ((run calls two).0 ≡ 3 ∷ 4 ∷ []) × IsValid (run calls two).1
run-count_up_example = run-count_up calls two two-IsValid (omega arith)

insert_wrapped_example :
    (get 2 (insert (Capability.port 9) 1 around).1 ≡ some (Capability.port 9, 1))
    × (len (insert (Capability.port 9) 1 around).1 ≡ len around)
insert_wrapped_example =
    insert_wrapped (Capability.port 9) 1 around (Capability.port 8, 3) two-IsValid.sorted taken

new_empty : is_empty new ≡ true
unfolding is_empty new
new_empty = refl

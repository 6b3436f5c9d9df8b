-- ===== src/Ipc/Registry/Tests.antt =====
-- kernel/src/ipc/port.rs: the registry's theorems at the registry that `init` leaves.
use hyperion_os.Ipc.Registry.{init, new, register}
use hyperion_os.Base.{length, refl}
use hyperion_os.Ipc.Registry.{list}
use hyperion_os.Base.{◌≡◌, some, [], ◌∷◌, arith}
use hyperion_os.Base.BTreeMap
use hyperion_os.Ipc.Registry.{Ipc, create, lookup, deref}
use hyperion_os.Ipc.Registry.Valid.{IsValid, create-IsValid, lookup-create, create-create}

abbrev blank : Ipc
blank = record { next_port_id = 1; ports = []; by_id = []; by_name = [] }

blank-IsValid : IsValid blank
unfolding BTreeMap.get
blank-IsValid = record {
  named = λ n i e. absurd (ground (arith, e));
  numbered = λ i r e. absurd (ground (arith, e));
}

create-IsValid_example : IsValid (create (1 ∷ []) blank).1
create-IsValid_example = create-IsValid (1 ∷ []) blank blank-IsValid (omega arith)

abbrev one : Ipc
one = (create (1 ∷ []) blank).1

one-IsValid : IsValid one
one-IsValid = create-IsValid (1 ∷ []) blank blank-IsValid (omega arith)

lookup-create_example :
    (lookup (2 ∷ []) (create (2 ∷ []) one).1 ≡ some (create (2 ∷ []) one).0)
    × ((deref (create (2 ∷ []) one).1 (create (2 ∷ []) one).0).name ≡ 2 ∷ [])
lookup-create_example = lookup-create (2 ∷ []) (2 ∷ []) one one-IsValid

create-create_example : create (1 ∷ []) (create (1 ∷ []) one).1 ≡ create (1 ∷ []) one
create-create_example = create-create (1 ∷ []) one one-IsValid

one_listed : length (list (init blank)) ≡ 1
unfolding list init create lookup new register BTreeMap.get BTreeMap.insert BTreeMap.contains_key
one_listed = refl

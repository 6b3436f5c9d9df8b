-- ===== src/Ipc/Registry.antt =====
-- kernel/src/ipc/port.rs, the registry. An `Arc<Port>` is an index into the store of ports, which
-- grows by each `Port::new`; the registry holds such references by id and ids by name.
pub mod Valid
mod Tests
use hyperion_os.Base.{
  ℕ, zero, suc, ◌+◌, ◌%◌, ◌^◌, List, [], ◌∷◌, ◌++◌, Option, none, some, Bool, true, false, ◌||◌,
  if◌then◌else◌, length, get_or, map,
}
use hyperion_os.Base.BTreeMap
use hyperion_os.Base.BTreeMap.{BTreeMap}
use hyperion_os.Base.Ord.{nat_ord, name_ord, Name}
use hyperion_os.Ipc.Port.{Port, pending}

pub record Ipc : Type 0 where
  pub next_port_id : ℕ
  pub ports : List Port
  pub by_id : BTreeMap ℕ ℕ
  pub by_name : BTreeMap Name ℕ

abbrev pub no_port : Port
no_port = record { id = 0; name = []; queue = []; is_closed = true }

-- The port behind a reference; every reference of the kernel is below the length of the store.
abbrev pub deref : Ipc → ℕ → Port
deref s r = get_or s.ports r no_port

-- `Port::new` with `alloc_port_id`.
pub new : Name → Ipc → ℕ × Ipc
new name s = (
  length s.ports,
  record s {
    next_port_id = (s.next_port_id + 1) % 2 ^ 64;
    ports =
        s.ports ++ record { id = s.next_port_id; name = name; queue = []; is_closed = false } ∷ [];
  },
)

pub register : ℕ → Ipc → Bool × Ipc
register r s =
    let port = deref s r in
    if BTreeMap.contains_key port.id s.by_id || BTreeMap.contains_key port.name s.by_name
    then (false, s)
    else (
      true,
      record s {
        by_name = BTreeMap.insert port.name port.id s.by_name;
        by_id = BTreeMap.insert port.id r s.by_id;
      },
    )

pub get : ℕ → Ipc → Option ℕ
get id s = BTreeMap.get id s.by_id

pub lookup : Name → Ipc → Option ℕ
lookup name s = elim (BTreeMap.get name s.by_name) [
  | none ↦ none
  | some id ↦ BTreeMap.get id s.by_id
]

pub create : Name → Ipc → ℕ × Ipc
create name s = elim (lookup name s) [
  | some r ↦ (r, s)
  | none ↦ let (r, s') = new name s in (r, (register r s').1)
]

pub list : Ipc → List (ℕ × Name × ℕ)
list s = map (λ (e : ℕ × ℕ). ((deref s e.1).id, (deref s e.1).name, pending (deref s e.1))) s.by_id

-- `port::init` creates the port "kernel".
pub init : Ipc → Ipc
init s = (create (107 ∷ 101 ∷ 114 ∷ 110 ∷ 101 ∷ 108 ∷ []) s).1

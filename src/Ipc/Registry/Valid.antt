-- ===== src/Ipc/Registry/Valid.antt =====
-- kernel/src/ipc/port.rs: the registry maps names to ports one to one.
use hyperion_os.Base.{
  ℕ, zero, suc, ◌+◌, ◌%◌, ◌^◌, ◌<◌, ◌≡◌, refl, sym, ap, ◌∙◌, ◌⊎◌, List, [], ◌∷◌, ◌++◌, none, some,
  true, false, ◌==◌, if◌then◌else◌, length, get_or, arith, length-append, inl, inr, Option-cases,
  Bool-cases,
}
use hyperion_os.Base.BTreeMap
use hyperion_os.Base.BTreeMap.{BTreeMap}
use hyperion_os.Base.Ord.{nat_ord, name_ord, Name, name_eq, name_eq_iff, name_eq_refl}
use hyperion_os.Ipc.Port.{Port}
use hyperion_os.Ipc.Registry.{Ipc, no_port, deref, new, register, lookup, create}

pub record IsValid (s : Ipc) : Type 0 where
  -- A registered name leads to an id below the counter, and that to a stored port of that id and
  -- that name.
  pub named :
      (n : Name) (i : ℕ)
      → BTreeMap.get n s.by_name ≡ some i
      → (r : ℕ) × (BTreeMap.get i s.by_id ≡ some r)
        × (r < length s.ports)
        × ((deref s r).name ≡ n)
        × ((deref s r).id ≡ i)
  -- A registered id is below the counter, and its port has that id and is registered by name.
  pub numbered :
      (i r : ℕ)
      → BTreeMap.get i s.by_id ≡ some r
      → (i < s.next_port_id)
        × (r < length s.ports)
        × ((deref s r).id ≡ i)
        × (BTreeMap.get (deref s r).name s.by_name ≡ some i)

get_or-append_old :
    (xs : List Port) (y : Port) (r : ℕ)
    → r < length xs
    → get_or (xs ++ y ∷ []) r no_port ≡ get_or xs r no_port
get_or-append_old [] y r h = elim h [ ]
get_or-append_old (x ∷ xs) y zero h = refl
get_or-append_old (x ∷ xs) y (suc r) h = get_or-append_old xs y r (omega arith)

get_or-append_new : (xs : List Port) (y : Port) → get_or (xs ++ y ∷ []) (length xs) no_port ≡ y
get_or-append_new [] y = refl
get_or-append_new (x ∷ xs) y = get_or-append_new xs y

-- A name that `lookup` does not find is in no table, and the counter's id is not in use.
fresh :
    (name : Name) (s : Ipc) → IsValid s → lookup name s ≡ none → BTreeMap.get name s.by_name ≡ none
unfolding lookup
fresh name s v e = elim (Option-cases (BTreeMap.get name s.by_name)) [
  | inl n ↦ n
  | inr (i, n) ↦ absurd (cc (sym (rw (n, lookup) at e) ∙ (v.named name i n).1))
]

fresh_id : (s : Ipc) → IsValid s → BTreeMap.get s.next_port_id s.by_id ≡ none
fresh_id s v = elim (Option-cases (BTreeMap.get s.next_port_id s.by_id)) [
  | inl n ↦ n
  | inr (r, n) ↦ absurd (omega (arith, (v.numbered s.next_port_id r n).0))
]

-- The state after `create` of a name that is not registered.
abbrev pub created : Name → Ipc → Ipc
created name s = record {
  next_port_id = (s.next_port_id + 1) % 2 ^ 64;
  ports =
      s.ports ++ record { id = s.next_port_id; name = name; queue = []; is_closed = false } ∷ [];
  by_id = BTreeMap.insert s.next_port_id (length s.ports) s.by_id;
  by_name = BTreeMap.insert name s.next_port_id s.by_name;
}

create_fresh :
    (name : Name) (s : Ipc)
    → IsValid s
    → lookup name s ≡ none
    → create name s ≡ (length s.ports, created name s)
unfolding create new register
create_fresh name s v e = ground (
  arith,
  get_or-append_new s.ports
      (record { id = s.next_port_id; name = name; queue = []; is_closed = false }),
  (BTreeMap.contains_key-get s.next_port_id s.by_id).1 (fresh_id s v),
  (BTreeMap.contains_key-get name s.by_name).1 (fresh name s v e),
)

create_known : (name : Name) (s : Ipc) (r : ℕ) → lookup name s ≡ some r → create name s ≡ (r, s)
unfolding create
create_known name s r e = rw (e, create)

created-IsValid :
    (name : Name) (s : Ipc)
    → IsValid s
    → lookup name s ≡ none
    → s.next_port_id + 1 < 2 ^ 64
    → IsValid (created name s)
created-IsValid name s v e h = record {
  named = λ n i g. elim (Bool-cases (name_eq name n)) [
    | inl same ↦ (
      length s.ports,
      ground (
        arith,
        BTreeMap.get-insert name n s.next_port_id s.by_name,
        BTreeMap.get-insert s.next_port_id i (length s.ports) s.by_id,
      ),
      omega (arith, length-append s.ports (port ∷ [])),
      ap (λ (q : Port). q.name) new_port ∙ (name_eq_iff name n).0 same,
      ap (λ (q : Port). q.id) new_port
          ∙ ground (arith, BTreeMap.get-insert name n s.next_port_id s.by_name),
    )
    | inr other ↦
        old n i (v.named n i (ground (arith, BTreeMap.get-insert name n s.next_port_id s.by_name)))
  ];
  numbered = λ i r g. elim (Bool-cases (s.next_port_id == i)) [
    | inl same ↦ ground (
      arith,
      new_port,
      length-append s.ports (port ∷ []),
      name_eq_refl name,
      BTreeMap.get-insert s.next_port_id i (length s.ports) s.by_id,
      BTreeMap.get-insert name name s.next_port_id s.by_name,
    )
    | inr other ↦ ground (
      arith,
      get_or-append_old s.ports port r,
      length-append s.ports (port ∷ []),
      v.numbered i r,
      fresh name s v e,
      name_eq_iff name (deref s r).name,
      BTreeMap.get-insert s.next_port_id i (length s.ports) s.by_id,
      BTreeMap.get-insert name (deref s r).name s.next_port_id s.by_name,
    )
  ];
}
  where
    port : Port
    port = record { id = s.next_port_id; name = name; queue = []; is_closed = false }

    new_port : deref (created name s) (length s.ports) ≡ port
    new_port = get_or-append_new s.ports port

    old :
        (n : Name) (i : ℕ)
        → ((r : ℕ) × (BTreeMap.get i s.by_id ≡ some r)
            × (r < length s.ports)
            × ((deref s r).name ≡ n)
            × ((deref s r).id ≡ i))
        → ((r : ℕ) × (BTreeMap.get i (created name s).by_id ≡ some r)
            × (r < length (created name s).ports)
            × ((deref (created name s) r).name ≡ n)
            × ((deref (created name s) r).id ≡ i))
    old n i (r, a, b, c, d) = (
      r,
      ground
          (arith, BTreeMap.get-insert s.next_port_id i (length s.ports) s.by_id, v.numbered i r a),
      omega (arith, length-append s.ports (port ∷ [])),
      ground (arith, get_or-append_old s.ports port r),
      ground (arith, get_or-append_old s.ports port r),
    )

-- While port ids do not come round, `create` keeps the registry one to one between registered names
-- and ids.
pub create-IsValid :
    (name : Name) (s : Ipc) → IsValid s → s.next_port_id + 1 < 2 ^ 64 → IsValid (create name s).1
create-IsValid name s v h = elim (Option-cases (lookup name s)) [
  | inl e ↦ rw (create_fresh name s v e) (created-IsValid name s v e h)
  | inr (r, e) ↦ rw (create_known name s r e) v
]

lookup-created :
    (name n : Name) (s : Ipc)
    → IsValid s
    → lookup name s ≡ none
    → lookup n (created name s) ≡ (if name_eq name n then some (length s.ports) else lookup n s)
unfolding lookup
lookup-created name n s v e = elim (Option-cases (BTreeMap.get n s.by_name)) [
  | inl none' ↦ ground (
    arith,
    none',
    BTreeMap.get-insert name n s.next_port_id s.by_name,
    BTreeMap.get-insert s.next_port_id s.next_port_id (length s.ports) s.by_id,
  )
  | inr (i, known) ↦ ground (
    arith,
    known,
    v.named n i known,
    BTreeMap.get-insert name n s.next_port_id s.by_name,
    v.numbered i (v.named n i known).0 (v.named n i known).1,
    BTreeMap.get-insert s.next_port_id s.next_port_id (length s.ports) s.by_id,
    BTreeMap.get-insert s.next_port_id i (length s.ports) s.by_id,
  )
]

lookup_name :
    (name : Name) (s : Ipc) (r : ℕ) → IsValid s → lookup name s ≡ some r → (deref s r).name ≡ name
unfolding lookup
lookup_name name s r v e = elim (Option-cases (BTreeMap.get name s.by_name)) [
  | inl n ↦ absurd (cc (rw (n, lookup) at e))
  | inr (i, n) ↦ ground (arith, v.named name i n, rw (n, lookup) at e)
]

-- After `create name`, every name but that one is found as before, and that one is found at the
-- port that `create` returned, whose name it is.
pub lookup-create :
    (name n : Name) (s : Ipc)
    → IsValid s
    → (lookup n (create name s).1 ≡ (if name_eq name n then some (create name s).0 else lookup n s))
      × ((deref (create name s).1 (create name s).0).name ≡ name)
lookup-create name n s v = elim (Option-cases (lookup name s)) [
  | inl e ↦
      rw (create_fresh name s v e)
        (lookup-created name n s v e, ap (λ (p : Port). p.name) (get_or-append_new s.ports _))
  | inr (r, e) ↦
      rw (create_known name s r e)
        (found r e (Bool-cases (name_eq name n)), lookup_name name s r v e)
]
  where
    found :
        (r : ℕ)
        → lookup name s ≡ some r
        → (name_eq name n ≡ true) ⊎ (name_eq name n ≡ false)
        → lookup n s ≡ (if name_eq name n then some r else lookup n s)
    found r e (inl same) = rw same (ap (λ k. lookup k s) (sym ((name_eq_iff name n).0 same)) ∙ e)
    found r e (inr other) = rw other

-- A second `create` of a name returns the port of the first and changes nothing.
pub create-create :
    (name : Name) (s : Ipc) → IsValid s → create name (create name s).1 ≡ create name s
create-create name s v =
    create_known name (create name s).1 (create name s).0
      ((lookup-create name name s v).0 ∙ ground (arith, name_eq_refl name))
    ∙ refl

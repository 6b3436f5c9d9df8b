-- ===== src/Base/BTreeMap.antt =====
-- `alloc::collections::BTreeMap`, as its entries in ascending order of the keys.
use Prim.Native.Nat.{◌+◌}
use hyperion_os.Base.Lists.{length}
use mathlib.Core.Path.{◌≡◌, refl, subst}
use mathlib.Core.Logic.{◌↔◌, inl, inr}
use mathlib.Core.Bool.{Bool, true, false, ◌||◌}
use mathlib.Core.List.{List, [], ◌∷◌}
use mathlib.Core.Option.{Option, none, some}
use native.Mathlib.Omega.{arith}
use hyperion_os.Base.Tests.{if◌then◌else◌, Bool-cases}
use hyperion_os.Base.Ord.{Ord}

abbrev pub BTreeMap {ℓ κ} : Type ℓ → Type κ → Type (ℓ ⊔ κ)
BTreeMap K V = List (K × V)

module _ {ℓ} {K : Type ℓ} ⦃o : Ord K⦄ where
  not_eq : (k j : K) → o.eq j k ≡ false → o.eq k j ≡ false
  not_eq k j e = ground (arith, o.eq_iff j k, o.eq_iff k j)

module _ {ℓ κ} {K : Type ℓ} {V : Type κ} ⦃o : Ord K⦄ where
  unfoldable pub get : K → BTreeMap K V → Option V
  get k [] = none
  get k ((j, v) ∷ m) = if o.eq j k then some v else get k m

  unfoldable pub contains_key : K → BTreeMap K V → Bool
  contains_key k [] = false
  contains_key k ((j, v) ∷ m) = o.eq j k || contains_key k m

  unfoldable pub insert : K → V → BTreeMap K V → BTreeMap K V
  insert k v [] = (k, v) ∷ []
  insert k v ((j, w) ∷ m) =
      if o.eq j k
      then (k, v) ∷ m
      else if o.less k j
      then (k, v) ∷ (j, w) ∷ m
      else (j, w) ∷ insert k v m

  unfoldable pub remove : K → BTreeMap K V → BTreeMap K V
  remove k [] = []
  remove k ((j, w) ∷ m) = if o.eq j k then m else (j, w) ∷ remove k m

  -- `range(..=k).next_back()`: the entry with the greatest key that is not above `k`.
  unfoldable pub floor : K → BTreeMap K V → Option (K × V)
  floor k [] = none
  floor k ((j, w) ∷ m) =
      if o.less k j then none else elim (floor k m) [ none ↦ some (j, w) | some e ↦ some e ]

  -- Every key is above `k`.
  abbrev pub Above : K → BTreeMap K V → Type 0
  Above k [] = Unit {0}
  Above k ((j, w) ∷ m) = (o.less k j ≡ true) × Above k m

  -- The keys ascend.
  abbrev pub IsSorted : BTreeMap K V → Type 0
  IsSorted [] = Unit {0}
  IsSorted ((j, w) ∷ m) = Above j m × IsSorted m

  pub get-insert :
      (k j : K) (v : V) (m : BTreeMap K V)
      → get j (insert k v m) ≡ (if o.eq k j then some v else get j m)
  unfolding get insert
  get-insert k j v [] = refl
  get-insert k j v ((i, w) ∷ m) =
      ground (arith, get-insert k j v m, o.eq_iff i k, o.eq_iff i j, o.eq_iff k j)

  pub contains_key-get : (k : K) (m : BTreeMap K V) → (contains_key k m ≡ false) ↔ (get k m ≡ none)
  unfolding contains_key get
  contains_key-get k [] = ground arith
  contains_key-get k ((j, w) ∷ m) = ground (arith, contains_key-get k m)

  Above-trans : (k j : K) (m : BTreeMap K V) → o.less k j ≡ true → Above j m → Above k m
  Above-trans k j [] h a = tt
  Above-trans k j ((i, w) ∷ m) h a = (o.less_trans k j i h a.0, Above-trans k j m h a.1)

  Above-insert :
      (i k : K) (v : V) (m : BTreeMap K V) → o.less i k ≡ true → Above i m → Above i (insert k v m)
  unfolding insert
  Above-insert i k v [] h a = (h, tt)
  Above-insert i k v ((j, w) ∷ m) h a = ground (arith, Above-insert i k v m h)

  pub insert-IsSorted : (k : K) (v : V) (m : BTreeMap K V) → IsSorted m → IsSorted (insert k v m)
  unfolding insert
  insert-IsSorted k v [] s = (tt, tt)
  insert-IsSorted k v ((j, w) ∷ m) s = elim (Bool-cases (o.eq j k)) [
    | inl e ↦ rw e (subst (λ t. Above t m) ((o.eq_iff j k).0 e) s.0, s.1)
    | inr e ↦ elim (Bool-cases (o.less k j)) [
      | inl l ↦ rw (e, l) ((l, Above-trans k j m l s.0), s)
      | inr l ↦
          rw (e, l)
            (
              Above-insert j k v m (o.less_total k j (not_eq k j e) l) s.0,
              insert-IsSorted k v m s.1,
            )
    ]
  ]

  Above-remove : (i k : K) (m : BTreeMap K V) → Above i m → Above i (remove k m)
  unfolding remove
  Above-remove i k [] a = tt
  Above-remove i k ((j, w) ∷ m) a = ground (arith, Above-remove i k m a.1)

  pub remove-IsSorted : (k : K) (m : BTreeMap K V) → IsSorted m → IsSorted (remove k m)
  unfolding remove
  remove-IsSorted k [] s = tt
  remove-IsSorted k ((j, w) ∷ m) s = ground (arith, remove-IsSorted k m s.1, Above-remove j k m s.0)

  get-Above : (k : K) (m : BTreeMap K V) → Above k m → get k m ≡ none
  unfolding get
  get-Above k [] a = refl
  get-Above k ((j, w) ∷ m) a = ground (arith, get-Above k m a.1, o.eq_iff j k, o.less_irrefl k)

  pub get-remove :
      (k j : K) (m : BTreeMap K V)
      → IsSorted m
      → get j (remove k m) ≡ (if o.eq k j then none else get j m)
  unfolding get remove
  get-remove k j [] s = ground arith
  get-remove k j ((i, w) ∷ m) s = elim (Bool-cases (o.eq i k)) [
    | inl e ↦ ground (arith, o.eq_iff i k, o.eq_iff i j, o.eq_iff k j, get-Above i m s.0)
    | inr e ↦ ground (arith, get-remove k j m s.1, o.eq_iff i k, o.eq_iff i j, o.eq_iff k j)
  ]

  contains_key-Above : (k : K) (m : BTreeMap K V) → Above k m → contains_key k m ≡ false
  contains_key-Above k m a = (contains_key-get k m).1 (get-Above k m a)

  -- An insertion replaces the entry of its key, or adds one.
  pub length-insert :
      (k : K) (v : V) (m : BTreeMap K V)
      → IsSorted m
      → length (insert k v m) ≡ (if contains_key k m then length m else length m + 1)
  unfolding insert contains_key
  length-insert k v [] s = omega arith
  length-insert k v ((j, w) ∷ m) s = elim (Bool-cases (o.less k j)) [
    | inl l ↦
        ground
          (arith, contains_key-Above k m (Above-trans k j m l s.0), o.eq_iff j k, o.less_irrefl k)
    | inr g ↦ ground (arith, length-insert k v m s.1)
  ]

-- ===== src/Base/Ord.antt =====
-- The order on keys that `BTreeMap` asks for, and its two instances in the kernel: numbers, and
-- names as lists of bytes in lexicographic order.
use Prim.Native.Nat.{ℕ}
use mathlib.Core.Path.{◌≡◌, refl}
use mathlib.Core.Logic.{◌↔◌}
use mathlib.Core.Bool.{Bool, true, false, false≢true, ◌&&◌, ◌||◌}
use mathlib.Core.List.{List, [], ◌∷◌}
use native.Mathlib.Omega.{arith}
use hyperion_os.Base.Tests.{ltb, ◌==◌}

pub record Ord {ℓ} (K : Type ℓ) : Type ℓ where
  pub eq : K → K → Bool
  pub less : K → K → Bool
  pub eq_iff : (a b : K) → (eq a b ≡ true) ↔ (a ≡ b)
  pub less_irrefl : (a : K) → less a a ≡ false
  pub less_trans : (a b c : K) → less a b ≡ true → less b c ≡ true → less a c ≡ true
  pub less_total : (a b : K) → eq a b ≡ false → less a b ≡ false → less b a ≡ true

pub nat_eq_iff : (a b : ℕ) → ((a == b) ≡ true) ↔ (a ≡ b)
nat_eq_iff a b = ground arith

pub nat_less_irrefl : (a : ℕ) → ltb a a ≡ false
nat_less_irrefl a = ground arith

pub nat_less_trans : (a b c : ℕ) → ltb a b ≡ true → ltb b c ≡ true → ltb a c ≡ true
nat_less_trans a b c p q = ground arith

pub nat_less_total : (a b : ℕ) → (a == b) ≡ false → ltb a b ≡ false → ltb b a ≡ true
nat_less_total a b p q = ground arith

instance abbrev pub nat_ord : Ord ℕ
nat_ord = record {
  eq = ◌==◌;
  less = ltb;
  eq_iff = nat_eq_iff;
  less_irrefl = nat_less_irrefl;
  less_trans = nat_less_trans;
  less_total = nat_less_total;
}

-- A name, `str` or `String`: its bytes.
abbrev pub Name : Type 0
Name = List ℕ

abbrev pub name_eq : Name → Name → Bool
name_eq [] [] = true
name_eq (a ∷ as') (b ∷ bs) = a == b && name_eq as' bs
name_eq _ _ = false

abbrev pub name_less : Name → Name → Bool
name_less [] [] = false
name_less [] (b ∷ bs) = true
name_less (a ∷ as') [] = false
name_less (a ∷ as') (b ∷ bs) = ltb a b || (a == b && name_less as' bs)

pub name_eq_iff : (a b : Name) → (name_eq a b ≡ true) ↔ (a ≡ b)
name_eq_iff [] [] = ground arith
name_eq_iff [] (b ∷ bs) = ground arith
name_eq_iff (a ∷ as') [] = ground arith
name_eq_iff (a ∷ as') (b ∷ bs) = ground (arith, name_eq_iff as' bs)

pub name_eq_refl : (a : Name) → name_eq a a ≡ true
name_eq_refl a = (name_eq_iff a a).1 refl

pub name_less_irrefl : (a : Name) → name_less a a ≡ false
name_less_irrefl [] = refl
name_less_irrefl (a ∷ as') = ground (arith, name_less_irrefl as')

pub name_less_trans :
    (a b c : Name) → name_less a b ≡ true → name_less b c ≡ true → name_less a c ≡ true
name_less_trans [] [] c p q = q
name_less_trans [] (b ∷ bs) [] p q = q
name_less_trans [] (b ∷ bs) (c ∷ cs) p q = refl
name_less_trans (a ∷ as') [] c p q = absurd (false≢true p)
name_less_trans (a ∷ as') (b ∷ bs) [] p q = q
name_less_trans (a ∷ as') (b ∷ bs) (c ∷ cs) p q = ground (arith, name_less_trans as' bs cs)

pub name_less_total :
    (a b : Name) → name_eq a b ≡ false → name_less a b ≡ false → name_less b a ≡ true
name_less_total [] [] p q = ground arith
name_less_total [] (b ∷ bs) p q = ground arith
name_less_total (a ∷ as') [] p q = refl
name_less_total (a ∷ as') (b ∷ bs) p q = ground (arith, name_less_total as' bs)

instance abbrev pub name_ord : Ord Name
name_ord = record {
  eq = name_eq;
  less = name_less;
  eq_iff = name_eq_iff;
  less_irrefl = name_less_irrefl;
  less_trans = name_less_trans;
  less_total = name_less_total;
}

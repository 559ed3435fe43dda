-- ===== src/Common/Key.antt =====
-- Boolean equality as an interface, for the keys of maps.
use Prim.Native.String.{String}
use Prim.Native.Nat.{ℕ}
use mathlib.Core.Path.{◌≡◌, refl}
use mathlib.Core.Logic.{◌↔◌, ◌≢◌}
use mathlib.Core.Bool.{Bool, true, false, ◌&&◌}
use mathlib.Core.List.{List, [], ◌∷◌}
use native.Mathlib.Omega.{arith}
use text.Mathlib.Text.{◌==◌ as str_eq}
use text.Mathlib.TextEquality.{eq_iff}
use intranet_penetration_clo.Common.Tests.{eqb, eqb_iff}

-- A type of map keys: a test, and the law that it decides equality.
pub record Key {ℓ} (K : Type ℓ) : Type ℓ where
  pub same : (j k : K) → Bool
  pub same_iff : (j k : K) → (same j k ≡ true) ↔ (j ≡ k)

instance abbrev pub nat_key : Key ℕ
nat_key = record { same_iff = eqb_iff; same = eqb }

instance abbrev pub text_key : Key String
text_key = record { same_iff = eq_iff; same = str_eq }

abbrev pub bool_same : Bool → Bool → Bool
bool_same true b = b
bool_same false true = false
bool_same false false = true

pub bool_same_iff : (a b : Bool) → (bool_same a b ≡ true) ↔ (a ≡ b)
bool_same_iff a b = ground arith

instance abbrev pub bool_key : Key Bool
bool_key = record { same = bool_same; same_iff = bool_same_iff }

module _ {ℓ} {A : Type ℓ} ⦃e : Key A⦄ where
  pub same_refl : (k : A) → e.same k k ≡ true
  same_refl k = (e.same_iff k k).1 refl

  pub same_ne : (k j : A) → k ≢ j → e.same k j ≡ false
  same_ne k j n = ground (arith, e.same_iff k j)

module _ {ℓ κ} {A : Type ℓ} {B : Type κ} ⦃e : Key A⦄ ⦃f : Key B⦄ where
  abbrev pub pair_same : A × B → A × B → Bool
  pair_same p q = e.same p.0 q.0 && f.same p.1 q.1

  pub pair_same_iff : (p q : A × B) → (pair_same p q ≡ true) ↔ (p ≡ q)
  pair_same_iff (a, b) (c, d) = ground (arith, e.same_iff a c, f.same_iff b d)

  instance abbrev pub pair_key : Key (A × B)
  pair_key = record { same = pair_same; same_iff = pair_same_iff }

module _ {ℓ} {A : Type ℓ} ⦃e : Key A⦄ where
  abbrev pub list_same : List A → List A → Bool
  list_same [] [] = true
  list_same [] (y ∷ ys) = false
  list_same (x ∷ xs) [] = false
  list_same (x ∷ xs) (y ∷ ys) = e.same x y && list_same xs ys

  pub list_same_iff : (xs ys : List A) → (list_same xs ys ≡ true) ↔ (xs ≡ ys)
  list_same_iff [] [] = ground arith
  list_same_iff [] (y ∷ ys) = ground arith
  list_same_iff (x ∷ xs) [] = ground arith
  list_same_iff (x ∷ xs) (y ∷ ys) = ground (arith, e.same_iff x y, list_same_iff xs ys)

  instance abbrev pub list_key : Key (List A)
  list_key = record { same = list_same; same_iff = list_same_iff }

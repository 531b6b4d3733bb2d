-- ===== src/Common/Classes.antt =====
-- Decidable equality as an interface (`PartialEq`), with what the sets of the code use of it.
use Prim.Native.Nat.{ℕ}
use mathlib.Core.Path.{◌≡◌}
use mathlib.Core.Logic.{◌↔◌}
use mathlib.Core.Bool.{Bool, true, false, ◌&&◌, ◌||◌}
use mathlib.Core.Option.{Option, none, some}
use mathlib.Core.List.{List, [], ◌∷◌, Memᴰ}
use mathlib.Core.List.Memᴰ
use native.Mathlib.Omega.{arith}
use flutterdec.Common.Tests.{nat_eq, nat_eq_iff}
use flutterdec.Common.Lists.{Memᴰ-cons}

pub record Eq {ℓ} (Self : Type ℓ) : Type ℓ where
  pub beq : (x y : Self) → Bool
  pub beq_iff : (x y : Self) → (beq x y ≡ true) ↔ (x ≡ y)

infix 50 ◌==◌
abbrev pub ◌==◌ {κ} : {Self : Type κ} ⦃eq : Eq Self⦄ (x y : Self) → Bool
◌==◌ ⦃eq⦄ = eq.beq

instance abbrev pub ℕ_eq : Eq ℕ
ℕ_eq = record { beq = nat_eq; beq_iff = nat_eq_iff }

module _ {ℓ} {A : Type ℓ} ⦃e : Eq A⦄ where
  abbrev pub list_eq : List A → List A → Bool
  list_eq [] [] = true
  list_eq (x ∷ xs) (y ∷ ys) = x == y && list_eq xs ys
  list_eq _ _ = false

  pub list_eq_iff : (xs ys : List A) → (list_eq xs ys ≡ true) ↔ (xs ≡ ys)
  list_eq_iff [] [] = ground arith
  list_eq_iff [] (y ∷ ys) = ground arith
  list_eq_iff (x ∷ xs) [] = ground arith
  list_eq_iff (x ∷ xs) (y ∷ ys) = ground (arith, e.beq_iff x y, list_eq_iff xs ys)

  instance abbrev pub List_eq : Eq (List A)
  List_eq = record { beq = list_eq; beq_iff = list_eq_iff }

  abbrev pub option_eq : Option A → Option A → Bool
  option_eq none none = true
  option_eq (some x) (some y) = x == y
  option_eq _ _ = false

  pub option_eq_iff : (x y : Option A) → (option_eq x y ≡ true) ↔ (x ≡ y)
  option_eq_iff none none = ground arith
  option_eq_iff none (some y) = ground arith
  option_eq_iff (some x) none = ground arith
  option_eq_iff (some x) (some y) = ground (arith, e.beq_iff x y)

  instance abbrev pub Option_eq : Eq (Option A)
  Option_eq = record { beq = option_eq; beq_iff = option_eq_iff }

  -- A set as the list of what was inserted.
  abbrev pub contains : List A → A → Bool
  contains [] a = false
  contains (x ∷ xs) a = a == x || contains xs a

  pub contains_iff : (xs : List A) (a : A) → (contains xs a ≡ true) ↔ Memᴰ a xs
  contains_iff [] a = (λ h. cc, λ m. absurd (Memᴰ.not-nil m))
  contains_iff (x ∷ xs) a = ground (arith, e.beq_iff a x, contains_iff xs a, Memᴰ-cons a x xs)

-- ===== src/Base/Equality.antt =====
-- Decidable equality as an interface: Go's `==` on the types that serve as keys.
use Prim.Native.Nat.{ℕ, ◌+◌}
use mathlib.Core.Path.{◌≡◌, refl}
use mathlib.Core.Logic.{◌≢◌, ◌↔◌, inl, inr}
use mathlib.Core.Bool.{Bool, true, false, ◌&&◌, ◌||◌}
use mathlib.Core.List.{List, [], ◌∷◌}
use native.Mathlib.Omega.{arith}
use raider_worker.Base.Tests.{if◌then◌else◌, nat_beq, nat_beq_iff, Bool-cases}

infix 50 ◌==◌
pub record Eq {ℓ} (A : Type ℓ) : Type ℓ where
  pub beq : A → A → Bool
  pub beq_iff : (x y : A) → (beq x y ≡ true) ↔ (x ≡ y)

module _ {ℓ} {A : Type ℓ} ⦃e : Eq A⦄ where
  abbrev pub ◌==◌ : A → A → Bool
  ◌==◌ = e.beq

abbrev pub bool_beq : Bool → Bool → Bool
bool_beq true b = b
bool_beq false true = false
bool_beq false false = true

pub bool_beq_iff : (a b : Bool) → (bool_beq a b ≡ true) ↔ (a ≡ b)
bool_beq_iff a b = ground arith

instance abbrev pub bool_eq : Eq Bool
bool_eq = record { beq = bool_beq; beq_iff = bool_beq_iff }

instance abbrev pub nat_eq : Eq ℕ
nat_eq = record { beq_iff = nat_beq_iff; beq = nat_beq }

pub unit_beq_iff : (a b : Unit {0}) → (true ≡ true) ↔ (a ≡ b)
unit_beq_iff a b = (λ _. refl, λ _. refl)

instance abbrev pub unit_eq : Eq (Unit {0})
unit_eq = record { beq = λ _ _. true; beq_iff = unit_beq_iff }

module _ {ℓ} {A : Type ℓ} ⦃e : Eq A⦄ where
  abbrev pub list_beq : List A → List A → Bool
  list_beq [] [] = true
  list_beq [] (y ∷ ys) = false
  list_beq (x ∷ xs) [] = false
  list_beq (x ∷ xs) (y ∷ ys) = e.beq x y && list_beq xs ys

  pub list_beq_iff : (xs ys : List A) → (list_beq xs ys ≡ true) ↔ (xs ≡ ys)
  list_beq_iff [] [] = (λ _. refl, λ _. refl)
  list_beq_iff [] (y ∷ ys) = (λ h. cc, λ h. cc)
  list_beq_iff (x ∷ xs) [] = (λ h. cc, λ h. cc)
  list_beq_iff (x ∷ xs) (y ∷ ys) = (
    λ h. ground (arith, e.beq_iff x y, list_beq_iff xs ys),
    λ h. ground (arith, e.beq_iff x y, list_beq_iff xs ys),
  )

  instance abbrev pub list_eq : Eq (List A)
  list_eq = record { beq = list_beq; beq_iff = list_beq_iff }

  pub ==_refl : (a : A) → (a == a) ≡ true
  ==_refl a = (e.beq_iff a a).1 refl

  pub eq_of_== : (a b : A) → (a == b) ≡ true → a ≡ b
  eq_of_== a b h = (e.beq_iff a b).0 h

  pub ==_of_ne : (a b : A) → a ≢ b → (a == b) ≡ false
  ==_of_ne a b n = elim (Bool-cases (a == b)) [
    | inl same ↦ absurd (n (eq_of_== a b same))
    | inr apart ↦ apart
  ]

  pub ne_of_== : (a b : A) → (a == b) ≡ false → a ≢ b
  ne_of_== a b h same = let is : (a == b) ≡ true = (e.beq_iff a b).1 same in absurd (cc)

  -- `a` is one of the entries.
  abbrev pub elem : A → List A → Bool
  elem a [] = false
  elem a (x ∷ xs) = (x == a) || elem a xs

  -- How often `a` is among the entries.
  unfoldable pub count : A → List A → ℕ
  count a [] = 0
  count a (x ∷ xs) = (if x == a then 1 else 0) + count a xs

-- ===== src/Base/Equality.antt =====
-- Go's `==` on comparable values, as an instance with its law.
use Prim.Native.Nat.{ℕ}
use Prim.Native.String.{String}
use mathlib.Core.Path.{◌≡◌, refl}
use mathlib.Core.Logic.{◌↔◌}
use mathlib.Core.Bool.{Bool, true, false, ◌||◌, ◌&&◌}
use mathlib.Core.List.{List, [], ◌∷◌}
use native.Mathlib.Omega.{arith}
use text.Mathlib.Text.{◌==◌ as str_eq}
use text.Mathlib.TextEquality.{eq_iff}
use fastcopier.Base.Tests.{eqb, eqb_iff}

pub record Comparable {ℓ} (A : Type ℓ) : Type ℓ where
  pub equals : A → A → Bool
  pub equals_iff : (a b : A) → (equals a b ≡ true) ↔ (a ≡ b)

infix 50 ◌==◌
abbrev pub ◌==◌ {ℓ} : {A : Type ℓ} ⦃e : Comparable A⦄ → A → A → Bool
◌==◌ ⦃e⦄ = e.equals

instance abbrev pub string_eq : Comparable String
string_eq = record { equals = str_eq; equals_iff = eq_iff }

instance abbrev pub nat_eq : Comparable ℕ
nat_eq = record { equals = eqb; equals_iff = eqb_iff }

module _ {ℓ} {A : Type ℓ} ⦃e : Comparable A⦄ where
  pub ==_refl : (a : A) → (a == a) ≡ true
  ==_refl a = (e.equals_iff a a).1 refl

  pub ==_comm : (a b : A) → (a == b) ≡ (b == a)
  ==_comm a b = ground (arith, e.equals_iff a b, e.equals_iff b a)

  abbrev pub contains : List A → A → Bool
  contains [] a = false
  contains (y ∷ ys) a = a == y || contains ys a

  abbrev pub list_beq : List A → List A → Bool
  list_beq [] [] = true
  list_beq (x ∷ xs) (y ∷ ys) = x == y && list_beq xs ys
  list_beq _ _ = false

  pub list_beq_iff : (xs ys : List A) → (list_beq xs ys ≡ true) ↔ (xs ≡ ys)
  list_beq_iff [] [] = (λ h. refl, λ h. refl)
  list_beq_iff [] (y ∷ ys) = (λ h. cc, λ h. cc)
  list_beq_iff (x ∷ xs) [] = (λ h. cc, λ h. cc)
  list_beq_iff (x ∷ xs) (y ∷ ys) = ground (arith, e.equals_iff x y, list_beq_iff xs ys)

  instance abbrev pub list_eq : Comparable (List A)
  list_eq = record { equals = list_beq; equals_iff = list_beq_iff }

-- ===== src/Prelude/Tests.antt =====
-- Boolean tests on the native numbers, the conditional, and decidable equality as an interface.
use Prim.Native.Nat.{ℕ, compare, Ordering}
use mathlib.Core.Path.{◌≡◌, refl}
use mathlib.Core.Logic.{◌↔◌, ◌⊎◌, inl, inr}
use mathlib.Core.Bool.{Bool, true, false}
use mathlib.Core.Option.{Option, none, some}
use native.Mathlib.Omega.{arith}

abbrev pub ltb : ℕ → ℕ → Bool
ltb a b = elim (compare a b) [ Ordering.lt ↦ true | _ ↦ false ]

abbrev pub leb : ℕ → ℕ → Bool
leb a b = elim (compare a b) [ Ordering.gt ↦ false | _ ↦ true ]

abbrev pub nat_eq : ℕ → ℕ → Bool
nat_eq a b = elim (compare a b) [ Ordering.eq ↦ true | _ ↦ false ]

infix 1 if◌then◌else◌
abbrev pub if◌then◌else◌ {ℓ} : {A : Type ℓ} → Bool → A → A → A
if true then x else y = x
if false then x else y = y

pub nat_eq_iff : (a b : ℕ) → (nat_eq a b ≡ true) ↔ (a ≡ b)
nat_eq_iff a b = ground arith

-- To split on a computed value and keep the equation.
pub Bool-cases : (b : Bool) → (b ≡ true) ⊎ (b ≡ false)
Bool-cases true = inl refl
Bool-cases false = inr refl

pub Option-cases {ℓ} : {A : Type ℓ} (o : Option A) → (o ≡ none) ⊎ ((a : A) × (o ≡ some a))
Option-cases none = inl refl
Option-cases (some a) = inr (a, refl)

-- A type whose values the code compares with `==`: the test, and that it tells equal values.
pub record Eq {ℓ} (A : Type ℓ) : Type ℓ where
  pub same : (x y : A) → Bool
  pub same_iff : (x y : A) → (same x y ≡ true) ↔ (x ≡ y)

instance abbrev pub ℕ_eq : Eq ℕ
ℕ_eq = record { same = nat_eq; same_iff = nat_eq_iff }

infix 50 ◌==◌
abbrev pub ◌==◌ {ℓ} : {A : Type ℓ} ⦃d : Eq A⦄ (x y : A) → Bool
◌==◌ ⦃d⦄ x y = d.same x y

pub eq_iff {ℓ} : {A : Type ℓ} ⦃e : Eq A⦄ (a b : A) → ((a == b) ≡ true) ↔ (a ≡ b)
eq_iff ⦃e⦄ a b = e.same_iff a b

pub eq_refl {ℓ} : {A : Type ℓ} ⦃e : Eq A⦄ (a : A) → (a == a) ≡ true
eq_refl ⦃e⦄ a = (e.same_iff a a).1 refl

-- What holds of both branches of a test holds of the test.
pub if_both {ℓ ℓ'} :
    {A : Type ℓ} (P : A → Type ℓ') (b : Bool) {x y : A}
    → (b ≡ true → P x)
    → (b ≡ false → P y)
    → P (if b then x else y)
if_both P true f g = f refl
if_both P false f g = g refl

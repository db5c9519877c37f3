-- ===== src/Prelude/Lists.antt =====
-- Lists measured and cut by native numbers, under the library's names.
use Prim.Native.Nat.{ℕ, zero, suc, ◌+◌}
use mathlib.Core.Path.{◌≡◌, refl}
use mathlib.Core.List.{List, [], ◌∷◌, ◌++◌}
use mathlib.Core.Bool.{Bool, false, ◌||◌}
use native.Mathlib.Omega.{arith}
use jota_gateway.Prelude.Tests.{if◌then◌else◌, Eq, ◌==◌}

module _ {ℓ} {A : Type ℓ} where
  abbrev pub length : List A → ℕ
  length [] = 0
  length (x ∷ xs) = suc (length xs)

  abbrev pub drop : ℕ → List A → List A
  drop zero xs = xs
  drop (suc n) [] = []
  drop (suc n) (x ∷ xs) = drop n xs

  abbrev pub take : ℕ → List A → List A
  take zero xs = []
  take (suc n) [] = []
  take (suc n) (x ∷ xs) = x ∷ take n xs

  -- A comprehension `[x for x in xs if p x]`.
  abbrev pub keep_if : (A → Bool) → List A → List A
  keep_if p [] = []
  keep_if p (x ∷ xs) = let rest = keep_if p xs in if p x then x ∷ rest else rest

  -- `any(p(x) for x in xs)`.
  abbrev pub any : (A → Bool) → List A → Bool
  any p [] = false
  any p (x ∷ xs) = p x || any p xs

  abbrev pub All {κ} : (A → Type κ) → List A → Type κ
  All P [] = Unit
  All P (x ∷ xs) = P x × All P xs

  pub length-append : (xs ys : List A) → length (xs ++ ys) ≡ length xs + length ys
  length-append [] ys = omega arith
  length-append (x ∷ xs) ys = omega (arith, length-append xs ys)

  pub drop-append : (xs ys : List A) → drop (length xs) (xs ++ ys) ≡ ys
  drop-append [] ys = refl
  drop-append (x ∷ xs) ys = drop-append xs ys

-- `x in xs`.
abbrev pub contains {ℓ} : {A : Type ℓ} ⦃e : Eq A⦄ → A → List A → Bool
contains a [] = false
contains a (x ∷ xs) = a == x || contains a xs

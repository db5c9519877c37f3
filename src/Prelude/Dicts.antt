-- ===== src/Prelude/Dicts.antt =====
-- Python's `dict`, whose order is that of insertion: a write to a key that is there keeps its place.
use mathlib.Core.Path.{◌≡◌, refl, subst}
use mathlib.Core.List.{List, [], ◌∷◌, map}
use mathlib.Core.Bool.{Bool, true, false}
use mathlib.Core.Option.{Option, none, some}
use native.Mathlib.Omega.{arith}
use mathlib.Core.Logic.{inl, inr}
use jota_gateway.Prelude.Tests.{if◌then◌else◌, Eq, ◌==◌, eq_iff, Bool-cases}

abbrev pub Dict : Type 0 → Type 0 → Type 0
Dict K V = List (K × V)

module _ {K V : Type 0} ⦃e : Eq K⦄ where
  unfoldable pub lookup : K → Dict K V → Option V
  lookup k [] = none
  lookup k ((j, v) ∷ d) = if j == k then some v else lookup k d

  unfoldable pub insert : K → V → Dict K V → Dict K V
  insert k v [] = (k, v) ∷ []
  insert k v ((j, w) ∷ d) = if j == k then (j, v) ∷ d else (j, w) ∷ insert k v d

  -- `del d[k]`, and `d.pop(k, None)`.
  unfoldable pub delete : K → Dict K V → Dict K V
  delete k [] = []
  delete k ((j, w) ∷ d) = if j == k then delete k d else (j, w) ∷ delete k d

  unfoldable pub has_key : K → Dict K V → Bool
  has_key k [] = false
  has_key k ((j, w) ∷ d) = if j == k then true else has_key k d

  pub lookup-insert :
      (k j : K) (v : V) (d : Dict K V)
      → lookup j (insert k v d) ≡ (if k == j then some v else lookup j d)
  unfolding lookup insert
  lookup-insert k j v [] = refl
  lookup-insert k j v ((i, w) ∷ d) =
      ground (arith, eq_iff k j, eq_iff i k, eq_iff i j, lookup-insert k j v d)

  pub lookup-delete :
      (k j : K) (d : Dict K V) → lookup j (delete k d) ≡ (if k == j then none else lookup j d)
  unfolding lookup delete
  lookup-delete k j [] = ground arith
  lookup-delete k j ((i, w) ∷ d) =
      ground (arith, eq_iff k j, eq_iff i k, eq_iff i j, lookup-delete k j d)

  pub has_key-lookup :
      (k : K) (d : Dict K V) → has_key k d ≡ (elim (lookup k d) [ some _ ↦ true | none ↦ false ])
  unfolding lookup has_key
  has_key-lookup k [] = refl
  has_key-lookup k ((j, w) ∷ d) = ground (arith, has_key-lookup k d)

module _ {K V : Type 0} ⦃e : Eq K⦄ where
  pub has_key-insert :
      (k j : K) (v : V) (d : Dict K V)
      → has_key j (insert k v d) ≡ (if k == j then true else has_key j d)
  unfolding has_key insert
  has_key-insert k j v [] = refl
  has_key-insert k j v ((i, w) ∷ d) =
      ground (arith, eq_iff k j, eq_iff i k, eq_iff i j, has_key-insert k j v d)

  pub has_key-delete :
      (k j : K) (d : Dict K V) → has_key j (delete k d) ≡ (if k == j then false else has_key j d)
  unfolding has_key delete
  has_key-delete k j [] = ground arith
  has_key-delete k j ((i, w) ∷ d) =
      ground (arith, eq_iff k j, eq_iff i k, eq_iff i j, has_key-delete k j d)

abbrev pub keys : {K V : Type 0} → Dict K V → List K
keys d = map (λ p. p.0) d

abbrev pub values : {K V : Type 0} → Dict K V → List V
values d = map (λ p. p.1) d

-- Python's `set`, as a list without order.
module _ {A : Type 0} ⦃e : Eq A⦄ where
  unfoldable pub member : A → List A → Bool
  member a [] = false
  member a (x ∷ xs) = if x == a then true else member a xs

  unfoldable pub set_add : A → List A → List A
  unfolding member
  set_add a xs = if member a xs then xs else a ∷ xs

  unfoldable pub set_discard : A → List A → List A
  set_discard a [] = []
  set_discard a (x ∷ xs) = if x == a then set_discard a xs else x ∷ set_discard a xs

  pub member-set_add :
      (a b : A) (xs : List A) → member b (set_add a xs) ≡ (if a == b then true else member b xs)
  unfolding member set_add
  member-set_add a b xs = elim (Bool-cases (member a xs)) [
    | inl old ↦
        ground (arith, old, eq_iff a b, λ (p : a ≡ b). subst (λ c. member c xs ≡ true) p old)
    | inr new ↦ rw (new, set_add) refl
  ]

  pub member-set_discard :
      (a b : A) (xs : List A)
      → member b (set_discard a xs) ≡ (if a == b then false else member b xs)
  unfolding member set_discard
  member-set_discard a b [] = ground arith
  member-set_discard a b (x ∷ xs) =
      ground (arith, eq_iff a b, eq_iff x a, eq_iff x b, member-set_discard a b xs)

-- ===== src/Access/Clients/Sessions.antt =====
-- What a client's key opens: the agents as the administrator set them, and nothing once it was replaced.
use jota_gateway.Prelude.{
  Bool, ◌≡◌, refl, ap, subst, ◌∙◌, true, false, Option, none, some, List, [], ◌∷◌, if◌then◌else◌,
  ◌==◌, Text, Text_eq, codes, truthy, contains, arith, eq_iff, if_both, Bool-cases, inl, inr,
}
use jota_gateway.Access.Clients.{
  ClientRecord, Table, has_id, find_id, find_client_key, change, with_key, Response, ok, rotate,
  get_session, lookup_found, client_not_found, parse_allowed_agents, to_json,
}

unfoldable pub has_client_key : Text → Table → Bool
has_client_key k [] = false
has_client_key k (r ∷ rs) = if r.client_key == k then true else has_client_key k rs

-- No two rows share an id or a key.
abbrev pub Unique : Table → Type 0
Unique [] = Unit {0}
Unique (r ∷ rs) = (has_id r.id rs ≡ false) × (has_client_key r.client_key rs ≡ false) × Unique rs

key_of : Option ClientRecord → Text
key_of none = []
key_of (some r) = r.client_key

-- A row that is found is there with its key.
found_key :
    (i : Text) (t : Table) (r : ClientRecord)
    → find_id i t ≡ some r
    → has_client_key r.client_key t ≡ true
unfolding find_id has_client_key key_of
found_key i [] r f = ground (arith, f)
found_key i (x ∷ t) r f = elim (Bool-cases (x.id == i)) [
  | inl here ↦
      let same : x.client_key ≡ r.client_key =
        ap key_of (subst (λ c. (if c then some x else find_id i t) ≡ some r) here f) in
      ground (arith, eq_iff x.client_key r.client_key, same)
  | inr apart ↦
      ground
        (arith, found_key i t r (subst (λ c. (if c then some x else find_id i t) ≡ some r) apart f))
]

replaced_gone :
    (i k old : Text) (t : Table) (r : ClientRecord)
    → Unique t
    → find_id i t ≡ some r
    → r.client_key ≡ old
    → (k == old) ≡ false
    → has_client_key old (change i (with_key k) t) ≡ false
unfolding has_client_key change find_id key_of
replaced_gone i k old [] r u f same d = refl
replaced_gone i k old (x ∷ t) r (a, b, u) f same d = elim (Bool-cases (x.id == i)) [
  | inl here ↦
      let is_first : x.client_key ≡ old =
        ap key_of (subst (λ c. (if c then some x else find_id i t) ≡ some r) here f) ∙ same in
      if_both (λ l. has_client_key old l ≡ false) (x.id == i)
        (λ _. ground (arith, d, subst (λ y. has_client_key y t ≡ false) is_first b))
        (λ apart. ground (arith, here, apart))
  | inr apart ↦
      let later : find_id i t ≡ some r =
        subst (λ c. (if c then some x else find_id i t) ≡ some r) apart f in
      let there : has_client_key old t ≡ true =
        subst (λ y. has_client_key y t ≡ true) same (found_key i t r later) in
      let other : (x.client_key == old) ≡ false = elim (Bool-cases (x.client_key == old)) [
        | inl e ↦ ground (
          arith,
          there,
          subst (λ y. has_client_key y t ≡ false) ((eq_iff x.client_key old).0 e) b,
        )
        | inr e ↦ e
      ] in
      if_both (λ l. has_client_key old l ≡ false) (x.id == i) (λ here. ground (arith, here, apart))
        (λ _. ground (arith, other, replaced_gone i k old t r u later same d))
]

not_there : (k : Text) (t : Table) → has_client_key k t ≡ false → find_client_key k t ≡ none
unfolding has_client_key find_client_key
not_there k [] e = refl
not_there k (r ∷ t) e = ground (arith, e, not_there k t)

rotated :
    (commits : Table → Bool) (i : Text) (tokens : List Text) (t : Table) (r : ClientRecord)
    → Unique t
    → find_id i t ≡ some r
    → contains r.client_key tokens ≡ false
    → (rotate commits i tokens t).0 ≡ ok
    → has_client_key r.client_key (rotate commits i tokens t).1 ≡ false
unfolding rotate
rotated commits i [] t r u f n e = ground (arith, e)
rotated commits i (k ∷ ks) t r u f n e =
    if_both (λ (x : Response × Table). x.0 ≡ ok → has_client_key r.client_key x.1 ≡ false)
      (commits (change i (with_key k) t))
      (λ _ o.
        replaced_gone i k r.client_key t r u f refl
          (ground (arith, n, eq_iff r.client_key k, eq_iff k r.client_key)))
      (λ _ o. rotated commits i ks t r u f (ground (arith, n)) o) e

module _ (dumps : List Text → Text) (loads : Text → Option (List Text)) where
  -- When the key of a client has been rotated, the key that it had opens no session any more, unless one
  -- of the new random keys is that very key.
  pub rotate-get_session :
      (commits : Table → Bool) (i : Text) (tokens : List Text) (t : Table) (r : ClientRecord)
      → Unique t
      → find_id i t ≡ some r
      → contains r.client_key tokens ≡ false
      → (rotate commits i tokens t).0 ≡ ok
      → get_session dumps loads r.client_key (rotate commits i tokens t).1 ≡ client_not_found
  unfolding get_session lookup_found
  rotate-get_session commits i tokens t r u f n e =
      ap (lookup_found dumps loads)
        (not_there r.client_key _ (rotated commits i tokens t r u f n e))

  -- What the administrator sets as the agents of a client is what its session gets, no list and the
  -- empty list included, if `json.loads` reads what `json.dumps` writes, and writes no empty text and
  -- no `null` for a list.
  pub parse_allowed_agents-to_json :
      (l : Option (List Text))
      → ((x : List Text) → loads (dumps x) ≡ some x)
      → ((x : List Text) → truthy (dumps x) ≡ true)
      → ((x : List Text) → (dumps x == codes "null") ≡ false)
      → parse_allowed_agents dumps loads (to_json dumps loads l) ≡ some l
  unfolding parse_allowed_agents
  parse_allowed_agents-to_json none law full apart = refl
  parse_allowed_agents-to_json (some l) law full apart = rw (full l, apart l, law l) refl

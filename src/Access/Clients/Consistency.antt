-- ===== src/Access/Clients/Consistency.antt =====
-- The agents of a client: its default is one of those allowed, through every sequence of requests.
use jota_gateway.Prelude.{
  ◌≡◌, refl, sym, ap, subst, ◌∙◌, Bool, true, false, not, ◌&&◌, ◌||◌, Option, none, some, List, [],
  ◌∷◌, if◌then◌else◌, ◌==◌, Text, Text_eq, truthy, arith, eq_iff, if_both, Bool-cases, inl, inr,
  All,
}
use jota_gateway.Access.Clients.{
  ClientRecord, Table, Response, has_id, find_id, change, remove, with_key, rotate,
  rotate_client_key, is_consistent, or_else, is_set, ClientUpdate, to_json, stored_agents,
  create_client, patch, allowed_after, update_found, update_client, delete_client, Action, creates,
  updates, deletes, rotates, step, run,
}

row_of : ClientRecord → Option ClientRecord → ClientRecord
row_of d none = d
row_of d (some r) = r

module _ (P : ClientRecord → Type 0) where
  change-All :
      (i : Text) (f : ClientRecord → ClientRecord) (t : Table)
      → ((r : ClientRecord) → P r → P (f r))
      → All P t
      → All P (change i f t)
  unfolding change
  change-All i f [] h a = a
  change-All i f (r ∷ t) h (p, a) =
      if_both (All P) (r.id == i) (λ _. (h r p, a)) (λ _. (p, change-All i f t h a))

  remove-All : (i : Text) (t : Table) → All P t → All P (remove i t)
  unfolding remove
  remove-All i [] a = a
  remove-All i (r ∷ t) (p, a) = if_both (All P) (r.id == i) (λ _. a) (λ _. (p, remove-All i t a))

  rotate-All :
      (commits : Table → Bool) (i : Text) (ks : List Text) (t : Table)
      → ((k : Text) (r : ClientRecord) → P r → P (with_key k r))
      → All P t
      → All P (rotate commits i ks t).1
  unfolding rotate
  rotate-All commits i [] t h a = a
  rotate-All commits i (k ∷ ks) t h a =
      if_both (λ (x : Response × Table). All P x.1) (commits (change i (with_key k) t))
        (λ _. change-All i (with_key k) t (h k) a) (λ _. rotate-All commits i ks t h a)

  found-All :
      (i : Text) (f : ClientRecord → ClientRecord) (t : Table) (r : ClientRecord)
      → find_id i t ≡ some r
      → All P t
      → (P r → P (f r))
      → (r.id ≡ i) × All P (change i f t)
  unfolding find_id change row_of
  found-All i f [] r e a h = cc
  found-All i f (x ∷ t) r e (p, a) h = elim (Bool-cases (x.id == i)) [
    | inl here ↦
        let first : x ≡ r =
          ap (row_of x) (subst (λ b. (if b then some x else find_id i t) ≡ some r) here e) in
        (
          sym (ap (λ (y : ClientRecord). y.id) first) ∙ (eq_iff x.id i).0 here,
          if_both (All P) (x.id == i)
              (λ _. (subst (λ y. P (f y)) (sym first) (h (subst P first p)), a))
              (λ apart. ground (arith, here, apart)),
        )
    | inr apart ↦
        let (same, rest) =
          found-All i f t r (subst (λ b. (if b then some x else find_id i t) ≡ some r) apart e) a
            h in
        (same, if_both (All P) (x.id == i) (λ here. ground (arith, here, apart)) (λ _. (p, rest)))
  ]

module _ (dumps : List Text → Text) (loads : Text → Option (List Text)) where
  -- The default agent is one of those allowed.
  abbrev pub IsConsistent : ClientRecord → Type 0
  IsConsistent r = is_consistent r.default_agent (stored_agents dumps loads r.allowed_agents) ≡ true

module _ (dumps : List Text → Text) (loads : Text → Option (List Text))
    (law : (x : List Text) → loads (dumps x) ≡ some x)
    (full : (x : List Text) → truthy (dumps x) ≡ true) where
  stored_to_json : (l : Option (List Text)) → stored_agents dumps loads (to_json dumps loads l) ≡ l
  unfolding stored_agents
  stored_to_json none = refl
  stored_to_json (some l) = rw (full l) (law l)

  patched_agents :
      (body : ClientUpdate) (r : ClientRecord)
      → stored_agents dumps loads (patch dumps loads body r).allowed_agents
        ≡ allowed_after dumps loads body r
  unfolding patch
  patched_agents body r = go body.allowed_agents
    where
      go :
          (o : Option (Option (List Text)))
          → stored_agents dumps loads
              (elim o [ none ↦ r.allowed_agents | some l ↦ to_json dumps loads l ])
            ≡ or_else o (stored_agents dumps loads r.allowed_agents)
      go none = refl
      go (some l) = stored_to_json l

  -- An update about neither of the two fields changes neither.
  untouched :
      (body : ClientUpdate) (r : ClientRecord)
      → (is_set body.default_agent || is_set body.allowed_agents) ≡ false
      → is_consistent
          (or_else body.default_agent r.default_agent)
          (allowed_after dumps loads body r)
        ≡ is_consistent r.default_agent (stored_agents dumps loads r.allowed_agents)
  untouched body r e = ground (arith, e)

  update_found-IsConsistent :
      (i : Text) (body : ClientUpdate) (o : Option ClientRecord) (t : Table)
      → find_id i t ≡ o
      → All (IsConsistent dumps loads) t
      → All (IsConsistent dumps loads) (update_found dumps loads body o t).1
  unfolding update_found patch
  update_found-IsConsistent i body none t f a = a
  update_found-IsConsistent i body (some r) t f a =
      let after =
        is_consistent (or_else body.default_agent r.default_agent)
          (allowed_after dumps loads body r) in
      let patched : (IsConsistent dumps loads r → after ≡ true)
          → IsConsistent dumps loads r
          → IsConsistent dumps loads (patch dumps loads body r) =
        λ h c.
          ap (is_consistent (or_else body.default_agent r.default_agent)) (patched_agents body r)
          ∙ h c in
      if_both (λ (x : Response × Table). All (IsConsistent dumps loads) x.1)
        ((is_set body.default_agent || is_set body.allowed_agents) && not after) (λ _. a)
        (λ fine.
          let (same, all) =
            found-All (IsConsistent dumps loads) i (patch dumps loads body) t r f a (
              patched (λ c.
                elim (Bool-cases (is_set body.default_agent || is_set body.allowed_agents)) [
                  | inl touched ↦ ground (arith, fine, touched)
                  | inr kept ↦ untouched body r kept ∙ c
                ])) in
          subst (λ j. All (IsConsistent dumps loads) (change j (patch dumps loads body) t))
            (sym same) all)

  step-IsConsistent :
      (commits : Table → Bool) (a : Action) (t : Table)
      → All (IsConsistent dumps loads) t
      → All (IsConsistent dumps loads) (step dumps loads commits a t)
  unfolding step create_client update_client delete_client rotate_client_key
  step-IsConsistent commits (creates fresh token body) t a =
      if_both (λ (x : Response × Table). All (IsConsistent dumps loads) x.1)
        (not (is_consistent body.default_agent body.allowed_agents)) (λ _. a)
        (λ fine.
          if_both (λ (x : Response × Table). All (IsConsistent dumps loads) x.1) (commits _)
            (λ _. (
              ap (is_consistent body.default_agent) (stored_to_json body.allowed_agents)
                  ∙ ground (arith, fine),
              a,
            ))
            (λ _. a))
  step-IsConsistent commits (updates i body) t a =
      update_found-IsConsistent i body (find_id i t) t refl a
  step-IsConsistent commits (deletes i) t a =
      if_both (λ (r : Response × Table). All (IsConsistent dumps loads) r.1) (has_id i t)
        (λ _. remove-All (IsConsistent dumps loads) i t a) (λ _. a)
  step-IsConsistent commits (rotates i tokens) t a =
      if_both (λ (r : Response × Table). All (IsConsistent dumps loads) r.1) (has_id i t)
        (λ _. rotate-All (IsConsistent dumps loads) commits i tokens t (λ k r c. c) a) (λ _. a)

  -- Issue #122: whatever requests the administration API gets, and whatever the database refuses, the
  -- default agent of every client stays one of those that it allows, if that was so before, and if
  -- `json.loads` reads what `json.dumps` writes, which is never empty.
  pub run-IsConsistent :
      (commits : Table → Bool) (acts : List Action) (t : Table)
      → All (IsConsistent dumps loads) t
      → All (IsConsistent dumps loads) (run dumps loads commits acts t)
  unfolding run
  run-IsConsistent commits [] t a = a
  run-IsConsistent commits (x ∷ acts) t a =
      run-IsConsistent commits acts (step dumps loads commits x t) (step-IsConsistent commits x t a)

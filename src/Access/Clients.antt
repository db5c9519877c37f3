-- ===== src/Access/Clients.antt =====
-- api/admin_routes.py (`create_client`, `update_client`, `delete_client`, `rotate_client_key`) and
-- services/db_client.py (`_lookup`, `_parse_allowed_agents`), over the table of clients, a list of rows.
-- Whether the database commits a new or a changed key, or raises `IntegrityError`, is the parameter
-- `commits`, asked about the table as it would be; a list of agents is stored as JSON text, by the
-- parameters `dumps` and `loads`. Left out: a commit that raises where the code does not expect it,
-- the columns that only configure the audio, the other fields of a request, and text in a row that
-- `json.loads` refuses in an update.
pub mod Consistency
pub mod Sessions
use jota_gateway.Prelude.{
  ℕ, Bool, true, false, not, ◌&&◌, ◌||◌, Option, none, some, List, [], ◌∷◌, if◌then◌else◌, ◌==◌,
  Text, Text_eq, codes, truthy, contains,
}

pub record ClientRecord : Type 0 where
  pub id : Text
  pub client_key : Text
  pub is_active : Bool
  pub default_agent : Option Text
  -- JSON text.
  pub allowed_agents : Option Text

abbrev pub Table : Type 0
Table = List ClientRecord

pub data Response : Type 0 where
  ok : Response
  not_found conflict unprocessable : Response

unfoldable pub has_id : Text → Table → Bool
has_id i [] = false
has_id i (r ∷ rs) = if r.id == i then true else has_id i rs

unfoldable pub find_id : Text → Table → Option ClientRecord
find_id i [] = none
find_id i (r ∷ rs) = if r.id == i then some r else find_id i rs

unfoldable pub find_client_key : Text → Table → Option ClientRecord
find_client_key k [] = none
find_client_key k (r ∷ rs) = if r.client_key == k then some r else find_client_key k rs

unfoldable pub change : Text → (ClientRecord → ClientRecord) → Table → Table
change i f [] = []
change i f (r ∷ rs) = if r.id == i then f r ∷ rs else r ∷ change i f rs

unfoldable pub remove : Text → Table → Table
remove i [] = []
remove i (r ∷ rs) = if r.id == i then rs else r ∷ remove i rs

unfoldable pub is_consistent : (default : Option Text) → (allowed : Option (List Text)) → Bool
is_consistent none allowed = true
is_consistent (some a) none = true
is_consistent (some a) (some l) = contains a l

abbrev pub or_else : {A : Type 0} → Option A → A → A
or_else none d = d
or_else (some a) d = a

abbrev pub is_set : {A : Type 0} → Option A → Bool
is_set none = false
is_set (some a) = true

-- The body of a creation.
pub record ClientCreate : Type 0 where
  pub client_key : Option Text
  pub default_agent : Option Text
  pub allowed_agents : Option (List Text)

-- The body of an update: `none` is a field that was not sent.
pub record ClientUpdate : Type 0 where
  pub is_active : Option Bool
  pub default_agent : Option (Option Text)
  pub allowed_agents : Option (Option (List Text))

-- `data["client_key"] or secrets.token_urlsafe(32)`.
abbrev pub key_or : Option Text → Text → Text
key_or none token = token
key_or (some k) token = if truthy k then k else token

unfoldable pub delete_client : Text → Table → Response × Table
delete_client i t = if has_id i t then (ok, remove i t) else (not_found, t)

abbrev pub with_key : Text → ClientRecord → ClientRecord
with_key k r = record r { client_key = k }

-- The attempts, with the tokens that they generate; the last one left is 409.
unfoldable pub rotate :
    (commits : Table → Bool) → Text → (tokens : List Text) → Table → Response × Table
unfolding change
rotate commits i [] t = (conflict, t)
rotate commits i (k ∷ ks) t =
    let again = rotate commits i ks t in
    let changed = change i (with_key k) t in if commits changed then (ok, changed) else again

unfoldable pub rotate_client_key :
    (commits : Table → Bool) → Text → (tokens : List Text) → Table → Response × Table
unfolding rotate
rotate_client_key commits i tokens t =
    if has_id i t then rotate commits i tokens t else (not_found, t)

pub data Lookup : Type 0 where
  client_not_found client_inactive malformed : Lookup
  found : (id : Text) (default : Option Text) (allowed : Option (List Text)) → Lookup

abbrev pub found_or_malformed : ClientRecord → Option (Option (List Text)) → Lookup
found_or_malformed r none = malformed
found_or_malformed r (some l) = found r.id r.default_agent l

pub data Action : Type 0 where
  creates : (fresh token : Text) → ClientCreate → Action
  updates : (i : Text) → ClientUpdate → Action
  deletes : (i : Text) → Action
  rotates : (i : Text) → (tokens : List Text) → Action

module _ (dumps : List Text → Text) (loads : Text → Option (List Text)) where
  abbrev pub to_json : Option (List Text) → Option Text
  to_json none = none
  to_json (some l) = some (dumps l)

  -- `json.loads(rec.allowed_agents) if rec.allowed_agents else None`.
  unfoldable pub stored_agents : Option Text → Option (List Text)
  stored_agents none = none
  stored_agents (some t) = if truthy t then loads t else none

  -- The new row's id is `fresh`, its key `token` if none was sent.
  unfoldable pub create_client :
      (commits : Table → Bool) → (fresh token : Text) → ClientCreate → Table → Response × Table
  create_client commits fresh token body t =
      let added : Table =
        record {
          id = fresh;
          client_key = key_or body.client_key token;
          is_active = true;
          default_agent = body.default_agent;
          allowed_agents = to_json body.allowed_agents;
        }
        ∷ t in
      if not (is_consistent body.default_agent body.allowed_agents)
      then (unprocessable, t)
      else if commits added
      then (ok, added)
      else (conflict, t)

  unfoldable pub patch : ClientUpdate → ClientRecord → ClientRecord
  patch body r = record r {
    is_active = or_else body.is_active r.is_active;
    default_agent = or_else body.default_agent r.default_agent;
    allowed_agents = elim body.allowed_agents [ none ↦ r.allowed_agents | some l ↦ to_json l ];
  }

  abbrev pub allowed_after : ClientUpdate → ClientRecord → Option (List Text)
  allowed_after body r = or_else body.allowed_agents (stored_agents r.allowed_agents)

  -- The agents are checked only if the update is about them.
  unfoldable pub update_found : ClientUpdate → Option ClientRecord → Table → Response × Table
  unfolding patch change
  update_found body none t = (not_found, t)
  update_found body (some r) t =
      if (is_set body.default_agent || is_set body.allowed_agents)
        && not (is_consistent (or_else body.default_agent r.default_agent) (allowed_after body r))
      then (unprocessable, t)
      else (ok, change r.id (patch body) t)

  unfoldable pub update_client : Text → ClientUpdate → Table → Response × Table
  unfolding update_found find_id
  update_client i body t = update_found body (find_id i t) t

  -- `_parse_allowed_agents`; `none` is the `ValueError`.
  unfoldable pub parse_allowed_agents : Option Text → Option (Option (List Text))
  parse_allowed_agents none = some none
  parse_allowed_agents (some raw) =
      if not (truthy raw) || raw == codes "null"
      then some none
      else elim (loads raw) [ none ↦ none | some l ↦ some (some l) ]

  unfoldable pub lookup_found : Option ClientRecord → Lookup
  unfolding parse_allowed_agents
  lookup_found none = client_not_found
  lookup_found (some r) =
      if r.is_active
      then found_or_malformed r (parse_allowed_agents r.allowed_agents)
      else client_inactive

  unfoldable pub get_session : (client_key : Text) → Table → Lookup
  unfolding lookup_found find_client_key
  get_session k t = lookup_found (find_client_key k t)

  unfoldable pub step : (commits : Table → Bool) → Action → Table → Table
  unfolding create_client update_client delete_client rotate_client_key
  step commits (creates fresh token body) t = (create_client commits fresh token body t).1
  step commits (updates i body) t = (update_client i body t).1
  step commits (deletes i) t = (delete_client i t).1
  step commits (rotates i tokens) t = (rotate_client_key commits i tokens t).1

  unfoldable pub run : (commits : Table → Bool) → List Action → Table → Table
  unfolding step
  run commits [] t = t
  run commits (a ∷ rest) t = run commits rest (step commits a t)

-- ===== src/Examples/Clients.antt =====
-- A table of one client, and a session whose bridge cannot be built.
use jota_gateway.Prelude.{
  ℕ, zero, suc, All, ap, truthy, ◌≡◌, refl, Bool, true, false, Option, none, some, List, [], ◌∷◌,
  Text, codes,
}
use jota_gateway.Access.Clients.{
  ClientRecord, Table, ClientCreate, Action, creates, updates, rotates, run, rotate, get_session,
  client_not_found,
}
use jota_gateway.Access.Clients.Consistency.{IsConsistent, run-IsConsistent}
use jota_gateway.Access.Clients.Sessions.{rotate-get_session}
use jota_gateway.Access.AgentPolicy.{ClientConfig}
use jota_gateway.Session.Handshake.{
  World, Parsed, valid, no_bridge, message, healthy, is_sent, gateway_websocket,
}
use jota_gateway.Session.Handshake.Teardown.{Balanced, gateway_websocket-Balanced}

abbrev kitchen : ClientRecord
kitchen = record {
  id = codes "1";
  client_key = codes "old";
  is_active = true;
  default_agent = none;
  allowed_agents = none;
}

abbrev clients : Table
clients = kitchen ∷ []

-- A codec for the one list that is written here.
abbrev dumps : List Text → Text
dumps l = codes "[]"

abbrev loads : Text → Option (List Text)
loads t = some []

abbrev attic : ClientCreate
attic = record { client_key = some (codes "old"); default_agent = none; allowed_agents = none }

-- The client gets an agent, a second one asks for its key, and then it gets a new key.
abbrev requests : List Action
requests =
    updates (codes "1") (record {
      is_active = none;
      default_agent = some (some (codes "a"));
      allowed_agents = some (some (codes "a" ∷ []));
    })
    ∷ creates (codes "2") (codes "t") attic
    ∷ rotates (codes "1") (codes "new" ∷ [])
    ∷ []

-- The database refuses a second key `old`.
abbrev commits : Table → Bool
commits (_ ∷ _ ∷ _) = false
commits _ = true

-- A codec for lists of texts: 0 ends a text, 1 ends the list.
abbrev write_text : Text → Text → Text
write_text [] rest = 0 ∷ rest
write_text (c ∷ t) rest = suc (suc c) ∷ write_text t rest

abbrev write_list : List Text → Text
write_list [] = 1 ∷ []
write_list (t ∷ ts) = write_text t (write_list ts)

abbrev put_code : ℕ → Option (List Text) → Option (List Text)
put_code c (some (t ∷ ts)) = some ((c ∷ t) ∷ ts)
put_code c _ = none

abbrev put_text : Option (List Text) → Option (List Text)
put_text none = none
put_text (some ts) = some ([] ∷ ts)

abbrev read_list : Text → Option (List Text)
read_list [] = none
read_list (zero ∷ rest) = put_text (read_list rest)
read_list (suc zero ∷ rest) = some []
read_list (suc (suc c) ∷ rest) = put_code c (read_list rest)

read_list-write_text :
    (t rest : Text) (ts : List Text)
    → read_list rest ≡ some ts
    → read_list (write_text t rest) ≡ some (t ∷ ts)
read_list-write_text [] rest ts e = ap put_text e
read_list-write_text (c ∷ t) rest ts e = ap (put_code c) (read_list-write_text t rest ts e)

read_list-write_list : (l : List Text) → read_list (write_list l) ≡ some l
read_list-write_list [] = refl
read_list-write_list (t ∷ ts) = read_list-write_text t (write_list ts) ts (read_list-write_list ts)

never_empty : (l : List Text) → truthy (write_list l) ≡ true
never_empty [] = refl
never_empty ([] ∷ ts) = refl
never_empty ((c ∷ t) ∷ ts) = refl

run-IsConsistent_example :
    All (IsConsistent write_list read_list) (run write_list read_list commits requests clients)
unfolding jota_gateway.Access.Clients.is_consistent
run-IsConsistent_example =
    run-IsConsistent write_list read_list read_list-write_list never_empty commits requests clients
      (refl, tt)

rotate-get_session_example :
    get_session dumps loads (codes "old") (rotate commits (codes "1") (codes "new" ∷ []) clients).1
    ≡ client_not_found
unfolding jota_gateway.Access.Clients.has_id jota_gateway.Access.Clients.Sessions.has_client_key
    jota_gateway.Access.Clients.find_id jota_gateway.Prelude.text_beq rotate
rotate-get_session_example =
    rotate-get_session dumps loads commits (codes "1") (codes "new" ∷ []) clients kitchen
      (refl, refl, tt) refl refl refl

abbrev parse : Text → Parsed
parse t = valid (record { client_key = t; agent = none })

abbrev config : ClientConfig
config = record { default_agent = none; allowed_agents = none }

abbrev world : World
world = record {
  first = message (codes "key");
  max_bytes = 100;
  gateway_info = none;
  building = no_bridge;
  connects = true;
  health = healthy;
  ready = is_sent;
  is_connected = true;
}

gateway_websocket-Balanced_example : Balanced (gateway_websocket parse (λ k. some config) world)
gateway_websocket-Balanced_example = gateway_websocket-Balanced parse (λ k. some config) world

-- ===== src/OpenClaw/Connection.antt =====
-- services/openclaw/client.py and models.py: `_do_connect` with the handshake, the roster of agents and
-- the limit of a frame. What the socket delivers is a script, `none` where a wait raises
-- (time-out, closed socket, a frame that is no text); `json.loads` is a parameter. A frame of the
-- handshake is one JSON object; JSON numbers are naturals. Left out: logging, and the cancellation of
-- `connect`, which is a wait that raises.
pub mod Handshake
pub mod Roster
use jota_gateway.Prelude.{
  ℕ, min, max, Bool, true, false, not, ◌&&◌, Option, none, some, List, [], ◌∷◌, ◌++◌, if◌then◌else◌,
  ltb, ◌==◌, ℕ_eq, Text, Text_eq, codes, truthy, Json, null, boolean, number, text, array, object,
  Items, nil, cons, Fields, end, field, get, get_default, is_text,
}
use jota_gateway.OpenClaw.Frames.{connect_backend, agents_list, sessions_subscribe}

pub record GatewayInfo : Type 0 where
  pub default_agent_id : Json
  pub tick_interval_ms : Json
  pub max_payload : Json
  pub agents : List Json

abbrev pub default_max_payload : ℕ
default_max_payload = 26214400

abbrev pub min_frame_limit : ℕ
min_frame_limit = 1048576

abbrev pub max_frame_limit : ℕ
max_frame_limit = 67108864

abbrev pub payload_or_default : Json → ℕ
payload_or_default (number n) = if ltb 0 n then n else default_max_payload
payload_or_default _ = default_max_payload

unfoldable pub frame_limit : (announced : Json) → ℕ
frame_limit announced = max min_frame_limit (min (payload_or_default announced) max_frame_limit)

-- `bool(value)`.
abbrev pub is_truthy : Json → Bool
is_truthy null = false
is_truthy (boolean b) = b
is_truthy (number n) = not (n == 0)
is_truthy (text t) = truthy t
is_truthy (array nil) = false
is_truthy (array _) = true
is_truthy (object end) = false
is_truthy (object _) = true

-- `value.get(...)`, which raises for what is no object.
abbrev pub as_object : Json → Option Fields
as_object (object fs) = some fs
as_object _ = none

abbrev pub and_then : {A B : Type 0} → Option A → (A → Option B) → Option B
and_then none f = none
and_then (some a) f = f a

abbrev pub or_main : Json → Json
or_main j = if is_truthy j then j else text (codes "main")

unfoldable pub info_of : (policy defaults : Option Fields) → Option GatewayInfo
info_of none _ = none
info_of (some policy) none = none
info_of (some policy) (some defaults) = some (record {
  default_agent_id = or_main (get (codes "defaultAgentId") defaults);
  tick_interval_ms = get_default (codes "tickIntervalMs") (number 15000) policy;
  max_payload = get_default (codes "maxPayload") (number 26214400) policy;
  agents = [];
})

-- `GatewayInfo.from_hello_ok`.
unfoldable pub from_hello_ok : Fields → Option GatewayInfo
unfolding info_of
from_hello_ok payload = info_of (as_object (get_default (codes "policy") (object end) payload)) (
    and_then (as_object (get_default (codes "snapshot") (object end) payload))
      (λ snapshot. as_object (get_default (codes "sessionDefaults") (object end) snapshot)))

unfoldable pub has_field : Text → Fields → Bool
has_field k end = false
has_field k (field j v fs) = if j == k then true else has_field k fs

-- `a["id"]`.
abbrev pub id_of : Json → Option Json
id_of (object fs) = if has_field (codes "id") fs then some (get (codes "id") fs) else none
id_of _ = none

-- `[a["id"] for a in items]`.
unfoldable pub ids_of : Items → Option (List Json)
ids_of nil = some []
ids_of (cons a rest) =
    let ids = ids_of rest in and_then (id_of a) (λ i. and_then ids (λ is. some (i ∷ is)))

-- The same over what `agents` holds: of what is no list, only an empty text or object is iterated.
unfoldable pub roster_of : Json → Option (List Json)
unfolding ids_of
roster_of (array items) = ids_of items
roster_of (text []) = some []
roster_of (object end) = some []
roster_of _ = none

unfoldable pub update_agents_from_list : Fields → GatewayInfo → Option GatewayInfo
unfolding roster_of
update_agents_from_list payload g =
    and_then (roster_of (get_default (codes "agents") (array nil) payload)) (λ ids. some (record g {
      agents = ids;
      default_agent_id = get_default (codes "defaultId") g.default_agent_id payload;
    }))

-- The client, as far as `_do_connect` changes it.
pub record Client : Type 0 where
  pub has_socket : Bool
  pub max_size : ℕ
  pub gateway_info : Option GatewayInfo
  pub listening : Bool
  -- What was sent, newest first.
  pub sent : List Fields

pub record Ids : Type 0 where
  pub token : Text
  pub connect_id : Text
  pub agents_id : Text
  pub subscribe_id : Text

-- What the server does: whether the socket opens, the challenge, the hello, the frames until the
-- answer on the agents, and the answer to the subscription.
pub record Script : Type 0 where
  pub opens : Bool
  pub challenge : Option Text
  pub hello : Option Text
  pub frames : List (Option Text)
  pub subscribed : Option Text

abbrev pub previous_agents : Option GatewayInfo → List Json
previous_agents none = []
previous_agents (some g) = g.agents

abbrev pub known_payload : Option GatewayInfo → Json
known_payload none = null
known_payload (some g) = g.max_payload

-- The `finally` of a connection that failed.
unfoldable pub fail : Client → Bool × Client
fail c = (false, record c { has_socket = false })

abbrev pub or_previous : List Json → List Json → List Json
or_previous [] old = old
or_previous (a ∷ previous) old = a ∷ previous

module _ (loads : Text → Option Json) where
  unfoldable pub parse_handshake_frame : Option Text → Option Fields
  parse_handshake_frame raw = and_then raw (λ t. and_then (loads t) as_object)

  -- Frames with another id are skipped.
  unfoldable pub recv_matching : (req_id : Text) → List (Option Text) → Option Fields
  unfolding parse_handshake_frame
  recv_matching req_id [] = none
  recv_matching req_id (raw ∷ rest) =
      let later = recv_matching req_id rest in
      and_then (parse_handshake_frame raw)
        (λ fs. if is_text req_id (get (codes "id") fs) then some fs else later)

  unfoldable pub subscribe : Ids → Option Text → Client → Bool × Client
  unfolding fail
  subscribe ids none c = fail (record c { sent = sessions_subscribe ids.subscribe_id ∷ c.sent })
  subscribe ids (some ack) c =
      (true, record c { sent = sessions_subscribe ids.subscribe_id ∷ c.sent; listening = true })

  -- What the answer on the agents makes of the information, if it does not raise.
  unfoldable pub take_roster : (previous : List Json) → Fields → GatewayInfo → Option GatewayInfo
  unfolding update_agents_from_list
  take_roster previous res g =
      if is_truthy (get (codes "ok") res)
      then and_then (as_object (get_default (codes "payload") (object end) res))
          (λ payload. update_agents_from_list payload g)
      else some (record g { agents = or_previous previous g.agents })

  unfoldable pub with_roster : Ids → Option Text → Option GatewayInfo → Client → Bool × Client
  unfolding fail subscribe
  with_roster ids ack none c = fail c
  with_roster ids ack (some g) c = subscribe ids ack (record c { gateway_info = some g })

  -- From the information of the hello on.
  unfoldable pub greeted :
      Ids → Script → (previous : List Json) → Option GatewayInfo → Client → Bool × Client
  unfolding fail recv_matching take_roster with_roster
  greeted ids s previous none c = fail c
  greeted ids s previous (some g) c =
      with_roster ids s.subscribed
        (and_then (recv_matching ids.agents_id s.frames) (λ res. take_roster previous res g))
        (record c {
          gateway_info = some g;
          max_size = frame_limit g.max_payload;
          sent = agents_list ids.agents_id ∷ c.sent;
        })

  -- `hello.get("payload") or {}`.
  unfoldable pub hello_info : Fields → Option GatewayInfo
  unfolding from_hello_ok
  hello_info hello =
      if is_truthy (get (codes "ok") hello)
      then if is_truthy (get (codes "payload") hello)
        then and_then (as_object (get (codes "payload") hello)) from_hello_ok
        else from_hello_ok end
      else none

  unfoldable pub challenged :
      Ids → Script → (previous : List Json) → Option Fields → Client → Bool × Client
  unfolding fail greeted hello_info parse_handshake_frame
  challenged ids s previous none c = fail c
  challenged ids s previous (some frame) c =
      if is_text (codes "connect.challenge") (get (codes "event") frame)
      then greeted ids s previous (and_then (parse_handshake_frame s.hello) hello_info)
          (record c { sent = connect_backend ids.connect_id ids.token ∷ c.sent })
      else fail c

  -- `connect`: the old socket, listener and keep-alive are closed first. The answer is whether it
  -- returned.
  unfoldable pub do_connect : Ids → Script → Client → Bool × Client
  unfolding challenged parse_handshake_frame
  do_connect ids s c =
      let closed : Client = record c { has_socket = false; listening = false } in
      if s.opens
      then challenged ids s (previous_agents c.gateway_info) (parse_handshake_frame s.challenge)
          (record closed {
            has_socket = true;
            max_size = frame_limit (known_payload c.gateway_info);
          })
      else (false, closed)

-- ===== src/Session/Handshake.antt =====
-- api/routes.py: `gateway_websocket`, from the first message of a client to the end of its session. What
-- the services and the socket answer is an argument; `parse` stands for `json.loads` with the
-- validation by pydantic, `lookup` for the database. What the route does to other parts is a list of
-- effects, oldest first. Left out: the cancellation of the route, and logging.
pub mod Teardown
use jota_gateway.Prelude.{
  ℕ, Bool, true, false, not, Option, none, some, List, [], ◌∷◌, ◌++◌, if◌then◌else◌, ltb, Text,
  codes, length,
}
use jota_gateway.Access.AgentPolicy.{
  ClientConfig, GatewayInfo, Resolution, raises, agent, resolve_agent,
}

-- What `receive_text` brings.
pub data First : Type 0 where
  message : Text → First
  timeout not_text disconnected : First

pub record Handshake : Type 0 where
  pub client_key : Text
  pub agent : Option Text

-- What comes of a message: a handshake, a `JSONDecodeError` or `ValidationError`, or an exception that the
-- route does not catch (`TypeError`, for JSON that is no object).
pub data Parsed : Type 0 where
  valid : Handshake → Parsed
  invalid uncaught : Parsed

pub data Close : Type 0 where
  -- 1008 with a refusal, 1011, and the close at the end.
  policy internal normal : Close

pub data Effect : Type 0 where
  counts_rejection : (reason : Text) → Effect
  closes_socket : Close → Effect
  starts_sender registers_session builds_bridge flushes sends_ready runs : Effect
  notes_reason : (reason : Text) → Effect
  -- `session_registry.close(session_id, "error")`, `bridge.close_all(status="error")`, `sender.aclose`.
  closes_record closes_all closes_sender : Effect
  -- An exception leaves the route.
  escapes : Effect

-- How a send ends.
pub data Sent : Type 0 where
  is_sent client_gone breaks : Sent

-- What `health_check` comes to: the capabilities, `None`, or the client has gone.
pub data Health : Type 0 where
  healthy unhealthy gone : Health

-- How the building of the session ends: `PipelineTracker` or `register` raises, `JotaBridge` raises when the
-- session is registered already, or all is built.
pub data Building : Type 0 where
  no_record no_bridge complete : Building

pub record World : Type 0 where
  pub first : First
  pub max_bytes : ℕ
  pub gateway_info : Option GatewayInfo
  pub building : Building
  pub connects : Bool
  pub health : Health
  pub ready : Sent
  -- Whether the socket is still connected at the end.
  pub is_connected : Bool

abbrev pub reject : Text → List Effect
reject reason = counts_rejection reason ∷ closes_socket policy ∷ []

-- The `finally` of the session.
unfoldable pub finish : World → List Effect
finish w = closes_all ∷ closes_sender ∷ (if w.is_connected then closes_socket normal ∷ [] else [])

abbrev pub reason_of : Sent → Text
reason_of client_gone = codes "client_disconnect"
reason_of _ = codes "error"

-- From `ready` on.
unfoldable pub announce : Sent → List Effect
announce is_sent = sends_ready ∷ runs ∷ []
announce failed = notes_reason (reason_of failed) ∷ []

unfoldable pub check_health : World → Health → List Effect
unfolding announce
check_health w healthy = announce w.ready
check_health w unhealthy = notes_reason (codes "error") ∷ flushes ∷ closes_socket internal ∷ []
check_health w gone = notes_reason (codes "client_disconnect") ∷ []

-- The session once it is built, without its `finally`.
unfoldable pub session : World → List Effect
unfolding check_health
session w = if w.connects then check_health w w.health else closes_socket internal ∷ []

-- The answer to an exception while the session is built.
abbrev pub undo : List Effect
undo = closes_record ∷ closes_sender ∷ closes_socket internal ∷ []

unfoldable pub built : World → Building → List Effect
unfolding session finish
built w no_record = undo
built w no_bridge = registers_session ∷ undo
built w complete = registers_session ∷ builds_bridge ∷ (session w ++ finish w)

-- The client is known and its agent is resolved.
unfoldable pub build : World → List Effect
unfolding built
build w = starts_sender ∷ built w w.building

unfoldable pub with_agent : World → Resolution → List Effect
unfolding build
with_agent w (raises e) = reject (codes "agent")
with_agent w (agent a) = build w

unfoldable pub identified : World → Handshake → Option ClientConfig → List Effect
unfolding with_agent
identified w h none = reject (codes "invalid_key")
identified w h (some c) = with_agent w (resolve_agent h.agent (some c) w.gateway_info)

module _ (parse : Text → Parsed) (lookup : Text → Option ClientConfig) where
  unfoldable pub parsed : World → Parsed → List Effect
  unfolding identified
  parsed w invalid = reject (codes "invalid")
  parsed w uncaught = escapes ∷ []
  parsed w (valid h) = identified w h (lookup h.client_key)

  unfoldable pub received : World → First → List Effect
  unfolding parsed
  received w (message t) =
      if ltb w.max_bytes (length t) then reject (codes "too_large") else parsed w (parse t)
  received w timeout = reject (codes "timeout")
  received w not_text = reject (codes "not_text")
  received w disconnected = []

  unfoldable pub gateway_websocket : World → List Effect
  unfolding received
  gateway_websocket w = received w w.first

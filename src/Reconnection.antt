-- ===== src/Reconnection.antt =====
-- services/reconnection.py: `ConnectionState`, `ServiceStatus`, `to_wire_state`, `ServiceHealth`.
-- Times are milliseconds. `on_state_change` may raise: `set_state` then goes on, so of the hook
-- only the calls are kept, newest first.
pub mod Health
pub mod Backoff
pub mod Gate
pub mod Tts
pub mod OpenClaw
use jota_gateway.Prelude.{
  ℕ, suc, ◌+◌, Bool, true, false, Option, none, some, List, [], ◌∷◌, if◌then◌else◌, Text, codes,
}

pub data ConnectionState : Type 0 where
  connected reconnecting degraded : ConnectionState

abbrev pub same_state : ConnectionState → ConnectionState → Bool
same_state connected connected = true
same_state reconnecting reconnecting = true
same_state degraded degraded = true
same_state _ _ = false

unfoldable pub to_wire_state : ConnectionState → Text
to_wire_state connected = codes "restored"
to_wire_state reconnecting = codes "reconnecting"
to_wire_state degraded = codes "unavailable"

pub record ServiceHealth : Type 0 where
  pub name : Text
  pub state : ConnectionState
  pub connected_at : Option ℕ
  pub reconnect_attempts : ℕ
  pub last_error : Option Text
  pub hooked : Bool
  pub notified : List ConnectionState

unfoldable pub new_health : Text → ConnectionState → ServiceHealth
new_health name initial = record {
  name = name;
  state = initial;
  connected_at = none;
  reconnect_attempts = 0;
  last_error = none;
  hooked = false;
  notified = [];
}

unfoldable pub set_state : ConnectionState → ServiceHealth → ServiceHealth
set_state s h =
    if same_state s h.state
    then h
    else if h.hooked
    then record h { state = s; notified = s ∷ h.notified }
    else record h { state = s }

unfoldable pub mark_connected : ℕ → ServiceHealth → ServiceHealth
unfolding set_state
mark_connected now h =
    set_state connected
      (record h { connected_at = some now; reconnect_attempts = 0; last_error = none })

unfoldable pub mark_attempt_failed : Text → ServiceHealth → ServiceHealth
mark_attempt_failed error h = record h {
  reconnect_attempts = suc h.reconnect_attempts;
  last_error = some error;
}

pub record ServiceStatus : Type 0 where
  pub name : Text
  pub state : ConnectionState
  pub connected_at : Option ℕ
  pub reconnect_attempts : ℕ
  pub last_error : Option Text

unfoldable pub status : ServiceHealth → ServiceStatus
status h = record {
  name = h.name;
  state = h.state;
  connected_at = h.connected_at;
  reconnect_attempts = h.reconnect_attempts;
  last_error = h.last_error;
}

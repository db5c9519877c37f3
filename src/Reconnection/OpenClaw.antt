-- ===== src/Reconnection/OpenClaw.antt =====
-- services/openclaw/reconnecting.py: `ReconnectingOpenClawClient`. Its tasks are the fast loop, which
-- is `reconnect_with_backoff`, and the slow retry; what they wait for ends in steps of its own, so
-- that calls of any kind come in between. A task that was cancelled takes no further step. A job id is
-- a number, where the source draws a random one; 0 is the empty id. Logging is left out.
pub mod Retries
pub mod Shutdown
use jota_gateway.Prelude.{
  ℕ, ◌+◌, Bool, true, false, not, ◌&&◌, ◌||◌, Option, none, some, List, [], ◌∷◌, if◌then◌else◌,
  Text, codes,
}
use jota_gateway.Reconnection.{
  ConnectionState, connected, reconnecting, degraded, same_state, ServiceHealth, new_health,
  set_state, mark_connected, mark_attempt_failed,
}

pub record Client : Type 0 where
  pub health : ServiceHealth
  pub reconnect_running : Bool
  pub reconnect_job_id : ℕ
  pub reconnect_exhausted : Bool
  pub slow_retry_running : Bool
  -- Whether the slow retry waits for its attempt, and not for the next one.
  pub slow_attempting : Bool
  pub closed : Bool

unfoldable pub new_client : Text → Client
unfolding new_health
new_client name = record {
  health = new_health name degraded;
  reconnect_running = false;
  reconnect_job_id = 0;
  reconnect_exhausted = false;
  slow_retry_running = false;
  slow_attempting = false;
  closed = false;
}

unfoldable pub ensure_reconnecting : Client → Client
ensure_reconnecting c =
    if c.reconnect_exhausted || c.closed || c.reconnect_running then c else record c {
      reconnect_job_id = c.reconnect_job_id + 1;
      health = set_state reconnecting c.health;
      reconnect_running = true;
    }

-- `connect`, when its attempt has ended: at a time, or with an error.
unfoldable pub connect_succeeds : ℕ → Client → Client
connect_succeeds now c = record c {
  health = mark_connected now c.health;
  reconnect_exhausted = false;
}

unfoldable pub connect_fails : Text → Client → Client
unfolding ensure_reconnecting
connect_fails error c =
    ensure_reconnecting (record c { health = record c.health { last_error = some error } })

-- What `ping` and `stream_response` do before they use the connection.
unfoldable pub use_connection : Client → Client
unfolding ensure_reconnecting
use_connection c = if same_state c.health.state degraded then ensure_reconnecting c else c

unfoldable pub trigger_reconnect : Client → Client
unfolding ensure_reconnecting
trigger_reconnect c =
    ensure_reconnecting (record c {
      reconnect_exhausted = false;
      slow_retry_running = false;
      slow_attempting = false;
    })

unfoldable pub start_slow_retry : Client → Client
start_slow_retry c =
    if c.closed || c.slow_retry_running
    then c
    else record c { slow_retry_running = true; slow_attempting = false }

-- The fast loop: an attempt fails, the loop has recovered, or it has given up.
unfoldable pub loop_fails : Text → Client → Client
loop_fails error c =
    if c.reconnect_running then record c { health = mark_attempt_failed error c.health } else c

unfoldable pub loop_recovers : ℕ → Client → Client
loop_recovers now c =
    if c.reconnect_running
    then record c { health = mark_connected now c.health; reconnect_running = false }
    else c

unfoldable pub loop_gives_up : Client → Client
unfolding start_slow_retry
loop_gives_up c =
    if c.reconnect_running
    then start_slow_retry (record c {
      health = set_state degraded c.health;
      reconnect_running = false;
      reconnect_exhausted = true;
    })
    else c

-- The slow retry wakes up: its attempt is not made if something else has recovered.
unfoldable pub slow_wakes : Client → Client
slow_wakes c =
    if not c.slow_retry_running || c.slow_attempting
    then c
    else if c.reconnect_exhausted
    then record c { slow_attempting = true }
    else record c { slow_retry_running = false }

-- Its attempt ends. What has happened meanwhile decides only on the next round.
unfoldable pub slow_fails : Text → Client → Client
slow_fails error c = if not c.slow_retry_running || not c.slow_attempting then c else record c {
  health = mark_attempt_failed error c.health;
  slow_attempting = false;
  slow_retry_running = c.reconnect_exhausted;
}

unfoldable pub slow_recovers : ℕ → Client → Client
slow_recovers now c = if not c.slow_retry_running || not c.slow_attempting then c else record c {
  health = mark_connected now c.health;
  reconnect_exhausted = false;
  slow_retry_running = false;
  slow_attempting = false;
}

-- `close` up to its waits, and after the fast loop was cancelled.
unfoldable pub start_close : Client → Client
start_close c = record c { closed = true; slow_retry_running = false; slow_attempting = false }

unfoldable pub end_close : Client → Client
end_close c = record c { reconnect_running = false }

pub data Call : Type 0 where
  connects : ℕ → Call
  connect_error : Text → Call
  disconnects uses triggers : Call
  loop_error : Text → Call
  loop_success : ℕ → Call
  loop_end : Call
  slow_wake : Call
  slow_error : Text → Call
  slow_success : ℕ → Call
  closes : Call

unfoldable pub step : Call → Client → Client
step (connects now) c = connect_succeeds now c
step (connect_error error) c = connect_fails error c
step disconnects c = ensure_reconnecting c
step uses c = use_connection c
step triggers c = trigger_reconnect c
step (loop_error error) c = loop_fails error c
step (loop_success now) c = loop_recovers now c
step loop_end c = loop_gives_up c
step slow_wake c = slow_wakes c
step (slow_error error) c = slow_fails error c
step (slow_success now) c = slow_recovers now c
step closes c = start_close c

unfoldable pub run : List Call → Client → Client
run [] c = c
run (call ∷ calls) c = run calls (step call c)

-- ===== src/Reconnection/Tts.antt =====
-- services/tts_reconnecting.py: `ReconnectingTTSClient`, the gate and the health of the TTS. The
-- connection itself is the world's: an attempt that began ends as a failure or a success at some
-- later step, and attempts overlap. Logging is left out.
use jota_gateway.Prelude.{
  ℕ, ◌≡◌, refl, Bool, true, false, Option, none, some, List, [], ◌∷◌, if◌then◌else◌, Text, codes,
  arith, if_both,
}
use jota_gateway.Reconnection.{
  ConnectionState, connected, reconnecting, ServiceHealth, new_health, set_state, mark_connected,
  mark_attempt_failed,
}
use jota_gateway.Reconnection.Gate.{
  LazyBackoffGate, new_gate, begin, record_failure, record_success,
}

pub record ReconnectingTts : Type 0 where
  pub gate : LazyBackoffGate
  pub health : ServiceHealth

unfoldable pub new_tts : (initial_backoff max_backoff : ℕ) → ReconnectingTts
unfolding new_gate new_health
new_tts initial_backoff max_backoff = record {
  gate = new_gate initial_backoff max_backoff;
  health = new_health (codes "tts") connected;
}

-- `connect` up to its wait: the token, if the window lets the attempt through.
unfoldable pub begin_connect : ℕ → ReconnectingTts → Option ℕ × ReconnectingTts
begin_connect now t = let (token, g) = begin now t.gate in (token, record t { gate = g })

unfoldable pub record_tts_failure : ℕ → ℕ → Text → ReconnectingTts → ReconnectingTts
record_tts_failure now token error t =
    let (applied, g) = record_failure now token t.gate in
    if applied
    then record { gate = g; health = set_state reconnecting (mark_attempt_failed error t.health) }
    else record t { gate = g }

unfoldable pub record_tts_success : ℕ → ReconnectingTts → ReconnectingTts
record_tts_success now t = record {
  gate = record_success t.gate;
  health = mark_connected now t.health;
}

pub data Call : Type 0 where
  begins : ℕ → Call
  fails : (now token : ℕ) (error : Text) → Call
  succeeds : ℕ → Call

unfoldable pub step : Call → ReconnectingTts → ReconnectingTts
step (begins now) t = (begin_connect now t).1
step (fails now token error) t = record_tts_failure now token error t
step (succeeds now) t = record_tts_success now t

unfoldable pub run : List Call → ReconnectingTts → ReconnectingTts
run [] t = t
run (c ∷ calls) t = run calls (step c t)

abbrev is_none : {A : Type 0} → Option A → Bool
is_none none = true
is_none (some a) = false

-- What the gate and the health say of the service.
pub record Agrees (t : ReconnectingTts) : Type 0 where
  pub state_agrees :
      t.health.state ≡ (if is_none t.gate.last_failure_at then connected else reconnecting)
  pub error_agrees : is_none t.health.last_error ≡ is_none t.gate.last_failure_at

set_state-Agrees :
    (s : ConnectionState) (h : ServiceHealth)
    → ((set_state s h).state ≡ s) × ((set_state s h).last_error ≡ h.last_error)
unfolding set_state
set_state-Agrees s h = ground arith

failed_lem :
    (error : Text) (h : ServiceHealth)
    → ((set_state reconnecting (mark_attempt_failed error h)).state ≡ reconnecting)
      × ((set_state reconnecting (mark_attempt_failed error h)).last_error ≡ some error)
unfolding mark_attempt_failed
failed_lem error h = set_state-Agrees reconnecting _

healed_lem :
    (now : ℕ) (h : ServiceHealth)
    → ((mark_connected now h).state ≡ connected) × ((mark_connected now h).last_error ≡ none)
unfolding mark_connected
healed_lem now h =
    set_state-Agrees connected
      (record h { connected_at = some now; reconnect_attempts = 0; last_error = none })

begin_same : (now : ℕ) (g : LazyBackoffGate) → (begin now g).1.last_failure_at ≡ g.last_failure_at
unfolding begin
begin_same now g = ground arith

begin_connect-Agrees : (now : ℕ) (t : ReconnectingTts) → Agrees t → Agrees (begin_connect now t).1
unfolding begin_connect
begin_connect-Agrees now t v = record {
  state_agrees = rw (begin_same now t.gate) v.state_agrees;
  error_agrees = rw (begin_same now t.gate) v.error_agrees;
}

applied_lem :
    (now token : ℕ) (g : LazyBackoffGate)
    → (record_failure now token g).1.last_failure_at
      ≡ (if (record_failure now token g).0 then some now else g.last_failure_at)
unfolding record_failure
applied_lem now token g = ground arith

record_tts_failure-Agrees :
    (now token : ℕ) (error : Text) (t : ReconnectingTts)
    → Agrees t
    → Agrees (record_tts_failure now token error t)
unfolding record_tts_failure
record_tts_failure-Agrees now token error t v =
    let a = applied_lem now token t.gate in
    if_both Agrees (record_failure now token t.gate).0
      (λ e. record {
        state_agrees = rw (a, e) (failed_lem error t.health).0;
        error_agrees = rw (a, e, (failed_lem error t.health).1) refl;
      })
      (λ e. record {
        state_agrees = rw (a, e) v.state_agrees;
        error_agrees = rw (a, e) v.error_agrees;
      })

record_tts_success-Agrees : (now : ℕ) (t : ReconnectingTts) → Agrees (record_tts_success now t)
unfolding record_tts_success record_success
record_tts_success-Agrees now t = record {
  state_agrees = (healed_lem now t.health).0;
  error_agrees = rw ((healed_lem now t.health).1) refl;
}

step-Agrees : (c : Call) (t : ReconnectingTts) → Agrees t → Agrees (step c t)
unfolding step
step-Agrees (begins now) t v = begin_connect-Agrees now t v
step-Agrees (fails now token error) t v = record_tts_failure-Agrees now token error t v
step-Agrees (succeeds now) t v = record_tts_success-Agrees now t

run_from-Agrees : (calls : List Call) (t : ReconnectingTts) → Agrees t → Agrees (run calls t)
unfolding run
run_from-Agrees [] t v = v
run_from-Agrees (c ∷ calls) t v = run_from-Agrees calls (step c t) (step-Agrees c t v)

-- However connection attempts begin, fail late or succeed, what the gateway reports of the TTS
-- agrees with its gate: it is connected, with no error, exactly while no failure counts.
pub run-Agrees :
    (initial_backoff max_backoff : ℕ) (calls : List Call)
    → Agrees (run calls (new_tts initial_backoff max_backoff))
unfolding new_tts new_gate new_health
run-Agrees initial_backoff max_backoff calls =
    run_from-Agrees calls (new_tts initial_backoff max_backoff)
      record { state_agrees = refl; error_agrees = refl }

-- ===== src/Examples/Services.antt =====
-- Concrete sessions and services.
use jota_gateway.Prelude.{
  ℕ, zero, suc, ◌+◌, ◌≤◌, ◌≡◌, refl, true, false, none, some, List, [], ◌∷◌, ◌++◌, arith, Text_eq,
  codes,
}
use jota_gateway.Session.Outbound.{
  Action, Message, json, bytes, sends, flushes, writes, starts_close, ends_close, written,
  timed_out, new_sender, run as run_sender,
}
use jota_gateway.Session.Outbound.Order.{run-sent_prefix}
use jota_gateway.Session.Registry.{SessionRecord, SessionRegistry, completed, new_registry, started}
use jota_gateway.Session.Registry.Bounds.{Call, registers, closes}
use jota_gateway.Reconnection.{reconnecting, degraded, connected, ServiceHealth}
use jota_gateway.Reconnection.Health.{
  Change, sets, connects, change_all, newest, Alternates, change_all-notified,
}
use jota_gateway.Reconnection.Gate.{
  LazyBackoffGate, new_gate, record_failure, record_success, run as run_gate, begins,
  succeeds as heals, IsValid, record_failure_stale,
}
use jota_gateway.Reconnection.Backoff.{
  Settings, Attempt, Result, fails, pause, reconnect_with_backoff, Settled,
  reconnect_with_backoff-Settled,
}
use jota_gateway.Reconnection.Tts.{
  Call as TtsCall, begins as begins_connect, fails as fails_connect, succeeds as connects_tts,
}
use jota_gateway.Reconnection.OpenClaw.{
  Call as ClientCall, disconnects, triggers, loop_error, loop_end, slow_wake, slow_error,
  slow_success, new_client, start_close, end_close, connect_succeeds, connect_fails,
  run as run_client,
}
use jota_gateway.Reconnection.OpenClaw.Retries.{Retried, run-Retried}
use jota_gateway.Reconnection.OpenClaw.Shutdown.{Shut, end_close-Shut}
use jota_gateway.Session.Tracker.{
  Call as TrackerCall, starts_turn, records, closes as closes_tracker, PipelineTracker, new_tracker,
  close, turn_e2e_latency, find_last, both, run as run_tracker,
}
use jota_gateway.Session.Tracker.Closing.{ends, ends_by_others, close-once}
use jota_gateway.Session.Tracker.Latency.{time_of, turn_e2e_latency-find_last}

abbrev slow_client : List Action
slow_client =
    sends (json 1)
    ∷ sends (bytes 2 640)
    ∷ writes written
    ∷ writes written
    ∷ flushes 1
    ∷ sends (json 3)
    ∷ writes written
    ∷ writes timed_out
    ∷ starts_close
    ∷ ends_close
    ∷ []

run-sent_prefix_example :
    (lost : List Message) × ((run_sender slow_client new_sender).accepted
      ≡ (run_sender slow_client new_sender).sent ++ lost)
run-sent_prefix_example = run-sent_prefix slow_client

abbrev kitchen_record : SessionRecord
kitchen_record = started 1 (codes "k") (codes "audio") []

abbrev small : SessionRegistry
small = record (new_registry 1) { sessions = (codes "s1", kitchen_record) ∷ [] }

abbrev evening : List Call
evening =
    registers 1 (codes "s1") (codes "k") (codes "audio") []
    ∷ registers 2 (codes "s2") (codes "h") (codes "text") []
    ∷ closes 3 (codes "s1") completed
    ∷ registers 4 (codes "s3") (codes "k") (codes "audio") []
    ∷ []

abbrev hooked : ServiceHealth
hooked = record {
  name = codes "tts";
  state = degraded;
  connected_at = none;
  reconnect_attempts = 0;
  last_error = none;
  hooked = true;
  notified = [];
}

abbrev flapping : List Change
flapping = sets reconnecting ∷ Change.fails (codes "refused") ∷ connects 9 ∷ sets connected ∷ []

change_all-notified_example :
    Alternates hooked.state (change_all flapping hooked).notified
    × (newest hooked.state (change_all flapping hooked).notified
        ≡ (change_all flapping hooked).state)
change_all-notified_example = change_all-notified flapping hooked refl refl

abbrev two_in_flight : LazyBackoffGate
two_in_flight = run_gate (begins 1 ∷ begins 1 ∷ []) (new_gate 5 60)

two_in_flight-IsValid : IsValid two_in_flight
unfolding run_gate new_gate
two_in_flight-IsValid = record { settled = omega arith; least = omega arith; most = omega arith }

record_failure_stale_example :
    let failed = run_gate (heals ∷ []) (record_failure 3 1 two_in_flight).1 in
    let healed = run_gate (heals ∷ []) (record_success two_in_flight) in
    (record_failure 8 2 failed ≡ (false, failed)) × (record_failure 8 2 healed ≡ (false, healed))
unfolding run_gate new_gate
record_failure_stale_example =
    record_failure_stale 3 8 2 1 (heals ∷ []) two_in_flight two_in_flight-IsValid (omega arith)
      (omega arith)

-- A service that is down for ever: each attempt fails, a second after the one before.
abbrev quick : Settings
quick = record { initial_backoff = 1; max_backoff = 1; max_duration = 3 }

abbrev down_for_ever : ℕ → Attempt
down_for_ever n = record { result = fails (codes "refused"); ended = n }

pause_one : (n : ℕ) → pause quick n ≤ 1
unfolding pause
pause_one zero = omega arith
pause_one (suc n) = omega (arith, pause_one n)

reconnect_with_backoff-Settled_example :
    (r : Result) × (reconnect_with_backoff quick down_for_ever 0 5 hooked ≡ some r)
    × Settled quick down_for_ever 0 hooked r
reconnect_with_backoff-Settled_example =
    reconnect_with_backoff-Settled quick down_for_ever 0 (λ n. omega (arith, pause_one n)) 5 hooked
      (omega arith) (omega arith) (omega arith)

abbrev late_failure : List TtsCall
late_failure =
    begins_connect 1 ∷ begins_connect 1 ∷ connects_tts 2 ∷ fails_connect 3 1 (codes "refused") ∷ []

abbrev spoken : List TrackerCall
spoken =
    records 5 (codes "transcription_final")
    ∷ starts_turn
    ∷ records 40 (codes "tts_done")
    ∷ closes_tracker 50 true
    ∷ []

close-once_example :
    let t = close 60 false (run_tracker spoken (new_tracker 0)) in
    (t.closes ≡ 1) × (ends t.events ≡ ends_by_others spoken + 1)
close-once_example = close-once 0 60 spoken

abbrev after_turn : PipelineTracker
after_turn = run_tracker spoken (new_tracker 0)

turn_e2e_latency-find_last_example :
    turn_e2e_latency (0 + 1) after_turn
    ≡ both
        (time_of (find_last (codes "transcription_final") (some 0) after_turn.events))
        (time_of (find_last (codes "tts_done") (some (0 + 1)) after_turn.events))
turn_e2e_latency-find_last_example = turn_e2e_latency-find_last 0 after_turn

abbrev long_outage : List ClientCall
long_outage =
    disconnects
    ∷ loop_error (codes "refused")
    ∷ loop_end
    ∷ slow_wake
    ∷ slow_error (codes "refused")
    ∷ triggers
    ∷ loop_end
    ∷ slow_wake
    ∷ slow_success 90
    ∷ []

run-Retried_example :
    Retried (run_client long_outage (connect_succeeds 1 (new_client (codes "o"))))
    × Retried (run_client long_outage (connect_fails (codes "refused") (new_client (codes "o"))))
run-Retried_example = run-Retried (codes "o") (codes "refused") 1 long_outage

end_close-Shut_example : Shut (
    run_client (triggers ∷ []) (
      end_close (
        run_client (loop_end ∷ triggers ∷ []) (
          start_close
            (run_client (disconnects ∷ []) (connect_succeeds 1 (new_client (codes "o"))))))))
end_close-Shut_example =
    end_close-Shut (run_client (disconnects ∷ []) (connect_succeeds 1 (new_client (codes "o"))))
      (loop_end ∷ triggers ∷ []) (triggers ∷ [])

-- ===== src/Examples/Watchdogs.antt =====
-- A quiet client.
use jota_gateway.Prelude.{ℕ, suc, none, refl, inl, true, false, some, arith}
use jota_gateway.Reconnection.{connected}
use jota_gateway.Bridge.Watchdogs.{
  Settings, Activity, idle_watchdog, closes_idle, idle_round, Observation, Limits, Watch, closes,
  strikes, watch_rounds,
}
use jota_gateway.Bridge.Watchdogs.Idle.{OverAt, Closes, idle_watchdog-Closes}

abbrev limits : Limits
limits = record { audio_gap = 20; silence_timeout = 100; warmup = 0; max_silence_turns = 2 }

abbrev talks_in_vain : ℕ → Observation
talks_in_vain now = record {
  now = now;
  transcriber = some connected;
  busy = false;
  transcript_at = some 1;
  in_flight = false;
  last_audio = now;
  burst_start = some 2;
}

-- The transcriber is busy at first.
abbrev is_busy : Observation
is_busy = record (talks_in_vain 50) { busy = true }

abbrev settings : Settings
settings = record { turn_timeout = 60; push_tts_drain_timeout = 30; idle_timeout = 300 }

-- An agent start with no end, of which no event waits any more.
abbrev orphaned : Activity
orphaned = record {
  now = 401;
  turn_active = false;
  push_audio = true;
  push_audio_progress_at = 390;
  push_turn_open = true;
  push_turn_opened_at = some 400;
  push_pending = 0;
  push_pending_since = none;
  last_client_activity = 100;
}

orphaned-OverAt : OverAt settings orphaned 460
orphaned-OverAt = record {
  no_turn = refl;
  idle = omega arith;
  audio = λ e. omega arith;
  open_push = λ e. (400, refl, omega arith);
  backlog = inl refl;
}

idle_watchdog-Closes_example :
    Closes settings orphaned 460 (idle_watchdog settings (suc 60) orphaned)
idle_watchdog-Closes_example =
    idle_watchdog-Closes settings orphaned 460 60 (omega arith) orphaned-OverAt (omega arith)

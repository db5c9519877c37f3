-- ===== src/Bridge/Watchdogs/Deafness.antt =====
-- The silence watchdog leaves the transcriber its whole time-out after a time in which it could not hear.
use jota_gateway.Prelude.{
  ℕ, ◌≤◌, ◌≡◌, ◌⊎◌, Bool, true, false, ◌||◌, Option, some, List, [], ◌∷◌, ℕ_eq,
}
use jota_gateway.Reconnection.{ConnectionState, connected, reconnecting}
use jota_gateway.Bridge.Watchdogs.{Watch, Observation, Limits, watch_round}

-- The watch after these rounds.
unfoldable pub watch_after : Limits → List Observation → Watch → Watch
watch_after l [] w = w
watch_after l (o ∷ os) w = watch_after l os (watch_round l o w).1

-- In this round the transcriber cannot hear the client, or does not have to.
abbrev deaf_in : Option ConnectionState → (busy in_flight : Bool) → Bool
deaf_in (some reconnecting) busy in_flight = true
deaf_in (some connected) busy in_flight = busy || in_flight
deaf_in _ busy in_flight = false

unfoldable pub is_deaf : Observation → Bool
is_deaf o = deaf_in o.transcriber o.busy o.in_flight

-- A round with the last transcription of `d`, and no earlier than `d`.
abbrev pub Later : Observation → Observation → Type 0
Later d o = (o.transcript_at ≡ d.transcript_at) × (d.now ≤ o.now)

-- The watch still knows of a deaf round at `at`: it has the transcription `last` and waits for the
-- transcriber to be back, or it has a baseline since then.
record Waits (last : Option ℕ) (at : ℕ) (w : Watch) : Type 0 where
  seen : w.last_seen ≡ last
  since : (w.was_connected ≡ false) ⊎ (b : ℕ) × (w.recovery_baseline ≡ some b) × (at ≤ b)

-- `refresh` with no new transcription.
Fresh : Option ℕ → ℕ → Watch → Type 0
Fresh last at w = (w.last_seen ≡ last) × ((b : ℕ) × (w.recovery_baseline ≡ some b) × (at ≤ b))

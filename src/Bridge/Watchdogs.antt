-- ===== src/Bridge/Watchdogs.antt =====
-- services/bridge.py: a round of `_transcription_watchdog` and of `_idle_watchdog`, with
-- `_turn_in_flight`. What a round reads is an observation; times are milliseconds of the monotonic
-- clock, so no time in an observation is later than its `now`. Logging is left out.
pub mod Silence
pub mod Deafness
pub mod Idle
use jota_gateway.Prelude.{
  ℕ, ◌+◌, ◌-◌, Bool, true, false, not, ◌&&◌, ◌||◌, Option, none, some, List, [], ◌∷◌, if◌then◌else◌,
  ltb, leb, ◌==◌, ℕ_eq, max, suc, zero,
}
use jota_gateway.Reconnection.{ConnectionState, connected, reconnecting, degraded, same_state}

pub record Settings : Type 0 where
  pub turn_timeout : ℕ
  pub push_tts_drain_timeout : ℕ
  pub idle_timeout : ℕ

-- What of the bridge both watchdogs read.
pub record Activity : Type 0 where
  pub now : ℕ
  pub turn_active : Bool
  -- Whether an audio task of a push is running, and when it last progressed.
  pub push_audio : Bool
  pub push_audio_progress_at : ℕ
  pub push_turn_open : Bool
  pub push_turn_opened_at : Option ℕ
  pub push_pending : ℕ
  pub push_pending_since : Option ℕ
  pub last_client_activity : ℕ

abbrev pub within : ℕ → Option ℕ → ℕ → Bool
within now none limit = true
within now (some since) limit = ltb (now - since) limit

unfoldable pub turn_in_flight : Settings → Activity → Bool
turn_in_flight s a =
    a.turn_active
    || (a.push_audio && ltb (a.now - a.push_audio_progress_at) s.push_tts_drain_timeout)
    || (a.push_turn_open && within a.now a.push_turn_opened_at s.turn_timeout)

unfoldable pub push_backlog_in_flight : Settings → Activity → Bool
push_backlog_in_flight s a =
    ltb 0 a.push_pending && within a.now a.push_pending_since s.turn_timeout

pub data IdleVerdict : Type 0 where
  sleeps : ℕ → IdleVerdict
  closes_idle : IdleVerdict

-- A round of `_idle_watchdog`; the short sleep is two seconds.
unfoldable pub idle_round : Settings → Activity → IdleVerdict
unfolding turn_in_flight push_backlog_in_flight
idle_round s a =
    if leb s.idle_timeout (a.now - a.last_client_activity)
    then if turn_in_flight s a || push_backlog_in_flight s a then sleeps 2000 else closes_idle
    else sleeps (s.idle_timeout - (a.now - a.last_client_activity))

-- `_idle_watchdog` while nothing else happens: when it closes the session, with fuel for the rounds.
unfoldable pub idle_watchdog : Settings → (fuel : ℕ) → Activity → Option ℕ
idle_watchdog s zero a = none
idle_watchdog s (suc fuel) a = elim (idle_round s a) [
  | closes_idle ↦ some a.now
  | sleeps d ↦ idle_watchdog s fuel (record a { now = a.now + d })
]

-- The local variables of `_transcription_watchdog`.
pub record Watch : Type 0 where
  pub silence_count : ℕ
  pub last_seen : Option ℕ
  pub was_connected : Bool
  pub recovery_baseline : Option ℕ

unfoldable pub new_watch : Option ℕ → Watch
new_watch transcript_at = record {
  silence_count = 0;
  last_seen = transcript_at;
  was_connected = true;
  recovery_baseline = none;
}

pub record Observation : Type 0 where
  pub now : ℕ
  -- The transcriber's state, if there is a transcriber.
  pub transcriber : Option ConnectionState
  pub busy : Bool
  pub transcript_at : Option ℕ
  pub in_flight : Bool
  pub last_audio : ℕ
  pub burst_start : Option ℕ

pub record Limits : Type 0 where
  pub audio_gap : ℕ
  pub silence_timeout : ℕ
  pub warmup : ℕ
  pub max_silence_turns : ℕ

pub data Verdict : Type 0 where
  goes_on strikes closes stops raises : Verdict

abbrev pub same_time : Option ℕ → Option ℕ → Bool
same_time none none = true
same_time (some a) (some b) = a == b
same_time _ _ = false

-- The largest of the times that are there; `none` is the `ValueError` of `max` on nothing.
abbrev pub later_of : Option ℕ → Option ℕ → Option ℕ
later_of none b = b
later_of (some a) none = some a
later_of (some a) (some b) = some (max a b)

unfoldable pub refresh : Observation → Watch → Watch
refresh o w =
    if not (same_time o.transcript_at w.last_seen)
    then record {
      silence_count = 0;
      last_seen = o.transcript_at;
      was_connected = true;
      recovery_baseline = none;
    }
    else if not w.was_connected
    then record w { silence_count = 0; recovery_baseline = some o.now; was_connected = true }
    else w

unfoldable pub strike : Limits → Watch → Verdict × Watch
strike l w =
    let n = suc w.silence_count in
    (if leb l.max_silence_turns n then closes else strikes, record w { silence_count = n })

-- The end of a round, with the reference point.
unfoldable pub judge : Limits → Observation → Option ℕ → Watch → Verdict × Watch
unfolding strike
judge l o none w = (raises, w)
judge l o (some last) w =
    let limit =
      if same_time (some last) o.burst_start
      then l.silence_timeout + l.warmup
      else l.silence_timeout in
    if leb o.last_audio last
    then (goes_on, record w { silence_count = 0 })
    else if ltb limit (o.now - last)
    then strike l w
    else (goes_on, w)

unfoldable pub silent_round : Limits → Observation → Watch → Verdict × Watch
unfolding judge
silent_round l o w =
    if o.in_flight
    then (goes_on, record w { silence_count = 0; recovery_baseline = some o.now })
    else if ltb l.audio_gap (o.now - o.last_audio)
    then (goes_on, record w { silence_count = 0 })
    else judge l o (later_of w.recovery_baseline (later_of o.transcript_at o.burst_start)) w

unfoldable pub round_in : Limits → Observation → Option ConnectionState → Watch → Verdict × Watch
unfolding refresh silent_round
round_in l o none w = (stops, w)
round_in l o (some degraded) w = (stops, w)
round_in l o (some reconnecting) w = (goes_on, record w { was_connected = false })
round_in l o (some connected) w =
    if o.busy then (goes_on, record w { was_connected = false }) else silent_round l o (refresh o w)

-- A round of `_transcription_watchdog`.
unfoldable pub watch_round : Limits → Observation → Watch → Verdict × Watch
watch_round l o w = round_in l o o.transcriber w

-- The rounds until the watchdog ends: how often the client was told of it, and how it ended.
unfoldable pub next_round : Verdict → (told : ℕ) → (on on_told : ℕ × Verdict) → ℕ × Verdict
next_round goes_on told on on_told = on
next_round strikes told on on_told = on_told
next_round closes told on on_told = (suc told, closes)
next_round stops told on on_told = (told, stops)
next_round raises told on on_told = (told, raises)

unfoldable pub watch_rounds : Limits → List Observation → ℕ → Watch → ℕ × Verdict
unfolding next_round
watch_rounds l [] told w = (told, goes_on)
watch_rounds l (o ∷ rest) told w =
    let (v, next) = watch_round l o w in
    next_round v told (watch_rounds l rest told next) (watch_rounds l rest (suc told) next)

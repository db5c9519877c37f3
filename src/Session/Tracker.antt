-- ===== src/Session/Tracker.antt =====
-- services/pipeline_tracker.py: `PipelineTracker`. Times are milliseconds of the monotonic clock, and
-- rounding is left out, as are the metadata of an event and its frame to the client, whose failure
-- is logged only. A `close` may be cancelled while it sends that frame, after the event is recorded.
pub mod Closing
pub mod Latency
use jota_gateway.Prelude.{
  ℕ, ◌+◌, ◌-◌, Bool, true, false, not, ◌&&◌, Option, none, some, List, [], ◌∷◌, ◌++◌, if◌then◌else◌,
  ◌==◌, ℕ_eq, Text, Text_eq, codes, Dict, lookup, insert, text_beq, reverse,
}

pub record PipelineEvent : Type 0 where
  pub stage : Text
  pub ts_ms : ℕ
  pub elapsed_ms : ℕ
  pub turn : ℕ

pub record PipelineTracker : Type 0 where
  pub events : List PipelineEvent
  pub started_at : ℕ
  pub last_event_at : ℕ
  pub session_end_recorded : Bool
  pub registry_closed : Bool
  pub turn : ℕ
  -- How often `registry.close` was called.
  pub closes : ℕ

unfoldable pub new_tracker : ℕ → PipelineTracker
new_tracker now = record {
  events = [];
  started_at = now;
  last_event_at = now;
  session_end_recorded = false;
  registry_closed = false;
  turn = 0;
  closes = 0;
}

unfoldable pub start_turn : PipelineTracker → PipelineTracker
start_turn t = record t { turn = t.turn + 1 }

unfoldable pub record_event : ℕ → Text → PipelineTracker → PipelineTracker
record_event now stage t = record t {
  last_event_at = now;
  events =
      t.events
      ++ (record {
        stage = stage;
        ts_ms = now - t.started_at;
        elapsed_ms = now - t.last_event_at;
        turn = t.turn;
      })
        ∷ [];
}

unfoldable pub close_registry : PipelineTracker → PipelineTracker
close_registry t =
    if t.registry_closed then t else record t { registry_closed = true; closes = t.closes + 1 }

-- `close`; `cancelled` is whether it is cancelled inside of `record`, if it gets there.
unfoldable pub close : ℕ → (cancelled : Bool) → PipelineTracker → PipelineTracker
unfolding record_event close_registry
close now cancelled t =
    if t.session_end_recorded
    then close_registry t
    else let ended =
        record_event now (codes "session_end") (record t { session_end_recorded = true }) in
      if cancelled then ended else close_registry ended

abbrev turn_fits : Option ℕ → ℕ → Bool
turn_fits none n = true
turn_fits (some m) n = n == m

find_first : Text → Option ℕ → List PipelineEvent → Option PipelineEvent
find_first stage turn [] = none
find_first stage turn (e ∷ rest) =
    if text_beq e.stage stage && turn_fits turn e.turn then some e else find_first stage turn rest

unfoldable pub find_last : Text → Option ℕ → List PipelineEvent → Option PipelineEvent
unfolding find_first
find_last stage turn events = find_first stage turn (reverse events)

-- The time from the start to the first token or chunk of one turn: its two ends, if there are both.
unfoldable pub span : (first_stage start_stage : Text) → PipelineTracker → Option (ℕ × ℕ)
unfolding find_last
span first_stage start_stage t = elim (find_last first_stage none t.events) [
  | none ↦ none
  | some e ↦ elim (find_last start_stage (some e.turn) t.events) [
    | none ↦ none
    | some s ↦ some (s.ts_ms, e.ts_ms)
  ]
]

unfoldable pub llm_first_token_ms : PipelineTracker → Option (ℕ × ℕ)
unfolding span
llm_first_token_ms t = span (codes "llm_first_token") (codes "llm_start") t

unfoldable pub tts_first_chunk_ms : PipelineTracker → Option (ℕ × ℕ)
unfolding span
tts_first_chunk_ms t = span (codes "tts_first_chunk") (codes "tts_start") t

-- The loop of `turn_e2e_latencies`: the last final of each turn's utterance, which was recorded in
-- the turn before, and the last `tts_done` of each turn.
unfoldable pub finals_dones : List PipelineEvent → Dict ℕ ℕ → Dict ℕ ℕ → Dict ℕ ℕ × Dict ℕ ℕ
finals_dones [] finals dones = (finals, dones)
finals_dones (e ∷ rest) finals dones =
    if text_beq e.stage (codes "transcription_final")
    then finals_dones rest (insert (e.turn + 1) e.ts_ms finals) dones
    else if text_beq e.stage (codes "tts_done")
    then finals_dones rest finals (insert e.turn e.ts_ms dones)
    else finals_dones rest finals dones

abbrev pub both : Option ℕ → Option ℕ → Option (ℕ × ℕ)
both (some f) (some d) = some (f, d)
both _ _ = none

-- `turn_e2e_latencies`, asked for one turn: the times of the final and of the end of the audio.
unfoldable pub turn_e2e_latency : ℕ → PipelineTracker → Option (ℕ × ℕ)
unfolding finals_dones
turn_e2e_latency n t =
    let (finals, dones) = finals_dones t.events [] [] in both (lookup n finals) (lookup n dones)

unfoldable pub turn_e2e_ms : PipelineTracker → Option (ℕ × ℕ)
unfolding find_last turn_e2e_latency
turn_e2e_ms t = elim (find_last (codes "tts_done") none t.events) [
  | none ↦ none
  | some done ↦ turn_e2e_latency done.turn t
]

pub data Call : Type 0 where
  starts_turn : Call
  records : ℕ → Text → Call
  closes : ℕ → (cancelled : Bool) → Call

unfoldable pub step : Call → PipelineTracker → PipelineTracker
step starts_turn t = start_turn t
step (records now stage) t = record_event now stage t
step (Call.closes now cancelled) t = close now cancelled t

unfoldable pub run : List Call → PipelineTracker → PipelineTracker
run [] t = t
run (c ∷ calls) t = run calls (step c t)

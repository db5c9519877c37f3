-- ===== src/Bridge/Input.antt =====
-- services/bridge.py: what the bridge makes of a message of the client (`_client_input_loop`) and of the
-- events of the transcriber (`_on_transcription`, `_on_transcriber_status`), and `health_check`. What a
-- handler asks for is a list of requests, oldest first; `json.loads` is a parameter, `none` for what it
-- refuses. Left out: sends that fail, logging, and exceptions of the loop but a disconnect.
pub mod Messages
pub mod Transcriber
use jota_gateway.Prelude.{
  ℕ, suc, ◌+◌, ◌-◌, max, Bool, true, false, not, ◌&&◌, Option, none, some, List, [], ◌∷◌, ◌++◌,
  if◌then◌else◌, ltb, leb, ◌==◌, ℕ_eq, Text, Text_eq, codes, strip, truthy, length, Json, null,
  boolean, number, text, array, object, get, get_default, is_text, Fields,
}
use jota_gateway.Reconnection.{ConnectionState, connected, same_state}

-- What the client's socket delivers; a message of another kind is ignored.
pub data Message : Type 0 where
  disconnect : (code : Option ℕ) → Message
  bytes : List ℕ → Message
  frame : Text → Message
  other : Message

-- What the handlers ask of the other parts of the bridge.
pub data Request : Type 0 where
  send_audio : List ℕ → Request
  send_end : Request
  start_turn : Text → Request
  cancel_active_turn : Request
  cut_push : (push_id : ℕ) → Request
  invalid_message : Request
  note_close_reason : Text → Request

pub record Config : Type 0 where
  -- `handshake.input_mode == "text"`.
  pub text_mode : Bool
  pub has_transcriber : Bool
  pub silence_timeout : ℕ
  pub watchdog_poll : ℕ

pub record Input : Type 0 where
  pub last_client_activity : ℕ
  pub last_audio_at : Option ℕ
  pub audio_burst_start : Option ℕ
  pub client_gone : Bool
  pub requests : List Request

unfoldable pub audio_gap : Config → ℕ
audio_gap c = max c.silence_timeout c.watchdog_poll

unfoldable pub opens_burst : Config → (now : ℕ) → Option ℕ → Bool
unfolding audio_gap
opens_burst c now none = true
opens_burst c now (some last) = ltb (audio_gap c) (now - last)

unfoldable pub audio : Config → (now : ℕ) → List ℕ → Input → Input
unfolding opens_burst
audio c now chunk s =
    if c.has_transcriber
    then record s {
      audio_burst_start =
          if opens_burst c now s.last_audio_at then some now else s.audio_burst_start;
      last_audio_at = some now;
      requests = s.requests ++ send_audio chunk ∷ [];
    }
    else s

-- `send`: its text, stripped, starts a turn if it is not empty.
unfoldable pub send_message : Json → List Request
send_message (text raw) = if truthy (strip raw) then start_turn (strip raw) ∷ [] else []
send_message _ = invalid_message ∷ []

abbrev pub cut_open : (push_open : Option ℕ) → List Request
cut_open none = []
cut_open (some id) = cut_push id ∷ []

unfoldable pub json_message : Config → (push_open : Option ℕ) → Json → List Request
unfolding send_message
json_message c push_open (object fs) =
    if is_text (codes "end") (get (codes "type") fs)
    then if c.has_transcriber then send_end ∷ [] else []
    else if is_text (codes "cancel") (get (codes "type") fs)
    then cancel_active_turn ∷ cut_open push_open
    else if is_text (codes "send") (get (codes "type") fs)
    then send_message (get_default (codes "text") (text []) fs)
    else []
json_message c push_open _ = invalid_message ∷ []

-- A text with what `json.loads` makes of it.
unfoldable pub text_message : Option Json → Config → (push_open : Option ℕ) → Text → List Request
unfolding json_message
text_message none c push_open t = if c.text_mode then start_turn t ∷ [] else []
text_message (some j) c push_open t = json_message c push_open j

unfoldable pub note_disconnect_code : Option ℕ → List Request
note_disconnect_code none = []
note_disconnect_code (some code) =
    if code == 1012 then note_close_reason (codes "shutdown") ∷ [] else []

unfoldable pub ask : List Request → Input → Input
ask rs s = record s { requests = s.requests ++ rs }

-- One round of `_client_input_loop` at time `now`; `push_open` is the push turn open then.
unfoldable pub input_round :
    (loads : Text → Option Json)
    → Config
    → (push_open : Option ℕ) → (now : ℕ) → Message
    → Input
    → Input
unfolding audio text_message note_disconnect_code ask
input_round loads c push_open now m s =
    let active : Input = record s { last_client_activity = now } in
    elim m [
      | disconnect code ↦ ask (note_disconnect_code code) (record active { client_gone = true })
      | bytes chunk ↦ audio c now chunk active
      | frame t ↦ ask (text_message (loads t) c push_open t) active
      | other ↦ active
    ]

-- The loop ends with the first disconnect.
unfoldable pub client_input_loop :
    (loads : Text → Option Json) → Config → List (Option ℕ × (ℕ × Message)) → Input → Input
unfolding input_round
client_input_loop loads c [] s = s
client_input_loop loads c ((push_open, (now, m)) ∷ rest) s =
    let t = input_round loads c push_open now m s in
    let later = client_input_loop loads c rest t in if t.client_gone then t else later

-- The messages of the handlers of the transcriber to the client.
pub data Notice : Type 0 where
  status : (service state : Text) (code message : Option Text) → Notice
  transcription_partial transcription : Text → Notice
  interrupted : (turn_id : Option ℕ) → Notice

pub record Hearing : Type 0 where
  pub transcriber_busy : Bool
  -- Newest first.
  pub notices : List Notice

abbrev pub or_text : Option Text → Text → Text
or_text none d = d
or_text (some t) d = if truthy t then t else d

-- `_on_transcriber_status`.
unfoldable pub on_transcriber_status : (state : Text) → (reason : Option Text) → Hearing → Hearing
on_transcriber_status state reason h =
    let code = or_text reason (codes "busy") in
    if state == codes "busy" && not h.transcriber_busy
    then record {
      transcriber_busy = true;
      notices = status (codes "transcriber") (codes "degraded") (some code) (some code) ∷ h.notices;
    }
    else if state == codes "ok" && h.transcriber_busy
    then record {
      transcriber_busy = false;
      notices = status (codes "transcriber") (codes "restored") none none ∷ h.notices;
    }
    else h

pub record BargeIn : Type 0 where
  pub barge_in_enabled : Bool
  pub barge_in_min_chars : ℕ

-- What the handler of a transcription finds: the push turn open at its start, the answer of
-- `_cancel_turn`, and whether `_cut_push` has cut the push.
pub record Found : Type 0 where
  pub push_open : Option ℕ
  pub cancelled : Bool × Option ℕ
  pub push_cut : Bool

-- Which turn was cancelled, if one was.
unfoldable pub cancelled_turn : Found → Bool × Option ℕ
cancelled_turn f = elim f.push_open [
  | none ↦ f.cancelled
  | some id ↦ if not f.cancelled.0 && f.push_cut then (true, some id) else f.cancelled
]

unfoldable pub on_partial : BargeIn → Found → Text → List Notice
unfolding cancelled_turn
on_partial c f t =
    let cancelled = cancelled_turn f in
    transcription_partial t
    ∷ (if c.barge_in_enabled && leb c.barge_in_min_chars (length t)
        then if cancelled.0 then interrupted cancelled.1 ∷ [] else []
        else [])

-- `_on_transcription`; a final cancels the active turn and is passed on.
unfoldable pub on_transcription : BargeIn → Found → Text → (is_final : Bool) → List Notice
unfolding on_partial
on_transcription c f t is_final = if is_final then transcription t ∷ [] else on_partial c f t

pub record Health : Type 0 where
  pub orchestrator_answers : Bool
  pub audio_input : Bool
  pub audio_output : Bool
  -- The transcriber's state, if there is one.
  pub transcriber : Option ConnectionState
  pub tts_answers : Bool
  pub barge_in_enabled : Bool
  pub partials : Bool

pub record Capabilities : Type 0 where
  pub barge_in : Bool
  pub tts : Bool
  pub transcriber : Bool

abbrev pub is_connected : Option ConnectionState → Bool
is_connected none = false
is_connected (some s) = same_state s connected

abbrev pub unavailable : (service : Text) → (requested live : Bool) → List Notice
unavailable service requested live =
    if requested && not live then status service (codes "unavailable") none none ∷ [] else []

-- The capabilities, `none` if the session cannot go on, with the notices, oldest first.
unfoldable pub health_check : Health → Option Capabilities × List Notice
health_check h =
    let transcriber_live = h.audio_input && is_connected h.transcriber in
    let tts_live = h.audio_output && h.tts_answers in
    if h.orchestrator_answers
    then (
      some (record {
        barge_in = h.barge_in_enabled && transcriber_live && h.partials;
        tts = tts_live;
        transcriber = transcriber_live;
      }),
      unavailable (codes "transcriber") h.audio_input transcriber_live
          ++ unavailable (codes "tts") h.audio_output tts_live,
    )
    else (none, status (codes "orchestrator") (codes "unavailable") none none ∷ [])

-- ===== src/Bridge/Push.antt =====
-- services/bridge.py: the turns that the agent opens by itself (`on_push_turn_start`, `deliver_push`,
-- `deliver_push_tool_call`, `on_push_turn_end`, `_cut_push`, `_close_push_turn`, and the end of a push
-- in `close_all`). The worker takes one event at a time; between its waits on the TTS, a cut by the
-- user, a turn of the user or the closing may run. So each handler is a step up to its wait and a step
-- after it. A turn id `t-N` is its number N. What is sent is kept newest first. Left out: sends that
-- fail, which are logged only, the audio frames, and the times and statistics of the TTS.
pub mod Turns
pub mod Steps
use jota_gateway.Prelude.{
  ℕ, ◌+◌, ◌-◌, ◌%◌, ◌^◌, max, ◌||◌, ◌++◌, Bool, true, false, not, ◌&&◌, Option, none, some, List,
  [], ◌∷◌, if◌then◌else◌, ◌==◌, ℕ_eq, Text, Text_eq, Fields, truthy, contains, codes,
}
use jota_gateway.OpenClaw.ChatText.{ChatTextTracker, fresh, feed}
use jota_gateway.OpenClaw.TurnStream.{ToolCallEvent, from_session_tool_payload}

pub data Frame : Type 0 where
  turn_start : (turn_id turn_seq : ℕ) → Frame
  token : (turn_id : Option ℕ) (text : Text) → Frame
  tool_call : (turn_id : Option ℕ) → ToolCallEvent → Frame
  turn_end : (turn_id : ℕ) → Frame

-- What the push worker waits for: nothing, the TTS of a turn that it opened, or the end of the audio
-- of a turn that it is about to close.
pub data Worker : Type 0 where
  idle : Worker
  connecting ending : ℕ → Worker

-- A cut by the user, which holds `_turn_lock`: it waits for the TTS to close, or for `chat.abort`.
pub data Cut : Type 0 where
  no_cut : Cut
  dropping aborting : ℕ → Cut

-- What `enqueue_push` queues.
pub data Event : Type 0 where
  start_event : (session_key : Text) → Event
  chat_event tool_event : Fields → Event
  end_event : Event

pub record Config : Type 0 where
  pub push_enabled : Bool
  pub tool_calls_enabled : Bool
  pub output_mode : List Text
  -- `_session_key()`.
  pub session_key : Text

pub record Push : Type 0 where
  pub turn_seq : ℕ
  pub push_turn_id : Option ℕ
  pub push_session_key : Option Text
  pub is_open : Bool
  pub push_text : ChatTextTracker
  -- Whether there is a `_push_tts`.
  pub has_tts : Bool
  pub worker : Worker
  pub cut : Cut
  pub closing : Bool
  pub queue : List Event
  pub push_pending : ℕ
  pub push_pending_peak : ℕ
  -- The session keys that `chat.abort` was called for.
  pub aborted : List Text
  pub log : List Frame

unfoldable pub new_push : Push
unfolding fresh
new_push = record {
  turn_seq = 0;
  push_turn_id = none;
  push_session_key = none;
  is_open = false;
  push_text = fresh;
  has_tts = false;
  worker = idle;
  cut = no_cut;
  closing = false;
  queue = [];
  push_pending = 0;
  push_pending_peak = 0;
  aborted = [];
  log = [];
}

unfoldable pub is_turn : ℕ → Push → Bool
is_turn id p = p.is_open && elim p.push_turn_id [ none ↦ false | some j ↦ j == id ]

unfoldable pub push_allowed : Config → Push → Bool
push_allowed c p = c.push_enabled && p.is_open

-- What opens the turn.
unfoldable pub open_turn : Text → Push → Push
unfolding fresh
open_turn sk p =
    let id = p.turn_seq + 1 in
    record p {
      turn_seq = id;
      push_turn_id = some id;
      push_session_key = some sk;
      is_open = true;
      push_text = fresh;
      log = turn_start id (id % 2 ^ 16) ∷ p.log;
    }

-- `on_push_turn_start` up to the connection of the TTS.
unfoldable pub on_push_turn_start : Config → Text → Push → Push
unfolding open_turn
on_push_turn_start c sk p =
    if not c.push_enabled
    then p
    else if p.is_open
    then p
    else let q = open_turn sk p in
      if contains (codes "audio") c.output_mode
      then record q { worker = connecting q.turn_seq }
      else q

-- The rest of it: whether there is a TTS, and whether the turn is still this one.
unfoldable pub tts_connected : Bool → ℕ → Push → Push
unfolding is_turn
tts_connected found id p =
    let q : Push = record p { worker = idle } in
    if found && is_turn id p then record q { has_tts = true } else q

unfoldable pub send_delta : Config → (tts_fails : Bool) → (delta : Text) → Push → Push
send_delta c tts_fails delta p = record p {
  log = if contains (codes "text") c.output_mode then token p.push_turn_id delta ∷ p.log else p.log;
  has_tts = p.has_tts && not tts_fails;
}

-- `deliver_push`; a TTS that fails or hangs is dropped.
unfoldable pub deliver_push : Config → (tts_fails : Bool) → Fields → Push → Push
unfolding push_allowed send_delta
deliver_push c tts_fails payload p =
    let (delta, text) = feed payload p.push_text in
    let q : Push = record p { push_text = text } in
    if push_allowed c p then if truthy delta then send_delta c tts_fails delta q else q else p

unfoldable pub deliver_push_tool_call : Config → Fields → Push → Push
unfolding push_allowed
deliver_push_tool_call c info p =
    if push_allowed c p && c.tool_calls_enabled
    then elim (from_session_tool_payload info) [
      | none ↦ p
      | some t ↦ record p { log = tool_call p.push_turn_id t ∷ p.log }
    ]
    else p

unfoldable pub close_push_turn : ℕ → Push → Push
unfolding is_turn
close_push_turn id p =
    if is_turn id p then record p { is_open = false; log = turn_end id ∷ p.log } else p

-- `on_push_turn_end` up to its wait for the TTS and the audio.
unfoldable pub on_push_turn_end : Push → Push
on_push_turn_end p =
    if p.is_open
    then elim p.push_turn_id [ none ↦ p | some id ↦ record p { worker = ending id } ]
    else p

-- The rest of it.
unfoldable pub drained : ℕ → Push → Push
unfolding close_push_turn
drained id p = close_push_turn id (record p { worker = idle; has_tts = false })

unfoldable pub same_turn : Option ℕ → ℕ → Bool
same_turn none id = true
same_turn (some j) id = j == id

-- `_cut_push` up to its wait; `expected` is the turn that it is for, if for one only.
unfoldable pub cut_push : (expected : Option ℕ) → Push → Push
unfolding same_turn
cut_push expected p =
    if p.is_open
    then elim p.push_turn_id [
      | none ↦ p
      | some id ↦
          if same_turn expected id then record p { has_tts = false; cut = dropping id } else p
    ]
    else p

abbrev pub is_own : Config → Option Text → Bool
is_own c none = false
is_own c (some sk) = sk == c.session_key

-- The TTS has closed: a push of our own session is aborted, any other is closed at once.
unfoldable pub tts_dropped : Config → ℕ → Push → Push
unfolding close_push_turn
tts_dropped c id p =
    if is_own c p.push_session_key
    then record p { cut = aborting id; aborted = c.session_key ∷ p.aborted }
    else close_push_turn id (record p { cut = no_cut })

unfoldable pub abort_sent : ℕ → Push → Push
unfolding close_push_turn
abort_sent id p = close_push_turn id (record p { cut = no_cut })

unfoldable pub enqueue_push : Event → Push → Push
enqueue_push e p = if p.closing then p else record p {
  push_pending = p.push_pending + 1;
  push_pending_peak = max p.push_pending_peak (p.push_pending + 1);
  queue = p.queue ++ e ∷ [];
}

-- The end of `close_all`'s part: the worker is cancelled and the queue emptied, then a turn that is
-- still open is closed.
unfoldable pub cancel_worker : Push → Push
cancel_worker p = record p { closing = true; worker = idle; queue = []; push_pending = 0 }

unfoldable pub close_last : Push → Push
unfolding close_push_turn
close_last p =
    let q : Push = record p { has_tts = false } in
    elim p.push_turn_id [ none ↦ q | some id ↦ close_push_turn id q ]

abbrev pub is_idle : Worker → Bool
is_idle idle = true
is_idle _ = false

abbrev pub cutting : Cut → Bool
cutting no_cut = false
cutting _ = true

abbrev pub must_wait : Bool → Cut → Event → Bool
must_wait busy cut (start_event sk) = busy || cutting cut
must_wait busy cut _ = false

unfoldable pub handle : Config → (tts_fails : Bool) → Event → Push → Push
unfolding on_push_turn_start deliver_push deliver_push_tool_call on_push_turn_end
handle c tts_fails (start_event sk) p = on_push_turn_start c sk p
handle c tts_fails (chat_event payload) p = deliver_push c tts_fails payload p
handle c tts_fails (tool_event info) p = deliver_push_tool_call c info p
handle c tts_fails end_event p = on_push_turn_end p

unfoldable pub task_done : Push → Push
task_done p = record p { push_pending = p.push_pending - 1 }

unfoldable pub done_if_idle : Push → Push
unfolding task_done
done_if_idle p = if is_idle p.worker then task_done p else p

-- A round of `_push_worker_loop` up to the wait of its handler, if it waits. A start waits while a
-- turn of the user is under way (`busy`) or a cut holds the lock.
unfoldable pub take_event : Config → (busy tts_fails : Bool) → List Event → Push → Push
take_event c busy tts_fails [] p = p
take_event c busy tts_fails (e ∷ rest) p =
    if must_wait busy p.cut e
    then p
    else done_if_idle (handle c tts_fails e (record p { queue = rest }))

-- The worker goes on; `found` is whether a TTS could be connected.
unfoldable pub resume : Config → (busy tts_fails found : Bool) → Worker → Push → Push
resume c busy tts_fails found idle p =
    if p.closing then p else take_event c busy tts_fails p.queue p
resume c busy tts_fails found (connecting id) p = task_done (tts_connected found id p)
resume c busy tts_fails found (ending id) p = task_done (drained id p)

unfoldable pub work : Config → (busy tts_fails found : Bool) → Push → Push
work c busy tts_fails found p = resume c busy tts_fails found p.worker p

unfoldable pub resume_cut : Config → Cut → Push → Push
resume_cut c no_cut p = p
resume_cut c (dropping id) p = tts_dropped c id p
resume_cut c (aborting id) p = abort_sent id p

unfoldable pub go_on_cut : Config → Push → Push
go_on_cut c p = resume_cut c p.cut p

pub data Action : Type 0 where
  enqueues : Event → Action
  works : (busy tts_fails found : Bool) → Action
  cuts : (expected : Option ℕ) → Action
  goes_on_cut : Action
  -- `_call_orchestrator` numbers a turn of the user.
  user_turn : Action
  cancels_worker closes_last : Action

unfoldable pub step : Config → Action → Push → Push
step c (enqueues e) p = enqueue_push e p
step c (works busy tts_fails found) p = work c busy tts_fails found p
step c (cuts expected) p = if cutting p.cut then p else cut_push expected p
step c goes_on_cut p = go_on_cut c p
step c user_turn p = record p { turn_seq = p.turn_seq + 1 }
step c cancels_worker p = cancel_worker p
step c closes_last p = close_last p

unfoldable pub run : Config → List Action → Push → Push
run c [] p = p
run c (a ∷ rest) p = run c rest (step c a p)

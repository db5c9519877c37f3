-- ===== src/OpenClaw/Dispatcher.antt =====
-- services/openclaw/dispatcher.py: `FrameDispatcher`. A frame is a JSON object. The push events
-- that it queues on bridges, and the kinds that it logs at INFO, are kept in order, newest last.
-- `time.monotonic()` is an argument, and so is Python's `repr` of a JSON value.
pub mod Routing
pub mod Keeping
pub mod Safety
use jota_gateway.Prelude.{
  ℕ, Bool, true, false, ◌||◌, Option, none, some, List, [], ◌∷◌, ◌++◌, if◌then◌else◌, Text, Text_eq,
  codes, member, set_add, Json, Fields, get, get_default, is_text, is_false,
}
use jota_gateway.OpenClaw.Queue.{Item}
use jota_gateway.OpenClaw.TurnRegistry.{
  TurnRegistry, client_id_from_session_key, deliver_by_session, deliver_by_req, is_aborted,
  get_queue_by_session,
}
use jota_gateway.OpenClaw.ClientRegistry.{ClientRegistry, bridge_of}

-- What `enqueue_push` is called with.
pub data Push : Type 0 where
  chat : Fields → Push
  turn_start : Text → Push
  turn_end : Text → Push
  tool : Fields → Push

pub record Dispatcher : Type 0 where
  pub turns : TurnRegistry
  pub clients : ClientRegistry
  pub unknown_seen : List Text
  pub pushes : List (ℕ × Push)
  pub info_log : List Text

-- The state after a call, and whether the call raised.
pub record Outcome : Type 0 where
  pub raised : Bool
  pub state : Dispatcher

abbrev pub ok : Dispatcher → Outcome
ok d = record { raised = false; state = d }

abbrev pub fails : Dispatcher → Outcome
fails d = record { raised = true; state = d }

-- `_as_dict`.
unfoldable pub as_dict : Json → Fields
as_dict (Json.object fs) = fs
as_dict _ = Fields.end

unfoldable pub note_unhandled : Text → Dispatcher → Dispatcher
note_unhandled what d =
    if member what d.unknown_seen
    then d
    else record d { unknown_seen = set_add what d.unknown_seen; info_log = d.info_log ++ what ∷ [] }

-- `bridge.enqueue_push(...)` on the bridge of the session's client, if it is registered.
unfoldable pub push_to : Text → Push → Dispatcher → Dispatcher
push_to sk p d = elim (bridge_of (client_id_from_session_key sk) d.clients) [
  | none ↦ d
  | some bridge ↦ record d { pushes = d.pushes ++ (bridge, p) ∷ [] }
]

-- What a chat and a tool frame share: to the session's turn, or dropped as late, or pushed.
unfoldable pub route : ℕ → Text → Item → Push → Dispatcher → Dispatcher
unfolding push_to
route now sk item p d =
    let (owned, turns) = deliver_by_session now sk item d.turns in
    let (aborted, left) = is_aborted now sk turns in
    if owned
    then record d { turns = turns }
    else if aborted
    then record d { turns = left }
    else push_to sk p (record d { turns = left })

-- A session key that is no text cannot be that of a turn. A list or an object cannot be looked up,
-- and of a number or a Boolean no client id can be made: both raise.
not_a_text : ℕ → Dispatcher → Outcome
not_a_text now d = fails (record d { turns = (is_aborted now [] d.turns).1 })

unfoldable pub with_key : ℕ → (Text → Dispatcher → Dispatcher) → Json → Dispatcher → Outcome
unfolding not_a_text
with_key now act Json.null d = ok d
with_key now act (Json.text sk) d = ok (act sk d)
with_key now act (Json.boolean b) d = not_a_text now d
with_key now act (Json.number n) d = not_a_text now d
with_key now act (Json.array xs) d = fails d
with_key now act (Json.object fs) d = fails d

unfoldable pub handle_res : ℕ → Fields → Dispatcher → Outcome
handle_res now frame d =
    if is_false (get (codes "ok") frame)
    then elim (get_default (codes "id") (Json.text []) frame) [
      | Json.text req ↦
          ok (record d { turns = (deliver_by_req now req (Item.done frame) d.turns).1 })
      | Json.array xs ↦ fails d
      | Json.object fs ↦ fails d
      | _ ↦ ok d
    ]
    else ok d

unfoldable pub handle_chat : ℕ → Fields → Dispatcher → Outcome
unfolding route with_key
handle_chat now payload d =
    with_key now (λ sk. route now sk (Item.chat payload) (Push.chat payload))
      (get (codes "sessionKey") payload) d

-- `_handle_agent_lifecycle` for a session key that is a text.
unfoldable pub start_push : ℕ → Text → Dispatcher → Dispatcher
unfolding push_to
start_push now sk d = elim (get_queue_by_session sk d.turns) [
  | some ref ↦ d
  | none ↦
      let (aborted, left) = is_aborted now sk d.turns in
      if aborted
      then record d { turns = left }
      else push_to sk (Push.turn_start sk) (record d { turns = left })
]

unfoldable pub lifecycle : ℕ → Json → Text → Dispatcher → Dispatcher
unfolding push_to start_push
lifecycle now phase sk d = elim (bridge_of (client_id_from_session_key sk) d.clients) [
  | none ↦ d
  | some bridge ↦
      if is_text (codes "start") phase
      then start_push now sk d
      else if is_text (codes "end") phase || is_text (codes "error") phase
      then push_to sk (Push.turn_end sk) d
      else d
]

unfoldable pub handle_agent_lifecycle : ℕ → Fields → Dispatcher → Outcome
unfolding lifecycle
handle_agent_lifecycle now payload d =
    let phase = get (codes "phase") (as_dict (get (codes "data") payload)) in
    elim (get (codes "sessionKey") payload) [
      | Json.null ↦ ok d
      | Json.text sk ↦ ok (lifecycle now phase sk d)
      | _ ↦ fails d
    ]

unfoldable pub handle_session_tool : ℕ → Fields → Dispatcher → Outcome
unfolding route with_key
handle_session_tool now payload d =
    let info = as_dict (get (codes "data") payload) in
    let phase = get (codes "phase") info in
    if is_text (codes "start") phase || is_text (codes "result") phase
    then with_key now (λ sk. route now sk (Item.tool info) (Push.tool info))
        (get (codes "sessionKey") payload) d
    else ok d

module _ (repr : Json → Text) where
  unfoldable pub handle_event : ℕ → Fields → Dispatcher → Outcome
  unfolding handle_chat handle_agent_lifecycle handle_session_tool note_unhandled
  handle_event now frame d =
      let event = get_default (codes "event") (Json.text []) frame in
      let payload = as_dict (get (codes "payload") frame) in
      if is_text (codes "chat") event
      then handle_chat now payload d
      else if is_text (codes "agent") event
      then handle_agent_lifecycle now payload d
      else if is_text (codes "session.tool") event
      then handle_session_tool now payload d
      else ok (note_unhandled (codes "event " ++ repr event) d)

  unfoldable pub dispatch : ℕ → Fields → Dispatcher → Outcome
  unfolding handle_res handle_event note_unhandled
  dispatch now frame d =
      let ftype = get (codes "type") frame in
      if is_text (codes "res") ftype
      then handle_res now frame d
      else if is_text (codes "event") ftype
      then handle_event now frame d
      else ok (note_unhandled (codes "frame type " ++ repr ftype) d)

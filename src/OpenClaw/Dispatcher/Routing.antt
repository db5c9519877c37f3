-- ===== src/OpenClaw/Dispatcher/Routing.antt =====
-- Where a frame of a session goes: to the session's turn, to the bridge of its client, or nowhere.
use jota_gateway.Prelude.{
  ℕ, ◌≡◌, refl, ap, Bool, true, false, Option, none, some, List, [], ◌∷◌, ◌++◌, arith, Text,
  Text_eq, codes, text_beq, lookup, Json, Fields, get, inl, inr, ◌⊎◌,
}
use mathlib.Core.List.{append-nil}
use jota_gateway.OpenClaw.Queue.{Item, Queue}
use jota_gateway.OpenClaw.TurnRegistry.{
  TurnRegistry, client_id_from_session_key, deliver_by_session, is_aborted, get_queue_by_session,
}
use jota_gateway.OpenClaw.ClientRegistry.{bridge_of}
use jota_gateway.OpenClaw.Dispatcher.{
  Dispatcher, Push, ok, as_dict, route, push_to, handle_chat, handle_session_tool,
  handle_agent_lifecycle, lifecycle, start_push, with_key,
}

pub data Destination : Type 0 where
  to_turn nowhere : Destination
  to_bridge : ℕ → Destination

abbrev bridge_or_nowhere : Option ℕ → Destination
bridge_or_nowhere none = nowhere
bridge_or_nowhere (some b) = to_bridge b

abbrev unowned : Bool → Option ℕ → Destination
unowned true bridge = nowhere
unowned false bridge = bridge_or_nowhere bridge

abbrev choose : Option ℕ → Bool → Option ℕ → Destination
choose (some ref) aborted bridge = to_turn
choose none aborted bridge = unowned aborted bridge

-- A turn of the session comes first; then a late frame of an aborted turn is dropped; then the
-- bridge of the client that the session key names, if it is registered.
abbrev pub destination : ℕ → Text → Dispatcher → Destination
destination now sk d =
    choose (lookup sk d.turns.sessions) (is_aborted now sk d.turns).0
      (bridge_of (client_id_from_session_key sk) d.clients)

abbrev pub pushed : Destination → Push → List (ℕ × Push)
pushed (to_bridge b) p = (b, p) ∷ []
pushed _ p = []

abbrev pub delivered : Destination → ℕ → Text → Item → TurnRegistry → ℕ → Queue
delivered to_turn now sk item t = (deliver_by_session now sk item t).1.store
delivered _ now sk item t = t.store

route-destination :
    (now : ℕ) (sk : Text) (item : Item) (p : Push) (d : Dispatcher)
    → ((route now sk item p d).pushes ≡ d.pushes ++ pushed (destination now sk d) p)
      × ((route now sk item p d).turns.store ≡ delivered (destination now sk d) now sk item d.turns)
unfolding route push_to deliver_by_session is_aborted
route-destination now sk item p d = ground (arith, append-nil d.pushes)

-- A chat event of a session goes to one place at most: to the end of the queue of
-- the turn that owns the session, with the registry's own rules, and then nothing is pushed; or,
-- with no turn, to the bridge of the client that the session key names, unless the session's turn
-- was aborted a moment ago. No queue but that of a turn that takes the item changes.
pub handle_chat-destination :
    (now : ℕ) (payload : Fields) (sk : Text) (d : Dispatcher)
    → get (codes "sessionKey") payload ≡ Json.text sk
    → let o = handle_chat now payload d in
      (o.raised ≡ false)
      × (o.state.pushes ≡ d.pushes ++ pushed (destination now sk d) (Push.chat payload))
      × (o.state.turns.store ≡ delivered (destination now sk d) now sk (Item.chat payload) d.turns)
unfolding handle_chat with_key
handle_chat-destination now payload sk d e =
    let (p, q) = route-destination now sk (Item.chat payload) (Push.chat payload) d in
    rw (e, handle_chat) (refl, p, q)

-- The same of a tool event in a phase that the gateway knows.
pub handle_session_tool-destination :
    (now : ℕ) (payload : Fields) (sk : Text) (d : Dispatcher)
    → get (codes "sessionKey") payload ≡ Json.text sk
    → let info = as_dict (get (codes "data") payload) in
      (get (codes "phase") info ≡ Json.text (codes "start"))
        ⊎ (get (codes "phase") info ≡ Json.text (codes "result"))
      → let o = handle_session_tool now payload d in
        (o.raised ≡ false)
        × (o.state.pushes ≡ d.pushes ++ pushed (destination now sk d) (Push.tool info))
        × (o.state.turns.store ≡ delivered (destination now sk d) now sk (Item.tool info) d.turns)
unfolding handle_session_tool with_key text_beq
handle_session_tool-destination now payload sk d e (inl phase) =
    let info = as_dict (get (codes "data") payload) in
    let (p, q) = route-destination now sk (Item.tool info) (Push.tool info) d in
    rw (phase, handle_session_tool, e) (refl, p, q)
handle_session_tool-destination now payload sk d e (inr phase) =
    let info = as_dict (get (codes "data") payload) in
    let (p, q) = route-destination now sk (Item.tool info) (Push.tool info) d in
    rw (phase, handle_session_tool, e) (refl, p, q)

lifecycle_start :
    (now : ℕ) (sk : Text) (d : Dispatcher)
    → let s = lifecycle now (Json.text (codes "start")) sk d in
      (s.pushes ≡ d.pushes ++ pushed (destination now sk d) (Push.turn_start sk))
      × (s.turns.store ≡ d.turns.store)
unfolding lifecycle start_push push_to text_beq get_queue_by_session is_aborted
lifecycle_start now sk d = ground (arith, append-nil d.pushes)

-- Issue #112: the start of an agent's run opens a push turn on the client only if no turn of the
-- session is active or was aborted a moment ago. No turn's queue changes.
pub agent_start-destination :
    (now : ℕ) (payload : Fields) (sk : Text) (d : Dispatcher)
    → get (codes "sessionKey") payload ≡ Json.text sk
    → get (codes "phase") (as_dict (get (codes "data") payload)) ≡ Json.text (codes "start")
    → let o = handle_agent_lifecycle now payload d in
      (o.raised ≡ false)
      × (o.state.pushes ≡ d.pushes ++ pushed (destination now sk d) (Push.turn_start sk))
      × (o.state.turns.store ≡ d.turns.store)
unfolding handle_agent_lifecycle
agent_start-destination now payload sk d e phase =
    let (p, q) = lifecycle_start now sk d in rw (e, handle_agent_lifecycle, phase) (refl, p, q)

lifecycle_end :
    (now : ℕ) (sk : Text) (bridge : ℕ) (d : Dispatcher)
    → bridge_of (client_id_from_session_key sk) d.clients ≡ some bridge
    → let s = record d { pushes = d.pushes ++ (bridge, Push.turn_end sk) ∷ [] } in
      (lifecycle now (Json.text (codes "end")) sk d ≡ s)
      × (lifecycle now (Json.text (codes "error")) sk d ≡ s)
unfolding lifecycle push_to text_beq
lifecycle_end now sk bridge d there = (
  rw (there, lifecycle) (rw (there, push_to) refl),
  rw (there, lifecycle) (rw (there, push_to) refl),
)

-- The end of a run, or its failure, is never suppressed: it reaches the bridge of the client
-- whether or not a turn of the session is active, or push turns would stay open for ever.
pub agent_end-forwarded :
    (now : ℕ) (payload : Fields) (sk : Text) (bridge : ℕ) (d : Dispatcher)
    → get (codes "sessionKey") payload ≡ Json.text sk
    → let phase = get (codes "phase") (as_dict (get (codes "data") payload)) in
      (phase ≡ Json.text (codes "end")) ⊎ (phase ≡ Json.text (codes "error"))
      → bridge_of (client_id_from_session_key sk) d.clients ≡ some bridge
      → handle_agent_lifecycle now payload d
        ≡ ok (record d { pushes = d.pushes ++ (bridge, Push.turn_end sk) ∷ [] })
unfolding handle_agent_lifecycle
agent_end-forwarded now payload sk bridge d e (inl phase) there =
    rw (e, handle_agent_lifecycle, phase) (ap ok (lifecycle_end now sk bridge d there).0)
agent_end-forwarded now payload sk bridge d e (inr phase) there =
    rw (e, handle_agent_lifecycle, phase) (ap ok (lifecycle_end now sk bridge d there).1)

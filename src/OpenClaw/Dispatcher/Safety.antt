-- ===== src/OpenClaw/Dispatcher/Safety.antt =====
-- What no frame can do, whatever the orchestrator sends.
use jota_gateway.Prelude.{
  ℕ, ◌≡◌, refl, ◌||◌, List, [], ◌∷◌, ◌++◌, arith, if◌then◌else◌, Bool-cases, Text, Text_eq, codes,
  Json, Fields, get, get_default, is_false, is_text, inl, inr,
}
use jota_gateway.OpenClaw.Queue.{Item}
use jota_gateway.OpenClaw.TurnRegistry.{deliver_by_req}
use jota_gateway.OpenClaw.TurnRegistry.Ownership.{IsValid}
use jota_gateway.OpenClaw.TurnRegistry.Histories.{deliver_by_req-IsValid}
use jota_gateway.OpenClaw.Dispatcher.{
  Dispatcher, Push, Outcome, ok, fails, as_dict, route, handle_res, handle_chat,
  handle_session_tool, handle_agent_lifecycle, with_key, handle_event, dispatch, note_unhandled,
}
use jota_gateway.OpenClaw.Dispatcher.Keeping.{
  Keeps, Keeps-refl, route-Keeps, with_key-Keeps, if_state-Keeps, agent-Keeps, note_unhandled-Keeps,
}

res-Keeps :
    (now : ℕ) (frame : Fields) (key : Json) (d : Dispatcher)
    → Keeps d
        (elim key as (λ _. Outcome) [
          | Json.text req ↦
              ok (record d { turns = (deliver_by_req now req (Item.done frame) d.turns).1 })
          | Json.array xs ↦ fails d
          | Json.object fs ↦ fails d
          | _ ↦ ok d
        ]).state
res-Keeps now frame (Json.text req) d = record {
  valid = deliver_by_req-IsValid now req (Item.done frame) d.turns;
  clients_same = refl;
  logs = λ v. v;
}
res-Keeps now frame Json.null d = Keeps-refl d
res-Keeps now frame (Json.boolean b) d = Keeps-refl d
res-Keeps now frame (Json.number n) d = Keeps-refl d
res-Keeps now frame (Json.array xs) d = Keeps-refl d
res-Keeps now frame (Json.object fs) d = Keeps-refl d

handle_chat-Keeps :
    (now : ℕ) (payload : Fields) (d : Dispatcher) → Keeps d (handle_chat now payload d).state
unfolding handle_chat
handle_chat-Keeps now payload d =
    with_key-Keeps now (λ sk. route now sk (Item.chat payload) (Push.chat payload))
      (get (codes "sessionKey") payload) d (λ sk. route-Keeps now sk _ _ d)

handle_session_tool-Keeps :
    (now : ℕ) (payload : Fields) (d : Dispatcher)
    → Keeps d (handle_session_tool now payload d).state
unfolding handle_session_tool
handle_session_tool-Keeps now payload d =
    let info = as_dict (get (codes "data") payload) in
    if_state-Keeps
      (is_text (codes "start") (get (codes "phase") info)
        || is_text (codes "result") (get (codes "phase") info))
      d
      (with_key now (λ sk. route now sk (Item.tool info) (Push.tool info))
        (get (codes "sessionKey") payload) d)
      (ok d)
      (with_key-Keeps now (λ sk. route now sk (Item.tool info) (Push.tool info))
        (get (codes "sessionKey") payload) d (λ sk. route-Keeps now sk _ _ d))
      (Keeps-refl d)

handle_agent_lifecycle-Keeps :
    (now : ℕ) (payload : Fields) (d : Dispatcher)
    → Keeps d (handle_agent_lifecycle now payload d).state
unfolding handle_agent_lifecycle
handle_agent_lifecycle-Keeps now payload d =
    agent-Keeps now (get (codes "phase") (as_dict (get (codes "data") payload)))
      (get (codes "sessionKey") payload) d

handle_res-Keeps :
    (now : ℕ) (frame : Fields) (d : Dispatcher) → Keeps d (handle_res now frame d).state
unfolding handle_res
handle_res-Keeps now frame d = elim (Bool-cases (is_false (get (codes "ok") frame))) [
  | inl failed ↦
      rw (failed, handle_res)
        (res-Keeps now frame (get_default (codes "id") (Json.text []) frame) d)
  | inr fine ↦ rw (fine, handle_res) (Keeps-refl d)
]

module _ (repr : Json → Text) where
  handle_event-Keeps :
      (now : ℕ) (frame : Fields) (d : Dispatcher) → Keeps d (handle_event repr now frame d).state
  unfolding handle_event
  handle_event-Keeps now frame d = ground (
    arith,
    handle_chat-Keeps now (as_dict (get (codes "payload") frame)) d,
    handle_agent_lifecycle-Keeps now (as_dict (get (codes "payload") frame)) d,
    handle_session_tool-Keeps now (as_dict (get (codes "payload") frame)) d,
    note_unhandled-Keeps (codes "event " ++ repr (get_default (codes "event") (Json.text []) frame))
        d,
  )

  dispatch-Keeps :
      (now : ℕ) (frame : Fields) (d : Dispatcher) → Keeps d (dispatch repr now frame d).state
  unfolding dispatch
  dispatch-Keeps now frame d =
      let unknown = codes "frame type " ++ repr (get (codes "type") frame) in
      if_state-Keeps (is_text (codes "res") (get (codes "type") frame)) d (handle_res now frame d)
        (if is_text (codes "event") (get (codes "type") frame)
          then handle_event repr now frame d
          else ok (note_unhandled unknown d))
        (handle_res-Keeps now frame d)
        (if_state-Keeps (is_text (codes "event") (get (codes "type") frame)) d
          (handle_event repr now frame d) (ok (note_unhandled unknown d))
          (handle_event-Keeps now frame d) (note_unhandled-Keeps unknown d))

-- Whatever JSON object the orchestrator sends, and also where the handler raises, the registry of
-- turns stays valid and the registry of clients is left as it is.
pub dispatch-IsValid :
    (repr : Json → Text) (now : ℕ) (frame : Fields) (d : Dispatcher)
    → IsValid d.turns
    → IsValid (dispatch repr now frame d).state.turns
      × ((dispatch repr now frame d).state.clients ≡ d.clients)
dispatch-IsValid repr now frame d v =
    let k = dispatch-Keeps repr now frame d in (k.valid v, k.clients_same)

pub run : (Json → Text) → List (ℕ × Fields) → Dispatcher → Dispatcher
run repr [] d = d
run repr ((now, frame) ∷ rest) d = run repr rest (dispatch repr now frame d).state

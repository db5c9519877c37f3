-- ===== src/Examples/Frames.antt =====
-- Concrete frames of the orchestrator.
use jota_gateway.Prelude.{
  ◌≡◌, refl, true, false, Option, none, some, [], ◌∷◌, ◌++◌, Text, Text_eq, codes, has_key, Json,
  Fields, get, text_beq, lookup, member,
}
use jota_gateway.OpenClaw.Queue.{Item, IsBounded}
use jota_gateway.OpenClaw.TurnRegistry.{new, enrol}
use jota_gateway.OpenClaw.TurnRegistry.Ownership.{IsValid, new-IsValid, enrol-IsValid}
use jota_gateway.OpenClaw.Dispatcher.{
  Dispatcher, Push, as_dict, handle_chat, handle_agent_lifecycle, dispatch,
}
use jota_gateway.OpenClaw.Dispatcher.Routing.{
  destination, pushed, delivered, handle_chat-destination, agent_start-destination,
}
use jota_gateway.OpenClaw.TurnRegistry.Overflow.{EndsWith}
use jota_gateway.OpenClaw.Listening.{
  Listener, handle_all, listen, disconnected_error, listen-EndsWith,
}

abbrev kitchen : Text
kitchen = codes "a:m:k"

abbrev idle : Dispatcher
idle = record {
  turns = new (some 4);
  clients = (codes "k", 3) ∷ [];
  unknown_seen = [];
  pushes = [];
  info_log = [];
}

abbrev busy : Dispatcher
busy = record idle { turns = enrol 4 (codes "r1") kitchen (new (some 4)) }

busy-IsValid : IsValid busy.turns
unfolding has_key new
busy-IsValid = enrol-IsValid 4 (codes "r1") kitchen (new (some 4)) refl (new-IsValid (some 4))

abbrev one : Text → Json → Fields
one k v = Fields.field k v Fields.end

abbrev payload : Json → Fields
payload v = Fields.field (codes "sessionKey") (Json.text kitchen) (one (codes "data") v)

abbrev phase : Text → Json
phase p = Json.object (one (codes "phase") (Json.text p))

handle_chat-destination_example :
    let o = handle_chat 9 (payload Json.null) busy in
    (o.raised ≡ false)
    × (o.state.pushes ≡ [] ++ pushed (destination 9 kitchen busy) (Push.chat (payload Json.null)))
    × (o.state.turns.store
        ≡ delivered
            (destination 9 kitchen busy)
            9
            kitchen
            (Item.chat (payload Json.null))
            busy.turns)
unfolding get text_beq
handle_chat-destination_example = handle_chat-destination 9 (payload Json.null) kitchen busy refl

agent_start-destination_example :
    let o = handle_agent_lifecycle 9 (payload (phase (codes "start"))) idle in
    (o.raised ≡ false)
    × (o.state.pushes ≡ [] ++ pushed (destination 9 kitchen idle) (Push.turn_start kitchen))
    × (o.state.turns.store ≡ idle.turns.store)
unfolding get text_beq as_dict
agent_start-destination_example =
    agent_start-destination 9 (payload (phase (codes "start"))) kitchen idle refl refl

abbrev repr : Json → Text
repr j = codes "?"

abbrev unknown_frame : Fields
unknown_frame = one (codes "type") (Json.text (codes "hm"))

abbrev listening : Listener
listening = record { dispatcher = busy; futures = []; answered = []; disconnects = 0 }

-- An empty text is malformed, any other is the unknown frame.
abbrev loads : Text → Option Json
loads [] = none
loads (c ∷ cs) = some (Json.object unknown_frame)

listen-EndsWith_example :
    let s =
      (listen repr loads ((9, []) ∷ (10, codes "x") ∷ []) false true listening).dispatcher.turns in
    EndsWith disconnected_error (s.store 0)
    × IsBounded (s.store 0)
    × (lookup kitchen s.sessions ≡ none)
    × (member kitchen s.overflowed ≡ false)
unfolding lookup handle_all jota_gateway.Prelude.get_default text_beq dispatch get member enrol
    jota_gateway.Prelude.insert new
listen-EndsWith_example =
    listen-EndsWith repr loads ((9, []) ∷ (10, codes "x") ∷ []) false true listening kitchen 0
      busy-IsValid refl

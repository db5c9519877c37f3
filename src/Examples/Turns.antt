-- ===== src/Examples/Turns.antt =====
-- Concrete histories of the registry of turns, and of the bridge's pushes.
use jota_gateway.Prelude.{
  ℕ, ◌≡◌, ◌+◌, refl, true, false, ◌||◌, none, some, List, [], ◌∷◌, if◌then◌else◌, Text, Text_eq,
  codes, lookup, member, has_key, Json, Fields, ℕ_eq, text_beq, insert,
}
use jota_gateway.OpenClaw.Queue.{Item, Queue, full}
use jota_gateway.OpenClaw.TurnRegistry.{
  TurnRegistry, new, enrol, unregister, deliver_by_session, turn_abort_tombstone_ms, get_or,
}
use jota_gateway.OpenClaw.TurnRegistry.Ownership.{IsValid, new-IsValid, enrol-IsValid}
use jota_gateway.OpenClaw.TurnRegistry.Histories.{
  Call, registers, delivers, unregisters, run, run-IsValid,
}
use jota_gateway.OpenClaw.TurnRegistry.Overflow.{after_delivery, deliver_by_session-after_delivery}
use jota_gateway.OpenClaw.TurnRegistry.Tenure.{Holds, run-Holds}
use jota_gateway.Bridge.Push.{
  Action, run as run_push, Config, new_push, close_last, start_event, end_event,
}
use jota_gateway.Bridge.Push.{enqueues, works, cuts, goes_on_cut}
use jota_gateway.Bridge.Push.Turns.{follow, phase}
use jota_gateway.Bridge.Push.Steps.{Tracked, run-Tracked, run-close_last}

abbrev kitchen : Text
kitchen = codes "a:m:k"

abbrev hall : Text
hall = codes "a:m:h"

abbrev first : Text
first = codes "r1"

abbrev second : Text
second = codes "r2"

abbrev hello : Item
hello = Item.chat (Fields.field (codes "deltaText") (Json.text (codes "hi")) Fields.end)

abbrev one_turn : TurnRegistry
one_turn = enrol 1 first kitchen (new none)

abbrev flagged : TurnRegistry
flagged = record one_turn { tombstones = (kitchen, 6000) ∷ [] }

one_turn-IsValid : IsValid one_turn
unfolding new has_key
one_turn-IsValid = enrol-IsValid 1 first kitchen (new none) refl (new-IsValid none)

run-IsValid_example : IsValid (
    run 1
      ((0, registers first kitchen)
        ∷ (1, delivers kitchen hello)
        ∷ (2, delivers kitchen hello)
        ∷ (3, unregisters kitchen first)
        ∷ [])
      (new none))
run-IsValid_example = run-IsValid 1 none (
    (0, registers first kitchen)
    ∷ (1, delivers kitchen hello)
    ∷ (2, delivers kitchen hello)
    ∷ (3, unregisters kitchen first)
    ∷ [])

deliver_by_session-after_delivery_example :
    let s = (deliver_by_session 7 kitchen hello one_turn).1 in
    ((deliver_by_session 7 kitchen hello one_turn).0 ≡ true)
    × ((s.store 0).items
        ≡ after_delivery (member kitchen one_turn.overflowed) hello (one_turn.store 0))
    × (member kitchen s.overflowed
        ≡ (member kitchen one_turn.overflowed || full (one_turn.store 0)))
    × (lookup kitchen s.tombstones ≡ (
        if member kitchen one_turn.overflowed
        then lookup kitchen one_turn.tombstones
        else if full (one_turn.store 0)
        then some (7 + turn_abort_tombstone_ms)
        else lookup kitchen one_turn.tombstones))
unfolding new enrol lookup insert text_beq
deliver_by_session-after_delivery_example =
    deliver_by_session-after_delivery 7 0 kitchen hello one_turn refl

-- A late `unregister` of a turn that has gone, a delivery too many, and a second registration.
abbrev others : List (ℕ × Call)
others =
    (2, unregisters kitchen second)
    ∷ (3, delivers kitchen hello)
    ∷ (4, delivers kitchen hello)
    ∷ (5, registers second kitchen)
    ∷ []

run-Holds_example :
    Holds kitchen first 0 (run 1 others one_turn)
    × ((now : ℕ) (i : Item) → (deliver_by_session now kitchen i (run 1 others one_turn)).0 ≡ true)
unfolding jota_gateway.OpenClaw.TurnRegistry.Tenure.spares text_beq lookup enrol insert new
run-Holds_example =
    run-Holds kitchen first 0 1 others one_turn (refl, (refl, (refl, (refl, tt))))
      record { owner = refl; queue = refl }

abbrev full_queue : Queue
full_queue = record { maxsize = 1; items = hello ∷ [] }

-- A turn of the agent that the user cuts while its TTS is still connecting.
abbrev speaker : Config
speaker = record {
  push_enabled = true;
  tool_calls_enabled = true;
  output_mode = codes "text" ∷ codes "audio" ∷ [];
  session_key = kitchen;
}

abbrev cut_while_connecting : List Action
cut_while_connecting =
    enqueues (start_event kitchen)
    ∷ enqueues end_event
    ∷ works false false true
    ∷ cuts none
    ∷ goes_on_cut
    ∷ works false false true
    ∷ goes_on_cut
    ∷ works false false true
    ∷ []

run-Tracked_example : Tracked (run_push speaker cut_while_connecting new_push)
run-Tracked_example = run-Tracked speaker cut_while_connecting

run-close_last_example :
    let p = close_last (run_push speaker cut_while_connecting new_push) in
    (last : ℕ) × (follow p.log ≡ some (phase false last))
run-close_last_example = run-close_last speaker cut_while_connecting

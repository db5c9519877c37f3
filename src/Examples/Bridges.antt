-- ===== src/Examples/Bridges.antt =====
-- A client that speaks, replaces its turn and leaves while the second one is slow to stop.
use jota_gateway.Prelude.{
  ◌+◌, ◌≤◌, ◌≡◌, refl, true, false, none, some, List, [], ◌∷◌, length, codes, text, object, field,
  end,
}
use jota_gateway.Bridge.UserTurns.{ends, new_bridge}
use jota_gateway.Bridge.UserTurns.Steps.{
  Action, starts, locks, proceeds, runs, waits_turn, ends_close, run,
}
use jota_gateway.Bridge.UserTurns.Brackets.{starts_in, ends_in, owed}
use jota_gateway.Bridge.UserTurns.Safety.{run-one_turn, run-turn_end}
use jota_gateway.Bridge.UserTurns.Ending.{
  past, after_close, close_all-no_start, close_all-all_ended,
}
use jota_gateway.Bridge.Input.{Config, text_message}
use jota_gateway.Bridge.Input.Messages.{turn_of, wanted, text_message-wanted}

-- A turn is started, and replaced while it runs.
abbrev speaks : List Action
speaks =
    starts (codes "hola")
    ∷ locks
    ∷ proceeds
    ∷ runs 0 true ends
    ∷ starts (codes "no")
    ∷ locks
    ∷ runs 0 true ends
    ∷ proceeds
    ∷ proceeds
    ∷ runs 1 true ends
    ∷ []

run-one_turn_example : length (run speaks new_bridge).live ≤ 1
run-one_turn_example = run-one_turn speaks

run-turn_end_example :
    let b = run speaks new_bridge in
    (starts_in 1 b.log ≤ 1)
    × (ends_in 1 b.log + owed 1 b.active_turn_id b.turn_end_sent_at_close ≡ starts_in 1 b.log)
run-turn_end_example = run-turn_end speaks 1

-- The second turn does not stop within the limit.
abbrev leaves : List Action
leaves = starts (codes "mas") ∷ waits_turn true ∷ ends_close ∷ runs 1 true ends ∷ []

close_all-no_start_example :
    starts_in 2 (after_close speaks none (some (codes "idle_timeout")) true leaves).log
    ≡ starts_in 2 (past speaks).log
unfolding run new_bridge
close_all-no_start_example =
    close_all-no_start speaks leaves none (some (codes "idle_timeout")) true 2 refl

close_all-all_ended_example :
    ends_in 2 (after_close speaks none (some (codes "idle_timeout")) true leaves).log
    ≡ starts_in 2 (past speaks).log
unfolding run new_bridge
close_all-all_ended_example =
    close_all-all_ended speaks leaves none (some (codes "idle_timeout")) true 2 refl refl

abbrev config : Config
config = record {
  text_mode = false;
  has_transcriber = true;
  silence_timeout = 2000;
  watchdog_poll = 2000;
}

text_message-wanted_example :
    turn_of (
      text_message
        (some (
          object (
            field
              (codes "type")
              (text (codes "send"))
              (field (codes "text") (text (codes " hola ")) end))))
        config
        none
        (codes "x"))
    ≡ wanted
        (some (
          object (
            field
              (codes "type")
              (text (codes "send"))
              (field (codes "text") (text (codes " hola ")) end))))
        config
        (codes "x")
text_message-wanted_example =
    text_message-wanted
      (some (
        object (
          field (codes "type") (text (codes "send"))
            (field (codes "text") (text (codes " hola ")) end))))
      config none (codes "x")

-- ===== src/Bridge/UserTurns/Steps.antt =====
-- services/bridge.py: every interleaving of the callers of `_start_turn` and `_cancel_turn`, the tasks of the
-- turns and the closing.
use jota_gateway.Prelude.{ℕ, ◌+◌, Bool, Option, List, [], ◌∷◌, ℕ_eq, Text, Text_eq}
use jota_gateway.Bridge.UserTurns.CloseAll.{note_close_reason, close_all, turn_waited, end_close}
use jota_gateway.Bridge.UserTurns.{
  Bridge, Outcome, cancel_turn, interrupt, phase_of, proceed, run_task, start_turn, take_lock,
}

pub data Action : Type 0 where
  starts : (text : Text) → Action
  cancels locks proceeds interrupts : Action
  runs : (task : ℕ) (is_sent : Bool) → Outcome → Action
  -- A turn of the agent takes the next number.
  push_opens : Action
  notes_reason : Option Text → Action
  closes : (status reason : Option Text) (in_flight : Bool) → Action
  waits_turn : (limit_passed : Bool) → Action
  ends_close : Action

unfoldable pub step : Action → Bridge → Bridge
unfolding start_turn cancel_turn take_lock proceed interrupt phase_of run_task note_close_reason
    close_all turn_waited end_close
step (starts text) b = start_turn text b
step cancels b = cancel_turn b
step locks b = take_lock b.holder b.waiting b
step proceeds b = proceed b.holder b
step interrupts b = interrupt b.holder b
step (runs n is_sent how) b = run_task n is_sent how (phase_of n b.live) b
step push_opens b = record b { turn_seq = b.turn_seq + 1 }
step (notes_reason r) b = note_close_reason r b
step (closes status reason in_flight) b = close_all status reason in_flight b
step (waits_turn limit_passed) b = turn_waited limit_passed b.closer b
step ends_close b = end_close b.closer b

unfoldable pub run : List Action → Bridge → Bridge
unfolding step
run [] b = b
run (a ∷ rest) b = run rest (step a b)

-- ===== src/Bridge/UserTurns/CloseAll.antt =====
-- services/bridge.py: `close_all` as far as the turns of the user and the end of the session go.
use jota_gateway.Prelude.{
  ℕ, Bool, true, false, Option, none, some, List, ◌∷◌, if◌then◌else◌, ◌==◌, ℕ_eq, Text, Text_eq,
  codes,
}
use jota_gateway.Bridge.UserTurns.{
  Bridge, Closer, EndMeta, Task, cancel, cancelling_turn, closed, is_live, not_closing, turn_closed,
  turn_end,
}

-- `a if a is not None else b`.
abbrev pub first_of : {A : Type 0} → Option A → Option A → Option A
first_of (some a) b = some a
first_of none b = b

unfoldable pub note_close_reason : Option Text → Bridge → Bridge
note_close_reason reason b = record b { close_reason = first_of b.close_reason reason }

abbrev pub status_or : Option Text → Option Text → Text
status_or (some status) reason = status
status_or none none = codes "completed"
status_or none (some r) = if r == codes "error" then codes "error" else codes "completed"

abbrev pub cancel_active : Option ℕ → List Task → List Task
cancel_active none live = live
cancel_active (some n) live = cancel n live

-- `close_all` after `_close_lock`, up to its wait for the turn.
unfoldable pub enter_close : Option Text → Closer → Bridge → Bridge
enter_close status not_closing b = record b {
  closer = cancelling_turn (status_or status b.close_reason) b.active_turn;
  live = cancel_active b.active_turn b.live;
}
enter_close status _ b = b

-- `close_all` before `_close_lock`.
unfoldable pub begin_closing : (reason : Option Text) (in_flight : Bool) → Bridge → Bridge
unfolding note_close_reason
begin_closing reason in_flight b = record (note_close_reason reason b) {
  closing = true;
  turn_in_flight_at_close = first_of b.turn_in_flight_at_close (some in_flight);
}

unfoldable pub close_all : (status reason : Option Text) (in_flight : Bool) → Bridge → Bridge
unfolding begin_closing enter_close
close_all status reason in_flight b =
    let c = begin_closing reason in_flight b in enter_close status c.closer c

unfoldable pub end_abandoned : Option ℕ → Bridge → Bridge
end_abandoned none b = b
end_abandoned (some id) b = record b { turn_end_sent_at_close = some id; log = turn_end id ∷ b.log }

-- The wait for the turn ends, when it is done or at the limit.
unfoldable pub turn_waited : (limit_passed : Bool) → Closer → Bridge → Bridge
unfolding is_live end_abandoned
turn_waited limit_passed (cancelling_turn status none) b = record b { closer = turn_closed status }
turn_waited limit_passed (cancelling_turn status (some n)) b =
    if is_live n b.live
    then if limit_passed
      then end_abandoned b.active_turn_id (record b { closer = turn_closed status })
      else b
    else record b { closer = turn_closed status }
turn_waited limit_passed _ b = b

abbrev pub reason_by_status : Text → Text
reason_by_status status =
    if status == codes "revoked"
    then codes "revoked"
    else if status == codes "error"
    then codes "error"
    else codes "unknown"

abbrev pub reason_or : Option Text → Text → Text
reason_or (some r) status = r
reason_or none status = reason_by_status status

abbrev pub was_in_flight : Option Bool → Bool
was_in_flight (some b) = b
was_in_flight none = false

unfoldable pub session_end_meta : Text → Bridge → EndMeta
session_end_meta status b = record {
  status = status;
  reason = reason_or b.close_reason status;
  turn_in_flight = was_in_flight b.turn_in_flight_at_close;
}

-- The rest of `close_all`.
unfoldable pub end_close : Closer → Bridge → Bridge
unfolding session_end_meta
end_close (turn_closed status) b = record b {
  session_ends = session_end_meta status b ∷ b.session_ends;
  closer = closed;
}
end_close _ b = b

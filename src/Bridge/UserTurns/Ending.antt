-- ===== src/Bridge/UserTurns/Ending.antt =====
-- Once `close_all` has been called, no turn starts any more and none is left without its end.
use jota_gateway.Prelude.{
  ℕ, ◌≡◌, refl, sym, ap, subst, ◌∙◌, Bool, true, false, Option, none, some, List, [], ◌∷◌, ◌==◌,
  ℕ_eq, eq_iff, arith, if_both, Text,
}
use jota_gateway.Bridge.UserTurns.{
  Bridge, new_bridge, Task, Closer, not_closing, closed, cancelling_turn, turn_closed, cancel,
}
use jota_gateway.Bridge.UserTurns.Steps.{Action, closes, step, run}
use jota_gateway.Bridge.UserTurns.CloseAll.{
  enter_close, close_all, cancel_active, begin_closing, status_or, note_close_reason,
}
use jota_gateway.Bridge.UserTurns.Brackets.{starts_in, ends_in, owed}
use jota_gateway.Bridge.UserTurns.Lives.{Matches, cancel-Keeps, no_turn, active_only}
use jota_gateway.Bridge.UserTurns.Locks.{Kept, new_bridge-Kept}
use jota_gateway.Bridge.UserTurns.Safety.{run-Kept, step-Kept}
use jota_gateway.Bridge.UserTurns.Shutting.{NoneWaits, Shut, Target, Paid, waits-cancelled}
use jota_gateway.Bridge.UserTurns.Closing.{run-Shut}
use jota_gateway.Bridge.UserTurns.StartFree.{close_all-log, run-NoStart}

cancel_active-NoneWaits :
    (o : Option ℕ) (live : List Task) (i : Option ℕ)
    → Matches live o i
    → NoneWaits (cancel_active o live)
unfolding cancel
cancel_active-NoneWaits none live i m = rw (no_turn live i m) tt
cancel_active-NoneWaits (some n) [] i m = tt
cancel_active-NoneWaits (some n) (t ∷ []) i (p, q) =
    if_both NoneWaits (t.number == n) (λ e. (waits-cancelled t.phase, tt))
      (λ e. ground (arith, e, p, eq_iff t.number n))
cancel_active-NoneWaits (some n) (t ∷ (_ ∷ _)) i m = elim m [ ]

cancel_active-Target :
    (o : Option ℕ) (live : List Task) (i : Option ℕ) (status : Text)
    → Matches live o i
    → Target (cancelling_turn status o) (cancel_active o live)
cancel_active-Target none live i status m = no_turn live i m
cancel_active-Target (some n) live i status m =
    (cancel-Keeps n).same_numbers n live (active_only n live i m)

enter_close-Shut :
    (status : Option Text) (b : Bridge)
    → b.closing ≡ true
    → Kept b
    → Shut (enter_close status not_closing b)
unfolding enter_close
enter_close-Shut status b e k = record {
  is_closing = e;
  none_waits = cancel_active-NoneWaits b.active_turn b.live b.active_turn_id k.one;
  target =
      cancel_active-Target b.active_turn b.live b.active_turn_id (status_or status b.close_reason)
        k.one;
  paid = tt;
}

close_all-Shut :
    (status reason : Option Text) (in_flight : Bool) (b : Bridge)
    → b.closer ≡ not_closing
    → Kept b
    → Shut (close_all status reason in_flight b)
unfolding close_all note_close_reason
close_all-Shut status reason in_flight b e k =
    subst (λ q. Shut (enter_close status q (begin_closing reason in_flight b))) (sym e)
      (enter_close-Shut status (begin_closing reason in_flight b) refl
        record { one = k.one; cleared = k.cleared; counted = k.counted; early = k.early })

-- The `close_all` that closes is done with the turn.
abbrev pub is_over : Closer → Bool
is_over (turn_closed status) = true
is_over closed = true
is_over _ = false

abbrev pub past : List Action → Bridge
past before = run before new_bridge

close_all-Kept :
    (status reason : Option Text) (in_flight : Bool) (b : Bridge)
    → Kept b
    → Kept (close_all status reason in_flight b)
unfolding step
close_all-Kept status reason in_flight b k = step-Kept (closes status reason in_flight) b k

abbrev pub after_close :
    List Action → (status reason : Option Text) (in_flight : Bool) → List Action → Bridge
after_close before status reason in_flight after =
    run after (close_all status reason in_flight (run before new_bridge))

-- G-09: once `close_all` has been called for the first time, no turn starts any more, whatever was
-- in progress and whatever runs after.
pub close_all-no_start :
    (before after : List Action) (status reason : Option Text) (in_flight : Bool) (id : ℕ)
    → (past before).closer ≡ not_closing
    → starts_in id (after_close before status reason in_flight after).log
      ≡ starts_in id (past before).log
close_all-no_start before after status reason in_flight id e =
    let kept = run-Kept before new_bridge new_bridge-Kept in
    run-NoStart after (close_all status reason in_flight (past before))
      (close_all-Kept status reason in_flight (past before) kept)
      (close_all-Shut status reason in_flight (past before) e kept) id
    ∙ ap (starts_in id) (close_all-log status reason in_flight (past before))

nothing_owed :
    (q : Closer) (active sent : Option ℕ) (id : ℕ)
    → is_over q ≡ true
    → Paid q active sent
    → owed id active sent ≡ 0
nothing_owed (turn_closed status) active sent id e p = p id
nothing_owed closed active sent id e p = p id
nothing_owed not_closing active sent id e p = ground (arith, e)
nothing_owed (cancelling_turn status n) active sent id e p = ground (arith, e)

-- When the closing is done with the turn, because the turn is done or because the limit has passed,
-- every turn that was started has had exactly one end; and so it stays.
pub close_all-all_ended :
    (before after : List Action) (status reason : Option Text) (in_flight : Bool) (id : ℕ)
    → (past before).closer ≡ not_closing
    → is_over (after_close before status reason in_flight after).closer ≡ true
    → ends_in id (after_close before status reason in_flight after).log
      ≡ starts_in id (past before).log
close_all-all_ended before after status reason in_flight id e over =
    let kept = run-Kept before new_bridge new_bridge-Kept in
    let entered = close_all-Kept status reason in_flight (past before) kept in
    let c = after_close before status reason in_flight after in
    let shut =
      run-Shut after (close_all status reason in_flight (past before)) entered
        (close_all-Shut status reason in_flight (past before) e kept) in
    let balance =
      ((run-Kept after (close_all status reason in_flight (past before)) entered).counted
        id).balance in
    let paid = nothing_owed c.closer c.active_turn_id c.turn_end_sent_at_close id over shut.paid in
    ground (arith, balance, paid, close_all-no_start before after status reason in_flight id e)

-- ===== src/Bridge/UserTurns/StartFree.antt =====
-- Once a bridge is shut, no turn starts any more.
use jota_gateway.Prelude.{
  ℕ, ◌≡◌, refl, ap, ◌∙◌, Bool, Option, none, some, List, [], ◌∷◌, ℕ_eq, if_both, Text,
}
use jota_gateway.Bridge.UserTurns.{
  Bridge, Phase, created, doomed, running, stopping, Request, start, stop, Holder, free, replacing,
  cutting, cancelling, Closer, not_closing, closed, cancelling_turn, turn_closed, phase_of, is_live,
  is_id, start_turn, cancel_turn, cancel_captured, answer, cancel_and_wait, grant, replace_turn,
  take_lock, release, forget, create_turn, proceed, interrupt, Outcome, ends, client_gone, fails,
  end_turn, run_task,
}
use jota_gateway.Bridge.UserTurns.Steps.{
  Action, starts, cancels, locks, proceeds, interrupts, runs, push_opens, notes_reason, closes,
  waits_turn, ends_close, step, run,
}
use jota_gateway.Bridge.UserTurns.CloseAll.{
  enter_close, close_all, end_abandoned, turn_waited, end_close, begin_closing, note_close_reason,
}
use jota_gateway.Bridge.UserTurns.Brackets.{starts_in}
use jota_gateway.Bridge.UserTurns.Locks.{Kept}
use jota_gateway.Bridge.UserTurns.Safety.{step-Kept}
use jota_gateway.Bridge.UserTurns.Shutting.{Shut}
use jota_gateway.Bridge.UserTurns.Closing.{step-Shut, phase_of-NoneWaits}

SameLog : Bridge → Bridge → Type 0
SameLog b c = c.log ≡ b.log

cancel_captured-log : (o : Option ℕ) (b : Bridge) → SameLog b (cancel_captured o b)
unfolding cancel_captured answer SameLog
cancel_captured-log none b = refl
cancel_captured-log (some n) b = if_both (SameLog b) (is_live n b.live) (λ e. refl) (λ e. refl)

replace_turn-log : (o : Option ℕ) (text : Text) (b : Bridge) → SameLog b (replace_turn o text b)
unfolding replace_turn cancel_and_wait SameLog
replace_turn-log none text b = refl
replace_turn-log (some n) text b = if_both (SameLog b) (is_live n b.live) (λ e. refl) (λ e. refl)

take_lock-log : (h : Holder) (rs : List Request) (b : Bridge) → SameLog b (take_lock h rs b)
unfolding take_lock grant cancel_and_wait answer SameLog
take_lock-log free [] b = refl
take_lock-log free (start text ∷ rs) b =
    if_both (SameLog b) b.closing (λ e. refl)
      (λ e. replace_turn-log b.active_turn text (record b { waiting = rs }))
take_lock-log free (stop n id ∷ rs) b =
    if_both (SameLog b) (is_live n b.live) (λ e. refl) (λ e. refl)
take_lock-log (replacing text n) rs b = refl
take_lock-log (cutting text) rs b = refl
take_lock-log (cancelling n id) rs b = refl

forget-log : (n : ℕ) (b : Bridge) → SameLog b (forget n b)
unfolding forget SameLog
forget-log n b = if_both (SameLog b) (is_id b.active_turn n) (λ e. refl) (λ e. refl)

proceed-log : (h : Holder) (b : Bridge) → SameLog b (proceed h b)
unfolding proceed release create_turn SameLog
proceed-log free b = refl
proceed-log (replacing text n) b =
    if_both (SameLog b) (is_live n b.live) (λ e. refl)
      (λ e. if_both (SameLog b) b.interrupted (λ i. forget-log n b) (λ i. forget-log n b))
proceed-log (cutting text) b =
    if_both (SameLog b) b.interrupted (λ e. refl)
      (λ e. if_both (SameLog b) b.closing (λ e. refl) (λ e. refl))
proceed-log (cancelling n id) b =
    if_both (SameLog b) (is_live n b.live) (λ e. refl)
      (λ e. if_both (SameLog b) b.interrupted (λ i. forget-log n b) (λ i. forget-log n b))

interrupt-log : (h : Holder) (b : Bridge) → SameLog b (interrupt h b)
unfolding interrupt SameLog
interrupt-log free b = refl
interrupt-log (replacing text n) b = refl
interrupt-log (cutting text) b = refl
interrupt-log (cancelling n id) b = refl

enter_close-log :
    (status : Option Text) (q : Closer) (b : Bridge) → SameLog b (enter_close status q b)
unfolding enter_close SameLog
enter_close-log status not_closing b = refl
enter_close-log status closed b = refl
enter_close-log status (cancelling_turn st n) b = refl
enter_close-log status (turn_closed st) b = refl

pub close_all-log :
    (status reason : Option Text) (in_flight : Bool) (b : Bridge)
    → (close_all status reason in_flight b).log ≡ b.log
unfolding close_all begin_closing note_close_reason SameLog
close_all-log status reason in_flight b =
    enter_close-log status b.closer (begin_closing reason in_flight b)

end_close-log : (q : Closer) (b : Bridge) → SameLog b (end_close q b)
unfolding end_close SameLog
end_close-log not_closing b = refl
end_close-log closed b = refl
end_close-log (cancelling_turn st n) b = refl
end_close-log (turn_closed st) b = refl

-- No turn starts.
abbrev pub NoStart : Bridge → Bridge → Type 0
NoStart b c = (id : ℕ) → starts_in id c.log ≡ starts_in id b.log

end_turn-NoStart : (n j : ℕ) (how : Outcome) (b : Bridge) → NoStart b (end_turn n j how b)
unfolding end_turn starts_in
end_turn-NoStart n j ends b id =
    if_both (λ l. starts_in id l ≡ starts_in id b.log) (is_id b.turn_end_sent_at_close j)
      (λ e. refl) (λ e. refl)
end_turn-NoStart n j client_gone b id =
    if_both (λ l. starts_in id l ≡ starts_in id b.log) (is_id b.turn_end_sent_at_close j)
      (λ e. refl) (λ e. refl)
end_turn-NoStart n j fails b id =
    if_both (λ l. starts_in id l ≡ starts_in id b.log) (is_id b.turn_end_sent_at_close j)
      (λ e. refl) (λ e. refl)

run_task-NoStart :
    (n : ℕ) (is_sent : Bool) (how : Outcome) (o : Option Phase) (b : Bridge)
    → phase_of n b.live ≡ o
    → Shut b
    → NoStart b (run_task n is_sent how o b)
unfolding run_task
run_task-NoStart n is_sent how none b e s id = refl
run_task-NoStart n is_sent how (some created) b e s id =
    elim (phase_of-NoneWaits n b.live s.none_waits e) [ ]
run_task-NoStart n is_sent how (some doomed) b e s id = refl
run_task-NoStart n is_sent how (some (running j)) b e s id = end_turn-NoStart n j how b id
run_task-NoStart n is_sent how (some (stopping j)) b e s id = end_turn-NoStart n j how b id

end_abandoned-NoStart : (o : Option ℕ) (b : Bridge) → NoStart b (end_abandoned o b)
unfolding end_abandoned starts_in
end_abandoned-NoStart none b id = refl
end_abandoned-NoStart (some j) b id = refl

turn_waited-NoStart :
    (limit_passed : Bool) (q : Closer) (b : Bridge) → NoStart b (turn_waited limit_passed q b)
unfolding turn_waited
turn_waited-NoStart limit_passed (cancelling_turn status none) b id = refl
turn_waited-NoStart limit_passed (cancelling_turn status (some n)) b id =
    if_both (λ (c : Bridge). starts_in id c.log ≡ starts_in id b.log) (is_live n b.live)
      (λ alive.
        if_both (λ (c : Bridge). starts_in id c.log ≡ starts_in id b.log) limit_passed
          (λ p.
            end_abandoned-NoStart b.active_turn_id (record b { closer = turn_closed status }) id)
          (λ p. refl))
      (λ gone. refl)
turn_waited-NoStart limit_passed not_closing b id = refl
turn_waited-NoStart limit_passed closed b id = refl
turn_waited-NoStart limit_passed (turn_closed status) b id = refl

same_log : (b c : Bridge) → SameLog b c → NoStart b c
unfolding SameLog
same_log b c e id = ap (starts_in id) e

step-NoStart : (a : Action) (b : Bridge) → Shut b → NoStart b (step a b)
unfolding step start_turn cancel_turn note_close_reason
step-NoStart (starts text) b s id =
    if_both (λ (c : Bridge). starts_in id c.log ≡ starts_in id b.log) b.closing (λ e. refl)
      (λ e. refl)
step-NoStart cancels b s id = same_log b _ (cancel_captured-log b.active_turn b) id
step-NoStart locks b s id = same_log b _ (take_lock-log b.holder b.waiting b) id
step-NoStart proceeds b s id = same_log b _ (proceed-log b.holder b) id
step-NoStart interrupts b s id = same_log b _ (interrupt-log b.holder b) id
step-NoStart (runs n is_sent how) b s id =
    run_task-NoStart n is_sent how (phase_of n b.live) b refl s id
step-NoStart push_opens b s id = refl
step-NoStart (notes_reason r) b s id = refl
step-NoStart (closes status reason in_flight) b s id =
    ap (starts_in id) (close_all-log status reason in_flight b)
step-NoStart (waits_turn limit_passed) b s id = turn_waited-NoStart limit_passed b.closer b id
step-NoStart ends_close b s id = same_log b _ (end_close-log b.closer b) id

pub run-NoStart : (acts : List Action) (b : Bridge) → Kept b → Shut b → NoStart b (run acts b)
unfolding run
run-NoStart [] b k s id = refl
run-NoStart (a ∷ acts) b k s id =
    run-NoStart acts (step a b) (step-Kept a b k) (step-Shut a b k s) id ∙ step-NoStart a b s id

-- ===== src/Bridge/UserTurns/Closing.antt =====
-- Once `close_all` has been called: no turn starts any more, none is left without its end, and the
-- session ends once.
use jota_gateway.Prelude.{
  ℕ, ◌≡◌, refl, ap, subst, ◌∙◌, Bool, false, Option, none, some, List, [], ◌∷◌, if◌then◌else◌, ◌==◌,
  ℕ_eq, arith, if_both, Text, inl, inr, Bool-cases,
}
use jota_gateway.Bridge.UserTurns.{
  Bridge, Task, Phase, created, doomed, running, stopping, Closer, not_closing, closed,
  cancelling_turn, turn_closed, phase_of, is_live, is_id, start_turn, cancel_turn, Outcome,
  end_turn, run_task,
}
use jota_gateway.Bridge.UserTurns.Steps.{
  Action, starts, cancels, locks, proceeds, interrupts, runs, push_opens, notes_reason, closes,
  waits_turn, ends_close, step, run,
}
use jota_gateway.Bridge.UserTurns.CloseAll.{
  enter_close, begin_closing, close_all, end_abandoned, turn_waited, end_close, note_close_reason,
}
use jota_gateway.Bridge.UserTurns.Brackets.{owed}
use jota_gateway.Bridge.UserTurns.Lives.{Matches, replaced}
use jota_gateway.Bridge.UserTurns.Locks.{Kept}
use jota_gateway.Bridge.UserTurns.Safety.{step-Kept}
use jota_gateway.Bridge.UserTurns.Shutting.{
  waits, NoneWaits, Target, Paid, Shut, quiet, remove-Shut, cancel_captured-Shut, take_lock-Shut,
  proceed-Shut, interrupt-Shut,
}

waits_some : Option Phase → Bool
waits_some none = false
waits_some (some p) = waits p

pub phase_of-NoneWaits :
    (n : ℕ) (live : List Task) → NoneWaits live → phase_of n live ≡ some created → ⊥
unfolding phase_of waits_some
phase_of-NoneWaits n [] w e = ground (arith, e)
phase_of-NoneWaits n (t ∷ ts) (v, w) e = elim (Bool-cases (t.number == n)) [
  | inl same ↦ ground (arith, v, ap waits_some e, same)
  | inr other ↦ phase_of-NoneWaits n ts w (ground (arith, e, other))
]

-- The end of a turn pays what it owed.
Paid-end :
    (q : Closer) (id : ℕ) (active sent : Option ℕ)
    → Paid q active sent
    → Paid q (if is_id active id then none else active) sent
Paid-end not_closing id active sent p = tt
Paid-end (cancelling_turn status n) id active sent p = tt
Paid-end (turn_closed status) id active sent p =
    if_both (λ a. (j : ℕ) → owed j a sent ≡ 0) (is_id active id) (λ e j. refl) (λ e. p)
Paid-end closed id active sent p =
    if_both (λ a. (j : ℕ) → owed j a sent ≡ 0) (is_id active id) (λ e j. refl) (λ e. p)

end_turn-Shut : (n id : ℕ) (how : Outcome) (b : Bridge) → Shut b → Shut (end_turn n id how b)
unfolding end_turn
end_turn-Shut n id how b s =
    let r = remove-Shut n b s in
    record {
      is_closing = s.is_closing;
      none_waits = r.none_waits;
      target = r.target;
      paid = Paid-end b.closer id b.active_turn_id b.turn_end_sent_at_close s.paid;
    }

run_task-Shut :
    (n : ℕ) (is_sent : Bool) (how : Outcome) (o : Option Phase) (b : Bridge)
    → phase_of n b.live ≡ o
    → Shut b
    → Shut (run_task n is_sent how o b)
unfolding run_task
run_task-Shut n is_sent how none b e s = s
run_task-Shut n is_sent how (some created) b e s =
    elim (phase_of-NoneWaits n b.live s.none_waits e) [ ]
run_task-Shut n is_sent how (some doomed) b e s = remove-Shut n b s
run_task-Shut n is_sent how (some (running id)) b e s = end_turn-Shut n id how b s
run_task-Shut n is_sent how (some (stopping id)) b e s = end_turn-Shut n id how b s

-- The wait for the turn is over and nothing is owed.
turn_over :
    (status : Text) (b : Bridge)
    → ((id : ℕ) → owed id b.active_turn_id b.turn_end_sent_at_close ≡ 0)
    → Shut b
    → Shut (record b { closer = turn_closed status })
turn_over status b p s = record {
  is_closing = s.is_closing;
  none_waits = s.none_waits;
  target = tt;
  paid = p;
}

no_task :
    (b : Bridge)
    → b.live ≡ []
    → Kept b
    → (id : ℕ) → owed id b.active_turn_id b.turn_end_sent_at_close ≡ 0
no_task b e k id =
    ap (λ a. owed id a b.turn_end_sent_at_close)
      (subst (λ l. Matches l b.active_turn b.active_turn_id) e k.one)

self : (j id : ℕ) → owed id (some j) (some j) ≡ 0
self j id = ground arith

end_abandoned-Shut :
    (o : Option ℕ) (status : Text) (b : Bridge)
    → b.active_turn_id ≡ o
    → Shut b
    → Shut (end_abandoned o (record b { closer = turn_closed status }))
unfolding end_abandoned
end_abandoned-Shut none status b e s =
    turn_over status b (λ id. ap (λ a. owed id a b.turn_end_sent_at_close) e) s
end_abandoned-Shut (some j) status b e s = record {
  is_closing = s.is_closing;
  none_waits = s.none_waits;
  target = tt;
  paid = λ id. ap (λ a. owed id a (some j)) e ∙ self j id;
}

turn_waited-Shut :
    (limit_passed : Bool) (q : Closer) (b : Bridge)
    → b.closer ≡ q
    → Kept b
    → Shut b
    → Shut (turn_waited limit_passed q b)
unfolding turn_waited
turn_waited-Shut limit_passed (cancelling_turn status none) b e k s =
    turn_over status b (no_task b (subst (λ q. Target q b.live) e s.target) k) s
turn_waited-Shut limit_passed (cancelling_turn status (some n)) b e k s =
    if_both Shut (is_live n b.live)
      (λ alive.
        if_both Shut limit_passed (λ p. end_abandoned-Shut b.active_turn_id status b refl s)
          (λ p. s))
      (λ gone.
        turn_over status b
          (no_task b (replaced n b.live (subst (λ q. Target q b.live) e s.target) gone) k) s)
turn_waited-Shut limit_passed not_closing b e k s = s
turn_waited-Shut limit_passed closed b e k s = s
turn_waited-Shut limit_passed (turn_closed status) b e k s = s

end_close-Shut : (q : Closer) (b : Bridge) → b.closer ≡ q → Shut b → Shut (end_close q b)
unfolding end_close
end_close-Shut (turn_closed status) b e s = record {
  is_closing = s.is_closing;
  none_waits = s.none_waits;
  target = tt;
  paid = subst (λ q. Paid q b.active_turn_id b.turn_end_sent_at_close) e s.paid;
}
end_close-Shut not_closing b e s = s
end_close-Shut closed b e s = s
end_close-Shut (cancelling_turn status n) b e s = s

enter_close-Shut :
    (status : Option Text) (q : Closer) (b : Bridge)
    → b.closer ≡ q
    → Shut b
    → Shut (enter_close status q b)
unfolding enter_close
enter_close-Shut status not_closing b e s = elim (subst (λ q. Target q b.live) e s.target) [ ]
enter_close-Shut status closed b e s = s
enter_close-Shut status (cancelling_turn st n) b e s = s
enter_close-Shut status (turn_closed st) b e s = s

pub step-Shut : (a : Action) (b : Bridge) → Kept b → Shut b → Shut (step a b)
unfolding step start_turn cancel_turn note_close_reason close_all begin_closing
step-Shut (starts text) b k s =
    if_both Shut b.closing (λ c. s) (λ c. quiet {b = b} refl refl refl refl refl s)
step-Shut cancels b k s = cancel_captured-Shut b.active_turn b s
step-Shut locks b k s = take_lock-Shut b.holder b.waiting b s
step-Shut proceeds b k s = proceed-Shut b.holder b s
step-Shut interrupts b k s = interrupt-Shut b.holder b s
step-Shut (runs n is_sent how) b k s = run_task-Shut n is_sent how (phase_of n b.live) b refl s
step-Shut push_opens b k s = quiet {b = b} refl refl refl refl refl s
step-Shut (notes_reason r) b k s = quiet {b = b} refl refl refl refl refl s
step-Shut (closes status reason in_flight) b k s =
    enter_close-Shut status b.closer (begin_closing reason in_flight b) refl
      record { is_closing = refl; none_waits = s.none_waits; target = s.target; paid = s.paid }
step-Shut (waits_turn limit_passed) b k s = turn_waited-Shut limit_passed b.closer b refl k s
step-Shut ends_close b k s = end_close-Shut b.closer b refl s

pub run-Shut : (acts : List Action) (b : Bridge) → Kept b → Shut b → Shut (run acts b)
unfolding run
run-Shut [] b k s = s
run-Shut (a ∷ acts) b k s = run-Shut acts (step a b) (step-Kept a b k) (step-Shut a b k s)

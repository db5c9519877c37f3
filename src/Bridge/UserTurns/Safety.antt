-- ===== src/Bridge/UserTurns/Safety.antt =====
-- The turns of the user through every interleaving of the callers, the tasks and the closing.
use jota_gateway.Prelude.{
  ℕ, ◌+◌, ◌≤◌, ◌≡◌, refl, sym, ap, subst, eq_refl, Bool, Option, none, some, List, [], ◌∷◌,
  if◌then◌else◌, ℕ_eq, arith, if_both, Text, length,
}
use jota_gateway.Bridge.UserTurns.{
  Bridge, turn_end, new_bridge, Task, Phase, created, doomed, running, stopping, Holder, Closer,
  not_closing, closed, cancelling_turn, turn_closed, remove, phase_of, is_live, is_id, start_turn,
  cancel_turn, cancel_captured, begin_turn, Outcome, end_turn, run_task,
}
use jota_gateway.Bridge.UserTurns.Steps.{
  Action, starts, cancels, locks, proceeds, interrupts, runs, push_opens, notes_reason, closes,
  waits_turn, ends_close, step, run,
}
use jota_gateway.Bridge.UserTurns.CloseAll.{
  enter_close, begin_closing, close_all, end_abandoned, turn_waited, end_close, cancel_active,
  note_close_reason,
}
use jota_gateway.Bridge.UserTurns.Brackets.{
  starts_in, ends_in, owed, Counted, Counted-begin, Counted-skip, Counted-end, Counted-abandon,
}
use jota_gateway.Bridge.UserTurns.Lives.{
  Matches, Cleared, cancel-Matches, cancel-Cleared, remove-Cleared, set_phase-Cleared,
  Matches-found,
}
use jota_gateway.Bridge.UserTurns.Locks.{
  Kept, Early, new_bridge-Kept, take_lock-Kept, proceed-Kept, interrupt-Kept,
}

end_turn-Kept :
    (n id : ℕ) (how : Outcome) (b : Bridge)
    → b.active_turn_id ≡ some id
    → remove n b.live ≡ []
    → Kept b
    → Kept (end_turn n id how b)
unfolding end_turn
end_turn-Kept n id how b e r k = record {
  one = rw (r, cleared_id) refl;
  cleared = remove-Cleared n b.holder b.live k.cleared;
  counted = λ j.
      subst (λ a. Counted j (end_turn n id how b).log b.turn_seq a b.turn_end_sent_at_close)
        (sym cleared_id)
        (Counted-end j b.log b.turn_seq how id b.turn_end_sent_at_close
          (subst (λ a. Counted j b.log b.turn_seq a b.turn_end_sent_at_close) e (k.counted j)));
  early = k.early;
}
  where
    cleared_id : (if is_id b.active_turn_id id then none else b.active_turn_id) ≡ none
    cleared_id = rw (e, eq_refl id) refl

run_task-Kept :
    (n : ℕ) (is_sent : Bool) (how : Outcome) (o : Option Phase) (b : Bridge)
    → phase_of n b.live ≡ o
    → Kept b
    → Kept (run_task n is_sent how o b)
unfolding run_task begin_turn
run_task-Kept n is_sent how none b e k = k
run_task-Kept n is_sent how (some created) b e k =
    let (idle, gone, phased) = Matches-found n created b.live _ _ e k.one in
    if_both Kept is_sent
      (λ s. record {
        one = phased (running (b.turn_seq + 1));
        cleared = set_phase-Cleared n _ b.holder b.live k.cleared;
        counted = λ j.
            Counted-begin j b.log b.turn_seq _ b.turn_end_sent_at_close (
              subst (λ a. Counted j b.log b.turn_seq a b.turn_end_sent_at_close) idle
                (k.counted j));
        early = k.early;
      })
      (λ s. record {
        one = rw (gone, idle) refl;
        cleared = remove-Cleared n b.holder b.live k.cleared;
        counted = λ j. Counted-skip j b.log b.turn_seq _ _ (k.counted j);
        early = k.early;
      })
run_task-Kept n is_sent how (some doomed) b e k =
    let (idle, gone, phased) = Matches-found n doomed b.live _ _ e k.one in
    record {
      one = rw (gone, idle) refl;
      cleared = remove-Cleared n b.holder b.live k.cleared;
      counted = k.counted;
      early = k.early;
    }
run_task-Kept n is_sent how (some (running id)) b e k =
    let (active, gone, phased) = Matches-found n (running id) b.live _ _ e k.one in
    end_turn-Kept n id how b active gone k
run_task-Kept n is_sent how (some (stopping id)) b e k =
    let (active, gone, phased) = Matches-found n (stopping id) b.live _ _ e k.one in
    end_turn-Kept n id how b active gone k

cancel_active-Matches :
    (o : Option ℕ) (live : List Task) (a i : Option ℕ)
    → Matches live a i
    → Matches (cancel_active o live) a i
cancel_active-Matches none live a i m = m
cancel_active-Matches (some n) live a i m = cancel-Matches n live a i m

cancel_active-Cleared :
    (o : Option ℕ) (h : Holder) (live : List Task)
    → Cleared h live
    → Cleared h (cancel_active o live)
cancel_active-Cleared none h live c = c
cancel_active-Cleared (some n) h live c = cancel-Cleared n h live c

enter_close-Kept :
    (status : Option Text) (q : Closer) (b : Bridge)
    → b.closer ≡ q
    → Kept b
    → Kept (enter_close status q b)
unfolding enter_close
enter_close-Kept status not_closing b e k = record {
  one = cancel_active-Matches b.active_turn b.live _ _ k.one;
  cleared = cancel_active-Cleared b.active_turn b.holder b.live k.cleared;
  counted = k.counted;
  early = subst (λ q. Early q b.turn_end_sent_at_close) e k.early;
}
enter_close-Kept status closed b e k = k
enter_close-Kept status (cancelling_turn st n) b e k = k
enter_close-Kept status (turn_closed st) b e k = k

turn_closed-Kept :
    (status : Text) (b : Bridge) → Kept b → Kept (record b { closer = turn_closed status })
turn_closed-Kept status b k = record {
  one = k.one;
  cleared = k.cleared;
  counted = k.counted;
  early = tt;
}

end_abandoned-Kept :
    (o : Option ℕ) (status : Text) (b : Bridge)
    → b.active_turn_id ≡ o
    → b.turn_end_sent_at_close ≡ none
    → Kept b
    → Kept (end_abandoned o (record b { closer = turn_closed status }))
unfolding end_abandoned
end_abandoned-Kept none status b e none_sent k = turn_closed-Kept status b k
end_abandoned-Kept (some id) status b e none_sent k = record {
  one = k.one;
  cleared = k.cleared;
  counted = λ j.
      subst (λ a. Counted j (turn_end id ∷ b.log) b.turn_seq a (some id)) (sym e)
        (Counted-abandon j b.log b.turn_seq id (
          subst (λ a. Counted j b.log b.turn_seq a none) e
            (subst (λ s. Counted j b.log b.turn_seq b.active_turn_id s) none_sent (k.counted j))));
  early = tt;
}

turn_waited-Kept :
    (limit_passed : Bool) (q : Closer) (b : Bridge)
    → b.closer ≡ q
    → Kept b
    → Kept (turn_waited limit_passed q b)
unfolding turn_waited
turn_waited-Kept limit_passed (cancelling_turn status none) b e k = turn_closed-Kept status b k
turn_waited-Kept limit_passed (cancelling_turn status (some n)) b e k =
    if_both Kept (is_live n b.live)
      (λ alive.
        if_both Kept limit_passed
          (λ p.
            end_abandoned-Kept b.active_turn_id status b refl
              (subst (λ q. Early q b.turn_end_sent_at_close) e k.early) k)
          (λ p. k))
      (λ gone. turn_closed-Kept status b k)
turn_waited-Kept limit_passed not_closing b e k = k
turn_waited-Kept limit_passed closed b e k = k
turn_waited-Kept limit_passed (turn_closed status) b e k = k

end_close-Kept : (q : Closer) (b : Bridge) → Kept b → Kept (end_close q b)
unfolding end_close
end_close-Kept (turn_closed status) b k = record {
  one = k.one;
  cleared = k.cleared;
  counted = k.counted;
  early = tt;
}
end_close-Kept not_closing b k = k
end_close-Kept closed b k = k
end_close-Kept (cancelling_turn status n) b k = k

cancel_captured-Kept : (o : Option ℕ) (b : Bridge) → Kept b → Kept (cancel_captured o b)
unfolding cancel_captured
cancel_captured-Kept none b k = record {
  one = k.one;
  cleared = k.cleared;
  counted = k.counted;
  early = k.early;
}
cancel_captured-Kept (some n) b k =
    if_both Kept (is_live n b.live)
      (λ e. record { one = k.one; cleared = k.cleared; counted = k.counted; early = k.early })
      (λ e. record { one = k.one; cleared = k.cleared; counted = k.counted; early = k.early })

pub step-Kept : (a : Action) (b : Bridge) → Kept b → Kept (step a b)
unfolding step start_turn cancel_turn note_close_reason close_all begin_closing
step-Kept (starts text) b k =
    if_both Kept b.closing (λ c. k)
      (λ c. record { one = k.one; cleared = k.cleared; counted = k.counted; early = k.early })
step-Kept cancels b k = cancel_captured-Kept b.active_turn b k
step-Kept locks b k = take_lock-Kept b.holder b.waiting b k
step-Kept proceeds b k = proceed-Kept b.holder b refl k
step-Kept interrupts b k = interrupt-Kept b.holder b k
step-Kept (runs n is_sent how) b k = run_task-Kept n is_sent how (phase_of n b.live) b refl k
step-Kept push_opens b k = record {
  one = k.one;
  cleared = k.cleared;
  counted = λ j. Counted-skip j b.log b.turn_seq _ _ (k.counted j);
  early = k.early;
}
step-Kept (notes_reason r) b k = record {
  one = k.one;
  cleared = k.cleared;
  counted = k.counted;
  early = k.early;
}
step-Kept (closes status reason in_flight) b k =
    enter_close-Kept status b.closer (begin_closing reason in_flight b) refl
      record { one = k.one; cleared = k.cleared; counted = k.counted; early = k.early }
step-Kept (waits_turn limit_passed) b k = turn_waited-Kept limit_passed b.closer b refl k
step-Kept ends_close b k = end_close-Kept b.closer b k

pub run-Kept : (acts : List Action) (b : Bridge) → Kept b → Kept (run acts b)
unfolding run
run-Kept [] b k = k
run-Kept (a ∷ acts) b k = run-Kept acts (step a b) (step-Kept a b k)

one_task : (live : List Task) (a i : Option ℕ) → Matches live a i → length live ≤ 1
one_task [] a i m = omega arith
one_task (t ∷ []) a i m = omega arith
one_task (t ∷ (_ ∷ _)) a i m = elim m [ ]

-- G-08: however the calls of `_start_turn`, `_cancel_turn` and `close_all`, the tasks and their
-- cancellations interleave, at most one task of a turn is not done.
pub run-one_turn : (acts : List Action) → length (run acts new_bridge).live ≤ 1
run-one_turn acts = one_task _ _ _ (run-Kept acts new_bridge new_bridge-Kept).one

-- G-10: however they interleave, each turn is started at most once, and has had exactly as many ends
-- as starts; but the turn in `_active_turn_id` still owes its end, unless the closing has sent it.
pub run-turn_end :
    (acts : List Action) (id : ℕ)
    → let b = run acts new_bridge in
      (starts_in id b.log ≤ 1)
      × (ends_in id b.log + owed id b.active_turn_id b.turn_end_sent_at_close ≡ starts_in id b.log)
run-turn_end acts id =
    let c = (run-Kept acts new_bridge new_bridge-Kept).counted id in (c.once, c.balance)

-- When no task of a turn is left, every turn that was started has had exactly one end.
pub run-all_ended :
    (acts : List Action) (id : ℕ)
    → (run acts new_bridge).live ≡ []
    → ends_in id (run acts new_bridge).log ≡ starts_in id (run acts new_bridge).log
run-all_ended acts id e =
    let k = run-Kept acts new_bridge new_bridge-Kept in
    let c = k.counted id in
    let none_active : (run acts new_bridge).active_turn_id ≡ none =
      subst (λ l. Matches l (run acts new_bridge).active_turn (run acts new_bridge).active_turn_id)
        e k.one in
    ground (
      arith,
      c.balance,
      ap (λ a. owed id a (run acts new_bridge).turn_end_sent_at_close) none_active,
    )

-- ===== src/Bridge/UserTurns/Shutting.antt =====
-- What is kept true of the turns of the user once `close_all` has been called, and that those who take
-- `_turn_lock` keep it.
use jota_gateway.Prelude.{
  ℕ, ◌≡◌, refl, sym, subst, ◌∙◌, Bool, true, false, Option, none, some, List, [], ◌∷◌, ◌==◌, ℕ_eq,
  arith, if_both, All,
}
use jota_gateway.Bridge.UserTurns.{
  Bridge, Task, Phase, created, doomed, running, stopping, Request, start, stop, Holder, free,
  replacing, cutting, cancelling, Closer, not_closing, closed, cancelling_turn, turn_closed, cancel,
  remove, is_live, is_id, cancel_captured, answer, cancel_and_wait, grant, take_lock, release,
  forget, cancelled, proceed, interrupt,
}
use jota_gateway.Bridge.UserTurns.Brackets.{owed}
use jota_gateway.Bridge.UserTurns.Lives.{Keeps, cancel-Keeps, remove-Keeps}

abbrev pub waits : Phase → Bool
waits created = true
waits _ = false

-- No task is left that could start a turn.
abbrev pub NoneWaits : List Task → Type 0
NoneWaits live = All (λ t. waits t.phase ≡ false) live

-- The task that the closing waits for is the only one.
abbrev pub Target : Closer → List Task → Type 0
Target not_closing live = ⊥
Target (cancelling_turn status none) live = live ≡ []
Target (cancelling_turn status (some n)) live = All (λ t. t.number ≡ n) live
Target _ live = Unit {0}

abbrev pub Paid : Closer → (active sent : Option ℕ) → Type 0
Paid (turn_closed status) active sent = (id : ℕ) → owed id active sent ≡ 0
Paid closed active sent = (id : ℕ) → owed id active sent ≡ 0
Paid _ active sent = Unit {0}

pub record Shut (b : Bridge) : Type 0 where
  pub is_closing : b.closing ≡ true
  pub none_waits : NoneWaits b.live
  pub target : Target b.closer b.live
  pub paid : Paid b.closer b.active_turn_id b.turn_end_sent_at_close

Keeps-Target :
    (f : List Task → List Task)
    → Keeps f
    → (q : Closer) (live : List Task) → Target q live
    → Target q (f live)
Keeps-Target f k not_closing live t = t
Keeps-Target f k (cancelling_turn status none) live t = rw t k.no_more
Keeps-Target f k (cancelling_turn status (some n)) live t = k.same_numbers n live t
Keeps-Target f k (turn_closed status) live t = tt
Keeps-Target f k closed live t = tt

pub waits-cancelled : (ph : Phase) → waits (cancelled ph) ≡ false
waits-cancelled created = refl
waits-cancelled doomed = refl
waits-cancelled (running id) = refl
waits-cancelled (stopping id) = refl

pub cancel-NoneWaits : (n : ℕ) (live : List Task) → NoneWaits live → NoneWaits (cancel n live)
unfolding cancel
cancel-NoneWaits n [] w = w
cancel-NoneWaits n (t ∷ ts) (e, w) =
    if_both NoneWaits (t.number == n) (λ s. (waits-cancelled t.phase, w))
      (λ s. (e, cancel-NoneWaits n ts w))

remove-NoneWaits : (n : ℕ) (live : List Task) → NoneWaits live → NoneWaits (remove n live)
unfolding remove
remove-NoneWaits n [] w = w
remove-NoneWaits n (t ∷ ts) (e, w) =
    if_both NoneWaits (t.number == n) (λ s. w) (λ s. (e, remove-NoneWaits n ts w))

cancel_and_wait-Shut : (h : Holder) (n : ℕ) (b : Bridge) → Shut b → Shut (cancel_and_wait h n b)
unfolding cancel_and_wait
cancel_and_wait-Shut h n b s = record {
  is_closing = s.is_closing;
  none_waits = cancel-NoneWaits n b.live s.none_waits;
  target = Keeps-Target (cancel n) (cancel-Keeps n) b.closer b.live s.target;
  paid = s.paid;
}

pub remove-Shut : (n : ℕ) (b : Bridge) → Shut b → Shut (record b { live = remove n b.live })
remove-Shut n b s = record {
  is_closing = s.is_closing;
  none_waits = remove-NoneWaits n b.live s.none_waits;
  target = Keeps-Target (remove n) (remove-Keeps n) b.closer b.live s.target;
  paid = s.paid;
}

-- Nothing matters but the tasks, the closing and what a turn owes.
pub quiet :
    {b c : Bridge}
    → c.closing ≡ b.closing
    → c.live ≡ b.live
    → c.closer ≡ b.closer
    → c.active_turn_id ≡ b.active_turn_id
    → c.turn_end_sent_at_close ≡ b.turn_end_sent_at_close
    → Shut b
    → Shut c
quiet {b} {c} p l q a e s = record {
  is_closing = p ∙ s.is_closing;
  none_waits = subst NoneWaits (sym l) s.none_waits;
  target = rw (q, l) s.target;
  paid = rw (q, a, e) s.paid;
}

pub cancel_captured-Shut : (o : Option ℕ) (b : Bridge) → Shut b → Shut (cancel_captured o b)
unfolding cancel_captured answer
cancel_captured-Shut none b s = quiet refl refl refl refl refl s
cancel_captured-Shut (some n) b s =
    if_both Shut (is_live n b.live) (λ e. quiet refl refl refl refl refl s)
      (λ e. quiet refl refl refl refl refl s)

pub take_lock-Shut :
    (h : Holder) (rs : List Request) (b : Bridge) → Shut b → Shut (take_lock h rs b)
unfolding take_lock grant answer
take_lock-Shut free [] b s = s
take_lock-Shut free (start text ∷ rs) b s =
    if_both Shut b.closing (λ c. quiet {b = b} refl refl refl refl refl s)
      (λ c. ground (arith, c, s.is_closing))
take_lock-Shut free (stop n id ∷ rs) b s =
    if_both Shut (is_live n b.live)
      (λ e.
        cancel_and_wait-Shut (cancelling n id) n (record b { waiting = rs })
          (quiet {b = b} refl refl refl refl refl s))
      (λ e. quiet {b = b} refl refl refl refl refl s)
take_lock-Shut (replacing text n) rs b s = s
take_lock-Shut (cutting text) rs b s = s
take_lock-Shut (cancelling n id) rs b s = s

forget-Shut : (n : ℕ) (b : Bridge) → Shut b → Shut (forget n b)
unfolding forget
forget-Shut n b s =
    if_both Shut (is_id b.active_turn n) (λ e. quiet {b = b} refl refl refl refl refl s) (λ e. s)

pub proceed-Shut : (h : Holder) (b : Bridge) → Shut b → Shut (proceed h b)
unfolding proceed release
proceed-Shut free b s = s
proceed-Shut (replacing text n) b s =
    if_both Shut (is_live n b.live) (λ e. s)
      (λ e.
        let f = forget-Shut n b s in
        if_both Shut b.interrupted (λ i. quiet {b = forget n b} refl refl refl refl refl f)
          (λ i. quiet {b = forget n b} refl refl refl refl refl f))
proceed-Shut (cutting text) b s =
    if_both Shut b.interrupted (λ i. quiet {b = b} refl refl refl refl refl s)
      (λ i.
        if_both Shut b.closing (λ c. quiet {b = b} refl refl refl refl refl s)
          (λ c. ground (arith, c, s.is_closing)))
proceed-Shut (cancelling n id) b s =
    if_both Shut (is_live n b.live) (λ e. s)
      (λ e.
        let f = forget-Shut n b s in
        if_both Shut b.interrupted (λ i. quiet {b = forget n b} refl refl refl refl refl f)
          (λ i. quiet {b = forget n b} refl refl refl refl refl f))

pub interrupt-Shut : (h : Holder) (b : Bridge) → Shut b → Shut (interrupt h b)
unfolding interrupt
interrupt-Shut free b s = s
interrupt-Shut (replacing text n) b s = quiet {b = b} refl refl refl refl refl s
interrupt-Shut (cutting text) b s = quiet {b = b} refl refl refl refl refl s
interrupt-Shut (cancelling n id) b s = quiet {b = b} refl refl refl refl refl s

-- ===== src/Bridge/UserTurns/Locks.antt =====
-- What is kept true of the turns of the user, and that those who take `_turn_lock` keep it.
use jota_gateway.Prelude.{
  ℕ, ◌≡◌, refl, sym, subst, ◌∙◌, false, Option, none, some, List, [], ◌∷◌, ℕ_eq, arith, if_both,
  Text,
}
use jota_gateway.Bridge.UserTurns.{
  Bridge, new_bridge, Request, start, stop, Holder, free, replacing, cutting, cancelling, Closer,
  not_closing, cancelling_turn, cancel, is_live, is_id, answer, cancel_and_wait, grant,
  replace_turn, take_lock, release, forget, create_turn, proceed, interrupt,
}
use jota_gateway.Bridge.UserTurns.Brackets.{starts_in, ends_in, Counted}
use jota_gateway.Bridge.UserTurns.Lives.{
  Matches, Cleared, cancel-Matches, cancel-Cleared, no_turn, turn_done, forget-Matches, active_only,
  replaced,
}

-- Before it is done with the turn, the closing has not sent an end.
abbrev pub Early : Closer → Option ℕ → Type 0
Early not_closing sent = sent ≡ none
Early (cancelling_turn status n) sent = sent ≡ none
Early _ sent = Unit {0}

pub record Kept (b : Bridge) : Type 0 where
  pub one : Matches b.live b.active_turn b.active_turn_id
  pub cleared : Cleared b.holder b.live
  pub counted : (id : ℕ) → Counted id b.log b.turn_seq b.active_turn_id b.turn_end_sent_at_close
  pub early : Early b.closer b.turn_end_sent_at_close

pub new_bridge-Kept : Kept new_bridge
unfolding new_bridge starts_in ends_in
new_bridge-Kept = record {
  one = refl;
  cleared = tt;
  counted = λ id. record {
    once = omega arith;
    fresh = λ e. refl;
    balance = refl;
    old = λ e. ground (arith, e);
  };
  early = refl;
}

-- The lock is free again.
release-Kept : (b : Bridge) → Kept b → Kept (release b)
unfolding release
release-Kept b k = record { one = k.one; cleared = tt; counted = k.counted; early = k.early }

forget-Kept : (n : ℕ) (b : Bridge) → is_live n b.live ≡ false → Kept b → Kept (forget n b)
unfolding forget
forget-Kept n b e k =
    if_both Kept (is_id b.active_turn n)
      (λ f. record {
        one = forget-Matches n b.live b.active_turn b.active_turn_id e f k.one;
        cleared = k.cleared;
        counted = k.counted;
        early = k.early;
      })
      (λ f. k)

cancel_and_wait-Kept :
    (h : Holder) (n : ℕ) (b : Bridge)
    → Cleared h (cancel n b.live)
    → Kept b
    → Kept (cancel_and_wait h n b)
unfolding cancel_and_wait
cancel_and_wait-Kept h n b c k = record {
  one = cancel-Matches n b.live _ _ k.one;
  cleared = c;
  counted = k.counted;
  early = k.early;
}

-- Only the tasks, the lock, the frames and the closing matter.
cut-Kept :
    (text : Text) (b : Bridge) → b.live ≡ [] → Kept b → Kept (record b { holder = cutting text })
cut-Kept text b e k = record { one = k.one; cleared = e; counted = k.counted; early = k.early }

replace_turn-Kept :
    (o : Option ℕ) (text : Text) (b : Bridge)
    → b.active_turn ≡ o
    → Kept b
    → Kept (replace_turn o text b)
unfolding replace_turn
replace_turn-Kept none text b e k =
    cut-Kept text b
      (no_turn b.live b.active_turn_id (subst (λ a. Matches b.live a b.active_turn_id) e k.one)) k
replace_turn-Kept (some n) text b e k =
    if_both Kept (is_live n b.live)
      (λ alive.
        cancel_and_wait-Kept (replacing text n) n b
          (cancel-Cleared n (replacing text n) b.live (
            active_only n b.live b.active_turn_id
              (subst (λ a. Matches b.live a b.active_turn_id) e k.one)))
          k)
      (λ done.
        cut-Kept text b
          (turn_done n b.live b.active_turn_id done
            (subst (λ a. Matches b.live a b.active_turn_id) e k.one))
          k)

grant-Kept : (r : Request) (b : Bridge) → Kept b → Kept (grant r b)
unfolding grant replace_turn answer
grant-Kept (start text) b k =
    if_both Kept b.closing (λ e. k) (λ e. replace_turn-Kept b.active_turn text b refl k)
grant-Kept (stop n id) b k =
    if_both Kept (is_live n b.live) (λ e. cancel_and_wait-Kept (cancelling n id) n b tt k)
      (λ e. record { one = k.one; cleared = k.cleared; counted = k.counted; early = k.early })

pub take_lock-Kept :
    (h : Holder) (rs : List Request) (b : Bridge) → Kept b → Kept (take_lock h rs b)
unfolding take_lock
take_lock-Kept free [] b k = k
take_lock-Kept free (r ∷ rs) b k =
    grant-Kept r (record b { waiting = rs })
      record { one = k.one; cleared = k.cleared; counted = k.counted; early = k.early }
take_lock-Kept (replacing text n) rs b k = k
take_lock-Kept (cutting text) rs b k = k
take_lock-Kept (cancelling n id) rs b k = k

forget-live : (n : ℕ) (b : Bridge) → (forget n b).live ≡ b.live
unfolding forget
forget-live n b =
    if_both (λ (c : Bridge). c.live ≡ b.live) (is_id b.active_turn n) (λ e. refl) (λ e. refl)

pub proceed-Kept : (h : Holder) (b : Bridge) → h ≡ b.holder → Kept b → Kept (proceed h b)
unfolding proceed create_turn release
proceed-Kept free b e k = k
proceed-Kept (replacing text n) b e k =
    if_both Kept (is_live n b.live) (λ alive. k)
      (λ gone.
        let f = forget-Kept n b gone k in
        if_both Kept b.interrupted (λ i. release-Kept (forget n b) f)
          (λ i.
            cut-Kept text (forget n b)
              (forget-live n b
                ∙ replaced n b.live (subst (λ h. Cleared h b.live) (sym e) k.cleared) gone)
              f))
proceed-Kept (cutting text) b e k =
    if_both Kept b.interrupted (λ i. release-Kept b k)
      (λ i.
        if_both Kept b.closing (λ c. release-Kept b k)
          (λ c. record {
            one = rw none_live (refl, none_active);
            cleared = tt;
            counted = k.counted;
            early = k.early;
          }))
  where
    none_live : b.live ≡ []
    none_live = subst (λ h. Cleared h b.live) (sym e) k.cleared

    none_active : b.active_turn_id ≡ none
    none_active = subst (λ l. Matches l b.active_turn b.active_turn_id) none_live k.one
proceed-Kept (cancelling n id) b e k =
    if_both Kept (is_live n b.live) (λ alive. k)
      (λ gone.
        let f = forget-Kept n b gone k in
        if_both Kept b.interrupted (λ i. release-Kept (forget n b) f)
          (λ i. record { one = f.one; cleared = tt; counted = f.counted; early = f.early }))

pub interrupt-Kept : (h : Holder) (b : Bridge) → Kept b → Kept (interrupt h b)
unfolding interrupt
interrupt-Kept free b k = k
interrupt-Kept (replacing text n) b k = record {
  one = k.one;
  cleared = k.cleared;
  counted = k.counted;
  early = k.early;
}
interrupt-Kept (cutting text) b k = record {
  one = k.one;
  cleared = k.cleared;
  counted = k.counted;
  early = k.early;
}
interrupt-Kept (cancelling n id) b k = record {
  one = k.one;
  cleared = k.cleared;
  counted = k.counted;
  early = k.early;
}

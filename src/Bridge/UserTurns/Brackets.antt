-- ===== src/Bridge/UserTurns/Brackets.antt =====
-- How often a turn is started and ended in what the client is sent, and how this follows the two
-- variables that say which turn still owes its end.
use jota_gateway.Prelude.{
  ℕ, suc, ◌+◌, ◌≤◌, ◌<◌, ◌≡◌, true, Option, none, some, List, [], ◌∷◌, if◌then◌else◌, ◌==◌, ℕ_eq,
  eq_iff, arith, if_both,
}
use jota_gateway.Bridge.UserTurns.{
  Frame, turn_start, turn_error, turn_end, is_id, Outcome, ends, client_gone, fails, error_frames,
}

unfoldable pub starts_in : ℕ → List Frame → ℕ
starts_in id [] = 0
starts_in id (turn_start j s ∷ log) = let n = starts_in id log in if j == id then suc n else n
starts_in id (turn_error j ∷ log) = starts_in id log
starts_in id (turn_end j ∷ log) = starts_in id log

unfoldable pub ends_in : ℕ → List Frame → ℕ
ends_in id [] = 0
ends_in id (turn_start j s ∷ log) = ends_in id log
ends_in id (turn_error j ∷ log) = ends_in id log
ends_in id (turn_end j ∷ log) = let n = ends_in id log in if j == id then suc n else n

abbrev pub owed : ℕ → (active sent : Option ℕ) → ℕ
owed id active sent = if is_id active id then if is_id sent id then 0 else 1 else 0

pub record Counted (id : ℕ) (log : List Frame) (seq : ℕ) (active sent : Option ℕ) : Type 0 where
  pub once : starts_in id log ≤ 1
  pub fresh : seq < id → starts_in id log ≡ 0
  pub balance : ends_in id log + owed id active sent ≡ starts_in id log
  pub old : is_id sent id ≡ true → id ≤ seq

module _ (id : ℕ) (log : List Frame) (seq : ℕ) where
  pub Counted-begin :
      (s : ℕ) (sent : Option ℕ)
      → Counted id log seq none sent
      → Counted id (turn_start (seq + 1) s ∷ log) (seq + 1) (some (seq + 1)) sent
  unfolding starts_in ends_in
  Counted-begin s sent c = record {
    once = ground (arith, c.once, c.fresh, eq_iff (seq + 1) id);
    fresh = ground (arith, c.fresh, eq_iff (seq + 1) id);
    balance = ground (arith, c.once, c.fresh, c.balance, c.old, eq_iff (seq + 1) id);
    old = ground (arith, c.old);
  }

  pub Counted-skip :
      (active sent : Option ℕ)
      → Counted id log seq active sent
      → Counted id log (seq + 1) active sent
  Counted-skip active sent c = record {
    once = c.once;
    fresh = ground (arith, c.fresh);
    balance = c.balance;
    old = ground (arith, c.old);
  }

  Counted-error :
      (how : Outcome) (j : ℕ) (active sent : Option ℕ)
      → Counted id log seq active sent
      → Counted id (error_frames how j log) seq active sent
  unfolding starts_in ends_in
  Counted-error ends j active sent c = c
  Counted-error client_gone j active sent c = c
  Counted-error fails j active sent c = record {
    once = c.once;
    fresh = c.fresh;
    balance = c.balance;
    old = c.old;
  }

  Counted-last :
      (j : ℕ) (sent : Option ℕ)
      → Counted id log seq (some j) sent
      → Counted id (if is_id sent j then log else turn_end j ∷ log) seq none sent
  unfolding starts_in ends_in
  Counted-last j none c = record {
    once = c.once;
    fresh = c.fresh;
    balance = ground (arith, c.balance);
    old = c.old;
  }
  Counted-last j (some k) c =
      if_both (λ l. Counted id l seq none (some k)) (k == j)
        (λ sent. record {
          once = c.once;
          fresh = c.fresh;
          balance = ground (arith, c.balance, sent, eq_iff k id, eq_iff j id, eq_iff k j);
          old = c.old;
        })
        (λ other. record {
          once = c.once;
          fresh = c.fresh;
          balance = ground (arith, c.balance, other, eq_iff k id, eq_iff j id, eq_iff k j);
          old = c.old;
        })

  pub Counted-abandon :
      (j : ℕ)
      → Counted id log seq (some j) none
      → Counted id (turn_end j ∷ log) seq (some j) (some j)
  unfolding starts_in ends_in
  Counted-abandon j c = record {
    once = c.once;
    fresh = c.fresh;
    balance = ground (arith, c.balance);
    old = ground (arith, c.balance, c.fresh);
  }

pub Counted-end :
    (id : ℕ) (log : List Frame) (seq : ℕ) (how : Outcome) (j : ℕ) (sent : Option ℕ)
    → Counted id log seq (some j) sent
    → Counted id
        (if is_id sent j then error_frames how j log else turn_end j ∷ error_frames how j log)
        seq
        none
        sent
Counted-end id log seq how j sent c =
    Counted-last id (error_frames how j log) seq j sent
      (Counted-error id log seq how j (some j) sent c)

-- ===== src/Reconnection/Backoff.antt =====
-- services/reconnection.py: `reconnect_with_backoff`. The attempts and the clock are the world's:
-- the n-th attempt has an outcome and ends at a time. The loop takes fuel, and a theorem says how
-- much is enough. Logging is left out.
use jota_gateway.Prelude.{
  ℕ, zero, suc, ◌+◌, ◌*◌, ◌^◌, ◌≤◌, ◌<◌, min, ◌≡◌, refl, Option, none, some, arith, if◌then◌else◌,
  Bool-cases, leb, Text, inl, inr,
}
use native.Mathlib.Nat.{pow-suc}
use jota_gateway.Reconnection.{
  ConnectionState, connected, degraded, ServiceHealth, set_state, mark_connected,
  mark_attempt_failed,
}

pub data AttemptResult : Type 0 where
  succeeds cancels : AttemptResult
  -- The stable description of the failure (`describe_error`).
  fails : Text → AttemptResult

pub record Attempt : Type 0 where
  pub result : AttemptResult
  pub ended : ℕ

pub record Settings : Type 0 where
  pub initial_backoff : ℕ
  pub max_backoff : ℕ
  pub max_duration : ℕ

pub data Ending : Type 0 where
  recovered exhausted cancelled : Ending

pub record Result : Type 0 where
  pub ending : Ending
  pub health : ServiceHealth
  pub attempts : ℕ

-- The pause after the n-th failed attempt.
unfoldable pub pause : Settings → ℕ → ℕ
pause s zero = s.initial_backoff
pause s (suc n) = min (pause s n * 2) s.max_backoff

module _ (s : Settings) (world : ℕ → Attempt) (start : ℕ) where
  -- `n` counts the attempts that have failed; `none` means that the fuel ran out.
  unfoldable pub reconnect_loop : ℕ → ℕ → ℕ → ServiceHealth → Option Result
  reconnect_loop zero n backoff h = none
  reconnect_loop (suc fuel) n backoff h = elim (world n).result [
    | succeeds ↦
        some (record {
          ending = recovered;
          health = mark_connected (world n).ended h;
          attempts = suc n;
        })
    | cancels ↦ some (record { ending = cancelled; health = h; attempts = suc n })
    | fails error ↦
        let failed = mark_attempt_failed error h in
        let again = reconnect_loop fuel (suc n) (min (backoff * 2) s.max_backoff) failed in
        if leb (start + s.max_duration) (world n).ended
        then some
            (record { ending = exhausted; health = set_state degraded failed; attempts = suc n })
        else again
  ]

  unfoldable pub reconnect_with_backoff : ℕ → ServiceHealth → Option Result
  unfolding reconnect_loop
  reconnect_with_backoff fuel h = reconnect_loop fuel 0 s.initial_backoff h

  -- What a result says of the health: recovered, and nothing is held against the service; or given
  -- up, after the time allowed; or cancelled, with no state set.
  pub data Settled (before : ServiceHealth) (r : Result) : Type 0 where
    up :
        r.ending ≡ recovered
        → r.health.state ≡ connected
        → r.health.reconnect_attempts ≡ 0
        → r.health.last_error ≡ none
        → Settled before r
    down :
        (last : ℕ)
        → r.ending ≡ exhausted
        → r.health.state ≡ degraded
        → r.attempts ≡ suc last
        → r.health.reconnect_attempts ≡ before.reconnect_attempts + r.attempts
        → start + s.max_duration ≤ (world last).ended
        → Settled before r
    stopped : r.ending ≡ cancelled → r.health.state ≡ before.state → Settled before r

set_state_lem : (t : ConnectionState) (h : ServiceHealth) → (set_state t h).state ≡ t
unfolding set_state
set_state_lem t h = ground arith

set_state_attempts :
    (t : ConnectionState) (h : ServiceHealth)
    → ((set_state t h).reconnect_attempts ≡ h.reconnect_attempts)
      × ((set_state t h).last_error ≡ h.last_error)
unfolding set_state
set_state_attempts t h = ground arith

mark_connected_lem :
    (now : ℕ) (h : ServiceHealth)
    → ((mark_connected now h).state ≡ connected)
      × ((mark_connected now h).reconnect_attempts ≡ 0)
      × ((mark_connected now h).last_error ≡ none)
unfolding mark_connected set_state
mark_connected_lem now h = ground arith

module _ (s : Settings) (world : ℕ → Attempt) (start : ℕ)
    (clock : (n : ℕ) → (world n).ended + pause s n ≤ (world (suc n)).ended) where
  pause_pos : (n : ℕ) → 0 < s.initial_backoff → 0 < s.max_backoff → 0 < pause s n
  unfolding pause
  pause_pos zero h k = h
  pause_pos (suc n) h k = omega (arith, pause_pos n h k)

  later : (n : ℕ) → 0 < s.initial_backoff → 0 < s.max_backoff → n ≤ (world n).ended
  later zero h k = omega arith
  later (suc n) h k = omega (arith, later n h k, clock n, pause_pos n h k)

  abbrev Loops : ℕ → ℕ → ServiceHealth → Type 0
  Loops fuel n first =
      (h : ServiceHealth)
      → h.state ≡ first.state
      → h.reconnect_attempts ≡ first.reconnect_attempts + n
      → start + s.max_duration < n + fuel
      → 0 < fuel
      → (r : Result) × (reconnect_loop s world start fuel n (pause s n) h ≡ some r)
        × Settled s world start first r

  loop_Settled :
      (fuel n : ℕ) (first : ServiceHealth)
      → 0 < s.initial_backoff
      → 0 < s.max_backoff
      → Loops fuel n first
  unfolding reconnect_loop pause mark_attempt_failed
  loop_Settled zero n first p q h e c f z = absurd (omega arith)
  loop_Settled (suc fuel) n first p q h e c f z =
      go (world n).result refl (loop_Settled fuel (suc n) first p q)
    where
      go :
          (a : AttemptResult)
          → (world n).result ≡ a
          → Loops fuel (suc n) first
          → (r : Result) × (reconnect_loop s world start (suc fuel) n (pause s n) h ≡ some r)
            × Settled s world start first r
      go succeeds w rest =
          let m = mark_connected_lem (world n).ended h in
          (
            record {
              ending = recovered;
              health = mark_connected (world n).ended h;
              attempts = suc n;
            },
            rw (w, reconnect_loop) refl,
            Settled.up refl m.0 m.1 m.2,
          )
      go cancels w rest = (
        record { ending = cancelled; health = h; attempts = suc n },
        rw (w, reconnect_loop) refl,
        Settled.stopped refl e,
      )
      go (fails error) w rest =
          let failed = mark_attempt_failed error h in
          elim (Bool-cases (leb (start + s.max_duration) (world n).ended)) [
            | inl over ↦
                let m = set_state_attempts degraded failed in
                (
                  record {
                    ending = exhausted;
                    health = set_state degraded failed;
                    attempts = suc n;
                  },
                  rw (w, reconnect_loop, over) refl,
                  Settled.down n refl (set_state_lem degraded failed) refl (omega (arith, m.0))
                      (ground (arith, over)),
                )
            | inr time ↦
                let (r, same, settled) =
                  rest failed e (omega arith) (omega arith) (ground (arith, time, later n p q)) in
                (r, rw (w, reconnect_loop, time) same, settled)
          ]

  -- If each pause takes its time on the clock, and the pauses are not 0, the loop ends: with as
  -- much fuel as there are milliseconds up to the deadline and two rounds more it returns, and the
  -- health of the service tells what happened.
  pub reconnect_with_backoff-Settled :
      (fuel : ℕ) (h : ServiceHealth)
      → 0 < s.initial_backoff
      → 0 < s.max_backoff
      → start + s.max_duration + 1 < fuel
      → (r : Result) × (reconnect_with_backoff s world start fuel h ≡ some r)
        × Settled s world start h r
  unfolding reconnect_with_backoff pause
  reconnect_with_backoff-Settled fuel h p q f =
      loop_Settled fuel 0 h p q h refl (omega arith) (omega arith) (omega arith)

pause-suc : (s : Settings) (n : ℕ) → pause s (suc n) ≡ min (pause s n * 2) s.max_backoff
unfolding pause
pause-suc s n = refl

-- The pauses are the powers of two times the first one, cut at the largest.
pub pause-pow :
    (s : Settings) (n : ℕ)
    → s.initial_backoff ≤ s.max_backoff
    → pause s n ≡ min (s.initial_backoff * 2 ^ n) s.max_backoff
pause-pow s zero h = unfold pause in omega arith
pause-pow s (suc n) h = rw (pow-suc 2 n) (omega (arith, pause-pow s n h, pause-suc s n))

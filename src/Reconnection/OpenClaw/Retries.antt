-- ===== src/Reconnection/OpenClaw/Retries.antt =====
-- Somebody always retries, until the client is closed.
use jota_gateway.Prelude.{
  ℕ, ◌≡◌, ◌⊎◌, inl, inr, refl, true, false, not, ◌||◌, some, List, [], ◌∷◌, arith, Text, if_both,
}
use jota_gateway.Reconnection.{
  connected, degraded, same_state, ServiceHealth, set_state, mark_connected, mark_attempt_failed,
}
use jota_gateway.Reconnection.OpenClaw.{
  Client, new_client, ensure_reconnecting, connect_succeeds, connect_fails, use_connection,
  trigger_reconnect, start_slow_retry, slow_wakes, loop_fails, loop_recovers, loop_gives_up,
  slow_fails, slow_recovers, start_close, Call, step, run, connects, connect_error, disconnects,
  uses, triggers, loop_error, loop_success, loop_end, slow_wake, slow_error, slow_success, closes,
}

-- One retry, and one only, while the service is away; none that outlives the closing.
pub record Retried (c : Client) : Type 0 where
  pub slow_after_loop :
      c.closed ≡ false → c.reconnect_exhausted ≡ true → c.slow_retry_running ≡ true
  pub up_or_retried :
      c.closed ≡ false
      → c.reconnect_exhausted ≡ false
      → (c.health.state ≡ connected) ⊎ (c.reconnect_running ≡ true)
  pub not_both : c.reconnect_running ≡ true → c.reconnect_exhausted ≡ false
  pub shut : c.closed ≡ true → c.slow_retry_running ≡ false

healed : (now : ℕ) (h : ServiceHealth) → (mark_connected now h).state ≡ connected
unfolding mark_connected set_state
healed now h = ground arith

-- `ensure_reconnecting` mends what only lacks a retry.
ensure_reconnecting-Retried :
    (c : Client)
    → (c.closed ≡ false → c.reconnect_exhausted ≡ true → c.slow_retry_running ≡ true)
    → (c.reconnect_running ≡ true → c.reconnect_exhausted ≡ false)
    → (c.closed ≡ true → c.slow_retry_running ≡ false)
    → Retried (ensure_reconnecting c)
unfolding ensure_reconnecting
ensure_reconnecting-Retried c a b d =
    if_both Retried (c.reconnect_exhausted || c.closed || c.reconnect_running)
      (λ e. record {
        slow_after_loop = a;
        up_or_retried = λ p q. ground (arith, e, p, q);
        not_both = b;
        shut = d;
      })
      (λ e. record {
        slow_after_loop = λ p q. ground (arith, e, q);
        up_or_retried = λ p q. inr refl;
        not_both = λ _. ground (arith, e);
        shut = λ p. d p;
      })

struck :
    (error : Text) (c : Client)
    → Retried c
    → Retried (record c { health = mark_attempt_failed error c.health })
unfolding mark_attempt_failed
struck error c v = record {
  slow_after_loop = v.slow_after_loop;
  up_or_retried = v.up_or_retried;
  not_both = v.not_both;
  shut = v.shut;
}

step-Retried : (call : Call) (c : Client) → Retried c → Retried (step call c)
unfolding step connect_succeeds connect_fails use_connection trigger_reconnect loop_fails
    loop_recovers loop_gives_up start_slow_retry slow_wakes slow_fails slow_recovers start_close
step-Retried (connects now) c v = record {
  slow_after_loop = λ p q. cc;
  up_or_retried = λ p q. inl (healed now c.health);
  not_both = λ p. refl;
  shut = v.shut;
}
step-Retried (connect_error error) c v =
    ensure_reconnecting-Retried _ v.slow_after_loop v.not_both v.shut
step-Retried disconnects c v = ensure_reconnecting-Retried c v.slow_after_loop v.not_both v.shut
step-Retried uses c v =
    if_both Retried (same_state c.health.state degraded)
      (λ _. ensure_reconnecting-Retried c v.slow_after_loop v.not_both v.shut) (λ _. v)
step-Retried triggers c v =
    ensure_reconnecting-Retried
      (record c {
        reconnect_exhausted = false;
        slow_retry_running = false;
        slow_attempting = false;
      })
      (λ p q. cc) (λ p. refl) (λ p. refl)
step-Retried (loop_error error) c v =
    if_both Retried c.reconnect_running (λ _. struck error c v) (λ _. v)
step-Retried (loop_success now) c v =
    if_both Retried c.reconnect_running
      (λ _. record {
        slow_after_loop = v.slow_after_loop;
        up_or_retried = λ p q. inl (healed now c.health);
        not_both = λ p. cc;
        shut = v.shut;
      })
      (λ _. v)
step-Retried loop_end c v =
    if_both Retried c.reconnect_running
      (λ _.
        if_both Retried (c.closed || c.slow_retry_running)
          (λ e. record {
            slow_after_loop = λ p q. ground (arith, e, p);
            up_or_retried = λ p q. cc;
            not_both = λ p. cc;
            shut = v.shut;
          })
          (λ e. record {
            slow_after_loop = λ p q. refl;
            up_or_retried = λ p q. cc;
            not_both = λ p. cc;
            shut = λ p. ground (arith, e, p);
          }))
      (λ _. v)
step-Retried slow_wake c v =
    if_both Retried (not c.slow_retry_running || c.slow_attempting) (λ _. v)
      (λ _.
        if_both Retried c.reconnect_exhausted
          (λ e. record {
            slow_after_loop = v.slow_after_loop;
            up_or_retried = v.up_or_retried;
            not_both = v.not_both;
            shut = v.shut;
          })
          (λ e. record {
            slow_after_loop = λ p q. ground (arith, e, q);
            up_or_retried = v.up_or_retried;
            not_both = v.not_both;
            shut = λ p. refl;
          }))
step-Retried (slow_error error) c v =
    if_both Retried (not c.slow_retry_running || not c.slow_attempting) (λ _. v)
      (λ e. record {
        slow_after_loop = λ p q. q;
        up_or_retried = (struck error c v).up_or_retried;
        not_both = v.not_both;
        shut = λ p. ground (arith, e, v.shut p);
      })
step-Retried (slow_success now) c v =
    if_both Retried (not c.slow_retry_running || not c.slow_attempting) (λ _. v)
      (λ _. record {
        slow_after_loop = λ p q. cc;
        up_or_retried = λ p q. inl (healed now c.health);
        not_both = λ p. refl;
        shut = λ p. refl;
      })
step-Retried closes c v = record {
  slow_after_loop = λ p q. cc;
  up_or_retried = λ p q. cc;
  not_both = v.not_both;
  shut = λ p. refl;
}

run_from-Retried : (calls : List Call) (c : Client) → Retried c → Retried (run calls c)
unfolding run
run_from-Retried [] c v = v
run_from-Retried (call ∷ calls) c v = run_from-Retried calls (step call c) (step-Retried call c v)

-- G-55: after the first attempt to connect, whether it went well or not, and whatever happens then,
-- an open client whose fast loop has given up has the slow retry running, and one whose fast loop
-- has not is connected or has the fast loop running; and a closed one has no slow retry.
pub run-Retried :
    (name error : Text) (now : ℕ) (calls : List Call)
    → Retried (run calls (connect_succeeds now (new_client name)))
      × Retried (run calls (connect_fails error (new_client name)))
unfolding new_client connect_succeeds connect_fails
run-Retried name error now calls = (
  run_from-Retried calls (connect_succeeds now (new_client name)) record {
    slow_after_loop = λ p q. cc;
    up_or_retried = λ p q. inl (healed now (new_client name).health);
    not_both = λ p. refl;
    shut = λ p. refl;
  },
  run_from-Retried calls (connect_fails error (new_client name)) (
      let c = new_client name in
      ensure_reconnecting-Retried
        (record c { health = record c.health { last_error = some error } }) (λ p q. cc) (λ p. refl)
        (λ p. refl)),
)

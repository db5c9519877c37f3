-- ===== src/Reconnection/OpenClaw/Shutdown.antt =====
-- After `close` of the client to the orchestrator.
use jota_gateway.Prelude.{
  ◌≡◌, refl, ◌∙◌, subst, Bool, true, false, not, ◌||◌, some, List, [], ◌∷◌, arith, if_both,
}
use jota_gateway.Reconnection.{degraded, same_state}
use jota_gateway.Reconnection.OpenClaw.{
  Client, ensure_reconnecting, connect_succeeds, connect_fails, use_connection, trigger_reconnect,
  start_slow_retry, slow_wakes, loop_fails, loop_recovers, loop_gives_up, slow_fails, slow_recovers,
  start_close, end_close, Call, step, run, connects, connect_error, disconnects, uses, triggers,
  loop_error, loop_success, loop_end, slow_wake, slow_error, slow_success, closes,
}

-- No retry runs, and none can start.
pub record Shut (c : Client) : Type 0 where
  pub is_closed : c.closed ≡ true
  pub no_slow : c.slow_retry_running ≡ false
  pub no_loop : c.reconnect_running ≡ false

carried :
    (c d : Client)
    → d.closed ≡ c.closed
    → d.slow_retry_running ≡ false
    → d.reconnect_running ≡ false
    → Shut c
    → Shut d
carried c d a b e v = record { is_closed = a ∙ v.is_closed; no_slow = b; no_loop = e }

ensure_same : (c : Client) → c.closed ≡ true → ensure_reconnecting c ≡ c
unfolding ensure_reconnecting
ensure_same c e = ground (arith, e)

absurd_of : {A : Type 0} (c : Client) → c.reconnect_running ≡ true → Shut c → A
absurd_of c e v = cc

absurd_slow :
    {A : Type 0} (c : Client) (other : Bool)
    → (not c.slow_retry_running || other) ≡ false
    → Shut c
    → A
absurd_slow c other e v =
    let h : true ≡ false = subst (λ (b : Bool). (not b || other) ≡ false) v.no_slow e in cc

step-Shut : (call : Call) (c : Client) → Shut c → Shut (step call c)
unfolding step connect_succeeds connect_fails use_connection trigger_reconnect loop_fails
    loop_recovers loop_gives_up slow_wakes slow_fails slow_recovers start_close
step-Shut (connects now) c v = carried c _ refl v.no_slow v.no_loop v
step-Shut (connect_error error) c v =
    let d : Client = record c { health = record c.health { last_error = some error } } in
    rw (ensure_same d v.is_closed) (carried c d refl v.no_slow v.no_loop v)
step-Shut disconnects c v = rw (ensure_same c v.is_closed) v
step-Shut uses c v =
    if_both Shut (same_state c.health.state degraded) (λ _. rw (ensure_same c v.is_closed) v)
      (λ _. v)
step-Shut triggers c v =
    let d : Client = record c {
      reconnect_exhausted = false;
      slow_retry_running = false;
      slow_attempting = false;
    } in
    rw (ensure_same d v.is_closed) (carried c d refl refl v.no_loop v)
step-Shut (loop_error error) c v = if_both Shut c.reconnect_running (λ e. absurd_of c e v) (λ _. v)
step-Shut (loop_success now) c v = if_both Shut c.reconnect_running (λ e. absurd_of c e v) (λ _. v)
step-Shut loop_end c v = if_both Shut c.reconnect_running (λ e. absurd_of c e v) (λ _. v)
step-Shut slow_wake c v =
    if_both Shut (not c.slow_retry_running || c.slow_attempting) (λ _. v)
      (λ e. absurd_slow c c.slow_attempting e v)
step-Shut (slow_error error) c v =
    if_both Shut (not c.slow_retry_running || not c.slow_attempting) (λ _. v)
      (λ e. absurd_slow c (not c.slow_attempting) e v)
step-Shut (slow_success now) c v =
    if_both Shut (not c.slow_retry_running || not c.slow_attempting) (λ _. v)
      (λ e. absurd_slow c (not c.slow_attempting) e v)
step-Shut closes c v = record { is_closed = refl; no_slow = refl; no_loop = v.no_loop }

run-Shut : (calls : List Call) (c : Client) → Shut c → Shut (run calls c)
unfolding run
run-Shut [] c v = v
run-Shut (call ∷ calls) c v = run-Shut calls (step call c) (step-Shut call c v)

step_closed :
    (call : Call) (c : Client)
    → c.closed ≡ true
    → c.slow_retry_running ≡ false
    → ((step call c).closed ≡ true) × ((step call c).slow_retry_running ≡ false)
unfolding step connect_succeeds connect_fails use_connection trigger_reconnect loop_fails
    loop_recovers loop_gives_up start_slow_retry slow_wakes slow_fails slow_recovers start_close
    ensure_reconnecting
step_closed (connects now) c a b = (a, b)
step_closed (connect_error error) c a b = ground (arith, a, b)
step_closed disconnects c a b = ground (arith, a, b)
step_closed uses c a b = ground (arith, a, b)
step_closed triggers c a b = ground (arith, a, b)
step_closed (loop_error error) c a b = ground (arith, a, b)
step_closed (loop_success now) c a b = ground (arith, a, b)
step_closed loop_end c a b = ground (arith, a, b)
step_closed slow_wake c a b = ground (arith, a, b)
step_closed (slow_error error) c a b = ground (arith, a, b)
step_closed (slow_success now) c a b = ground (arith, a, b)
step_closed closes c a b = (refl, refl)

run_closed :
    (calls : List Call) (c : Client)
    → c.closed ≡ true
    → c.slow_retry_running ≡ false
    → ((run calls c).closed ≡ true) × ((run calls c).slow_retry_running ≡ false)
unfolding run
run_closed [] c a b = (a, b)
run_closed (call ∷ calls) c a b =
    let (p, q) = step_closed call c a b in run_closed calls (step call c) p q

-- G-52: once a client was closed, whatever is called while the closing waits and after it, no retry
-- runs when it has ended, and none ever starts again.
pub end_close-Shut :
    (c : Client) (during after : List Call)
    → Shut (run after (end_close (run during (start_close c))))
unfolding start_close end_close
end_close-Shut c during after =
    let (p, q) = run_closed during (start_close c) refl refl in
    run-Shut after (end_close (run during (start_close c)))
      record { is_closed = p; no_slow = q; no_loop = refl }

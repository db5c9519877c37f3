-- ===== src/Reconnection/Gate.antt =====
-- services/reconnection.py: `LazyBackoffGate`. Attempts overlap: a token orders their outcomes.
use jota_gateway.Prelude.{
  ℕ, suc, ◌+◌, ◌*◌, ◌≤◌, ◌<◌, min, max, ◌≡◌, refl, Bool, true, false, Option, none, some, List, [],
  ◌∷◌, arith, if◌then◌else◌, ltb, leb,
}

pub record LazyBackoffGate : Type 0 where
  pub initial_backoff : ℕ
  pub max_backoff : ℕ
  pub backoff : ℕ
  pub last_failure_at : Option ℕ
  pub started : ℕ
  pub marker : ℕ

unfoldable pub new_gate : ℕ → ℕ → LazyBackoffGate
new_gate initial_backoff max_backoff = record {
  initial_backoff = initial_backoff;
  max_backoff = max_backoff;
  backoff = initial_backoff;
  last_failure_at = none;
  started = 0;
  marker = 0;
}

-- The test `now - last_failure_at < backoff`, with no subtraction.
abbrev pub in_window : ℕ → ℕ → Option ℕ → Bool
in_window now backoff none = false
in_window now backoff (some failed) = ltb now (failed + backoff)

unfoldable pub begin : ℕ → LazyBackoffGate → Option ℕ × LazyBackoffGate
begin now g =
    if in_window now g.backoff g.last_failure_at
    then (none, g)
    else (some (suc g.started), record g { started = suc g.started })

unfoldable pub record_failure : ℕ → ℕ → LazyBackoffGate → Bool × LazyBackoffGate
record_failure now token g = if leb token g.marker then (false, g) else (
  true,
  record g {
    marker = g.started;
    last_failure_at = some now;
    backoff = min (g.backoff * 2) g.max_backoff;
  },
)

unfoldable pub record_success : LazyBackoffGate → LazyBackoffGate
record_success g = record g {
  marker = max g.marker g.started;
  last_failure_at = none;
  backoff = g.initial_backoff;
}

pub data Call : Type 0 where
  begins : ℕ → Call
  fails : ℕ → ℕ → Call
  succeeds : Call

unfoldable pub step : Call → LazyBackoffGate → LazyBackoffGate
unfolding begin record_failure record_success
step (begins now) g = (begin now g).1
step (fails now token) g = (record_failure now token g).1
step succeeds g = record_success g

unfoldable pub run : List Call → LazyBackoffGate → LazyBackoffGate
unfolding step
run [] g = g
run (c ∷ cs) g = run cs (step c g)

pub record IsValid (g : LazyBackoffGate) : Type 0 where
  pub settled : g.marker ≤ g.started
  pub least : g.initial_backoff ≤ g.backoff
  pub most : g.backoff ≤ g.max_backoff

step-IsValid : (c : Call) (g : LazyBackoffGate) → IsValid g → IsValid (step c g)
unfolding step
step-IsValid (begins now) g v = ground arith
step-IsValid (fails now token) g v = ground arith
step-IsValid succeeds g v = ground arith

run-IsValid : (cs : List Call) (g : LazyBackoffGate) → IsValid g → IsValid (run cs g)
unfolding run
run-IsValid [] g v = v
run-IsValid (c ∷ cs) g v = run-IsValid cs (step c g) (step-IsValid c g v)

step_fixed :
    (c : Call) (g : LazyBackoffGate)
    → ((step c g).initial_backoff ≡ g.initial_backoff) × ((step c g).max_backoff ≡ g.max_backoff)
unfolding step
step_fixed (begins now) g = ground arith
step_fixed (fails now token) g = ground arith
step_fixed succeeds g = ground arith

run_fixed :
    (cs : List Call) (g : LazyBackoffGate)
    → ((run cs g).initial_backoff ≡ g.initial_backoff) × ((run cs g).max_backoff ≡ g.max_backoff)
unfolding run
run_fixed [] g = (refl, refl)
run_fixed (c ∷ cs) g = ground (arith, step_fixed c g, run_fixed cs (step c g))

-- The window stays between the initial and the largest backoff, whatever attempts begin, fail and
-- succeed, in whatever order.
pub run-new_gate_bounds :
    (initial top : ℕ) (cs : List Call)
    → initial ≤ top
    → (initial ≤ (run cs (new_gate initial top)).backoff)
      × ((run cs (new_gate initial top)).backoff ≤ top)
unfolding new_gate
run-new_gate_bounds initial top cs h =
    let g = new_gate initial top in
    let v = run-IsValid cs g record { settled = ground arith; least = ground arith; most = h } in
    let f = run_fixed cs g in (omega (arith, v.least, f.0), omega (arith, v.most, f.1))

step-marker-le : (c : Call) (g : LazyBackoffGate) → IsValid g → g.marker ≤ (step c g).marker
unfolding step
step-marker-le (begins now) g v = ground arith
step-marker-le (fails now token) g v = ground arith
step-marker-le succeeds g v = ground arith

run-marker-le : (cs : List Call) (g : LazyBackoffGate) → IsValid g → g.marker ≤ (run cs g).marker
unfolding run
run-marker-le [] g v = omega arith
run-marker-le (c ∷ cs) g v =
    omega (arith, step-marker-le c g v, run-marker-le cs (step c g) (step-IsValid c g v))

-- Issue #152: once an outcome is recorded (a failure that counts, or any success), every attempt
-- that was in flight then is settled: at any later time its failure is not applied, so one outage
-- doubles the window once, and an old failure never undoes a success.
pub record_failure_stale :
    (now late token other : ℕ) (cs : List Call) (g : LazyBackoffGate)
    → IsValid g
    → token ≤ g.started
    → g.marker < other
    → let failed = run cs (record_failure now other g).1 in
      let healed = run cs (record_success g) in
      (record_failure late token failed ≡ (false, failed))
      × (record_failure late token healed ≡ (false, healed))
unfolding record_failure record_success
record_failure_stale now late token other cs g v h k =
    let a = run-marker-le cs (record_failure now other g).1 (ground arith) in
    let b = run-marker-le cs (record_success g) (ground arith) in
    (ground (arith, a), ground (arith, b))

-- An attempt that begins is not stale: if it is the next to end, its failure counts and closes the
-- gate for exactly one window, which is twice as long as before, up to the largest.
pub begin-record_failure :
    (now later when : ℕ) (g : LazyBackoffGate)
    → IsValid g
    → in_window now g.backoff g.last_failure_at ≡ false
    → let (token, opened) = begin now g in
      let (applied, closed) = record_failure later (suc g.started) opened in
      (token ≡ some (suc g.started))
      × (applied ≡ true)
      × (closed.backoff ≡ min (g.backoff * 2) g.max_backoff)
      × (in_window when closed.backoff closed.last_failure_at
          ≡ ltb when (later + min (g.backoff * 2) g.max_backoff))
unfolding begin record_failure
begin-record_failure now later when g v h = ground arith

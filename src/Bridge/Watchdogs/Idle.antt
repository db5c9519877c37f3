-- ===== src/Bridge/Watchdogs/Idle.antt =====
-- When the idle watchdog closes a session.
use jota_gateway.Prelude.{
  ℕ, zero, suc, ◌+◌, ◌-◌, ◌≤◌, ◌<◌, ◌≡◌, ◌⊎◌, inl, inr, refl, true, false, ◌||◌, Option, none, some,
  arith, leb, if_both,
}
use jota_gateway.Bridge.Watchdogs.{
  Settings, Activity, turn_in_flight, push_backlog_in_flight, IdleVerdict, sleeps, closes_idle,
  idle_round, idle_watchdog, within,
}

-- Issue #115: a session is not closed as idle while a turn of the user runs, nor before the client
-- was silent for the whole time-out.
pub idle_round-patient :
    (s : Settings) (a : Activity)
    → idle_round s a ≡ closes_idle
    → (a.turn_active ≡ false) × (s.idle_timeout ≤ a.now - a.last_client_activity)
unfolding idle_round turn_in_flight push_backlog_in_flight
idle_round-patient s a e = ground (arith, e)

-- What an activity still waits for, if nothing goes on, is over at `last`: the idle time-out, the time-outs
-- of the audio of a push, of an open push and of a backlog, each where there is one.
pub record OverAt (s : Settings) (a : Activity) (last : ℕ) : Type 0 where
  pub no_turn : a.turn_active ≡ false
  pub idle : a.last_client_activity + s.idle_timeout ≤ last
  pub audio : a.push_audio ≡ true → a.push_audio_progress_at + s.push_tts_drain_timeout ≤ last
  pub open_push :
      a.push_turn_open ≡ true
      → (at : ℕ) × (a.push_turn_opened_at ≡ some at) × (at + s.turn_timeout ≤ last)
  pub backlog :
      (a.push_pending ≡ 0)
      ⊎ (at : ℕ) × (a.push_pending_since ≡ some at) × (at + s.turn_timeout ≤ last)

expired :
    (now limit last : ℕ) (o : Option ℕ)
    → (at : ℕ) × (o ≡ some at) × (at + limit ≤ last)
    → within now o limit ≡ true
    → now < last
expired now limit last none (at, e, h) w = cc
expired now limit last (some t) (at, e, h) w = ground (arith, e, h, w)

-- What still holds the session open is not over.
flight_early :
    (s : Settings) (a : Activity) (last : ℕ)
    → OverAt s a last
    → (turn_in_flight s a || push_backlog_in_flight s a) ≡ true
    → a.now < last
unfolding turn_in_flight push_backlog_in_flight
flight_early s a last v e =
    let open_early : a.push_turn_open ≡ true
        → within a.now a.push_turn_opened_at s.turn_timeout ≡ true
        → a.now < last =
      λ o w. expired a.now s.turn_timeout last a.push_turn_opened_at (v.open_push o) w in
    elim v.backlog [
      | inl empty ↦ ground (arith, e, empty, v.no_turn, v.audio, open_early)
      | inr old ↦ ground (
        arith,
        e,
        v.no_turn,
        v.audio,
        open_early,
        expired a.now s.turn_timeout last a.push_pending_since old,
      )
    ]

-- A round that sleeps does so before `last`, and not for long.
Timely : ℕ → Settings → Activity → IdleVerdict → Type 0
Timely last s a (sleeps d) = (1 ≤ d) × (a.now < last) × (a.now + d ≤ last + 2000)
Timely last s a closes_idle = a.last_client_activity + s.idle_timeout ≤ a.now

idle_round-Timely :
    (s : Settings) (a : Activity) (last : ℕ)
    → a.last_client_activity ≤ a.now
    → OverAt s a last
    → Timely last s a (idle_round s a)
unfolding idle_round Timely
idle_round-Timely s a last m v =
    if_both (Timely last s a) (leb s.idle_timeout (a.now - a.last_client_activity))
      (λ late.
        if_both (Timely last s a) (turn_in_flight s a || push_backlog_in_flight s a)
          (λ busy.
            let early = flight_early s a last v busy in (omega arith, early, omega (arith, early)))
          (λ _. ground (arith, late, m)))
      (λ soon.
        (ground (arith, soon), ground (arith, soon, v.idle), ground (arith, soon, v.idle, m)))

-- How the watchdog ends, with `last` and the time before it.
pub record Closes (s : Settings) (a : Activity) (last : ℕ) (closed : Option ℕ) : Type 0 where
  pub time : ℕ
  pub at_time : closed ≡ some time
  pub patient : a.last_client_activity + s.idle_timeout ≤ time
  pub prompt : (time ≤ a.now) ⊎ (time ≤ last + 2000)

round_ends :
    (s : Settings) (last n : ℕ) (a : Activity)
    → a.last_client_activity ≤ a.now
    → OverAt s a last
    → last ≤ a.now + n
    → (r : IdleVerdict) → Timely last s a r
    → Closes s a last (elim r [
      | closes_idle ↦ some a.now
      | sleeps d ↦ idle_watchdog s n (record a { now = a.now + d })
    ])
unfolding idle_watchdog Timely
round_ends s last n a m v h closes_idle t = record {
  time = a.now;
  at_time = refl;
  patient = t;
  prompt = inl (omega arith);
}
round_ends s last zero a m v h (sleeps d) (p, q, r) = absurd (omega (arith, q, h))
round_ends s last (suc n) a m v h (sleeps d) (p, q, r) =
    let next = record a { now = a.now + d } in
    let w : OverAt s next last = record {
      no_turn = v.no_turn;
      idle = v.idle;
      audio = v.audio;
      open_push = v.open_push;
      backlog = v.backlog;
    } in
    let k : next.last_client_activity ≤ next.now = omega (arith, m) in
    let c =
      round_ends s last n next k w (omega (arith, h, p)) (idle_round s next)
        (idle_round-Timely s next last k w) in
    record {
      time = c.time;
      at_time = c.at_time;
      patient = c.patient;
      prompt = elim c.prompt [ inl x ↦ inr (omega (arith, x, r)) | inr x ↦ inr x ];
    }

-- #115, #130: while nothing goes on any more (no turn of the user, no message of the client; an open push, its
-- audio and a backlog that all stand still, each there or not), the idle watchdog closes the
-- session: not before the idle time-out, and at once or within two seconds of the last time-out of
-- what is there. One round for each millisecond until then is fuel enough. An open push has the time
-- it was opened, a backlog the time it began.
pub idle_watchdog-Closes :
    (s : Settings) (a : Activity) (last fuel : ℕ)
    → a.last_client_activity ≤ a.now
    → OverAt s a last
    → last ≤ a.now + fuel
    → Closes s a last (idle_watchdog s (suc fuel) a)
unfolding idle_watchdog
idle_watchdog-Closes s a last fuel m v h =
    round_ends s last fuel a m v h (idle_round s a) (idle_round-Timely s a last m v)

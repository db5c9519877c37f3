-- ===== src/Speech/Stt/Permits.antt =====
-- The permits for open connections, through every interleaving of the sessions.
use jota_gateway.Prelude.{
  ℕ, Bool, ◌≤◌, zero, suc, ◌+◌, ◌++◌, ◌≡◌, refl, ◌∙◌, ap, true, false, not, ◌||◌, Option, none,
  some, List, [], ◌∷◌, map, if◌then◌else◌, ltb, ◌==◌, ℕ_eq, arith, if_both, Text_eq, length,
}
use jota_gateway.Speech.Errors.{ErrorKind, auth, quota, capacity, other}
use jota_gateway.Speech.Stt.{
  Session, Provider, Upstream, release, end_life, finish_life, find_upstream, clear_busy,
  ensure_upstream, connect_failed, by_error, trim_buffer,
}
use jota_gateway.Speech.Stt.Sending.{
  flush_buffer, pump, send_audio, send_end, connected_upstream, is_ready,
}
use jota_gateway.Speech.Stt.Messages.{
  mark_terminal, connected, idle_round, start_drain, drain, drained, connect_error, connect_fails,
  Action, act, act_at, step, run, on_provider_degraded, is_terminal, is_quiet, with_upstream, audio,
  ends_phrase, pumps, opens, receives, loses, connects, fails, idles, drains, ends_drain, ends_life,
  life_done, closes,
}
use jota_gateway.Speech.Stt.Held.{
  Scale, held, held-set_upstream, In, Known, clear_busy-upstreams, clear_busy_of-upstreams,
  on_message-In, read_ended-In,
}
use jota_gateway.Speech.Stt.Opening.{
  ensure_upstream-In, end_life-In, finish_life-In, permits, leaks, end_life-leaks,
  finish_life-leaks, send_commit-held, found-Known, connected-Known, pump-held,
}

-- Not the end of a connection's task.
unfoldable lasts : Action → Bool
lasts (ends_life n) = false
lasts (life_done n) = false
lasts _ = true

connect_error-free : (kind : ErrorKind) (p : Provider) → (connect_error kind p).free ≡ p.free
unfolding connect_error mark_terminal
connect_error-free auth p = refl
connect_error-free quota p = refl
connect_error-free capacity p = refl
connect_error-free other p = refl

module _ (k : Scale) where
  -- A step that leaves the provider alone, by what it does to the upstreams.
  send_audio-In :
      (now : ℕ) (pcm : List ℕ) (p : Provider) (s : Session)
      → In k (send_audio now pcm p s) ≡ In k (p, s)
  unfolding send_audio
  send_audio-In now pcm p s =
      if_both (λ r. In k r ≡ In k (p, s)) (s.closed || p.terminal || length pcm == 0) (λ _. refl)
        (λ _.
          go
            (record s {
              buf = s.buf ++ pcm;
              uncommitted = true;
              audio_since_commit = true;
              last_fwd = some now;
            })
            refl)
    where
      go :
          (t : Session)
          → t.upstreams ≡ s.upstreams
          → let r = ensure_upstream now p t in
            In k (
              r.0,
              if is_ready (connected_upstream r.1)
                  then pump now r.1
                  else record r.1 { buf = trim_buffer r.1.buf },
            )
            ≡ In k (p, s)
      go t e =
          let r = ensure_upstream now p t in
          if_both (λ (v : Session). In k (r.0, v) ≡ In k (p, s)) (is_ready (connected_upstream r.1))
            (λ _.
              ap (λ n. k.free_weight r.0.free + n) (pump-held k now r.1)
              ∙ ensure_upstream-In k now p t
              ∙ ap (λ us. k.free_weight p.free + held k us) e)
            (λ _. ensure_upstream-In k now p t ∙ ap (λ us. k.free_weight p.free + held k us) e)

  send_end-held :
      (now : ℕ) (p : Provider) (s : Session)
      → held k (send_end now p s).upstreams ≡ held k s.upstreams
  unfolding send_end
  send_end-held now p s =
      if_both (λ (t : Session). held k t.upstreams ≡ held k s.upstreams)
        (s.closed || p.terminal || not s.uncommitted) (λ _. refl)
        (λ _. pump-held k now (record s { want_commit = true }))

  drain-held :
      (now : ℕ) (u : Upstream) (s : Session)
      → Known u s
      → held k (drain now u s).upstreams ≡ held k s.upstreams
  unfolding drain flush_buffer
  drain-held now u s kn =
      let Q : Session → Type 0 = λ t. held k t.upstreams ≡ held k s.upstreams in
      if_both Q (u.closing || not u.ready) (λ _. refl)
        (λ _.
          if_both Q ((flush_buffer s).uncommitted || ltb 0 (length (flush_buffer s).buf))
            (λ _. send_commit-held k now u (flush_buffer s) kn) (λ _. refl))

  start_drain-held :
      (o : Option Upstream) (s : Session)
      → ((u : Upstream) → o ≡ some u → Known u s)
      → held k (start_drain o s).upstreams ≡ held k s.upstreams
  unfolding start_drain
  start_drain-held none s kn = refl
  start_drain-held (some u) s kn =
      if_both (λ (t : Session). held k t.upstreams ≡ held k s.upstreams)
        (u.closing || u.draining || not u.ready) (λ _. refl)
        (λ _. held-set_upstream k (record u { draining = true }) u s.upstreams (kn u refl) refl)

  idle_round-held :
      (now : ℕ) (s : Session) → held k (idle_round now s).upstreams ≡ held k s.upstreams
  unfolding idle_round
  idle_round-held now s =
      if_both (λ (t : Session). held k t.upstreams ≡ held k s.upstreams) (is_quiet now s.last_fwd)
        (λ _.
          start_drain-held (connected_upstream (clear_busy s)) (clear_busy s)
            (connected-Known (clear_busy s))
          ∙ ap (held k) (clear_busy-upstreams s))
        (λ _. refl)

  connect_fails-In :
      (now : ℕ) (kind : ErrorKind) (p : Provider) (s : Session)
      → In k (connect_fails now kind p s) ≡ In k (p, s)
  unfolding connect_fails connect_failed
  connect_fails-In now kind p s =
      if_both
        (λ (t : Session).
          k.free_weight (connect_error kind p).free + held k t.upstreams ≡ In k (p, s))
        (is_terminal kind)
        (λ _. ap (λ n. k.free_weight n + held k s.upstreams) (connect_error-free kind p))
        (λ _. ap (λ n. k.free_weight n + held k s.upstreams) (connect_error-free kind p))

  for_upstream :
      (n : ℕ) (p : Provider) (s : Session) (f : Upstream → Provider × Session)
      → ((u : Upstream) → Known u s → In k (f u) ≡ In k (p, s))
      → In k (with_upstream (find_upstream n s.upstreams) (p, s) f) ≡ In k (p, s)
  for_upstream n p s f h = go (find_upstream n s.upstreams) refl
    where
      go :
          (o : Option Upstream)
          → find_upstream n s.upstreams ≡ o
          → In k (with_upstream o (p, s) f) ≡ In k (p, s)
      go none e = refl
      go (some u) e = h u (found-Known n s u e)

  lasting-In :
      (a : Action) (p : Provider) (s : Session) → lasts a ≡ true → In k (act a p s) ≡ In k (p, s)
  unfolding act connected drained lasts
  lasting-In (audio now pcm) p s e = send_audio-In now pcm p s
  lasting-In (ends_phrase now) p s e = ap (λ n. k.free_weight p.free + n) (send_end-held now p s)
  lasting-In (pumps now) p s e = ap (λ n. k.free_weight p.free + n) (pump-held k now s)
  lasting-In (opens now) p s e = ensure_upstream-In k now p s
  lasting-In (receives now mt t n) p s e =
      for_upstream n p s _ (λ u kn. on_message-In k now mt t u p s kn)
  lasting-In (loses now kind n) p s e =
      for_upstream n p s _ (λ u kn. read_ended-In k now kind u p s kn)
  lasting-In connects p s e =
      ap (λ us. k.free_weight p.free + held k us)
        (clear_busy_of-upstreams by_error (record s { degraded = false }))
  lasting-In (fails now kind) p s e = connect_fails-In now kind p s
  lasting-In (idles now) p s e = ap (λ n. k.free_weight p.free + n) (idle_round-held now s)
  lasting-In (drains now n) p s e =
      for_upstream n p s _ (λ u kn. ap (λ m. k.free_weight p.free + m) (drain-held now u s kn))
  lasting-In (ends_drain n) p s e = for_upstream n p s _ (λ u kn.
      ap (λ m. k.free_weight p.free + m)
        (held-set_upstream k (record u { closing = true }) u s.upstreams kn refl))
  lasting-In (ends_life n) p s e = cc
  lasting-In (life_done n) p s e = cc
  lasting-In closes p s e = refl

act-In : (a : Action) (p : Provider) (s : Session) → In permits (act a p s) ≡ In permits (p, s)
unfolding act lasts
act-In (ends_life n) p s = end_life-In n p s
act-In (life_done n) p s = finish_life-In n p s
act-In a p s = lasting-In permits a p s refl

act-leaks :
    (a : Action) (p : Provider) (s : Session)
    → held leaks (act a p s).1.upstreams ≤ held leaks s.upstreams
unfolding act end_life finish_life release lasts
act-leaks (ends_life n) p s = end_life-leaks n s.upstreams
act-leaks (life_done n) p s = finish_life-leaks n s.upstreams
act-leaks a p s = omega (arith, lasting-In leaks a p s refl)

-- What all the sessions hold.
unfoldable pub all_held : Scale → List Session → ℕ
all_held k [] = 0
all_held k (s ∷ ss) = held k s.upstreams + all_held k ss

act_at-held :
    (i : ℕ) (a : Action) (p : Provider) (ss : List Session)
    → (act_at i a p ss).0.free + all_held permits (act_at i a p ss).1 ≡ p.free + all_held permits ss
unfolding act_at all_held
act_at-held i a p [] = refl
act_at-held zero a p (s ∷ ss) = omega (arith, act-In a p s)
act_at-held (suc i) a p (s ∷ ss) = omega (arith, act_at-held i a p ss)

degraded-held :
    (k : Scale) (ss : List Session) → all_held k (map on_provider_degraded ss) ≡ all_held k ss
unfolding all_held on_provider_degraded
degraded-held k [] = refl
degraded-held k (s ∷ ss) = ap (λ n. held k s.upstreams + n) (degraded-held k ss)

step-held :
    (a : ℕ × Action) (w : Provider × List Session)
    → (step a w).0.free + all_held permits (step a w).1 ≡ w.0.free + all_held permits w.1
unfolding step
step-held (i, a) (p, ss) =
    let r = act_at i a p ss in
    if_both (λ ts. r.0.free + all_held permits ts ≡ p.free + all_held permits ss)
      (r.0.auth_errors == p.auth_errors) (λ _. act_at-held i a p ss)
      (λ _. ap (λ n. r.0.free + n) (degraded-held permits r.1) ∙ act_at-held i a p ss)

act_at-leaks :
    (i : ℕ) (a : Action) (p : Provider) (ss : List Session)
    → all_held leaks (act_at i a p ss).1 ≤ all_held leaks ss
unfolding act_at all_held
act_at-leaks i a p [] = omega arith
act_at-leaks zero a p (s ∷ ss) = omega (arith, act-leaks a p s)
act_at-leaks (suc i) a p (s ∷ ss) = omega (arith, act_at-leaks i a p ss)

step-leaks :
    (a : ℕ × Action) (w : Provider × List Session)
    → all_held leaks (step a w).1 ≤ all_held leaks w.1
unfolding step
step-leaks (i, a) (p, ss) =
    let r = act_at i a p ss in
    if_both (λ ts. all_held leaks ts ≤ all_held leaks ss) (r.0.auth_errors == p.auth_errors)
      (λ _. act_at-leaks i a p ss)
      (λ _. omega (arith, degraded-held leaks r.1, act_at-leaks i a p ss))

-- However the sessions of a provider interleave, the free permits and those that connections hold are
-- together as many as they were, and if no connection whose task is done held one before, none does
-- now: no permit is lost with a connection that is over, and none is released twice, whether it
-- ends by itself, fails, is cancelled or is released again by the callback of its task.
pub run-held :
    (acts : List (ℕ × Action)) (w : Provider × List Session)
    → ((run acts w).0.free + all_held permits (run acts w).1 ≡ w.0.free + all_held permits w.1)
      × (all_held leaks w.1 ≡ 0 → all_held leaks (run acts w).1 ≡ 0)
unfolding run
run-held [] w = (refl, λ e. e)
run-held (a ∷ acts) w =
    let (kept, none_left) = run-held acts (step a w) in
    (kept ∙ step-held a w, λ e. none_left (omega (arith, step-leaks a w, e)))

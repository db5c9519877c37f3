-- ===== src/Speech/Stt/Opening.antt =====
-- Opening, ending and sending, by the permits that they take, give back and leave alone.
use jota_gateway.Prelude.{
  ℕ, ◌≤◌, List, [], ◌&&◌, ◌+◌, ◌-◌, ◌≡◌, refl, sym, ◌∙◌, ap, subst, true, false, ◌||◌, Option, none,
  some, ◌∷◌, if◌then◌else◌, ltb, ◌==◌, ℕ_eq, arith, if_both, Text_eq, length, eq_iff,
}
use jota_gateway.Speech.Stt.{
  Session, Provider, Upstream, release_permit, mark_done, finish_life, find_upstream, release,
  ensure_upstream, refuse, open_upstream, new_upstream, end_life, is_conn, by_sem, is_some,
}
use jota_gateway.Speech.Stt.Sending.{
  flush_buffer, send_commit, commit_or_wait, pump_to, pump, find_conn, connected_upstream, can_send,
  commit_wait,
}
use jota_gateway.Speech.Stt.Held.{
  held, held-set_upstream, find-number, Scale, In, Known, set_busy-upstreams,
  clear_busy_of-upstreams,
}

pub found-Known :
    (n : ℕ) (s : Session) (u : Upstream) → find_upstream n s.upstreams ≡ some u → Known u s
found-Known n s u e =
    subst (λ m. find_upstream m s.upstreams ≡ some u) (sym (find-number n s.upstreams u e)) e

pub connected-Known : (s : Session) (u : Upstream) → connected_upstream s ≡ some u → Known u s
unfolding connected_upstream find_conn
connected-Known s u e = conn_found s.conn e
  where
    conn_found : (o : Option ℕ) → find_conn o s.upstreams ≡ some u → Known u s
    conn_found none q = ground (arith, q)
    conn_found (some n) q = found-Known n s u q

module _ (k : Scale) where
  pub refuse-In : (p : Provider) (s : Session) → In k (refuse p s) ≡ In k (p, s)
  unfolding refuse
  refuse-In p s = ap (λ us. k.free_weight p.free + held k us) (set_busy-upstreams by_sem s)

  pub open_upstream-In :
      (p : Provider) (s : Session) → (p.free == 0) ≡ false → In k (open_upstream p s) ≡ In k (p, s)
  unfolding open_upstream held new_upstream
  open_upstream-In p s free =
      ap (λ us. k.free_weight (p.free - 1) + held k us)
        (clear_busy_of-upstreams by_sem (record s {
          upstreams = new_upstream (length s.upstreams) ∷ s.upstreams;
          conn = some (length s.upstreams);
        }))
      ∙ ground (arith, k.opening p.free free)

  pub ensure_upstream-In :
      (now : ℕ) (p : Provider) (s : Session) → In k (ensure_upstream now p s) ≡ In k (p, s)
  unfolding ensure_upstream
  ensure_upstream-In now p s =
      let Q : Provider × Session → Type 0 = λ r. In k r ≡ In k (p, s) in
      if_both Q (is_some s.conn || s.closed || p.terminal) (λ _. refl)
        (λ _.
          if_both Q (ltb now s.cooldown_until) (λ _. refl)
            (λ _. if_both Q (p.free == 0) (λ _. refuse-In p s) (λ free. open_upstream-In p s free)))

  -- Sending leaves the permits alone.
  pub send_commit-held :
      (now : ℕ) (u : Upstream) (s : Session)
      → Known u s
      → held k (send_commit now u s).upstreams ≡ held k s.upstreams
  unfolding send_commit
  send_commit-held now u s kn =
      held-set_upstream k (record u { final = false; commit_sent = true }) u s.upstreams kn refl

  pub flush_buffer-upstreams : (s : Session) → (flush_buffer s).upstreams ≡ s.upstreams
  unfolding flush_buffer
  flush_buffer-upstreams s = refl

  pub commit_or_wait-held :
      (now : ℕ) (u : Upstream) (s : Session)
      → Known u s
      → held k (commit_or_wait now u s).upstreams ≡ held k s.upstreams
  unfolding commit_or_wait
  commit_or_wait-held now u s kn =
      let Q : Session → Type 0 = λ t. held k t.upstreams ≡ held k s.upstreams in
      if_both Q s.want_commit
        (λ _.
          if_both Q (ltb 0 (commit_wait now s.last_commit_at)) (λ _. refl)
            (λ _. send_commit-held now u s kn))
        (λ _. refl)

  pub pump_to-held :
      (now : ℕ) (o : Option Upstream) (s : Session)
      → ((u : Upstream) → o ≡ some u → Known u s)
      → held k (pump_to now o s).upstreams ≡ held k s.upstreams
  unfolding pump_to flush_buffer
  pump_to-held now none s kn = refl
  pump_to-held now (some u) s kn =
      if_both (λ (t : Session). held k t.upstreams ≡ held k s.upstreams) (can_send u)
        (λ _. commit_or_wait-held now u (flush_buffer s) (kn u refl)) (λ _. refl)

  pub pump-held : (now : ℕ) (s : Session) → held k (pump now s).upstreams ≡ held k s.upstreams
  unfolding pump
  pump-held now s = pump_to-held now (connected_upstream s) s (connected-Known s)

pub less_one : (n : ℕ) → (n == 0) ≡ false → n - 1 + 1 ≡ n
less_one n free = ground (arith, free, eq_iff n 0)

-- Every permit, and those that stay with an upstream whose task is done.
abbrev pub permits : Scale
permits = record { free_weight = λ n. n; counts = λ permit done. permit; opening = less_one }

abbrev pub leaks : Scale
leaks = record {
  free_weight = λ n. 0;
  counts = λ permit done. permit && done;
  opening = λ n free. refl;
}

held-release_permit :
    (n : ℕ) (us : List Upstream)
    → held permits (release_permit n us).1 + (release_permit n us).0 ≡ held permits us
unfolding held release_permit
held-release_permit n [] = refl
held-release_permit n (u ∷ us) = ground (arith, held-release_permit n us)

pub release-In :
    (n : ℕ) (p : Provider) (s : Session) → In permits (release n p s) ≡ In permits (p, s)
unfolding release
release-In n p s = omega (arith, held-release_permit n s.upstreams)

pub end_life-In :
    (n : ℕ) (p : Provider) (s : Session) → In permits (end_life n p s) ≡ In permits (p, s)
unfolding end_life
end_life-In n p s = release-In n p (record s { conn = if is_conn n s.conn then none else s.conn })

held-mark_done : (n : ℕ) (us : List Upstream) → held permits (mark_done n us) ≡ held permits us
unfolding held mark_done
held-mark_done n [] = refl
held-mark_done n (u ∷ us) = ground (arith, held-mark_done n us)

pub finish_life-In :
    (n : ℕ) (p : Provider) (s : Session) → In permits (finish_life n p s) ≡ In permits (p, s)
unfolding finish_life
finish_life-In n p s =
    release-In n p (record s { upstreams = mark_done n s.upstreams })
    ∙ ap (λ m. p.free + m) (held-mark_done n s.upstreams)

-- A release leaves no more leaks than there were, also that of a task that has just ended.
pub end_life-leaks :
    (n : ℕ) (us : List Upstream) → held leaks (release_permit n us).1 ≤ held leaks us
unfolding held release_permit
end_life-leaks n [] = omega arith
end_life-leaks n (u ∷ us) = ground (arith, end_life-leaks n us)

pub finish_life-leaks :
    (n : ℕ) (us : List Upstream) → held leaks (release_permit n (mark_done n us)).1 ≤ held leaks us
unfolding held release_permit mark_done
finish_life-leaks n [] = omega arith
finish_life-leaks n (u ∷ us) = ground (arith, finish_life-leaks n us)

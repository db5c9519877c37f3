-- ===== src/Speech/Stt/Held.antt =====
-- What the upstreams of a session weigh by their permits, and that its messages do not change it.
use jota_gateway.Prelude.{
  ℕ, suc, ◌-◌, ◌+◌, ◌≡◌, refl, sym, ◌∙◌, ap, subst, Bool, true, false, Option, none, some, List, [],
  ◌∷◌, if◌then◌else◌, ◌==◌, ℕ_eq, arith, if_both, Json, Text, codes, contains, Text_eq, Bool-cases,
  inl, inr, eq_iff,
}
use jota_gateway.Speech.Errors.{ErrorKind, auth, quota, capacity, other}
use jota_gateway.Speech.Stt.{
  Session, Provider, Upstream, find_upstream, set_upstream, set_busy, clear_busy, clear_busy_of,
  Cause, by_error, same_cause, of_kind, error, Outcome,
}
use jota_gateway.Speech.Stt.Messages.{
  on_capacity, mark_terminal, closing_for, closed_by, committed, on_message, read_ended,
  auth_errors, terminal_quota, capacity_errors, other_errors,
}

-- A way to count: what the free permits weigh, and which upstreams count, by their permit and by whether
-- their task is done. Opening a connection changes nothing.
pub record Scale : Type 0 where
  pub free_weight : ℕ → ℕ
  pub counts : (permit done : Bool) → Bool
  pub opening :
      (n : ℕ)
      → (n == 0) ≡ false
      → free_weight (n - 1) + (if counts true false then 1 else 0) ≡ free_weight n

number_of : Option Upstream → ℕ
number_of none = 0
number_of (some u) = u.number

-- What a search that succeeds has found: the first, or one of the rest.
found_first :
    (n : ℕ) (w u : Upstream) (us : List Upstream)
    → (w.number == n) ≡ true
    → find_upstream n (w ∷ us) ≡ some u
    → some w ≡ some u
unfolding find_upstream
found_first n w u us same e =
    subst (λ b. (if b then some w else find_upstream n us) ≡ some u) same e

found_later :
    (n : ℕ) (w u : Upstream) (us : List Upstream)
    → (w.number == n) ≡ false
    → find_upstream n (w ∷ us) ≡ some u
    → find_upstream n us ≡ some u
unfolding find_upstream
found_later n w u us apart e =
    subst (λ b. (if b then some w else find_upstream n us) ≡ some u) apart e

pub find-number :
    (n : ℕ) (us : List Upstream) (u : Upstream) → find_upstream n us ≡ some u → u.number ≡ n
unfolding number_of find_upstream
find-number n [] u e = ground (arith, e)
find-number n (w ∷ us) u e = elim (Bool-cases (w.number == n)) [
  | inl same ↦
      sym (ap number_of (found_first n w u us same e)) ∙ ground (arith, eq_iff w.number n, same)
  | inr apart ↦ find-number n us u (found_later n w u us apart e)
]

pub set_busy-upstreams : (c : Cause) (s : Session) → (set_busy c s).upstreams ≡ s.upstreams
unfolding set_busy
set_busy-upstreams c s =
    if_both (λ (t : Session). t.upstreams ≡ s.upstreams) s.is_busy (λ _. refl) (λ _. refl)

pub clear_busy-upstreams : (s : Session) → (clear_busy s).upstreams ≡ s.upstreams
unfolding clear_busy
clear_busy-upstreams s =
    if_both (λ (t : Session). t.upstreams ≡ s.upstreams) s.is_busy (λ _. refl) (λ _. refl)

pub clear_busy_of-upstreams :
    (c : Cause) (s : Session) → (clear_busy_of c s).upstreams ≡ s.upstreams
unfolding clear_busy_of
clear_busy_of-upstreams c s =
    if_both (λ (t : Session). t.upstreams ≡ s.upstreams) (same_cause s.busy_cause c)
      (λ _. clear_busy-upstreams s) (λ _. refl)

-- The upstream that a step is for is one of the session's.
abbrev pub Known : Upstream → Session → Type 0
Known u s = find_upstream u.number s.upstreams ≡ some u

module _ (k : Scale) where
  unfoldable pub held : List Upstream → ℕ
  held [] = 0
  held (u ∷ us) = let n = held us in if k.counts u.permit u.done then suc n else n

  counted : Option Upstream → Bool
  counted none = false
  counted (some u) = k.counts u.permit u.done

  pub held-set_upstream :
      (v u : Upstream) (us : List Upstream)
      → find_upstream v.number us ≡ some u
      → k.counts v.permit v.done ≡ k.counts u.permit u.done
      → held (set_upstream v us) ≡ held us
  unfolding held set_upstream counted
  held-set_upstream v u [] e p = refl
  held-set_upstream v u (w ∷ us) e p =
      if_both (λ l. held l ≡ held (w ∷ us)) (w.number == v.number)
        (λ same.
          ap (λ b. if b then suc (held us) else held us)
            (p ∙ sym (permit_first (found_first v.number w u us same e))))
        (λ apart.
          ap (λ n. if k.counts w.permit w.done then suc n else n)
            (held-set_upstream v u us (found_later v.number w u us apart e) p))
    where
      permit_first : some w ≡ some u → k.counts w.permit w.done ≡ k.counts u.permit u.done
      permit_first q = ap counted q

  -- What a session and the provider weigh together.
  abbrev pub In : Provider × Session → ℕ
  In r = k.free_weight r.0.free + held r.1.upstreams

  pub closing_for-held :
      (o : Outcome) (u : Upstream) (s : Session)
      → Known u s
      → held (closing_for o u s).upstreams ≡ held s.upstreams
  unfolding closing_for
  closing_for-held o u s kn =
      held-set_upstream (record u { outcome = o; closing = true }) u s.upstreams kn refl

  pub on_capacity-In : (now : ℕ) (p : Provider) (s : Session) → In (on_capacity now p s) ≡ In (p, s)
  unfolding on_capacity
  on_capacity-In now p s =
      ap (λ us. k.free_weight p.free + held us)
        (set_busy-upstreams by_error (record s { cooldown_until = now + p.initial_backoff }))

  pub on_message-In :
      (now : ℕ) (mt : Text) (t : Json) (u : Upstream) (p : Provider) (s : Session)
      → Known u s
      → In (on_message now mt t u p s) ≡ In (p, s)
  unfolding on_message committed mark_terminal
  on_message-In now mt t u p s kn =
      let Q : Provider × Session → Type 0 = λ r. In r ≡ In (p, s) in
      let closed_by : (o : Outcome)
          → k.free_weight p.free + held (closing_for o u s).upstreams
            ≡ k.free_weight p.free + held s.upstreams =
        λ o. ap (λ n. k.free_weight p.free + n) (closing_for-held o u s kn) in
      if_both Q (mt == codes "session_started")
        (λ _.
          ap (λ n. k.free_weight p.free + n)
            (held-set_upstream (record u { ready = true }) u s.upstreams kn refl))
        (λ _.
          if_both Q (mt == codes "partial_transcript") (λ _. refl)
            (λ _.
              if_both Q (mt == codes "committed_transcript")
                (λ _.
                  ap (λ n. k.free_weight p.free + n)
                    (held-set_upstream (record u { commit_sent = false; final = true }) u
                      s.upstreams kn refl))
                (λ _.
                  if_both Q (contains mt auth_errors) (λ _. closed_by (of_kind auth))
                    (λ _.
                      if_both Q (contains mt terminal_quota) (λ _. closed_by (of_kind quota))
                        (λ _.
                          if_both Q (contains mt capacity_errors)
                            (λ _.
                              on_capacity-In now p (closing_for (of_kind capacity) u s)
                              ∙ closed_by (of_kind capacity))
                            (λ _.
                              if_both Q (contains mt other_errors) (λ _. closed_by error)
                                (λ _. refl)))))))

  pub closed_by-In :
      (now : ℕ) (kind : ErrorKind) (p : Provider) (s : Session)
      → In (closed_by now kind p s) ≡ In (p, s)
  unfolding closed_by mark_terminal
  closed_by-In now auth p s = refl
  closed_by-In now quota p s = refl
  closed_by-In now capacity p s = on_capacity-In now p s
  closed_by-In now other p s = refl

  pub read_ended-In :
      (now : ℕ) (kind : ErrorKind) (u : Upstream) (p : Provider) (s : Session)
      → Known u s
      → In (read_ended now kind u p s) ≡ In (p, s)
  unfolding read_ended
  read_ended-In now kind u p s kn =
      if_both (λ r. In r ≡ In (p, s)) u.closing (λ _. refl)
        (λ _.
          closed_by-In now kind p _
          ∙ ap (λ n. k.free_weight p.free + n)
              (held-set_upstream (record u { outcome = of_kind kind }) u s.upstreams kn refl))

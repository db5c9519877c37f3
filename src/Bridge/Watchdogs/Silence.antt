-- ===== src/Bridge/Watchdogs/Silence.antt =====
-- Whom the silence watchdog blames.
use jota_gateway.Prelude.{
  ℕ, ◌+◌, ◌-◌, ◌≤◌, ◌<◌, suc, max, ◌≡◌, ◌≢◌, ◌⊎◌, inl, inr, refl, Bool, true, false, Option, none,
  some, List, [], ◌∷◌, arith, if◌then◌else◌, ltb, leb, if_both,
}
use jota_gateway.Reconnection.{ConnectionState, connected, reconnecting, degraded}
use jota_gateway.Bridge.Watchdogs.{
  Watch, Observation, Limits, Verdict, goes_on, strikes, closes, stops, raises, refresh, strike,
  judge, silent_round, round_in, next_round, watch_round, watch_rounds, later_of, same_time,
  new_watch,
}

abbrev pub blames : Verdict → Bool
blames strikes = true
blames closes = true
blames _ = false

-- The point of time `r`, if there is one, is before the last audio and older than the time-out.
abbrev pub IsStale : Limits → Observation → Option ℕ → Type 0
IsStale l o at = (r : ℕ) → at ≡ some r → (r < o.last_audio) × (r + l.silence_timeout < o.now)

strike-blames : (l : Limits) (w : Watch) → blames (strike l w).0 ≡ true
unfolding strike
strike-blames l w = ground arith

pub judge-IsStale :
    (l : Limits) (o : Observation) (at : Option ℕ) (w : Watch)
    → blames (judge l o at w).0 ≡ true
    → IsStale l o at
unfolding judge
judge-IsStale l o none w b r e = cc
judge-IsStale l o (some last) w b r e = ground (arith, b, e)

pub later_left :
    (l : Limits) (o : Observation) (a b : Option ℕ) → IsStale l o (later_of a b) → IsStale l o a
later_left l o none b v r e = cc
later_left l o (some a) none v r e = v r e
later_left l o (some a) (some b) v r e = let (p, q) = v (max a b) refl in ground (arith, e, p, q)

later_right :
    (l : Limits) (o : Observation) (a b : Option ℕ) → IsStale l o (later_of a b) → IsStale l o b
later_right l o none b v r e = v r e
later_right l o (some a) none v r e = cc
later_right l o (some a) (some b) v r e = let (p, q) = v (max a b) refl in ground (arith, e, p, q)

pub record Blamed (l : Limits) (o : Observation) : Type 0 where
  pub idle : o.in_flight ≡ false
  pub audible : o.now - o.last_audio ≤ l.audio_gap
  pub untold : IsStale l o o.transcript_at
  pub old_burst : IsStale l o o.burst_start

abbrev Follows : Limits → Observation → Verdict × Watch → Type 0
Follows l o p = blames p.0 ≡ true → Blamed l o

silent_round-Blamed : (l : Limits) (o : Observation) (w : Watch) → Follows l o (silent_round l o w)
unfolding silent_round
silent_round-Blamed l o w =
    if_both (Follows l o) o.in_flight (λ _ b. cc)
      (λ free.
        if_both (Follows l o) (ltb l.audio_gap (o.now - o.last_audio)) (λ _ b. cc)
          (λ near b.
            let points = later_of o.transcript_at o.burst_start in
            let v = judge-IsStale l o (later_of w.recovery_baseline points) w b in
            let rest = later_right l o w.recovery_baseline points v in
            record {
              idle = free;
              audible = ground (arith, near);
              untold = later_left l o o.transcript_at o.burst_start rest;
              old_burst = later_right l o o.transcript_at o.burst_start rest;
            }))

round_in-Blamed :
    (l : Limits) (o : Observation) (t : Option ConnectionState) (w : Watch)
    → blames (round_in l o t w).0 ≡ true
    → (t ≡ some connected) × (o.busy ≡ false) × Blamed l o
unfolding round_in
round_in-Blamed l o none w b = cc
round_in-Blamed l o (some degraded) w b = cc
round_in-Blamed l o (some reconnecting) w b = cc
round_in-Blamed l o (some connected) w b =
    if_both
      (λ (p : Verdict × Watch).
        blames p.0 ≡ true → (some connected ≡ some connected) × (o.busy ≡ false) × Blamed l o)
      o.busy (λ _ b. cc) (λ calm b. (refl, calm, silent_round-Blamed l o (refresh o w) b)) b

pub watch_round-Blamed :
    (l : Limits) (o : Observation) (w : Watch)
    → ((watch_round l o w).0 ≡ strikes) ⊎ ((watch_round l o w).0 ≡ closes)
    → (o.transcriber ≡ some connected) × (o.busy ≡ false) × Blamed l o
unfolding watch_round
watch_round-Blamed l o w (inl e) = round_in-Blamed l o o.transcriber w (rw e refl)
watch_round-Blamed l o w (inr e) = round_in-Blamed l o o.transcriber w (rw e refl)

abbrev one_if : Bool → ℕ
one_if true = 1
one_if false = 0

-- A round adds one strike at most, and closes at the limit only.
record Counts (l : Limits) (before : ℕ) (p : Verdict × Watch) : Type 0 where
  grows : p.1.silence_count ≤ before + one_if (blames p.0)
  at_limit : p.0 ≡ closes → l.max_silence_turns ≤ suc before

quiet :
    (l : Limits) (n : ℕ) (v : Verdict) (w : Watch)
    → v ≢ closes
    → w.silence_count ≤ n
    → Counts l n (v, w)
quiet l n v w other h = record { grows = omega (arith, h); at_limit = λ e. absurd (other e) }

strike-Counts : (l : Limits) (n : ℕ) (w : Watch) → w.silence_count ≤ n → Counts l n (strike l w)
unfolding strike
strike-Counts l n w h = record { grows = ground (arith, h); at_limit = λ e. ground (arith, h, e) }

goes_on_lem : goes_on ≢ closes
goes_on_lem e = cc

judge-Counts :
    (l : Limits) (o : Observation) (at : Option ℕ) (n : ℕ) (w : Watch)
    → w.silence_count ≤ n
    → Counts l n (judge l o at w)
unfolding judge
judge-Counts l o none n w h = quiet l n raises w (λ e. cc) h
judge-Counts l o (some last) n w h =
    if_both (Counts l n) (leb o.last_audio last)
      (λ _. quiet l n goes_on _ goes_on_lem (omega arith))
      (λ _.
        if_both (Counts l n)
          (ltb
            (if same_time (some last) o.burst_start
              then l.silence_timeout + l.warmup
              else l.silence_timeout)
            (o.now - last))
          (λ _. strike-Counts l n w h) (λ _. quiet l n goes_on w goes_on_lem h))

silent_round-Counts :
    (l : Limits) (o : Observation) (n : ℕ) (w : Watch)
    → w.silence_count ≤ n
    → Counts l n (silent_round l o w)
unfolding silent_round
silent_round-Counts l o n w h =
    if_both (Counts l n) o.in_flight (λ _. quiet l n goes_on _ goes_on_lem (omega arith))
      (λ _.
        if_both (Counts l n) (ltb l.audio_gap (o.now - o.last_audio))
          (λ _. quiet l n goes_on _ goes_on_lem (omega arith))
          (λ _.
            judge-Counts l o (later_of w.recovery_baseline (later_of o.transcript_at o.burst_start))
              n w h))

refresh_count : (o : Observation) (w : Watch) → (refresh o w).silence_count ≤ w.silence_count
unfolding refresh
refresh_count o w = ground arith

round_in-Counts :
    (l : Limits) (o : Observation) (t : Option ConnectionState) (n : ℕ) (w : Watch)
    → w.silence_count ≤ n
    → Counts l n (round_in l o t w)
unfolding round_in
round_in-Counts l o none n w h = quiet l n stops w (λ e. cc) h
round_in-Counts l o (some degraded) n w h = quiet l n stops w (λ e. cc) h
round_in-Counts l o (some reconnecting) n w h = quiet l n goes_on _ goes_on_lem h
round_in-Counts l o (some connected) n w h =
    if_both (Counts l n) o.busy (λ _. quiet l n goes_on _ goes_on_lem h)
      (λ _. silent_round-Counts l o n (refresh o w) (omega (arith, refresh_count o w)))

next_round-closes :
    (l : Limits) (v : Verdict) (w : Watch) (told : ℕ) (on on_told : ℕ × Verdict)
    → Counts l told (v, w)
    → (w.silence_count ≤ told → on.1 ≡ closes → l.max_silence_turns ≤ on.0)
    → (w.silence_count ≤ suc told → on_told.1 ≡ closes → l.max_silence_turns ≤ on_told.0)
    → (next_round v told on on_told).1 ≡ closes
    → l.max_silence_turns ≤ (next_round v told on on_told).0
unfolding next_round
next_round-closes l goes_on w told on on_told c f g e = f (omega (arith, c.grows)) e
next_round-closes l strikes w told on on_told c f g e = g (omega (arith, c.grows)) e
next_round-closes l closes w told on on_told c f g e = c.at_limit refl
next_round-closes l stops w told on on_told c f g e = cc
next_round-closes l raises w told on on_told c f g e = cc

rounds-closes :
    (l : Limits) (os : List Observation) (told : ℕ) (w : Watch)
    → w.silence_count ≤ told
    → (watch_rounds l os told w).1 ≡ closes
    → l.max_silence_turns ≤ (watch_rounds l os told w).0
unfolding watch_rounds watch_round
rounds-closes l [] told w h e = cc
rounds-closes l (o ∷ rest) told w h e =
    let (v, next) = watch_round l o w in
    next_round-closes l v next told (watch_rounds l rest told next)
      (watch_rounds l rest (suc told) next) (round_in-Counts l o o.transcriber told w h)
      (λ k. rounds-closes l rest told next k) (λ k. rounds-closes l rest (suc told) next k) e

-- Whatever the watchdog sees, it closes the session only after it has told the client of the silence
-- as often as the client's configuration says.
pub watch_rounds-closes :
    (l : Limits) (transcript_at : Option ℕ) (os : List Observation)
    → (watch_rounds l os 0 (new_watch transcript_at)).1 ≡ closes
    → l.max_silence_turns ≤ (watch_rounds l os 0 (new_watch transcript_at)).0
unfolding new_watch
watch_rounds-closes l transcript_at os e =
    rounds-closes l os 0 (new_watch transcript_at) (omega arith) e

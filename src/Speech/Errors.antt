-- ===== src/Speech/Errors.antt =====
-- services/speech/elevenlabs/common.py: how a failure of the provider is classified, and `probe` with its
-- cache. Whether a text holds a word is `mentions`, the parameter for Python's `lower` and `in`; a status
-- of HTTP and a close frame are read off the exception. Times are in milliseconds.
use jota_gateway.Prelude.{
  ℕ, ◌-◌, ◌+◌, ◌≡◌, refl, Bool, true, false, ◌||◌, Option, none, some, List, [], ◌∷◌, if◌then◌else◌,
  ltb, ◌==◌, ℕ_eq, Text, codes, any, arith, if_both, ◌≤◌,
}

pub data ErrorKind : Type 0 where
  auth quota capacity other : ErrorKind

abbrev pub quota_words : List Text
quota_words = codes "quota" ∷ codes "credits" ∷ codes "insufficient" ∷ []

abbrev pub time_limit_words : List Text
time_limit_words = codes "session_time_limit" ∷ codes "time limit" ∷ []

abbrev pub capacity_words : List Text
capacity_words = codes "limit" ∷ codes "busy" ∷ []

abbrev pub auth_words : List Text
auth_words =
    codes "api key"
    ∷ codes "unauthorized"
    ∷ codes "forbidden"
    ∷ codes "authentication"
    ∷ codes "invalid key"
    ∷ codes "permission"
    ∷ []

abbrev pub text_or_empty : Option Text → Text
text_or_empty none = []
text_or_empty (some t) = t

-- What `classify_exception` tells apart.
pub data Failure : Type 0 where
  invalid_status : (status : ℕ) → Failure
  connection_closed : (reason : Option Text) → Failure
  any_other : Failure

pub record Probed : Type 0 where
  pub closed : Bool
  pub terminal : Bool
  pub probe_at : Option ℕ
  pub probe_ok : Bool
  -- How often `_probe_once` ran.
  pub probes : ℕ

abbrev pub health_ttl : ℕ
health_ttl = 60000

module _ (mentions : Text → Text → Bool) where
  unfoldable pub classify_close : (reason : Option Text) → ErrorKind
  classify_close reason =
      let t = text_or_empty reason in
      if any (mentions t) quota_words
      then quota
      else if any (mentions t) time_limit_words
      then other
      else if any (mentions t) capacity_words
      then capacity
      else if any (mentions t) auth_words
      then auth
      else other

  unfoldable pub classify_exception : Failure → ErrorKind
  unfolding classify_close
  classify_exception (invalid_status status) =
      if status == 401 || status == 403 then auth else if status == 429 then capacity else other
  classify_exception (connection_closed reason) = classify_close reason
  classify_exception any_other = other

abbrev pub is_fresh : (now : ℕ) → Option ℕ → Bool
is_fresh now none = false
is_fresh now (some at) = ltb (now - at) health_ttl

-- The answer of `_probe_once`, if it had one, is cached at the time when it came.
unfoldable pub cache : (now : ℕ) → Option Bool → Probed → Bool × Probed
cache now none p = (false, p)
cache now (some ok) p = (ok, record p { probe_ok = ok; probe_at = some now })

-- `probe` asked at `now`; `answer` is what `_probe_once` would say, at `answered`.
unfoldable pub probe : (now answered : ℕ) → (answer : Option Bool) → Probed → Bool × Probed
unfolding cache
probe now answered answer p =
    if p.closed || p.terminal
    then (false, p)
    else if is_fresh now p.probe_at
    then (p.probe_ok, p)
    else cache answered answer (record p { probes = p.probes + 1 })

abbrev probed : (answered : ℕ) → (ok : Bool) → Probed → Probed
probed answered ok p = record p { probe_ok = ok; probe_at = some answered; probes = p.probes + 1 }

probe-asked :
    (now answered : ℕ) (ok : Bool) (p : Probed)
    → (p.closed || p.terminal) ≡ false
    → is_fresh now p.probe_at ≡ false
    → probe now answered (some ok) p ≡ (ok, probed answered ok p)
unfolding probe cache
probe-asked now answered ok p on stale =
    if_both (λ r. r ≡ (ok, probed answered ok p)) (p.closed || p.terminal)
      (λ off. ground (arith, on, off))
      (λ _.
        if_both (λ r. r ≡ (ok, probed answered ok p)) (is_fresh now p.probe_at)
          (λ fresh. ground (arith, stale, fresh)) (λ _. refl))

probe-fresh :
    (now answered : ℕ) (answer : Option Bool) (p : Probed)
    → (p.closed || p.terminal) ≡ false
    → is_fresh now p.probe_at ≡ true
    → probe now answered answer p ≡ (p.probe_ok, p)
unfolding probe
probe-fresh now answered answer p on fresh =
    if_both (λ r. r ≡ (p.probe_ok, p)) (p.closed || p.terminal) (λ off. ground (arith, on, off))
      (λ _.
        if_both (λ r. r ≡ (p.probe_ok, p)) (is_fresh now p.probe_at) (λ _. refl)
          (λ stale. ground (arith, stale, fresh)))

-- Once a probe has had an answer, every `probe` in the 60 seconds after it gives that answer and asks
-- the provider nothing.
pub probe-cached :
    (now answered later answered_later : ℕ) (ok : Bool) (answer : Option Bool) (p : Probed)
    → (p.closed || p.terminal) ≡ false
    → is_fresh now p.probe_at ≡ false
    → later - answered + 1 ≤ health_ttl
    → probe later answered_later answer (probe now answered (some ok) p).1
      ≡ (ok, (probe now answered (some ok) p).1)
probe-cached now answered later answered_later ok answer p on stale soon =
    rw (probe-asked now answered ok p on stale)
      (probe-fresh later answered_later answer (probed answered ok p) on (ground (arith, soon)))

-- ===== src/Speech/Stt/Messages.antt =====
-- services/speech/elevenlabs/stt.py: the messages of the provider, the end of an idle connection, the
-- degradation of the provider, and every interleaving of the sessions that share it.
use jota_gateway.Prelude.{
  ℕ, zero, suc, ◌+◌, ◌-◌, Bool, true, false, not, ◌||◌, Option, none, some, List, [], ◌∷◌, map,
  if◌then◌else◌, ltb, leb, ◌==◌, ℕ_eq, Text, Text_eq, codes, truthy, contains, Json, text, length,
}
use jota_gateway.Speech.Errors.{ErrorKind, auth, quota, capacity, other}
use jota_gateway.Speech.Stt.{
  Session, Provider, Upstream, Outcome, of_kind, error, by_error, Notice, transcription, set_busy,
  clear_busy_of, clear_busy, set_upstream, find_upstream, ensure_upstream, end_life, finish_life,
  connect_failed,
}
use jota_gateway.Speech.Stt.Sending.{
  send_audio, send_end, pump, connected_upstream, flush_buffer, send_commit,
}

unfoldable pub on_capacity : (now : ℕ) → Provider → Session → Provider × Session
unfolding set_busy
on_capacity now p s = (
  record p { provider_429 = p.provider_429 + 1 },
  set_busy by_error (record s { cooldown_until = now + p.initial_backoff }),
)

unfoldable pub on_provider_degraded : Session → Session
on_provider_degraded s = record s {
  buf = [];
  uncommitted = false;
  want_commit = false;
  degraded = true;
}

-- `_mark_terminal` but what it does to each session.
unfoldable pub mark_terminal : Provider → Provider
mark_terminal p = record p { auth_errors = p.auth_errors + 1; terminal = true }

-- The connection is to be closed, for this cause.
unfoldable pub closing_for : Outcome → Upstream → Session → Session
unfolding set_upstream
closing_for o u s = record s {
  upstreams = set_upstream (record u { outcome = o; closing = true }) s.upstreams;
}

abbrev pub heard : (now : ℕ) → Json → (is_final : Bool) → List Notice → List Notice
heard now (text t) is_final notices =
    if truthy t then transcription t is_final ∷ notices else notices
heard now _ is_final notices = notices

abbrev pub since : (now : ℕ) → Option ℕ → ℕ
since now none = now
since now (some t) = now - t

-- What a committed transcript leaves uncommitted.
unfoldable pub still_uncommitted : (now : ℕ) → Upstream → Session → Bool
still_uncommitted now u s =
    if u.commit_sent
    then if s.audio_since_commit then s.uncommitted else false
    else if ltb 300 (since now s.last_fwd)
    then false
    else s.uncommitted

unfoldable pub committed : (now : ℕ) → Json → Upstream → Session → Session
unfolding still_uncommitted set_upstream
committed now t u s = record s {
  upstreams = set_upstream (record u { commit_sent = false; final = true }) s.upstreams;
  uncommitted = still_uncommitted now u s;
  notices = heard now t true s.notices;
}

abbrev pub auth_errors : List Text
auth_errors = codes "auth_error" ∷ codes "unaccepted_terms" ∷ []

abbrev pub terminal_quota : List Text
terminal_quota = codes "quota_exceeded" ∷ []

abbrev pub capacity_errors : List Text
capacity_errors = codes "rate_limited" ∷ codes "queue_overflow" ∷ codes "resource_exhausted" ∷ []

abbrev pub other_errors : List Text
other_errors =
    codes "error"
    ∷ codes "session_time_limit_exceeded"
    ∷ codes "input_error"
    ∷ codes "invalid_request"
    ∷ codes "chunk_size_exceeded"
    ∷ codes "transcriber_error"
    ∷ []

-- `_on_message` for a message of type `mt`; what it warns of or ignores changes nothing.
unfoldable pub on_message :
    (now : ℕ) → (mt : Text) → (t : Json) → Upstream → Provider → Session → Provider × Session
unfolding set_upstream committed closing_for mark_terminal on_capacity
on_message now mt t u p s =
    if mt == codes "session_started"
    then (p, record s { upstreams = set_upstream (record u { ready = true }) s.upstreams })
    else if mt == codes "partial_transcript"
    then (p, record s { notices = heard now t false s.notices })
    else if mt == codes "committed_transcript"
    then (p, committed now t u s)
    else if contains mt auth_errors
    then (mark_terminal p, closing_for (of_kind auth) u s)
    else if contains mt terminal_quota
    then (mark_terminal p, closing_for (of_kind quota) u s)
    else if contains mt capacity_errors
    then on_capacity now p (closing_for (of_kind capacity) u s)
    else if contains mt other_errors
    then (p, closing_for error u s)
    else (p, s)

unfoldable pub closed_by : (now : ℕ) → ErrorKind → Provider → Session → Provider × Session
unfolding mark_terminal on_capacity
closed_by now auth p s = (mark_terminal p, s)
closed_by now quota p s = (mark_terminal p, s)
closed_by now capacity p s = on_capacity now p s
closed_by now other p s = (p, s)

-- The end of `_read`: the socket was closed, for the reason that was classified.
unfoldable pub read_ended :
    (now : ℕ) → ErrorKind → Upstream → Provider → Session → Provider × Session
unfolding closed_by set_upstream
read_ended now kind u p s =
    if u.closing
    then (p, s)
    else closed_by now kind p
        (record s { upstreams = set_upstream (record u { outcome = of_kind kind }) s.upstreams })

-- `_connect_error`.
unfoldable pub connect_error : ErrorKind → Provider → Provider
unfolding mark_terminal
connect_error auth p = mark_terminal p
connect_error quota p = mark_terminal p
connect_error capacity p = record p { provider_429 = p.provider_429 + 1 }
connect_error other p = p

abbrev pub is_terminal : ErrorKind → Bool
is_terminal auth = true
is_terminal quota = true
is_terminal _ = false

-- A connection fails: what `_connect_once` and `_life_main` make of it.
unfoldable pub connect_fails : (now : ℕ) → ErrorKind → Provider → Session → Provider × Session
unfolding connect_error connect_failed
connect_fails now kind p s =
    (connect_error kind p, if is_terminal kind then s else connect_failed now p s)

-- A connection is ready: the rest of `_connect_once`.
unfoldable pub connected : Session → Session
unfolding clear_busy_of
connected s = clear_busy_of by_error (record s { degraded = false })

abbrev pub idle_close : ℕ
idle_close = 5000

abbrev pub is_quiet : (now : ℕ) → Option ℕ → Bool
is_quiet now none = false
is_quiet now (some last) = leb idle_close (now - last)

-- A round of `_idle_loop`; the drain that it starts is a step of its own.
unfoldable pub start_drain : Option Upstream → Session → Session
unfolding set_upstream
start_drain none s = s
start_drain (some u) s =
    if u.closing || u.draining || not u.ready
    then s
    else record s { upstreams = set_upstream (record u { draining = true }) s.upstreams }

unfoldable pub idle_round : (now : ℕ) → Session → Session
unfolding clear_busy start_drain connected_upstream
idle_round now s =
    let t = clear_busy s in
    if is_quiet now s.last_fwd then start_drain (connected_upstream t) t else s

-- `_drain` up to its wait for the transcript.
unfoldable pub drain : (now : ℕ) → Upstream → Session → Session
unfolding flush_buffer send_commit
drain now u s =
    if u.closing || not u.ready
    then s
    else let t = flush_buffer s in
      if t.uncommitted || ltb 0 (length t.buf) then send_commit now u t else t

-- The rest of `_drain_and_close` but the socket's close.
unfoldable pub drained : Upstream → Session → Session
unfolding set_upstream
drained u s = record s { upstreams = set_upstream (record u { closing = true }) s.upstreams }

pub data Action : Type 0 where
  audio : (now : ℕ) → List ℕ → Action
  ends_phrase : (now : ℕ) → Action
  pumps opens : (now : ℕ) → Action
  receives : (now : ℕ) → (mt : Text) → (t : Json) → (upstream : ℕ) → Action
  loses : (now : ℕ) → ErrorKind → (upstream : ℕ) → Action
  connects : Action
  fails : (now : ℕ) → ErrorKind → Action
  idles : (now : ℕ) → Action
  drains : (now : ℕ) → (upstream : ℕ) → Action
  ends_drain : (upstream : ℕ) → Action
  -- The `finally` of a connection's task, and the callback when the task is done.
  ends_life life_done : (upstream : ℕ) → Action
  closes : Action

abbrev pub with_upstream :
    Option Upstream → Provider × Session → (Upstream → Provider × Session) → Provider × Session
with_upstream none r f = r
with_upstream (some u) r f = f u

-- One step of one session; what is for an upstream that never was does nothing.
unfoldable pub act : Action → Provider → Session → Provider × Session
unfolding send_audio send_end pump ensure_upstream find_upstream on_message read_ended connected
    connect_fails idle_round drain drained end_life finish_life
act (audio now pcm) p s = send_audio now pcm p s
act (ends_phrase now) p s = (p, send_end now p s)
act (pumps now) p s = (p, pump now s)
act (opens now) p s = ensure_upstream now p s
act (receives now mt t n) p s =
    with_upstream (find_upstream n s.upstreams) (p, s) (λ u. on_message now mt t u p s)
act (loses now kind n) p s =
    with_upstream (find_upstream n s.upstreams) (p, s) (λ u. read_ended now kind u p s)
act connects p s = (p, connected s)
act (fails now kind) p s = connect_fails now kind p s
act (idles now) p s = (p, idle_round now s)
act (drains now n) p s =
    with_upstream (find_upstream n s.upstreams) (p, s) (λ u. (p, drain now u s))
act (ends_drain n) p s = with_upstream (find_upstream n s.upstreams) (p, s) (λ u. (p, drained u s))
act (ends_life n) p s = end_life n p s
act (life_done n) p s = finish_life n p s
act closes p s = (p, record s { closed = true })

-- The session in the `i`-th place acts.
unfoldable pub act_at : ℕ → Action → Provider → List Session → Provider × List Session
unfolding act
act_at i a p [] = (p, [])
act_at zero a p (s ∷ ss) = let (q, t) = act a p s in (q, t ∷ ss)
act_at (suc i) a p (s ∷ ss) = let (q, ts) = act_at i a p ss in (q, s ∷ ts)

-- A terminal degradation reaches every session.
unfoldable pub step : ℕ × Action → Provider × List Session → Provider × List Session
unfolding act_at on_provider_degraded
step (i, a) (p, ss) =
    let (q, ts) = act_at i a p ss in
    (q, if q.auth_errors == p.auth_errors then ts else map on_provider_degraded ts)

unfoldable pub run : List (ℕ × Action) → Provider × List Session → Provider × List Session
unfolding step
run [] w = w
run (a ∷ rest) w = run rest (step a w)

-- ===== src/Speech/Stt.antt =====
-- services/speech/elevenlabs/stt.py: the sessions of the transcriber of one provider, which share its
-- permits for open connections. A task is cut where it waits; sending is not interrupted, since
-- `_send_lock` is held. Bytes of audio are in PCM16, as `f32le_to_s16le` and the energy gate leave them;
-- times are in milliseconds. An `_Upstream` is known by its number. Left out: the backoff of a
-- connection lost with audio pending, the socket itself, callbacks that fail, and logging.
pub mod Buffer
pub mod Messages
pub mod Held
pub mod Opening
pub mod Permits
pub mod Sending
use jota_gateway.Prelude.{
  ℕ, zero, suc, ◌+◌, ◌-◌, ◌*◌, ◌/◌, ◌%◌, min, Bool, true, false, not, ◌&&◌, ◌||◌, Option, none,
  some, List, [], ◌∷◌, ◌++◌, map, if◌then◌else◌, ltb, leb, ◌==◌, ℕ_eq, Text, Text_eq, codes, truthy,
  contains, length, take, drop, Json, text, Fields, get,
}
use jota_gateway.Speech.Errors.{ErrorKind, auth, quota, capacity, other}

abbrev pub bytes_per_s : ℕ
bytes_per_s = 32000

abbrev pub min_chunk_bytes : ℕ
min_chunk_bytes = 3200

abbrev pub max_chunk_bytes : ℕ
max_chunk_bytes = 32000

abbrev pub min_commit_gap : ℕ
min_commit_gap = 1000

abbrev pub max_sessions : ℕ
max_sessions = 15

-- `int(CONNECT_BUFFER_S * BYTES_PER_S) // 2 * 2`.
abbrev pub buf_cap : ℕ
buf_cap = 64000

-- The class of the cause of an end; `error` is an error of the provider that only closes.
pub data Outcome : Type 0 where
  of_kind : ErrorKind → Outcome
  error : Outcome

pub record Upstream : Type 0 where
  pub number : ℕ
  pub ready : Bool
  pub final : Bool
  pub closing : Bool
  pub draining : Bool
  pub commit_sent : Bool
  pub outcome : Outcome
  pub permit : Bool
  -- Whether its task is done.
  pub done : Bool

pub data Cause : Type 0 where
  no_cause by_sem by_error : Cause

-- What the session tells its bridge.
pub data Notice : Type 0 where
  busy ok : Notice
  transcription : Text → (is_final : Bool) → Notice

pub record Session : Type 0 where
  pub buf : List ℕ
  pub conn : Option ℕ
  -- Newest first.
  pub upstreams : List Upstream
  pub closed : Bool
  pub uncommitted : Bool
  pub audio_since_commit : Bool
  pub want_commit : Bool
  pub commit_scheduled : Bool
  pub last_commit_at : Option ℕ
  pub last_fwd : Option ℕ
  pub is_busy : Bool
  pub busy_cause : Cause
  pub cooldown_until : ℕ
  pub degraded : Bool
  -- The chunks sent, with their `commit`, and the notices, newest first.
  pub sent : List (List ℕ × Bool)
  pub notices : List Notice

pub record Provider : Type 0 where
  -- What is left of the semaphore.
  pub free : ℕ
  pub terminal : Bool
  pub initial_backoff : ℕ
  pub capacity_refusals : ℕ
  pub provider_429 : ℕ
  pub auth_errors : ℕ

unfoldable pub new_session : Provider → Session
new_session p = record {
  buf = [];
  conn = none;
  upstreams = [];
  closed = false;
  uncommitted = false;
  audio_since_commit = false;
  want_commit = false;
  commit_scheduled = false;
  last_commit_at = none;
  last_fwd = none;
  is_busy = false;
  busy_cause = no_cause;
  cooldown_until = 0;
  degraded = p.terminal;
  sent = [];
  notices = [];
}

unfoldable pub trim_buffer : List ℕ → List ℕ
trim_buffer buf =
    let excess = length buf - buf_cap in
    if ltb 0 excess then drop (excess + excess % 2) buf else buf

unfoldable pub set_busy : Cause → Session → Session
set_busy cause s =
    if s.is_busy
    then s
    else record s { is_busy = true; busy_cause = cause; notices = busy ∷ s.notices }

unfoldable pub clear_busy : Session → Session
clear_busy s =
    if s.is_busy
    then record s { is_busy = false; busy_cause = no_cause; notices = ok ∷ s.notices }
    else s

abbrev pub same_cause : Cause → Cause → Bool
same_cause no_cause no_cause = true
same_cause by_sem by_sem = true
same_cause by_error by_error = true
same_cause _ _ = false

unfoldable pub clear_busy_of : Cause → Session → Session
unfolding clear_busy
clear_busy_of cause s = if same_cause s.busy_cause cause then clear_busy s else s

abbrev pub is_some : Option ℕ → Bool
is_some none = false
is_some (some n) = true

abbrev pub is_conn : ℕ → Option ℕ → Bool
is_conn n none = false
is_conn n (some m) = m == n

unfoldable pub new_upstream : ℕ → Upstream
new_upstream n = record {
  number = n;
  ready = false;
  final = false;
  closing = false;
  draining = false;
  commit_sent = false;
  outcome = of_kind other;
  permit = true;
  done = false;
}

-- No permit is left.
unfoldable pub refuse : Provider → Session → Provider × Session
unfolding set_busy
refuse p s = (
  record p {
    capacity_refusals = if s.is_busy then p.capacity_refusals else p.capacity_refusals + 1;
  },
  record (set_busy by_sem s) { buf = []; uncommitted = false },
)

unfoldable pub open_upstream : Provider → Session → Provider × Session
unfolding new_upstream clear_busy_of
open_upstream p s =
    let n = length s.upstreams in
    (
      record p { free = p.free - 1 },
      clear_busy_of by_sem (record s { upstreams = new_upstream n ∷ s.upstreams; conn = some n }),
    )

unfoldable pub ensure_upstream : (now : ℕ) → Provider → Session → Provider × Session
unfolding refuse open_upstream
ensure_upstream now p s =
    if is_some s.conn || s.closed || p.terminal
    then (p, s)
    else if ltb now s.cooldown_until
    then (p, record s { buf = [] })
    else if p.free == 0
    then refuse p s
    else open_upstream p s

-- `_release_permit`: how many permits it gives back, and the upstreams after.
unfoldable pub release_permit : ℕ → List Upstream → ℕ × List Upstream
release_permit n [] = (0, [])
release_permit n (u ∷ us) =
    let (k, rest) = release_permit n us in
    if u.number == n
    then (if u.permit then 1 else 0, record u { permit = false } ∷ us)
    else (k, u ∷ rest)

unfoldable pub release : ℕ → Provider → Session → Provider × Session
unfolding release_permit
release n p s =
    let (k, us) = release_permit n s.upstreams in
    (record p { free = p.free + k }, record s { upstreams = us })

unfoldable pub mark_done : ℕ → List Upstream → List Upstream
mark_done n [] = []
mark_done n (u ∷ us) = if u.number == n then record u { done = true } ∷ us else u ∷ mark_done n us

-- The task is done, and its callback releases the permit if nothing has.
unfoldable pub finish_life : ℕ → Provider → Session → Provider × Session
unfolding release mark_done
finish_life n p s = release n p (record s { upstreams = mark_done n s.upstreams })

-- The `finally` of `_life_main` but its respawn.
unfoldable pub end_life : ℕ → Provider → Session → Provider × Session
unfolding release
end_life n p s = release n p (record s { conn = if is_conn n s.conn then none else s.conn })

-- A connection that failed: the audio that waits is dropped.
unfoldable pub connect_failed : (now : ℕ) → Provider → Session → Session
connect_failed now p s = record s {
  buf = [];
  uncommitted = false;
  cooldown_until = now + p.initial_backoff;
}

unfoldable pub find_upstream : ℕ → List Upstream → Option Upstream
find_upstream n [] = none
find_upstream n (u ∷ us) = if u.number == n then some u else find_upstream n us

unfoldable pub set_upstream : Upstream → List Upstream → List Upstream
set_upstream v [] = []
set_upstream v (u ∷ us) = if u.number == v.number then v ∷ us else u ∷ set_upstream v us

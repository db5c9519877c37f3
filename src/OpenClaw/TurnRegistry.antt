-- ===== src/OpenClaw/TurnRegistry.antt =====
-- services/openclaw/registry.py: `TurnRegistry`. Queues are shared objects: the registry and the
-- reader of a turn hold the same one, so they live in a store and are named by references.
-- `time.monotonic()` is an argument, in milliseconds.
pub mod Ownership
pub mod Histories
pub mod Tenure
pub mod Overflow
pub mod Routing
use jota_gateway.Prelude.{
  ℕ, suc, ◌+◌, ◌≤◌, Bool, true, false, not, Option, none, some, List, [], ◌∷◌, ◌++◌, if◌then◌else◌,
  ◌==◌, ℕ_eq, leb, ltb, max, length, Text, Text_eq, codes, Dict, lookup, insert, delete, has_key,
  keys, keep_if, member, set_add, set_discard, last_segment,
}
use jota_gateway.OpenClaw.Queue.{Queue, Item, put_nowait, drain, force_put}

-- `client_id_from_session_key`: the last segment after the last colon.
unfoldable pub client_id_from_session_key : Text → Text
client_id_from_session_key session_key = last_segment b':' session_key

-- core/session_key.py.
unfoldable pub make_session_key : Text → Text → Text
make_session_key agent client_id = (codes "agent:" ++ agent) ++ b':' ∷ client_id

abbrev pub turn_abort_tombstone_ms : ℕ
turn_abort_tombstone_ms = 5000

pub record TurnRegistry : Type 0 where
  pub max_queue_size : Option ℕ
  pub overflowed : List Text
  pub tombstones : Dict Text ℕ
  pub sessions : Dict Text ℕ
  pub peak : Dict Text ℕ
  pub req_to_session : Dict Text Text
  pub session_owner : Dict Text Text
  -- The store of queue objects, and the next reference that is free.
  pub store : ℕ → Queue
  pub next_ref : ℕ

abbrev pub write : ℕ → Queue → (ℕ → Queue) → ℕ → Queue
write ref q store r = if ref == r then q else store r

abbrev pub get_or : {A : Type 0} → A → Option A → A
get_or d none = d
get_or d (some a) = a

unfoldable pub new : Option ℕ → TurnRegistry
new size = record {
  max_queue_size = size;
  overflowed = [];
  tombstones = [];
  sessions = [];
  peak = [];
  req_to_session = [];
  session_owner = [];
  store = λ _. record { maxsize = 0; items = [] };
  next_ref = 0;
}

unfoldable pub enrol : ℕ → Text → Text → TurnRegistry → TurnRegistry
enrol size req_id session_key r = record r {
  store = write r.next_ref (record { maxsize = size; items = [] }) r.store;
  next_ref = suc r.next_ref;
  sessions = insert session_key r.next_ref r.sessions;
  req_to_session = insert req_id session_key r.req_to_session;
  session_owner = insert session_key req_id r.session_owner;
}

-- `none` is the exception `TurnInProgress`. The first argument is `settings.TURN_QUEUE_MAX`.
unfoldable pub register : ℕ → Text → Text → TurnRegistry → Option (ℕ × TurnRegistry)
unfolding enrol
register turn_queue_max req_id session_key r =
    if has_key session_key r.sessions
    then none
    else some (r.next_ref, enrol (get_or turn_queue_max r.max_queue_size) req_id session_key r)

abbrev pub is_owner : Text → Option Text → Bool
is_owner req_id none = false
is_owner req_id (some owner) = owner == req_id

unfoldable pub release : Text → Text → TurnRegistry → TurnRegistry
release session_key req_id r =
    if is_owner req_id (lookup session_key r.session_owner)
    then record r {
      sessions = delete session_key r.sessions;
      session_owner = delete session_key r.session_owner;
      overflowed = set_discard session_key r.overflowed;
    }
    else r

unfoldable pub unregister : Text → Text → TurnRegistry → TurnRegistry
unfolding release
unregister session_key req_id r =
    let s = release session_key req_id r in
    record s { req_to_session = delete req_id s.req_to_session }

unfoldable pub depth : Text → TurnRegistry → ℕ × ℕ
depth session_key r = (
  elim (lookup session_key r.sessions) [ none ↦ 0 | some ref ↦ length (r.store ref).items ],
  get_or 0 (lookup session_key r.peak),
)

unfoldable pub pop_peak : Text → TurnRegistry → ℕ × TurnRegistry
pop_peak session_key r =
    (get_or 0 (lookup session_key r.peak), record r { peak = delete session_key r.peak })

unfoldable pub get_queue_by_session : Text → TurnRegistry → Option ℕ
get_queue_by_session session_key r = lookup session_key r.sessions

-- The queue is full: flag the turn for abort, and leave only the overflow mark in its queue.
unfoldable pub abort_turn : ℕ → Text → ℕ → TurnRegistry → TurnRegistry
abort_turn now session_key ref r = record r {
  overflowed = set_add session_key r.overflowed;
  tombstones = insert session_key (now + turn_abort_tombstone_ms) r.tombstones;
  store =
      write ref (get_or (drain (r.store ref)) (put_nowait Item.overflow (drain (r.store ref))))
        r.store;
}

accept : Text → ℕ → Queue → TurnRegistry → TurnRegistry
accept session_key ref q r = record r {
  store = write ref q r.store;
  peak = insert session_key (max (get_or 0 (lookup session_key r.peak)) (length q.items)) r.peak;
}

-- `_deliver`.
unfoldable pub deliver : ℕ → Text → ℕ → Item → TurnRegistry → TurnRegistry
unfolding abort_turn accept
deliver now session_key ref item r =
    if member session_key r.overflowed then r else elim (put_nowait item (r.store ref)) [
      | some q ↦ accept session_key ref q r
      | none ↦ abort_turn now session_key ref r
    ]

-- The result says whether a turn owns the session.
unfoldable pub deliver_by_session : ℕ → Text → Item → TurnRegistry → Bool × TurnRegistry
unfolding deliver
deliver_by_session now session_key item r = elim (lookup session_key r.sessions) [
  | none ↦ (false, r)
  | some ref ↦ (true, deliver now session_key ref item r)
]

unfoldable pub deliver_by_req : ℕ → Text → Item → TurnRegistry → Bool × TurnRegistry
unfolding deliver_by_session
deliver_by_req now req_id item r = elim (lookup req_id r.req_to_session) [
  | none ↦ (false, r)
  | some session_key ↦ deliver_by_session now session_key item r
]

-- The tombstones whose deadline has come are dropped first.
unfoldable pub live : ℕ → Dict Text ℕ → Dict Text ℕ
live now [] = []
live now ((sk, deadline) ∷ d) =
    let rest = live now d in if leb deadline now then rest else (sk, deadline) ∷ rest

unfoldable pub is_aborted : ℕ → Text → TurnRegistry → Bool × TurnRegistry
unfolding live
is_aborted now session_key r =
    let left = live now r.tombstones in (has_key session_key left, record r { tombstones = left })

-- Every queue in turn, in the order of the dictionary.
put_errors : Text → Dict Text ℕ → (ℕ → Queue) → ℕ → Queue
put_errors message [] store = store
put_errors message ((sk, ref) ∷ d) store =
    put_errors message d
      (write ref (get_or (store ref) (force_put (Item.error message) (store ref))) store)

unfoldable pub error_all : Text → TurnRegistry → TurnRegistry
unfolding put_errors
error_all message r = record r {
  store = put_errors message r.sessions r.store;
  overflowed = [];
  sessions = [];
  req_to_session = [];
  session_owner = [];
}

-- ===== src/Bridge/UserTurns.antt =====
-- services/bridge.py: the turns of the user (`_start_turn`, `_cancel_turn`, `_cancel_and_wait`,
-- `_call_orchestrator`) and what `close_all` does with the one in flight. Each coroutine is cut where it
-- waits: at `_turn_lock`, at the end of a cancelled task, at the limit of the closing. A task is known
-- by the number of its creation, and a turn id `t-N` by N; what is sent is kept newest first. A task
-- that no list holds is done. Left out: the contents of the turn, sends that fail other than
-- `turn_start`, the steps of `close_all` after the turn but its end, and logging.
pub mod Brackets
pub mod Lives
pub mod Locks
pub mod Safety
pub mod Shutting
pub mod Closing
pub mod StartFree
pub mod Ending
pub mod CloseAll
pub mod Steps
use jota_gateway.Prelude.{
  ℕ, ◌+◌, ◌%◌, ◌^◌, Bool, true, false, not, ◌&&◌, Option, none, some, List, [], ◌∷◌, ◌++◌,
  if◌then◌else◌, ◌==◌, ℕ_eq, Text, Text_eq, codes, any,
}

pub data Frame : Type 0 where
  turn_start : (turn_id turn_seq : ℕ) → Frame
  turn_error turn_end : (turn_id : ℕ) → Frame

-- A task that has not run yet, with or without a cancellation; one that is in `_run_turn`, with or
-- without a cancellation.
pub data Phase : Type 0 where
  created doomed : Phase
  running stopping : (turn_id : ℕ) → Phase

pub record Task : Type 0 where
  pub number : ℕ
  pub text : Text
  pub phase : Phase

-- Who waits for `_turn_lock`: a `_start_turn`, and a `_cancel_turn` with the turn that it captured.
pub data Request : Type 0 where
  start : (text : Text) → Request
  stop : (task : ℕ) (turn_id : Option ℕ) → Request

-- Who has it: a `_start_turn` that waits for the turn before, or for `_cut_push`; a `_cancel_turn` that
-- waits for its turn.
pub data Holder : Type 0 where
  free : Holder
  replacing : (text : Text) (task : ℕ) → Holder
  cutting : (text : Text) → Holder
  cancelling : (task : ℕ) (turn_id : Option ℕ) → Holder

-- Where the `close_all` that has `_close_lock` is.
pub data Closer : Type 0 where
  not_closing closed : Closer
  cancelling_turn : (status : Text) (task : Option ℕ) → Closer
  turn_closed : (status : Text) → Closer

pub record EndMeta : Type 0 where
  pub status : Text
  pub reason : Text
  pub turn_in_flight : Bool

pub record Bridge : Type 0 where
  pub turn_seq : ℕ
  pub tasks_created : ℕ
  -- The tasks that are not done.
  pub live : List Task
  pub active_turn : Option ℕ
  pub active_turn_id : Option ℕ
  pub holder : Holder
  -- Whether the one that has the lock was cancelled meanwhile.
  pub interrupted : Bool
  pub waiting : List Request
  -- What the calls of `_cancel_turn` returned.
  pub answers : List (Bool × Option ℕ)
  pub closing : Bool
  pub closer : Closer
  pub close_reason : Option Text
  pub turn_in_flight_at_close : Option Bool
  pub turn_end_sent_at_close : Option ℕ
  -- The ends of the session that the tracker was told.
  pub session_ends : List EndMeta
  pub log : List Frame

unfoldable pub new_bridge : Bridge
new_bridge = record {
  turn_seq = 0;
  tasks_created = 0;
  live = [];
  active_turn = none;
  active_turn_id = none;
  holder = free;
  interrupted = false;
  waiting = [];
  answers = [];
  closing = false;
  closer = not_closing;
  close_reason = none;
  turn_in_flight_at_close = none;
  turn_end_sent_at_close = none;
  session_ends = [];
  log = [];
}

abbrev pub is_id : Option ℕ → ℕ → Bool
is_id none n = false
is_id (some m) n = m == n

-- `not task.done()`.
unfoldable pub is_live : ℕ → List Task → Bool
is_live n [] = false
is_live n (t ∷ ts) = if t.number == n then true else is_live n ts

abbrev pub cancelled : Phase → Phase
cancelled created = doomed
cancelled doomed = doomed
cancelled (running id) = stopping id
cancelled (stopping id) = stopping id

-- `task.cancel()`.
unfoldable pub cancel : ℕ → List Task → List Task
cancel n [] = []
cancel n (t ∷ ts) =
    if t.number == n then record t { phase = cancelled t.phase } ∷ ts else t ∷ cancel n ts

unfoldable pub remove : ℕ → List Task → List Task
remove n [] = []
remove n (t ∷ ts) = if t.number == n then ts else t ∷ remove n ts

unfoldable pub set_phase : ℕ → Phase → List Task → List Task
set_phase n ph [] = []
set_phase n ph (t ∷ ts) =
    if t.number == n then record t { phase = ph } ∷ ts else t ∷ set_phase n ph ts

unfoldable pub phase_of : ℕ → List Task → Option Phase
phase_of n [] = none
phase_of n (t ∷ ts) = if t.number == n then some t.phase else phase_of n ts

unfoldable pub start_turn : Text → Bridge → Bridge
start_turn text b = if b.closing then b else record b { waiting = b.waiting ++ start text ∷ [] }

unfoldable pub answer : Bool → Option ℕ → Bridge → Bridge
answer b id s = record s { answers = (b, id) ∷ s.answers }

unfoldable pub cancel_captured : (turn : Option ℕ) → Bridge → Bridge
unfolding is_live answer
cancel_captured none b = answer false none b
cancel_captured (some n) b =
    if is_live n b.live
    then record b { waiting = b.waiting ++ stop n b.active_turn_id ∷ [] }
    else answer false none b

-- `_cancel_turn` up to the lock.
unfoldable pub cancel_turn : Bridge → Bridge
unfolding cancel_captured
cancel_turn b = cancel_captured b.active_turn b

-- `_cancel_and_wait` up to its wait.
unfoldable pub cancel_and_wait : Holder → ℕ → Bridge → Bridge
unfolding cancel
cancel_and_wait h n b = record b { live = cancel n b.live; holder = h }

unfoldable pub replace_turn : (current : Option ℕ) → Text → Bridge → Bridge
unfolding is_live cancel_and_wait
replace_turn none text b = record b { holder = cutting text }
replace_turn (some n) text b =
    if is_live n b.live
    then cancel_and_wait (replacing text n) n b
    else record b { holder = cutting text }

-- What the next one does with the lock, up to its wait.
unfoldable pub grant : Request → Bridge → Bridge
unfolding is_live cancel_and_wait replace_turn answer
grant (start text) b = if b.closing then b else replace_turn b.active_turn text b
grant (stop n id) b =
    if is_live n b.live then cancel_and_wait (cancelling n id) n b else answer false none b

unfoldable pub take_lock : Holder → List Request → Bridge → Bridge
unfolding grant
take_lock free (r ∷ rs) b = grant r (record b { waiting = rs })
take_lock _ _ b = b

unfoldable pub release : Bridge → Bridge
release b = record b { holder = free; interrupted = false }

-- The task that was cancelled is done: the rest of `_cancel_and_wait` but its `raise_if_cancelled`.
unfoldable pub forget : ℕ → Bridge → Bridge
forget n b = if is_id b.active_turn n then record b { active_turn = none } else b

unfoldable pub create_turn : Text → Bridge → Bridge
create_turn text b =
    let n = b.tasks_created in
    record b {
      tasks_created = n + 1;
      live = record { number = n; text = text; phase = created } ∷ b.live;
      active_turn = some n;
    }

-- The one that has the lock goes on, once what it waits for has ended; its own cancellation is
-- raised then.
unfoldable pub proceed : Holder → Bridge → Bridge
unfolding is_live release forget create_turn
proceed free b = b
proceed (replacing text n) b =
    if is_live n b.live
    then b
    else if b.interrupted
    then release (forget n b)
    else record (forget n b) { holder = cutting text }
proceed (cutting text) b =
    if b.interrupted
    then release b
    else if b.closing
    then release b
    else release (create_turn text b)
proceed (cancelling n id) b =
    if is_live n b.live
    then b
    else if b.interrupted
    then release (forget n b)
    else release (record (forget n b) { answers = (true, id) ∷ b.answers })

unfoldable pub interrupt : Holder → Bridge → Bridge
interrupt free b = b
interrupt _ b = record b { interrupted = true }

-- `_call_orchestrator` up to `_run_turn`, and whether its `turn_start` could be sent.
unfoldable pub begin_turn : ℕ → (is_sent : Bool) → Bridge → Bridge
unfolding remove set_phase
begin_turn n is_sent b =
    let id = b.turn_seq + 1 in
    if is_sent
    then record b {
      turn_seq = id;
      log = turn_start id (id % 2 ^ 16) ∷ b.log;
      active_turn_id = some id;
      live = set_phase n (running id) b.live;
    }
    else record b { turn_seq = id; live = remove n b.live }

-- How `_run_turn` ends: it returns or is cancelled, raises `ClientGone`, or raises anything else.
pub data Outcome : Type 0 where
  ends client_gone fails : Outcome

abbrev pub error_frames : Outcome → ℕ → List Frame → List Frame
error_frames fails id log = turn_error id ∷ log
error_frames _ id log = log

-- The `finally` of `_call_orchestrator`.
unfoldable pub end_turn : ℕ → ℕ → Outcome → Bridge → Bridge
unfolding remove
end_turn n id how b =
    let log = error_frames how id b.log in
    record b {
      active_turn_id = if is_id b.active_turn_id id then none else b.active_turn_id;
      log = if is_id b.turn_end_sent_at_close id then log else turn_end id ∷ log;
      live = remove n b.live;
    }

-- A task runs to its next wait.
unfoldable pub run_task : ℕ → (is_sent : Bool) → Outcome → Option Phase → Bridge → Bridge
unfolding begin_turn end_turn remove
run_task n is_sent how none b = b
run_task n is_sent how (some created) b = begin_turn n is_sent b
run_task n is_sent how (some doomed) b = record b { live = remove n b.live }
run_task n is_sent how (some (running id)) b = end_turn n id how b
run_task n is_sent how (some (stopping id)) b = end_turn n id how b

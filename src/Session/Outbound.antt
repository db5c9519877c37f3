-- ===== src/Session/Outbound.antt =====
-- services/outbound.py: `QueuedSender`. The writer task and `aclose` are steps between which other
-- calls may come: a step for each stretch of code with no `await`. Messages are numbered by the
-- caller; a binary one has its length. `sent` and `accepted` are kept to state what the client gets.
pub mod Order
pub mod Counters
use jota_gateway.Prelude.{
  ℕ, suc, ◌+◌, ◌-◌, max, Bool, true, false, not, ◌&&◌, ◌||◌, Option, none, some, List, [], ◌∷◌,
  ◌++◌, if◌then◌else◌,
}

pub data Message : Type 0 where
  json : ℕ → Message
  bytes : (id length : ℕ) → Message

pub data Entry : Type 0 where
  message : Message → Entry
  -- A `flush()` that waits, by its future's number.
  flush : ℕ → Entry
  stop : Entry

pub data Failure : Type 0 where
  -- `ClientSlow`
  slow : Failure
  -- The exception of the socket.
  socket : Failure

pub data Writer : Type 0 where
  waiting : Writer
  writing : Message → Writer
  finished : Writer

pub record Sender : Type 0 where
  pub queue : List Entry
  pub failure : Option Failure
  pub closing : Bool
  pub pending_msgs : ℕ
  pub pending_bytes : ℕ
  pub peak_msgs : ℕ
  pub peak_bytes : ℕ
  pub writer : Writer
  -- How often `on_slow` was called, and the flushes that returned or failed.
  pub slow_calls : ℕ
  pub flushed : List ℕ
  pub flush_failed : List ℕ
  pub accepted : List Message
  pub sent : List Message

unfoldable pub new_sender : Sender
new_sender = record {
  queue = [];
  failure = none;
  closing = false;
  pending_msgs = 0;
  pending_bytes = 0;
  peak_msgs = 0;
  peak_bytes = 0;
  writer = waiting;
  slow_calls = 0;
  flushed = [];
  flush_failed = [];
  accepted = [];
  sent = [];
}

abbrev pub is_finished : Writer → Bool
is_finished finished = true
is_finished _ = false

abbrev is_some : Option Failure → Bool
is_some none = false
is_some (some f) = true

-- `_check_open` passes.
unfoldable pub is_open : Sender → Bool
is_open s = not (is_some s.failure || s.closing || is_finished s.writer)

abbrev pub size_of : Message → ℕ
size_of (json id) = 0
size_of (bytes id length) = length

unfoldable pub count_in : ℕ → Sender → Sender
count_in nbytes s = record s {
  pending_msgs = s.pending_msgs + 1;
  pending_bytes = s.pending_bytes + nbytes;
  peak_msgs = max s.peak_msgs (s.pending_msgs + 1);
  peak_bytes = max s.peak_bytes (s.pending_bytes + nbytes);
}

unfoldable pub count_out : Message → Sender → Sender
count_out m s = record s {
  pending_msgs = s.pending_msgs - 1;
  pending_bytes = s.pending_bytes - size_of m;
}

-- `send_json` and `send_bytes`; `none` is `ClientGone`.
unfoldable pub send : Message → Sender → Option Sender
unfolding is_open count_in
send m s =
    if is_open s
    then some (
        count_in (size_of m)
          (record s { queue = s.queue ++ message m ∷ []; accepted = s.accepted ++ m ∷ [] }))
    else none

unfoldable pub start_flush : ℕ → Sender → Option Sender
unfolding is_open
start_flush future s =
    if is_open s then some (record s { queue = s.queue ++ flush future ∷ [] }) else none

-- `_discard_pending`.
unfoldable pub discard_entries : List Entry → Sender → Sender
unfolding count_out
discard_entries [] s = s
discard_entries (message m ∷ rest) s = discard_entries rest (count_out m s)
discard_entries (flush future ∷ rest) s =
    discard_entries rest (record s { flush_failed = s.flush_failed ++ future ∷ [] })
discard_entries (stop ∷ rest) s = discard_entries rest s

unfoldable pub discard_pending : Sender → Sender
unfolding discard_entries
discard_pending s = discard_entries s.queue (record s { queue = [] })

-- What the writer does with an entry that it takes from the queue.
unfoldable pub handle : Entry → Sender → Sender
unfolding count_out
handle stop s = record s { writer = finished }
handle (flush future) s = record s { flushed = s.flushed ++ future ∷ [] }
handle (message m) s = record (count_out m s) { writer = writing m }

unfoldable pub take_entry : List Entry → Sender → Sender
unfolding handle
take_entry [] s = s
take_entry (e ∷ rest) s = handle e (record s { queue = rest })

pub data WriteResult : Type 0 where
  written : WriteResult
  -- The send stayed blocked for `CLIENT_SEND_TIMEOUT_S`.
  timed_out : WriteResult
  -- The socket raised.
  broken : WriteResult

unfoldable pub fail_write : Failure → Sender → Sender
unfolding discard_pending
fail_write f s = discard_pending (record s { failure = some f; writer = finished })

-- The socket write ends.
unfoldable pub end_write : WriteResult → Message → Sender → Sender
unfolding fail_write
end_write written m s = record s { sent = s.sent ++ m ∷ []; writer = waiting }
end_write timed_out m s = let t = fail_write slow s in record t { slow_calls = suc t.slow_calls }
end_write broken m s = fail_write socket s

-- One stretch of `_run`. The argument is how the write ends, if one is under way.
unfoldable pub writer_step : WriteResult → Sender → Sender
writer_step r s = elim s.writer [
  | waiting ↦ take_entry s.queue s
  | writing m ↦ end_write r m s
  | finished ↦ s
]

-- `aclose` up to its wait, and from the end of the wait on. A writer that is not done by then was
-- cancelled: what it was writing does not count as sent.
unfoldable pub start_close : Sender → Sender
start_close s =
    if is_finished s.writer
    then record s { closing = true }
    else record s { closing = true; queue = s.queue ++ stop ∷ [] }

unfoldable pub end_close : Sender → Sender
unfolding discard_pending
end_close s = discard_pending (record s { writer = finished })

pub data Action : Type 0 where
  sends : Message → Action
  flushes : ℕ → Action
  writes : WriteResult → Action
  starts_close ends_close : Action

abbrev or_same : Sender → Option Sender → Sender
or_same s none = s
or_same s (some t) = t

unfoldable pub step : Action → Sender → Sender
step (sends m) s = or_same s (send m s)
step (flushes future) s = or_same s (start_flush future s)
step (writes r) s = writer_step r s
step starts_close s = start_close s
step ends_close s = end_close s

unfoldable pub run : List Action → Sender → Sender
unfolding step
run [] s = s
run (a ∷ rest) s = run rest (step a s)

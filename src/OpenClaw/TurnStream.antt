-- ===== src/OpenClaw/TurnStream.antt =====
-- services/openclaw/client.py: `stream_response`, the life of one turn; with `ToolCallEvent` of
-- services/openclaw/models.py. What the turn takes from its queue, timeouts included, is a list of
-- what the world hands it; where the list ends, the consumer has closed the stream while it waits.
-- A consumer may also close it at any event that it gets. Of a tool event the name, the id and the
-- texts are taken to be texts, and its result an object, where they are there; those that are not are
-- read as missing.
pub mod Endings
use jota_gateway.Prelude.{
  ℕ, zero, suc, map, Bool, true, false, not, ◌&&◌, ◌||◌, Option, none, some, List, [], ◌∷◌, ◌++◌,
  if◌then◌else◌, Text, Text_eq, ◌==◌, codes, truthy, Json, Items, Fields, get, is_text, text?,
}
use jota_gateway.OpenClaw.Queue
use jota_gateway.OpenClaw.Queue.{Item}
use jota_gateway.OpenClaw.TurnRegistry.{TurnRegistry, register, unregister}
use jota_gateway.OpenClaw.ChatText.{ChatTextTracker, fresh, feed}

-- The phase is `start` (with arguments) or `result` (with a text and an error mark).
pub data ToolCallEvent : Type 0 where
  started : (name tool_call_id : Text) (args : Json) → ToolCallEvent
  returned : (name tool_call_id : Text) (result : Option Text) (is_error : Json) → ToolCallEvent

block_text : Json → Text
block_text (Json.object fs) =
    if is_text (codes "text") (get (codes "type") fs)
    then elim (text? (get (codes "text") fs)) [ none ↦ [] | some t ↦ t ]
    else []
block_text _ = []

-- `"\n".join(t for t in texts if t)`.
joined : Text → Text → Text
joined [] rest = rest
joined t [] = t
joined t rest = t ++ b'\n' ∷ rest

join_blocks : Items → Text
unfolding block_text joined
join_blocks Items.nil = []
join_blocks (Items.cons b rest) = joined (block_text b) (join_blocks rest)

nonempty : Text → Option Text
nonempty [] = none
nonempty t = some t

unfoldable pub flatten_tool_result_content : Json → Option Text
unfolding join_blocks nonempty
flatten_tool_result_content (Json.array blocks) = nonempty (join_blocks blocks)
flatten_tool_result_content _ = none

fields_of : Json → Fields
fields_of (Json.object fs) = fs
fields_of _ = Fields.end

-- A name and an id that are missing or empty give no event.
parse_tool : Bool → Bool → Text → Text → Fields → Option ToolCallEvent
unfolding fields_of
parse_tool is_start is_result name tool_call_id info =
    if not (is_start || is_result) || not (truthy name) || not (truthy tool_call_id)
    then none
    else if is_result
    then some (
        returned name tool_call_id
          (flatten_tool_result_content
            (get (codes "content") (fields_of (get (codes "result") info))))
          (get (codes "isError") info))
    else some (started name tool_call_id (get (codes "args") info))

text_or_empty : Json → Text
text_or_empty (Json.text t) = t
text_or_empty _ = []

unfoldable pub from_session_tool_payload : Fields → Option ToolCallEvent
unfolding parse_tool text_or_empty
from_session_tool_payload info =
    let phase = get (codes "phase") info in
    parse_tool (is_text (codes "start") phase) (is_text (codes "result") phase)
      (text_or_empty (get (codes "name") info)) (text_or_empty (get (codes "toolCallId") info)) info

pub data OrchestratorEvent : Type 0 where
  token : Text → OrchestratorEvent
  tool_call : ToolCallEvent → OrchestratorEvent
  done : OrchestratorEvent
  error : Text → OrchestratorEvent

pub data Received : Type 0 where
  item : Item → Received
  timeout : Received

abbrev pub orchestrator_error : Text
orchestrator_error = codes "orchestrator_error"

-- What the stream yields, `_finished` at each of these events, and `_finished` after the loop.
pub record Yielded : Type 0 where
  pub events : List OrchestratorEvent
  pub marks : List Bool
  pub finished : Bool

abbrev pub ends : OrchestratorEvent → Bool → Yielded
ends e finished = record { events = e ∷ []; marks = finished ∷ []; finished = finished }

abbrev pub unfinished : OrchestratorEvent → Bool
unfinished e = false

-- These events come before `_finished` is set.
unfoldable pub prefix : List OrchestratorEvent → Yielded → Yielded
prefix es y = record y { events = es ++ y.events; marks = map unfinished es ++ y.marks }

unfoldable pub token_for : Text → List OrchestratorEvent
token_for [] = []
token_for t = token t ∷ []

unfoldable pub tool_for : Option ToolCallEvent → List OrchestratorEvent
tool_for none = []
tool_for (some e) = tool_call e ∷ []

unfoldable pub turn_loop : List Received → ChatTextTracker → Yielded
unfolding prefix token_for tool_for
turn_loop [] t = record { events = []; marks = []; finished = false }
turn_loop (timeout ∷ rest) t = ends (error (codes "turn_timeout")) false
turn_loop (item (Item.chat payload) ∷ rest) t =
    let (delta, s) = feed payload t in
    let state = get (codes "state") payload in
    let more = turn_loop rest s in
    prefix (token_for delta) (
      if is_text (codes "final") state
      then ends done true
      else if is_text (codes "error") state
      then ends (error orchestrator_error) true
      else more)
turn_loop (item (Item.tool info) ∷ rest) t =
    prefix (tool_for (from_session_tool_payload info)) (turn_loop rest t)
turn_loop (item (Item.done frame) ∷ rest) t = ends (error orchestrator_error) true
turn_loop (item Item.overflow ∷ rest) t = ends (error (codes "turn_overflow")) false
turn_loop (item (Item.error message) ∷ rest) t = ends (error message) true

-- The consumer closes the stream while it is suspended at the `k`-th event, if there is one, counted from
-- 0: what it has got, and `_finished` as it stands there.
unfoldable pub close_at :
    ℕ → List OrchestratorEvent → List Bool → Bool → List OrchestratorEvent × Bool
close_at k [] ms finished = ([], finished)
close_at k (e ∷ es) [] finished = (e ∷ es, finished)
close_at zero (e ∷ es) (m ∷ ms) finished = (e ∷ [], m)
close_at (suc k) (e ∷ es) (m ∷ ms) finished =
    let (seen, f) = close_at k es ms finished in (e ∷ seen, f)

unfoldable pub taken : Option ℕ → Yielded → List OrchestratorEvent × Bool
unfolding close_at
taken none y = (y.events, y.finished)
taken (some k) y = close_at k y.events y.marks y.finished

-- What the turn does: the events, the registry after its `finally`, and whether `chat.abort` is sent.
pub record Turn : Type 0 where
  pub events : List OrchestratorEvent
  pub registry : TurnRegistry
  pub aborts : Bool

unfoldable pub refused : Text → TurnRegistry → Turn
refused message r = record { events = error message ∷ []; registry = r; aborts = false }

-- The rest of the world during the turn: whether `chat.send` succeeds, what the turn receives, what the
-- other tasks make of the registry until its `finally`, where the consumer closes the stream, and
-- whether the client still has a socket in the `finally`.
pub record World : Type 0 where
  pub sends : Bool
  pub received : List Received
  pub meanwhile : TurnRegistry → TurnRegistry
  pub closes_at : Option ℕ
  pub socket_left : Bool

unfoldable pub stream_response : ℕ → Bool → World → Text → Text → TurnRegistry → Turn
unfolding refused taken
stream_response size has_socket w req_id session_key r =
    if not has_socket
    then refused (codes "orchestrator_unavailable") r
    else elim (register size req_id session_key r) [
      | none ↦ refused (codes "turn_in_progress") r
      | some (ref, s) ↦
          let last = unregister session_key req_id (w.meanwhile s) in
          if not w.sends
          then refused (codes "orchestrator_send_failed") last
          else let (seen, finished) = taken w.closes_at (turn_loop w.received fresh) in
            record { events = seen; registry = last; aborts = not finished && w.socket_left }
    ]

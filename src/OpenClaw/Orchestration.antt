-- ===== src/OpenClaw/Orchestration.antt =====
-- services/orchestration.py: `call_orchestrator`, over the events of a turn. What it asks of the tracker and
-- of its two callbacks is kept in order. Left out: callbacks that raise, and the closing of the
-- stream, which is that of the turn.
use jota_gateway.Prelude.{
  ℕ, suc, ◌+◌, ◌≡◌, refl, ◌∙◌, ap, Bool, true, false, Option, none, some, List, [], ◌∷◌,
  if◌then◌else◌, Text, codes, length, arith, reverse,
}
use mathlib.Core.List.{reverse_aux, reverse_aux-reverse_aux-nil}
use jota_gateway.OpenClaw.TurnStream.{
  OrchestratorEvent, token, tool_call, done, error, ToolCallEvent,
}

pub record Call : Type 0 where
  pub first_token : Bool
  pub token_count : ℕ
  -- The stages of the tracker, what `on_token` and `on_tool_call` were called with: newest first.
  pub stages : List Text
  pub tokens : List Text
  pub tool_calls : List ToolCallEvent
  -- The count that `llm_done` was recorded with, and the code of an `OrchestratorError`.
  pub counted : Option ℕ
  pub raised : Option Text

unfoldable pub take_token : Text → Call → Call
take_token t c = record c {
  first_token = false;
  stages = if c.first_token then codes "llm_first_token" ∷ c.stages else c.stages;
  token_count = suc c.token_count;
  tokens = t ∷ c.tokens;
}

unfoldable pub take_events : List OrchestratorEvent → Call → Call
unfolding take_token
take_events [] c = record c { stages = codes "llm_done" ∷ c.stages; counted = some c.token_count }
take_events (token t ∷ es) c = take_events es (take_token t c)
take_events (tool_call t ∷ es) c = take_events es (record c { tool_calls = t ∷ c.tool_calls })
take_events (error code ∷ es) c = record c { raised = some code }
take_events (done ∷ es) c = take_events es c

abbrev start : Call
start = record {
  first_token = true;
  token_count = 0;
  stages = codes "llm_start" ∷ [];
  tokens = [];
  tool_calls = [];
  counted = none;
  raised = none;
}

unfoldable pub call_orchestrator : List OrchestratorEvent → Call
unfolding take_events
call_orchestrator es = take_events es start

-- The events before the first error, and what they hold.
abbrev pub upto_error : List OrchestratorEvent → List OrchestratorEvent
upto_error [] = []
upto_error (error code ∷ es) = []
upto_error (e ∷ es) = e ∷ upto_error es

abbrev pub tokens_of : List OrchestratorEvent → List Text
tokens_of [] = []
tokens_of (token t ∷ es) = t ∷ tokens_of es
tokens_of (_ ∷ es) = tokens_of es

abbrev pub first_error : List OrchestratorEvent → Option Text
first_error [] = none
first_error (error code ∷ es) = some code
first_error (_ ∷ es) = first_error es

-- `llm_done` is recorded with this count, unless an error was raised.
abbrev pub counted_unless : Option Text → ℕ → Option ℕ
counted_unless none n = some n
counted_unless (some code) n = none

-- The calls of `on_token`, oldest first.
unfoldable pub heard : Call → List Text
heard c = reverse c.tokens

record Taken (es : List OrchestratorEvent) (c r : Call) : Type 0 where
  tokens : r.tokens ≡ reverse_aux (tokens_of (upto_error es)) c.tokens
  raised : c.raised ≡ none → r.raised ≡ first_error es
  counted :
      c.counted ≡ none
      → r.counted
        ≡ counted_unless (first_error es) (c.token_count + length (tokens_of (upto_error es)))

take_events-Taken : (es : List OrchestratorEvent) (c : Call) → Taken es c (take_events es c)
unfolding take_events take_token
take_events-Taken [] c = record {
  tokens = refl;
  raised = λ e. e;
  counted = λ e. ap some (omega arith);
}
take_events-Taken (token t ∷ es) c =
    let k = take_events-Taken es (take_token t c) in
    record {
      tokens = k.tokens;
      raised = k.raised;
      counted = λ e. k.counted e ∙ ap (counted_unless (first_error es)) (omega arith);
    }
take_events-Taken (tool_call t ∷ es) c =
    let k = take_events-Taken es (record c { tool_calls = t ∷ c.tool_calls }) in
    record { tokens = k.tokens; raised = k.raised; counted = k.counted }
take_events-Taken (done ∷ es) c =
    let k = take_events-Taken es c in
    record { tokens = k.tokens; raised = k.raised; counted = k.counted }
take_events-Taken (error code ∷ es) c = record {
  tokens = refl;
  raised = λ e. refl;
  counted = λ e. e;
}

-- The caller hears exactly the tokens before the first error, in order; the first error is what is
-- raised, and `llm_done` is recorded only without one, with the number of tokens heard.
pub call_orchestrator_lem :
    (es : List OrchestratorEvent)
    → let r = call_orchestrator es in
      (heard r ≡ tokens_of (upto_error es))
      × (r.raised ≡ first_error es)
      × (r.counted ≡ counted_unless (first_error es) (length (tokens_of (upto_error es))))
unfolding call_orchestrator heard
call_orchestrator_lem es =
    let k = take_events-Taken es start in
    (
      ap reverse k.tokens ∙ reverse_aux-reverse_aux-nil (tokens_of (upto_error es)) [],
      k.raised refl,
      k.counted refl ∙ ap (counted_unless (first_error es)) (omega arith),
    )

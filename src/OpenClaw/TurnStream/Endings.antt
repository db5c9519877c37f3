-- ===== src/OpenClaw/TurnStream/Endings.antt =====
-- How a turn ends: once, with the right word, and with `chat.abort` where OpenClaw still runs.
use jota_gateway.Prelude.{
  ℕ, ◌≡◌, refl, ap, ◌∙◌, Bool, true, false, not, ◌&&◌, ◌||◌, Option, none, some, List, [], ◌∷◌,
  ◌++◌, arith, if◌then◌else◌, Text, Text_eq, text_beq, codes, get, is_text, lookup, eq_refl, eq_iff,
  has_key, member, zero, suc, sym, inl, inr, Option-cases, Bool-cases, ◌≢◌, lookup-delete,
}
use mathlib.Core.List.{append-nil}
use jota_gateway.OpenClaw.Queue.{Item}
use jota_gateway.OpenClaw.TurnRegistry.{TurnRegistry, register, enrol, get_or, unregister, release}
use jota_gateway.OpenClaw.TurnRegistry.Routing.{unregister_own}
use jota_gateway.OpenClaw.ChatText.{ChatTextTracker, fresh, feed}
use jota_gateway.OpenClaw.ChatText.Streaming.{
  Growth, by_delta, by_snapshot, added, event_of, final_of, whole, stream, stream-fresh,
}
use jota_gateway.OpenClaw.TurnStream.{
  OrchestratorEvent, token, tool_call, done, error, Received, item, timeout, Yielded, prefix,
  token_for, tool_for, turn_loop, stream_response, ToolCallEvent, ends, orchestrator_error,
  close_at, taken, World, from_session_tool_payload, refused,
}

-- Events of which only the last one ends the turn.
abbrev pub EndsOnce : List OrchestratorEvent → Type 0
EndsOnce [] = Unit {0}
EndsOnce (token t ∷ es) = EndsOnce es
EndsOnce (tool_call c ∷ es) = EndsOnce es
EndsOnce (done ∷ es) = es ≡ []
EndsOnce (error message ∷ es) = es ≡ []

EndsOnce-token :
    (t : Text) (es : List OrchestratorEvent) → EndsOnce es → EndsOnce (token_for t ++ es)
unfolding token_for
EndsOnce-token [] es h = h
EndsOnce-token (c ∷ t) es h = h

EndsOnce-tool :
    (e : Option ToolCallEvent) (es : List OrchestratorEvent)
    → EndsOnce es
    → EndsOnce (tool_for e ++ es)
unfolding tool_for
EndsOnce-tool none es h = h
EndsOnce-tool (some e) es h = h

EndsOnce-if :
    (b : Bool) (x y : Yielded)
    → EndsOnce x.events
    → EndsOnce y.events
    → EndsOnce (if b then x else y).events
EndsOnce-if true x y h k = h
EndsOnce-if false x y h k = k

-- Whatever the turn receives, it says at most once that it ended, and nothing after that.
pub turn_loop-EndsOnce :
    (received : List Received) (t : ChatTextTracker) → EndsOnce (turn_loop received t).events
unfolding turn_loop prefix
turn_loop-EndsOnce [] t = tt
turn_loop-EndsOnce (timeout ∷ rest) t = refl
turn_loop-EndsOnce (item (Item.chat payload) ∷ rest) t =
    let s = (feed payload t).1 in
    let state = get (codes "state") payload in
    EndsOnce-token (feed payload t).0 _ (
      EndsOnce-if (is_text (codes "final") state) (ends done true)
        (if is_text (codes "error") state
          then ends (error orchestrator_error) true
          else turn_loop rest s)
        refl
        (EndsOnce-if (is_text (codes "error") state) (ends (error orchestrator_error) true)
          (turn_loop rest s) refl (turn_loop-EndsOnce rest s)))
turn_loop-EndsOnce (item (Item.tool info) ∷ rest) t =
    EndsOnce-tool (from_session_tool_payload info) _ (turn_loop-EndsOnce rest t)
turn_loop-EndsOnce (item (Item.done frame) ∷ rest) t = refl
turn_loop-EndsOnce (item Item.overflow ∷ rest) t = refl
turn_loop-EndsOnce (item (Item.error message) ∷ rest) t = refl

-- Whether OpenClaw itself has ended the turn: with a final or failed chat event, with a response
-- that refuses it, or by a lost connection.
abbrev pub completed : List Received → Bool
completed [] = false
completed (timeout ∷ rest) = false
completed (item (Item.chat payload) ∷ rest) =
    let more = completed rest in
    is_text (codes "final") (get (codes "state") payload)
    || is_text (codes "error") (get (codes "state") payload)
    || more
completed (item (Item.tool info) ∷ rest) = completed rest
completed (item (Item.done frame) ∷ rest) = true
completed (item Item.overflow ∷ rest) = false
completed (item (Item.error message) ∷ rest) = true

-- What the consumer can know of the end from what it got, where `c` says whether OpenClaw has ended
-- the turn: nothing from a token or a tool event, all of it from `done`.
abbrev pub heard_end : (c : Bool) → List OrchestratorEvent → Bool
heard_end c [] = false
heard_end c (token t ∷ es) = heard_end c es
heard_end c (tool_call e ∷ es) = heard_end c es
heard_end c (done ∷ es) = true
heard_end c (error message ∷ es) = c

-- Wherever the consumer closes the stream, `_finished` there is what it has heard of the end.
record Honest (c : Bool) (y : Yielded) : Type 0 where
  at : (k : Option ℕ) → (taken k y).1 ≡ heard_end c (taken k y).0

ends-Honest : (e : OrchestratorEvent) (c f : Bool) → f ≡ heard_end c (e ∷ []) → Honest c (ends e f)
unfolding taken close_at
ends-Honest e c f h = record { at = at }
  where
    at : (k : Option ℕ) → (taken k (ends e f)).1 ≡ heard_end c (taken k (ends e f)).0
    at none = h
    at (some zero) = h
    at (some (suc k)) = h

-- An event that does not end the turn, in front.
passed-Honest :
    (e : OrchestratorEvent) (c : Bool) (y : Yielded)
    → ((es : List OrchestratorEvent) → heard_end c (e ∷ es) ≡ heard_end c es)
    → Honest c y
    → Honest c (prefix (e ∷ []) y)
unfolding taken close_at prefix
passed-Honest e c y skip h = record { at = at }
  where
    at :
        (k : Option ℕ)
        → (taken k (prefix (e ∷ []) y)).1 ≡ heard_end c (taken k (prefix (e ∷ []) y)).0
    at none = h.at none ∙ sym (skip y.events)
    at (some zero) = sym (skip [])
    at (some (suc k)) = h.at (some k) ∙ sym (skip (taken (some k) y).0)

token-Honest : (t : Text) (c : Bool) (y : Yielded) → Honest c y → Honest c (prefix (token_for t) y)
unfolding token_for prefix
token-Honest [] c y h = h
token-Honest (x ∷ t) c y h = passed-Honest (token (x ∷ t)) c y (λ es. refl) h

tool-Honest :
    (e : Option ToolCallEvent) (c : Bool) (y : Yielded)
    → Honest c y
    → Honest c (prefix (tool_for e) y)
unfolding tool_for prefix
tool-Honest none c y h = h
tool-Honest (some e) c y h = passed-Honest (tool_call e) c y (λ es. refl) h

chat_end-Honest :
    (final failed more : Bool) (y : Yielded)
    → Honest more y
    → Honest (final || failed || more) (
        if final
        then ends done true
        else if failed
        then ends (error orchestrator_error) true
        else y)
chat_end-Honest true failed more y h = ends-Honest done true true refl
chat_end-Honest false true more y h = ends-Honest (error orchestrator_error) true true refl
chat_end-Honest false false more y h = h

turn_loop-Honest :
    (received : List Received) (t : ChatTextTracker)
    → Honest (completed received) (turn_loop received t)
unfolding turn_loop taken close_at
turn_loop-Honest [] t = record { at = at }
  where
    at :
        (k : Option ℕ) → (taken k (turn_loop [] t)).1 ≡ heard_end false (taken k (turn_loop [] t)).0
    at none = refl
    at (some zero) = refl
    at (some (suc k)) = refl
turn_loop-Honest (timeout ∷ rest) t = ends-Honest _ false false refl
turn_loop-Honest (item (Item.chat payload) ∷ rest) t =
    let state = get (codes "state") payload in
    token-Honest (feed payload t).0 _ _ (
      chat_end-Honest (is_text (codes "final") state) (is_text (codes "error") state)
        (completed rest) (turn_loop rest (feed payload t).1)
        (turn_loop-Honest rest (feed payload t).1))
turn_loop-Honest (item (Item.tool info) ∷ rest) t =
    tool-Honest (from_session_tool_payload info) _ _ (turn_loop-Honest rest t)
turn_loop-Honest (item (Item.done frame) ∷ rest) t = ends-Honest _ true true refl
turn_loop-Honest (item Item.overflow ∷ rest) t = ends-Honest _ false false refl
turn_loop-Honest (item (Item.error message) ∷ rest) t = ends-Honest _ true true refl

-- After the turn's `unregister` the session is not this turn's any more; if it still was, it is free.
unregister-own :
    (sk req : Text) (r : TurnRegistry)
    → let s = unregister sk req r in
      (lookup sk s.session_owner ≢ some req)
      × (lookup sk r.session_owner ≡ some req
          → (lookup sk s.sessions ≡ none) × (member sk s.overflowed ≡ false))
unfolding unregister release
unregister-own sk req r = (gone, λ e. let (a, b, c, d) = unregister_own sk req r e in (a, c))
  where
    gone : lookup sk (unregister sk req r).session_owner ≢ some req
    gone e = elim (Option-cases (lookup sk r.session_owner)) [
      | inl missing ↦ ground (arith, missing, e)
      | inr (owner, there) ↦
          ground
            (arith, e, there, eq_iff owner req, lookup-delete sk sk r.session_owner, eq_refl sk)
    ]

-- A turn of a free session sends `chat.abort` exactly if its message went out, the client still has its
-- socket, and what the consumer got of the stream does not say that OpenClaw has ended the turn:
-- wherever the consumer closes it (also at the last token of a final message), and after a
-- timeout or an overflow. Whatever other tasks do to the registry in the meantime, the session is
-- not this turn's afterwards, and if it still was at the end it is free, with no flag for its next turn.
pub stream_response-aborts :
    (size : ℕ) (w : World) (req sk : Text) (r : TurnRegistry)
    → has_key sk r.sessions ≡ false
    → let t = stream_response size true w req sk r in
      let last = w.meanwhile (enrol (get_or size r.max_queue_size) req sk r) in
      (t.aborts ≡ (w.sends && w.socket_left && not (heard_end (completed w.received) t.events)))
      × (lookup sk t.registry.session_owner ≢ some req)
      × (lookup sk last.session_owner ≡ some req
          → (lookup sk t.registry.sessions ≡ none) × (member sk t.registry.overflowed ≡ false))
unfolding stream_response register refused
stream_response-aborts size w req sk r free =
    let y = turn_loop w.received fresh in
    let (owned, freed) =
      unregister-own sk req (w.meanwhile (enrol (get_or size r.max_queue_size) req sk r)) in
    rw (free, stream_response)
      (elim (Bool-cases w.sends) [
        | inl out ↦
            rw (out, stream_response)
              (ground (arith, (turn_loop-Honest w.received fresh).at w.closes_at), owned, freed)
        | inr unsent ↦ rw (unsent, stream_response) (refl, owned, freed)
      ])

-- The events of a reply in the queue of its turn.
abbrev pub reply : Text → List Growth → Text → List Received
reply text [] rest = item (Item.chat (final_of (text ++ rest))) ∷ []
reply text (g ∷ gs) rest = item (Item.chat (event_of text g)) ∷ reply (text ++ added g) gs rest

unfoldable pub tokens_text : List OrchestratorEvent → Text
tokens_text [] = []
tokens_text (token t ∷ es) = t ++ tokens_text es
tokens_text (_ ∷ es) = tokens_text es

tokens_text-token :
    (t : Text) (es : List OrchestratorEvent) → tokens_text (token_for t ++ es) ≡ t ++ tokens_text es
unfolding tokens_text token_for
tokens_text-token [] es = refl
tokens_text-token (c ∷ t) es = refl

reply-stream :
    (text : Text) (gs : List Growth) (rest : Text) (t : ChatTextTracker)
    → (tokens_text (turn_loop (reply text gs rest) t).events ≡ stream text gs rest t)
      × ((turn_loop (reply text gs rest) t).finished ≡ true)
unfolding tokens_text turn_loop prefix stream get text_beq
reply-stream text [] rest t =
    (tokens_text-token (feed (final_of (text ++ rest)) t).0 (done ∷ []) ∙ append-nil _, refl)
reply-stream text (by_delta d ∷ gs) rest t =
    let s = feed (event_of text (by_delta d)) t in
    let (p, q) = reply-stream (text ++ d) gs rest s.1 in
    (tokens_text-token s.0 _ ∙ ap (λ more. s.0 ++ more) p, q)
reply-stream text (by_snapshot d ∷ gs) rest t =
    let s = feed (event_of text (by_snapshot d)) t in
    let (p, q) = reply-stream (text ++ d) gs rest s.1 in
    (tokens_text-token s.0 _ ∙ ap (λ more. s.0 ++ more) p, q)

-- A reply that OpenClaw sends to its end reaches the consumer of the turn whole: the tokens add up
-- to its text, however it was cut into deltas and snapshots, and the turn counts as finished, so
-- nothing is aborted.
pub turn_loop-reply :
    (gs : List Growth) (rest : Text)
    → (tokens_text (turn_loop (reply [] gs rest) fresh).events ≡ whole [] gs ++ rest)
      × ((turn_loop (reply [] gs rest) fresh).finished ≡ true)
turn_loop-reply gs rest =
    let (p, q) = reply-stream [] gs rest fresh in (p ∙ (stream-fresh gs rest).0, q)

-- ===== src/OpenClaw/ChatText/Streaming.antt =====
-- What a client receives of a reply: the reply, once.
use jota_gateway.Prelude.{
  ◌≡◌, refl, sym, subst, ap, true, false, none, some, List, [], ◌∷◌, ◌++◌, arith, drop-append, Text,
  Text_eq, text_beq, codes, starts_with-append, Json, Fields, get,
}
use mathlib.Core.List.{append-nil, append_assoc}
use jota_gateway.OpenClaw.ChatText.{
  ChatTextTracker, suffix, tail, missing_tail, fresh, emit_missing, feed, final_current, finish,
}

-- What the orchestrator appends, and how it says so: as a delta, or by a snapshot of the whole.
pub data Growth : Type 0 where
  by_delta : Text → Growth
  by_snapshot : Text → Growth

abbrev pub added : Growth → Text
added (by_delta d) = d
added (by_snapshot d) = d

abbrev message_of : Text → Json
message_of t = Json.object (Fields.field (codes "content") (Json.text t) Fields.end)

-- The `chat` event for a growth of a text.
abbrev pub event_of : Text → Growth → Fields
event_of text (by_delta d) =
    Fields.field (codes "state") (Json.text (codes "delta"))
      (Fields.field (codes "deltaText") (Json.text d) Fields.end)
event_of text (by_snapshot d) = Fields.field (codes "state") (Json.text (codes "delta")) (
    Fields.field (codes "deltaText") (Json.text d)
      (Fields.field (codes "message") (message_of (text ++ d)) Fields.end))

abbrev pub final_of : Text → Fields
final_of text =
    Fields.field (codes "state") (Json.text (codes "final"))
      (Fields.field (codes "message") (message_of text) Fields.end)

unfoldable pub whole : Text → List Growth → Text
whole text [] = text
whole text (g ∷ gs) = whole (text ++ added g) gs

-- All that is emitted for a reply that grows from `text` and ends with the whole of it.
unfoldable pub stream : Text → List Growth → Text → ChatTextTracker → Text
stream text [] rest t = (feed (final_of (text ++ rest)) t).0
stream text (g ∷ gs) rest t =
    let (out, s) = feed (event_of text g) t in out ++ stream (text ++ added g) gs rest s

-- A tracker that has emitted the whole of a text.
abbrev InStep : Text → ChatTextTracker
InStep text = record { emitted = text; current = text; all_out = text }

tail-append : (text more : Text) → tail text (text ++ more) ≡ some (suffix more)
unfolding tail
tail-append text more =
    rw (starts_with-append text more, tail) (ap (λ t. some (suffix t)) (drop-append text more))

tail_self : (text : Text) → tail text text ≡ some (suffix [])
tail_self text = subst (λ t. tail text t ≡ some (suffix [])) (append-nil text) (tail-append text [])

emit_missing-append :
    (text more : Text)
    → emit_missing (record { emitted = text; current = text ++ more; all_out = text })
      ≡ (more, InStep (text ++ more))
unfolding emit_missing
emit_missing-append [] [] = refl
emit_missing-append [] (c ∷ more) = rw (tail-append [] (c ∷ more), emit_missing) refl
emit_missing-append (c ∷ text) more = rw (tail-append (c ∷ text) more, emit_missing) refl

feed-event_of :
    (text : Text) (g : Growth)
    → feed (event_of text g) (InStep text) ≡ (added g, InStep (text ++ added g))
unfolding feed get text_beq
feed-event_of text (by_delta []) = λ i. ([], InStep (sym (append-nil text) i))
feed-event_of text (by_delta (c ∷ d)) = emit_missing-append text (c ∷ d)
feed-event_of text (by_snapshot d) = emit_missing-append text d

final_current-object :
    (snapshot current : Text) → final_current true snapshot none current ≡ snapshot
unfolding final_current
final_current-object snapshot current = ground arith

feed-final_of : (text rest : Text) → feed (final_of (text ++ rest)) (InStep text) ≡ (rest, fresh)
unfolding feed get text_beq
feed-final_of text rest =
    rw (final_current-object (text ++ rest) text, feed) (ap finish (emit_missing-append text rest))

stream-whole :
    (text : Text) (gs : List Growth) (rest : Text)
    → text ++ stream text gs rest (InStep text) ≡ whole text gs ++ rest
unfolding stream whole
stream-whole text [] rest = rw (feed-final_of text rest, stream) refl
stream-whole text (g ∷ gs) rest =
    rw (feed-event_of text g, stream)
      (rw
        (← append_assoc text (added g)
          (stream (text ++ added g) gs rest (InStep (text ++ added g))))
        (stream-whole (text ++ added g) gs rest))

-- However the orchestrator sends a reply that only grows (deltas, snapshots of the whole text that
-- carry their delta too, or both in turn, and a last message with any text that none of them
-- carried), the client is sent the whole reply, in order, and nothing twice; the tracker is then as
-- new, ready for the next reply.
pub stream-fresh :
    (gs : List Growth) (rest : Text)
    → (stream [] gs rest fresh ≡ whole [] gs ++ rest)
      × (feed
            (final_of (whole [] gs ++ rest))
            (record { emitted = whole [] gs; current = whole [] gs; all_out = whole [] gs })
          ≡ (rest, fresh))
unfolding fresh
stream-fresh gs rest = (stream-whole [] gs rest, feed-final_of (whole [] gs) rest)

-- `missing_tail` completes what was emitted to the final text, whenever the one begins with the
-- other, and adds nothing to a text that was emitted in full.
pub missing_tail-append :
    (emitted more : Text)
    → (emitted ++ missing_tail emitted (emitted ++ more) ≡ emitted ++ more)
      × (missing_tail (emitted ++ more) (emitted ++ more) ≡ [])
unfolding missing_tail
missing_tail-append emitted more = (
  rw (tail-append emitted more, missing_tail) refl,
  rw (tail_self (emitted ++ more), missing_tail) refl,
)

-- A status that is neither a delta nor the end (`aborted`, `error`, …) and that brings no text of
-- its own emits nothing and changes nothing, whatever message it carries.
pub feed-other_state :
    (payload : Fields) (state : Text) (t : ChatTextTracker)
    → get (codes "state") payload ≡ Json.text state
    → text_beq (codes "final") state ≡ false
    → text_beq (codes "delta") state ≡ false
    → get (codes "deltaText") payload ≡ Json.null
    → feed payload t ≡ ([], t)
unfolding feed
feed-other_state payload state t e not_final not_delta no_text =
    rw (e, feed, no_text, not_final, not_delta) refl

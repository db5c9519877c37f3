-- ===== src/OpenClaw/ChatText.antt =====
-- services/openclaw/chat_text.py: the text of a reply out of `chat` events. Logging is left out.
pub mod Streaming
use jota_gateway.Prelude.{
  ℕ, Bool, true, false, not, ◌&&◌, ◌||◌, Option, none, some, List, [], ◌∷◌, ◌++◌, if◌then◌else◌,
  ltb, length, drop, Text, Text_eq, ◌==◌, codes, lstrip, strip, starts_with, truthy, Json, Items,
  Fields, get, is_text, is_true, text?,
}

part_text : Json → Text
part_text (Json.object fs) = elim (text? (get (codes "text") fs)) [
  | none ↦ []
  | some t ↦ if is_text (codes "text") (get (codes "type") fs) then t else []
]
part_text _ = []

join_parts : Items → Text
unfolding part_text
join_parts Items.nil = []
join_parts (Items.cons part rest) = part_text part ++ join_parts rest

unfoldable pub content_text : Json → Text
unfolding join_parts
content_text (Json.text t) = t
content_text (Json.array parts) = join_parts parts
content_text _ = []

unfoldable pub extract_message_text : Json → Text
unfolding content_text
extract_message_text (Json.object message) = content_text (get (codes "content") message)
extract_message_text _ = []

unfoldable pub is_retraction : Text → Text → Bool
is_retraction emitted text =
    truthy text && ltb (length text) (length emitted) && starts_with emitted text

-- What is missing of a text, or that it was cut back to a part of what was emitted.
pub data Tail : Type 0 where
  suffix : Text → Tail
  retract : Tail

-- `_tail`; `none` is a divergence.
unfoldable pub tail : Text → Text → Option Tail
unfolding is_retraction
tail emitted text =
    if starts_with text emitted
    then some (suffix (drop (length emitted) text))
    else if truthy (strip (lstrip emitted)) && starts_with (lstrip text) (lstrip emitted)
    then some (suffix (drop (length (lstrip emitted)) (lstrip text)))
    else if is_retraction emitted text
    then some retract
    else none

unfoldable pub missing_tail : Text → Text → Text
missing_tail emitted final_text = elim (tail emitted final_text) [
  | none ↦ final_text
  | some hit ↦ elim hit [ suffix t ↦ t | retract ↦ [] ]
]

pub record ChatTextTracker : Type 0 where
  pub emitted : Text
  pub current : Text
  pub all_out : Text

unfoldable pub fresh : ChatTextTracker
fresh = record { emitted = []; current = []; all_out = [] }

unfoldable pub emit : Text → ChatTextTracker → Text × ChatTextTracker
emit out t = (out, record t { emitted = t.current; all_out = t.all_out ++ out })

unfoldable pub either : Option Tail → Option Tail → Option Tail
either none b = b
either (some a) b = some a

-- `_emit_missing`.
unfoldable pub emit_missing : ChatTextTracker → Text × ChatTextTracker
unfolding emit either
emit_missing t =
    if not (truthy t.current)
    then ([], t)
    else elim (either (tail t.emitted t.current) (tail t.all_out t.current)) [
      | none ↦ emit t.current t
      | some hit ↦ elim hit [ suffix s ↦ emit s t | retract ↦ ([], t) ]
    ]

abbrev text_of : Option Text → Text
text_of none = []
text_of (some t) = t

abbrev is_none : Option Text → Bool
is_none none = true
is_none (some t) = false

abbrev is_object : Json → Bool
is_object (Json.object fs) = true
is_object _ = false

abbrev is_null : Json → Bool
is_null Json.null = true
is_null _ = false

unfoldable pub finish : Text × ChatTextTracker → Text × ChatTextTracker
unfolding fresh
finish (out, t) = (out, fresh)

-- The current text at a `final`: the snapshot, unless it is empty beside a delta.
unfoldable pub final_current : Bool → Text → Option Text → Text → Text
final_current has_snapshot snapshot delta current =
    if has_snapshot && (truthy snapshot || is_none delta)
    then snapshot
    else current ++ text_of delta

unfoldable pub feed : Fields → ChatTextTracker → Text × ChatTextTracker
unfolding finish extract_message_text
feed payload t =
    let state = get (codes "state") payload in
    let delta = text? (get (codes "deltaText") payload) in
    let message = get (codes "message") payload in
    let snapshot = extract_message_text message in
    if is_text (codes "final") state
    then finish (
        emit_missing
          (record t { current = final_current (is_object message) snapshot delta t.current }))
    else if not (is_null state || is_text (codes "delta") state)
    then if truthy (text_of delta)
      then emit_missing (record t { current = t.current ++ text_of delta })
      else ([], t)
    else if is_object message
    then emit_missing (record t { current = snapshot })
    else if not (is_none delta) && is_true (get (codes "replace") payload)
    then emit_missing (record t { current = text_of delta })
    else if truthy (text_of delta)
    then emit_missing (record t { current = t.current ++ text_of delta })
    else ([], t)

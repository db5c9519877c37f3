-- ===== src/Bridge/Push/Turns.antt =====
-- What the client sees of the turns of the agent.
use jota_gateway.Prelude.{
  ℕ, ◌+◌, ◌%◌, ◌^◌, ◌≤◌, ◌≡◌, inl, inr, refl, subst, Bool, true, false, ◌&&◌, Option, none, some,
  List, [], ◌∷◌, if◌then◌else◌, ◌==◌, ℕ_eq, ltb, Text, Text_eq, Fields, arith, Bool-cases,
  Option-cases, eq_refl, eq_iff, truthy, contains, codes,
}
use jota_gateway.OpenClaw.ChatText.{feed}
use jota_gateway.OpenClaw.TurnStream.{ToolCallEvent, from_session_tool_payload}
use jota_gateway.Bridge.Push.{
  Frame, turn_start, token, tool_call, turn_end, Push, Config, new_push, is_turn, open_turn,
  deliver_push, send_delta, push_allowed, deliver_push_tool_call, close_push_turn,
}

-- A client that follows the frames: outside of a turn, after turn `last`, or inside of one.
pub data Phase : Type 0 where
  between inside : ℕ → Phase

abbrev is_same : ℕ → Option ℕ → Bool
is_same j none = false
is_same j (some id) = j == id

-- What it takes for a frame to be in its place; `none` is a frame out of place.
pub watch : Frame → Phase → Option Phase
watch (turn_start id seq) (between last) =
    if ltb last id && seq == id % 2 ^ 16 then some (inside id) else none
watch (turn_start id seq) (inside j) = none
watch (token id text) (inside j) = if is_same j id then some (inside j) else none
watch (token id text) (between last) = none
watch (tool_call id t) (inside j) = if is_same j id then some (inside j) else none
watch (tool_call id t) (between last) = none
watch (turn_end id) (inside j) = if j == id then some (between j) else none
watch (turn_end id) (between last) = none

abbrev then_watch : Frame → Option Phase → Option Phase
then_watch f none = none
then_watch f (some p) = watch f p

-- The frames are newest first.
pub follow : List Frame → Option Phase
follow [] = some (between 0)
follow (f ∷ older) = then_watch f (follow older)

abbrev pub phase : Bool → ℕ → Phase
phase true last = inside last
phase false last = between last

pub record Followed (p : Push) (last : ℕ) : Type 0 where
  pub in_place : follow p.log ≡ some (phase p.is_open last)
  pub old : last ≤ p.turn_seq
  pub known : p.is_open ≡ true → p.push_turn_id ≡ some last

pub new_push-Followed : Followed new_push 0
unfolding new_push follow
new_push-Followed = record { in_place = refl; old = omega arith; known = λ e. cc }

-- Only the four fields that it is about matter.
pub Followed-same :
    {p q : Push} {last : ℕ}
    → q.log ≡ p.log
    → q.is_open ≡ p.is_open
    → q.push_turn_id ≡ p.push_turn_id
    → q.turn_seq ≡ p.turn_seq
    → Followed p last
    → Followed q last
Followed-same a b c d v = record {
  in_place = rw (a, b) v.in_place;
  old = rw d v.old;
  known = rw (b, c) v.known;
}

pub open_turn-Followed :
    (sk : Text) (p : Push) (last : ℕ)
    → p.is_open ≡ false
    → Followed p last
    → Followed (open_turn sk p) (p.turn_seq + 1)
unfolding open_turn follow watch
open_turn-Followed sk p last closed v = record {
  in_place = rw (v.in_place, closed) (ground (arith, v.old, eq_refl ((p.turn_seq + 1) % 2 ^ 16)));
  old = omega arith;
  known = λ _. refl;
}

turn_id-is : (id : ℕ) (p : Push) (last : ℕ) → is_turn id p ≡ true → Followed p last → last ≡ id
unfolding is_turn
turn_id-is id p last this v =
    let open_now : p.is_open ≡ true = ground (arith, this) in
    let e = v.known open_now in
    let here : (elim p.push_turn_id [ none ↦ false | some j ↦ j == id ]) ≡ true =
      ground (arith, this, open_now) in
    let same : (last == id) ≡ true =
      subst (λ (o : Option ℕ). elim o [ none ↦ false | some j ↦ j == id ] ≡ true) e here in
    (eq_iff last id).0 same

turn-open : (id : ℕ) (p : Push) → is_turn id p ≡ true → p.is_open ≡ true
unfolding is_turn
turn-open id p this = ground (arith, this)

pub close_push_turn-Followed :
    (id : ℕ) (p : Push) (last : ℕ) → Followed p last → Followed (close_push_turn id p) last
unfolding close_push_turn follow watch
close_push_turn-Followed id p last v = elim (Bool-cases (is_turn id p)) [
  | inl this ↦ rw this record {
    in_place =
        rw (v.in_place, turn-open id p this, turn_id-is id p last this v)
          (ground (arith, eq_refl id));
    old = v.old;
    known = λ e. cc;
  }
  | inr other ↦ rw other v
]

-- A frame that is in place inside of the turn changes nothing.
sent-Followed :
    (f : Frame) (p q : Push) (last : ℕ)
    → watch f (inside last) ≡ some (inside last)
    → p.is_open ≡ true
    → q.log ≡ f ∷ p.log
    → q.is_open ≡ p.is_open
    → q.push_turn_id ≡ p.push_turn_id
    → q.turn_seq ≡ p.turn_seq
    → Followed p last
    → Followed q last
unfolding follow
sent-Followed f p q last w o a b c d v = record {
  in_place = rw (a, b, v.in_place, o) w;
  old = rw d v.old;
  known = rw (b, c) v.known;
}

token-in_place :
    (last : ℕ) (text : Text) → watch (token (some last) text) (inside last) ≡ some (inside last)
unfolding watch
token-in_place last text = rw (eq_refl last) refl

tool_call-in_place :
    (last : ℕ) (t : ToolCallEvent)
    → watch (tool_call (some last) t) (inside last) ≡ some (inside last)
unfolding watch
tool_call-in_place last t = rw (eq_refl last) refl

send_delta-Followed :
    (c : Config) (tts_fails : Bool) (delta : Text) (p : Push) (last : ℕ)
    → p.is_open ≡ true
    → Followed p last
    → Followed (send_delta c tts_fails delta p) last
unfolding send_delta
send_delta-Followed c tts_fails delta p last o v =
    elim (Bool-cases (contains (codes "text") c.output_mode)) [
      | inl shown ↦ rw shown (
          sent-Followed (token (some last) delta) p _ last (token-in_place last delta) o
            (rw (v.known o) refl) refl refl refl v)
      | inr hidden ↦ rw hidden (Followed-same {p = p} refl refl refl refl v)
    ]

pub deliver_push-Followed :
    (c : Config) (tts_fails : Bool) (payload : Fields) (p : Push) (last : ℕ)
    → Followed p last
    → Followed (deliver_push c tts_fails payload p) last
unfolding deliver_push push_allowed
deliver_push-Followed c tts_fails payload p last v =
    let q : Push = record p { push_text = (feed payload p.push_text).1 } in
    let w : Followed q last = Followed-same {p = p} refl refl refl refl v in
    elim (Bool-cases (c.push_enabled && p.is_open)) [
      | inl allowed ↦ rw allowed (elim (Bool-cases (truthy (feed payload p.push_text).0)) [
        | inl some_text ↦ rw some_text (
            send_delta-Followed c tts_fails (feed payload p.push_text).0 q last
              (ground (arith, allowed)) w)
        | inr no_text ↦ rw no_text w
      ])
      | inr dropped ↦ rw dropped v
    ]

pub deliver_push_tool_call-Followed :
    (c : Config) (info : Fields) (p : Push) (last : ℕ)
    → Followed p last
    → Followed (deliver_push_tool_call c info p) last
unfolding deliver_push_tool_call push_allowed
deliver_push_tool_call-Followed c info p last v =
    elim (Bool-cases (c.push_enabled && p.is_open && c.tool_calls_enabled)) [
      | inl allowed ↦ rw allowed (elim (Option-cases (from_session_tool_payload info)) [
        | inl absent ↦ rw absent v
        | inr (t, e) ↦
            let o : p.is_open ≡ true = ground (arith, allowed) in
            rw e (
              sent-Followed (tool_call (some last) t) p _ last (tool_call-in_place last t) o
                (rw (v.known o) refl) refl refl refl v)
      ])
      | inr dropped ↦ rw dropped v
    ]

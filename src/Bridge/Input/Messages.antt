-- ===== src/Bridge/Input/Messages.antt =====
-- Which messages of the client start a turn, and when a burst of audio begins.
use jota_gateway.Prelude.{
  ℕ, ◌-◌, ◌≡◌, refl, ◌∙◌, true, false, Option, none, some, List, [], ◌∷◌, if◌then◌else◌, leb, ℕ_eq,
  Text, Text_eq, codes, strip, truthy, Json, null, boolean, number, text, array, object, get,
  get_default, is_text, arith, if_both, inl, inr, Bool-cases, map, eq_iff, text_apart, text_beq,
}
use jota_gateway.Bridge.Input.{
  Request, start_turn, cancel_active_turn, Config, Input, audio_gap, opens_burst, audio,
  send_message, cut_open, json_message, text_message,
}

-- The turn that a message asks for, read off the protocol.
spoken : Json → Option Text
spoken (text raw) = if truthy (strip raw) then some (strip raw) else none
spoken _ = none

said : Json → Option Text
unfolding spoken
said (object fs) =
    if is_text (codes "send") (get (codes "type") fs)
    then spoken (get_default (codes "text") (text []) fs)
    else none
said _ = none

pub wanted : Option Json → Config → Text → Option Text
unfolding said
wanted none c t = if c.text_mode then some t else none
wanted (some j) c t = said j

abbrev first_turn : Request → Option Text → Option Text
first_turn (start_turn t) rest = some t
first_turn _ rest = rest

pub turn_of : List Request → Option Text
turn_of [] = none
turn_of (r ∷ rs) = first_turn r (turn_of rs)

-- The end of a burst, by the times of the audio frames, newest first: the oldest time that is
-- linked with the newest by gaps that are short.
pub burst_of : (gap : ℕ) → List ℕ → Option ℕ
burst_of gap [] = none
burst_of gap (t ∷ []) = some t
burst_of gap (t ∷ (u ∷ older)) =
    let linked = burst_of gap (u ∷ older) in if leb (t - u) gap then linked else some t

abbrev pub newest_of : List ℕ → Option ℕ
newest_of [] = none
newest_of (t ∷ older) = some t

pub hear_all : Config → List (ℕ × List ℕ) → Input → Input
unfolding audio
hear_all c [] s = s
hear_all c ((now, chunk) ∷ older) s = audio c now chunk (hear_all c older s)

send_message-turn : (j : Json) → turn_of (send_message j) ≡ spoken j
unfolding send_message turn_of spoken
send_message-turn null = refl
send_message-turn (boolean b) = refl
send_message-turn (number n) = refl
send_message-turn (text raw) = ground arith
send_message-turn (array is) = refl
send_message-turn (object fs) = refl

quiet_list : (o : Option ℕ) → turn_of (cancel_active_turn ∷ cut_open o) ≡ none
unfolding turn_of
quiet_list none = refl
quiet_list (some id) = refl

-- A value is one text only.
one_text : (a b : Text) (j : Json) → text_beq a b ≡ false → is_text a j ≡ true → is_text b j ≡ false
one_text a b null d e = refl
one_text a b (boolean x) d e = refl
one_text a b (number n) d e = refl
one_text a b (text t) d e = ground (eq_iff a t, eq_iff b t, text_apart a b d, arith)
one_text a b (array is) d e = refl
one_text a b (object fs) d e = refl

json_message-turn :
    (c : Config) (push_open : Option ℕ) (j : Json) → turn_of (json_message c push_open j) ≡ said j
unfolding json_message turn_of said text_beq
json_message-turn c push_open null = refl
json_message-turn c push_open (boolean b) = refl
json_message-turn c push_open (number n) = refl
json_message-turn c push_open (text raw) = refl
json_message-turn c push_open (array is) = refl
json_message-turn c push_open (object fs) =
    let kind = get (codes "type") fs in
    let asked = get_default (codes "text") (text []) fs in
    elim (Bool-cases (is_text (codes "end") kind)) [
      | inl e ↦
          rw (e, one_text (codes "end") (codes "send") kind refl e)
            (if_both (λ r. turn_of r ≡ none) c.has_transcriber (λ h. refl) (λ h. refl))
      | inr no_end ↦ elim (Bool-cases (is_text (codes "cancel") kind)) [
        | inl e ↦
            rw (no_end, e, one_text (codes "cancel") (codes "send") kind refl e)
              (quiet_list push_open)
        | inr no_cancel ↦ elim (Bool-cases (is_text (codes "send") kind)) [
          | inl e ↦ rw (no_end, no_cancel, e) (send_message-turn asked)
          | inr e ↦ rw (no_end, no_cancel, e) refl
        ]
      ]
    ]

-- A text of the client asks for a turn exactly if the protocol says so: a `send` whose text is a
-- string that is not blank, with that string stripped, or, in text mode, a text that is no JSON.
pub text_message-wanted :
    (parsed : Option Json) (c : Config) (push_open : Option ℕ) (t : Text)
    → turn_of (text_message parsed c push_open t) ≡ wanted parsed c t
unfolding text_message wanted turn_of
text_message-wanted none c push_open t =
    if_both (λ r. turn_of r ≡ (if c.text_mode then some t else none)) c.text_mode (λ e. rw e refl)
      (λ e. rw e refl)
text_message-wanted (some j) c push_open t = json_message-turn c push_open j

record Heard (c : Config) (ts : List ℕ) (s : Input) : Type 0 where
  newest : s.last_audio_at ≡ newest_of ts
  burst : s.audio_burst_start ≡ burst_of (audio_gap c) ts

audio-heard :
    (c : Config) (now : ℕ) (chunk : List ℕ) (s : Input)
    → c.has_transcriber ≡ true
    → ((audio c now chunk s).last_audio_at ≡ some now)
      × ((audio c now chunk s).audio_burst_start
          ≡ (if opens_burst c now s.last_audio_at then some now else s.audio_burst_start))
unfolding audio
audio-heard c now chunk s e = rw e (refl, refl)

linked :
    (c : Config) (now : ℕ) (ts : List ℕ) (last burst : Option ℕ)
    → last ≡ newest_of ts
    → burst ≡ burst_of (audio_gap c) ts
    → (if opens_burst c now last then some now else burst) ≡ burst_of (audio_gap c) (now ∷ ts)
unfolding opens_burst burst_of
linked c now [] last burst l b = rw l refl
linked c now (t ∷ ts) last burst l b = rw (l, b) (ground arith)

hear_all-Heard :
    (c : Config) (s : Input)
    → c.has_transcriber ≡ true
    → s.last_audio_at ≡ none
    → s.audio_burst_start ≡ none
    → (frames : List (ℕ × List ℕ)) → Heard c (map (λ f. f.0) frames) (hear_all c frames s)
unfolding hear_all burst_of
hear_all-Heard c s e l b [] = record { newest = l; burst = b }
hear_all-Heard c s e l b ((now, chunk) ∷ older) =
    let h = hear_all-Heard c s e l b older in
    let (a, k) = audio-heard c now chunk (hear_all c older s) e in
    record { newest = a; burst = k ∙ linked c now (map (λ f. f.0) older) _ _ h.newest h.burst }

-- The burst that the bridge keeps is that of all the frames that it has heard: the silence watchdog
-- counts from the first frame after the last gap longer than the allowed one.
pub hear_all-burst :
    (c : Config) (frames : List (ℕ × List ℕ)) (s : Input)
    → c.has_transcriber ≡ true
    → s.last_audio_at ≡ none
    → s.audio_burst_start ≡ none
    → (hear_all c frames s).audio_burst_start ≡ burst_of (audio_gap c) (map (λ f. f.0) frames)
hear_all-burst c frames s e l b = (hear_all-Heard c s e l b frames).burst

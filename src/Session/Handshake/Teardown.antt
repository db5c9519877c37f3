-- ===== src/Session/Handshake/Teardown.antt =====
-- What the route leaves behind.
use jota_gateway.Prelude.{
  ℕ, Bool, true, false, ap, ◌∙◌, ◌+◌, ◌≤◌, ◌≡◌, refl, Option, none, some, List, [], ◌∷◌, ◌++◌, ltb,
  Text, codes, length, arith, if_both, All,
}
use jota_gateway.Access.AgentPolicy.{ClientConfig, Resolution, raises, agent, resolve_agent}
use jota_gateway.Session.Handshake.{
  First, message, timeout, not_text, disconnected, Handshake, policy, Effect, counts_rejection,
  closes_socket, starts_sender, builds_bridge, closes_record, Parsed, valid, invalid, uncaught,
  Building, no_record, no_bridge, complete, built, registers_session, closes_all, closes_sender,
  Sent, is_sent, client_gone, breaks, Health, healthy, unhealthy, gone, World, reject, finish,
  announce, check_health, session, build, with_agent, identified, parsed, received,
  gateway_websocket,
}

-- How often an effect of a kind is there.
abbrev pub is_start : Effect → ℕ
is_start starts_sender = 1
is_start _ = 0

abbrev pub is_sender_close : Effect → ℕ
is_sender_close closes_sender = 1
is_sender_close _ = 0

abbrev pub is_rejection : Effect → ℕ
is_rejection (counts_rejection r) = 1
is_rejection _ = 0

abbrev pub is_policy_close : Effect → ℕ
is_policy_close (closes_socket policy) = 1
is_policy_close _ = 0

abbrev pub is_opening : Effect → ℕ
is_opening builds_bridge = 1
is_opening _ = 0

abbrev pub is_teardown : Effect → ℕ
is_teardown closes_all = 1
is_teardown _ = 0

unfoldable pub count : (Effect → ℕ) → List Effect → ℕ
count f [] = 0
count f (e ∷ es) = f e + count f es

-- Whether the session stays in the registry, where `closes_record` and `close_all` end it.
abbrev pub after : Effect → Bool → Bool
after registers_session b = true
after closes_record b = false
after closes_all b = false
after _ b = b

unfoldable pub is_registered : Bool → List Effect → Bool
is_registered b [] = b
is_registered b (e ∷ es) = is_registered (after e b) es

-- Nothing is left behind: each sender that was started is closed, each bridge that was built is torn
-- down, no session stays registered, each rejection is counted and closes the socket with a
-- refusal, and a rejected client gets no sender.
pub record Balanced (es : List Effect) : Type 0 where
  pub senders : count is_start es ≡ count is_sender_close es
  pub bridges : count is_opening es ≡ count is_teardown es
  pub unregistered : is_registered false es ≡ false
  pub rejections : count is_rejection es ≡ count is_policy_close es
  pub either : count is_start es + count is_rejection es ≤ 1

rejected : (reason : Text) → Balanced (reject reason)
unfolding count is_registered
rejected reason = record {
  senders = refl;
  bridges = refl;
  unregistered = refl;
  rejections = refl;
  either = omega arith;
}

-- An effect that is of none of these kinds.
abbrev Quiet : Effect → Type 0
Quiet e =
    (is_start e ≡ 0)
    × (is_sender_close e ≡ 0)
    × (is_rejection e ≡ 0)
    × (is_policy_close e ≡ 0)
    × (is_opening e ≡ 0)
    × (is_teardown e ≡ 0)
    × ((b : Bool) → after e b ≡ b)

announce-Quiet : (r : Sent) → All Quiet (announce r)
unfolding announce
announce-Quiet is_sent = (
  (refl, refl, refl, refl, refl, refl, λ b. refl),
  ((refl, refl, refl, refl, refl, refl, λ b. refl), tt),
)
announce-Quiet client_gone = ((refl, refl, refl, refl, refl, refl, λ b. refl), tt)
announce-Quiet breaks = ((refl, refl, refl, refl, refl, refl, λ b. refl), tt)

check_health-Quiet : (w : World) (h : Health) → All Quiet (check_health w h)
unfolding check_health
check_health-Quiet w healthy = announce-Quiet w.ready
check_health-Quiet w unhealthy = (
  (refl, refl, refl, refl, refl, refl, λ b. refl),
  (
    (refl, refl, refl, refl, refl, refl, λ b. refl),
    ((refl, refl, refl, refl, refl, refl, λ b. refl), tt),
  ),
)
check_health-Quiet w gone = ((refl, refl, refl, refl, refl, refl, λ b. refl), tt)

session-Quiet : (w : World) → All Quiet (session w)
unfolding session
session-Quiet w =
    if_both (All Quiet) w.connects (λ _. check_health-Quiet w w.health)
      (λ _. ((refl, refl, refl, refl, refl, refl, λ b. refl), tt))

-- Quiet effects in front change no count.
record Same (es fs : List Effect) : Type 0 where
  start : count is_start es ≡ count is_start fs
  sender_close : count is_sender_close es ≡ count is_sender_close fs
  rejection : count is_rejection es ≡ count is_rejection fs
  policy_close : count is_policy_close es ≡ count is_policy_close fs
  opening : count is_opening es ≡ count is_opening fs
  teardown : count is_teardown es ≡ count is_teardown fs
  registered : (b : Bool) → is_registered b es ≡ is_registered b fs

append-Same : (es fs : List Effect) → All Quiet es → Same (es ++ fs) fs
unfolding count is_registered
append-Same [] fs q = record {
  start = refl;
  sender_close = refl;
  rejection = refl;
  policy_close = refl;
  opening = refl;
  teardown = refl;
  registered = λ b. refl;
}
append-Same (e ∷ es) fs ((a, b, c, d, f, g, h), q) =
    let s = append-Same es fs q in
    record {
      start = omega (arith, a, s.start);
      sender_close = omega (arith, b, s.sender_close);
      rejection = omega (arith, c, s.rejection);
      policy_close = omega (arith, d, s.policy_close);
      opening = omega (arith, f, s.opening);
      teardown = omega (arith, g, s.teardown);
      registered = λ x. ap (λ y. is_registered y (es ++ fs)) (h x) ∙ s.registered x;
    }

finish-counts : (w : World) → Same (finish w) (closes_all ∷ closes_sender ∷ [])
unfolding finish count is_registered
finish-counts w =
    if_both (λ l. Same (closes_all ∷ closes_sender ∷ l) (closes_all ∷ closes_sender ∷ []))
      w.is_connected
      (λ _. record {
        start = refl;
        sender_close = refl;
        rejection = refl;
        policy_close = refl;
        opening = refl;
        teardown = refl;
        registered = λ b. refl;
      })
      (λ _. record {
        start = refl;
        sender_close = refl;
        rejection = refl;
        policy_close = refl;
        opening = refl;
        teardown = refl;
        registered = λ b. refl;
      })

built-Balanced : (w : World) (b : Building) → Balanced (starts_sender ∷ built w b)
unfolding built count is_registered
built-Balanced w no_record = record {
  senders = refl;
  bridges = refl;
  unregistered = refl;
  rejections = refl;
  either = omega arith;
}
built-Balanced w no_bridge = record {
  senders = refl;
  bridges = refl;
  unregistered = refl;
  rejections = refl;
  either = omega arith;
}
built-Balanced w complete =
    let s = append-Same (session w) (finish w) (session-Quiet w) in
    let f = finish-counts w in
    record {
      senders = omega (arith, s.start, f.start, s.sender_close, f.sender_close);
      bridges = omega (arith, s.opening, f.opening, s.teardown, f.teardown);
      unregistered = s.registered true ∙ f.registered true;
      rejections = omega (arith, s.rejection, f.rejection, s.policy_close, f.policy_close);
      either = omega (arith, s.start, f.start, s.rejection, f.rejection);
    }

build-Balanced : (w : World) → Balanced (build w)
unfolding build
build-Balanced w = built-Balanced w w.building

with_agent-Balanced : (w : World) (r : Resolution) → Balanced (with_agent w r)
unfolding with_agent
with_agent-Balanced w (raises e) = rejected (codes "agent")
with_agent-Balanced w (agent a) = build-Balanced w

identified-Balanced :
    (w : World) (h : Handshake) (o : Option ClientConfig) → Balanced (identified w h o)
unfolding identified
identified-Balanced w h none = rejected (codes "invalid_key")
identified-Balanced w h (some c) =
    with_agent-Balanced w (resolve_agent h.agent (some c) w.gateway_info)

module _ (parse : Text → Parsed) (lookup : Text → Option ClientConfig) where
  parsed-Balanced : (w : World) (o : Parsed) → Balanced (parsed parse lookup w o)
  unfolding parsed count is_registered
  parsed-Balanced w invalid = rejected (codes "invalid")
  parsed-Balanced w uncaught = record {
    senders = refl;
    bridges = refl;
    unregistered = refl;
    rejections = refl;
    either = omega arith;
  }
  parsed-Balanced w (valid h) = identified-Balanced w h (lookup h.client_key)

  received-Balanced : (w : World) (f : First) → Balanced (received parse lookup w f)
  unfolding received count is_registered
  received-Balanced w (message t) =
      if_both Balanced (ltb w.max_bytes (length t)) (λ _. rejected (codes "too_large"))
        (λ _. parsed-Balanced w (parse t))
  received-Balanced w timeout = rejected (codes "timeout")
  received-Balanced w not_text = rejected (codes "not_text")
  received-Balanced w disconnected = record {
    senders = refl;
    bridges = refl;
    unregistered = refl;
    rejections = refl;
    either = omega arith;
  }

  -- #101, G-24: whatever a client sends and however the services answer, also when the session is half
  -- built, each sender that the route starts is closed, each bridge that it builds is torn down, no
  -- session stays registered, each rejection is counted and closes the socket with a refusal, and
  -- no client is both rejected and given a sender.
  pub gateway_websocket-Balanced : (w : World) → Balanced (gateway_websocket parse lookup w)
  unfolding gateway_websocket
  gateway_websocket-Balanced w = received-Balanced w w.first

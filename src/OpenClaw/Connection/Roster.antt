-- ===== src/OpenClaw/Connection/Roster.antt =====
-- #151: which roster of agents a connection leaves, when the server does not list them.
use jota_gateway.Prelude.{
  ◌≡◌, refl, sym, ◌∙◌, ap, true, false, Option, none, some, List, [], ◌∷◌, Text, Json, get, is_text,
  Fields, codes, arith, if_both, end,
}
use jota_gateway.OpenClaw.Frames.{connect_backend}
use jota_gateway.OpenClaw.Connection.{
  GatewayInfo, Client, Ids, Script, and_then, or_previous, fail, subscribe, with_roster, greeted,
  challenged, do_connect, parse_handshake_frame, hello_info, recv_matching, take_roster,
  previous_agents, is_truthy, from_hello_ok, info_of, frame_limit, known_payload,
}
use jota_gateway.OpenClaw.Connection.Handshake.{and_then-some}

info_of-agents :
    (policy defaults : Option Fields) (g : GatewayInfo)
    → info_of policy defaults ≡ some g
    → g.agents ≡ []
unfolding info_of
info_of-agents none defaults g e = ground (arith, e)
info_of-agents (some policy) none g e = ground (arith, e)
info_of-agents (some policy) (some defaults) g e = sym (ap previous_agents e)

from_hello_ok-agents :
    (payload : Fields) (g : GatewayInfo) → from_hello_ok payload ≡ some g → g.agents ≡ []
unfolding from_hello_ok
from_hello_ok-agents payload g e = info_of-agents _ _ g e

module _ (loads : Text → Option Json) where
  hello_info-agents :
      (hello : Fields) (g : GatewayInfo) → hello_info loads hello ≡ some g → g.agents ≡ []
  unfolding hello_info
  hello_info-agents hello g =
      if_both (λ (o : Option GatewayInfo). o ≡ some g → g.agents ≡ [])
        (is_truthy (get (codes "ok") hello))
        (λ _.
          if_both (λ (o : Option GatewayInfo). o ≡ some g → g.agents ≡ [])
            (is_truthy (get (codes "payload") hello))
            (λ _ e.
              let (payload, (found, made)) = and_then-some _ from_hello_ok g e in
              from_hello_ok-agents payload g made)
            (λ _ e. from_hello_ok-agents end g e))
        (λ _ e. ground (arith, e))

  subscribe-info :
      (ids : Ids) (ack : Option Text) (c : Client)
      → (subscribe loads ids ack c).1.gateway_info ≡ c.gateway_info
  unfolding subscribe fail
  subscribe-info ids none c = refl
  subscribe-info ids (some ack) c = refl

  take_roster-refused :
      (previous : List Json) (res : Fields) (g : GatewayInfo)
      → is_truthy (get (codes "ok") res) ≡ false
      → take_roster loads previous res g
        ≡ some (record g { agents = or_previous previous g.agents })
  unfolding take_roster
  take_roster-refused previous res g e = rw e refl

  -- The agents that are known after the answer to `agents.list`, from the information of the hello.
  greeted-refused :
      (ids : Ids) (s : Script) (previous : List Json) (g : GatewayInfo) (c : Client) (res : Fields)
      → recv_matching loads ids.agents_id s.frames ≡ some res
      → is_truthy (get (codes "ok") res) ≡ false
      → previous_agents (greeted loads ids s previous (some g) c).1.gateway_info
        ≡ or_previous previous g.agents
  unfolding greeted with_roster
  greeted-refused ids s previous g c res found refused =
      rw (found, take_roster-refused previous res g refused)
        (ap previous_agents (subscribe-info ids s.subscribed _))

  greeted-silent :
      (ids : Ids) (s : Script) (previous : List Json) (g : GatewayInfo) (c : Client)
      → recv_matching loads ids.agents_id s.frames ≡ none
      → ((greeted loads ids s previous (some g) c).0 ≡ false)
        × (previous_agents (greeted loads ids s previous (some g) c).1.gateway_info ≡ g.agents)
  unfolding greeted with_roster fail
  greeted-silent ids s previous g c e = rw e (refl, refl)

  hello_agents :
      (s : Script) (g : GatewayInfo)
      → and_then (parse_handshake_frame loads s.hello) (hello_info loads) ≡ some g
      → g.agents ≡ []
  hello_agents s g e =
      let (hello, (parsed, made)) =
        and_then-some (parse_handshake_frame loads s.hello) (hello_info loads) g e in
      hello_info-agents hello g made

  greeted_client : Ids → Client → Client
  greeted_client ids c = record c {
    has_socket = true;
    listening = false;
    max_size = frame_limit (known_payload c.gateway_info);
    sent = connect_backend ids.connect_id ids.token ∷ c.sent;
  }

  or_same : (previous : List Json) → or_previous previous [] ≡ previous
  or_same [] = refl
  or_same (a ∷ previous) = refl

  -- What the handshake comes to when the server has greeted.
  challenged-greets :
      (ids : Ids) (s : Script) (previous : List Json) (o : Option Fields) (c : Client)
      (challenge : Fields) (g : GatewayInfo)
      → o ≡ some challenge
      → is_text (codes "connect.challenge") (get (codes "event") challenge) ≡ true
      → and_then (parse_handshake_frame loads s.hello) (hello_info loads) ≡ some g
      → challenged loads ids s previous o c
        ≡ greeted loads ids s previous
            (some g)
            (record c { sent = connect_backend ids.connect_id ids.token ∷ c.sent })
  unfolding challenged
  challenged-greets ids s previous none c challenge g e ev h = ground (arith, e)
  challenged-greets ids s previous (some frame) c challenge g e ev h =
      rw
        (
          ap
                (λ o. elim o [
                  | none ↦ false
                  | some f ↦ is_text (codes "connect.challenge") (get (codes "event") f)
                ])
                e
              ∙ ev,
          h,
        )
        refl

  do_connect-greets :
      (ids : Ids) (s : Script) (c : Client) (challenge : Fields) (g : GatewayInfo)
      → s.opens ≡ true
      → parse_handshake_frame loads s.challenge ≡ some challenge
      → is_text (codes "connect.challenge") (get (codes "event") challenge) ≡ true
      → and_then (parse_handshake_frame loads s.hello) (hello_info loads) ≡ some g
      → do_connect loads ids s c
        ≡ greeted loads ids s (previous_agents c.gateway_info) (some g) (greeted_client ids c)
  unfolding do_connect greeted_client
  do_connect-greets ids s c challenge g opens e ev h =
      rw opens (challenged-greets ids s _ _ _ challenge g e ev h)

  -- #151: when the server has greeted and refuses to list its agents, the roster after the connection
  -- is the one known before.
  pub do_connect-roster :
      (ids : Ids) (s : Script) (c : Client) (challenge res : Fields) (g : GatewayInfo)
      → s.opens ≡ true
      → parse_handshake_frame loads s.challenge ≡ some challenge
      → is_text (codes "connect.challenge") (get (codes "event") challenge) ≡ true
      → and_then (parse_handshake_frame loads s.hello) (hello_info loads) ≡ some g
      → recv_matching loads ids.agents_id s.frames ≡ some res
      → is_truthy (get (codes "ok") res) ≡ false
      → previous_agents (do_connect loads ids s c).1.gateway_info ≡ previous_agents c.gateway_info
  do_connect-roster ids s c challenge res g opens e1 ev e2 e3 e4 =
      ap (λ r. previous_agents r.1.gateway_info)
        (do_connect-greets ids s c challenge g opens e1 ev e2)
      ∙ greeted-refused ids s _ g _ res e3 e4
      ∙ ap (or_previous (previous_agents c.gateway_info)) (hello_agents s g e2)
      ∙ or_same (previous_agents c.gateway_info)

  -- When the server has greeted but does not answer on its agents, the connection fails and the
  -- roster that was known before is forgotten.
  pub do_connect-forgets :
      (ids : Ids) (s : Script) (c : Client) (challenge : Fields) (g : GatewayInfo)
      → s.opens ≡ true
      → parse_handshake_frame loads s.challenge ≡ some challenge
      → is_text (codes "connect.challenge") (get (codes "event") challenge) ≡ true
      → and_then (parse_handshake_frame loads s.hello) (hello_info loads) ≡ some g
      → recv_matching loads ids.agents_id s.frames ≡ none
      → ((do_connect loads ids s c).0 ≡ false)
        × (previous_agents (do_connect loads ids s c).1.gateway_info ≡ [])
  do_connect-forgets ids s c challenge g opens e1 ev e2 e3 =
      let (fails, roster) =
        greeted-silent ids s (previous_agents c.gateway_info) g (greeted_client ids c) e3 in
      let same = do_connect-greets ids s c challenge g opens e1 ev e2 in
      (
        ap (λ r. r.0) same ∙ fails,
        ap (λ r. previous_agents r.1.gateway_info) same ∙ roster ∙ hello_agents s g e2,
      )

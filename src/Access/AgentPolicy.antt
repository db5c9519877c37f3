-- ===== src/Access/AgentPolicy.antt =====
-- core/agent_policy.py. A `ClientConfig` is its two fields that the policy reads.
use jota_gateway.Prelude.{
  ◌≡◌, Bool, true, false, not, Option, none, some, List, arith, if◌then◌else◌, ◌==◌, Text, Text_eq,
  codes, truthy, strip, contains,
}

pub record ClientConfig : Type 0 where
  pub default_agent : Option Text
  pub allowed_agents : Option (List Text)

pub record GatewayInfo : Type 0 where
  pub default_agent_id : Text
  pub agents : List Text

pub data AgentPolicyError : Type 0 where
  not_permitted : Text → AgentPolicyError
  not_available : Text → AgentPolicyError

pub data Resolution : Type 0 where
  agent : Text → Resolution
  raises : AgentPolicyError → Resolution

abbrev pub model_alias : Text
model_alias = codes "jota-gateway"

-- `(value or "").strip() or None`.
unfoldable pub normalized : Option Text → Option Text
normalized none = none
normalized (some t) = if truthy (strip t) then some (strip t) else none

unfoldable pub agent_from_model : Option Text → Option Text
unfolding normalized
agent_from_model model = elim (normalized model) [
  | none ↦ none
  | some name ↦ if name == model_alias then none else some name
]

abbrev nonempty : Option Text → Option Text
nonempty none = none
nonempty (some t) = if truthy t then some t else none

abbrev or_else : Option Text → Option Text → Option Text
or_else none b = b
or_else (some a) b = some a

abbrev or_main : Option Text → Text
or_main none = codes "main"
or_main (some a) = a

abbrev client_default : Option ClientConfig → Option Text
client_default none = none
client_default (some c) = nonempty c.default_agent

abbrev gateway_default : Option GatewayInfo → Option Text
gateway_default none = none
gateway_default (some g) = nonempty (some g.default_agent_id)

-- The cascade; `requested` is normalized.
unfoldable pub effective_agent : Option Text → Option ClientConfig → Option GatewayInfo → Text
effective_agent requested client gateway =
    or_main (or_else requested (or_else (client_default client) (gateway_default gateway)))

abbrev list_has : Text → Option (List Text) → Bool
list_has a none = true
list_has a (some l) = contains a l

-- Check (a): an explicit list of the client has the agent.
unfoldable pub is_permitted : Text → Option ClientConfig → Bool
is_permitted a none = true
is_permitted a (some c) = list_has a c.allowed_agents

abbrev roster_has : Text → Option GatewayInfo → Bool
roster_has a none = true
roster_has a (some g) = contains a g.agents

-- Check (b): an agent that was asked for is in the roster.
unfoldable pub is_available : Text → Option Text → Option GatewayInfo → Bool
is_available a none gateway = true
is_available a (some _) gateway = roster_has a gateway

unfoldable pub resolve_agent : Option Text → Option ClientConfig → Option GatewayInfo → Resolution
unfolding is_permitted is_available
resolve_agent requested client gateway =
    let asked = normalized requested in
    let effective = effective_agent asked client gateway in
    if not (is_permitted effective client)
    then raises (not_permitted effective)
    else if not (is_available effective asked gateway)
    then raises (not_available effective)
    else agent effective

-- No client ever gets an agent outside its own list, wherever the agent came from: its request, its
-- default, the gateway's default or the last resort. The empty list refuses every agent.
pub resolve_agent-allowed :
    (requested default : Option Text) (allowed : List Text) (gateway : Option GatewayInfo)
    (a : Text)
    → resolve_agent requested
        (some (record { default_agent = default; allowed_agents = some allowed }))
        gateway
      ≡ agent a
    → contains a allowed ≡ true
unfolding resolve_agent
resolve_agent-allowed requested default allowed gateway a h = ground arith

-- An agent that the caller asked for by name is the one that it gets, without the blanks around it,
-- and it is in the gateway's roster; the list of the client is checked first.
pub resolve_agent-requested :
    (t : Text) (client : Option ClientConfig) (g : GatewayInfo)
    → truthy (strip t) ≡ true
    → resolve_agent (some t) client (some g) ≡ (
        if is_permitted (strip t) client
        then if contains (strip t) g.agents
          then agent (strip t)
          else raises (not_available (strip t))
        else raises (not_permitted (strip t)))
unfolding resolve_agent normalized effective_agent
resolve_agent-requested t client g h = ground arith

-- A request of blanks, or of none at all, is no request: the agent comes from the configuration,
-- which the roster does not check, and whose list of agents the client's default must be in too.
pub resolve_agent-unrequested :
    (t : Text) (c : ClientConfig) (gateway : Option GatewayInfo)
    → truthy (strip t) ≡ false
    → (resolve_agent (some t) (some c) gateway ≡ resolve_agent none (some c) gateway)
      × (resolve_agent none (some c) gateway ≡ (
          if is_permitted (effective_agent none (some c) gateway) (some c)
          then agent (effective_agent none (some c) gateway)
          else raises (not_permitted (effective_agent none (some c) gateway))))
unfolding resolve_agent normalized
resolve_agent-unrequested t c gateway h = ground arith

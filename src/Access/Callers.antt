-- ===== src/Access/Callers.antt =====
-- api/openai_routes.py: `resolve_ha_caller`, `list_models`, `_extract_last_user_message`, and the
-- agent and session of a completion. api/deps.py: `get_admin_auth`. The database
-- (`db_client.get_session`) is an argument: `none` stands for `ClientNotFound` or `ClientInactive`.
use jota_gateway.Prelude.{
  ◌≡◌, ◌≢◌, ◌↔◌, refl, ◌∙◌, strip, Bool, true, false, not, ◌||◌, Option, none, some, List, [], ◌∷◌,
  ◌++◌, arith, if◌then◌else◌, ◌==◌, eq_iff, Bool-cases, Text, Text_eq, codes, truthy, starts_with,
  starts_with-append, drop, length, contains, reverse, inl, inr,
}
use jota_gateway.OpenClaw.TurnRegistry.{make_session_key}
use jota_gateway.Access.AgentPolicy.{
  ClientConfig, GatewayInfo, Resolution, agent, model_alias, agent_from_model, is_permitted,
  resolve_agent-requested, resolve_agent,
}
use jota_gateway.Access.Network.{
  IpLibrary, Settings, Connection, is_trusted_origin, resolve_client_ip, no_real_ip, text_or_empty,
  is_trusted_proxy, untrusted, resolve_client_ip-proxied, resolve_client_ip-direct,
}

pub record Client : Type 0 where
  pub id : Text
  pub config : ClientConfig

pub data Caller : Type 0 where
  -- A client that showed its key.
  keyed : Client → Caller
  -- A trusted origin with no credentials.
  trusted_origin : Caller
  -- 401.
  refused : Caller

abbrev keyed_or_refused : Option Client → Caller
keyed_or_refused none = refused
keyed_or_refused (some c) = keyed c

abbrev bearer : Text
bearer = codes "Bearer "

abbrev header : Option Text → Text
header none = []
header (some t) = t

module _ (lib : IpLibrary) (get_session : Text → Option Client) where
  unfoldable pub resolve_ha_caller : Settings → Connection → Option Text → Caller
  resolve_ha_caller s c authorization =
      let auth = header authorization in
      if truthy auth
      then if starts_with auth bearer
        then keyed_or_refused (get_session (drop (length bearer) auth))
        else refused
      else if is_trusted_origin lib s (resolve_client_ip lib s c)
      then trusted_origin
      else refused

  -- Credentials are always checked where they are sent, also from a trusted origin: the answer is
  -- the database's alone.
  pub resolve_ha_caller-bearer :
      (s : Settings) (c : Connection) (key : Text)
      → resolve_ha_caller s c (some (bearer ++ key)) ≡ keyed_or_refused (get_session key)
  unfolding resolve_ha_caller
  resolve_ha_caller-bearer s c key = rw (starts_with-append bearer key, resolve_ha_caller) refl

  -- Without credentials, a caller whose peer is a trusted proxy that sends no usable `X-Real-IP` is
  -- refused, also where the proxy itself is a trusted origin; and so is any peer that is no proxy
  -- and no trusted origin, whatever header it sends.
  pub resolve_ha_caller-fails_closed :
      (s : Settings) (c direct : Connection) (forged : Option Text)
      → IpLibrary.ip_address lib no_real_ip ≡ none
      → is_trusted_proxy lib s (text_or_empty c.client_host) ≡ true
      → IpLibrary.ip_address lib (strip (text_or_empty c.x_real_ip)) ≡ none
      → is_trusted_proxy lib s (text_or_empty direct.client_host) ≡ false
      → is_trusted_origin lib s (text_or_empty direct.client_host) ≡ false
      → (resolve_ha_caller s c none ≡ refused)
        × (resolve_ha_caller s (record direct { x_real_ip = forged }) none ≡ refused)
  unfolding resolve_ha_caller
  resolve_ha_caller-fails_closed s c direct forged sentinel proxy bad no_proxy no_origin = (
    rw (resolve_client_ip-proxied lib s c sentinel proxy ∙ untrusted lib s _ bad, resolve_ha_caller)
        refl,
    rw (resolve_client_ip-direct lib s direct forged no_proxy, resolve_ha_caller, no_origin) refl,
  )

-- The agents that `list_models` adds to the alias.
abbrev in_list : Text → Option (List Text) → Bool
in_list a none = true
in_list a (some l) = contains a l

abbrev allowed_by : Text → Option ClientConfig → Bool
allowed_by a none = true
allowed_by a (some c) = in_list a c.allowed_agents

list_agents : Option ClientConfig → List Text → List Text
list_agents config [] = []
list_agents config (a ∷ rest) =
    let others = list_agents config rest in
    if a == model_alias || not (allowed_by a config) then others else a ∷ others

-- A caller without a client configuration sees the alias alone.
unfoldable pub list_models : Option ClientConfig → Option GatewayInfo → List Text
unfolding list_agents
list_models none gateway = model_alias ∷ []
list_models (some c) none = model_alias ∷ []
list_models (some c) (some g) = model_alias ∷ list_agents (some c) g.agents

list_agents_sound :
    (c : ClientConfig) (a : Text) (roster : List Text)
    → contains a (list_agents (some c) roster) ≡ true
    → (contains a roster ≡ true)
      × (in_list a c.allowed_agents ≡ true)
      × ((a == model_alias) ≡ false)
unfolding list_agents
list_agents_sound c a [] h = cc
list_agents_sound c a (x ∷ rest) h =
    elim (Bool-cases (x == model_alias || not (in_list x c.allowed_agents))) [
      | inl skip ↦
          let (p, q, r) = list_agents_sound c a rest (ground (arith, skip)) in
          (ground (arith, p), q, r)
      | inr shown ↦ elim (Bool-cases (a == x)) [
        | inl e ↦ let same : a ≡ x = (eq_iff a x).0 e in ground (arith, shown, e, same)
        | inr other ↦
            let (p, q, r) = list_agents_sound c a rest (ground (arith, shown, other)) in
            (ground (arith, p), q, r)
      ]
    ]

model_of_agent :
    (a : Text)
    → (a == model_alias) ≡ false
    → strip a ≡ a
    → truthy a ≡ true
    → agent_from_model (some a) ≡ some a
unfolding agent_from_model
model_of_agent a not_alias bare some_text = ground arith

-- Whatever agent the model list shows a client beside the alias, the client may use: a completion
-- that names it as its model resolves to that agent. (Agents whose name has blanks around it, or
-- none but blanks, are set aside: the completion strips them.)
pub list_models-resolve_agent :
    (c : ClientConfig) (g : GatewayInfo) (a : Text)
    → contains a (list_models (some c) (some g)) ≡ true
    → (a == model_alias) ≡ false
    → strip a ≡ a
    → truthy a ≡ true
    → resolve_agent (agent_from_model (some a)) (some c) (some g) ≡ agent a
unfolding list_models is_permitted
list_models-resolve_agent c g a h not_alias bare some_text =
    let (p, q, r) = list_agents_sound c a g.agents (ground (arith, not_alias)) in
    ground
      (arith, p, q, model_of_agent a not_alias bare some_text, resolve_agent-requested a (some c) g)

-- The agent of a completion: a keyed caller's by the policy, a trusted origin's by the gateway.
unfoldable pub completion_agent : Text → Caller → Option GatewayInfo → Option Resolution
completion_agent model (keyed client) gateway =
    some (resolve_agent (agent_from_model (some model)) (some client.config) gateway)
completion_agent model trusted_origin none = some (agent (codes "main"))
completion_agent model trusted_origin (some g) = some (agent g.default_agent_id)
completion_agent model refused gateway = none

abbrev caller_id : Caller → Text
caller_id (keyed client) = client.id
caller_id _ = codes "ha"

unfoldable pub completion_session : Text → Caller → Text
completion_session resolved caller = make_session_key resolved (caller_id caller)

-- `_extract_last_user_message`.
pub record Message : Type 0 where
  pub role : Text
  pub content : Text

first_user : List Message → Text
first_user [] = []
first_user (m ∷ rest) = if m.role == codes "user" then m.content else first_user rest

unfoldable pub extract_last_user_message : List Message → Text
unfolding first_user
extract_last_user_message messages = first_user (reverse messages)

-- api/deps.py: `get_admin_auth`.
pub data AdminAuth : Type 0 where
  admitted not_configured invalid_token : AdminAuth

unfoldable pub get_admin_auth : Text → Text → AdminAuth
get_admin_auth admin_token x_admin_token =
    if truthy admin_token
    then if x_admin_token == admin_token then admitted else invalid_token
    else not_configured

-- The admin API is open to nobody but who shows the token, and to nobody at all where none is set.
pub get_admin_auth-admitted :
    (admin_token shown : Text)
    → (get_admin_auth admin_token shown ≡ admitted) ↔ ((admin_token ≢ []) × (shown ≡ admin_token))
unfolding get_admin_auth
get_admin_auth-admitted [] shown = (λ e. cc, λ h. absurd (h.0 refl))
get_admin_auth-admitted (c ∷ t) shown = (
  λ e. (λ p. cc, ground (arith, eq_iff shown (c ∷ t))),
  λ h. ground (arith, h.1, eq_iff shown (c ∷ t)),
)

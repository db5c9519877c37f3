-- ===== src/Examples/Access.antt =====
-- Concrete callers, behind a proxy on loopback. The library of addresses knows two of them.
use jota_gateway.Prelude.{
  ℕ, ◌≡◌, ◌≢◌, ◌↔◌, refl, Bool, true, false, ◌&&◌, Option, none, some, List, [], ◌∷◌, if◌then◌else◌,
  ◌==◌, Text, Text_eq, codes, contains, strip, truthy, text_beq, split,
}
use jota_gateway.Access.AgentPolicy.{
  ClientConfig, GatewayInfo, agent, raises, not_permitted, not_available, resolve_agent,
  is_permitted, effective_agent, model_alias, agent_from_model, resolve_agent-allowed,
  resolve_agent-requested, resolve_agent-unrequested,
}
use jota_gateway.Access.Network.{
  IpLibrary, Settings, Connection, is_trusted_origin, is_trusted_proxy, resolve_client_ip,
  text_or_empty, resolve_client_ip-proxied,
}
use jota_gateway.Access.Callers.{
  Client, refused, resolve_ha_caller, resolve_ha_caller-fails_closed, list_models,
  list_models-resolve_agent,
}

abbrev main : Text
main = codes "main"

abbrev guest : Text
guest = codes "guest"

abbrev visitor : ClientConfig
visitor = record { default_agent = none; allowed_agents = some (guest ∷ []) }

abbrev roster : GatewayInfo
roster = record { default_agent_id = main; agents = main ∷ guest ∷ [] }

resolve_agent-allowed_example : contains guest (guest ∷ []) ≡ true
unfolding resolve_agent text_beq effective_agent jota_gateway.Access.AgentPolicy.normalized strip
    jota_gateway.Prelude.is_space
resolve_agent-allowed_example =
    resolve_agent-allowed (some guest) none (guest ∷ []) (some roster) guest refl

list_models-resolve_agent_example :
    resolve_agent (agent_from_model (some guest)) (some visitor) (some roster) ≡ agent guest
unfolding list_models text_beq strip jota_gateway.Prelude.is_space
list_models-resolve_agent_example =
    list_models-resolve_agent visitor roster guest refl refl refl refl

-- Addresses are `l`, on loopback, and `h`; a network has one address.
abbrev known : Text → Option Text
known t = if text_beq t (codes "l") then some t else if text_beq t (codes "h") then some t else none

abbrev two_addresses : IpLibrary
two_addresses = record {
  Ip = Text;
  Network = Text;
  ip_address = known;
  ip_network = known;
  is_loopback = text_beq (codes "l");
  is_in = text_beq;
}

abbrev behind_proxy : Settings
behind_proxy = record { trusted_proxies = codes "l"; trusted_networks = []; trust_loopback = true }

abbrev no_header : Connection
no_header = record { client_host = some (codes "l"); x_real_ip = none }

abbrev direct : Connection
direct = record { client_host = some (codes "h"); x_real_ip = none }

resolve_client_ip-proxied_example :
    is_trusted_origin two_addresses behind_proxy
      (resolve_client_ip two_addresses behind_proxy no_header)
    ≡ is_trusted_origin two_addresses behind_proxy (strip (text_or_empty no_header.x_real_ip))
unfolding text_beq is_trusted_proxy split strip jota_gateway.Prelude.is_space
resolve_client_ip-proxied_example =
    resolve_client_ip-proxied two_addresses behind_proxy no_header refl refl

abbrev nobody : Text → Option Client
nobody key = none

resolve_ha_caller-fails_closed_example :
    (resolve_ha_caller two_addresses nobody behind_proxy no_header none ≡ refused)
    × (resolve_ha_caller two_addresses nobody behind_proxy
          (record direct { x_real_ip = some (codes "l") })
          none
        ≡ refused)
unfolding text_beq is_trusted_proxy split strip jota_gateway.Prelude.is_space is_trusted_origin
resolve_ha_caller-fails_closed_example =
    resolve_ha_caller-fails_closed two_addresses nobody behind_proxy no_header direct
      (some (codes "l")) refl refl refl refl refl

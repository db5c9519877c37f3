-- ===== src/Access/Network.antt =====
-- core/network.py. What the code uses of Python's `ipaddress` is a parameter.
use jota_gateway.Prelude.{
  ◌≡◌, refl, sym, ◌∙◌, Bool, true, false, ◌&&◌, Option, none, some, List, [], ◌∷◌, if◌then◌else◌,
  Option-cases, Text, codes, truthy, strip, split, any, inl, inr,
}

-- `ip_address(text)` and `ip_network(text, strict=False)`, `none` for `ValueError`.
pub record IpLibrary : Type 1 where
  pub Ip : Type 0
  pub Network : Type 0
  pub ip_address : Text → Option Ip
  pub ip_network : Text → Option Network
  pub is_loopback : Ip → Bool
  pub is_in : Ip → Network → Bool

pub record Settings : Type 0 where
  pub trusted_proxies : Text
  pub trusted_networks : Text
  pub trust_loopback : Bool

abbrev pub no_real_ip : Text
no_real_ip = codes "proxy-without-real-ip"

-- The peer's address, if the server knows it, and the header `x-real-ip`, if it was sent.
pub record Connection : Type 0 where
  pub client_host : Option Text
  pub x_real_ip : Option Text

abbrev pub text_or_empty : Option Text → Text
text_or_empty none = []
text_or_empty (some t) = t

module _ (lib : IpLibrary) where
  open lib use {Ip, Network, ip_address, ip_network, is_loopback, is_in}

  add_network : Option Network → List Network → List Network
  add_network none rest = rest
  add_network (some n) rest = n ∷ rest

  parse_items : List Text → List Network
  unfolding add_network
  parse_items [] = []
  parse_items (raw ∷ rest) =
      let others = parse_items rest in
      if truthy (strip raw) then add_network (ip_network (strip raw)) others else others

  unfoldable pub parse_networks : Text → List Network
  unfolding parse_items
  parse_networks csv = parse_items (split b',' csv)

  unfoldable pub ip_in_networks : Text → List Network → Bool
  ip_in_networks ip_str networks = elim (ip_address ip_str) [
    | none ↦ false
    | some ip ↦ any (is_in ip) networks
  ]

  unfoldable pub is_trusted_proxy : Settings → Text → Bool
  unfolding ip_in_networks parse_networks
  is_trusted_proxy s ip_str = ip_in_networks ip_str (parse_networks s.trusted_proxies)

  unfoldable pub is_trusted_origin : Settings → Text → Bool
  unfolding ip_in_networks parse_networks
  is_trusted_origin s ip_str = elim (ip_address ip_str) [
    | none ↦ false
    | some ip ↦
        if s.trust_loopback && is_loopback ip
        then true
        else ip_in_networks ip_str (parse_networks s.trusted_networks)
  ]

  abbrev real_or_sentinel : Text → Option Ip → Text
  real_or_sentinel real_ip none = no_real_ip
  real_or_sentinel real_ip (some ip) = real_ip

  unfoldable pub resolve_client_ip : Settings → Connection → Text
  unfolding is_trusted_proxy
  resolve_client_ip s c =
      let peer = text_or_empty c.client_host in
      let real_ip = strip (text_or_empty c.x_real_ip) in
      if is_trusted_proxy s peer then real_or_sentinel real_ip (ip_address real_ip) else peer

  -- What is no address is not trusted.
  pub untrusted : (s : Settings) (t : Text) → ip_address t ≡ none → is_trusted_origin s t ≡ false
  unfolding is_trusted_origin
  untrusted s t e = rw (e, is_trusted_origin) refl

  -- G-31: whatever comes through a trusted proxy is judged by the address that the proxy vouches
  -- for and never by the proxy's own: exactly as the address in the header would be, if the sentinel
  -- is no address.
  pub resolve_client_ip-proxied :
      (s : Settings) (c : Connection)
      → ip_address no_real_ip ≡ none
      → is_trusted_proxy s (text_or_empty c.client_host) ≡ true
      → is_trusted_origin s (resolve_client_ip s c)
        ≡ is_trusted_origin s (strip (text_or_empty c.x_real_ip))
  unfolding resolve_client_ip is_trusted_origin
  resolve_client_ip-proxied s c sentinel proxy =
      elim (Option-cases (ip_address (strip (text_or_empty c.x_real_ip)))) [
        | inl bad ↦
            rw (proxy, resolve_client_ip, bad)
              (untrusted s no_real_ip sentinel ∙ sym (untrusted s _ bad))
        | inr (ip, good) ↦ rw (proxy, resolve_client_ip, good) refl
      ]

  -- A peer that is no trusted proxy cannot change how it is judged by any header that it sends.
  pub resolve_client_ip-direct :
      (s : Settings) (c : Connection) (forged : Option Text)
      → is_trusted_proxy s (text_or_empty c.client_host) ≡ false
      → resolve_client_ip s (record c { x_real_ip = forged }) ≡ text_or_empty c.client_host
  unfolding resolve_client_ip
  resolve_client_ip-direct s c forged direct = rw (direct, resolve_client_ip) refl

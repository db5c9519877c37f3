-- ===== src/Examples/Connection.antt =====
-- A server that greets, and then does not answer on its agents.
use jota_gateway.Prelude.{
  ◌≤◌, ◌≡◌, refl, Bool, true, false, Option, none, some, List, [], ◌∷◌, Text, codes, Json, number,
  text, boolean, object, Fields, field, end, starts_with, if◌then◌else◌, ◌==◌, Text_eq,
}
use jota_gateway.OpenClaw.Connection.{
  GatewayInfo, Client, Ids, Script, frame_limit, min_frame_limit, max_frame_limit, do_connect,
  previous_agents, from_hello_ok,
}
use jota_gateway.OpenClaw.Connection.Handshake.{Left, do_connect-Left}
use jota_gateway.OpenClaw.Connection.Roster.{do_connect-forgets}

abbrev ids : Ids
ids = record {
  token = codes "t";
  connect_id = codes "a";
  agents_id = codes "b";
  subscribe_id = codes "c";
}

abbrev challenge : Fields
challenge = field (codes "event") (text (codes "connect.challenge")) end

-- A parser that knows two texts.
abbrev loads : Text → Option Json
loads t =
    if t == codes "x"
    then some (object challenge)
    else if t == codes "y"
    then some (object (field (codes "ok") (boolean true) end))
    else none

abbrev info : GatewayInfo
info = record {
  default_agent_id = text (codes "main");
  tick_interval_ms = number 15000;
  max_payload = number 26214400;
  agents = text (codes "casa") ∷ [];
}

abbrev greeted_info : GatewayInfo
greeted_info = record {
  default_agent_id = text (codes "main");
  tick_interval_ms = number 15000;
  max_payload = number 26214400;
  agents = [];
}

abbrev client : Client
client = record {
  has_socket = false;
  max_size = 26214400;
  gateway_info = some info;
  listening = false;
  sent = [];
}

abbrev silent : Script
silent = record {
  opens = true;
  challenge = some (codes "x");
  hello = some (codes "y");
  frames = none ∷ [];
  subscribed = none;
}

do_connect-Left_example :
    Left ids [] (do_connect loads ids silent client).0 (do_connect loads ids silent client).1
do_connect-Left_example = do_connect-Left loads ids silent client

do_connect-forgets_example :
    ((do_connect loads ids silent client).0 ≡ false)
    × (previous_agents (do_connect loads ids silent client).1.gateway_info ≡ [])
unfolding jota_gateway.OpenClaw.Connection.parse_handshake_frame jota_gateway.Prelude.text_beq
    jota_gateway.Prelude.get jota_gateway.OpenClaw.Connection.hello_info
    jota_gateway.Prelude.get_default jota_gateway.OpenClaw.Connection.recv_matching
do_connect-forgets_example =
    do_connect-forgets loads ids silent client challenge greeted_info refl refl refl refl refl

-- ===== src/TcpAgent/StartTests.antt =====
-- The start of serve/tcp-agent.js with the four variables that it needs.
use nodejs_wss_tunnel.Prelude.{
  ℕ, refl, Option, none, some, String, List, [], ◌∷◌, str_eq, if◌then◌else◌,
}
use nodejs_wss_tunnel.Prelude.Text.{split_on}
use nodejs_wss_tunnel.Ports.{parse_agent_ports, parse_tokens, check_token}
use nodejs_wss_tunnel.Config.{read_integer}
use nodejs_wss_tunnel.Config.Load.{read_number, local_host}
use nodejs_wss_tunnel.TcpAgent.Start.{AgentSettings, agent_start}
use nodejs_wss_tunnel.TcpAgent.Started.{IsStarted, agent_start-IsStarted}

-- The user "u" with the password "p", and the ports 80 and 443.
abbrev variable : String → Option (List ℕ)
variable name =
    if str_eq name "TUNNEL_SERVER_URL"
    then some (119 ∷ [])
    else if str_eq name "AGENT_USERNAME"
    then some (117 ∷ [])
    else if str_eq name "TUNNEL_PASSWORD"
    then some (112 ∷ [])
    else if str_eq name "AGENT_PORTS"
    then some (56 ∷ 48 ∷ 44 ∷ 52 ∷ 52 ∷ 51 ∷ [])
    else none

abbrev settings : AgentSettings
settings = record {
  server_url = 119 ∷ [];
  username = 117 ∷ [];
  password = 112 ∷ [];
  bind_host = local_host;
  agent_ports = 80 ∷ 443 ∷ [];
  ws_high_water = 1048576;
  ws_low_water = 524288;
  reconnect_delay = 1000;
}

agent_start-IsStarted_example : IsStarted variable settings
unfolding agent_start read_number read_integer parse_agent_ports parse_tokens check_token split_on
agent_start-IsStarted_example = agent_start-IsStarted variable settings refl

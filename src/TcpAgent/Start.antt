-- ===== src/TcpAgent/Start.antt =====
-- What serve/tcp-agent.js reads of its variables before it listens.
use nodejs_wss_tunnel.Prelude.{
  ℕ, ◌/◌, Bool, true, false, not, ◌||◌, Option, none, some, String, List, [], ◌∷◌,
}
use nodejs_wss_tunnel.Prelude.Text.{is_empty, same_text}
use nodejs_wss_tunnel.Prelude.Options.{◌>>=◌, guard}
use nodejs_wss_tunnel.Ports.{ParsedPorts, ports, failed, parse_agent_ports}
use nodejs_wss_tunnel.Config.Load.{or_standard, text_of, read_number, local_host}

-- The constants, and the first reconnection delay.
pub record AgentSettings : Type 0 where
  pub server_url : List ℕ
  pub username : List ℕ
  pub password : List ℕ
  pub bind_host : List ℕ
  pub agent_ports : List ℕ
  pub ws_high_water : ℕ
  pub ws_low_water : ℕ
  pub reconnect_delay : ℕ

-- "::1".
abbrev pub is_loopback : List ℕ → Bool
is_loopback host = same_text host local_host || same_text host (58 ∷ 58 ∷ 49 ∷ [])

-- `ALLOW_REMOTE_AGENT_BIND` is "1".
abbrev pub is_one : Option (List ℕ) → Bool
is_one none = false
is_one (some raw) = same_text raw (49 ∷ [])

abbrev pub taken : ParsedPorts → Option (List ℕ)
taken (ports ps) = some ps
taken (failed e) = none

-- What the process reads, or `none` where it exits with 1 or throws.
unfoldable pub agent_start : (String → Option (List ℕ)) → Option AgentSettings
agent_start variable = do
  let host = or_standard (variable "AGENT_BIND_HOST") local_host
  let url = text_of variable "TUNNEL_SERVER_URL"
  let username = or_standard (variable "AGENT_USERNAME") (text_of variable "TUNNEL_USERNAME")
  let password = or_standard (variable "AGENT_PASSWORD") (text_of variable "TUNNEL_PASSWORD")
  _ ← guard (is_loopback host || is_one (variable "ALLOW_REMOTE_AGENT_BIND"))
  _ ← guard (not (is_empty url || is_empty username || is_empty password))
  agent_ports ← taken (parse_agent_ports (text_of variable "AGENT_PORTS"))
  high ← read_number true variable "WS_HIGH_WATER_BYTES" 1048576 1024 none
  delay ← read_number true variable "AGENT_RECONNECT_DELAY_MS" 1000 100 none
  some (record {
    server_url = url;
    username = username;
    password = password;
    bind_host = host;
    agent_ports = agent_ports;
    ws_high_water = high;
    ws_low_water = high / 2;
    reconnect_delay = delay;
  })

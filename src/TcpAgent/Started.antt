-- ===== src/TcpAgent/Started.antt =====
-- What serve/tcp-agent.js has made sure of when it begins to listen.
use nodejs_wss_tunnel.Prelude.{
  ℕ, ◌≤◌, ◌<◌, ◌≡◌, refl, subst, ◌⊎◌, inl, inr, Bool, true, false, not, ◌||◌, Option, none, some,
  String, List, map, arith, All,
}
use nodejs_wss_tunnel.Prelude.Text.{is_empty, trim, decimal}
use nodejs_wss_tunnel.Prelude.Options.{>>=-some, guard, guard-true, none_of_three}
use nodejs_wss_tunnel.Ports.{ParsedPorts, ports, failed, split, parse_agent_ports}
use nodejs_wss_tunnel.Ports.Listed.{IsPort, IsDistinct, IsListed, parse_agent_ports-IsListed}
use nodejs_wss_tunnel.Config.Load.{or_standard, text_of, read_number, local_host}
use nodejs_wss_tunnel.Config.Loading.{read_number-le}
use nodejs_wss_tunnel.TcpAgent.Start.{AgentSettings, is_loopback, is_one, taken, agent_start}

-- The settings of an agent that begins.
pub record IsStarted (variable : String → Option (List ℕ)) (a : AgentSettings) : Type 0 where
  at_loopback :
      (is_loopback a.bind_host ≡ true) ⊎ (is_one (variable "ALLOW_REMOTE_AGENT_BIND") ≡ true)
  has_url : is_empty a.server_url ≡ false
  has_username : is_empty a.username ≡ false
  has_password : is_empty a.password ≡ false
  valid : All IsPort a.agent_ports
  distinct : IsDistinct a.agent_ports
  as_listed : a.agent_ports ≡ map (λ t. decimal (trim t)) (split (text_of variable "AGENT_PORTS"))
  low : 512 ≤ a.ws_low_water
  high : a.ws_low_water < a.ws_high_water
  delay : 100 ≤ a.reconnect_delay

taken-ports : (parsed : ParsedPorts) (ps : List ℕ) → taken parsed ≡ some ps → parsed ≡ ports ps
taken-ports (ports qs) ps e = ground (arith, e)
taken-ports (failed error) ps e = ground (arith, e)

either_true : (a b : Bool) → (a || b) ≡ true → (a ≡ true) ⊎ (b ≡ true)
either_true true b h = inl refl
either_true false b h = inr h

-- An agent that gets past its checks binds to a loopback address, unless ALLOW_REMOTE_AGENT_BIND is
-- "1"; its URL and credentials are not empty; its ports are valid, all different, and those that
-- AGENT_PORTS lists, in order; its low water mark is at least 512 and below the high one, and its
-- first reconnection delay at least 100 milliseconds.
pub agent_start-IsStarted :
    (variable : String → Option (List ℕ)) (a : AgentSettings)
    → agent_start variable ≡ some a
    → IsStarted variable a
unfolding agent_start
agent_start-IsStarted variable a e =
    let host = or_standard (variable "AGENT_BIND_HOST") local_host in
    let url = text_of variable "TUNNEL_SERVER_URL" in
    let username = or_standard (variable "AGENT_USERNAME") (text_of variable "TUNNEL_USERNAME") in
    let password = or_standard (variable "AGENT_PASSWORD") (text_of variable "TUNNEL_PASSWORD") in
    let remote = is_one (variable "ALLOW_REMOTE_AGENT_BIND") in
    let (_, e0, r0) = >>=-some (guard (is_loopback host || remote)) _ a e in
    let (_, e1, r1) =
      >>=-some (guard (not (is_empty url || is_empty username || is_empty password))) _ a r0 in
    let (ps, e2, r2) =
      >>=-some (taken (parse_agent_ports (text_of variable "AGENT_PORTS"))) _ a r1 in
    let (high, e3, r3) =
      >>=-some (read_number true variable "WS_HIGH_WATER_BYTES" 1048576 1024 none) _ a r2 in
    let (delay, e4, r4) =
      >>=-some (read_number true variable "AGENT_RECONNECT_DELAY_MS" 1000 100 none) _ a r3 in
    let big =
      read_number-le true variable "WS_HIGH_WATER_BYTES" 1048576 1024 high (omega arith) e3 in
    let (has_url, has_username, has_password) =
      none_of_three (is_empty url) (is_empty username) (is_empty password) (guard-true _ e1) in
    let (valid, distinct, as_listed) =
      subst (IsListed (split (text_of variable "AGENT_PORTS")))
        (taken-ports (parse_agent_ports (text_of variable "AGENT_PORTS")) ps e2)
        (parse_agent_ports-IsListed (text_of variable "AGENT_PORTS")) in
    subst (IsStartedIf variable) r4 (record {
      at_loopback = either_true (is_loopback host) remote (guard-true _ e0);
      has_url = has_url;
      has_username = has_username;
      has_password = has_password;
      valid = valid;
      distinct = distinct;
      as_listed = as_listed;
      low = omega (arith, big);
      high = omega (arith, big);
      delay =
          read_number-le true variable "AGENT_RECONNECT_DELAY_MS" 1000 100 delay (omega arith) e4;
    })
  where
    IsStartedIf : (String → Option (List ℕ)) → Option AgentSettings → Type 0
    IsStartedIf variable none = Unit
    IsStartedIf variable (some a) = IsStarted variable a

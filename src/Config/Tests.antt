-- ===== src/Config/Tests.antt =====
-- Variables, and the theorems at them.
use nodejs_wss_tunnel.Prelude.{ℕ, ◌≡◌, refl, some, List, [], ◌∷◌}
use nodejs_wss_tunnel.Prelude.Text.{split_on}
use nodejs_wss_tunnel.Ports.{parse_agent_ports, parse_tokens, check_token}
use nodejs_wss_tunnel.Config.{read_port_list, read_ports, next_port}
use nodejs_wss_tunnel.Config.Lists.{read_port_list-parse_agent_ports}

-- "80,443".
abbrev two_ports : List ℕ
two_ports = 56 ∷ 48 ∷ 44 ∷ 52 ∷ 52 ∷ 51 ∷ []

read_port_list-parse_agent_ports_example : read_port_list two_ports ≡ some (80 ∷ 443 ∷ [])
unfolding parse_agent_ports parse_tokens check_token split_on
read_port_list-parse_agent_ports_example =
    read_port_list-parse_agent_ports two_ports (80 ∷ 443 ∷ []) refl

-- "80,,80": what the agent refuses, the server reads.
read_port_list-lenient : read_port_list (56 ∷ 48 ∷ 44 ∷ 44 ∷ 56 ∷ 48 ∷ []) ≡ some (80 ∷ [])
unfolding read_port_list read_ports next_port split_on
read_port_list-lenient = refl

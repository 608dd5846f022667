-- ===== src/Ports/Tests.antt =====
-- "80, 0443" and its ports.
use nodejs_wss_tunnel.Prelude.{ℕ, ◌≡◌, refl, List, [], ◌∷◌}
use nodejs_wss_tunnel.Ports.{ports, split, check_token, parse_tokens, parse_agent_ports}
use nodejs_wss_tunnel.Ports.Listed.{IsListed, parse_agent_ports-IsListed}

abbrev text : List ℕ
text = 56 ∷ 48 ∷ 44 ∷ 32 ∷ 48 ∷ 52 ∷ 52 ∷ 51 ∷ []

parse_agent_ports-text : parse_agent_ports text ≡ ports (80 ∷ 443 ∷ [])
unfolding parse_agent_ports parse_tokens check_token nodejs_wss_tunnel.Prelude.Text.split_on
parse_agent_ports-text = refl

parse_agent_ports-IsListed_example : IsListed (split text) (parse_agent_ports text)
parse_agent_ports-IsListed_example = parse_agent_ports-IsListed text

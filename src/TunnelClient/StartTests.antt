-- ===== src/TunnelClient/StartTests.antt =====
-- The start of serve/client.js, and the target of a request to it.
use nodejs_wss_tunnel.Prelude.{
  ℕ, ◌≡◌, refl, Option, none, some, String, List, [], ◌∷◌, str_eq, if◌then◌else◌,
}
use nodejs_wss_tunnel.Prelude.Text.{split_on}
use nodejs_wss_tunnel.Config.{read_integer, read_list, trimmed}
use nodejs_wss_tunnel.Config.Load.{read_number, local_host}
use nodejs_wss_tunnel.TunnelClient.Start.{
  Origin, ClientSettings, begins_with, target_origin, client_start,
}
use nodejs_wss_tunnel.TunnelClient.Target.{
  at_question, without_slash, base_path, request_parts, local_target,
}
use nodejs_wss_tunnel.TunnelClient.Targets.{IsReady, client_start-IsReady}

-- The user "u" with the password "p", and the target "h:1/b/".
abbrev variable : String → Option (List ℕ)
variable name =
    if str_eq name "TUNNEL_SERVER_URL"
    then some (119 ∷ [])
    else if str_eq name "TUNNEL_USERNAME"
    then some (117 ∷ [])
    else if str_eq name "TUNNEL_PASSWORD"
    then some (112 ∷ [])
    else if str_eq name "TARGET_ORIGIN"
    then some (104 ∷ 58 ∷ 49 ∷ 47 ∷ 98 ∷ 47 ∷ [])
    else none

abbrev base : Origin
base = record { host = 104 ∷ 58 ∷ 49 ∷ []; pathname = 47 ∷ 98 ∷ 47 ∷ [] }

abbrev settings : ClientSettings
settings = record {
  server_url = 119 ∷ [];
  username = 117 ∷ [];
  password = 112 ∷ [];
  origin_text = 104 ∷ 116 ∷ 116 ∷ 112 ∷ 58 ∷ 47 ∷ 47 ∷ 104 ∷ 58 ∷ 49 ∷ 47 ∷ 98 ∷ 47 ∷ [];
  target_base = base;
  max_concurrent_streams = 200;
  stream_idle_timeout_ms = 120000;
  ws_high_water = 1048576;
  ws_low_water = 524288;
  max_frame_payload = 262144;
  local_request_timeout_ms = 0;
  tcp_client_allowed_hosts = local_host ∷ [];
  tcp_connect_timeout_ms = 10000;
}

client_start-IsReady_example : IsReady (λ text. some base) settings
unfolding client_start target_origin begins_with read_number read_integer read_list trimmed split_on
client_start-IsReady_example = client_start-IsReady (λ text. some base) variable settings refl

-- "*?q" of a request that `new URL` does not take becomes "/b/*" and "?q".
local_target-fallback :
    local_target (λ text. none) (λ text. text) (λ text. text) base (some (42 ∷ 63 ∷ 113 ∷ []))
    ≡ record {
      host = 104 ∷ 58 ∷ 49 ∷ [];
      pathname = 47 ∷ 98 ∷ 47 ∷ 42 ∷ [];
      search = 63 ∷ 113 ∷ [];
    }
unfolding local_target request_parts at_question base_path without_slash
local_target-fallback = refl

-- "/x", which `new URL` takes.
abbrev takes : List ℕ → Option (List ℕ × List ℕ)
takes text = some (47 ∷ 120 ∷ [], [])

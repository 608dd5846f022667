-- ===== src/Gateway/Routes.antt =====
-- `handleRequest` of src/server/HttpRouter.js. Paths are texts of code units.
use nodejs_wss_tunnel.Prelude.{
  ℕ, Bool, true, false, not, ◌&&◌, ◌||◌, List, [], ◌∷◌, ◌++◌, String, str_eq, if◌then◌else◌,
}
use nodejs_wss_tunnel.Prelude.Text.{same_text}
use nodejs_wss_tunnel.Gateway.Upgrade.{Settings}

-- "/__health".
abbrev pub health_path : List ℕ
health_path = 47 ∷ 95 ∷ 95 ∷ 104 ∷ 101 ∷ 97 ∷ 108 ∷ 116 ∷ 104 ∷ []

-- "/healthz".
abbrev pub healthz_path : List ℕ
healthz_path = 47 ∷ 104 ∷ 101 ∷ 97 ∷ 108 ∷ 116 ∷ 104 ∷ 122 ∷ []

-- "/__info".
abbrev pub info_path : List ℕ
info_path = 47 ∷ 95 ∷ 95 ∷ 105 ∷ 110 ∷ 102 ∷ 111 ∷ []

-- "-install".
abbrev pub install_suffix : List ℕ
install_suffix = 45 ∷ 105 ∷ 110 ∷ 115 ∷ 116 ∷ 97 ∷ 108 ∷ 108 ∷ []

-- "-config".
abbrev pub config_suffix : List ℕ
config_suffix = 45 ∷ 99 ∷ 111 ∷ 110 ∷ 102 ∷ 105 ∷ 103 ∷ []

-- "-client.js".
abbrev pub client_suffix : List ℕ
client_suffix = 45 ∷ 99 ∷ 108 ∷ 105 ∷ 101 ∷ 110 ∷ 116 ∷ 46 ∷ 106 ∷ 115 ∷ []

-- "-client-package.json".
abbrev pub client_package_suffix : List ℕ
client_package_suffix =
    45 ∷ 99 ∷ 108 ∷ 105 ∷ 101 ∷ 110 ∷ 116 ∷ 45 ∷ 112 ∷ 97 ∷ 99 ∷ 107 ∷ 97 ∷ 103 ∷ 101 ∷ 46 ∷ 106
    ∷ 115 ∷ 111 ∷ 110 ∷ []

-- "-tcp-agent.js".
abbrev pub agent_suffix : List ℕ
agent_suffix = 45 ∷ 116 ∷ 99 ∷ 112 ∷ 45 ∷ 97 ∷ 103 ∷ 101 ∷ 110 ∷ 116 ∷ 46 ∷ 106 ∷ 115 ∷ []

-- "-tcp-agent-package.json".
abbrev pub agent_package_suffix : List ℕ
agent_package_suffix =
    45 ∷ 116 ∷ 99 ∷ 112 ∷ 45 ∷ 97 ∷ 103 ∷ 101 ∷ 110 ∷ 116 ∷ 45 ∷ 112 ∷ 97 ∷ 99 ∷ 107 ∷ 97 ∷ 103
    ∷ 101 ∷ 46 ∷ 106 ∷ 115 ∷ 111 ∷ 110 ∷ []

-- What a request is answered with, or that it goes to a tunnel client.
pub data Route : Type 0 where
  health redirect_to_info landing_page install_script config not_found : Route
  client_script client_package agent_script agent_package : Route
  proxy : Route

-- `/${INSTALL_UUID}` and a suffix.
abbrev pub own_path : Settings → List ℕ → List ℕ
own_path settings suffix = 47 ∷ settings.install_uuid ++ suffix

-- `TCP_AGENT_ALLOWED_PORTS.length > 0`.
abbrev pub serves_agents : Settings → Bool
serves_agents settings = any settings.agent_allowed_ports
  where
    any : List ℕ → Bool
    any [] = false
    any (port ∷ ports) = true

-- `handleRequest`, with the method, the path, and whether a tunnel client is connected.
unfoldable pub handle_request : Settings → String → List ℕ → Bool → Route
handle_request settings method path has_client =
    if same_text path health_path || same_text path healthz_path
    then health
    else if (same_text path (47 ∷ []) && str_eq method "GET") && not has_client
    then redirect_to_info
    else if same_text path info_path && str_eq method "GET"
    then landing_page
    else if same_text path (own_path settings install_suffix)
    then install_script
    else if same_text path (own_path settings config_suffix)
    then config
    else if same_text path (own_path settings client_suffix)
    then client_script
    else if same_text path (own_path settings client_package_suffix)
    then client_package
    else if same_text path (own_path settings agent_suffix)
    then (if serves_agents settings then agent_script else not_found)
    else if same_text path (own_path settings agent_package_suffix)
    then (if serves_agents settings then agent_package else not_found)
    else if same_text path settings.tunnel_path
    then not_found
    else if same_text path settings.agent_path
    then not_found
    else proxy

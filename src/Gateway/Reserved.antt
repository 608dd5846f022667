-- ===== src/Gateway/Reserved.antt =====
-- Which requests `handleRequest` of src/server/HttpRouter.js hands to `_proxyHttpRequest`.
use nodejs_wss_tunnel.Prelude.{ℕ, Bool, false, not, ◌&&◌, ◌||◌, List, [], ◌∷◌, String, str_eq}
use nodejs_wss_tunnel.Prelude.Text.{same_text}
use nodejs_wss_tunnel.Gateway.Upgrade.{Settings}
use nodejs_wss_tunnel.Gateway.Routes.{
  health_path, healthz_path, info_path, install_suffix, config_suffix, client_suffix,
  client_package_suffix, agent_suffix, agent_package_suffix, own_path,
}

-- The paths that the program keeps for itself whatever the method.
abbrev pub reserved : Settings → List (List ℕ)
reserved settings =
    health_path
    ∷ healthz_path
    ∷ own_path settings install_suffix
    ∷ own_path settings config_suffix
    ∷ own_path settings client_suffix
    ∷ own_path settings client_package_suffix
    ∷ own_path settings agent_suffix
    ∷ own_path settings agent_package_suffix
    ∷ settings.tunnel_path
    ∷ settings.agent_path
    ∷ []

abbrev pub is_one_of : List ℕ → List (List ℕ) → Bool
is_one_of path [] = false
is_one_of path (p ∷ ps) = same_text path p || is_one_of path ps

-- The program's own page of this method and path.
abbrev pub is_own_page : String → List ℕ → Bool → Bool
is_own_page method path has_client =
    str_eq method "GET" && (same_text path info_path || same_text path (47 ∷ []) && not has_client)

-- ===== src/Gateway/Upgrade.antt =====
-- `handleUpgrade` of src/server/HttpRouter.js.
use nodejs_wss_tunnel.Prelude.{
  ℕ, Bool, true, false, not, ◌&&◌, Option, none, some, List, [], ◌∷◌, if◌then◌else◌,
}
use nodejs_wss_tunnel.Prelude.Text.{
  is_empty, trim, split_on, same_text, includes_text, lower, first_part,
}
use nodejs_wss_tunnel.AllowList.{is_ip_allowed}
use nodejs_wss_tunnel.Gateway.Auth.{Crypto, verify_basic_auth}

-- The constants of src/shared/config.js that the router reads.
pub record Settings : Type 0 where
  pub tunnel_path : List ℕ
  pub agent_path : List ℕ
  pub username : List ℕ
  pub password : List ℕ
  pub agent_username : List ℕ
  pub agent_password : List ℕ
  pub agent_allowed_origins : List (List ℕ)
  pub agent_require_tls : Bool
  pub agent_trusted_proxies : List (List ℕ)
  pub agent_allowed_ports : List ℕ
  pub install_uuid : List ℕ
  pub admin_secret : List ℕ

-- What is read of a request; a header or an address that is missing is the empty text.
pub record Upgrade : Type 0 where
  pub url : List ℕ
  -- `new URL(req.url, 'http://localhost').pathname`, or `none` where it throws.
  pub parsed_path : Option (List ℕ)
  pub encrypted : Bool
  pub remote_address : List ℕ
  pub forwarded_proto : List ℕ
  pub origin : List ℕ
  pub authorization : List ℕ

-- What becomes of the socket: a status and its end, or a WebSocket for one of the two servers.
pub data Upgraded : Type 0 where
  rejected : ℕ → Upgraded
  to_agents to_clients : Upgraded

-- "https".
abbrev pub https : List ℕ
https = 104 ∷ 116 ∷ 116 ∷ 112 ∷ 115 ∷ []

-- `list.length === 0`.
unfoldable pub is_none : List (List ℕ) → Bool
is_none [] = true
is_none (entry ∷ entries) = false

-- `isAgentRequestSecure`.
unfoldable pub is_agent_request_secure : Upgrade → List (List ℕ) → Bool
unfolding is_none
is_agent_request_secure req trusted_proxies =
    if req.encrypted
    then true
    else if is_none trusted_proxies
    then false
    else if not (is_ip_allowed req.remote_address trusted_proxies)
    then false
    else same_text (lower (trim (first_part (split_on 44 req.forwarded_proto)))) https

unfoldable pub path_of : Upgrade → List ℕ
path_of req = parsed_or req.parsed_path
  where
    parsed_or : Option (List ℕ) → List ℕ
    parsed_or (some pathname) = pathname
    parsed_or none = first_part (split_on 63 req.url)

-- The upgrade of an agent; `agentWss` is there when there are ports that agents may serve.
unfoldable pub upgrade_agent : Crypto → Settings → Bool → Upgrade → Upgraded
unfolding is_none
upgrade_agent crypto settings has_agents req =
    if not has_agents
    then rejected 501
    else if settings.agent_require_tls
        && not (is_agent_request_secure req settings.agent_trusted_proxies)
    then rejected 426
    else if not (is_empty req.origin)
        && not (is_none settings.agent_allowed_origins)
        && not (includes_text req.origin settings.agent_allowed_origins)
    then rejected 403
    else if not
        (verify_basic_auth crypto req.authorization settings.agent_username settings.agent_password)
    then rejected 401
    else to_agents

-- `handleUpgrade`, where `has_agents` says that `agentWss` is not null.
unfoldable pub handle_upgrade : Crypto → Settings → Bool → Upgrade → Upgraded
unfolding upgrade_agent
handle_upgrade crypto settings has_agents req =
    if same_text (path_of req) settings.agent_path
    then upgrade_agent crypto settings has_agents req
    else if not (same_text (path_of req) settings.tunnel_path)
    then rejected 501
    else if not (verify_basic_auth crypto req.authorization settings.username settings.password)
    then rejected 401
    else to_clients

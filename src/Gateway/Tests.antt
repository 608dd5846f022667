-- ===== src/Gateway/Tests.antt =====
-- Requests to the router, with a digest that is the text itself.
use nodejs_wss_tunnel.Prelude.{
  ℕ, ◌≡◌, ◌↔◌, ◌⊎◌, refl, Bool, true, false, Option, none, some, String, List, [], ◌∷◌, ◌++◌,
}
use nodejs_wss_tunnel.Logging.{LogState}
use nodejs_wss_tunnel.Gateway.Auth.{Crypto, verify_basic_auth, at_colon}
use nodejs_wss_tunnel.Gateway.Credentials.{IsAuthorised, verify_basic_auth-IsAuthorised}
use nodejs_wss_tunnel.Gateway.Upgrade.{Settings, Upgrade, to_agents, to_clients, handle_upgrade}
use nodejs_wss_tunnel.Gateway.Admission.{IsAgentRequest, IsClientRequest, handle_upgrade-IsAdmitted}
use nodejs_wss_tunnel.Gateway.Admin.{Body, object, undefined, AdminRequest, handle_config_request}
use nodejs_wss_tunnel.Gateway.Updates.{IsUpdate, handle_config_request-IsUpdate}

abbrev pub plain : Crypto
plain = record {
  digest = λ s. s;
  from_base64 = λ s. s;
  hmac = λ secret s. secret ++ s;
  from_hex = λ s. s;
  show_number = λ s. s;
}

-- "/t" and "/a", and the credentials u and p.
abbrev pub settings : Settings
settings = record {
  tunnel_path = 47 ∷ 116 ∷ [];
  agent_path = 47 ∷ 97 ∷ [];
  username = 117 ∷ [];
  password = 112 ∷ [];
  agent_username = 117 ∷ [];
  agent_password = 112 ∷ [];
  agent_allowed_origins = [];
  agent_require_tls = true;
  agent_trusted_proxies = [];
  agent_allowed_ports = 80 ∷ [];
  install_uuid = 105 ∷ [];
  admin_secret = 115 ∷ [];
}

-- "Basic u:p".
abbrev header : List ℕ
header = 66 ∷ 97 ∷ 115 ∷ 105 ∷ 99 ∷ 32 ∷ 117 ∷ 58 ∷ 112 ∷ []

abbrev pub upgrade : Upgrade
upgrade = record {
  url = 47 ∷ 97 ∷ [];
  parsed_path = some (47 ∷ 97 ∷ []);
  encrypted = true;
  remote_address = [];
  forwarded_proto = [];
  origin = [];
  authorization = header;
}

pub handle_upgrade-agent : handle_upgrade plain settings true upgrade ≡ to_agents
unfolding handle_upgrade nodejs_wss_tunnel.Gateway.Upgrade.path_of
    nodejs_wss_tunnel.Gateway.Upgrade.is_agent_request_secure verify_basic_auth
    nodejs_wss_tunnel.Gateway.Auth.check_parts nodejs_wss_tunnel.Gateway.Auth.check_pair
    nodejs_wss_tunnel.Gateway.Auth.safe_equal at_colon nodejs_wss_tunnel.Prelude.Text.split_on
handle_upgrade-agent = refl

verify_basic_auth-IsAuthorised_example :
    (verify_basic_auth plain header (117 ∷ []) (112 ∷ []) ≡ true)
    ↔ IsAuthorised plain header (117 ∷ []) (112 ∷ [])
verify_basic_auth-IsAuthorised_example =
    verify_basic_auth-IsAuthorised plain (117 ∷ []) (112 ∷ []) header

handle_upgrade-IsAdmitted_example :
    ((handle_upgrade plain settings true upgrade ≡ to_agents)
      ↔ IsAgentRequest plain settings true upgrade)
    × ((handle_upgrade plain settings true upgrade ≡ to_clients)
        ↔ IsClientRequest plain settings true upgrade)
handle_upgrade-IsAdmitted_example = handle_upgrade-IsAdmitted plain settings true upgrade

abbrev quiet : LogState
quiet = record { verbose = none; log_format = none; env_verbose = false; env_json = false }

-- A POST that expires at second 9 with the signature "s/i-config|9".
abbrev post : AdminRequest
post = record {
  method = "POST";
  query = some (57 ∷ [], 115 ∷ 47 ∷ 105 ∷ 45 ∷ 99 ∷ 111 ∷ 110 ∷ 102 ∷ 105 ∷ 103 ∷ 124 ∷ 57 ∷ []);
  chunks = (123 ∷ []) ∷ (125 ∷ []) ∷ [];
}

abbrev parse : List ℕ → Body
parse text = object (some true) undefined

handle_config_request-post :
    (handle_config_request plain settings 5 parse quiet post).0.verbose ≡ some true
unfolding handle_config_request nodejs_wss_tunnel.Gateway.Admin.validate_admin
    nodejs_wss_tunnel.Gateway.Auth.validate_hmac_signature nodejs_wss_tunnel.Gateway.Auth.is_expired
    nodejs_wss_tunnel.AllowList.Numbers.number_of nodejs_wss_tunnel.Gateway.Admin.receive
    nodejs_wss_tunnel.Gateway.Admin.update nodejs_wss_tunnel.Logging.set_config
handle_config_request-post = refl

handle_config_request-IsUpdate_example :
    ((handle_config_request plain settings 5 parse quiet post).0 ≡ quiet)
    ⊎ IsUpdate plain settings 5 parse post quiet
        (handle_config_request plain settings 5 parse quiet post).0
handle_config_request-IsUpdate_example =
    handle_config_request-IsUpdate plain settings 5 parse quiet post

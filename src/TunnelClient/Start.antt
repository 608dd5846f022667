-- ===== src/TunnelClient/Start.antt =====
-- What serve/client.js reads of its variables before it connects.
use nodejs_wss_tunnel.Prelude.{
  ℕ, ◌/◌, ◌==◌, Bool, true, false, not, ◌&&◌, ◌||◌, Option, none, some, String, List, [], ◌∷◌, ◌++◌,
  if◌then◌else◌,
}
use nodejs_wss_tunnel.Prelude.Text.{is_empty, lower}
use nodejs_wss_tunnel.Prelude.Options.{◌>>=◌, guard}
use nodejs_wss_tunnel.Config.{read_list}
use nodejs_wss_tunnel.Config.Load.{or_standard, text_of, read_number, local_host}

-- "http://", "https://" and "http://127.0.0.1:8000".
abbrev pub http_scheme : List ℕ
http_scheme = 104 ∷ 116 ∷ 116 ∷ 112 ∷ 58 ∷ 47 ∷ 47 ∷ []

abbrev pub https_scheme : List ℕ
https_scheme = 104 ∷ 116 ∷ 116 ∷ 112 ∷ 115 ∷ 58 ∷ 47 ∷ 47 ∷ []

abbrev pub standard_origin : List ℕ
standard_origin =
    104 ∷ 116 ∷ 116 ∷ 112 ∷ 58 ∷ 47 ∷ 47 ∷ 49 ∷ 50 ∷ 55 ∷ 46 ∷ 48 ∷ 46 ∷ 48 ∷ 46 ∷ 49 ∷ 58 ∷ 56 ∷ 48
    ∷ 48 ∷ 48 ∷ []

unfoldable pub begins_with : List ℕ → List ℕ → Bool
begins_with [] s = true
begins_with (p ∷ prefix) [] = false
begins_with (p ∷ prefix) (c ∷ s) = p == c && begins_with prefix s

-- `/^https?:\/\//i`.
abbrev pub has_scheme : List ℕ → Bool
has_scheme raw = begins_with http_scheme (lower raw) || begins_with https_scheme (lower raw)

-- TARGET_ORIGIN.
unfoldable pub target_origin : (String → Option (List ℕ)) → List ℕ
target_origin variable =
    let raw = or_standard (variable "TARGET_ORIGIN") standard_origin in
    if has_scheme raw then raw else http_scheme ++ raw

-- What is read of `new URL(TARGET_ORIGIN)`.
pub record Origin : Type 0 where
  pub host : List ℕ
  pub pathname : List ℕ

-- The constants.
pub record ClientSettings : Type 0 where
  pub server_url : List ℕ
  pub username : List ℕ
  pub password : List ℕ
  pub origin_text : List ℕ
  pub target_base : Origin
  pub max_concurrent_streams : ℕ
  pub stream_idle_timeout_ms : ℕ
  pub ws_high_water : ℕ
  pub ws_low_water : ℕ
  pub max_frame_payload : ℕ
  pub local_request_timeout_ms : ℕ
  pub tcp_client_allowed_hosts : List (List ℕ)
  pub tcp_connect_timeout_ms : ℕ

-- What the process reads, where `parse` is `new URL`, which may throw; or `none` where it exits with 1
-- or throws.
unfoldable pub client_start :
    (List ℕ → Option Origin) → (String → Option (List ℕ)) → Option ClientSettings
client_start parse variable = do
  let url = text_of variable "TUNNEL_SERVER_URL"
  let username = text_of variable "TUNNEL_USERNAME"
  let password = text_of variable "TUNNEL_PASSWORD"
  streams ← read_number true variable "MAX_CONCURRENT_STREAMS" 200 1 none
  idle ← read_number true variable "STREAM_IDLE_TIMEOUT_MS" 120000 0 none
  _ ← read_number true variable "DRAIN_TIMEOUT_MS" 30000 0 none
  high ← read_number true variable "WS_HIGH_WATER_BYTES" 1048576 1024 none
  frame ← read_number true variable "MAX_FRAME_PAYLOAD_BYTES" 262144 1 none
  request ← read_number true variable "LOCAL_REQUEST_TIMEOUT_MS" 0 0 none
  _ ← guard (not (is_empty url || is_empty username || is_empty password))
  base ← parse (target_origin variable)
  connect ← read_number true variable "TCP_CONNECT_TIMEOUT_MS" 10000 0 none
  some (record {
    server_url = url;
    username = username;
    password = password;
    origin_text = target_origin variable;
    target_base = base;
    max_concurrent_streams = streams;
    stream_idle_timeout_ms = idle;
    ws_high_water = high;
    ws_low_water = high / 2;
    max_frame_payload = frame;
    local_request_timeout_ms = request;
    tcp_client_allowed_hosts = read_list (
        or_standard (variable "TCP_CLIENT_ALLOWED_HOSTS")
          (or_standard (variable "TCP_TUNNEL_HOST") local_host));
    tcp_connect_timeout_ms = connect;
  })

-- ===== src/Config/Load.antt =====
-- The constants that src/shared/config.js makes of the environment's variables, with `readUrl`.
use nodejs_wss_tunnel.Prelude.{
  ℕ, ◌/◌, Bool, false, ◌||◌, Option, none, some, String, List, [], ◌∷◌, ◌++◌, ◌==◌, if◌then◌else◌,
}
use nodejs_wss_tunnel.Prelude.Text.{is_empty, same_text}
use nodejs_wss_tunnel.Prelude.Options.{◌>>=◌}
use nodejs_wss_tunnel.Config.{
  Constants, Fatal, ReadInteger, value, validate_config, read_integer, read_boolean, read_port_list,
  read_ip_list, read_list,
}

-- The process: `process.env`, `new URL(text).protocol`, which is `none` where the constructor throws,
-- `crypto.randomUUID()` and the template `${number}`.
pub record Outside : Type 0 where
  pub variable : String → Option (List ℕ)
  pub protocol_of : List ℕ → Option (List ℕ)
  pub random_uuid : List ℕ
  pub show_number : ℕ → List ℕ

-- `raw || standard`.
abbrev pub or_standard : Option (List ℕ) → List ℕ → List ℕ
or_standard none standard = standard
or_standard (some raw) standard = if is_empty raw then standard else raw

abbrev pub text_of : (String → Option (List ℕ)) → String → List ℕ
text_of variable name = or_standard (variable name) []

-- `readInteger` with a least number, or `none` where it throws; with `safe`, that of runtime-config.js.
-- None of the constants is negative.
abbrev pub magnitude_of : ReadInteger → Option ℕ
magnitude_of (value n) = some n.magnitude
magnitude_of _ = none

unfoldable pub read_number :
    Bool → (String → Option (List ℕ)) → String → ℕ → ℕ → Option ℕ → Option ℕ
read_number safe variable name standard min max =
    magnitude_of (read_integer safe (text_of variable name) standard (some min) max)

-- "http:" and "https:".
abbrev pub is_web : List ℕ → Bool
is_web protocol =
    same_text protocol (104 ∷ 116 ∷ 116 ∷ 112 ∷ 58 ∷ [])
    || same_text protocol (104 ∷ 116 ∷ 116 ∷ 112 ∷ 115 ∷ 58 ∷ [])

abbrev pub checked_url : Option (List ℕ) → List ℕ → Option (List ℕ)
checked_url none raw = none
checked_url (some protocol) raw = if is_web protocol then some raw else none

-- `readUrl`, or `none` where it throws.
unfoldable pub read_url : Outside → String → List ℕ → Option (List ℕ)
read_url out name standard =
    let raw = or_standard (out.variable name) standard in
    if is_empty raw then some [] else checked_url (out.protocol_of raw) raw

-- `raw.startsWith('/')`.
abbrev pub is_rooted : List ℕ → Bool
is_rooted [] = false
is_rooted (c ∷ s) = c == 47

-- `process.env[name] ?? standard`, for a path.
abbrev pub or_unset : Option (List ℕ) → List ℕ → List ℕ
or_unset none standard = standard
or_unset (some raw) standard = raw

unfoldable pub read_path : Outside → String → List ℕ → Option (List ℕ)
read_path out name standard =
    let raw = or_unset (out.variable name) standard in if is_rooted raw then some raw else none

-- `WS_LOW_WATER`.
unfoldable pub read_low_water : Outside → ℕ → Option ℕ
unfolding read_number
read_low_water out ws_high_water =
    if is_empty (text_of out.variable "WS_LOW_WATER")
    then some (ws_high_water / 2)
    else read_number false out.variable "WS_LOW_WATER" 0 1 none

-- The sizes in bytes.
pub record Sizes : Type 0 where
  pub ws_high_water : ℕ
  pub max_frame_payload : ℕ
  pub ws_max_payload : ℕ
  pub max_dest_buffer_bytes : ℕ
  pub ws_low_water : ℕ

unfoldable pub load_sizes : Outside → Option Sizes
load_sizes out = do
  high ← read_number false out.variable "WS_HIGH_WATER_BYTES" 1048576 1024 none
  frame ← read_number false out.variable "MAX_FRAME_PAYLOAD_BYTES" 262144 1 none
  payload ← read_number false out.variable "WS_MAX_PAYLOAD_BYTES" 2097152 1024 none
  buffer ← read_number false out.variable "MAX_DEST_BUFFER_BYTES" 8388608 1024 none
  low ← read_low_water out high
  some (record {
    ws_high_water = high;
    max_frame_payload = frame;
    ws_max_payload = payload;
    max_dest_buffer_bytes = buffer;
    ws_low_water = low;
  })

-- The limits and the times in milliseconds.
pub record Counts : Type 0 where
  pub port : ℕ
  pub max_concurrent_streams : ℕ
  pub max_tunnel_clients : ℕ
  pub stream_idle_timeout_ms : ℕ
  pub drain_timeout_ms : ℕ
  pub tcp_connect_timeout_ms : ℕ
  pub tcp_max_connections_per_port : ℕ
  pub tcp_shutdown_drain_timeout_ms : ℕ
  pub tcp_agent_max_streams_per_agent : ℕ

unfoldable pub load_counts : Outside → Option Counts
load_counts out = do
  port ← read_number false out.variable "PORT" 7860 1 (some 65535)
  streams ← read_number false out.variable "MAX_CONCURRENT_STREAMS" 200 1 none
  clients ← read_number false out.variable "MAX_TUNNEL_CLIENTS" 1 1 none
  idle ← read_number false out.variable "STREAM_IDLE_TIMEOUT_MS" 120000 0 none
  drain ← read_number false out.variable "DRAIN_TIMEOUT_MS" 30000 0 none
  connect ← read_number false out.variable "TCP_CONNECT_TIMEOUT_MS" 10000 0 none
  per_port ← read_number false out.variable "TCP_MAX_CONNECTIONS_PER_PORT" 20 0 none
  shutdown ← read_number false out.variable "TCP_SHUTDOWN_DRAIN_TIMEOUT_MS" 5000 0 none
  per_agent ← read_number false out.variable "TCP_AGENT_MAX_STREAMS_PER_AGENT" 100 0 none
  some (record {
    port = port;
    max_concurrent_streams = streams;
    max_tunnel_clients = clients;
    stream_idle_timeout_ms = idle;
    drain_timeout_ms = drain;
    tcp_connect_timeout_ms = connect;
    tcp_max_connections_per_port = per_port;
    tcp_shutdown_drain_timeout_ms = shutdown;
    tcp_agent_max_streams_per_agent = per_agent;
  })

-- The paths, lists and tests.
pub record Routes : Type 0 where
  pub tunnel_path : List ℕ
  pub tcp_agent_path : List ℕ
  pub server_host : List ℕ
  pub tcp_tunnel_ports : List ℕ
  pub tcp_agent_allowed_ports : List ℕ
  pub tcp_agent_require_tls : Bool
  pub tcp_agent_trusted_proxies : List (List ℕ)

-- "/tunnel", "/tcp", "127.0.0.1" and "http://localhost:".
abbrev pub standard_tunnel_path : List ℕ
standard_tunnel_path = 47 ∷ 116 ∷ 117 ∷ 110 ∷ 110 ∷ 101 ∷ 108 ∷ []

abbrev pub standard_agent_path : List ℕ
standard_agent_path = 47 ∷ 116 ∷ 99 ∷ 112 ∷ []

abbrev pub local_host : List ℕ
local_host = 49 ∷ 50 ∷ 55 ∷ 46 ∷ 48 ∷ 46 ∷ 48 ∷ 46 ∷ 49 ∷ []

abbrev pub local_url : List ℕ
local_url =
    104 ∷ 116 ∷ 116 ∷ 112 ∷ 58 ∷ 47 ∷ 47 ∷ 108 ∷ 111 ∷ 99 ∷ 97 ∷ 108 ∷ 104 ∷ 111 ∷ 115 ∷ 116 ∷ 58
    ∷ []

unfoldable pub load_routes : Outside → ℕ → Option Routes
load_routes out port = do
  tunnel ← read_path out "TUNNEL_PATH" standard_tunnel_path
  host ← read_url out "SERVER_HOST" (local_url ++ out.show_number port)
  ports ← read_port_list (text_of out.variable "TCP_TUNNEL_PORTS")
  agent ← read_path out "TCP_AGENT_PATH" standard_agent_path
  allowed ← read_port_list (text_of out.variable "TCP_AGENT_ALLOWED_PORTS")
  tls ← read_boolean (text_of out.variable "TCP_AGENT_REQUIRE_TLS") false
  proxies ← read_ip_list (text_of out.variable "TCP_AGENT_TRUSTED_PROXIES")
  some (record {
    tunnel_path = tunnel;
    tcp_agent_path = agent;
    server_host = host;
    tcp_tunnel_ports = ports;
    tcp_agent_allowed_ports = allowed;
    tcp_agent_require_tls = tls;
    tcp_agent_trusted_proxies = proxies;
  })

-- The texts that no reader refuses.
pub record Texts : Type 0 where
  pub admin_secret : List ℕ
  pub install_uuid : List ℕ
  pub username : List ℕ
  pub password : List ℕ
  pub tcp_tunnel_host : List ℕ
  pub tcp_tunnel_bind_host : List ℕ
  pub tcp_tunnel_allowed_ips : List (List ℕ)
  pub tcp_client_allowed_hosts : List (List ℕ)
  pub tcp_agent_username : List ℕ
  pub tcp_agent_password : List ℕ
  pub tcp_agent_allowed_origins : List (List ℕ)

unfoldable pub load_texts : Outside → Texts
load_texts out =
    let host = or_standard (out.variable "TCP_TUNNEL_HOST") local_host in
    record {
      admin_secret = text_of out.variable "ADMIN_SECRET";
      install_uuid = or_standard (out.variable "INSTALL_UUID") out.random_uuid;
      username = text_of out.variable "TUNNEL_USERNAME";
      password = text_of out.variable "TUNNEL_PASSWORD";
      tcp_tunnel_host = host;
      tcp_tunnel_bind_host = or_standard (out.variable "TCP_TUNNEL_BIND_HOST") local_host;
      tcp_tunnel_allowed_ips = read_list (text_of out.variable "TCP_TUNNEL_ALLOWED_IPS");
      tcp_client_allowed_hosts =
          read_list (or_standard (out.variable "TCP_CLIENT_ALLOWED_HOSTS") host);
      tcp_agent_username =
          or_standard (out.variable "TCP_AGENT_USERNAME") (text_of out.variable "TUNNEL_USERNAME");
      tcp_agent_password =
          or_standard (out.variable "TCP_AGENT_PASSWORD") (text_of out.variable "TUNNEL_PASSWORD");
      tcp_agent_allowed_origins = read_list (text_of out.variable "TCP_AGENT_ALLOWED_ORIGINS");
    }

pub record Loaded : Type 0 where
  pub sizes : Sizes
  pub counts : Counts
  pub routes : Routes
  pub texts : Texts

-- The module: all of its constants, or `none` where one of the readers throws.
unfoldable pub load : Outside → Option Loaded
load out = do
  counts ← load_counts out
  sizes ← load_sizes out
  routes ← load_routes out counts.port
  some (record { sizes = sizes; counts = counts; routes = routes; texts = load_texts out })

-- The constants that `validateConfig` looks at.
abbrev pub constants_of : Loaded → Constants
constants_of l = record {
  username = l.texts.username;
  password = l.texts.password;
  ws_low_water = l.sizes.ws_low_water;
  ws_high_water = l.sizes.ws_high_water;
  tunnel_path = l.routes.tunnel_path;
  agent_path = l.routes.tcp_agent_path;
  max_frame_payload = l.sizes.max_frame_payload;
  ws_max_payload = l.sizes.ws_max_payload;
}

abbrev pub when_valid : Loaded → Option Fatal → Option Loaded
when_valid l none = some l
when_valid l (some fatal) = none

-- The constants of a server whose `start` gets past `validateConfig`.
unfoldable pub configure : Outside → Option Loaded
configure out = do l ← load out; when_valid l (validate_config (constants_of l))

-- ===== src/Config/LoadTests.antt =====
-- The constants of a process with no variables but the two that are required.
use nodejs_wss_tunnel.Prelude.{refl, false, none, some, [], ◌∷◌, str_eq, if◌then◌else◌}
use nodejs_wss_tunnel.Prelude.Text.{split_on}
use nodejs_wss_tunnel.Config.{
  read_integer, read_boolean, read_port_list, read_ip_list, trimmed, read_list, validate_config,
}
use nodejs_wss_tunnel.Config.Load.{
  Outside, read_number, read_url, read_path, read_low_water, Loaded, load_sizes, load_counts,
  load_routes, load_texts, load, configure, standard_tunnel_path, standard_agent_path, local_host,
}
use nodejs_wss_tunnel.Config.Configured.{IsConfigured, configure-IsConfigured}

-- The user "u" with the password "p"; all addresses are http.
abbrev process : Outside
process = record {
  variable = λ name.
      if str_eq name "TUNNEL_USERNAME"
      then some (117 ∷ [])
      else if str_eq name "TUNNEL_PASSWORD"
      then some (112 ∷ [])
      else none;
  protocol_of = λ raw. some (104 ∷ 116 ∷ 116 ∷ 112 ∷ 58 ∷ []);
  random_uuid = 105 ∷ [];
  show_number = λ n. n ∷ [];
}

abbrev standard : Loaded
standard = record {
  sizes = record {
    ws_high_water = 1048576;
    max_frame_payload = 262144;
    ws_max_payload = 2097152;
    max_dest_buffer_bytes = 8388608;
    ws_low_water = 524288;
  };
  counts = record {
    port = 7860;
    max_concurrent_streams = 200;
    max_tunnel_clients = 1;
    stream_idle_timeout_ms = 120000;
    drain_timeout_ms = 30000;
    tcp_connect_timeout_ms = 10000;
    tcp_max_connections_per_port = 20;
    tcp_shutdown_drain_timeout_ms = 5000;
    tcp_agent_max_streams_per_agent = 100;
  };
  routes = record {
    tunnel_path = standard_tunnel_path;
    tcp_agent_path = standard_agent_path;
    server_host =
        104 ∷ 116 ∷ 116 ∷ 112 ∷ 58 ∷ 47 ∷ 47 ∷ 108 ∷ 111 ∷ 99 ∷ 97 ∷ 108 ∷ 104 ∷ 111 ∷ 115 ∷ 116
        ∷ 58 ∷ 7860 ∷ [];
    tcp_tunnel_ports = [];
    tcp_agent_allowed_ports = [];
    tcp_agent_require_tls = false;
    tcp_agent_trusted_proxies = [];
  };
  texts = record {
    admin_secret = [];
    install_uuid = 105 ∷ [];
    username = 117 ∷ [];
    password = 112 ∷ [];
    tcp_tunnel_host = local_host;
    tcp_tunnel_bind_host = local_host;
    tcp_tunnel_allowed_ips = [];
    tcp_client_allowed_hosts = local_host ∷ [];
    tcp_agent_username = 117 ∷ [];
    tcp_agent_password = 112 ∷ [];
    tcp_agent_allowed_origins = [];
  };
}

configure-IsConfigured_example : IsConfigured process standard
unfolding configure load load_counts load_sizes load_routes load_texts read_number read_integer
    read_low_water read_path read_url read_port_list read_boolean read_ip_list read_list trimmed
    split_on validate_config
configure-IsConfigured_example = configure-IsConfigured process standard refl

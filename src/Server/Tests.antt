-- ===== src/Server/Tests.antt =====
-- Runs of the server, and the theorems at concrete events.
use nodejs_wss_tunnel.Prelude.{
  ℕ, ◌≤◌, ◌≡◌, ◌≢◌, refl, Bool, true, false, ◌||◌, inl, inr, Option, none, some, String, List, [],
  ◌∷◌, length, count, arith,
}
use nodejs_wss_tunnel.Prelude.Maps.{lookup, insert, remove}
use nodejs_wss_tunnel.Protocol.{parse_frame, of_code, res_abort}
use nodejs_wss_tunnel.Net.{Env, Config, accepted}
use nodejs_wss_tunnel.Server.State.{Server, Stream, Mode, net, router_slot}
use nodejs_wss_tunnel.Server.Streams.{
  new_stream, alloc_loop, allocate_stream_id, max_stream_id, create_tcp_stream,
}
use nodejs_wss_tunnel.Server.ClientFrames.{handle_client_frame}
use nodejs_wss_tunnel.Server.AgentServer.{AgentOptions}
use nodejs_wss_tunnel.Server.Run.{
  Event, client_open, connection, on_stream, socket_close, run, start, step, handle,
}
use nodejs_wss_tunnel.Server.Slots.{IsCounted, holds}
use nodejs_wss_tunnel.Server.SlotsRun.{run-IsCounted}
use nodejs_wss_tunnel.Server.Limits.{IsBounded, run-within_limit, run-IsBounded}
use nodejs_wss_tunnel.Server.AllocationLiveness.{allocate_stream_id-succeeds}
use nodejs_wss_tunnel.Server.Registry.{IsRegistry, run-IsRegistry}
use nodejs_wss_tunnel.Server.FlowControl.{sync_tcp_backpressure}
use nodejs_wss_tunnel.Server.Clients.{
  get_active_client, add_client, abort_streams_of, cleanup_client,
}
use nodejs_wss_tunnel.Server.Router.{
  throttle, close_all, run_microtasks, announce, open_stream, connect_id, connect_client,
  handle_connection,
}
use nodejs_wss_tunnel.Server.Swept.{cleanup_client-sweeps}
use nodejs_wss_tunnel.Server.Leak.{IsLeaked, handle_client_frame-IsLeaked}

abbrev small : Config
small = record {
  ws_high_water = 1024;
  ws_low_water = 512;
  max_dest_buffer_bytes = 4;
  max_concurrent_streams = 3;
  max_tunnel_clients = 1;
  tcp_max_connections_per_port = 1;
  tcp_tunnel_host = "127.0.0.1";
}

-- All goes well: every WebSocket is open and takes what it is given.
abbrev pub calm : Env
calm = record {
  config = small;
  is_open = λ ws. true;
  send_throws = λ log ws. false;
  buffered_amount = λ log ws. 0;
  socket_write = λ log r. accepted;
  response_throws = λ log r. false;
  response_write = λ log r. accepted;
  writable_length = λ r. 0;
  writable_ended = λ r. false;
  to_lower_case = λ s. s;
  parse_json = λ bytes. none;
}

abbrev pub options : AgentOptions
options = record { allowed_ports = []; max_connections_per_port = 0; max_streams_per_agent = 0 }

-- A client, two connections to a port with one place, and the end of the first.
abbrev pub history : List (Env × Event)
history =
    (calm, client_open 7)
    ∷ (calm, connection true 6379)
    ∷ (calm, connection true 6379)
    ∷ (calm, on_stream 0 socket_close)
    ∷ []

-- The object of an external connection.
abbrev connected_stream : Stream
connected_stream = record (new_stream Mode.tcp 7 1) {
  socket = net (record { destroyed = false; paused = false });
  server_port = 6379;
  on_cleanup = router_slot 6379 false;
}

-- The server with one external connection.
abbrev connected : Server
connected = record start {
  heap = connected_stream ∷ [];
  streams = (1, 0) ∷ [];
  next_stream_id = 2;
  clients = 7 ∷ [];
  router_counts = (6379, 1) ∷ [];
}

run-IsCounted_example : IsCounted (run options start history)
run-IsCounted_example = run-IsCounted options history

run-within_limit_example : count (holds 6379) (run options start history).heap ≤ 1
run-within_limit_example =
    run-within_limit 1 options history 6379 (omega arith) (refl, (refl, (refl, (refl, tt))))

run-IsBounded_example : IsBounded 3 (run options start history)
run-IsBounded_example = run-IsBounded 3 options history (refl, (refl, (refl, (refl, tt))))

-- RES_ABORT for stream 1.
abbrev abort_bytes : List ℕ
abort_bytes = 1 ∷ 0x23 ∷ 0 ∷ 0 ∷ 0 ∷ 1 ∷ []

handle_client_frame-IsLeaked_example :
    IsLeaked 6379 0 (handle_client_frame calm connected 7 abort_bytes)
unfolding parse_frame of_code lookup
handle_client_frame-IsLeaked_example =
    handle_client_frame-IsLeaked calm 6379 connected 7 0 _ abort_bytes
      (record { type = 0x23; stream_id = 1; payload = [] }) res_abort refl refl (inr (inr refl))
      refl refl refl refl refl refl

run-IsRegistry_example : IsRegistry (run options start history)
run-IsRegistry_example = run-IsRegistry options history

allocate_stream_id-succeeds_example :
    (id : ℕ) × ((allocate_stream_id connected).1 ≡ some id)
    × (1 ≤ id)
    × (id ≤ max_stream_id)
    × (lookup id connected.streams ≡ none)
    × (1 ≤ (allocate_stream_id connected).0.next_stream_id)
    × ((allocate_stream_id connected).0.next_stream_id ≤ max_stream_id)
allocate_stream_id-succeeds_example =
    allocate_stream_id-succeeds connected (omega arith) (omega arith) (omega arith)

-- Two clients, and a connection of the first.
abbrev two_clients : List (Env × Event)
two_clients = (roomy, client_open 7) ∷ (roomy, client_open 9) ∷ (roomy, connection true 6379) ∷ []
  where
    roomy : Env
    roomy = record calm { config = record small { max_tunnel_clients = 2 } }

cleanup_client-sweeps_example : connected_stream.ws ≢ 9
unfolding run step handle add_client get_active_client allocate_stream_id alloc_loop
    nodejs_wss_tunnel.Prelude.Maps.has handle_connection connect_client connect_id open_stream
    announce create_tcp_stream throttle sync_tcp_backpressure run_microtasks close_all insert lookup
    remove cleanup_client abort_streams_of
cleanup_client-sweeps_example =
    cleanup_client-sweeps options two_clients calm 9 1 0 connected_stream refl refl

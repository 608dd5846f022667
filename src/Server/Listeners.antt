-- ===== src/Server/Listeners.antt =====
-- `start`, `_listenOnPort` and `close` of src/tcp/TcpRouter.js, with `getTcpStreams` of
-- src/server/StreamManager.js.
use nodejs_wss_tunnel.Prelude.{
  ℕ, ◌==◌, Bool, true, false, Option, none, some, List, [], ◌∷◌, get_elem?, if◌then◌else◌,
}
use nodejs_wss_tunnel.Prelude.Maps.{insert}
use nodejs_wss_tunnel.Net.{Env}
use nodejs_wss_tunnel.Server.State.{Server, Stream, is_tcp, at_stream}
use nodejs_wss_tunnel.Server.Streams.{abort_tcp_stream}

-- What the `close` of a `net.Server` does: its callback comes without an error, or it throws or calls
-- back with ERR_SERVER_NOT_RUNNING, or with another error.
pub data CloseResult : Type 0 where
  closed_well not_running close_failed : CloseResult

-- The keys of `_servers`, and the server of streams.
pub record Listening : Type 0 where
  pub ports : List ℕ
  pub server : Server

abbrev pub add_key : ℕ → List ℕ → List ℕ
add_key port [] = port ∷ []
add_key port (p ∷ ps) = if p == port then p ∷ ps else p ∷ add_key port ps

-- `_listenOnPort`.
unfoldable pub listen_on_port : Listening → ℕ → Listening
listen_on_port l port = record {
  ports = add_key port l.ports;
  server = record l.server { router_counts = insert port 0 l.server.router_counts };
}

-- `start` over TCP_TUNNEL_PORTS.
unfoldable pub start_router : Listening → List ℕ → Listening
start_router l [] = l
start_router l (port ∷ ports) = start_router (listen_on_port l port) ports

abbrev of_mode : Option Stream → Bool
of_mode none = false
of_mode (some s) = is_tcp s.mode

-- `getTcpStreams`: the objects of the map whose mode is 'tcp', in the map's order.
unfoldable pub get_tcp_streams : List Stream → List (ℕ × ℕ) → List ℕ
get_tcp_streams heap [] = []
get_tcp_streams heap ((id, r) ∷ entries) =
    let rest = get_tcp_streams heap entries in if of_mode (get_elem? heap r) then r ∷ rest else rest

-- The loop of `close` over these.
unfoldable pub abort_each : Env → Server → List ℕ → Server
abort_each env w [] = w
abort_each env w (r ∷ rs) =
    abort_each env (at_stream w r (λ s. abort_tcp_stream env w r s "Server shutting down" true)) rs

abbrev pub all_stopped : List CloseResult → Bool
all_stopped [] = true
all_stopped (close_failed ∷ results) = false
all_stopped (_ ∷ results) = all_stopped results

-- `close`: no port, the streams aborted, and whether it ends without an AggregateError.
unfoldable pub close_router : Env → Listening → List CloseResult → Listening × Bool
close_router env l results = (
  record {
    ports = [];
    server = abort_each env l.server (get_tcp_streams l.server.heap l.server.streams);
  },
  all_stopped results,
)

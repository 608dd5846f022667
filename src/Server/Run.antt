-- ===== src/Server/Run.antt =====
-- The server as a whole: what can happen to it, one event after another.
use nodejs_wss_tunnel.Prelude.{ℕ, Bool, true, String, List, [], ◌∷◌, if◌then◌else◌}
use nodejs_wss_tunnel.Net.{Env}
use nodejs_wss_tunnel.VirtualSocket.{write_done}
use nodejs_wss_tunnel.Server.State.{Server, Stream, Socket, virtual, at_stream}
use nodejs_wss_tunnel.Server.Streams.{abort_any_stream}
use nodejs_wss_tunnel.Server.Clients.{add_client, cleanup_client}
use nodejs_wss_tunnel.Server.Router.{
  handle_connection, on_data, on_close, on_error, on_drain, on_sent, with_socket, run_microtasks,
}
use nodejs_wss_tunnel.Server.ClientFrames.{handle_client_frame, on_response_drain}
use nodejs_wss_tunnel.Server.AgentServer.{
  AgentOptions, connect_agent, cleanup_agent, handle_agent_frame,
}
use nodejs_wss_tunnel.Server.HttpProxy.{
  HttpRequest, proxy_http_request, on_writer_finish, on_writer_error, on_pipeline_error,
  on_request_error, on_response_close, on_response_finish,
}

-- What happens to a stream's object, by the name of the emitter and the event.
pub data StreamEvent : Type 0 where
  socket_data : List ℕ → StreamEvent
  socket_close socket_drain send_callback idle_timeout : StreamEvent
  socket_error : String → StreamEvent
  agent_send_callback : ℕ → StreamEvent
  response_drain response_close response_finish : StreamEvent
  writer_finish writer_error pipeline_error request_error : StreamEvent

pub data Event : Type 0 where
  client_open client_close : ℕ → Event
  client_message : ℕ → List ℕ → Event
  agent_open : ℕ → Event
  agent_close : ℕ → String → Event
  agent_message : ℕ → List ℕ → Event
  -- An external TCP connection: whether its address is allowed, and the port.
  connection : Bool → ℕ → Event
  request : HttpRequest → Event
  on_stream : ℕ → StreamEvent → Event

unfoldable pub agent_sent : Env → Server → ℕ → Stream → ℕ → Socket → Server
unfolding with_socket
agent_sent env w r s amount (virtual v) =
    let (v', outs) = write_done env v amount in with_socket env w r s (virtual v') outs
agent_sent env w r s amount _ = w

unfoldable pub handle_stream_event : Env → Server → ℕ → Stream → StreamEvent → Server
unfolding agent_sent
handle_stream_event env w r s (socket_data chunk) = on_data env w r s chunk
handle_stream_event env w r s socket_close = on_close env w r s
handle_stream_event env w r s socket_drain = on_drain env w r s
handle_stream_event env w r s send_callback = on_sent env w r s
-- The callback of `_resetIdleTimer`, if the timer is set.
handle_stream_event env w r s idle_timeout =
    if s.timer then abort_any_stream env w r s "Stream idle timeout" true else w
handle_stream_event env w r s (socket_error message) = on_error env w r s message
handle_stream_event env w r s (agent_send_callback amount) = agent_sent env w r s amount s.socket
handle_stream_event env w r s response_drain = on_response_drain env w r s
handle_stream_event env w r s response_close = on_response_close env w r s
handle_stream_event env w r s response_finish = on_response_finish env w r s
handle_stream_event env w r s writer_finish = on_writer_finish env w r s
handle_stream_event env w r s writer_error = on_writer_error env w r s
handle_stream_event env w r s pipeline_error = on_pipeline_error env w r s
handle_stream_event env w r s request_error = on_request_error env w r s

unfoldable pub handle : Env → AgentOptions → Server → Event → Server
unfolding handle_stream_event
handle env o w (client_open ws) = (add_client env w ws).0
handle env o w (client_close ws) = cleanup_client env w ws
handle env o w (client_message ws bytes) = handle_client_frame env w ws bytes
handle env o w (agent_open ws) = connect_agent w ws
handle env o w (agent_close ws reason) = cleanup_agent env w ws reason
handle env o w (agent_message ws bytes) = handle_agent_frame env o w ws bytes
handle env o w (connection ip_allowed port) = (handle_connection env w ip_allowed port).0
handle env o w (request req) = (proxy_http_request env w req).0
handle env o w (on_stream r e) = at_stream w r (λ s. handle_stream_event env w r s e)

-- An event, then the microtasks that it queued.
unfoldable pub step : AgentOptions → Server → Env × Event → Server
unfolding handle
step o w (env, e) = run_microtasks env (handle env o w e)

unfoldable pub run : AgentOptions → Server → List (Env × Event) → Server
unfolding step
run o w [] = w
run o w (e ∷ es) = run o (step o w e) es

-- The server as its constructors make it.
abbrev pub start : Server
start = record {
  heap = [];
  streams = [];
  next_stream_id = 1;
  clients = [];
  router_counts = [];
  agent_counts = [];
  agent_streams = [];
  microtasks = [];
  log = [];
}

-- ===== src/TunnelClient/Events.antt =====
-- The frames of the server, the connection and the shutdown of serve/client.js, and its histories.
use Prim.Native.String
use nodejs_wss_tunnel.Prelude.{
  ℕ, ◌+◌, ◌*◌, Bool, true, false, ◌||◌, ◌==◌, Option, none, some, String, List, [], ◌∷◌, min,
  get_elem?, if◌then◌else◌,
}
use nodejs_wss_tunnel.Prelude.Maps.{lookup}
use nodejs_wss_tunnel.Protocol.{
  FrameType, Frame, Parsed, ok, err, parse_frame, of_code, req_meta, req_data, req_end, req_abort,
  pause, resume, tcp_open, tcp_data, tcp_close, tcp_abort,
}
use nodejs_wss_tunnel.Protocol.Json.{ParsedJson, doc, failed, parse_json_payload, default_limit}
use nodejs_wss_tunnel.TunnelClient.{
  Client, ClientStream, ClientEnv, ClientEffect, put_stream, at_stream, crash, write_ready_file,
  remove_ready_file, open_web_socket, close_web_socket, start_heartbeat, stop_heartbeat,
  clear_timer, exit, schedule,
}
use nodejs_wss_tunnel.TunnelClient.Streams.{send_res_abort, cleanup_all_streams}
use nodejs_wss_tunnel.TunnelClient.Tcp.{
  handle_tcp_open, set_paused, on_tcp_frame, on_connect, on_local_drain, on_local_data,
  on_local_sent, on_local_timeout, on_local_close, on_local_error,
}
use nodejs_wss_tunnel.TunnelClient.Http.{
  handle_req_meta, handle_req_data, handle_req_end, handle_req_abort, on_response, on_writer_finish,
  on_request_timeout,
}

-- The frame of a stream: the TCP handler's cases, then those of the `switch`. PAUSE and RESUME never
-- come to the latter.
unfoldable pub on_stream_frame :
    ClientEnv → Client → ℕ → ClientStream → Option FrameType → List ℕ → Client
unfolding on_tcp_frame set_paused handle_req_data handle_req_end handle_req_abort
on_stream_frame env c r s (some tcp_data) payload = on_tcp_frame env c r s s.mode tcp_data payload
on_stream_frame env c r s (some tcp_close) payload = on_tcp_frame env c r s s.mode tcp_close payload
on_stream_frame env c r s (some tcp_abort) payload = on_tcp_frame env c r s s.mode tcp_abort payload
on_stream_frame env c r s (some pause) payload = set_paused env c r s s.mode true
on_stream_frame env c r s (some resume) payload = set_paused env c r s s.mode false
on_stream_frame env c r s (some req_data) payload = handle_req_data env c r s payload
on_stream_frame env c r s (some req_end) payload = handle_req_end c r s
on_stream_frame env c r s (some req_abort) payload = handle_req_abort env c r s
on_stream_frame env c r s _ payload = c

-- `if (!state || state.ws !== currentWs) return; resetIdleTimer(state);`
unfoldable pub to_stream :
    ClientEnv → Client → ℕ → Option FrameType → List ℕ → ℕ → ClientStream → Client
unfolding on_stream_frame
to_stream env c ws t payload r s =
    let s' = record s { timer = true } in
    if s.ws == ws then on_stream_frame env (put_stream c r s') r s' t payload else c

abbrev pub to_entry : ClientEnv → Client → ℕ → Option FrameType → List ℕ → Option ℕ → Client
to_entry env c ws t payload none = c
to_entry env c ws t payload (some r) =
    at_stream c (get_elem? c.heap r) (to_stream env c ws t payload r)

abbrev pub is_null : ParsedJson → Bool
is_null (failed e) = false
is_null (doc d) = d.is_null

unfoldable pub on_frame : ClientEnv → Client → ℕ → Frame → Option FrameType → Client
unfolding handle_req_meta handle_tcp_open to_stream
on_frame env c ws f (some req_meta) =
    handle_req_meta env c ws f.stream_id
      (parse_json_payload env.parse_json f.payload env.max_frame_payload)
on_frame env c ws f (some tcp_open) =
    -- The line of the log reads the fields of the document too.
    if is_null (parse_json_payload env.parse_json f.payload env.max_frame_payload)
    then crash c
    else handle_tcp_open env c ws f.stream_id
        (parse_json_payload env.parse_json f.payload default_limit)
on_frame env c ws f t = to_entry env c ws t f.payload (lookup f.stream_id c.streams)

-- `handleServerFrame`.
unfoldable pub handle_parsed : ClientEnv → Client → ℕ → Parsed → Client
unfolding on_frame
handle_parsed env c ws (err _) = c
handle_parsed env c ws (ok f) = on_frame env c ws f (of_code f.type)

unfoldable pub handle_server_frame : ClientEnv → Client → ℕ → List ℕ → Client
unfolding handle_parsed
handle_server_frame env c ws bytes = handle_parsed env c ws (parse_frame bytes)

abbrev pub when : Bool → ClientEffect → List ClientEffect → List ClientEffect
when b e log = if b then e ∷ log else log

abbrev closing : Option ℕ → List ClientEffect → List ClientEffect
closing none log = log
closing (some ws) log = close_web_socket ws ∷ log

-- `connect`.
unfoldable pub connect : Client → Client
connect c = record c {
  web_socket = some c.next_web_socket;
  next_web_socket = c.next_web_socket + 1;
  log = open_web_socket c.next_web_socket ∷ closing c.web_socket c.log;
}

-- The listener of `open`.
unfoldable pub on_open : Client → Client
on_open c = record c {
  reconnect_delay = 1000;
  reconnect_attempt = 0;
  auth_failed = false;
  heartbeat_set = true;
  log = start_heartbeat ∷ write_ready_file ∷ c.log;
}

-- `scheduleReconnect`.
unfoldable pub schedule_reconnect : Client → Client
schedule_reconnect c = if c.auth_failed || c.shutting_down then c else record c {
  timer_set = true;
  reconnect_delay = min (c.reconnect_delay * 2) 30000;
  log = schedule c.reconnect_delay ∷ when c.timer_set clear_timer c.log;
}

-- The listener of `close`.
abbrev pub disconnected : Client → Client
disconnected c = record c {
  heartbeat_set = false;
  log = when c.heartbeat_set stop_heartbeat (remove_ready_file ∷ c.log);
}

unfoldable pub on_close : Client → Client
unfolding cleanup_all_streams schedule_reconnect
on_close c = schedule_reconnect (cleanup_all_streams (disconnected c))

-- `shutdown`.
unfoldable pub shutdown : Client → Client
shutdown c = if c.shutting_down then c else record c {
  shutting_down = true;
  heartbeat_set = false;
  log =
      exit
      ∷ closing c.web_socket (
          when c.timer_set clear_timer
            (when c.heartbeat_set stop_heartbeat (remove_ready_file ∷ c.log)));
}

-- The events of a stream's local request, response, writer and socket, and of its timer.
pub data LocalEvent : Type 0 where
  response : ℕ → List (String × String) → LocalEvent
  writer_finish writer_error request_timeout idle : LocalEvent
  pipeline_error request_error : String → LocalEvent
  socket_connect socket_drain socket_sent socket_timeout socket_close : LocalEvent
  socket_data : List ℕ → LocalEvent
  socket_error : String → LocalEvent

unfoldable pub handle_local : ClientEnv → Client → ℕ → ClientStream → LocalEvent → Client
unfolding on_response on_writer_finish on_request_timeout send_res_abort on_connect on_local_drain
    on_local_data on_local_sent on_local_timeout on_local_close on_local_error
handle_local env c r s (response status headers) = on_response env c r s status headers
handle_local env c r s writer_finish = on_writer_finish env c r s
handle_local env c r s writer_error = send_res_abort env c r s "Response writer error"
handle_local env c r s (pipeline_error message) =
    send_res_abort env c r s (String.◌++◌ "Response pipeline error: " message)
handle_local env c r s (request_error message) =
    send_res_abort env c r s (String.◌++◌ "Local request error: " message)
handle_local env c r s request_timeout = on_request_timeout c r s
handle_local env c r s idle = if s.timer then send_res_abort env c r s "Stream idle timeout" else c
handle_local env c r s socket_connect = on_connect env c r s
handle_local env c r s socket_drain = on_local_drain env c r s
handle_local env c r s (socket_data chunk) = on_local_data env c r s chunk
handle_local env c r s socket_sent = on_local_sent env c r s
handle_local env c r s socket_timeout = on_local_timeout env c r s
handle_local env c r s socket_close = on_local_close env c r s
handle_local env c r s (socket_error message) = on_local_error env c r s message

-- One callback of the program.
pub data ClientEvent : Type 0 where
  opened closed auth_refused reconnect_timer signal : ClientEvent
  message : List ℕ → ClientEvent
  local : ℕ → LocalEvent → ClientEvent

unfoldable pub on_message : ClientEnv → Client → Option ℕ → List ℕ → Client
unfolding handle_server_frame
on_message env c none bytes = c
on_message env c (some ws) bytes = handle_server_frame env c ws bytes

unfoldable pub client_handle : ClientEnv → Client → ClientEvent → Client
unfolding on_open on_close connect shutdown on_message handle_local
client_handle env c opened = on_open c
client_handle env c closed = on_close c
client_handle env c auth_refused = record c { auth_failed = true; log = remove_ready_file ∷ c.log }
client_handle env c reconnect_timer =
    connect (record c { reconnect_attempt = c.reconnect_attempt + 1 })
client_handle env c signal = shutdown c
client_handle env c (message bytes) = on_message env c c.web_socket bytes
client_handle env c (local r e) = at_stream c (get_elem? c.heap r) (λ s. handle_local env c r s e)

-- A history: nothing happens to a process that has ended.
unfoldable pub client_run : Client → List (ClientEnv × ClientEvent) → Client
unfolding client_handle
client_run c [] = c
client_run c ((env, e) ∷ es) = client_run (if c.crashed then c else client_handle env c e) es

-- The client after its entry point, which calls `connect`.
abbrev pub client_start : Client
client_start = record {
  streams = [];
  heap = [];
  web_socket = some 0;
  next_web_socket = 1;
  reconnect_delay = 1000;
  reconnect_attempt = 0;
  timer_set = false;
  heartbeat_set = false;
  auth_failed = false;
  shutting_down = false;
  crashed = false;
  log = open_web_socket 0 ∷ [];
}

-- ===== src/TunnelClient/Tcp.antt =====
-- `createTcpClientHandler` of src/tcp/TcpClientHandler.js.
use nodejs_wss_tunnel.Prelude.{
  ℕ, ◌+◌, ◌-◌, Bool, true, false, not, ◌&&◌, ◌||◌, ◌==◌, String, List, [], ◌∷◌, ◌++◌, length, ltb,
  leb, str_eq, if◌then◌else◌,
}
use Prim.Native.String
use nodejs_wss_tunnel.Prelude.Maps.{insert}
use nodejs_wss_tunnel.Protocol.{FrameType, pause, resume, tcp_data, tcp_close, tcp_open_ack}
use nodejs_wss_tunnel.Protocol.Json.{
  Doc, ParsedJson, doc, failed, parse_json_payload, default_limit, Obj, raw, json,
}
use nodejs_wss_tunnel.Net.{WriteResult, accepted, full, threw}
use nodejs_wss_tunnel.TunnelClient.{
  Client, ClientStream, ClientEnv, ClientEffect, ClientMode, http, tcp, connect_socket,
  write_socket, pause_socket, resume_socket, set_peer_paused, put_stream, log_effect, send, crash,
}
use nodejs_wss_tunnel.TunnelClient.Streams.{cleanup_tcp_state, send_res_abort, send_tcp_abort}

abbrev pub contains : List String → String → Bool
contains [] s = false
contains (t ∷ ts) s = str_eq t s || contains ts s

abbrev pub new_tcp_stream : ℕ → ℕ → ClientStream
new_tcp_stream id ws = record {
  id = id;
  ws = ws;
  mode = tcp;
  cleaned = false;
  timer = true;
  has_request = false;
  has_response = false;
  has_writer = false;
  request_ended = false;
  response_started = false;
  response_ended = false;
  has_socket = true;
  local_connected = false;
  local_paused_for_ws = false;
  peer_paused_read = false;
  local_write_backpressured = false;
  pending_sends = 0;
}

-- A new object in the map.
abbrev pub register : Client → ClientStream → Client
register c s = record c { heap = c.heap ++ s ∷ []; streams = insert s.id (length c.heap) c.streams }

-- `handleTcpOpen` on a document; a stream that already has the id is overwritten in the map.
unfoldable pub open_tcp : ClientEnv → Client → ℕ → ℕ → Doc → Client
open_tcp env c ws id d =
    if not (contains env.allowed_hosts d.host)
    then send_tcp_abort env c ws id (String.◌++◌ "Host " (String.◌++◌ d.host " not allowed"))
    else if leb env.max_concurrent_streams (length c.streams)
    then send_tcp_abort env c ws id "Too many concurrent streams"
    else log_effect (register c (new_tcp_stream id ws))
        (connect_socket (length c.heap) d.host d.port)

-- `handleTcpOpen`. For `null`, reading its fields is an exception that nothing catches.
unfoldable pub handle_tcp_open : ClientEnv → Client → ℕ → ℕ → ParsedJson → Client
unfolding open_tcp
handle_tcp_open env c ws id (failed _) = send_tcp_abort env c ws id "Invalid TCP_OPEN payload"
handle_tcp_open env c ws id (doc d) = if d.is_null then crash c else open_tcp env c ws id d

-- `syncSocketReadState(state, localSocket)` of src/tcp/TcpFlowControl.js.
unfoldable pub sync_socket : ClientEnv → Client → ℕ → ClientStream → Client
sync_socket env c r s =
    if not s.has_socket || env.socket_destroyed c.log r
    then c
    else if s.peer_paused_read || s.local_paused_for_ws
    then log_effect c (pause_socket r)
    else log_effect c (resume_socket r)

-- The listener of `connect`.
unfoldable pub on_connect : ClientEnv → Client → ℕ → ClientStream → Client
on_connect env c r s =
    send env (put_stream c r (record s { local_connected = true; timer = true })) s.ws tcp_open_ack
      s.id (json Obj.empty)

-- The listener of `drain`, which is added on `connect`.
unfoldable pub on_local_drain : ClientEnv → Client → ℕ → ClientStream → Client
on_local_drain env c r s =
    if not s.local_connected || s.cleaned
    then c
    else if s.local_write_backpressured && env.is_open s.ws
    then send env (put_stream c r (record s { local_write_backpressured = false })) s.ws resume s.id
        (raw [])
    else c

-- The end of a stream by the client: TCP_ABORT, and the clean-up.
unfoldable pub abort_tcp : ClientEnv → Client → ℕ → ClientStream → String → Client
unfolding cleanup_tcp_state
abort_tcp env c r s message = cleanup_tcp_state (send_tcp_abort env c s.ws s.id message) r s

-- The end of the listener of `data`, after the frame is sent.
unfoldable pub throttle_socket : ClientEnv → Client → ℕ → ClientStream → Client
unfolding sync_socket
throttle_socket env c r s =
    if ltb env.ws_high_water (env.buffered_amount c.log s.ws) && not s.local_paused_for_ws
    then (let s' = record s { local_paused_for_ws = true } in
        sync_socket env (put_stream c r s') r s')
    else c

-- The listener of `data`, which is added on `connect`.
unfoldable pub on_local_data : ClientEnv → Client → ℕ → ClientStream → List ℕ → Client
unfolding abort_tcp throttle_socket
on_local_data env c r s chunk =
    if not s.local_connected || s.cleaned
    then c
    else (let s' = record s { timer = true } in
        let s'' = record s { timer = true; pending_sends = s.pending_sends + 1 } in
        if not (env.is_open s.ws)
        then abort_tcp env (put_stream c r s') r s' "WebSocket closed"
        else if env.send_throws c.log s.ws
        then abort_tcp env (put_stream c r s'') r s'' "Failed to send TCP_DATA"
        else throttle_socket env
            (log_effect (put_stream c r s'') (ClientEffect.frame s.ws tcp_data s.id (raw chunk))) r
            s'')

-- The callback of `currentWs.send`.
unfoldable pub on_local_sent : ClientEnv → Client → ℕ → ClientStream → Client
unfolding sync_socket
on_local_sent env c r s =
    let s' = record s { pending_sends = s.pending_sends - 1 } in
    let s'' = record s { pending_sends = s.pending_sends - 1; local_paused_for_ws = false } in
    if not s.cleaned
      && s.local_paused_for_ws
      && s.pending_sends - 1 == 0
      && leb (env.buffered_amount c.log s.ws) env.ws_low_water
    then sync_socket env (put_stream c r s'') r s''
    else put_stream c r s'

-- The listeners of `timeout`, `close` and `error`.
unfoldable pub on_local_timeout : ClientEnv → Client → ℕ → ClientStream → Client
unfolding abort_tcp
on_local_timeout env c r s =
    if s.cleaned
    then c
    else if not s.local_connected
    then abort_tcp env c r s "TCP connect timeout"
    else c

unfoldable pub on_local_close : ClientEnv → Client → ℕ → ClientStream → Client
unfolding cleanup_tcp_state
on_local_close env c r s =
    if s.cleaned then c else cleanup_tcp_state (send env c s.ws tcp_close s.id (raw [])) r s

unfoldable pub on_local_error : ClientEnv → Client → ℕ → ClientStream → String → Client
unfolding abort_tcp
on_local_error env c r s message = if s.cleaned then c else abort_tcp env c r s message

unfoldable pub socket_written :
    ClientEnv → Client → ℕ → ClientStream → List ℕ → WriteResult → Client
unfolding abort_tcp
socket_written env c r s payload threw = abort_tcp env c r s "Failed to write to local socket"
socket_written env c r s payload accepted = log_effect c (write_socket r payload)
socket_written env c r s payload full =
    if s.local_write_backpressured
    then log_effect c (write_socket r payload)
    else send env
        (log_effect (put_stream c r (record s { local_write_backpressured = true }))
          (write_socket r payload))
        s.ws pause s.id (raw [])

-- `handleTcpData`, for a stream whose `mode` is 'tcp'.
unfoldable pub handle_tcp_data : ClientEnv → Client → ℕ → ClientStream → List ℕ → Client
unfolding socket_written
handle_tcp_data env c r s payload =
    if not s.has_socket || env.socket_destroyed c.log r
    then c
    else socket_written env c r s payload (env.socket_write c.log r)

-- `handleTcpAbort`. For `null`, reading `info.message` is an exception that `handleServerFrame` of
-- serve/client.js catches.
unfoldable pub handle_tcp_abort : ClientEnv → Client → ℕ → ClientStream → ParsedJson → Client
unfolding cleanup_tcp_state send_res_abort
handle_tcp_abort env c r s (failed _) = cleanup_tcp_state c r s
handle_tcp_abort env c r s (doc d) =
    if d.is_null then send_res_abort env c r s "Bad frame from server" else cleanup_tcp_state c r s

-- The cases PAUSE and RESUME.
unfoldable pub set_paused : ClientEnv → Client → ℕ → ClientStream → ClientMode → Bool → Client
unfolding sync_socket
set_paused env c r s http paused =
    if s.has_writer then log_effect c (set_peer_paused r paused) else c
set_paused env c r s tcp paused =
    let s' = record s { peer_paused_read = paused } in sync_socket env (put_stream c r s') r s'

-- The cases TCP_DATA, TCP_CLOSE and TCP_ABORT of `handleServerFrame`, by `state.mode`.
unfoldable pub on_tcp_frame :
    ClientEnv → Client → ℕ → ClientStream → ClientMode → FrameType → List ℕ → Client
unfolding handle_tcp_data handle_tcp_abort cleanup_tcp_state
on_tcp_frame env c r s http t payload = c
on_tcp_frame env c r s tcp FrameType.tcp_data payload = handle_tcp_data env c r s payload
on_tcp_frame env c r s tcp FrameType.tcp_close payload = cleanup_tcp_state c r s
on_tcp_frame env c r s tcp FrameType.tcp_abort payload =
    handle_tcp_abort env c r s (parse_json_payload env.parse_json payload default_limit)
on_tcp_frame env c r s tcp _ payload = c

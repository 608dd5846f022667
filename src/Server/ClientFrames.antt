-- ===== src/Server/ClientFrames.antt =====
-- `handleClientFrame` of src/server/StreamManager.js: the frames of a tunnel client, one function to a
-- `case`.
use nodejs_wss_tunnel.Prelude.{
  ℕ, Bool, true, false, not, ◌&&◌, ◌||◌, Option, none, some, String, List, [], ◌∷◌, ltb, ◌==◌,
  if◌then◌else◌,
}
use nodejs_wss_tunnel.Prelude.Maps.{lookup}
use nodejs_wss_tunnel.Protocol.{
  FrameType, Frame, ok, err, parse_frame, of_code, res_meta, res_data, res_end, res_abort, pause,
  resume, tcp_data, tcp_close, tcp_abort, tcp_open_ack, tcp_connect_ack,
}
use nodejs_wss_tunnel.Protocol.Json.{
  raw, json, Doc, ParsedJson, doc, failed, parse_json_payload, default_limit,
}
use nodejs_wss_tunnel.Protocol.Json
use nodejs_wss_tunnel.Net.{
  Env, Effect, HttpOp, SocketOp, WriteResult, accepted, full, threw, send_frame, message_or,
  write_head, end, respond, set_peer_paused,
}
use nodejs_wss_tunnel.VirtualSocket.{VirtualSocket}
use nodejs_wss_tunnel.Server.State.{
  Server, Stream, Socket, absent, net, virtual, put, at_stream, is_tcp,
}
use nodejs_wss_tunnel.Server.FlowControl.{sync_socket_read_state, sync_tcp_backpressure, is_gone}
use nodejs_wss_tunnel.Server.Streams.{
  cleanup_stream, abort_stream, cleanup_tcp_stream, abort_tcp_stream, abort_any_stream, responds,
}
use nodejs_wss_tunnel.Server.Router.{with_socket}
use nodejs_wss_tunnel.Server.Headers.{sanitize_headers}

-- The outer `catch`.
abbrev pub bad_frame : Env → Server → ℕ → Stream → Server
bad_frame env w r s = abort_any_stream env w r s "Bad frame from tunnel client" false

-- The headers of the response to the end user. For HEAD the source sets two of them to `undefined`,
-- which `writeHead` refuses; see `takes_head`.
unfoldable pub response_headers : Env → Doc → List (String × String)
response_headers env d = sanitize_headers env.to_lower_case true d.headers

-- `writeHead` does not throw: it does for a header whose value is `undefined`.
abbrev pub takes_head : Env → List Effect → ℕ → Stream → Bool
takes_head env log r s = not s.is_head && responds env log r s

-- `Number(meta.statusCode) || 200`.
unfoldable pub status_of : Option ℕ → ℕ
status_of none = 200
status_of (some n) = if n == 0 then 200 else n

-- RES_META once its payload is parsed.
unfoldable pub start_response : Env → Server → ℕ → Stream → ParsedJson → Server
unfolding status_of response_headers
start_response env w r s (failed e) = bad_frame env w r s
start_response env w r s (doc d) =
    -- `meta.headers` of null throws, and so does `state.req.method` of a TCP stream.
    if d.is_null || is_tcp s.mode
    then bad_frame env w r s
    else if takes_head env w.log r s
    then record (put w r (record s { response_started = true })) {
      log = Effect.http r (write_head (status_of d.status_code) (response_headers env d)) ∷ w.log;
    }
    else abort_stream env w r s "Invalid response headers from tunnel client" false

unfoldable pub on_res_meta : Env → Server → ℕ → Stream → List ℕ → Server
unfolding start_response
on_res_meta env w r s payload =
    if s.response_started
    then abort_stream env w r s "Duplicate RES_META" false
    else start_response env w r s (parse_json_payload env.parse_json payload default_limit)

-- After a chunk that filled the response's buffer.
unfoldable pub pause_response : Env → Server → ℕ → Stream → Server
pause_response env w r s =
    if s.response_paused then w else record (put w r (record s { response_paused = true })) {
      log = send_frame env w.log s.ws pause s.id (raw []);
    }

-- After `state.res.write(payload)`.
unfoldable pub response_written : Env → Server → ℕ → Stream → List ℕ → WriteResult → Server
unfolding pause_response
response_written env w r s payload threw =
    abort_stream env w r s "Failed to write HTTP response chunk" false
response_written env w r s payload full =
    pause_response env (record w { log = Effect.http r (HttpOp.write payload) ∷ w.log }) r s
response_written env w r s payload accepted = record w {
  log = Effect.http r (HttpOp.write payload) ∷ w.log;
}

unfoldable pub on_res_data : Env → Server → ℕ → Stream → List ℕ → Server
unfolding response_written
on_res_data env w r s payload =
    if not s.response_started
    then abort_stream env w r s "RES_DATA before RES_META" false
    else if s.response_ended
    then w
    else if ltb env.max_dest_buffer_bytes (env.writable_length r)
    then abort_stream env w r s "HTTP response buffer overflow" true
    else response_written env w r s payload (env.response_write w.log r)

-- The response's next 'drain' event, once `pause_response` waits for it.
unfoldable pub on_response_drain : Env → Server → ℕ → Stream → Server
on_response_drain env w r s =
    if s.cleaned then w else record (put w r (record s { response_paused = false })) {
      log = send_frame env w.log s.ws resume s.id (raw []);
    }

unfoldable pub on_res_end : Env → Server → ℕ → Stream → Server
on_res_end env w r s =
    if not s.response_started
    then abort_stream env w r s "RES_END without RES_META" false
    else if s.response_ended
    then w
    else record (put w r (record s { response_ended = true })) {
      log = if responds env w.log r s then Effect.http r end ∷ w.log else w.log;
    }

-- The answer that RES_ABORT gives to the end user; `none` where `info` is null, so that
-- `info.message` throws within the `try`.
unfoldable pub abort_text : ParsedJson → Option String
abort_text (failed e) = some "Tunnel client aborted"
abort_text (doc d) = if d.is_null then none else some (message_or d.message "Tunnel client aborted")

-- `none`: the head is written, and `info.message` throws before `end`.
unfoldable pub answer_abort : Env → List Effect → ℕ → Stream → Option String → List Effect
answer_abort env log r s none =
    if responds env log r s then Effect.http r (write_head 502 []) ∷ log else log
answer_abort env log r s (some text) =
    if responds env log r s
    then Effect.http r (respond 502 "tunnel_client_error" text) ∷ log
    else log

unfoldable pub on_res_abort : Env → Server → ℕ → Stream → List ℕ → Server
unfolding answer_abort abort_text
on_res_abort env w r s payload =
    let text = abort_text (parse_json_payload env.parse_json payload default_limit) in
    if not s.response_started
    then (let s' = record s {
      response_ended = responds env w.log r s && answered text || s.response_ended;
    } in
        cleanup_stream env (record (put w r s') { log = answer_abort env w.log r s text }) r s')
    else if not s.response_ended
    then cleanup_stream env
        (record w { log = if responds env w.log r s then Effect.http r end ∷ w.log else w.log }) r s
    else cleanup_stream env w r s
  where
    answered : Option String → Bool
    answered none = false
    answered (some t) = true

-- PAUSE and RESUME; the Boolean is what `peerPausedRead` becomes.
unfoldable pub on_peer_paused : Env → Server → ℕ → Stream → Bool → Server
unfolding with_socket
on_peer_paused env w r s paused =
    if is_tcp s.mode
    then (let s' = record s { peer_paused_read = paused } in
        let (socket, outs, _) = sync_socket_read_state env s' in with_socket env w r s' socket outs)
    else if s.request_writer
    then record w { log = Effect.http r (set_peer_paused paused) ∷ w.log }
    else w

-- After a chunk that the socket took with `false`.
unfoldable pub backpressure : Env → Server → ℕ → Stream → Server
backpressure env w r s =
    if s.ws_backpressured
    then put w r s
    else (let (s', log) = sync_tcp_backpressure env (record s { ws_backpressured = true }) w.log in
        record (put w r s') { log = log })

-- `state.socket.write(payload)` of a virtual socket whose agent's WebSocket is open.
unfoldable pub write_agent : Env → Server → ℕ → Stream → VirtualSocket → List ℕ → Server
unfolding backpressure
write_agent env w r s v payload =
    if env.send_throws w.log v.agent_ws
    then backpressure env w r s
    else (let log = Effect.frame v.agent_ws tcp_data v.stream_id (raw payload) ∷ w.log in
        if ltb env.ws_high_water (env.buffered_amount log v.agent_ws)
        then backpressure env (record w { log = log }) r
            (record s { socket = virtual (record v { pending_drain = true }) })
        else record w { log = log })

-- After `state.socket.write(payload)` of a `net.Socket`.
unfoldable pub socket_written : Env → Server → ℕ → Stream → List ℕ → WriteResult → Server
unfolding backpressure
socket_written env w r s payload threw =
    abort_tcp_stream env w r s "Failed to write TCP socket" true
socket_written env w r s payload full =
    backpressure env (record w { log = Effect.socket r (SocketOp.write payload) ∷ w.log }) r s
socket_written env w r s payload accepted = record w {
  log = Effect.socket r (SocketOp.write payload) ∷ w.log;
}

-- `state.socket.write(payload)`, and what follows it.
unfoldable pub write_socket : Env → Server → ℕ → Stream → List ℕ → Socket → Server
unfolding write_agent socket_written backpressure
write_socket env w r s payload absent = w
write_socket env w r s payload (virtual v) =
    if env.is_open v.agent_ws then write_agent env w r s v payload else backpressure env w r s
write_socket env w r s payload (net n) = socket_written env w r s payload (env.socket_write w.log r)

unfoldable pub on_tcp_data : Env → Server → ℕ → Stream → List ℕ → Server
unfolding write_socket
on_tcp_data env w r s payload =
    if not (is_tcp s.mode)
    then w
    else if is_gone s.socket
    then w
    else write_socket env w r s payload s.socket

unfoldable pub on_tcp_open_ack : Env → Server → ℕ → Stream → Server
on_tcp_open_ack env w r s =
    if not (is_tcp s.mode && s.awaiting_client_ack)
    then w
    else record (put w r (record s { awaiting_client_ack = false })) {
      log = confirm s.on_client_open_confirmed;
    }
  where
    confirm : Option (ℕ × ℕ) → List Effect
    confirm none = w.log
    confirm (some (agent, port)) =
        if s.cleaned
        then w.log
        else send_frame env w.log agent tcp_connect_ack s.id (json (Json.port port))

-- The agent that waits for the stream is told that it failed.
unfoldable pub reject_agent : Env → Server → ℕ → Stream → String → Option ℕ → Server × Stream
reject_agent env w r s message none = (w, s)
reject_agent env w r s message (some agent) =
    if s.awaiting_client_ack && env.is_open agent
    then (let s' = record s { awaiting_client_ack = false } in
        (
          record (put w r s') {
            log =
                send_frame env w.log agent tcp_abort 0
                  (json (Json.rejection s.server_port message));
          },
          s',
        ))
    else (w, s)

unfoldable pub abort_by_client : Env → Server → ℕ → Stream → String → Server
unfolding reject_agent
abort_by_client env w r s message =
    let (w', s') = reject_agent env w r s message s.agent_ws in
    abort_tcp_stream env w' r s' message false

-- TCP_ABORT once its payload is parsed; `info.message` of null throws.
unfoldable pub abort_parsed : Env → Server → ℕ → Stream → ParsedJson → Server
unfolding abort_by_client
abort_parsed env w r s (failed e) = abort_by_client env w r s "Client aborted"
abort_parsed env w r s (doc d) =
    if d.is_null
    then bad_frame env w r s
    else abort_by_client env w r s (message_or d.message "Client aborted")

unfoldable pub on_tcp_abort : Env → Server → ℕ → Stream → List ℕ → Server
unfolding abort_parsed
on_tcp_abort env w r s payload =
    if not (is_tcp s.mode)
    then w
    else abort_parsed env w r s (parse_json_payload env.parse_json payload default_limit)

-- The `switch (type)`.
unfoldable pub on_frame : Env → Server → ℕ → Stream → Option FrameType → List ℕ → Server
unfolding on_res_meta on_res_data on_res_end on_res_abort on_peer_paused on_tcp_data on_tcp_open_ack
    on_tcp_abort
on_frame env w r s none payload = w
on_frame env w r s (some res_meta) payload = on_res_meta env w r s payload
on_frame env w r s (some res_data) payload = on_res_data env w r s payload
on_frame env w r s (some res_end) payload = on_res_end env w r s
on_frame env w r s (some res_abort) payload = on_res_abort env w r s payload
on_frame env w r s (some pause) payload = on_peer_paused env w r s true
on_frame env w r s (some resume) payload = on_peer_paused env w r s false
on_frame env w r s (some tcp_data) payload = on_tcp_data env w r s payload
on_frame env w r s (some tcp_close) payload =
    if is_tcp s.mode then cleanup_tcp_stream env w r s else w
on_frame env w r s (some tcp_open_ack) payload = on_tcp_open_ack env w r s
on_frame env w r s (some tcp_abort) payload = on_tcp_abort env w r s payload
on_frame env w r s (some _) payload = w

-- A frame of the client `ws`, for the object that its stream id names.
unfoldable pub route : Env → Server → ℕ → Frame → ℕ → Server
unfolding on_frame
route env w ws f r = at_stream w r (λ s.
    let s' = record s { timer = true } in
    if s.ws == ws then on_frame env (put w r s') r s' (of_code f.type) f.payload else w)

-- `handleClientFrame`.
unfoldable pub handle_client_frame : Env → Server → ℕ → List ℕ → Server
unfolding route
handle_client_frame env w ws data_bytes = elim (parse_frame data_bytes) [
  | err e ↦ w
  | ok f ↦ elim (lookup f.stream_id w.streams) [ none ↦ w | some r ↦ route env w ws f r ]
]

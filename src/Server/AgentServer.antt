-- ===== src/Server/AgentServer.antt =====
-- TcpAgentServer of src/tcp/TcpAgentServer.js: the TCP agents, their frames and what they own.
use nodejs_wss_tunnel.Prelude.{
  ℕ, ◌+◌, Bool, true, false, not, ◌&&◌, ◌||◌, Option, none, some, String, List, [], ◌∷◌, ◌++◌,
  length, leb, ltb, ◌==◌, if◌then◌else◌,
}
use nodejs_wss_tunnel.Prelude.Maps.{lookup, insert, remove}
use nodejs_wss_tunnel.Protocol.{
  FrameType, Frame, Parsed, ok, err, parse_frame, of_code, pause, resume, tcp_data, tcp_close,
  tcp_abort,
}
use nodejs_wss_tunnel.Protocol.Json.{
  json, Doc, ParsedJson, doc, failed, parse_json_payload, default_limit,
}
use nodejs_wss_tunnel.Protocol.Json
use nodejs_wss_tunnel.Net.{Env, send_frame}
use nodejs_wss_tunnel.VirtualSocket.{VirtualSocket, push_inbound, end_from_agent, abort_from_agent}
use nodejs_wss_tunnel.Server.State.{
  Server, Stream, Socket, virtual, agent_slot, put, at_stream, is_tcp,
}
use nodejs_wss_tunnel.Server.FlowControl.{sync_tcp_backpressure}
use nodejs_wss_tunnel.Server.Streams.{abort_tcp_stream}
use nodejs_wss_tunnel.Server.Router.{
  with_socket, count_of, AgentResult, failure, opened, create_agent_stream,
}

-- The options of the constructor.
pub record AgentOptions : Type 0 where
  pub allowed_ports : List ℕ
  pub max_connections_per_port : ℕ
  pub max_streams_per_agent : ℕ

abbrev pub includes : List ℕ → ℕ → Bool
includes [] k = false
includes (j ∷ js) k = j == k || includes js k

-- `Set.add`.
abbrev pub add_to : ℕ → List ℕ → List ℕ
add_to k ids = if includes ids k then ids else ids ++ k ∷ []

-- `handleConnection`.
unfoldable pub connect_agent : Server → ℕ → Server
connect_agent w ws = record w { agent_streams = insert ws [] w.agent_streams }

-- One round of the loop of `cleanupAgent`, for what `streams.get(streamId)` finds.
unfoldable pub abort_entry : Env → Server → String → Option ℕ → Server
abort_entry env w reason none = w
abort_entry env w reason (some r) =
    at_stream w r (λ s. if is_tcp s.mode then abort_tcp_stream env w r s reason true else w)

unfoldable pub abort_owned : Env → Server → String → List ℕ → Server
unfolding abort_entry
abort_owned env w reason [] = w
abort_owned env w reason (id ∷ ids) =
    abort_owned env (abort_entry env w reason (lookup id w.streams)) reason ids

-- `cleanupAgent`, for what `_agentStreams.get(ws)` finds.
unfoldable pub drop_agent : Env → Server → ℕ → String → Option (List ℕ) → Server
unfolding abort_owned
drop_agent env w ws reason none = w
drop_agent env w ws reason (some owned) =
    abort_owned env (record w { agent_streams = remove ws w.agent_streams }) reason owned

unfoldable pub cleanup_agent : Env → Server → ℕ → String → Server
unfolding drop_agent
cleanup_agent env w ws reason = drop_agent env w ws reason (lookup ws w.agent_streams)

-- `sendJsonFrame(ws, TCP_ABORT, streamId, { message })`.
abbrev pub refuse : Env → Server → ℕ → ℕ → String → Server
refuse env w ws id message = record w {
  log = send_frame env w.log ws tcp_abort id (json (Json.message message));
}

-- `this._agentStreams.get(ws).add(result.streamId)`: an exception for an agent that is gone, which the
-- `catch` of `_handleFrame` answers.
unfoldable pub own : ℕ → ℕ → Server → Env → Option (List ℕ) → Server
own ws id w env none = refuse env w ws 0 "Frame handling error"
own ws id w env (some ids) = record w { agent_streams = insert ws (add_to id ids) w.agent_streams }

-- `owned.size >= this.maxStreamsPerAgent`, or `none` where `owned` is undefined and this throws.
unfoldable pub is_full : ℕ → Option (List ℕ) → Option Bool
is_full max owned = if ltb 0 max then at_size owned else some false
  where
    at_size : Option (List ℕ) → Option Bool
    at_size none = none
    at_size (some ids) = some (leb max (length ids))

-- `_handleTcpConnect` once `createAgentStream` has returned.
unfoldable pub record_stream : Server → ℕ → ℕ → ℕ → AgentResult → Env → Server
unfolding own
record_stream w ws port current (failure message) env = refuse env w ws 0 message
record_stream w ws port current (opened r id) env = at_stream w r (λ s.
    own ws id
      (record (put w r (record s {
        on_client_open_confirmed = some (ws, port);
        on_cleanup = agent_slot port ws;
      })) { agent_counts = insert port (current + 1) w.agent_counts })
      env (lookup ws w.agent_streams))

-- `_handleTcpConnect` from the test of what the agent owns.
unfoldable pub connect_owned : Env → Server → ℕ → ℕ → ℕ → Option Bool → Server
unfolding record_stream
connect_owned env w ws port current none = refuse env w ws 0 "Frame handling error"
connect_owned env w ws port current (some true) = refuse env w ws 0 "Agent stream limit reached"
connect_owned env w ws port current (some false) =
    let (w', result) = create_agent_stream env w ws port in
    record_stream w' ws port current result env

-- `_handleTcpConnect` for a port that is a number.
unfoldable pub connect_port : Env → AgentOptions → Server → ℕ → ℕ → Server
unfolding connect_owned is_full
connect_port env o w ws port =
    if not (includes o.allowed_ports port)
    then refuse env w ws 0 "Port not allowed"
    else (let current = count_of port w.agent_counts in
        if ltb 0 o.max_connections_per_port && leb o.max_connections_per_port current
        then refuse env w ws 0 "Per-port connection limit reached"
        else connect_owned env w ws port current
            (is_full o.max_streams_per_agent (lookup ws w.agent_streams)))

unfoldable pub port_of : ParsedJson → Option ℕ
port_of (failed e) = none
port_of (doc d) = d.port

unfoldable pub is_null : ParsedJson → Bool
is_null (failed e) = false
is_null (doc d) = d.is_null

-- `_handleTcpConnect` for the port, where it is a number.
unfoldable pub connect_to : Env → AgentOptions → Server → ℕ → Option ℕ → Server
unfolding connect_port
connect_to env o w ws none = refuse env w ws 0 "Port not allowed"
connect_to env o w ws (some port) = connect_port env o w ws port

-- `_handleTcpConnect`. `info.port` of a null document throws, to the `catch` of `_handleFrame`.
unfoldable pub handle_tcp_connect : Env → AgentOptions → Server → ℕ → List ℕ → Server
unfolding connect_to port_of is_null
handle_tcp_connect env o w ws payload =
    let info = parse_json_payload env.parse_json payload default_limit in
    if is_null info
    then refuse env w ws 0 "Frame handling error"
    else connect_to env o w ws (port_of info)

abbrev pub is_open_frame : Option FrameType → Bool
is_open_frame (some tcp_data) = true
is_open_frame (some tcp_close) = true
is_open_frame _ = false

-- The answer to a frame for a stream that is no agent's.
unfoldable pub stream_missing : Env → Server → ℕ → ℕ → Option FrameType → Server
stream_missing env w ws id type =
    if is_open_frame type then refuse env w ws id "Stream not found" else w

-- The `switch (type)` of `_handleFrame`, on a virtual socket.
unfoldable pub on_agent_frame :
    Env → Server → ℕ → Stream → VirtualSocket → Option FrameType → List ℕ → Server
unfolding with_socket
on_agent_frame env w r s v (some tcp_data) payload =
    let (v', outs, _) = push_inbound env v payload in with_socket env w r s (virtual v') outs
on_agent_frame env w r s v (some tcp_close) payload =
    let (v', outs) = end_from_agent v in with_socket env w r s (virtual v') outs
on_agent_frame env w r s v (some tcp_abort) payload =
    let (v', outs) = abort_from_agent env v payload in with_socket env w r s (virtual v') outs
on_agent_frame env w r s v (some pause) payload =
    let (s', log) = sync_tcp_backpressure env (record s { agent_paused = true }) w.log in
    record (put w r s') { log = log }
on_agent_frame env w r s v (some resume) payload =
    let (s', log) = sync_tcp_backpressure env (record s { agent_paused = false }) w.log in
    record (put w r s') { log = log }
on_agent_frame env w r s v _ payload = w

abbrev pub is_agent : Option ℕ → ℕ → Bool
is_agent none ws = false
is_agent (some agent) ws = agent == ws

-- `_handleFrame` for the object that the stream id names, and its socket.
unfoldable pub to_stream : Env → Server → ℕ → Frame → ℕ → Stream → Socket → Server
unfolding on_agent_frame stream_missing
to_stream env w ws f r s (virtual v) =
    if not (is_tcp s.mode)
    then stream_missing env w ws f.stream_id (of_code f.type)
    else if not (is_agent s.agent_ws ws)
    then w
    else if s.awaiting_client_ack
    then w
    else on_agent_frame env w r s v (of_code f.type) f.payload
to_stream env w ws f r s _ = stream_missing env w ws f.stream_id (of_code f.type)

-- `_handleFrame` for what `streams.get(streamId)` finds.
unfoldable pub to_entry : Env → Server → ℕ → Frame → Option ℕ → Server
unfolding to_stream stream_missing
to_entry env w ws f none = stream_missing env w ws f.stream_id (of_code f.type)
to_entry env w ws f (some r) = at_stream w r (λ s. to_stream env w ws f r s s.socket)

-- `_handleFrame` for a frame that was parsed.
unfoldable pub on_parsed : Env → AgentOptions → Server → ℕ → Frame → Server
unfolding to_entry handle_tcp_connect
on_parsed env o w ws f =
    if f.type == 0x50
    then (if f.stream_id == 0
        then handle_tcp_connect env o w ws f.payload
        else refuse env w ws f.stream_id "Invalid TCP_CONNECT streamId")
    else to_entry env w ws f (lookup f.stream_id w.streams)

-- `_handleFrame`, for what `parseFrame` gives.
unfoldable pub handle_parsed : Env → AgentOptions → Server → ℕ → Parsed → Server
unfolding on_parsed
handle_parsed env o w ws (err e) = refuse env w ws 0 "Invalid frame"
handle_parsed env o w ws (ok f) = on_parsed env o w ws f

unfoldable pub handle_agent_frame : Env → AgentOptions → Server → ℕ → List ℕ → Server
unfolding handle_parsed
handle_agent_frame env o w ws data_bytes = handle_parsed env o w ws (parse_frame data_bytes)

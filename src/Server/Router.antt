-- ===== src/Server/Router.antt =====
-- TcpRouter of src/tcp/TcpRouter.js: external connections, and the listeners on a stream's socket.
use nodejs_wss_tunnel.Prelude.{
  ℕ, ◌+◌, ◌-◌, Bool, true, false, not, ◌&&◌, Option, none, some, String, List, [], ◌∷◌, length, leb,
  ltb, ◌==◌, if◌then◌else◌,
}
use nodejs_wss_tunnel.Prelude.Maps.{lookup, insert, or_zero}
use nodejs_wss_tunnel.Protocol.{tcp_data, tcp_close, tcp_abort, tcp_open}
use nodejs_wss_tunnel.Protocol.Json.{raw, json}
use nodejs_wss_tunnel.Protocol.Json
use nodejs_wss_tunnel.Net.{Env, Effect, send_frame, can_send}
use nodejs_wss_tunnel.VirtualSocket.{
  Out, send, emit_data, emit_close, emit_drain, emit_error, queue_close, call,
  create_virtual_socket,
}
use nodejs_wss_tunnel.Server.State.{
  Server, Stream, Socket, net, virtual, router_slot, put, at_stream,
}
use nodejs_wss_tunnel.Server.FlowControl.{sync_socket_read_state, sync_tcp_backpressure}
use nodejs_wss_tunnel.Server.Streams.{
  allocate_stream_id, create_tcp_stream, cleanup_tcp_stream, abort_tcp_stream, perform, queued,
}
use nodejs_wss_tunnel.Server.Clients.{get_active_client}

-- The end of `_wireStream`'s 'data' listener: throttle on the WebSocket's own buffer. The socket is
-- only ever paused here, so it emits nothing.
unfoldable pub throttle : Env → Server → ℕ → Stream → Server
throttle env w r s =
    if ltb env.ws_high_water (env.buffered_amount w.log s.ws) && not s.local_paused_for_ws
    then (let s' = record s { local_paused_for_ws = true } in
        let (socket, outs, _) = sync_socket_read_state env s' in
        record (put w r (record s' { socket = socket })) { log = perform env r outs w.log })
    else put w r s

-- The 'data' listener, on the object `r`, which is now `s`.
unfoldable pub on_data : Env → Server → ℕ → Stream → List ℕ → Server
unfolding throttle
on_data env w r s chunk =
    if s.cleaned
    then w
    else if not (env.is_open s.ws)
    then (let s' = record s { timer = true } in
        abort_tcp_stream env (put w r s') r s' "Failed to send TCP_DATA" true)
    else (let s' = record s { timer = true; pending_sends = s.pending_sends + 1 } in
        if env.send_throws w.log s.ws
        then abort_tcp_stream env (put w r s') r s' "Failed to send TCP_DATA" true
        else throttle env (record w { log = Effect.frame s.ws tcp_data s.id (raw chunk) ∷ w.log }) r
            s')

-- The 'close' listener.
unfoldable pub on_close : Env → Server → ℕ → Stream → Server
on_close env w r s =
    if s.cleaned
    then w
    else cleanup_tcp_stream env
        (record w { log = send_frame env w.log s.ws tcp_close s.id (raw []) }) r s

-- The 'error' listener.
unfoldable pub on_error : Env → Server → ℕ → Stream → String → Server
on_error env w r s message =
    if s.cleaned
    then w
    else abort_tcp_stream env
        (record w { log = send_frame env w.log s.ws tcp_abort s.id (json (Json.message message)) })
        r s message false

-- The 'drain' listener of `createTcpStream`.
unfoldable pub on_drain : Env → Server → ℕ → Stream → Server
on_drain env w r s =
    if s.cleaned
    then w
    else if s.ws_backpressured
    then (let (s', log) = sync_tcp_backpressure env (record s { ws_backpressured = false }) w.log in
        record (put w r s') { log = log })
    else w

-- What a socket does, with its listeners called in order.
unfoldable pub hear : Env → Server → ℕ → Out → Server
hear env w r (send ws type id payload) = record w { log = send_frame env w.log ws type id payload }
hear env w r (call op) = record w { log = Effect.socket r op ∷ w.log }
hear env w r (emit_data chunk) = at_stream w r (λ s. on_data env w r s chunk)
hear env w r emit_close = at_stream w r (λ s. on_close env w r s)
hear env w r emit_drain = at_stream w r (λ s. on_drain env w r s)
hear env w r (emit_error message) = at_stream w r (λ s. on_error env w r s message)
hear env w r queue_close = record w { microtasks = queued r (queue_close ∷ []) w.microtasks }

unfoldable pub deliver : Env → Server → ℕ → List Out → Server
unfolding hear
deliver env w r [] = w
deliver env w r (out ∷ outs) = deliver env (hear env w r out) r outs

-- A socket of the object `r` was called: it is stored, then what it does is heard.
unfoldable pub with_socket : Env → Server → ℕ → Stream → Socket → List Out → Server
with_socket env w r s socket outs = deliver env (put w r (record s { socket = socket })) r outs

-- The callback of the send in the 'data' listener.
unfoldable pub on_sent : Env → Server → ℕ → Stream → Server
unfolding with_socket
on_sent env w r s =
    let s1 = record s { pending_sends = s.pending_sends - 1 } in
    if not s.cleaned
      && s.local_paused_for_ws
      && s1.pending_sends == 0
      && leb (env.buffered_amount w.log s.ws) env.ws_low_water
    then (let s2 = record s1 { local_paused_for_ws = false } in
        let (socket, outs, _) = sync_socket_read_state env s2 in with_socket env w r s2 socket outs)
    else put w r s1

unfoldable pub close_all : Env → Server → List ℕ → Server
close_all env w [] = w
close_all env w (r ∷ rs) = close_all env (at_stream w r (λ s. on_close env w r s)) rs

-- The microtasks that an event left, which run before the next event.
unfoldable pub run_microtasks : Env → Server → Server
unfolding close_all
run_microtasks env w = close_all env (record w { microtasks = [] }) w.microtasks

abbrev pub count_of : ℕ → List (ℕ × ℕ) → ℕ
count_of port counts = or_zero (lookup port counts)

-- `_handleConnection` with a client and a stream id, up to the sending of TCP_OPEN.
unfoldable pub announce : Env → Server → ℕ → ℕ → ℕ → Server × ℕ × Stream
announce env w ws server_port id =
    let counted = record w {
      router_counts = insert server_port (count_of server_port w.router_counts + 1) w.router_counts;
    } in
    let (w1, r, s) =
      create_tcp_stream counted ws (net (record { destroyed = false; paused = false })) server_port
        id in
    let s' = record s { on_cleanup = router_slot server_port false } in
    (
      record (put w1 r s') {
        log =
            send_frame env w1.log ws tcp_open id
              (json (Json.target env.tcp_tunnel_host server_port));
      },
      r,
      s',
    )

-- The rest of it.
unfoldable pub open_stream : Env → Server → ℕ → ℕ → ℕ → Server × Option ℕ
unfolding announce
open_stream env w ws server_port id =
    let (w', r, s) = announce env w ws server_port id in
    if can_send env w.log ws
    then (w', some r)
    else (abort_tcp_stream env w' r s "Failed to send TCP_OPEN" false, some r)

-- `_handleConnection`, from `allocateStreamId` on; its `catch` is the case of no id.
unfoldable pub connect_id : Env → Server × Option ℕ → ℕ → ℕ → Server × Option ℕ
unfolding open_stream
connect_id env (w, none) ws server_port = (w, none)
connect_id env (w, some id) ws server_port = open_stream env w ws server_port id

-- `_handleConnection`, from `getActiveClient` on.
unfoldable pub connect_client : Env → Server → ℕ → Option ℕ → Server × Option ℕ
unfolding connect_id
connect_client env w server_port none = (w, none)
connect_client env w server_port (some ws) = connect_id env (allocate_stream_id w) ws server_port

-- `_handleConnection` of a `net.Socket`; `ip_allowed` is the answer of `isIpAllowed` for its
-- address. `none`: the socket is destroyed before a stream is made for it.
unfoldable pub handle_connection : Env → Server → Bool → ℕ → Server × Option ℕ
unfolding connect_client
handle_connection env w ip_allowed server_port =
    if not ip_allowed
    then (w, none)
    else if ltb 0 env.tcp_max_connections_per_port
        && leb env.tcp_max_connections_per_port (count_of server_port w.router_counts)
    then (w, none)
    else if leb env.max_concurrent_streams (length w.streams)
    then (w, none)
    else connect_client env w server_port (get_active_client env w)

pub data AgentResult : Type 0 where
  failure : String → AgentResult
  opened : ℕ → ℕ → AgentResult

-- `createAgentStream` with a client and a stream id, up to the sending of TCP_OPEN.
unfoldable pub announce_agent : Env → Server → ℕ → ℕ → ℕ → ℕ → Server × ℕ × Stream
announce_agent env w ws agent_ws port id =
    let (w1, r, s) = create_tcp_stream w ws (virtual (create_virtual_socket agent_ws id)) port id in
    let s' = record s { agent_ws = some agent_ws; awaiting_client_ack = true } in
    (
      record (put w1 r s') {
        log = send_frame env w1.log ws tcp_open id (json (Json.target env.tcp_tunnel_host port));
      },
      r,
      s',
    )

unfoldable pub open_agent_stream : Env → Server → ℕ → ℕ → ℕ → ℕ → Server × AgentResult
unfolding announce_agent
open_agent_stream env w ws agent_ws port id =
    let (w', r, s) = announce_agent env w ws agent_ws port id in
    if can_send env w.log ws then (w', opened r id) else (
      abort_tcp_stream env w' r s "Failed to send TCP_OPEN" false,
      failure "Failed to send TCP_OPEN",
    )

unfoldable pub agent_id : Env → Server × Option ℕ → ℕ → ℕ → ℕ → Server × AgentResult
unfolding open_agent_stream
agent_id env (w, none) ws agent_ws port = (w, failure "No available stream id")
agent_id env (w, some id) ws agent_ws port = open_agent_stream env w ws agent_ws port id

unfoldable pub agent_client : Env → Server → ℕ → ℕ → Option ℕ → Server × AgentResult
unfolding agent_id
agent_client env w agent_ws port none = (w, failure "No tunnel client connected")
agent_client env w agent_ws port (some ws) =
    if leb env.max_concurrent_streams (length w.streams)
    then (w, failure "Too many concurrent streams")
    else agent_id env (allocate_stream_id w) ws agent_ws port

-- `createAgentStream`, in the steps of `getActiveClient` and `allocateStreamId`.
unfoldable pub create_agent_stream : Env → Server → ℕ → ℕ → Server × AgentResult
unfolding agent_client
create_agent_stream env w agent_ws port = agent_client env w agent_ws port (get_active_client env w)

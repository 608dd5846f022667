-- ===== src/Server/FlowControl.antt =====
-- src/tcp/TcpFlowControl.js, and the calls on `state.socket` of either kind.
use nodejs_wss_tunnel.Prelude.{
  Bool, true, false, not, ◌&&◌, ◌||◌, String, List, [], ◌∷◌, if◌then◌else◌,
}
use nodejs_wss_tunnel.Protocol.{pause, resume}
use nodejs_wss_tunnel.Protocol.Json.{raw}
use nodejs_wss_tunnel.Net.{Env, Effect, SocketOp, send_frame}
use nodejs_wss_tunnel.VirtualSocket.{
  VirtualSocket, Out, call, pause_socket, resume_socket, destroy_socket, abort_socket,
}
use nodejs_wss_tunnel.Server.State.{Stream, Socket, absent, net, virtual}

abbrev wrap : VirtualSocket × List Out → Socket × List Out
wrap (v, outs) = (virtual v, outs)

-- `!state.socket || state.socket.destroyed`.
abbrev pub is_gone : Socket → Bool
is_gone absent = true
is_gone (net n) = n.destroyed
is_gone (virtual v) = v.destroyed

-- `socket.pause()`, `socket.resume()`, `socket.destroy()`. A `net.Socket` emits its events later.
unfoldable pub pause_any : Env → Socket → Socket × List Out
unfolding pause_socket
pause_any env absent = (absent, [])
pause_any env (net n) = (net (record n { paused = true }), call SocketOp.pause ∷ [])
pause_any env (virtual v) = wrap (pause_socket env v)

unfoldable pub resume_any : Env → Socket → Socket × List Out
unfolding resume_socket
resume_any env absent = (absent, [])
resume_any env (net n) = (net (record n { paused = false }), call SocketOp.resume ∷ [])
resume_any env (virtual v) = wrap (resume_socket env v)

unfoldable pub destroy_any : Env → Socket → Socket × List Out
unfolding destroy_socket
destroy_any env absent = (absent, [])
destroy_any env (net n) = (net (record n { destroyed = true }), call SocketOp.destroy ∷ [])
destroy_any env (virtual v) = wrap (destroy_socket env v)

-- `socket.abort(reason)`, which only a virtual socket has.
unfoldable pub abort_any : Env → Socket → String → Socket × List Out
unfolding abort_socket
abort_any env absent reason = (absent, [])
abort_any env (net n) reason = (net n, [])
abort_any env (virtual v) reason = wrap (abort_socket env v reason)

-- `syncSocketReadState`; the Boolean is its result.
unfoldable pub sync_socket_read_state : Env → Stream → Socket × List Out × Bool
unfolding pause_any resume_any
sync_socket_read_state env s =
    if is_gone s.socket
    then (s.socket, [], false)
    else if s.peer_paused_read || s.local_paused_for_ws
    then (let (k, outs) = pause_any env s.socket in (k, outs, true))
    else (let (k, outs) = resume_any env s.socket in (k, outs, false))

-- `syncTcpBackpressure`: the object and the log after it.
unfoldable pub sync_tcp_backpressure : Env → Stream → List Effect → Stream × List Effect
sync_tcp_backpressure env s log =
    if (s.agent_paused || s.ws_backpressured) && not s.client_paused_for_agent
    then (record s { client_paused_for_agent = true }, send_frame env log s.ws pause s.id (raw []))
    else if not (s.agent_paused || s.ws_backpressured) && s.client_paused_for_agent
    then (
      record s { client_paused_for_agent = false },
      send_frame env log s.ws resume s.id (raw []),
    )
    else (s, log)

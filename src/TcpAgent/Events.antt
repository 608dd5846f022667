-- ===== src/TcpAgent/Events.antt =====
-- The listeners of serve/tcp-agent.js, and the histories of the agent.
use nodejs_wss_tunnel.Prelude.{
  ℕ, ◌+◌, ◌-◌, ◌*◌, true, false, not, ◌&&◌, ◌||◌, ◌==◌, Option, none, some, String, List, [], ◌∷◌,
  get_elem?, min, leb, ltb, if◌then◌else◌,
}
use nodejs_wss_tunnel.Protocol.{resume, tcp_data, tcp_close, tcp_abort}
use nodejs_wss_tunnel.Protocol.Json.{Obj, raw, json}
use nodejs_wss_tunnel.Net.{or_else}
use nodejs_wss_tunnel.TcpAgent.{
  Pending, Entry, AgentEffect, Agent, AgentEnv, send, log_effect, schedule, exit, open_web_socket,
  close_web_socket, clear_timer, close_listeners, mark_ready_if_eligible, clear_ready,
}
use nodejs_wss_tunnel.TcpAgent.Frames.{
  put_entry, with_entry, forget, remove_pending, connection, sync_read_state, abort_entry_stream,
  handle_server_frame,
}

-- `socket.on('data', ...)` of `registerStream`.
unfoldable pub on_local_data : AgentEnv → Agent → ℕ → Entry → List ℕ → Agent
unfolding abort_entry_stream sync_read_state
on_local_data env a r e chunk =
    if not env.ws_ready
    then a
    else (let e' = record e { pending_sends = e.pending_sends + 1 } in
        let counted = put_entry a r e' in
        if env.send_throws a.log
        then abort_entry_stream env counted r e' "Failed to send TCP_DATA"
        else (let sent = log_effect counted (AgentEffect.frame tcp_data e.stream_id (raw chunk)) in
            if ltb env.ws_high_water (env.buffered_amount sent.log) && not e.paused_for_ws
            then (let e'' = record e' { paused_for_ws = true } in
                sync_read_state env (put_entry sent r e'') e'')
            else sent))

-- The callback of `ws.send` in it, and for one entry the listener of the WebSocket's `drain`.
unfoldable pub release : AgentEnv → Agent → ℕ → Entry → Agent
unfolding sync_read_state
release env a r e =
    if e.paused_for_ws && e.pending_sends == 0 && leb (env.buffered_amount a.log) env.ws_low_water
    then (let e' = record e { paused_for_ws = false } in sync_read_state env (put_entry a r e') e')
    else a

unfoldable pub on_local_sent : AgentEnv → Agent → ℕ → Entry → Agent
unfolding release
on_local_sent env a r e =
    let e' = record e { pending_sends = e.pending_sends - 1 } in
    if e.cleaned then put_entry a r e' else release env (put_entry a r e') r e'

-- `ws.on('drain', ...)`: every entry of the map in turn.
unfoldable pub on_web_socket_drain : AgentEnv → Agent → List (ℕ × ℕ) → Agent
unfolding release
on_web_socket_drain env a [] = a
on_web_socket_drain env a ((_, r) ∷ streams) =
    on_web_socket_drain env (with_entry a (some r) (release env a)) streams

-- `socket.on('drain', ...)`.
unfoldable pub on_local_drain : AgentEnv → Agent → ℕ → Entry → Agent
on_local_drain env a r e =
    if e.local_write_backpressured && env.ws_ready
    then send env (put_entry a r (record e { local_write_backpressured = false })) resume
        e.stream_id (raw [])
    else a

-- `socket.on('error', ...)` and `socket.on('close', ...)` of `registerStream`.
unfoldable pub on_local_error : AgentEnv → Agent → ℕ → Entry → String → Agent
on_local_error env a r e message =
    log_effect
      (send env (forget a r e) tcp_abort e.stream_id
        (json (Obj.message (or_else message "Local socket error"))))
      (AgentEffect.destroy e.socket)

unfoldable pub on_local_close : AgentEnv → Agent → ℕ → Entry → Agent
on_local_close env a r e = send env (forget a r e) tcp_close e.stream_id (raw [])

destroy_pending : List Pending → List AgentEffect → List AgentEffect
destroy_pending [] log = log
destroy_pending (p ∷ ps) log = destroy_pending ps (AgentEffect.destroy p.local_socket ∷ log)

-- `[...streamedSockets.values()]` in `cleanupAll`; the ids in the map are those of the entries.
unfoldable pub drop_entries : Agent → List (ℕ × ℕ) → Agent
drop_entries a [] = a
drop_entries a ((id, r) ∷ streams) =
    drop_entries
      (with_entry a (some r) (λ i e. log_effect (forget a i e) (AgentEffect.destroy e.socket)))
      streams

-- `cleanupAll`.
unfoldable pub cleanup_all : Agent → Agent
unfolding destroy_pending drop_entries
cleanup_all a =
    drop_entries
      (record a { pending_connects = []; log = destroy_pending a.pending_connects a.log }) a.streams

abbrev pub clear_timer_of : Agent → Agent
clear_timer_of a = if a.timer_set then log_effect a clear_timer else a

-- `scheduleReconnect`.
unfoldable pub schedule_reconnect : Agent → Agent
schedule_reconnect a =
    if a.auth_failed || a.shutting_down
    then a
    else record (log_effect (clear_timer_of a) (schedule a.reconnect_delay)) {
      timer_set = true;
      reconnect_delay = min (a.reconnect_delay * 2) 30000;
    }

abbrev pub close_web_socket_of : Agent → Agent
close_web_socket_of a = if a.has_web_socket then log_effect a close_web_socket else a

-- `connect`.
unfoldable pub connect : Agent → Agent
connect a = record (log_effect (close_web_socket_of a) open_web_socket) { has_web_socket = true }

-- `shutdown`.
unfoldable pub shutdown : Agent → ℕ → Agent
unfolding cleanup_all clear_ready
shutdown a code =
    if a.shutting_down
    then a
    else log_effect
        (close_web_socket_of (
          log_effect
            (cleanup_all (clear_timer_of (clear_ready (record a { shutting_down = true }))))
            close_listeners))
        (exit code)

-- One callback of the program.
pub data AgentEvent : Type 0 where
  opened disconnected auth_refused drained reconnect_timer : AgentEvent
  -- SIGTERM and SIGINT.
  signal : AgentEvent
  message : List ℕ → AgentEvent
  listening listener_error listener_close : ℕ → AgentEvent
  -- A local connection: its socket and port; the first listeners of its `error` and `close`.
  connected : ℕ → ℕ → AgentEvent
  pending_error pending_close : ℕ → AgentEvent
  -- The events of the socket of an entry.
  local_data : ℕ → List ℕ → AgentEvent
  local_sent local_drain local_close : ℕ → AgentEvent
  local_error : ℕ → String → AgentEvent

unfoldable pub without : ℕ → List ℕ → List ℕ
without p [] = []
without p (x ∷ xs) = let rest = without p xs in if x == p then rest else x ∷ rest

abbrev pub at_entry : Agent → Option Entry → (Entry → Agent) → Agent
at_entry a none f = a
at_entry a (some e) f = f e

unfoldable pub agent_handle : AgentEnv → Agent → AgentEvent → Agent
unfolding mark_ready_if_eligible clear_ready cleanup_all schedule_reconnect connect shutdown
    connection handle_server_frame remove_pending on_local_data on_local_sent on_web_socket_drain
    on_local_drain on_local_error on_local_close without
agent_handle env a opened =
    mark_ready_if_eligible env
      (record a { reconnect_attempt = 0; reconnect_delay = env.initial_delay; auth_failed = false })
agent_handle env a disconnected = schedule_reconnect (cleanup_all (clear_ready a))
agent_handle env a auth_refused = record a { auth_failed = true }
agent_handle env a drained = on_web_socket_drain env a a.streams
agent_handle env a reconnect_timer =
    connect (record a { reconnect_attempt = a.reconnect_attempt + 1 })
agent_handle env a signal = shutdown a 0
agent_handle env a (message bytes) = handle_server_frame env a bytes
agent_handle env a (listening port) =
    mark_ready_if_eligible env
      (record a { listening_ports = port ∷ without port a.listening_ports })
agent_handle env a (listener_error port) =
    if a.ready then clear_ready a else shutdown (clear_ready a) 1
agent_handle env a (listener_close port) =
    clear_ready (record a { listening_ports = without port a.listening_ports })
agent_handle env a (connected socket port) = connection env a socket port
agent_handle env a (pending_error socket) =
    log_effect (remove_pending a socket) (AgentEffect.destroy socket)
agent_handle env a (pending_close socket) = remove_pending a socket
agent_handle env a (local_data r chunk) =
    with_entry a (some r) (λ i e. on_local_data env a i e chunk)
agent_handle env a (local_sent r) = at_entry a (get_elem? a.entries r) (on_local_sent env a r)
agent_handle env a (local_drain r) = with_entry a (some r) (on_local_drain env a)
agent_handle env a (local_close r) = with_entry a (some r) (on_local_close env a)
agent_handle env a (local_error r text) =
    with_entry a (some r) (λ i e. on_local_error env a i e text)

-- A history: nothing happens to a process that has ended.
unfoldable pub agent_run : Agent → List (AgentEnv × AgentEvent) → Agent
unfolding agent_handle
agent_run a [] = a
agent_run a ((env, e) ∷ es) = agent_run (if a.crashed then a else agent_handle env a e) es

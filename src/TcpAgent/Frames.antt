-- ===== src/TcpAgent/Frames.antt =====
-- The frames of the server, and the events of a local connection, in serve/tcp-agent.js.
use nodejs_wss_tunnel.Prelude.{
  ℕ, Bool, true, false, not, ◌||◌, ◌==◌, Option, none, some, String, List, [], ◌∷◌, ◌++◌, length,
  set, get_elem?, if◌then◌else◌,
}
use nodejs_wss_tunnel.Prelude.Maps.{lookup, insert, remove}
use nodejs_wss_tunnel.Protocol.{
  FrameType, Frame, ok, err, parse_frame, of_code, pause, resume, tcp_data, tcp_close, tcp_abort,
  tcp_connect, tcp_connect_ack,
}
use nodejs_wss_tunnel.Protocol.Json.{
  ParsedJson, doc, failed, parse_json_payload, default_limit, Obj, raw, json,
}
use nodejs_wss_tunnel.Net.{WriteResult, accepted, full, threw}
use nodejs_wss_tunnel.TcpAgent.{
  Pending, Entry, AgentEffect, Agent, AgentEnv, send, log_effect, crash,
}

abbrev pub put_entry : Agent → ℕ → Entry → Agent
put_entry a r e = record a { entries = set a.entries r e }

-- `pendingConnects.findIndex(...)` and `splice(idx, 1)`: the first that the test takes, and the rest.
unfoldable pub take_first : (Pending → Bool) → List Pending → Option (Pending × List Pending)
take_first test [] = none
take_first test (p ∷ ps) =
    let later = take_first test ps in
    if test p
    then some (p, ps)
    else elim later [ none ↦ none | some found ↦ some (found.0, p ∷ found.1) ]

-- `entry.port === Number(info.port)`, where the number may be no natural number.
abbrev pub is_for : Option ℕ → Pending → Bool
is_for none p = false
is_for (some port) p = p.port == port

abbrev pub is_socket : ℕ → Pending → Bool
is_socket socket p = p.local_socket == socket

abbrev rest_or : List Pending → Option (Pending × List Pending) → List Pending
rest_or ps none = ps
rest_or ps (some found) = found.1

-- `removePending`.
unfoldable pub remove_pending : Agent → ℕ → Agent
remove_pending a socket = record a {
  pending_connects = rest_or a.pending_connects (take_first (is_socket socket) a.pending_connects);
}

-- The `connection` listener of `net.createServer`.
unfoldable pub connection : AgentEnv → Agent → ℕ → ℕ → Agent
unfolding remove_pending
connection env a socket port =
    let paused = log_effect a (AgentEffect.pause socket) in
    if not env.ws_ready
    then log_effect paused (AgentEffect.destroy socket)
    else (let added = record paused {
      pending_connects = a.pending_connects ++ record { local_socket = socket; port = port } ∷ [];
    } in
        if env.send_throws added.log
        then log_effect (remove_pending added socket) (AgentEffect.destroy socket)
        else log_effect added (AgentEffect.frame tcp_connect 0 (json (Obj.port port))))

-- `syncReadState`.
unfoldable pub sync_read_state : AgentEnv → Agent → Entry → Agent
sync_read_state env a e =
    if e.cleaned || env.destroyed e.socket
    then a
    else if e.peer_paused_read || e.paused_for_ws || not env.ws_ready
    then log_effect a (AgentEffect.pause e.socket)
    else log_effect a (AgentEffect.resume e.socket)

-- The entry leaves the map.
abbrev pub forget : Agent → ℕ → Entry → Agent
forget a r e = record a {
  streams = remove e.stream_id a.streams;
  entries = set a.entries r (record e { cleaned = true });
}

-- `abortStream`.
unfoldable pub abort_entry_stream : AgentEnv → Agent → ℕ → Entry → String → Agent
abort_entry_stream env a r e message =
    if e.cleaned
    then a
    else log_effect (send env (forget a r e) tcp_abort e.stream_id (json (Obj.message message)))
        (AgentEffect.destroy e.socket)

-- `registerStream`.
unfoldable pub register_stream : AgentEnv → Agent → ℕ → ℕ → Agent
register_stream env a stream_id socket = if env.destroyed socket then a else record a {
  streams = insert stream_id (length a.entries) a.streams;
  entries = a.entries ++ entry ∷ [];
  log = AgentEffect.resume socket ∷ a.log;
}
  where
    entry : Entry
    entry = record {
      socket = socket;
      stream_id = stream_id;
      pending_sends = 0;
      paused_for_ws = false;
      peer_paused_read = false;
      local_write_backpressured = false;
      cleaned = false;
    }

unfoldable pub acknowledged : AgentEnv → Agent → ℕ → Option (Pending × List Pending) → Agent
unfolding register_stream
acknowledged env a stream_id none = a
acknowledged env a stream_id (some (p, rest)) =
    register_stream env (record a { pending_connects = rest }) stream_id p.local_socket

-- `handleConnectAck`. A document that is `null` has no fields to read, and nothing catches the
-- exception.
unfoldable pub handle_connect_ack : AgentEnv → Agent → ℕ → ParsedJson → Agent
unfolding acknowledged take_first
handle_connect_ack env a stream_id (failed _) = a
handle_connect_ack env a stream_id (doc d) =
    if d.is_null
    then crash a
    else acknowledged env a stream_id (take_first (is_for d.port) a.pending_connects)

unfoldable pub rejected : Agent → Option (Pending × List Pending) → Agent
rejected a none = a
rejected a (some (p, rest)) =
    log_effect (record a { pending_connects = rest }) (AgentEffect.destroy p.local_socket)

-- `handleConnectReject`: without a document `info` is `{}`, and `Number(undefined)` is no port.
unfoldable pub handle_connect_reject : Agent → ParsedJson → Agent
unfolding rejected take_first
handle_connect_reject a (failed _) = a
handle_connect_reject a (doc d) =
    if d.is_null then crash a else rejected a (take_first (is_for d.port) a.pending_connects)

unfoldable pub written : AgentEnv → Agent → ℕ → Entry → List ℕ → WriteResult → Agent
unfolding abort_entry_stream
written env a r e payload threw = abort_entry_stream env a r e "Failed to write to local socket"
written env a r e payload accepted = log_effect a (AgentEffect.write e.socket payload)
written env a r e payload full =
    if e.local_write_backpressured
    then log_effect a (AgentEffect.write e.socket payload)
    else send env
        (log_effect (put_entry a r (record e { local_write_backpressured = true }))
          (AgentEffect.write e.socket payload))
        pause e.stream_id (raw [])

-- The cases of `handleServerFrame` that look a live entry up.
unfoldable pub on_entry_frame : AgentEnv → Agent → ℕ → Entry → Option FrameType → List ℕ → Agent
unfolding written sync_read_state
on_entry_frame env a r e (some tcp_data) payload =
    written env a r e payload (env.socket_write a.log e.socket)
on_entry_frame env a r e (some tcp_close) payload =
    log_effect (forget a r e) (AgentEffect.end e.socket)
on_entry_frame env a r e (some tcp_abort) payload =
    log_effect (forget a r e) (AgentEffect.destroy e.socket)
on_entry_frame env a r e (some pause) payload =
    let e' = record e { peer_paused_read = true } in sync_read_state env (put_entry a r e') e'
on_entry_frame env a r e (some resume) payload =
    let e' = record e { peer_paused_read = false } in sync_read_state env (put_entry a r e') e'
on_entry_frame env a r e _ payload = a

-- `if (!entry || entry.cleaned) break`.
abbrev pub with_entry : Agent → Option ℕ → (ℕ → Entry → Agent) → Agent
with_entry a none f = a
with_entry a (some r) f = elim (get_elem? a.entries r) [
  | none ↦ a
  | some e ↦ if e.cleaned then a else f r e
]

-- The `switch` of `handleServerFrame`.
unfoldable pub on_server_frame : AgentEnv → Agent → Frame → Option FrameType → Agent
unfolding handle_connect_ack handle_connect_reject on_entry_frame
on_server_frame env a f (some tcp_connect_ack) =
    handle_connect_ack env a f.stream_id (parse_json_payload env.parse_json f.payload default_limit)
on_server_frame env a f (some tcp_abort) =
    if f.stream_id == 0
    then handle_connect_reject a (parse_json_payload env.parse_json f.payload default_limit)
    else with_entry a (lookup f.stream_id a.streams)
        (λ r e. on_entry_frame env a r e (some tcp_abort) f.payload)
on_server_frame env a f t =
    with_entry a (lookup f.stream_id a.streams) (λ r e. on_entry_frame env a r e t f.payload)

unfoldable pub handle_server_frame : AgentEnv → Agent → List ℕ → Agent
unfolding on_server_frame
handle_server_frame env a bytes = elim (parse_frame bytes) [
  | ok f ↦ on_server_frame env a f (of_code f.type)
  | err _ ↦ a
]

-- ===== src/Server/Invariant.antt =====
-- A property that every event of the server keeps. Beside what `IsStable` asks, it is to be kept where
-- a stream is made: there is room, the id is free, and the port is below its limit.
use nodejs_wss_tunnel.Prelude.{
  true, false, Bool, ℕ, ◌≡◌, refl, Bool, false, not, ◌&&◌, ◌||◌, Option, none, some, List, [], ◌∷◌,
  length, leb, ltb, ◌==◌, All, arith,
}
use nodejs_wss_tunnel.Prelude.Maps.{lookup}
use nodejs_wss_tunnel.Protocol.{Parsed, ok, err, parse_frame}
use nodejs_wss_tunnel.Protocol.Json.{Obj, parse_json_payload, default_limit}
use nodejs_wss_tunnel.Net.{Env, can_send}
use nodejs_wss_tunnel.Server.State.{Server, Stream, Socket, Mode, virtual, nothing, agent_slot, put}
use nodejs_wss_tunnel.Server.Streams.{create_stream, create_tcp_stream, allocate_stream_id}
use nodejs_wss_tunnel.Server.Clients.{add_client, get_active_client}
use nodejs_wss_tunnel.Server.Router.{
  count_of, announce, announce_agent, open_stream, connect_id, connect_client, handle_connection,
  open_agent_stream, agent_id, agent_client, create_agent_stream, AgentResult, opened,
}
use nodejs_wss_tunnel.Server.AgentServer.{
  AgentOptions, connect_agent, record_stream, connect_port, connect_to, handle_tcp_connect,
  on_parsed, handle_parsed, handle_agent_frame, includes, own, is_full, connect_owned, is_null,
  port_of,
}
use nodejs_wss_tunnel.Server.HttpProxy.{
  HttpRequest, Answer, truthy, header, open_request, with_id, with_client, proxy_http_request,
  on_writer_finish, on_writer_error, on_pipeline_error, on_request_error, on_response_close,
  on_response_finish,
}
use nodejs_wss_tunnel.Server.Run.{
  Event, StreamEvent, agent_sent, handle_stream_event, handle, step, run, client_open, client_close,
  client_message, agent_open, agent_close, agent_message, connection, request, on_stream,
  socket_data, socket_close, socket_drain, send_callback, idle_timeout, socket_error,
  agent_send_callback, response_drain, response_close, response_finish, writer_finish, writer_error,
  pipeline_error, request_error,
}
use nodejs_wss_tunnel.Server.Stable.{
  At, At-put, At-new, IsStable, abort_tcp_stream_P, either, either_of, update_P, abort_stream_P,
  abort_any_stream_P, at_stream_P, with_socket_P, on_data_P, on_close_P, on_error_P, on_drain_P,
  on_sent_P, run_microtasks_P,
}
use nodejs_wss_tunnel.Server.StableFrames.{handle_client_frame_P, on_response_drain_P}
use nodejs_wss_tunnel.Server.StableAgents.{refuse_P, to_entry_P, cleanup_agent_P, cleanup_client_P}
use nodejs_wss_tunnel.Server.Allocation.{allocate_stream_id-IsFree}

abbrev pub HasRoom : Env → Server → Type 0
HasRoom env w = leb env.max_concurrent_streams (length w.streams) ≡ false

abbrev pub IsBelowLimit : Env → Server → ℕ → Type 0
IsBelowLimit env w port =
    (ltb 0 env.tcp_max_connections_per_port
      && leb env.tcp_max_connections_per_port (count_of port w.router_counts))
    ≡ false

-- The fields of `key` but the closure.
abbrev pub identity : Stream → ℕ × ℕ × Mode × Bool
identity s = (s.id, s.ws, s.mode, s.cleaned)

-- `Ok` says what is asked of the environment of each event.
pub record IsInvariant (Ok : Env → Type 0) (P : Server → Type 0) : Type 0 where
  pub stable : IsStable P
  pub renumbered : (w : Server) (next : ℕ) → P w → P (record w { next_stream_id = next })
  pub announced :
      (env : Env) (w : Server) (ws port id : ℕ)
      → Ok env
      → HasRoom env w
      → IsBelowLimit env w port
      → lookup id w.streams ≡ none
      → P w
      → P (announce env w ws port id).0
  pub announced_agent :
      (env : Env) (w : Server) (ws agent port id : ℕ)
      → Ok env
      → HasRoom env w
      → lookup id w.streams ≡ none
      → P w
      → P (announce_agent env w ws agent port id).0
  -- The object of an agent's stream gets its closure.
  pub recorded :
      (w : Server) (r agent port : ℕ) (s s' : Stream)
      → At w r s
      → s.on_cleanup ≡ nothing
      → s'.on_cleanup ≡ agent_slot port agent
      → identity s' ≡ identity s
      → P w
      → P (put w r s')
  pub requested :
      (env : Env) (w : Server) (ws : ℕ) (meta : Obj) (is_head : Bool) (id : ℕ)
      → Ok env
      → HasRoom env w
      → lookup id w.streams ≡ none
      → P w
      → P (create_stream env w ws meta is_head id).0

announce-At :
    (env : Env) (w : Server) (ws port id : ℕ)
    → At (announce env w ws port id).0 (announce env w ws port id).1 (announce env w ws port id).2
unfolding announce create_tcp_stream
announce-At env w ws port id = At-new w.heap _ _

announce_agent-At :
    (env : Env) (w : Server) (ws agent port id : ℕ)
    → At
        (announce_agent env w ws agent port id).0
        (announce_agent env w ws agent port id).1
        (announce_agent env w ws agent port id).2
unfolding announce_agent create_tcp_stream
announce_agent-At env w ws agent port id = At-new w.heap _ _

announce_agent_fresh :
    (env : Env) (w : Server) (ws agent port id : ℕ)
    → (announce_agent env w ws agent port id).2.on_cleanup ≡ nothing
unfolding announce_agent create_tcp_stream
announce_agent_fresh env w ws agent port id = refl

allocate_streams : (w : Server) → (allocate_stream_id w).0.streams ≡ w.streams
unfolding allocate_stream_id
allocate_streams w = refl

allocate_counts : (w : Server) → (allocate_stream_id w).0.router_counts ≡ w.router_counts
unfolding allocate_stream_id
allocate_counts w = refl

module _ (Ok : Env → Type 0) (P : Server → Type 0) (inv : IsInvariant Ok P) (env : Env)
    (good : Ok env) where
  allocate_P : (w : Server) → P w → P (allocate_stream_id w).0
  unfolding allocate_stream_id
  allocate_P w h = inv.renumbered w _ h

  connected_P :
      (w : Server) (ws port id : ℕ)
      → HasRoom env w
      → IsBelowLimit env w port
      → lookup id w.streams ≡ none
      → P w
      → P (open_stream env w ws port id).0
  unfolding open_stream
  connected_P w ws port id room below free h =
      either (λ (p : Server × Option ℕ). P p.0) (can_send env w.log ws) made
        (abort_tcp_stream_P P inv.stable env _ _ _ (announce-At env w ws port id) made _ _)
    where
      made : P (announce env w ws port id).0
      made = inv.announced env w ws port id good room below free h

  own_P : (w : Server) (agent id : ℕ) (owned : Option (List ℕ)) → P w → P (own agent id w env owned)
  unfolding own
  own_P w agent id none h = refuse_P P inv.stable env w agent 0 _ h
  own_P w agent id (some ids) h = inv.stable.aside _ _ _ _ h

  recorded_P :
      (w : Server) (r agent port id current : ℕ) (s : Stream)
      → At w r s
      → s.on_cleanup ≡ nothing
      → P w
      → P (record_stream w agent port current (opened r id) env)
  unfolding record_stream
  recorded_P w r agent port id current s here fresh h = at_stream_P P inv.stable w r _ h λ s1 there.
      own_P _ agent id (lookup agent w.agent_streams) (
        inv.stable.aside _ _ _ _
          (inv.recorded w r agent port s1 _ there (ground (arith, here, there)) refl refl h))

  agent_connected_P :
      (w : Server) (ws agent port id current : ℕ)
      → HasRoom env w
      → lookup id w.streams ≡ none
      → P w
      → P (
          record_stream
            (open_agent_stream env w ws agent port id).0
            agent
            port
            current
            (open_agent_stream env w ws agent port id).1
            env)
  unfolding open_agent_stream record_stream
  agent_connected_P w ws agent port id current room free h =
      either (λ (p : Server × AgentResult). P (record_stream p.0 agent port current p.1 env))
        (can_send env w.log ws)
        (recorded_P _ _ agent port id current _ (announce_agent-At env w ws agent port id)
          (announce_agent_fresh env w ws agent port id) made)
        (refuse_P P inv.stable env _ agent 0 _ (
          abort_tcp_stream_P P inv.stable env _ _ _ (announce_agent-At env w ws agent port id) made
            _ _))
    where
      made : P (announce_agent env w ws agent port id).0
      made = inv.announced_agent env w ws agent port id good room free h

  connect_id_P :
      (w : Server) (p : Server × Option ℕ) (ws port : ℕ)
      → p.0.streams ≡ w.streams
      → p.0.router_counts ≡ w.router_counts
      → ((id : ℕ) → p.1 ≡ some id → lookup id w.streams ≡ none)
      → HasRoom env w
      → IsBelowLimit env w port
      → P p.0
      → P (connect_id env p ws port).0
  unfolding connect_id
  connect_id_P w (w', none) ws port same counts free room below h = h
  connect_id_P w (w', some id) ws port same counts free room below h =
      connected_P w' ws port id (rw same room) (rw counts below) (rw same (free id refl)) h

  connect_client_P :
      (w : Server) (port : ℕ) (o : Option ℕ)
      → HasRoom env w
      → IsBelowLimit env w port
      → P w
      → P (connect_client env w port o).0
  unfolding connect_client
  connect_client_P w port none room below h = h
  connect_client_P w port (some ws) room below h =
      connect_id_P w (allocate_stream_id w) ws port (allocate_streams w) (allocate_counts w)
        (allocate_stream_id-IsFree w) room below (allocate_P w h)

  handle_connection_P :
      (w : Server) (ip_allowed : Bool) (port : ℕ)
      → P w
      → P (handle_connection env w ip_allowed port).0
  unfolding handle_connection
  handle_connection_P w ip_allowed port h =
      either (λ (p : Server × Option ℕ). P p.0) (not ip_allowed) h
        (either_of (λ (p : Server × Option ℕ). P p.0)
          (ltb 0 env.tcp_max_connections_per_port
            && leb env.tcp_max_connections_per_port (count_of port w.router_counts))
          h
          (λ below.
            either_of (λ (p : Server × Option ℕ). P p.0)
              (leb env.max_concurrent_streams (length w.streams)) h
              (λ room. connect_client_P w port (get_active_client env w) room below h)))

  agent_id_P :
      (w : Server) (p : Server × Option ℕ) (ws agent port current : ℕ)
      → p.0.streams ≡ w.streams
      → ((id : ℕ) → p.1 ≡ some id → lookup id w.streams ≡ none)
      → HasRoom env w
      → P p.0
      → P (
          record_stream
            (agent_id env p ws agent port).0
            agent
            port
            current
            (agent_id env p ws agent port).1
            env)
  unfolding agent_id record_stream
  agent_id_P w (w', none) ws agent port current same free room h =
      refuse_P P inv.stable env w' agent 0 _ h
  agent_id_P w (w', some id) ws agent port current same free room h =
      agent_connected_P w' ws agent port id current (rw same room) (rw same (free id refl)) h

  agent_client_P :
      (w : Server) (agent port current : ℕ) (o : Option ℕ)
      → P w
      → P (
          record_stream
            (agent_client env w agent port o).0
            agent
            port
            current
            (agent_client env w agent port o).1
            env)
  unfolding agent_client record_stream
  agent_client_P w agent port current none h = refuse_P P inv.stable env w agent 0 _ h
  agent_client_P w agent port current (some ws) h =
      either_of (λ (p : Server × AgentResult). P (record_stream p.0 agent port current p.1 env))
        (leb env.max_concurrent_streams (length w.streams))
        (refuse_P P inv.stable env w agent 0 _ h)
        (λ room.
          agent_id_P w (allocate_stream_id w) ws agent port current (allocate_streams w)
            (allocate_stream_id-IsFree w) room (allocate_P w h))

  connect_owned_P :
      (w : Server) (agent port current : ℕ) (full : Option Bool)
      → P w
      → P (connect_owned env w agent port current full)
  unfolding connect_owned create_agent_stream
  connect_owned_P w agent port current none h = refuse_P P inv.stable env w agent 0 _ h
  connect_owned_P w agent port current (some true) h = refuse_P P inv.stable env w agent 0 _ h
  connect_owned_P w agent port current (some false) h =
      agent_client_P w agent port current (get_active_client env w) h

  connect_port_P :
      (o : AgentOptions) (w : Server) (agent port : ℕ) → P w → P (connect_port env o w agent port)
  unfolding connect_port
  connect_port_P o w agent port h =
      either P (not (includes o.allowed_ports port)) (refuse_P P inv.stable env w agent 0 _ h) (
        either P
          (ltb 0 o.max_connections_per_port
            && leb o.max_connections_per_port (count_of port w.agent_counts))
          (refuse_P P inv.stable env w agent 0 _ h)
          (connect_owned_P w agent port (count_of port w.agent_counts)
            (is_full o.max_streams_per_agent (lookup agent w.agent_streams)) h))

  connect_to_P :
      (o : AgentOptions) (w : Server) (agent : ℕ) (port : Option ℕ)
      → P w
      → P (connect_to env o w agent port)
  unfolding connect_to
  connect_to_P o w agent none h = refuse_P P inv.stable env w agent 0 _ h
  connect_to_P o w agent (some port) h = connect_port_P o w agent port h

  handle_parsed_P :
      (o : AgentOptions) (w : Server) (agent : ℕ) (p : Parsed)
      → P w
      → P (handle_parsed env o w agent p)
  unfolding handle_parsed on_parsed handle_tcp_connect
  handle_parsed_P o w agent (err e) h = refuse_P P inv.stable env w agent 0 _ h
  handle_parsed_P o w agent (ok f) h =
      either P (f.type == 0x50)
        (either P (f.stream_id == 0)
          (either P (is_null (parse_json_payload env.parse_json f.payload default_limit))
            (refuse_P P inv.stable env w agent 0 _ h)
            (connect_to_P o w agent
              (port_of (parse_json_payload env.parse_json f.payload default_limit)) h))
          (refuse_P P inv.stable env w agent f.stream_id _ h))
        (to_entry_P P inv.stable env w agent f (lookup f.stream_id w.streams) h)

  with_id_P :
      (w : Server) (p : Server × Option ℕ) (ws : ℕ) (req : HttpRequest)
      → p.0.streams ≡ w.streams
      → ((id : ℕ) → p.1 ≡ some id → lookup id w.streams ≡ none)
      → HasRoom env w
      → P p.0
      → P (with_id env p ws req).0
  unfolding with_id open_request
  with_id_P w (w', none) ws req same free room h = h
  with_id_P w (w', some id) ws req same free room h =
      inv.requested env w' ws _ _ id good (rw same room) (rw same (free id refl)) h

  with_client_P :
      (w : Server) (req : HttpRequest) (o : Option ℕ)
      → HasRoom env w
      → P w
      → P (with_client env w req o).0
  unfolding with_client
  with_client_P w req none room h = h
  with_client_P w req (some ws) room h =
      with_id_P w (allocate_stream_id w) ws req (allocate_streams w) (allocate_stream_id-IsFree w)
        room (allocate_P w h)

  proxy_P : (w : Server) (req : HttpRequest) → P w → P (proxy_http_request env w req).0
  unfolding proxy_http_request
  proxy_P w req h =
      either (λ (p : Server × Answer). P p.0) (truthy (header "upgrade" req.headers)) h
        (either_of (λ (p : Server × Answer). P p.0)
          (leb env.max_concurrent_streams (length w.streams)) h
          (λ room. with_client_P w req (get_active_client env w) room h))

  module _ (w : Server) (r : ℕ) (s : Stream) (here : At w r s) (h : P w) where
    agent_sent_P : (amount : ℕ) (k : Socket) → P (agent_sent env w r s amount k)
    unfolding agent_sent
    agent_sent_P amount (virtual v) = with_socket_P P inv.stable env w r s here h s _ _ refl
    agent_sent_P amount _ = h

    stream_event_P : (e : StreamEvent) → P (handle_stream_event env w r s e)
    unfolding handle_stream_event on_response_close on_response_finish on_writer_finish
        on_writer_error on_pipeline_error on_request_error
    stream_event_P (socket_data chunk) = on_data_P P inv.stable env w r s here h chunk
    stream_event_P socket_close = on_close_P P inv.stable env w r s here h
    stream_event_P socket_drain = on_drain_P P inv.stable env w r s here h
    stream_event_P send_callback = on_sent_P P inv.stable env w r s here h
    stream_event_P idle_timeout =
        either P s.timer (abort_any_stream_P P inv.stable env w r s here h _ _) h
    stream_event_P (socket_error message) = on_error_P P inv.stable env w r s here h message
    stream_event_P (agent_send_callback amount) = agent_sent_P amount s.socket
    stream_event_P response_drain = on_response_drain_P P inv.stable env w r s here h
    stream_event_P response_close =
        either P (not s.cleaned && not s.response_ended)
          (abort_stream_P P inv.stable env w r s here h _ _) h
    stream_event_P response_finish =
        inv.stable.ended env _ r _ (At-put w r s _ here) (inv.stable.changed w r s _ here refl h)
    stream_event_P writer_finish =
        either P (s.cleaned || s.request_ended) h
          (update_P P inv.stable env w r s here h _ _ _ refl)
    stream_event_P writer_error = abort_stream_P P inv.stable env w r s here h _ _
    stream_event_P pipeline_error =
        either P s.cleaned h (abort_stream_P P inv.stable env w r s here h _ _)
    stream_event_P request_error = abort_stream_P P inv.stable env w r s here h _ _

  handle_P : (o : AgentOptions) (w : Server) (e : Event) → P w → P (handle env o w e)
  unfolding handle add_client connect_agent handle_agent_frame
  handle_P o w (client_open ws) h =
      either (λ (p : Server × Bool). P p.0) (leb env.max_tunnel_clients (length w.clients)) h
        (inv.stable.aside w _ _ _ h)
  handle_P o w (client_close ws) h = cleanup_client_P P inv.stable env w ws h
  handle_P o w (client_message ws bytes) h = handle_client_frame_P P inv.stable env w ws bytes h
  handle_P o w (agent_open ws) h = inv.stable.aside w _ _ _ h
  handle_P o w (agent_close ws reason) h = cleanup_agent_P P inv.stable env w ws reason h
  handle_P o w (agent_message ws bytes) h = handle_parsed_P o w ws (parse_frame bytes) h
  handle_P o w (connection ip_allowed port) h = handle_connection_P w ip_allowed port h
  handle_P o w (request req) h = proxy_P w req h
  handle_P o w (on_stream r e) h =
      at_stream_P P inv.stable w r _ h (λ s here. stream_event_P w r s here h e)

module _ (Ok : Env → Type 0) (P : Server → Type 0) (inv : IsInvariant Ok P) (o : AgentOptions) where
  pub step_P : (w : Server) (e : Env × Event) → Ok e.0 → P w → P (step o w e)
  unfolding step
  step_P w (env, e) good h =
      run_microtasks_P P inv.stable env _ (handle_P Ok P inv env good o w e h)

  pub run_P : (es : List (Env × Event)) (w : Server) → All (λ e. Ok e.0) es → P w → P (run o w es)
  unfolding run
  run_P [] w good h = h
  run_P (e ∷ es) w (good, later) h = run_P es (step o w e) later (step_P w e good h)

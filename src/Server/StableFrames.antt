-- ===== src/Server/StableFrames.antt =====
-- Every frame of a tunnel client keeps a stable property of the server's state.
use nodejs_wss_tunnel.Prelude.{
  ℕ, ◌≡◌, refl, Bool, true, false, not, ◌&&◌, ◌||◌, Option, none, some, String, List, ◌∷◌, ◌∙◌, ltb,
  ◌==◌,
}
use nodejs_wss_tunnel.Prelude.Maps.{lookup}
use nodejs_wss_tunnel.Protocol.{
  FrameType, Frame, Parsed, ok, err, parse_frame, of_code, res_meta, res_data, res_end, res_abort,
  pause, resume, tcp_data, tcp_close, tcp_abort, tcp_open_ack,
}
use nodejs_wss_tunnel.Protocol.Json.{
  raw, ParsedJson, doc, failed, parse_json_payload, default_limit,
}
use nodejs_wss_tunnel.Net.{Env, Effect, WriteResult, accepted, full, threw, message_or}
use nodejs_wss_tunnel.VirtualSocket.{VirtualSocket}
use nodejs_wss_tunnel.Server.State.{Server, Stream, Socket, absent, net, virtual, is_tcp}
use nodejs_wss_tunnel.Server.FlowControl.{is_gone}
use nodejs_wss_tunnel.Server.Streams.{abort_tcp_stream}
use nodejs_wss_tunnel.Server.ClientFrames.{
  takes_head, start_response, on_res_meta, response_written, on_res_data, pause_response,
  on_res_end, on_res_abort, on_peer_paused, backpressure, write_agent, socket_written, write_socket,
  on_tcp_data, on_tcp_open_ack, reject_agent, abort_by_client, abort_parsed, on_tcp_abort, on_frame,
  route, handle_client_frame, on_response_drain,
}
use nodejs_wss_tunnel.Server.Stable.{
  At, At-put, IsStable, key, either, update_P, abort_stream_P, abort_any_stream_P,
  abort_tcp_stream_P, at_stream_P, with_socket_P, sync_tcp_backpressure-key,
}

module _ (P : Server → Type 0) (stable : IsStable P) (env : Env) where
  module _ (w : Server) (r : ℕ) (s : Stream) (here : At w r s) (h : P w) where
    start_response_P : (p : ParsedJson) → P (start_response env w r s p)
    unfolding start_response
    start_response_P (failed e) = abort_any_stream_P P stable env w r s here h _ _
    start_response_P (doc d) =
        either P (d.is_null || is_tcp s.mode) (abort_any_stream_P P stable env w r s here h _ _) (
          either P (takes_head env w.log r s) (update_P P stable env w r s here h _ _ _ refl)
            (abort_stream_P P stable env w r s here h _ _))

    on_res_meta_P : (payload : List ℕ) → P (on_res_meta env w r s payload)
    unfolding on_res_meta
    on_res_meta_P payload =
        either P s.response_started (abort_stream_P P stable env w r s here h _ _)
          (start_response_P (parse_json_payload env.parse_json payload default_limit))

    pause_response_P : P (pause_response env w r s)
    unfolding pause_response
    pause_response_P = either P s.response_paused h (update_P P stable env w r s here h _ _ _ refl)

    backpressure_P : (s' : Stream) → key s' ≡ key s → P (backpressure env w r s')
    unfolding backpressure
    backpressure_P s' e = either P s'.ws_backpressured (stable.changed w r s s' here e h) (
        update_P P stable env w r s here h _ _ _
          (sync_tcp_backpressure-key env (record s' { ws_backpressured = true }) w.log ∙ e))

    on_res_end_P : P (on_res_end env w r s)
    unfolding on_res_end
    on_res_end_P =
        either P (not s.response_started) (abort_stream_P P stable env w r s here h _ _)
          (either P s.response_ended h (update_P P stable env w r s here h _ _ _ refl))

    on_res_abort_P : (payload : List ℕ) → P (on_res_abort env w r s payload)
    unfolding on_res_abort
    on_res_abort_P payload =
        either P (not s.response_started)
          (stable.ended env _ r _ (At-put w r s _ here)
            (update_P P stable env w r s here h _ _ _ refl))
          (either P (not s.response_ended) (stable.ended env _ r s here (stable.logged _ _ _ h))
            (stable.ended env w r s here h))

    on_peer_paused_P : (paused : Bool) → P (on_peer_paused env w r s paused)
    unfolding on_peer_paused
    on_peer_paused_P paused =
        either P (is_tcp s.mode)
          (with_socket_P P stable env w r s here h (record s { peer_paused_read = paused }) _ _
            refl)
          (either P s.request_writer (stable.logged _ _ _ h) h)

    on_tcp_open_ack_P : P (on_tcp_open_ack env w r s)
    unfolding on_tcp_open_ack
    on_tcp_open_ack_P =
        either P (not (is_tcp s.mode && s.awaiting_client_ack)) h
          (update_P P stable env w r s here h _ _ _ refl)

  module _ (w : Server) (r : ℕ) (s : Stream) (here : At w r s) (h : P w) where
    response_written_P :
        (payload : List ℕ) (result : WriteResult) → P (response_written env w r s payload result)
    unfolding response_written
    response_written_P payload threw = abort_stream_P P stable env w r s here h _ _
    response_written_P payload full = pause_response_P _ r s here (stable.logged _ _ _ h)
    response_written_P payload accepted = stable.logged _ _ _ h

    on_res_data_P : (payload : List ℕ) → P (on_res_data env w r s payload)
    unfolding on_res_data
    on_res_data_P payload =
        either P (not s.response_started) (abort_stream_P P stable env w r s here h _ _) (
          either P s.response_ended h (
            either P (ltb env.max_dest_buffer_bytes (env.writable_length r))
              (abort_stream_P P stable env w r s here h _ _)
              (response_written_P payload (env.response_write w.log r))))

    socket_written_P :
        (payload : List ℕ) (result : WriteResult) → P (socket_written env w r s payload result)
    unfolding socket_written
    socket_written_P payload threw = abort_tcp_stream_P P stable env w r s here h _ _
    socket_written_P payload full = backpressure_P _ r s here (stable.logged _ _ _ h) s refl
    socket_written_P payload accepted = stable.logged _ _ _ h

    write_agent_P : (v : VirtualSocket) (payload : List ℕ) → P (write_agent env w r s v payload)
    unfolding write_agent
    write_agent_P v payload =
        either P (env.send_throws w.log v.agent_ws) (backpressure_P w r s here h s refl) (
          either P
            (ltb env.ws_high_water (
              env.buffered_amount
                (Effect.frame v.agent_ws tcp_data v.stream_id (raw payload) ∷ w.log) v.agent_ws))
            (backpressure_P _ r s here (stable.logged _ _ _ h) _ refl) (stable.logged _ _ _ h))

    write_socket_P : (payload : List ℕ) (k : Socket) → P (write_socket env w r s payload k)
    unfolding write_socket
    write_socket_P payload absent = h
    write_socket_P payload (virtual v) =
        either P (env.is_open v.agent_ws) (write_agent_P v payload)
          (backpressure_P w r s here h s refl)
    write_socket_P payload (net n) = socket_written_P payload (env.socket_write w.log r)

    on_tcp_data_P : (payload : List ℕ) → P (on_tcp_data env w r s payload)
    unfolding on_tcp_data
    on_tcp_data_P payload =
        either P (not (is_tcp s.mode)) h
          (either P (is_gone s.socket) h (write_socket_P payload s.socket))

    rejected_P :
        (message : String) (agent : Option ℕ)
        → P (
            abort_tcp_stream env
              (reject_agent env w r s message agent).0
              r
              (reject_agent env w r s message agent).1
              message
              false)
    unfolding reject_agent
    rejected_P message none = abort_tcp_stream_P P stable env w r s here h _ _
    rejected_P message (some agent) =
        either (λ (p : Server × Stream). P (abort_tcp_stream env p.0 r p.1 message false))
          (s.awaiting_client_ack && env.is_open agent)
          (abort_tcp_stream_P P stable env _ r _ (At-put w r s _ here)
            (update_P P stable env w r s here h _ _ _ refl) _ _)
          (abort_tcp_stream_P P stable env w r s here h _ _)

    abort_by_client_P : (message : String) → P (abort_by_client env w r s message)
    unfolding abort_by_client
    abort_by_client_P message = rejected_P message s.agent_ws

    abort_parsed_P : (p : ParsedJson) → P (abort_parsed env w r s p)
    unfolding abort_parsed
    abort_parsed_P (failed e) = abort_by_client_P _
    abort_parsed_P (doc d) =
        either P d.is_null (abort_any_stream_P P stable env w r s here h _ _)
          (abort_by_client_P (message_or d.message "Client aborted"))

    on_tcp_abort_P : (payload : List ℕ) → P (on_tcp_abort env w r s payload)
    unfolding on_tcp_abort
    on_tcp_abort_P payload =
        either P (not (is_tcp s.mode)) h
          (abort_parsed_P (parse_json_payload env.parse_json payload default_limit))

    pub on_response_drain_P : P (on_response_drain env w r s)
    unfolding on_response_drain
    on_response_drain_P = either P s.cleaned h (update_P P stable env w r s here h _ _ _ refl)

  module _ (w : Server) (r : ℕ) (s : Stream) (here : At w r s) (h : P w) where
    pub on_frame_P : (t : Option FrameType) (payload : List ℕ) → P (on_frame env w r s t payload)
    unfolding on_frame
    on_frame_P none payload = h
    on_frame_P (some res_meta) payload = on_res_meta_P w r s here h payload
    on_frame_P (some res_data) payload = on_res_data_P w r s here h payload
    on_frame_P (some res_end) payload = on_res_end_P w r s here h
    on_frame_P (some res_abort) payload = on_res_abort_P w r s here h payload
    on_frame_P (some pause) payload = on_peer_paused_P w r s here h true
    on_frame_P (some resume) payload = on_peer_paused_P w r s here h false
    on_frame_P (some tcp_data) payload = on_tcp_data_P w r s here h payload
    on_frame_P (some tcp_close) payload =
        either P (is_tcp s.mode) (stable.ended_tcp env w r s here h) h
    on_frame_P (some tcp_open_ack) payload = on_tcp_open_ack_P w r s here h
    on_frame_P (some tcp_abort) payload = on_tcp_abort_P w r s here h payload
    on_frame_P (some _) payload = h

  route_P : (w : Server) (ws : ℕ) (f : Frame) (r : ℕ) → P w → P (route env w ws f r)
  unfolding route
  route_P w ws f r h = at_stream_P P stable w r _ h λ s here.
      either P (s.ws == ws)
        (on_frame_P _ r _ (At-put w r s _ here) (stable.changed w r s _ here refl h)
          (of_code f.type) f.payload)
        h

  pub handle_client_frame_P :
      (w : Server) (ws : ℕ) (bytes : List ℕ) → P w → P (handle_client_frame env w ws bytes)
  unfolding handle_client_frame
  handle_client_frame_P w ws bytes h = go (parse_frame bytes)
    where
      found : (f : Frame) (o : Option ℕ) → P (elim o [ none ↦ w | some r ↦ route env w ws f r ])
      found f none = h
      found f (some r) = route_P w ws f r h

      go :
          (p : Parsed)
          → P (elim p [
            | err e ↦ w
            | ok f ↦ elim (lookup f.stream_id w.streams) [ none ↦ w | some r ↦ route env w ws f r ]
          ])
      go (err e) = h
      go (ok f) = found f (lookup f.stream_id w.streams)

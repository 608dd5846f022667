-- ===== src/TunnelClient/KeptRun.antt =====
-- Every event of the tunnel client keeps what `Kept` asks for.
use nodejs_wss_tunnel.Prelude.{
  if◌then◌else◌, ℕ, ◌+◌, ◌<◌, ◌≡◌, refl, true, false, not, ◌||◌, Option, none, some, String, List,
  [], ◌∷◌, get_elem?, length, leb, All, arith, ◌==◌,
}
use nodejs_wss_tunnel.Prelude.Maps.{lookup, has}
use nodejs_wss_tunnel.Server.Stable.{either, either_of}
use nodejs_wss_tunnel.Protocol.{FrameType, Frame, Parsed, ok, err, of_code, parse_frame}
use nodejs_wss_tunnel.Protocol.Json.{
  Doc, ParsedJson, doc, failed, parse_json_payload, default_limit,
}
use nodejs_wss_tunnel.TunnelClient.{
  Client, ClientStream, ClientEnv, ClientEffect, ClientMode, http, tcp, put_stream, log_effect,
  crash,
}
use nodejs_wss_tunnel.TunnelClient.Streams.{cleanup_all_streams}
use nodejs_wss_tunnel.TunnelClient.Tcp.{
  open_tcp, handle_tcp_open, on_local_data, handle_tcp_data, on_tcp_frame, new_tcp_stream, contains,
  register,
}
use nodejs_wss_tunnel.TunnelClient.Http.{
  forward, open_http, handle_req_meta, on_writer_finish, new_http_stream, streams_body,
}
use nodejs_wss_tunnel.TunnelClient.Events.{
  is_null, on_stream_frame, to_stream, to_entry, on_frame, handle_parsed, handle_server_frame,
  connect, on_open, schedule_reconnect, on_close, disconnected, shutdown, LocalEvent, response,
  writer_finish, writer_error, request_timeout, idle, pipeline_error, request_error, socket_connect,
  socket_drain, socket_sent, socket_timeout, socket_close, socket_data, socket_error, handle_local,
  ClientEvent, opened, closed, auth_refused, reconnect_timer, signal, local, on_message,
  client_handle, client_run,
}
use nodejs_wss_tunnel.TunnelClient.Events
use nodejs_wss_tunnel.TunnelClient.Kept
use nodejs_wss_tunnel.TunnelClient.Kept.{IsKept, Here, client_key, set-Here, last-Here}

module _ (Ok : ClientEnv → Type 0) (Q : List ClientStream → List (ℕ × ℕ) → Type 0)
    (kept : IsKept Ok Q) where
  abbrev K : Client → Type 0
  K c = Q c.heap c.streams

  module _ (env : ClientEnv) (c : Client) (r : ℕ) (s : ClientStream) (here : Here c.heap r s)
      (h : K c) where
    after :
        (s' : ClientStream)
        → client_key s' ≡ client_key s
        → Here (put_stream c r s').heap r s' × K (put_stream c r s')
    after s' e = (set-Here c.heap r s s' here, kept.changed c.heap c.streams r s s' here e h)

    on_local_data-K : (chunk : List ℕ) → K (on_local_data env c r s chunk)
    unfolding on_local_data
    on_local_data-K chunk =
        let s' = record s { timer = true } in
        let s'' = record s { timer = true; pending_sends = s.pending_sends + 1 } in
        let (here', h') = after s' refl in
        let (here'', h'') = after s'' refl in
        either K (not s.local_connected || s.cleaned) h (
          either K (not (env.is_open s.ws))
            (Kept.abort_tcp-K Ok Q kept env (put_stream c r s') r s' here' h' "WebSocket closed")
            (either K (env.send_throws c.log s.ws)
              (Kept.abort_tcp-K Ok Q kept env (put_stream c r s'') r s'' here'' h''
                "Failed to send TCP_DATA")
              (Kept.throttle_socket-K Ok Q kept env
                (log_effect (put_stream c r s'') (
                  ClientEffect.frame s.ws FrameType.tcp_data s.id
                    (nodejs_wss_tunnel.Protocol.Json.raw chunk)))
                r s'' here'' h'')))

    on_writer_finish-K : K (on_writer_finish env c r s)
    unfolding on_writer_finish
    on_writer_finish-K =
        let s' = record s { response_ended = true } in
        let (here', h') = after s' refl in
        either K (s.cleaned || s.response_ended) h (Kept.cleanup_stream-K Ok Q kept _ r s' here' h')

    handle_tcp_data-K : (payload : List ℕ) → K (handle_tcp_data env c r s payload)
    unfolding handle_tcp_data
    handle_tcp_data-K payload =
        either K (not s.has_socket || env.socket_destroyed c.log r) h
          (Kept.socket_written-K Ok Q kept env c r s here h payload (env.socket_write c.log r))

    on_tcp_frame-K :
        (mode : ClientMode) (t : FrameType) (payload : List ℕ)
        → K (on_tcp_frame env c r s mode t payload)
    unfolding on_tcp_frame
    on_tcp_frame-K http t payload = h
    on_tcp_frame-K tcp FrameType.tcp_data payload = handle_tcp_data-K payload
    on_tcp_frame-K tcp FrameType.tcp_close payload = Kept.cleanup_tcp_state-K Ok Q kept c r s here h
    on_tcp_frame-K tcp FrameType.tcp_abort payload =
        Kept.handle_tcp_abort-K Ok Q kept env c r s here h
          (parse_json_payload env.parse_json payload default_limit)
    on_tcp_frame-K tcp _ payload = h

    on_stream_frame-K :
        (t : Option FrameType) (payload : List ℕ) → K (on_stream_frame env c r s t payload)
    unfolding on_stream_frame
    on_stream_frame-K (some FrameType.tcp_data) payload =
        on_tcp_frame-K s.mode FrameType.tcp_data payload
    on_stream_frame-K (some FrameType.tcp_close) payload =
        on_tcp_frame-K s.mode FrameType.tcp_close payload
    on_stream_frame-K (some FrameType.tcp_abort) payload =
        on_tcp_frame-K s.mode FrameType.tcp_abort payload
    on_stream_frame-K (some FrameType.pause) payload =
        Kept.set_paused-K Ok Q kept env c r s here h s.mode true
    on_stream_frame-K (some FrameType.resume) payload =
        Kept.set_paused-K Ok Q kept env c r s here h s.mode false
    on_stream_frame-K (some FrameType.req_data) payload =
        Kept.handle_req_data-K Ok Q kept env c r s here h payload
    on_stream_frame-K (some FrameType.req_end) payload =
        Kept.handle_req_end-K Ok Q kept env c r s here h
    on_stream_frame-K (some FrameType.req_abort) payload =
        Kept.handle_req_abort-K Ok Q kept env c r s here h
    on_stream_frame-K _ payload = h

    handle_local-K : (e : LocalEvent) → K (handle_local env c r s e)
    unfolding handle_local
    handle_local-K (response status headers) =
        Kept.on_response-K Ok Q kept env c r s here h status headers
    handle_local-K writer_finish = on_writer_finish-K
    handle_local-K writer_error =
        Kept.send_res_abort-K Ok Q kept env c r s here h "Response writer error"
    handle_local-K (pipeline_error text) =
        Kept.send_res_abort-K Ok Q kept env c r s here h
          (Prim.Native.String.◌++◌ "Response pipeline error: " text)
    handle_local-K (request_error text) =
        Kept.send_res_abort-K Ok Q kept env c r s here h
          (Prim.Native.String.◌++◌ "Local request error: " text)
    handle_local-K request_timeout = Kept.on_request_timeout-K Ok Q kept env c r s here h
    handle_local-K idle =
        either K s.timer (Kept.send_res_abort-K Ok Q kept env c r s here h "Stream idle timeout") h
    handle_local-K socket_connect = Kept.on_connect-K Ok Q kept env c r s here h
    handle_local-K socket_drain = Kept.on_local_drain-K Ok Q kept env c r s here h
    handle_local-K (socket_data chunk) = on_local_data-K chunk
    handle_local-K socket_sent = Kept.on_local_sent-K Ok Q kept env c r s here h
    handle_local-K socket_timeout = Kept.on_local_timeout-K Ok Q kept env c r s here h
    handle_local-K socket_close = Kept.on_local_close-K Ok Q kept env c r s here h
    handle_local-K (socket_error text) = Kept.on_local_error-K Ok Q kept env c r s here h text

  module _ (env : ClientEnv) (good : Ok env) where
    to_entry-K :
        (c : Client) (ws : ℕ) (t : Option FrameType) (payload : List ℕ) (o : Option ℕ)
        → K c
        → K (to_entry env c ws t payload o)
    unfolding to_stream
    to_entry-K c ws t payload none h = h
    to_entry-K c ws t payload (some r) h =
        Kept.at_stream-K Ok Q kept c (get_elem? c.heap r) (to_stream env c ws t payload r)
          (λ s here.
            let s' = record s { timer = true } in
            let (here', h') = after env c r s here h s' refl in
            either K (s.ws == ws)
              (on_stream_frame-K env (put_stream c r s') r s' here' h' t payload) h)
          h

    handle_tcp_open-K :
        (c : Client) (ws id : ℕ) (p : ParsedJson) → K c → K (handle_tcp_open env c ws id p)
    unfolding handle_tcp_open open_tcp
    handle_tcp_open-K c ws id (failed _) h = h
    handle_tcp_open-K c ws id (doc d) h = either K d.is_null h (
        either K (not (contains env.allowed_hosts d.host)) h (
          either_of K (leb env.max_concurrent_streams (length c.streams)) h (λ room.
            kept.added env c.heap c.streams (new_tcp_stream id ws) good (ground arith) refl h)))

    forward-K :
        (c : Client) (r : ℕ) (s : ClientStream) (d : Doc) (o : Option String)
        → Here c.heap r s
        → K c
        → K (forward env c r s d o)
    unfolding forward
    forward-K c r s d (some text) here h =
        Kept.send_res_abort-K Ok Q kept env c r s here h
          (Prim.Native.String.◌++◌ "Failed to connect to local target: " text)
    forward-K c r s d none here h =
        let (here', h') = after env c r s here h (record s { has_request = true }) refl in
        either K (streams_body d) h' h'

    open_http-K :
        (c : Client) (ws id : ℕ) (p : ParsedJson)
        → length c.streams < env.max_concurrent_streams
        → K c
        → K (open_http env c ws id p)
    unfolding open_http
    open_http-K c ws id (failed _) room h = h
    open_http-K c ws id (doc d) room h =
        forward-K (register c (new_http_stream id ws)) (length c.heap) (new_http_stream id ws) d
          (env.request_error d) (last-Here c.heap (new_http_stream id ws))
          (kept.added env c.heap c.streams (new_http_stream id ws) good room refl h)

    handle_req_meta-K :
        (c : Client) (ws id : ℕ) (p : ParsedJson) → K c → K (handle_req_meta env c ws id p)
    unfolding handle_req_meta
    handle_req_meta-K c ws id p h =
        either_of K (leb env.max_concurrent_streams (length c.streams)) h
          (λ room. either K (has id c.streams) h (open_http-K c ws id p (ground arith) h))

    on_frame-K :
        (c : Client) (ws : ℕ) (f : Frame) (t : Option FrameType) → K c → K (on_frame env c ws f t)
    unfolding on_frame
    on_frame-K c ws f (some FrameType.req_meta) h = handle_req_meta-K c ws f.stream_id _ h
    on_frame-K c ws f (some FrameType.tcp_open) h =
        either K (is_null (parse_json_payload env.parse_json f.payload env.max_frame_payload))
          {x = crash c} h (handle_tcp_open-K c ws f.stream_id _ h)
    on_frame-K c ws f t h = to_entry-K c ws t f.payload (lookup f.stream_id c.streams) h

    handle_parsed-K : (c : Client) (ws : ℕ) (p : Parsed) → K c → K (handle_parsed env c ws p)
    unfolding handle_parsed
    handle_parsed-K c ws (err _) h = h
    handle_parsed-K c ws (ok f) h = on_frame-K c ws f (of_code f.type) h

    on_message-K : (c : Client) (o : Option ℕ) (bytes : List ℕ) → K c → K (on_message env c o bytes)
    unfolding on_message handle_server_frame
    on_message-K c none bytes h = h
    on_message-K c (some ws) bytes h = handle_parsed-K c ws (parse_frame bytes) h

    schedule_reconnect-K : (c : Client) → K c → K (schedule_reconnect c)
    unfolding schedule_reconnect
    schedule_reconnect-K c h = either K (c.auth_failed || c.shutting_down) h h

    pub client_handle-K : (c : Client) (e : ClientEvent) → K c → K (client_handle env c e)
    unfolding client_handle on_open on_close connect shutdown
    client_handle-K c opened h = h
    client_handle-K c closed h =
        schedule_reconnect-K (cleanup_all_streams (disconnected c))
          (Kept.cleanup_all_streams-K Ok Q kept (disconnected c) h)
    client_handle-K c auth_refused h = h
    client_handle-K c reconnect_timer h = h
    client_handle-K c signal h = either K c.shutting_down h h
    client_handle-K c (Events.message bytes) h = on_message-K c c.web_socket bytes h
    client_handle-K c (local r e) h =
        Kept.at_stream-K Ok Q kept c (get_elem? c.heap r) (λ s. handle_local env c r s e)
          (λ s here. handle_local-K env c r s here h e) h

  pub client_run-K :
      (c : Client) (es : List (ClientEnv × ClientEvent))
      → All (λ e. Ok e.0) es
      → K c
      → K (client_run c es)
  unfolding client_run
  client_run-K c [] good h = h
  client_run-K c ((env, e) ∷ es) (g, good) h =
      client_run-K (if c.crashed then c else client_handle env c e) es good
        (either K c.crashed h (client_handle-K env g c e h))

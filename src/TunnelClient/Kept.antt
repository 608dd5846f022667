-- ===== src/TunnelClient/Kept.antt =====
-- What a property of the tunnel client's objects and map has to be kept by, so that every event of the
-- client keeps it: an object changes, ends, or is added.
use nodejs_wss_tunnel.Prelude.{
  ℕ, ◌-◌, ◌<◌, ◌≡◌, refl, Bool, true, false, not, ◌&&◌, ◌||◌, Option, none, some, String, List, [],
  ◌∷◌, ◌++◌, get_elem?, set, length, leb, ltb, ◌==◌,
}
use nodejs_wss_tunnel.Prelude.Maps.{lookup, insert, remove}
use nodejs_wss_tunnel.Server.Stable.{either, either_of}
use nodejs_wss_tunnel.Protocol.Json.{ParsedJson, doc, failed}
use nodejs_wss_tunnel.Net.{WriteResult, accepted, full, threw}
use nodejs_wss_tunnel.TunnelClient.{
  Client, ClientStream, ClientEnv, ClientMode, http, tcp, put_stream, log_effect, at_stream,
  destroy_request,
}
use nodejs_wss_tunnel.TunnelClient.Streams.{
  cleanup_stream, send_res_abort, cleanup_tcp_state, cleanup_tcp_only, visit, each_stream,
  cleanup_tcp_streams, cleanup_http_streams, cleanup_all_streams,
}
use nodejs_wss_tunnel.TunnelClient.Tcp.{
  sync_socket, on_connect, on_local_drain, abort_tcp, throttle_socket, on_local_sent,
  on_local_timeout, on_local_close, on_local_error, socket_written, handle_tcp_abort, set_paused,
}
use nodejs_wss_tunnel.TunnelClient.Http.{
  on_response, on_request_timeout, handle_req_data, handle_req_end, handle_req_abort,
}

-- The fields of an object that only its making and its end change.
abbrev pub client_key : ClientStream → ℕ × Bool × Bool
client_key s = (s.id, s.cleaned, s.has_socket)

abbrev pub Here : List ClientStream → ℕ → ClientStream → Type 0
Here heap r s = get_elem? heap r ≡ some s

pub record IsKept (Ok : ClientEnv → Type 0) (Q : List ClientStream → List (ℕ × ℕ) → Type 0)
    : Type 0 where
  pub changed :
      (heap : List ClientStream) (m : List (ℕ × ℕ)) (r : ℕ) (s s' : ClientStream)
      → Here heap r s
      → client_key s' ≡ client_key s
      → Q heap m
      → Q (set heap r s') m
  pub ended :
      (heap : List ClientStream) (m : List (ℕ × ℕ)) (r : ℕ) (s s' : ClientStream)
      → Here heap r s
      → s.cleaned ≡ false
      → s'.id ≡ s.id
      → s'.cleaned ≡ true
      → Q heap m
      → Q (set heap r s') (remove s.id m)
  pub added :
      (env : ClientEnv) (heap : List ClientStream) (m : List (ℕ × ℕ)) (s : ClientStream)
      → Ok env
      → length m < env.max_concurrent_streams
      → s.cleaned ≡ false
      → Q heap m
      → Q (heap ++ s ∷ []) (insert s.id (length heap) m)

pub set-Here :
    (heap : List ClientStream) (r : ℕ) (s s' : ClientStream)
    → Here heap r s
    → Here (set heap r s') r s'
set-Here [] r s s' h = cc
set-Here (x ∷ heap) ℕ.zero s s' h = refl
set-Here (x ∷ heap) (ℕ.suc r) s s' h = set-Here heap r s s' h

pub last-Here :
    (heap : List ClientStream) (s : ClientStream) → Here (heap ++ s ∷ []) (length heap) s
last-Here [] s = refl
last-Here (x ∷ heap) s = last-Here heap s

module _ (Ok : ClientEnv → Type 0) (Q : List ClientStream → List (ℕ × ℕ) → Type 0)
    (kept : IsKept Ok Q) where
  abbrev pub K : Client → Type 0
  K c = Q c.heap c.streams

  pub cleanup_stream-K :
      (c : Client) (r : ℕ) (s : ClientStream) → Here c.heap r s → K c → K (cleanup_stream c r s)
  unfolding cleanup_stream
  cleanup_stream-K c r s here h =
      either_of K s.cleaned h (λ live. kept.ended c.heap c.streams r s _ here live refl refl h)

  pub cleanup_tcp_state-K :
      (c : Client) (r : ℕ) (s : ClientStream) → Here c.heap r s → K c → K (cleanup_tcp_state c r s)
  unfolding cleanup_tcp_state
  cleanup_tcp_state-K c r s here h =
      either_of K s.cleaned h (λ live. kept.ended c.heap c.streams r s _ here live refl refl h)

  pub cleanup_tcp_only-K :
      (c : Client) (r : ℕ) (mode : ClientMode) (s : ClientStream)
      → Here c.heap r s
      → K c
      → K (cleanup_tcp_only c r mode s)
  unfolding cleanup_tcp_only
  cleanup_tcp_only-K c r http s here h = h
  cleanup_tcp_only-K c r tcp s here h = cleanup_tcp_state-K c r s here h

  pub at_stream-K :
      (c : Client) (o : Option ClientStream) (f : ClientStream → Client)
      → ((s : ClientStream) → o ≡ some s → K (f s))
      → K c
      → K (at_stream c o f)
  at_stream-K c none f g h = h
  at_stream-K c (some s) f g h = g s refl

  pub visit-K :
      (f : Client → ℕ → ClientStream → Client)
      → ((c : Client) (r : ℕ) (s : ClientStream) → Here c.heap r s → K c → K (f c r s))
      → (c : Client) (o : Option ℕ) → K c
      → K (visit f c o)
  visit-K f g c none h = h
  visit-K f g c (some r) h = at_stream-K c (get_elem? c.heap r) (f c r) (λ s here. g c r s here h) h

  pub each_stream-K :
      (f : Client → ℕ → ClientStream → Client)
      → ((c : Client) (r : ℕ) (s : ClientStream) → Here c.heap r s → K c → K (f c r s))
      → (keys : List (ℕ × ℕ)) (c : Client) → K c
      → K (each_stream f keys c)
  unfolding each_stream
  each_stream-K f g [] c h = h
  each_stream-K f g ((id, r) ∷ keys) c h =
      each_stream-K f g keys (visit f c (lookup id c.streams))
        (visit-K f g c (lookup id c.streams) h)

  pub cleanup_tcp_streams-K : (c : Client) → K c → K (cleanup_tcp_streams c)
  unfolding cleanup_tcp_streams
  cleanup_tcp_streams-K c h =
      each_stream-K (λ c r s. cleanup_tcp_only c r s.mode s)
        (λ c r s. cleanup_tcp_only-K c r s.mode s) c.streams c h

  pub cleanup_http_streams-K : (c : Client) → K c → K (cleanup_http_streams c)
  unfolding cleanup_http_streams
  cleanup_http_streams-K c h = each_stream-K cleanup_stream cleanup_stream-K c.streams c h

  pub cleanup_all_streams-K : (c : Client) → K c → K (cleanup_all_streams c)
  unfolding cleanup_all_streams
  cleanup_all_streams-K c h =
      cleanup_http_streams-K (cleanup_tcp_streams c) (cleanup_tcp_streams-K c h)

  -- The other operations, on the object `r`, which is `s`.
  module _ (env : ClientEnv) (c : Client) (r : ℕ) (s : ClientStream) (here : Here c.heap r s)
      (h : K c) where
    pub changed-K : (s' : ClientStream) → client_key s' ≡ client_key s → K (put_stream c r s')
    changed-K s' e = kept.changed c.heap c.streams r s s' here e h

    pub send_res_abort-K : (text : String) → K (send_res_abort env c r s text)
    unfolding send_res_abort
    send_res_abort-K text = either K s.cleaned h (cleanup_stream-K _ r s here h)

    pub abort_tcp-K : (text : String) → K (abort_tcp env c r s text)
    unfolding abort_tcp
    abort_tcp-K text = cleanup_tcp_state-K _ r s here h

    pub sync_socket-K : K (sync_socket env c r s)
    unfolding sync_socket
    sync_socket-K =
        either K (not s.has_socket || env.socket_destroyed c.log r) h
          (either K (s.peer_paused_read || s.local_paused_for_ws) h h)

  module _ (env : ClientEnv) (c : Client) (r : ℕ) (s : ClientStream) (here : Here c.heap r s)
      (h : K c) where
    -- The object changed first.
    pub put-Here : (s' : ClientStream) → Here (put_stream c r s').heap r s'
    put-Here s' = set-Here c.heap r s s' here

    pub keep : (s' : ClientStream) → client_key s' ≡ client_key s → K (put_stream c r s')
    keep s' e = kept.changed c.heap c.streams r s s' here e h

    pub throttle_socket-K : K (throttle_socket env c r s)
    unfolding throttle_socket
    throttle_socket-K =
        let s' = record s { local_paused_for_ws = true } in
        either K
          (ltb env.ws_high_water (env.buffered_amount c.log s.ws) && not s.local_paused_for_ws)
          (sync_socket-K env (put_stream c r s') r s' (put-Here s') (keep s' refl)) h

    pub on_connect-K : K (on_connect env c r s)
    unfolding on_connect
    on_connect-K = keep _ refl

    pub on_local_drain-K : K (on_local_drain env c r s)
    unfolding on_local_drain
    on_local_drain-K =
        either K (not s.local_connected || s.cleaned) h
          (either K (s.local_write_backpressured && env.is_open s.ws) (keep _ refl) h)

    pub on_local_sent-K : K (on_local_sent env c r s)
    unfolding on_local_sent
    on_local_sent-K =
        let s'' = record s { pending_sends = s.pending_sends - 1; local_paused_for_ws = false } in
        either K
          (not s.cleaned
            && s.local_paused_for_ws
            && s.pending_sends - 1 == 0
            && leb (env.buffered_amount c.log s.ws) env.ws_low_water)
          (sync_socket-K env (put_stream c r s'') r s'' (put-Here s'') (keep s'' refl))
          (keep _ refl)

    pub on_local_timeout-K : K (on_local_timeout env c r s)
    unfolding on_local_timeout
    on_local_timeout-K =
        either K s.cleaned h
          (either K (not s.local_connected) (abort_tcp-K env c r s here h "TCP connect timeout") h)

    pub on_local_close-K : K (on_local_close env c r s)
    unfolding on_local_close
    on_local_close-K = either K s.cleaned h (cleanup_tcp_state-K _ r s here h)

    pub on_local_error-K : (text : String) → K (on_local_error env c r s text)
    unfolding on_local_error
    on_local_error-K text = either K s.cleaned h (abort_tcp-K env c r s here h text)

    pub socket_written-K :
        (payload : List ℕ) (w : WriteResult) → K (socket_written env c r s payload w)
    unfolding socket_written
    socket_written-K payload threw = abort_tcp-K env c r s here h _
    socket_written-K payload accepted = h
    socket_written-K payload full = either K s.local_write_backpressured h (keep _ refl)

    pub on_response-K :
        (status : ℕ) (headers : List (String × String)) → K (on_response env c r s status headers)
    unfolding on_response
    on_response-K status headers = either K s.cleaned h (keep _ refl)

    pub on_request_timeout-K : K (on_request_timeout c r s)
    unfolding on_request_timeout
    on_request_timeout-K = either K s.cleaned h h

    pub handle_req_data-K : (payload : List ℕ) → K (handle_req_data env c r s payload)
    unfolding handle_req_data
    handle_req_data-K payload = either K (s.cleaned || not s.has_request) h (
        either K (env.request_write_throws c.log r)
          (send_res_abort-K env c r s here h "Failed to write to local request") h)

    pub handle_req_end-K : K (handle_req_end c r s)
    unfolding handle_req_end
    handle_req_end-K = either K (s.cleaned || not s.has_request) h (keep _ refl)

    pub handle_req_abort-K : K (handle_req_abort env c r s)
    unfolding handle_req_abort
    handle_req_abort-K =
        either (λ c'. K (cleanup_stream c' r s))
          (s.has_request && not (env.request_destroyed c.log r))
          (cleanup_stream-K (log_effect c (destroy_request r)) r s here h)
          (cleanup_stream-K c r s here h)

    pub handle_tcp_abort-K : (p : ParsedJson) → K (handle_tcp_abort env c r s p)
    unfolding handle_tcp_abort
    handle_tcp_abort-K (failed _) = cleanup_tcp_state-K c r s here h
    handle_tcp_abort-K (doc d) =
        either K d.is_null (send_res_abort-K env c r s here h "Bad frame from server")
          (cleanup_tcp_state-K c r s here h)

    pub set_paused-K : (mode : ClientMode) (paused : Bool) → K (set_paused env c r s mode paused)
    unfolding set_paused
    set_paused-K http paused = either K s.has_writer h h
    set_paused-K tcp paused =
        let s' = record s { peer_paused_read = paused } in
        sync_socket-K env (put_stream c r s') r s' (put-Here s') (keep s' refl)

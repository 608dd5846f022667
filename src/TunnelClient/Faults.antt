-- ===== src/TunnelClient/Faults.antt =====
-- Where the tunnel client loses a local socket or a request's body.
use nodejs_wss_tunnel.Prelude.{
  ℕ, ◌<◌, ◌≡◌, ◌≢◌, refl, sym, ap, subst, is_some, ◌∙◌, inl, inr, true, false, none, some, List, [],
  ◌∷◌, ◌++◌, get_elem?-set, get_elem?-append, set, length, leb, All, arith, not, Bool-cases, ◌==◌,
}
use nodejs_wss_tunnel.Prelude.Maps.{lookup, remove, has, lookup-insert}
use nodejs_wss_tunnel.Protocol.Json.{Doc, doc}
use nodejs_wss_tunnel.Server.Stable.{when_true, when_false}
use nodejs_wss_tunnel.TunnelClient.{
  put_stream, crash, Client, ClientStream, ClientEnv, ClientEffect, start_request, write_request,
  end_request,
}
use nodejs_wss_tunnel.TunnelClient.Streams.{send_res_abort, cleanup_stream}
use nodejs_wss_tunnel.TunnelClient.Tcp.{contains, open_tcp, handle_tcp_open, register}
use nodejs_wss_tunnel.TunnelClient.Http.{
  forward, open_http, handle_req_meta, handle_req_data, new_http_stream, local_headers,
  streams_body,
}
use nodejs_wss_tunnel.TunnelClient.Events.{idle, handle_local, ClientEvent, client_run}
use nodejs_wss_tunnel.TunnelClient.Kept.{IsKept, Here, client_key, set-Here, last-Here}
use nodejs_wss_tunnel.TunnelClient.KeptRun.{client_run-K}
use nodejs_wss_tunnel.TunnelClient.Registry.{IsRegistered, AnyEnv}

-- The object `i` is cleaned up and still has its local socket.
abbrev pub IsAbandoned : ℕ → List ClientStream → List (ℕ × ℕ) → Type 0
IsAbandoned i heap m =
    (s : ClientStream) × Here heap i s × (s.cleaned ≡ true) × (s.has_socket ≡ true)

changed-IsAbandoned :
    (i : ℕ) (heap : List ClientStream) (m : List (ℕ × ℕ)) (r : ℕ) (s s' : ClientStream)
    → Here heap r s
    → client_key s' ≡ client_key s
    → IsAbandoned i heap m
    → IsAbandoned i (set heap r s') m
changed-IsAbandoned i heap m r s s' here e (t, there, dead, socket) =
    elim (get_elem?-set heap r i s s' here) [
      | inl (eq, now) ↦ (
        s',
        now,
        ground (arith, here, there, ap (λ k. k.1) e),
        ground (arith, here, there, ap (λ k. k.2) e),
      )
      | inr (_, kept) ↦ (t, kept ∙ there, dead, socket)
    ]

ended-IsAbandoned :
    (i : ℕ) (heap : List ClientStream) (m m' : List (ℕ × ℕ)) (r : ℕ) (s s' : ClientStream)
    → Here heap r s
    → s.cleaned ≡ false
    → IsAbandoned i heap m
    → IsAbandoned i (set heap r s') m'
ended-IsAbandoned i heap m m' r s s' here live (t, there, dead, socket) =
    elim (get_elem?-set heap r i s s' here) [
      | inl (eq, now) ↦ absurd (ground (arith, here, there))
      | inr (_, kept) ↦ (t, kept ∙ there, dead, socket)
    ]

IsAbandoned-IsKept : (i : ℕ) → IsKept AnyEnv (IsAbandoned i)
IsAbandoned-IsKept i = record {
  changed = changed-IsAbandoned i;
  ended = λ heap m r s s' here live same dead h.
      ended-IsAbandoned i heap m (remove s.id m) r s s' here live h;
  added =
      λ env heap m s good room live h. (h.0, get_elem?-append heap (s ∷ []) i h.0 h.1, h.2, h.3);
}

nothing_asked : (es : List (ClientEnv × ClientEvent)) → All (λ e. AnyEnv e.0) es
nothing_asked [] = tt
nothing_asked (e ∷ es) = (tt, nothing_asked es)

idle-IsAbandoned :
    (env : ClientEnv) (c : Client) (r : ℕ) (s : ClientStream)
    → Here c.heap r s
    → s.cleaned ≡ false
    → s.has_socket ≡ true
    → s.timer ≡ true
    → IsAbandoned r (handle_local env c r s idle).heap (handle_local env c r s idle).streams
unfolding handle_local send_res_abort cleanup_stream
idle-IsAbandoned env c r s here live socket timer = when_true P s.timer c timer (
    when_false P s.cleaned c live
      (when_false P s.cleaned _ live (_, set-Here c.heap r s _ here, refl, socket)))
  where
    P : Client → Type 0
    P x = IsAbandoned r x.heap x.streams

-- The idle timeout of a live stream that has a local socket cleans the object up and leaves the socket
-- with it; and whatever happens to the client afterwards, the object stays cleaned up with its socket.
pub client_run-IsAbandoned :
    (env : ClientEnv) (c : Client) (r : ℕ) (s : ClientStream) (es : List (ClientEnv × ClientEvent))
    → Here c.heap r s
    → s.cleaned ≡ false
    → s.has_socket ≡ true
    → s.timer ≡ true
    → IsAbandoned r
        (client_run (handle_local env c r s idle) es).heap
        (client_run (handle_local env c r s idle) es).streams
client_run-IsAbandoned env c r s es here live socket timer =
    client_run-K AnyEnv (IsAbandoned r) (IsAbandoned-IsKept r) (handle_local env c r s idle) es
      (nothing_asked es) (idle-IsAbandoned env c r s here live socket timer)

-- The object of a new HTTP stream once its request is made, and the client then.
abbrev pub requested : ℕ → ℕ → ClientStream
requested id ws = record (new_http_stream id ws) { has_request = true }

abbrev pub served : ClientEnv → Client → ℕ → ℕ → Doc → Client
served env c ws id d =
    record (put_stream (register c (new_http_stream id ws)) (length c.heap) (requested id ws)) {
      log =
          end_request (length c.heap)
          ∷ start_request (length c.heap) d.method (local_headers env d)
          ∷ c.log;
    }

module _ (env : ClientEnv) (c : Client) (ws id : ℕ) (d : Doc)
    (room : length c.streams < env.max_concurrent_streams) (fresh : lookup id c.streams ≡ none)
    (fine : env.request_error d ≡ none) (no_body : d.has_body ≡ false) where
  handle_req_meta-ends : handle_req_meta env c ws id (doc d) ≡ served env c ws id d
  unfolding handle_req_meta open_http forward has
  handle_req_meta-ends =
      when_false P (leb env.max_concurrent_streams (length c.streams)) _ (ground arith) (
        when_false P (has id c.streams) _ (ap is_some fresh) (
          subst
            (λ o. P (
              forward env (register c (new_http_stream id ws)) (length c.heap)
                (new_http_stream id ws) d o))
            (sym fine) (when_false P (streams_body d) _ (ground arith) refl)))
    where
      P : Client → Type 0
      P x = x ≡ served env c ws id d

-- A REQ_META whose document has no positive `bodyLength`, with room for a new stream of a fresh id and a
-- local request that can be made: the request is ended at once, and what a REQ_DATA of the stream carries
-- is written to it after its end.
pub handle_req_data-after_end :
    (env : ClientEnv) (c : Client) (ws id : ℕ) (d : Doc) (payload : List ℕ)
    → length c.streams < env.max_concurrent_streams
    → lookup id c.streams ≡ none
    → env.request_error d ≡ none
    → d.has_body ≡ false
    → ((log : List ClientEffect) → env.request_write_throws log (length c.heap) ≡ false)
    → Here (handle_req_meta env c ws id (doc d)).heap (length c.heap) (requested id ws)
      × ((handle_req_data env
            (handle_req_meta env c ws id (doc d))
            (length c.heap)
            (requested id ws)
            payload).log
          ≡ write_request (length c.heap) payload
            ∷ end_request (length c.heap)
            ∷ start_request (length c.heap) d.method (local_headers env d)
            ∷ c.log)
unfolding handle_req_data
handle_req_data-after_end env c ws id d payload room fresh fine no_body takes =
    rw (handle_req_meta-ends env c ws id d room fresh fine no_body) (
      set-Here (c.heap ++ new_http_stream id ws ∷ []) (length c.heap) (new_http_stream id ws)
          (requested id ws) (last-Here c.heap (new_http_stream id ws)),
      ground (arith, takes (served env c ws id d).log),
    )

in_range : (heap : List ClientStream) (r : ℕ) (s : ClientStream) → Here heap r s → r < length heap
in_range [] r s h = cc
in_range (x ∷ heap) ℕ.zero s h = omega arith
in_range (x ∷ heap) (ℕ.suc r) s h = omega (arith, in_range heap r s h)

-- A TCP_OPEN for the id of a stream that the client has, with the host allowed and room: the object of
-- that stream is not cleaned up, and no entry of the map leads to it any more.
pub handle_tcp_open-loses :
    (env : ClientEnv) (c : Client) (ws id r : ℕ) (s : ClientStream) (d : Doc)
    → IsRegistered c.heap c.streams
    → lookup id c.streams ≡ some r
    → Here c.heap r s
    → d.is_null ≡ false
    → contains env.allowed_hosts d.host ≡ true
    → length c.streams < env.max_concurrent_streams
    → Here (handle_tcp_open env c ws id (doc d)).heap r s
      × (s.cleaned ≡ false)
      × ((id' : ℕ) → lookup id' (handle_tcp_open env c ws id (doc d)).streams ≢ some r)
unfolding handle_tcp_open open_tcp
handle_tcp_open-loses env c ws id r s d reg found here real allowed room =
    let (t, there, same, live) = reg id r found in
    when_false P d.is_null (crash c) real (
      when_false P (not (contains env.allowed_hosts d.host)) _ (ground arith) (
        when_false P (leb env.max_concurrent_streams (length c.streams)) _ (ground arith) (
          get_elem?-append c.heap _ r s here,
          ground (arith, here, there),
          λ id' e. elim (Bool-cases (id == id')) [
            | inl eq ↦
                ground
                  (arith, lookup-insert id id' (length c.heap) c.streams, in_range c.heap r s here)
            | inr other ↦
                let before : lookup id' c.streams ≡ some r =
                  ground (arith, lookup-insert id id' (length c.heap) c.streams) in
                let (u, also, theirs, _) = reg id' r before in ground (arith, there, also)
          ],
        )))
  where
    P : Client → Type 0
    P x = Here x.heap r s × (s.cleaned ≡ false) × ((id' : ℕ) → lookup id' x.streams ≢ some r)

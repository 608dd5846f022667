-- ===== src/TunnelClient/Streams.antt =====
-- The life of a stream of the tunnel client: `cleanupStream` and `sendResAbort` of serve/client.js,
-- `cleanupTcpState` and `sendTcpAbort` of src/tcp/TcpClientHandler.js.
use nodejs_wss_tunnel.Prelude.{
  ℕ, Bool, true, false, Option, none, some, String, List, [], ◌∷◌, set, get_elem?, if◌then◌else◌,
}
use nodejs_wss_tunnel.Prelude.Maps.{lookup, remove}
use nodejs_wss_tunnel.Protocol.{res_abort, tcp_abort}
use nodejs_wss_tunnel.Protocol.Json.{Obj, json}
use nodejs_wss_tunnel.Net.{or_else}
use nodejs_wss_tunnel.TunnelClient.{
  Client, ClientStream, ClientEnv, ClientEffect, ClientMode, http, tcp, send, at_stream,
  destroy_request, destroy_response, destroy_writer, destroy_socket,
}

abbrev when : Bool → ClientEffect → List ClientEffect → List ClientEffect
when b e log = if b then e ∷ log else log

-- `cleanupStream`. It does not look at `state.localSocket`.
unfoldable pub cleanup_stream : Client → ℕ → ClientStream → Client
cleanup_stream c r s = if s.cleaned then c else record c {
  heap = set c.heap r (record s { cleaned = true; timer = false });
  streams = remove s.id c.streams;
  log =
      when s.has_response (destroy_response r)
        (when s.has_request (destroy_request r) (when s.has_writer (destroy_writer r) c.log));
}

-- `sendResAbort`.
unfoldable pub send_res_abort : ClientEnv → Client → ℕ → ClientStream → String → Client
unfolding cleanup_stream
send_res_abort env c r s message =
    if s.cleaned
    then c
    else cleanup_stream
        (send env c s.ws res_abort s.id (json (Obj.message (or_else message "Stream aborted")))) r s

-- `cleanupTcpState`.
unfoldable pub cleanup_tcp_state : Client → ℕ → ClientStream → Client
cleanup_tcp_state c r s = if s.cleaned then c else record c {
  heap = set c.heap r (record s { cleaned = true; timer = false; has_socket = false });
  streams = remove s.id c.streams;
  log = when s.has_socket (destroy_socket r) c.log;
}

-- `sendTcpAbort`.
abbrev pub send_tcp_abort : ClientEnv → Client → ℕ → ℕ → String → Client
send_tcp_abort env c ws id message = send env c ws tcp_abort id (json (Obj.message message))

-- The `mode` test of `cleanupTcpStreams`, and after it `cleanupStream`.
unfoldable pub cleanup_tcp_only : Client → ℕ → ClientMode → ClientStream → Client
unfolding cleanup_tcp_state
cleanup_tcp_only c r http s = c
cleanup_tcp_only c r tcp s = cleanup_tcp_state c r s

-- The object of an entry of the map, if it is still there.
abbrev pub visit : (Client → ℕ → ClientStream → Client) → Client → Option ℕ → Client
visit f c none = c
visit f c (some r) = at_stream c (get_elem? c.heap r) (f c r)

-- `for (const state of streams.values())`: a `Map` hands out, in order, what is still there.
unfoldable pub each_stream : (Client → ℕ → ClientStream → Client) → List (ℕ × ℕ) → Client → Client
each_stream f [] c = c
each_stream f ((id, _) ∷ keys) c = each_stream f keys (visit f c (lookup id c.streams))

-- `cleanupTcpStreams`.
unfoldable pub cleanup_tcp_streams : Client → Client
unfolding each_stream cleanup_tcp_only
cleanup_tcp_streams c = each_stream (λ c r s. cleanup_tcp_only c r s.mode s) c.streams c

unfoldable pub cleanup_http_streams : Client → Client
unfolding each_stream cleanup_stream
cleanup_http_streams c = each_stream cleanup_stream c.streams c

-- `cleanupAllStreams`.
unfoldable pub cleanup_all_streams : Client → Client
unfolding cleanup_tcp_streams cleanup_http_streams
cleanup_all_streams c = cleanup_http_streams (cleanup_tcp_streams c)

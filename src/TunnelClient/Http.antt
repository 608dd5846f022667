-- ===== src/TunnelClient/Http.antt =====
-- The HTTP streams of serve/client.js: `handleReqMeta` and its listeners, `handleReqData` and
-- `handleReqEnd`.
use nodejs_wss_tunnel.Prelude.{
  ℕ, Bool, true, false, not, ◌&&◌, ◌||◌, Option, none, some, String, List, [], length, leb, str_eq,
  if◌then◌else◌,
}
use Prim.Native.String
use nodejs_wss_tunnel.Prelude.Maps.{has}
use nodejs_wss_tunnel.Protocol.{res_meta, res_end, res_abort}
use nodejs_wss_tunnel.Protocol.Json.{Doc, ParsedJson, doc, failed, Obj, raw, json}
use nodejs_wss_tunnel.Server.Headers.{sanitize_headers}
use nodejs_wss_tunnel.Server.HttpProxy.{set_header}
use nodejs_wss_tunnel.TunnelClient.{
  Client, ClientStream, ClientEnv, http, start_request, write_request, end_request, destroy_request,
  put_stream, log_effect, send,
}
use nodejs_wss_tunnel.TunnelClient.Streams.{cleanup_stream, send_res_abort}
use nodejs_wss_tunnel.TunnelClient.Tcp.{register}

abbrev pub new_http_stream : ℕ → ℕ → ClientStream
new_http_stream id ws = record {
  id = id;
  ws = ws;
  mode = http;
  cleaned = false;
  timer = true;
  has_request = false;
  has_response = false;
  has_writer = false;
  request_ended = false;
  response_started = false;
  response_ended = false;
  has_socket = false;
  local_connected = false;
  local_paused_for_ws = false;
  peer_paused_read = false;
  local_write_backpressured = false;
  pending_sends = 0;
}

abbrev refuse : ClientEnv → Client → ℕ → ℕ → String → Client
refuse env c ws id message = send env c ws res_abort id (json (Obj.message message))

-- `['POST', 'PUT', 'PATCH'].includes(options.method) && meta.bodyLength > 0`.
abbrev pub streams_body : Doc → Bool
streams_body d =
    (str_eq d.method "POST" || str_eq d.method "PUT" || str_eq d.method "PATCH") && d.has_body

-- The headers of the local request.
abbrev pub local_headers : ClientEnv → Doc → List (String × String)
local_headers env d =
    set_header "host" env.target_host (sanitize_headers env.to_lower_case true d.headers)

-- The body of the `try` of `handleReqMeta`, on the object `r`, whose local request it makes.
unfoldable pub forward : ClientEnv → Client → ℕ → ClientStream → Doc → Option String → Client
unfolding send_res_abort
forward env c r s d (some message) =
    send_res_abort env c r s (String.◌++◌ "Failed to connect to local target: " message)
forward env c r s d none =
    let started =
      log_effect (put_stream c r (record s { has_request = true }))
        (start_request r d.method (local_headers env d)) in
    if streams_body d then started else log_effect started (end_request r)

unfoldable pub open_http : ClientEnv → Client → ℕ → ℕ → ParsedJson → Client
unfolding forward
open_http env c ws id (failed _) = refuse env c ws id "Invalid REQ_META payload"
open_http env c ws id (doc d) =
    forward env (register c (new_http_stream id ws)) (length c.heap) (new_http_stream id ws) d
      (env.request_error d)

-- `handleReqMeta`.
unfoldable pub handle_req_meta : ClientEnv → Client → ℕ → ℕ → ParsedJson → Client
unfolding open_http
handle_req_meta env c ws id parsed =
    if leb env.max_concurrent_streams (length c.streams)
    then refuse env c ws id "Too many concurrent streams on tunnel client"
    else if has id c.streams
    then refuse env c ws id "Duplicate stream id"
    else open_http env c ws id parsed

-- The callback of `request`, with the local response's status and headers.
unfoldable pub on_response :
    ClientEnv → Client → ℕ → ClientStream → ℕ → List (String × String) → Client
on_response env c r s status headers =
    if s.cleaned
    then c
    else send env
        (put_stream c r
          (record s { has_response = true; response_started = true; has_writer = true }))
        s.ws res_meta s.id
        (json (Obj.response status (sanitize_headers env.to_lower_case true headers)))

-- The listener of the writer's `finish`.
unfoldable pub on_writer_finish : ClientEnv → Client → ℕ → ClientStream → Client
unfolding cleanup_stream
on_writer_finish env c r s =
    if s.cleaned || s.response_ended
    then c
    else (let s' = record s { response_ended = true } in
        cleanup_stream (send env (put_stream c r s') s.ws res_end s.id (raw [])) r s')

-- The listener of the request's `timeout`.
unfoldable pub on_request_timeout : Client → ℕ → ClientStream → Client
on_request_timeout c r s = if s.cleaned then c else log_effect c (destroy_request r)

-- `handleReqData`. A write that throws ends the stream.
unfoldable pub handle_req_data : ClientEnv → Client → ℕ → ClientStream → List ℕ → Client
unfolding send_res_abort
handle_req_data env c r s payload =
    if s.cleaned || not s.has_request
    then c
    else if env.request_write_throws c.log r
    then send_res_abort env c r s "Failed to write to local request"
    else log_effect c (write_request r payload)

-- `handleReqEnd`.
unfoldable pub handle_req_end : Client → ℕ → ClientStream → Client
handle_req_end c r s =
    if s.cleaned || not s.has_request
    then c
    else log_effect (put_stream c r (record s { request_ended = true })) (end_request r)

-- The case REQ_ABORT.
unfoldable pub handle_req_abort : ClientEnv → Client → ℕ → ClientStream → Client
unfolding cleanup_stream
handle_req_abort env c r s =
    cleanup_stream
      (if s.has_request && not (env.request_destroyed c.log r)
        then log_effect c (destroy_request r)
        else c)
      r s

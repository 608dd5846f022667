-- ===== src/Server/HttpProxy.antt =====
-- `_proxyHttpRequest` of src/server/HttpRouter.js, and the listeners on a proxied request.
use nodejs_wss_tunnel.Prelude.{
  ℕ, Bool, true, false, not, ◌&&◌, ◌||◌, Option, none, some, String, List, [], ◌∷◌, length, leb,
  str_eq, if◌then◌else◌,
}
use Prim.Native.String
use nodejs_wss_tunnel.Protocol.{req_end}
use nodejs_wss_tunnel.Protocol.Json.{raw}
use nodejs_wss_tunnel.Protocol.Json
use nodejs_wss_tunnel.Net.{Env, send_frame}
use nodejs_wss_tunnel.Server.State.{Server, Stream, put}
use nodejs_wss_tunnel.Server.Streams.{
  allocate_stream_id, create_stream, abort_stream, cleanup_stream,
}
use nodejs_wss_tunnel.Server.Clients.{get_active_client}
use nodejs_wss_tunnel.Server.Headers.{sanitize_headers}

-- What is read of the request; header names are in lower case, as `node:http` gives them.
pub record HttpRequest : Type 0 where
  pub method : String
  pub url : String
  pub headers : List (String × String)
  pub remote_address : String
  pub encrypted : Bool

-- `headers[name]`.
unfoldable pub header : String → List (String × String) → Option String
header name [] = none
header name ((key, value) ∷ headers) = if str_eq key name then some value else header name headers

-- `headers[name] = value`.
unfoldable pub set_header : String → String → List (String × String) → List (String × String)
set_header name value [] = (name, value) ∷ []
set_header name value ((key, old) ∷ headers) =
    if str_eq key name then (key, value) ∷ headers else (key, old) ∷ set_header name value headers

-- A header that is there and not empty.
abbrev pub truthy : Option String → Bool
truthy none = false
truthy (some value) = not (str_eq value "")

unfoldable pub add_host : Option String → List (String × String) → List (String × String)
add_host none headers = headers
add_host (some host) headers =
    if str_eq host "" then headers else set_header "x-forwarded-host" host headers

-- The address is put behind those of the proxies before.
unfoldable pub forwarded : Option String → String → String
forwarded none address = address
forwarded (some before) address =
    if str_eq before "" then address else String.◌++◌ before (String.◌++◌ ", " address)

-- The headers that go to the tunnel client.
unfoldable pub forwarded_headers : Env → HttpRequest → List (String × String)
unfolding header set_header add_host forwarded
forwarded_headers env req =
    let h1 =
      add_host (header "host" req.headers) (sanitize_headers env.to_lower_case true req.headers) in
    let h2 =
      if str_eq req.remote_address ""
      then h1
      else set_header "x-forwarded-for" (forwarded (header "x-forwarded-for" h1) req.remote_address)
          h1 in
    if truthy (header "x-forwarded-proto" h2)
    then h2
    else set_header "x-forwarded-proto" (if req.encrypted then "https" else "http") h2

pub data Answer : Type 0 where
  -- The request is answered with a status and a text.
  answered : ℕ → String → Answer
  -- A stream was made, or failed to be, and the object of one that was.
  proxied : Option ℕ → Answer

-- With an active client and a stream id.
unfoldable pub open_request : Env → Server → ℕ → HttpRequest → ℕ → Server × Answer
unfolding forwarded_headers
open_request env w ws req id =
    let meta = Json.request req.method req.url (forwarded_headers env req) in
    let (w', r) = create_stream env w ws meta (str_eq req.method "HEAD") id in (w', proxied r)

unfoldable pub with_id : Env → Server × Option ℕ → ℕ → HttpRequest → Server × Answer
unfolding open_request
with_id env (w, none) ws req = (w, answered 503 "No available stream id")
with_id env (w, some id) ws req = open_request env w ws req id

unfoldable pub with_client : Env → Server → HttpRequest → Option ℕ → Server × Answer
unfolding with_id
with_client env w req none = (w, answered 503 "No tunnel client connected")
with_client env w req (some ws) = with_id env (allocate_stream_id w) ws req

-- `_proxyHttpRequest`.
unfoldable pub proxy_http_request : Env → Server → HttpRequest → Server × Answer
unfolding with_client
proxy_http_request env w req =
    if truthy (header "upgrade" req.headers)
    then (w, answered 501 "Upgrade is not supported by this tunnel")
    else if leb env.max_concurrent_streams (length w.streams)
    then (w, answered 503 "Too many concurrent streams")
    else with_client env w req (get_active_client env w)

-- The request body's writer: its 'finish' and 'error' listeners in `createStream`.
unfoldable pub on_writer_finish : Env → Server → ℕ → Stream → Server
on_writer_finish env w r s =
    if s.cleaned || s.request_ended
    then w
    else record (put w r (record s { request_ended = true; timer = true })) {
      log = send_frame env w.log s.ws req_end s.id (raw []);
    }

unfoldable pub on_writer_error : Env → Server → ℕ → Stream → Server
on_writer_error env w r s = abort_stream env w r s "Request writer error" false

-- The callback of `pipeline` with an error, and the request's 'error' listener.
unfoldable pub on_pipeline_error : Env → Server → ℕ → Stream → Server
on_pipeline_error env w r s =
    if s.cleaned then w else abort_stream env w r s "Request stream error" true

unfoldable pub on_request_error : Env → Server → ℕ → Stream → Server
on_request_error env w r s = abort_stream env w r s "Incoming request error" true

-- The response's 'close' and 'finish' listeners.
unfoldable pub on_response_close : Env → Server → ℕ → Stream → Server
on_response_close env w r s =
    if not s.cleaned && not s.response_ended
    then abort_stream env w r s "End user closed connection early" true
    else w

unfoldable pub on_response_finish : Env → Server → ℕ → Stream → Server
on_response_finish env w r s =
    let s' = record s { response_ended = true } in cleanup_stream env (put w r s') r s'

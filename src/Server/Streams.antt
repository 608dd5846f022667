-- ===== src/Server/Streams.antt =====
-- StreamManager of src/server/StreamManager.js: stream ids, and the life of a stream.
use nodejs_wss_tunnel.Prelude.{
  ℕ, zero, suc, ◌+◌, ◌-◌, Bool, true, false, not, ◌&&◌, ◌||◌, Option, none, some, String, List, [],
  ◌∷◌, ◌++◌, length, leb, ◌==◌, if◌then◌else◌,
}
use nodejs_wss_tunnel.Prelude.Maps.{lookup, insert, remove, has, or_one}
use nodejs_wss_tunnel.Protocol.{tcp_abort, req_abort, req_meta}
use nodejs_wss_tunnel.Protocol.Json.{raw, json, Obj}
use nodejs_wss_tunnel.Protocol.Json
use nodejs_wss_tunnel.Net.{
  Env, Effect, HttpOp, send_frame, can_send, or_else, respond, end, destroy_response,
  destroy_request, destroy_writer,
}
use nodejs_wss_tunnel.VirtualSocket.{Out, send, queue_close, call}
use nodejs_wss_tunnel.Server.State.{
  Server, Stream, Socket, OnCleanup, nothing, router_slot, agent_slot, Mode, http, tcp, put, is_tcp,
  is_http, absent,
}
use nodejs_wss_tunnel.Server.FlowControl.{destroy_any, abort_any}

abbrev pub max_stream_id : ℕ
max_stream_id = 0xffffffff

-- The loop of `allocateStreamId`, with the rounds left and the greatest id: `_nextStreamId` after it
-- and the id, or `none` where the source throws.
unfoldable pub alloc_loop : ℕ → ℕ → List (ℕ × ℕ) → ℕ → ℕ × Option ℕ
alloc_loop zero top streams next = (next, none)
alloc_loop (suc rounds) top streams next =
    let after = if leb top next then 1 else next + 1 in
    let rest = alloc_loop rounds top streams after in
    if not (has next streams) then (after, some next) else rest

-- `allocateStreamId`.
unfoldable pub allocate_stream_id : Server → Server × Option ℕ
allocate_stream_id w =
    let (next, id) = alloc_loop max_stream_id max_stream_id w.streams w.next_stream_id in
    (record w { next_stream_id = next }, id)

-- What a socket sends and calls is logged; of its events none is heard, since every listener
-- returns at once when `state.cleaned` is set, and only 'close' is ever queued.
unfoldable pub perform : Env → ℕ → List Out → List Effect → List Effect
perform env r [] log = log
perform env r (send ws type id payload ∷ outs) log =
    perform env r outs (send_frame env log ws type id payload)
perform env r (call op ∷ outs) log = perform env r outs (Effect.socket r op ∷ log)
perform env r (_ ∷ outs) log = perform env r outs log

-- The objects whose 'close' event was queued.
unfoldable pub queued : ℕ → List Out → List ℕ → List ℕ
queued r [] tasks = tasks
queued r (queue_close ∷ outs) tasks = queued r outs (tasks ++ r ∷ [])
queued r (_ ∷ outs) tasks = queued r outs tasks

-- `const c = map.get(port) || 1; map.set(port, Math.max(0, c - 1))`.
unfoldable pub give_back : ℕ → List (ℕ × ℕ) → List (ℕ × ℕ)
give_back port counts = insert port (or_one (lookup port counts) - 1) counts

-- `const owned = agentStreams.get(ws); if (owned) owned.delete(id)`.
unfoldable pub disown : ℕ → ℕ → List (ℕ × List ℕ) → List (ℕ × List ℕ)
disown ws id [] = []
disown ws id ((j, ids) ∷ m) = if j == ws then (j, without ids) ∷ m else (j, ids) ∷ disown ws id m
  where
    without : List ℕ → List ℕ
    without [] = []
    without (i ∷ is) = let rest = without is in if i == id then rest else i ∷ rest

-- The call of `state.onCleanup` for the stream with this id.
unfoldable pub run_on_cleanup : Server → ℕ → OnCleanup → Server
unfolding give_back disown
run_on_cleanup w id nothing = w
run_on_cleanup w id (router_slot port true) = w
run_on_cleanup w id (router_slot port false) = record w {
  router_counts = give_back port w.router_counts;
}
run_on_cleanup w id (agent_slot port ws) = record w {
  agent_counts = give_back port w.agent_counts;
  agent_streams = disown ws id w.agent_streams;
}

-- The closure after its call.
abbrev pub called : OnCleanup → OnCleanup
called (router_slot port released) = router_slot port true
called other = other

-- `cleanupTcpStream` on the object `r`, which is now `s`.
unfoldable pub cleanup_tcp_stream : Env → Server → ℕ → Stream → Server
unfolding perform queued run_on_cleanup destroy_any
cleanup_tcp_stream env w r s =
    if s.cleaned
    then w
    else (let (socket, outs) = destroy_any env s.socket in
        let w1 = put w r (record s {
          cleaned = true;
          timer = false;
          socket = socket;
          on_cleanup = called s.on_cleanup;
        }) in
        let w2 = record w1 {
          streams = remove s.id w.streams;
          log = perform env r outs w.log;
          microtasks = queued r outs w.microtasks;
        } in
        run_on_cleanup w2 s.id s.on_cleanup)

-- `abortTcpStream`.
unfoldable pub abort_tcp_stream : Env → Server → ℕ → Stream → String → Bool → Server
unfolding perform queued abort_any
abort_tcp_stream env w r s reason notify_client =
    if s.cleaned
    then w
    else (let message = or_else reason "TCP stream aborted" in
        let (socket, outs) = abort_any env s.socket message in
        let aborting = notify_client && env.is_open s.ws && not s.abort_sent in
        let before = perform env r outs w.log in
        let s' = record s { socket = socket; abort_sent = s.abort_sent || aborting } in
        let w' = record (put w r s') {
          log =
              if aborting
              then send_frame env before s.ws tcp_abort s.id (json (Json.message message))
              else before;
          microtasks = queued r outs w.microtasks;
        } in
        cleanup_tcp_stream env w' r s')

-- `state.res` takes a call. A TCP stream has no response, so the call throws.
abbrev pub responds : Env → List Effect → ℕ → Stream → Bool
responds env log r s = is_http s.mode && not (env.response_throws log r)

abbrev on_response : Env → List Effect → ℕ → Stream → HttpOp → List Effect
on_response env log r s op = if responds env log r s then Effect.http r op ∷ log else log

-- `cleanupStream`.
unfoldable pub cleanup_stream : Env → Server → ℕ → Stream → Server
cleanup_stream env w r s =
    if s.cleaned
    then w
    else (let log1 = if s.request_writer then Effect.http r destroy_writer ∷ w.log else w.log in
        let log2 = if is_http s.mode then Effect.http r destroy_request ∷ log1 else log1 in
        let log3 =
          if is_http s.mode && not (env.writable_ended r)
          then Effect.http r destroy_response ∷ log2
          else log2 in
        record (put w r (record s { cleaned = true; timer = false })) {
          streams = remove s.id w.streams;
          log = log3;
        })

-- The answer that `abortStream` gives to the end user.
abbrev abort_response : Env → List Effect → ℕ → Stream → String → List Effect
abort_response env log r s reason =
    if not s.response_started
    then on_response env log r s (respond 502 "tunnel_error" (or_else reason "Tunnel error"))
    else if not s.response_ended
    then on_response env (on_response env log r s end) r s destroy_response
    else log

-- `abortStream`.
unfoldable pub abort_stream : Env → Server → ℕ → Stream → String → Bool → Server
unfolding cleanup_stream
abort_stream env w r s reason notify_client =
    if s.cleaned
    then w
    else (let aborting = notify_client && env.is_open s.ws && not s.abort_sent in
        let log1 =
          if aborting
          then send_frame env w.log s.ws req_abort s.id
              (json (Json.message (or_else reason "Stream aborted")))
          else w.log in
        let s' = record s { abort_sent = s.abort_sent || aborting } in
        cleanup_stream env (record (put w r s') { log = abort_response env log1 r s reason }) r s')

-- `cleanupAnyStream` and `abortAnyStream`.
unfoldable pub cleanup_any_stream : Env → Server → ℕ → Stream → Server
cleanup_any_stream env w r s =
    if is_tcp s.mode then cleanup_tcp_stream env w r s else cleanup_stream env w r s

unfoldable pub abort_any_stream : Env → Server → ℕ → Stream → String → Bool → Server
abort_any_stream env w r s reason notify_client =
    if is_tcp s.mode
    then abort_tcp_stream env w r s reason notify_client
    else abort_stream env w r s reason notify_client

abbrev pub new_stream : Mode → ℕ → ℕ → Stream
new_stream mode ws id = record {
  id = id;
  ws = ws;
  mode = mode;
  socket = absent;
  server_port = 0;
  cleaned = false;
  abort_sent = false;
  request_ended = false;
  response_started = false;
  response_ended = false;
  response_paused = false;
  request_writer = false;
  is_head = false;
  agent_paused = false;
  ws_backpressured = false;
  client_paused_for_agent = false;
  peer_paused_read = false;
  local_paused_for_ws = false;
  pending_sends = 0;
  timer = true;
  on_cleanup = nothing;
  agent_ws = none;
  awaiting_client_ack = false;
  on_client_open_confirmed = none;
}

-- `this.streams.set(streamId, state)`: the object takes the next place of the heap.
abbrev register : Server → Stream → Server × ℕ
register w s = (
  record w { heap = w.heap ++ s ∷ []; streams = insert s.id (length w.heap) w.streams },
  length w.heap,
)

-- `createTcpStream`: the place of the new object and the object.
unfoldable pub create_tcp_stream : Server → ℕ → Socket → ℕ → ℕ → Server × ℕ × Stream
create_tcp_stream w ws socket server_port id =
    let s = record (new_stream tcp ws id) { socket = socket; server_port = server_port } in
    let (w', r) = register w s in (w', r, s)

-- `createStream`, with the metadata of the request; `none` is its `null`.
unfoldable pub create_stream : Env → Server → ℕ → Obj → Bool → ℕ → Server × Option ℕ
create_stream env w ws meta is_head id =
    let s = record (new_stream http ws id) { is_head = is_head } in
    let (w', r) = register w s in
    let w'' = record w' { log = send_frame env w.log ws req_meta id (json meta) } in
    if can_send env w.log ws then (put w'' r (record s { request_writer = true }), some r) else (
      record w' {
        streams = remove id w'.streams;
        log =
            Effect.http r
              (respond 503 "tunnel_unavailable" "Cannot send request metadata to tunnel client")
            ∷ w.log;
      },
      none,
    )

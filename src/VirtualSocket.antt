-- ===== src/VirtualSocket.antt =====
-- src/tcp/VirtualSocket.js: the socket that stands for a connection of a TCP agent. A call returns
-- the socket and, in order, what it sends to the agent and the events that it emits.
pub mod Inbound
mod Tests
use nodejs_wss_tunnel.Prelude.{
  ℕ, ◌+◌, Bool, true, false, not, ◌&&◌, Option, none, some, String, List, [], ◌∷◌, ◌++◌, map, ltb,
  leb, length, if◌then◌else◌,
}
use nodejs_wss_tunnel.Protocol.{FrameType, pause, resume, tcp_close, tcp_abort}
use nodejs_wss_tunnel.Protocol.Json.{
  Payload, raw, json, Doc, ParsedJson, doc, failed, parse_json_payload, default_limit,
}
use nodejs_wss_tunnel.Protocol.Json
use nodejs_wss_tunnel.Net.{Env, SocketOp, or_else}

-- The variables of `createVirtualSocket`; `agent_ws` is the WebSocket that its only caller passes.
pub record VirtualSocket : Type 0 where
  pub agent_ws : ℕ
  pub stream_id : ℕ
  pub destroyed : Bool
  pub paused : Bool
  pub buffered : List (List ℕ)
  pub buffered_bytes : ℕ
  pub pending_drain : Bool
  pub agent_notified : Bool

pub data Out : Type 0 where
  -- `sendFrame` or `sendJsonFrame` to a WebSocket.
  send : ℕ → FrameType → ℕ → Payload → Out
  emit_data : List ℕ → Out
  emit_close emit_drain : Out
  emit_error : String → Out
  -- `queueMicrotask(() => socket.emit('close'))`.
  queue_close : Out
  -- A call on a `net.Socket`, where the stream has one.
  call : SocketOp → Out

abbrev pub create_virtual_socket : ℕ → ℕ → VirtualSocket
create_virtual_socket agent_ws stream_id = record {
  agent_ws = agent_ws;
  stream_id = stream_id;
  destroyed = false;
  paused = false;
  buffered = [];
  buffered_bytes = 0;
  pending_drain = false;
  agent_notified = false;
}

-- Sends to the agent if its WebSocket is open.
abbrev to_agent : Env → VirtualSocket → FrameType → Payload → List Out
to_agent env v type payload =
    if env.is_open v.agent_ws then send v.agent_ws type v.stream_id payload ∷ [] else []

-- `socket.pause`.
unfoldable pub pause_socket : Env → VirtualSocket → VirtualSocket × List Out
pause_socket env v =
    if v.paused then (v, []) else (record v { paused = true }, to_agent env v pause (raw []))

-- `socket.resume`: the buffered chunks are emitted, then the agent is told.
unfoldable pub resume_socket : Env → VirtualSocket → VirtualSocket × List Out
resume_socket env v =
    if v.paused
    then (
      record v { paused = false; buffered = []; buffered_bytes = 0 },
      map emit_data v.buffered ++ to_agent env v resume (raw []),
    )
    else (v, [])

-- `socket.abort`.
unfoldable pub abort_socket : Env → VirtualSocket → String → VirtualSocket × List Out
abort_socket env v message = if v.destroyed then (v, []) else (
  record v { destroyed = true; agent_notified = true },
  to_agent env v tcp_abort (json (Json.message (or_else message "Stream aborted")))
      ++ queue_close ∷ [],
)

-- `socket.destroy`, `socket.end` and `socket.destroySoon`.
unfoldable pub destroy_socket : Env → VirtualSocket → VirtualSocket × List Out
destroy_socket env v =
    if v.destroyed
    then (v, [])
    else if not v.agent_notified && env.is_open v.agent_ws
    then (
      record v { destroyed = true; agent_notified = true },
      send v.agent_ws tcp_close v.stream_id (raw []) ∷ emit_close ∷ [],
    )
    else (record v { destroyed = true }, emit_close ∷ [])

-- `socket.pushInbound`; the Boolean is its result.
unfoldable pub push_inbound : Env → VirtualSocket → List ℕ → VirtualSocket × List Out × Bool
push_inbound env v chunk =
    if v.destroyed
    then (v, [], false)
    else if v.paused
    then if ltb env.max_dest_buffer_bytes (v.buffered_bytes + length chunk)
      then (let (v', outs) = abort_socket env v "Inbound buffer exceeded" in (v', outs, false))
      else (
        record v {
          buffered = v.buffered ++ chunk ∷ [];
          buffered_bytes = v.buffered_bytes + length chunk;
        },
        [],
        false,
      )
    else (v, emit_data chunk ∷ [], true)

-- `socket.endFromAgent`.
unfoldable pub end_from_agent : VirtualSocket → VirtualSocket × List Out
end_from_agent v =
    if v.destroyed
    then (v, [])
    else (record v { destroyed = true; agent_notified = true }, emit_close ∷ [])

-- The message of an abort by the agent, unless its payload says otherwise.
abbrev agent_message : ParsedJson → String
agent_message (failed e) = "Agent aborted stream"
agent_message (doc d) = text d.message
  where
    text : Option String → String
    text none = "Agent aborted stream"
    text (some m) = m

-- `socket.abortFromAgent`.
unfoldable pub abort_from_agent : Env → VirtualSocket → List ℕ → VirtualSocket × List Out
unfolding parse_json_payload
abort_from_agent env v payload = if v.destroyed then (v, []) else (
  record v { destroyed = true; agent_notified = true },
  emit_error (agent_message (parse_json_payload env.parse_json payload default_limit)) ∷ [],
)

-- The callback of the send in `socket.write`; the number is `agentWs.bufferedAmount`.
unfoldable pub write_done : Env → VirtualSocket → ℕ → VirtualSocket × List Out
write_done env v amount =
    if not v.destroyed && v.pending_drain && leb amount env.ws_low_water
    then (record v { pending_drain = false }, emit_drain ∷ [])
    else (v, [])

-- ===== src/Net.antt =====
-- What the program sees of `ws`, `node:net` and `node:http`, which it does not implement: calls that
-- it makes are logged as effects, and an environment answers them.
use nodejs_wss_tunnel.Prelude.{
  ℕ, Bool, not, ◌&&◌, Option, none, some, String, List, ◌∷◌, if◌then◌else◌, str_eq,
}
use nodejs_wss_tunnel.Protocol.{FrameType}
use nodejs_wss_tunnel.Protocol.Json.{Doc, Payload}

-- Calls on a `net.Socket`.
pub data SocketOp : Type 0 where
  pause resume destroy : SocketOp
  write : List ℕ → SocketOp

-- Calls on the HTTP request, the response and the writer of the request body.
pub data HttpOp : Type 0 where
  write_head : ℕ → List (String × String) → HttpOp
  write : List ℕ → HttpOp
  end : HttpOp
  -- A whole answer: the status, the error name and the message of its JSON body.
  respond : ℕ → String → String → HttpOp
  destroy_response destroy_request destroy_writer : HttpOp
  set_peer_paused : Bool → HttpOp

-- Streams are named by their object, not by their stream id.
pub data Effect : Type 0 where
  -- A frame goes out on a WebSocket: its type, stream id and payload.
  frame : ℕ → FrameType → ℕ → Payload → Effect
  socket : ℕ → SocketOp → Effect
  http : ℕ → HttpOp → Effect

pub data WriteResult : Type 0 where
  accepted full threw : WriteResult

-- The constants of src/shared/config.js that the server reads.
pub record Config : Type 0 where
  pub ws_high_water : ℕ
  pub ws_low_water : ℕ
  pub max_dest_buffer_bytes : ℕ
  pub max_concurrent_streams : ℕ
  pub max_tunnel_clients : ℕ
  pub tcp_max_connections_per_port : ℕ
  pub tcp_tunnel_host : String

-- The answers of the outside during one event. Those that may change within the event depend on the
-- effects so far, the newest first.
pub record Env : Type 0 where
  pub config : Config
  pub open config use *
  -- `ws.readyState === WebSocket.OPEN`.
  pub is_open : ℕ → Bool
  pub send_throws : List Effect → ℕ → Bool
  -- `ws.bufferedAmount`.
  pub buffered_amount : List Effect → ℕ → ℕ
  pub socket_write : List Effect → ℕ → WriteResult
  pub response_throws : List Effect → ℕ → Bool
  pub response_write : List Effect → ℕ → WriteResult
  pub writable_length : ℕ → ℕ
  pub writable_ended : ℕ → Bool
  pub to_lower_case : String → String
  pub parse_json : List ℕ → Option Doc

-- `sendFrame` and `sendJsonFrame` of src/shared/protocol.js: whether they return true, and the log
-- after the call.
abbrev pub can_send : Env → List Effect → ℕ → Bool
can_send env log ws = env.is_open ws && not (env.send_throws log ws)

abbrev pub send_frame : Env → List Effect → ℕ → FrameType → ℕ → Payload → List Effect
send_frame env log ws type id payload =
    if can_send env log ws then Effect.frame ws type id payload ∷ log else log

-- `reason || standard`.
abbrev pub or_else : String → String → String
or_else reason standard = if str_eq reason "" then standard else reason

-- `info.message || standard`.
abbrev pub message_or : Option String → String → String
message_or none standard = standard
message_or (some m) standard = or_else m standard

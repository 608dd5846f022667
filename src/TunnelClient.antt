-- ===== src/TunnelClient.antt =====
-- serve/client.js and src/tcp/TcpClientHandler.js: the tunnel client, which answers the server's frames
-- by local HTTP requests and local TCP connections. A stream's object is named by its place in `heap`,
-- and so are its local request, response, writer and socket.
pub mod Streams
pub mod Tcp
pub mod Http
pub mod Events
pub mod Kept
pub mod KeptRun
pub mod Registry
pub mod Faults
pub mod Limits
pub mod Start
pub mod Target
pub mod Targets
mod StartTests
mod Tests
use nodejs_wss_tunnel.Prelude.{
  ℕ, Bool, true, not, ◌&&◌, Option, none, some, String, List, ◌∷◌, set, get_elem?, if◌then◌else◌,
}
use nodejs_wss_tunnel.Protocol.{FrameType}
use nodejs_wss_tunnel.Protocol.Json.{Doc, Payload}
use nodejs_wss_tunnel.Net.{WriteResult}

-- `state.mode`, which HTTP streams do not have.
pub data ClientMode : Type 0 where
  http tcp : ClientMode

-- The `state` of `handleReqMeta` or of `handleTcpOpen`. `has_request` and the like say that
-- `state.localReq`, `localRes`, `responseWriter` and `localSocket` are not null.
pub record ClientStream : Type 0 where
  pub id : ℕ
  pub ws : ℕ
  pub mode : ClientMode
  pub cleaned : Bool
  pub timer : Bool
  pub has_request : Bool
  pub has_response : Bool
  pub has_writer : Bool
  pub request_ended : Bool
  pub response_started : Bool
  pub response_ended : Bool
  pub has_socket : Bool
  pub local_connected : Bool
  pub local_paused_for_ws : Bool
  pub peer_paused_read : Bool
  pub local_write_backpressured : Bool
  pub pending_sends : ℕ

pub data ClientEffect : Type 0 where
  frame : ℕ → FrameType → ℕ → Payload → ClientEffect
  -- `http.request` with these headers, and `net.connect` with a timeout.
  start_request : ℕ → String → List (String × String) → ClientEffect
  connect_socket : ℕ → String → Option ℕ → ClientEffect
  write_request write_socket : ℕ → List ℕ → ClientEffect
  end_request destroy_request destroy_response destroy_writer destroy_socket : ℕ → ClientEffect
  pause_socket resume_socket : ℕ → ClientEffect
  set_peer_paused : ℕ → Bool → ClientEffect
  write_ready_file remove_ready_file : ClientEffect
  open_web_socket close_web_socket : ℕ → ClientEffect
  start_heartbeat stop_heartbeat clear_timer exit : ClientEffect
  -- `setTimeout(..., delay)` of `scheduleReconnect`.
  schedule : ℕ → ClientEffect

-- The variables of serve/client.js. The numbers below `next_web_socket` name the WebSockets so far.
pub record Client : Type 0 where
  pub streams : List (ℕ × ℕ)
  pub heap : List ClientStream
  pub web_socket : Option ℕ
  pub next_web_socket : ℕ
  pub reconnect_delay : ℕ
  pub reconnect_attempt : ℕ
  pub timer_set : Bool
  pub heartbeat_set : Bool
  pub auth_failed : Bool
  pub shutting_down : Bool
  -- An exception that nothing catches has ended the process.
  pub crashed : Bool
  pub log : List ClientEffect

-- The constants, and the answers of the outside during one event.
pub record ClientEnv : Type 0 where
  pub max_concurrent_streams : ℕ
  pub max_frame_payload : ℕ
  pub allowed_hosts : List String
  pub target_host : String
  pub ws_high_water : ℕ
  pub ws_low_water : ℕ
  pub is_open : ℕ → Bool
  pub send_throws : List ClientEffect → ℕ → Bool
  pub buffered_amount : List ClientEffect → ℕ → ℕ
  pub socket_write : List ClientEffect → ℕ → WriteResult
  -- `localSocket.destroyed`, and `localReq.destroyed`.
  pub socket_destroyed : List ClientEffect → ℕ → Bool
  pub request_destroyed : List ClientEffect → ℕ → Bool
  pub request_write_throws : List ClientEffect → ℕ → Bool
  -- The message of the exception with which the set-up of a local request ends, if it does.
  pub request_error : Doc → Option String
  pub to_lower_case : String → String
  pub parse_json : List ℕ → Option Doc

abbrev pub put_stream : Client → ℕ → ClientStream → Client
put_stream c r s = record c { heap = set c.heap r s }

abbrev pub log_effect : Client → ClientEffect → Client
log_effect c e = record c { log = e ∷ c.log }

-- An exception that nothing catches.
abbrev pub crash : Client → Client
crash c = record c { crashed = true }

-- `sendFrame` and `sendJsonFrame`.
abbrev pub send : ClientEnv → Client → ℕ → FrameType → ℕ → Payload → Client
send env c ws type id payload = record c {
  log =
      if env.is_open ws && not (env.send_throws c.log ws)
      then ClientEffect.frame ws type id payload ∷ c.log
      else c.log;
}

-- The object that a name stands for.
abbrev pub at_stream : Client → Option ClientStream → (ClientStream → Client) → Client
at_stream c none f = c
at_stream c (some s) f = f s

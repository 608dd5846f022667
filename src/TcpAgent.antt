-- ===== src/TcpAgent.antt =====
-- serve/tcp-agent.js: the agent that listens beside an application and opens a stream of the tunnel
-- for each local connection. Listeners, the ready file and the WebSocket's handshake are answered by
-- `AgentEnv`; a local connection is a number.
pub mod Frames
pub mod Events
pub mod Control
pub mod Ready
pub mod Rejection
pub mod Start
pub mod Started
mod StartTests
mod Tests
use nodejs_wss_tunnel.Prelude.{
  ℕ, ◌+◌, ◌-◌, ◌*◌, Bool, true, false, not, ◌&&◌, ◌||◌, ◌==◌, Option, none, some, String, List, [],
  ◌∷◌, min, if◌then◌else◌,
}
use nodejs_wss_tunnel.Protocol.{FrameType, tcp_abort}
use nodejs_wss_tunnel.Protocol.Json.{Doc, Obj, Payload, json}
use nodejs_wss_tunnel.Net.{WriteResult}

-- A local connection that waits for its TCP_CONNECT_ACK.
pub record Pending : Type 0 where
  pub local_socket : ℕ
  pub port : ℕ

-- An entry of `streamedSockets`; the socket's own state is that of its object.
pub record Entry : Type 0 where
  pub socket : ℕ
  pub stream_id : ℕ
  pub pending_sends : ℕ
  pub paused_for_ws : Bool
  pub peer_paused_read : Bool
  pub local_write_backpressured : Bool
  pub cleaned : Bool

pub data AgentEffect : Type 0 where
  frame : FrameType → ℕ → Payload → AgentEffect
  pause resume destroy end : ℕ → AgentEffect
  write : ℕ → List ℕ → AgentEffect
  write_ready_file remove_ready_file : AgentEffect
  -- `setTimeout(..., delay)` of `scheduleReconnect`, and `process.exit(code)` after 50 ms.
  schedule exit : ℕ → AgentEffect
  open_web_socket close_web_socket clear_timer : AgentEffect
  close_listeners : AgentEffect

-- The variables of the module. `streams` and `entries` are `streamedSockets`: a stream id maps to an
-- entry's place in `entries`, since listeners hold an entry after it has left the map.
pub record Agent : Type 0 where
  pub pending_connects : List Pending
  pub streams : List (ℕ × ℕ)
  pub entries : List Entry
  pub listening_ports : List ℕ
  pub ready : Bool
  pub shutting_down : Bool
  pub auth_failed : Bool
  pub reconnect_delay : ℕ
  pub reconnect_attempt : ℕ
  pub timer_set : Bool
  -- An exception that nothing catches has ended the process.
  pub crashed : Bool
  -- `ws !== null`.
  pub has_web_socket : Bool
  pub log : List AgentEffect

-- The constants, and the answers of the outside during one event.
pub record AgentEnv : Type 0 where
  pub requested_ports : List ℕ
  pub initial_delay : ℕ
  pub ws_high_water : ℕ
  pub ws_low_water : ℕ
  -- `wsReady()`.
  pub ws_ready : Bool
  pub send_throws : List AgentEffect → Bool
  pub buffered_amount : List AgentEffect → ℕ
  pub socket_write : List AgentEffect → ℕ → WriteResult
  -- `socket.destroyed`.
  pub destroyed : ℕ → Bool
  pub parse_json : List ℕ → Option Doc

abbrev pub includes : List ℕ → ℕ → Bool
includes [] p = false
includes (x ∷ xs) p = x == p || includes xs p

-- `allListenersListening`.
unfoldable pub all_listening : List ℕ → List ℕ → Bool
all_listening [] listening = true
all_listening (p ∷ ports) listening = includes listening p && all_listening ports listening

abbrev pub log_effect : Agent → AgentEffect → Agent
log_effect a e = record a { log = e ∷ a.log }

-- An exception that nothing catches.
abbrev pub crash : Agent → Agent
crash a = record a { crashed = true }

-- `markReadyIfEligible` and `clearReady`.
unfoldable pub mark_ready_if_eligible : AgentEnv → Agent → Agent
mark_ready_if_eligible env a =
    if a.ready || a.shutting_down
    then a
    else if not env.ws_ready || not (all_listening env.requested_ports a.listening_ports)
    then a
    else record a { ready = true; log = write_ready_file ∷ a.log }

unfoldable pub clear_ready : Agent → Agent
clear_ready a = record a { ready = false; log = remove_ready_file ∷ a.log }

-- `sendFrame(ws, ...)`.
abbrev pub send : AgentEnv → Agent → FrameType → ℕ → Payload → Agent
send env a type id payload =
    if env.ws_ready && not (env.send_throws a.log)
    then record a { log = AgentEffect.frame type id payload ∷ a.log }
    else a

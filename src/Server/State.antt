-- ===== src/Server/State.antt =====
-- The server's state: the objects that StreamManager, ClientManager, TcpRouter and TcpAgentServer of
-- src/server and src/tcp keep and share.
use nodejs_wss_tunnel.Prelude.{ℕ, Bool, true, false, Option, none, some, List, get_elem?, set}
use nodejs_wss_tunnel.Net.{Effect}
use nodejs_wss_tunnel.VirtualSocket.{VirtualSocket}

pub data Mode : Type 0 where
  http tcp : Mode

-- A `net.Socket`, as far as the server knows its state.
pub record NetSocket : Type 0 where
  pub destroyed : Bool
  pub paused : Bool

-- `state.socket`.
pub data Socket : Type 0 where
  absent : Socket
  net : NetSocket → Socket
  virtual : VirtualSocket → Socket

-- The closure in `state.onCleanup`: it gives a place of a port back, once. TcpRouter's keeps the
-- flag `countDecremented`; TcpAgentServer's names the port and the agent.
pub data OnCleanup : Type 0 where
  nothing : OnCleanup
  router_slot : ℕ → Bool → OnCleanup
  agent_slot : ℕ → ℕ → OnCleanup

-- The object that `createStream` or `createTcpStream` makes. A field that one of them leaves out
-- reads as false there.
pub record Stream : Type 0 where
  pub id : ℕ
  pub ws : ℕ
  pub mode : Mode
  pub socket : Socket
  pub server_port : ℕ
  pub cleaned : Bool
  pub abort_sent : Bool
  pub request_ended : Bool
  pub response_started : Bool
  pub response_ended : Bool
  pub response_paused : Bool
  pub request_writer : Bool
  -- `req.method === 'HEAD'`.
  pub is_head : Bool
  pub agent_paused : Bool
  pub ws_backpressured : Bool
  pub client_paused_for_agent : Bool
  pub peer_paused_read : Bool
  pub local_paused_for_ws : Bool
  pub pending_sends : ℕ
  -- Whether the idle timer is set.
  pub timer : Bool
  pub on_cleanup : OnCleanup
  pub agent_ws : Option ℕ
  pub awaiting_client_ack : Bool
  -- `state.onClientOpenConfirmed`: the agent to answer and the port.
  pub on_client_open_confirmed : Option (ℕ × ℕ)

-- `heap` holds every stream object that was made; a closure refers to one by its place. `streams`
-- maps the ids in use to objects.
pub record Server : Type 0 where
  pub heap : List Stream
  pub streams : List (ℕ × ℕ)
  pub next_stream_id : ℕ
  pub clients : List ℕ
  -- `_connCountByPort` of TcpRouter and of TcpAgentServer.
  pub router_counts : List (ℕ × ℕ)
  pub agent_counts : List (ℕ × ℕ)
  -- `_agentStreams`.
  pub agent_streams : List (ℕ × List ℕ)
  -- Objects whose socket has queued its 'close' event.
  pub microtasks : List ℕ
  pub log : List Effect

abbrev pub put : Server → ℕ → Stream → Server
put w r s = record w { heap = set w.heap r s }

-- What is done to an object by a closure that holds it.
abbrev pub at_stream : Server → ℕ → (Stream → Server) → Server
at_stream w r f = elim (get_elem? w.heap r) [ none ↦ w | some s ↦ f s ]

abbrev pub is_tcp : Mode → Bool
is_tcp http = false
is_tcp tcp = true

abbrev pub is_http : Mode → Bool
is_http http = true
is_http tcp = false

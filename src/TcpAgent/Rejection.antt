-- ===== src/TcpAgent/Rejection.antt =====
-- `handleConnectReject` and `handleConnectAck` of serve/tcp-agent.js, one after the other.
use nodejs_wss_tunnel.Prelude.{
  ℕ, ◌≡◌, refl, false, none, some, List, [], ◌∷◌, length, get_elem?, get_elem?-append_length, arith,
}
use nodejs_wss_tunnel.Prelude.Maps.{lookup, lookup-insert}
use nodejs_wss_tunnel.Protocol.Json.{Doc, doc}
use nodejs_wss_tunnel.TcpAgent.{Pending, Entry, Agent, AgentEnv}
use nodejs_wss_tunnel.TcpAgent.Frames.{
  take_first, is_for, rejected, acknowledged, register_stream, handle_connect_ack,
  handle_connect_reject,
}

take_first-no_port : (ps : List Pending) → take_first (is_for none) ps ≡ none
unfolding take_first
take_first-no_port [] = refl
take_first-no_port (p ∷ ps) = ground (arith, take_first-no_port ps)

-- A rejection without a port closes no pending connection.
handle_connect_reject-no_port :
    (a : Agent) (d : Doc) → d.is_null ≡ false → d.port ≡ none → handle_connect_reject a (doc d) ≡ a
unfolding handle_connect_reject rejected
handle_connect_reject-no_port a d real e = ground (arith, take_first-no_port a.pending_connects)

take_first-here :
    (p : Pending) (rest : List Pending)
    → take_first (is_for (some p.port)) (p ∷ rest) ≡ some (p, rest)
unfolding take_first
take_first-here p rest = ground arith

-- The stream leads to an entry with this socket, and these connections still wait.
pub record IsGiven (id socket : ℕ) (waiting : List Pending) (a : Agent) : Type 0 where
  place : ℕ
  entry : Entry
  leads : lookup id a.streams ≡ some place
  at_place : get_elem? a.entries place ≡ some entry
  has_socket : entry.socket ≡ socket
  still_wait : a.pending_connects ≡ waiting

register_stream-IsGiven :
    (env : AgentEnv) (a : Agent) (id socket : ℕ)
    → env.destroyed socket ≡ false
    → IsGiven id socket a.pending_connects (register_stream env a id socket)
unfolding register_stream
register_stream-IsGiven env a id socket alive = rw alive (record {
  place = length a.entries;
  entry = record {
    socket = socket;
    stream_id = id;
    pending_sends = 0;
    paused_for_ws = false;
    peer_paused_read = false;
    local_write_backpressured = false;
    cleaned = false;
  };
  leads = ground (arith, lookup-insert id id (length a.entries) a.streams);
  at_place = get_elem?-append_length a.entries _;
  has_socket = refl;
  still_wait = refl;
})

-- Of the connections that wait, the first is to a port, its socket is open, and its request is
-- rejected with a document that has no port. When a later request for the port is acknowledged, the
-- stream of that request goes to the rejected connection, and all the others go on waiting.
pub handle_connect_ack-IsGiven :
    (env : AgentEnv) (a : Agent) (p : Pending) (rest : List Pending) (refusal ack : Doc) (id : ℕ)
    → a.pending_connects ≡ p ∷ rest
    → env.destroyed p.local_socket ≡ false
    → refusal.is_null ≡ false
    → refusal.port ≡ none
    → ack.is_null ≡ false
    → ack.port ≡ some p.port
    → IsGiven id p.local_socket rest
        (handle_connect_ack env (handle_connect_reject a (doc refusal)) id (doc ack))
unfolding handle_connect_ack acknowledged
handle_connect_ack-IsGiven env a p rest refusal ack id waits alive real no_port real' port =
    rw
      (
        handle_connect_reject-no_port a refusal real no_port,
        real',
        port,
        waits,
        take_first-here p rest,
      )
      (register_stream-IsGiven env (record a { pending_connects = rest }) id p.local_socket alive)

-- ===== src/Server/Heartbeat.antt =====
-- The heartbeats of src/server/ClientManager.js and src/tcp/TcpAgentServer.js, which are the same loop
-- over the clients and over the agents, and the closing of one WebSocket at shutdown, the same too.
use nodejs_wss_tunnel.Prelude.{ℕ, Bool, true, false, not, List, [], ◌∷◌, ◌++◌, ◌==◌, if◌then◌else◌}
use nodejs_wss_tunnel.Server.Clients.{contains, without}

-- Calls on a WebSocket.
pub data Call : Type 0 where
  ping terminate : ℕ → Call

-- The WebSockets that are watched, in the order of the `Set` or the `Map`, their `isAlive`, and the
-- calls, the newest first.
pub record Watch : Type 0 where
  pub sockets : List ℕ
  pub is_alive : ℕ → Bool
  pub calls : List Call

abbrev pub set_alive : (ℕ → Bool) → ℕ → Bool → ℕ → Bool
set_alive is_alive ws b other = if other == ws then b else is_alive other

-- One round of the timer's loop: the flags and the call.
abbrev pub one_beat : (ℕ → Bool) → ℕ → (ℕ → Bool) × Call
one_beat is_alive ws =
    if not (is_alive ws) then (is_alive, terminate ws) else (set_alive is_alive ws false, ping ws)

-- The loop.
unfoldable pub beat : List ℕ → (ℕ → Bool) → List Call → (ℕ → Bool) × List Call
beat [] is_alive calls = (is_alive, calls)
beat (ws ∷ sockets) is_alive calls =
    let (is_alive', call) = one_beat is_alive ws in beat sockets is_alive' (call ∷ calls)

pub data Beat : Type 0 where
  -- `addClient` and `handleConnection`, 'pong', and the removal on 'close' or 'error'.
  joined pong left : ℕ → Beat
  tick : Beat

unfoldable pub on_beat : Watch → Beat → Watch
on_beat w (joined ws) = record w {
  sockets = if contains ws w.sockets then w.sockets else w.sockets ++ ws ∷ [];
  is_alive = set_alive w.is_alive ws true;
}
on_beat w (pong ws) = record w { is_alive = set_alive w.is_alive ws true }
on_beat w (left ws) = record w { sockets = without ws w.sockets }
on_beat w tick =
    let (is_alive, calls) = beat w.sockets w.is_alive w.calls in
    record w { is_alive = is_alive; calls = calls }

unfoldable pub beats : Watch → List Beat → Watch
beats w [] = w
beats w (e ∷ es) = beats (on_beat w e) es

-- ===== src/Server/Closing.antt =====
-- `closeClient` of src/server/ClientManager.js and `closeAgentWs` of src/tcp/TcpAgentServer.js, which
-- are the same, and the wait for all of them in `close`.
use nodejs_wss_tunnel.Prelude.{ℕ, ◌+◌, Bool, true, false, List, [], ◌∷◌, ◌==◌, if◌then◌else◌}
use nodejs_wss_tunnel.Net.{Env}
use nodejs_wss_tunnel.Server.State.{Server}
use nodejs_wss_tunnel.Server.AgentServer.{cleanup_agent}

-- One promise: `settled`, whether its timer runs, how often `resolve` was called, and whether
-- `terminate` was.
pub record Closing : Type 0 where
  pub socket : ℕ
  pub settled : Bool
  pub timer : Bool
  pub resolved : ℕ
  pub terminated : Bool

-- `finish`.
abbrev pub finish : Closing → Closing
finish c =
    if c.settled then c else record c { settled = true; timer = false; resolved = c.resolved + 1 }

-- The promise, where `throws` says whether `ws.close` does.
unfoldable pub close_socket : ℕ → Bool → Closing
close_socket ws throws =
    let c : Closing = record {
      socket = ws;
      settled = false;
      timer = true;
      resolved = 0;
      terminated = false;
    } in
    if throws then finish c else c

pub data ClosingEvent : Type 0 where
  -- The timer fires, if it still runs, or the WebSocket's 'close'.
  timeout closed : ClosingEvent

unfoldable pub on_closing : Closing → ClosingEvent → Closing
on_closing c timeout = if c.timer then finish (record c { terminated = true }) else c
on_closing c closed = finish c

-- An event of one WebSocket, among the promises of `close`.
unfoldable pub closing_step : List Closing → ℕ → ClosingEvent → List Closing
closing_step [] ws e = []
closing_step (c ∷ cs) ws e = (if c.socket == ws then on_closing c e else c) ∷ closing_step cs ws e

unfoldable pub closing_run : List Closing → List (ℕ × ClosingEvent) → List Closing
closing_run cs [] = cs
closing_run cs ((ws, e) ∷ es) = closing_run (closing_step cs ws e) es

-- `Promise.allSettled` over these.
unfoldable pub close_all : List (ℕ × Bool) → List Closing
close_all [] = []
close_all ((ws, throws) ∷ sockets) = close_socket ws throws ∷ close_all sockets

-- `close` of TcpAgentServer.js, over the agents of `_agentStreams` when it begins, with what the
-- `close` of each does: the server after the clean-up of each, and the promises.
unfoldable pub close_agents : Env → Server → List (ℕ × Bool) → Server × List Closing
close_agents env w [] = (w, [])
close_agents env w ((ws, throws) ∷ sockets) =
    let (w', closings) = close_agents env (cleanup_agent env w ws "Server shutting down") sockets in
    (w', close_socket ws throws ∷ closings)

-- ===== src/TunnelServer.antt =====
-- src/server/TunnelServer.js: how the components are put together, closed and ended with the process.
pub mod Admitted
pub mod Quiet
pub mod Exits
mod Tests
use nodejs_wss_tunnel.Prelude.{
  ℕ, suc, Bool, true, false, Option, none, some, is_some, List, [], ◌∷◌, map, if◌then◌else◌,
}
use nodejs_wss_tunnel.Net.{Env}
use nodejs_wss_tunnel.Server.State.{Server}
use nodejs_wss_tunnel.Server.Clients.{add_client, get_active_client}
use nodejs_wss_tunnel.Server.AgentServer.{connect_agent}
use nodejs_wss_tunnel.Server.HttpProxy.{HttpRequest, Answer, proxy_http_request}
use nodejs_wss_tunnel.Server.Listeners.{Listening, CloseResult, close_router}
use nodejs_wss_tunnel.Server.Closing.{Closing, close_all, close_agents}
use nodejs_wss_tunnel.Gateway.Auth.{Crypto}
use nodejs_wss_tunnel.Gateway.Upgrade.{
  Settings, Upgrade, Upgraded, rejected, to_agents, to_clients, handle_upgrade,
}
use nodejs_wss_tunnel.Gateway.Routes.{Route, proxy, handle_request, serves_agents}

-- The 'connection' listeners of the two WebSocket servers.
unfoldable pub on_connection : Env → Server → ℕ → Upgraded → Server
on_connection env w ws (rejected status) = w
on_connection env w ws to_agents = connect_agent w ws
on_connection env w ws to_clients = (add_client env w ws).0

-- The 'upgrade' listener, for a request whose WebSocket would be `ws`; `agentWss` is there when agents
-- are served.
unfoldable pub on_upgrade : Crypto → Settings → Env → Server → Upgrade → ℕ → Server
on_upgrade crypto settings env w req ws =
    on_connection env w ws (handle_upgrade crypto settings (serves_agents settings) req)

-- The answer of the request listener: a page of the program's own, or what the proxy says.
pub data Served : Type 0 where
  page : Route → Served
  forwarded : Answer → Served

unfoldable pub serve_route : Env → Server → HttpRequest → Route → Server × Served
serve_route env w req proxy =
    let (w', answer) = proxy_http_request env w req in (w', forwarded answer)
serve_route env w req route = (w, page route)

-- The 'request' listener; `path` is the URL before its '?'.
unfoldable pub on_request : Settings → Env → Server → HttpRequest → List ℕ → Server × Served
on_request settings env w req path =
    serve_route env w req
      (handle_request settings req.method path (is_some (get_active_client env w)))

-- What the closing components answer: the listeners of the router, and whether `ws.close` throws.
pub record CloseEnv : Type 0 where
  pub env : Env
  pub results : List CloseResult
  pub throws : ℕ → Bool

abbrev pub with_throws : (ℕ → Bool) → List ℕ → List (ℕ × Bool)
with_throws throws [] = []
with_throws throws (ws ∷ sockets) = (ws, throws ws) ∷ with_throws throws sockets

-- The components after the calls of `_closeComponents`, up to their first waits.
pub record Components : Type 0 where
  pub listening : Listening
  pub clients : List Closing
  pub agents : List Closing

unfoldable pub close_components : CloseEnv → Listening → Components
close_components ce l =
    let (closed, all_well) = close_router ce.env l ce.results in
    let (server, agents) =
      close_agents ce.env closed.server
        (with_throws ce.throws (map (λ (e : ℕ × List ℕ). e.0) closed.server.agent_streams)) in
    record {
      listening = record closed { server = server };
      clients = close_all (with_throws ce.throws closed.server.clients);
      agents = agents;
    }

-- The process: `_shuttingDown`, how often `_closeComponents` was called, whether the promise of the
-- first `shutdown` is waited for and if an exception began it, whether its timer runs, and the exit
-- code once the process has ended.
pub record Process : Type 0 where
  pub shutting_down : Bool
  pub closes : ℕ
  pub waits : Option Bool
  pub timer : Bool
  pub exit_code : Option ℕ

abbrev pub running : Process
running = record {
  shutting_down = false;
  closes = 0;
  waits = none;
  timer = false;
  exit_code = none;
}

pub data ProcessEvent : Type 0 where
  -- SIGTERM or SIGINT, an exception that nothing catches, the end of `close`, and the end of the
  -- graceful time.
  signal uncaught_exception components_closed time_out : ProcessEvent

-- `close`: `_closePromise` is set with `_shuttingDown`, and kept.
unfoldable pub close : Process → Process
close p = if p.shutting_down then p else record p { shutting_down = true; closes = suc p.closes }

-- `shutdown`, after an exception or a signal.
unfoldable pub shutdown : Process → Bool → Process
shutdown p by_exception =
    if p.shutting_down then p else record (close p) { waits = some by_exception; timer = true }

abbrev pub exit : Process → ℕ → Process
exit p code = record p { exit_code = some code; waits = none; timer = false }

unfoldable pub finish_shutdown : Process → Option Bool → Process
finish_shutdown p none = p
finish_shutdown p (some by_exception) = exit p (if by_exception then 1 else 0)

-- One event of a process that has not ended.
unfoldable pub on_event : Process → ProcessEvent → Process
on_event p signal = shutdown p false
on_event p uncaught_exception = shutdown p true
on_event p components_closed = finish_shutdown p p.waits
on_event p time_out = if p.timer then exit p 1 else p

unfoldable pub process_step : Process → ProcessEvent → Process
process_step p e = if is_some p.exit_code then p else on_event p e

unfoldable pub process_run : Process → List ProcessEvent → Process
process_run p [] = p
process_run p (e ∷ es) = process_run (process_step p e) es

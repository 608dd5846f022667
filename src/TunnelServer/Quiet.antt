-- ===== src/TunnelServer/Quiet.antt =====
-- The streams that `_closeComponents` of src/server/TunnelServer.js leaves.
use nodejs_wss_tunnel.Prelude.{
  ℕ, ◌≡◌, inl, inr, Bool, false, Bool-cases, some, List, [], ◌∷◌, arith,
}
use nodejs_wss_tunnel.Prelude.Maps.{lookup}
use nodejs_wss_tunnel.Net.{Env}
use nodejs_wss_tunnel.Server.State.{Server, Stream, is_tcp}
use nodejs_wss_tunnel.Server.AgentServer.{AgentOptions, cleanup_agent}
use nodejs_wss_tunnel.Server.Closing.{close_agents}
use nodejs_wss_tunnel.Server.Listeners.{Listening, close_router}
use nodejs_wss_tunnel.Server.Run.{Event, run, start}
use nodejs_wss_tunnel.Server.Stable.{At, IsStable}
use nodejs_wss_tunnel.Server.StableAgents.{cleanup_agent_P}
use nodejs_wss_tunnel.Server.Registry.{run-IsRegistry}
use nodejs_wss_tunnel.Server.Entries.{Lacks}
use nodejs_wss_tunnel.Server.Swept.{Lacks-IsStable, Shrinks, stable-Shrinks, was_there}
use nodejs_wss_tunnel.Server.Stopped.{close_router_P, close_router-Lacks}
use nodejs_wss_tunnel.TunnelServer.{CloseEnv, close_components}

module _ (P : Server → Type 0) (stable : IsStable P) where
  close_agents_P :
      (env : Env) (sockets : List (ℕ × Bool)) (w : Server) → P w → P (close_agents env w sockets).0
  unfolding close_agents
  close_agents_P env [] w h = h
  close_agents_P env ((ws, throws) ∷ sockets) w h =
      close_agents_P env sockets (cleanup_agent env w ws "Server shutting down")
        (cleanup_agent_P P stable env w ws "Server shutting down" h)

  close_components_P :
      (ce : CloseEnv) (l : Listening)
      → P (close_router ce.env l ce.results).0.server
      → P (close_components ce l).listening.server
  unfolding close_components
  close_components_P ce l h = close_agents_P ce.env _ (close_router ce.env l ce.results).0.server h

close_components-Shrinks :
    (ce : CloseEnv) (l : Listening) → Shrinks l.server (close_components ce l).listening.server
close_components-Shrinks ce l =
    stable-Shrinks l.server (close_components ce l).listening.server (λ P stable h.
      close_components_P P stable ce l (close_router_P P stable ce.env l ce.results h))

-- The server after a history and `_closeComponents`.
abbrev pub closed_after : AgentOptions → List (Env × Event) → List ℕ → CloseEnv → Server
closed_after o es ports ce =
    (close_components ce (record { ports = ports; server = run o start es })).listening.server

-- When the components are closed, after whatever history of the server and whatever the listeners and
-- the WebSockets answer, no entry of the map of streams leads to a TCP stream, and those that are left
-- were there before.
pub close_components-stops :
    (o : AgentOptions) (es : List (Env × Event)) (ports : List ℕ) (ce : CloseEnv) (id r : ℕ)
    (s : Stream)
    → lookup id (closed_after o es ports ce).streams ≡ some r
    → At (closed_after o es ports ce) r s
    → (is_tcp s.mode ≡ false) × (lookup id (run o start es).streams ≡ some r)
close_components-stops o es ports ce id r s found here =
    let l : Listening = record { ports = ports; server = run o start es } in
    let (e, live) =
      was_there l.server (closed_after o es ports ce) id r s (run-IsRegistry o es)
        (close_components-Shrinks ce l) found here in
    elim (Bool-cases (is_tcp s.mode)) [
      | inl is ↦ absurd (
          ground (
            arith,
            found,
            close_components_P (Lacks id) (Lacks-IsStable id) ce l
                (close_router-Lacks ce.env l ce.results id r s.ws s.mode e live is),
          ))
      | inr not_tcp ↦ (not_tcp, e)
    ]

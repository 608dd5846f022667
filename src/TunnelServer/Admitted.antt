-- ===== src/TunnelServer/Admitted.antt =====
-- Which WebSockets src/server/TunnelServer.js gives to the managers.
use nodejs_wss_tunnel.Prelude.{
  ℕ, ◌≡◌, refl, subst, ◌⊎◌, inl, inr, Bool, true, Bool-cases, ==_iff, is_some, List, [], ◌∷◌, ◌++◌,
  length, leb, arith, ◌==◌,
}
use nodejs_wss_tunnel.Prelude.Maps.{lookup, lookup-insert}
use nodejs_wss_tunnel.Net.{Env}
use nodejs_wss_tunnel.Server.State.{Server}
use nodejs_wss_tunnel.Server.Clients.{contains, add_client}
use nodejs_wss_tunnel.Server.AgentServer.{connect_agent}
use nodejs_wss_tunnel.Gateway.Auth.{Crypto}
use nodejs_wss_tunnel.Gateway.Upgrade.{
  Settings, Upgrade, Upgraded, rejected, to_agents, to_clients, handle_upgrade,
}
use nodejs_wss_tunnel.Gateway.Routes.{serves_agents}
use nodejs_wss_tunnel.Gateway.Admission.{IsAgentRequest, IsClientRequest, handle_upgrade-IsAdmitted}
use nodejs_wss_tunnel.TunnelServer.{on_connection, on_upgrade}

contains-append :
    (c ws : ℕ) (clients : List ℕ)
    → contains c (clients ++ ws ∷ []) ≡ true
    → (contains c clients ≡ true) ⊎ (ws ≡ c)
contains-append c ws [] h = inr (ground (arith, h))
contains-append c ws (k ∷ clients) h = elim (Bool-cases (k == c)) [
  | inl same ↦ inl (ground (arith, same))
  | inr other ↦ elim (contains-append c ws clients (ground (arith, h, other))) [
    | inl there ↦ inl (ground (arith, there))
    | inr is ↦ inr is
  ]
]

add_client-contains :
    (env : Env) (w : Server) (ws c : ℕ)
    → contains c (add_client env w ws).0.clients ≡ true
    → (contains c w.clients ≡ true) ⊎ (ws ≡ c)
unfolding add_client
add_client-contains env w ws c h =
    elim (Bool-cases (leb env.max_tunnel_clients (length w.clients))) [
      | inl full ↦ inl (ground (arith, h, full))
      | inr room ↦ elim (Bool-cases (contains ws w.clients)) [
        | inl there ↦ inl (ground (arith, h, room, there))
        | inr new ↦ contains-append c ws w.clients (ground (arith, h, room, new))
      ]
    ]

add_client-agents :
    (env : Env) (w : Server) (ws : ℕ) → (add_client env w ws).0.agent_streams ≡ w.agent_streams
unfolding add_client
add_client-agents env w ws = elim (Bool-cases (leb env.max_tunnel_clients (length w.clients))) [
  | inl full ↦ ground (arith, full)
  | inr room ↦ ground (arith, room)
]

-- The two kinds of WebSocket, those a server holds, and what a request to become one must fulfil.
pub data Role : Type 0 where
  client agent : Role

abbrev pub holds : Role → Server → ℕ → Bool
holds client w c = contains c w.clients
holds agent w c = is_some (lookup c w.agent_streams)

module _ (crypto : Crypto) (settings : Settings) where
  abbrev pub MayJoin : Role → Upgrade → Type 0
  MayJoin client req = IsClientRequest crypto settings (serves_agents settings) req
  MayJoin agent req = IsAgentRequest crypto settings (serves_agents settings) req

  module _ (env : Env) (w : Server) (req : Upgrade) (ws c : ℕ) where
    joined :
        (role : Role) (result : Upgraded)
        → handle_upgrade crypto settings (serves_agents settings) req ≡ result
        → holds role (on_connection env w ws result) c ≡ true
        → (holds role w c ≡ true) ⊎ ((ws ≡ c) × MayJoin role req)
    unfolding on_connection connect_agent
    joined role (rejected status) e h = inl h
    joined client to_agents e h = inl h
    joined agent to_clients e h =
        inl (subst (λ m. is_some (lookup c m) ≡ true) (add_client-agents env w ws) h)
    joined client to_clients e h = elim (add_client-contains env w ws c h) [
      | inl there ↦ inl there
      | inr is ↦
          inr (is, ((handle_upgrade-IsAdmitted crypto settings (serves_agents settings) req).1).0 e)
    ]
    joined agent to_agents e h = elim (Bool-cases (ws == c)) [
      | inl is ↦ inr (
        (==_iff ws c).0 is,
        ((handle_upgrade-IsAdmitted crypto settings (serves_agents settings) req).0).0 e,
      )
      | inr other ↦ inl (ground (arith, h, other, lookup-insert ws c [] w.agent_streams))
    ]

    -- A WebSocket that the server holds after an upgrade, as a tunnel client or as an agent, was held
    -- as the same before, or is that of the upgrade, and the request fulfils what that kind asks for.
    pub on_upgrade-admits :
        (role : Role)
        → holds role (on_upgrade crypto settings env w req ws) c ≡ true
        → (holds role w c ≡ true) ⊎ ((ws ≡ c) × MayJoin role req)
    unfolding on_upgrade
    on_upgrade-admits role h =
        joined role (handle_upgrade crypto settings (serves_agents settings) req) refl h

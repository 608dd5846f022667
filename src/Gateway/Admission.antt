-- ===== src/Gateway/Admission.antt =====
-- Which upgrades `handleUpgrade` of src/server/HttpRouter.js admits.
use nodejs_wss_tunnel.Prelude.{◌≡◌, ◌≢◌, refl, ◌↔◌, ◌⊎◌, Bool, true, false, arith}
use nodejs_wss_tunnel.Prelude.Text.{is_empty, includes_text}
use nodejs_wss_tunnel.Prelude.Split.{same_text-≢, ≢→same_text, same_text-≡, same_text_refl}
use nodejs_wss_tunnel.Gateway.Auth.{Crypto, verify_basic_auth}
use nodejs_wss_tunnel.Gateway.Upgrade.{
  Settings, Upgrade, to_agents, to_clients, is_none, is_agent_request_secure, path_of,
  upgrade_agent, handle_upgrade,
}

module _ (crypto : Crypto) (settings : Settings) (has_agents : Bool) (req : Upgrade) where
  -- What an agent's request must fulfil.
  pub record IsAgentRequest : Type 0 where
    at_path : path_of req ≡ settings.agent_path
    served : has_agents ≡ true
    secure :
        (settings.agent_require_tls ≡ false)
        ⊎ (is_agent_request_secure req settings.agent_trusted_proxies ≡ true)
    from_origin :
        (is_empty req.origin ≡ true)
        ⊎ (is_none settings.agent_allowed_origins ≡ true)
        ⊎ (includes_text req.origin settings.agent_allowed_origins ≡ true)
    authorised :
        verify_basic_auth crypto req.authorization settings.agent_username settings.agent_password
        ≡ true

  -- What a tunnel client's request must fulfil.
  pub record IsClientRequest : Type 0 where
    other_path : path_of req ≢ settings.agent_path
    at_path : path_of req ≡ settings.tunnel_path
    authorised :
        verify_basic_auth crypto req.authorization settings.username settings.password ≡ true

  agent_true :
      upgrade_agent crypto settings has_agents req ≡ to_agents
      → path_of req ≡ settings.agent_path
      → IsAgentRequest
  unfolding upgrade_agent
  agent_true e p = record {
    at_path = p;
    served = ground arith;
    secure = ground arith;
    from_origin = ground arith;
    authorised = ground arith;
  }

  admitted_agent : IsAgentRequest → handle_upgrade crypto settings has_agents req ≡ to_agents
  unfolding handle_upgrade upgrade_agent
  admitted_agent h =
      rw (h.at_path, same_text_refl settings.agent_path)
        (ground (arith, h.served, h.secure, h.from_origin, h.authorised))

  to_agents-IsAgentRequest :
      handle_upgrade crypto settings has_agents req ≡ to_agents → IsAgentRequest
  unfolding handle_upgrade
  to_agents-IsAgentRequest e =
      agent_true (ground arith) (same_text-≡ (path_of req) settings.agent_path (ground arith))

  to_clients-IsClientRequest :
      handle_upgrade crypto settings has_agents req ≡ to_clients → IsClientRequest
  unfolding handle_upgrade upgrade_agent
  to_clients-IsClientRequest e = record {
    other_path = same_text-≢ (path_of req) settings.agent_path (ground arith);
    at_path = same_text-≡ (path_of req) settings.tunnel_path (ground arith);
    authorised = ground arith;
  }

  admitted_client : IsClientRequest → handle_upgrade crypto settings has_agents req ≡ to_clients
  unfolding handle_upgrade
  admitted_client h =
      rw
        (
          ≢→same_text (path_of req) settings.agent_path h.other_path,
          h.at_path,
          same_text_refl settings.tunnel_path,
          h.authorised,
        )
        refl

  -- For any settings: an upgrade becomes an agent's WebSocket exactly if it asks for the agents'
  -- path, agents are served, its connection is secure where TLS is required, its origin is none or
  -- one that is allowed, where any are named, and its credentials are the agents'; and it becomes a
  -- tunnel client's exactly if it asks for the tunnel's path, which is not the agents', and its
  -- credentials are the clients'.
  pub handle_upgrade-IsAdmitted :
      ((handle_upgrade crypto settings has_agents req ≡ to_agents) ↔ IsAgentRequest)
      × ((handle_upgrade crypto settings has_agents req ≡ to_clients) ↔ IsClientRequest)
  handle_upgrade-IsAdmitted =
      ((to_agents-IsAgentRequest, admitted_agent), (to_clients-IsClientRequest, admitted_client))

-- ===== src/Server/FlowLaws.antt =====
-- `syncTcpBackpressure` of src/tcp/TcpFlowControl.js.
use nodejs_wss_tunnel.Prelude.{◌≡◌, ◌||◌, List, arith}
use nodejs_wss_tunnel.Net.{Env, Effect}
use nodejs_wss_tunnel.Server.State.{Stream}
use nodejs_wss_tunnel.Server.FlowControl.{sync_tcp_backpressure}

-- For any stream: after `syncTcpBackpressure` the tunnel client counts as paused exactly if the agent
-- is paused or the WebSocket is backpressured, and a second call changes and sends nothing.
pub sync_tcp_backpressure-settles :
    (env : Env) (s : Stream) (log : List Effect)
    → ((sync_tcp_backpressure env s log).0.client_paused_for_agent
        ≡ (s.agent_paused || s.ws_backpressured))
      × (sync_tcp_backpressure env
            (sync_tcp_backpressure env s log).0
            (sync_tcp_backpressure env s log).1
          ≡ sync_tcp_backpressure env s log)
unfolding sync_tcp_backpressure
sync_tcp_backpressure-settles env s log = (ground arith, ground arith)

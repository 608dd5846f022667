-- ===== src/TunnelServer/Tests.antt =====
-- The server of src/server/TunnelServer.js at concrete events.
use nodejs_wss_tunnel.Prelude.{ℕ, ◌≡◌, refl, ◌⊎◌, true, false, some, List, [], ◌∷◌}
use nodejs_wss_tunnel.Prelude.Maps.{lookup, insert, remove, has}
use nodejs_wss_tunnel.Net.{Env}
use nodejs_wss_tunnel.Server.State.{Stream, http, is_tcp}
use nodejs_wss_tunnel.Server.FlowControl.{sync_tcp_backpressure}
use nodejs_wss_tunnel.Server.Streams.{
  new_stream, alloc_loop, allocate_stream_id, run_on_cleanup, cleanup_tcp_stream, abort_tcp_stream,
  create_tcp_stream, create_stream,
}
use nodejs_wss_tunnel.Server.Clients.{get_active_client, add_client}
use nodejs_wss_tunnel.Server.Router.{
  throttle, close_all, run_microtasks, announce, open_stream, connect_id, connect_client,
  handle_connection,
}
use nodejs_wss_tunnel.Server.HttpProxy.{
  HttpRequest, header, open_request, with_id, with_client, proxy_http_request,
}
use nodejs_wss_tunnel.Server.Run.{Event, run, start, step, handle, client_open, connection, request}
use nodejs_wss_tunnel.Server.Listeners.{closed_well, close_router, get_tcp_streams, abort_each}
use nodejs_wss_tunnel.Server.Closing.{close_agents}
use nodejs_wss_tunnel.Server.Tests.{calm, options}
use nodejs_wss_tunnel.Server.AgentServer.{connect_agent}
use nodejs_wss_tunnel.Gateway.Tests.{plain, settings, upgrade, handle_upgrade-agent}
use nodejs_wss_tunnel.TunnelServer.Admitted.{agent, holds, MayJoin, on_upgrade-admits}
use nodejs_wss_tunnel.TunnelServer.{
  close_components, on_connection, on_upgrade, signal, uncaught_exception, components_closed,
  time_out, running, process_run,
}
use nodejs_wss_tunnel.TunnelServer.Quiet.{close_components-stops}
use nodejs_wss_tunnel.TunnelServer.Exits.{life, process_run-exits}

process_run-exits_example :
    ((process_run running (
        life
          (components_closed ∷ [])
          signal
          (uncaught_exception ∷ [])
          time_out
          (signal ∷ []))).exit_code
      ≡ some 1)
    × ((process_run running (
          life
            (components_closed ∷ [])
            signal
            (uncaught_exception ∷ [])
            time_out
            (signal ∷ []))).closes
        ≡ 1)
process_run-exits_example =
    process_run-exits (components_closed ∷ []) (uncaught_exception ∷ []) (signal ∷ []) signal
      time_out refl refl refl refl

-- A GET without headers.
abbrev get : HttpRequest
get = record { method = "GET"; url = "/"; headers = []; remote_address = ""; encrypted = false }

-- A client with an HTTP stream and an external connection.
abbrev busy : List (Env × Event)
busy = (calm, client_open 7) ∷ (calm, request get) ∷ (calm, connection true 6379) ∷ []

abbrev request_stream : Stream
request_stream = record (new_stream http 7 1) { request_writer = true }

close_components-stops_example :
    (is_tcp request_stream.mode ≡ false) × (lookup 1 (run options start busy).streams ≡ some 0)
unfolding run step handle add_client get_active_client proxy_http_request with_client with_id
    open_request create_stream allocate_stream_id alloc_loop has header handle_connection
    connect_client connect_id open_stream announce create_tcp_stream throttle sync_tcp_backpressure
    run_microtasks close_all insert lookup remove close_components close_router close_agents
    get_tcp_streams abort_each abort_tcp_stream cleanup_tcp_stream run_on_cleanup
close_components-stops_example =
    close_components-stops options busy (6379 ∷ [])
      (record { env = calm; results = closed_well ∷ []; throws = λ ws. false }) 1 0 request_stream
      refl refl

-- An agent that the test settings admit.
on_upgrade-admits_example :
    (holds agent start 9 ≡ true) ⊎ ((◌≡◌ {A = ℕ} 9 9) × MayJoin plain settings agent upgrade)
unfolding on_upgrade on_connection connect_agent insert lookup
on_upgrade-admits_example =
    on_upgrade-admits plain settings calm start upgrade 9 9 agent (rw handle_upgrade-agent refl)

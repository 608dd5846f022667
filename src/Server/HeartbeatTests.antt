-- ===== src/Server/HeartbeatTests.antt =====
-- Two WebSockets, of which one answers, and their end.
use nodejs_wss_tunnel.Prelude.{◌≡◌, refl, true, false, List, [], ◌∷◌}
use nodejs_wss_tunnel.Server.Heartbeat.{Watch, Beat, pong, tick, on_beat, beats}
use nodejs_wss_tunnel.Server.Silence.{is_terminated, beats-terminates}
use nodejs_wss_tunnel.Server.Answers.{beats-never_terminates}
use nodejs_wss_tunnel.Server.Closing.{closed, closing_run, close_agents}
use nodejs_wss_tunnel.Server.Shutdown.{all_resolved_once, close_agents-resolves}
use nodejs_wss_tunnel.Server.Run.{start}
use nodejs_wss_tunnel.Server.Tests.{calm}

abbrev watch : Watch
watch = record { sockets = 7 ∷ 8 ∷ []; is_alive = λ ws. true; calls = [] }

beats-terminates_example :
    is_terminated 7 (on_beat (beats (on_beat watch tick) (pong 8 ∷ [])) tick).calls ≡ true
beats-terminates_example = beats-terminates 7 watch (pong 8 ∷ []) refl refl

abbrev answered : List Beat
answered = tick ∷ pong 8 ∷ tick ∷ pong 8 ∷ tick ∷ []

beats-never_terminates_example : is_terminated 8 (beats watch answered).calls ≡ false
beats-never_terminates_example = beats-never_terminates 8 watch answered refl refl refl refl

close_agents-resolves_example :
    all_resolved_once (closing_run (close_agents calm start ((7, false) ∷ [])).1 ((7, closed) ∷ []))
    ≡ true
close_agents-resolves_example =
    close_agents-resolves calm start ((7, false) ∷ []) ((7, closed) ∷ []) refl

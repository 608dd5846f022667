-- ===== src/TcpAgent/Tests.antt =====
-- Runs of the agent, and the theorems at concrete events.
use nodejs_wss_tunnel.Prelude.{◌≡◌, refl, true, false, none, some, List, [], ◌∷◌, arith}
use nodejs_wss_tunnel.Protocol.Json.{Doc, doc}
use nodejs_wss_tunnel.Net.{accepted}
use nodejs_wss_tunnel.TcpAgent.{Agent, AgentEnv, mark_ready_if_eligible, all_listening}
use nodejs_wss_tunnel.TcpAgent.Frames.{handle_connect_ack, handle_connect_reject}
use nodejs_wss_tunnel.TcpAgent.Events.{
  AgentEvent, opened, disconnected, listening, connected, agent_handle, agent_run, without,
}
use nodejs_wss_tunnel.TcpAgent.Ready.{IsSound, agent_run-IsSound}
use nodejs_wss_tunnel.TcpAgent.Rejection.{IsGiven, handle_connect_ack-IsGiven}

abbrev started : Agent
started = record {
  pending_connects = [];
  streams = [];
  entries = [];
  listening_ports = [];
  ready = false;
  shutting_down = false;
  auth_failed = false;
  reconnect_delay = 1000;
  reconnect_attempt = 0;
  timer_set = false;
  crashed = false;
  has_web_socket = true;
  log = [];
}

abbrev online : AgentEnv
online = record {
  requested_ports = 6379 ∷ [];
  initial_delay = 1000;
  ws_high_water = 1024;
  ws_low_water = 512;
  ws_ready = true;
  send_throws = λ log. false;
  buffered_amount = λ log. 0;
  socket_write = λ log socket. accepted;
  destroyed = λ socket. false;
  parse_json = λ bytes. none;
}

abbrev day : List (AgentEnv × AgentEvent)
day = (online, opened) ∷ (online, listening 6379) ∷ (online, connected 4 6379) ∷ []

abbrev night : List (AgentEnv × AgentEvent)
night = (online, opened) ∷ (online, listening 6379) ∷ (online, disconnected) ∷ []

agent_run-IsSound_example : IsSound (6379 ∷ []) 30000 (agent_run started night)
agent_run-IsSound_example =
    agent_run-IsSound (6379 ∷ []) 30000 (omega arith) started night
      (
        record { asked = refl; starts = omega arith },
        (
          record { asked = refl; starts = omega arith },
          (record { asked = refl; starts = omega arith }, tt),
        ),
      )
      (record { listens = λ on. ground arith; serves = λ on. refl; patient = omega arith })

day-ready : (agent_run started day).ready ≡ true
unfolding agent_run agent_handle mark_ready_if_eligible all_listening without
day-ready = refl

abbrev waiting : Agent
waiting = record started {
  pending_connects =
      record { local_socket = 4; port = 6379 } ∷ record { local_socket = 5; port = 6379 } ∷ [];
}

-- `{ message: 'Port not allowed' }`.
abbrev refusal : Doc
refusal = record {
  is_null = false;
  message = some "Port not allowed";
  host = "";
  port = none;
  status_code = none;
  headers = [];
  method = "GET";
  has_body = false;
}

-- The connection 4 is refused; the acknowledgement of that of 5 gives it the stream 9.
handle_connect_ack-IsGiven_example : IsGiven 9 4 (record { local_socket = 5; port = 6379 } ∷ []) (
    handle_connect_ack online
      (handle_connect_reject waiting (doc refusal))
      9
      (doc (record refusal { message = none; port = some 6379 })))
handle_connect_ack-IsGiven_example =
    handle_connect_ack-IsGiven online waiting (record { local_socket = 4; port = 6379 })
      (record { local_socket = 5; port = 6379 } ∷ []) refusal
      (record refusal { message = none; port = some 6379 }) 9 refl refl refl refl refl refl

-- ===== src/VirtualSocket/Tests.antt =====
-- Runs of the virtual socket, and the theorems at concrete calls.
use nodejs_wss_tunnel.Prelude.{◌≡◌, refl, true, false, none, List, [], ◌∷◌, ◌++◌, arith}
use nodejs_wss_tunnel.Net.{Env, Config, accepted}
use nodejs_wss_tunnel.VirtualSocket.{
  VirtualSocket, create_virtual_socket, pause_socket, resume_socket, push_inbound,
}
use nodejs_wss_tunnel.VirtualSocket.Inbound.{
  Call, call, calls, pauses, resumes, pushes, emitted, taken, IsValid, calls-IsValid, calls-emitted,
}

abbrev small : Config
small = record {
  ws_high_water = 1024;
  ws_low_water = 512;
  max_dest_buffer_bytes = 4;
  max_concurrent_streams = 3;
  max_tunnel_clients = 1;
  tcp_max_connections_per_port = 1;
  tcp_tunnel_host = "127.0.0.1";
}

abbrev calm : Env
calm = record {
  config = small;
  is_open = λ ws. true;
  send_throws = λ log ws. false;
  buffered_amount = λ log ws. 0;
  socket_write = λ log r. accepted;
  response_throws = λ log r. false;
  response_write = λ log r. accepted;
  writable_length = λ r. 0;
  writable_ended = λ r. false;
  to_lower_case = λ s. s;
  parse_json = λ bytes. none;
}

abbrev fresh : VirtualSocket
fresh = create_virtual_socket 7 1

-- Paused, two chunks arrive, resumed, and a third passes through.
abbrev talk : List Call
talk = pauses ∷ pushes (1 ∷ 2 ∷ []) ∷ pushes (3 ∷ []) ∷ resumes ∷ pushes (4 ∷ []) ∷ []

abbrev valid : IsValid calm fresh
valid = record { counted = refl; bounded = omega arith; flowing = λ _. refl }

talk_order : emitted (calls calm fresh talk).1 ≡ (1 ∷ 2 ∷ []) ∷ (3 ∷ []) ∷ (4 ∷ []) ∷ []
unfolding calls call pause_socket resume_socket push_inbound
talk_order = refl

calls-IsValid_example : IsValid calm (calls calm fresh talk).0
calls-IsValid_example = calls-IsValid calm fresh talk valid

calls-emitted_example :
    emitted (calls calm fresh talk).1 ++ (calls calm fresh talk).0.buffered
    ≡ fresh.buffered ++ taken calm fresh talk
calls-emitted_example = calls-emitted calm fresh talk valid

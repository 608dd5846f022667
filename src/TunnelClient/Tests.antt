-- ===== src/TunnelClient/Tests.antt =====
-- Runs of the tunnel client, and the theorems at concrete events.
use nodejs_wss_tunnel.Prelude.{
  ℕ, ◌≤◌, ◌≡◌, ◌≢◌, refl, true, false, none, some, List, [], ◌∷◌, length, arith,
}
use nodejs_wss_tunnel.Prelude.Maps.{lookup}
use nodejs_wss_tunnel.Protocol.Json.{Doc, doc}
use nodejs_wss_tunnel.Net.{accepted}
use nodejs_wss_tunnel.TunnelClient.{Client, ClientEnv, end_request, start_request, write_request}
use nodejs_wss_tunnel.TunnelClient.Tcp.{new_tcp_stream, handle_tcp_open}
use nodejs_wss_tunnel.TunnelClient.Http.{handle_req_meta, handle_req_data, local_headers}
use nodejs_wss_tunnel.TunnelClient.Events.{
  ClientEvent, opened, closed, message, local, idle, handle_local, client_handle, client_run,
  client_start,
}
use nodejs_wss_tunnel.TunnelClient.Registry.{
  IsRegistered, client_run-IsRegistered, client_handle-closed,
}
use nodejs_wss_tunnel.TunnelClient.Limits.{client_run-within_limit}
use nodejs_wss_tunnel.TunnelClient.Kept.{Here}
use nodejs_wss_tunnel.TunnelClient.Faults.{
  IsAbandoned, client_run-IsAbandoned, handle_req_data-after_end, requested, handle_tcp_open-loses,
}

-- A document with the fields of a REQ_META and of a TCP_OPEN.
abbrev post : Doc
post = record {
  is_null = false;
  message = none;
  host = "127.0.0.1";
  port = some 6379;
  status_code = none;
  headers = [];
  method = "POST";
  has_body = false;
}

abbrev calm : ClientEnv
calm = record {
  max_concurrent_streams = 3;
  max_frame_payload = 1024;
  allowed_hosts = "127.0.0.1" ∷ [];
  target_host = "127.0.0.1:8000";
  ws_high_water = 1024;
  ws_low_water = 512;
  is_open = λ ws. true;
  send_throws = λ log ws. false;
  buffered_amount = λ log ws. 0;
  socket_write = λ log r. accepted;
  socket_destroyed = λ log r. false;
  request_destroyed = λ log r. false;
  request_write_throws = λ log r. false;
  request_error = λ d. none;
  to_lower_case = λ s. s;
  parse_json = λ bytes. some post;
}

-- TCP_OPEN for stream 1.
abbrev open_bytes : List ℕ
open_bytes = 1 ∷ 0x40 ∷ 0 ∷ 0 ∷ 0 ∷ 1 ∷ 9 ∷ []

abbrev history : List (ClientEnv × ClientEvent)
history = (calm, opened) ∷ (calm, message open_bytes) ∷ (calm, local 0 idle) ∷ []

-- The client with one TCP stream.
abbrev busy : Client
busy = record client_start { streams = (1, 0) ∷ []; heap = new_tcp_stream 1 0 ∷ [] }

client_run-IsRegistered_example :
    IsRegistered (client_run client_start history).heap (client_run client_start history).streams
client_run-IsRegistered_example = client_run-IsRegistered history

client_handle-closed_example :
    lookup 1 (client_handle calm (client_run client_start history) closed).streams ≡ none
client_handle-closed_example = client_handle-closed history calm 1

client_run-within_limit_example : length (client_run client_start history).streams ≤ 3
client_run-within_limit_example = client_run-within_limit 3 history (refl, (refl, (refl, tt)))

client_run-IsAbandoned_example :
    IsAbandoned 0
      (client_run (handle_local calm busy 0 (new_tcp_stream 1 0) idle) history).heap
      (client_run (handle_local calm busy 0 (new_tcp_stream 1 0) idle) history).streams
client_run-IsAbandoned_example =
    client_run-IsAbandoned calm busy 0 (new_tcp_stream 1 0) history refl refl refl refl

handle_req_data-after_end_example :
    Here (handle_req_meta calm client_start 0 1 (doc post)).heap 0 (requested 1 0)
    × ((handle_req_data calm
          (handle_req_meta calm client_start 0 1 (doc post))
          0
          (requested 1 0)
          (7 ∷ [])).log
        ≡ write_request 0 (7 ∷ [])
          ∷ end_request 0
          ∷ start_request 0 "POST" (local_headers calm post)
          ∷ client_start.log)
unfolding lookup
handle_req_data-after_end_example =
    handle_req_data-after_end calm client_start 0 1 post (7 ∷ []) (omega arith) refl refl refl
      (λ log. refl)

busy-IsRegistered : IsRegistered busy.heap busy.streams
unfolding lookup
busy-IsRegistered id r found = (new_tcp_stream 1 0, ground arith, ground arith, refl)

handle_tcp_open-loses_example :
    Here (handle_tcp_open calm busy 0 1 (doc post)).heap 0 (new_tcp_stream 1 0)
    × ((new_tcp_stream 1 0).cleaned ≡ false)
    × ((id' : ℕ) → lookup id' (handle_tcp_open calm busy 0 1 (doc post)).streams ≢ some 0)
unfolding lookup
handle_tcp_open-loses_example =
    handle_tcp_open-loses calm busy 0 1 0 (new_tcp_stream 1 0) post busy-IsRegistered refl refl refl
      refl (omega arith)

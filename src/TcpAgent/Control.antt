-- ===== src/TcpAgent/Control.antt =====
-- What streams and local connections leave alone in serve/tcp-agent.js: the variables of readiness,
-- shutdown and reconnection.
use nodejs_wss_tunnel.Prelude.{
  ℕ, ◌≡◌, refl, ◌∙◌, Bool, true, false, Option, none, some, String, List, [], ◌∷◌, arith, get_elem?,
  Option-cases, inl, inr, if◌then◌else◌, ◌==◌,
}
use nodejs_wss_tunnel.Prelude.Maps.{lookup}
use nodejs_wss_tunnel.Protocol.{FrameType, Frame, ok, err, parse_frame, of_code}
use nodejs_wss_tunnel.Protocol.Json.{ParsedJson, doc, failed, parse_json_payload, default_limit}
use nodejs_wss_tunnel.Net.{WriteResult, accepted, full, threw}
use nodejs_wss_tunnel.TcpAgent.{Entry, Agent, AgentEnv, AgentEffect, log_effect}
use nodejs_wss_tunnel.TcpAgent.Frames.{
  forget, with_entry, remove_pending, connection, sync_read_state, abort_entry_stream,
  register_stream, take_first, is_for, handle_connect_ack, handle_connect_reject, written,
  on_entry_frame, on_server_frame, handle_server_frame,
}
use nodejs_wss_tunnel.TcpAgent.Events.{
  on_local_data, release, on_local_sent, on_web_socket_drain, on_local_drain, on_local_error,
  on_local_close, at_entry, connect, drop_entries, cleanup_all,
}

abbrev pub control : Agent → Bool × List ℕ × Bool × ℕ
control a = (a.ready, a.listening_ports, a.shutting_down, a.reconnect_delay)

control-if :
    (b : Bool) (x y a : Agent)
    → control x ≡ control a
    → control y ≡ control a
    → control (if b then x else y) ≡ control a
control-if true x y a hx hy = hx
control-if false x y a hx hy = hy

pub control-with_entry :
    (a : Agent) (o : Option ℕ) (f : ℕ → Entry → Agent)
    → ((r : ℕ) (e : Entry) → control (f r e) ≡ control a)
    → control (with_entry a o f) ≡ control a
control-with_entry a none f h = refl
control-with_entry a (some r) f h = elim (Option-cases (get_elem? a.entries r)) [
  | inl e ↦ ground arith
  | inr (x, e) ↦ ground (arith, h r x)
]

pub control-at_entry :
    (a : Agent) (o : Option Entry) (f : Entry → Agent)
    → ((e : Entry) → control (f e) ≡ control a)
    → control (at_entry a o f) ≡ control a
control-at_entry a none f h = refl
control-at_entry a (some e) f h = h e

pub control-remove_pending :
    (a : Agent) (socket : ℕ) → control (remove_pending a socket) ≡ control a
unfolding remove_pending
control-remove_pending a socket = refl

pub control-connect : (a : Agent) → control (connect a) ≡ control a
unfolding connect
control-connect a = ground arith

pub control-sync_read_state :
    (env : AgentEnv) (a : Agent) (e : Entry) → control (sync_read_state env a e) ≡ control a
unfolding sync_read_state
control-sync_read_state env a e = ground arith

pub control-abort_entry_stream :
    (env : AgentEnv) (a : Agent) (r : ℕ) (e : Entry) (message : String)
    → control (abort_entry_stream env a r e message) ≡ control a
unfolding abort_entry_stream
control-abort_entry_stream env a r e message = ground arith

pub control-connection :
    (env : AgentEnv) (a : Agent) (socket port : ℕ)
    → control (connection env a socket port) ≡ control a
unfolding connection
control-connection env a socket port = ground arith

control-register_stream :
    (env : AgentEnv) (a : Agent) (id socket : ℕ)
    → control (register_stream env a id socket) ≡ control a
unfolding register_stream
control-register_stream env a id socket = ground arith

control-handle_connect_ack :
    (env : AgentEnv) (a : Agent) (id : ℕ) (p : ParsedJson)
    → control (handle_connect_ack env a id p) ≡ control a
unfolding handle_connect_ack
control-handle_connect_ack env a id (failed _) = refl
control-handle_connect_ack env a id (doc d) = elim (take_first (is_for d.port) a.pending_connects) [
  | none ↦ ground arith
  | some x ↦
      ground (
        arith,
        control-register_stream env (record a { pending_connects = x.1 }) id x.0.local_socket,
      )
]

control-handle_connect_reject :
    (a : Agent) (p : ParsedJson) → control (handle_connect_reject a p) ≡ control a
unfolding handle_connect_reject
control-handle_connect_reject a (failed _) = refl
control-handle_connect_reject a (doc d) = ground arith

control-written :
    (env : AgentEnv) (a : Agent) (r : ℕ) (e : Entry) (payload : List ℕ) (w : WriteResult)
    → control (written env a r e payload w) ≡ control a
unfolding written
control-written env a r e payload threw = control-abort_entry_stream env a r e _
control-written env a r e payload accepted = refl
control-written env a r e payload full = ground arith

control-on_entry_frame :
    (env : AgentEnv) (a : Agent) (r : ℕ) (e : Entry) (t : Option FrameType) (payload : List ℕ)
    → control (on_entry_frame env a r e t payload) ≡ control a
unfolding on_entry_frame
control-on_entry_frame env a r e (some FrameType.tcp_data) payload =
    control-written env a r e payload (env.socket_write a.log e.socket)
control-on_entry_frame env a r e (some FrameType.pause) payload =
    control-sync_read_state env _ (record e { peer_paused_read = true })
control-on_entry_frame env a r e (some FrameType.resume) payload =
    control-sync_read_state env _ (record e { peer_paused_read = false })
control-on_entry_frame env a r e _ payload = refl

control-on_server_frame :
    (env : AgentEnv) (a : Agent) (f : Frame) (t : Option FrameType)
    → control (on_server_frame env a f t) ≡ control a
unfolding on_server_frame
control-on_server_frame env a f (some FrameType.tcp_connect_ack) =
    control-handle_connect_ack env a f.stream_id _
control-on_server_frame env a f (some FrameType.tcp_abort) =
    control-if (f.stream_id == 0) _ _ a
      (control-handle_connect_reject a (parse_json_payload env.parse_json f.payload default_limit))
      (control-with_entry a (lookup f.stream_id a.streams)
        (λ r e. on_entry_frame env a r e (some FrameType.tcp_abort) f.payload)
        (λ r e. control-on_entry_frame env a r e (some FrameType.tcp_abort) f.payload))
control-on_server_frame env a f t =
    control-with_entry a _ _ (λ r e. control-on_entry_frame env a r e t f.payload)

pub control-handle_server_frame :
    (env : AgentEnv) (a : Agent) (bytes : List ℕ)
    → control (handle_server_frame env a bytes) ≡ control a
unfolding handle_server_frame
control-handle_server_frame env a bytes =
    elim (parse_frame bytes)
      as (λ p.
        control (elim p [ ok f ↦ on_server_frame env a f (of_code f.type) | err _ ↦ a ])
        ≡ control a) [ ok f ↦ control-on_server_frame env a f (of_code f.type) | err _ ↦ refl ]

pub control-on_local_data :
    (env : AgentEnv) (a : Agent) (r : ℕ) (e : Entry) (chunk : List ℕ)
    → control (on_local_data env a r e chunk) ≡ control a
unfolding on_local_data
control-on_local_data env a r e chunk =
    ground (arith, control-abort_entry_stream env, control-sync_read_state env)

control-release :
    (env : AgentEnv) (a : Agent) (r : ℕ) (e : Entry) → control (release env a r e) ≡ control a
unfolding release
control-release env a r e = ground (arith, control-sync_read_state env)

pub control-on_local_sent :
    (env : AgentEnv) (a : Agent) (r : ℕ) (e : Entry) → control (on_local_sent env a r e) ≡ control a
unfolding on_local_sent
control-on_local_sent env a r e = ground (arith, control-release env)

pub control-on_web_socket_drain :
    (env : AgentEnv) (streams : List (ℕ × ℕ)) (a : Agent)
    → control (on_web_socket_drain env a streams) ≡ control a
unfolding on_web_socket_drain
control-on_web_socket_drain env [] a = refl
control-on_web_socket_drain env ((id, r) ∷ streams) a =
    control-on_web_socket_drain env streams _
    ∙ control-with_entry a (some r) (release env a) (control-release env a)

pub control-on_local_drain :
    (env : AgentEnv) (a : Agent) (r : ℕ) (e : Entry)
    → control (on_local_drain env a r e) ≡ control a
unfolding on_local_drain
control-on_local_drain env a r e = ground arith

pub control-on_local_error :
    (env : AgentEnv) (a : Agent) (r : ℕ) (e : Entry) (text : String)
    → control (on_local_error env a r e text) ≡ control a
unfolding on_local_error
control-on_local_error env a r e text = ground arith

pub control-on_local_close :
    (env : AgentEnv) (a : Agent) (r : ℕ) (e : Entry)
    → control (on_local_close env a r e) ≡ control a
unfolding on_local_close
control-on_local_close env a r e = ground arith

control-drop_entries :
    (streams : List (ℕ × ℕ)) (a : Agent) → control (drop_entries a streams) ≡ control a
unfolding drop_entries
control-drop_entries [] a = refl
control-drop_entries ((id, r) ∷ streams) a =
    control-drop_entries streams _
    ∙ control-with_entry a (some r)
        (λ i e. log_effect (forget a i e) (AgentEffect.destroy e.socket)) (λ i e. refl)

pub control-cleanup_all : (a : Agent) → control (cleanup_all a) ≡ control a
unfolding cleanup_all
control-cleanup_all a = control-drop_entries a.streams _

-- ===== src/Server/StableAgents.antt =====
-- The other calls of the server that change no place of a port at once keep a stable property: the
-- frames of the agents but TCP_CONNECT, and the loss of a client or an agent.
use nodejs_wss_tunnel.Prelude.{
  ℕ, refl, true, false, not, Option, none, some, String, List, [], ◌∷◌, ◌==◌, map,
}
use nodejs_wss_tunnel.Prelude.Maps.{lookup}
use nodejs_wss_tunnel.Protocol.{
  FrameType, Frame, of_code, pause, resume, tcp_data, tcp_close, tcp_abort,
}
use nodejs_wss_tunnel.Net.{Env}
use nodejs_wss_tunnel.VirtualSocket.{VirtualSocket}
use nodejs_wss_tunnel.Server.State.{Server, Stream, Socket, virtual, is_tcp}
use nodejs_wss_tunnel.Server.Clients.{abort_streams_of, cleanup_client}
use nodejs_wss_tunnel.Server.AgentServer.{
  abort_entry, abort_owned, drop_agent, cleanup_agent, refuse, is_open_frame, stream_missing,
  on_agent_frame, is_agent, to_stream, to_entry,
}
use nodejs_wss_tunnel.Server.Stable.{
  At, IsStable, either, update_P, abort_any_stream_P, abort_tcp_stream_P, at_stream_P,
  with_socket_P, sync_tcp_backpressure-key,
}

module _ (P : Server → Type 0) (stable : IsStable P) (env : Env) where
  pub refuse_P : (w : Server) (ws id : ℕ) (message : String) → P w → P (refuse env w ws id message)
  refuse_P w ws id message h = stable.logged _ _ _ h

  stream_missing_P :
      (w : Server) (ws id : ℕ) (t : Option FrameType) → P w → P (stream_missing env w ws id t)
  unfolding stream_missing
  stream_missing_P w ws id t h = either P (is_open_frame t) (refuse_P w ws id _ h) h

  module _ (w : Server) (r : ℕ) (s : Stream) (here : At w r s) (h : P w) where
    on_agent_frame_P :
        (v : VirtualSocket) (t : Option FrameType) (payload : List ℕ)
        → P (on_agent_frame env w r s v t payload)
    unfolding on_agent_frame
    on_agent_frame_P v (some tcp_data) payload = with_socket_P P stable env w r s here h s _ _ refl
    on_agent_frame_P v (some tcp_close) payload = with_socket_P P stable env w r s here h s _ _ refl
    on_agent_frame_P v (some tcp_abort) payload = with_socket_P P stable env w r s here h s _ _ refl
    on_agent_frame_P v (some pause) payload =
        update_P P stable env w r s here h _ _ _
          (sync_tcp_backpressure-key env (record s { agent_paused = true }) w.log)
    on_agent_frame_P v (some resume) payload =
        update_P P stable env w r s here h _ _ _
          (sync_tcp_backpressure-key env (record s { agent_paused = false }) w.log)
    on_agent_frame_P v _ payload = h

    to_stream_P : (ws : ℕ) (f : Frame) (k : Socket) → P (to_stream env w ws f r s k)
    unfolding to_stream
    to_stream_P ws f (virtual v) =
        either P (not (is_tcp s.mode)) (stream_missing_P w ws f.stream_id (of_code f.type) h) (
          either P (not (is_agent s.agent_ws ws)) h
            (either P s.awaiting_client_ack h (on_agent_frame_P v (of_code f.type) f.payload)))
    to_stream_P ws f _ = stream_missing_P w ws f.stream_id (of_code f.type) h

  pub to_entry_P :
      (w : Server) (ws : ℕ) (f : Frame) (o : Option ℕ) → P w → P (to_entry env w ws f o)
  unfolding to_entry
  to_entry_P w ws f none h = stream_missing_P w ws f.stream_id (of_code f.type) h
  to_entry_P w ws f (some r) h =
      at_stream_P P stable w r _ h (λ s here. to_stream_P w r s here h ws f s.socket)

  abort_entry_P :
      (w : Server) (reason : String) (o : Option ℕ) → P w → P (abort_entry env w reason o)
  unfolding abort_entry
  abort_entry_P w reason none h = h
  abort_entry_P w reason (some r) h = at_stream_P P stable w r _ h λ s here.
      either P (is_tcp s.mode) (abort_tcp_stream_P P stable env w r s here h reason true) h

  abort_owned_P :
      (ids : List ℕ) (w : Server) (reason : String) → P w → P (abort_owned env w reason ids)
  unfolding abort_owned
  abort_owned_P [] w reason h = h
  abort_owned_P (id ∷ ids) w reason h =
      abort_owned_P ids (abort_entry env w reason (lookup id w.streams)) reason
        (abort_entry_P w reason (lookup id w.streams) h)

  drop_agent_P :
      (w : Server) (ws : ℕ) (reason : String) (o : Option (List ℕ))
      → P w
      → P (drop_agent env w ws reason o)
  unfolding drop_agent
  drop_agent_P w ws reason none h = h
  drop_agent_P w ws reason (some owned) h = abort_owned_P owned _ reason (stable.aside _ _ _ _ h)

  pub cleanup_agent_P :
      (w : Server) (ws : ℕ) (reason : String) → P w → P (cleanup_agent env w ws reason)
  unfolding cleanup_agent
  cleanup_agent_P w ws reason h = drop_agent_P w ws reason (lookup ws w.agent_streams) h

  pub abort_streams_of_P :
      (rs : List ℕ) (w : Server) (ws : ℕ) → P w → P (abort_streams_of env w ws rs)
  unfolding abort_streams_of
  abort_streams_of_P [] w ws h = h
  abort_streams_of_P (r ∷ rs) w ws h = abort_streams_of_P rs _ ws (
      at_stream_P P stable w r _ h
        (λ s here. either P (s.ws == ws) (abort_any_stream_P P stable env w r s here h _ _) h))

  pub cleanup_client_P : (w : Server) (ws : ℕ) → P w → P (cleanup_client env w ws)
  unfolding cleanup_client
  cleanup_client_P w ws h =
      abort_streams_of_P (map (λ (e : ℕ × ℕ). e.1) w.streams) _ ws (stable.aside _ _ _ _ h)

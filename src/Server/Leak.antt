-- ===== src/Server/Leak.antt =====
-- A TCP stream that is cleaned up as an HTTP stream: `handleClientFrame` sends RES_DATA, RES_END and
-- RES_ABORT of a TCP stream to `abortStream` and `cleanupStream`, which call no `onCleanup`.
use nodejs_wss_tunnel.Prelude.{
  ℕ, ◌≡◌, refl, sym, ap, ◌∙◌, ◌⊎◌, inl, inr, Bool, true, false, not, Option, some, String, List, [],
  ◌∷◌, ◌++◌, get_elem?, get_elem?-set, get_elem?-append, set, set-append_length, length, All, arith,
  ==_iff, ◌==◌, subst,
}
use nodejs_wss_tunnel.Prelude.Maps.{lookup}
use nodejs_wss_tunnel.Protocol.{
  FrameType, Frame, ok, parse_frame, of_code, res_data, res_end, res_abort,
}
use nodejs_wss_tunnel.Protocol.Json.{Obj}
use nodejs_wss_tunnel.Net.{Env, can_send}
use nodejs_wss_tunnel.Server.State.{Server, Stream, router_slot, put, at_stream}
use nodejs_wss_tunnel.Server.Streams.{
  create_tcp_stream, create_stream, cleanup_tcp_stream, cleanup_stream, abort_stream,
}
use nodejs_wss_tunnel.Server.Router.{announce, announce_agent}
use nodejs_wss_tunnel.Server.ClientFrames.{
  on_frame, on_res_data, on_res_end, on_res_abort, route, handle_client_frame,
}
use nodejs_wss_tunnel.Server.AgentServer.{AgentOptions}
use nodejs_wss_tunnel.Server.Run.{Event, run}
use nodejs_wss_tunnel.Server.Stable.{At, At-put, either, either_of, when_true, when_false, key}
use nodejs_wss_tunnel.Server.Slots.{run_on_cleanup-heap}
use nodejs_wss_tunnel.Server.Invariant.{IsInvariant, run_P}

-- The object `r` is cleaned up and still holds its place of the port.
abbrev OnHeap : ℕ → ℕ → List Stream → Type 0
OnHeap port r heap =
    (s : Stream) × (get_elem? heap r ≡ some s)
    × (s.cleaned ≡ true)
    × (s.on_cleanup ≡ router_slot port false)

abbrev pub IsLeaked : ℕ → ℕ → Server → Type 0
IsLeaked port r w = OnHeap port r w.heap

module _ (port r : ℕ) where
  -- Another object is written.
  elsewhere :
      (heap : List Stream) (i : ℕ) (v u : Stream)
      → get_elem? heap i ≡ some v
      → (v.cleaned ≡ true → v.on_cleanup ≡ router_slot port false → ⊥)
      → OnHeap port r heap
      → OnHeap port r (set heap i u)
  elsewhere heap i v u here other (s, there, cleaned, slot) =
      elim (get_elem?-set heap i r v u here) [
        | inl (same, _) ↦ absurd (other (ground (arith, here, there)) (ground (arith, here, there)))
        | inr (_, kept) ↦ (s, kept ∙ there, cleaned, slot)
      ]

  changed-IsLeaked :
      (w : Server) (i : ℕ) (v u : Stream)
      → At w i v
      → key u ≡ key v
      → IsLeaked port r w
      → IsLeaked port r (put w i u)
  changed-IsLeaked w i v u here e (s, there, cleaned, slot) =
      elim (get_elem?-set w.heap i r v u here) [
        | inl (same, now) ↦ (
          u,
          now,
          ground (arith, here, there, ap (λ k. k.3) e),
          ground (arith, here, there, ap (λ k. k.4) e),
        )
        | inr (_, kept) ↦ (s, kept ∙ there, cleaned, slot)
      ]

  ended_tcp-IsLeaked :
      (env : Env) (w : Server) (i : ℕ) (v : Stream)
      → At w i v
      → IsLeaked port r w
      → IsLeaked port r (cleanup_tcp_stream env w i v)
  unfolding cleanup_tcp_stream
  ended_tcp-IsLeaked env w i v here h = either_of (IsLeaked port r) v.cleaned h (λ live.
      rw run_on_cleanup-heap (elsewhere w.heap i v _ here (λ c _. ground (arith, live, c)) h))

  ended-IsLeaked :
      (env : Env) (w : Server) (i : ℕ) (v : Stream)
      → At w i v
      → IsLeaked port r w
      → IsLeaked port r (cleanup_stream env w i v)
  unfolding cleanup_stream
  ended-IsLeaked env w i v here h =
      either_of (IsLeaked port r) v.cleaned h
        (λ live. elsewhere w.heap i v _ here (λ c _. ground (arith, live, c)) h)

  grown_leaked :
      (heap : List Stream) (v : Stream) → OnHeap port r heap → OnHeap port r (heap ++ v ∷ [])
  grown_leaked heap v (s, there, cleaned, slot) =
      (s, get_elem?-append heap (v ∷ []) r s there, cleaned, slot)

  made_leaked :
      (heap : List Stream) (v u : Stream)
      → OnHeap port r heap
      → OnHeap port r (set (heap ++ v ∷ []) (length heap) u)
  made_leaked heap v u h = rw set-append_length (grown_leaked heap u h)

  announce-IsLeaked :
      (env : Env) (w : Server) (ws p id : ℕ)
      → IsLeaked port r w
      → IsLeaked port r (announce env w ws p id).0
  unfolding announce create_tcp_stream
  announce-IsLeaked env w ws p id h = made_leaked w.heap _ _ h

  announce_agent-IsLeaked :
      (env : Env) (w : Server) (ws agent p id : ℕ)
      → IsLeaked port r w
      → IsLeaked port r (announce_agent env w ws agent p id).0
  unfolding announce_agent create_tcp_stream
  announce_agent-IsLeaked env w ws agent p id h = made_leaked w.heap _ _ h

  requested-IsLeaked :
      (env : Env) (w : Server) (ws : ℕ) (meta : Obj) (is_head : Bool) (id : ℕ)
      → IsLeaked port r w
      → IsLeaked port r (create_stream env w ws meta is_head id).0
  unfolding create_stream
  requested-IsLeaked env w ws meta is_head id h =
      either (λ (p : Server × Option ℕ). IsLeaked port r p.0) (can_send env w.log ws)
        (made_leaked w.heap _ _ h) (grown_leaked w.heap _ h)

  IsLeaked-IsInvariant : IsInvariant (λ env. Unit {0}) (IsLeaked port r)
  IsLeaked-IsInvariant = record {
    stable = record {
      changed = changed-IsLeaked;
      logged = λ w log tasks h. h;
      aside = λ w clients counts owned h. h;
      ended_tcp = ended_tcp-IsLeaked;
      ended = ended-IsLeaked;
    };
    renumbered = λ w next h. h;
    announced = λ env w ws p id good room below free h. announce-IsLeaked env w ws p id h;
    announced_agent =
        λ env w ws agent p id good room free h. announce_agent-IsLeaked env w ws agent p id h;
    recorded = λ w i agent p v u here old new same h.
        elsewhere w.heap i v u here (λ c slot. ground (arith, old, slot)) h;
    requested =
        λ env w ws meta is_head id good room free h. requested-IsLeaked env w ws meta is_head id h;
  }

nothing_asked : (es : List (Env × Event)) → All (λ e. Unit {0}) es
nothing_asked [] = tt
nothing_asked (e ∷ es) = (tt, nothing_asked es)

-- A place of a port that is lost is never given back, whatever happens to the server afterwards.
pub run-IsLeaked :
    (o : AgentOptions) (port r : ℕ) (w : Server) (es : List (Env × Event))
    → IsLeaked port r w
    → IsLeaked port r (run o w es)
run-IsLeaked o port r w es h =
    run_P (λ env. Unit {0}) (IsLeaked port r) (IsLeaked-IsInvariant port r) o es w
      (nothing_asked es) h

-- The types whose `case` uses the HTTP clean-up of a stream that has no response.
abbrev pub IsForHttp : FrameType → Type 0
IsForHttp t = (t ≡ res_data) ⊎ (t ≡ res_end) ⊎ (t ≡ res_abort)

module _ (env : Env) (port : ℕ) (w : Server) (r : ℕ) (s : Stream) (here : At w r s)
    (live : s.cleaned ≡ false) (slot : s.on_cleanup ≡ router_slot port false) where
  cleanup_stream-IsLeaked : IsLeaked port r (cleanup_stream env w r s)
  unfolding cleanup_stream
  cleanup_stream-IsLeaked =
      when_false (IsLeaked port r) s.cleaned w live (_, At-put w r s _ here, refl, slot)

module _ (env : Env) (port : ℕ) (w : Server) (r : ℕ) (s : Stream) (here : At w r s)
    (live : s.cleaned ≡ false) (slot : s.on_cleanup ≡ router_slot port false) where
  abort_stream-IsLeaked :
      (reason : String) (notify : Bool) → IsLeaked port r (abort_stream env w r s reason notify)
  unfolding abort_stream
  abort_stream-IsLeaked reason notify =
      when_false (IsLeaked port r) s.cleaned w live
        (cleanup_stream-IsLeaked env port _ r _ (At-put w r s _ here) live slot)

  on_frame-IsLeaked :
      (t : FrameType) (payload : List ℕ)
      → s.response_started ≡ false
      → IsForHttp t
      → IsLeaked port r (on_frame env w r s (some t) payload)
  unfolding on_frame on_res_data on_res_end on_res_abort
  on_frame-IsLeaked t payload fresh (inl e) =
      subst (λ u. IsLeaked port r (on_frame env w r s (some u) payload)) (sym e)
        (when_true (IsLeaked port r) (not s.response_started) _ (ap not fresh)
          (abort_stream-IsLeaked _ _))
  on_frame-IsLeaked t payload fresh (inr (inl e)) =
      subst (λ u. IsLeaked port r (on_frame env w r s (some u) payload)) (sym e)
        (when_true (IsLeaked port r) (not s.response_started) _ (ap not fresh)
          (abort_stream-IsLeaked _ _))
  on_frame-IsLeaked t payload fresh (inr (inr e)) =
      subst (λ u. IsLeaked port r (on_frame env w r s (some u) payload)) (sym e)
        (when_true (IsLeaked port r) (not s.response_started) _ (ap not fresh)
          (cleanup_stream-IsLeaked env port _ r _ (At-put w r s _ here) live slot))

-- A frame RES_DATA, RES_END or RES_ABORT from the tunnel client that owns a live TCP stream of an
-- external connection, which holds its place of a port in TcpRouter's count and has no response
-- started, leaves the stream's object cleaned up with that place not given back.
pub handle_client_frame-IsLeaked :
    (env : Env) (port : ℕ) (w : Server) (ws r : ℕ) (s : Stream) (bytes : List ℕ) (f : Frame)
    (t : FrameType)
    → parse_frame bytes ≡ ok f
    → of_code f.type ≡ some t
    → IsForHttp t
    → lookup f.stream_id w.streams ≡ some r
    → At w r s
    → s.ws ≡ ws
    → s.cleaned ≡ false
    → s.response_started ≡ false
    → s.on_cleanup ≡ router_slot port false
    → IsLeaked port r (handle_client_frame env w ws bytes)
unfolding handle_client_frame route
handle_client_frame-IsLeaked env port w ws r s bytes f t parsed typed wrong found here owner live
      fresh slot =
    rw (parsed, handle_client_frame)
      (rw (found, handle_client_frame)
        (rw (here, at_stream)
          (when_true (IsLeaked port r) (s.ws == ws) w ((==_iff s.ws ws).1 owner) (
            subst (λ u. IsLeaked port r (on_frame env (put w r s') r s' u f.payload)) (sym typed)
              (on_frame-IsLeaked env port (put w r s') r s' (At-put w r s s' here) live slot t
                f.payload fresh wrong)))))
  where
    s' : Stream
    s' = record s { timer = true }

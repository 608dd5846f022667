-- ===== src/Server/Stopped.antt =====
-- What `close` of src/tcp/TcpRouter.js leaves.
use nodejs_wss_tunnel.Prelude.{
  ℕ, ◌≡◌, sym, subst, inl, inr, true, Bool-cases, ==_iff, some, List, [], ◌∷◌, get_elem?, arith,
  ◌==◌,
}
use nodejs_wss_tunnel.Prelude.Maps.{lookup}
use nodejs_wss_tunnel.Net.{Env}
use nodejs_wss_tunnel.Server.State.{Server, Stream, Mode, is_tcp, at_stream}
use nodejs_wss_tunnel.Server.Streams.{abort_tcp_stream}
use nodejs_wss_tunnel.Server.Clients.{contains}
use nodejs_wss_tunnel.Server.Listeners.{
  Listening, CloseResult, get_tcp_streams, abort_each, close_router,
}
use nodejs_wss_tunnel.Server.Stable.{IsStable, abort_tcp_stream_P, at_stream_P}
use nodejs_wss_tunnel.Server.Entries.{Lacks, IsLive, Entry, Entry-IsStable}
use nodejs_wss_tunnel.Server.Swept.{Lacks-IsStable, abort_tcp_stream-Lacks, at_stream-Lacks}

module _ (P : Server → Type 0) (stable : IsStable P) (env : Env) where
  abort_each_P : (rs : List ℕ) (w : Server) → P w → P (abort_each env w rs)
  unfolding abort_each
  abort_each_P [] w h = h
  abort_each_P (r ∷ rs) w h =
      abort_each_P rs _
        (at_stream_P P stable w r _ h (λ s here. abort_tcp_stream_P P stable env w r s here h _ _))

module _ (env : Env) (id r ws : ℕ) (mode : Mode) where
  abort_at : Server → ℕ → Server
  abort_at w i = at_stream w i (λ s. abort_tcp_stream env w i s "Server shutting down" true)

  abort_at-Lacks : (w : Server) → Entry id r ws mode w → Lacks id (abort_at w r)
  unfolding abort_at
  abort_at-Lacks w (inl gone) =
      at_stream_P (Lacks id) (Lacks-IsStable id) w r _ gone
        (λ s here. abort_tcp_stream_P (Lacks id) (Lacks-IsStable id) env w r s here gone _ _)
  abort_at-Lacks w (inr (found, h)) =
      at_stream-Lacks id r ws mode w _ h (λ s has_id has_ws has_mode live.
        subst (λ j. Lacks j (abort_tcp_stream env w r s "Server shutting down" true)) has_id
          (abort_tcp_stream-Lacks env w r s live _ _))

  abort_each-Lacks :
      (rs : List ℕ) (w : Server)
      → contains r rs ≡ true
      → Entry id r ws mode w
      → Lacks id (abort_each env w rs)
  unfolding abort_each abort_at
  abort_each-Lacks [] w there h = ground arith
  abort_each-Lacks (i ∷ rs) w there h = elim (Bool-cases (i == r)) [
    | inl same ↦
        abort_each_P (Lacks id) (Lacks-IsStable id) env rs (abort_at w i)
          (subst (λ j. Lacks id (abort_at w j)) (sym ((==_iff i r).0 same)) (abort_at-Lacks w h))
    | inr other ↦ abort_each-Lacks rs (abort_at w i) (ground (arith, there, other)) (
        at_stream_P (Entry id r ws mode) (Entry-IsStable id r ws mode) w i _ h (λ s here.
          abort_tcp_stream_P (Entry id r ws mode) (Entry-IsStable id r ws mode) env w i s here h _
            _))
  ]

-- `getTcpStreams` has the place of each entry of a TCP stream.
get_tcp_streams-contains :
    (heap : List Stream) (m : List (ℕ × ℕ)) (id r : ℕ) (s : Stream)
    → lookup id m ≡ some r
    → get_elem? heap r ≡ some s
    → is_tcp s.mode ≡ true
    → contains r (get_tcp_streams heap m) ≡ true
unfolding lookup get_tcp_streams
get_tcp_streams-contains heap [] id r s e here is = ground arith
get_tcp_streams-contains heap ((k, v) ∷ m) id r s e here is =
    ground (arith, e, here, is, get_tcp_streams-contains heap m id r s)

pub close_router_P :
    (P : Server → Type 0) (stable : IsStable P) (env : Env) (l : Listening)
    (results : List CloseResult)
    → P l.server
    → P (close_router env l results).0.server
unfolding close_router
close_router_P P stable env l results h =
    abort_each_P P stable env (get_tcp_streams l.server.heap l.server.streams) l.server h

-- A live TCP stream of the map is gone when the router is closed.
pub close_router-Lacks :
    (env : Env) (l : Listening) (results : List CloseResult) (id r ws : ℕ) (mode : Mode)
    → lookup id l.server.streams ≡ some r
    → (live : IsLive l.server.heap id r ws mode) → is_tcp mode ≡ true
    → Lacks id (close_router env l results).0.server
unfolding close_router
close_router-Lacks env l results id r ws mode e live is =
    abort_each-Lacks env id r ws mode (get_tcp_streams l.server.heap l.server.streams) l.server
      (get_tcp_streams-contains l.server.heap l.server.streams id r live.object e live.at_place
        (ground (arith, live.has_mode, is)))
      (inr (e, live))

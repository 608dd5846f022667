-- ===== src/Server/Limits.antt =====
-- The limits of src/shared/config.js over all events of the server: TCP_MAX_CONNECTIONS_PER_PORT, for
-- the external connections of TcpRouter, and MAX_CONCURRENT_STREAMS.
use nodejs_wss_tunnel.Prelude.{
  ℕ, ◌+◌, ◌≤◌, ◌<◌, ◌≡◌, refl, Bool, true, false, Option, List, length, count, All, arith,
}
use nodejs_wss_tunnel.Prelude.Maps.{
  lookup, insert, lookup-insert, length-insert-le, length-remove-le,
}
use nodejs_wss_tunnel.Protocol.Json.{Obj}
use nodejs_wss_tunnel.Net.{Env, can_send}
use nodejs_wss_tunnel.Server.State.{Server, Stream, OnCleanup, nothing, router_slot, agent_slot}
use nodejs_wss_tunnel.Server.Streams.{
  create_tcp_stream, create_stream, run_on_cleanup, cleanup_tcp_stream, cleanup_stream,
}
use nodejs_wss_tunnel.Server.Router.{count_of, announce, announce_agent}
use nodejs_wss_tunnel.Server.AgentServer.{AgentOptions}
use nodejs_wss_tunnel.Server.Run.{Event, run, start}
use nodejs_wss_tunnel.Server.Stable.{either}
use nodejs_wss_tunnel.Server.Slots.{holds, count_of-give_back}
use nodejs_wss_tunnel.Server.SlotsRun.{run-IsCounted}
use nodejs_wss_tunnel.Server.Invariant.{HasRoom, IsBelowLimit, IsInvariant, run_P}

abbrev pub IsCapped : ℕ → Server → Type 0
IsCapped limit w = (port : ℕ) → count_of port w.router_counts ≤ limit

abbrev pub HasLimit : ℕ → Env → Type 0
HasLimit limit env = env.tcp_max_connections_per_port ≡ limit

abbrev pub IsBounded : ℕ → Server → Type 0
IsBounded most w = length w.streams ≤ most

abbrev pub HasMost : ℕ → Env → Type 0
HasMost most env = env.max_concurrent_streams ≡ most

run_on_cleanup-IsCapped :
    (limit : ℕ) (w : Server) (id : ℕ) (k : OnCleanup)
    → IsCapped limit w
    → IsCapped limit (run_on_cleanup w id k)
unfolding run_on_cleanup
run_on_cleanup-IsCapped limit w id nothing h port = h port
run_on_cleanup-IsCapped limit w id (router_slot p true) h port = h port
run_on_cleanup-IsCapped limit w id (router_slot p false) h port =
    ground (arith, count_of-give_back port p w.router_counts, h port)
run_on_cleanup-IsCapped limit w id (agent_slot p ws) h port = h port

run_on_cleanup-streams :
    (w : Server) (id : ℕ) (k : OnCleanup) → (run_on_cleanup w id k).streams ≡ w.streams
unfolding run_on_cleanup
run_on_cleanup-streams w id nothing = refl
run_on_cleanup-streams w id (router_slot p true) = refl
run_on_cleanup-streams w id (router_slot p false) = refl
run_on_cleanup-streams w id (agent_slot p ws) = refl

module _ (limit : ℕ) where
  ended_tcp-IsCapped :
      (env : Env) (w : Server) (r : ℕ) (s : Stream)
      → IsCapped limit w
      → IsCapped limit (cleanup_tcp_stream env w r s)
  unfolding cleanup_tcp_stream
  ended_tcp-IsCapped env w r s h =
      either (IsCapped limit) s.cleaned h (run_on_cleanup-IsCapped limit _ s.id s.on_cleanup h)

  ended-IsCapped :
      (env : Env) (w : Server) (r : ℕ) (s : Stream)
      → IsCapped limit w
      → IsCapped limit (cleanup_stream env w r s)
  unfolding cleanup_stream
  ended-IsCapped env w r s h = either (IsCapped limit) s.cleaned h h

  announce-IsCapped :
      (env : Env) (w : Server) (ws port id : ℕ)
      → 0 < limit
      → HasLimit limit env
      → IsBelowLimit env w port
      → IsCapped limit w
      → IsCapped limit (announce env w ws port id).0
  unfolding announce create_tcp_stream
  announce-IsCapped env w ws port id some_limit same below h p =
      ground (arith, h p, lookup-insert port p (count_of port w.router_counts + 1) w.router_counts)

  announce_agent-IsCapped :
      (env : Env) (w : Server) (ws agent port id : ℕ)
      → IsCapped limit w
      → IsCapped limit (announce_agent env w ws agent port id).0
  unfolding announce_agent create_tcp_stream
  announce_agent-IsCapped env w ws agent port id h = h

  requested-IsCapped :
      (env : Env) (w : Server) (ws : ℕ) (meta : Obj) (is_head : Bool) (id : ℕ)
      → IsCapped limit w
      → IsCapped limit (create_stream env w ws meta is_head id).0
  unfolding create_stream
  requested-IsCapped env w ws meta is_head id h =
      either (λ (p : Server × Option ℕ). IsCapped limit p.0) (can_send env w.log ws) h h

  IsCapped-IsInvariant : 0 < limit → IsInvariant (HasLimit limit) (IsCapped limit)
  IsCapped-IsInvariant some_limit = record {
    stable = record {
      changed = λ w r s s' here e h. h;
      logged = λ w log tasks h. h;
      aside = λ w clients counts owned h. h;
      ended_tcp = λ env w r s here h. ended_tcp-IsCapped env w r s h;
      ended = λ env w r s here h. ended-IsCapped env w r s h;
    };
    renumbered = λ w next h. h;
    announced = λ env w ws port id good room below free h.
        announce-IsCapped env w ws port id some_limit good below h;
    announced_agent =
        λ env w ws agent port id good room free h. announce_agent-IsCapped env w ws agent port id h;
    recorded = λ w r agent port s s' here old new same h. h;
    requested =
        λ env w ws meta is_head id good room free h. requested-IsCapped env w ws meta is_head id h;
  }

  -- With one positive limit of connections per port at each event, no history of the server has more
  -- streams of external connections, those that TcpRouter accepts and counts, that hold a place of one
  -- port than the limit.
  pub run-within_limit :
      (o : AgentOptions) (es : List (Env × Event)) (port : ℕ)
      → 0 < limit
      → All (λ e. HasLimit limit e.0) es
      → count (holds port) (run o start es).heap ≤ limit
  unfolding lookup
  run-within_limit o es port some_limit good = rw (← run-IsCounted o es port) (
      run_P (HasLimit limit) (IsCapped limit) (IsCapped-IsInvariant some_limit) o es start good
        (λ p. omega arith) port)

module _ (most : ℕ) where
  ended_tcp-IsBounded :
      (env : Env) (w : Server) (r : ℕ) (s : Stream)
      → IsBounded most w
      → IsBounded most (cleanup_tcp_stream env w r s)
  unfolding cleanup_tcp_stream
  ended_tcp-IsBounded env w r s h =
      either (IsBounded most) s.cleaned h
        (rw run_on_cleanup-streams (omega (arith, length-remove-le s.id w.streams)))

  ended-IsBounded :
      (env : Env) (w : Server) (r : ℕ) (s : Stream)
      → IsBounded most w
      → IsBounded most (cleanup_stream env w r s)
  unfolding cleanup_stream
  ended-IsBounded env w r s h =
      either (IsBounded most) s.cleaned h (omega (arith, length-remove-le s.id w.streams))

  one_more :
      (env : Env) (w : Server) (id r : ℕ)
      → HasMost most env
      → HasRoom env w
      → length (insert id r w.streams) ≤ most
  one_more env w id r same room = ground (arith, length-insert-le id r w.streams)

  announce-IsBounded :
      (env : Env) (w : Server) (ws port id : ℕ)
      → HasMost most env
      → HasRoom env w
      → IsBounded most (announce env w ws port id).0
  unfolding announce create_tcp_stream
  announce-IsBounded env w ws port id same room = one_more env w id (length w.heap) same room

  announce_agent-IsBounded :
      (env : Env) (w : Server) (ws agent port id : ℕ)
      → HasMost most env
      → HasRoom env w
      → IsBounded most (announce_agent env w ws agent port id).0
  unfolding announce_agent create_tcp_stream
  announce_agent-IsBounded env w ws agent port id same room =
      one_more env w id (length w.heap) same room

  requested-IsBounded :
      (env : Env) (w : Server) (ws : ℕ) (meta : Obj) (is_head : Bool) (id : ℕ)
      → HasMost most env
      → HasRoom env w
      → IsBounded most (create_stream env w ws meta is_head id).0
  unfolding create_stream
  requested-IsBounded env w ws meta is_head id same room =
      let put_in = one_more env w id (length w.heap) same room in
      either (λ (p : Server × Option ℕ). IsBounded most p.0) (can_send env w.log ws) put_in
        (omega (arith, length-remove-le id (insert id (length w.heap) w.streams)))

  IsBounded-IsInvariant : IsInvariant (HasMost most) (IsBounded most)
  IsBounded-IsInvariant = record {
    stable = record {
      changed = λ w r s s' here e h. h;
      logged = λ w log tasks h. h;
      aside = λ w clients counts owned h. h;
      ended_tcp = λ env w r s here h. ended_tcp-IsBounded env w r s h;
      ended = λ env w r s here h. ended-IsBounded env w r s h;
    };
    renumbered = λ w next h. h;
    announced =
        λ env w ws port id good room below free h. announce-IsBounded env w ws port id good room;
    announced_agent = λ env w ws agent port id good room free h.
        announce_agent-IsBounded env w ws agent port id good room;
    recorded = λ w r agent port s s' here old new same h. h;
    requested = λ env w ws meta is_head id good room free h.
        requested-IsBounded env w ws meta is_head id good room;
  }

  -- With the same MAX_CONCURRENT_STREAMS at each event, the map of streams never has more entries.
  pub run-IsBounded :
      (o : AgentOptions) (es : List (Env × Event))
      → All (λ e. HasMost most e.0) es
      → IsBounded most (run o start es)
  run-IsBounded o es good =
      run_P (HasMost most) (IsBounded most) IsBounded-IsInvariant o es start good (omega arith)

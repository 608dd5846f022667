-- ===== src/Server/SlotsRun.antt =====
-- Over all events of the server: the counts of TcpRouter are right, and no port goes past its limit.
use nodejs_wss_tunnel.Prelude.{
  ℕ, ◌+◌, ◌∙◌, ◌≡◌, refl, sym, ap, Bool, Option, List, [], ◌∷◌, ◌++◌, set, length, count, bit,
  count-append, set-append_length, ◌==◌, All, arith,
}
use native.Mathlib.Nat.{add-zero}
use nodejs_wss_tunnel.Prelude.Maps.{lookup, insert, lookup-insert}
use nodejs_wss_tunnel.Protocol.Json.{Obj}
use nodejs_wss_tunnel.Net.{Env, can_send}
use nodejs_wss_tunnel.Server.State.{Server, Stream, nothing, agent_slot, put}
use nodejs_wss_tunnel.Server.Streams.{create_tcp_stream, create_stream}
use nodejs_wss_tunnel.Server.Router.{count_of, announce, announce_agent}
use nodejs_wss_tunnel.Server.AgentServer.{AgentOptions}
use nodejs_wss_tunnel.Server.Run.{Event, run, start}
use nodejs_wss_tunnel.Server.Stable.{At, either}
use nodejs_wss_tunnel.Server.Slots.{owes, holds, IsCounted, changed-IsCounted, IsCounted-IsStable}
use nodejs_wss_tunnel.Server.Invariant.{IsInvariant, run_P}

added :
    (xs : List Stream) (s : Stream) (port : ℕ)
    → count (holds port) (xs ++ s ∷ []) ≡ count (holds port) xs + bit (holds port s)
added xs s port = omega (arith, count-append (holds port) xs (s ∷ []))

grown :
    (xs : List Stream) (s s' : Stream) (port : ℕ)
    → count (holds port) (set (xs ++ s ∷ []) (length xs) s')
      ≡ count (holds port) xs + bit (holds port s')
grown xs s s' port = rw set-append_length (added xs s' port)

count_of-take :
    (p port : ℕ) (counts : List (ℕ × ℕ))
    → count_of port (insert p (count_of p counts + 1) counts)
      ≡ count_of port counts + bit (p == port)
count_of-take p port counts = ground (arith, lookup-insert p port (count_of p counts + 1) counts)

announce-IsCounted :
    (env : Env) (w : Server) (ws port id : ℕ)
    → IsCounted w
    → IsCounted (announce env w ws port id).0
unfolding announce create_tcp_stream
announce-IsCounted env w ws port id h p =
    count_of-take port p w.router_counts
    ∙ ap (λ n. n + bit (port == p)) (h p)
    ∙ sym (grown w.heap _ _ p)

announce_agent-IsCounted :
    (env : Env) (w : Server) (ws agent port id : ℕ)
    → IsCounted w
    → IsCounted (announce_agent env w ws agent port id).0
unfolding announce_agent create_tcp_stream
announce_agent-IsCounted env w ws agent port id h p =
    h p ∙ sym (add-zero (count (holds p) w.heap)) ∙ sym (grown w.heap _ _ p)

requested-IsCounted :
    (env : Env) (w : Server) (ws : ℕ) (meta : Obj) (is_head : Bool) (id : ℕ)
    → IsCounted w
    → IsCounted (create_stream env w ws meta is_head id).0
unfolding create_stream
requested-IsCounted env w ws meta is_head id h =
    either (λ (p : Server × Option ℕ). IsCounted p.0) (can_send env w.log ws)
      (λ p. h p ∙ sym (add-zero (count (holds p) w.heap)) ∙ sym (grown w.heap _ _ p))
      (λ p. h p ∙ sym (add-zero (count (holds p) w.heap)) ∙ sym (added w.heap _ p))

recorded-IsCounted :
    (w : Server) (r agent port : ℕ) (s s' : Stream)
    → At w r s
    → s.on_cleanup ≡ nothing
    → s'.on_cleanup ≡ agent_slot port agent
    → IsCounted w
    → IsCounted (put w r s')
recorded-IsCounted w r agent port s s' here old new h =
    changed-IsCounted w r s s' here (λ p. ap (owes p) new ∙ sym (ap (owes p) old)) h

pub IsCounted-IsInvariant : IsInvariant (λ env. Unit {0}) IsCounted
IsCounted-IsInvariant = record {
  stable = IsCounted-IsStable;
  renumbered = λ w next h. h;
  announced = λ env w ws port id good room below free h. announce-IsCounted env w ws port id h;
  announced_agent =
      λ env w ws agent port id good room free h. announce_agent-IsCounted env w ws agent port id h;
  recorded = λ w r agent port s s' here old new same h.
      recorded-IsCounted w r agent port s s' here old new h;
  requested =
      λ env w ws meta is_head id good room free h. requested-IsCounted env w ws meta is_head id h;
}

nothing_asked : (es : List (Env × Event)) → All (λ e. Unit {0}) es
nothing_asked [] = tt
nothing_asked (e ∷ es) = (tt, nothing_asked es)

-- Whatever happens to the server from its start, TcpRouter's count of each port is the number of
-- streams that hold a place of it: no connection is counted twice, and none is given back twice.
pub run-IsCounted : (o : AgentOptions) (es : List (Env × Event)) → IsCounted (run o start es)
unfolding lookup
run-IsCounted o es =
    run_P (λ env. Unit {0}) IsCounted IsCounted-IsInvariant o es start (nothing_asked es)
      (λ p. refl)

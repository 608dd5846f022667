-- ===== src/Server/Registry.antt =====
-- The map of streams of src/server/StreamManager.js over all histories of the server.
use nodejs_wss_tunnel.Prelude.{
  ℕ, ◌≡◌, refl, ap, Bool, false, true, Option, none, some, List, [], ◌∷◌, ◌++◌, get_elem?-append,
  set, set-append_length, length, All, arith,
}
use nodejs_wss_tunnel.Prelude.Maps.{lookup, insert, remove, lookup-insert, lookup-remove}
use nodejs_wss_tunnel.Prelude.Registry.{
  LeadsToLive, no_entry, changed-LeadsToLive, ended-LeadsToLive, added-LeadsToLive,
}
use nodejs_wss_tunnel.Protocol.Json.{Obj}
use nodejs_wss_tunnel.Net.{Env, can_send}
use nodejs_wss_tunnel.Server.State.{
  Server, Stream, OnCleanup, nothing, router_slot, agent_slot, put,
}
use nodejs_wss_tunnel.Server.Streams.{
  create_tcp_stream, create_stream, cleanup_tcp_stream, cleanup_stream, run_on_cleanup,
}
use nodejs_wss_tunnel.Server.Router.{announce, announce_agent}
use nodejs_wss_tunnel.Server.AgentServer.{AgentOptions}
use nodejs_wss_tunnel.Server.Run.{Event, run, start}
use nodejs_wss_tunnel.Server.Stable.{At, either}
use nodejs_wss_tunnel.Server.Slots.{run_on_cleanup-heap}
use nodejs_wss_tunnel.Server.Invariant.{IsInvariant, run_P}

abbrev Leads : List Stream → List (ℕ × ℕ) → Type 0
Leads heap m = LeadsToLive (λ (s : Stream). s.id) (λ s. s.cleaned) heap m

-- Each entry of the map of streams leads to a live object with its id.
abbrev pub IsRegistry : Server → Type 0
IsRegistry w = Leads w.heap w.streams

changed-IsRegistry :
    (w : Server) (i : ℕ) (v u : Stream)
    → At w i v
    → u.id ≡ v.id
    → u.cleaned ≡ v.cleaned
    → IsRegistry w
    → IsRegistry (put w i u)
changed-IsRegistry w i v u here same_id same_state h =
    changed-LeadsToLive (λ s. s.id) (λ s. s.cleaned) w.heap w.streams i v u here same_id same_state
      h

pub run_on_cleanup-streams :
    (w : Server) (id : ℕ) (c : OnCleanup) → (run_on_cleanup w id c).streams ≡ w.streams
unfolding run_on_cleanup
run_on_cleanup-streams w id nothing = refl
run_on_cleanup-streams w id (router_slot port true) = refl
run_on_cleanup-streams w id (router_slot port false) = refl
run_on_cleanup-streams w id (agent_slot port ws) = refl

ended_tcp-IsRegistry :
    (env : Env) (w : Server) (i : ℕ) (v : Stream)
    → At w i v
    → IsRegistry w
    → IsRegistry (cleanup_tcp_stream env w i v)
unfolding cleanup_tcp_stream
ended_tcp-IsRegistry env w i v here h = either IsRegistry v.cleaned h (
    rw (run_on_cleanup-heap, run_on_cleanup-streams)
      (ended-LeadsToLive (λ s. s.id) (λ s. s.cleaned) w.heap w.streams i v _ here h))

ended-IsRegistry :
    (env : Env) (w : Server) (i : ℕ) (v : Stream)
    → At w i v
    → IsRegistry w
    → IsRegistry (cleanup_stream env w i v)
unfolding cleanup_stream
ended-IsRegistry env w i v here h =
    either IsRegistry v.cleaned h
      (ended-LeadsToLive (λ s. s.id) (λ s. s.cleaned) w.heap w.streams i v _ here h)

-- The object that was registered last is written again.
made_registered :
    (heap : List Stream) (m : List (ℕ × ℕ)) (v u : Stream)
    → u.cleaned ≡ false
    → Leads heap m
    → Leads (set (heap ++ v ∷ []) (length heap) u) (insert u.id (length heap) m)
made_registered heap m v u live h =
    rw set-append_length (added-LeadsToLive (λ s. s.id) (λ s. s.cleaned) heap m u live h)

announce-IsRegistry :
    (env : Env) (w : Server) (ws p id : ℕ) → IsRegistry w → IsRegistry (announce env w ws p id).0
unfolding announce create_tcp_stream
announce-IsRegistry env w ws p id h = made_registered w.heap w.streams _ _ refl h

announce_agent-IsRegistry :
    (env : Env) (w : Server) (ws agent p id : ℕ)
    → IsRegistry w
    → IsRegistry (announce_agent env w ws agent p id).0
unfolding announce_agent create_tcp_stream
announce_agent-IsRegistry env w ws agent p id h = made_registered w.heap w.streams _ _ refl h

-- An object that is made and not kept in the map.
dropped :
    (heap : List Stream) (m : List (ℕ × ℕ)) (v : Stream)
    → Leads heap m
    → lookup v.id m ≡ none
    → Leads (heap ++ v ∷ []) (remove v.id (insert v.id (length heap) m))
dropped heap m v h free id i found =
    let before : lookup id m ≡ some i = ground (
      arith,
      found,
      lookup-remove v.id id (insert v.id (length heap) m),
      lookup-insert v.id id (length heap) m,
    ) in
    let (t, there, same, live) = h id i before in
    (t, get_elem?-append heap (v ∷ []) i t there, same, live)

requested-IsRegistry :
    (env : Env) (w : Server) (ws : ℕ) (meta : Obj) (is_head : Bool) (id : ℕ)
    → lookup id w.streams ≡ none
    → IsRegistry w
    → IsRegistry (create_stream env w ws meta is_head id).0
unfolding create_stream
requested-IsRegistry env w ws meta is_head id free h =
    either (λ (p : Server × Option ℕ). IsRegistry p.0) (can_send env w.log ws)
      (made_registered w.heap w.streams _ _ refl h) (dropped w.heap w.streams _ h free)

IsRegistry-IsInvariant : IsInvariant (λ env. Unit {0}) IsRegistry
IsRegistry-IsInvariant = record {
  stable = record {
    changed =
        λ w i v u here e h. changed-IsRegistry w i v u here (ap (λ k. k.0) e) (ap (λ k. k.3) e) h;
    logged = λ w log tasks h. h;
    aside = λ w clients counts owned h. h;
    ended_tcp = ended_tcp-IsRegistry;
    ended = ended-IsRegistry;
  };
  renumbered = λ w next h. h;
  announced = λ env w ws p id good room below free h. announce-IsRegistry env w ws p id h;
  announced_agent =
      λ env w ws agent p id good room free h. announce_agent-IsRegistry env w ws agent p id h;
  recorded = λ w i agent p v u here old new same h.
      changed-IsRegistry w i v u here (ap (λ k. k.0) same) (ap (λ k. k.3) same) h;
  requested = λ env w ws meta is_head id good room free h.
      requested-IsRegistry env w ws meta is_head id free h;
}

nothing_asked : (es : List (Env × Event)) → All (λ e. Unit {0}) es
nothing_asked [] = tt
nothing_asked (e ∷ es) = (tt, nothing_asked es)

-- Over every history of the server from its start, each entry of the map of streams leads to an object
-- that has the entry's id and is not cleaned up.
pub run-IsRegistry : (o : AgentOptions) (es : List (Env × Event)) → IsRegistry (run o start es)
run-IsRegistry o es =
    run_P (λ env. Unit {0}) IsRegistry IsRegistry-IsInvariant o es start (nothing_asked es)
      (no_entry (λ s. s.id) (λ s. s.cleaned))

-- ===== src/Server/Slots.antt =====
-- The places of a port that TcpRouter counts: `_connCountByPort` against the streams that hold one.
use nodejs_wss_tunnel.Prelude.{
  ℕ, ◌+◌, ◌-◌, ◌≤◌, ◌≡◌, refl, ap, ◌∙◌, Bool, true, false, List, set, count, bit, count-set, ◌==◌,
  if◌then◌else◌, arith,
}
use nodejs_wss_tunnel.Prelude.Maps.{lookup, lookup-insert, or_one}
use nodejs_wss_tunnel.Net.{Env}
use nodejs_wss_tunnel.Server.State.{
  Server, Stream, OnCleanup, nothing, router_slot, agent_slot, put,
}
use nodejs_wss_tunnel.Server.Streams.{
  give_back, run_on_cleanup, called, cleanup_tcp_stream, cleanup_stream,
}
use nodejs_wss_tunnel.Server.Router.{count_of}
use nodejs_wss_tunnel.Server.Stable.{At, IsStable, either}

-- The closure is that of an external connection, and still has a place of the port to give back to
-- TcpRouter. The streams of agents have a count of their own, in TcpAgentServer.
abbrev pub owes : ℕ → OnCleanup → Bool
owes port (router_slot p false) = p == port
owes port _ = false

-- The stream of an external connection that holds a place of the port in TcpRouter's count.
abbrev pub holds : ℕ → Stream → Bool
holds port s = owes port s.on_cleanup

-- TcpRouter's count of a port is the number of objects that hold a place of it.
abbrev pub IsCounted : Server → Type 0
IsCounted w = (port : ℕ) → count_of port w.router_counts ≡ count (holds port) w.heap

pub count_of-give_back :
    (port p : ℕ) (counts : List (ℕ × ℕ))
    → count_of port (give_back p counts)
      ≡ (if p == port then count_of port counts - 1 else count_of port counts)
unfolding give_back
count_of-give_back port p counts =
    ground (arith, lookup-insert p port (or_one (lookup p counts) - 1) counts)

pub changed-IsCounted :
    (w : Server) (r : ℕ) (s s' : Stream)
    → At w r s
    → ((port : ℕ) → owes port s'.on_cleanup ≡ owes port s.on_cleanup)
    → IsCounted w
    → IsCounted (put w r s')
changed-IsCounted w r s s' here e h port =
    omega (arith, h port, count-set (holds port) w.heap r s s' here, ap bit (e port))

-- `run_on_cleanup` gives back what `called` no longer owes.
called_counted :
    (port : ℕ) (w : Server) (id : ℕ) (k : OnCleanup)
    → bit (owes port k) ≤ count_of port w.router_counts
    → count_of port (run_on_cleanup w id k).router_counts + bit (owes port k)
      ≡ count_of port w.router_counts + bit (owes port (called k))
unfolding run_on_cleanup
called_counted port w id nothing h = omega arith
called_counted port w id (router_slot p true) h = omega arith
called_counted port w id (router_slot p false) h =
    ground (arith, count_of-give_back port p w.router_counts)
called_counted port w id (agent_slot p ws) h = omega arith

pub run_on_cleanup-heap :
    (w : Server) (id : ℕ) (k : OnCleanup) → (run_on_cleanup w id k).heap ≡ w.heap
unfolding run_on_cleanup
run_on_cleanup-heap w id nothing = refl
run_on_cleanup-heap w id (router_slot p true) = refl
run_on_cleanup-heap w id (router_slot p false) = refl
run_on_cleanup-heap w id (agent_slot p ws) = refl

owes-called : (port : ℕ) (k : OnCleanup) → owes port (called k) ≡ false
owes-called port nothing = refl
owes-called port (router_slot p released) = refl
owes-called port (agent_slot p ws) = refl

-- An object's closure is called, and the object no longer holds a place.
released-IsCounted :
    (w w' : Server) (r : ℕ) (s s' : Stream)
    → At w r s
    → IsCounted w
    → s'.on_cleanup ≡ called s.on_cleanup
    → w'.heap ≡ set w.heap r s'
    → w'.router_counts ≡ w.router_counts
    → IsCounted (run_on_cleanup w' s.id s.on_cleanup)
released-IsCounted w w' r s s' here h k heap counts port =
    let free : bit (owes port s'.on_cleanup) ≡ 0 =
      ap (λ c. bit (owes port c)) k ∙ ap bit (owes-called port s.on_cleanup) in
    let free' : bit (owes port (called s.on_cleanup)) ≡ 0 =
      ap bit (owes-called port s.on_cleanup) in
    let written = count-set (holds port) w.heap r s s' here in
    let same : count_of port w'.router_counts ≡ count_of port w.router_counts =
      ap (count_of port) counts in
    let same_heap : count (holds port) w'.heap ≡ count (holds port) (set w.heap r s') =
      ap (count (holds port)) heap in
    let after = called_counted port w' s.id s.on_cleanup (omega (arith, h port)) in
    rw (run_on_cleanup-heap w' s.id s.on_cleanup) (omega (arith, h port))

ended_tcp-IsCounted :
    (env : Env) (w : Server) (r : ℕ) (s : Stream)
    → At w r s
    → IsCounted w
    → IsCounted (cleanup_tcp_stream env w r s)
unfolding cleanup_tcp_stream
ended_tcp-IsCounted env w r s here h =
    either IsCounted s.cleaned h (released-IsCounted w _ r s _ here h refl refl refl)

ended-IsCounted :
    (env : Env) (w : Server) (r : ℕ) (s : Stream)
    → At w r s
    → IsCounted w
    → IsCounted (cleanup_stream env w r s)
unfolding cleanup_stream
ended-IsCounted env w r s here h =
    either IsCounted s.cleaned h (changed-IsCounted w r s _ here (λ port. refl) h)

pub IsCounted-IsStable : IsStable IsCounted
IsCounted-IsStable = record {
  changed =
      λ w r s s' here e h. changed-IsCounted w r s s' here (λ port. ap (λ k. owes port k.4) e) h;
  logged = λ w log tasks h. h;
  aside = λ w clients counts owned h. h;
  ended_tcp = ended_tcp-IsCounted;
  ended = ended-IsCounted;
}

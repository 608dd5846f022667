-- ===== src/TunnelClient/Registry.antt =====
-- The map of streams of the tunnel client over all its histories, and its end with the connection.
use nodejs_wss_tunnel.Prelude.{
  ℕ, ◌≡◌, sym, subst, ap, inl, inr, false, Option, none, some, List, [], ◌∷◌, get_elem?, All, arith,
  ◌==◌, ==_iff, Option-cases, Bool-cases,
}
use nodejs_wss_tunnel.Prelude.Maps.{lookup, lookup-remove}
use nodejs_wss_tunnel.Prelude.Registry.{
  LeadsToLive, no_entry, changed-LeadsToLive, ended-LeadsToLive, added-LeadsToLive,
}
use nodejs_wss_tunnel.Server.Stable.{either}
use nodejs_wss_tunnel.TunnelClient.{Client, ClientStream, ClientEnv, at_stream}
use nodejs_wss_tunnel.TunnelClient.Streams.{
  cleanup_stream, visit, each_stream, cleanup_tcp_streams, cleanup_http_streams,
  cleanup_all_streams,
}
use nodejs_wss_tunnel.TunnelClient.Events.{
  ClientEvent, closed, disconnected, on_close, schedule_reconnect, client_handle, client_run,
  client_start,
}
use nodejs_wss_tunnel.TunnelClient.Kept.{IsKept, visit-K, cleanup_stream-K, cleanup_tcp_streams-K}
use nodejs_wss_tunnel.TunnelClient.KeptRun.{client_run-K}

-- Each entry of the map is a live object with that id.
abbrev pub IsRegistered : List ClientStream → List (ℕ × ℕ) → Type 0
IsRegistered heap m = LeadsToLive (λ (s : ClientStream). s.id) (λ s. s.cleaned) heap m

abbrev pub AnyEnv : ClientEnv → Type 0
AnyEnv env = Unit {0}

IsRegistered-IsKept : IsKept AnyEnv IsRegistered
IsRegistered-IsKept = record {
  changed = λ heap m r s s' here e h.
      changed-LeadsToLive (λ s. s.id) (λ s. s.cleaned) heap m r s s' here (ap (λ k. k.0) e)
        (ap (λ k. k.1) e) h;
  ended = λ heap m r s s' here live same dead h.
      ended-LeadsToLive (λ s. s.id) (λ s. s.cleaned) heap m r s s' here h;
  added = λ env heap m s good room live h.
      added-LeadsToLive (λ s. s.id) (λ s. s.cleaned) heap m s live h;
}

nothing_asked : (es : List (ClientEnv × ClientEvent)) → All (λ e. AnyEnv e.0) es
nothing_asked [] = tt
nothing_asked (e ∷ es) = (tt, nothing_asked es)

-- Over every history of the tunnel client from its start, each entry of its map of streams is an object
-- that has the entry's id and is not cleaned up.
pub client_run-IsRegistered :
    (es : List (ClientEnv × ClientEvent))
    → IsRegistered (client_run client_start es).heap (client_run client_start es).streams
client_run-IsRegistered es =
    client_run-K AnyEnv IsRegistered IsRegistered-IsKept client_start es (nothing_asked es)
      (no_entry (λ s. s.id) (λ s. s.cleaned))

abbrev Reg : Client → Type 0
Reg c = IsRegistered c.heap c.streams

abbrev Lacks : ℕ → Client → Type 0
Lacks id c = lookup id c.streams ≡ none

cleanup_stream-Lacks :
    (id : ℕ) (c : Client) (r : ℕ) (s : ClientStream) → Lacks id c → Lacks id (cleanup_stream c r s)
unfolding cleanup_stream
cleanup_stream-Lacks id c r s h = ground (arith, lookup-remove s.id id c.streams)

visit-Lacks :
    (id : ℕ) (c : Client) (o : Option ℕ) → Lacks id c → Lacks id (visit cleanup_stream c o)
visit-Lacks id c none h = h
visit-Lacks id c (some r) h = there (get_elem? c.heap r)
  where
    there : (o : Option ClientStream) → Lacks id (at_stream c o (cleanup_stream c r))
    there none = h
    there (some s) = cleanup_stream-Lacks id c r s h

each_stream-Lacks :
    (id : ℕ) (keys : List (ℕ × ℕ)) (c : Client)
    → Lacks id c
    → Lacks id (each_stream cleanup_stream keys c)
unfolding each_stream
each_stream-Lacks id [] c h = h
each_stream-Lacks id ((k, v) ∷ keys) c h =
    each_stream-Lacks id keys (visit cleanup_stream c (lookup k c.streams))
      (visit-Lacks id c (lookup k c.streams) h)

cleanup_stream-removes :
    (id : ℕ) (c : Client) (r : ℕ) (s : ClientStream)
    → s.id ≡ id
    → s.cleaned ≡ false
    → Lacks id (cleanup_stream c r s)
unfolding cleanup_stream
cleanup_stream-removes id c r s same live = ground (arith, lookup-remove s.id id c.streams)

-- The entry that is visited goes.
visit-removes :
    (id : ℕ) (c : Client) → Reg c → Lacks id (visit cleanup_stream c (lookup id c.streams))
visit-removes id c h = elim (Option-cases (lookup id c.streams)) [
  | inl e ↦ rw (e, visit) e
  | inr (r, e) ↦
      let (s, there, same, live) = h id r e in
      rw (e, visit) (rw (there, at_stream) (cleanup_stream-removes id c r s same live))
]

each_stream-clears :
    (id v : ℕ) (keys : List (ℕ × ℕ)) (c : Client)
    → Reg c
    → lookup id keys ≡ some v
    → Lacks id (each_stream cleanup_stream keys c)
unfolding each_stream lookup
each_stream-clears id v [] c h e = cc
each_stream-clears id v ((k, u) ∷ keys) c h e =
    let next = visit cleanup_stream c (lookup k c.streams) in
    elim (Bool-cases (k == id)) [
      | inl same ↦ each_stream-Lacks id keys next (
          subst (λ j. Lacks id (visit cleanup_stream c (lookup j c.streams)))
            (sym ((==_iff k id).0 same)) (visit-removes id c h))
      | inr other ↦
          each_stream-clears id v keys next
            (visit-K AnyEnv IsRegistered IsRegistered-IsKept cleanup_stream
              (cleanup_stream-K AnyEnv IsRegistered IsRegistered-IsKept) c (lookup k c.streams) h)
            (ground arith)
    ]

cleanup_http_streams-Lacks : (id : ℕ) (c : Client) → Reg c → Lacks id (cleanup_http_streams c)
unfolding cleanup_http_streams
cleanup_http_streams-Lacks id c h = elim (Option-cases (lookup id c.streams)) [
  | inl e ↦ each_stream-Lacks id c.streams c e
  | inr (r, e) ↦ each_stream-clears id r c.streams c h e
]

on_close-Lacks : (id : ℕ) (c : Client) → Reg c → Lacks id (on_close c)
unfolding on_close schedule_reconnect cleanup_all_streams
on_close-Lacks id c h =
    let gone =
      cleanup_http_streams-Lacks id (cleanup_tcp_streams (disconnected c))
        (cleanup_tcp_streams-K AnyEnv IsRegistered IsRegistered-IsKept (disconnected c) h) in
    either (Lacks id) _ gone gone

-- When the WebSocket closes, after whatever history, no stream is left in the map.
pub client_handle-closed :
    (es : List (ClientEnv × ClientEvent)) (env : ClientEnv) (id : ℕ)
    → lookup id (client_handle env (client_run client_start es) closed).streams ≡ none
unfolding client_handle
client_handle-closed es env id =
    on_close-Lacks id (client_run client_start es) (client_run-IsRegistered es)

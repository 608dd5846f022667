-- ===== src/Server/Swept.antt =====
-- The streams that `cleanupClient` of src/server/ClientManager.js and `close` of src/tcp/TcpRouter.js
-- leave in the map.
use nodejs_wss_tunnel.Prelude.{
  ℕ, ◌≡◌, ◌≢◌, refl, sym, subst, inl, inr, Bool, false, true, Bool-cases, ==_iff, Option-cases,
  some, List, [], ◌∷◌, String, get_elem?, map, arith, ◌==◌, ◌&&◌, not, ◌||◌, if◌then◌else◌,
}
use nodejs_wss_tunnel.Prelude.Maps.{lookup, lookup-remove}
use nodejs_wss_tunnel.Net.{Env}
use nodejs_wss_tunnel.Server.State.{Server, Stream, Mode, is_tcp, at_stream}
use nodejs_wss_tunnel.Server.Streams.{
  cleanup_tcp_stream, cleanup_stream, abort_tcp_stream, abort_stream, abort_any_stream,
}
use nodejs_wss_tunnel.Server.Clients.{contains, without, cleanup_client, abort_streams_of}
use nodejs_wss_tunnel.Server.AgentServer.{AgentOptions}
use nodejs_wss_tunnel.Server.Run.{Event, run, start}
use nodejs_wss_tunnel.Server.Stable.{
  At, IsStable, either, when_true, when_false, abort_any_stream_P, at_stream_P,
}
use nodejs_wss_tunnel.Server.StableAgents.{abort_streams_of_P, cleanup_client_P}
use nodejs_wss_tunnel.Server.Registry.{run_on_cleanup-streams, IsRegistry, run-IsRegistry}
use nodejs_wss_tunnel.Server.Entries.{
  Lacks, IsLive, Entry, Entry-IsStable, cleanup_tcp_stream-Lacks, cleanup_stream-Lacks,
}

ended_tcp-Lacks :
    (id : ℕ) (env : Env) (w : Server) (i : ℕ) (v : Stream)
    → Lacks id w
    → Lacks id (cleanup_tcp_stream env w i v)
unfolding cleanup_tcp_stream
ended_tcp-Lacks id env w i v h =
    either (Lacks id) v.cleaned h
      (rw run_on_cleanup-streams (ground (arith, h, lookup-remove v.id id w.streams)))

ended-Lacks :
    (id : ℕ) (env : Env) (w : Server) (i : ℕ) (v : Stream)
    → Lacks id w
    → Lacks id (cleanup_stream env w i v)
unfolding cleanup_stream
ended-Lacks id env w i v h =
    either (Lacks id) v.cleaned h (ground (arith, h, lookup-remove v.id id w.streams))

pub Lacks-IsStable : (id : ℕ) → IsStable (Lacks id)
Lacks-IsStable id = record {
  changed = λ w i v u here e h. h;
  logged = λ w log tasks h. h;
  aside = λ w clients counts owned h. h;
  ended_tcp = λ env w i v here h. ended_tcp-Lacks id env w i v h;
  ended = λ env w i v here h. ended-Lacks id env w i v h;
}

module _ (env : Env) (w : Server) (r : ℕ) (s : Stream) (live : s.cleaned ≡ false) where
  pub abort_tcp_stream-Lacks :
      (reason : String) (notify : Bool) → Lacks s.id (abort_tcp_stream env w r s reason notify)
  unfolding abort_tcp_stream
  abort_tcp_stream-Lacks reason notify =
      when_false (Lacks s.id) s.cleaned w live (cleanup_tcp_stream-Lacks env _ r _ live)

  abort_stream-Lacks :
      (reason : String) (notify : Bool) → Lacks s.id (abort_stream env w r s reason notify)
  unfolding abort_stream
  abort_stream-Lacks reason notify = when_false (Lacks s.id) s.cleaned w live (
      cleanup_stream-Lacks env _ r
        (record s { abort_sent = s.abort_sent || (notify && env.is_open s.ws && not s.abort_sent) })
        live)

  abort_any_stream-Lacks :
      (reason : String) (notify : Bool) → Lacks s.id (abort_any_stream env w r s reason notify)
  unfolding abort_any_stream
  abort_any_stream-Lacks reason notify =
      either (Lacks s.id) (is_tcp s.mode) (abort_tcp_stream-Lacks reason notify)
        (abort_stream-Lacks reason notify)

-- What is done to the object of an entry.
pub at_stream-Lacks :
    (id r ws : ℕ) (mode : Mode) (w : Server) (f : Stream → Server)
    → IsLive w.heap id r ws mode
    → ((s : Stream) → s.id ≡ id → s.ws ≡ ws → s.mode ≡ mode → s.cleaned ≡ false → Lacks id (f s))
    → Lacks id (at_stream w r f)
at_stream-Lacks id r ws mode w f h k =
    rw (h.at_place, at_stream) (k h.object h.has_id h.has_ws h.has_mode h.is_live)

-- An entry of the client goes when its place is visited.
module _ (env : Env) (id r ws : ℕ) (mode : Mode) where
  visit : Server → ℕ → Server
  visit w i =
      at_stream w i (λ s.
        if s.ws == ws then abort_any_stream env w i s "Tunnel client disconnected" false else w)

  visit-Entry : (w : Server) (i : ℕ) → Entry id r ws mode w → Entry id r ws mode (visit w i)
  unfolding visit
  visit-Entry w i h =
      at_stream_P (Entry id r ws mode) (Entry-IsStable id r ws mode) w i _ h (λ s here.
        either (Entry id r ws mode) (s.ws == ws)
          (abort_any_stream_P (Entry id r ws mode) (Entry-IsStable id r ws mode) env w i s here h _
            _)
          h)

  visit-Lacks : (w : Server) → Entry id r ws mode w → Lacks id (visit w r)
  unfolding visit
  visit-Lacks w (inl gone) = at_stream_P (Lacks id) (Lacks-IsStable id) w r _ gone (λ s here.
      either (Lacks id) (s.ws == ws)
        (abort_any_stream_P (Lacks id) (Lacks-IsStable id) env w r s here gone _ _) gone)
  visit-Lacks w (inr (found, h)) =
      at_stream-Lacks id r ws mode w _ h (λ s has_id has_ws has_mode live.
        when_true (Lacks id) (s.ws == ws) w ((==_iff s.ws ws).1 has_ws) (
          subst (λ j. Lacks j (abort_any_stream env w r s "Tunnel client disconnected" false))
            has_id (abort_any_stream-Lacks env w r s live _ _)))

  abort_streams_of-Lacks :
      (rs : List ℕ) (w : Server)
      → contains r rs ≡ true
      → Entry id r ws mode w
      → Lacks id (abort_streams_of env w ws rs)
  unfolding abort_streams_of visit
  abort_streams_of-Lacks [] w there h = ground arith
  abort_streams_of-Lacks (i ∷ rs) w there h = elim (Bool-cases (i == r)) [
    | inl same ↦
        abort_streams_of_P (Lacks id) (Lacks-IsStable id) env rs (visit w i) ws
          (subst (λ j. Lacks id (visit w j)) (sym ((==_iff i r).0 same)) (visit-Lacks w h))
    | inr other ↦
        abort_streams_of-Lacks rs (visit w i) (ground (arith, there, other)) (visit-Entry w i h)
  ]

lookup-contains :
    (id r : ℕ) (m : List (ℕ × ℕ))
    → lookup id m ≡ some r
    → contains r (map (λ (e : ℕ × ℕ). e.1) m) ≡ true
unfolding lookup
lookup-contains id r [] e = ground arith
lookup-contains id r ((k, v) ∷ m) e = ground (arith, e, lookup-contains id r m)

-- A change that takes away entries and no more.
pub record Shrinks (w w' : Server) : Type 0 where
  pub keeps_entries : (id r ws : ℕ) (mode : Mode) → Entry id r ws mode w → Entry id r ws mode w'
  pub keeps_gaps : (id : ℕ) → Lacks id w → Lacks id w'

pub stable-Shrinks :
    (w w' : Server) → ((P : Server → Type 0) → IsStable P → P w → P w') → Shrinks w w'
stable-Shrinks w w' h = record {
  keeps_entries = λ id r ws mode. h (Entry id r ws mode) (Entry-IsStable id r ws mode);
  keeps_gaps = λ id. h (Lacks id) (Lacks-IsStable id);
}

same_object :
    (heap heap' : List Stream) (id r0 r ws : ℕ) (mode : Mode) (s : Stream)
    → IsLive heap id r0 ws mode
    → IsLive heap' id r0 ws mode
    → r0 ≡ r
    → get_elem? heap' r ≡ some s
    → IsLive heap id r s.ws s.mode
same_object heap heap' id r0 r ws mode s before after same here = record {
  object = before.object;
  at_place = subst (λ i. get_elem? heap i ≡ some before.object) same before.at_place;
  has_id = before.has_id;
  has_ws = ground (arith, before.has_ws, after.has_ws, after.at_place, here, same);
  has_mode = ground (arith, before.has_mode, after.has_mode, after.at_place, here, same);
  is_live = before.is_live;
}

-- An entry afterwards was an entry before, of an object with the same WebSocket and mode.
pub was_there :
    (w w' : Server) (id r : ℕ) (s : Stream)
    → IsRegistry w
    → Shrinks w w'
    → lookup id w'.streams ≡ some r
    → At w' r s
    → (lookup id w.streams ≡ some r) × IsLive w.heap id r s.ws s.mode
was_there w w' id r s h shrinks found here = elim (Option-cases (lookup id w.streams)) [
  | inl gone ↦ absurd (ground (arith, found, shrinks.keeps_gaps id gone))
  | inr (r0, e) ↦
      let (s0, there, has_id, live) = h id r0 e in
      let before : IsLive w.heap id r0 s0.ws s0.mode = record {
        object = s0;
        at_place = there;
        has_id = has_id;
        has_ws = refl;
        has_mode = refl;
        is_live = live;
      } in
      elim (shrinks.keeps_entries id r0 s0.ws s0.mode (inr (e, before))) [
        | inl gone ↦ absurd (ground (arith, found, gone))
        | inr (e', after) ↦
            let same : r0 ≡ r = ground (arith, found, e') in
            (
              subst (λ i. lookup id w.streams ≡ some i) same e,
              same_object w.heap w'.heap id r0 r s0.ws s0.mode s before after same here,
            )
      ]
]

cleanup_client-Shrinks : (env : Env) (w : Server) (ws : ℕ) → Shrinks w (cleanup_client env w ws)
cleanup_client-Shrinks env w ws =
    stable-Shrinks w (cleanup_client env w ws) (λ P stable h. cleanup_client_P P stable env w ws h)

cleanup_client-Lacks :
    (env : Env) (w : Server) (id r ws : ℕ) (mode : Mode)
    → lookup id w.streams ≡ some r
    → IsLive w.heap id r ws mode
    → Lacks id (cleanup_client env w ws)
unfolding cleanup_client
cleanup_client-Lacks env w id r ws mode e live =
    abort_streams_of-Lacks env id r ws mode (map (λ (e : ℕ × ℕ). e.1) w.streams)
      (record w { clients = without ws w.clients }) (lookup-contains id r w.streams e)
      (inr (e, live))

-- When a tunnel client's WebSocket ends, after whatever history of the server, no entry of the map of
-- streams leads to a stream of that client any more.
pub cleanup_client-sweeps :
    (o : AgentOptions) (es : List (Env × Event)) (env : Env) (ws id r : ℕ) (s : Stream)
    → lookup id (cleanup_client env (run o start es) ws).streams ≡ some r
    → At (cleanup_client env (run o start es) ws) r s
    → s.ws ≢ ws
cleanup_client-sweeps o es env ws id r s found here same =
    let w = run o start es in
    let (e, live) =
      was_there w (cleanup_client env w ws) id r s (run-IsRegistry o es)
        (cleanup_client-Shrinks env w ws) found here in
    absurd (
      ground (
        arith,
        found,
        cleanup_client-Lacks env w id r ws s.mode e
            (subst (λ k. IsLive w.heap id r k s.mode) same live),
      ))

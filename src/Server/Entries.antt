-- ===== src/Server/Entries.antt =====
-- What becomes of one entry of the map of streams: it is gone, or it leads to the same live object.
use nodejs_wss_tunnel.Prelude.{
  ℕ, ◌≡◌, ap, ◌∙◌, ◌⊎◌, inl, inr, false, Bool-cases, none, some, List, get_elem?, get_elem?-set,
  set, arith, ◌==◌,
}
use nodejs_wss_tunnel.Prelude.Maps.{lookup, remove, lookup-remove}
use nodejs_wss_tunnel.Net.{Env}
use nodejs_wss_tunnel.Server.State.{Server, Stream, Mode, put}
use nodejs_wss_tunnel.Server.Streams.{cleanup_tcp_stream, cleanup_stream}
use nodejs_wss_tunnel.Server.Slots.{run_on_cleanup-heap}
use nodejs_wss_tunnel.Server.Stable.{At, IsStable, either, when_false, key}
use nodejs_wss_tunnel.Server.Registry.{run_on_cleanup-streams}

abbrev pub Lacks : ℕ → Server → Type 0
Lacks id w = lookup id w.streams ≡ none

-- A live object of this id, WebSocket and mode at this place.
pub record IsLive (heap : List Stream) (id r ws : ℕ) (mode : Mode) : Type 0 where
  pub object : Stream
  pub at_place : get_elem? heap r ≡ some object
  pub has_id : object.id ≡ id
  pub has_ws : object.ws ≡ ws
  pub has_mode : object.mode ≡ mode
  pub is_live : object.cleaned ≡ false

abbrev pub Leads : ℕ → ℕ → ℕ → Mode → List Stream → List (ℕ × ℕ) → Type 0
Leads id r ws mode heap m =
    (lookup id m ≡ none) ⊎ ((lookup id m ≡ some r) × IsLive heap id r ws mode)

abbrev pub Entry : ℕ → ℕ → ℕ → Mode → Server → Type 0
Entry id r ws mode w = Leads id r ws mode w.heap w.streams

module _ (id r ws : ℕ) (mode : Mode) where
  changed-Entry :
      (w : Server) (i : ℕ) (v u : Stream)
      → At w i v
      → key u ≡ key v
      → Entry id r ws mode w
      → Entry id r ws mode (put w i u)
  changed-Entry w i v u here e (inl gone) = inl gone
  changed-Entry w i v u here e (inr (found, h)) = elim (get_elem?-set w.heap i r v u here) [
    | inl (same, now) ↦ inr (
      found,
      record {
        object = u;
        at_place = now;
        has_id = ground (arith, here, h.at_place, h.has_id, ap (λ k. k.0) e);
        has_ws = ground (arith, here, h.at_place, h.has_ws, ap (λ k. k.1) e);
        has_mode = ground (arith, here, h.at_place, h.has_mode, ap (λ k. k.2) e);
        is_live = ground (arith, here, h.at_place, h.is_live, ap (λ k. k.3) e);
      },
    )
    | inr (_, kept) ↦ inr (
      found,
      record {
        object = h.object;
        at_place = kept ∙ h.at_place;
        has_id = h.has_id;
        has_ws = h.has_ws;
        has_mode = h.has_mode;
        is_live = h.is_live;
      },
    )
  ]

  removed :
      (heap : List Stream) (m : List (ℕ × ℕ)) (i : ℕ) (v u : Stream)
      → get_elem? heap i ≡ some v
      → Leads id r ws mode heap m
      → Leads id r ws mode (set heap i u) (remove v.id m)
  removed heap m i v u here (inl gone) = inl (ground (arith, gone, lookup-remove v.id id m))
  removed heap m i v u here (inr (found, h)) = elim (Bool-cases (v.id == id)) [
    | inl same ↦ inl (ground (arith, same, lookup-remove v.id id m))
    | inr other ↦ elim (get_elem?-set heap i r v u here) [
      | inl (eq, now) ↦ absurd (ground (arith, here, h.at_place, h.has_id, other))
      | inr (_, kept) ↦ inr (
        ground (arith, found, other, lookup-remove v.id id m),
        record {
          object = h.object;
          at_place = kept ∙ h.at_place;
          has_id = h.has_id;
          has_ws = h.has_ws;
          has_mode = h.has_mode;
          is_live = h.is_live;
        },
      )
    ]
  ]

  ended_tcp-Entry :
      (env : Env) (w : Server) (i : ℕ) (v : Stream)
      → At w i v
      → Entry id r ws mode w
      → Entry id r ws mode (cleanup_tcp_stream env w i v)
  unfolding cleanup_tcp_stream
  ended_tcp-Entry env w i v here h =
      either (Entry id r ws mode) v.cleaned h
        (rw (run_on_cleanup-heap, run_on_cleanup-streams) (removed w.heap w.streams i v _ here h))

  ended-Entry :
      (env : Env) (w : Server) (i : ℕ) (v : Stream)
      → At w i v
      → Entry id r ws mode w
      → Entry id r ws mode (cleanup_stream env w i v)
  unfolding cleanup_stream
  ended-Entry env w i v here h =
      either (Entry id r ws mode) v.cleaned h (removed w.heap w.streams i v _ here h)

  pub Entry-IsStable : IsStable (Entry id r ws mode)
  Entry-IsStable = record {
    changed = changed-Entry;
    logged = λ w log tasks h. h;
    aside = λ w clients counts owned h. h;
    ended_tcp = ended_tcp-Entry;
    ended = ended-Entry;
  }

-- The end of a live stream takes its entry away.
pub cleanup_tcp_stream-Lacks :
    (env : Env) (w : Server) (r : ℕ) (s : Stream)
    → s.cleaned ≡ false
    → Lacks s.id (cleanup_tcp_stream env w r s)
unfolding cleanup_tcp_stream
cleanup_tcp_stream-Lacks env w r s live =
    when_false (Lacks s.id) s.cleaned w live
      (rw run_on_cleanup-streams (ground (arith, lookup-remove s.id s.id w.streams)))

pub cleanup_stream-Lacks :
    (env : Env) (w : Server) (r : ℕ) (s : Stream)
    → s.cleaned ≡ false
    → Lacks s.id (cleanup_stream env w r s)
unfolding cleanup_stream
cleanup_stream-Lacks env w r s live =
    when_false (Lacks s.id) s.cleaned w live (ground (arith, lookup-remove s.id s.id w.streams))

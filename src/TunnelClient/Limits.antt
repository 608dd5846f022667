-- ===== src/TunnelClient/Limits.antt =====
-- The bounds of the tunnel client over all its histories: MAX_CONCURRENT_STREAMS, and the delay before
-- the next connection.
use nodejs_wss_tunnel.Prelude.{ℕ, ◌≤◌, ◌≡◌, List, length, All, arith}
use nodejs_wss_tunnel.Prelude.Maps.{length-insert-le, length-remove-le}
use nodejs_wss_tunnel.TunnelClient.{ClientStream, ClientEnv}
use nodejs_wss_tunnel.TunnelClient.Events.{ClientEvent, client_run, client_start}
use nodejs_wss_tunnel.TunnelClient.Kept.{IsKept}
use nodejs_wss_tunnel.TunnelClient.KeptRun.{client_run-K}

abbrev pub HasMax : ℕ → ClientEnv → Type 0
HasMax most env = env.max_concurrent_streams ≡ most

abbrev IsWithin : ℕ → List ClientStream → List (ℕ × ℕ) → Type 0
IsWithin most heap m = length m ≤ most

IsWithin-IsKept : (most : ℕ) → IsKept (HasMax most) (IsWithin most)
IsWithin-IsKept most = record {
  changed = λ heap m r s s' here e h. h;
  ended = λ heap m r s s' here live same dead h. omega (arith, length-remove-le s.id m, h);
  added = λ env heap m s good room live h.
      omega (arith, length-insert-le s.id (length heap) m, good, room);
}

-- With one value of MAX_CONCURRENT_STREAMS at each event, no history of the tunnel client has more
-- entries in its map of streams.
pub client_run-within_limit :
    (most : ℕ) (es : List (ClientEnv × ClientEvent))
    → All (λ e. HasMax most e.0) es
    → length (client_run client_start es).streams ≤ most
client_run-within_limit most es good =
    client_run-K (HasMax most) (IsWithin most) (IsWithin-IsKept most) client_start es good
      (omega arith)

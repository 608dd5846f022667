-- ===== src/Server/Clients.antt =====
-- ClientManager of src/server/ClientManager.js: the tunnel clients and their connections.
use nodejs_wss_tunnel.Prelude.{
  ℕ, Bool, true, false, ◌||◌, Option, none, some, List, [], ◌∷◌, ◌++◌, length, leb, ltb, ◌==◌,
  if◌then◌else◌, map,
}
use nodejs_wss_tunnel.Net.{Env}
use nodejs_wss_tunnel.Server.State.{Server, at_stream}
use nodejs_wss_tunnel.Server.Streams.{abort_any_stream}

-- One round of the loop of `getActiveClient`.
better : Env → Server → Option ℕ → ℕ → Option ℕ
better env w none ws = some ws
better env w (some best) ws =
    if ltb (env.buffered_amount w.log ws) (env.buffered_amount w.log best)
    then some ws
    else some best

choose : Env → Server → Option ℕ → List ℕ → Option ℕ
choose env w best [] = best
choose env w best (ws ∷ clients) =
    choose env w (if env.is_open ws then better env w best ws else best) clients

-- `getActiveClient`.
unfoldable pub get_active_client : Env → Server → Option ℕ
unfolding choose better
get_active_client env w = choose env w none w.clients

abbrev pub contains : ℕ → List ℕ → Bool
contains k [] = false
contains k (j ∷ js) = j == k || contains k js

abbrev pub without : ℕ → List ℕ → List ℕ
without k [] = []
without k (j ∷ js) = let rest = without k js in if j == k then rest else j ∷ rest

-- `addClient`, and its result; a client that is refused is closed. `clients` is a `Set`.
unfoldable pub add_client : Env → Server → ℕ → Server × Bool
add_client env w ws = if leb env.max_tunnel_clients (length w.clients) then (w, false) else (
  record w { clients = if contains ws w.clients then w.clients else w.clients ++ ws ∷ [] },
  true,
)

-- The loop of `cleanupClient` over the objects in the map when it begins.
unfoldable pub abort_streams_of : Env → Server → ℕ → List ℕ → Server
abort_streams_of env w ws [] = w
abort_streams_of env w ws (r ∷ rs) =
    abort_streams_of env
      (at_stream w r (λ s.
        if s.ws == ws then abort_any_stream env w r s "Tunnel client disconnected" false else w))
      ws rs

-- `cleanupClient`.
unfoldable pub cleanup_client : Env → Server → ℕ → Server
unfolding abort_streams_of
cleanup_client env w ws =
    abort_streams_of env (record w { clients = without ws w.clients }) ws
      (map (λ (e : ℕ × ℕ). e.1) w.streams)

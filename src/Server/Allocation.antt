-- ===== src/Server/Allocation.antt =====
-- `allocateStreamId` of src/server/StreamManager.js.
use nodejs_wss_tunnel.Prelude.{ℕ, zero, suc, ◌+◌, ◌≡◌, none, some, List, leb, if◌then◌else◌, arith}
use nodejs_wss_tunnel.Prelude.Maps.{lookup, has}
use nodejs_wss_tunnel.Server.State.{Server}
use nodejs_wss_tunnel.Server.Streams.{alloc_loop, allocate_stream_id, max_stream_id}

alloc_loop-IsFree :
    (rounds top : ℕ) (streams : List (ℕ × ℕ)) (next id : ℕ)
    → (alloc_loop rounds top streams next).1 ≡ some id
    → lookup id streams ≡ none
unfolding alloc_loop has
alloc_loop-IsFree zero top streams next id e = cc
alloc_loop-IsFree (suc rounds) top streams next id e =
    ground (arith, alloc_loop-IsFree rounds top streams (if leb top next then 1 else next + 1) id)

-- A stream id that `allocateStreamId` returns is not a key of the map of streams.
pub allocate_stream_id-IsFree :
    (w : Server) (id : ℕ) → (allocate_stream_id w).1 ≡ some id → lookup id w.streams ≡ none
unfolding allocate_stream_id
allocate_stream_id-IsFree w id e =
    alloc_loop-IsFree max_stream_id max_stream_id w.streams w.next_stream_id id e

-- ===== src/Server/AllocationLiveness.antt =====
-- `allocateStreamId` of src/server/StreamManager.js finds an id while there is one.
use nodejs_wss_tunnel.Prelude.{
  ℕ, zero, suc, ◌+◌, ◌-◌, ◌≤◌, ◌<◌, ◌≡◌, refl, sym, inl, inr, true, false, Option, none, some,
  Option-cases, is_some, List, [], ◌∷◌, length, leb, if◌then◌else◌, arith,
}
use nodejs_wss_tunnel.Prelude.Maps.{lookup, has, remove, lookup-remove, length-remove-le}
use nodejs_wss_tunnel.Server.State.{Server}
use nodejs_wss_tunnel.Server.Streams.{alloc_loop, allocate_stream_id, max_stream_id}

-- The id that is tried after `k` others, where `next` is the first.
abbrev tried : ℕ → ℕ → ℕ → ℕ
tried top next k = if leb (next + k) top then next + k else next + k - top

after_of : ℕ → ℕ → ℕ
after_of top next = if leb top next then 1 else next + 1

tried-after_of :
    (top next k : ℕ)
    → next ≤ top
    → k + 1 < top
    → tried top (after_of top next) k ≡ tried top next (k + 1)
unfolding after_of
tried-after_of top next k h g = ground arith

-- Without a result, every id that was tried is taken.
none-taken :
    (rounds top : ℕ) (m : List (ℕ × ℕ)) (next k : ℕ)
    → (alloc_loop rounds top m next).1 ≡ none
    → next ≤ top
    → rounds ≤ top
    → k < rounds
    → has (tried top next k) m ≡ true
unfolding alloc_loop
none-taken zero top m next k e h b lt = absurd (omega arith)
none-taken (suc rounds) top m next zero e h b lt = ground arith
none-taken (suc rounds) top m next (suc k) e h b lt = ground (
  arith,
  none-taken rounds top m (if leb top next then 1 else next + 1) k,
  tried-after_of top next k,
)

length-remove-lt : (k : ℕ) (m : List (ℕ × ℕ)) → has k m ≡ true → length (remove k m) < length m
unfolding has lookup remove
length-remove-lt k [] h = ground arith
length-remove-lt k ((j, v) ∷ m) h = ground (arith, length-remove-lt k m, length-remove-le k m)

has-remove : (k id : ℕ) (m : List (ℕ × ℕ)) → id < k → has id m ≡ true → has id (remove k m) ≡ true
unfolding has
has-remove k id m lt h = ground (arith, lookup-remove k id m)

-- A map that has every key from 1 to `top` is at least that long.
full-length :
    (top : ℕ) (m : List (ℕ × ℕ)) → ((id : ℕ) → 1 ≤ id → id ≤ top → has id m ≡ true) → top ≤ length m
full-length zero m all = omega arith
full-length (suc top) m all = omega (
  arith,
  length-remove-lt (suc top) m (all (suc top) (omega arith) (omega arith)),
  full-length top (remove (suc top) m)
      (λ id low high. has-remove (suc top) id m (omega arith) (all id low (omega arith))),
)

-- How many ids are tried before this one.
abbrev before_id : ℕ → ℕ → ℕ → ℕ
before_id top next id = if leb next id then id - next else top - next + id

before_id-lt :
    (top next id : ℕ)
    → 1 ≤ next
    → next ≤ top
    → 1 ≤ id
    → id ≤ top
    → (before_id top next id < top) × (tried top next (before_id top next id) ≡ id)
before_id-lt top next id a b c d = ground arith

all-taken :
    (top : ℕ) (m : List (ℕ × ℕ)) (next : ℕ)
    → 1 ≤ next
    → next ≤ top
    → (alloc_loop top top m next).1 ≡ none
    → (id : ℕ) → 1 ≤ id
    → id ≤ top
    → has id m ≡ true
all-taken top m next a b e id c d =
    let (lt, eq) = before_id-lt top next id a b c d in
    let h = none-taken top top m next (before_id top next id) e b (omega arith) lt in rw (sym eq) h

-- An id that is found is in range and so is the next.
alloc_loop-in_range :
    (rounds top : ℕ) (m : List (ℕ × ℕ)) (next id : ℕ)
    → 1 ≤ next
    → next ≤ top
    → (alloc_loop rounds top m next).1 ≡ some id
    → (1 ≤ id)
      × (id ≤ top)
      × (has id m ≡ false)
      × (1 ≤ (alloc_loop rounds top m next).0)
      × ((alloc_loop rounds top m next).0 ≤ top)
unfolding alloc_loop
alloc_loop-in_range zero top m next id a b e = cc
alloc_loop-in_range (suc rounds) top m next id a b e =
    ground (arith, alloc_loop-in_range rounds top m (if leb top next then 1 else next + 1) id)

-- A counter in range, and less than `top` streams: a free id in range is found, and the counter
-- stays in range.
alloc_loop-succeeds :
    (top : ℕ) (m : List (ℕ × ℕ)) (next : ℕ)
    → length m < top
    → 1 ≤ next
    → next ≤ top
    → (id : ℕ) × ((alloc_loop top top m next).1 ≡ some id)
      × (1 ≤ id)
      × (id ≤ top)
      × (lookup id m ≡ none)
      × (1 ≤ (alloc_loop top top m next).0)
      × ((alloc_loop top top m next).0 ≤ top)
unfolding has
alloc_loop-succeeds top m next room a b = elim (Option-cases (alloc_loop top top m next).1) [
  | inl e ↦ absurd (omega (arith, full-length top m (all-taken top m next a b e)))
  | inr (id, e) ↦
      (let (low, high, free, low', high') = alloc_loop-in_range top top m next id a b e in
        (id, e, low, high, is_some-none (lookup id m) free, low', high'))
]
  where
    is_some-none : (o : Option ℕ) → is_some o ≡ false → o ≡ none
    is_some-none none h = refl
    is_some-none (some v) h = cc

-- As long as fewer than 2^32 - 1 streams are open and `_nextStreamId` is from 1 to 2^32 - 1,
-- `allocateStreamId` does not throw: it returns an id from 1 to 2^32 - 1 that no open stream has, and
-- `_nextStreamId` is again from 1 to 2^32 - 1.
pub allocate_stream_id-succeeds :
    (w : Server)
    → length w.streams < max_stream_id
    → 1 ≤ w.next_stream_id
    → w.next_stream_id ≤ max_stream_id
    → (id : ℕ) × ((allocate_stream_id w).1 ≡ some id)
      × (1 ≤ id)
      × (id ≤ max_stream_id)
      × (lookup id w.streams ≡ none)
      × (1 ≤ (allocate_stream_id w).0.next_stream_id)
      × ((allocate_stream_id w).0.next_stream_id ≤ max_stream_id)
unfolding allocate_stream_id
allocate_stream_id-succeeds w room low high =
    alloc_loop-succeeds max_stream_id w.streams w.next_stream_id room low high

-- ===== src/Server/Silence.antt =====
-- Who is cut off by the heartbeats of src/server/ClientManager.js and src/tcp/TcpAgentServer.js.
use nodejs_wss_tunnel.Prelude.{
  ℕ, ◌≡◌, sym, subst, ==_iff, inl, inr, Bool, true, false, not, ◌&&◌, ◌||◌, Bool-cases, List, [],
  ◌∷◌, ◌++◌, ◌==◌, if◌then◌else◌, arith,
}
use nodejs_wss_tunnel.Server.Clients.{contains, without}
use nodejs_wss_tunnel.Server.Heartbeat.{
  Call, ping, terminate, Watch, one_beat, beat, Beat, joined, pong, left, tick, on_beat, beats,
}

abbrev pub is_terminated : ℕ → List Call → Bool
is_terminated ws [] = false
is_terminated ws (ping k ∷ calls) = is_terminated ws calls
is_terminated ws (terminate k ∷ calls) = k == ws || is_terminated ws calls

-- Whether an event is neither a pong nor the removal of a WebSocket, nor its joining again.
abbrev pub is_silent : ℕ → Beat → Bool
is_silent ws (joined k) = not (k == ws)
is_silent ws (pong k) = not (k == ws)
is_silent ws (left k) = not (k == ws)
is_silent ws tick = true

abbrev pub all_silent : ℕ → List Beat → Bool
all_silent ws [] = true
all_silent ws (e ∷ es) = is_silent ws e && all_silent ws es

module _ (ws : ℕ) where
  one_beat-keeps :
      (is_alive : ℕ → Bool) (k : ℕ) (calls : List Call)
      → is_terminated ws calls ≡ true
      → is_terminated ws ((one_beat is_alive k).1 ∷ calls) ≡ true
  one_beat-keeps is_alive k calls h = ground arith

  one_beat-stays :
      (is_alive : ℕ → Bool) (k : ℕ) → is_alive ws ≡ false → (one_beat is_alive k).0 ws ≡ false
  one_beat-stays is_alive k h = ground arith

  one_beat-clears : (is_alive : ℕ → Bool) → (one_beat is_alive ws).0 ws ≡ false
  one_beat-clears is_alive = ground arith

  one_beat-cuts :
      (is_alive : ℕ → Bool) (calls : List Call)
      → is_alive ws ≡ false
      → is_terminated ws ((one_beat is_alive ws).1 ∷ calls) ≡ true
  one_beat-cuts is_alive calls h = ground arith

  -- Once terminated, always terminated.
  beat-keeps :
      (sockets : List ℕ) (is_alive : ℕ → Bool) (calls : List Call)
      → is_terminated ws calls ≡ true
      → is_terminated ws (beat sockets is_alive calls).1 ≡ true
  unfolding beat
  beat-keeps [] is_alive calls h = h
  beat-keeps (k ∷ sockets) is_alive calls h =
      beat-keeps sockets (one_beat is_alive k).0 ((one_beat is_alive k).1 ∷ calls)
        (one_beat-keeps is_alive k calls h)

  -- A WebSocket that is not alive stays so.
  beat-stays :
      (sockets : List ℕ) (is_alive : ℕ → Bool) (calls : List Call)
      → is_alive ws ≡ false
      → (beat sockets is_alive calls).0 ws ≡ false
  unfolding beat
  beat-stays [] is_alive calls h = h
  beat-stays (k ∷ sockets) is_alive calls h =
      beat-stays sockets (one_beat is_alive k).0 ((one_beat is_alive k).1 ∷ calls)
        (one_beat-stays is_alive k h)

  -- A tick takes the mark of each WebSocket that is watched.
  beat-clears :
      (sockets : List ℕ) (is_alive : ℕ → Bool) (calls : List Call)
      → contains ws sockets ≡ true
      → (beat sockets is_alive calls).0 ws ≡ false
  unfolding beat
  beat-clears [] is_alive calls h = ground arith
  beat-clears (k ∷ sockets) is_alive calls h = elim (Bool-cases (k == ws)) [
    | inl e ↦ beat-stays sockets (one_beat is_alive k).0 ((one_beat is_alive k).1 ∷ calls) (
        subst (λ j. (one_beat is_alive j).0 ws ≡ false) (sym ((==_iff k ws).0 e))
          (one_beat-clears is_alive))
    | inr n ↦
        beat-clears sockets (one_beat is_alive k).0 ((one_beat is_alive k).1 ∷ calls)
          (ground (arith, h, n))
  ]

  -- A tick terminates each WebSocket without the mark.
  beat-terminates :
      (sockets : List ℕ) (is_alive : ℕ → Bool) (calls : List Call)
      → contains ws sockets ≡ true
      → is_alive ws ≡ false
      → is_terminated ws (beat sockets is_alive calls).1 ≡ true
  unfolding beat
  beat-terminates [] is_alive calls h d = ground arith
  beat-terminates (k ∷ sockets) is_alive calls h d = elim (Bool-cases (k == ws)) [
    | inl e ↦ beat-keeps sockets (one_beat is_alive k).0 ((one_beat is_alive k).1 ∷ calls) (
        subst (λ j. is_terminated ws ((one_beat is_alive j).1 ∷ calls) ≡ true)
          (sym ((==_iff k ws).0 e)) (one_beat-cuts is_alive calls d))
    | inr n ↦
        beat-terminates sockets (one_beat is_alive k).0 ((one_beat is_alive k).1 ∷ calls)
          (ground (arith, h, n)) (one_beat-stays is_alive k d)
  ]

contains-append : (ws k : ℕ) (l : List ℕ) → contains ws l ≡ true → contains ws (l ++ k ∷ []) ≡ true
contains-append ws k [] h = ground arith
contains-append ws k (j ∷ l) h = ground (arith, contains-append ws k l)

contains-without :
    (ws k : ℕ) (l : List ℕ)
    → (k == ws) ≡ false
    → contains ws l ≡ true
    → contains ws (without k l) ≡ true
contains-without ws k [] n h = h
contains-without ws k (j ∷ l) n h = ground (arith, contains-without ws k l)

module _ (ws : ℕ) where
  -- Watched, and without its mark.
  abbrev IsPending : Watch → Type 0
  IsPending w = (contains ws w.sockets ≡ true) × (w.is_alive ws ≡ false)

  on_beat-IsPending :
      (w : Watch) (e : Beat) → is_silent ws e ≡ true → IsPending w → IsPending (on_beat w e)
  unfolding on_beat
  on_beat-IsPending w (joined k) silent (here, dead) =
      (joined_there (contains k w.sockets), ground (arith, silent, dead))
    where
      joined_there : (b : Bool) → contains ws (if b then w.sockets else w.sockets ++ k ∷ []) ≡ true
      joined_there true = here
      joined_there false = contains-append ws k w.sockets here
  on_beat-IsPending w (pong k) silent (here, dead) = (here, ground (arith, silent, dead))
  on_beat-IsPending w (left k) silent (here, dead) =
      (contains-without ws k w.sockets (ground (arith, silent)) here, dead)
  on_beat-IsPending w tick silent (here, dead) =
      (here, beat-stays ws w.sockets w.is_alive w.calls dead)

  beats-IsPending :
      (es : List Beat) (w : Watch) → all_silent ws es ≡ true → IsPending w → IsPending (beats w es)
  unfolding beats
  beats-IsPending [] w silent h = h
  beats-IsPending (e ∷ es) w silent h =
      beats-IsPending es (on_beat w e) (ground (arith, silent))
        (on_beat-IsPending w e (ground (arith, silent)) h)

  -- A WebSocket that is watched at one tick and of which nothing is heard until a later one, no pong
  -- and no end, is terminated by the later tick at the latest, whatever the others do meanwhile.
  pub beats-terminates :
      (w : Watch) (es : List Beat)
      → contains ws w.sockets ≡ true
      → all_silent ws es ≡ true
      → is_terminated ws (on_beat (beats (on_beat w tick) es) tick).calls ≡ true
  unfolding on_beat
  beats-terminates w es here silent =
      let ticked : Watch = record w {
        is_alive = (beat w.sockets w.is_alive w.calls).0;
        calls = (beat w.sockets w.is_alive w.calls).1;
      } in
      let (there, dead) =
        beats-IsPending es ticked silent (here, beat-clears ws w.sockets w.is_alive w.calls here) in
      beat-terminates ws (beats ticked es).sockets (beats ticked es).is_alive
        (beats ticked es).calls there dead

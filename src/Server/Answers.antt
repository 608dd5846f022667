-- ===== src/Server/Answers.antt =====
-- Who is spared by the heartbeats of src/server/ClientManager.js and src/tcp/TcpAgentServer.js.
use nodejs_wss_tunnel.Prelude.{
  ℕ, ◌≡◌, refl, sym, subst, ◌∙◌, ==_iff, inl, inr, Bool, true, false, not, ◌&&◌, ◌||◌, Bool-cases,
  List, [], ◌∷◌, ◌++◌, ◌==◌, if◌then◌else◌, arith,
}
use nodejs_wss_tunnel.Server.Clients.{contains, without}
use nodejs_wss_tunnel.Server.Heartbeat.{
  Call, Watch, one_beat, beat, Beat, joined, pong, left, tick, on_beat, beats,
}
use nodejs_wss_tunnel.Server.Silence.{is_terminated}

-- A list without repetitions, as that of a `Set` or of the keys of a `Map`.
abbrev pub is_unique : List ℕ → Bool
is_unique [] = true
is_unique (k ∷ l) = not (contains k l) && is_unique l

contains-append_other :
    (ws k : ℕ) (l : List ℕ) → (k == ws) ≡ false → contains ws (l ++ k ∷ []) ≡ contains ws l
contains-append_other ws k [] n = ground (arith, n)
contains-append_other ws k (j ∷ l) n = ground (arith, contains-append_other ws k l n)

append_unique :
    (k : ℕ) (l : List ℕ)
    → contains k l ≡ false
    → is_unique l ≡ true
    → is_unique (l ++ k ∷ []) ≡ true
append_unique k [] n h = refl
append_unique k (j ∷ l) n h = ground (arith, append_unique k l, contains-append_other j k l)

without_less : (j k : ℕ) (l : List ℕ) → contains j l ≡ false → contains j (without k l) ≡ false
without_less j k [] h = refl
without_less j k (i ∷ l) h = ground (arith, without_less j k l)

without_unique : (k : ℕ) (l : List ℕ) → is_unique l ≡ true → is_unique (without k l) ≡ true
without_unique k [] h = refl
without_unique k (j ∷ l) h = ground (arith, without_unique k l, without_less j k l)

on_beat-is_unique :
    (w : Watch) (e : Beat) → is_unique w.sockets ≡ true → is_unique (on_beat w e).sockets ≡ true
unfolding on_beat
on_beat-is_unique w (joined k) h = elim (Bool-cases (contains k w.sockets)) [
  | inl e ↦ rw e h
  | inr n ↦ rw n (append_unique k w.sockets n h)
]
on_beat-is_unique w (pong k) h = h
on_beat-is_unique w (left k) h = without_unique k w.sockets h
on_beat-is_unique w tick h = h

module _ (ws : ℕ) where
  one_beat-other :
      (is_alive : ℕ → Bool) (k : ℕ) → (k == ws) ≡ false → (one_beat is_alive k).0 ws ≡ is_alive ws
  one_beat-other is_alive k n = ground (arith, n)

  one_beat-misses :
      (is_alive : ℕ → Bool) (k : ℕ) (calls : List Call)
      → (k == ws) ≡ false
      → is_terminated ws ((one_beat is_alive k).1 ∷ calls) ≡ is_terminated ws calls
  one_beat-misses is_alive k calls n = ground (arith, n)

  one_beat-spares :
      (is_alive : ℕ → Bool) (calls : List Call)
      → is_alive ws ≡ true
      → is_terminated ws ((one_beat is_alive ws).1 ∷ calls) ≡ is_terminated ws calls
  one_beat-spares is_alive calls h = ground (arith, h)

  beat-misses :
      (sockets : List ℕ) (is_alive : ℕ → Bool) (calls : List Call)
      → contains ws sockets ≡ false
      → is_terminated ws (beat sockets is_alive calls).1 ≡ is_terminated ws calls
  unfolding beat
  beat-misses [] is_alive calls h = refl
  beat-misses (k ∷ sockets) is_alive calls h =
      beat-misses sockets (one_beat is_alive k).0 ((one_beat is_alive k).1 ∷ calls)
        (ground (arith, h))
      ∙ one_beat-misses is_alive k calls (ground (arith, h))

  -- A tick spares each WebSocket with the mark.
  beat-spares :
      (sockets : List ℕ) (is_alive : ℕ → Bool) (calls : List Call)
      → is_unique sockets ≡ true
      → is_alive ws ≡ true
      → is_terminated ws (beat sockets is_alive calls).1 ≡ is_terminated ws calls
  unfolding beat
  beat-spares [] is_alive calls u h = refl
  beat-spares (k ∷ sockets) is_alive calls u h = elim (Bool-cases (k == ws)) [
    | inl e ↦
        beat-misses sockets (one_beat is_alive k).0 ((one_beat is_alive k).1 ∷ calls)
          (subst (λ j. contains j sockets ≡ false) ((==_iff k ws).0 e) (ground (arith, u)))
        ∙ subst (λ j. is_terminated ws ((one_beat is_alive j).1 ∷ calls) ≡ is_terminated ws calls)
            (sym ((==_iff k ws).0 e)) (one_beat-spares is_alive calls h)
    | inr n ↦
        beat-spares sockets (one_beat is_alive k).0 ((one_beat is_alive k).1 ∷ calls)
          (ground (arith, u)) (one_beat-other is_alive k n ∙ h)
        ∙ one_beat-misses is_alive k calls n
  ]

  -- Between any two ticks there is a pong; `owed` says that one is due.
  abbrev pub answers : Bool → List Beat → Bool
  answers owed [] = true
  answers owed (joined k ∷ es) = answers (if k == ws then false else owed) es
  answers owed (pong k ∷ es) = answers (if k == ws then false else owed) es
  answers owed (left k ∷ es) = answers owed es
  answers owed (tick ∷ es) = not owed && answers true es

  beats-spares :
      (es : List Beat) (w : Watch) (owed : Bool)
      → is_unique w.sockets ≡ true
      → (owed || w.is_alive ws) ≡ true
      → is_terminated ws w.calls ≡ false
      → answers owed es ≡ true
      → is_terminated ws (beats w es).calls ≡ false
  unfolding beats on_beat
  beats-spares [] w owed u h f a = f
  beats-spares (joined k ∷ es) w owed u h f a =
      beats-spares es (on_beat w (joined k)) (if k == ws then false else owed)
        (on_beat-is_unique w (joined k) u) (ground (arith, h)) f a
  beats-spares (pong k ∷ es) w owed u h f a =
      beats-spares es (on_beat w (pong k)) (if k == ws then false else owed) u (ground (arith, h)) f
        a
  beats-spares (left k ∷ es) w owed u h f a =
      beats-spares es (on_beat w (left k)) owed (on_beat-is_unique w (left k) u) h f a
  beats-spares (tick ∷ es) w owed u h f a =
      beats-spares es (on_beat w tick) true u refl
        (beat-spares w.sockets w.is_alive w.calls u (ground (arith, h, a)) ∙ f) (ground (arith, a))

  -- A WebSocket that has its mark, and from which a pong comes between any two ticks, is never
  -- terminated by the heartbeat, whatever the others do.
  pub beats-never_terminates :
      (w : Watch) (es : List Beat)
      → is_unique w.sockets ≡ true
      → w.is_alive ws ≡ true
      → is_terminated ws w.calls ≡ false
      → answers false es ≡ true
      → is_terminated ws (beats w es).calls ≡ false
  beats-never_terminates w es u h f a = beats-spares es w false u h f a

-- ===== src/Server/Shutdown.antt =====
-- `close` of src/server/ClientManager.js and src/tcp/TcpAgentServer.js comes to its end.
use nodejs_wss_tunnel.Prelude.{
  ℕ, ◌≡◌, refl, ap, Bool, true, false, ◌&&◌, ◌||◌, List, [], ◌∷◌, ◌==◌, if◌then◌else◌, arith,
}
use nodejs_wss_tunnel.Net.{Env}
use nodejs_wss_tunnel.Server.State.{Server}
use nodejs_wss_tunnel.Server.AgentServer.{cleanup_agent}
use nodejs_wss_tunnel.Server.Closing.{
  Closing, close_socket, ClosingEvent, timeout, closed, on_closing, closing_step, closing_run,
  close_all, close_agents,
}

-- One promise over the events of its own WebSocket.
one_run : Closing → List (ℕ × ClosingEvent) → Closing
one_run c [] = c
one_run c ((ws, e) ∷ es) = one_run (if c.socket == ws then on_closing c e else c) es

-- `resolve` was called exactly if the promise is settled, and then once; the timer runs until then.
pub record IsSound (c : Closing) : Type 0 where
  once : c.resolved ≡ (if c.settled then 1 else 0)
  armed : c.timer ≡ (if c.settled then false else true)

close_socket-IsSound : (ws : ℕ) (throws : Bool) → IsSound (close_socket ws throws)
unfolding close_socket
close_socket-IsSound ws true = record { once = refl; armed = refl }
close_socket-IsSound ws false = record { once = refl; armed = refl }

on_closing-IsSound : (c : Closing) (e : ClosingEvent) → IsSound c → IsSound (on_closing c e)
unfolding on_closing
on_closing-IsSound c timeout h = record {
  once = ground (arith, h.once, h.armed);
  armed = ground (arith, h.once, h.armed);
}
on_closing-IsSound c closed h = record {
  once = ground (arith, h.once, h.armed);
  armed = ground (arith, h.once, h.armed);
}

on_closing-settles : (c : Closing) (e : ClosingEvent) → IsSound c → (on_closing c e).settled ≡ true
unfolding on_closing
on_closing-settles c timeout h = ground (arith, h.armed)
on_closing-settles c closed h = ground arith

-- Whether there is an event of the WebSocket.
abbrev pub has_event : ℕ → List (ℕ × ClosingEvent) → Bool
has_event ws [] = false
has_event ws ((k, e) ∷ es) = ws == k || has_event ws es

-- An event, of this WebSocket or of another.
met-IsSound :
    (b : Bool) (c : Closing) (e : ClosingEvent)
    → IsSound c
    → IsSound (if b then on_closing c e else c)
met-IsSound true c e h = on_closing-IsSound c e h
met-IsSound false c e h = h

met_due :
    (b : Bool) (c : Closing) (e : ClosingEvent) (es : List (ℕ × ClosingEvent))
    → IsSound c
    → (c.settled || (b || has_event c.socket es)) ≡ true
    → ((if b then on_closing c e else c).settled
        || has_event (if b then on_closing c e else c).socket es)
      ≡ true
met_due true c e es h due = ground (arith, on_closing-settles c e h)
met_due false c e es h due = due

one_run-settled :
    (es : List (ℕ × ClosingEvent)) (c : Closing)
    → IsSound c
    → (c.settled || has_event c.socket es) ≡ true
    → (one_run c es).resolved ≡ 1
unfolding one_run
one_run-settled [] c h due = ground (arith, h.once)
one_run-settled ((k, e) ∷ es) c h due =
    one_run-settled es (if c.socket == k then on_closing c e else c)
      (met-IsSound (c.socket == k) c e h) (met_due (c.socket == k) c e es h due)

abbrev pub all_resolved_once : List Closing → Bool
all_resolved_once [] = true
all_resolved_once (c ∷ cs) = c.resolved == 1 && all_resolved_once cs

abbrev pub all_have_event : List (ℕ × Bool) → List (ℕ × ClosingEvent) → Bool
all_have_event [] es = true
all_have_event ((ws, throws) ∷ sockets) es = has_event ws es && all_have_event sockets es

closing_run-cons :
    (es : List (ℕ × ClosingEvent)) (c : Closing) (cs : List Closing)
    → closing_run (c ∷ cs) es ≡ one_run c es ∷ closing_run cs es
unfolding closing_run closing_step one_run
closing_run-cons [] c cs = refl
closing_run-cons ((ws, e) ∷ es) c cs =
    closing_run-cons es (if c.socket == ws then on_closing c e else c) (closing_step cs ws e)

closing_run-nil : (es : List (ℕ × ClosingEvent)) → closing_run [] es ≡ []
unfolding closing_run closing_step
closing_run-nil [] = refl
closing_run-nil ((ws, e) ∷ es) = closing_run-nil es

close_socket-socket : (ws : ℕ) (throws : Bool) → (close_socket ws throws).socket ≡ ws
unfolding close_socket
close_socket-socket ws true = refl
close_socket-socket ws false = refl

-- Once each WebSocket has closed or its timer has fired, in any order and however often, the promise
-- of each has been resolved, and once: `close` comes to its end.
pub closing_run-resolves :
    (sockets : List (ℕ × Bool)) (es : List (ℕ × ClosingEvent))
    → all_have_event sockets es ≡ true
    → all_resolved_once (closing_run (close_all sockets) es) ≡ true
unfolding close_all
closing_run-resolves [] es h = rw (closing_run-nil es) refl
closing_run-resolves ((ws, throws) ∷ sockets) es h =
    let c = close_socket ws throws in
    let first : (one_run c es).resolved ≡ 1 =
      one_run-settled es c (close_socket-IsSound ws throws)
        (rw (close_socket-socket ws throws) (ground (arith, h))) in
    rw (closing_run-cons es c (close_all sockets))
      (ground (arith, first, closing_run-resolves sockets es (ground (arith, h))))

-- The promises of the agents' `close` are those of their WebSockets.
close_agents-close_all :
    (env : Env) (w : Server) (sockets : List (ℕ × Bool))
    → (close_agents env w sockets).1 ≡ close_all sockets
unfolding close_agents close_all
close_agents-close_all env w [] = refl
close_agents-close_all env w ((ws, throws) ∷ sockets) =
    ap (λ cs. close_socket ws throws ∷ cs)
      (close_agents-close_all env (cleanup_agent env w ws "Server shutting down") sockets)

-- The agents' `close`: once each of their WebSockets has closed or its timer has fired, in any order
-- and however often, the promise of each has been resolved, and once.
pub close_agents-resolves :
    (env : Env) (w : Server) (sockets : List (ℕ × Bool)) (es : List (ℕ × ClosingEvent))
    → all_have_event sockets es ≡ true
    → all_resolved_once (closing_run (close_agents env w sockets).1 es) ≡ true
close_agents-resolves env w sockets es h =
    rw (close_agents-close_all env w sockets) (closing_run-resolves sockets es h)

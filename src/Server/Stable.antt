-- ===== src/Server/Stable.antt =====
-- What a property of the server's state has to be kept by, so that every operation of the server
-- keeps it: the handlers change an object, log, or clean a stream up.
use nodejs_wss_tunnel.Prelude.{
  ℕ, ◌≡◌, refl, Bool, true, false, not, ◌&&◌, some, String, List, [], ◌∷◌, ◌++◌, length, inl, inr,
  get_elem?, set, arith, ltb, leb, ◌+◌, ◌-◌, if◌then◌else◌, ◌==◌, Option-cases,
}
use nodejs_wss_tunnel.Net.{Env, Effect}
use nodejs_wss_tunnel.VirtualSocket.{Out}
use nodejs_wss_tunnel.Server.State.{Server, Stream, Mode, OnCleanup, Socket, put, at_stream, is_tcp}
use nodejs_wss_tunnel.Server.FlowControl.{sync_tcp_backpressure}
use nodejs_wss_tunnel.Server.Streams.{
  cleanup_tcp_stream, abort_tcp_stream, cleanup_stream, abort_stream, abort_any_stream,
}
use nodejs_wss_tunnel.Server.Router.{
  on_data, on_close, on_error, on_drain, on_sent, deliver, with_socket, throttle, hear, close_all,
  run_microtasks,
}

-- The fields of an object that only its making and its cleaning up change.
abbrev pub key : Stream → ℕ × ℕ × Mode × Bool × OnCleanup
key s = (s.id, s.ws, s.mode, s.cleaned, s.on_cleanup)

abbrev pub At : Server → ℕ → Stream → Type 0
At w r s = get_elem? w.heap r ≡ some s

pub record IsStable (P : Server → Type 0) : Type 0 where
  pub changed :
      (w : Server) (r : ℕ) (s s' : Stream) → At w r s → key s' ≡ key s → P w → P (put w r s')
  pub logged :
      (w : Server) (log : List Effect) (tasks : List ℕ)
      → P w
      → P (record w { log = log; microtasks = tasks })
  pub aside :
      (w : Server) (clients : List ℕ) (counts : List (ℕ × ℕ)) (owned : List (ℕ × List ℕ))
      → P w
      → P (record w { clients = clients; agent_counts = counts; agent_streams = owned })
  pub ended_tcp :
      (env : Env) (w : Server) (r : ℕ) (s : Stream)
      → At w r s
      → P w
      → P (cleanup_tcp_stream env w r s)
  pub ended :
      (env : Env) (w : Server) (r : ℕ) (s : Stream) → At w r s → P w → P (cleanup_stream env w r s)

-- Both branches.
pub either {ℓ κ} :
    {A : Type ℓ} (P : A → Type κ) (b : Bool) {x y : A} → P x → P y → P (if b then x else y)
either P true h k = h
either P false h k = k

-- Both branches, with what the test says in each.
pub either_of {ℓ κ} :
    {A : Type ℓ} (P : A → Type κ) (b : Bool) {x y : A}
    → P x
    → (b ≡ false → P y)
    → P (if b then x else y)
either_of P true h k = h
either_of P false h k = k refl

-- One branch, where the test is known; the other is an argument.
pub when_true {ℓ κ} :
    {A : Type ℓ} (P : A → Type κ) (b : Bool) {x : A} (y : A)
    → b ≡ true
    → P x
    → P (if b then x else y)
when_true P true y e h = h
when_true P false y e h = cc

pub when_false {ℓ κ} :
    {A : Type ℓ} (P : A → Type κ) (b : Bool) (x : A) {y : A}
    → b ≡ false
    → P y
    → P (if b then x else y)
when_false P true x e h = cc
when_false P false x e h = h

pub At-put : (w : Server) (r : ℕ) (s s' : Stream) → At w r s → At (put w r s') r s'
At-put w r s s' h = go w.heap r h
  where
    go : (xs : List Stream) (i : ℕ) → get_elem? xs i ≡ some s → get_elem? (set xs i s') i ≡ some s'
    go [] i e = cc
    go (x ∷ xs) ℕ.zero e = refl
    go (x ∷ xs) (ℕ.suc i) e = go xs i e

-- A new object behind the others, changed once.
pub At-new :
    (xs : List Stream) (s s' : Stream)
    → get_elem? (set (xs ++ s ∷ []) (length xs) s') (length xs) ≡ some s'
At-new [] s s' = refl
At-new (x ∷ xs) s s' = At-new xs s s'

pub sync_tcp_backpressure-key :
    (env : Env) (s : Stream) (log : List Effect) → key (sync_tcp_backpressure env s log).0 ≡ key s
unfolding sync_tcp_backpressure
sync_tcp_backpressure-key env s log = ground arith

module _ (P : Server → Type 0) (stable : IsStable P) where
  pub at_stream_P :
      (w : Server) (r : ℕ) (f : Stream → Server)
      → P w
      → ((s : Stream) → At w r s → P (f s))
      → P (at_stream w r f)
  at_stream_P w r f h k = elim (Option-cases (get_elem? w.heap r)) [
    | inl e ↦ rw (e, at_stream) h
    | inr (s, e) ↦ rw (e, at_stream) (k s e)
  ]

  module _ (env : Env) (w : Server) (r : ℕ) (s : Stream) (here : At w r s) (h : P w) where
    -- An object is changed and something is logged.
    pub update_P :
        (s' : Stream) (log : List Effect) (tasks : List ℕ)
        → key s' ≡ key s
        → P (record (put w r s') { log = log; microtasks = tasks })
    update_P s' log tasks e = stable.logged _ _ _ (stable.changed w r s s' here e h)

    pub abort_tcp_stream_P :
        (reason : String) (notify : Bool) → P (abort_tcp_stream env w r s reason notify)
    unfolding abort_tcp_stream
    abort_tcp_stream_P reason notify =
        either P s.cleaned h
          (stable.ended_tcp env _ r _ (At-put w r s _ here) (update_P _ _ _ refl))

    pub abort_stream_P :
        (reason : String) (notify : Bool) → P (abort_stream env w r s reason notify)
    unfolding abort_stream
    abort_stream_P reason notify =
        either P s.cleaned h (stable.ended env _ r _ (At-put w r s _ here) (update_P _ _ _ refl))

    pub abort_any_stream_P :
        (reason : String) (notify : Bool) → P (abort_any_stream env w r s reason notify)
    unfolding abort_any_stream
    abort_any_stream_P reason notify =
        either P (is_tcp s.mode) (abort_tcp_stream_P reason notify) (abort_stream_P reason notify)

    pub on_close_P : P (on_close env w r s)
    unfolding on_close
    on_close_P = either P s.cleaned h (stable.ended_tcp env _ r s here (stable.logged _ _ _ h))

    pub on_drain_P : P (on_drain env w r s)
    unfolding on_drain
    on_drain_P = either P s.cleaned h (
        either P s.ws_backpressured
          (update_P _ _ _
            (sync_tcp_backpressure-key env (record s { ws_backpressured = false }) w.log))
          h)

  module _ (env : Env) (w : Server) (r : ℕ) (s : Stream) (here : At w r s) (h : P w) where
    pub on_error_P : (message : String) → P (on_error env w r s message)
    unfolding on_error
    on_error_P message =
        either P s.cleaned h
          (abort_tcp_stream_P env _ r s here (stable.logged _ _ _ h) message false)

    throttle_P : (s' : Stream) → key s' ≡ key s → P (throttle env w r s')
    unfolding throttle
    throttle_P s' e =
        either P
          (ltb env.ws_high_water (env.buffered_amount w.log s'.ws) && not s'.local_paused_for_ws)
          (update_P env w r s here h _ _ _ e) (update_P env w r s here h _ _ _ e)

    -- An object is changed, and its stream aborted.
    pub change_abort_P :
        (s' : Stream) (reason : String) (notify : Bool)
        → key s' ≡ key s
        → P (abort_tcp_stream env (put w r s') r s' reason notify)
    change_abort_P s' reason notify e =
        abort_tcp_stream_P env _ r s' (At-put w r s s' here) (update_P env w r s here h s' _ _ e)
          reason notify

  module _ (env : Env) (w : Server) (r : ℕ) (s : Stream) (here : At w r s) (h : P w) where
    pub on_data_P : (chunk : List ℕ) → P (on_data env w r s chunk)
    unfolding on_data
    on_data_P chunk = either P s.cleaned h (
        either P (not (env.is_open s.ws)) (change_abort_P env w r s here h _ _ _ refl) (
          either P (env.send_throws w.log s.ws) (change_abort_P env w r s here h _ _ _ refl)
            (throttle_P env _ r s here (stable.logged _ _ _ h) s' refl)))
      where
        s' : Stream
        s' = record s { timer = true; pending_sends = s.pending_sends + 1 }

  module _ (env : Env) (r : ℕ) where
    hear_P : (w : Server) (out : Out) → P w → P (hear env w r out)
    unfolding hear
    hear_P w (Out.send ws type id payload) h = stable.logged _ _ _ h
    hear_P w (Out.call op) h = stable.logged _ _ _ h
    hear_P w (Out.emit_data chunk) h = at_stream_P w r _ h (λ s e. on_data_P env w r s e h chunk)
    hear_P w Out.emit_close h = at_stream_P w r _ h (λ s e. on_close_P env w r s e h)
    hear_P w Out.emit_drain h = at_stream_P w r _ h (λ s e. on_drain_P env w r s e h)
    hear_P w (Out.emit_error m) h = at_stream_P w r _ h (λ s e. on_error_P env w r s e h m)
    hear_P w Out.queue_close h = stable.logged _ _ _ h

    pub deliver_P : (w : Server) (outs : List Out) → P w → P (deliver env w r outs)
    unfolding deliver
    deliver_P w [] h = h
    deliver_P w (out ∷ outs) h = deliver_P (hear env w r out) outs (hear_P w out h)

  module _ (env : Env) (w : Server) (r : ℕ) (s : Stream) (here : At w r s) (h : P w) where
    pub with_socket_P :
        (s' : Stream) (socket : Socket) (outs : List Out)
        → key s' ≡ key s
        → P (with_socket env w r s' socket outs)
    unfolding with_socket
    with_socket_P s' socket outs e = deliver_P env r _ outs (stable.changed w r s _ here e h)

    pub on_sent_P : P (on_sent env w r s)
    unfolding on_sent
    on_sent_P =
        either P
          (not s.cleaned
            && s.local_paused_for_ws
            && s.pending_sends - 1 == 0
            && leb (env.buffered_amount w.log s.ws) env.ws_low_water)
          (with_socket_P
            (record s { pending_sends = s.pending_sends - 1; local_paused_for_ws = false }) _ _
            refl)
          (stable.changed w r s _ here refl h)

  pub close_all_P : (env : Env) (w : Server) (rs : List ℕ) → P w → P (close_all env w rs)
  unfolding close_all
  close_all_P env w [] h = h
  close_all_P env w (r ∷ rs) h =
      close_all_P env (at_stream w r (λ s. on_close env w r s)) rs
        (at_stream_P w r _ h (λ s e. on_close_P env w r s e h))

  pub run_microtasks_P : (env : Env) (w : Server) → P w → P (run_microtasks env w)
  unfolding run_microtasks
  run_microtasks_P env w h = close_all_P env _ w.microtasks (stable.logged _ _ _ h)

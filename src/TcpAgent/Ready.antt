-- ===== src/TcpAgent/Ready.antt =====
-- Readiness and reconnection of serve/tcp-agent.js over all its histories.
use nodejs_wss_tunnel.Prelude.{
  if◌then◌else◌, ℕ, ◌≤◌, ◌≡◌, refl, ap, ◌∙◌, true, false, some, List, [], ◌∷◌, All, arith,
  get_elem?, not, ◌||◌, ◌==◌,
}
use nodejs_wss_tunnel.TcpAgent.{
  Agent, AgentEnv, log_effect, exit, close_listeners, all_listening, includes,
  mark_ready_if_eligible, clear_ready,
}
use nodejs_wss_tunnel.Server.Stable.{either, either_of}
use nodejs_wss_tunnel.TcpAgent.Events.{
  AgentEvent, opened, disconnected, auth_refused, drained, reconnect_timer, signal, message,
  listening, listener_error, listener_close, connected, pending_error, pending_close, local_data,
  local_sent, local_drain, local_close, local_error, cleanup_all, schedule_reconnect, shutdown,
  without, on_local_data, on_local_sent, on_local_drain, on_local_error, on_local_close,
  agent_handle, agent_run, close_web_socket_of, clear_timer_of,
}
use nodejs_wss_tunnel.TcpAgent.Control.{
  control, control-with_entry, control-connection, control-handle_server_frame,
  control-on_local_data, control-on_local_sent, control-on_web_socket_drain, control-on_local_drain,
  control-on_local_error, control-on_local_close, control-cleanup_all, control-at_entry,
  control-connect, control-remove_pending,
}

-- An agent that is ready listens on every port that was asked for and is not shutting down, and its
-- next delay is at most `most`.
pub record IsSound (ports : List ℕ) (most : ℕ) (a : Agent) : Type 0 where
  pub listens : a.ready ≡ true → all_listening ports a.listening_ports ≡ true
  pub serves : a.ready ≡ true → a.shutting_down ≡ false
  pub patient : a.reconnect_delay ≤ most

-- The ports that were asked for, and a first delay of at most `most`.
pub record HasSetup (ports : List ℕ) (most : ℕ) (env : AgentEnv) : Type 0 where
  pub asked : env.requested_ports ≡ ports
  pub starts : env.initial_delay ≤ most

includes-without :
    (port q : ℕ) (xs : List ℕ)
    → includes xs q ≡ true
    → (port == q || includes (without port xs) q) ≡ true
unfolding without
includes-without port q [] h = ground arith
includes-without port q (x ∷ xs) h = ground (arith, includes-without port q xs)

-- A port that is added keeps the others.
all_listening-add :
    (port : ℕ) (ports xs : List ℕ)
    → all_listening ports xs ≡ true
    → all_listening ports (port ∷ without port xs) ≡ true
unfolding all_listening
all_listening-add port [] xs h = refl
all_listening-add port (q ∷ ports) xs h =
    ground (arith, includes-without port q xs, all_listening-add port ports xs)

module _ (ports : List ℕ) (most : ℕ) (enough : 30000 ≤ most) where
  kept : (a b : Agent) → control b ≡ control a → IsSound ports most a → IsSound ports most b
  kept a b same h = record {
    listens = λ on. ground (arith, ap (λ c. c.0) same, ap (λ c. c.1) same, h.listens);
    serves = λ on. ground (arith, ap (λ c. c.0) same, ap (λ c. c.2) same, h.serves);
    patient = omega (arith, ap (λ c. c.3) same, h.patient);
  }

  -- The agent is no longer ready.
  off : (b : Agent) → b.ready ≡ false → b.reconnect_delay ≤ most → IsSound ports most b
  off b not_ready delay = record {
    listens = λ on. ground (arith, on, not_ready);
    serves = λ on. ground (arith, on, not_ready);
    patient = delay;
  }

  mark_ready_if_eligible-IsSound :
      (env : AgentEnv) (a : Agent)
      → HasSetup ports most env
      → (a.ready ≡ true → all_listening ports a.listening_ports ≡ true)
      → (a.ready ≡ true → a.shutting_down ≡ false)
      → a.reconnect_delay ≤ most
      → IsSound ports most (mark_ready_if_eligible env a)
  unfolding mark_ready_if_eligible
  mark_ready_if_eligible-IsSound env a same l s d =
      either_of (IsSound ports most) (a.ready || a.shutting_down) as_before (λ fresh.
        either_of (IsSound ports most)
          (not env.ws_ready || not (all_listening env.requested_ports a.listening_ports)) as_before
          (λ all. record {
            listens = λ on. ground (arith, same.asked, all);
            serves = λ on. ground (arith, fresh);
            patient = d;
          }))
    where
      as_before : IsSound ports most a
      as_before = record { listens = l; serves = s; patient = d }

  schedule_reconnect-IsSound :
      (a : Agent)
      → a.ready ≡ false
      → a.reconnect_delay ≤ most
      → IsSound ports most (schedule_reconnect a)
  unfolding schedule_reconnect
  schedule_reconnect-IsSound a not_ready d = off _ (ground arith) (ground arith)

  stopped :
      (b : Agent) (code : ℕ)
      → b.ready ≡ false
      → b.reconnect_delay ≤ most
      → IsSound ports most
          (log_effect (close_web_socket_of (log_effect b close_listeners)) (exit code))
  stopped b code not_ready d = off _ (ground arith) (ground arith)

  shutdown-IsSound :
      (a : Agent) (code : ℕ) → IsSound ports most a → IsSound ports most (shutdown a code)
  unfolding shutdown clear_ready
  shutdown-IsSound a code h = either_of (IsSound ports most) a.shutting_down h (λ live.
      stopped (cleanup_all cleared) code (ap (λ c. c.0) same ∙ ground arith)
        (omega (arith, ap (λ c. c.3) same, later)))
    where
      cleared : Agent
      cleared = clear_timer_of (clear_ready (record a { shutting_down = true }))

      same : control (cleanup_all cleared) ≡ control cleared
      same = control-cleanup_all cleared

      later : cleared.reconnect_delay ≤ most
      later = ground (arith, h.patient)

  agent_handle-IsSound :
      (env : AgentEnv) (a : Agent) (e : AgentEvent)
      → HasSetup ports most env
      → IsSound ports most a
      → IsSound ports most (agent_handle env a e)
  unfolding agent_handle clear_ready
  agent_handle-IsSound env a opened same h =
      mark_ready_if_eligible-IsSound env _ same h.listens h.serves same.starts
  agent_handle-IsSound env a disconnected same h =
      schedule_reconnect-IsSound (cleanup_all (clear_ready a))
        (ap (λ c. c.0) (control-cleanup_all (clear_ready a)))
        (omega (arith, ap (λ c. c.3) (control-cleanup_all (clear_ready a)), h.patient))
  agent_handle-IsSound env a auth_refused same h = kept a _ refl h
  agent_handle-IsSound env a drained same h =
      kept a _ (control-on_web_socket_drain env a.streams a) h
  agent_handle-IsSound env a reconnect_timer same h = kept a _ (control-connect _) h
  agent_handle-IsSound env a signal same h = shutdown-IsSound a 0 h
  agent_handle-IsSound env a (message bytes) same h =
      kept a _ (control-handle_server_frame env a bytes) h
  agent_handle-IsSound env a (listening port) same h =
      mark_ready_if_eligible-IsSound env _ same
        (λ on. all_listening-add port ports a.listening_ports (h.listens on)) h.serves h.patient
  agent_handle-IsSound env a (listener_error port) same h =
      either_of (IsSound ports most) a.ready (off _ refl h.patient)
        (λ waiting. shutdown-IsSound (clear_ready a) 1 (off _ refl h.patient))
  agent_handle-IsSound env a (listener_close port) same h = off _ refl h.patient
  agent_handle-IsSound env a (connected socket port) same h =
      kept a _ (control-connection env a socket port) h
  agent_handle-IsSound env a (pending_error socket) same h =
      kept a _ (control-remove_pending a socket) h
  agent_handle-IsSound env a (pending_close socket) same h =
      kept a _ (control-remove_pending a socket) h
  agent_handle-IsSound env a (local_data r chunk) same h =
      kept a _
        (control-with_entry a (some r) (λ i e. on_local_data env a i e chunk)
          (λ i e. control-on_local_data env a i e chunk))
        h
  agent_handle-IsSound env a (local_sent r) same h =
      kept a _
        (control-at_entry a (get_elem? a.entries r) (on_local_sent env a r)
          (control-on_local_sent env a r))
        h
  agent_handle-IsSound env a (local_drain r) same h =
      kept a _ (control-with_entry a (some r) (on_local_drain env a) (control-on_local_drain env a))
        h
  agent_handle-IsSound env a (local_close r) same h =
      kept a _ (control-with_entry a (some r) (on_local_close env a) (control-on_local_close env a))
        h
  agent_handle-IsSound env a (local_error r text) same h =
      kept a _
        (control-with_entry a (some r) (λ i e. on_local_error env a i e text)
          (λ i e. control-on_local_error env a i e text))
        h

  -- Where every event has the same requested ports and a first delay of at most `most`, which is at
  -- least 30 seconds: over every history from a sound state, an agent that is ready listens on all
  -- the ports and is not shutting down, and its next delay is at most `most`.
  pub agent_run-IsSound :
      (a : Agent) (es : List (AgentEnv × AgentEvent))
      → All (λ e. HasSetup ports most e.0) es
      → IsSound ports most a
      → IsSound ports most (agent_run a es)
  unfolding agent_run
  agent_run-IsSound a [] good h = h
  agent_run-IsSound a ((env, e) ∷ es) (g, good) h =
      agent_run-IsSound (if a.crashed then a else agent_handle env a e) es good
        (either (IsSound ports most) a.crashed h (agent_handle-IsSound env a e g h))

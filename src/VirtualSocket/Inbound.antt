-- ===== src/VirtualSocket/Inbound.antt =====
-- The inbound side of src/tcp/VirtualSocket.js over any sequence of calls: the buffer of a paused
-- socket.
use nodejs_wss_tunnel.Prelude.{
  ℕ, ◌+◌, ◌≤◌, ◌≡◌, refl, ap, sym, inl, inr, false, String, List, [], ◌∷◌, ◌++◌, map, append-nil,
  append_assoc, arith, length, if◌then◌else◌, Bool-cases,
}
use mathlib.Core.Path.{◌≡⟨◌⟩◌, ◌∎}
use nodejs_wss_tunnel.Net.{Env}
use nodejs_wss_tunnel.VirtualSocket.{
  VirtualSocket, Out, emit_data, pause_socket, resume_socket, abort_socket, destroy_socket,
  push_inbound, end_from_agent, abort_from_agent, write_done, to_agent,
}
use nodejs_wss_tunnel.Protocol.{FrameType, resume}
use nodejs_wss_tunnel.Protocol.Json.{Payload, raw}

-- A call of one of the socket's methods.
pub data Call : Type 0 where
  pauses resumes destroys ends : Call
  pushes aborted : List ℕ → Call
  aborts : String → Call
  drains : ℕ → Call

unfoldable pub call : Env → VirtualSocket → Call → VirtualSocket × List Out
call env v pauses = pause_socket env v
call env v resumes = resume_socket env v
call env v destroys = destroy_socket env v
call env v ends = end_from_agent v
call env v (pushes chunk) = let (v', outs, _) = push_inbound env v chunk in (v', outs)
call env v (aborted payload) = abort_from_agent env v payload
call env v (aborts message) = abort_socket env v message
call env v (drains amount) = write_done env v amount

unfoldable pub calls : Env → VirtualSocket → List Call → VirtualSocket × List Out
calls env v [] = (v, [])
calls env v (c ∷ cs) =
    let (v', outs) = call env v c in let (v'', later) = calls env v' cs in (v'', outs ++ later)

-- The chunks that the socket emits.
abbrev pub emitted : List Out → List (List ℕ)
emitted [] = []
emitted (emit_data chunk ∷ outs) = chunk ∷ emitted outs
emitted (_ ∷ outs) = emitted outs

-- The chunks that the agent sent and the socket took: those that did not meet or cause its end.
abbrev pub taken_by : Env → VirtualSocket → Call → List (List ℕ)
taken_by env v (pushes chunk) = if (call env v (pushes chunk)).0.destroyed then [] else chunk ∷ []
taken_by env v _ = []

abbrev pub taken : Env → VirtualSocket → List Call → List (List ℕ)
taken env v [] = []
taken env v (c ∷ cs) = taken_by env v c ++ taken env (call env v c).0 cs

abbrev pub total : List (List ℕ) → ℕ
total [] = 0
total (chunk ∷ chunks) = length chunk + total chunks

-- The counter is the size of the buffer and within the limit; only a paused socket buffers.
pub record IsValid (env : Env) (v : VirtualSocket) : Type 0 where
  pub counted : v.buffered_bytes ≡ total v.buffered
  pub bounded : v.buffered_bytes ≤ env.max_dest_buffer_bytes
  pub flowing : v.paused ≡ false → v.buffered ≡ []

emitted-append : (xs ys : List Out) → emitted (xs ++ ys) ≡ emitted xs ++ emitted ys
emitted-append [] ys = refl
emitted-append (emit_data c ∷ xs) ys = ap (λ r. c ∷ r) (emitted-append xs ys)
emitted-append (_ ∷ xs) ys = emitted-append xs ys

emitted-map :
    (xs : List (List ℕ)) (ys : List Out) → emitted ys ≡ [] → emitted (map emit_data xs ++ ys) ≡ xs
emitted-map [] ys e = e
emitted-map (x ∷ xs) ys e = ap (λ r. x ∷ r) (emitted-map xs ys e)

emitted-to_agent :
    (env : Env) (v : VirtualSocket) (t : FrameType) (p : Payload)
    → emitted (to_agent env v t p) ≡ []
emitted-to_agent env v t p = ground arith

total-append : (xs ys : List (List ℕ)) → total (xs ++ ys) ≡ total xs + total ys
total-append [] ys = omega arith
total-append (x ∷ xs) ys = omega (arith, total-append xs ys)

pub call-IsValid :
    (env : Env) (v : VirtualSocket) (c : Call) → IsValid env v → IsValid env (call env v c).0
unfolding call pause_socket resume_socket abort_socket destroy_socket push_inbound end_from_agent
    abort_from_agent write_done
call-IsValid env v pauses h = ground arith
call-IsValid env v (pushes chunk) h = ground (arith, total-append v.buffered (chunk ∷ []))
call-IsValid env v _ h = ground arith

call-emitted :
    (env : Env) (v : VirtualSocket) (c : Call)
    → IsValid env v
    → emitted (call env v c).1 ++ (call env v c).0.buffered ≡ v.buffered ++ taken_by env v c
unfolding call pause_socket resume_socket abort_socket destroy_socket push_inbound end_from_agent
    abort_from_agent write_done
call-emitted env v pauses h = ground (arith, append-nil v.buffered)
call-emitted env v resumes h = elim (Bool-cases v.paused) [
  | inl p ↦ rw (
    p,
    emitted-map v.buffered (to_agent env v resume (raw []))
        (emitted-to_agent env v resume (raw [])),
  )
  | inr q ↦ rw (q, append-nil)
]
call-emitted env v (pushes chunk) h = ground (arith, append-nil v.buffered)
call-emitted env v _ h = ground (arith, append-nil v.buffered)

-- Over any sequence of calls the invariant holds on.
pub calls-IsValid :
    (env : Env) (v : VirtualSocket) (cs : List Call)
    → IsValid env v
    → IsValid env (calls env v cs).0
unfolding calls
calls-IsValid env v [] h = h
calls-IsValid env v (c ∷ cs) h = calls-IsValid env (call env v c).0 cs (call-IsValid env v c h)

-- Whatever the calls, the chunks emitted and those still buffered are, in order, the chunks that
-- were buffered before and those that the socket took: none is lost, repeated or moved.
pub calls-emitted :
    (env : Env) (v : VirtualSocket) (cs : List Call)
    → IsValid env v
    → emitted (calls env v cs).1 ++ (calls env v cs).0.buffered ≡ v.buffered ++ taken env v cs
unfolding calls
calls-emitted env v [] h = sym (append-nil v.buffered)
calls-emitted env v (c ∷ cs) h =
    emitted ((call env v c).1 ++ later.1) ++ later.0.buffered
    ≡⟨ ap (λ r. r ++ later.0.buffered) (emitted-append (call env v c).1 later.1) ⟩
      (emitted (call env v c).1 ++ emitted later.1) ++ later.0.buffered
    ≡⟨ append_assoc (emitted (call env v c).1) (emitted later.1) later.0.buffered ⟩
      emitted (call env v c).1 ++ (emitted later.1 ++ later.0.buffered)
    ≡⟨ ap (λ r. emitted (call env v c).1 ++ r)
        (calls-emitted env (call env v c).0 cs (call-IsValid env v c h)) ⟩
      emitted (call env v c).1 ++ ((call env v c).0.buffered ++ taken env (call env v c).0 cs)
    ≡⟨ sym (
        append_assoc (emitted (call env v c).1) (call env v c).0.buffered
          (taken env (call env v c).0 cs)) ⟩
      (emitted (call env v c).1 ++ (call env v c).0.buffered) ++ taken env (call env v c).0 cs
    ≡⟨ ap (λ r. r ++ taken env (call env v c).0 cs) (call-emitted env v c h) ⟩
      (v.buffered ++ taken_by env v c) ++ taken env (call env v c).0 cs
    ≡⟨ append_assoc v.buffered (taken_by env v c) (taken env (call env v c).0 cs) ⟩
      v.buffered ++ (taken_by env v c ++ taken env (call env v c).0 cs) ∎
  where
    later : VirtualSocket × List Out
    later = calls env (call env v c).0 cs

-- ===== src/FrameWriter/Sent.antt =====
-- What one run of the loop of `_sendChunk` sends of a chunk, and that it ends.
use nodejs_wss_tunnel.Prelude.{
  ℕ, zero, suc, ◌+◌, ◌≤◌, ◌≡◌, refl, ap, ◌∙◌, Bool, true, false, List, [], ◌∷◌, ◌++◌, append_assoc,
  length, take, drop, take-append-drop, length-drop, arith,
}
use nodejs_wss_tunnel.FrameWriter.{
  WriterEnv, Outcome, done, failed, paused, waits, out_of_fuel, Before, go_on, throws, pauses,
  must_wait, before_send, one_round, send_rest,
}

abbrev pub concat : List (List ℕ) → List ℕ
concat [] = []
concat (p ∷ ps) = p ++ concat ps

-- What the outcome says of the bytes that were not sent.
abbrev pub Keeps : Outcome → List ℕ → Type 0
Keeps done rest = rest ≡ []
Keeps (failed message) rest = Unit
Keeps (paused kept) rest = kept ≡ rest
Keeps (waits kept) rest = kept ≡ rest
Keeps out_of_fuel rest = Unit

-- The payloads are, in order, the beginning of the chunk, and the outcome knows the rest.
abbrev pub IsPrefix : List ℕ → List (List ℕ) × Outcome → Type 0
IsPrefix chunk (sent, outcome) =
    (rest : List ℕ) × (concat sent ++ rest ≡ chunk) × Keeps outcome rest

abbrev pub IsEnded : Outcome → Type 0
IsEnded out_of_fuel = ⊥
IsEnded _ = Unit

round-IsPrefix :
    (t : Before) (sent : Bool) (m : ℕ) (chunk : List ℕ) (later : List (List ℕ) × Outcome)
    → IsPrefix (drop m chunk) later
    → IsPrefix chunk (one_round t sent m chunk later)
round-IsPrefix (throws message) sent m chunk later h = (chunk, refl, tt)
round-IsPrefix pauses sent m chunk later h = (chunk, refl, refl)
round-IsPrefix must_wait sent m chunk later h = (chunk, refl, refl)
round-IsPrefix go_on false m chunk later h = (chunk, refl, tt)
round-IsPrefix go_on true m chunk later (rest, same, kept) = (
  rest,
  append_assoc (take m chunk) (concat later.0) rest
      ∙ ap (λ r. take m chunk ++ r) same
      ∙ take-append-drop m chunk,
  kept,
)

pub send_rest-IsPrefix :
    (fuel : ℕ) (env : WriterEnv) (is_closed is_paused waited : Bool) (n : ℕ) (chunk : List ℕ)
    → IsPrefix chunk (send_rest fuel env is_closed is_paused waited n chunk)
unfolding send_rest
send_rest-IsPrefix zero env c p waited n [] = ([], refl, refl)
send_rest-IsPrefix (suc fuel) env c p waited n [] = ([], refl, refl)
send_rest-IsPrefix zero env c p waited n (b ∷ rest) = (b ∷ rest, refl, tt)
send_rest-IsPrefix (suc fuel) env c p waited n (b ∷ rest) =
    round-IsPrefix (before_send env c p waited n) (env.sends n) env.max_frame_payload (b ∷ rest)
      (send_rest fuel env c p false (n + 1) (drop env.max_frame_payload (b ∷ rest)))
      (send_rest-IsPrefix fuel env c p false (n + 1) (drop env.max_frame_payload (b ∷ rest)))

round-IsEnded :
    (t : Before) (sent : Bool) (m : ℕ) (chunk : List ℕ) (later : List (List ℕ) × Outcome)
    → IsEnded later.1
    → IsEnded (one_round t sent m chunk later).1
round-IsEnded (throws message) sent m chunk later h = tt
round-IsEnded pauses sent m chunk later h = tt
round-IsEnded must_wait sent m chunk later h = tt
round-IsEnded go_on false m chunk later h = tt
round-IsEnded go_on true m chunk later h = h

-- With a positive limit on the payload, as many rounds as the chunk has bytes are enough.
pub send_rest-IsEnded :
    (fuel : ℕ) (env : WriterEnv) (is_closed is_paused waited : Bool) (n : ℕ) (chunk : List ℕ)
    → 1 ≤ env.max_frame_payload
    → length chunk ≤ fuel
    → IsEnded (send_rest fuel env is_closed is_paused waited n chunk).1
unfolding send_rest
send_rest-IsEnded zero env c p waited n [] positive enough = tt
send_rest-IsEnded (suc fuel) env c p waited n [] positive enough = tt
send_rest-IsEnded zero env c p waited n (b ∷ rest) positive enough = omega (arith, enough)
send_rest-IsEnded (suc fuel) env c p waited n (b ∷ rest) positive enough =
    round-IsEnded (before_send env c p waited n) (env.sends n) env.max_frame_payload (b ∷ rest)
      (send_rest fuel env c p false (n + 1) (drop env.max_frame_payload (b ∷ rest)))
      (send_rest-IsEnded fuel env c p false (n + 1) (drop env.max_frame_payload (b ∷ rest)) positive
        (omega (arith, enough, positive, length-drop env.max_frame_payload (b ∷ rest))))

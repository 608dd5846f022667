-- ===== src/FrameWriter/Delivery.antt =====
-- Bytes that were held for the peer go out when it takes more.
use nodejs_wss_tunnel.Prelude.{
  ℕ, zero, suc, ◌+◌, ◌≤◌, ◌≡◌, refl, sym, subst, ◌∙◌, true, false, Option, none, some, String, List,
  [], ◌∷◌, ◌++◌, append-nil, length, drop, length-drop, length-take, All, arith,
}
use nodejs_wss_tunnel.FrameWriter.{
  WriterEnv, Outcome, done, before_send, go_on, send_rest, Writer, conclude, send_chunk,
  resume_pending, set_peer_paused,
}
use nodejs_wss_tunnel.Server.Stable.{when_false}
use nodejs_wss_tunnel.FrameWriter.Sent.{concat, Keeps, send_rest-IsPrefix}

-- The WebSocket is open, takes every frame and is never above its high water mark.
pub record IsFlowing (env : WriterEnv) : Type 0 where
  pub is_open : (n : ℕ) → env.is_open n ≡ true
  pub below : (n : ℕ) → env.buffered_amount n ≤ env.ws_high_water
  pub sends : (n : ℕ) → env.sends n ≡ true
  pub has_limit : 1 ≤ env.max_frame_payload

module _ (env : WriterEnv) (h : IsFlowing env) where
  before_send-go_on : (n : ℕ) → before_send env false false false n ≡ go_on
  unfolding before_send
  before_send-go_on n = ground (arith, h.is_open n, h.below n)

  send_rest-done :
      (fuel n : ℕ) (chunk : List ℕ)
      → length chunk ≤ fuel
      → (send_rest fuel env false false false n chunk).1 ≡ done
  unfolding send_rest
  send_rest-done zero n [] enough = refl
  send_rest-done (suc fuel) n [] enough = refl
  send_rest-done zero n (b ∷ rest) enough = absurd (omega (arith, enough))
  send_rest-done (suc fuel) n (b ∷ rest) enough =
      rw (before_send-go_on n, h.sends n)
        (send_rest-done fuel (n + 1) (drop env.max_frame_payload (b ∷ rest))
          (omega (arith, enough, h.has_limit, length-drop env.max_frame_payload (b ∷ rest))))

  IsCut : List (List ℕ) → Type 0
  IsCut ps = All (λ p. length p ≤ env.max_frame_payload) ps

  send_rest-IsCut :
      (fuel n : ℕ) (chunk : List ℕ) → IsCut (send_rest fuel env false false false n chunk).0
  unfolding send_rest IsCut
  send_rest-IsCut zero n [] = tt
  send_rest-IsCut (suc fuel) n [] = tt
  send_rest-IsCut zero n (b ∷ rest) = tt
  send_rest-IsCut (suc fuel) n (b ∷ rest) =
      rw (before_send-go_on n, h.sends n)
        (
          omega (arith, length-take env.max_frame_payload (b ∷ rest)),
          send_rest-IsCut fuel (n + 1) (drop env.max_frame_payload (b ∷ rest)),
        )

  -- Behind what was sent and called before, all of `rest` has gone out, and the callback was called
  -- without an error.
  pub record IsDelivered (sent : List (List ℕ)) (called : List (ℕ × Option String)) (after : Writer)
      (rest : List ℕ) (callback : ℕ) : Type 0 where
    none_held : after.pending ≡ none
    called_back : after.called ≡ called ++ (callback, none) ∷ []
    payloads : List (List ℕ)
    went_out : after.sent ≡ sent ++ payloads
    whole : concat payloads ≡ rest
    is_cut : All (λ p. length p ≤ env.max_frame_payload) payloads

  Keeps-done : (o : Outcome) (rest : List ℕ) → o ≡ done → Keeps o rest → rest ≡ []
  Keeps-done o rest e keeps = subst (λ t. Keeps t rest) e keeps

  send_chunk-IsDelivered :
      (w : Writer) (rest : List ℕ) (callback : ℕ)
      → w.pending ≡ none
      → w.is_closed ≡ false
      → w.peer_paused ≡ false
      → IsDelivered w.sent w.called (send_chunk env w false rest callback) rest callback
  unfolding send_chunk conclude IsCut
  send_chunk-IsDelivered w rest callback idle live open_peer =
      let n = length w.sent in
      let fuel = length rest in
      let out = send_rest fuel env false false false n rest in
      let (left, same, keeps) = send_rest-IsPrefix fuel env false false false n rest in
      let ended = send_rest-done fuel n rest (omega arith) in
      let nothing : left ≡ [] = Keeps-done out.1 left ended keeps in
      rw (live, open_peer, ended)
        record {
          none_held = idle;
          called_back = refl;
          payloads = out.0;
          went_out = refl;
          whole = sym (append-nil (concat out.0)) ∙ rw nothing at same;
          is_cut = send_rest-IsCut fuel n rest;
        }

  -- A writer that is not destroyed and holds bytes for its peer: when the peer takes more, and as long
  -- as the WebSocket is open, takes every frame and stays below its high water mark, all of the bytes
  -- go out at once in payloads of at most MAX_FRAME_PAYLOAD bytes, and the callback is called without
  -- an error.
  pub set_peer_paused-delivers :
      (w : Writer) (rest : List ℕ) (callback : ℕ)
      → w.is_closed ≡ false
      → w.pending ≡ some (rest, callback)
      → IsDelivered w.sent w.called (set_peer_paused env w false) rest callback
  unfolding set_peer_paused resume_pending
  set_peer_paused-delivers w rest callback live held =
      let w' : Writer = record w { peer_paused = false } in
      subst (λ o. IsDelivered w.sent w.called (resume_pending env w' o) rest callback) (sym held)
        (when_false (λ v. IsDelivered w.sent w.called v rest callback) w.is_closed w' live
          (send_chunk-IsDelivered (record w' { pending = none }) rest callback refl live refl))

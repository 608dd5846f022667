-- ===== src/FrameWriter/Runs.antt =====
-- All histories of the writer in which `_write` is called as node's `Writable` calls it.
use nodejs_wss_tunnel.Prelude.{
  ℕ, ◌≤◌, ◌≡◌, refl, sym, ap, ◌∙◌, inl, inr, Bool, true, false, not, ◌&&◌, Option, none, some,
  is_some, String, List, [], ◌∷◌, ◌++◌, append-nil, All, arith,
}
use nodejs_wss_tunnel.FrameWriter.{
  WriterEnv, Writer, new_writer, write, drained, resume_pending, set_peer_paused, fail_pending,
  destroy, or_destroyed, WriterEvent, on_write, on_drained, on_peer_paused, on_destroy, handle,
  writer_run,
}
use nodejs_wss_tunnel.Server.Stable.{either}
use nodejs_wss_tunnel.FrameWriter.Sent.{concat}
use nodejs_wss_tunnel.FrameWriter.Histories.{
  called_ids, no_error, IsFaithful, Owes, send_chunk-IsFaithful, fail-IsFaithful, pending-Owes,
  waiting-Owes,
}

-- `Writable` calls `_write` when the callback of the call before has come, and not after an error.
abbrev pub may_write : Writer → Bool
may_write w = not (is_some w.pending) && (not (is_some w.waiting) && no_error w.called)

abbrev pub is_allowed : Writer → WriterEvent → Bool
is_allowed w (on_write chunk callback) = may_write w
is_allowed w _ = true

abbrev pub well_used : Writer → List (WriterEnv × WriterEvent) → Bool
well_used w [] = true
well_used w ((env, e) ∷ es) = is_allowed w e && well_used (handle env w e) es

-- The bytes and the callbacks that the writer was given.
abbrev pub bytes_with : List ℕ → WriterEvent → List ℕ
bytes_with bytes (on_write chunk callback) = bytes ++ chunk
bytes_with bytes _ = bytes

abbrev pub callbacks_with : List ℕ → WriterEvent → List ℕ
callbacks_with callbacks (on_write chunk callback) = callbacks ++ callback ∷ []
callbacks_with callbacks _ = callbacks

abbrev pub all_bytes_with : List ℕ → List (WriterEnv × WriterEvent) → List ℕ
all_bytes_with bytes [] = bytes
all_bytes_with bytes ((env, e) ∷ es) = all_bytes_with (bytes_with bytes e) es

abbrev pub all_callbacks_with : List ℕ → List (WriterEnv × WriterEvent) → List ℕ
all_callbacks_with callbacks [] = callbacks
all_callbacks_with callbacks ((env, e) ∷ es) = all_callbacks_with (callbacks_with callbacks e) es

abbrev pub HasLimit : WriterEnv × WriterEvent → Type 0
HasLimit (env, e) = 1 ≤ env.max_frame_payload

is_some-none : {A : Type 0} (o : Option A) → is_some o ≡ false → o ≡ none
is_some-none none h = refl
is_some-none (some a) h = cc

write-Owes :
    (bytes callbacks : List ℕ) (w : Writer) (chunk : List ℕ) (callback : ℕ)
    → may_write w ≡ true
    → IsFaithful bytes callbacks w
    → Owes (bytes ++ chunk) (callbacks ++ callback ∷ []) chunk callback w
write-Owes bytes callbacks w chunk callback free h =
    let idle : w.pending ≡ none = is_some-none w.pending (ground (arith, free)) in
    let still : w.waiting ≡ none = is_some-none w.waiting (ground (arith, free)) in
    let whole : h.lost ≡ [] = elim h.lost_by_error [
      | inl e ↦ e
      | inr e ↦ absurd (ground (arith, free, e))
    ] in
    let sent : concat w.sent ≡ bytes =
      sym (append-nil (concat w.sent)) ∙ rw (idle, still, whole) at h.all_bytes in
    let calls : called_ids w.called ≡ callbacks =
      sym (append-nil (called_ids w.called)) ∙ rw (idle, still) at h.all_callbacks in
    record {
      none_pending = idle;
      none_waiting = still;
      fuel_left = h.has_fuel;
      gone = [];
      bytes_left = ap (λ l. concat w.sent ++ l) (append-nil chunk) ∙ ap (λ l. l ++ chunk) sent;
      gone_by_error = inl refl;
      due = ap (λ l. l ++ callback ∷ []) calls;
    }

module _ (bytes callbacks : List ℕ) where
  -- The other fields do not matter.
  aside-IsFaithful :
      (w : Writer) (peer_paused is_closed : Bool) (destroyed : List (Option String))
      → IsFaithful bytes callbacks w
      → IsFaithful bytes callbacks
          (record w { peer_paused = peer_paused; is_closed = is_closed; destroyed = destroyed })
  aside-IsFaithful w p c d h = record {
    one_call = h.one_call;
    has_fuel = h.has_fuel;
    lost = h.lost;
    all_bytes = h.all_bytes;
    lost_by_error = h.lost_by_error;
    all_callbacks = h.all_callbacks;
  }

  keep-IsFaithful :
      (w : Writer) (chunk : List ℕ) (callback : ℕ)
      → Owes bytes callbacks chunk callback w
      → IsFaithful bytes callbacks (record w { pending = some (chunk, callback) })
  keep-IsFaithful w chunk callback h = record {
    one_call = inr h.none_waiting;
    has_fuel = h.fuel_left;
    lost = h.gone;
    all_bytes = rw h.none_waiting h.bytes_left;
    lost_by_error = h.gone_by_error;
    all_callbacks = rw h.none_waiting h.due;
  }

  write-IsFaithful :
      (env : WriterEnv) (w : Writer) (chunk : List ℕ) (callback : ℕ)
      → 1 ≤ env.max_frame_payload
      → Owes bytes callbacks chunk callback w
      → IsFaithful bytes callbacks (write env w chunk callback)
  unfolding write
  write-IsFaithful env w chunk callback positive h =
      either (IsFaithful bytes callbacks) w.is_closed
        (fail-IsFaithful bytes callbacks w chunk callback "WsFrameWriter is closed" h)
        (either (IsFaithful bytes callbacks) w.peer_paused (keep-IsFaithful w chunk callback h)
          (send_chunk-IsFaithful bytes callbacks env w false chunk callback positive h))

  drained-IsFaithful :
      (env : WriterEnv) (w : Writer) (waiting : Option (List ℕ × ℕ)) (error : Option String)
      → 1 ≤ env.max_frame_payload
      → w.waiting ≡ waiting
      → IsFaithful bytes callbacks w
      → IsFaithful bytes callbacks (drained env w waiting error)
  unfolding drained
  drained-IsFaithful env w none error positive e h = h
  drained-IsFaithful env w (some (rest, callback)) none positive e h =
      send_chunk-IsFaithful bytes callbacks env (record w { waiting = none }) true rest callback
        positive (waiting-Owes bytes callbacks w rest callback e h)
  drained-IsFaithful env w (some (rest, callback)) (some message) positive e h =
      fail-IsFaithful bytes callbacks (record w { waiting = none }) rest callback message
        (waiting-Owes bytes callbacks w rest callback e h)

  resume_pending-IsFaithful :
      (env : WriterEnv) (w : Writer) (pending : Option (List ℕ × ℕ))
      → 1 ≤ env.max_frame_payload
      → w.pending ≡ pending
      → IsFaithful bytes callbacks w
      → IsFaithful bytes callbacks (resume_pending env w pending)
  unfolding resume_pending
  resume_pending-IsFaithful env w none positive e h = h
  resume_pending-IsFaithful env w (some (rest, callback)) positive e h =
      either (IsFaithful bytes callbacks) w.is_closed h (
        send_chunk-IsFaithful bytes callbacks env (record w { pending = none }) false rest callback
          positive (pending-Owes bytes callbacks w rest callback e h))

  fail_pending-IsFaithful :
      (w : Writer) (pending : Option (List ℕ × ℕ)) (error : Option String)
      → w.pending ≡ pending
      → IsFaithful bytes callbacks w
      → IsFaithful bytes callbacks (fail_pending w pending error)
  unfolding fail_pending
  fail_pending-IsFaithful w none error e h = h
  fail_pending-IsFaithful w (some (rest, callback)) error e h =
      fail-IsFaithful bytes callbacks (record w { pending = none }) rest callback
        (or_destroyed error) (pending-Owes bytes callbacks w rest callback e h)

handle-IsFaithful :
    (bytes callbacks : List ℕ) (env : WriterEnv) (w : Writer) (e : WriterEvent)
    → 1 ≤ env.max_frame_payload
    → is_allowed w e ≡ true
    → IsFaithful bytes callbacks w
    → IsFaithful (bytes_with bytes e) (callbacks_with callbacks e) (handle env w e)
unfolding handle set_peer_paused destroy
handle-IsFaithful bytes callbacks env w (on_write chunk callback) positive free h =
    write-IsFaithful (bytes ++ chunk) (callbacks ++ callback ∷ []) env w chunk callback positive
      (write-Owes bytes callbacks w chunk callback free h)
handle-IsFaithful bytes callbacks env w (on_drained error) positive free h =
    drained-IsFaithful bytes callbacks env w w.waiting error positive refl h
handle-IsFaithful bytes callbacks env w (on_peer_paused true) positive free h =
    aside-IsFaithful bytes callbacks w true w.is_closed w.destroyed h
handle-IsFaithful bytes callbacks env w (on_peer_paused false) positive free h =
    resume_pending-IsFaithful bytes callbacks env (record w { peer_paused = false }) w.pending
      positive refl (aside-IsFaithful bytes callbacks w false w.is_closed w.destroyed h)
handle-IsFaithful bytes callbacks env w (on_destroy error) positive free h =
    let w' = fail_pending (record w { is_closed = true }) w.pending error in
    aside-IsFaithful bytes callbacks w' w'.peer_paused w'.is_closed (w'.destroyed ++ error ∷ []) (
      fail_pending-IsFaithful bytes callbacks (record w { is_closed = true }) w.pending error refl
        (aside-IsFaithful bytes callbacks w w.peer_paused true w.destroyed h))

run-IsFaithful :
    (es : List (WriterEnv × WriterEvent)) (bytes callbacks : List ℕ) (w : Writer)
    → All HasLimit es
    → well_used w es ≡ true
    → IsFaithful bytes callbacks w
    → IsFaithful (all_bytes_with bytes es) (all_callbacks_with callbacks es) (writer_run w es)
unfolding writer_run
run-IsFaithful [] bytes callbacks w limits used h = h
run-IsFaithful ((env, e) ∷ es) bytes callbacks w (limit, limits) used h =
    run-IsFaithful es (bytes_with bytes e) (callbacks_with callbacks e) (handle env w e) limits
      (ground (arith, used))
      (handle-IsFaithful bytes callbacks env w e limit (ground (arith, used)) h)

-- With a positive limit on the payload, over every history of the writer in which `_write` is called
-- only after the callback of the call before and not after an error: the bytes of the payloads sent,
-- then those held while the peer pauses or the socket drains, then those lost, are in order the bytes
-- written, and some are lost only if a callback had an error; the callbacks called, each once, and
-- then the one that is due are in order those of the writes; and the loop never runs out of fuel.
pub writer_run-IsFaithful :
    (es : List (WriterEnv × WriterEvent))
    → All HasLimit es
    → well_used new_writer es ≡ true
    → IsFaithful (all_bytes_with [] es) (all_callbacks_with [] es) (writer_run new_writer es)
writer_run-IsFaithful es limits used = run-IsFaithful es [] [] new_writer limits used (record {
  one_call = inl refl;
  has_fuel = refl;
  lost = [];
  all_bytes = refl;
  lost_by_error = inl refl;
  all_callbacks = refl;
})

-- ===== src/FrameWriter/Histories.antt =====
-- The writer over its histories: no byte is reordered or repeated, and each callback is called once.
use nodejs_wss_tunnel.Prelude.{
  ℕ, ◌≤◌, ◌≡◌, refl, sym, ap, ◌∙◌, ◌⊎◌, inl, inr, Bool, true, false, not, ◌&&◌, Option, none, some,
  is_some, String, List, [], ◌∷◌, ◌++◌, append_assoc, append-nil, length, arith,
}
use nodejs_wss_tunnel.FrameWriter.{
  WriterEnv, Outcome, done, failed, paused, waits, out_of_fuel, send_rest, Writer, call_back,
  conclude, send_chunk,
}
use nodejs_wss_tunnel.FrameWriter.Sent.{
  concat, Keeps, IsEnded, send_rest-IsPrefix, send_rest-IsEnded,
}

-- The bytes of a call that has not ended, and its callback.
abbrev pub bytes_of : Option (List ℕ × ℕ) → List ℕ
bytes_of none = []
bytes_of (some (rest, callback)) = rest

abbrev pub callback_of : Option (List ℕ × ℕ) → List ℕ
callback_of none = []
callback_of (some (rest, callback)) = callback ∷ []

abbrev pub called_ids : List (ℕ × Option String) → List ℕ
called_ids [] = []
called_ids ((callback, error) ∷ calls) = callback ∷ called_ids calls

abbrev pub no_error : List (ℕ × Option String) → Bool
no_error [] = true
no_error ((callback, error) ∷ calls) = not (is_some error) && no_error calls

-- What the writer has made of the bytes and the callbacks that it was given: the bytes sent, then
-- those held and those lost are all bytes, and some are lost only if a callback had an error; the
-- callbacks called and then the one that is due are all callbacks.
pub record IsFaithful (bytes : List ℕ) (callbacks : List ℕ) (w : Writer) : Type 0 where
  pub one_call : (w.pending ≡ none) ⊎ (w.waiting ≡ none)
  pub has_fuel : w.ran_out ≡ false
  pub lost : List ℕ
  pub all_bytes : concat w.sent ++ (bytes_of w.pending ++ (bytes_of w.waiting ++ lost)) ≡ bytes
  pub lost_by_error : (lost ≡ []) ⊎ (no_error w.called ≡ false)
  pub all_callbacks :
      called_ids w.called ++ (callback_of w.pending ++ callback_of w.waiting) ≡ callbacks

called_ids-append :
    (calls : List (ℕ × Option String)) (callback : ℕ) (error : Option String)
    → called_ids (calls ++ (callback, error) ∷ []) ≡ called_ids calls ++ callback ∷ []
called_ids-append [] callback error = refl
called_ids-append ((k, e) ∷ calls) callback error =
    ap (λ l. k ∷ l) (called_ids-append calls callback error)

no_error-append :
    (calls : List (ℕ × Option String)) (callback : ℕ) (error : Option String)
    → no_error (calls ++ (callback, error) ∷ []) ≡ (no_error calls && not (is_some error))
no_error-append [] callback error = ground arith
no_error-append ((k, e) ∷ calls) callback error =
    ground (arith, no_error-append calls callback error)

concat-append : (ps qs : List (List ℕ)) → concat (ps ++ qs) ≡ concat ps ++ concat qs
concat-append [] qs = refl
concat-append (p ∷ ps) qs =
    ap (λ l. p ++ l) (concat-append ps qs) ∙ sym (append_assoc p (concat ps) (concat qs))

-- A writer that holds nothing and is to go on with `rest` for the callback.
pub record Owes (bytes : List ℕ) (callbacks : List ℕ) (rest : List ℕ) (callback : ℕ) (w : Writer)
    : Type 0 where
  pub none_pending : w.pending ≡ none
  pub none_waiting : w.waiting ≡ none
  pub fuel_left : w.ran_out ≡ false
  pub gone : List ℕ
  pub bytes_left : concat w.sent ++ (rest ++ gone) ≡ bytes
  pub gone_by_error : (gone ≡ []) ⊎ (no_error w.called ≡ false)
  pub due : called_ids w.called ++ callback ∷ [] ≡ callbacks

module _ (bytes : List ℕ) (callbacks : List ℕ) where
  conclude-IsFaithful :
      (w : Writer) (callback : ℕ) (o : Outcome) (rest gone : List ℕ)
      → w.pending ≡ none
      → w.waiting ≡ none
      → w.ran_out ≡ false
      → IsEnded o
      → Keeps o rest
      → concat w.sent ++ (rest ++ gone) ≡ bytes
      → (gone ≡ []) ⊎ (no_error w.called ≡ false)
      → called_ids w.called ++ callback ∷ [] ≡ callbacks
      → IsFaithful bytes callbacks (conclude w callback o)
  unfolding conclude
  conclude-IsFaithful w callback done rest gone p q f ended keeps same lost due = record {
    one_call = inl p;
    has_fuel = f;
    lost = gone;
    all_bytes = rw (p, q) (ap (λ l. concat w.sent ++ (l ++ gone)) (sym keeps) ∙ same);
    lost_by_error = either_error lost;
    all_callbacks =
        rw (p, q)
          (append-nil (called_ids (w.called ++ (callback, none) ∷ []))
            ∙ called_ids-append w.called callback none
            ∙ due);
  }
    where
      either_error :
          (gone ≡ []) ⊎ (no_error w.called ≡ false)
          → (gone ≡ []) ⊎ (no_error (w.called ++ (callback, none) ∷ []) ≡ false)
      either_error (inl e) = inl e
      either_error (inr e) = inr (ground (arith, e, no_error-append w.called callback none))
  conclude-IsFaithful w callback (failed message) rest gone p q f ended keeps same lost due =
      record {
        one_call = inl p;
        has_fuel = f;
        lost = rest ++ gone;
        all_bytes = rw (p, q) same;
        lost_by_error = inr (ground (arith, no_error-append w.called callback (some message)));
        all_callbacks =
            rw (p, q)
              (append-nil (called_ids (w.called ++ (callback, some message) ∷ []))
                ∙ called_ids-append w.called callback (some message)
                ∙ due);
      }
  conclude-IsFaithful w callback (paused kept) rest gone p q f ended keeps same lost due = record {
    one_call = inr q;
    has_fuel = f;
    lost = gone;
    all_bytes = rw (q, keeps) same;
    lost_by_error = lost;
    all_callbacks = rw q due;
  }
  conclude-IsFaithful w callback (waits kept) rest gone p q f ended keeps same lost due = record {
    one_call = inl p;
    has_fuel = f;
    lost = gone;
    all_bytes = rw (p, keeps) same;
    lost_by_error = lost;
    all_callbacks = rw p due;
  }
  conclude-IsFaithful w callback out_of_fuel rest gone p q f ended keeps same lost due =
      absurd ended

  pub send_chunk-IsFaithful :
      (env : WriterEnv) (w : Writer) (waited : Bool) (rest : List ℕ) (callback : ℕ)
      → 1 ≤ env.max_frame_payload
      → Owes bytes callbacks rest callback w
      → IsFaithful bytes callbacks (send_chunk env w waited rest callback)
  unfolding send_chunk
  send_chunk-IsFaithful env w waited rest callback positive h =
      let out = send_rest (length rest) env w.is_closed w.peer_paused waited (length w.sent) rest in
      let (left, same, keeps) =
        send_rest-IsPrefix (length rest) env w.is_closed w.peer_paused waited (length w.sent)
          rest in
      conclude-IsFaithful (record w { sent = w.sent ++ out.0 }) callback out.1 left h.gone
        h.none_pending h.none_waiting h.fuel_left
        (send_rest-IsEnded (length rest) env w.is_closed w.peer_paused waited (length w.sent) rest
          positive (omega arith))
        keeps
        (ap (λ l. l ++ (left ++ h.gone)) (concat-append w.sent out.0)
          ∙ append_assoc (concat w.sent) (concat out.0) (left ++ h.gone)
          ∙ ap (λ l. concat w.sent ++ l)
              (sym (append_assoc (concat out.0) left h.gone) ∙ ap (λ l. l ++ h.gone) same)
          ∙ h.bytes_left)
        h.gone_by_error h.due

  -- A callback with an error, for all that was owed.
  pub fail-IsFaithful :
      (w : Writer) (rest : List ℕ) (callback : ℕ) (message : String)
      → Owes bytes callbacks rest callback w
      → IsFaithful bytes callbacks (call_back w callback (some message))
  unfolding conclude
  fail-IsFaithful w rest callback message h =
      conclude-IsFaithful w callback (failed message) rest h.gone h.none_pending h.none_waiting
        h.fuel_left tt tt h.bytes_left h.gone_by_error h.due

  pub pending-Owes :
      (w : Writer) (rest : List ℕ) (callback : ℕ)
      → w.pending ≡ some (rest, callback)
      → IsFaithful bytes callbacks w
      → Owes bytes callbacks rest callback (record w { pending = none })
  pending-Owes w rest callback e h =
      let idle : w.waiting ≡ none = elim h.one_call [ inl n ↦ ground (arith, e, n) | inr n ↦ n ] in
      record {
        none_pending = refl;
        none_waiting = idle;
        fuel_left = h.has_fuel;
        gone = h.lost;
        bytes_left = rw (e, idle) at h.all_bytes;
        gone_by_error = h.lost_by_error;
        due = rw (e, idle) at h.all_callbacks;
      }

  pub waiting-Owes :
      (w : Writer) (rest : List ℕ) (callback : ℕ)
      → w.waiting ≡ some (rest, callback)
      → IsFaithful bytes callbacks w
      → Owes bytes callbacks rest callback (record w { waiting = none })
  waiting-Owes w rest callback e h =
      let idle : w.pending ≡ none = elim h.one_call [ inl n ↦ n | inr n ↦ ground (arith, e, n) ] in
      record {
        none_pending = idle;
        none_waiting = refl;
        fuel_left = h.has_fuel;
        gone = h.lost;
        bytes_left = rw (e, idle) at h.all_bytes;
        gone_by_error = h.lost_by_error;
        due = rw (e, idle) at h.all_callbacks;
      }

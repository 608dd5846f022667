-- ===== src/FrameWriter.antt =====
-- `WsFrameWriter` of src/server/WsFrameWriter.js: the writer of request and response bodies. A callback
-- is a number, and an event is a call that node makes of it or of a promise that it waits for.
pub mod Sent
pub mod Histories
pub mod Runs
pub mod Delivery
mod Tests
use nodejs_wss_tunnel.Prelude.{
  ℕ, zero, suc, ◌+◌, Option, none, some, Bool, true, false, not, ◌&&◌, String, List, [], ◌∷◌, ◌++◌,
  length, take, drop, ltb, str_eq, if◌then◌else◌,
}

-- What the outside answers during one event, when `n` frames have been sent so far.
pub record WriterEnv : Type 0 where
  pub ws_high_water : ℕ
  pub max_frame_payload : ℕ
  -- `this.ws.readyState === WebSocket.OPEN`.
  pub is_open : ℕ → Bool
  -- `this.ws.bufferedAmount`.
  pub buffered_amount : ℕ → ℕ
  -- The result of `sendFrame`.
  pub sends : ℕ → Bool

-- How a run of the loop ends: the callback without an error or with one, the rest for `pending`, the
-- rest at `await waitDrain`, or no fuel.
pub data Outcome : Type 0 where
  done : Outcome
  failed : String → Outcome
  paused : List ℕ → Outcome
  waits : List ℕ → Outcome
  out_of_fuel : Outcome

-- Why a round ends before it sends, where it does.
pub data Before : Type 0 where
  go_on : Before
  throws : String → Before
  pauses : Before
  must_wait : Before

-- The part behind the wait.
unfoldable pub after_wait : Bool → Bool → Before
after_wait is_closed peer_paused =
    if is_closed
    then throws "WsFrameWriter destroyed after drain"
    else if peer_paused
    then pauses
    else go_on

-- A round up to `sendFrame`, from its begin or, with `waited`, from behind the wait.
unfoldable pub before_send : WriterEnv → Bool → Bool → Bool → ℕ → Before
unfolding after_wait
before_send env is_closed peer_paused true n = after_wait is_closed peer_paused
before_send env is_closed peer_paused false n =
    if is_closed
    then throws "WsFrameWriter destroyed while sending"
    else if not (env.is_open n)
    then throws "WebSocket is not open"
    else if ltb env.ws_high_water (env.buffered_amount n)
    then must_wait
    else after_wait is_closed peer_paused

-- A round, with what the later rounds make of the rest of the chunk.
abbrev pub one_round :
    Before → Bool → ℕ → List ℕ → List (List ℕ) × Outcome → List (List ℕ) × Outcome
one_round (throws message) sent max_frame_payload chunk later = ([], failed message)
one_round pauses sent max_frame_payload chunk later = ([], paused chunk)
one_round must_wait sent max_frame_payload chunk later = ([], waits chunk)
one_round go_on false max_frame_payload chunk later = ([], failed "Failed to send WebSocket frame")
one_round go_on true max_frame_payload chunk (sent, outcome) =
    (take max_frame_payload chunk ∷ sent, outcome)

-- The `while` loop on what is left of the chunk, up to its end or to a wait: the payloads sent, and
-- how it ends.
unfoldable pub send_rest : ℕ → WriterEnv → Bool → Bool → Bool → ℕ → List ℕ → List (List ℕ) × Outcome
send_rest fuel env is_closed peer_paused waited n [] = ([], done)
send_rest zero env is_closed peer_paused waited n (b ∷ rest) = ([], out_of_fuel)
send_rest (suc fuel) env is_closed peer_paused waited n (b ∷ rest) =
    one_round (before_send env is_closed peer_paused waited n) (env.sends n) env.max_frame_payload
      (b ∷ rest)
      (send_rest fuel env is_closed peer_paused false (n + 1)
        (drop env.max_frame_payload (b ∷ rest)))

-- The fields of the writer, with the call of `_sendChunk` that waits for `drain`; the payloads that
-- went out, the callbacks that were called and with which error, and the results of `_destroy`, each
-- in order. `is_closed` is `_writerClosed`, which `_destroy` sets when `destroyed` has been set.
pub record Writer : Type 0 where
  pub peer_paused : Bool
  pub is_closed : Bool
  pub pending : Option (List ℕ × ℕ)
  pub waiting : Option (List ℕ × ℕ)
  pub sent : List (List ℕ)
  pub called : List (ℕ × Option String)
  pub destroyed : List (Option String)
  pub ran_out : Bool

abbrev pub new_writer : Writer
new_writer = record {
  peer_paused = false;
  is_closed = false;
  pending = none;
  waiting = none;
  sent = [];
  called = [];
  destroyed = [];
  ran_out = false;
}

abbrev pub call_back : Writer → ℕ → Option String → Writer
call_back w callback error = record w { called = w.called ++ (callback, error) ∷ [] }

unfoldable pub conclude : Writer → ℕ → Outcome → Writer
conclude w callback done = call_back w callback none
conclude w callback (failed message) = call_back w callback (some message)
conclude w callback (paused rest) = record w { pending = some (rest, callback) }
conclude w callback (waits rest) = record w { waiting = some (rest, callback) }
conclude w callback out_of_fuel = record w { ran_out = true }

-- `_sendChunk` from the begin of the loop or, with `waited`, from behind its wait. A round takes
-- `MAX_FRAME_PAYLOAD` bytes of the chunk: its length is fuel enough.
unfoldable pub send_chunk : WriterEnv → Writer → Bool → List ℕ → ℕ → Writer
send_chunk env w waited chunk callback =
    let (sent, outcome) =
      send_rest (length chunk) env w.is_closed w.peer_paused waited (length w.sent) chunk in
    conclude (record w { sent = w.sent ++ sent }) callback outcome

-- `_write`.
unfoldable pub write : WriterEnv → Writer → List ℕ → ℕ → Writer
write env w chunk callback =
    if w.is_closed
    then call_back w callback (some "WsFrameWriter is closed")
    else if w.peer_paused
    then record w { pending = some (chunk, callback) }
    else send_chunk env w false chunk callback

-- The end of `waitDrain`, with the error that it rejects with, if it does.
unfoldable pub drained : WriterEnv → Writer → Option (List ℕ × ℕ) → Option String → Writer
drained env w none error = w
drained env w (some (rest, callback)) none =
    send_chunk env (record w { waiting = none }) true rest callback
drained env w (some (rest, callback)) (some message) =
    call_back (record w { waiting = none }) callback (some message)

-- `setPeerPaused`.
unfoldable pub resume_pending : WriterEnv → Writer → Option (List ℕ × ℕ) → Writer
resume_pending env w none = w
resume_pending env w (some (rest, callback)) =
    if w.is_closed then w else send_chunk env (record w { pending = none }) false rest callback

unfoldable pub set_peer_paused : WriterEnv → Writer → Bool → Writer
unfolding resume_pending
set_peer_paused env w true = record w { peer_paused = true }
set_peer_paused env w false = resume_pending env (record w { peer_paused = false }) w.pending

-- `_destroy`.
abbrev pub or_destroyed : Option String → String
or_destroyed none = "WsFrameWriter destroyed"
or_destroyed (some message) = message

unfoldable pub fail_pending : Writer → Option (List ℕ × ℕ) → Option String → Writer
fail_pending w none error = w
fail_pending w (some (rest, callback)) error =
    call_back (record w { pending = none }) callback (some (or_destroyed error))

unfoldable pub destroy : Writer → Option String → Writer
unfolding fail_pending
destroy w error =
    let w' = fail_pending (record w { is_closed = true }) w.pending error in
    record w' { destroyed = w'.destroyed ++ error ∷ [] }

pub data WriterEvent : Type 0 where
  on_write : List ℕ → ℕ → WriterEvent
  on_drained : Option String → WriterEvent
  on_peer_paused : Bool → WriterEvent
  on_destroy : Option String → WriterEvent

unfoldable pub handle : WriterEnv → Writer → WriterEvent → Writer
handle env w (on_write chunk callback) = write env w chunk callback
handle env w (on_drained error) = drained env w w.waiting error
handle env w (on_peer_paused b) = set_peer_paused env w b
handle env w (on_destroy error) = destroy w error

unfoldable pub writer_run : Writer → List (WriterEnv × WriterEvent) → Writer
writer_run w [] = w
writer_run w ((env, e) ∷ es) = writer_run (handle env w e) es

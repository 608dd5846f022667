-- ===== src/TunnelServer/Exits.antt =====
-- The end of the process of src/server/TunnelServer.js.
use nodejs_wss_tunnel.Prelude.{
  ℕ, ◌≡◌, refl, Bool, true, false, not, ◌&&◌, none, some, is_some, List, [], ◌∷◌, ◌++◌, arith,
}
use nodejs_wss_tunnel.TunnelServer.{
  Process, running, ProcessEvent, signal, uncaught_exception, components_closed, time_out, close,
  shutdown, finish_shutdown, on_event, process_step, process_run,
}

-- The events that begin a shutdown, and those that end one.
abbrev pub begins : ProcessEvent → Bool
begins signal = true
begins uncaught_exception = true
begins _ = false

abbrev pub ends : ProcessEvent → Bool
ends components_closed = true
ends time_out = true
ends _ = false

abbrev pub none_of : (ProcessEvent → Bool) → List ProcessEvent → Bool
none_of test [] = true
none_of test (e ∷ es) = not (test e) && none_of test es

-- The exit code: 1 after an exception, and when the time runs out.
abbrev pub code_of : ProcessEvent → ProcessEvent → ℕ
code_of signal components_closed = 0
code_of _ _ = 1

abbrev by_exception : ProcessEvent → Bool
by_exception uncaught_exception = true
by_exception _ = false

abbrev closing : Bool → Process
closing b = record {
  shutting_down = true;
  closes = 1;
  waits = some b;
  timer = true;
  exit_code = none;
}

idle : (es : List ProcessEvent) → none_of begins es ≡ true → process_run running es ≡ running
unfolding process_run process_step on_event finish_shutdown
idle [] h = refl
idle (signal ∷ es) h = ground (arith, h)
idle (uncaught_exception ∷ es) h = ground (arith, h)
idle (components_closed ∷ es) h = idle es h
idle (time_out ∷ es) h = idle es h

waiting :
    (b : Bool) (es : List ProcessEvent)
    → none_of ends es ≡ true
    → process_run (closing b) es ≡ closing b
unfolding process_run process_step on_event shutdown
waiting b [] h = refl
waiting b (signal ∷ es) h = waiting b es h
waiting b (uncaught_exception ∷ es) h = waiting b es h
waiting b (components_closed ∷ es) h = ground (arith, h)
waiting b (time_out ∷ es) h = ground (arith, h)

over : (p : Process) (es : List ProcessEvent) → is_some p.exit_code ≡ true → process_run p es ≡ p
unfolding process_run process_step
over p [] h = refl
over p (e ∷ es) h = rw h (over p es h)

process_run-append :
    (p : Process) (es fs : List ProcessEvent)
    → process_run p (es ++ fs) ≡ process_run (process_run p es) fs
unfolding process_run
process_run-append p [] fs = refl
process_run-append p (e ∷ es) fs = process_run-append (process_step p e) es fs

process_run-first :
    (p : Process) (e : ProcessEvent) (es : List ProcessEvent)
    → process_run p (e ∷ es) ≡ process_run (process_step p e) es
unfolding process_run
process_run-first p e es = refl

-- What the trigger and the ending do.
triggered : (e : ProcessEvent) → begins e ≡ true → process_step running e ≡ closing (by_exception e)
unfolding process_step on_event shutdown close
triggered signal h = refl
triggered uncaught_exception h = refl
triggered components_closed h = ground (arith, h)
triggered time_out h = ground (arith, h)

abbrev ended : ℕ → Process
ended code = record {
  shutting_down = true;
  closes = 1;
  waits = none;
  timer = false;
  exit_code = some code;
}

finished :
    (trigger ending : ProcessEvent)
    → begins trigger ≡ true
    → ends ending ≡ true
    → process_step (closing (by_exception trigger)) ending ≡ ended (code_of trigger ending)
unfolding process_step on_event finish_shutdown
finished signal components_closed h k = refl
finished signal time_out h k = refl
finished uncaught_exception components_closed h k = refl
finished uncaught_exception time_out h k = refl
finished components_closed ending h k = ground (arith, h)
finished time_out ending h k = ground (arith, h)
finished signal signal h k = ground (arith, k)
finished signal uncaught_exception h k = ground (arith, k)
finished uncaught_exception signal h k = ground (arith, k)
finished uncaught_exception uncaught_exception h k = ground (arith, k)

-- The events of a process: some before the first signal or exception, then that, then some that end
-- no shutdown, then one that does, then any others.
abbrev pub life :
    List ProcessEvent
    → ProcessEvent
    → List ProcessEvent
    → ProcessEvent
    → List ProcessEvent
    → List ProcessEvent
life before trigger quiet ending after = before ++ (trigger ∷ (quiet ++ (ending ∷ after)))

-- A process that gets a signal or an exception, and later has its components closed or runs out of
-- the graceful time, exits, whatever else happens in between or after: with 0 if a signal came first
-- and the components closed in time, with 1 else; and the components were closed once.
pub process_run-exits :
    (before quiet after : List ProcessEvent) (trigger ending : ProcessEvent)
    → none_of begins before ≡ true
    → begins trigger ≡ true
    → none_of ends quiet ≡ true
    → ends ending ≡ true
    → ((process_run running (life before trigger quiet ending after)).exit_code
        ≡ some (code_of trigger ending))
      × ((process_run running (life before trigger quiet ending after)).closes ≡ 1)
process_run-exits before quiet after trigger ending h0 h1 h2 h3 =
    rw
      (
        process_run-append running before (trigger ∷ (quiet ++ (ending ∷ after))),
        idle before h0,
        process_run-first running trigger (quiet ++ (ending ∷ after)),
        triggered trigger h1,
        process_run-append (closing (by_exception trigger)) quiet (ending ∷ after),
        waiting (by_exception trigger) quiet h2,
        process_run-first (closing (by_exception trigger)) ending after,
        finished trigger ending h1 h3,
        over (ended (code_of trigger ending)) after refl,
      )
      (refl, refl)

-- ===== src/GrpcConnection/Signals/Debounce.antt =====
-- The readiness timers follow the latest answer.
use camunda_8_js_sdk.Base.{
  ℕ, ◌≡◌, refl, Bool, true, false, Option, none, some, List, [], ◌∷◌, if◌then◌else◌, if_rule,
}
use camunda_8_js_sdk.GrpcConnection.{State, error, connected, unknown}
use camunda_8_js_sdk.GrpcConnection.Signals.{
  connection_error, Config, Connection, lose_connection, on_connection_error, on_ready, emit_error,
  emit_ready, signal_error, signal_ready, report_state, is_due, startup_over, Turn, channel_ready,
  channel_failed, stream_opened, stream_refused, stream_failed, call_done, call_failed, ready_over,
  fail_over, deadline_over, closed, set_ready, start_fail_timer, set_not_ready, ready_timer_over,
  fail_channel, fail_timer_over, refuse_stream, fail_stream, answer_call, close, new_connection,
  step, run,
}

-- Whether the latest stream or call to be answered reached the broker: a stream that opened, or a call
-- answered with a result or with an error that is not one of the network, for which the client calls
-- `setReady` too.
abbrev pub heard : Turn → Option Bool → Option Bool
heard stream_opened a = some true
heard call_done a = some true
heard (call_failed is_network_error) a = some (if is_network_error then false else true)
heard stream_refused a = some false
heard stream_failed a = some false
heard _ a = a

abbrev pub latest_answer : List (ℕ × Turn) → Option Bool → Option Bool
latest_answer [] a = a
latest_answer ((now, t) ∷ ts) a = latest_answer ts (heard t a)

-- An armed ready timer follows an answer that reached the broker, and a fail timer that is armed alone
-- one that did not.
abbrev Timers : Option Bool → Option ℕ → Option ℕ → Type 0
Timers a (some at) fail = a ≡ some true
Timers a none (some at) = a ≡ some false
Timers a none none = Unit

abbrev Follows : Option Bool → Connection → Type 0
Follows a s = Timers a s.ready_timer s.fail_timer

Timers-failed : (a : Option Bool) (o : Option ℕ) (f : Option ℕ) → a ≡ some false → Timers a none f
Timers-failed a o none e = tt
Timers-failed a o (some at) e = e

Timers-no_fail : (a : Option Bool) (r f : Option ℕ) → Timers a r f → Timers a r none
Timers-no_fail a none f h = tt
Timers-no_fail a (some at) f h = h

same_timers :
    (a : Option Bool) (s t : Connection)
    → t.ready_timer ≡ s.ready_timer
    → t.fail_timer ≡ s.fail_timer
    → Follows a s
    → Follows a t
same_timers a s t e f h = rw (e, f) h

-- What the client and the middleware do leaves the timers alone.
abbrev SameTimers : Connection → Connection → Type 0
SameTimers s t = (t.ready_timer ≡ s.ready_timer) × (t.fail_timer ≡ s.fail_timer)

lose_connection-SameTimers : (c : Option Bool) (s : Connection) → SameTimers s (lose_connection c s)
unfolding lose_connection
lose_connection-SameTimers none s = (refl, refl)
lose_connection-SameTimers (some true) s = (refl, refl)
lose_connection-SameTimers (some false) s = (refl, refl)

emit_error-SameTimers : (s : Connection) → SameTimers s (emit_error s)
unfolding emit_error on_connection_error
emit_error-SameTimers s =
    lose_connection-SameTimers s.is_connected
      (record s { emitted = connection_error ∷ s.emitted; readied = false })

emit_ready-SameTimers : (s : Connection) → SameTimers s (emit_ready s)
unfolding emit_ready on_ready
emit_ready-SameTimers s =
    if_rule (λ (q : Connection). SameTimers s q) s.readied (λ e. (refl, refl)) (λ e. (refl, refl))

signal_error-SameTimers : (s : Connection) → SameTimers s (signal_error s)
unfolding signal_error
signal_error-SameTimers s =
    if_rule (λ (q : Connection). SameTimers s q) s.blocking (λ e. (refl, refl))
      (λ e. emit_error-SameTimers (record s { state = error }))

signal_ready-SameTimers : (s : Connection) → SameTimers s (signal_ready s)
unfolding signal_ready
signal_ready-SameTimers s =
    if_rule (λ (q : Connection). SameTimers s q) s.blocking (λ e. (refl, refl))
      (λ e. emit_ready-SameTimers (record s { state = connected }))

report_state-SameTimers : (v : State) (s : Connection) → SameTimers s (report_state v s)
unfolding report_state
report_state-SameTimers error s = emit_error-SameTimers s
report_state-SameTimers connected s = emit_ready-SameTimers s
report_state-SameTimers unknown s = (refl, refl)

Follows-SameTimers :
    (a : Option Bool) (s t : Connection) → SameTimers s t → Follows a s → Follows a t
Follows-SameTimers a s t (e, f) h = same_timers a s t e f h

signal_error-Follows : (a : Option Bool) (s : Connection) → Follows a s → Follows a (signal_error s)
signal_error-Follows a s h = Follows-SameTimers a s (signal_error s) (signal_error-SameTimers s) h

signal_ready-Follows : (a : Option Bool) (s : Connection) → Follows a s → Follows a (signal_ready s)
signal_ready-Follows a s h = Follows-SameTimers a s (signal_ready s) (signal_ready-SameTimers s) h

module _ (config : Config) where
  start_fail_timer-Follows :
      (now : ℕ) (o : Option ℕ) (s : Connection)
      → s.ready_timer ≡ none
      → Follows (some false) (start_fail_timer config now o s)
  unfolding start_fail_timer
  start_fail_timer-Follows now none s e = rw e refl
  start_fail_timer-Follows now (some at) s e =
      rw e (Timers-failed (some false) none s.fail_timer refl)

  set_not_ready-Follows :
      (now : ℕ) (s : Connection) → Follows (some false) (set_not_ready config now s)
  unfolding set_not_ready
  set_not_ready-Follows now s =
      start_fail_timer-Follows now s.fail_timer
        (record s { ready_timer = none; channel_connected = false }) refl

  fail_channel-Follows :
      (a : Option Bool) (r : Option ℕ) (s : Connection)
      → s.ready_timer ≡ r
      → Follows a s
      → Follows a (fail_channel config r s)
  unfolding fail_channel
  fail_channel-Follows a none s e h =
      signal_error-Follows a (record s { fail_timer = none; channel_connected = false }) (rw e tt)
  fail_channel-Follows a (some at) s e h = Timers-no_fail a s.ready_timer s.fail_timer h

  step-Follows :
      (now : ℕ) (t : Turn) (a : Option Bool) (s : Connection)
      → Follows a s
      → Follows (heard t a) (step config now t s)
  unfolding step refuse_stream fail_stream answer_call close set_ready ready_timer_over
      fail_timer_over startup_over
  step-Follows now channel_ready a s h = signal_ready-Follows a s h
  step-Follows now channel_failed a s h = signal_error-Follows a s h
  step-Follows now stream_opened a s h = refl
  step-Follows now stream_refused a s h = set_not_ready-Follows now (signal_error s)
  step-Follows now stream_failed a s h = set_not_ready-Follows now (signal_error s)
  step-Follows now call_done a s h = refl
  step-Follows now (call_failed true) a s h = set_not_ready-Follows now s
  step-Follows now (call_failed false) a s h = refl
  step-Follows now ready_over a s h =
      if_rule (λ (q : Connection). Follows a q) (is_due now s.ready_timer)
        (λ e.
          signal_ready-Follows a
            (record s { fail_timer = none; ready_timer = none; channel_connected = true }) tt)
        (λ e. h)
  step-Follows now fail_over a s h =
      if_rule (λ (q : Connection). Follows a q) (is_due now s.fail_timer)
        (λ e. fail_channel-Follows a s.ready_timer s refl h) (λ e. h)
  step-Follows now deadline_over a s h =
      if_rule (λ (q : Connection). Follows a q) (is_due now s.blocking_timer)
        (λ e.
          let t = record s { blocking = false; blocking_timer = none } in
          Follows-SameTimers a s (report_state s.state t) (report_state-SameTimers s.state t) h)
        (λ e. h)
  step-Follows now closed a s h = h

  run_from-Follows :
      (ts : List (ℕ × Turn)) (a : Option Bool) (s : Connection)
      → Follows a s
      → Follows (latest_answer ts a) (run config ts s)
  unfolding run
  run_from-Follows [] a s h = h
  run_from-Follows ((now, t) ∷ ts) a s h =
      run_from-Follows ts (heard t a) (step config now t s) (step-Follows now t a s h)

  -- A timer that is over reports nothing that the latest answer contradicts.
  abbrev pub IsDebounced : Option Bool → ℕ → Connection → Type 0
  IsDebounced none now s = Unit
  IsDebounced (some true) now s =
      let t = fail_timer_over config now s in
      (t.emitted ≡ s.emitted) × (t.events ≡ s.events) × (t.channel_connected ≡ s.channel_connected)
  IsDebounced (some false) now s = ready_timer_over config now s ≡ s

  fail_channel-IsDebounced :
      (r f : Option ℕ) (now : ℕ) (s : Connection)
      → s.ready_timer ≡ r
      → s.fail_timer ≡ f
      → Timers (some true) r f
      → let t = if is_due now f then fail_channel config r s else s in
        (t.emitted ≡ s.emitted)
        × (t.events ≡ s.events)
        × (t.channel_connected ≡ s.channel_connected)
  unfolding fail_channel is_due
  fail_channel-IsDebounced r none now s e g h = (refl, refl, refl)
  fail_channel-IsDebounced none (some at) now s e g h = cc
  fail_channel-IsDebounced (some d) (some at) now s e g h =
      if_rule
        (λ (t : Connection).
          (t.emitted ≡ s.emitted)
          × (t.events ≡ s.events)
          × (t.channel_connected ≡ s.channel_connected))
        (is_due now (some at)) (λ x. (refl, refl, refl)) (λ x. (refl, refl, refl))

  ready_timer_over-IsDebounced :
      (r f : Option ℕ) (now : ℕ) (s : Connection)
      → s.ready_timer ≡ r
      → Timers (some false) r f
      → ready_timer_over config now s ≡ s
  unfolding ready_timer_over is_due
  ready_timer_over-IsDebounced none f now s e h = rw e refl
  ready_timer_over-IsDebounced (some at) f now s e h = cc

  Follows-IsDebounced :
      (a : Option Bool) (now : ℕ) (s : Connection) → Follows a s → IsDebounced a now s
  unfolding fail_timer_over
  Follows-IsDebounced none now s h = tt
  Follows-IsDebounced (some true) now s h =
      fail_channel-IsDebounced s.ready_timer s.fail_timer now s refl refl h
  Follows-IsDebounced (some false) now s h =
      ready_timer_over-IsDebounced s.ready_timer s.fail_timer now s refl h

  -- Whatever came before: when the latest answer reached the broker (a stream that opened, or a call answered with a
  -- result or with an error that is not one of the network), the fail timer reports no error and leaves the channel
  -- connected or not as it was; when it did not (a stream refused or failed, or a call that failed with an error of
  -- the network), the ready timer does nothing.
  pub run-IsDebounced :
      (ts : List (ℕ × Turn)) (now : ℕ)
      → IsDebounced (latest_answer ts none) now (run config ts (new_connection config))
  unfolding new_connection
  run-IsDebounced ts now =
      Follows-IsDebounced (latest_answer ts none) now (run config ts (new_connection config))
        (run_from-Follows ts none (new_connection config) tt)

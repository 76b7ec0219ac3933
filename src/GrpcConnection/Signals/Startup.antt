-- ===== src/GrpcConnection/Signals/Startup.antt =====
-- Nothing is reported before the startup deadline.
use camunda_8_js_sdk.Base.{
  ℕ, ◌≡◌, refl, subst, ◌∙◌, Bool, true, false, Option, none, some, List, [], ◌∷◌, ltb, if_rule,
}
use camunda_8_js_sdk.GrpcConnection.{State, error, connected, unknown}
use camunda_8_js_sdk.GrpcConnection.Signals.{
  Event, connection_error, is_ready, is_unknown, Config, Connection, lose_connection,
  on_connection_error, on_ready, emit_error, emit_ready, signal_error, signal_ready, report_state,
  is_due, startup_over, Turn, channel_ready, channel_failed, stream_opened, stream_refused,
  stream_failed, call_done, call_failed, ready_over, fail_over, deadline_over, closed, set_ready,
  start_fail_timer, set_not_ready, ready_timer_over, fail_channel, fail_timer_over, refuse_stream,
  fail_stream, answer_call, close, new_connection, step, run,
}

abbrev Silent : Bool → List Event → List Event → Option Bool → Bool → Type 0
Silent true emitted events is_connected readied =
    (emitted ≡ []) × (events ≡ []) × (is_connected ≡ none) × (readied ≡ false)
Silent false emitted events is_connected readied = Unit

abbrev IsSilent : Connection → Type 0
IsSilent s = Silent s.blocking s.emitted s.events s.is_connected s.readied

started-IsSilent : (s : Connection) → s.blocking ≡ false → IsSilent s
started-IsSilent s e = rw e tt

-- Nothing but the deadline ends the startup.
lose_connection-blocking :
    (c : Option Bool) (s : Connection) → (lose_connection c s).blocking ≡ s.blocking
unfolding lose_connection
lose_connection-blocking none s = refl
lose_connection-blocking (some true) s = refl
lose_connection-blocking (some false) s = refl

emit_error-blocking : (s : Connection) → (emit_error s).blocking ≡ s.blocking
unfolding emit_error on_connection_error
emit_error-blocking s =
    lose_connection-blocking s.is_connected
      (record s { emitted = connection_error ∷ s.emitted; readied = false })

emit_ready-blocking : (s : Connection) → (emit_ready s).blocking ≡ s.blocking
unfolding emit_ready on_ready
emit_ready-blocking s =
    if_rule (λ (q : Connection). q.blocking ≡ s.blocking) s.readied (λ e. refl) (λ e. refl)

report_state-blocking : (v : State) (s : Connection) → (report_state v s).blocking ≡ s.blocking
unfolding report_state
report_state-blocking error s = emit_error-blocking s
report_state-blocking connected s = emit_ready-blocking s
report_state-blocking unknown s = refl

signal_error-IsSilent : (s : Connection) → IsSilent s → IsSilent (signal_error s)
unfolding signal_error
signal_error-IsSilent s h =
    if_rule (λ (q : Connection). IsSilent q) s.blocking (λ e. h)
      (λ e.
        let t = record s { state = error } in
        started-IsSilent (emit_error t) (emit_error-blocking t ∙ e))

signal_ready-IsSilent : (s : Connection) → IsSilent s → IsSilent (signal_ready s)
unfolding signal_ready
signal_ready-IsSilent s h =
    if_rule (λ (q : Connection). IsSilent q) s.blocking (λ e. h)
      (λ e.
        let t = record s { state = connected } in
        started-IsSilent (emit_ready t) (emit_ready-blocking t ∙ e))

startup_over-IsSilent : (now : ℕ) (s : Connection) → IsSilent s → IsSilent (startup_over now s)
unfolding startup_over
startup_over-IsSilent now s h =
    if_rule (λ (q : Connection). IsSilent q) (is_due now s.blocking_timer)
      (λ e.
        let t = record s { blocking = false; blocking_timer = none } in
        started-IsSilent (report_state s.state t) (report_state-blocking s.state t))
      (λ e. h)

-- What the deadline reports.
abbrev pub Verdict : State → List Event → List Event → Type 0
Verdict error emitted events = (emitted ≡ connection_error ∷ []) × (events ≡ connection_error ∷ [])
Verdict connected emitted events = (emitted ≡ is_ready ∷ []) × (events ≡ is_ready ∷ [])
Verdict unknown emitted events = (emitted ≡ is_unknown ∷ []) × (events ≡ [])

report_state-Verdict :
    (v : State) (s : Connection)
    → Silent true s.emitted s.events s.is_connected s.readied
    → let t = report_state v s in Verdict v t.emitted t.events
unfolding report_state emit_error emit_ready on_connection_error on_ready lose_connection
report_state-Verdict error s (a, b, c, d) = rw (c, a, b) (refl, refl)
report_state-Verdict connected s (a, b, c, d) = rw (d, a, b) (refl, refl)
report_state-Verdict unknown s (a, b, c, d) = rw (a, b) (refl, refl)

module _ (config : Config) where
  start_fail_timer-IsSilent :
      (now : ℕ) (o : Option ℕ) (s : Connection)
      → IsSilent s
      → IsSilent (start_fail_timer config now o s)
  unfolding start_fail_timer
  start_fail_timer-IsSilent now none s h = h
  start_fail_timer-IsSilent now (some at) s h = h

  set_not_ready-IsSilent :
      (now : ℕ) (s : Connection) → IsSilent s → IsSilent (set_not_ready config now s)
  unfolding set_not_ready
  set_not_ready-IsSilent now s h =
      start_fail_timer-IsSilent now s.fail_timer
        (record s { ready_timer = none; channel_connected = false }) h

  fail_channel-IsSilent :
      (o : Option ℕ) (s : Connection) → IsSilent s → IsSilent (fail_channel config o s)
  unfolding fail_channel
  fail_channel-IsSilent none s h =
      signal_error-IsSilent (record s { fail_timer = none; channel_connected = false }) h
  fail_channel-IsSilent (some at) s h = h

  step-IsSilent :
      (now : ℕ) (t : Turn) (s : Connection) → IsSilent s → IsSilent (step config now t s)
  unfolding step refuse_stream fail_stream answer_call close set_ready ready_timer_over
      fail_timer_over
  step-IsSilent now channel_ready s h = signal_ready-IsSilent s h
  step-IsSilent now channel_failed s h = signal_error-IsSilent s h
  step-IsSilent now stream_opened s h = h
  step-IsSilent now stream_refused s h =
      set_not_ready-IsSilent now (signal_error s) (signal_error-IsSilent s h)
  step-IsSilent now stream_failed s h =
      set_not_ready-IsSilent now (signal_error s) (signal_error-IsSilent s h)
  step-IsSilent now call_done s h = signal_ready-IsSilent s h
  step-IsSilent now (call_failed true) s h = set_not_ready-IsSilent now s h
  step-IsSilent now (call_failed false) s h = h
  step-IsSilent now ready_over s h =
      if_rule (λ (q : Connection). IsSilent q) (is_due now s.ready_timer)
        (λ e.
          signal_ready-IsSilent
            (record s { fail_timer = none; ready_timer = none; channel_connected = true }) h)
        (λ e. h)
  step-IsSilent now fail_over s h =
      if_rule (λ (q : Connection). IsSilent q) (is_due now s.fail_timer)
        (λ e. fail_channel-IsSilent s.ready_timer s h) (λ e. h)
  step-IsSilent now deadline_over s h = startup_over-IsSilent now s h
  step-IsSilent now closed s h = h

  run_from-IsSilent :
      (ts : List (ℕ × Turn)) (s : Connection) → IsSilent s → IsSilent (run config ts s)
  unfolding run
  run_from-IsSilent [] s h = h
  run_from-IsSilent ((now, t) ∷ ts) s h =
      run_from-IsSilent ts (step config now t s) (step-IsSilent now t s h)

  new_connection-IsSilent : IsSilent (new_connection config)
  unfolding new_connection
  new_connection-IsSilent = elim (ltb 0 config.startup_time) as (λ b. Silent b [] [] none false) [
    | true ↦ (refl, refl, refl, refl)
    | false ↦ tt
  ]

  -- As long as the startup phase lasts, whatever happens, neither the gRPC client nor the Zeebe client emits an event;
  -- and the startup deadline then reports the latest state as the first event of both, or that it is unknown.
  pub run-IsSilent :
      (ts : List (ℕ × Turn)) (now : ℕ)
      → let s = run config ts (new_connection config) in
        s.blocking ≡ true
        → is_due now s.blocking_timer ≡ true
        → (s.emitted ≡ [])
          × (s.events ≡ [])
          × Verdict s.state (startup_over now s).emitted (startup_over now s).events
  unfolding startup_over
  run-IsSilent ts now lasts due =
      let s = run config ts (new_connection config) in
      let h =
        subst (λ b. Silent b s.emitted s.events s.is_connected s.readied) lasts
          (run_from-IsSilent ts (new_connection config) new_connection-IsSilent) in
      let (a, b, c, d) = h in
      (
        a,
        b,
        rw due
            (report_state-Verdict s.state (record s { blocking = false; blocking_timer = none }) h),
      )

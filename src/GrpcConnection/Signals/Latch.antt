-- ===== src/GrpcConnection/Signals/Latch.antt =====
-- The events that the application sees.
use camunda_8_js_sdk.Base.{
  ℕ, ◌≡◌, ◌≢◌, refl, sym, subst, Bool, true, false, Option, none, some, List, [], ◌∷◌,
  if◌then◌else◌, if_rule,
}
use camunda_8_js_sdk.GrpcConnection.{State, error, connected, unknown}
use camunda_8_js_sdk.GrpcConnection.Signals.{
  Event, connection_error, is_ready, Config, Connection, lose_connection, on_connection_error,
  on_ready, emit_error, emit_ready, signal_error, signal_ready, report_state, is_due, startup_over,
  Turn, channel_ready, channel_failed, stream_opened, stream_refused, stream_failed, call_done,
  call_failed, ready_over, fail_over, deadline_over, closed, set_ready, start_fail_timer,
  set_not_ready, ready_timer_over, fail_channel, fail_timer_over, refuse_stream, fail_stream,
  answer_call, close, new_connection, step, run,
}

abbrev pub Alternates : List Event → Type 0
Alternates [] = Unit
Alternates (e ∷ []) = Unit
Alternates (e ∷ f ∷ es) = (e ≢ f) × Alternates (f ∷ es)

abbrev pub event_of : Bool → Event
event_of true = is_ready
event_of false = connection_error

-- The client has emitted no event, or the latest one says whether it is connected.
abbrev pub Latched : Option Bool → Bool → List Event → Type 0
Latched none readied es = (readied ≡ false) × (es ≡ [])
Latched (some b) readied [] = ⊥
Latched (some b) readied (e ∷ es) = (readied ≡ b) × (e ≡ event_of b) × Alternates (e ∷ es)

abbrev pub IsLatched : Connection → Type 0
IsLatched s = Latched s.is_connected s.readied s.events

connection_error-is_ready : connection_error ≢ is_ready
connection_error-is_ready e = cc

is_ready-connection_error : is_ready ≢ connection_error
is_ready-connection_error e = cc

-- What each event finds.
Alternates-connection_error :
    (r : Bool) (es : List Event) → Latched (some true) r es → Alternates (connection_error ∷ es)
Alternates-connection_error r [] h = absurd h
Alternates-connection_error r (e ∷ es) (a, b, d) =
    (subst (λ x. connection_error ≢ x) (sym b) connection_error-is_ready, d)

Latched-still_lost :
    (r : Bool) (es : List Event) → Latched (some false) r es → Latched (some false) false es
Latched-still_lost r [] h = absurd h
Latched-still_lost r (e ∷ es) (a, b, d) = (refl, b, d)

Alternates-is_ready :
    (c : Option Bool) (es : List Event) → Latched c false es → Alternates (is_ready ∷ es)
Alternates-is_ready none es (a, b) = rw b tt
Alternates-is_ready (some b) [] h = absurd h
Alternates-is_ready (some true) (e ∷ es) (a, b, d) = cc
Alternates-is_ready (some false) (e ∷ es) (a, b, d) =
    (subst (λ x. is_ready ≢ x) (sym b) is_ready-connection_error, d)

Latched-still_ready :
    (c : Option Bool) (es : List Event) → Latched c true es → Latched (some true) true es
Latched-still_ready none es (a, b) = cc
Latched-still_ready (some b) [] h = absurd h
Latched-still_ready (some true) (e ∷ es) h = h
Latched-still_ready (some false) (e ∷ es) (a, b, d) = cc

lose_connection-IsLatched :
    (c : Option Bool) (s : Connection) (r : Bool)
    → Latched c r s.events
    → s.is_connected ≡ c
    → s.readied ≡ false
    → IsLatched (lose_connection c s)
unfolding lose_connection
lose_connection-IsLatched none s r (a, b) e f = rw b (f, refl, tt)
lose_connection-IsLatched (some true) s r h e f =
    (f, refl, Alternates-connection_error r s.events h)
lose_connection-IsLatched (some false) s r h e f = rw (e, f) (Latched-still_lost r s.events h)

on_connection_error-IsLatched : (s : Connection) → IsLatched s → IsLatched (on_connection_error s)
unfolding on_connection_error
on_connection_error-IsLatched s h =
    lose_connection-IsLatched s.is_connected (record s { readied = false }) s.readied h refl refl

on_ready_case :
    (b : Bool) (s : Connection)
    → Latched s.is_connected b s.events
    → let t = record s { is_connected = some true; readied = true } in
      IsLatched (if b then t else record t { events = is_ready ∷ t.events })
on_ready_case true s h = Latched-still_ready s.is_connected s.events h
on_ready_case false s h = (refl, refl, Alternates-is_ready s.is_connected s.events h)

on_ready-IsLatched : (s : Connection) → IsLatched s → IsLatched (on_ready s)
unfolding on_ready
on_ready-IsLatched s h = on_ready_case s.readied s h

-- The middleware passes a signal on, or does not.
signal_error-IsLatched : (s : Connection) → IsLatched s → IsLatched (signal_error s)
unfolding signal_error emit_error
signal_error-IsLatched s h =
    if_rule (λ (q : Connection). IsLatched q) s.blocking (λ e. h)
      (λ e.
        on_connection_error-IsLatched
          (record s { state = error; emitted = connection_error ∷ s.emitted }) h)

signal_ready-IsLatched : (s : Connection) → IsLatched s → IsLatched (signal_ready s)
unfolding signal_ready emit_ready
signal_ready-IsLatched s h =
    if_rule (λ (q : Connection). IsLatched q) s.blocking (λ e. h)
      (λ e. on_ready-IsLatched (record s { state = connected; emitted = is_ready ∷ s.emitted }) h)

report_state-IsLatched : (v : State) (s : Connection) → IsLatched s → IsLatched (report_state v s)
unfolding report_state emit_error emit_ready
report_state-IsLatched error s h =
    on_connection_error-IsLatched (record s { emitted = connection_error ∷ s.emitted }) h
report_state-IsLatched connected s h =
    on_ready-IsLatched (record s { emitted = is_ready ∷ s.emitted }) h
report_state-IsLatched unknown s h = h

module _ (config : Config) where
  start_fail_timer-IsLatched :
      (now : ℕ) (o : Option ℕ) (s : Connection)
      → IsLatched s
      → IsLatched (start_fail_timer config now o s)
  unfolding start_fail_timer
  start_fail_timer-IsLatched now none s h = h
  start_fail_timer-IsLatched now (some at) s h = h

  set_not_ready-IsLatched :
      (now : ℕ) (s : Connection) → IsLatched s → IsLatched (set_not_ready config now s)
  unfolding set_not_ready
  set_not_ready-IsLatched now s h =
      start_fail_timer-IsLatched now s.fail_timer
        (record s { ready_timer = none; channel_connected = false }) h

  fail_channel-IsLatched :
      (o : Option ℕ) (s : Connection) → IsLatched s → IsLatched (fail_channel config o s)
  unfolding fail_channel
  fail_channel-IsLatched none s h =
      signal_error-IsLatched (record s { fail_timer = none; channel_connected = false }) h
  fail_channel-IsLatched (some at) s h = h

  step-IsLatched :
      (now : ℕ) (t : Turn) (s : Connection) → IsLatched s → IsLatched (step config now t s)
  unfolding step refuse_stream fail_stream answer_call close set_ready ready_timer_over
      fail_timer_over startup_over
  step-IsLatched now channel_ready s h = signal_ready-IsLatched s h
  step-IsLatched now channel_failed s h = signal_error-IsLatched s h
  step-IsLatched now stream_opened s h = h
  step-IsLatched now stream_refused s h =
      set_not_ready-IsLatched now (signal_error s) (signal_error-IsLatched s h)
  step-IsLatched now stream_failed s h =
      set_not_ready-IsLatched now (signal_error s) (signal_error-IsLatched s h)
  step-IsLatched now call_done s h = signal_ready-IsLatched s h
  step-IsLatched now (call_failed true) s h = set_not_ready-IsLatched now s h
  step-IsLatched now (call_failed false) s h = h
  step-IsLatched now ready_over s h =
      if_rule (λ (q : Connection). IsLatched q) (is_due now s.ready_timer)
        (λ e.
          signal_ready-IsLatched
            (record s { fail_timer = none; ready_timer = none; channel_connected = true }) h)
        (λ e. h)
  step-IsLatched now fail_over s h =
      if_rule (λ (q : Connection). IsLatched q) (is_due now s.fail_timer)
        (λ e. fail_channel-IsLatched s.ready_timer s h) (λ e. h)
  step-IsLatched now deadline_over s h =
      if_rule (λ (q : Connection). IsLatched q) (is_due now s.blocking_timer)
        (λ e.
          report_state-IsLatched s.state (record s { blocking = false; blocking_timer = none }) h)
        (λ e. h)
  step-IsLatched now closed s h = h

  run_from-IsLatched :
      (ts : List (ℕ × Turn)) (s : Connection) → IsLatched s → IsLatched (run config ts s)
  unfolding run
  run_from-IsLatched [] s h = h
  run_from-IsLatched ((now, t) ∷ ts) s h =
      run_from-IsLatched ts (step config now t s) (step-IsLatched now t s h)

  -- Whatever the channel answers and whenever the timers are over: `ready` and `connectionError` alternate among the
  -- events that the Zeebe client emits, and the latest one says whether the client takes itself to be connected.
  pub run-IsLatched : (ts : List (ℕ × Turn)) → IsLatched (run config ts (new_connection config))
  unfolding new_connection
  run-IsLatched ts = run_from-IsLatched ts (new_connection config) (refl, refl)

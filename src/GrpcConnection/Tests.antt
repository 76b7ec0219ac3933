-- ===== src/GrpcConnection/Tests.antt =====
-- Runs of a connection and of the retries, and the claims at concrete inputs.
use camunda_8_js_sdk.Base.{
  ℕ, zero, suc, ◌≡◌, refl, Bool, true, false, none, some, List, [], ◌∷◌, ◌++◌, map, leb, arith,
}
use camunda_8_js_sdk.GrpcConnection.{State, error, connected, unknown}
use camunda_8_js_sdk.GrpcConnection.Log.{
  Message, message, Line, info_line, error_line, Loglevel, info_level, Interceptor, logs_info,
  logs_error, becomes_ready, deadline_over as log_deadline_over, new_interceptor, run as run_log,
  step as step_log, log_info, log_error, ready, deadline, end_blocking, empty_logs, empty_errors,
  flush_logs, flush_errors, log_direct, establish, is_error, is_debug, is_zbclient, print_info,
  print_error,
}
use camunda_8_js_sdk.GrpcConnection.Log.Kept.{infos, errors_of, lines, Ends, run-Ends}
use camunda_8_js_sdk.GrpcConnection.Signals.{
  connection_error, is_ready, Config, lose_connection, on_connection_error, on_ready, emit_error,
  emit_ready, signal_error, signal_ready, report_state, is_due, startup_over, Turn, stream_opened,
  stream_failed, call_done, call_failed, ready_over, fail_over, set_ready, start_fail_timer,
  set_not_ready, ready_timer_over, fail_channel, fail_timer_over, refuse_stream, fail_stream,
  answer_call, new_connection, step, run,
}
use camunda_8_js_sdk.GrpcConnection.Signals.Latch.{IsLatched, run-IsLatched}
use camunda_8_js_sdk.GrpcConnection.Signals.Debounce.{latest_answer, IsDebounced, run-IsDebounced}
use camunda_8_js_sdk.GrpcConnection.Signals.Startup.{Verdict, run-IsSilent}
use camunda_8_js_sdk.GrpcConnection.Retry.{
  Failure, Call, returned, failed, rejects, at_most, Surroundings, executed_retries,
  is_network_error, is_backpressure, is_transient, has_code, tell_connection_error,
  count_connection_error, ask_retry, retry_or_throw, handle_failure, settle_call, attempt,
  next_attempt, retry_from, retry_on_failure,
}
use camunda_8_js_sdk.GrpcConnection.Retry.Ends.{Honours, EndsBy, retry_on_failure-EndsBy}

abbrev before_ready : List camunda_8_js_sdk.GrpcConnection.Log.Turn
before_ready = logs_info (message 1) ∷ logs_error (message 2) ∷ logs_info (message 3) ∷ []

run-Ends_example :
    Ends
      (map info_line (infos before_ready) ++ lines (becomes_ready ∷ []))
      []
      (errors_of before_ready)
      (run_log
        (before_ready ++ (becomes_ready ∷ becomes_ready ∷ []))
        (new_interceptor 6000 info_level))
    × Ends
        (map error_line (errors_of before_ready) ++ lines (becomes_ready ∷ []))
        (infos before_ready)
        []
        (run_log
          (before_ready ++ (log_deadline_over ∷ becomes_ready ∷ []))
          (new_interceptor 6000 info_level))
run-Ends_example = run-Ends before_ready (becomes_ready ∷ []) 6000 (ground arith) tt

logged : Unit {0}
unfolding run_log step_log log_info log_error ready deadline end_blocking empty_logs empty_errors
    flush_logs flush_errors log_direct establish is_error is_debug is_zbclient print_info
    print_error new_interceptor
logged =
    let shown : (run_log (before_ready ++ (log_deadline_over ∷ (becomes_ready ∷ [])))
          (new_interceptor 6000 info_level)).printed
        ≡ error_line (message 2) ∷ [] =
      refl in
    tt

abbrev cloud : Config
cloud = record { connection_tolerance = 3000; startup_time = 6000 }

abbrev vanilla : Config
vanilla = record { connection_tolerance = 3000; startup_time = 0 }

-- A call succeeds, the network goes away, and comes back before the tolerance is over.
abbrev flicker : List (ℕ × Turn)
flicker =
    (100, call_done)
    ∷ (3100, ready_over)
    ∷ (4000, call_failed true)
    ∷ (5000, call_done)
    ∷ (7000, fail_over)
    ∷ []

-- The stream breaks: the error is emitted at once.
abbrev broken_stream : List (ℕ × Turn)
broken_stream =
    (100, stream_opened)
    ∷ (3100, ready_over)
    ∷ (4000, stream_failed)
    ∷ (7000, fail_over)
    ∷ (7100, call_done)
    ∷ []

signals : Unit {0}
unfolding run step refuse_stream fail_stream answer_call new_connection set_ready set_not_ready
    start_fail_timer ready_timer_over fail_channel fail_timer_over is_due signal_error signal_ready
    emit_error emit_ready on_ready on_connection_error lose_connection startup_over report_state
signals =
    let flickers : (run vanilla flicker (new_connection vanilla)).events ≡ is_ready ∷ [] = refl in
    let breaks : (run vanilla broken_stream (new_connection vanilla)).events
        ≡ is_ready ∷ connection_error ∷ is_ready ∷ [] =
      refl in
    let emits : (run vanilla broken_stream (new_connection vanilla)).emitted
        ≡ is_ready ∷ connection_error ∷ connection_error ∷ is_ready ∷ [] =
      refl in
    let held_back : (run cloud flicker (new_connection cloud)).events ≡ [] = refl in tt

run-IsLatched_example : IsLatched (run vanilla broken_stream (new_connection vanilla))
run-IsLatched_example = run-IsLatched vanilla broken_stream

run-IsDebounced_example :
    IsDebounced vanilla
      (latest_answer flicker none)
      7000
      (run vanilla flicker (new_connection vanilla))
run-IsDebounced_example = run-IsDebounced vanilla flicker 7000

run-IsSilent_example :
    let s = run cloud flicker (new_connection cloud) in
    (s.emitted ≡ [])
    × (s.events ≡ [])
    × Verdict s.state (startup_over 6000 s).emitted (startup_over 6000 s).events
unfolding run step refuse_stream fail_stream answer_call new_connection set_ready set_not_ready
    start_fail_timer ready_timer_over fail_channel fail_timer_over is_due signal_error signal_ready
    emit_error emit_ready on_ready on_connection_error lose_connection startup_over report_state
run-IsSilent_example = run-IsSilent cloud flicker 6000 refl refl

-- The operation finds the gateway away, then its token is refused twice.
abbrev unavailable : Failure
unavailable = record {
  starts_with_14 = true;
  starts_with_8 = false;
  starts_with_16 = false;
  has_stream_removed = false;
  has_partition = false;
  code = some 14;
}

abbrev unauthenticated : Failure
unauthenticated = record {
  starts_with_14 = false;
  starts_with_8 = false;
  starts_with_16 = true;
  has_stream_removed = false;
  has_partition = false;
  code = some 16;
}

unfoldable replies : ℕ → Call ℕ
replies zero = returned 0
replies (suc zero) = failed unavailable
replies (suc (suc n)) = failed unauthenticated

unfoldable gateway : Surroundings ℕ
unfolding replies
gateway = record { closed_before = λ n. false; closed_after = λ n. false; operation = replies }

abbrev five_retries : ℕ → Bool
five_retries n = leb n 5

five_retries-Honours : Honours five_retries (executed_retries true (at_most 5))
unfolding executed_retries
five_retries-Honours n h = ground arith

retried : Unit {0}
unfolding gateway replies executed_retries is_network_error is_backpressure is_transient has_code
    tell_connection_error count_connection_error ask_retry retry_or_throw handle_failure settle_call
    attempt next_attempt retry_from retry_on_failure
retried =
    let twice_refused : retry_on_failure five_retries gateway 6
        ≡ some (record {
          reply = rejects unauthenticated;
          call = 3;
          attempts = record {
            connection_error_count = 1;
            auth_failures = 1;
            connection_errors_told = 0;
            retried = unauthenticated ∷ unavailable ∷ [];
          };
        }) =
      refl in
    tt

retry_on_failure-EndsBy_example : EndsBy gateway 6 (retry_on_failure five_retries gateway 6)
unfolding executed_retries
retry_on_failure-EndsBy_example =
    retry_on_failure-EndsBy gateway five_retries true (at_most 5) 5 refl five_retries-Honours

-- ===== src/GrpcWorker/Tests.antt =====
-- Runs of a gRPC worker, and instances of the theorems on them.
use camunda_8_js_sdk.Base.{
  ℕ, zero, suc, ◌+◌, ◌≤◌, ◌≡◌, refl, Bool, true, false, none, List, [], ◌∷◌, length, min, arith,
  ltb,
}
use camunda_8_js_sdk.GrpcWorker.{
  Config, no_stream, Worker, new_worker, emit, poll, stream_opened, open_failed, handle_stream_end,
  stream_error, stream_backoff_over, backoff_timeout_over, fail_unparsed, handle_job_response,
  resolve_close, drain_one, close, complete, cancel_workflow, returned, raised, act, act_all,
  handle_exception, Ending, handler_ended, late_error,
}
use camunda_8_js_sdk.GrpcWorker.Step.{
  Turn, poll_interval, opened, stream_ended, stream_failed_late, close_called, response, job_ended,
  respond, step, run,
}
use camunda_8_js_sdk.GrpcWorker.Accounts.{
  AllOrderly, IsAccounted, closes, unparsed, drains, run-IsAccounted,
}
use camunda_8_js_sdk.GrpcWorker.Balance.{handler_ended-balance}

everything : Unit {0}
unfolding run step respond poll stream_opened open_failed handle_stream_end stream_error
    stream_backoff_over emit backoff_timeout_over fail_unparsed handle_job_response resolve_close
    drain_one close act act_all handle_exception handler_ended late_error new_worker
everything = tt

-- A server with `seed` jobs, all of which parse but the last.
abbrev jobs_of : ℕ → List Bool
jobs_of zero = []
jobs_of (suc n) = ltb 0 n ∷ jobs_of n

abbrev served : ℕ → ℕ → List Bool
served outstanding seed = jobs_of (min outstanding seed)

length-jobs_of : (n : ℕ) → length (jobs_of n) ≡ n
length-jobs_of zero = refl
length-jobs_of (suc n) = omega (arith, length-jobs_of n)

served_within : (n seed : ℕ) → length (served n seed) ≤ n
served_within n seed = omega (arith, length-jobs_of (min n seed))

abbrev config : Config
config = record {
  max_jobs_to_activate = 10;
  threshold = 3;
  max_backoff_ms = 15000;
  cancel_workflow_on_exception = false;
}

-- A handler that cancels the workflow and then completes the job.
abbrev cancelled_and_completed : Ending
cancelled_and_completed = record { actions = cancel_workflow ∷ complete ∷ []; exit = returned }

abbrev turns : List Turn
turns =
    poll_interval
    ∷ opened
    ∷ response 2
    ∷ stream_ended
    ∷ stream_failed_late true
    ∷ job_ended cancelled_and_completed
    ∷ close_called
    ∷ []

-- The close waits for the job that was refused.
stays_open : closes (run served config new_worker turns).events ≡ 0
unfolding everything
stays_open = refl

-- The next request is under way when a stream that has ended fails: the mutex is released.
late_turns :
    (run served config new_worker (
      poll_interval
      ∷ opened
      ∷ stream_ended
      ∷ poll_interval
      ∷ stream_failed_late false
      ∷ [])).poll_mutex
    ≡ false
unfolding everything
late_turns = refl

orderly : AllOrderly served config new_worker turns
unfolding everything
orderly = (tt, (tt, (tt, (tt, (refl, (refl, (tt, tt)))))))

run-IsAccounted_example : IsAccounted config (run served config new_worker turns)
run-IsAccounted_example = run-IsAccounted served served_within config (omega arith) turns orderly

abbrev busy : Worker
busy = record {
  added = 4;
  drained = 1;
  poll_mutex = false;
  opening = none;
  job_stream = no_stream;
  poll_loop = true;
  backoff_timeout = false;
  stream_backoffs = 0;
  back_pressure_retry_count = 0;
  closing = false;
  awaits_empty = false;
  running = 3;
  events = [];
}

-- A handler whose `complete` was refused because the job is gone, and that did not catch this.
abbrev refused : Ending
refused = record { actions = complete ∷ []; exit = raised true }

abbrev cancelled : Ending
cancelled = record { actions = cancel_workflow ∷ []; exit = returned }

-- One job too few is counted after the one, and one too many after the other.
refused_count : (handler_ended config refused busy).drained ≡ 3
unfolding everything
refused_count = refl

cancelled_count : (handler_ended config cancelled busy).drained ≡ 1
unfolding everything
cancelled_count = refl

handler_ended-balance_example :
    ((handler_ended config refused busy).added ≡ busy.added)
    × ((handler_ended config refused busy).running + 1 ≡ busy.running)
    × ((handler_ended config refused busy).added + drains refused
        ≡ (handler_ended config refused busy).drained
          + (handler_ended config refused busy).running
          + unparsed (handler_ended config refused busy).events
          + 1)
handler_ended-balance_example = handler_ended-balance config refused busy (omega arith) refl

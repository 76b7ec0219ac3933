-- ===== src/CamundaJobWorker/Tests.antt =====
-- Runs of a job worker, and instances of the theorems on them.
use camunda_8_js_sdk.Base.{ℕ, ◌≡◌, ◌≢◌, ◌≤◌, refl, false, List, [], ◌∷◌, arith, min, All}
use camunda_8_js_sdk.CamundaJobWorker.{
  Config, Worker, Turn, start_called, stop_called, interval, handler_done, answered, failed, emit,
  new_worker, poll, start, stop, poll_at, poll_over, jobs_activated, poll_failed, backoff_fired,
  handler_settled, answer, fail, step, run, request_jobs, await_drain, cancel_poll,
}
use camunda_8_js_sdk.CamundaJobWorker.Capacity.{IsBounded, run-IsBounded}
use camunda_8_js_sdk.CamundaJobWorker.Restart.{requests, IsLive, stop-IsStuck, run-IsLive}

everything : Unit {0}
unfolding run step start stop poll answer fail backoff_fired handler_settled emit cancel_poll
    await_drain poll_at poll_over jobs_activated poll_failed request_jobs new_worker
everything = tt

abbrev config : Config
config = record { max_jobs_to_activate = 10; max_backoff_time_ms = 15000 }

-- A server that has `seed` jobs.
abbrev server : ℕ → ℕ → ℕ
server max_jobs seed = min max_jobs seed

server_within : (max_jobs seed : ℕ) → server max_jobs seed ≤ max_jobs
server_within max_jobs seed = omega arith

abbrev turns : List Turn
turns = start_called ∷ answered 0 7 ∷ handler_done ∷ interval ∷ failed 0 false ∷ []

abbrev backing_off : Worker
backing_off = run server config new_worker turns

run-IsBounded_example : IsBounded config backing_off
run-IsBounded_example = run-IsBounded server server_within config turns

stop-IsStuck_example :
    requests
      (run server config backing_off
        (stop_called ∷ handler_done ∷ start_called ∷ interval ∷ [])).events
    ≡ requests backing_off.events
unfolding everything
stop-IsStuck_example =
    stop-IsStuck server config backing_off (handler_done ∷ start_called ∷ interval ∷ [])
      (run-IsBounded server server_within config turns) refl

unstopped : All (λ t. t ≢ stop_called) turns
unstopped = (λ e. cc, (λ e. cc, (λ e. cc, (λ e. cc, (λ e. cc, tt)))))

run-IsLive_example : IsLive (run server config new_worker turns)
run-IsLive_example = run-IsLive server config turns unstopped

-- ===== src/CamundaJobWorker/Capacity.antt =====
-- The worker never holds more jobs than `maxJobsToActivate`, and polls once at a time.
use camunda_8_js_sdk.Base.{
  ℕ, zero, suc, ◌+◌, ◌-◌, ◌≤◌, ◌≡◌, refl, Bool, false, Option, none, some, List, [], ◌∷◌, ◌++◌,
  if◌then◌else◌, arith, length, length-append,
}
use camunda_8_js_sdk.CamundaJobWorker.{
  Config, Worker, Turn, start_emitted, start_called, stop_called, interval, backoff_due,
  handler_done, drain_check, deadline, answered, failed, emit, new_worker, poll, start, stop,
  poll_at, poll_over, jobs_activated, poll_failed, backoff_fired, handler_settled, wait_checked,
  deadline_passed, answer, fail, step, run, request_jobs, await_drain, cancel_poll,
}

abbrev pub total : List ℕ → ℕ
total [] = 0
total (p ∷ ps) = p + total ps

total-append : (ps : List ℕ) (p : ℕ) → total (ps ++ p ∷ []) ≡ total ps + p
total-append [] p = omega arith
total-append (q ∷ ps) p = omega (arith, total-append ps p)

total_zero : (ps : List ℕ) → length ps ≡ 0 → total ps ≡ 0
total_zero [] e = refl
total_zero (p ∷ ps) e = cc

pub total-poll_over :
    (i : ℕ) (ps : List ℕ) (p : ℕ)
    → poll_at i ps ≡ some p
    → (total (poll_over i ps) + p ≡ total ps) × (length (poll_over i ps) + 1 ≡ length ps)
unfolding poll_at poll_over
total-poll_over i [] p e = cc
total-poll_over zero (q ∷ ps) p e = ground arith
total-poll_over (suc i) (q ∷ ps) p e = ground (arith, total-poll_over i ps p e)

-- The counter counts the handlers that run; they and the jobs asked for stay within the limit; and
-- the lock is held by one poll or one backoff timer at most, which there are none of without it.
pub record IsBounded (config : Config) (w : Worker) : Type 0 where
  pub counted : w.currently_active_job_count ≡ w.running
  pub within : w.running + total w.polls ≤ config.max_jobs_to_activate
  pub single : length w.polls + (if w.backoff_timer then 1 else 0) ≤ (if w.poll_lock then 1 else 0)

module _ (config : Config) where
  poll-IsBounded : (w : Worker) → IsBounded config w → IsBounded config (poll config w)
  unfolding poll emit request_jobs
  poll-IsBounded w h = ground (
    arith,
    total_zero w.polls,
    total-append w.polls (config.max_jobs_to_activate - w.currently_active_job_count),
    length-append w.polls ((config.max_jobs_to_activate - w.currently_active_job_count) ∷ []),
  )

module _ (activate_jobs : (max_jobs seed : ℕ) → ℕ)
    (within_request : (max_jobs seed : ℕ) → activate_jobs max_jobs seed ≤ max_jobs)
    (config : Config) where
  answer-IsBounded :
      (i seed : ℕ) (w : Worker) (p : Option ℕ)
      → poll_at i w.polls ≡ p
      → IsBounded config w
      → IsBounded config (answer activate_jobs i seed w p)
  unfolding answer jobs_activated emit
  answer-IsBounded i seed w none e h = h
  answer-IsBounded i seed w (some p) e h =
      ground (arith, total-poll_over i w.polls p e, within_request p seed)

  fail-IsBounded :
      (i : ℕ) (canceled : Bool) (w : Worker) (p : Option ℕ)
      → poll_at i w.polls ≡ p
      → IsBounded config w
      → IsBounded config (fail config i canceled w p)
  unfolding fail poll_failed emit
  fail-IsBounded i canceled w none e h = h
  fail-IsBounded i canceled w (some p) e h = ground (arith, total-poll_over i w.polls p e)

  step-IsBounded :
      (w : Worker) (t : Turn)
      → IsBounded config w
      → IsBounded config (step activate_jobs config w t)
  unfolding step start stop backoff_fired handler_settled wait_checked deadline_passed emit
      cancel_poll await_drain
  step-IsBounded w start_called h =
      ground (arith, poll-IsBounded config (record (emit start_emitted w) { stopping = false }))
  step-IsBounded w stop_called h = ground arith
  step-IsBounded w interval h = ground (arith, poll-IsBounded config w h)
  step-IsBounded w backoff_due h =
      ground (arith, poll-IsBounded config (record w { backoff_timer = false; poll_lock = false }))
  step-IsBounded w handler_done h = ground arith
  step-IsBounded w drain_check h = ground arith
  step-IsBounded w deadline h = ground arith
  step-IsBounded w (answered i seed) h = answer-IsBounded i seed w (poll_at i w.polls) refl h
  step-IsBounded w (failed i canceled) h = fail-IsBounded i canceled w (poll_at i w.polls) refl h

  run-IsBounded_from :
      (w : Worker) (ts : List Turn)
      → IsBounded config w
      → IsBounded config (run activate_jobs config w ts)
  unfolding run
  run-IsBounded_from w [] h = h
  run-IsBounded_from w (t ∷ ts) h =
      run-IsBounded_from (step activate_jobs config w t) ts (step-IsBounded w t h)

  -- Where the server sends at most as many jobs as were asked for, whatever the order of starts,
  -- stops, timers, answers, failures and finished handlers: the counter is the number of handlers
  -- that run, these and the jobs asked for are at most `maxJobsToActivate`, and there is at most
  -- one unanswered poll or backoff timer, and none without the poll lock.
  pub run-IsBounded : (ts : List Turn) → IsBounded config (run activate_jobs config new_worker ts)
  unfolding new_worker
  run-IsBounded ts =
      run-IsBounded_from new_worker ts
        (record { counted = refl; within = omega arith; single = omega arith })

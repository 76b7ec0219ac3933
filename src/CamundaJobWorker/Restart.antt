-- ===== src/CamundaJobWorker/Restart.antt =====
-- When the worker can poll again: always before a `stop`, and never again after a `stop` that comes
-- while it backs off.
use camunda_8_js_sdk.Base.{
  ℕ, suc, ◌+◌, ◌-◌, ◌≡◌, ◌≢◌, refl, ◌∙◌, Bool, true, false, Option, none, some, List, [], ◌∷◌,
  if◌then◌else◌, arith, length, length-append, All,
}
use camunda_8_js_sdk.CamundaJobWorker.{
  Config, Worker, Event, start_emitted, jobs_requested, Turn, start_called, stop_called, interval,
  backoff_due, handler_done, drain_check, deadline, answered, failed, emit, new_worker, poll, start,
  stop, poll_at, jobs_activated, poll_failed, backoff_fired, handler_settled, wait_checked,
  deadline_passed, answer, fail, step, run, request_jobs, await_drain, cancel_poll,
}
use camunda_8_js_sdk.CamundaJobWorker.Capacity.{IsBounded, total-poll_over}

-- How often jobs were requested.
abbrev pub requests : List Event → ℕ
requests [] = 0
requests (jobs_requested n ∷ events) = suc (requests events)
requests (_ ∷ events) = requests events

-- The lock is held, and nothing is left that would give it back.
abbrev IsStuck : Worker → Type 0
IsStuck w = (w.poll_lock ≡ true) × (w.backoff_timer ≡ false) × (w.polls ≡ [])

-- The worker is not stopping, and the lock is held exactly as long as a poll or a backoff timer
-- will give it back.
abbrev pub IsLive : Worker → Type 0
IsLive w =
    (w.stopping ≡ false)
    × (length w.polls + (if w.backoff_timer then 1 else 0) ≡ (if w.poll_lock then 1 else 0))

length_zero : (ps : List ℕ) → length ps ≡ 0 → ps ≡ []
length_zero [] e = refl
length_zero (p ∷ ps) e = cc

module _ (activate_jobs : (max_jobs seed : ℕ) → ℕ) (config : Config) where
  step-IsStuck :
      (w : Worker) (t : Turn)
      → IsStuck w
      → IsStuck (step activate_jobs config w t)
        × (requests (step activate_jobs config w t).events ≡ requests w.events)
  unfolding step start stop poll answer fail backoff_fired handler_settled wait_checked
      deadline_passed emit cancel_poll await_drain poll_at
  step-IsStuck w start_called h = ground arith
  step-IsStuck w stop_called h = ground arith
  step-IsStuck w interval h = ground arith
  step-IsStuck w backoff_due h = ground arith
  step-IsStuck w handler_done h = ground arith
  step-IsStuck w drain_check h = ground arith
  step-IsStuck w deadline h = ground arith
  step-IsStuck w (answered i seed) h = ground arith
  step-IsStuck w (failed i canceled) h = ground arith

  run-IsStuck :
      (w : Worker) (ts : List Turn)
      → IsStuck w
      → requests (run activate_jobs config w ts).events ≡ requests w.events
  unfolding run
  run-IsStuck w [] h = refl
  run-IsStuck w (t ∷ ts) h =
      let (stuck, same) = step-IsStuck w t h in
      run-IsStuck (step activate_jobs config w t) ts stuck ∙ same

  -- Where a worker is stopped while it backs off from a failed poll, it never requests jobs again,
  -- however often it is started and whatever else happens: `stop()` clears the timer that would
  -- have given the poll lock back.
  pub stop-IsStuck :
      (w : Worker) (ts : List Turn)
      → IsBounded config w
      → w.backoff_timer ≡ true
      → requests (run activate_jobs config w (stop_called ∷ ts)).events ≡ requests w.events
  unfolding run step stop emit cancel_poll await_drain
  stop-IsStuck w ts h e =
      let idle = length_zero w.polls (ground (arith, h.single)) in
      run-IsStuck (stop w) ts (ground (arith, h.single)) ∙ ground arith

  poll-IsLive : (w : Worker) → IsLive w → IsLive (poll config w)
  unfolding poll emit request_jobs
  poll-IsLive w h = ground (
    arith,
    length-append w.polls ((config.max_jobs_to_activate - w.currently_active_job_count) ∷ []),
  )

  answer-IsLive :
      (i seed : ℕ) (w : Worker) (p : Option ℕ)
      → poll_at i w.polls ≡ p
      → IsLive w
      → IsLive (answer activate_jobs i seed w p)
  unfolding answer jobs_activated emit
  answer-IsLive i seed w none e h = h
  answer-IsLive i seed w (some p) e h = ground (arith, total-poll_over i w.polls p e)

  fail-IsLive :
      (i : ℕ) (canceled : Bool) (w : Worker) (p : Option ℕ)
      → poll_at i w.polls ≡ p
      → IsLive w
      → IsLive (fail config i canceled w p)
  unfolding fail poll_failed emit
  fail-IsLive i canceled w none e h = h
  fail-IsLive i canceled w (some p) e h = ground (arith, total-poll_over i w.polls p e)

  step-IsLive :
      (w : Worker) (t : Turn) → t ≢ stop_called → IsLive w → IsLive (step activate_jobs config w t)
  unfolding step start backoff_fired handler_settled wait_checked deadline_passed emit
  step-IsLive w start_called n h =
      ground (arith, poll-IsLive (record (emit start_emitted w) { stopping = false }))
  step-IsLive w stop_called n h = absurd (n refl)
  step-IsLive w interval n h = ground (arith, poll-IsLive w h)
  step-IsLive w backoff_due n h =
      ground (arith, poll-IsLive (record w { backoff_timer = false; poll_lock = false }))
  step-IsLive w handler_done n h = ground arith
  step-IsLive w drain_check n h = ground arith
  step-IsLive w deadline n h = ground arith
  step-IsLive w (answered i seed) n h = answer-IsLive i seed w (poll_at i w.polls) refl h
  step-IsLive w (failed i canceled) n h = fail-IsLive i canceled w (poll_at i w.polls) refl h

  run-IsLive_from :
      (w : Worker) (ts : List Turn)
      → All (λ t. t ≢ stop_called) ts
      → IsLive w
      → IsLive (run activate_jobs config w ts)
  unfolding run
  run-IsLive_from w [] all h = h
  run-IsLive_from w (t ∷ ts) (n, all) h =
      run-IsLive_from (step activate_jobs config w t) ts all (step-IsLive w t n h)

  -- As long as `stop()` is not called, whatever the order of starts, timers, answers, failures and
  -- finished handlers: the poll lock is held exactly while there is one unanswered poll or one
  -- backoff timer, which gives it back, so the worker is never locked out of polling.
  pub run-IsLive :
      (ts : List Turn)
      → All (λ t. t ≢ stop_called) ts
      → IsLive (run activate_jobs config new_worker ts)
  unfolding new_worker
  run-IsLive ts all = run-IsLive_from new_worker ts all (refl, refl)

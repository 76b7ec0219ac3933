-- ===== src/CamundaJobWorker.antt =====
-- src/c8/lib/CamundaJobWorker.ts: the REST job worker, one turn of the event loop at a time. The
-- server and the job handlers answer by turns. Listeners are not modelled; what is emitted is.
pub mod Capacity
pub mod Restart
mod Tests
use camunda_8_js_sdk.Base.{
  ℕ, zero, suc, ◌+◌, ◌-◌, ◌*◌, Bool, true, false, not, ◌&&◌, ◌||◌, Option, none, some, List, [],
  ◌∷◌, ◌++◌, if◌then◌else◌, ◌==◌, leb, ltb, min,
}

pub record Config : Type 0 where
  pub max_jobs_to_activate : ℕ
  pub max_backoff_time_ms : ℕ

-- What the worker emits, requests and sets, and how `stop` promises settle.
pub data Event : Type 0 where
  start_emitted : Event
  poll_emitted : (currently_active : ℕ) → Event
  jobs_requested : (max_jobs : ℕ) → Event
  poll_cancelled : Event
  work_emitted : (count : ℕ) → Event
  poll_error_emitted : Event
  backoff_emitted : (duration_ms : ℕ) → Event
  stop_emitted stop_resolved stop_rejected : Event

-- The fields of the class; the polls that the server has not answered, by what they requested,
-- oldest first; the handlers that run; and the `stop` promises that wait. `active_poll` tells
-- whether the field holds a poll that is not cancelled.
pub record Worker : Type 0 where
  pub currently_active_job_count : ℕ
  pub poll_lock : Bool
  pub backoff_timer : Bool
  pub backoff_retry_count : ℕ
  pub stopping : Bool
  pub active_poll : Bool
  pub loop_handle : Bool
  pub lost_loops : ℕ  -- intervals that a later `start` forgot
  pub polls : List ℕ
  pub running : ℕ
  pub stops : ℕ
  pub events : List Event  -- newest first

unfoldable pub emit : Event → Worker → Worker
emit e w = record w { events = e ∷ w.events }

unfoldable pub new_worker : Worker
new_worker = record {
  currently_active_job_count = 0;
  poll_lock = false;
  backoff_timer = false;
  backoff_retry_count = 0;
  stopping = false;
  active_poll = false;
  loop_handle = false;
  lost_loops = 0;
  polls = [];
  running = 0;
  stops = 0;
  events = [];
}

unfoldable pub request_jobs : ℕ → Worker → Worker
unfolding emit
request_jobs remaining w = record (emit (jobs_requested remaining) w) {
  poll_lock = true;
  active_poll = true;
  polls = w.polls ++ remaining ∷ [];
}

unfoldable pub poll : Config → Worker → Worker
unfolding emit request_jobs
poll config w =
    if w.poll_lock || w.stopping
    then w
    else if leb config.max_jobs_to_activate w.currently_active_job_count
    then record (emit (poll_emitted w.currently_active_job_count) w) { poll_lock = false }
    else request_jobs (config.max_jobs_to_activate - w.currently_active_job_count)
        (emit (poll_emitted w.currently_active_job_count) w)

unfoldable pub start : Config → Worker → Worker
unfolding emit poll
start config w =
    let polled = poll config (record (emit start_emitted w) { stopping = false }) in
    record polled {
      loop_handle = true;
      lost_loops = if w.loop_handle then w.lost_loops + 1 else w.lost_loops;
    }

-- `stop`, which `close` calls: the rejection of the cancelled poll is a turn of its own.
unfoldable pub cancel_poll : Worker → Worker
unfolding emit
cancel_poll w = if w.active_poll then record (emit poll_cancelled w) { active_poll = false } else w

unfoldable pub await_drain : Worker → Worker
unfolding emit
await_drain w =
    if w.currently_active_job_count == 0
    then emit stop_resolved (emit stop_emitted w)
    else record w { stops = w.stops + 1 }

unfoldable pub stop : Worker → Worker
unfolding cancel_poll await_drain
stop w =
    await_drain
      (cancel_poll (record w { stopping = true; loop_handle = false; backoff_timer = false }))

unfoldable pub poll_at : ℕ → List ℕ → Option ℕ
poll_at i [] = none
poll_at zero (p ∷ ps) = some p
poll_at (suc i) (p ∷ ps) = poll_at i ps

unfoldable pub poll_over : ℕ → List ℕ → List ℕ
poll_over i [] = []
poll_over zero (p ∷ ps) = ps
poll_over (suc i) (p ∷ ps) = p ∷ poll_over i ps

-- The answer to a poll: `count` jobs, whose handlers start.
unfoldable pub jobs_activated : ℕ → ℕ → Worker → Worker
unfolding emit poll_over
jobs_activated i count w = record (emit (work_emitted count) w) {
  currently_active_job_count = w.currently_active_job_count + count;
  running = w.running + count;
  poll_lock = false;
  backoff_retry_count = 0;
  polls = poll_over i w.polls;
}

-- The failure of a poll; `canceled` tells the code `ERR_CANCELED`.
unfoldable pub poll_failed : Config → ℕ → Bool → Worker → Worker
unfolding emit poll_over
poll_failed config i canceled w =
    if w.stopping && canceled
    then record w { polls = poll_over i w.polls }
    else record (emit
        (backoff_emitted (min (2000 * (w.backoff_retry_count + 1)) config.max_backoff_time_ms))
        (emit poll_error_emitted w)) {
          active_poll = false;
          backoff_retry_count = w.backoff_retry_count + 1;
          backoff_timer = true;
          polls = poll_over i w.polls;
        }

unfoldable pub backoff_fired : Config → Worker → Worker
unfolding poll
backoff_fired config w =
    if w.backoff_timer
    then poll config (record w { backoff_timer = false; poll_lock = false })
    else w

-- The `finally` of `handleJob`.
unfoldable pub handler_settled : Worker → Worker
handler_settled w = if w.running == 0 then w else record w {
  running = w.running - 1;
  currently_active_job_count = w.currently_active_job_count - 1;
}

unfoldable pub wait_checked : Worker → Worker
unfolding emit
wait_checked w =
    if w.stops == 0
    then w
    else if w.currently_active_job_count == 0
    then record (emit stop_resolved (emit stop_emitted w)) { stops = w.stops - 1 }
    else w

unfoldable pub deadline_passed : Worker → Worker
unfolding emit
deadline_passed w =
    if w.stops == 0 then w else record (emit stop_rejected w) { stops = w.stops - 1 }

unfoldable pub fail : Config → ℕ → Bool → Worker → Option ℕ → Worker
unfolding poll_failed
fail config i canceled w none = w
fail config i canceled w (some requested) = poll_failed config i canceled w

pub data Turn : Type 0 where
  start_called stop_called interval backoff_due handler_done drain_check deadline : Turn
  answered : (poll seed : ℕ) → Turn
  failed : (poll : ℕ) → (canceled : Bool) → Turn

-- How many jobs the server sends for a request, which may differ from answer to answer.
module _ (activate_jobs : (max_jobs seed : ℕ) → ℕ) where
  unfoldable pub answer : ℕ → ℕ → Worker → Option ℕ → Worker
  unfolding jobs_activated
  answer i seed w none = w
  answer i seed w (some requested) = jobs_activated i (activate_jobs requested seed) w

  unfoldable pub step : Config → Worker → Turn → Worker
  unfolding start stop poll answer fail backoff_fired handler_settled wait_checked deadline_passed
      poll_at
  step config w start_called = start config w
  step config w stop_called = stop w
  step config w interval = if w.loop_handle || ltb 0 w.lost_loops then poll config w else w
  step config w backoff_due = backoff_fired config w
  step config w handler_done = handler_settled w
  step config w drain_check = wait_checked w
  step config w deadline = deadline_passed w
  step config w (answered i seed) = answer i seed w (poll_at i w.polls)
  step config w (failed i canceled) = fail config i canceled w (poll_at i w.polls)

  unfoldable pub run : Config → Worker → List Turn → Worker
  run config w [] = w
  run config w (t ∷ ts) = run config (step config w t) ts

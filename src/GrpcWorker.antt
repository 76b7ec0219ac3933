-- ===== src/GrpcWorker.antt =====
-- src/zeebe/lib/ZBWorkerBase.ts and src/zeebe/zb/ZBWorker.ts: the polling job worker over gRPC, one
-- turn of the event loop at a time.
pub mod Step
pub mod Accounts
pub mod Balance
mod Tests
use camunda_8_js_sdk.Base.{
  ℕ, zero, suc, ◌+◌, ◌-◌, ◌*◌, ◌^◌, Bool, true, false, not, ◌&&◌, ◌||◌, Option, none, some, List,
  [], ◌∷◌, if◌then◌else◌, ◌==◌, leb, ltb, min, length,
}

-- `threshold` is `activeJobsThresholdForReactivation`.
pub record Config : Type 0 where
  pub max_jobs_to_activate : ℕ
  pub threshold : ℕ
  pub max_backoff_ms : ℕ
  pub cancel_workflow_on_exception : Bool

-- What the worker asks of the client, and what it tells.
pub data Event : Type 0 where
  jobs_requested : (amount : ℕ) → Event
  unparsed_job_failed : Event
  complete_requested fail_requested error_requested cancel_requested : Event
  backoff : (duration_ms : ℕ) → Event
  close_resolved : Event

-- A job stream: how many more jobs the server may send on it, or that it emitted an error.
pub data Stream : Type 0 where
  no_stream : Stream
  live : (outstanding : ℕ) → Stream
  broken : Stream

-- `activeJobs` is `added - drained`, which may be negative in the source. `opening` is the `await` of
-- `activateJobs`, with the amount it asked for; a late error may let a second request begin beside it,
-- of which only the newest is kept here. `awaits_empty` is the `close` that waits for the jobs;
-- `stream_backoffs` the timers of stream errors, which are not kept; `running` the handlers.
pub record Worker : Type 0 where
  pub added : ℕ
  pub drained : ℕ
  pub poll_mutex : Bool
  pub opening : Option ℕ
  pub job_stream : Stream
  pub poll_loop : Bool
  pub backoff_timeout : Bool
  pub stream_backoffs : ℕ
  pub back_pressure_retry_count : ℕ
  pub closing : Bool
  pub awaits_empty : Bool
  pub running : ℕ
  pub events : List Event  -- newest first

unfoldable pub new_worker : Worker
new_worker = record {
  added = 0;
  drained = 0;
  poll_mutex = false;
  opening = none;
  job_stream = no_stream;
  poll_loop = true;
  backoff_timeout = false;
  stream_backoffs = 0;
  back_pressure_retry_count = 0;
  closing = false;
  awaits_empty = false;
  running = 0;
  events = [];
}

unfoldable pub emit : Event → Worker → Worker
emit e w = record w { events = e ∷ w.events }

abbrev pub has_stream : Stream → Bool
has_stream no_stream = false
has_stream (live n) = true
has_stream broken = true

-- `poll` up to the `await` of `activateJobs`, whose request is sent at once.
unfoldable pub poll : Config → Worker → Worker
unfolding emit
poll config w =
    if w.poll_mutex
      || has_stream w.job_stream
      || w.closing
      || ltb (w.drained + config.threshold) w.added
    then w
    else let amount = config.max_jobs_to_activate + w.drained - w.added in
      record (emit (jobs_requested amount) w) { poll_mutex = true; opening = some amount }

-- The rest of `poll`, with a stream.
unfoldable pub stream_opened : Option ℕ → Worker → Worker
stream_opened none w = w
stream_opened (some amount) w = record w {
  opening = none;
  job_stream = live amount;
  poll_mutex = false;
}

abbrev pub backoff_duration : Config → Worker → ℕ
backoff_duration config w = min config.max_backoff_ms (1000 * 2 ^ w.back_pressure_retry_count)

-- The rest of `poll`, with an error, of which `backs_off` tells whether it asks to back off.
unfoldable pub open_failed : Config → Bool → Option ℕ → Worker → Worker
unfolding emit
open_failed config backs_off none w = w
open_failed config backs_off (some amount) w =
    let counted = record w {
      opening = none;
      back_pressure_retry_count = w.back_pressure_retry_count + 1;
    } in
    if backs_off
    then record (emit (backoff (backoff_duration config w)) counted) { backoff_timeout = true }
    else record counted { poll_mutex = false }

-- `handleStreamEnd`.
unfoldable pub handle_stream_end : Worker → Worker
handle_stream_end w = record w { job_stream = no_stream }

-- The error of the current stream, which emits one at most.
unfoldable pub stream_error : Config → Bool → Stream → Worker → Worker
unfolding emit handle_stream_end
stream_error config backs_off no_stream w = w
stream_error config backs_off broken w = w
stream_error config backs_off (live n) w =
    if backs_off
    then record (emit (backoff (backoff_duration config w)) w) {
      poll_mutex = true;
      back_pressure_retry_count = w.back_pressure_retry_count + 1;
      stream_backoffs = w.stream_backoffs + 1;
      job_stream = broken;
    }
    else record (handle_stream_end w) { poll_mutex = false }

-- The error of a stream that has ended, whose listeners stay: the same, whatever is under way by then.
unfoldable pub late_error : Config → Bool → Worker → Worker
unfolding emit handle_stream_end
late_error config backs_off w =
    if backs_off
    then record (emit (backoff (backoff_duration config w)) w) {
      poll_mutex = true;
      back_pressure_retry_count = w.back_pressure_retry_count + 1;
      stream_backoffs = w.stream_backoffs + 1;
    }
    else record (handle_stream_end w) { poll_mutex = false }

unfoldable pub stream_backoff_over : Worker → Worker
unfolding handle_stream_end
stream_backoff_over w = if w.stream_backoffs == 0 then w else record (handle_stream_end w) {
  poll_mutex = false;
  stream_backoffs = w.stream_backoffs - 1;
}

unfoldable pub backoff_timeout_over : Worker → Worker
unfolding handle_stream_end
backoff_timeout_over w =
    if w.backoff_timeout
    then record (handle_stream_end w) { poll_mutex = false; backoff_timeout = false }
    else w

-- The jobs of a response, `true` for one whose variables parse.
abbrev pub parsed : List Bool → ℕ
parsed [] = 0
parsed (true ∷ jobs) = suc (parsed jobs)
parsed (false ∷ jobs) = parsed jobs

unfoldable pub fail_unparsed : List Bool → List Event → List Event
fail_unparsed [] events = events
fail_unparsed (true ∷ jobs) events = fail_unparsed jobs events
fail_unparsed (false ∷ jobs) events = fail_unparsed jobs (unparsed_job_failed ∷ events)

-- `handleJobResponse` and `handleJobs`.
unfoldable pub handle_job_response : List Bool → Worker → Worker
unfolding fail_unparsed
handle_job_response jobs w = if w.closing then w else record w {
  back_pressure_retry_count = 0;
  added = w.added + length jobs;
  running = w.running + parsed jobs;
  events = fail_unparsed jobs w.events;
}

unfoldable pub resolve_close : Worker → Worker
unfolding emit
resolve_close w =
    if w.awaits_empty then record (emit close_resolved w) { awaits_empty = false } else w

-- Nobody listens to `CapacityEvent.Available`.
unfoldable pub drain_one : Worker → Worker
unfolding resolve_close
drain_one w =
    let less = record w { drained = w.drained + 1 } in
    if w.closing && w.added == w.drained + 1 then resolve_close less else less

unfoldable pub close : Worker → Worker
unfolding emit
close w =
    if w.closing
    then w
    else let shut = record w { closing = true; poll_loop = false; backoff_timeout = false } in
      if leb w.added w.drained
      then record (emit close_resolved shut) { job_stream = no_stream }
      else record shut { awaits_empty = true }

-- The actions that a job offers to its handler. Whether their requests succeed is in how the handler ends: a refusal
-- that it does not catch is an exception.
pub data JobAction : Type 0 where
  complete fail throw_error forward cancel_workflow : JobAction

-- `completeJob` and `failJob` drain in their `finally`, so also when the request was refused; `errorJob` after it
-- caught a refusal; `forward` at once; and `cancelWorkflow` not at all.
unfoldable pub act : JobAction → Worker → Worker
unfolding emit drain_one
act complete w = drain_one (emit complete_requested w)
act fail w = drain_one (emit fail_requested w)
act throw_error w = drain_one (emit error_requested w)
act forward w = drain_one w
act cancel_workflow w = emit cancel_requested w

unfoldable pub act_all : List JobAction → Worker → Worker
unfolding act
act_all [] w = w
act_all (action ∷ actions) w = act_all actions (act action w)

-- How the handler ends: its promise resolves, or rejects, with the message of a job that is gone or with another.
pub data Exit : Type 0 where
  returned : Exit
  raised : (not_found : Bool) → Exit

-- The `catch` block of `handleJob`. The drain is in a `finally`, so it follows whether the request succeeds or not.
unfoldable pub handle_exception : Config → Bool → Worker → Worker
unfolding emit drain_one
handle_exception config not_found w =
    if config.cancel_workflow_on_exception
    then drain_one (emit cancel_requested w)
    else if not_found
    then drain_one w
    else drain_one (emit fail_requested w)

abbrev pub leave : Config → Exit → Worker → Worker
leave config returned w = w
leave config (raised not_found) w = handle_exception config not_found w

-- A handler's actions, in order, and its end. They are one turn here: what other turns come between them is left out.
pub record Ending : Type 0 where
  pub actions : List JobAction
  pub exit : Exit

unfoldable pub handler_ended : Config → Ending → Worker → Worker
unfolding act_all handle_exception
handler_ended config ending w =
    if w.running == 0
    then w
    else leave config ending.exit (act_all ending.actions (record w { running = w.running - 1 }))

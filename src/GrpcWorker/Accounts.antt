-- ===== src/GrpcWorker/Accounts.antt =====
-- Where the activated jobs go: each is with a handler, drained, or was refused for its variables.
use camunda_8_js_sdk.Base.{
  ℕ, suc, ◌+◌, ◌-◌, ◌≤◌, ◌≡◌, ◌⊎◌, inl, refl, ap, subst, if_rule, ◌==◌, Bool, true, false, Option,
  none, some, List, [], ◌∷◌, if◌then◌else◌, arith, length,
}
use camunda_8_js_sdk.GrpcWorker.{
  Config, Event, unparsed_job_failed, close_resolved, Stream, no_stream, live, broken, Worker,
  new_worker, emit, poll, stream_opened, open_failed, handle_stream_end, stream_error,
  stream_backoff_over, backoff_timeout_over, parsed, fail_unparsed, handle_job_response,
  resolve_close, drain_one, close, JobAction, complete, fail, throw_error, forward, cancel_workflow,
  act, act_all, Exit, returned, raised, handle_exception, leave, Ending, handler_ended, late_error,
  complete_requested, fail_requested, error_requested, cancel_requested,
}
use camunda_8_js_sdk.GrpcWorker.Step.{
  Turn, poll_interval, opened, stream_ended, stream_backoff_due, backoff_due, close_called,
  open_refused, stream_failed, stream_failed_late, response, job_ended, respond, step, run,
}

-- How many jobs were refused for their variables, and how often `close` resolved.
abbrev pub unparsed : List Event → ℕ
unparsed [] = 0
unparsed (unparsed_job_failed ∷ events) = suc (unparsed events)
unparsed (_ ∷ events) = unparsed events

abbrev pub closes : List Event → ℕ
closes [] = 0
closes (close_resolved ∷ events) = suc (closes events)
closes (_ ∷ events) = closes events

abbrev pub asked : Option ℕ → ℕ
asked none = 0
asked (some n) = n

abbrev pub outstanding : Stream → ℕ
outstanding (live n) = n
outstanding _ = 0

abbrev pub waits : Option ℕ → ℕ
waits none = 0
waits (some n) = 1

abbrev pub is_live : Stream → ℕ
is_live (live n) = 1
is_live _ = 0

-- How often a handler's place is given back: once by each action but `cancelWorkflow`, and once for an exception.
abbrev pub acknowledged : List JobAction → ℕ
acknowledged [] = 0
acknowledged (cancel_workflow ∷ actions) = acknowledged actions
acknowledged (_ ∷ actions) = suc (acknowledged actions)

abbrev pub caught : Exit → ℕ
caught returned = 0
caught (raised not_found) = 1

abbrev pub drains : Ending → ℕ
drains ending = acknowledged ending.actions + caught ending.exit

-- How many requests, backoffs and streams are under way.
abbrev pub under_way : Worker → ℕ
under_way w =
    waits w.opening
    + w.stream_backoffs
    + (if w.backoff_timeout then 1 else 0)
    + is_live w.job_stream

-- A handler gives its place back once, and the error of a stream that has ended comes while nothing else is under way.
abbrev pub IsOrderly : Worker → Turn → Type 0
IsOrderly w (job_ended ending) = drains ending ≡ 1
IsOrderly w (stream_failed_late backs_off) = under_way w ≡ 0
IsOrderly w _ = Unit

abbrev pub AllOrderly : (ℕ → ℕ → List Bool) → Config → Worker → List Turn → Type 0
AllOrderly served config w [] = Unit
AllOrderly served config w (t ∷ ts) =
    IsOrderly w t × AllOrderly served config (step served config w t) ts

pub record IsAccounted (config : Config) (w : Worker) : Type 0 where
  pub jobs : w.added ≡ w.drained + w.running + unparsed w.events
  pub within :
      w.added + asked w.opening + outstanding w.job_stream ≤ config.max_jobs_to_activate + w.drained
  pub single :
      waits w.opening
        + w.stream_backoffs
        + (if w.backoff_timeout then 1 else 0)
        + is_live w.job_stream
      ≤ 1
  pub locked :
      waits w.opening + w.stream_backoffs + (if w.backoff_timeout then 1 else 0)
      ≤ (if w.poll_mutex then 1 else 0)
  pub resolved : (closes w.events ≡ 0) ⊎ ((unparsed w.events ≡ 0) × (w.closing ≡ true))

unparsed-fail_unparsed :
    (jobs : List Bool) (events : List Event)
    → (unparsed (fail_unparsed jobs events) + parsed jobs ≡ unparsed events + length jobs)
      × (closes (fail_unparsed jobs events) ≡ closes events)
unfolding fail_unparsed
unparsed-fail_unparsed [] events = ground arith
unparsed-fail_unparsed (true ∷ jobs) events = ground (arith, unparsed-fail_unparsed jobs events)
unparsed-fail_unparsed (false ∷ jobs) events =
    ground (arith, unparsed-fail_unparsed jobs (unparsed_job_failed ∷ events))

module _ (config : Config) (low : config.threshold ≤ config.max_jobs_to_activate) where
  poll-IsAccounted : (w : Worker) → IsAccounted config w → IsAccounted config (poll config w)
  unfolding poll emit
  poll-IsAccounted w h = ground arith

  close-IsAccounted : (w : Worker) → IsAccounted config w → IsAccounted config (close w)
  unfolding close emit
  close-IsAccounted w h = ground arith

  -- With `owed` handlers that have not given their place back yet.
  drain_one-IsAccounted :
      (owed : ℕ) (w : Worker)
      → IsAccounted config (record w { running = w.running + suc owed })
      → IsAccounted config (record (drain_one w) { running = (drain_one w).running + owed })
  unfolding drain_one resolve_close emit
  drain_one-IsAccounted owed w h = ground arith

  emit-IsAccounted :
      (e : Event) (owed : ℕ) (w : Worker)
      → unparsed (e ∷ w.events) ≡ unparsed w.events
      → closes (e ∷ w.events) ≡ closes w.events
      → IsAccounted config (record w { running = w.running + owed })
      → IsAccounted config (record (emit e w) { running = (emit e w).running + owed })
  unfolding emit
  emit-IsAccounted e owed w u c h = ground arith

  drain_after-IsAccounted :
      (e : Event) (owed : ℕ) (w : Worker)
      → unparsed (e ∷ w.events) ≡ unparsed w.events
      → closes (e ∷ w.events) ≡ closes w.events
      → IsAccounted config (record w { running = w.running + suc owed })
      → IsAccounted config
          (record (drain_one (emit e w)) { running = (drain_one (emit e w)).running + owed })
  drain_after-IsAccounted e owed w u c h =
      drain_one-IsAccounted owed (emit e w) (emit-IsAccounted e (suc owed) w u c h)

  same_running :
      (n m : ℕ) (w : Worker)
      → n ≡ m
      → IsAccounted config (record w { running = n })
      → IsAccounted config (record w { running = m })
  same_running n m w e h = subst (λ (k : ℕ). IsAccounted config (record w { running = k })) e h

  owing :
      (n owed : ℕ) (w : Worker)
      → IsAccounted config (record w { running = w.running + (suc n + owed) })
      → IsAccounted config (record w { running = w.running + suc (n + owed) })
  owing n owed w h =
      same_running (w.running + (suc n + owed)) (w.running + suc (n + owed)) w (omega arith) h

  act_all-IsAccounted :
      (actions : List JobAction) (owed : ℕ) (w : Worker)
      → IsAccounted config (record w { running = w.running + (acknowledged actions + owed) })
      → IsAccounted config
          (record (act_all actions w) { running = (act_all actions w).running + owed })
  unfolding act_all act
  act_all-IsAccounted [] owed w h =
      same_running (w.running + (0 + owed)) (w.running + owed) w (omega arith) h
  act_all-IsAccounted (cancel_workflow ∷ actions) owed w h =
      act_all-IsAccounted actions owed (emit cancel_requested w)
        (emit-IsAccounted cancel_requested (acknowledged actions + owed) w refl refl h)
  act_all-IsAccounted (complete ∷ actions) owed w h =
      act_all-IsAccounted actions owed (drain_one (emit complete_requested w)) (
        drain_after-IsAccounted complete_requested (acknowledged actions + owed) w refl refl
          (owing (acknowledged actions) owed w h))
  act_all-IsAccounted (fail ∷ actions) owed w h =
      act_all-IsAccounted actions owed (drain_one (emit fail_requested w)) (
        drain_after-IsAccounted fail_requested (acknowledged actions + owed) w refl refl
          (owing (acknowledged actions) owed w h))
  act_all-IsAccounted (throw_error ∷ actions) owed w h =
      act_all-IsAccounted actions owed (drain_one (emit error_requested w)) (
        drain_after-IsAccounted error_requested (acknowledged actions + owed) w refl refl
          (owing (acknowledged actions) owed w h))
  act_all-IsAccounted (forward ∷ actions) owed w h =
      act_all-IsAccounted actions owed (drain_one w) (
        drain_one-IsAccounted (acknowledged actions + owed) w
          (owing (acknowledged actions) owed w h))

  leave-IsAccounted :
      (exit : Exit) (w : Worker)
      → IsAccounted config (record w { running = w.running + caught exit })
      → IsAccounted config
          (record (leave config exit w) { running = (leave config exit w).running + 0 })
  unfolding handle_exception
  leave-IsAccounted returned w h = h
  leave-IsAccounted (raised not_found) w h = ground (
    arith,
    drain_one-IsAccounted 0 w h,
    drain_after-IsAccounted cancel_requested 0 w refl refl h,
    drain_after-IsAccounted fail_requested 0 w refl refl h,
  )

  handler_ended-IsAccounted :
      (ending : Ending) (w : Worker)
      → drains ending ≡ 1
      → IsAccounted config w
      → IsAccounted config (handler_ended config ending w)
  unfolding handler_ended
  handler_ended-IsAccounted ending w once h =
      let left : Worker = record w { running = w.running - 1 } in
      let last : Worker = act_all ending.actions left in
      let gone : Worker = leave config ending.exit last in
      if_rule (λ (q : Worker). IsAccounted config q) (w.running == 0) (λ e. h)
        (λ e.
          let start =
            same_running w.running
              (w.running - 1 + (acknowledged ending.actions + caught ending.exit)) w (ground arith)
              h in
          same_running (gone.running + 0) gone.running gone (omega arith) (
            leave-IsAccounted ending.exit last
              (act_all-IsAccounted ending.actions (caught ending.exit) left start)))

module _ (served : (outstanding seed : ℕ) → List Bool)
    (within_outstanding : (n seed : ℕ) → length (served n seed) ≤ n) (config : Config)
    (low : config.threshold ≤ config.max_jobs_to_activate) where
  respond-IsAccounted :
      (seed : ℕ) (stream : Stream) (w : Worker)
      → w.job_stream ≡ stream
      → IsAccounted config w
      → IsAccounted config (respond served seed stream w)
  unfolding respond handle_job_response
  respond-IsAccounted seed no_stream w e h = h
  respond-IsAccounted seed broken w e h = h
  respond-IsAccounted seed (live n) w e h =
      let jobs = served n seed in
      let refused = unparsed-fail_unparsed jobs w.events in
      let fits = within_outstanding n seed in
      let room : outstanding w.job_stream ≡ n = ap outstanding e in
      let alive : is_live w.job_stream ≡ 1 = ap is_live e in ground arith

  step-IsAccounted :
      (w : Worker) (t : Turn)
      → IsOrderly w t
      → IsAccounted config w
      → IsAccounted config (step served config w t)
  unfolding step stream_opened handle_stream_end stream_backoff_over backoff_timeout_over
      open_failed stream_error late_error respond emit handle_job_response
  step-IsAccounted w poll_interval o h = ground (arith, poll-IsAccounted config low w h)
  step-IsAccounted w opened o h = ground arith
  step-IsAccounted w stream_ended o h = ground arith
  step-IsAccounted w stream_backoff_due o h = ground arith
  step-IsAccounted w backoff_due o h = ground arith
  step-IsAccounted w close_called o h = close-IsAccounted config low w h
  step-IsAccounted w (open_refused backs_off) o h = ground arith
  step-IsAccounted w (stream_failed backs_off) o h = ground arith
  step-IsAccounted w (response seed) o h = respond-IsAccounted seed w.job_stream w refl h
  step-IsAccounted w (stream_failed_late backs_off) o h = ground arith
  step-IsAccounted w (job_ended ending) o h = handler_ended-IsAccounted config low ending w o h

  run-IsAccounted_from :
      (w : Worker) (ts : List Turn)
      → AllOrderly served config w ts
      → IsAccounted config w
      → IsAccounted config (run served config w ts)
  unfolding run
  run-IsAccounted_from w [] all h = h
  run-IsAccounted_from w (t ∷ ts) (o, all) h =
      run-IsAccounted_from (step served config w t) ts all (step-IsAccounted w t o h)

  -- Where the threshold is at most the maximum, each handler gives its place back once (it ends by one of complete,
  -- fail, error and forward without an exception, or by an exception without these, and may cancel the workflow
  -- besides), a stream that has ended emits an error only while no request, backoff or other stream is under way, and
  -- the server sends at most as many jobs as a request asked for: every job that was counted is drained, with a
  -- handler, or was refused for its variables; the counted jobs that are not drained and the jobs that may still
  -- come are at most `maxJobsToActivate`; there is one stream, request or backoff at a time, and the poll mutex is
  -- held during a request or a backoff; and `close` has resolved only if no job was refused for its variables,
  -- because such a job stays counted for ever.
  pub run-IsAccounted :
      (ts : List Turn)
      → AllOrderly served config new_worker ts
      → IsAccounted config (run served config new_worker ts)
  unfolding new_worker
  run-IsAccounted ts all = run-IsAccounted_from new_worker ts all (record {
    jobs = refl;
    within = omega arith;
    single = omega arith;
    locked = omega arith;
    resolved = inl refl;
  })

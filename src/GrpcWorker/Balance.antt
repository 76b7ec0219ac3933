-- ===== src/GrpcWorker/Balance.antt =====
-- What the end of a task handler does to the account of the jobs.
use camunda_8_js_sdk.Base.{◌+◌, ◌-◌, ◌<◌, ◌≡◌, List, [], ◌∷◌, arith}
use camunda_8_js_sdk.GrpcWorker.{
  Config, Worker, emit, resolve_close, drain_one, JobAction, complete, fail, throw_error, forward,
  cancel_workflow, act, act_all, Exit, returned, raised, handle_exception, leave, Ending,
  handler_ended,
}
use camunda_8_js_sdk.GrpcWorker.Accounts.{unparsed, acknowledged, caught, drains}

act-balance :
    (action : JobAction) (w : Worker)
    → ((act action w).added ≡ w.added)
      × ((act action w).drained ≡ w.drained + acknowledged (action ∷ []))
      × ((act action w).running ≡ w.running)
      × (unparsed (act action w).events ≡ unparsed w.events)
unfolding act drain_one resolve_close emit
act-balance complete w = ground arith
act-balance fail w = ground arith
act-balance throw_error w = ground arith
act-balance forward w = ground arith
act-balance cancel_workflow w = ground arith

acknowledged-one :
    (action : JobAction) (actions : List JobAction)
    → acknowledged (action ∷ actions) ≡ acknowledged (action ∷ []) + acknowledged actions
acknowledged-one complete actions = omega arith
acknowledged-one fail actions = omega arith
acknowledged-one throw_error actions = omega arith
acknowledged-one forward actions = omega arith
acknowledged-one cancel_workflow actions = omega arith

act_all-balance :
    (actions : List JobAction) (w : Worker)
    → ((act_all actions w).added ≡ w.added)
      × ((act_all actions w).drained ≡ w.drained + acknowledged actions)
      × ((act_all actions w).running ≡ w.running)
      × (unparsed (act_all actions w).events ≡ unparsed w.events)
unfolding act_all
act_all-balance [] w = ground arith
act_all-balance (action ∷ actions) w = ground (
  arith,
  act-balance action w,
  act_all-balance actions (act action w),
  acknowledged-one action actions,
)

leave-balance :
    (config : Config) (exit : Exit) (w : Worker)
    → ((leave config exit w).added ≡ w.added)
      × ((leave config exit w).drained ≡ w.drained + caught exit)
      × ((leave config exit w).running ≡ w.running)
      × (unparsed (leave config exit w).events ≡ unparsed w.events)
unfolding handle_exception drain_one resolve_close emit
leave-balance config returned w = ground arith
leave-balance config (raised not_found) w = ground arith

-- Whatever its actions and its end: where the jobs are accounted for, the end of a handler keeps the number of jobs
-- that were counted, and leaves the account off by what the handler gave back beyond once. A complete or fail that is
-- refused and not caught gives its place back twice, so the worker counts one job fewer than there are; a handler
-- that only cancels the workflow never gives it back.
pub handler_ended-balance :
    (config : Config) (ending : Ending) (w : Worker)
    → 0 < w.running
    → w.added ≡ w.drained + w.running + unparsed w.events
    → let v = handler_ended config ending w in
      (v.added ≡ w.added)
      × (v.running + 1 ≡ w.running)
      × (v.added + drains ending ≡ v.drained + v.running + unparsed v.events + 1)
unfolding handler_ended
handler_ended-balance config ending w some_run counted =
    let left : Worker = record w { running = w.running - 1 } in
    let last : Worker = act_all ending.actions left in
    let acted = act_all-balance ending.actions left in
    let ended = leave-balance config ending.exit last in ground arith

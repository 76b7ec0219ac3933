-- ===== src/StreamWorker/Activation.antt =====
-- `backfill`, `drain`, `runDrain` and the sidecar poll of src/zeebe/lib/ZBStreamWorker.ts.
use camunda_8_js_sdk.Base.{ℕ, Bool, true, false, not, ◌||◌, ◌&&◌, [], ◌∷◌, ◌++◌, if◌then◌else◌, ltb}
use camunda_8_js_sdk.StreamLifecycle.{ErrorValue}
use camunda_8_js_sdk.StreamWorker.Session.{
  Options, Origin, initial, reopened, deferred, Activity, backfilling, sidecar_polling, handling,
  draining, returned, rejected, Session, is_closed, note, activate_jobs,
}

-- `activate()`, whose answer `waiting` awaits.
activate : Activity → Session → Session
unfolding note
activate waiting s = note activate_jobs (record s { activity = s.activity ++ waiting ∷ [] })

-- `schedulePoll`.
unfoldable pub schedule_poll : Session → Session
schedule_poll s = if is_closed s then s else record s { sidecar_timer = true }

-- The end of `pollAndStream`.
unfoldable pub return_handle : Options → Session → Session
unfolding schedule_poll
return_handle o s = record (if ltb 0 o.poll_interval then schedule_poll s else s) {
  result = returned;
}

-- What the caller of `backfill` does once it resolves, or rejects.
backfilled : Options → Origin → Session → Session
unfolding return_handle
backfilled o initial s = return_handle o s
backfilled o reopened s = s
backfilled o deferred s = s

backfill_failed : Origin → ErrorValue → Session → Session
backfill_failed initial e s = record s { result = rejected e }
backfill_failed reopened e s = s
backfill_failed deferred e s = s

unfoldable pub backfill : Options → Origin → Session → Session
unfolding activate backfilled
backfill o origin s =
    if is_closed s
    then backfilled o origin s
    else if s.activation_reserved
    then backfilled o origin (record s { backfill_requested = true })
    else activate (backfilling origin) (record s { activation_reserved = true })

-- The `finally` of `runDrain`, and of the sidecar poll if that fed the drain.
drain_over : Options → Bool → Session → Session
unfolding backfill schedule_poll
drain_over o from_sidecar s =
    let released = record s { activation_reserved = false } in
    let served =
      (if s.backfill_requested
        then (if is_closed s
            then record released { backfill_requested = false }
            else backfill o deferred (record released { backfill_requested = false }))
        else released) in
    if from_sidecar then schedule_poll served else served

-- The jobs that an activation brought are handed to their handlers.
start_batch : ℕ → Bool → Session → Session
start_batch batch from_sidecar s = record s {
  activity = s.activity ++ handling batch from_sidecar ∷ [];
}

-- An answer to the activation that was awaited; the awaited one is taken off `activity` already.
unfoldable pub jobs_activated : Options → Activity → ℕ → Session → Session
unfolding start_batch backfilled
jobs_activated o (backfilling origin) batch s = backfilled o origin (start_batch batch false s)
jobs_activated o sidecar_polling batch s = start_batch batch true s
jobs_activated o (draining consumed from_sidecar) batch s = start_batch batch from_sidecar s
jobs_activated o (handling n from_sidecar) batch s = s

unfoldable pub activation_failed : Options → Activity → ErrorValue → Session → Session
unfolding backfill_failed schedule_poll drain_over
activation_failed o (backfilling origin) e s =
    backfill_failed origin e (record s { activation_reserved = false })
activation_failed o sidecar_polling e s = schedule_poll (record s { activation_reserved = false })
activation_failed o (draining consumed from_sidecar) e s =
    drain_over o from_sidecar (record s { backfill_requested = consumed || s.backfill_requested })
activation_failed o (handling n from_sidecar) e s = s

-- Every handler of the batch has settled: the rest of the loop of `drain`.
unfoldable pub batch_handled : Options → ℕ → Bool → Session → Session
unfolding activate drain_over
batch_handled o batch from_sidecar s =
    if s.backfill_requested && not (is_closed s)
    then activate (draining true from_sidecar) (record s { backfill_requested = false })
    else if ltb batch o.poll_max_jobs_to_activate || is_closed s
    then drain_over o from_sidecar s
    else activate (draining false from_sidecar) s

-- The sidecar timer has fired.
unfoldable pub sidecar_fired : Session → Session
unfolding activate schedule_poll
sidecar_fired s =
    let fired = record s { sidecar_timer = false } in
    if s.activation_reserved || is_closed s
    then schedule_poll fired
    else activate sidecar_polling (record fired { activation_reserved = true })

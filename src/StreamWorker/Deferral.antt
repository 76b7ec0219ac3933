-- ===== src/StreamWorker/Deferral.antt =====
-- A backfill that is deferred to a drain in flight is run by it, or by the end of it.
use camunda_8_js_sdk.Base.{
  ℕ, ◌≡◌, ◌∙◌, Bool, true, false, ◌||◌, Option, none, some, List, [], ◌∷◌, arith, All,
}
use camunda_8_js_sdk.StreamLifecycle.{ErrorValue, Opened, get_open_error}
use camunda_8_js_sdk.StreamLifecycle.Attach.{
  StreamEvent, data_event, error_event, end_event, close_event,
}
use camunda_8_js_sdk.StreamWorker.Session.{
  Options, StreamedJob, deferred, Opening, jittering, first_request, reopen_request, Activity,
  backfilling, handling, draining, Session, is_closed, activate_jobs,
}
use camunda_8_js_sdk.StreamWorker.Activation.{
  return_handle, backfill, activation_failed, batch_handled, sidecar_fired,
}
use camunda_8_js_sdk.StreamWorker.Recovery.{handle_open_failure}
use camunda_8_js_sdk.StreamWorker.Stream.{stream_event, open_stream}
use camunda_8_js_sdk.StreamWorker.Step.{
  first_opened, reconnected, stream_answered, opening_turn, no_jobs_turn, handled_turn, jitter_turn,
  reconnect_fired, step, run, Turn, jitter_over, stream_settled, raw_data, raw_error, raw_end,
  raw_close, reconnect_due, jobs, no_jobs, handlers_settled, sidecar_due, handle_close,
  worker_close,
}

-- Whether the drain's pending activation stands for a deferred backfill.
abbrev consumed : Activity → Bool
consumed (draining took from_sidecar) = took
consumed _ = false

-- The call is open and waits for this alone, and a backfill is deferred to it.
abbrev Pending : Activity → Session → Type 0
Pending a s =
    (s.activity ≡ a ∷ [])
    × (s.activation_reserved ≡ true)
    × (is_closed s ≡ false)
    × ((consumed a || s.backfill_requested) ≡ true)

-- The turns that answer no activation, settle no batch and close nothing.
abbrev pub IsElsewhere : Turn → Type 0
IsElsewhere (jobs batch) = ⊥
IsElsewhere (no_jobs e) = ⊥
IsElsewhere handlers_settled = ⊥
IsElsewhere handle_close = ⊥
IsElsewhere worker_close = ⊥
IsElsewhere _ = Unit

abbrev SameCall : Session → Session → Type 0
SameCall s t =
    (t.activity ≡ s.activity)
    × (t.activation_reserved ≡ s.activation_reserved)
    × (t.backfill_requested ≡ s.backfill_requested)
    × (is_closed t ≡ is_closed s)

module _ (o : Options) where
  handle_open_failure-SameCall :
      (e : ErrorValue) (s : Session) → SameCall s (handle_open_failure o e s)
  unfolding handle_open_failure
  handle_open_failure-SameCall e s = ground arith

  return_handle-SameCall : (s : Session) → SameCall s (return_handle o s)
  unfolding return_handle
  return_handle-SameCall s = ground arith

  open_stream-SameCall :
      (opened : Opened) (now : ℕ) (s : Session) → SameCall s (open_stream opened now s).0
  unfolding open_stream
  open_stream-SameCall opened now s = ground arith

  stream_event-SameCall :
      (now id : ℕ) (ev : StreamEvent StreamedJob) (s : Session)
      → SameCall s (stream_event o now id ev s)
  unfolding stream_event
  stream_event-SameCall now id ev s = ground arith

  first_opened-Pending :
      (a : Activity) (s : Session) (e : Option ErrorValue)
      → Pending a s
      → Pending a (first_opened o (s, e))
  unfolding first_opened backfill return_handle
  first_opened-Pending a s none h = ground arith
  first_opened-Pending a s (some e) h = ground (arith, handle_open_failure-SameCall e s)

  reconnected-Pending :
      (a : Activity) (s : Session) (e : Option ErrorValue)
      → Pending a s
      → Pending a (reconnected o (s, e))
  unfolding reconnected backfill
  reconnected-Pending a s none h = ground arith
  reconnected-Pending a s (some e) h = ground (arith, handle_open_failure-SameCall e s)

  opening_turn-Pending :
      (a : Activity) (opened : Opened) (now : ℕ) (s : Session) (l : List Opening)
      → Pending a s
      → Pending a (opening_turn o opened now s l)
  unfolding opening_turn stream_answered
  opening_turn-Pending a opened now s [] h = h
  opening_turn-Pending a opened now s (jittering ∷ rest) h = h
  opening_turn-Pending a opened now s (first_request ∷ rest) h =
      let t : Session = record s { opening = rest } in
      first_opened-Pending a (open_stream opened now t).0 (open_stream opened now t).1
        (ground (arith, open_stream-SameCall opened now t))
  opening_turn-Pending a opened now s (reopen_request ∷ rest) h =
      let t : Session = record s { opening = rest } in
      reconnected-Pending a (open_stream opened now t).0 (open_stream opened now t).1
        (ground (arith, open_stream-SameCall opened now t))

  step-Pending :
      (a : Activity) (s : Session) (t : Turn) → IsElsewhere t → Pending a s → Pending a (step o s t)
  unfolding step jitter_turn reconnect_fired sidecar_fired
  step-Pending a s jitter_over q h = ground arith
  step-Pending a s (stream_settled opened now) q h = opening_turn-Pending a opened now s s.opening h
  step-Pending a s (raw_data id now job) q h =
      ground (arith, stream_event-SameCall now id (data_event job) s)
  step-Pending a s (raw_error id now e) q h =
      ground (arith, stream_event-SameCall now id (error_event e) s)
  step-Pending a s (raw_end id now) q h = ground (arith, stream_event-SameCall now id end_event s)
  step-Pending a s (raw_close id now) q h =
      ground (arith, stream_event-SameCall now id close_event s)
  step-Pending a s reconnect_due q h = ground arith
  step-Pending a s (jobs batch) q h = absurd q
  step-Pending a s (no_jobs e) q h = absurd q
  step-Pending a s handlers_settled q h = absurd q
  step-Pending a s sidecar_due q h = ground arith
  step-Pending a s handle_close q h = absurd q
  step-Pending a s worker_close q h = absurd q

  run-Pending :
      (a : Activity) (s : Session) (ts : List Turn)
      → All IsElsewhere ts
      → Pending a s
      → Pending a (run o s ts)
  unfolding run
  run-Pending a s [] q h = h
  run-Pending a s (t ∷ ts) (q, all) h = run-Pending a (step o s t) ts all (step-Pending a s t q h)

  reconnected_defers :
      (a : Activity) (s : Session) (e : Option ErrorValue)
      → e ≡ none
      → s.activity ≡ a ∷ []
      → s.activation_reserved ≡ true
      → is_closed s ≡ false
      → Pending a (reconnected o (s, e))
  unfolding reconnected backfill
  reconnected_defers a s none q w v op = ground arith
  reconnected_defers a s (some e) q w v op = cc

  open_stream-opened :
      (opened : Opened) (now : ℕ) (s : Session)
      → get_open_error opened ≡ none
      → (open_stream opened now s).1 ≡ none
  unfolding open_stream get_open_error
  open_stream-opened opened now s e = ground arith

  opening_turn-defers :
      (a : Activity) (s : Session) (opened : Opened) (now : ℕ) (rest l : List Opening)
      → l ≡ reopen_request ∷ rest
      → get_open_error opened ≡ none
      → s.activity ≡ a ∷ []
      → s.activation_reserved ≡ true
      → is_closed s ≡ false
      → Pending a (opening_turn o opened now s l)
  unfolding opening_turn stream_answered
  opening_turn-defers a s opened now rest [] q succeeds w v op = cc
  opening_turn-defers a s opened now rest (jittering ∷ l) q succeeds w v op = cc
  opening_turn-defers a s opened now rest (first_request ∷ l) q succeeds w v op = cc
  opening_turn-defers a s opened now rest (reopen_request ∷ l) q succeeds w v op =
      let t : Session = record s { opening = l } in
      let (same_activity, same_reserved, same_requested, same_closed) =
        open_stream-SameCall opened now t in
      reconnected_defers a (open_stream opened now t).0 (open_stream opened now t).1
        (open_stream-opened opened now t succeeds) (same_activity ∙ w) (same_reserved ∙ v)
        (same_closed ∙ op)

  -- The stream is open again: its backfill is deferred to what the call waits for.
  reopened-Pending :
      (a : Activity) (s : Session) (opened : Opened) (now : ℕ) (rest : List Opening)
      → s.activity ≡ a ∷ []
      → s.activation_reserved ≡ true
      → is_closed s ≡ false
      → s.opening ≡ reopen_request ∷ rest
      → get_open_error opened ≡ none
      → Pending a (step o s (stream_settled opened now))
  unfolding step
  reopened-Pending a s opened now rest w v op q succeeds =
      opening_turn-defers a s opened now rest s.opening q succeeds w v op

  settled-Pending :
      (n : ℕ) (from_sidecar : Bool) (s : Session)
      → Pending (handling n from_sidecar) s
      → Pending (draining true from_sidecar) (step o s handlers_settled)
        × ((step o s handlers_settled).calls ≡ activate_jobs ∷ s.calls)
  unfolding step handled_turn batch_handled
  settled-Pending n c s (w, v, op, r) = rw w (ground arith)

  failed-backfills :
      (e : ErrorValue) (from_sidecar : Bool) (s : Session)
      → Pending (draining true from_sidecar) s
      → ((step o s (no_jobs e)).activity ≡ backfilling deferred ∷ [])
        × ((step o s (no_jobs e)).calls ≡ activate_jobs ∷ s.calls)
  unfolding step no_jobs_turn activation_failed
  failed-backfills e c s (w, v, op, r) = rw w (ground arith)

  -- A stream comes back while the handlers of a batch, which has the reservation, still run, and the call stays open: whatever else happens before
  -- they settle, jobs are then asked for at once, in place of the deferred backfill; and if, whatever else happens
  -- meanwhile, that activation fails, the backfill is not lost but asks for jobs again.
  pub deferred_backfill_runs :
      (s : Session) (n : ℕ) (from_sidecar : Bool) (opened : Opened) (now : ℕ) (rest : List Opening)
      (e : ErrorValue) (before after : List Turn)
      → s.activity ≡ handling n from_sidecar ∷ []
      → s.activation_reserved ≡ true
      → is_closed s ≡ false
      → s.opening ≡ reopen_request ∷ rest
      → get_open_error opened ≡ none
      → All IsElsewhere before
      → All IsElsewhere after
      → let waiting = run o (step o s (stream_settled opened now)) before in
        let asked = step o waiting handlers_settled in
        let later = run o asked after in
        let again = step o later (no_jobs e) in
        (asked.activity ≡ draining true from_sidecar ∷ [])
        × (asked.calls ≡ activate_jobs ∷ waiting.calls)
        × (again.activity ≡ backfilling deferred ∷ [])
        × (again.calls ≡ activate_jobs ∷ later.calls)
  deferred_backfill_runs s n c opened now rest e before after w v op q succeeds all all' =
      let start = reopened-Pending (handling n c) s opened now rest w v op q succeeds in
      let waiting = run o (step o s (stream_settled opened now)) before in
      let (held, called) =
        settled-Pending n c waiting
          (run-Pending (handling n c) (step o s (stream_settled opened now)) before all start) in
      let asked = step o waiting handlers_settled in
      let kept = run-Pending (draining true c) asked after all' held in
      let (again, recalled) = failed-backfills e c (run o asked after) kept in
      (held.0, called, again, recalled)

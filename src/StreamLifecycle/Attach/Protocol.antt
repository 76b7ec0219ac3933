-- ===== src/StreamLifecycle/Attach/Protocol.antt =====
-- What the handlers of a stream can rely on, whatever events the stream emits.
use camunda_8_js_sdk.Base.{
  ℕ, ◌≡◌, refl, ap, Bool, true, false, Option, List, [], ◌∷◌, suc, is_some, ◌||◌, if◌then◌else◌,
  Option-cases, inl, inr,
}
use camunda_8_js_sdk.StreamLifecycle.{ErrorValue}
use camunda_8_js_sdk.StreamLifecycle.Attach.{
  StreamEvent, data_event, error_event, end_event, close_event, dispose, Call, on_data, on_error,
  on_end, on_close, cancel_stream, attach_step, attach_run,
}

module _ {T : Type 0} where
  -- The calls of the caller's handlers: all but the cancellation of the raw stream.
  abbrev pub handler_calls : List (Call T) → List (Call T)
  handler_calls [] = []
  handler_calls (cancel_stream ∷ cs) = handler_calls cs
  handler_calls (on_data x ∷ cs) = on_data x ∷ handler_calls cs
  handler_calls (on_error e ∷ cs) = on_error e ∷ handler_calls cs
  handler_calls (on_end ∷ cs) = on_end ∷ handler_calls cs
  handler_calls (on_close ∷ cs) = on_close ∷ handler_calls cs

  abbrev pub closes : List (Call T) → ℕ
  closes [] = 0
  closes (on_close ∷ cs) = suc (closes cs)
  closes (on_data x ∷ cs) = closes cs
  closes (on_error e ∷ cs) = closes cs
  closes (on_end ∷ cs) = closes cs
  closes (cancel_stream ∷ cs) = closes cs

  -- Items, then nothing, or one cause and one `close`.
  pub data Follows : List (Call T) → Type 0 where
    quiet : Follows []
    item : {cs : List (Call T)} → (x : T) → Follows cs → Follows (on_data x ∷ cs)
    failed : (e : ErrorValue) → Follows (on_error e ∷ on_close ∷ [])
    ended : Follows (on_end ∷ on_close ∷ [])

module _ {T : Type 0} (throws : T → Option ErrorValue) where
  -- Whether the stream stops by itself: it fails, ends, closes, or its data handler throws, and
  -- that before it is disposed of.
  abbrev pub stops : List (StreamEvent T) → Bool
  stops [] = false
  stops (data_event x ∷ evs) = is_some (throws x) || stops evs
  stops (dispose ∷ evs) = false
  stops (error_event e ∷ evs) = true
  stops (end_event ∷ evs) = true
  stops (close_event ∷ evs) = true

  settled_silent :
      (evs : List (StreamEvent T))
      → (handler_calls (attach_run throws true evs) ≡ [])
        × (closes (attach_run throws true evs) ≡ 0)
  unfolding attach_run attach_step
  settled_silent [] = (refl, refl)
  settled_silent (data_event x ∷ evs) = settled_silent evs
  settled_silent (error_event e ∷ evs) = settled_silent evs
  settled_silent (end_event ∷ evs) = settled_silent evs
  settled_silent (close_event ∷ evs) = settled_silent evs
  settled_silent (dispose ∷ evs) = settled_silent evs

  -- Whatever the raw stream emits, and whichever items its data handler throws on, the handlers
  -- see items, then at most one `error` or `end` directly followed by one `close`, and nothing
  -- after; and `close` is called exactly once if the stream stops before it is disposed of, and
  -- never otherwise.
  pub attach_run-Follows :
      (evs : List (StreamEvent T))
      → Follows (handler_calls (attach_run throws false evs))
        × (closes (attach_run throws false evs) ≡ (if stops evs then 1 else 0))
  unfolding attach_run attach_step
  attach_run-Follows [] = (quiet, refl)
  attach_run-Follows (data_event x ∷ evs) = elim (Option-cases (throws x)) [
    | inl e ↦ rw (e, attach_step) (item x (attach_run-Follows evs).0, (attach_run-Follows evs).1)
    | inr (err, e) ↦
        rw (e, attach_step)
          (rw (settled_silent evs).0 (item x (failed err)), ap suc (settled_silent evs).1)
  ]
  attach_run-Follows (error_event e ∷ evs) =
      (rw (settled_silent evs).0 (failed e), ap suc (settled_silent evs).1)
  attach_run-Follows (end_event ∷ evs) =
      (rw (settled_silent evs).0 ended, ap suc (settled_silent evs).1)
  attach_run-Follows (close_event ∷ evs) =
      (rw (settled_silent evs).0 ended, ap suc (settled_silent evs).1)
  attach_run-Follows (dispose ∷ evs) = (rw (settled_silent evs).0 quiet, (settled_silent evs).1)

-- ===== src/StreamLifecycle/Attach.antt =====
-- `attachStream` of src/zeebe/lib/StreamLifecycle.ts, as a step on the `settled` flag, with the
-- calls that it makes in order. The caller's data handler may throw: `throws` says on which items.
pub mod Protocol
use camunda_8_js_sdk.Base.{Bool, true, false, Option, none, some, List, [], ◌∷◌, ◌++◌}
use camunda_8_js_sdk.StreamLifecycle.{ErrorValue}

-- What reaches the adapter: the stream's four events, and its owner's `dispose()`.
pub data StreamEvent (T : Type 0) : Type 0 where
  data_event : T → StreamEvent T
  error_event : ErrorValue → StreamEvent T
  end_event close_event dispose : StreamEvent T

pub data Call (T : Type 0) : Type 0 where
  on_data : T → Call T
  on_error : ErrorValue → Call T
  on_end on_close cancel_stream : Call T

module _ {T : Type 0} where
  settle : Bool → Call T → Bool × List (Call T)
  settle true deliver_cause = (true, [])
  settle false deliver_cause = (true, deliver_cause ∷ on_close ∷ [])

  -- The `catch` of the data listener: cancel the stream, then settle with the error.
  data_handled : T → Option ErrorValue → Bool × List (Call T)
  unfolding settle
  data_handled item none = (false, on_data item ∷ [])
  data_handled item (some e) =
      let (settled, calls) = settle false (on_error e) in
      (settled, on_data item ∷ cancel_stream ∷ calls)

module _ {T : Type 0} (throws : T → Option ErrorValue) where
  unfoldable pub attach_step : Bool → StreamEvent T → Bool × List (Call T)
  unfolding settle data_handled
  attach_step true (data_event item) = (true, [])
  attach_step false (data_event item) = data_handled item (throws item)
  attach_step settled (error_event e) = settle settled (on_error e)
  attach_step settled end_event = settle settled on_end
  attach_step settled close_event = settle settled on_end
  attach_step settled dispose = (true, cancel_stream ∷ [])

  unfoldable pub attach_run : Bool → List (StreamEvent T) → List (Call T)
  attach_run settled [] = []
  attach_run settled (ev ∷ evs) =
      let (settled', calls) = attach_step settled ev in calls ++ attach_run settled' evs

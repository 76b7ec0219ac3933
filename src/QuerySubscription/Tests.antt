-- ===== src/QuerySubscription/Tests.antt =====
-- Runs of a subscription and of its window, and instances of the theorems on them. An item is a
-- text, which is also its JSON text.
use camunda_8_js_sdk.Base.{
  ℕ, ◌≡◌, ◌≢◌, refl, Bool, false, some, List, [], ◌∷◌, arith, length, All, any, keep,
}
use camunda_8_js_sdk.Base.Int.{pos}
use camunda_8_js_sdk.QuerySubscription.Hash.{hash_string}
use camunda_8_js_sdk.QuerySubscription.Tracking.{
  has_emitted, slot, delete, put, add, cycle_item_set, found_below, advance_poll_cycle,
  mark_as_emitted, new_tracker,
}
use camunda_8_js_sdk.QuerySubscription.Tracking.Recency.{
  Op, advance, mark, track, recently, has_emitted-track,
}
use camunda_8_js_sdk.QuerySubscription.Emission.{
  QueryResult, items_of, Emits, unseen, mark_all, safe_emit,
}
use camunda_8_js_sdk.QuerySubscription.Once.{hashed, replay, safe_emit-once}
use camunda_8_js_sdk.QuerySubscription.Unseen.{safe_emit-unseen}
use camunda_8_js_sdk.QuerySubscription.Poll.{
  Turn, Subscription, interval, query_returned, cancel_called, resume_called, on_called,
  new_subscription, step, run,
}
use camunda_8_js_sdk.QuerySubscription.OnePoll.{OnePoll, run-OnePoll, cancel-overlap}

abbrev Text : Type 0
Text = List ℕ

abbrev text : Text → Text
text s = s

-- `"b!"` and `"aB"`, in their quotes.
abbrev b_bang : Text
b_bang = 34 ∷ 98 ∷ 33 ∷ 34 ∷ []

abbrev a_b : Text
a_b = 34 ∷ 97 ∷ 66 ∷ 34 ∷ []

abbrev items_result : List Text → QueryResult Text Unit
items_result items = record { items = some items; total_items = some 9; other = tt }

abbrev started : List Op
started = advance ∷ []

collision : hash_string b_bang ≡ hash_string a_b
unfolding hash_string
collision = refl

all_tracking : Unit {0}
unfolding track advance_poll_cycle mark_as_emitted new_tracker has_emitted found_below
    cycle_item_set slot put delete add safe_emit mark_all hash_string any keep
all_tracking = tt

has_emitted-track_example :
    has_emitted (track 2 (advance ∷ mark (pos 7) ∷ [])) (pos 7)
    ≡ recently 2 (advance ∷ mark (pos 7) ∷ []) (pos 7)
has_emitted-track_example = has_emitted-track 2 (advance ∷ mark (pos 7) ∷ []) (pos 7)

safe_emit-unseen_example :
    ((safe_emit text (track 5 started) (items_result (b_bang ∷ []))).0
      ≡ mark_all text (unseen text (track 5 started) (b_bang ∷ [])) (track 5 started))
    × Emits
        (unseen text (track 5 started) (b_bang ∷ []))
        (items_result (b_bang ∷ []))
        (safe_emit text (track 5 started) (items_result (b_bang ∷ []))).1
safe_emit-unseen_example =
    safe_emit-unseen text (track 5 started) (items_result (b_bang ∷ [])) (b_bang ∷ []) refl

-- The other text with the same hash, in the next poll, is held back.
safe_emit-once_example :
    hashed text (hash_string b_bang) (
      items_of
        (safe_emit text
          (replay started (safe_emit text (track 5 started) (items_result (b_bang ∷ []))).0)
          (items_result (a_b ∷ []))).1)
    ≡ false
unfolding all_tracking
safe_emit-once_example =
    safe_emit-once text 5 started started (hash_string b_bang) (items_result (b_bang ∷ []))
      (items_result (a_b ∷ [])) refl (omega arith)

abbrev equal : QueryResult Text Unit → QueryResult Text Unit → Bool
equal r r' = false

abbrev turns : List (Turn Text Unit)
turns = on_called ∷ interval ∷ interval ∷ query_returned 0 (items_result (b_bang ∷ [])) ∷ []

uncancelled : All (λ t. t ≢ cancel_called) turns
uncancelled = (λ e. cc, (λ e. cc, (λ e. cc, (λ e. cc, tt))))

run-OnePoll_example : OnePoll (run equal text (new_subscription 5) turns)
run-OnePoll_example = run-OnePoll equal text 5 turns uncancelled

abbrev waiting : Subscription Text Unit
waiting = run equal text (new_subscription 5) turns

cancel-overlap_example :
    length
      (run equal text waiting (cancel_called ∷ resume_called ∷ on_called ∷ interval ∷ [])).polls
    ≡ 2
unfolding run step new_subscription
cancel-overlap_example =
    cancel-overlap equal text waiting (run-OnePoll equal text 5 turns uncancelled) refl

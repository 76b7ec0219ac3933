-- ===== src/QuerySubscription/Poll.antt =====
-- `poll`, `pause`, `cancel` and `resume` of `_QuerySubscription`, one turn of the event loop at a
-- time. The query, the predicate and the listeners are the caller's: a turn brings their answers.
use camunda_8_js_sdk.Base.{
  ℕ, zero, suc, ◌+◌, ◌-◌, Bool, true, false, ◌||◌, Option, none, some, List, [], ◌∷◌, ◌++◌,
  if◌then◌else◌, ◌==◌,
}
use camunda_8_js_sdk.QuerySubscription.Tracking.{Tracker, advance_poll_cycle, new_tracker}
use camunda_8_js_sdk.QuerySubscription.Emission.{QueryResult, safe_emit}

module _ (Item Other : Type 0) where
  -- A poll that waits: for its query, or for the predicate's verdict on what the query returned.
  pub data Waiting : Type 0 where
    querying : Waiting
    deciding : QueryResult Item Other → Waiting

  -- What the predicate returned: nothing truthy, `true`, or an object.
  pub data Verdict : Type 0 where
    silent everything : Verdict
    update : QueryResult Item Other → Verdict

  pub record Subscription : Type 0 where
    pub tracker : Tracker
    pub state : Option (QueryResult Item Other)
    pub poll_handle : Bool
    pub predicate_lock : Bool
    pub poll_lock : Bool
    pub listeners : ℕ
    pub polls : List Waiting  -- oldest first
    pub emitted : List (QueryResult Item Other)  -- newest first

  pub data Turn : Type 0 where
    interval poll_called : Turn
    query_returned : (poll : ℕ) → QueryResult Item Other → Turn
    query_failed : (poll : ℕ) → Turn
    decided : (poll : ℕ) → Verdict → Turn
    predicate_failed : (poll : ℕ) → Turn
    pause_called cancel_called resume_called on_called off_called : Turn

module _ {Item Other : Type 0} where
  unfoldable pub new_subscription : ℕ → Subscription Item Other
  new_subscription tracking_window = record {
    tracker = new_tracker tracking_window;
    state = none;
    poll_handle = true;
    predicate_lock = false;
    poll_lock = false;
    listeners = 0;
    polls = [];
    emitted = [];
  }

  -- A poll that starts, unless one is under way or nobody listens.
  start_poll : Subscription Item Other → Subscription Item Other
  start_poll s = if s.poll_lock || s.predicate_lock || s.listeners == 0 then s else record s {
    poll_lock = true;
    predicate_lock = true;
    tracker = advance_poll_cycle s.tracker;
    polls = s.polls ++ querying ∷ [];
  }

  unfoldable pub poll_at : ℕ → List (Waiting Item Other) → Option (Waiting Item Other)
  poll_at i [] = none
  poll_at zero (p ∷ ps) = some p
  poll_at (suc i) (p ∷ ps) = poll_at i ps

  unfoldable pub poll_over : ℕ → List (Waiting Item Other) → List (Waiting Item Other)
  poll_over i [] = []
  poll_over zero (p ∷ ps) = ps
  poll_over (suc i) (p ∷ ps) = p ∷ poll_over i ps

  unfoldable pub poll_becomes :
      ℕ → Waiting Item Other → List (Waiting Item Other) → List (Waiting Item Other)
  poll_becomes i q [] = []
  poll_becomes zero q (p ∷ ps) = q ∷ ps
  poll_becomes (suc i) q (p ∷ ps) = p ∷ poll_becomes i q ps

  -- The `finally` of `poll`.
  unfoldable pub end_poll : ℕ → Subscription Item Other → Subscription Item Other
  unfolding poll_over
  end_poll i s = record s { predicate_lock = false; poll_lock = false; polls = poll_over i s.polls }

  pause : Subscription Item Other → Subscription Item Other
  pause s = if s.poll_handle then record s { poll_handle = false; poll_lock = false } else s

  cancel : Subscription Item Other → Subscription Item Other
  unfolding pause
  cancel s = record (pause s) {
    tracker = new_tracker s.tracker.window;
    state = none;
    predicate_lock = false;
    poll_lock = false;
    listeners = 0;
  }

  -- `emit('update', …)`.
  unfoldable pub publish :
      Tracker × Option (QueryResult Item Other) → Subscription Item Other → Subscription Item Other
  publish (t, none) s = record s { tracker = t }
  publish (t, some r) s = record s { tracker = t; emitted = r ∷ s.emitted }

  fail_query : ℕ → Subscription Item Other → Option (Waiting Item Other) → Subscription Item Other
  unfolding end_poll
  fail_query i s (some querying) = end_poll i s
  fail_query i s _ = s

  unfoldable pub fail_predicate :
      ℕ → Subscription Item Other → Option (Waiting Item Other) → Subscription Item Other
  unfolding end_poll
  fail_predicate i s (some (deciding current)) = end_poll i s
  fail_predicate i s _ = s

-- Node's `isDeepStrictEqual` on results.
module _ {Item Other : Type 0}
    (is_deep_strict_equal : QueryResult Item Other → QueryResult Item Other → Bool) where
  is_unchanged : Option (QueryResult Item Other) → QueryResult Item Other → Bool
  is_unchanged none current = false
  is_unchanged (some previous) current = is_deep_strict_equal previous current

  returned :
      ℕ
      → QueryResult Item Other
      → Subscription Item Other
      → Option (Waiting Item Other)
      → Subscription Item Other
  unfolding end_poll is_unchanged poll_becomes
  returned i current s (some querying) =
      if is_unchanged s.state current
      then end_poll i s
      else record s { polls = poll_becomes i (deciding current) s.polls }
  returned i current s _ = s

-- `JSON.stringify` on items.
module _ {Item Other : Type 0} (stringify : Item → List ℕ) where
  unfoldable pub emission :
      Verdict Item Other
      → QueryResult Item Other
      → Subscription Item Other
      → Subscription Item Other
  unfolding publish
  emission silent current s = s
  emission everything current s = publish (safe_emit stringify s.tracker current) s
  emission (update r) current s = publish (safe_emit stringify s.tracker r) s

  unfoldable pub decide :
      ℕ
      → Verdict Item Other
      → Subscription Item Other
      → Option (Waiting Item Other)
      → Subscription Item Other
  unfolding end_poll emission
  decide i v s (some (deciding current)) =
      end_poll i (emission v current (record s { state = some current }))
  decide i v s _ = s

module _ {Item Other : Type 0}
    (is_deep_strict_equal : QueryResult Item Other → QueryResult Item Other → Bool)
    (stringify : Item → List ℕ) where
  -- A turn that no poll waits for changes nothing.
  unfoldable pub step : Subscription Item Other → Turn Item Other → Subscription Item Other
  unfolding start_poll poll_at returned decide fail_query fail_predicate pause cancel
  step s interval = if s.poll_handle then start_poll s else s
  step s poll_called = start_poll s
  step s (query_returned i current) = returned is_deep_strict_equal i current s (poll_at i s.polls)
  step s (query_failed i) = fail_query i s (poll_at i s.polls)
  step s (decided i v) = decide stringify i v s (poll_at i s.polls)
  step s (predicate_failed i) = fail_predicate i s (poll_at i s.polls)
  step s pause_called = pause s
  step s cancel_called = cancel s
  step s resume_called = record s { poll_handle = true }
  step s on_called = record s { listeners = s.listeners + 1 }
  step s off_called = record s { listeners = s.listeners - 1 }

  unfoldable pub run : Subscription Item Other → List (Turn Item Other) → Subscription Item Other
  run s [] = s
  run s (t ∷ ts) = run (step s t) ts

-- ===== src/QuerySubscription/OnePoll.antt =====
-- Polls of one subscription do not overlap, until `cancel()` is called.
use camunda_8_js_sdk.Base.{
  ℕ, zero, suc, ◌+◌, ◌≡◌, ◌≢◌, refl, Bool, true, Option, none, some, List, [], ◌∷◌, if◌then◌else◌,
  arith, length, length-append, All,
}
use camunda_8_js_sdk.QuerySubscription.Emission.{QueryResult}
use camunda_8_js_sdk.QuerySubscription.Poll.{
  Waiting, querying, deciding, Verdict, Subscription, Turn, interval, poll_called, query_returned,
  query_failed, decided, predicate_failed, pause_called, cancel_called, resume_called, on_called,
  off_called, new_subscription, poll_at, poll_over, poll_becomes, end_poll, emission, decide,
  fail_predicate, step, run,
}

module _ {Item Other : Type 0} where
  abbrev pub OnePoll : Subscription Item Other → Type 0
  OnePoll s = length s.polls ≡ (if s.predicate_lock then 1 else 0)

  length-poll_over :
      (i : ℕ) (ps : List (Waiting Item Other)) (p : Waiting Item Other)
      → poll_at i ps ≡ some p
      → length (poll_over i ps) + 1 ≡ length ps
  unfolding poll_at poll_over
  length-poll_over i [] p e = cc
  length-poll_over zero (q ∷ ps) p e = omega arith
  length-poll_over (suc i) (q ∷ ps) p e = omega (arith, length-poll_over i ps p e)

  length-poll_becomes :
      (i : ℕ) (q : Waiting Item Other) (ps : List (Waiting Item Other))
      → length (poll_becomes i q ps) ≡ length ps
  unfolding poll_becomes
  length-poll_becomes i q [] = refl
  length-poll_becomes zero q (p ∷ ps) = refl
  length-poll_becomes (suc i) q (p ∷ ps) = omega (arith, length-poll_becomes i q ps)

  -- A poll that ends takes the lock with it.
  end_poll-OnePoll :
      (i : ℕ) (s : Subscription Item Other) (p : Waiting Item Other)
      → poll_at i s.polls ≡ some p
      → OnePoll s
      → OnePoll (end_poll i s)
  unfolding end_poll
  end_poll-OnePoll i s p e h = ground (arith, length-poll_over i s.polls p e)

  fail_predicate-OnePoll :
      (i : ℕ) (s : Subscription Item Other) (p : Option (Waiting Item Other))
      → poll_at i s.polls ≡ p
      → OnePoll s
      → OnePoll (fail_predicate i s p)
  unfolding fail_predicate
  fail_predicate-OnePoll i s none e h = h
  fail_predicate-OnePoll i s (some querying) e h = h
  fail_predicate-OnePoll i s (some (deciding current)) e h =
      end_poll-OnePoll i s (deciding current) e h

module _ {Item Other : Type 0} (stringify : Item → List ℕ) where
  emission-OnePoll :
      (v : Verdict Item Other) (current : QueryResult Item Other) (s : Subscription Item Other)
      → (emission stringify v current s).polls ≡ s.polls
  unfolding emission
  emission-OnePoll v current s = ground arith

  decide-OnePoll :
      (i : ℕ) (v : Verdict Item Other) (s : Subscription Item Other)
      (p : Option (Waiting Item Other))
      → poll_at i s.polls ≡ p
      → OnePoll s
      → OnePoll (decide stringify i v s p)
  unfolding decide
  decide-OnePoll i v s none e h = h
  decide-OnePoll i v s (some querying) e h = h
  decide-OnePoll i v s (some (deciding current)) e h = ground (
    arith,
    length-poll_over i s.polls (deciding current) e,
    emission-OnePoll v current (record s { state = some current }),
  )

module _ {Item Other : Type 0}
    (is_deep_strict_equal : QueryResult Item Other → QueryResult Item Other → Bool)
    (stringify : Item → List ℕ) where
  step-OnePoll :
      (s : Subscription Item Other) (t : Turn Item Other)
      → t ≢ cancel_called
      → OnePoll s
      → OnePoll (step is_deep_strict_equal stringify s t)
  unfolding step
  step-OnePoll s interval n h = ground (arith, length-append s.polls (querying ∷ []))
  step-OnePoll s poll_called n h = ground (arith, length-append s.polls (querying ∷ []))
  step-OnePoll s (query_returned i current) n h =
      ground (
        arith,
        length-poll_over i s.polls querying,
        length-poll_becomes i (deciding current) s.polls,
      )
  step-OnePoll s (query_failed i) n h = ground (arith, length-poll_over i s.polls querying)
  step-OnePoll s (decided i v) n h = decide-OnePoll stringify i v s (poll_at i s.polls) refl h
  step-OnePoll s (predicate_failed i) n h = fail_predicate-OnePoll i s (poll_at i s.polls) refl h
  step-OnePoll s pause_called n h = ground arith
  step-OnePoll s cancel_called n h = absurd (n refl)
  step-OnePoll s resume_called n h = ground arith
  step-OnePoll s on_called n h = ground arith
  step-OnePoll s off_called n h = ground arith

  run-OnePoll_from :
      (s : Subscription Item Other) (ts : List (Turn Item Other))
      → All (λ t. t ≢ cancel_called) ts
      → OnePoll s
      → OnePoll (run is_deep_strict_equal stringify s ts)
  unfolding run
  run-OnePoll_from s [] all h = h
  run-OnePoll_from s (t ∷ ts) (n, all) h =
      run-OnePoll_from (step is_deep_strict_equal stringify s t) ts all (step-OnePoll s t n h)

  -- From a new subscription, whatever the timer, the caller, the query and the predicate do, as
  -- long as `cancel()` is not called: one poll waits while the predicate lock is held, and none
  -- otherwise. So no two polls are ever in flight together, and every poll that ends, well or with
  -- an error, gives the lock back.
  pub run-OnePoll :
      (tracking_window : ℕ) (ts : List (Turn Item Other))
      → All (λ t. t ≢ cancel_called) ts
      → OnePoll (run is_deep_strict_equal stringify (new_subscription tracking_window) ts)
  unfolding new_subscription
  run-OnePoll tracking_window ts all =
      run-OnePoll_from (new_subscription tracking_window) ts all refl

  -- `cancel()` gives up the locks of a poll that still waits. When the subscription is used again
  -- before that poll ends, by `resume()` and a new listener, the next interval starts a second
  -- poll beside it.
  pub cancel-overlap :
      (s : Subscription Item Other)
      → OnePoll s
      → s.predicate_lock ≡ true
      → length
          (run is_deep_strict_equal stringify s
            (cancel_called ∷ resume_called ∷ on_called ∷ interval ∷ [])).polls
        ≡ 2
  unfolding run step
  cancel-overlap s h e = ground (arith, length-append s.polls (querying ∷ []))

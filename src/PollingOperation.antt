-- ===== src/PollingOperation.antt =====
-- src/lib/PollingOperation.ts: an operation is called until a predicate accepts its result or the time is up. The
-- operation, the predicate and the timers are the caller's and the platform's.
pub mod Ends
mod Tests
use camunda_8_js_sdk.Base.{
  ℕ, zero, suc, ◌+◌, ◌==◌, Bool, true, false, Option, none, some, if◌then◌else◌, ltb,
}

-- What the default predicate sees of a result.
pub data View : Type 0 where
  missing without_items : View
  items : ℕ → View

pub data Answer (E : Type 0) : Type 0 where
  accepted refused : Answer E
  threw : E → Answer E

-- What comes of a call of the operation, with the time that it takes.
pub data Call (V E : Type 0) : Type 0 where
  returned : V → ℕ → Call V E
  failed : E → ℕ → Call V E
  pending : Call V E

-- `PredicateError` with its result, or what the operation or the predicate threw.
pub data Failure (V E : Type 0) : Type 0 where
  predicate_error : V → Failure V E
  error : E → Failure V E

pub data Ending (V E : Type 0) : Type 0 where
  resolved : V → Ending V E
  rejected : Failure V E → Ending V E
  unsettled : Ending V E

-- How the promise ends, at which call and at which time after the start.
pub record Report (V E : Type 0) : Type 0 where
  pub ending : Ending V E
  pub call : ℕ
  pub time : ℕ

-- A missing number counts as zero.
pub record Options (V E : Type 0) : Type 0 where
  pub interval : ℕ
  pub timeout : ℕ
  pub predicate : Option (V → Answer E)

-- The calls in their order, and how much later than asked each timer fires.
pub record Surroundings (V E : Type 0) : Type 0 where
  pub operation : ℕ → Call V E
  pub late : ℕ → ℕ
  pub view : V → View

unfoldable pub or_default : ℕ → ℕ → ℕ
or_default n d = if n == 0 then d else n

unfoldable pub default_predicate : {E : Type 0} → View → Answer E
default_predicate missing = refused
default_predicate without_items = refused
default_predicate (items n) = if ltb 0 n then accepted else refused

module _ {V E : Type 0} where
  unfoldable pub chosen_predicate : Surroundings V E → Option (V → Answer E) → V → Answer E
  unfolding default_predicate
  chosen_predicate s none v = default_predicate (s.view v)
  chosen_predicate s (some p) v = p v

  unfoldable pub interval_of : Options V E → ℕ
  unfolding or_default
  interval_of o = or_default o.interval 1000

  unfoldable pub timeout_of : Options V E → ℕ
  unfolding or_default
  timeout_of o = or_default o.timeout 30000

module _ {V E : Type 0} (s : Surroundings V E) (o : Options V E) where
  -- The `catch` block at a time, where `poll_at` is the next poll.
  unfoldable pub catch : (ℕ → Option (Report V E)) → ℕ → ℕ → Failure V E → Option (Report V E)
  unfolding interval_of timeout_of
  catch poll_at n now e =
      if ltb now (timeout_of o)
      then poll_at (now + interval_of o + s.late n)
      else some (record { ending = rejected e; call = n; time = now })

  unfoldable pub judged : (ℕ → Option (Report V E)) → ℕ → ℕ → V → Answer E → Option (Report V E)
  unfolding catch
  judged poll_at n now v accepted = some (record { ending = resolved v; call = n; time = now })
  judged poll_at n now v refused = catch poll_at n now (predicate_error v)
  judged poll_at n now v (threw e) = catch poll_at n now (error e)

  unfoldable pub settled : (ℕ → Option (Report V E)) → ℕ → ℕ → Call V E → Option (Report V E)
  unfolding judged chosen_predicate
  settled poll_at n t (returned v took) =
      judged poll_at n (t + took) v (chosen_predicate s o.predicate v)
  settled poll_at n t (failed e took) = catch poll_at n (t + took) (error e)
  settled poll_at n t pending = some (record { ending = unsettled; call = n; time = t })

  -- At most `fuel` calls, from call `n` at time `t`.
  unfoldable pub poll : ℕ → ℕ → ℕ → Option (Report V E)
  unfolding settled
  poll zero n t = none
  poll (suc fuel) n t = settled (λ u. poll fuel (n + 1) u) n t (s.operation n)

  unfoldable pub polling_operation : ℕ → Option (Report V E)
  unfolding poll
  polling_operation fuel = poll fuel 0 0

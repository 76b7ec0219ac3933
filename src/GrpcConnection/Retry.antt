-- ===== src/GrpcConnection/Retry.antt =====
-- `executeOperation` and `retryOnFailure` of src/zeebe/zb/ZeebeGrpcClient.ts. promise-retry is a library: whether it
-- calls the function again after a retry is a parameter.
pub mod Ends
use camunda_8_js_sdk.Base.{
  ℕ, zero, suc, ◌+◌, ◌==◌, Bool, true, false, not, ◌&&◌, ◌||◌, Option, none, some, List, [], ◌∷◌,
  if◌then◌else◌, ltb,
}

-- What is read of an error: how its message starts, what its message has in it, and its code.
pub record Failure : Type 0 where
  pub starts_with_14 : Bool
  pub starts_with_8 : Bool
  pub starts_with_16 : Bool
  pub has_stream_removed : Bool
  pub has_partition : Bool
  pub code : Option ℕ

pub data Call (V : Type 0) : Type 0 where
  returned : V → Call V
  failed : Failure → Call V

-- What the function that promise-retry calls does: `none` is the `null` of a closed client.
pub data Reply (V : Type 0) : Type 0 where
  resolves : Option V → Reply V
  retries : Failure → Reply V
  rejects : Failure → Reply V

pub data Retries : Type 0 where
  forever : Retries
  at_most : ℕ → Retries

-- The variables of `retryOnFailure`, how often it told of a connection error, and the failures it retried, the newest
-- first.
pub record Attempts : Type 0 where
  pub connection_error_count : ℕ
  pub auth_failures : ℕ
  pub connection_errors_told : ℕ
  pub retried : List Failure

pub record Report (V : Type 0) : Type 0 where
  pub reply : Reply V
  pub call : ℕ
  pub attempts : Attempts

-- At each call, from 1 on: whether the client is closed before the operation and after it failed, and what the
-- operation does.
pub record Surroundings (V : Type 0) : Type 0 where
  pub closed_before : ℕ → Bool
  pub closed_after : ℕ → Bool
  pub operation : ℕ → Call V

unfoldable pub has_code : ℕ → Option ℕ → Bool
has_code c none = false
has_code c (some d) = c == d

unfoldable pub is_network_error : Failure → Bool
is_network_error f = (f.starts_with_14 || f.has_stream_removed) && not f.has_partition

unfoldable pub is_backpressure : Failure → Bool
unfolding has_code
is_backpressure f = f.starts_with_8 || has_code 8 f.code || has_code 4 f.code

unfoldable pub is_transient : Failure → Bool
unfolding is_network_error is_backpressure
is_transient f = is_network_error f || is_backpressure f

unfoldable pub executed_retries : Bool → Retries → Retries
executed_retries retry max_retries = if retry then max_retries else at_most 0

unfoldable pub tell_connection_error : Attempts → Attempts
tell_connection_error a =
    if ltb a.connection_error_count 0
    then record a { connection_errors_told = a.connection_errors_told + 1 }
    else a

unfoldable pub count_connection_error : Attempts → Attempts
unfolding tell_connection_error
count_connection_error a =
    let b = tell_connection_error a in
    record b { connection_error_count = b.connection_error_count + 1 }

unfoldable pub ask_retry : {V : Type 0} → Failure → Attempts → Reply V × Attempts
ask_retry f a = (retries f, record a { retried = f ∷ a.retried })

-- The `catch` of an operation; a test is reached only when the ones before it did not throw.
unfoldable pub retry_or_throw : {V : Type 0} → Bool → Failure → Attempts → Reply V × Attempts
unfolding is_transient ask_retry
retry_or_throw closed f a =
    if is_transient f
    then ask_retry f a
    else if f.starts_with_16 && a.auth_failures == 0
    then ask_retry f (record a { auth_failures = 1 })
    else if closed
    then (resolves none, a)
    else (rejects f, a)

unfoldable pub handle_failure : {V : Type 0} → Bool → Failure → Attempts → Reply V × Attempts
unfolding is_network_error count_connection_error retry_or_throw
handle_failure closed f a =
    retry_or_throw closed f (if is_network_error f then count_connection_error a else a)

unfoldable pub settle_call : {V : Type 0} → Bool → Call V → Attempts → Reply V × Attempts
unfolding handle_failure
settle_call closed (returned v) a = (resolves (some v), a)
settle_call closed (failed f) a = handle_failure closed f a

-- Call `n` of the function.
unfoldable pub attempt : {V : Type 0} → Surroundings V → ℕ → Attempts → Reply V × Attempts
unfolding settle_call
attempt s n a =
    if s.closed_before n
    then (resolves none, a)
    else settle_call (s.closed_after n) (s.operation n) a

module _ {V : Type 0} (again : ℕ → Bool) (s : Surroundings V) where
  -- What promise-retry makes of a reply to call `n`.
  unfoldable pub next_attempt :
      (Attempts → Option (Report V)) → ℕ → Reply V × Attempts → Option (Report V)
  next_attempt call_again n (resolves v, a) =
      some (record { reply = resolves v; call = n; attempts = a })
  next_attempt call_again n (rejects f, a) =
      some (record { reply = rejects f; call = n; attempts = a })
  next_attempt call_again n (retries f, a) =
      if again n then call_again a else some (record { reply = rejects f; call = n; attempts = a })

  unfoldable pub retry_from : ℕ → ℕ → Attempts → Option (Report V)
  unfolding next_attempt attempt
  retry_from zero n a = none
  retry_from (suc fuel) n a = next_attempt (λ b. retry_from fuel (n + 1) b) n (attempt s n a)

  unfoldable pub retry_on_failure : ℕ → Option (Report V)
  unfolding retry_from
  retry_on_failure fuel = retry_from fuel 1 (record {
    connection_error_count = 0;
    auth_failures = 0;
    connection_errors_told = 0;
    retried = [];
  })

-- ===== src/GrpcConnection/Retry/Ends.antt =====
-- What the retries of an operation come to.
use camunda_8_js_sdk.Base.{
  ℕ, zero, suc, ◌+◌, ◌≤◌, ◌<◌, ◌==◌, ◌≡◌, ◌≢◌, ◌⊎◌, inl, inr, refl, sym, subst, ◌∙◌, Bool, true,
  false, ◌&&◌, Option, none, some, List, [], ◌∷◌, if◌then◌else◌, ltb, arith, if_rule,
}
use camunda_8_js_sdk.GrpcConnection.Retry.{
  Failure, Call, returned, failed, Reply, resolves, retries, rejects, Retries, forever, at_most,
  Attempts, Report, Surroundings, is_network_error, is_transient, executed_retries,
  tell_connection_error, count_connection_error, ask_retry, retry_or_throw, handle_failure,
  settle_call, attempt, next_attempt, retry_from, retry_on_failure,
}

-- The failures that are retried as authentication errors alone.
abbrev pub count_auth : List Failure → ℕ
count_auth [] = 0
count_auth (f ∷ fs) = (if is_transient f then 0 else 1) + count_auth fs

abbrev pub AreRetryable : List Failure → Type 0
AreRetryable [] = Unit
AreRetryable (f ∷ fs) = ((is_transient f ≡ true) ⊎ (f.starts_with_16 ≡ true)) × AreRetryable fs

abbrev Counted : Attempts → Type 0
Counted a =
    (a.connection_errors_told ≡ 0)
    × (count_auth a.retried ≡ a.auth_failures)
    × (a.auth_failures ≤ 1)
    × AreRetryable a.retried

-- What promise-retry documents of a limit: after so many retries it does not call again.
abbrev pub Honours : (ℕ → Bool) → Retries → Type 0
Honours again forever = Unit
Honours again (at_most r) = (n : ℕ) → r < n → again n ≡ false

true-false : true ≢ false
true-false e = cc

count_connection_error-Counted : (a : Attempts) → Counted a → Counted (count_connection_error a)
unfolding count_connection_error tell_connection_error
count_connection_error-Counted a h =
    if_rule
      (λ (b : Attempts).
        Counted (record b { connection_error_count = b.connection_error_count + 1 }))
      (ltb a.connection_error_count 0) (λ e. absurd (ground arith)) (λ e. h)

retried_transient :
    (f : Failure) (a : Attempts)
    → is_transient f ≡ true
    → Counted a
    → Counted (record a { retried = f ∷ a.retried })
retried_transient f a passing (told, auths, few, retryable) =
    (told, rw passing (ground arith), few, (inl passing, retryable))

retried_auth :
    (f : Failure) (a : Attempts)
    → is_transient f ≡ false
    → (f.starts_with_16 && a.auth_failures == 0) ≡ true
    → Counted a
    → Counted (record a { auth_failures = 1; retried = f ∷ a.retried })
retried_auth f a lasting first (told, auths, few, retryable) =
    (told, rw lasting (ground arith), ground arith, (inr (ground arith), retryable))

module _ {V : Type 0} (s : Surroundings V) where
  abbrev pub Explains : ℕ → Reply V → Type 0
  Explains n (resolves (some v)) = s.operation n ≡ returned v
  Explains n (resolves none) = (s.closed_before n ≡ true) ⊎ (s.closed_after n ≡ true)
  Explains n (retries f) = s.operation n ≡ failed f
  Explains n (rejects f) = s.operation n ≡ failed f

  abbrev Attempted : ℕ → Reply V × Attempts → Type 0
  Attempted n (reply, a) = Explains n reply × Counted a

  retry_or_throw-Attempted :
      (n : ℕ) (f : Failure) (a : Attempts)
      → s.operation n ≡ failed f
      → Counted a
      → Attempted n (retry_or_throw (s.closed_after n) f a)
  unfolding retry_or_throw ask_retry
  retry_or_throw-Attempted n f a e h =
      if_rule (λ (r : Reply V × Attempts). Attempted n r) (is_transient f)
        (λ passing. (e, retried_transient f a passing h))
        (λ lasting.
          if_rule (λ (r : Reply V × Attempts). Attempted n r)
            (f.starts_with_16 && a.auth_failures == 0)
            (λ first. (e, retried_auth f a lasting first h))
            (λ later.
              if_rule (λ (r : Reply V × Attempts). Attempted n r) (s.closed_after n)
                (λ closed. (inr closed, h)) (λ x. (e, h))))

  settle_call-Attempted :
      (n : ℕ) (c : Call V) (a : Attempts)
      → s.operation n ≡ c
      → Counted a
      → Attempted n (settle_call (s.closed_after n) c a)
  unfolding settle_call handle_failure
  settle_call-Attempted n (returned v) a e h = (e, h)
  settle_call-Attempted n (failed f) a e h =
      retry_or_throw-Attempted n f (if is_network_error f then count_connection_error a else a) e (
        if_rule (λ (b : Attempts). Counted b) (is_network_error f)
          (λ x. count_connection_error-Counted a h) (λ x. h))

  attempt-Attempted : (n : ℕ) (a : Attempts) → Counted a → Attempted n (attempt s n a)
  unfolding attempt
  attempt-Attempted n a h =
      if_rule (λ (r : Reply V × Attempts). Attempted n r) (s.closed_before n)
        (λ closed. (inl closed, h)) (λ x. settle_call-Attempted n (s.operation n) a refl h)

  abbrev pub EndsBy : ℕ → Option (Report V) → Type 0
  EndsBy last p =
      (r : Report V) × (p ≡ some r)
      × Explains r.call r.reply
      × (r.call ≤ last)
      × (count_auth r.attempts.retried ≤ 1)
      × AreRetryable r.attempts.retried
      × (r.attempts.connection_errors_told ≡ 0)

  over-EndsBy :
      (n last : ℕ) (reply : Reply V) (a : Attempts)
      → Explains n reply
      → Counted a
      → n ≤ last
      → EndsBy last (some (record { reply = reply; call = n; attempts = a }))
  over-EndsBy n last reply a e (told, auths, few, retryable) le =
      (record { reply = reply; call = n; attempts = a }, refl, e, le, ground arith, retryable, told)

  next_attempt-EndsBy :
      (again : ℕ → Bool) (call_again : Attempts → Option (Report V)) (n last : ℕ) (r : Reply V)
      (a : Attempts)
      → Attempted n (r, a)
      → n ≤ last
      → (again n ≡ true → Counted a → EndsBy last (call_again a))
      → EndsBy last (next_attempt again s call_again n (r, a))
  unfolding next_attempt
  next_attempt-EndsBy again call_again n last (resolves (some v)) a (e, h) le more =
      over-EndsBy n last (resolves (some v)) a e h le
  next_attempt-EndsBy again call_again n last (resolves none) a (e, h) le more =
      over-EndsBy n last (resolves none) a e h le
  next_attempt-EndsBy again call_again n last (rejects f) a (e, h) le more =
      over-EndsBy n last (rejects f) a e h le
  next_attempt-EndsBy again call_again n last (retries f) a (e, h) le more =
      if_rule (λ (p : Option (Report V)). EndsBy last p) (again n) (λ repeats. more repeats h)
        (λ x. over-EndsBy n last (rejects f) a e h le)

  retry_from-EndsBy :
      (again : ℕ → Bool) (r fuel n : ℕ) (a : Attempts)
      → Honours again (at_most r)
      → n + fuel ≡ r + 1
      → Counted a
      → EndsBy (r + 1) (retry_from again s (suc fuel) n a)
  unfolding retry_from
  retry_from-EndsBy again r zero n a limit sum h =
      let (reply, b) = attempt s n a in
      next_attempt-EndsBy again (λ b. none) n (r + 1) reply b (attempt-Attempted n a h)
        (ground arith) (λ repeats x. absurd (true-false (sym repeats ∙ limit n (ground arith))))
  retry_from-EndsBy again r (suc fuel) n a limit sum h =
      let (reply, b) = attempt s n a in
      next_attempt-EndsBy again (λ b. retry_from again s (suc fuel) (n + 1) b) n (r + 1) reply b
        (attempt-Attempted n a h) (ground arith)
        (λ repeats x. retry_from-EndsBy again r fuel (n + 1) b limit (ground arith) x)

  -- With a limit of `r` retries, which is 0 when the client does not retry, that promise-retry keeps: an operation is
  -- over after at most `r` + 1 calls. It resolves with what the last call returned, or with `null` only when the
  -- client was closed before or after the last call; it rejects only with what the last call failed with. Each
  -- failure that was retried is a network error, backpressure or an authentication error, at most one of them is
  -- an authentication error alone, and a connection error is never told to the client.
  pub retry_on_failure-EndsBy :
      (again : ℕ → Bool) (retry : Bool) (max_retries : Retries) (r : ℕ)
      (limited : executed_retries retry max_retries ≡ at_most r)
      (honoured : Honours again (executed_retries retry max_retries))
      → EndsBy (r + 1) (retry_on_failure again s (suc r))
  unfolding retry_on_failure
  retry_on_failure-EndsBy again retry max_retries r limited honoured =
      retry_from-EndsBy again r r 1
        (record {
          connection_error_count = 0;
          auth_failures = 0;
          connection_errors_told = 0;
          retried = [];
        })
        (subst (Honours again) limited honoured) (ground arith) (refl, refl, ground arith, tt)

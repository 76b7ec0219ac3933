-- ===== src/StreamLifecycle/Backoff.antt =====
-- The reconnect delay: it doubles from the initial delay up to the maximum.
use native.Mathlib.Nat.{pow-succ'}
use camunda_8_js_sdk.Base.{ℕ, zero, suc, ◌+◌, ◌*◌, ◌^◌, ◌-◌, ◌≤◌, ◌≡◌, min, arith}
use camunda_8_js_sdk.StreamLifecycle.{backoff_delay_ms}

-- From a first attempt at the initial delay, each further attempt waits twice as long as the one
-- before, up to the maximum, which is never passed.
pub backoff_delay_ms-doubles :
    (attempt initial_delay_ms max_delay_ms : ℕ)
    → initial_delay_ms ≤ max_delay_ms
    → 1 ≤ attempt
    → (backoff_delay_ms 1 initial_delay_ms max_delay_ms ≡ initial_delay_ms)
      × (backoff_delay_ms (attempt + 1) initial_delay_ms max_delay_ms
          ≡ min (2 * backoff_delay_ms attempt initial_delay_ms max_delay_ms) max_delay_ms)
      × (backoff_delay_ms attempt initial_delay_ms max_delay_ms ≤ max_delay_ms)
unfolding backoff_delay_ms
backoff_delay_ms-doubles zero i m h pos = elim pos [ ]
backoff_delay_ms-doubles (suc n) i m h pos = (omega arith, next, omega arith)
  where
    exponents : (suc n + 1 - 1 ≡ suc n) × (suc n - 1 ≡ n)
    exponents = (omega arith, omega arith)

    next : min (i * 2 ^ (suc n + 1 - 1)) m ≡ min (2 * min (i * 2 ^ (suc n - 1)) m) m
    next = rw (exponents.0, exponents.1, pow-succ' 2 n) (omega arith)

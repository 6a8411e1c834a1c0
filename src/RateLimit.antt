-- ===== src/RateLimit.antt =====
-- internal/runner/ratelimit/rate_limiter.go: the request budget, its guards, and the interface that
-- the scheduler uses. The implementations are in the modules below.
pub mod Budget
pub mod Contract
pub mod Local
pub mod Redis
pub mod Instrumented
pub mod Totals
mod Tests
use kurama.Base.{ltb, if◌then◌else◌, ℤ, pos, ltz, to_ℕ, ℕ, ◌≤◌, ◌≡◌, not, none, arith}
use kurama.Base.Result.{Result, ok, ◌>>=◌, ◌>>◌, fail_if}
use kurama.Base.Context.{Context, ContextError, check_context, live_context}

-- `Window` is a `time.Duration` in nanoseconds.
pub record Limit : Type 0 where
  pub requests : ℤ
  pub window : ℤ

pub record Decision : Type 0 where
  pub granted : ℤ
  pub retry_after : ℤ

-- What a Redis command fails with.
pub data RedisError : Type 0 where
  connection_failed reply_malformed nil_reply : RedisError

pub data LimitError : Type 0 where
  limit_context : ContextError → LimitError
  requests_not_positive window_not_positive : LimitError
  permits_not_positive permits_exceed_budget : LimitError
  window_below_microsecond : LimitError
  redis_failed : RedisError → LimitError
  unexpected_result_length : ℕ → LimitError

-- `Limit.Validate`
unfoldable pub validate : Limit → Result LimitError (Unit {0})
validate l = do
  fail_if (ltz l.requests (pos 1)) requests_not_positive
  fail_if (not (ltz (pos 0) l.window)) window_not_positive

-- `validatePermits`
unfoldable pub validate_permits : Limit → ℤ → Result LimitError (Unit {0})
validate_permits l permits = do
  fail_if (ltz permits (pos 1)) permits_not_positive
  fail_if (ltz l.requests permits) permits_exceed_budget

-- The interface `Limiter`, over the state that an implementation changes.
pub record Limiter {ℓ} (S : Type ℓ) : Type ℓ where
  pub try_acquire : Context → Limit → ℤ → S → Result LimitError Decision × S

-- The decision for a grant out of `permits`: a partial one names the time to the next window.
unfoldable pub decision : ℕ → ℕ → ℕ → Decision
decision permits granted wait = record {
  granted = pos granted;
  retry_after = if ltb granted permits then pos wait else pos 0;
}

-- The arguments that pass both guards.
pub record Admissible (l : Limit) (permits : ℤ) (requests window wanted : ℕ) : Type 0 where
  pub requests_eq : l.requests ≡ pos requests
  pub window_eq : l.window ≡ pos window
  pub permits_eq : permits ≡ pos wanted
  pub window_pos : 1 ≤ window
  pub wanted_pos : 1 ≤ wanted
  pub wanted_le : wanted ≤ requests

-- The guards that every `TryAcquire` begins with.
unfoldable pub check_call : Context → Limit → ℤ → Result LimitError (Unit {0})
unfolding validate validate_permits
check_call ctx l permits = do
  check_context ctx limit_context
  validate l
  validate_permits l permits

-- Admissible arguments pass them on a live context.
pub check_call-Admissible :
    (l : Limit) (permits : ℤ) {requests window wanted : ℕ}
    → Admissible l permits requests window wanted
    → check_call live_context l permits ≡ ok tt
unfolding check_call
check_call-Admissible l permits a = rw (a.requests_eq, a.window_eq, a.permits_eq) (ground arith)

-- A call that passes the guards has a context that has not ended and admissible arguments: a
-- positive window and a positive number of permits of at most the budget.
pub check_call-eq-ok :
    (ctx : Context) (l : Limit) (permits : ℤ)
    → check_call ctx l permits ≡ ok tt
    → (ctx.error ≡ none) × Admissible l permits (to_ℕ l.requests) (to_ℕ l.window) (to_ℕ permits)
unfolding check_call
check_call-eq-ok ctx l permits h = ground arith

-- ===== src/RateSchedule.antt =====
-- internal/runner/rateschedule: how many requests a minute the scheduler may plan. The redis
-- schedule and the decorator are in the modules below.
pub mod RedisUniform
pub mod Instrumented
mod Tests
use kurama.Base.{ℤ}
use kurama.Base.Result.{Result, ok, ◌>>=◌, ◌>>◌}
use kurama.Base.Context.{Context, ContextError, check_context}
use kurama.RateLimit.{RedisError}

pub data ScheduleError : Type 0 where
  schedule_context : ContextError → ScheduleError
  select_failed : RedisError → ScheduleError

-- The interface `Schedule`, over the state that an implementation changes.
pub record Schedule {ℓ} (S : Type ℓ) : Type ℓ where
  pub requests_per_minute : Context → S → Result ScheduleError ℤ × S

pub record Fixed : Type 0 where
  pub requests_per_minute : ℤ

abbrev pub new_fixed : ℤ → Fixed
new_fixed rpm = record { requests_per_minute = rpm }

-- `Fixed.RequestsPerMinute`
unfoldable pub fixed_requests_per_minute : Fixed → Context → Result ScheduleError ℤ
fixed_requests_per_minute f ctx = do check_context ctx schedule_context; ok f.requests_per_minute

abbrev pub fixed_schedule {ℓ} : {S : Type ℓ} → Fixed → Schedule S
fixed_schedule f = record { requests_per_minute = λ ctx s. (fixed_requests_per_minute f ctx, s) }

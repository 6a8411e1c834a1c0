-- ===== src/Scheduler/State.antt =====
-- `Scheduler`, its options and `NewScheduler` of internal/runner/scheduler.go and
-- scheduler_options.go. The limiter, the schedule and the executor change one state.
use kurama.Base.{
  ltb, ◌==◌, if◌then◌else◌, length, outside, Bytes, eqs, ℕ, ◌+◌, ◌||◌, Option, none, some, List, [],
  ◌∷◌,
}
use kurama.Base.Result.{Result, ok, err, ◌>>=◌, ◌>>◌, fail_if, wrap_err}
use kurama.Config.{OperationConfig, RateConfig, max_operations}
use kurama.Execution.{OperationExecutor}
use kurama.Profile.{Timing, ProfileError, new}
use kurama.RateLimit.{Limiter}
use kurama.RateSchedule.{Schedule, new_fixed, fixed_schedule}
use kurama.Scheduler.Picker.{WeightedRandom}
use kurama.Validation.Rate.{
  RateError, validate_rate_schedule, validate_rate_profile, schedule_fixed,
}
use kurama.Validation.ProfileAccepts.{profile_config}

pub data SchedulerError : Type 0 where
  rate_invalid : RateError → SchedulerError
  bad_operation_count : SchedulerError
  bad_weight : ℕ → SchedulerError
  nil_executor : SchedulerError
  profile_failed : ProfileError → SchedulerError
  schedule_required : Bytes → SchedulerError

-- `random n` is the weighted random source at the attempt `n` of a slot. The execution handler is
-- not here: the operations return what it is called with.
pub record Scheduler {ℓ} (S : Type ℓ) : Type ℓ where
  pub profile : Timing
  pub operations : List OperationConfig
  pub executor : OperationExecutor S
  pub random : ℕ → WeightedRandom
  pub limiter : Limiter S
  pub schedule : Option (Schedule S)

-- `SchedulerOption`; an argument that is nil changes nothing.
pub data SchedulerOption {ℓ} (S : Type ℓ) : Type ℓ where
  with_weighted_random_source : Option (ℕ → WeightedRandom) → SchedulerOption S
  with_rate_limiter : Option (Limiter S) → SchedulerOption S
  with_rate_schedule : Option (Schedule S) → SchedulerOption S

-- `operations[i].weight must be between 1 and 10000`
unfoldable pub validate_weights : ℕ → List OperationConfig → Result SchedulerError (Unit {0})
validate_weights i [] = ok tt
validate_weights i (o ∷ os) = do
  fail_if (outside 1 10_000 o.weight) (bad_weight i)
  validate_weights (i + 1) os

module _ {ℓ} {S : Type ℓ} where
  unfoldable pub apply_option : SchedulerOption S → Scheduler S → Scheduler S
  apply_option (with_weighted_random_source none) sch = sch
  apply_option (with_weighted_random_source (some r)) sch = record sch { random = r }
  apply_option (with_rate_limiter none) sch = sch
  apply_option (with_rate_limiter (some l)) sch = record sch { limiter = l }
  apply_option (with_rate_schedule none) sch = sch
  apply_option (with_rate_schedule (some p)) sch = record sch { schedule = some p }

  unfoldable pub apply_options : List (SchedulerOption S) → Scheduler S → Scheduler S
  unfolding apply_option
  apply_options [] sch = sch
  apply_options (o ∷ os) sch = apply_options os (apply_option o sch)

  abbrev pub default_schedule : RateConfig → Option (Schedule S)
  default_schedule rate =
      if eqs rate.schedule.type schedule_fixed
      then some (fixed_schedule (new_fixed rate.schedule.requests_per_minute))
      else none

  -- A scheduler without a schedule is refused.
  unfoldable pub check_schedule :
      Bytes → Option (Schedule S) → Scheduler S → Result SchedulerError (Scheduler S)
  check_schedule type none sch = err (schedule_required type)
  check_schedule type (some p) sch = ok sch

  -- `NewScheduler`, with the global random source and a new local limiter as the defaults.
  unfoldable pub new_scheduler :
      (ℕ → WeightedRandom)
      → Limiter S
      → RateConfig
      → List OperationConfig
      → Option (OperationExecutor S)
      → List (SchedulerOption S)
      → Result SchedulerError (Scheduler S)
  unfolding apply_options check_schedule validate_weights
  new_scheduler global_random local_limiter rate operations executor options = do
    wrap_err rate_invalid (validate_rate_schedule rate.schedule)
    wrap_err rate_invalid (validate_rate_profile rate.profile)
    fail_if ((length operations == 0) || ltb max_operations (length operations)) bad_operation_count
    validate_weights 0 operations
    executor ← elim executor [ none ↦ err nil_executor | some e ↦ ok e ]
    profile ← wrap_err profile_failed (new (profile_config rate.profile))
    let sch : Scheduler S = apply_options options (record {
      profile = profile;
      operations = operations;
      executor = executor;
      random = global_random;
      limiter = local_limiter;
      schedule = default_schedule rate;
    })
    check_schedule rate.schedule.type sch.schedule sch

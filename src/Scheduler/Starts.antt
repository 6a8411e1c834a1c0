-- ===== src/Scheduler/Starts.antt =====
-- From an accepted configuration to a scheduler.
use kurama.Base.{
  ltb, ◌==◌, length, All, Bytes, elem, ℕ, ◌+◌, ◌≤◌, ◌≡◌, ◌⊎◌, true, ◌||◌, Option, some, List, [],
  ◌∷◌, arith,
}
use kurama.Base.Result.{ok, fail_if, wrap_err, fail_if-eq-ok, >>=-eq-ok}
use kurama.Config.{Config, OperationConfig, max_operations}
use kurama.Execution.{OperationExecutor}
use kurama.Profile.Accepts.{Describes}
use kurama.RateLimit.{Limiter}
use kurama.Scheduler.Creates.{WeightsOk, supplies, new_scheduler-accepts}
use kurama.Scheduler.Picker.{WeightedRandom}
use kurama.Scheduler.State.{Scheduler, SchedulerOption, new_scheduler}
use kurama.Store.{ValidatedStoreConfigs, validate_store_configs}
use kurama.Validation.Config.{
  ParsedUrl, bad_rate, bad_stores, bad_operation, operation_count, duplicate_operation,
  validate_target, validate_limiter, validate_operations, validate,
}
use kurama.Validation.Operation.{validate_operation}
use kurama.Validation.Rate.{validate_rate_schedule, validate_rate_profile, schedule_fixed}
use kurama.Validation.ProfileAccepts.{profile_config, SmallBatches}
use kurama.Validation.Sound.{OperationOk, validate_operation-OperationOk}

-- Every operation of an accepted configuration is accepted with the declared stores.
validate_operations-OperationOk :
    (i : ℕ) (names stores : List Bytes) (os : List OperationConfig)
    → validate_operations i names stores os ≡ ok tt
    → All (OperationOk stores) os
unfolding validate_operations
validate_operations-OperationOk i names stores [] h = tt
validate_operations-OperationOk i names stores (o ∷ os) h =
    let (a, accepted, h1) =
      >>=-eq-ok (wrap_err (bad_operation i) (validate_operation o stores)) _ h in
    let (b, fresh, h2) = >>=-eq-ok (fail_if (elem o.name names) (duplicate_operation i)) _ h1 in
    (
      validate_operation-OperationOk o stores (ground (arith, accepted)),
      validate_operations-OperationOk (i + 1) (o.name ∷ names) stores os h2,
    )

OperationOk-WeightsOk :
    (stores : List Bytes) (os : List OperationConfig) → All (OperationOk stores) os → WeightsOk os
OperationOk-WeightsOk stores [] h = tt
OperationOk-WeightsOk stores (o ∷ os) h = (h.0.weight_range, OperationOk-WeightsOk stores os h.1)

-- What the scheduler relies on.
pub record Startable (c : Config) : Type 0 where
  pub schedule_ok : validate_rate_schedule c.rate.schedule ≡ ok tt
  pub profile_ok : validate_rate_profile c.rate.profile ≡ ok tt
  pub some_operations : 1 ≤ length c.operations
  pub few_operations : length c.operations ≤ max_operations
  pub weights_ok : WeightsOk c.operations
  pub stores : ValidatedStoreConfigs
  pub stores_ok : validate_store_configs c.stores ≡ ok stores

pub validate-Startable :
    (parse : Bytes → Option ParsedUrl) (c : Config) → validate parse c ≡ ok tt → Startable c
unfolding validate
validate-Startable parse c h =
    let (a, target, h1) = >>=-eq-ok (validate_target parse c.target) _ h in
    let (b, sched, h2) =
      >>=-eq-ok (wrap_err bad_rate (validate_rate_schedule c.rate.schedule)) _ h1 in
    let (d, limiter, h3) = >>=-eq-ok (validate_limiter c.rate.limiter) _ h2 in
    let (e, prof, h4) = >>=-eq-ok (wrap_err bad_rate (validate_rate_profile c.rate.profile)) _ h3 in
    let (stores, declared, h5) =
      >>=-eq-ok (wrap_err bad_stores (validate_store_configs c.stores)) _ h4 in
    let counted = (length c.operations == 0) || ltb max_operations (length c.operations) in
    let (f, count, h6) = >>=-eq-ok (fail_if counted operation_count) _ h5 in
    let few = fail_if-eq-ok counted operation_count f count in
    record {
      schedule_ok = ground (arith, sched);
      profile_ok = ground (arith, prof);
      some_operations = ground (arith, few);
      few_operations = ground (arith, few);
      weights_ok =
          OperationOk-WeightsOk stores.names c.operations
            (validate_operations-OperationOk 0 [] stores.names c.operations h6);
      stores = stores;
      stores_ok = ground (arith, declared);
    }

-- A configuration that `Validate` accepts always gives a scheduler with its operations and its
-- profile, when there is an executor and the schedule is fixed or an option supplies one.
pub validate-new_scheduler {ℓ} :
    {S : Type ℓ} (parse : Bytes → Option ParsedUrl) (global_random : ℕ → WeightedRandom)
    (local_limiter : Limiter S) (c : Config) (executor : OperationExecutor S)
    (options : List (SchedulerOption S))
    → validate parse c ≡ ok tt
    → (c.rate.schedule.type ≡ schedule_fixed) ⊎ (supplies options ≡ true)
    → (sch : Scheduler S) × (new_scheduler global_random local_limiter c.rate c.operations
          (some executor)
          options
        ≡ ok sch)
      × (sch.operations ≡ c.operations)
      × Describes (profile_config c.rate.profile) sch.profile
      × SmallBatches sch.profile
validate-new_scheduler parse random limiter c executor options h by =
    let s = validate-Startable parse c h in
    new_scheduler-accepts random limiter c.rate c.operations executor options s.schedule_ok
      s.profile_ok s.some_operations s.few_operations s.weights_ok by

-- ===== src/Scheduler/Creates.antt =====
-- When `NewScheduler` returns a scheduler, and what it guarantees of it.
use kurama.Base.{
  ltb, ◌==◌, length, All, ℤ, pos, negsuc, to_ℕ, InRange, outside-InRange, InRange-outside, Bytes,
  eqs_iff, ℕ, ◌+◌, ◌≤◌, ◌≡◌, refl, sym, ap, ◌∙◌, subst, ◌⊎◌, Bool, true, false, ◌||◌, Option, none,
  some, List, [], ◌∷◌, arith,
}
use kurama.Base.Result.{ok, err, fail_if, wrap_err, fail_if-eq-ok, >>=-eq-ok}
use kurama.Config.{OperationConfig, RateConfig, max_operations}
use kurama.Execution.{OperationExecutor}
use kurama.Profile.{new}
use kurama.Profile.Accepts.{Describes, new-Describes}
use kurama.RateLimit.{Limiter}
use kurama.RateSchedule.{Schedule}
use kurama.Scheduler.Fallback.{Weighted}
use kurama.Scheduler.Picker.{WeightedRandom}
use kurama.Scheduler.Slot.{candidates_of}
use kurama.Scheduler.State.{
  Scheduler, SchedulerOption, with_weighted_random_source, with_rate_limiter, with_rate_schedule,
  validate_weights, apply_option, apply_options, default_schedule, check_schedule, new_scheduler,
  rate_invalid, bad_operation_count, nil_executor, profile_failed,
}
use kurama.Validation.Rate.{validate_rate_schedule, validate_rate_profile, schedule_fixed}
use kurama.Validation.ProfileAccepts.{profile_config, validate_rate_profile-new, SmallBatches}

-- Every weight is in range.
abbrev pub WeightsOk : List OperationConfig → Type 0
WeightsOk os = All (λ o. InRange 1 10_000 o.weight) os

validate_weights-WeightsOk :
    (i : ℕ) (os : List OperationConfig) → validate_weights i os ≡ ok tt → WeightsOk os
unfolding validate_weights
validate_weights-WeightsOk i [] h = tt
validate_weights-WeightsOk i (o ∷ os) h = (
  outside-InRange 1 10_000 o.weight (ground arith),
  validate_weights-WeightsOk (i + 1) os (ground arith),
)

WeightsOk-validate_weights :
    (i : ℕ) (os : List OperationConfig) → WeightsOk os → validate_weights i os ≡ ok tt
unfolding validate_weights
WeightsOk-validate_weights i [] w = refl
WeightsOk-validate_weights i (o ∷ os) w =
    ground (arith, InRange-outside 1 10_000 o.weight w.0, WeightsOk-validate_weights (i + 1) os w.1)

InRange-positive : (z : ℤ) → InRange 1 10_000 z → 1 ≤ to_ℕ z
InRange-positive (pos n) h = h.0
InRange-positive (negsuc n) h = absurd h

WeightsOk-Weighted : (os : List OperationConfig) → WeightsOk os → Weighted (candidates_of os)
WeightsOk-Weighted [] w = tt
WeightsOk-Weighted (o ∷ os) w = (InRange-positive o.weight w.0, WeightsOk-Weighted os w.1)

module _ {ℓ} {S : Type ℓ} where
  -- The options bring a schedule.
  abbrev pub supplies : List (SchedulerOption S) → Bool
  supplies [] = false
  supplies (with_weighted_random_source r ∷ os) = supplies os
  supplies (with_rate_limiter l ∷ os) = supplies os
  supplies (with_rate_schedule none ∷ os) = supplies os
  supplies (with_rate_schedule (some p) ∷ os) = true

  -- What the options leave alone.
  abbrev Kept : Scheduler S → Scheduler S → Type 0
  Kept sch sch' = (sch'.operations ≡ sch.operations) × (sch'.profile ≡ sch.profile)

  apply_option-Kept : (o : SchedulerOption S) (sch : Scheduler S) → Kept sch (apply_option o sch)
  unfolding apply_option
  apply_option-Kept (with_weighted_random_source none) sch = (refl, refl)
  apply_option-Kept (with_weighted_random_source (some r)) sch = (refl, refl)
  apply_option-Kept (with_rate_limiter none) sch = (refl, refl)
  apply_option-Kept (with_rate_limiter (some l)) sch = (refl, refl)
  apply_option-Kept (with_rate_schedule none) sch = (refl, refl)
  apply_option-Kept (with_rate_schedule (some p)) sch = (refl, refl)

  apply_options-Kept :
      (os : List (SchedulerOption S)) (sch : Scheduler S) → Kept sch (apply_options os sch)
  unfolding apply_options
  apply_options-Kept [] sch = (refl, refl)
  apply_options-Kept (o ∷ os) sch =
      let a = apply_option-Kept o sch in
      let b = apply_options-Kept os (apply_option o sch) in (b.0 ∙ a.0, b.1 ∙ a.1)

  -- A schedule that is set stays set.
  abbrev has_schedule : Scheduler S → Bool
  has_schedule sch = elim sch.schedule [ none ↦ false | some p ↦ true ]

  has_schedule-apply_options :
      (os : List (SchedulerOption S)) (sch : Scheduler S)
      → has_schedule (apply_options os sch) ≡ (has_schedule sch || supplies os)
  unfolding apply_options apply_option
  has_schedule-apply_options [] sch = ground arith
  has_schedule-apply_options (with_weighted_random_source none ∷ os) sch =
      has_schedule-apply_options os sch
  has_schedule-apply_options (with_weighted_random_source (some r) ∷ os) sch =
      has_schedule-apply_options os (record sch { random = r })
  has_schedule-apply_options (with_rate_limiter none ∷ os) sch = has_schedule-apply_options os sch
  has_schedule-apply_options (with_rate_limiter (some l) ∷ os) sch =
      has_schedule-apply_options os (record sch { limiter = l })
  has_schedule-apply_options (with_rate_schedule none ∷ os) sch = has_schedule-apply_options os sch
  has_schedule-apply_options (with_rate_schedule (some p) ∷ os) sch =
      ground (arith, has_schedule-apply_options os (record sch { schedule = some p }))

  check_schedule-set :
      (type : Bytes) (p : Option (Schedule S)) (sch : Scheduler S)
      → (elim p [ none ↦ false | some q ↦ true ]) ≡ true
      → check_schedule type p sch ≡ ok sch
  unfolding check_schedule
  check_schedule-set type none sch h = absurd (ground (arith, h))
  check_schedule-set type (some q) sch h = refl

  check_schedule-same :
      (type : Bytes) (p : Option (Schedule S)) (sch out : Scheduler S)
      → check_schedule type p sch ≡ ok out
      → sch ≡ out
  unfolding check_schedule
  check_schedule-same type none sch out h = absurd (ground (arith, h))
  check_schedule-same type (some q) sch out h = ground (arith, h)

  -- A valid rate, 1 to 64 operations with weights from 1 to 10000, an executor, and a schedule that
  -- is fixed or supplied by an option are all that `NewScheduler` needs; the scheduler has the given
  -- operations and a profile that the configuration describes.
  pub new_scheduler-accepts :
      (global_random : ℕ → WeightedRandom) (local_limiter : Limiter S) (rate : RateConfig)
      (operations : List OperationConfig) (executor : OperationExecutor S)
      (options : List (SchedulerOption S))
      → validate_rate_schedule rate.schedule ≡ ok tt
      → validate_rate_profile rate.profile ≡ ok tt
      → 1 ≤ length operations
      → length operations ≤ max_operations
      → WeightsOk operations
      → (rate.schedule.type ≡ schedule_fixed) ⊎ (supplies options ≡ true)
      → (sch : Scheduler S) × (new_scheduler global_random local_limiter rate operations
            (some executor)
            options
          ≡ ok sch)
        × (sch.operations ≡ operations)
        × Describes (profile_config rate.profile) sch.profile
        × SmallBatches sch.profile
  unfolding new_scheduler
  new_scheduler-accepts random limiter rate operations executor options sched prof lo hi weights
        by =
      let (t, accepted, small) = validate_rate_profile-new rate.profile prof in
      let start : Scheduler S = record {
        profile = t;
        operations = operations;
        executor = executor;
        random = random;
        limiter = limiter;
        schedule = default_schedule rate;
      } in
      let kept = apply_options-Kept options start in
      let count : ((length operations == 0) || ltb max_operations (length operations)) ≡ false =
        ground (arith, lo, hi) in
      let ready : has_schedule (apply_options options start) ≡ true = ground (
        arith,
        has_schedule-apply_options options start,
        by,
        eqs_iff rate.schedule.type schedule_fixed,
      ) in
      (
        apply_options options start,
        rw (sched, prof, count, WeightsOk-validate_weights 0 operations weights, accepted)
            (check_schedule-set rate.schedule.type (apply_options options start).schedule
              (apply_options options start) ready),
        kept.0,
        subst (Describes (profile_config rate.profile)) (sym kept.1)
            (new-Describes (profile_config rate.profile) t accepted),
        subst SmallBatches (sym kept.1) small,
      )

  -- A scheduler that `NewScheduler` returns has 1 to 64 operations, all of a positive weight.
  pub new_scheduler-Weighted :
      (global_random : ℕ → WeightedRandom) (local_limiter : Limiter S) (rate : RateConfig)
      (operations : List OperationConfig) (executor : Option (OperationExecutor S))
      (options : List (SchedulerOption S)) (sch : Scheduler S)
      → new_scheduler global_random local_limiter rate operations executor options ≡ ok sch
      → Weighted (candidates_of sch.operations)
        × (1 ≤ length sch.operations)
        × (length sch.operations ≤ max_operations)
  unfolding new_scheduler
  new_scheduler-Weighted random limiter rate operations executor options sch h =
      let (a, e1, h1) =
        >>=-eq-ok (wrap_err rate_invalid (validate_rate_schedule rate.schedule)) _ h in
      let (b, e2, h2) =
        >>=-eq-ok (wrap_err rate_invalid (validate_rate_profile rate.profile)) _ h1 in
      let (c, count, h3) =
        >>=-eq-ok
          (fail_if ((length operations == 0) || ltb max_operations (length operations))
            bad_operation_count)
          _ h2 in
      let (d, weights, h4) = >>=-eq-ok (validate_weights 0 operations) _ h3 in
      let (x, e5, h5) =
        >>=-eq-ok (elim executor [ none ↦ err nil_executor | some e ↦ ok e ]) _ h4 in
      let (t, e6, h6) =
        >>=-eq-ok (wrap_err profile_failed (new (profile_config rate.profile))) _ h5 in
      let start : Scheduler S = record {
        profile = t;
        operations = operations;
        executor = x;
        random = random;
        limiter = limiter;
        schedule = default_schedule rate;
      } in
      let made = apply_options options start in
      let same : made ≡ sch = check_schedule-same rate.schedule.type made.schedule made sch h6 in
      let few =
        fail_if-eq-ok ((length operations == 0) || ltb max_operations (length operations))
          bad_operation_count c count in
      subst (λ os. Weighted (candidates_of os) × (1 ≤ length os) × (length os ≤ max_operations))
        (sym (apply_options-Kept options start).0 ∙ ap (λ s. s.operations) same)
        (
          WeightsOk-Weighted operations (validate_weights-WeightsOk 0 operations weights),
          ground (arith, few),
          ground (arith, few),
        )

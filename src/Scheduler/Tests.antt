-- ===== src/Scheduler/Tests.antt =====
-- Runs of the scheduler, and the theorems at concrete inputs.
use kurama.Base.{
  if◌then◌else◌, length, pos, to_ℕ, Bytes, codes, eqs, ℕ, suc, ◌-◌, ◌≤◌, ◌<◌, min, ◌≡◌, refl, ◌↔◌,
  ◌⊎◌, true, false, none, some, List, [], ◌∷◌, map, arith,
}
use kurama.Base.Result.{ok}
use kurama.Base.Context.{live_context}
use kurama.Config.{OperationConfig, RequestConfig, RateConfig}
use kurama.Execution.{
  ExecutionResult, variables_failed, store_empty, OperationExecutor, is_unavailable,
}
use kurama.Profile.{RandomSource, burst_profile}
use kurama.RateLimit.{Limiter}
use kurama.Scheduler.Fallback.{Distinct, Retried, settled, execute_reserved_slot-falls_back}
use kurama.Scheduler.Iteration.{Steady, run_iteration-Steady}
use kurama.Scheduler.Paced.{Paces, run_decision-Paces}
use kurama.Scheduler.Picker.{
  WeightedRandom, pick_weighted, total_weight, weight_before, pick_weighted_iff,
}
use kurama.Scheduler.Run.{Clock, run_decision, run_iteration}
use kurama.Scheduler.Slot.{candidates_of, execute_reserved_slot}
use kurama.Scheduler.State.{Scheduler}

-- The largest draw below a bound.
abbrev pub greedy : WeightedRandom
greedy = record { int_n = λ n. n - 1; int_n_lt = λ n p. omega arith }

abbrev steady_random : RandomSource
steady_random = record { int64_n = λ n. n - 1; int64_n_lt = λ n p. omega arith }

abbrev get : RequestConfig
get = record {
  method = codes "GET";
  path_template = codes "/ping";
  headers = [];
  secret_headers = [];
  body_template = [];
  variables = [];
}

abbrev operation : Bytes → ℕ → OperationConfig
operation name weight = record {
  name = name;
  weight = pos weight;
  request = get;
  expected_status_codes = pos 200 ∷ [];
  capture = none;
}

abbrev pub two : List OperationConfig
two = operation (codes "read") 3 ∷ operation (codes "write") 1 ∷ []

abbrev result_of : Bytes → ExecutionResult
result_of name = record {
  operation = name;
  status_code = 0;
  response_bytes = 0;
  duration = 0;
  captured = false;
}

-- The operation `write` has an empty store, the other one succeeds; the state counts the executions.
abbrev pub half_empty : OperationExecutor ℕ
half_empty = record {
  execute = λ ctx o s. (
    (
      result_of o.name,
      if eqs o.name (codes "write")
          then some (variables_failed (store_empty (codes "ids")))
          else none,
    ),
    suc s,
  );
}

pick_weighted_iff_example : (pick_weighted (candidates_of two) greedy ≡ some 1) ↔ (
    (weight_before 1 (candidates_of two) ≤ greedy.int_n (total_weight (candidates_of two)))
    × (greedy.int_n (total_weight (candidates_of two)) < weight_before 2 (candidates_of two)))
pick_weighted_iff_example = pick_weighted_iff (candidates_of two) greedy 1

-- The draw picks `write` first, and `read` takes its place.
falls_back_run :
    map (λ h. h.index) (execute_reserved_slot half_empty (λ n. greedy) live_context two 0).0
    ≡ 1 ∷ 0 ∷ []
unfolding execute_reserved_slot pick_weighted total_weight eqs is_unavailable
falls_back_run = refl

falls_back_example :
    let handled = (execute_reserved_slot half_empty (λ n. greedy) live_context two 0).0 in
    Distinct handled × Retried handled × ((settled handled ≡ true) ⊎ (length handled ≡ length two))
falls_back_example =
    execute_reserved_slot-falls_back half_empty (λ n. greedy) live_context two 0
      (omega arith, (omega arith, tt))

-- A limiter that grants two permits at most.
abbrev pub generous : Limiter ℕ
generous = record {
  try_acquire =
      λ ctx l p s. (ok (record { granted = pos (min 2 (to_ℕ p)); retry_after = pos 0 }), s);
}

abbrev pub rate : RateConfig
rate = record {
  schedule = record {
    type = codes "fixed";
    requests_per_minute = pos 60;
    min_requests_per_minute = pos 0;
    max_requests_per_minute = pos 0;
    window_minutes = pos 0;
  };
  limiter = none;
  profile = none;
}

abbrev pub scheduler : Scheduler ℕ
scheduler = record {
  profile = burst_profile (record { min_burst_size = 2; max_burst_size = 4; delay_divisor = 10 });
  operations = two;
  executor = half_empty;
  random = λ n. greedy;
  limiter = generous;
  schedule = none;
}

-- Waits always end.
abbrev patient : Clock ℕ
patient = record { context = λ s. live_context; wait = λ d s. (true, s) }

run_decision-Paces_example : Paces steady_random patient scheduler 2 (
    run_decision steady_random patient scheduler
      (record { granted = pos 2; retry_after = pos 7 })
      60
      0)
run_decision-Paces_example =
    run_decision-Paces steady_random patient scheduler
      (record { granted = pos 2; retry_after = pos 7 }) 60 0
      (record {
        min_ge_two = omega arith;
        min_le_max = omega arith;
        divisor_ge_two = omega arith;
        divisor_le_hundred = omega arith;
      })
      (omega arith) (omega arith) refl

run_iteration-Steady_example :
    Steady steady_random patient scheduler 6_000 (run_iteration steady_random patient scheduler 0)
run_iteration-Steady_example = run_iteration-Steady steady_random patient scheduler 0 (record {
  min_ge_two = omega arith;
  min_le_max = omega arith;
  divisor_ge_two = omega arith;
  divisor_le_hundred = omega arith;
})

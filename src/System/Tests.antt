-- ===== src/System/Tests.antt =====
-- A scenario from the controller to the runner.
use kurama.Base.{codes, eqs, has_byte, ◌≡◌, refl, true, false, []}
use kurama.Base.Result.{ok}
use kurama.Controller.Backends.{
  requires_redis, rate_limiter_backend, storage_backend, rate_profile_type,
}
use kurama.Controller.Conversion.{scenario_runner_config}
use kurama.Controller.Examples.{checks, demo}
use kurama.Controller.Tests.{defaults_ok, demo_accepted}
use kurama.RedisKey.{validate}
use kurama.Runtime.{
  RuntimeState, normalized_store_backend, normalized_rate_limiter_backend,
  normalized_rate_profile_type, needs_redis, new_runtime_state,
}
use kurama.System.{runner_settings}
use kurama.System.Agreement.{runner_settings-agree}
use kurama.System.Starts.{Serves, scope_of, runner_comes_up}

scoped : validate (scope_of demo) ≡ ok tt
unfolding validate has_byte eqs
scoped = refl

addressed : requires_redis demo ≡ true → eqs (codes "redis:6379") [] ≡ false
unfolding eqs
addressed h = refl

runner_comes_up_example :
    let config = scenario_runner_config demo in
    let settings = runner_settings demo (codes "redis:6379") in
    (state : RuntimeState) × ((new_runtime_state
        (λ n. codes "0")
        true
        true
        settings
        (normalized_rate_limiter_backend config.rate.limiter settings.backend)
        config.rate.schedule
        config.stores).0
      ≡ ok state)
    × Serves demo state
runner_comes_up_example =
    runner_comes_up checks (λ n. codes "0") demo (codes "redis:6379") defaults_ok demo_accepted
      scoped addressed

runner_settings-agree_example :
    let settings = runner_settings demo (codes "redis:6379") in
    let config = scenario_runner_config demo in
    let store = normalized_store_backend settings.backend in
    let limiter = normalized_rate_limiter_backend config.rate.limiter settings.backend in
    (store ≡ storage_backend demo)
    × (limiter ≡ rate_limiter_backend demo)
    × (normalized_rate_profile_type config.rate.profile ≡ rate_profile_type demo)
    × (needs_redis store limiter config.rate.schedule ≡ requires_redis demo)
    × (requires_redis demo ≡ true
        → settings ≡ record {
          backend = storage_backend demo;
          redis_address = codes "redis:6379";
          namespace = demo.namespace;
          scenario = demo.name;
          scenario_uid = demo.uid;
        })
runner_settings-agree_example = runner_settings-agree demo (codes "redis:6379")

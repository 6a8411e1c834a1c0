-- ===== src/Controller/Backends.antt =====
-- The choices of internal/controller/trafficscenario_config.go: what a scenario leaves out, the
-- controller fills in.
use kurama.Base.{if◌then◌else◌, ℤ, pos, eqz, Bytes, eqs, Bool, ◌||◌, Option, none, some, []}
use kurama.Api.{
  TrafficScenario, StorageSpec, RateLimiterSpec, RateProfileSpec, storage_type_memory,
  storage_type_redis, rate_limiter_type_local, rate_limiter_type_redis, rate_profile_type_fixed,
  rate_schedule_type_uniform,
}

-- `runnerReplicas`
unfoldable pub runner_replicas : TrafficScenario → ℤ
runner_replicas s = if eqz s.spec.replicas (pos 0) then pos 1 else s.spec.replicas

abbrev pub backend_of : Option StorageSpec → Bytes
backend_of none = storage_type_memory
backend_of (some storage) = if eqs storage.type [] then storage_type_memory else storage.type

-- `storageBackend`
unfoldable pub storage_backend : TrafficScenario → Bytes
storage_backend s = backend_of s.spec.storage

abbrev pub limiter_type_of : Option RateLimiterSpec → Bytes → Bytes
limiter_type_of none default = default
limiter_type_of (some limiter) default = if eqs limiter.type [] then default else limiter.type

-- `rateLimiterBackend`
unfoldable pub rate_limiter_backend : TrafficScenario → Bytes
rate_limiter_backend s = limiter_type_of s.spec.rate.limiter (
    if eqs (storage_backend s) storage_type_redis
    then rate_limiter_type_redis
    else rate_limiter_type_local)

abbrev pub profile_type_of : Option RateProfileSpec → Bytes
profile_type_of none = rate_profile_type_fixed
profile_type_of (some p) = if eqs p.type [] then rate_profile_type_fixed else p.type

-- `rateProfileType`
unfoldable pub rate_profile_type : TrafficScenario → Bytes
rate_profile_type s = profile_type_of s.spec.rate.profile

abbrev pub field_of_profile : (RateProfileSpec → ℤ) → Option RateProfileSpec → ℤ
field_of_profile f none = pos 0
field_of_profile f (some p) = f p

-- `rateProfileMinBurstSize`
unfoldable pub rate_profile_min_burst_size : TrafficScenario → ℤ
rate_profile_min_burst_size s = field_of_profile (λ p. p.min_burst_size) s.spec.rate.profile

-- `rateProfileMaxBurstSize`
unfoldable pub rate_profile_max_burst_size : TrafficScenario → ℤ
rate_profile_max_burst_size s = field_of_profile (λ p. p.max_burst_size) s.spec.rate.profile

-- `rateProfileDelayDivisor`
unfoldable pub rate_profile_delay_divisor : TrafficScenario → ℤ
rate_profile_delay_divisor s = field_of_profile (λ p. p.delay_divisor) s.spec.rate.profile

-- `requiresRedis`
unfoldable pub requires_redis : TrafficScenario → Bool
requires_redis s =
    eqs (storage_backend s) storage_type_redis
    || eqs (rate_limiter_backend s) rate_limiter_type_redis
    || eqs s.spec.rate.schedule.type rate_schedule_type_uniform

-- ===== src/System/Agreement.antt =====
-- The runner makes the choices that the controller has made for it.
use kurama.Base.{
  if◌then◌else◌, Bytes, codes, eqs, ◌≡◌, refl, Bool, true, false, Option, none, some, [], arith,
}
use kurama.Api.{TrafficScenario, StorageSpec, RateLimiterSpec, RateProfileSpec}
use kurama.Controller.Backends.{
  storage_backend, rate_limiter_backend, rate_profile_type, requires_redis, backend_of,
  limiter_type_of, profile_type_of,
}
use kurama.Controller.Conversion.{scenario_runner_config}
use kurama.Controller.Desired.{runner_environment}
use kurama.Runtime.{
  store_settings_from_env, normalized_store_backend, normalized_rate_limiter_backend,
  normalized_rate_profile_type, needs_redis,
}
use kurama.System.{getenv, runner_settings}

given-backend : (o : Option StorageSpec) → eqs (backend_of o) [] ≡ false
unfolding eqs
given-backend none = refl
given-backend (some x) = ground (arith)

given-limiter :
    (o : Option RateLimiterSpec) (d : Bytes)
    → eqs d [] ≡ false
    → eqs (limiter_type_of o d) [] ≡ false
unfolding eqs
given-limiter none d h = h
given-limiter (some x) d h = ground (arith, h)

given-profile : (o : Option RateProfileSpec) → eqs (profile_type_of o) [] ≡ false
unfolding eqs
given-profile none = refl
given-profile (some x) = ground (arith)

given-default : (b : Bool) → eqs (if b then codes "redis" else codes "local") [] ≡ false
unfolding eqs
given-default true = refl
given-default false = refl

pub backend-eq :
    (s : TrafficScenario) (addr : Bytes) → (runner_settings s addr).backend ≡ storage_backend s
unfolding runner_settings store_settings_from_env getenv runner_environment eqs
backend-eq s addr = refl

pub settings-eq :
    (s : TrafficScenario) (addr : Bytes)
    → requires_redis s ≡ true
    → runner_settings s addr ≡ record {
      backend = storage_backend s;
      redis_address = addr;
      namespace = s.namespace;
      scenario = s.name;
      scenario_uid = s.uid;
    }
unfolding runner_settings store_settings_from_env getenv runner_environment eqs
settings-eq s addr h = ground (arith, h)

pub storage_backend-given : (s : TrafficScenario) → eqs (storage_backend s) [] ≡ false
unfolding storage_backend
storage_backend-given s = given-backend s.spec.storage

rate_limiter_backend-given : (s : TrafficScenario) → eqs (rate_limiter_backend s) [] ≡ false
unfolding rate_limiter_backend
rate_limiter_backend-given s =
    given-limiter s.spec.rate.limiter _ (given-default (eqs (storage_backend s) (codes "redis")))

rate_profile_type-given : (s : TrafficScenario) → eqs (rate_profile_type s) [] ≡ false
unfolding rate_profile_type
rate_profile_type-given s = given-profile s.spec.rate.profile

pub normalized-store :
    (s : TrafficScenario) (addr : Bytes)
    → normalized_store_backend (runner_settings s addr).backend ≡ storage_backend s
unfolding normalized_store_backend
normalized-store s addr = rw (backend-eq s addr, storage_backend-given s) refl

pub normalized-limiter :
    (s : TrafficScenario) (backend : Bytes)
    → normalized_rate_limiter_backend (scenario_runner_config s).rate.limiter backend
      ≡ rate_limiter_backend s
unfolding normalized_rate_limiter_backend scenario_runner_config
normalized-limiter s backend = rw (rate_limiter_backend-given s) refl

-- What the runner works out from its environment and its configuration is what the controller has
-- chosen: the store, the limiter, the profile and whether Redis is needed. Where it is, the runner has
-- the address of Redis and the namespace, the name and the UID of its scenario.
pub runner_settings-agree :
    (s : TrafficScenario) (addr : Bytes)
    → let settings = runner_settings s addr in
      let config = scenario_runner_config s in
      let store = normalized_store_backend settings.backend in
      let limiter = normalized_rate_limiter_backend config.rate.limiter settings.backend in
      (store ≡ storage_backend s)
      × (limiter ≡ rate_limiter_backend s)
      × (normalized_rate_profile_type config.rate.profile ≡ rate_profile_type s)
      × (needs_redis store limiter config.rate.schedule ≡ requires_redis s)
      × (requires_redis s ≡ true
          → settings ≡ record {
            backend = storage_backend s;
            redis_address = addr;
            namespace = s.namespace;
            scenario = s.name;
            scenario_uid = s.uid;
          })
unfolding scenario_runner_config normalized_rate_profile_type requires_redis
runner_settings-agree s addr = (
  normalized-store s addr,
  normalized-limiter s (runner_settings s addr).backend,
  rw (rate_profile_type-given s) refl,
  rw (normalized-store s addr, normalized-limiter s (runner_settings s addr).backend) refl,
  settings-eq s addr,
)

-- ===== src/Controller/Validation.antt =====
-- `validateScenario` and `validateSecretHeaderReferences` of
-- internal/controller/trafficscenario_validation.go. The checks of Kubernetes names, the comparison of
-- quantities and the parser of URLs are parameters.
pub mod Accepted
use kurama.Base.{
  pos, ltz, outside, Bytes, eqs, ℕ, ◌+◌, Bool, ◌&&◌, ◌||◌, not, Option, none, some, List, [], ◌∷◌,
}
use kurama.Base.Result.{Result, ok, ◌>>=◌, ◌>>◌, fail_if, wrap_err}
use kurama.Api.{
  TrafficScenario, StorageSpec, RateLimiterSpec, RateProfileSpec, SecretHeaderSpec, OperationSpec,
  storage_type_memory, storage_type_redis, rate_limiter_type_local, rate_limiter_type_redis,
  rate_profile_type_fixed, rate_profile_type_uniform, rate_profile_type_burst,
}
use kurama.Controller.Backends.{runner_replicas, rate_limiter_backend}
use kurama.Controller.Conversion.{scenario_runner_config}
use kurama.Controller.Resources.{Quantities, ResourcesError, validate_runner_resources}
use kurama.Validation.Config.{ParsedUrl, ConfigError, validate}

pub data ScenarioError : Type 0 where
  unsupported_storage unsupported_limiter unsupported_profile : Bytes → ScenarioError
  replicas_out_of_range replicas_need_redis : ScenarioError
  bad_resources : ResourcesError → ScenarioError
  bad_secret_name bad_secret_key : ℕ → ℕ → ScenarioError
  bad_spec : ConfigError → ScenarioError

-- The three switches.
unfoldable pub check_storage : Option StorageSpec → Result ScenarioError (Unit {0})
check_storage none = ok tt
check_storage (some s) =
    fail_if (not (eqs s.type [] || eqs s.type storage_type_memory || eqs s.type storage_type_redis))
      (unsupported_storage s.type)

unfoldable pub check_limiter : Option RateLimiterSpec → Result ScenarioError (Unit {0})
check_limiter none = ok tt
check_limiter (some l) =
    fail_if
      (not
        (eqs l.type [] || eqs l.type rate_limiter_type_local || eqs l.type rate_limiter_type_redis))
      (unsupported_limiter l.type)

unfoldable pub check_profile : Option RateProfileSpec → Result ScenarioError (Unit {0})
check_profile none = ok tt
check_profile (some p) =
    fail_if
      (not (
        eqs p.type []
        || eqs p.type rate_profile_type_fixed
        || eqs p.type rate_profile_type_uniform
        || eqs p.type rate_profile_type_burst))
      (unsupported_profile p.type)

-- `validation.IsDNS1123Subdomain` and `validation.IsConfigMapKey`: whether they find no problem.
pub record NameChecks : Type 0 where
  pub is_dns1123_subdomain : Bytes → Bool
  pub is_config_map_key : Bytes → Bool

module _ (names : NameChecks) where
  unfoldable pub check_secret_headers :
      ℕ → ℕ → List SecretHeaderSpec → Result ScenarioError (Unit {0})
  check_secret_headers i j [] = ok tt
  check_secret_headers i j (h ∷ hs) = do
    fail_if (not (names.is_dns1123_subdomain h.value_from.secret_key_ref.name))
        (bad_secret_name i j)
    fail_if (not (names.is_config_map_key h.value_from.secret_key_ref.key)) (bad_secret_key i j)
    check_secret_headers i (j + 1) hs

  -- `validateSecretHeaderReferences`, from operation `i` on
  unfoldable pub validate_secret_header_references :
      ℕ → List OperationSpec → Result ScenarioError (Unit {0})
  unfolding check_secret_headers
  validate_secret_header_references i [] = ok tt
  validate_secret_header_references i (o ∷ os) = do
    check_secret_headers i 0 o.request.secret_headers
    validate_secret_header_references (i + 1) os

-- What the validation takes from the libraries.
pub record Checks : Type 0 where
  pub names : NameChecks
  pub quantities : Quantities
  pub parse_request_uri : Bytes → Option ParsedUrl

-- `validateScenario`
unfoldable pub validate_scenario : Checks → TrafficScenario → Result ScenarioError (Unit {0})
unfolding check_storage check_limiter check_profile validate_secret_header_references
validate_scenario c s = do
  check_storage s.spec.storage
  check_limiter s.spec.rate.limiter
  check_profile s.spec.rate.profile
  fail_if (outside 1 10 (runner_replicas s)) replicas_out_of_range
  fail_if
      (ltz (pos 1) (runner_replicas s)
        && not (eqs (rate_limiter_backend s) rate_limiter_type_redis))
      replicas_need_redis
  wrap_err bad_resources (validate_runner_resources c.quantities s)
  validate_secret_header_references c.names 0 s.spec.operations
  wrap_err bad_spec (validate c.parse_request_uri (scenario_runner_config s))

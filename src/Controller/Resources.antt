-- ===== src/Controller/Resources.antt =====
-- The compute resources of a runner: `runnerResources` and its helpers of
-- internal/controller/trafficscenario_runner_pod.go, and the part of trafficscenario_validation.go that
-- checks them. Comparing quantities is a parameter.
pub mod Bounds
pub mod Accepted
use kurama.Base.{
  if◌then◌else◌, Bytes, codes, eqs, Bool, ◌||◌, not, Option, none, some, List, [], ◌∷◌, ◌++◌,
}
use kurama.Base.Assoc.{lookup, has_key}
use kurama.Base.Result.{Result, ok, ◌>>=◌, ◌>>◌, fail_if, wrap_err}
use kurama.Api.{TrafficScenario, RunnerSpec, RunnerResourcesSpec, ResourceList}

abbrev pub cpu : Bytes
cpu = codes "cpu"

abbrev pub memory : Bytes
memory = codes "memory"

abbrev pub ephemeral_storage : Bytes
ephemeral_storage = codes "ephemeral-storage"

abbrev pub max_runner_cpu : Bytes
max_runner_cpu = codes "1"

abbrev pub max_runner_memory : Bytes
max_runner_memory = codes "512Mi"

abbrev pub max_runner_ephemeral_storage : Bytes
max_runner_ephemeral_storage = codes "1Gi"

-- `corev1.ResourceRequirements`
pub record ResourceRequirements : Type 0 where
  pub requests : ResourceList
  pub limits : ResourceList

-- `defaultRunnerResources`
unfoldable pub default_runner_resources : ResourceRequirements
default_runner_resources = record {
  requests =
      (cpu, codes "25m") ∷ ((memory, codes "32Mi") ∷ ((ephemeral_storage, codes "16Mi") ∷ []));
  limits =
      (cpu, codes "500m") ∷ ((memory, codes "128Mi") ∷ ((ephemeral_storage, codes "64Mi") ∷ []));
}

-- `mergeMissingResources`, with the defaults last
unfoldable pub merge_missing_resources : ResourceList → ResourceList → ResourceList
merge_missing_resources target [] = target
merge_missing_resources target ((name, quantity) ∷ defaults) =
    merge_missing_resources
      (if has_key name target then target else target ++ ((name, quantity) ∷ [])) defaults

-- The overrides of a scenario, if it has any.
abbrev pub resource_overrides : TrafficScenario → Option RunnerResourcesSpec
resource_overrides s = elim s.spec.runner [ none ↦ none | some runner ↦ runner.resources ]

merged_resources : Option RunnerResourcesSpec → ResourceRequirements
merged_resources none = default_runner_resources
merged_resources (some overrides) = record {
  requests = merge_missing_resources overrides.requests default_runner_resources.requests;
  limits = merge_missing_resources overrides.limits default_runner_resources.limits;
}

-- `runnerResources`
unfoldable pub runner_resources : TrafficScenario → ResourceRequirements
unfolding merged_resources
runner_resources s = merged_resources (resource_overrides s)

-- What the validation asks of `resource.Quantity`: `q.Cmp(r) > 0` and `q.Sign() < 0`.
pub record Quantities : Type 0 where
  pub exceeds : Bytes → Bytes → Bool
  pub is_negative : Bytes → Bool

pub data ResourceError : Type 0 where
  unsupported_resource negative_quantity above_maximum : Bytes → ResourceError
  request_above_limit : Bytes → ResourceError

pub data ResourcesError : Type 0 where
  bad_requests bad_limits bad_merged : ResourceError → ResourcesError

-- `isAllowedRunnerResource`
unfoldable pub is_allowed_runner_resource : Bytes → Bool
is_allowed_runner_resource name = eqs name cpu || eqs name memory || eqs name ephemeral_storage

-- `maxRunnerResource`, for a name that is allowed
unfoldable pub max_runner_resource : Bytes → Bytes
max_runner_resource name =
    if eqs name cpu
    then max_runner_cpu
    else if eqs name memory
    then max_runner_memory
    else max_runner_ephemeral_storage

-- `merged.Requests[name]`: a missing quantity is zero.
abbrev pub quantity_or_zero : Option Bytes → Bytes
quantity_or_zero none = codes "0"
quantity_or_zero (some q) = q

module _ (q : Quantities) where
  -- `validateRunnerResourceList`; a Go map is traversed in any order.
  unfoldable pub validate_runner_resource_list : ResourceList → Result ResourceError (Unit {0})
  validate_runner_resource_list [] = ok tt
  validate_runner_resource_list ((name, quantity) ∷ rest) = do
    fail_if (not (is_allowed_runner_resource name)) (unsupported_resource name)
    fail_if (q.is_negative quantity) (negative_quantity name)
    fail_if (q.exceeds quantity (max_runner_resource name)) (above_maximum name)
    validate_runner_resource_list rest

  -- The loop over the names that compares requests with limits.
  unfoldable pub compare_resources :
      ResourceRequirements → List Bytes → Result ResourceError (Unit {0})
  compare_resources merged [] = ok tt
  compare_resources merged (name ∷ names) = do
    fail_if
        (q.exceeds (quantity_or_zero (lookup name merged.requests))
          (quantity_or_zero (lookup name merged.limits)))
        (request_above_limit name)
    compare_resources merged names

  validate_overrides :
      TrafficScenario → Option RunnerResourcesSpec → Result ResourcesError (Unit {0})
  validate_overrides s none = ok tt
  validate_overrides s (some overrides) = do
    wrap_err bad_requests (validate_runner_resource_list overrides.requests)
    wrap_err bad_limits (validate_runner_resource_list overrides.limits)
    wrap_err bad_merged
        (compare_resources (runner_resources s) (cpu ∷ (memory ∷ (ephemeral_storage ∷ []))))

  -- `validateRunnerResources`
  unfoldable pub validate_runner_resources : TrafficScenario → Result ResourcesError (Unit {0})
  unfolding validate_overrides compare_resources validate_runner_resource_list
  validate_runner_resources s = validate_overrides s (resource_overrides s)

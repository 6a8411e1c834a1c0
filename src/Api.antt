-- ===== src/Api.antt =====
-- api/v1alpha1/trafficscenario_types.go: the TrafficScenario resource. A Go map is an association
-- list, and a Kubernetes quantity is kept as its text.
use kurama.Base.{ℤ, Bytes, codes, Bool, Option, List}

pub record TargetSpec : Type 0 where
  pub base_url : Bytes

abbrev pub rate_schedule_type_fixed : Bytes
rate_schedule_type_fixed = codes "fixed"

abbrev pub rate_schedule_type_uniform : Bytes
rate_schedule_type_uniform = codes "uniform"

pub record RateScheduleSpec : Type 0 where
  pub type : Bytes
  pub requests_per_minute : ℤ
  pub min_requests_per_minute : ℤ
  pub max_requests_per_minute : ℤ
  pub window_minutes : ℤ

abbrev pub rate_limiter_type_local : Bytes
rate_limiter_type_local = codes "local"

abbrev pub rate_limiter_type_redis : Bytes
rate_limiter_type_redis = codes "redis"

pub record RateLimiterSpec : Type 0 where
  pub type : Bytes

abbrev pub rate_profile_type_fixed : Bytes
rate_profile_type_fixed = codes "fixed"

abbrev pub rate_profile_type_uniform : Bytes
rate_profile_type_uniform = codes "uniform"

abbrev pub rate_profile_type_burst : Bytes
rate_profile_type_burst = codes "burst"

pub record RateProfileSpec : Type 0 where
  pub type : Bytes
  pub min_burst_size : ℤ
  pub max_burst_size : ℤ
  pub delay_divisor : ℤ

pub record RateSpec : Type 0 where
  pub schedule : RateScheduleSpec
  pub limiter : Option RateLimiterSpec
  pub profile : Option RateProfileSpec

pub record StoreSpec : Type 0 where
  pub name : Bytes
  pub capacity : ℤ

abbrev pub storage_type_memory : Bytes
storage_type_memory = codes "memory"

abbrev pub storage_type_redis : Bytes
storage_type_redis = codes "redis"

pub record StorageSpec : Type 0 where
  pub type : Bytes

-- `corev1.ResourceList`: quantities by resource name.
abbrev pub ResourceList : Type 0
ResourceList = List (Bytes × Bytes)

pub record RunnerResourcesSpec : Type 0 where
  pub requests : ResourceList
  pub limits : ResourceList

pub record RunnerSpec : Type 0 where
  pub resources : Option RunnerResourcesSpec

pub record VariableSourceSpec : Type 0 where
  pub type : Bytes
  pub store : Bytes
  pub length : ℤ

pub record VariableSpec : Type 0 where
  pub name : Bytes
  pub source : VariableSourceSpec

pub record SecretKeySelector : Type 0 where
  pub name : Bytes
  pub key : Bytes

pub record SecretHeaderValueSource : Type 0 where
  pub secret_key_ref : SecretKeySelector

pub record SecretHeaderSpec : Type 0 where
  pub name : Bytes
  pub value_from : SecretHeaderValueSource

pub record RequestSpec : Type 0 where
  pub method : Bytes
  pub path_template : Bytes
  pub headers : List (Bytes × Bytes)
  pub secret_headers : List SecretHeaderSpec
  pub body_template : Bytes
  pub variables : List VariableSpec

pub record CaptureSpec : Type 0 where
  pub json_pointer : Bytes
  pub store : Bytes

pub record OperationSpec : Type 0 where
  pub name : Bytes
  pub weight : ℤ
  pub request : RequestSpec
  pub expected_status_codes : List ℤ
  pub capture : Option CaptureSpec

pub record TrafficScenarioSpec : Type 0 where
  pub target : TargetSpec
  pub rate : RateSpec
  pub stores : List StoreSpec
  pub operations : List OperationSpec
  pub storage : Option StorageSpec
  pub suspend : Bool
  pub replicas : ℤ
  pub runner : Option RunnerSpec

-- The metadata that the controller reads, and the specification. What deletion reads besides, and
-- the status, are in Controller/Finalizer and Controller/Status.
pub record TrafficScenario : Type 0 where
  pub namespace : Bytes
  pub name : Bytes
  pub uid : Bytes
  pub spec : TrafficScenarioSpec

-- ===== src/Config.antt =====
-- internal/runner/config.go: the configuration that the controller writes and the runner reads.
use kurama.Base.{ℤ, Bytes, codes, ℕ, Option, List}

abbrev pub max_config_bytes : ℕ
max_config_bytes = 1_048_576

abbrev pub max_request_body_bytes : ℕ
max_request_body_bytes = 65_536

abbrev pub max_response_body_bytes : ℕ
max_response_body_bytes = 1_048_576

abbrev pub max_requests_per_minute : ℕ
max_requests_per_minute = 6_000

abbrev pub max_schedule_window_minutes : ℕ
max_schedule_window_minutes = 1_440

abbrev pub max_profile_burst_size : ℕ
max_profile_burst_size = 100

abbrev pub max_profile_delay_divisor : ℕ
max_profile_delay_divisor = 100

abbrev pub max_operations : ℕ
max_operations = 64

abbrev pub max_stores : ℕ
max_stores = 32

abbrev pub max_store_capacity : ℕ
max_store_capacity = 100_000

abbrev pub max_secret_headers : ℕ
max_secret_headers = 64

abbrev pub max_secret_header_bytes : ℕ
max_secret_header_bytes = 16_384

abbrev pub secret_headers_mount_path : Bytes
secret_headers_mount_path = codes "/var/run/kurama/request-secrets"

pub record TargetConfig : Type 0 where
  pub base_url : Bytes

pub record RateLimiterConfig : Type 0 where
  pub type : Bytes

pub record RateProfileConfig : Type 0 where
  pub type : Bytes
  pub min_burst_size : ℤ
  pub max_burst_size : ℤ
  pub delay_divisor : ℤ

pub record RateScheduleConfig : Type 0 where
  pub type : Bytes
  pub requests_per_minute : ℤ
  pub min_requests_per_minute : ℤ
  pub max_requests_per_minute : ℤ
  pub window_minutes : ℤ

pub record RateConfig : Type 0 where
  pub schedule : RateScheduleConfig
  pub limiter : Option RateLimiterConfig
  pub profile : Option RateProfileConfig

pub record StoreConfig : Type 0 where
  pub name : Bytes
  pub capacity : ℤ

pub record SecretHeaderConfig : Type 0 where
  pub name : Bytes
  pub value_file : Bytes

pub record VariableSource : Type 0 where
  pub type : Bytes
  pub store : Bytes
  pub length : ℤ

pub record VariableConfig : Type 0 where
  pub name : Bytes
  pub source : VariableSource

pub record CaptureConfig : Type 0 where
  pub json_pointer : Bytes
  pub store : Bytes

pub record RequestConfig : Type 0 where
  pub method : Bytes
  pub path_template : Bytes
  pub headers : List (Bytes × Bytes)
  pub secret_headers : List SecretHeaderConfig
  pub body_template : Bytes
  pub variables : List VariableConfig

pub record OperationConfig : Type 0 where
  pub name : Bytes
  pub weight : ℤ
  pub request : RequestConfig
  pub expected_status_codes : List ℤ
  pub capture : Option CaptureConfig

pub record Config : Type 0 where
  pub target : TargetConfig
  pub rate : RateConfig
  pub stores : List StoreConfig
  pub operations : List OperationConfig

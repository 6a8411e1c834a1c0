-- ===== src/Controller/Conversion.antt =====
-- `scenarioRunnerConfig` of internal/controller/trafficscenario_config.go: the configuration of the
-- runner of a scenario.
pub mod SecretFiles
use kurama.Base.{length, ℕ, ◌+◌, Option, none, some, List, [], ◌∷◌}
use kurama.Api.{
  TrafficScenario, StoreSpec, SecretHeaderSpec, VariableSpec, CaptureSpec, OperationSpec,
}
use kurama.Config.{
  Config, StoreConfig, SecretHeaderConfig, VariableConfig, CaptureConfig, OperationConfig,
  RateConfig,
}
use kurama.Controller.Backends.{
  rate_limiter_backend, rate_profile_type, rate_profile_min_burst_size, rate_profile_max_burst_size,
  rate_profile_delay_divisor,
}
use kurama.Controller.Secrets.{secret_header_file_path}

-- The three inner loops.
unfoldable pub convert_stores : List StoreSpec → List StoreConfig
convert_stores [] = []
convert_stores (s ∷ ss) = record { name = s.name; capacity = s.capacity } ∷ convert_stores ss

unfoldable pub convert_secret_headers : ℕ → ℕ → List SecretHeaderSpec → List SecretHeaderConfig
convert_secret_headers i j [] = []
convert_secret_headers i j (h ∷ hs) =
    record { name = h.name; value_file = secret_header_file_path i j }
    ∷ convert_secret_headers i (j + 1) hs

unfoldable pub convert_variables : List VariableSpec → List VariableConfig
convert_variables [] = []
convert_variables (v ∷ vs) =
    record {
      name = v.name;
      source = record { type = v.source.type; store = v.source.store; length = v.source.length };
    }
    ∷ convert_variables vs

abbrev pub convert_capture : Option CaptureSpec → Option CaptureConfig
convert_capture none = none
convert_capture (some c) = some (record { json_pointer = c.json_pointer; store = c.store })

-- The body of the loop over the operations.
unfoldable pub convert_operation : ℕ → OperationSpec → OperationConfig
unfolding convert_secret_headers convert_variables
convert_operation i o = record {
  name = o.name;
  weight = o.weight;
  request = record {
    method = o.request.method;
    path_template = o.request.path_template;
    headers = o.request.headers;
    secret_headers = convert_secret_headers i 0 o.request.secret_headers;
    body_template = o.request.body_template;
    variables = convert_variables o.request.variables;
  };
  expected_status_codes = o.expected_status_codes;
  capture = convert_capture o.capture;
}

unfoldable pub convert_operations : ℕ → List OperationSpec → List OperationConfig
unfolding convert_operation
convert_operations i [] = []
convert_operations i (o ∷ os) = convert_operation i o ∷ convert_operations (i + 1) os

abbrev convert_rate : TrafficScenario → RateConfig
convert_rate s = record {
  schedule = record {
    type = s.spec.rate.schedule.type;
    requests_per_minute = s.spec.rate.schedule.requests_per_minute;
    min_requests_per_minute = s.spec.rate.schedule.min_requests_per_minute;
    max_requests_per_minute = s.spec.rate.schedule.max_requests_per_minute;
    window_minutes = s.spec.rate.schedule.window_minutes;
  };
  limiter = some (record { type = rate_limiter_backend s });
  profile = some (record {
    type = rate_profile_type s;
    min_burst_size = rate_profile_min_burst_size s;
    max_burst_size = rate_profile_max_burst_size s;
    delay_divisor = rate_profile_delay_divisor s;
  });
}

-- `scenarioRunnerConfig`
unfoldable pub scenario_runner_config : TrafficScenario → Config
unfolding convert_stores convert_operations
scenario_runner_config s = record {
  target = record { base_url = s.spec.target.base_url };
  rate = convert_rate s;
  stores = convert_stores s.spec.stores;
  operations = convert_operations 0 s.spec.operations;
}

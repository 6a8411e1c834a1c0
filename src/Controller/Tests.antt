-- ===== src/Controller/Tests.antt =====
-- What the controller makes of a scenario, and the theorems at this input.
use kurama.Base.{
  All, codes, eqs, has_prefix, has_byte, contains_any, contains, to_lower, elem, ℕ, ◌≡◌, refl, true,
  arith,
}
use kurama.Base.Result.{ok}
use kurama.Base.Assoc.{lookup}
use kurama.Controller.Backends.{
  runner_replicas, rate_limiter_backend, storage_backend, rate_profile_type,
  rate_profile_min_burst_size, rate_profile_max_burst_size, rate_profile_delay_divisor,
}
use kurama.Controller.Conversion.{scenario_runner_config}
use kurama.Controller.Conversion.SecretFiles.{
  volume_files, wanted_files, desired_secret_header_volume-files,
}
use kurama.Controller.Examples.{checks, quantities, demo}
use kurama.Controller.Resources.{
  validate_runner_resources, runner_resources, merge_missing_resources, default_runner_resources,
  is_allowed_runner_resource, max_runner_resource,
}
use kurama.Controller.Resources.Accepted.{ResourcesOk, validate_runner_resources-ResourcesOk}
use kurama.Controller.Secrets.{
  desired_secret_header_volume, secret_header_file_path, secret_header_relative_path, three_digits,
}
use kurama.Controller.Secrets.Paths.{secret_header_file_path-distinct}
use kurama.Controller.Validation.{validate_scenario}
use kurama.Controller.Validation.Accepted.{Accepted, validate_scenario-Accepted}
use kurama.Executor.SecretFiles.{secret_header_files}
use kurama.JsonPointer.{validate_json_pointer, escapes_ok, split_tokens}
use kurama.Names.{matches_name, validate_name}
use kurama.Store.{validate_store_configs}
use kurama.Template.{
  template_variables, pieces, scan, marker_at, marker_tail, remaining, names_of, all_match,
  trim_space, trim_left, trim_right,
}
use kurama.Validation.Config.{validate}
use kurama.Validation.Headers.{validate_headers, secret_header_path_allowed}
use kurama.Validation.Operation.{validate_operation}
use kurama.Validation.Rate.{validate_rate_schedule, validate_rate_profile}

pub defaults_ok : ResourcesOk quantities default_runner_resources
unfolding default_runner_resources lookup eqs is_allowed_runner_resource max_runner_resource
    has_prefix
defaults_ok = record {
  within = (
    record {
      request = codes "25m";
      limit = codes "500m";
      request_set = refl;
      limit_set = refl;
      request_le_limit = refl;
      request_le_max = refl;
      limit_le_max = refl;
    },
    (
      record {
        request = codes "32Mi";
        limit = codes "128Mi";
        request_set = refl;
        limit_set = refl;
        request_le_limit = refl;
        request_le_max = refl;
        limit_le_max = refl;
      },
      (
        record {
          request = codes "16Mi";
          limit = codes "64Mi";
          request_set = refl;
          limit_set = refl;
          request_le_limit = refl;
          request_le_max = refl;
          limit_le_max = refl;
        },
        tt,
      ),
    ),
  );
  requests_ok = ((refl, refl, refl), ((refl, refl, refl), ((refl, refl, refl), tt)));
  limits_ok = ((refl, refl, refl), ((refl, refl, refl), ((refl, refl, refl), tt)));
}

demo_resources_accepted : validate_runner_resources quantities demo ≡ ok tt
unfolding validate_runner_resources runner_resources merge_missing_resources
    default_runner_resources lookup eqs is_allowed_runner_resource max_runner_resource has_prefix
demo_resources_accepted = refl

pub demo_accepted : validate_scenario checks demo ≡ ok tt
unfolding validate_scenario validate_runner_resources runner_resources merge_missing_resources
    default_runner_resources lookup eqs is_allowed_runner_resource max_runner_resource has_prefix
    runner_replicas rate_limiter_backend storage_backend rate_profile_type
    rate_profile_min_burst_size rate_profile_max_burst_size rate_profile_delay_divisor
    scenario_runner_config validate validate_rate_schedule validate_rate_profile
    validate_store_configs validate_operation validate_name matches_name elem has_byte contains_any
    contains to_lower validate_headers template_variables pieces scan marker_at marker_tail
    remaining names_of all_match trim_space trim_left trim_right validate_json_pointer escapes_ok
    split_tokens secret_header_file_path secret_header_relative_path three_digits
demo_accepted = refl

desired_secret_header_volume-files_example :
    (volume_files (desired_secret_header_volume demo)
      ≡ wanted_files demo.spec.operations (scenario_runner_config demo).operations)
    × All
        (λ file. secret_header_path_allowed file ≡ true)
        (secret_header_files (scenario_runner_config demo))
desired_secret_header_volume-files_example = desired_secret_header_volume-files demo

secret_header_file_path-distinct_example : (◌≡◌ {A = ℕ} 7 7) × (◌≡◌ {A = ℕ} 12 12)
secret_header_file_path-distinct_example =
    secret_header_file_path-distinct 7 12 7 12 (omega arith) (omega arith) (omega arith)
      (omega arith) refl

validate_runner_resources-ResourcesOk_example : ResourcesOk quantities (runner_resources demo)
validate_runner_resources-ResourcesOk_example =
    validate_runner_resources-ResourcesOk quantities demo defaults_ok demo_resources_accepted

validate_scenario-Accepted_example : Accepted checks demo
validate_scenario-Accepted_example =
    validate_scenario-Accepted checks demo defaults_ok demo_accepted

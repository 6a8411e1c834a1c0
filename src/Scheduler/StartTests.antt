-- ===== src/Scheduler/StartTests.antt =====
-- A configuration that is accepted and scheduled, and the theorems about it at this input.
use kurama.Base.{
  pos, Bytes, codes, eqs, has_prefix, has_byte, contains_any, contains, to_lower, elem, ℕ, ◌≡◌,
  refl, ◌↔◌, ◌⊎◌, inl, false, Option, some, [], ◌∷◌,
}
use kurama.Base.Result.{ok}
use kurama.Config.{Config, OperationConfig}
use kurama.JsonPointer.{validate_json_pointer, escapes_ok}
use kurama.Names.{matches_name, validate_name}
use kurama.Profile.Accepts.{Describes}
use kurama.Scheduler.Starts.{validate-new_scheduler}
use kurama.Scheduler.State.{Scheduler, new_scheduler}
use kurama.Scheduler.Tests.{greedy, half_empty, generous, rate}
use kurama.Store.{validate_store_configs}
use kurama.Template.{
  template_variables, pieces, scan, marker_at, marker_tail, remaining, names_of, all_match,
  trim_space, trim_left, trim_right,
}
use kurama.Validation.Config.{ParsedUrl, validate}
use kurama.Validation.Headers.{validate_headers}
use kurama.Validation.Operation.{validate_operation}
use kurama.Validation.Rate.{validate_rate_schedule, validate_rate_profile}
use kurama.Validation.ProfileAccepts.{profile_config, SmallBatches}
use kurama.Validation.RateAccepts.{validate_rate_schedule_iff, FixedOk, UniformOk}
use kurama.Validation.Sound.{OperationOk, validate_operation-OperationOk}

-- Reads a store and captures into it.
abbrev shorten : OperationConfig
shorten = record {
  name = codes "shorten";
  weight = pos 3;
  request = record {
    method = codes "GET";
    path_template = codes "/{{ id }}";
    headers = (codes "Accept", codes "text/html") ∷ [];
    secret_headers = [];
    body_template = [];
    variables =
        record {
          name = codes "id";
          source = record { type = codes "store"; store = codes "ids"; length = pos 0 };
        }
        ∷ [];
  };
  expected_status_codes = pos 200 ∷ [];
  capture = some (record { json_pointer = codes "/id"; store = codes "ids" });
}

shorten_accepted : validate_operation shorten (codes "ids" ∷ []) ≡ ok tt
unfolding validate_operation validate_name matches_name eqs elem has_prefix has_byte contains_any
    contains to_lower validate_headers template_variables pieces scan marker_at marker_tail
    remaining names_of all_match trim_space trim_left trim_right validate_json_pointer escapes_ok
shorten_accepted = refl

OperationOk_example : OperationOk (codes "ids" ∷ []) shorten
OperationOk_example = validate_operation-OperationOk shorten (codes "ids" ∷ []) shorten_accepted

abbrev config : Config
config = record {
  target = record { base_url = codes "http://target" };
  rate = rate;
  stores = record { name = codes "ids"; capacity = pos 5 } ∷ [];
  operations = shorten ∷ [];
}

-- A parser that knows one address.
abbrev parse_target : Bytes → Option ParsedUrl
parse_target s = some (record {
  scheme = codes "http";
  host = codes "target";
  has_user = false;
  raw_query = [];
  fragment = [];
})

config_accepted : validate parse_target config ≡ ok tt
unfolding validate validate_rate_schedule validate_rate_profile validate_store_configs
    validate_operation validate_name matches_name eqs elem has_prefix has_byte contains_any contains
    to_lower validate_headers template_variables pieces scan marker_at marker_tail remaining
    names_of all_match trim_space trim_left trim_right validate_json_pointer escapes_ok
config_accepted = refl

starts_example :
    (sch : Scheduler ℕ) × (new_scheduler
        (λ n. greedy)
        generous
        config.rate
        config.operations
        (some half_empty)
        []
      ≡ ok sch)
    × (sch.operations ≡ config.operations)
    × Describes (profile_config config.rate.profile) sch.profile
    × SmallBatches sch.profile
starts_example =
    validate-new_scheduler parse_target (λ n. greedy) generous config half_empty [] config_accepted
      (inl refl)

validate_rate_schedule_iff_example :
    (validate_rate_schedule rate.schedule ≡ ok tt)
    ↔ (FixedOk rate.schedule ⊎ UniformOk rate.schedule)
validate_rate_schedule_iff_example = validate_rate_schedule_iff rate.schedule

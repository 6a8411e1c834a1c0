-- ===== src/Controller/Examples.antt =====
-- A scenario and stand-ins for the libraries, for the tests.
use native.Mathlib.Decide.{ℕ_discrete}
use kurama.Base.{
  ltb, if◌then◌else◌, replicate, pos, Bytes, codes, eqs, has_prefix, ℕ, ◌≡◌, refl, ◌↔◌, true, false,
  not, Option, none, some, List, [], ◌∷◌,
}
use kurama.Base.Assoc.{lookup}
use kurama.Api.{TrafficScenario, OperationSpec}
use kurama.Controller.Apply.Objects.{DeepEqual}
use kurama.Controller.Resources.{Quantities}
use kurama.Controller.Validation.{Checks}
use kurama.Controller.Workload.{ConfigMap, Deployment, Container, Volume, StringMap}
use kurama.Controller.Identity.{Sha256}
use kurama.Controller.Status.{Status, Condition, ConditionSetter, find_condition}
use kurama.Validation.Config.{ParsedUrl}

-- Amounts of the quantities that the tests use: thousandths of a core, and mebibytes.
abbrev amounts : List (Bytes × ℕ)
amounts =
    (codes "1", 1_000)
    ∷ (codes "25m", 25)
    ∷ (codes "500m", 500)
    ∷ (codes "16Mi", 16)
    ∷ (codes "32Mi", 32)
    ∷ (codes "64Mi", 64)
    ∷ (codes "128Mi", 128)
    ∷ (codes "256Mi", 256)
    ∷ (codes "512Mi", 512)
    ∷ (codes "1Gi", 1_024)
    ∷ []

abbrev amount : Bytes → ℕ
amount q = elim (lookup q amounts) [ none ↦ 0 | some n ↦ n ]

abbrev pub quantities : Quantities
quantities = record {
  exceeds = λ p q. ltb (amount q) (amount p);
  is_negative = λ q. has_prefix (codes "-") q;
}

-- A parser that knows one address.
abbrev pub parse_target : Bytes → Option ParsedUrl
parse_target s = some (record {
  scheme = codes "http";
  host = codes "target";
  has_user = false;
  raw_query = [];
  fragment = [];
})

abbrev pub checks : Checks
checks = record {
  names = record {
    is_dns1123_subdomain = λ s. not (eqs s []);
    is_config_map_key = λ s. not (eqs s []);
  };
  quantities = quantities;
  parse_request_uri = parse_target;
}

-- Reads a store, and sends a token from a secret.
abbrev shorten : OperationSpec
shorten = record {
  name = codes "shorten";
  weight = pos 3;
  request = record {
    method = codes "GET";
    path_template = codes "/{{ id }}";
    headers = (codes "Accept", codes "text/html") ∷ [];
    secret_headers =
        record {
          name = codes "Authorization";
          value_from = record {
            secret_key_ref = record { name = codes "api"; key = codes "token" };
          };
        }
        ∷ [];
    body_template = [];
    variables =
        record {
          name = codes "id";
          source = record { type = codes "store"; store = codes "ids"; length = pos 0 };
        }
        ∷ [];
  };
  expected_status_codes = pos 200 ∷ [];
  capture = some (record { json_pointer = codes "/id"; store = codes "ids" });
}

-- Two replicas that share Redis, with more memory than by default.
abbrev pub demo : TrafficScenario
demo = record {
  namespace = codes "shop";
  name = codes "demo";
  uid = codes "7";
  spec = record {
    target = record { base_url = codes "http://target" };
    rate = record {
      schedule = record {
        type = codes "fixed";
        requests_per_minute = pos 60;
        min_requests_per_minute = pos 0;
        max_requests_per_minute = pos 0;
        window_minutes = pos 0;
      };
      limiter = none;
      profile = none;
    };
    stores = record { name = codes "ids"; capacity = pos 5 } ∷ [];
    operations = shorten ∷ [];
    storage = some (record { type = codes "redis" });
    suspend = false;
    replicas = pos 2;
    runner = some (record {
      resources = some (record { requests = []; limits = (codes "memory", codes "256Mi") ∷ [] });
    });
  };
}

pub decided :
    {A : Type 0} {a b : A} (d : Dec (a ≡ b))
    → (elim d [ yes h ↦ true | no h ↦ false ] ≡ true) ↔ (a ≡ b)
decided (yes h) = (λ e. h, λ e. refl)
decided (no h) = (λ e. cc, λ e. absurd (h e))

-- `Semantic.DeepEqual` of types whose equality is decidable.
abbrev pub by_decision : {A : Type 0} → Discrete A → DeepEqual A
by_decision d = record {
  deep_equal = λ a b. elim (d a b) [ yes h ↦ true | no h ↦ false ];
  deep_equal_iff = λ a b. decided (d a b);
}

ConfigMap-discrete : Discrete ConfigMap
ConfigMap-discrete = hlevel (ℕ_discrete)

Container-discrete : Discrete Container
Container-discrete = hlevel (ℕ_discrete)

Volume-discrete : Discrete Volume
Volume-discrete = hlevel (ℕ_discrete)

Deployment-discrete : Discrete Deployment
Deployment-discrete = hlevel (ℕ_discrete, Container-discrete, Volume-discrete)

StringMap-discrete : Discrete StringMap
StringMap-discrete = hlevel (ℕ_discrete)

pub equal_config_maps : DeepEqual ConfigMap
equal_config_maps = by_decision ConfigMap-discrete

pub equal_deployments : DeepEqual Deployment
equal_deployments = by_decision Deployment-discrete

pub equal_maps : DeepEqual StringMap
equal_maps = by_decision StringMap-discrete

Status-discrete : Discrete Status
Status-discrete = hlevel (ℕ_discrete)

pub equal_statuses : DeepEqual Status
equal_statuses = by_decision Status-discrete

prepended :
    (type : Bytes) (c : Condition) (cs : List Condition)
    → find_condition type (c ∷ cs) ≡ (if eqs c.type type then some c else find_condition type cs)
unfolding find_condition
prepended type c cs = refl

-- The newest condition stands first.
pub prepend_setter : ConditionSetter
prepend_setter = record { set_status_condition = λ c cs. c ∷ cs; find-set = prepended }

-- A digest of 64 zeros.
abbrev pub zeros : Sha256
zeros = record { hex = λ s. replicate 64 b'0'; length-hex = λ s. refl }

-- ===== src/Validation/Config.antt =====
-- `Validate` and `validateTarget` of internal/runner/config_validation.go. Parsing a URL is a
-- parameter.
use kurama.Base.{
  ltb, ◌==◌, length, Bytes, codes, eqs, elem, ℕ, ◌+◌, Bool, ◌&&◌, ◌||◌, not, Option, none, some,
  List, [], ◌∷◌,
}
use kurama.Base.Result.{Result, ok, err, ◌>>=◌, ◌>>◌, fail_if, wrap_err}
use kurama.Config.{Config, TargetConfig, OperationConfig, RateLimiterConfig, max_operations}
use kurama.Store.{StoreConfigError, validate_store_configs}
use kurama.Validation.Operation.{OperationError, validate_operation}
use kurama.Validation.Rate.{RateError, validate_rate_schedule, validate_rate_profile}

-- What `url.ParseRequestURI` finds, as far as the validation reads it.
pub record ParsedUrl : Type 0 where
  pub scheme : Bytes
  pub host : Bytes
  pub has_user : Bool
  pub raw_query : Bytes
  pub fragment : Bytes

pub data ConfigError : Type 0 where
  target_not_absolute target_has_credentials target_has_query : ConfigError
  unsupported_scheme unsupported_limiter : Bytes → ConfigError
  bad_rate : RateError → ConfigError
  bad_stores : StoreConfigError → ConfigError
  operation_count : ConfigError
  bad_operation : ℕ → OperationError → ConfigError
  duplicate_operation : ℕ → ConfigError

-- The loop over the operations.
unfoldable pub validate_operations :
    ℕ → List Bytes → List Bytes → List OperationConfig → Result ConfigError (Unit {0})
validate_operations i names stores [] = ok tt
validate_operations i names stores (o ∷ os) = do
  wrap_err (bad_operation i) (validate_operation o stores)
  fail_if (elem o.name names) (duplicate_operation i)
  validate_operations (i + 1) (o.name ∷ names) stores os

-- The switch on the limiter.
unfoldable pub validate_limiter : Option RateLimiterConfig → Result ConfigError (Unit {0})
validate_limiter none = ok tt
validate_limiter (some l) =
    fail_if (not (eqs l.type [] || eqs l.type (codes "local") || eqs l.type (codes "redis")))
      (unsupported_limiter l.type)

module _ (parse_request_uri : Bytes → Option ParsedUrl) where
  -- `validateTarget`
  unfoldable pub validate_target : TargetConfig → Result ConfigError (Unit {0})
  validate_target target = elim (parse_request_uri target.base_url) [
    | none ↦ err target_not_absolute
    | some u ↦ do
      fail_if (eqs u.scheme [] || eqs u.host []) target_not_absolute
      fail_if (not (eqs u.scheme (codes "http")) && not (eqs u.scheme (codes "https")))
          (unsupported_scheme u.scheme)
      fail_if u.has_user target_has_credentials
      fail_if (not (eqs u.raw_query []) || not (eqs u.fragment [])) target_has_query
  ]

  -- `Config.Validate`
  unfoldable pub validate : Config → Result ConfigError (Unit {0})
  unfolding validate_target validate_operations validate_limiter
  validate c = do
    validate_target c.target
    wrap_err bad_rate (validate_rate_schedule c.rate.schedule)
    validate_limiter c.rate.limiter
    wrap_err bad_rate (validate_rate_profile c.rate.profile)
    stores ← wrap_err bad_stores (validate_store_configs c.stores)
    fail_if ((length c.operations == 0) || ltb max_operations (length c.operations)) operation_count
    validate_operations 0 [] stores.names c.operations

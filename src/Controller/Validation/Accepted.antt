-- ===== src/Controller/Validation/Accepted.antt =====
-- What the controller relies on of a scenario that it accepts.
use kurama.Base.{
  if◌then◌else◌, All, pos, ltz, InRange, outside, outside-InRange, Bytes, eqs→eq, eqs_iff, eqs, ℕ,
  ◌+◌, ◌≡◌, refl, ◌⊎◌, inl, inr, Bool, true, false, ◌&&◌, not, Option, none, some, List, [], ◌∷◌,
  arith,
}
use kurama.Base.Result.{ok, fail_if, wrap_err, fail_if-eq-ok, >>=-eq-ok, wrap_err-eq-ok}
use kurama.Api.{
  TrafficScenario, StorageSpec, RateLimiterSpec, SecretHeaderSpec, OperationSpec,
  storage_type_memory, storage_type_redis, rate_limiter_type_local, rate_limiter_type_redis,
}
use kurama.Controller.Backends.{
  runner_replicas, rate_limiter_backend, storage_backend, backend_of, limiter_type_of,
}
use kurama.Controller.Conversion.{scenario_runner_config}
use kurama.Controller.Resources.{
  validate_runner_resources, default_runner_resources, runner_resources,
}
use kurama.Controller.Resources.Accepted.{ResourcesOk, validate_runner_resources-ResourcesOk}
use kurama.Controller.Validation.{
  replicas_out_of_range, replicas_need_redis, bad_resources, bad_secret_name, bad_secret_key,
  bad_spec, check_storage, check_limiter, check_profile, NameChecks, check_secret_headers,
  validate_secret_header_references, Checks, validate_scenario,
}
use kurama.Validation.Config.{validate}

-- Every secret header of an operation names its secret and key as Kubernetes allows.
abbrev pub ReferencesOk : NameChecks → OperationSpec → Type 0
ReferencesOk names o =
    All
      (λ (h : SecretHeaderSpec).
        (names.is_dns1123_subdomain h.value_from.secret_key_ref.name ≡ true)
        × (names.is_config_map_key h.value_from.secret_key_ref.key ≡ true))
      o.request.secret_headers

pub record Accepted (c : Checks) (s : TrafficScenario) : Type 0 where
  pub replicas_range : InRange 1 10 (runner_replicas s)
  pub shared_limiter :
      ltz (pos 1) (runner_replicas s) ≡ true → rate_limiter_backend s ≡ rate_limiter_type_redis
  pub storage_known :
      (storage_backend s ≡ storage_type_memory) ⊎ (storage_backend s ≡ storage_type_redis)
  pub limiter_known :
      (rate_limiter_backend s ≡ rate_limiter_type_local)
      ⊎ (rate_limiter_backend s ≡ rate_limiter_type_redis)
  pub resources_ok : ResourcesOk c.quantities (runner_resources s)
  pub references_ok : All (ReferencesOk c.names) s.spec.operations
  pub config_ok : validate c.parse_request_uri (scenario_runner_config s) ≡ ok tt

check_storage-known :
    (o : Option StorageSpec)
    → check_storage o ≡ ok tt
    → (backend_of o ≡ storage_type_memory) ⊎ (backend_of o ≡ storage_type_redis)
unfolding check_storage
check_storage-known none h = inl refl
check_storage-known (some s) h = ground (
  arith,
  fail_if-eq-ok _ _ tt h,
  eqs_iff s.type storage_type_memory,
  eqs_iff s.type storage_type_redis,
)

check_limiter-known :
    (o : Option RateLimiterSpec) (d : Bytes)
    → check_limiter o ≡ ok tt
    → (d ≡ rate_limiter_type_local) ⊎ (d ≡ rate_limiter_type_redis)
    → (limiter_type_of o d ≡ rate_limiter_type_local)
      ⊎ (limiter_type_of o d ≡ rate_limiter_type_redis)
unfolding check_limiter
check_limiter-known none d h k = k
check_limiter-known (some l) d h k = ground (
  arith,
  fail_if-eq-ok _ _ tt h,
  eqs_iff l.type rate_limiter_type_local,
  eqs_iff l.type rate_limiter_type_redis,
  k,
)

default_limiter :
    (b : Bool)
    → let d = if b then rate_limiter_type_redis else rate_limiter_type_local in
      (d ≡ rate_limiter_type_local) ⊎ (d ≡ rate_limiter_type_redis)
default_limiter true = inr refl
default_limiter false = inl refl

check_secret_headers-ok :
    (names : NameChecks) (i j : ℕ) (hs : List SecretHeaderSpec)
    → check_secret_headers names i j hs ≡ ok tt
    → All
        (λ (h : SecretHeaderSpec).
          (names.is_dns1123_subdomain h.value_from.secret_key_ref.name ≡ true)
          × (names.is_config_map_key h.value_from.secret_key_ref.key ≡ true))
        hs
unfolding check_secret_headers
check_secret_headers-ok names i j [] h = tt
check_secret_headers-ok names i j (x ∷ xs) h =
    let ref = x.value_from.secret_key_ref in
    let (a, name, h1) =
      >>=-eq-ok (fail_if (not (names.is_dns1123_subdomain ref.name)) (bad_secret_name i j)) _ h in
    let (b, key, h2) =
      >>=-eq-ok (fail_if (not (names.is_config_map_key ref.key)) (bad_secret_key i j)) _ h1 in
    (
      (ground (arith, fail_if-eq-ok _ _ a name), ground (arith, fail_if-eq-ok _ _ b key)),
      check_secret_headers-ok names i (j + 1) xs h2,
    )

references-ok :
    (names : NameChecks) (i : ℕ) (os : List OperationSpec)
    → validate_secret_header_references names i os ≡ ok tt
    → All (ReferencesOk names) os
unfolding validate_secret_header_references
references-ok names i [] h = tt
references-ok names i (o ∷ os) h =
    let (a, headers, h1) =
      >>=-eq-ok (check_secret_headers names i 0 o.request.secret_headers) _ h in
    (
      check_secret_headers-ok names i 0 o.request.secret_headers headers,
      references-ok names (i + 1) os h1,
    )

-- A scenario that the controller accepts has 1 to 10 replicas, and several of them only with the
-- Redis limiter; its backends are known ones; its secret references and, where the defaults of the
-- controller fit its own limits, its resources are as they have to be; and the runner accepts the
-- configuration that the controller writes for it.
pub validate_scenario-Accepted :
    (c : Checks) (s : TrafficScenario)
    → ResourcesOk c.quantities default_runner_resources
    → validate_scenario c s ≡ ok tt
    → Accepted c s
unfolding validate_scenario storage_backend rate_limiter_backend
validate_scenario-Accepted c s d h =
    let (a1, storage, h1) = >>=-eq-ok (check_storage s.spec.storage) _ h in
    let (a2, limiter, h2) = >>=-eq-ok (check_limiter s.spec.rate.limiter) _ h1 in
    let (a3, profile, h3) = >>=-eq-ok (check_profile s.spec.rate.profile) _ h2 in
    let (a4, range, h4) =
      >>=-eq-ok (fail_if (outside 1 10 (runner_replicas s)) replicas_out_of_range) _ h3 in
    let alone =
      ltz (pos 1) (runner_replicas s)
      && not (eqs (rate_limiter_backend s) rate_limiter_type_redis) in
    let (a5, shared, h5) = >>=-eq-ok (fail_if alone replicas_need_redis) _ h4 in
    let (a6, resources, h6) =
      >>=-eq-ok (wrap_err bad_resources (validate_runner_resources c.quantities s)) _ h5 in
    let (a7, references, h7) =
      >>=-eq-ok (validate_secret_header_references c.names 0 s.spec.operations) _ h6 in
    let apart = fail_if-eq-ok alone replicas_need_redis a5 shared in
    record {
      replicas_range = outside-InRange 1 10 (runner_replicas s) (fail_if-eq-ok _ _ a4 range);
      shared_limiter = λ several.
          eqs→eq (rate_limiter_backend s) rate_limiter_type_redis (ground (arith, apart, several));
      storage_known = check_storage-known s.spec.storage storage;
      limiter_known =
          check_limiter-known s.spec.rate.limiter _ limiter
            (default_limiter (eqs (storage_backend s) storage_type_redis));
      resources_ok =
          validate_runner_resources-ResourcesOk c.quantities s d
            (wrap_err-eq-ok bad_resources _ resources);
      references_ok = references-ok c.names 0 s.spec.operations references;
      config_ok = wrap_err-eq-ok bad_spec _ h7;
    }

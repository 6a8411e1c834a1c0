-- ===== src/Controller/Resources/Accepted.antt =====
-- The resources of an accepted scenario are within the limits of the controller.
use kurama.Base.{
  All, Bytes, codes, eqs, ◌≡◌, refl, ap, ◌∙◌, false, Option, none, some, List, [], ◌∷◌,
}
use kurama.Base.Assoc.{lookup}
use kurama.Base.Result.{ok, fail_if, wrap_err, fail_if-eq-ok, >>=-eq-ok, wrap_err-eq-ok}
use kurama.Api.{TrafficScenario, RunnerResourcesSpec, ResourceList}
use kurama.Controller.Resources.{
  cpu, memory, ephemeral_storage, ResourceRequirements, default_runner_resources,
  merge_missing_resources, resource_overrides, runner_resources, Quantities, request_above_limit,
  bad_requests, bad_limits, bad_merged, max_runner_resource, quantity_or_zero,
  validate_runner_resource_list, compare_resources, validate_overrides, validate_runner_resources,
  merged_resources,
}
use kurama.Controller.Resources.Bounds.{
  or_default, lookup-merge_missing_resources, EntryOk, merge-EntryOk, lookup-EntryOk,
  validate_runner_resource_list-EntryOk,
}

-- The request and the limit of a resource: both are set, the request is not above the limit, and
-- neither is above the maximum of the controller.
pub record WithinLimits (q : Quantities) (r : ResourceRequirements) (name : Bytes) : Type 0 where
  pub request : Bytes
  pub limit : Bytes
  pub request_set : lookup name r.requests ≡ some request
  pub limit_set : lookup name r.limits ≡ some limit
  pub request_le_limit : q.exceeds request limit ≡ false
  pub request_le_max : q.exceeds request (max_runner_resource name) ≡ false
  pub limit_le_max : q.exceeds limit (max_runner_resource name) ≡ false

abbrev pub runner_resource_names : List Bytes
runner_resource_names = cpu ∷ (memory ∷ (ephemeral_storage ∷ []))

-- The resources of a container: each of the three names is within its limits, and there is no entry
-- that is not allowed, negative or too large.
pub record ResourcesOk (q : Quantities) (r : ResourceRequirements) : Type 0 where
  pub within : All (WithinLimits q r) runner_resource_names
  pub requests_ok : All (EntryOk q) r.requests
  pub limits_ok : All (EntryOk q) r.limits

compare_resources-le :
    (q : Quantities) (r : ResourceRequirements) (names : List Bytes)
    → compare_resources q r names ≡ ok tt
    → All
        (λ name.
          q.exceeds
            (quantity_or_zero (lookup name r.requests))
            (quantity_or_zero (lookup name r.limits))
          ≡ false)
        names
unfolding compare_resources
compare_resources-le q r [] h = tt
compare_resources-le q r (name ∷ names) h =
    let (a, le, h1) = >>=-eq-ok (fail_if _ (request_above_limit name)) _ h in
    (fail_if-eq-ok _ _ a le, compare_resources-le q r names h1)

within-name :
    (q : Quantities) (r : ResourceRequirements) (name request limit : Bytes)
    → All (EntryOk q) r.requests
    → All (EntryOk q) r.limits
    → lookup name r.requests ≡ some request
    → lookup name r.limits ≡ some limit
    → q.exceeds
        (quantity_or_zero (lookup name r.requests))
        (quantity_or_zero (lookup name r.limits))
      ≡ false
    → WithinLimits q r name
within-name q r name request limit rs ls er el le = record {
  request = request;
  limit = limit;
  request_set = er;
  limit_set = el;
  request_le_limit = rw (er, el) at le;
  request_le_max = lookup-EntryOk q name request r.requests rs er;
  limit_le_max = lookup-EntryOk q name limit r.limits ls el;
}

chosen : Option Bytes → Bytes → Bytes
chosen none d = d
chosen (some q) d = q

or_default-some : (o : Option Bytes) (d : Bytes) → or_default o (some d) ≡ some (chosen o d)
unfolding or_default chosen
or_default-some none d = refl
or_default-some (some q) d = refl

merged-set :
    (name default : Bytes) (target defaults : ResourceList)
    → lookup name defaults ≡ some default
    → lookup name (merge_missing_resources target defaults)
      ≡ some (chosen (lookup name target) default)
merged-set name default target defaults h =
    lookup-merge_missing_resources name target defaults
    ∙ rw h (or_default-some (lookup name target) default)

validate_overrides-ResourcesOk :
    (q : Quantities) (s : TrafficScenario) (o : Option RunnerResourcesSpec)
    → ResourcesOk q default_runner_resources
    → resource_overrides s ≡ o
    → validate_overrides q s o ≡ ok tt
    → ResourcesOk q (merged_resources o)
unfolding validate_overrides merged_resources runner_resources lookup default_runner_resources eqs
validate_overrides-ResourcesOk q s none d e h = d
validate_overrides-ResourcesOk q s (some o) d e h =
    let (a, requests, h1) =
      >>=-eq-ok (wrap_err bad_requests (validate_runner_resource_list q o.requests)) _ h in
    let (b, limits, h2) =
      >>=-eq-ok (wrap_err bad_limits (validate_runner_resource_list q o.limits)) _ h1 in
    let merged = merged_resources (some o) in
    let same : runner_resources s ≡ merged = ap merged_resources e in
    let le = compare_resources-le q merged runner_resource_names (
      rw same at (
        wrap_err-eq-ok bad_merged (compare_resources q (runner_resources s) runner_resource_names)
          h2)) in
    let rs =
      merge-EntryOk q o.requests default_runner_resources.requests
        (validate_runner_resource_list-EntryOk q o.requests
          (wrap_err-eq-ok bad_requests _ requests))
        d.requests_ok in
    let ls =
      merge-EntryOk q o.limits default_runner_resources.limits
        (validate_runner_resource_list-EntryOk q o.limits (wrap_err-eq-ok bad_limits _ limits))
        d.limits_ok in
    let within =
      λ (name request limit : Bytes)
          (er : lookup name default_runner_resources.requests ≡ some request)
          (el : lookup name default_runner_resources.limits ≡ some limit).
        within-name q merged name (chosen (lookup name o.requests) request)
          (chosen (lookup name o.limits) limit) rs ls
          (merged-set name request o.requests default_runner_resources.requests er)
          (merged-set name limit o.limits default_runner_resources.limits el) in
    record {
      within = (
        within cpu (codes "25m") (codes "500m") refl refl le.0,
        (
          within memory (codes "32Mi") (codes "128Mi") refl refl le.1.0,
          (within ephemeral_storage (codes "16Mi") (codes "64Mi") refl refl le.1.1.0, tt),
        ),
      );
      requests_ok = rs;
      limits_ok = ls;
    }

-- The resources of the runner of an accepted scenario: where the defaults of the controller fit its
-- own limits, cpu, memory and ephemeral storage each have a request and a limit, the request is not
-- above the limit, neither is above the maximum, and there is no entry for anything else.
pub validate_runner_resources-ResourcesOk :
    (q : Quantities) (s : TrafficScenario)
    → ResourcesOk q default_runner_resources
    → validate_runner_resources q s ≡ ok tt
    → ResourcesOk q (runner_resources s)
unfolding validate_runner_resources runner_resources
validate_runner_resources-ResourcesOk q s d h =
    validate_overrides-ResourcesOk q s (resource_overrides s) d refl h

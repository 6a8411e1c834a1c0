-- ===== src/Controller/Apply/Settles.antt =====
-- A Deployment that holds what a scenario asks for, and what is asked for holds itself.
use kurama.Base.{
  leb, if◌then◌else◌, length, Bytes, codes, eqs_refl, eqs, ◌+◌, ◌≡◌, refl, sym, Bool, true, false,
  some, [], ◌∷◌, arith,
}
use kurama.Base.Result.{ok}
use kurama.Api.{TrafficScenario}
use kurama.Controller.Apply.{apply_managed_deployment_fields}
use kurama.Controller.Apply.Managed.{Distinct}
use kurama.Controller.Apply.Objects.{
  DeepEqual, Found, not_found, read_failed, found, ObjectApi, owner_of, ensure_controlled_by,
  apply_deployment, patch_deployment,
}
use kurama.Controller.Apply.Twice.{DesiredOk}
use kurama.Controller.Apply.Volumes.{secret_once}
use kurama.Controller.Desired.{
  desired_pod, desired_deployment, labels, scenario_annotations, config_hash,
  config_hash_annotation, scenario_name_annotation,
}
use kurama.Controller.Identity.{Sha256}
use kurama.Controller.Workload.{StringMap, Deployment}

pub annotations-Distinct :
    (b : Bool) (value : Bytes) → Distinct (if b then [] else (scenario_name_annotation, value) ∷ [])
annotations-Distinct true value = tt
annotations-Distinct false value = (refl, tt)

pod_annotations-Distinct :
    (b : Bool) (hash value : Bytes)
    → Distinct (
        (config_hash_annotation, hash)
        ∷ (codes "prometheus.io/scrape", codes "true")
        ∷ (codes "prometheus.io/port", codes "8080")
        ∷ (codes "prometheus.io/path", codes "/metrics")
        ∷ (if b then [] else (scenario_name_annotation, value) ∷ []))
unfolding eqs
pod_annotations-Distinct true hash value = (refl, (refl, (refl, (refl, tt))))
pod_annotations-Distinct false hash value = (refl, (refl, (refl, (refl, (refl, tt)))))

pub desired_deployment-DesiredOk :
    (sha : Sha256) (s : TrafficScenario) (name image secret redis config : Bytes)
    → DesiredOk (desired_deployment sha s name image secret redis config)
unfolding desired_deployment desired_pod labels scenario_annotations config_hash eqs
desired_deployment-DesiredOk sha s name image secret redis config = record {
  labels_distinct = (refl, (refl, tt));
  annotations_distinct = annotations-Distinct (leb (length s.name + 7) 63) s.name;
  template_labels_distinct = (refl, (refl, tt));
  template_annotations_distinct =
      pod_annotations-Distinct (leb (length s.name + 7) 63) (sha.hex config) s.name;
  plain_first = refl;
}

-- What the API server has found stores at most one volume for the secret headers.
abbrev pub FoundOnce : Found Deployment → Type 0
FoundOnce not_found = Unit {0}
FoundOnce read_failed = Unit {0}
FoundOnce (found e) = secret_once e.pod.volumes ≡ true

module _ (eq : DeepEqual Deployment) (same : DeepEqual StringMap) (s : TrafficScenario)
    (d : Deployment) where
  -- A Deployment that holds what is desired is left alone.
  pub settled :
      (api : ObjectApi Deployment) (e : Deployment)
      → ensure_controlled_by e.controller s ≡ ok tt
      → same.deep_equal e.selector d.selector ≡ true
      → apply_managed_deployment_fields e d ≡ e
      → apply_deployment eq same (record api { get = found e }) s d ≡ (ok false, [])
  unfolding apply_deployment patch_deployment
  settled api e owned selector held =
      let unchanged = (eq.deep_equal_iff e (apply_managed_deployment_fields e d)).1 (sym held) in
      ground (arith, owned, selector, unchanged)

  pub owned_by_creator : ensure_controlled_by (some (owner_of s)) s ≡ ok tt
  unfolding ensure_controlled_by
  owned_by_creator = rw (eqs_refl s.uid) refl

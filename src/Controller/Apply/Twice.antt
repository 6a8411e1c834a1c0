-- ===== src/Controller/Apply/Twice.antt =====
-- The managed fields of a Deployment, set twice.
use kurama.Base.{◌≡◌, refl, ap, ◌∙◌, true, false, Option, List, [], ◌∷◌}
use kurama.Controller.Apply.{
  find_secret_volume, set_secret_volume, apply_managed_scenario_volume, apply_first_container,
  apply_first_volume, apply_pod, apply_managed_deployment_fields,
  apply_managed_secret_header_volume,
}
use kurama.Controller.Apply.Managed.{
  Distinct, set_managed_map_values-twice, pod_security_context-twice, container-twice,
  scenario_volume-twice, set_managed_map_values_self, container_self, scenario_volume_self,
  pod_security_context_self,
}
use kurama.Controller.Apply.Volumes.{
  IsSecret, is_secret_volume, secret_once, find_secret_volume-IsSecret, secret_volume-twice,
  secret_once-scenario, scenario_volume-kept, secret_volume_self,
}
use kurama.Controller.Workload.{Container, Volume, OwnerReference, PodSpec, Deployment}

-- The first volume is not the one of the secret headers.
abbrev pub PlainFirst : List Volume → Type 0
PlainFirst [] = Unit {0}
PlainFirst (v ∷ vs) = is_secret_volume v ≡ false

containers-twice :
    (es ds : List Container) → let a = apply_first_container es ds in apply_first_container a ds ≡ a
containers-twice es [] = refl
containers-twice es (d ∷ ds) = container-twice es d

set_volumes-twice :
    (vs ds : List Volume) (x : Option Volume)
    → PlainFirst ds
    → IsSecret x
    → secret_once vs ≡ true
    → let a = set_secret_volume (apply_first_volume vs ds) x in
      set_secret_volume (apply_first_volume a ds) x ≡ a
set_volumes-twice vs [] x p i h = secret_volume-twice vs x i h
set_volumes-twice vs (d ∷ ds) x p i h =
    ap (λ ws. set_secret_volume ws x)
      (scenario_volume-kept (apply_managed_scenario_volume vs d) d x p (scenario_volume-twice vs d))
    ∙ secret_volume-twice (apply_managed_scenario_volume vs d) x i (secret_once-scenario vs d p h)

apply_pod-twice :
    (e d : PodSpec)
    → PlainFirst d.volumes
    → secret_once e.volumes ≡ true
    → apply_pod (apply_pod e d) d ≡ apply_pod e d
unfolding apply_pod apply_managed_secret_header_volume
apply_pod-twice e d p h =
    let sc = pod_security_context-twice e.security_context d.security_context in
    let cs = containers-twice e.containers d.containers in
    let vs =
      set_volumes-twice e.volumes d.volumes (find_secret_volume d.volumes) p
        (find_secret_volume-IsSecret d.volumes) h in
    λ i. record (apply_pod e d) { security_context = sc i; containers = cs i; volumes = vs i }

-- What the theorems below need of a Deployment that is desired.
pub record DesiredOk (d : Deployment) : Type 0 where
  pub labels_distinct : Distinct d.labels
  pub annotations_distinct : Distinct d.annotations
  pub template_labels_distinct : Distinct d.template_labels
  pub template_annotations_distinct : Distinct d.template_annotations
  pub plain_first : PlainFirst d.pod.volumes

pub apply_managed_deployment_fields-twice :
    (e d : Deployment)
    → DesiredOk d
    → secret_once e.pod.volumes ≡ true
    → let a = apply_managed_deployment_fields e d in apply_managed_deployment_fields a d ≡ a
unfolding apply_managed_deployment_fields
apply_managed_deployment_fields-twice e d k h =
    let ls = set_managed_map_values-twice e.labels d.labels k.labels_distinct in
    let notes = set_managed_map_values-twice e.annotations d.annotations k.annotations_distinct in
    let tl =
      set_managed_map_values-twice e.template_labels d.template_labels k.template_labels_distinct in
    let ta =
      set_managed_map_values-twice e.template_annotations d.template_annotations
        k.template_annotations_distinct in
    let p = apply_pod-twice e.pod d.pod k.plain_first h in
    λ i. record (apply_managed_deployment_fields e d) {
      labels = ls i;
      annotations = notes i;
      template_labels = tl i;
      template_annotations = ta i;
      pod = p i;
    }

containers_self : (ds : List Container) → apply_first_container ds ds ≡ ds
containers_self [] = refl
containers_self (d ∷ ds) = container_self d ds

volumes_self : (ds : List Volume) → apply_first_volume ds ds ≡ ds
volumes_self [] = refl
volumes_self (d ∷ ds) = scenario_volume_self d ds

apply_pod_self : (d : PodSpec) → apply_pod d d ≡ d
unfolding apply_pod apply_managed_secret_header_volume
apply_pod_self d =
    let sc = pod_security_context_self d.security_context in
    let cs = containers_self d.containers in
    let vs =
      ap (λ ws. set_secret_volume ws (find_secret_volume d.volumes)) (volumes_self d.volumes)
      ∙ secret_volume_self d.volumes in
    λ i. record d { security_context = sc i; containers = cs i; volumes = vs i }

-- A Deployment that was created as desired holds what is desired.
pub apply_managed_deployment_fields-created :
    (d : Deployment) (owner : Option OwnerReference)
    → DesiredOk d
    → let e : Deployment = record d { controller = owner } in
      apply_managed_deployment_fields e d ≡ e
unfolding apply_managed_deployment_fields
apply_managed_deployment_fields-created d owner k =
    let ls = set_managed_map_values_self d.labels k.labels_distinct in
    let notes = set_managed_map_values_self d.annotations k.annotations_distinct in
    let tl = set_managed_map_values_self d.template_labels k.template_labels_distinct in
    let ta = set_managed_map_values_self d.template_annotations k.template_annotations_distinct in
    let p = apply_pod_self d.pod in
    λ i. record d {
      controller = owner;
      labels = ls i;
      annotations = notes i;
      template_labels = tl i;
      template_annotations = ta i;
      pod = p i;
    }

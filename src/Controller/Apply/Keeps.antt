-- ===== src/Controller/Apply/Keeps.antt =====
-- What a patch of the Deployment sets, and what it leaves alone.
use kurama.Base.{
  if◌then◌else◌, Bool-cases, Bytes, codes, eqs→eq, eqs, ◌≡◌, refl, ◌∙◌, inl, inr, Bool, true, false,
  ◌||◌, Option, none, some, List, [], ◌∷◌, arith,
}
use kurama.Base.Assoc.{has_key, lookup}
use kurama.Controller.Apply.{
  apply_container, apply_managed_runner_container, apply_managed_scenario_volume, set_secret_volume,
  find_secret_volume, apply_managed_secret_header_volume, apply_first_volume, apply_pod,
  apply_managed_deployment_fields,
}
use kurama.Controller.Apply.Managed.{
  Holds, lookup-set_managed_map_values, set_managed_map_values-Holds,
}
use kurama.Controller.Apply.Settles.{desired_deployment-DesiredOk}
use kurama.Controller.Apply.Volumes.{is_secret_volume, IsSecret, find_secret_volume-IsSecret}
use kurama.Controller.Desired.{desired_container, desired_pod, desired_deployment}
use kurama.Controller.Identity.{Sha256}
use kurama.Controller.Workload.{Container, Volume, Deployment}
use kurama.Api.{TrafficScenario}
use kurama.Controller.Apply.Runs.{
  is_runner, find_runner, PodSecuredAs, PodSecuredAs-apply, RunsAs, find_runner-apply,
}

-- The containers that are not the runner's, such as injected sidecars.
pub other_containers : List Container → List Container
other_containers [] = []
other_containers (c ∷ cs) = let rest = other_containers cs in if is_runner c then rest else c ∷ rest

abbrev is_managed_volume : Volume → Bool
is_managed_volume v = eqs v.name (codes "scenario") || is_secret_volume v

-- The volumes that the controller does not manage.
pub other_volumes : List Volume → List Volume
other_volumes [] = []
other_volumes (v ∷ vs) =
    let rest = other_volumes vs in if is_managed_volume v then rest else v ∷ rest

other_containers-apply :
    (es : List Container) (d : Container)
    → is_runner d ≡ true
    → other_containers (apply_managed_runner_container es d) ≡ other_containers es
unfolding other_containers apply_managed_runner_container apply_container
other_containers-apply [] d r = rw r refl
other_containers-apply (e ∷ es) d r = elim (Bool-cases (eqs e.name d.name)) [
  | inl same ↦
      let runner : is_runner e ≡ true = rw (eqs→eq e.name d.name same) r in rw (same, runner) refl
  | inr differ ↦ rw (differ, other_containers-apply es d r) refl
]

other_volumes-scenario :
    (es : List Volume) (d : Volume)
    → is_managed_volume d ≡ true
    → other_volumes (apply_managed_scenario_volume es d) ≡ other_volumes es
unfolding other_volumes apply_managed_scenario_volume
other_volumes-scenario [] d r = rw r refl
other_volumes-scenario (e ∷ es) d r = elim (Bool-cases (eqs e.name d.name)) [
  | inl same ↦
      let managed : is_managed_volume e ≡ true = rw (eqs→eq e.name d.name same) r in
      rw (same, managed) refl
  | inr differ ↦ rw (differ, other_volumes-scenario es d r) refl
]

other_volumes-secret :
    (es : List Volume) (x : Option Volume)
    → IsSecret x
    → other_volumes (set_secret_volume es x) ≡ other_volumes es
unfolding other_volumes set_secret_volume
other_volumes-secret [] none i = refl
other_volumes-secret [] (some d) i = ground (arith, i)
other_volumes-secret (e ∷ es) none i = ground (arith, other_volumes-secret es none)
other_volumes-secret (e ∷ es) (some d) i = ground (arith, i, other_volumes-secret es (some d))

-- The first volume that is desired is a managed one.
abbrev ManagedFirst : List Volume → Type 0
ManagedFirst [] = Unit {0}
ManagedFirst (v ∷ vs) = is_managed_volume v ≡ true

volumes-keep :
    (es ds : List Volume)
    → ManagedFirst ds
    → other_volumes (apply_managed_secret_header_volume (apply_first_volume es ds) ds)
      ≡ other_volumes es
unfolding apply_managed_secret_header_volume
volumes-keep es [] h =
    other_volumes-secret es (find_secret_volume []) (find_secret_volume-IsSecret [])
volumes-keep es (d ∷ ds) h =
    other_volumes-secret (apply_managed_scenario_volume es d) (find_secret_volume (d ∷ ds))
      (find_secret_volume-IsSecret (d ∷ ds))
    ∙ other_volumes-scenario es d h

-- What a patch leaves alone.
pub record Kept (e d a : Deployment) : Type 0 where
  pub controller_kept : a.controller ≡ e.controller
  pub selector_kept : a.selector ≡ e.selector
  pub other_kept : (a.other ≡ e.other) × (a.pod.other ≡ e.pod.other)
  pub labels_kept :
      (key : Bytes) → has_key key d.labels ≡ false → lookup key a.labels ≡ lookup key e.labels
  pub annotations_kept :
      (key : Bytes)
      → has_key key d.annotations ≡ false
      → lookup key a.annotations ≡ lookup key e.annotations
  pub template_labels_kept :
      (key : Bytes)
      → has_key key d.template_labels ≡ false
      → lookup key a.template_labels ≡ lookup key e.template_labels
  pub template_annotations_kept :
      (key : Bytes)
      → has_key key d.template_annotations ≡ false
      → lookup key a.template_annotations ≡ lookup key e.template_annotations
  pub containers_kept : other_containers a.pod.containers ≡ other_containers e.pod.containers
  pub volumes_kept : other_volumes a.pod.volumes ≡ other_volumes e.pod.volumes

-- What a patch sets.
pub record Set (d a : Deployment) (c : Container) : Type 0 where
  pub replicas_set : a.replicas ≡ d.replicas
  pub history_set : a.revision_history_limit ≡ d.revision_history_limit
  pub deadline_set : a.progress_deadline_seconds ≡ d.progress_deadline_seconds
  pub strategy_set : a.strategy ≡ d.strategy
  pub labels_set : Holds a.labels d.labels
  pub annotations_set : Holds a.annotations d.annotations
  pub template_labels_set : Holds a.template_labels d.template_labels
  pub template_annotations_set : Holds a.template_annotations d.template_annotations
  pub pull_secrets_set : a.pod.image_pull_secrets ≡ d.pod.image_pull_secrets
  pub token_set : a.pod.automount_service_account_token ≡ d.pod.automount_service_account_token
  pub links_set : a.pod.enable_service_links ≡ d.pod.enable_service_links
  pub pod_secured : PodSecuredAs d.pod.security_context a.pod.security_context
  pub runner : Container
  pub runner_found : find_runner a.pod.containers ≡ some runner
  pub runner_runs : RunsAs c runner

pub apply_managed_deployment_fields-keeps :
    (sha : Sha256) (e : Deployment) (s : TrafficScenario) (name image secret redis config : Bytes)
    → let d = desired_deployment sha s name image secret redis config in
      let a = apply_managed_deployment_fields e d in
      Kept e d a × Set d a (desired_container s image redis)
unfolding apply_managed_deployment_fields apply_pod desired_deployment desired_pod desired_container
    apply_managed_secret_header_volume eqs
apply_managed_deployment_fields-keeps sha e s name image secret redis config =
    let d = desired_deployment sha s name image secret redis config in
    let k = desired_deployment-DesiredOk sha s name image secret redis config in
    let c = desired_container s image redis in
    let (runner, there, runs) = find_runner-apply e.pod.containers c refl in
    (
      record {
        controller_kept = refl;
        selector_kept = refl;
        other_kept = (refl, refl);
        labels_kept = λ key free. lookup-set_managed_map_values key e.labels d.labels free;
        annotations_kept =
            λ key free. lookup-set_managed_map_values key e.annotations d.annotations free;
        template_labels_kept =
            λ key free. lookup-set_managed_map_values key e.template_labels d.template_labels free;
        template_annotations_kept = λ key free.
            lookup-set_managed_map_values key e.template_annotations d.template_annotations free;
        containers_kept = other_containers-apply e.pod.containers c refl;
        volumes_kept = volumes-keep e.pod.volumes d.pod.volumes refl;
      },
      record {
        replicas_set = refl;
        history_set = refl;
        deadline_set = refl;
        strategy_set = refl;
        labels_set = set_managed_map_values-Holds e.labels d.labels k.labels_distinct;
        annotations_set =
            set_managed_map_values-Holds e.annotations d.annotations k.annotations_distinct;
        template_labels_set =
            set_managed_map_values-Holds e.template_labels d.template_labels
              k.template_labels_distinct;
        template_annotations_set =
            set_managed_map_values-Holds e.template_annotations d.template_annotations
              k.template_annotations_distinct;
        pull_secrets_set = refl;
        token_set = refl;
        links_set = refl;
        pod_secured = PodSecuredAs-apply e.pod.security_context d.pod.security_context;
        runner = runner;
        runner_found = there;
        runner_runs = runs;
      },
    )

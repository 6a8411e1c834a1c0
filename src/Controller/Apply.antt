-- ===== src/Controller/Apply.antt =====
-- internal/controller/trafficscenario_apply.go: bringing an object of the cluster to what a scenario
-- asks for. The answers of the API server and `Semantic.DeepEqual` are parameters.
pub mod Objects
pub mod Managed
pub mod Volumes
pub mod Twice
pub mod Settles
pub mod Runs
pub mod Keeps
pub mod Latest
pub mod Owned
mod Tests
use kurama.Base.{if◌then◌else◌, eqs, Option, none, some, List, [], ◌∷◌}
use kurama.Base.Assoc.{insert}
use kurama.Base.Result.{}
use kurama.Api.{TrafficScenario}
use kurama.Controller.Desired.{scenario_config_key}
use kurama.Controller.Secrets.{secret_headers_volume_name}
use kurama.Controller.Workload.{
  StringMap, OwnerReference, ConfigMap, SecurityContext, Container, ConfigMapVolumeSource,
  VolumeSource, config_map, projected, other_source, Volume, PodSecurityContext, PodSpec,
  Deployment,
}

-- `setManagedMapValues`
unfoldable pub set_managed_map_values : StringMap → StringMap → StringMap
set_managed_map_values target [] = target
set_managed_map_values target ((key, value) ∷ desired) =
    set_managed_map_values (insert key value target) desired

-- `applyManagedPodSecurityContext`
unfoldable pub apply_managed_pod_security_context :
    Option PodSecurityContext → Option PodSecurityContext → Option PodSecurityContext
apply_managed_pod_security_context existing none = existing
apply_managed_pod_security_context none (some d) = some (record {
  run_as_non_root = d.run_as_non_root;
  seccomp_profile = d.seccomp_profile;
  other = [];
})
apply_managed_pod_security_context (some e) (some d) =
    some (record e { run_as_non_root = d.run_as_non_root; seccomp_profile = d.seccomp_profile })

-- `applyManagedContainerSecurityContext`
unfoldable pub apply_managed_container_security_context :
    Option SecurityContext → Option SecurityContext → Option SecurityContext
apply_managed_container_security_context existing none = existing
apply_managed_container_security_context none (some d) = some (record {
  privileged = d.privileged;
  allow_privilege_escalation = d.allow_privilege_escalation;
  read_only_root_filesystem = d.read_only_root_filesystem;
  dropped_capabilities = d.dropped_capabilities;
  other = [];
})
apply_managed_container_security_context (some e) (some d) = some (record e {
  privileged = d.privileged;
  allow_privilege_escalation = d.allow_privilege_escalation;
  read_only_root_filesystem = d.read_only_root_filesystem;
  dropped_capabilities = d.dropped_capabilities;
})

-- What `applyManagedRunnerContainer` sets of a container that is there.
unfoldable pub apply_container : Container → Container → Container
unfolding apply_managed_container_security_context
apply_container e d = record e {
  image = d.image;
  command = d.command;
  args = d.args;
  env = d.env;
  volume_mounts = d.volume_mounts;
  ports = d.ports;
  resources = d.resources;
  security_context = apply_managed_container_security_context e.security_context d.security_context;
  startup_probe = d.startup_probe;
  liveness_probe = d.liveness_probe;
  readiness_probe = d.readiness_probe;
}

-- `applyManagedRunnerContainer`
unfoldable pub apply_managed_runner_container : List Container → Container → List Container
unfolding apply_container
apply_managed_runner_container [] d = d ∷ []
apply_managed_runner_container (e ∷ es) d =
    if eqs e.name d.name then apply_container e d ∷ es else e ∷ apply_managed_runner_container es d

-- The source of a volume that is there: the default mode of a ConfigMap stays.
unfoldable pub apply_source : VolumeSource → VolumeSource → VolumeSource
apply_source (config_map e) (config_map d) =
    config_map (record e { name = d.name; items = d.items; optional = d.optional })
apply_source (config_map e) (projected d) = projected d
apply_source (config_map e) (other_source d) = other_source d
apply_source (projected e) d = d
apply_source (other_source e) d = d

-- `applyManagedScenarioVolume`
unfoldable pub apply_managed_scenario_volume : List Volume → Volume → List Volume
unfolding apply_source
apply_managed_scenario_volume [] d = d ∷ []
apply_managed_scenario_volume (e ∷ es) d =
    if eqs e.name d.name
    then record e { source = apply_source e.source d.source } ∷ es
    else e ∷ apply_managed_scenario_volume es d

-- The search of `applyManagedSecretHeaderVolume` through the volumes that are desired.
unfoldable pub find_secret_volume : List Volume → Option Volume
find_secret_volume [] = none
find_secret_volume (v ∷ vs) =
    if eqs v.name secret_headers_volume_name then some v else find_secret_volume vs

-- `applyManagedSecretHeaderVolume`, with the volume that is desired, if any
unfoldable pub set_secret_volume : List Volume → Option Volume → List Volume
set_secret_volume [] none = []
set_secret_volume [] (some d) = d ∷ []
set_secret_volume (e ∷ es) none =
    if eqs e.name secret_headers_volume_name then es else e ∷ set_secret_volume es none
set_secret_volume (e ∷ es) (some d) =
    if eqs e.name secret_headers_volume_name
    then record e { source = d.source } ∷ es
    else e ∷ set_secret_volume es (some d)

unfoldable pub apply_managed_secret_header_volume : List Volume → List Volume → List Volume
unfolding set_secret_volume find_secret_volume
apply_managed_secret_header_volume volumes desired =
    set_secret_volume volumes (find_secret_volume desired)

-- The calls for `Containers[0]` and `Volumes[0]`: a desired pod has both.
abbrev pub apply_first_container : List Container → List Container → List Container
apply_first_container containers [] = containers
apply_first_container containers (d ∷ ds) = apply_managed_runner_container containers d

abbrev pub apply_first_volume : List Volume → List Volume → List Volume
apply_first_volume volumes [] = volumes
apply_first_volume volumes (d ∷ ds) = apply_managed_scenario_volume volumes d

-- What `applyManagedDeploymentFields` does to the pod.
unfoldable pub apply_pod : PodSpec → PodSpec → PodSpec
unfolding apply_managed_pod_security_context apply_managed_runner_container
    apply_managed_scenario_volume apply_managed_secret_header_volume
apply_pod e d = record e {
  image_pull_secrets = d.image_pull_secrets;
  automount_service_account_token = d.automount_service_account_token;
  enable_service_links = d.enable_service_links;
  security_context = apply_managed_pod_security_context e.security_context d.security_context;
  containers = apply_first_container e.containers d.containers;
  volumes = apply_managed_secret_header_volume (apply_first_volume e.volumes d.volumes) d.volumes;
}

-- `applyManagedDeploymentFields`
unfoldable pub apply_managed_deployment_fields : Deployment → Deployment → Deployment
unfolding set_managed_map_values apply_pod
apply_managed_deployment_fields e d = record e {
  labels = set_managed_map_values e.labels d.labels;
  annotations = set_managed_map_values e.annotations d.annotations;
  replicas = d.replicas;
  revision_history_limit = d.revision_history_limit;
  progress_deadline_seconds = d.progress_deadline_seconds;
  strategy = d.strategy;
  template_labels = set_managed_map_values e.template_labels d.template_labels;
  template_annotations = set_managed_map_values e.template_annotations d.template_annotations;
  pod = apply_pod e.pod d.pod;
}

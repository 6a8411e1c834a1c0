-- ===== src/Controller/Desired.antt =====
-- internal/controller/trafficscenario_resources.go, with the labels of trafficscenario_identity.go and
-- the security contexts of trafficscenario_runner_pod.go: the objects that a scenario asks for.
use kurama.Base.{
  leb, if◌then◌else◌, length, Bytes, codes, eqs, ℕ, ◌+◌, true, false, not, Option, none, some, List,
  [], ◌∷◌,
}
use kurama.Api.{TrafficScenario}
use kurama.Config.{secret_headers_mount_path}
use kurama.Controller.Backends.{runner_replicas, storage_backend, requires_redis}
use kurama.Controller.Identity.{
  Sha256, scenario_label_value, runner_name_suffix, max_runner_name_length,
}
use kurama.Controller.Resources.{runner_resources}
use kurama.Controller.Secrets.{
  ProjectedVolumeSource, secret_headers_volume_name, desired_secret_header_volume,
}
use kurama.Controller.Workload.{
  StringMap, ConfigMap, literal, field_ref, EnvVar, VolumeMount, Probe, SecurityContext, Container,
  config_map, projected, Volume, PodSecurityContext, PodSpec, Deployment,
}

abbrev pub component_label : Bytes
component_label = codes "app.kubernetes.io/component"

abbrev pub scenario_label : Bytes
scenario_label = codes "traffic.kurama.dev/scenario"

abbrev pub scenario_name_annotation : Bytes
scenario_name_annotation = codes "traffic.kurama.dev/scenario-name"

abbrev pub scenario_config_key : Bytes
scenario_config_key = codes "scenario.json"

abbrev pub config_hash_annotation : Bytes
config_hash_annotation = codes "traffic.kurama.dev/config-hash"

abbrev pub runner_revision_history_limit : ℕ
runner_revision_history_limit = 5

abbrev pub runner_progress_deadline_seconds : ℕ
runner_progress_deadline_seconds = 120

-- internal/runner/environment.go
abbrev pub store_backend_env : Bytes
store_backend_env = codes "KURAMA_STORE_BACKEND"

abbrev pub redis_address_env : Bytes
redis_address_env = codes "KURAMA_REDIS_ADDR"

abbrev pub namespace_env : Bytes
namespace_env = codes "KURAMA_NAMESPACE"

abbrev pub scenario_env : Bytes
scenario_env = codes "KURAMA_SCENARIO"

abbrev pub scenario_uid_env : Bytes
scenario_uid_env = codes "KURAMA_SCENARIO_UID"

-- internal/runner/server.go
abbrev pub metrics_port_name : Bytes
metrics_port_name = codes "metrics"

abbrev pub metrics_port : ℕ
metrics_port = 8080

-- `scenarioAnnotations`
unfoldable pub scenario_annotations : TrafficScenario → StringMap
scenario_annotations s =
    if leb (length s.name + length runner_name_suffix) max_runner_name_length
    then []
    else (scenario_name_annotation, s.name) ∷ []

-- `runnerPodSecurityContext`
unfoldable pub runner_pod_security_context : PodSecurityContext
runner_pod_security_context = record {
  run_as_non_root = some true;
  seccomp_profile = some (codes "RuntimeDefault");
  other = [];
}

-- `runnerContainerSecurityContext`
unfoldable pub runner_container_security_context : SecurityContext
runner_container_security_context = record {
  privileged = some false;
  allow_privilege_escalation = some false;
  read_only_root_filesystem = some true;
  dropped_capabilities = some (codes "ALL" ∷ []);
  other = [];
}

-- `runnerHTTPProbe`
unfoldable pub runner_http_probe : Bytes → ℕ → ℕ → Probe
runner_http_probe path period_seconds failure_threshold = record {
  path = path;
  port = metrics_port_name;
  scheme = codes "HTTP";
  timeout_seconds = 1;
  period_seconds = period_seconds;
  success_threshold = 1;
  failure_threshold = failure_threshold;
}

-- `runnerEnvironment`
unfoldable pub runner_environment : TrafficScenario → Bytes → List EnvVar
runner_environment s redis_address =
    record { name = store_backend_env; value = literal (storage_backend s) }
    ∷ (if not (requires_redis s)
        then []
        else record { name = redis_address_env; value = literal redis_address }
          ∷ record { name = namespace_env; value = field_ref (codes "metadata.namespace") }
          ∷ record { name = scenario_env; value = literal s.name }
          ∷ record { name = scenario_uid_env; value = literal s.uid }
          ∷ [])

-- What the volume of secret headers adds to the pod and to its container.
abbrev pub secret_volumes : Option ProjectedVolumeSource → List Volume
secret_volumes none = []
secret_volumes (some source) =
    record { name = secret_headers_volume_name; source = projected source } ∷ []

abbrev secret_mounts : Option ProjectedVolumeSource → List VolumeMount
secret_mounts none = []
secret_mounts (some source) =
    record {
      name = secret_headers_volume_name;
      mount_path = secret_headers_mount_path;
      read_only = true;
    }
    ∷ []

-- The one container of the pod.
unfoldable pub desired_container : TrafficScenario → Bytes → Bytes → Container
unfolding runner_http_probe runner_container_security_context runner_environment
desired_container s image redis_address = record {
  name = codes "runner";
  image = image;
  command = codes "/app/runner" ∷ [];
  args = [];
  env = runner_environment s redis_address;
  volume_mounts =
      record { name = codes "scenario"; mount_path = codes "/etc/kurama"; read_only = true }
      ∷ secret_mounts (desired_secret_header_volume s);
  ports =
      record { name = metrics_port_name; container_port = metrics_port; protocol = codes "TCP" }
      ∷ [];
  resources = runner_resources s;
  security_context = some runner_container_security_context;
  startup_probe = some (runner_http_probe (codes "/healthz") 2 30);
  liveness_probe = some (runner_http_probe (codes "/healthz") 10 3);
  readiness_probe = some (runner_http_probe (codes "/readyz") 5 3);
  other = [];
}

unfoldable pub desired_pod : TrafficScenario → Bytes → Bytes → Bytes → Bytes → PodSpec
unfolding desired_container runner_pod_security_context
desired_pod s name image image_pull_secret redis_address = record {
  image_pull_secrets = if eqs image_pull_secret [] then [] else image_pull_secret ∷ [];
  automount_service_account_token = some false;
  enable_service_links = some false;
  security_context = some runner_pod_security_context;
  containers = desired_container s image redis_address ∷ [];
  volumes =
      record {
        name = codes "scenario";
        source =
            config_map (record { name = name; items = []; optional = none; default_mode = none });
      }
      ∷ secret_volumes (desired_secret_header_volume s);
  other = [];
}

module _ (sha : Sha256) where
  -- `labels`
  unfoldable pub labels : TrafficScenario → StringMap
  labels s =
      (component_label, codes "runner") ∷ ((scenario_label, scenario_label_value sha s.name) ∷ [])

  -- `desiredConfigMap`
  unfoldable pub desired_config_map : TrafficScenario → Bytes → Bytes → ConfigMap
  unfolding labels scenario_annotations
  desired_config_map s name config = record {
    namespace = s.namespace;
    name = name;
    labels = labels s;
    annotations = scenario_annotations s;
    controller = none;
    contents = (scenario_config_key, config) ∷ [];
    other = [];
  }

  -- `configHash`
  unfoldable pub config_hash : Bytes → Bytes
  config_hash config = sha.hex config

  abbrev pod_annotations : TrafficScenario → Bytes → StringMap
  pod_annotations s config =
      (config_hash_annotation, config_hash config)
      ∷ (codes "prometheus.io/scrape", codes "true")
      ∷ (codes "prometheus.io/port", codes "8080")
      ∷ (codes "prometheus.io/path", codes "/metrics")
      ∷ scenario_annotations s

  -- `desiredDeployment`
  unfoldable pub desired_deployment :
      TrafficScenario → Bytes → Bytes → Bytes → Bytes → Bytes → Deployment
  unfolding labels scenario_annotations desired_pod config_hash
  desired_deployment s name image image_pull_secret redis_address config = record {
    namespace = s.namespace;
    name = name;
    labels = labels s;
    annotations = scenario_annotations s;
    controller = none;
    replicas = some (runner_replicas s);
    revision_history_limit = some runner_revision_history_limit;
    progress_deadline_seconds = some runner_progress_deadline_seconds;
    strategy = record { type = codes "RollingUpdate"; max_unavailable = 0; max_surge = 1 };
    selector = labels s;
    template_labels = labels s;
    template_annotations = pod_annotations s config;
    pod = desired_pod s name image image_pull_secret redis_address;
    other = [];
  }

-- ===== src/Controller/Apply/Tests.antt =====
-- Applying the Deployment of a scenario, and the theorems at this input.
use kurama.Base.{pos, codes, ◌≡◌, refl, true, none, some, [], ◌∷◌}
use kurama.Base.Result.{ok}
use kurama.Controller.Apply.Objects.{not_found, ObjectApi, create, owner_of, apply_deployment}
use kurama.Controller.Desired.{desired_deployment}
use kurama.Controller.Examples.{demo, equal_deployments, equal_maps, zeros}
use kurama.Controller.Workload.{Deployment, other_source}

abbrev desired : Deployment
desired =
    desired_deployment zeros demo (codes "demo-runner") (codes "runner:1") [] (codes "redis:6379")
      (codes "{}")

-- Nothing is there yet, and every call succeeds.
abbrev empty_api : ObjectApi Deployment
empty_api = record {
  get = not_found;
  owner_settable = true;
  create_succeeds = true;
  patch_succeeds = true;
}

creates :
    apply_deployment equal_deployments equal_maps empty_api demo desired
    ≡ (ok true, create (record desired { controller = some (owner_of demo) }) ∷ [])
unfolding apply_deployment
creates = refl

-- A Deployment with a label and a volume of its own.
abbrev existing : Deployment
existing = record {
  namespace = codes "shop";
  name = codes "demo-runner";
  labels = (codes "team", codes "a") ∷ [];
  annotations = [];
  controller = some (owner_of demo);
  replicas = some (pos 1);
  revision_history_limit = none;
  progress_deadline_seconds = none;
  strategy = record { type = codes "Recreate"; max_unavailable = 0; max_surge = 0 };
  selector = [];
  template_labels = [];
  template_annotations = [];
  pod = record {
    image_pull_secrets = [];
    automount_service_account_token = none;
    enable_service_links = none;
    security_context = none;
    containers = [];
    volumes = record { name = codes "cache"; source = other_source (codes "emptyDir") } ∷ [];
    other = [];
  };
  other = [];
}

-- ===== src/Controller/Reconcile/Tests.antt =====
-- Reconciliations of a scenario, and the theorem at one of them.
use kurama.Base.{take, All, pos, codes, eqs, ◌≡◌, refl, true, false, none, some, [], ◌∷◌}
use kurama.Controller.Apply.Objects.{
  not_found, found, create, owner_of, apply_config_map, apply_deployment,
}
use kurama.Controller.Backends.{requires_redis, storage_backend}
use kurama.Controller.Desired.{desired_config_map, desired_deployment}
use kurama.Controller.Examples.{
  checks, demo, equal_config_maps, equal_deployments, equal_maps, equal_statuses, prepend_setter,
  zeros,
}
use kurama.Controller.Finalizer.{get_not_found, deleted}
use kurama.Controller.Identity.{runner_name}
use kurama.Controller.Cluster.{
  Reconciler, Resource, Cluster, Libraries, add_finalizer, write_config_map, write_deployment,
}
use kurama.Controller.Reconcile.{reconcile}
use kurama.Controller.Reconcile.Justified.{Justified}
use kurama.Base.Result.{ok}
use kurama.Controller.Reconcile.After.{
  StatusOnly, config_map_after, deployment_after, finalizer_after,
}
use kurama.Controller.Reconcile.StatusSteps.{reconcile_result_for_state-ok}
use kurama.Controller.Reconcile.Rests.{reconcile-rests}
use kurama.Controller.Reconcile.Writes.{reconcile-Justified}
use kurama.Controller.Status.{progressing, progressing_state, Status, rollout_requeue_interval}
use kurama.Controller.Tests.{demo_accepted}

abbrev libraries : Libraries
libraries = record {
  sha = zeros;
  checks = checks;
  marshal = λ config. some (codes "{}");
  text = λ cause. codes "failed";
  progress = λ d. codes "0/2";
  setter = prepend_setter;
  equal_config_maps = equal_config_maps;
  equal_deployments = equal_deployments;
  equal_maps = equal_maps;
  equal_statuses = equal_statuses;
}

abbrev manager : Reconciler
manager = record {
  runner_image = codes "runner:1";
  runner_image_pull_secret = [];
  redis_address = codes "redis:6379";
  has_redis = true;
}

abbrev fresh : Resource
fresh = record {
  scenario = demo;
  generation = pos 1;
  has_finalizer = false;
  deletion_timestamp = none;
  status = record {
    phase = progressing;
    message = [];
    observed_generation = pos 0;
    conditions = [];
  };
}

-- The scenario is new, and every call succeeds.
abbrev cluster : Cluster
cluster = record {
  resource = found fresh;
  finalizer_update_succeeds = true;
  config_map_api = record {
    get = not_found;
    owner_settable = true;
    create_succeeds = true;
    patch_succeeds = true;
  };
  deployment_api = record {
    get = not_found;
    owner_settable = true;
    create_succeeds = true;
    patch_succeeds = true;
  };
  delete_deployment = deleted;
  current = not_found;
  status_patch_succeeds = true;
  deletion = record {
    now = 0;
    get_deployment = get_not_found;
    delete_deployment = deleted;
    has_redis = true;
    scan = λ pattern. some [];
    del_succeeds = true;
    update_succeeds = true;
  };
}

-- A new scenario gets its finalizer, then its ConfigMap, then its Deployment.
first_actions :
    take 3 (reconcile libraries manager cluster).1
    ≡ add_finalizer
      ∷ write_config_map (
          create
            (record (desired_config_map zeros demo (runner_name zeros demo.name) (codes "{}")) {
              controller = some (owner_of demo);
            }))
      ∷ write_deployment (
          create
            (record (desired_deployment zeros demo
              (runner_name zeros demo.name)
              (codes "runner:1")
              []
              (codes "redis:6379")
              (codes "{}")) { controller = some (owner_of demo) }))
      ∷ []
unfolding reconcile apply_config_map apply_deployment requires_redis storage_backend eqs
first_actions = rw (demo_accepted, reconcile) refl

reconcile-Justified_example :
    All (Justified libraries manager cluster demo) (reconcile libraries manager cluster).1
reconcile-Justified_example = reconcile-Justified libraries manager cluster fresh refl

-- The cluster when all steps of that reconciliation have been stored.
abbrev status_then : Status
status_then = record fresh.status { message = codes "waiting" }

abbrev cluster_then : Cluster
cluster_then = record cluster {
  resource = found (record fresh {
    status = status_then;
    has_finalizer = finalizer_after (reconcile libraries manager cluster).1 false;
  });
  config_map_api = record cluster.config_map_api {
    get = config_map_after (reconcile libraries manager cluster).1 not_found;
  };
  deployment_api = record cluster.deployment_api {
    get = deployment_after (reconcile libraries manager cluster).1 not_found;
  };
}

first_succeeds : (reconcile libraries manager cluster).0 ≡ ok rollout_requeue_interval
unfolding reconcile apply_config_map apply_deployment requires_redis storage_backend eqs
    progressing_state
first_succeeds =
    rw (demo_accepted, reconcile)
      (reconcile_result_for_state-ok libraries manager cluster fresh
        (progressing_state (codes "RunnerDeploymentChanged")
          (codes "Runner Deployment was created or updated; waiting for rollout status"))
        refl)

reconcile-rests_example : All StatusOnly (reconcile libraries manager cluster_then).1
reconcile-rests_example =
    reconcile-rests libraries manager cluster cluster_then fresh status_then
      rollout_requeue_interval refl refl tt first_succeeds
      (record { resource_eq = refl; config_map_eq = refl; deployment_eq = refl })

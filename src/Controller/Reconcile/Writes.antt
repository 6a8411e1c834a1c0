-- ===== src/Controller/Reconcile/Writes.antt =====
-- Every action of a reconciliation is justified.
use kurama.Base.{
  All-append, All-map, if◌then◌else◌, Bool-cases, All, Bytes, eqs, ℕ, ◌≡◌, refl, sym, subst, inl,
  inr, Bool, true, false, ◌&&◌, not, Option, none, some, List, [], ◌∷◌, map, arith,
}
use kurama.Base.Assoc.{lookup, lookup-insert_self}
use kurama.Base.Result.{Result, ok, err}
use kurama.Controller.Apply.{apply_managed_deployment_fields}
use kurama.Controller.Apply.Keeps.{apply_managed_deployment_fields-keeps}
use kurama.Controller.Apply.Runs.{SecuredAs-self, find_runner}
use kurama.Controller.Apply.Objects.{
  ApplyError, Found, not_found, read_failed, found, owner_of, apply_config_map, apply_deployment,
  update_config_map,
}
use kurama.Controller.Identity.{runner_name}
use kurama.Controller.Apply.Owned.{
  Asks, DeploymentWrite, ConfigMapWrite, apply_deployment-DeploymentWrite,
  apply_config_map-ConfigMapWrite, asked_for,
}
use kurama.Controller.Finalizer.{DeleteAnswer, deleted, delete_not_found, delete_failed}
use kurama.Controller.Backends.{requires_redis}
use kurama.Controller.Conversion.{scenario_runner_config}
use kurama.Controller.Desired.{
  scenario_config_key, desired_config_map, desired_deployment, desired_container, desired_pod,
}
use kurama.Controller.Finalizer as Deletion
use kurama.Controller.Cluster.{
  Reconciler, Resource, Cluster, Libraries, Outcome, delete_step, write_config_map,
  write_deployment,
}
use kurama.Controller.Reconcile.{
  reconcile_by_deletion, deployment_applied, config_map_applied, config_marshalled,
  scenario_validated, suspend_runner, report_current, apply_runner_deployment, apply_runner,
  run_scenario, reconcile_present, reconcile_resource, reconcile_found, reconcile,
}
use kurama.Controller.Status.{progressing_state}
use kurama.Controller.Validation.{ScenarioError, validate_scenario}
use kurama.Controller.Workload.{ConfigMap, Deployment}
use kurama.Controller.Reconcile.Justified.{
  HoldsConfig, RunsScenario, Justified, Fine, reconcile_result_for_state-Fine, report_failure-Fine,
  report_found-Fine, suspend_found-Fine,
}

module _ (l : Libraries) (r : Reconciler) (c : Cluster) (res : Resource)
    (active : res.scenario.spec.suspend ≡ false)
    (accepted : validate_scenario l.checks res.scenario ≡ ok tt)
    (image_set : eqs r.runner_image [] ≡ false)
    (address_set : requires_redis res.scenario ≡ true → eqs r.redis_address [] ≡ false) where
  runs_scenario :
      (config : Bytes) (g : Found Deployment) (a : Deployment)
      → let d =
          desired_deployment l.sha res.scenario
            (runner_name l.sha res.scenario.name)
            r.runner_image
            r.runner_image_pull_secret
            r.redis_address
            config in
        Asks
          (record d { controller = some (owner_of res.scenario) })
          (λ e. apply_managed_deployment_fields e d)
          g
          a
        → RunsScenario l r c res.scenario a
  unfolding desired_deployment desired_pod find_runner desired_container eqs
  runs_scenario config not_found a h =
      let runner = desired_container res.scenario r.runner_image r.redis_address in
      record {
        active = active;
        accepted = accepted;
        image_set = image_set;
        address_set = address_set;
        runner = runner;
        runner_found = rw h refl;
        runs = record {
          image_eq = refl;
          command_eq = refl;
          args_eq = refl;
          env_eq = refl;
          mounts_eq = refl;
          ports_eq = refl;
          resources_eq = refl;
          secured = SecuredAs-self runner.security_context;
          startup_eq = refl;
          liveness_eq = refl;
          readiness_eq = refl;
        };
      }
  runs_scenario config read_failed a h = absurd h
  runs_scenario config (found e) a h =
      let (kept, set_) =
        apply_managed_deployment_fields-keeps l.sha e res.scenario
          (runner_name l.sha res.scenario.name) r.runner_image r.runner_image_pull_secret
          r.redis_address config in
      record {
        active = active;
        accepted = accepted;
        image_set = image_set;
        address_set = address_set;
        runner = set_.runner;
        runner_found = rw h set_.runner_found;
        runs = set_.runner_runs;
      }

  deployment_applied-Fine :
      (applied : Result ApplyError Bool) → Fine l r c res (deployment_applied l r c res applied).1
  unfolding deployment_applied report_current progressing_state
  deployment_applied-Fine (err e) = report_failure-Fine l r c res _ _ true
  deployment_applied-Fine (ok true) = reconcile_result_for_state-Fine l r c res _ tt
  deployment_applied-Fine (ok false) = report_found-Fine l r c res c.current refl active

  apply_runner_deployment-Fine :
      (config : Bytes) → Fine l r c res (apply_runner_deployment l r c res config).1
  unfolding apply_runner_deployment
  apply_runner_deployment-Fine config =
      let s = res.scenario in
      let d =
        desired_deployment l.sha s (runner_name l.sha s.name) r.runner_image
          r.runner_image_pull_secret r.redis_address config in
      let applied = apply_deployment l.equal_deployments l.equal_maps c.deployment_api s d in
      All-append (Justified l r c s) (map write_deployment applied.1) _
        (deployment_applied-Fine applied.0)
        (All-map (DeploymentWrite l.equal_deployments l.equal_maps s d c.deployment_api.get)
          (Justified l r c s) write_deployment applied.1
          (λ w h. (h.0, runs_scenario config c.deployment_api.get (asked_for w) h.1))
          (apply_deployment-DeploymentWrite l.equal_deployments l.equal_maps s d c.deployment_api))

  holds_config :
      (config : Bytes) (g : Found ConfigMap) (m : ConfigMap)
      → l.marshal (scenario_runner_config res.scenario) ≡ some config
      → let d =
          desired_config_map l.sha res.scenario (runner_name l.sha res.scenario.name) config in
        Asks
          (record d { controller = some (owner_of res.scenario) })
          (λ e. update_config_map e d)
          g
          m
        → HoldsConfig l r c res.scenario m
  unfolding desired_config_map update_config_map lookup eqs
  holds_config config not_found m k h = record {
    active = active;
    accepted = accepted;
    config = config;
    config_eq = k;
    holds = rw h refl;
  }
  holds_config config read_failed m k h = absurd h
  holds_config config (found e) m k h = record {
    active = active;
    accepted = accepted;
    config = config;
    config_eq = k;
    holds = rw h (lookup-insert_self scenario_config_key config e.contents);
  }

  config_map_applied-Fine :
      (config : Bytes) (applied : Result ApplyError (Unit {0}))
      → Fine l r c res (config_map_applied l r c res config applied).1
  unfolding config_map_applied
  config_map_applied-Fine config (err e) = report_failure-Fine l r c res _ _ true
  config_map_applied-Fine config (ok u) = apply_runner_deployment-Fine config

  apply_runner-Fine :
      (config : Bytes)
      → l.marshal (scenario_runner_config res.scenario) ≡ some config
      → Fine l r c res (apply_runner l r c res config).1
  unfolding apply_runner
  apply_runner-Fine config k =
      let s = res.scenario in
      let d = desired_config_map l.sha s (runner_name l.sha s.name) config in
      let applied = apply_config_map l.equal_config_maps c.config_map_api s d in
      All-append (Justified l r c s) (map write_config_map applied.1) _
        (config_map_applied-Fine config applied.0)
        (All-map (ConfigMapWrite l.equal_config_maps s d c.config_map_api.get) (Justified l r c s)
          write_config_map applied.1
          (λ w h. (h.0, holds_config config c.config_map_api.get (asked_for w) k h.1))
          (apply_config_map-ConfigMapWrite l.equal_config_maps s d c.config_map_api))

  pub config_marshalled-Fine :
      (m : Option Bytes)
      → l.marshal (scenario_runner_config res.scenario) ≡ m
      → Fine l r c res (config_marshalled l r c res m).1
  unfolding config_marshalled
  config_marshalled-Fine none k = report_failure-Fine l r c res _ _ true
  config_marshalled-Fine (some config) k = apply_runner-Fine config k

module _ (l : Libraries) (r : Reconciler) (c : Cluster) (res : Resource) where
  scenario_validated-Fine :
      (v : Result ScenarioError (Unit {0}))
      → validate_scenario l.checks res.scenario ≡ v
      → res.scenario.spec.suspend ≡ false
      → Fine l r c res (scenario_validated l r c res v).1
  unfolding scenario_validated
  scenario_validated-Fine (err e) k active = report_failure-Fine l r c res _ _ false
  scenario_validated-Fine (ok u) k active = elim (Bool-cases (eqs r.runner_image [])) [
    | inl missing ↦ rw (missing, scenario_validated) (report_failure-Fine l r c res _ _ true)
    | inr image_set ↦ elim (Bool-cases (requires_redis res.scenario && eqs r.redis_address [])) [
      | inl missing ↦
          rw (image_set, missing, scenario_validated) (report_failure-Fine l r c res _ _ true)
      | inr address_set ↦
          rw (image_set, address_set, scenario_validated)
            (config_marshalled-Fine l r c res active k image_set
              (λ needed. ground (arith, needed, address_set))
              (l.marshal (scenario_runner_config res.scenario)) refl)
    ]
  ]

  Fine-if :
      (b : Bool) (x y : Outcome)
      → (b ≡ true → Fine l r c res x.1)
      → (b ≡ false → Fine l r c res y.1)
      → Fine l r c res (if b then x else y).1
  Fine-if true x y h k = h refl
  Fine-if false x y h k = k refl

  reconcile_present-Fine : Fine l r c res (reconcile_present l r c res).1
  unfolding reconcile_present suspend_runner run_scenario
  reconcile_present-Fine =
      Fine-if res.scenario.spec.suspend (suspend_runner l r c res) (run_scenario l r c res)
        (suspend_found-Fine l r c res c.deployment_api.get refl)
        (scenario_validated-Fine (validate_scenario l.checks res.scenario) refl)

  Fine-steps : (steps : List Deletion.Action) → Fine l r c res (map delete_step steps)
  Fine-steps [] = tt
  Fine-steps (a ∷ steps) = (tt, Fine-steps steps)

  reconcile_by_deletion-Fine : (t : Option ℕ) → Fine l r c res (reconcile_by_deletion l r c res t).1
  unfolding reconcile_by_deletion
  reconcile_by_deletion-Fine (some t) = Fine-steps _
  reconcile_by_deletion-Fine none =
      Fine-if (requires_redis res.scenario && r.has_redis && not res.has_finalizer) _ _
        (λ needed. (
          ground (arith, needed),
          Fine-if c.finalizer_update_succeeds _ _ (λ h. reconcile_present-Fine) (λ h. tt),
        ))
        (λ h. reconcile_present-Fine)

  -- Whatever the API server answers, every step of a reconciliation outside the deletion of its
  -- scenario is justified. It writes only objects that are missing or its own; it deletes the
  -- runner Deployment only of a suspended scenario; it writes a ConfigMap and a Deployment only of
  -- a scenario that is active and accepted, the ConfigMap with the JSON of the configuration of
  -- the scenario, the Deployment with a container that runs the image of the controller with the
  -- environment and the resources of the scenario; it adds the finalizer only to a scenario that
  -- needs Redis; it reports that a scenario is suspended only when it is and its Deployment is
  -- absent, and that one is ready only when it is active and the Deployment read last is its own,
  -- up to date and fully rolled out.
  pub reconcile-Justified :
      c.resource ≡ found res → All (Justified l r c res.scenario) (reconcile l r c).1
  unfolding reconcile reconcile_found reconcile_resource
  reconcile-Justified h =
      subst (λ g. All (Justified l r c res.scenario) (reconcile_found l r c g).1) (sym h)
        (reconcile_by_deletion-Fine res.deletion_timestamp)

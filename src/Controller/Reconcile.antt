-- ===== src/Controller/Reconcile.antt =====
-- internal/controller/trafficscenario_controller.go, with `updateScenarioStatus` and
-- `reconcileResultForState` of trafficscenario_status.go: one reconciliation of a scenario. The API
-- server answers as a parameter; a reconciliation returns its result and what it asked for, in order.
pub mod Justified
pub mod Writes
pub mod After
pub mod StatusSteps
pub mod AppliedAgain
pub mod Rests
mod Tests
use kurama.Base.{
  if◌then◌else◌, Bytes, codes, eqs, ℕ, Bool, true, false, ◌&&◌, not, Option, none, some, List, [],
  ◌∷◌, map,
}
use kurama.Base.Result.{Result, ok, err, wrap_err}
use kurama.Api.{TrafficScenario}
use kurama.Config.{Config}
use kurama.Controller.Apply.Objects.{
  DeepEqual, Found, not_found, read_failed, found, ObjectApi, ApplyError, Write,
  ensure_controlled_by, apply_config_map, apply_deployment,
}
use kurama.Controller.Backends.{requires_redis}
use kurama.Controller.Cluster.{
  Reconciler, Resource, Current, Cluster, Cause, deployment_unreadable, deployment_not_deleted,
  missing_image, missing_redis_address, marshal_failed, current_unreadable, not_owned,
  config_map_failed, deployment_failed, current_not_owned, invalid_scenario, ReconcileError,
  scenario_unreadable, finalizer_not_added, status_not_updated, deletion_failed, caused, Action,
  add_finalizer, delete_runner, delete_step, write_config_map, write_deployment, write_status,
  Outcome, Libraries, after,
}
use kurama.Controller.Conversion.{scenario_runner_config}
use kurama.Controller.Desired.{desired_config_map, desired_deployment}
use kurama.Controller.Finalizer as Deletion
use kurama.Controller.Finalizer.{
  DeleteAnswer, deleted, delete_not_found, delete_failed, reconcile_deletion,
}
use kurama.Controller.Identity.{Sha256, runner_name}
use kurama.Controller.Status as Reported
use kurama.Controller.Status.{
  ConditionSetter, ScenarioState, Status, failed, suspended, condition_suspended, progressing_state,
  degraded_state, updated_status, state_from_deployment,
}
use kurama.Controller.Validation.{Checks, ScenarioError, validate_scenario}
use kurama.Controller.Workload.{StringMap, OwnerReference, ConfigMap, Deployment}

abbrev pub reason_reconcile_failed : Bytes
reason_reconcile_failed = codes "ReconcileFailed"

abbrev pub suspended_state : ScenarioState
suspended_state = record {
  phase = suspended;
  active_condition = condition_suspended;
  reason = codes "ScenarioSuspended";
  message = codes "Traffic generation is suspended";
  requeue_after = 0;
}

-- `err != nil && !apierrors.IsNotFound(err)` after a `Delete`.
abbrev pub on_deleted : DeleteAnswer → Outcome → Outcome → Outcome
on_deleted delete_failed failure waiting = failure
on_deleted deleted failure waiting = waiting
on_deleted delete_not_found failure waiting = waiting

module _ (l : Libraries) (r : Reconciler) (c : Cluster) where
  -- `updateScenarioStatus`
  unfoldable pub update_scenario_status :
      Resource → ScenarioState → Result ReconcileError (Unit {0}) × List Action
  update_scenario_status res state =
      let status = updated_status l.setter state res.generation res.status in
      if l.equal_statuses.deep_equal res.status status then (ok tt, []) else (
        if c.status_patch_succeeds then ok tt else err status_not_updated,
        write_status status ∷ [],
      )

  -- `reconcileResultForState`
  unfoldable pub reconcile_result_for_state : Resource → ScenarioState → Outcome
  unfolding update_scenario_status
  reconcile_result_for_state res state =
      let (updated, actions) = update_scenario_status res state in
      (elim updated [ err e ↦ err e | ok u ↦ ok state.requeue_after ], actions)

  -- `failed`
  unfoldable pub report_failure : Resource → Bytes → Cause → Bool → Outcome
  unfolding update_scenario_status
  report_failure res reason cause retry =
      let (updated, actions) =
        update_scenario_status res (degraded_state failed reason (l.text cause)) in
      (elim updated [ err e ↦ err e | ok u ↦ if retry then err (caused cause) else ok 0 ], actions)

  -- What follows for a suspended scenario, by whether the Deployment is its own.
  unfoldable pub suspend_controlled : Resource → Result ApplyError (Unit {0}) → Outcome
  unfolding report_failure reconcile_result_for_state
  suspend_controlled res (err e) = report_failure res reason_reconcile_failed (not_owned e) true
  suspend_controlled res (ok u) =
      let waiting = reconcile_result_for_state res (
        progressing_state (codes "RunnerDeletionRequested")
          (codes "Runner Deployment deletion is in progress")) in
      after (delete_runner ∷ []) (
        on_deleted c.delete_deployment
          (report_failure res reason_reconcile_failed deployment_not_deleted true) waiting)

  -- The branch of `Reconcile` for a suspended scenario, with the Deployment that was found.
  unfoldable pub suspend_found : Resource → Found Deployment → Outcome
  unfolding report_failure reconcile_result_for_state suspend_controlled
  suspend_found res read_failed =
      report_failure res reason_reconcile_failed deployment_unreadable true
  suspend_found res not_found = reconcile_result_for_state res suspended_state
  suspend_found res (found d) =
      suspend_controlled res (ensure_controlled_by d.controller res.scenario)

  unfoldable pub suspend_runner : Resource → Outcome
  unfolding suspend_found
  suspend_runner res = suspend_found res c.deployment_api.get

  -- The end of `Reconcile`, when the Deployment needed no change.
  unfoldable pub report_found : Resource → Found Current → Outcome
  unfolding report_failure reconcile_result_for_state
  report_found res read_failed = report_failure res reason_reconcile_failed current_unreadable true
  report_found res not_found = report_failure res reason_reconcile_failed current_unreadable true
  report_found res (found d) = elim (ensure_controlled_by d.controller res.scenario) [
    | err e ↦ report_failure res reason_reconcile_failed (current_not_owned e) true
    | ok u ↦
        reconcile_result_for_state res (state_from_deployment (l.progress d.reported) d.reported)
  ]

  unfoldable pub report_current : Resource → Outcome
  unfolding report_found
  report_current res = report_found res c.current

  -- What follows when the Deployment has been applied, changed or not.
  unfoldable pub deployment_applied : Resource → Result ApplyError Bool → Outcome
  unfolding report_current report_failure reconcile_result_for_state
  deployment_applied res (err e) =
      report_failure res reason_reconcile_failed (deployment_failed e) true
  deployment_applied res (ok true) = reconcile_result_for_state res (
      progressing_state (codes "RunnerDeploymentChanged")
        (codes "Runner Deployment was created or updated; waiting for rollout status"))
  deployment_applied res (ok false) = report_current res

  unfoldable pub apply_runner_deployment : Resource → Bytes → Outcome
  unfolding deployment_applied
  apply_runner_deployment res config =
      let s = res.scenario in
      let desired =
        desired_deployment l.sha s (runner_name l.sha s.name) r.runner_image
          r.runner_image_pull_secret r.redis_address config in
      let (applied, writes) =
        apply_deployment l.equal_deployments l.equal_maps c.deployment_api s desired in
      after (map write_deployment writes) (deployment_applied res applied)

  -- What follows when the ConfigMap has been applied.
  unfoldable pub config_map_applied : Resource → Bytes → Result ApplyError (Unit {0}) → Outcome
  unfolding apply_runner_deployment report_failure
  config_map_applied res config (err e) =
      report_failure res reason_reconcile_failed (config_map_failed e) true
  config_map_applied res config (ok u) = apply_runner_deployment res config

  unfoldable pub apply_runner : Resource → Bytes → Outcome
  unfolding config_map_applied
  apply_runner res config =
      let s = res.scenario in
      let (applied, writes) =
        apply_config_map l.equal_config_maps c.config_map_api s
          (desired_config_map l.sha s (runner_name l.sha s.name) config) in
      after (map write_config_map writes) (config_map_applied res config applied)

  -- What follows from the JSON of the configuration.
  unfoldable pub config_marshalled : Resource → Option Bytes → Outcome
  unfolding apply_runner report_failure
  config_marshalled res none = report_failure res reason_reconcile_failed marshal_failed true
  config_marshalled res (some config) = apply_runner res config

  -- The branch of `Reconcile` for a scenario that is not suspended, by what the validation says.
  unfoldable pub scenario_validated : Resource → Result ScenarioError (Unit {0}) → Outcome
  unfolding config_marshalled report_failure
  scenario_validated res (err e) =
      report_failure res (codes "ValidationFailed") (invalid_scenario e) false
  scenario_validated res (ok u) =
      let misconfigured = report_failure res (codes "ControllerConfigurationInvalid") in
      if eqs r.runner_image []
      then misconfigured missing_image true
      else if requires_redis res.scenario && eqs r.redis_address []
      then misconfigured missing_redis_address true
      else config_marshalled res (l.marshal (scenario_runner_config res.scenario))

  unfoldable pub run_scenario : Resource → Outcome
  unfolding scenario_validated
  run_scenario res = scenario_validated res (validate_scenario l.checks res.scenario)

  -- A scenario that is not being deleted, after its finalizer.
  unfoldable pub reconcile_present : Resource → Outcome
  unfolding suspend_runner run_scenario
  reconcile_present res = if res.scenario.spec.suspend then suspend_runner res else run_scenario res

  -- A scenario that is being deleted since a time, or that is not.
  unfoldable pub reconcile_by_deletion : Resource → Option ℕ → Outcome
  unfolding reconcile_present
  reconcile_by_deletion res (some t) =
      let s = res.scenario in
      let (result, actions) =
        reconcile_deletion
          (record {
            namespace = s.namespace;
            name = s.name;
            uid = s.uid;
            has_finalizer = res.has_finalizer;
            deletion_timestamp = some t;
          })
          (record c.deletion { has_redis = r.has_redis }) in
      (wrap_err deletion_failed result, map delete_step actions)
  reconcile_by_deletion res none =
      if requires_redis res.scenario && r.has_redis && not res.has_finalizer
      then after (add_finalizer ∷ []) (
          if c.finalizer_update_succeeds
          then reconcile_present res
          else (err finalizer_not_added, []))
      else reconcile_present res

  unfoldable pub reconcile_resource : Resource → Outcome
  unfolding reconcile_by_deletion
  reconcile_resource res = reconcile_by_deletion res res.deletion_timestamp

  -- `Reconcile`, with the scenario that was found.
  unfoldable pub reconcile_found : Found Resource → Outcome
  unfolding reconcile_resource
  reconcile_found not_found = (ok 0, [])
  reconcile_found read_failed = (err scenario_unreadable, [])
  reconcile_found (found res) = reconcile_resource res

  unfoldable pub reconcile : Outcome
  unfolding reconcile_found
  reconcile = reconcile_found c.resource

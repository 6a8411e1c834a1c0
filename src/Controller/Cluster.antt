-- ===== src/Controller/Cluster.antt =====
-- What one reconciliation of internal/controller/trafficscenario_controller.go works with: the
-- reconciler, the answers of the cluster and of the libraries, and the steps that it asks for.
use kurama.Base.{ℤ, Bytes, ℕ, Bool, Option, List, ◌++◌}
use kurama.Base.Result.{Result}
use kurama.Api.{TrafficScenario}
use kurama.Config.{Config}
use kurama.Controller.Apply.Objects.{DeepEqual, Found, ObjectApi, ApplyError, Write}
use kurama.Controller.Finalizer as Deletion
use kurama.Controller.Finalizer.{
  DeleteAnswer, deleted, delete_not_found, delete_failed, reconcile_deletion,
}
use kurama.Controller.Identity.{Sha256}
use kurama.Controller.Status as Reported
use kurama.Controller.Status.{
  ConditionSetter, ScenarioState, Status, failed, suspended, condition_suspended, progressing_state,
  degraded_state, updated_status, state_from_deployment,
}
use kurama.Controller.Validation.{Checks, ScenarioError}
use kurama.Controller.Workload.{StringMap, OwnerReference, ConfigMap, Deployment}

-- The fields of `TrafficScenarioReconciler` that decide what is written.
pub record Reconciler : Type 0 where
  pub runner_image : Bytes
  pub runner_image_pull_secret : Bytes
  pub redis_address : Bytes
  pub has_redis : Bool

-- A scenario with the metadata and the status that the reconciler reads and writes.
pub record Resource : Type 0 where
  pub scenario : TrafficScenario
  pub generation : ℤ
  pub has_finalizer : Bool
  pub deletion_timestamp : Option ℕ
  pub status : Status

-- The Deployment that is read after nothing was changed.
pub record Current : Type 0 where
  pub controller : Option OwnerReference
  pub reported : Reported.Deployment

-- How the API server answers the calls of one reconciliation.
pub record Cluster : Type 0 where
  pub resource : Found Resource
  pub finalizer_update_succeeds : Bool
  pub config_map_api : ObjectApi ConfigMap
  pub deployment_api : ObjectApi Deployment
  pub delete_deployment : DeleteAnswer
  pub current : Found Current
  pub status_patch_succeeds : Bool
  pub deletion : Deletion.Answers

-- Why a scenario is reported as failed.
pub data Cause : Type 0 where
  deployment_unreadable deployment_not_deleted missing_image missing_redis_address : Cause
  marshal_failed current_unreadable : Cause
  not_owned config_map_failed deployment_failed current_not_owned : ApplyError → Cause
  invalid_scenario : ScenarioError → Cause

pub data ReconcileError : Type 0 where
  scenario_unreadable finalizer_not_added status_not_updated : ReconcileError
  deletion_failed : Deletion.ReconcileError → ReconcileError
  caused : Cause → ReconcileError

pub data Action : Type 0 where
  add_finalizer delete_runner : Action
  delete_step : Deletion.Action → Action
  write_config_map : Write ConfigMap → Action
  write_deployment : Write Deployment → Action
  write_status : Status → Action

-- The result is the time after which to reconcile again, 0 for no set time.
abbrev pub Outcome : Type 0
Outcome = Result ReconcileError ℕ × List Action

-- What is taken from the libraries: the digest, the checks of the validation, JSON, the texts of
-- causes and of a rollout, and the equalities and the setter of conditions.
pub record Libraries : Type 0 where
  pub sha : Sha256
  pub checks : Checks
  pub marshal : Config → Option Bytes
  pub text : Cause → Bytes
  pub progress : Reported.Deployment → Bytes
  pub setter : ConditionSetter
  pub equal_config_maps : DeepEqual ConfigMap
  pub equal_deployments : DeepEqual Deployment
  pub equal_maps : DeepEqual StringMap
  pub equal_statuses : DeepEqual Status

-- Actions that come before those of a later step.
abbrev pub after : List Action → Outcome → Outcome
after actions (result, rest) = (result, actions ++ rest)

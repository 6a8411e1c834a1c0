-- ===== src/Controller/Reconcile/StatusSteps.antt =====
-- The parts of a reconciliation that change nothing but the status, and those that fail.
use kurama.Base.{Bool-cases, All, Bytes, ℕ, ◌≡◌, refl, inl, inr, Bool, true, false}
use kurama.Base.Result.{Result, ok, err, Result-cases}
use kurama.Controller.Apply.Objects.{
  ApplyError, Found, not_found, read_failed, found, ensure_controlled_by,
}
use kurama.Controller.Reconcile.After.{StatusOnly}
use kurama.Controller.Cluster.{
  Reconciler, Resource, Cluster, Libraries, Current, Cause, ReconcileError, caused,
}
use kurama.Controller.Reconcile.{
  update_scenario_status, reconcile_result_for_state, report_failure, report_found, report_current,
  deployment_applied,
}
use kurama.Controller.Status.{ScenarioState, updated_status, degraded_state, failed}

module _ (l : Libraries) (r : Reconciler) (c : Cluster) (res : Resource) where
  pub update_scenario_status-StatusOnly :
      (state : ScenarioState) → All StatusOnly (update_scenario_status l r c res state).1
  unfolding update_scenario_status
  update_scenario_status-StatusOnly state =
      elim (Bool-cases (
        l.equal_statuses.deep_equal res.status
          (updated_status l.setter state res.generation res.status))) [
            | inl same ↦ rw (same, update_scenario_status) tt
            | inr changed ↦ rw (changed, update_scenario_status) (tt, tt)
          ]

  pub report_failure-StatusOnly :
      (reason : Bytes) (cause : Cause) (retry : Bool)
      → All StatusOnly (report_failure l r c res reason cause retry).1
  unfolding report_failure
  report_failure-StatusOnly reason cause retry =
      update_scenario_status-StatusOnly (degraded_state failed reason (l.text cause))

  -- A failure that is to be tried again is an error.
  pub report_failure-fails :
      (reason : Bytes) (cause : Cause) (n : ℕ)
      → (report_failure l r c res reason cause true).0 ≡ ok n
      → ⊥
  unfolding report_failure
  report_failure-fails reason cause n h =
      fails_either
        (update_scenario_status l r c res (degraded_state failed reason (l.text cause))).0 h
    where
      fails_either :
          (u : Result ReconcileError (Unit {0}))
          → (elim u [ err e ↦ err e | ok v ↦ err (caused cause) ]) ≡ ok n
          → ⊥
      fails_either (ok u) k = cc
      fails_either (err e) k = cc

  pub report_found-StatusOnly : (g : Found Current) → All StatusOnly (report_found l r c res g).1
  unfolding report_found reconcile_result_for_state
  report_found-StatusOnly not_found = report_failure-StatusOnly _ _ true
  report_found-StatusOnly read_failed = report_failure-StatusOnly _ _ true
  report_found-StatusOnly (found d) =
      elim (Result-cases (ensure_controlled_by d.controller res.scenario)) [
        | inl (u, owned) ↦ rw (owned, report_found) (update_scenario_status-StatusOnly _)
        | inr (x, foreign) ↦ rw (foreign, report_found) (report_failure-StatusOnly _ _ true)
      ]

  pub deployment_applied-StatusOnly :
      (applied : Result ApplyError Bool) → All StatusOnly (deployment_applied l r c res applied).1
  unfolding deployment_applied report_current reconcile_result_for_state
  deployment_applied-StatusOnly (err e) = report_failure-StatusOnly _ _ true
  deployment_applied-StatusOnly (ok true) = update_scenario_status-StatusOnly _
  deployment_applied-StatusOnly (ok false) = report_found-StatusOnly c.current

  pub deployment_applied-ok :
      (applied : Result ApplyError Bool) (n : ℕ)
      → (deployment_applied l r c res applied).0 ≡ ok n
      → (changed : Bool) × (applied ≡ ok changed)
  unfolding deployment_applied
  deployment_applied-ok (ok b) n h = (b, refl)
  deployment_applied-ok (err e) n h = absurd (report_failure-fails _ _ n h)

  -- Where the API server takes a status, reporting a state succeeds.
  pub reconcile_result_for_state-ok :
      (state : ScenarioState)
      → c.status_patch_succeeds ≡ true
      → (reconcile_result_for_state l r c res state).0 ≡ ok state.requeue_after
  unfolding reconcile_result_for_state update_scenario_status
  reconcile_result_for_state-ok state h =
      elim (Bool-cases (
        l.equal_statuses.deep_equal res.status
          (updated_status l.setter state res.generation res.status))) [
            | inl same ↦ rw (same, update_scenario_status, reconcile_result_for_state) refl
            | inr changed ↦ rw (changed, h, update_scenario_status, reconcile_result_for_state) refl
          ]

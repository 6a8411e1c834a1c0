-- ===== src/Controller/Reconcile/Rests.antt =====
-- What is left to do after a reconciliation that succeeds.
use kurama.Base.{
  if◌then◌else◌, All, eqs, ℕ, ◌≡◌, refl, sym, ap, ◌∙◌, subst, Bool, true, false, ◌&&◌, not, none,
  List, [], ◌∷◌, arith,
}
use kurama.Base.Result.{Result, ok, err}
use kurama.Controller.Apply.Objects.{ApplyError, Found, not_found, read_failed, found}
use kurama.Controller.Reconcile.StatusSteps.{
  update_scenario_status-StatusOnly, report_failure-StatusOnly, report_failure-fails,
}
use kurama.Controller.Reconcile.After.{
  StatusOnly, config_map_after, deployment_after, finalizer_after, finalizer_after-true,
  deployment_after-StatusOnly,
}
use kurama.Controller.Apply.Settles.{FoundOnce}
use kurama.Controller.Backends.{requires_redis}
use kurama.Controller.Conversion.{scenario_runner_config}
use kurama.Controller.Finalizer.{DeleteAnswer, deleted, delete_not_found, delete_failed}
use kurama.Controller.Cluster.{
  Reconciler, Resource, Cluster, Libraries, Cause, Action, Outcome, add_finalizer, after,
  finalizer_not_added,
}
use kurama.Controller.Reconcile.{
  on_deleted, reconcile_result_for_state, report_failure, suspend_found, suspend_controlled,
  reason_reconcile_failed, suspend_runner, scenario_validated, run_scenario, reconcile_present,
  reconcile_by_deletion, reconcile_resource, reconcile_found, reconcile,
}
use kurama.Controller.Status.{Status}
use kurama.Controller.Validation.{ScenarioError, validate_scenario}
use kurama.Controller.Workload.{Deployment}
use kurama.Controller.Reconcile.AppliedAgain.{Done, stored, config_marshalled-rests}

-- The finalizer is not needed again after it has been added where it was.
added_once :
    (needs has_redis has finalizer : Bool) (x y : Outcome)
    → finalizer
      ≡ finalizer_after
          (if needs && has_redis && not has then after (add_finalizer ∷ []) x else y).1
          has
    → (needs && has_redis && not finalizer) ≡ false
added_once true true true finalizer x y h = ground (arith, h, finalizer_after-true y.1)
added_once true true false finalizer x y h = ground (arith, h)
added_once true false has finalizer x y h = refl
added_once false has_redis has finalizer x y h = refl

module _ (l : Libraries) (r : Reconciler) (c c' : Cluster) (res : Resource) (status : Status)
    (finalizer : Bool) (once : FoundOnce c.deployment_api.get) where
  abbrev later : Resource
  later = stored l r c c' res status finalizer once

  -- Both reconciliations take the same branch of a test.
  StatusOnly-if :
      (b : Bool) (x y x' y' : Outcome) (n : ℕ)
      → Done c c' n (if b then x else y)
      → (Done c c' n x → All StatusOnly x'.1)
      → (Done c c' n y → All StatusOnly y'.1)
      → All StatusOnly (if b then x' else y').1
  StatusOnly-if true x y x' y' n done then_ else_ = then_ done
  StatusOnly-if false x y x' y' n done then_ else_ = else_ done

  scenario_validated-rests :
      (v : Result ScenarioError (Unit {0})) (n : ℕ)
      → Done c c' n (scenario_validated l r c res v)
      → All StatusOnly (scenario_validated l r c' later v).1
  unfolding scenario_validated
  scenario_validated-rests (err e) n done = report_failure-StatusOnly l r c' later _ _ false
  scenario_validated-rests (ok u) n done =
      StatusOnly-if (eqs r.runner_image []) _ _ _ _ n done
        (λ done1. report_failure-StatusOnly l r c' later _ _ true)
        (λ done1.
          StatusOnly-if (requires_redis res.scenario && eqs r.redis_address []) _ _ _ _ n done1
            (λ done2. report_failure-StatusOnly l r c' later _ _ true)
            (config_marshalled-rests l r c c' res status finalizer once
              (l.marshal (scenario_runner_config res.scenario)) n))

  on_deleted-rests :
      (a : DeleteAnswer) (cause : Cause) (waiting : Outcome) (g : Found Deployment) (n : ℕ)
      → let end =
          on_deleted a (report_failure l r c res reason_reconcile_failed cause true) waiting in
        All StatusOnly waiting.1 → end.0 ≡ ok n → deployment_after end.1 g ≡ g
  on_deleted-rests delete_failed cause waiting g n w h =
      absurd (report_failure-fails l r c res _ _ n h)
  on_deleted-rests deleted cause waiting g n w h = deployment_after-StatusOnly waiting.1 g w
  on_deleted-rests delete_not_found cause waiting g n w h =
      deployment_after-StatusOnly waiting.1 g w

  suspend_controlled-rests :
      (o : Result ApplyError (Unit {0})) (g : Found Deployment) (n : ℕ)
      → (suspend_controlled l r c res o).0 ≡ ok n
      → deployment_after (suspend_controlled l r c res o).1 g ≡ not_found
  unfolding suspend_controlled reconcile_result_for_state
  suspend_controlled-rests (err e) g n h = absurd (report_failure-fails l r c res _ _ n h)
  suspend_controlled-rests (ok u) g n h =
      on_deleted-rests c.delete_deployment _ _ not_found n
        (update_scenario_status-StatusOnly l r c res _) h

  -- After a suspended scenario has been reconciled, there is no Deployment.
  suspend_found-rests :
      (g : Found Deployment) (n : ℕ)
      → (suspend_found l r c res g).0 ≡ ok n
      → deployment_after (suspend_found l r c res g).1 g ≡ not_found
  unfolding suspend_found reconcile_result_for_state
  suspend_found-rests not_found n h =
      deployment_after-StatusOnly _ not_found (update_scenario_status-StatusOnly l r c res _)
  suspend_found-rests read_failed n h = absurd (report_failure-fails l r c res _ _ n h)
  suspend_found-rests (found e) n h = suspend_controlled-rests _ (found e) n h

  reconcile_present-rests :
      (n : ℕ)
      → Done c c' n (reconcile_present l r c res)
      → All StatusOnly (reconcile_present l r c' later).1
  unfolding reconcile_present suspend_runner run_scenario suspend_found reconcile_result_for_state
  reconcile_present-rests n done =
      StatusOnly-if res.scenario.spec.suspend _ _ _ _ n done
        (λ done1.
          rw (done1.2 ∙ suspend_found-rests c.deployment_api.get n done1.0)
            (update_scenario_status-StatusOnly l r c' later _))
        (scenario_validated-rests (validate_scenario l.checks res.scenario) n)

  -- Whether the finalizer had to be added or not, the first reconciliation went on.
  first_present-rests :
      (needed added : Bool) (n : ℕ)
      → let present = reconcile_present l r c res in
        let went_on = if added then present else (err finalizer_not_added, []) in
        Done c c' n (if needed then after (add_finalizer ∷ []) went_on else present)
        → All StatusOnly (reconcile_present l r c' later).1
  first_present-rests true true n done = reconcile_present-rests n done
  first_present-rests true false n (h, next_map, next_deployment) = cc
  first_present-rests false added n done = reconcile_present-rests n done

  reconcile_by_deletion-rests :
      (n : ℕ)
      → let first = reconcile_by_deletion l r c res none in
        finalizer ≡ finalizer_after first.1 res.has_finalizer
        → Done c c' n first
        → All StatusOnly (reconcile_by_deletion l r c' later none).1
  unfolding reconcile_by_deletion
  reconcile_by_deletion-rests n kept done =
      rw (added_once (requires_redis res.scenario) r.has_redis res.has_finalizer finalizer _ _ kept)
        (first_present-rests (requires_redis res.scenario && r.has_redis && not res.has_finalizer)
          c.finalizer_update_succeeds n done)

-- `c'` is the cluster after the steps of a reconciliation, if nobody else has changed the scenario or
-- its objects; what else it answers is open.
pub record Follows (res : Resource) (actions : List Action) (status : Status) (c c' : Cluster)
    : Type 0 where
  pub resource_eq :
      c'.resource
      ≡ found (record res {
        status = status;
        has_finalizer = finalizer_after actions res.has_finalizer;
      })
  pub config_map_eq : c'.config_map_api.get ≡ config_map_after actions c.config_map_api.get
  pub deployment_eq : c'.deployment_api.get ≡ deployment_after actions c.deployment_api.get

-- Once a reconciliation of a scenario that is not being deleted has succeeded, and the API server has
-- stored what it asked for, the next one changes nothing but the status of the scenario: it neither
-- creates, patches nor deletes an object, nor adds the finalizer again. Nobody else has changed the
-- scenario or its objects in between, and at most one volume of the Deployment is called like that of
-- the secret headers.
pub reconcile-rests :
    (l : Libraries) (r : Reconciler) (c c' : Cluster) (res : Resource) (status : Status) (n : ℕ)
    → c.resource ≡ found res
    → res.deletion_timestamp ≡ none
    → FoundOnce c.deployment_api.get
    → (reconcile l r c).0 ≡ ok n
    → Follows res (reconcile l r c).1 status c c'
    → All StatusOnly (reconcile l r c').1
unfolding reconcile reconcile_found reconcile_resource
reconcile-rests l r c c' res status n there alive once h next =
    let same : reconcile l r c ≡ reconcile_by_deletion l r c res none =
      ap (reconcile_found l r c) there ∙ ap (reconcile_by_deletion l r c res) alive in
    let finalizer = finalizer_after (reconcile l r c).1 res.has_finalizer in
    let later = record res { status = status; has_finalizer = finalizer } in
    let second : reconcile l r c' ≡ reconcile_by_deletion l r c' later none =
      ap (reconcile_found l r c') next.resource_eq
      ∙ ap (reconcile_by_deletion l r c' later) alive in
    subst (λ (o : Outcome). All StatusOnly o.1) (sym second)
      (reconcile_by_deletion-rests l r c c' res status finalizer once n
        (ap (λ (o : Outcome). finalizer_after o.1 res.has_finalizer) same)
        (subst (Done c c' n) same (h, next.config_map_eq, next.deployment_eq)))

-- ===== src/Controller/Reconcile/Justified.antt =====
-- What a reconciliation writes, and to whom it belongs.
use kurama.Base.{
  Bool-cases, All, Bytes, eqs, ◌≡◌, refl, sym, subst, inl, inr, Bool, true, false, some, List, [],
  arith,
}
use kurama.Base.Assoc.{lookup}
use kurama.Base.Result.{ok, Result-cases}
use kurama.Api.{TrafficScenario}
use kurama.Controller.Apply.Runs.{find_runner, RunsAs}
use kurama.Controller.Apply.Objects.{
  is_controlled_by, Found, not_found, read_failed, found, ensure_controlled_by,
}
use kurama.Controller.Apply.Owned.{ensure_controlled_by-owned, Owned, Allowed, asked_for}
use kurama.Controller.Finalizer.{DeleteAnswer, deleted, delete_not_found, delete_failed}
use kurama.Controller.Backends.{requires_redis}
use kurama.Controller.Conversion.{scenario_runner_config}
use kurama.Controller.Desired.{scenario_config_key, desired_container}
use kurama.Controller.Cluster.{
  Reconciler, Resource, Cluster, Libraries, Action, Current, Cause, Outcome, add_finalizer,
  delete_runner, delete_step, write_config_map, write_deployment, write_status,
}
use kurama.Controller.Reconcile.{
  on_deleted, suspend_found, suspend_controlled, report_found, reconcile_result_for_state,
  report_failure, update_scenario_status,
}
use kurama.Controller.Status.Readiness.{AllThere, state_from_deployment_lem}
use kurama.Controller.Status.{
  Phase, progressing, ready, degraded, suspended, state_from_deployment, progressing_state,
  ScenarioState, updated_status, degraded_state, failed,
}
use kurama.Controller.Validation.{validate_scenario}
use kurama.Controller.Workload.{ConfigMap, Deployment, Container}

module _ (l : Libraries) (r : Reconciler) (c : Cluster) (s : TrafficScenario) where
  -- A ConfigMap holds the JSON of the configuration of a scenario that the controller accepts.
  pub record HoldsConfig (m : ConfigMap) : Type 0 where
    pub active : s.spec.suspend ≡ false
    pub accepted : validate_scenario l.checks s ≡ ok tt
    pub config : Bytes
    pub config_eq : l.marshal (scenario_runner_config s) ≡ some config
    pub holds : lookup scenario_config_key m.contents ≡ some config

  -- A Deployment runs the image with the environment and the resources of the scenario.
  pub record RunsScenario (d : Deployment) : Type 0 where
    pub active : s.spec.suspend ≡ false
    pub accepted : validate_scenario l.checks s ≡ ok tt
    pub image_set : eqs r.runner_image [] ≡ false
    pub address_set : requires_redis s ≡ true → eqs r.redis_address [] ≡ false
    pub runner : Container
    pub runner_found : find_runner d.pod.containers ≡ some runner
    pub runs : RunsAs (desired_container s r.runner_image r.redis_address) runner

  -- A Deployment that makes its scenario ready: its own controller is the scenario, the latest
  -- generation was seen, and all replicas are there.
  pub record ReportsReady (d : Current) : Type 0 where
    pub found_eq : c.current ≡ found d
    pub owned : is_controlled_by d.controller s ≡ true
    pub all_there : AllThere d.reported

  -- What a phase that is reported says.
  abbrev pub Honest : Phase → Type 0
  Honest progressing = Unit {0}
  Honest degraded = Unit {0}
  Honest failed = Unit {0}
  Honest suspended = (s.spec.suspend ≡ true) × (c.deployment_api.get ≡ not_found)
  Honest ready = (s.spec.suspend ≡ false) × ((d : Current) × ReportsReady d)

  abbrev pub Justified : Action → Type 0
  Justified add_finalizer = requires_redis s ≡ true
  Justified delete_runner =
      (s.spec.suspend ≡ true) × Owned (λ (d : Deployment). d.controller) c.deployment_api.get s
  Justified (delete_step a) = Unit {0}
  Justified (write_config_map w) =
      Allowed (λ (m : ConfigMap). m.controller) c.config_map_api.get s w × HoldsConfig (asked_for w)
  Justified (write_deployment w) =
      Allowed (λ (d : Deployment). d.controller) c.deployment_api.get s w
      × RunsScenario (asked_for w)
  Justified (write_status st) = Honest st.phase

module _ (l : Libraries) (r : Reconciler) (c : Cluster) (res : Resource) where
  abbrev pub Fine : List Action → Type 0
  Fine actions = All (Justified l r c res.scenario) actions

  update_scenario_status-Fine :
      (state : ScenarioState)
      → Honest l r c res.scenario state.phase
      → Fine (update_scenario_status l r c res state).1
  unfolding update_scenario_status updated_status
  update_scenario_status-Fine state honest =
      elim (Bool-cases (
        l.equal_statuses.deep_equal res.status
          (updated_status l.setter state res.generation res.status))) [
            | inl same ↦ rw (same, update_scenario_status) tt
            | inr changed ↦ rw (changed, update_scenario_status) (honest, tt)
          ]

  pub reconcile_result_for_state-Fine :
      (state : ScenarioState)
      → Honest l r c res.scenario state.phase
      → Fine (reconcile_result_for_state l r c res state).1
  unfolding reconcile_result_for_state
  reconcile_result_for_state-Fine state honest = update_scenario_status-Fine state honest

  pub report_failure-Fine :
      (reason : Bytes) (cause : Cause) (retry : Bool)
      → Fine (report_failure l r c res reason cause retry).1
  unfolding report_failure degraded_state
  report_failure-Fine reason cause retry =
      update_scenario_status-Fine (degraded_state failed reason (l.text cause)) tt

  Honest-ready :
      (x : Phase)
      → (x ≡ ready → Honest l r c res.scenario ready)
      → ¬ (x ≡ suspended)
      → Honest l r c res.scenario x
  Honest-ready progressing h n = tt
  Honest-ready degraded h n = tt
  Honest-ready failed h n = tt
  Honest-ready ready h n = h refl
  Honest-ready suspended h n = absurd (n refl)

  state_from_deployment-Honest :
      (d : Current) (progress : Bytes)
      → c.current ≡ found d
      → is_controlled_by d.controller res.scenario ≡ true
      → res.scenario.spec.suspend ≡ false
      → Honest l r c res.scenario (state_from_deployment progress d.reported).phase
  unfolding state_from_deployment degraded_state progressing_state
  state_from_deployment-Honest d progress e owned active =
      Honest-ready (state_from_deployment progress d.reported).phase
        (λ h. (
          active,
          (
            d,
            record {
              found_eq = e;
              owned = owned;
              all_there = (state_from_deployment_lem progress d.reported).0.0 h;
            },
          ),
        ))
        (λ h. ground (arith, h))

  pub report_found-Fine :
      (g : Found Current)
      → c.current ≡ g
      → res.scenario.spec.suspend ≡ false
      → Fine (report_found l r c res g).1
  unfolding report_found
  report_found-Fine not_found e active = report_failure-Fine _ _ true
  report_found-Fine read_failed e active = report_failure-Fine _ _ true
  report_found-Fine (found d) e active =
      elim (Result-cases (ensure_controlled_by d.controller res.scenario)) [
        | inl (u, owned) ↦
            rw (owned, report_found)
              (reconcile_result_for_state-Fine _ (
                state_from_deployment-Honest d (l.progress d.reported) e
                  (ensure_controlled_by-owned d.controller res.scenario owned) active))
        | inr (x, foreign) ↦ rw (foreign, report_found) (report_failure-Fine _ _ true)
      ]

  on_deleted-Fine :
      (a : DeleteAnswer) (failure waiting : Outcome)
      → Fine failure.1
      → Fine waiting.1
      → Fine (on_deleted a failure waiting).1
  on_deleted-Fine delete_failed failure waiting f w = f
  on_deleted-Fine deleted failure waiting f w = w
  on_deleted-Fine delete_not_found failure waiting f w = w

  pub suspend_found-Fine :
      (g : Found Deployment)
      → c.deployment_api.get ≡ g
      → res.scenario.spec.suspend ≡ true
      → Fine (suspend_found l r c res g).1
  unfolding suspend_found suspend_controlled progressing_state
  suspend_found-Fine not_found e h = reconcile_result_for_state-Fine _ (h, e)
  suspend_found-Fine read_failed e h = report_failure-Fine _ _ true
  suspend_found-Fine (found d) e h =
      elim (Result-cases (ensure_controlled_by d.controller res.scenario)) [
        | inr (x, foreign) ↦ rw foreign (report_failure-Fine _ _ true)
        | inl (u, owned) ↦
            let own : Owned (λ (x : Deployment). x.controller) c.deployment_api.get res.scenario =
              subst (λ g. Owned (λ (x : Deployment). x.controller) g res.scenario) (sym e)
                (ensure_controlled_by-owned d.controller res.scenario owned) in
            rw owned (
              (h, own),
              on_deleted-Fine c.delete_deployment _ _ (report_failure-Fine _ _ true)
                  (reconcile_result_for_state-Fine _ tt),
            )
      ]

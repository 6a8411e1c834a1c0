-- ===== src/Controller/Reconcile/AppliedAgain.antt =====
-- The objects of an active scenario, applied once more after they have been stored.
use kurama.Base.{
  All, Bytes, ℕ, ◌≡◌, refl, sym, ap, ◌∙◌, subst, Bool, true, false, Option, none, some, [],
}
use kurama.Base.Result.{Result, ok, err}
use kurama.Controller.Apply.Latest.{
  latest, desired_config_map-PlainConfigMap, apply_deployment-latest, apply_config_map-latest,
}
use kurama.Controller.Apply.Objects.{ApplyError, Found, apply_config_map, apply_deployment}
use kurama.Controller.Reconcile.StatusSteps.{
  report_failure-StatusOnly, report_failure-fails, deployment_applied-StatusOnly,
  deployment_applied-ok,
}
use kurama.Controller.Reconcile.After.{
  StatusOnly, config_map_after, deployment_after, deployment_after-StatusOnly,
  config_map_after-StatusOnly, deployment_after-writes, deployment_after-others,
  config_map_after-writes, config_map_after-others,
}
use kurama.Controller.Apply.Settles.{FoundOnce, desired_deployment-DesiredOk}
use kurama.Controller.Desired.{desired_config_map, desired_deployment}
use kurama.Controller.Identity.{runner_name}
use kurama.Controller.Cluster.{Reconciler, Resource, Cluster, Libraries, Outcome}
use kurama.Controller.Reconcile.{
  apply_runner_deployment, config_map_applied, apply_runner, config_marshalled,
}
use kurama.Controller.Status.{Status}
use kurama.Controller.Workload.{ConfigMap}

module _ (c c' : Cluster) where
  -- A reconciliation, or its last part, that has succeeded, and what it asked for is stored.
  abbrev pub Done : ℕ → Outcome → Type 0
  Done n o =
      (o.0 ≡ ok n)
      × (c'.config_map_api.get ≡ config_map_after o.1 c.config_map_api.get)
      × (c'.deployment_api.get ≡ deployment_after o.1 c.deployment_api.get)

module _ (l : Libraries) (r : Reconciler) (c c' : Cluster) (res : Resource) (status : Status)
    (finalizer : Bool) (once : FoundOnce c.deployment_api.get) where
  -- The scenario as the API server has it then.
  abbrev pub stored : Resource
  stored = record res { status = status; has_finalizer = finalizer }

  apply_runner_deployment-rests :
      (config : Bytes) (n : ℕ)
      → let first = apply_runner_deployment l r c res config in
        first.0 ≡ ok n
        → c'.deployment_api.get ≡ deployment_after first.1 c.deployment_api.get
        → All StatusOnly (apply_runner_deployment l r c' stored config).1
  unfolding apply_runner_deployment
  apply_runner_deployment-rests config n h next =
      let s = res.scenario in
      let d =
        desired_deployment l.sha s (runner_name l.sha s.name) r.runner_image
          r.runner_image_pull_secret r.redis_address config in
      let applied = apply_deployment l.equal_deployments l.equal_maps c.deployment_api s d in
      let status_steps = deployment_applied-StatusOnly l r c res applied.0 in
      let (changed, succeeds) = deployment_applied-ok l r c res applied.0 n h in
      let held =
        next
        ∙ (deployment_after-writes applied.1 _ c.deployment_api.get
            ∙ deployment_after-StatusOnly _ (latest applied.1 c.deployment_api.get) status_steps) in
      let again =
        apply_deployment-latest l.equal_deployments l.equal_maps s d
          (desired_deployment-DesiredOk l.sha s (runner_name l.sha s.name) r.runner_image
            r.runner_image_pull_secret r.redis_address config)
          c.deployment_api c'.deployment_api c.deployment_api.get changed once succeeds in
      let unchanged =
        subst
          (λ g.
            apply_deployment l.equal_deployments l.equal_maps (record c'.deployment_api { get = g })
              s d
            ≡ (ok false, []))
          (sym held) again in
      rw unchanged (deployment_applied-StatusOnly l r c' stored (ok false))

  config_map_applied-ok :
      (config : Bytes) (applied : Result ApplyError (Unit {0})) (n : ℕ)
      → (config_map_applied l r c res config applied).0 ≡ ok n
      → (applied ≡ ok tt)
        × (config_map_applied l r c res config applied ≡ apply_runner_deployment l r c res config)
  unfolding config_map_applied
  config_map_applied-ok config (ok tt) n h = (refl, refl)
  config_map_applied-ok config (err e) n h = absurd (report_failure-fails l r c res _ _ n h)

  -- The steps for the Deployment leave the ConfigMap as it is.
  config_map_after-apply_runner_deployment :
      (config : Bytes) (g : Found ConfigMap)
      → config_map_after (apply_runner_deployment l r c res config).1 g ≡ g
  unfolding apply_runner_deployment
  config_map_after-apply_runner_deployment config g =
      let s = res.scenario in
      let d =
        desired_deployment l.sha s (runner_name l.sha s.name) r.runner_image
          r.runner_image_pull_secret r.redis_address config in
      let applied = apply_deployment l.equal_deployments l.equal_maps c.deployment_api s d in
      config_map_after-others applied.1 _ g
      ∙ config_map_after-StatusOnly _ g (deployment_applied-StatusOnly l r c res applied.0)

  apply_runner-rests :
      (config : Bytes) (n : ℕ)
      → Done c c' n (apply_runner l r c res config)
      → All StatusOnly (apply_runner l r c' stored config).1
  unfolding apply_runner config_map_applied
  apply_runner-rests config n (h, next_map, next_deployment) =
      let s = res.scenario in
      let d = desired_config_map l.sha s (runner_name l.sha s.name) config in
      let applied = apply_config_map l.equal_config_maps c.config_map_api s d in
      let (succeeds, goes_on) = config_map_applied-ok config applied.0 n h in
      let held =
        next_map
        ∙ (config_map_after-writes applied.1 _ c.config_map_api.get
            ∙ (ap (λ (o : Outcome). config_map_after o.1 (latest applied.1 c.config_map_api.get))
                  goes_on
                ∙ config_map_after-apply_runner_deployment config
                    (latest applied.1 c.config_map_api.get))) in
      let held_deployment =
        next_deployment
        ∙ (deployment_after-others applied.1 _ c.deployment_api.get
            ∙ ap (λ (o : Outcome). deployment_after o.1 c.deployment_api.get) goes_on) in
      let again =
        apply_config_map-latest l.equal_config_maps s d
          (desired_config_map-PlainConfigMap l.sha s (runner_name l.sha s.name) config)
          c.config_map_api c'.config_map_api c.config_map_api.get tt succeeds in
      let unchanged =
        subst
          (λ g.
            apply_config_map l.equal_config_maps (record c'.config_map_api { get = g }) s d
            ≡ (ok tt, []))
          (sym held) again in
      rw unchanged (
        apply_runner_deployment-rests config n (sym (ap (λ (o : Outcome). o.0) goes_on) ∙ h)
          held_deployment)

  pub config_marshalled-rests :
      (config : Option Bytes) (n : ℕ)
      → Done c c' n (config_marshalled l r c res config)
      → All StatusOnly (config_marshalled l r c' stored config).1
  unfolding config_marshalled
  config_marshalled-rests none n done = report_failure-StatusOnly l r c' stored _ _ true
  config_marshalled-rests (some config) n done = apply_runner-rests config n done

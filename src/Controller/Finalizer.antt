-- ===== src/Controller/Finalizer.antt =====
-- internal/controller/trafficscenario_finalizer.go: how a scenario that is being deleted gives up its
-- runner, its Redis keys, and then its finalizer. The Kubernetes API and Redis answer as parameters.
pub mod Cleaned
pub mod Order
mod Tests
use kurama.Base.{
  ltb, if◌then◌else◌, Bytes, ℕ, ◌+◌, Bool, true, false, not, Option, none, some, List, [], ◌∷◌,
  ◌++◌,
}
use kurama.Base.Result.{Result, ok, err}
use kurama.RedisKey.{Scope, ScopeError, new_scope, cleanup_patterns}

abbrev pub redis_cleanup_grace_period : ℕ
redis_cleanup_grace_period = 300_000_000_000

abbrev pub deletion_requeue_interval : ℕ
deletion_requeue_interval = 5_000_000_000

-- What the reconciler reads of the scenario; times are nanoseconds.
pub record Scenario : Type 0 where
  pub namespace : Bytes
  pub name : Bytes
  pub uid : Bytes
  pub has_finalizer : Bool
  pub deletion_timestamp : Option ℕ

-- `Get` of the runner Deployment, and whether the scenario controls it.
pub data GetAnswer : Type 0 where
  get_not_found get_failed : GetAnswer
  get_found : Bool → GetAnswer

pub data DeleteAnswer : Type 0 where
  deleted delete_not_found delete_failed : DeleteAnswer

-- How the API server and Redis answer one reconciliation. `redis` is nothing when the manager has no
-- client; `scan` returns the keys of a pattern.
pub record Answers : Type 0 where
  pub now : ℕ
  pub get_deployment : GetAnswer
  pub delete_deployment : DeleteAnswer
  pub has_redis : Bool
  pub scan : Bytes → Option (List Bytes)
  pub del_succeeds : Bool
  pub update_succeeds : Bool

pub data Cause : Type 0 where
  deployment_unreadable deployment_not_controlled deployment_not_deleted : Cause
  expired_waiting redis_unavailable scan_failed del_failed : Cause
  bad_scope : ScopeError → Cause

-- What a reconciliation does in order.
pub data Action : Type 0 where
  delete_runner : Action
  delete_keys : List Bytes → Action
  remove_finalizer : Action
  report_abandoned : Cause → Action

pub data ReconcileError : Type 0 where
  finalizer_not_removed : ReconcileError

-- The result is the time after which to reconcile again, 0 for never.
abbrev pub Outcome : Type 0
Outcome = Result ReconcileError ℕ × List Action

-- `redisCleanupGracePeriodExpired`
unfoldable pub grace_period_expired : Scenario → ℕ → Bool
grace_period_expired scenario now = elim scenario.deletion_timestamp [
  | none ↦ false
  | some t ↦ not (ltb now (t + redis_cleanup_grace_period))
]

-- `removeRedisCleanupFinalizer`
unfoldable pub remove_redis_cleanup_finalizer : Answers → Outcome
remove_redis_cleanup_finalizer a =
    (if a.update_succeeds then ok 0 else err finalizer_not_removed, remove_finalizer ∷ [])

-- `abandonCleanup`; the event recorder and the observer are one report.
unfoldable pub abandon_cleanup : Answers → Cause → Outcome
unfolding remove_redis_cleanup_finalizer
abandon_cleanup a cause =
    let (r, actions) = remove_redis_cleanup_finalizer a in
    elim r [
      | err e ↦ (err e, actions)
      | ok after ↦ (ok after, actions ++ (report_abandoned cause ∷ []))
    ]

-- `retryOrAbandonCleanup`
unfoldable pub retry_or_abandon_cleanup : Scenario → Answers → Cause → Outcome
unfolding grace_period_expired abandon_cleanup
retry_or_abandon_cleanup scenario a cause =
    if grace_period_expired scenario a.now
    then abandon_cleanup a cause
    else (ok deletion_requeue_interval, [])

-- The loop of `deleteScenarioRedisKeys` over the patterns.
unfoldable pub scan_all : (Bytes → Option (List Bytes)) → List Bytes → Option (List Bytes)
scan_all scan [] = some []
scan_all scan (p ∷ ps) =
    let more = scan_all scan ps in
    elim (scan p) [
      | none ↦ none
      | some keys ↦ elim more [ none ↦ none | some rest ↦ some (keys ++ rest) ]
    ]

-- `deleteScenarioRedisKeys`
unfoldable pub delete_scenario_redis_keys : Answers → Scope → Result Cause (Unit {0}) × List Action
unfolding scan_all
delete_scenario_redis_keys a scope = elim (scan_all a.scan (cleanup_patterns scope)) [
  | none ↦ (err scan_failed, [])
  | some [] ↦ (ok tt, [])
  | some (k ∷ ks) ↦ (if a.del_succeeds then ok tt else err del_failed, delete_keys (k ∷ ks) ∷ [])
]

-- The part of `reconcileDeletion` after the runner is gone.
unfoldable pub clean_up : Scenario → Answers → Outcome
unfolding retry_or_abandon_cleanup delete_scenario_redis_keys remove_redis_cleanup_finalizer
clean_up scenario a =
    if not a.has_redis
    then retry_or_abandon_cleanup scenario a redis_unavailable
    else (elim (new_scope scenario.namespace scenario.name scenario.uid) [
      | err e ↦ retry_or_abandon_cleanup scenario a (bad_scope e)
      | ok scope ↦
          let (r, actions) = delete_scenario_redis_keys a scope in
          let retried = retry_or_abandon_cleanup scenario a in
          let removed = remove_redis_cleanup_finalizer a in
          elim r [
            | err cause ↦ ((retried cause).0, actions ++ (retried cause).1)
            | ok u ↦ (removed.0, actions ++ removed.1)
          ]
    ])

-- The part of `reconcileDeletion` that deletes a runner that is still there.
unfoldable pub delete_found : Scenario → Answers → Outcome
unfolding retry_or_abandon_cleanup abandon_cleanup
delete_found scenario a =
    let failed = retry_or_abandon_cleanup scenario a deployment_not_deleted in
    let waiting =
      if grace_period_expired scenario a.now
      then abandon_cleanup a expired_waiting
      else (ok deletion_requeue_interval, []) in
    elim a.delete_deployment [
      | delete_failed ↦ (failed.0, delete_runner ∷ failed.1)
      | deleted ↦ (waiting.0, delete_runner ∷ waiting.1)
      | delete_not_found ↦ (waiting.0, delete_runner ∷ waiting.1)
    ]

-- `reconcileDeletion`
unfoldable pub reconcile_deletion : Scenario → Answers → Outcome
unfolding clean_up delete_found retry_or_abandon_cleanup
reconcile_deletion scenario a =
    if not scenario.has_finalizer then (ok 0, []) else (elim a.get_deployment [
      | get_failed ↦ retry_or_abandon_cleanup scenario a deployment_unreadable
      | get_found false ↦ retry_or_abandon_cleanup scenario a deployment_not_controlled
      | get_found true ↦ delete_found scenario a
      | get_not_found ↦ clean_up scenario a
    ])

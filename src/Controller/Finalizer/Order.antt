-- ===== src/Controller/Finalizer/Order.antt =====
-- The order in which a deletion gives things up.
use kurama.Base.{◌≡◌, Bool, true, false, ◌&&◌, ◌||◌, List, [], ◌∷◌, arith}
use kurama.Controller.Finalizer.{
  Scenario, Answers, Action, Cause, GetAnswer, get_not_found, get_failed, get_found, delete_runner,
  delete_keys, remove_finalizer, report_abandoned, grace_period_expired,
  remove_redis_cleanup_finalizer, abandon_cleanup, retry_or_abandon_cleanup, clean_up, delete_found,
  reconcile_deletion,
}
use kurama.Controller.Finalizer.Cleaned.{
  removes, deleted_keys, cleaned, keys_of, removes-retry_or_abandon_cleanup, clean_up-Removes,
}

abbrev pub deletes_keys : List Action → Bool
deletes_keys [] = false
deletes_keys (remove_finalizer ∷ rest) = deletes_keys rest
deletes_keys (delete_runner ∷ rest) = deletes_keys rest
deletes_keys (delete_keys ks ∷ rest) = true
deletes_keys (report_abandoned c ∷ rest) = deletes_keys rest

abbrev pub is_gone : GetAnswer → Bool
is_gone get_not_found = true
is_gone get_failed = false
is_gone (get_found controlled) = false

deletes_keys-retry_or_abandon_cleanup :
    (scenario : Scenario) (a : Answers) (c : Cause)
    → deletes_keys (retry_or_abandon_cleanup scenario a c).1 ≡ false
unfolding retry_or_abandon_cleanup abandon_cleanup remove_redis_cleanup_finalizer
deletes_keys-retry_or_abandon_cleanup scenario a c = ground arith

deletes_keys-delete_found :
    (scenario : Scenario) (a : Answers) → deletes_keys (delete_found scenario a).1 ≡ false
unfolding delete_found abandon_cleanup remove_redis_cleanup_finalizer
deletes_keys-delete_found scenario a =
    ground (arith, deletes_keys-retry_or_abandon_cleanup scenario a)

removes-delete_found :
    (scenario : Scenario) (a : Answers)
    → removes (delete_found scenario a).1 ≡ grace_period_expired scenario a.now
unfolding delete_found abandon_cleanup remove_redis_cleanup_finalizer
removes-delete_found scenario a = ground (arith, removes-retry_or_abandon_cleanup scenario a)

-- The keys of a scenario are deleted only when its runner Deployment is gone.
pub reconcile_deletion-keys_last :
    (scenario : Scenario) (a : Answers)
    → deletes_keys (reconcile_deletion scenario a).1 ≡ true
    → (scenario.has_finalizer ≡ true) × (a.get_deployment ≡ get_not_found) × (a.has_redis ≡ true)
unfolding reconcile_deletion clean_up
reconcile_deletion-keys_last scenario a h = ground (
  arith,
  h,
  deletes_keys-retry_or_abandon_cleanup scenario a,
  deletes_keys-delete_found scenario a,
)

-- The finalizer of a scenario is removed exactly when the grace period has expired, or the runner
-- Deployment is gone, Redis has answered the scan of every pattern of the scenario, and it has
-- deleted the keys that were found, if any. When it is removed before the grace period has expired,
-- the keys that Redis is told to delete are all the keys that the patterns find.
pub reconcile_deletion-removes :
    (scenario : Scenario) (a : Answers)
    → let actions = (reconcile_deletion scenario a).1 in
      (removes actions ≡ (
        scenario.has_finalizer
        && (grace_period_expired scenario a.now
            || (is_gone a.get_deployment && (a.has_redis && cleaned scenario a)))))
      × (removes actions ≡ true
          → grace_period_expired scenario a.now ≡ false
          → deleted_keys actions ≡ keys_of scenario a)
unfolding reconcile_deletion
reconcile_deletion-removes scenario a =
    let (complete, keys) = clean_up-Removes scenario a in
    (
      ground (
        arith,
        removes-retry_or_abandon_cleanup scenario a,
        removes-delete_found scenario a,
        complete,
      ),
      λ h g. ground (
        arith,
        h,
        g,
        removes-retry_or_abandon_cleanup scenario a,
        removes-delete_found scenario a,
        keys,
      ),
    )

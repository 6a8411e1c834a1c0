-- ===== src/Controller/Finalizer/Tests.antt =====
-- A deletion step by step, and the theorems at concrete inputs.
use kurama.Base.{codes, eqs, has_byte, ◌≡◌, refl, true, false, ◌&&◌, ◌||◌, some, [], ◌∷◌, map}
use kurama.Base.Result.{ok}
use kurama.Controller.Finalizer.{
  Scenario, Answers, get_not_found, get_found, deleted, delete_runner, delete_keys,
  remove_finalizer, report_abandoned, redis_unavailable, grace_period_expired, reconcile_deletion,
  delete_scenario_redis_keys, deletion_requeue_interval,
}
use kurama.Controller.Finalizer.Cleaned.{deleted_keys, keys_of, removes, cleaned}
use kurama.Controller.Finalizer.Order.{
  deletes_keys, is_gone, reconcile_deletion-keys_last, reconcile_deletion-removes,
}
use kurama.RedisKey.{new_scope, validate, cleanup_patterns}

abbrev shop : Scenario
shop = record {
  namespace = codes "shop";
  name = codes "demo";
  uid = codes "1";
  has_finalizer = true;
  deletion_timestamp = some 0;
}

abbrev running : Answers
running = record {
  now = 1;
  get_deployment = get_found true;
  delete_deployment = deleted;
  has_redis = true;
  scan = λ pattern. some (pattern ∷ []);
  del_succeeds = true;
  update_succeeds = true;
}

abbrev gone : Answers
gone = record running { get_deployment = get_not_found }

runner_first : reconcile_deletion shop running ≡ (ok deletion_requeue_interval, delete_runner ∷ [])
unfolding reconcile_deletion grace_period_expired
runner_first = refl

then_keys :
    map (λ x. x) (reconcile_deletion shop gone).1
    ≡ delete_keys (
        cleanup_patterns
          (record { namespace = codes "shop"; scenario = codes "demo"; uid = codes "1" }))
      ∷ remove_finalizer
      ∷ []
unfolding reconcile_deletion delete_scenario_redis_keys new_scope validate cleanup_patterns has_byte
    eqs
then_keys = refl

abandoned :
    reconcile_deletion shop (record gone { has_redis = false; now = 300_000_000_000 })
    ≡ (ok 0, remove_finalizer ∷ report_abandoned redis_unavailable ∷ [])
unfolding reconcile_deletion grace_period_expired
abandoned = refl

gone_deletes : deletes_keys (reconcile_deletion shop gone).1 ≡ true
unfolding reconcile_deletion delete_scenario_redis_keys new_scope validate cleanup_patterns has_byte
    eqs
gone_deletes = refl

keys_last_example :
    (shop.has_finalizer ≡ true) × (gone.get_deployment ≡ get_not_found) × (gone.has_redis ≡ true)
keys_last_example = reconcile_deletion-keys_last shop gone gone_deletes

removes_example :
    let actions = (reconcile_deletion shop gone).1 in
    (removes actions ≡ (
      shop.has_finalizer
      && (grace_period_expired shop gone.now
          || (is_gone gone.get_deployment && (gone.has_redis && cleaned shop gone)))))
    × (removes actions ≡ true
        → grace_period_expired shop gone.now ≡ false
        → deleted_keys actions ≡ keys_of shop gone)
removes_example = reconcile_deletion-removes shop gone

-- ===== src/Runtime/Tests.antt =====
-- A runner that sets up its state, or fails to.
use kurama.Base.{pos, Bytes, codes, eqs, has_byte, elem, ℕ, ◌≡◌, refl, true, false, List, [], ◌∷◌}
use kurama.Base.Result.{err}
use kurama.Config.{RateScheduleConfig, StoreConfig}
use kurama.Names.{matches_name, validate_name}
use kurama.RedisKey.{validate, new_scope}
use kurama.Runtime.{
  StoreSettings, ping_failed, opened, closed, needs_redis, normalized_store_backend,
  new_runtime_state, retention_failed,
}
use kurama.Runtime.Closes.{Tidy, new_runtime_state-Tidy}
use kurama.Store.{validate_store_configs}
use kurama.Store.Redis.{new_redis_store}

abbrev settings : StoreSettings
settings = record {
  backend = codes "redis";
  redis_address = codes "redis:6379";
  namespace = codes "shop";
  scenario = codes "demo";
  scenario_uid = codes "7";
}

abbrev schedule : RateScheduleConfig
schedule = record {
  type = codes "fixed";
  requests_per_minute = pos 60;
  min_requests_per_minute = pos 0;
  max_requests_per_minute = pos 0;
  window_minutes = pos 0;
}

abbrev stores : List StoreConfig
stores = record { name = codes "ids"; capacity = pos 5 } ∷ []

abbrev itoa : ℕ → Bytes
itoa n = codes "0"

unanswered_ping :
    new_runtime_state itoa false true settings (codes "local") schedule stores
    ≡ (err ping_failed, opened ∷ (closed ∷ []))
unfolding new_runtime_state new_scope validate has_byte eqs
unanswered_ping = refl

failed_retention :
    new_runtime_state itoa true false settings (codes "local") schedule stores
    ≡ (err retention_failed, opened ∷ (closed ∷ []))
unfolding new_runtime_state new_scope validate has_byte eqs new_redis_store validate_store_configs
    validate_name matches_name elem
failed_retention = refl

new_runtime_state-Tidy_example :
    Tidy
      (needs_redis (normalized_store_backend settings.backend) (codes "local") schedule)
      (new_runtime_state itoa true true settings (codes "local") schedule stores)
new_runtime_state-Tidy_example =
    new_runtime_state-Tidy itoa true true settings (codes "local") schedule stores

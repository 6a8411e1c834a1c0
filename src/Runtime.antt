-- ===== src/Runtime.antt =====
-- cmd/runner/runtime.go: the store, the limiter and the schedule that a runner works with, and the
-- Redis client that they share. What the client is told is a list of events.
pub mod Closes
mod Tests
use kurama.Base.{
  if◌then◌else◌, ℤ, pos, negsuc, Bytes, codes, eqs, ℕ, suc, ◌-◌, ◌*◌, Bool, true, false, ◌&&◌, ◌||◌,
  not, Option, none, some, List, [], ◌∷◌, ◌++◌,
}
use kurama.Base.Result.{Result, ok, err, ◌>>=◌, ◌>>◌, fail_if, wrap_err}
use kurama.Config.{RateLimiterConfig, RateProfileConfig, RateScheduleConfig, StoreConfig}
use kurama.Controller.Desired.{
  store_backend_env, redis_address_env, namespace_env, scenario_env, scenario_uid_env,
}
use kurama.RateLimit.Local.{LocalLimiter, new_local_limiter}
use kurama.RateSchedule.{Fixed, new_fixed}
use kurama.RateSchedule.RedisUniform.{RedisUniform, UniformError, new_redis_uniform}
use kurama.RedisKey.{Scope, ScopeError, validate, new_scope, rate_limit_key}
use kurama.Store.{StoreConfigError}
use kurama.Store.Memory.{MemoryStore, new_memory_store}
use kurama.Store.Redis.{RedisStore, RedisStoreError, new_redis_store}

pub record StoreSettings : Type 0 where
  pub backend : Bytes
  pub redis_address : Bytes
  pub namespace : Bytes
  pub scenario : Bytes
  pub scenario_uid : Bytes

-- `storeSettingsFromEnv`, with `os.Getenv` as a parameter
unfoldable pub store_settings_from_env : (Bytes → Bytes) → StoreSettings
store_settings_from_env getenv = record {
  backend = getenv store_backend_env;
  redis_address = getenv redis_address_env;
  namespace = getenv namespace_env;
  scenario = getenv scenario_env;
  scenario_uid = getenv scenario_uid_env;
}

pub data StoreComponent : Type 0 where
  memory : MemoryStore → StoreComponent
  redis : RedisStore → StoreComponent

-- A limiter in Redis is known by its key.
pub data LimiterComponent : Type 0 where
  local : LocalLimiter → LimiterComponent
  shared : Bytes → LimiterComponent

pub data ScheduleComponent : Type 0 where
  fixed : Fixed → ScheduleComponent
  uniform : RedisUniform → ScheduleComponent

-- `runtimeState`; a limiter that is missing is nil. `connected` says that there is a Redis client, which
-- `close` closes, and `maintained` that `maintain` is not nil. The files of the readiness check are
-- left out.
pub record RuntimeState : Type 0 where
  pub store : StoreComponent
  pub limiter : Option LimiterComponent
  pub schedule : ScheduleComponent
  pub connected : Bool
  pub maintained : Bool

pub data RuntimeError : Type 0 where
  unsupported_store unsupported_limiter unsupported_schedule : Bytes → RuntimeError
  no_redis_address ping_failed retention_failed limiter_without_client : RuntimeError
  bad_scope bad_limiter_scope : ScopeError → RuntimeError
  bad_memory_store : StoreConfigError → RuntimeError
  bad_redis_store : RedisStoreError → RuntimeError
  bad_schedule : UniformError → RuntimeError

pub data ClientEvent : Type 0 where
  opened closed : ClientEvent

-- A result with what the client has been told.
abbrev pub Traced {ℓ} : Type ℓ → Type ℓ
Traced A = Result RuntimeError A × List ClientEvent

abbrev pub Outcome : Type 0
Outcome = Traced RuntimeState

-- The code after a check for an error that returns it.
abbrev pub then_run {ℓ κ} : {A : Type ℓ} {B : Type κ} → Traced A → (A → Traced B) → Traced B
then_run (err e, events) next = (err e, events)
then_run (ok a, events) next = let (result, more) = next a in (result, events ++ more)

-- `normalizedStoreBackend`
unfoldable pub normalized_store_backend : Bytes → Bytes
normalized_store_backend backend = if eqs backend [] then codes "memory" else backend

-- `normalizedRateLimiterBackend`
unfoldable pub normalized_rate_limiter_backend : Option RateLimiterConfig → Bytes → Bytes
unfolding normalized_store_backend
normalized_rate_limiter_backend none store_backend =
    if eqs (normalized_store_backend store_backend) (codes "redis")
    then codes "redis"
    else codes "local"
normalized_rate_limiter_backend (some l) store_backend =
    if not (eqs l.type [])
    then l.type
    else if eqs (normalized_store_backend store_backend) (codes "redis")
    then codes "redis"
    else codes "local"

-- `normalizedRateProfileType`
unfoldable pub normalized_rate_profile_type : Option RateProfileConfig → Bytes
normalized_rate_profile_type none = codes "fixed"
normalized_rate_profile_type (some p) = if eqs p.type [] then codes "fixed" else p.type

-- `NewRedisRateLimiter` of internal/runner/ratelimit/redis_rate_limiter.go; it keeps the key.
unfoldable pub new_redis_rate_limiter : Bool → Scope → Result RuntimeError Bytes
new_redis_rate_limiter connected scope = do
  fail_if (not connected) limiter_without_client
  wrap_err bad_limiter_scope (validate scope)
  ok (rate_limit_key scope)

-- `closeState`; its own error is joined to the one that is returned.
abbrev pub close_state : Bool → List ClientEvent
close_state true = closed ∷ []
close_state false = []

-- The switch on the limiter; another backend leaves it nil.
unfoldable pub choose_limiter : Bytes → Bool → Scope → Traced (Option LimiterComponent)
unfolding new_redis_rate_limiter
choose_limiter backend connected scope =
    if eqs backend (codes "local")
    then (ok (some (local new_local_limiter)), [])
    else if eqs backend (codes "redis")
    then (elim (new_redis_rate_limiter connected scope) [
      | err e ↦ (err e, close_state connected)
      | ok key ↦ (ok (some (shared key)), [])
    ])
    else (ok none, [])

-- `time.Duration(minutes) * time.Minute`, in nanoseconds
abbrev pub minutes : ℤ → ℤ
minutes (pos n) = pos (n * 60_000_000_000)
minutes (negsuc n) = negsuc (suc n * 60_000_000_000 - 1)

-- The switch on the store, with whether it is maintained.
unfoldable pub choose_store :
    Bytes → Bool → Scope → List StoreConfig → Result RuntimeError (StoreComponent × Bool)
choose_store backend connected scope configs =
    if eqs backend (codes "memory")
    then (do s ← wrap_err bad_memory_store (new_memory_store configs); ok (memory s, false))
    else (do
      s ← wrap_err bad_redis_store (new_redis_store connected scope configs)
      ok (redis s, true))

-- `Close` of a state
abbrev pub close : RuntimeState → List ClientEvent
close state = close_state state.connected

-- `Maintain` of a state; `retained` says whether Redis answers to `ReconcileKeys`.
unfoldable pub maintain : Bool → RuntimeState → Result RuntimeError (Unit {0})
maintain retained state = fail_if (state.maintained && not retained) retention_failed

abbrev pub needs_redis : Bytes → Bytes → RateScheduleConfig → Bool
needs_redis store_backend limiter_backend config =
    eqs store_backend (codes "redis")
    || eqs limiter_backend (codes "redis")
    || eqs config.type (codes "uniform")

-- The steps of `newRuntimeState` on a state with its components.
unfoldable pub start_maintenance : Bool → Bool → RuntimeState → Outcome
unfolding maintain
start_maintenance retained maintained built =
    let state = record built { maintained = maintained } in
    elim (maintain retained state) [ err e ↦ (err e, close state) | ok u ↦ (ok state, []) ]

module _ (itoa : ℕ → Bytes) where
  -- The switch on the schedule.
  unfoldable pub choose_schedule : RateScheduleConfig → Bool → Scope → Traced ScheduleComponent
  choose_schedule config connected scope =
      if eqs config.type (codes "fixed")
      then (ok (fixed (new_fixed config.requests_per_minute)), [])
      else if eqs config.type (codes "uniform")
      then (elim (new_redis_uniform itoa connected scope (record {
        min_requests_per_minute = config.min_requests_per_minute;
        max_requests_per_minute = config.max_requests_per_minute;
        window = minutes config.window_minutes;
      })) [ err e ↦ (err (bad_schedule e), close_state connected) | ok u ↦ (ok (uniform u), []) ])
      else (err (unsupported_schedule config.type), close_state connected)

  -- `newRuntimeStateWithComponents`
  unfoldable pub with_components :
      StoreComponent → Bool → Scope → Bytes → RateScheduleConfig → Outcome
  unfolding choose_limiter choose_schedule
  with_components store connected scope limiter_backend config =
      then_run (choose_limiter limiter_backend connected scope) (λ limiter.
        then_run (choose_schedule config connected scope) (λ schedule. (
          ok (record {
            store = store;
            limiter = limiter;
            schedule = schedule;
            connected = connected;
            maintained = false;
          }),
          [],
        )))

  -- The steps of `newRuntimeState` after the client is there, or is not needed.
  unfoldable pub build_state :
      Bool → Bytes → Bool → Scope → Bytes → RateScheduleConfig → List StoreConfig → Outcome
  unfolding choose_store with_components start_maintenance
  build_state retained store_backend connected scope limiter_backend config configs =
      elim (choose_store store_backend connected scope configs) [
        | err e ↦ (err e, close_state connected)
        | ok store ↦
            then_run (with_components store.0 connected scope limiter_backend config)
              (start_maintenance retained store.1)
      ]

  -- The part that makes the client; `pinged` says whether Redis answers to the first `PING`.
  unfoldable pub connect :
      Bool → Bool → StoreSettings → Bytes → Bytes → RateScheduleConfig → List StoreConfig → Outcome
  unfolding build_state
  connect pinged retained settings store_backend limiter_backend config configs =
      if eqs settings.redis_address []
      then (err no_redis_address, [])
      else elim (new_scope settings.namespace settings.scenario settings.scenario_uid) [
        | err e ↦ (err (bad_scope e), [])
        | ok scope ↦
            if not pinged
            then (err ping_failed, opened ∷ (closed ∷ []))
            else let (result, events) =
                build_state retained store_backend true scope limiter_backend config configs in
              (result, opened ∷ events)
      ]

  -- `newRuntimeState`
  unfoldable pub new_runtime_state :
      Bool → Bool → StoreSettings → Bytes → RateScheduleConfig → List StoreConfig → Outcome
  unfolding connect normalized_store_backend
  new_runtime_state pinged retained settings limiter_backend config configs =
      let store_backend = normalized_store_backend settings.backend in
      if not (eqs store_backend (codes "memory") || eqs store_backend (codes "redis"))
      then (err (unsupported_store settings.backend), [])
      else if not (eqs limiter_backend (codes "local") || eqs limiter_backend (codes "redis"))
      then (err (unsupported_limiter limiter_backend), [])
      else if needs_redis store_backend limiter_backend config
      then connect pinged retained settings store_backend limiter_backend config configs
      else build_state retained store_backend false
          (record { namespace = []; scenario = []; uid = [] }) limiter_backend config configs

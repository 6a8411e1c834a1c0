-- ===== src/System/Starts.antt =====
-- The runner of a scenario that the controller accepts comes up.
use kurama.Base.{
  Bytes, codes, eqs_iff, eqs, ℕ, ◌≡◌, refl, sym, ◌∙◌, subst, ◌⊎◌, inl, inr, Bool, true, false, ◌||◌,
  not, some, List, [], arith,
}
use kurama.Base.Result.{ok}
use kurama.Api.{TrafficScenario}
use kurama.Config.{RateScheduleConfig, StoreConfig}
use kurama.Controller.Backends.{requires_redis, rate_limiter_backend}
use kurama.Controller.Conversion.{scenario_runner_config}
use kurama.RedisKey.{Scope, validate, new_scope}
use kurama.Runtime.{
  StoreSettings, LimiterComponent, RuntimeState, build_state, connect, new_runtime_state,
  needs_redis, normalized_store_backend,
}
use kurama.Controller.Resources.{default_runner_resources}
use kurama.Controller.Resources.Accepted.{ResourcesOk}
use kurama.Controller.Validation.{Checks, validate_scenario}
use kurama.Controller.Validation.Accepted.{Accepted, validate_scenario-Accepted}
use kurama.Runtime.{normalized_rate_limiter_backend}
use kurama.Scheduler.Starts.{validate-Startable}
use kurama.System.{runner_settings}
use kurama.System.Agreement.{
  normalized-store, normalized-limiter, settings-eq, runner_settings-agree,
}
use kurama.Validation.RateAccepts.{validate_rate_schedule_iff}
use kurama.System.Assembles.{build_state-ok}

known : (a b x : Bytes) → (x ≡ a) ⊎ (x ≡ b) → not (eqs x a || eqs x b) ≡ false
known a b x (inl e) = ground (arith, eqs_iff x a, e)
known a b x (inr e) = ground (arith, eqs_iff x b, e)

new_scope-ok :
    (namespace name uid : Bytes)
    → let scope : Scope = record { namespace = namespace; scenario = name; uid = uid } in
      validate scope ≡ ok tt → new_scope namespace name uid ≡ ok scope
unfolding new_scope
new_scope-ok namespace name uid h = rw h refl

-- The state of a runner that needs Redis, and of one that does not.
module _ (itoa : ℕ → Bytes) (settings : StoreSettings) (limiter : Bytes)
    (config : RateScheduleConfig) (configs : List StoreConfig) (state : RuntimeState)
    (s : let store = normalized_store_backend settings.backend in
      (store ≡ codes "memory") ⊎ (store ≡ codes "redis"))
    (l : (limiter ≡ codes "local") ⊎ (limiter ≡ codes "redis")) where
  connected_state :
      (scope : Scope)
      → needs_redis (normalized_store_backend settings.backend) limiter config ≡ true
      → eqs settings.redis_address [] ≡ false
      → new_scope settings.namespace settings.scenario settings.scenario_uid ≡ ok scope
      → build_state itoa true
          (normalized_store_backend settings.backend)
          true
          scope
          limiter
          config
          configs
        ≡ (ok state, [])
      → (new_runtime_state itoa true true settings limiter config configs).0 ≡ ok state
  unfolding new_runtime_state connect
  connected_state scope needed address found made =
      let store = normalized_store_backend settings.backend in
      rw
        (
          known (codes "memory") (codes "redis") store s,
          known (codes "local") (codes "redis") limiter l,
          needed,
          address,
          found,
          made,
        )
        refl

  alone_state :
      needs_redis (normalized_store_backend settings.backend) limiter config ≡ false
      → build_state itoa true
          (normalized_store_backend settings.backend)
          false
          (record { namespace = []; scenario = []; uid = [] })
          limiter
          config
          configs
        ≡ (ok state, [])
      → (new_runtime_state itoa true true settings limiter config configs).0 ≡ ok state
  unfolding new_runtime_state
  alone_state needed made =
      let store = normalized_store_backend settings.backend in
      rw
        (
          known (codes "memory") (codes "redis") store s,
          known (codes "local") (codes "redis") limiter l,
          needed,
          made,
        )
        refl

not_both : {b : Bool} → b ≡ true → b ≡ false → ⊥
not_both h k = cc

-- The scope of the Redis keys of a scenario.
abbrev pub scope_of : TrafficScenario → Scope
scope_of s = record { namespace = s.namespace; scenario = s.name; uid = s.uid }

-- A state that serves a scenario.
pub record Serves (s : TrafficScenario) (state : RuntimeState) : Type 0 where
  pub connected_eq : state.connected ≡ requires_redis s
  pub limiter : LimiterComponent
  pub limiter_eq : state.limiter ≡ some limiter

module _ (checks : Checks) (itoa : ℕ → Bytes) (s : TrafficScenario) (addr : Bytes)
    (a : Accepted checks s) (scoped : validate (scope_of s) ≡ ok tt)
    (addressed : requires_redis s ≡ true → eqs addr [] ≡ false) where
  started :
      (needed : Bool)
      → requires_redis s ≡ needed
      → let config = scenario_runner_config s in
        let settings = runner_settings s addr in
        (state : RuntimeState) × ((new_runtime_state itoa true true settings
            (rate_limiter_backend s)
            config.rate.schedule
            config.stores).0
          ≡ ok state)
        × Serves s state
  unfolding scenario_runner_config requires_redis
  started true needed =
      let config = scenario_runner_config s in
      let settings = runner_settings s addr in
      let k = validate-Startable checks.parse_request_uri config a.config_ok in
      let schedule = (validate_rate_schedule_iff config.rate.schedule).0 k.schedule_ok in
      let backend = normalized-store s addr in
      let agree = runner_settings-agree s addr in
      let (state, made, connected, (l, some_l)) =
        build_state-ok itoa s true (scope_of s) k.stores k.stores_ok schedule a.storage_known
          a.limiter_known (λ h. record { client = refl; scope_ok = scoped }) in
      (
        state,
        connected_state itoa settings (rate_limiter_backend s) config.rate.schedule config.stores
            state (rw backend a.storage_known) a.limiter_known (scope_of s) (rw backend needed)
            (rw (settings-eq s addr needed) (addressed needed))
            (rw (settings-eq s addr needed) (new_scope-ok s.namespace s.name s.uid scoped))
            (rw backend made),
        record { connected_eq = connected ∙ sym needed; limiter = l; limiter_eq = some_l },
      )
  started false needed =
      let config = scenario_runner_config s in
      let settings = runner_settings s addr in
      let k = validate-Startable checks.parse_request_uri config a.config_ok in
      let schedule = (validate_rate_schedule_iff config.rate.schedule).0 k.schedule_ok in
      let backend = normalized-store s addr in
      let nowhere : Scope = record { namespace = []; scenario = []; uid = [] } in
      let (state, made, connected, (l, some_l)) =
        build_state-ok itoa s false nowhere k.stores k.stores_ok schedule a.storage_known
          a.limiter_known (λ h. absurd (not_both h needed)) in
      (
        state,
        alone_state itoa settings (rate_limiter_backend s) config.rate.schedule config.stores state
            (rw backend a.storage_known) a.limiter_known (rw backend needed) (rw backend made),
        record { connected_eq = connected ∙ sym needed; limiter = l; limiter_eq = some_l },
      )

-- For a scenario that the controller accepts, the runner sets up its state from the environment and the
-- configuration that the controller writes: with a limiter, and with a Redis client exactly when the
-- scenario needs Redis. The controller knows the address of Redis if it is needed, Redis answers, the
-- names of the scenario can be parts of Redis keys, and the defaults of the controller fit its limits.
pub runner_comes_up :
    (checks : Checks) (itoa : ℕ → Bytes) (s : TrafficScenario) (addr : Bytes)
    → ResourcesOk checks.quantities default_runner_resources
    → validate_scenario checks s ≡ ok tt
    → validate (scope_of s) ≡ ok tt
    → (requires_redis s ≡ true → eqs addr [] ≡ false)
    → let config = scenario_runner_config s in
      let settings = runner_settings s addr in
      (state : RuntimeState) × ((new_runtime_state itoa true true settings
          (normalized_rate_limiter_backend config.rate.limiter settings.backend)
          config.rate.schedule
          config.stores).0
        ≡ ok state)
      × Serves s state
runner_comes_up checks itoa s addr d accepted scoped addressed =
    let config = scenario_runner_config s in
    let settings = runner_settings s addr in
    let a = validate_scenario-Accepted checks s d accepted in
    let (state, made, serves) =
      started checks itoa s addr a scoped addressed (requires_redis s) refl in
    (
      state,
      subst
          (λ b.
            (new_runtime_state itoa true true settings b config.rate.schedule config.stores).0
            ≡ ok state)
          (sym (normalized-limiter s settings.backend)) made,
      serves,
    )

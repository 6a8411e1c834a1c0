-- ===== src/System/Assembles.antt =====
-- The state of a runner is put together from an accepted configuration.
use kurama.Base.{
  Bytes, codes, eqs_iff, eqs, ℕ, ◌≡◌, refl, ◌⊎◌, inl, inr, Bool, true, some, [], arith,
}
use kurama.Base.Result.{ok}
use kurama.Api.{TrafficScenario}
use kurama.Controller.Backends.{requires_redis, storage_backend, rate_limiter_backend}
use kurama.Controller.Conversion.{scenario_runner_config}
use kurama.RedisKey.{Scope}
use kurama.Runtime.{
  LimiterComponent, RuntimeState, build_state, with_components, start_maintenance, maintain,
}
use kurama.Store.{ValidatedStoreConfigs, validate_store_configs}
use kurama.Validation.RateAccepts.{FixedOk, UniformOk}
use kurama.System.Components.{Connected, choose_store-ok, choose_limiter-ok, choose_schedule-ok}

-- What a scenario needs of a client and a scope is there.
abbrev pub Served : TrafficScenario → Bool → Scope → Type 0
Served s connected scope = (requires_redis s ≡ true → Connected connected scope)

with_right : {A B C : Type 0} → A ⊎ B → (B → C) → A ⊎ (B × C)
with_right (inl a) f = inl a
with_right (inr b) f = inr (b, f b)

requires_redis-storage :
    (s : TrafficScenario) → storage_backend s ≡ codes "redis" → requires_redis s ≡ true
unfolding requires_redis eqs
requires_redis-storage s h = rw h refl

requires_redis-limiter :
    (s : TrafficScenario) → rate_limiter_backend s ≡ codes "redis" → requires_redis s ≡ true
unfolding requires_redis
requires_redis-limiter s h = ground (arith, eqs_iff (rate_limiter_backend s) (codes "redis"), h)

requires_redis-schedule :
    (s : TrafficScenario)
    → UniformOk (scenario_runner_config s).rate.schedule
    → requires_redis s ≡ true
unfolding requires_redis scenario_runner_config
requires_redis-schedule s u =
    ground (arith, eqs_iff s.spec.rate.schedule.type (codes "uniform"), u.is_uniform)

pub build_state-ok :
    (itoa : ℕ → Bytes) (s : TrafficScenario) (connected : Bool) (scope : Scope)
    (v : ValidatedStoreConfigs)
    → let config = scenario_runner_config s in
      validate_store_configs config.stores ≡ ok v
      → FixedOk config.rate.schedule ⊎ UniformOk config.rate.schedule
      → (storage_backend s ≡ codes "memory") ⊎ (storage_backend s ≡ codes "redis")
      → (rate_limiter_backend s ≡ codes "local") ⊎ (rate_limiter_backend s ≡ codes "redis")
      → Served s connected scope
      → (state : RuntimeState) × (build_state itoa true
            (storage_backend s)
            connected
            scope
            (rate_limiter_backend s)
            config.rate.schedule
            config.stores
          ≡ (ok state, []))
        × (state.connected ≡ connected)
        × ((l : LimiterComponent) × (state.limiter ≡ some l))
unfolding build_state with_components start_maintenance maintain
build_state-ok itoa s connected scope v stores schedule storage limiter served =
    let config = scenario_runner_config s in
    let (store, e1) =
      choose_store-ok (storage_backend s) connected scope config.stores v stores
        (with_right storage (λ e. served (requires_redis-storage s e))) in
    let (l, e2) =
      choose_limiter-ok (rate_limiter_backend s) connected scope
        (with_right limiter (λ e. served (requires_redis-limiter s e))) in
    let (p, e3) =
      choose_schedule-ok itoa config.rate.schedule connected scope
        (with_right schedule (λ u. served (requires_redis-schedule s u))) in
    (
      record {
        store = store.0;
        limiter = some l;
        schedule = p;
        connected = connected;
        maintained = store.1;
      },
      rw (e1, build_state, e2, with_components, e3) (ground arith),
      refl,
      (l, refl),
    )

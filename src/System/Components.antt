-- ===== src/System/Components.antt =====
-- Each component of a runner can be made from an accepted configuration.
use kurama.Base.{
  ltb, ◌==◌, ℤ, pos, negsuc, ltz, to_ℕ, InRange, Bytes, codes, eqs, ℕ, ◌+◌, ◌-◌, ◌*◌, ◌%◌, ◌^◌, ◌≤◌,
  ◌≡◌, refl, ◌⊎◌, inl, inr, Bool, true, false, ◌||◌, not, some, List, [], arith,
}
use kurama.Base.Result.{Result, ok, err, Result-cases}
use kurama.Config.{RateScheduleConfig, StoreConfig}
use kurama.RateSchedule.{new_fixed}
use kurama.RateSchedule.RedisUniform.{RedisUniform, RedisUniformConfig, new_redis_uniform}
use kurama.RedisKey.{Scope, validate, store_prefix, rate_limit_key}
use kurama.Runtime.{
  minutes, memory, redis, local, shared, fixed, uniform, StoreComponent, LimiterComponent,
  ScheduleComponent, choose_store, choose_limiter, choose_schedule, new_redis_rate_limiter,
}
use kurama.Store.{ValidatedStoreConfigs, validate_store_configs}
use kurama.RateLimit.Local.{new_local_limiter}
use kurama.Store.Memory.{new_memory_store, empty_pools}
use kurama.Store.Redis.{new_redis_store}
use kurama.Validation.RateAccepts.{FixedOk, UniformOk}

-- A client is there, with a scope that Redis keys can be made of.
pub record Connected (connected : Bool) (scope : Scope) : Type 0 where
  pub client : connected ≡ true
  pub scope_ok : validate scope ≡ ok tt

pub choose_store-ok :
    (backend : Bytes) (connected : Bool) (scope : Scope) (configs : List StoreConfig)
    (v : ValidatedStoreConfigs)
    → validate_store_configs configs ≡ ok v
    → (backend ≡ codes "memory") ⊎ ((backend ≡ codes "redis") × Connected connected scope)
    → (st : StoreComponent × Bool) × (choose_store backend connected scope configs ≡ ok st)
unfolding choose_store new_memory_store new_redis_store eqs
choose_store-ok backend connected scope configs v h (inl m) =
    ((memory (record { stores = empty_pools v.capacities }), false), rw (m, h) refl)
choose_store-ok backend connected scope configs v h (inr (m, k)) = (
  (redis (record { key_prefix = store_prefix scope; limits = v.capacities }), true),
  rw (m, k.client, k.scope_ok, h) refl,
)

pub choose_limiter-ok :
    (backend : Bytes) (connected : Bool) (scope : Scope)
    → (backend ≡ codes "local") ⊎ ((backend ≡ codes "redis") × Connected connected scope)
    → (l : LimiterComponent) × (choose_limiter backend connected scope ≡ (ok (some l), []))
unfolding choose_limiter new_redis_rate_limiter eqs
choose_limiter-ok backend connected scope (inl m) = (local new_local_limiter, rw m refl)
choose_limiter-ok backend connected scope (inr (m, k)) =
    (shared (rate_limit_key scope), rw (m, k.client, k.scope_ok) refl)

whole_minutes :
    (w : ℕ)
    → 1 ≤ w
    → (ltb (w * 60_000_000_000) 60_000_000_000 || not (w * 60_000_000_000 % 60_000_000_000 == 0))
      ≡ false
whole_minutes w h = ground arith

impossible {ℓ κ} :
    {E : Type ℓ} {A : Type κ} {x : A} {e : E} → ◌≡◌ {A = Result E A} (ok x) (err e) → ⊥
impossible h = cc

new_redis_uniform-ok :
    (itoa : ℕ → Bytes) (scope : Scope) (mn mx w : ℕ)
    → validate scope ≡ ok tt
    → 1 ≤ mn
    → mn ≤ mx
    → mx ≤ 6_000
    → 1 ≤ w
    → (u : RedisUniform) × (new_redis_uniform itoa true scope (record {
      min_requests_per_minute = pos mn;
      max_requests_per_minute = pos mx;
      window = pos (w * 60_000_000_000);
    })
        ≡ ok u)
unfolding new_redis_uniform
new_redis_uniform-ok itoa scope mn mx w valid h1 h2 h3 h4 =
    let low : ltz (pos mn) (pos 1) ≡ false = ground arith in
    let ordered : ltz (pos mx) (pos mn) ≡ false = ground arith in
    let small : ltb (2 ^ 63 - 1) (mx - mn + 1) ≡ false = ground arith in
    let config : RedisUniformConfig = record {
      min_requests_per_minute = pos mn;
      max_requests_per_minute = pos mx;
      window = pos (w * 60_000_000_000);
    } in
    elim (Result-cases (new_redis_uniform itoa true scope config)) [
      | inl found ↦ found
      | inr (e, refused) ↦
          absurd (impossible (rw (valid, low, ordered, whole_minutes w h4, small) at refused))
    ]

uniform_window-ok :
    (itoa : ℕ → Bytes) (scope : Scope) (mn mx w : ℤ)
    → validate scope ≡ ok tt
    → InRange 1 6_000 mn
    → InRange (to_ℕ mn) 6_000 mx
    → InRange 1 1_440 w
    → (u : RedisUniform) × (new_redis_uniform itoa true scope (record {
      min_requests_per_minute = mn;
      max_requests_per_minute = mx;
      window = minutes w;
    })
        ≡ ok u)
uniform_window-ok itoa scope (pos mn) (pos mx) (pos w) valid h k m =
    new_redis_uniform-ok itoa scope mn mx w valid h.0 k.0 k.1 m.0
uniform_window-ok itoa scope (negsuc n) mx w valid h k m = absurd h
uniform_window-ok itoa scope (pos mn) (negsuc n) w valid h k m = absurd k
uniform_window-ok itoa scope (pos mn) (pos mx) (negsuc n) valid h k m = absurd m

pub choose_schedule-ok :
    (itoa : ℕ → Bytes) (config : RateScheduleConfig) (connected : Bool) (scope : Scope)
    → FixedOk config ⊎ (UniformOk config × Connected connected scope)
    → (p : ScheduleComponent) × (choose_schedule itoa config connected scope ≡ (ok p, []))
unfolding choose_schedule eqs
choose_schedule-ok itoa config connected scope (inl f) =
    (fixed (new_fixed config.requests_per_minute), rw f.is_fixed refl)
choose_schedule-ok itoa config connected scope (inr (u, k)) =
    let (r, made) =
      uniform_window-ok itoa scope config.min_requests_per_minute config.max_requests_per_minute
        config.window_minutes k.scope_ok u.min_range u.max_range u.window_range in
    (uniform r, rw (u.is_uniform, k.client, made) refl)

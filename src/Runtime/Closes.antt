-- ===== src/Runtime/Closes.antt =====
-- The Redis client is closed exactly when no state holds it.
use kurama.Base.{
  if◌then◌else◌, Bytes, codes, eqs, ℕ, ◌≡◌, refl, ap, ◌⊎◌, inl, inr, Bool, true, false, ◌||◌, not,
  List, [], ◌∷◌, ◌++◌,
}
use kurama.Base.Result.{ok, err, Result-cases}
use kurama.RateSchedule.RedisUniform.{RedisUniformConfig, new_redis_uniform}
use kurama.Config.{RateScheduleConfig, StoreConfig}
use kurama.RedisKey.{Scope, new_scope}
use kurama.Runtime.{
  unsupported_store, unsupported_limiter, StoreSettings, RuntimeState, opened, closed, Outcome,
  normalized_store_backend, Traced, then_run, close_state, StoreComponent, minutes,
  new_redis_rate_limiter, start_maintenance, build_state, needs_redis, connect, new_runtime_state,
  choose_limiter, choose_schedule, choose_store, with_components, maintain,
}

-- A failure leaves no client open, and a success one exactly when it is needed.
abbrev pub Tidy : Bool → Outcome → Type 0
Tidy needed (err e, events) = (events ≡ []) ⊎ (events ≡ opened ∷ (closed ∷ []))
Tidy needed (ok state, events) =
    (events ≡ (if needed then opened ∷ [] else [])) × (state.connected ≡ needed)

-- A step of the construction closes the client exactly when it fails; a result has the property.
abbrev Closes {ℓ} : {A : Type ℓ} → (A → Type 0) → Bool → Traced A → Type 0
Closes P connected (err e, events) = events ≡ close_state connected
Closes P connected (ok a, events) = (events ≡ []) × P a

abbrev Anything {ℓ} : {A : Type ℓ} → A → Type 0
Anything a = Unit {0}

Closes-then_run {ℓ κ} :
    {A : Type ℓ} {B : Type κ} (P : A → Type 0) (Q : B → Type 0) (connected : Bool) (m : Traced A)
    (next : A → Traced B)
    → Closes P connected m
    → ((a : A) → P a → Closes Q connected (next a))
    → Closes Q connected (then_run m next)
Closes-then_run P Q connected (err e, events) next h k = h
Closes-then_run P Q connected (ok a, events) next h k = rw h.0 (k a h.1)

Closes-if {ℓ} :
    {A : Type ℓ} (P : A → Type 0) (connected b : Bool) (x y : Traced A)
    → Closes P connected x
    → Closes P connected y
    → Closes P connected (if b then x else y)
Closes-if P connected true x y h k = h
Closes-if P connected false x y h k = k

-- What a step gives when the client was opened before it, or not.
Closes-Tidy :
    (connected : Bool) (out : Outcome)
    → Closes (λ state. state.connected ≡ connected) connected out
    → Tidy connected (out.0, (if connected then opened ∷ [] else []) ++ out.1)
Closes-Tidy true (ok state, events) h = rw h.0 (refl, h.1)
Closes-Tidy false (ok state, events) h = (h.0, h.1)
Closes-Tidy true (err e, events) h = rw h (inr refl)
Closes-Tidy false (err e, events) h = inl h

choose_limiter-Closes :
    (backend : Bytes) (connected : Bool) (scope : Scope)
    → Closes Anything connected (choose_limiter backend connected scope)
unfolding choose_limiter
choose_limiter-Closes backend connected scope =
    Closes-if Anything connected (eqs backend (codes "local")) _ _ (refl, tt)
      (Closes-if Anything connected (eqs backend (codes "redis")) _ _
        (elim (Result-cases (new_redis_rate_limiter connected scope)) [
          | inr (e, bad) ↦ rw bad refl
          | inl (key, made) ↦ rw made (refl, tt)
        ])
        (refl, tt))

choose_schedule-Closes :
    (itoa : ℕ → Bytes) (config : RateScheduleConfig) (connected : Bool) (scope : Scope)
    → Closes Anything connected (choose_schedule itoa config connected scope)
unfolding choose_schedule
choose_schedule-Closes itoa config connected scope =
    let window : RedisUniformConfig = record {
      min_requests_per_minute = config.min_requests_per_minute;
      max_requests_per_minute = config.max_requests_per_minute;
      window = minutes config.window_minutes;
    } in
    Closes-if Anything connected (eqs config.type (codes "fixed")) _ _ (refl, tt)
      (Closes-if Anything connected (eqs config.type (codes "uniform")) _ _
        (elim (Result-cases (new_redis_uniform itoa connected scope window)) [
          | inr (e, bad) ↦ rw bad refl
          | inl (u, made) ↦ rw made (refl, tt)
        ])
        refl)

Tidy-if :
    (needed b : Bool) (x y : Outcome)
    → (b ≡ true → Tidy needed x)
    → (b ≡ false → Tidy needed y)
    → Tidy needed (if b then x else y)
Tidy-if needed true x y h k = h refl
Tidy-if needed false x y h k = k refl

Tidy-needed :
    (needed : Bool) (x y : Outcome)
    → Tidy true x
    → Tidy false y
    → Tidy needed (if needed then x else y)
Tidy-needed true x y h k = h
Tidy-needed false x y h k = k

module _ (itoa : ℕ → Bytes) (retained : Bool) (store_backend limiter_backend : Bytes)
    (config : RateScheduleConfig) (configs : List StoreConfig) where
  with_components-Closes :
      (store : StoreComponent) (connected : Bool) (scope : Scope)
      → Closes
          (λ state. state.connected ≡ connected)
          connected
          (with_components itoa store connected scope limiter_backend config)
  unfolding with_components
  with_components-Closes store connected scope =
      Closes-then_run Anything (λ state. state.connected ≡ connected) connected
        (choose_limiter limiter_backend connected scope) _
        (choose_limiter-Closes limiter_backend connected scope)
        (λ limiter _.
          Closes-then_run Anything (λ state. state.connected ≡ connected) connected
            (choose_schedule itoa config connected scope) _
            (choose_schedule-Closes itoa config connected scope) (λ schedule _. (refl, refl)))

  start_maintenance-Closes :
      (maintained connected : Bool) (built : RuntimeState)
      → built.connected ≡ connected
      → Closes
          (λ state. state.connected ≡ connected)
          connected
          (start_maintenance retained maintained built)
  unfolding start_maintenance
  start_maintenance-Closes maintained connected built h =
      elim (Result-cases (maintain retained (record built { maintained = maintained }))) [
        | inr (e, bad) ↦ rw (bad, start_maintenance) (ap close_state h)
        | inl (u, kept) ↦ rw (kept, start_maintenance) (refl, h)
      ]

  build_state-Tidy :
      (connected : Bool) (scope : Scope)
      → let out =
          build_state itoa retained store_backend connected scope limiter_backend config configs in
        Tidy connected (out.0, (if connected then opened ∷ [] else []) ++ out.1)
  unfolding build_state
  build_state-Tidy connected scope =
      Closes-Tidy connected
        (build_state itoa retained store_backend connected scope limiter_backend config configs)
        (elim (Result-cases (choose_store store_backend connected scope configs)) [
          | inr (e, bad) ↦ rw (bad, build_state) refl
          | inl (store, made) ↦
              rw (made, build_state)
                (Closes-then_run (λ state. state.connected ≡ connected)
                  (λ state. state.connected ≡ connected) connected
                  (with_components itoa store.0 connected scope limiter_backend config)
                  (start_maintenance retained store.1)
                  (with_components-Closes store.0 connected scope)
                  (start_maintenance-Closes store.1 connected))
        ])

  connect-Tidy :
      (pinged : Bool) (settings : StoreSettings)
      → Tidy true
          (connect itoa pinged retained settings store_backend limiter_backend config configs)
  unfolding connect
  connect-Tidy pinged settings =
      Tidy-if true (eqs settings.redis_address []) _ _ (λ h. inl refl)
        (λ h.
          elim (Result-cases
            (new_scope settings.namespace settings.scenario settings.scenario_uid)) [
              | inr (e, bad) ↦ rw (bad, connect) (inl refl)
              | inl (scope, good) ↦
                  rw (good, connect)
                    (Tidy-if true (not pinged) _ _ (λ h. inr refl)
                      (λ h. build_state-Tidy true scope))
            ])

-- Where the runner fails to set up its state, it leaves no Redis client open: it has opened none, or
-- closed the one it opened. Where it succeeds, exactly one client is open if the store, the limiter
-- or the schedule needs Redis, and none was opened if not.
pub new_runtime_state-Tidy :
    (itoa : ℕ → Bytes) (pinged retained : Bool) (settings : StoreSettings) (limiter_backend : Bytes)
    (config : RateScheduleConfig) (configs : List StoreConfig)
    → Tidy
        (needs_redis (normalized_store_backend settings.backend) limiter_backend config)
        (new_runtime_state itoa pinged retained settings limiter_backend config configs)
unfolding new_runtime_state
new_runtime_state-Tidy itoa pinged retained settings limiter_backend config configs =
    let backend = normalized_store_backend settings.backend in
    let needed = needs_redis backend limiter_backend config in
    let nowhere : Scope = record { namespace = []; scenario = []; uid = [] } in
    let connected = connect itoa pinged retained settings backend limiter_backend config configs in
    let alone = build_state itoa retained backend false nowhere limiter_backend config configs in
    let chosen = if needed then connected else alone in
    let no_limiter : Outcome = (err (unsupported_limiter limiter_backend), []) in
    let unknown_limiter =
      not (eqs limiter_backend (codes "local") || eqs limiter_backend (codes "redis")) in
    Tidy-if needed (not (eqs backend (codes "memory") || eqs backend (codes "redis")))
      (err (unsupported_store settings.backend), [])
      (if unknown_limiter then no_limiter else chosen) (λ h. inl refl)
      (λ h.
        Tidy-if needed unknown_limiter no_limiter chosen (λ k. inl refl)
          (λ k.
            Tidy-needed needed connected alone
              (connect-Tidy itoa retained backend limiter_backend config configs pinged settings)
              (build_state-Tidy itoa retained backend limiter_backend config configs false
                nowhere)))

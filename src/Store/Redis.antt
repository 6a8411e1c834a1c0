-- ===== src/Store/Redis.antt =====
-- internal/runner/redis_store.go: pools in Redis lists, shared by the replicas of a scenario.
pub mod Shared
pub mod Retention
use kurama.Base.{
  ◌==◌, if◌then◌else◌, length, get_elem?, drop, Bytes, eqs, has_prefix, has_byte, ℕ, Bool, ◌||◌,
  not, Option, none, some, List, [], ◌∷◌, ◌++◌,
}
use kurama.Base.Result.{Result, ok, err, ◌>>=◌, ◌>>◌, fail_if, wrap_err}
use kurama.Base.Context.{Context, check_context}
use kurama.Base.Assoc.{lookup}
use kurama.Base.RedisKeys.{RedisLists}
use kurama.Config.{StoreConfig}
use kurama.Names.{matches_name}
use kurama.RateLimit.{RedisError}
use kurama.RedisKey.{Scope, ScopeError, validate, store_prefix, separator}
use kurama.Store.{
  ValueStore, StoreError, store_context, empty_store_value, store_not_found, store_redis,
  StoreConfigError, validate_store_configs,
}

-- Seven days in milliseconds.
abbrev pub removed_store_ttl : ℕ
removed_store_ttl = 604_800_000

pub record RedisStore : Type 0 where
  pub key_prefix : Bytes
  pub limits : List (Bytes × ℕ)

pub data RedisStoreError : Type 0 where
  nil_client : RedisStoreError
  store_scope : ScopeError → RedisStoreError
  store_configs : StoreConfigError → RedisStoreError

-- `NewRedisStore`; `connected` says that the client is not nil.
unfoldable pub new_redis_store : Bool → Scope → List StoreConfig → Result RedisStoreError RedisStore
new_redis_store connected scope configs = do
  fail_if (not connected) nil_client
  wrap_err store_scope (validate scope)
  validated ← wrap_err store_configs (validate_store_configs configs)
  ok (record { key_prefix = store_prefix scope; limits = validated.capacities })

-- `RedisStore.key`
abbrev pub key : RedisStore → Bytes → Bytes
key r store = r.key_prefix ++ (separator ∷ store)

-- `strings.TrimPrefix(key, p)`
unfoldable pub trim_prefix : Bytes → Bytes → Bytes
trim_prefix p k = if has_prefix p k then drop (length p) k else k

-- A command that Redis does not answer returns an error; a transaction then has no effect.
module _ (R : RedisLists) where
  open R use {State, items, rpush, ltrim_last, persist, expire_nx}

  run_put :
      Bytes
      → Bytes
      → Option ℕ
      → RedisStore
      → Option RedisError
      → State
      → Result StoreError (Unit {0}) × State
  run_put store value none r outage s = (err (store_not_found store), s)
  run_put store value (some limit) r (some e) s = (err (store_redis e), s)
  run_put store value (some limit) r none s =
      (ok tt, ltrim_last (key r store) limit (rpush (key r store) value s))

  -- `RedisStore.Put`
  unfoldable pub put :
      RedisStore
      → Option RedisError
      → Context
      → Bytes
      → Bytes
      → State
      → Result StoreError (Unit {0}) × State
  unfolding run_put
  put r outage ctx store value s =
      elim (do check_context ctx store_context; fail_if (eqs value []) empty_store_value) [
        | err e ↦ (err e, s)
        | ok _ ↦ run_put store value (lookup store r.limits) r outage s
      ]

  -- LLEN and then LINDEX, each of which may fail; LINDEX finds nothing if the list has shrunk.
  run_random :
      Bytes
      → Option ℕ
      → RedisStore
      → Option RedisError
      → Option RedisError
      → ℕ
      → State
      → State
      → Result StoreError (Option Bytes)
  run_random store none r e₁ e₂ draw s s' = err (store_not_found store)
  run_random store (some limit) r (some e) e₂ draw s s' = err (store_redis e)
  run_random store (some limit) r none e₂ draw s s' =
      if length (items (key r store) s) == 0 then ok none else elim e₂ [
        | none ↦ ok (get_elem? (items (key r store) s') draw)
        | some e ↦ err (store_redis e)
      ]

  -- `RedisStore.Random`: `s` is what LLEN sees and `s'` what LINDEX sees, since other replicas write
  -- between the two; `draw` is what `rand.Int64N(length)` returns.
  unfoldable pub random :
      RedisStore
      → Option RedisError
      → Option RedisError
      → ℕ
      → Context
      → Bytes
      → State
      → State
      → Result StoreError (Option Bytes)
  unfolding run_random
  random r e₁ e₂ draw ctx store s s' = elim (check_context ctx store_context) [
    | err e ↦ err e
    | ok _ ↦ run_random store (lookup store r.limits) r e₁ e₂ draw s s'
  ]

  -- The interface, with no other replica between LLEN and LINDEX.
  abbrev pub redis_store : RedisStore → ℕ → ValueStore State
  redis_store r draw = record {
    random = λ ctx store s. (random r none none draw ctx store s s, s);
    put = put r none;
  }

  -- The filter of `ReconcileKeys`: names with a colon, and what is no store name, are left alone.
  unfoldable pub reconciled_keys : RedisStore → List Bytes → List Bytes
  reconciled_keys r [] = []
  reconciled_keys r (k ∷ ks) =
      let store = trim_prefix (r.key_prefix ++ (separator ∷ [])) k in
      let rest = reconciled_keys r ks in
      if has_byte separator store || not (matches_name store) then rest else k ∷ rest

  -- The pipeline: a declared store loses its deadline, another one gets one unless it has one.
  unfoldable pub reconcile_pipeline : RedisStore → List Bytes → State → State
  reconcile_pipeline r [] s = s
  reconcile_pipeline r (k ∷ ks) s =
      let store = trim_prefix (r.key_prefix ++ (separator ∷ [])) k in
      reconcile_pipeline r ks (elim (lookup store r.limits) [
        | some limit ↦ persist k s
        | none ↦ expire_nx k removed_store_ttl s
      ])

  -- `ReconcileKeys`, on the keys that SCAN returns for the pattern `prefix:*`.
  unfoldable pub reconcile_keys :
      RedisStore
      → Option RedisError
      → Option RedisError
      → Context
      → List Bytes
      → State
      → Result StoreError (Unit {0}) × State
  unfolding reconciled_keys reconcile_pipeline
  reconcile_keys r scan_error exec_error ctx scanned s =
      let ks = reconciled_keys r scanned in
      elim (check_context ctx store_context) [
        | err e ↦ (err e, s)
        | ok _ ↦ elim scan_error [
          | some e ↦ (err (store_redis e), s)
          | none ↦ if length ks == 0 then (ok tt, s) else elim exec_error [
            | some e ↦ (err (store_redis e), s)
            | none ↦ (ok tt, reconcile_pipeline r ks s)
          ]
        ]
      ]

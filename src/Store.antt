-- ===== src/Store.antt =====
-- internal/runner/store.go and store_validation.go: the declared value stores and the interface
-- through which the executor reads and writes them. The implementations are in the modules below.
pub mod Declared
pub mod Pool
pub mod Memory
pub mod Redis
pub mod Instrumented
pub mod Latest
mod Tests
use kurama.Base.{ltb, length, to_ℕ, outside, Bytes, elem, ℕ, ◌+◌, Option, List, [], ◌∷◌}
use kurama.Base.Result.{Result, ok, ◌>>=◌, ◌>>◌, fail_if, wrap_err}
use kurama.Base.Context.{Context, ContextError}
use kurama.Base.Assoc.{insert}
use kurama.Config.{StoreConfig, max_stores, max_store_capacity}
use kurama.Names.{NameError, validate_name}
use kurama.RateLimit.{RedisError}

pub data StoreConfigError : Type 0 where
  too_many_stores : StoreConfigError
  bad_store_name : ℕ → NameError → StoreConfigError
  duplicate_store : ℕ → Bytes → StoreConfigError
  bad_capacity : ℕ → StoreConfigError

pub record ValidatedStoreConfigs : Type 0 where
  pub names : List Bytes
  pub capacities : List (Bytes × ℕ)

-- The loop of `validateStoreConfigs`, from index `i` on.
pub validate_each :
    ℕ → List StoreConfig → ValidatedStoreConfigs → Result StoreConfigError ValidatedStoreConfigs
validate_each i [] validated = ok validated
validate_each i (c ∷ cs) validated =
    let rest = validate_each (i + 1) cs (record {
      names = c.name ∷ validated.names;
      capacities = insert c.name (to_ℕ c.capacity) validated.capacities;
    }) in
    do
      wrap_err (bad_store_name i) (validate_name c.name)
      fail_if (elem c.name validated.names) (duplicate_store i c.name)
      fail_if (outside 1 max_store_capacity c.capacity) (bad_capacity i)
      rest

unfoldable pub validate_store_configs :
    List StoreConfig → Result StoreConfigError ValidatedStoreConfigs
unfolding validate_each
validate_store_configs configs = do
  fail_if (ltb max_stores (length configs)) too_many_stores
  validate_each 0 configs (record { names = []; capacities = [] })

pub data StoreError : Type 0 where
  store_context : ContextError → StoreError
  empty_store_value : StoreError
  store_not_found : Bytes → StoreError
  store_redis : RedisError → StoreError

-- The interface `ValueStore`, over the state that an implementation changes. `Random` returns a
-- value, or nothing where the Go method returns `ok == false`.
pub record ValueStore {ℓ} (S : Type ℓ) : Type ℓ where
  pub random : Context → Bytes → S → Result StoreError (Option Bytes) × S
  pub put : Context → Bytes → Bytes → S → Result StoreError (Unit {0}) × S

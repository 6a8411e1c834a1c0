-- ===== src/Store/Tests.antt =====
-- Runs of the stores, and the theorems at concrete inputs.
use kurama.Base.{
  last, if◌then◌else◌, length, pos, Bytes, codes, eqs, has_prefix, has_byte, elem, ◌≤◌, ◌≡◌, refl,
  ◌↔◌, ◌&&◌, none, some, List, [], ◌∷◌, ◌++◌, arith,
}
use kurama.Base.Result.{ok, err}
use kurama.Base.Context.{live_context, cancelled_context, canceled}
use kurama.Base.Assoc.{lookup, insert}
use kurama.Base.RedisKeys.{plain_lists, Entry, filled}
use kurama.Config.{StoreConfig, max_stores}
use kurama.Names.{matches_name, validate_name}
use kurama.Store.{
  ValidatedStoreConfigs, duplicate_store, validate_store_configs, store_not_found, store_context,
  empty_store_value,
}
use kurama.Store.Declared.{AllDeclared, validate_store_configs_iff}
use kurama.Store.Pool.{put_all, values_for}
use kurama.Store.Latest.{memory_keeps_latest, redis_keeps_latest}
use kurama.Store.Memory
use kurama.Store.Memory.{MemoryPool, MemoryStore, new_memory_store, put_value, memory_store}
use kurama.Store.Memory.Ring.{PoolOk, IsGood, memory_pools}
use kurama.Store.Redis.{RedisStore, reconcile_pipeline, trim_prefix, reconcile_keys}
use kurama.Store.Redis.Shared.{redis_pools}
use kurama.Store.Redis.Retention.{settled, store_of, names_store, reconcile_keys_lem}

abbrev urls : StoreConfig
urls = record { name = codes "urls"; capacity = pos 2 }

abbrev ids : StoreConfig
ids = record { name = codes "ids"; capacity = pos 3 }

abbrev both : ValidatedStoreConfigs
both = record {
  names = codes "ids" ∷ codes "urls" ∷ [];
  capacities = (codes "urls", 2) ∷ (codes "ids", 3) ∷ [];
}

both_accepted : validate_store_configs (urls ∷ ids ∷ []) ≡ ok both
unfolding validate_store_configs validate_name matches_name insert eqs elem
both_accepted = refl

duplicate_rejected :
    validate_store_configs (urls ∷ urls ∷ []) ≡ err (duplicate_store 1 (codes "urls"))
unfolding validate_store_configs validate_name matches_name insert eqs elem
duplicate_rejected = refl

both-AllDeclared : AllDeclared [] (urls ∷ ids ∷ [])
both-AllDeclared = ((validate_store_configs_iff (urls ∷ ids ∷ [])).0 (both, both_accepted)).1

validate_store_configs_iff_example :
    ((w : ValidatedStoreConfigs) × (validate_store_configs (urls ∷ ids ∷ []) ≡ ok w))
    ↔ ((length (urls ∷ ids ∷ []) ≤ max_stores) × AllDeclared [] (urls ∷ ids ∷ []))
validate_store_configs_iff_example = validate_store_configs_iff (urls ∷ ids ∷ [])

-- A pool of two that is full, its oldest value second.
abbrev full_pool : MemoryPool
full_pool = record { values = codes "c" ∷ codes "b" ∷ []; next = 1; limit = 2 }

abbrev one_store : MemoryStore
one_store = record { stores = (codes "urls", full_pool) ∷ [] }

full_pool-PoolOk : PoolOk full_pool
full_pool-PoolOk = omega arith

one_store-IsGood : IsGood one_store
unfolding lookup
one_store-IsGood k p e = ground (arith, e, full_pool-PoolOk)

oldest_is_replaced : (Memory.put live_context (codes "urls") (codes "d") one_store).1 ≡ record {
  stores = (codes "urls", record { values = codes "c" ∷ codes "d" ∷ []; next = 0; limit = 2 }) ∷ [];
}
unfolding Memory.put put_value lookup insert eqs
oldest_is_replaced = refl

missing_store :
    (Memory.put live_context (codes "ids") (codes "d") one_store).0
    ≡ err (store_not_found (codes "ids"))
unfolding Memory.put lookup eqs
missing_store = refl

empty_value : (Memory.put live_context (codes "urls") [] one_store).0 ≡ err empty_store_value
unfolding Memory.put eqs
empty_value = refl

cancelled_random :
    (Memory.random 0 cancelled_context (codes "urls") one_store).0 ≡ err (store_context canceled)
unfolding Memory.random
cancelled_random = refl

abbrev three_puts : List (Bytes × Bytes)
three_puts = (codes "urls", codes "d") ∷ (codes "urls", codes "e") ∷ []

memory_keeps_latest_example :
    (memory_pools 0).contents (codes "urls") (put_all (memory_pools 0) three_puts one_store)
    ≡ last 2 (
        (memory_pools 0).contents (codes "urls") one_store
        ++ values_for (memory_pools 0) (codes "urls") three_puts)
unfolding lookup eqs
memory_keeps_latest_example =
    memory_keeps_latest 0 three_puts one_store (codes "urls") 2 one_store-IsGood refl (omega arith)
      ((((2, refl), λ e. cc), (((2, refl), λ e. cc), tt)))

abbrev redis_urls : RedisStore
redis_urls = record { key_prefix = codes "p"; limits = (codes "urls", 2) ∷ [] }

abbrev no_keys : Bytes → Entry
no_keys k = record { elements = []; deadline = none }

redis_keeps_latest_example :
    (redis_pools plain_lists redis_urls 0).contents
      (codes "urls")
      (put_all (redis_pools plain_lists redis_urls 0) three_puts no_keys)
    ≡ last 2 (values_for (redis_pools plain_lists redis_urls 0) (codes "urls") three_puts)
unfolding lookup eqs
redis_keeps_latest_example =
    redis_keeps_latest plain_lists redis_urls 0 three_puts no_keys (codes "urls") 2
      (λ k limit e. ground (arith, e)) refl (omega arith)
      ((((2, refl), λ e. cc), (((2, refl), λ e. cc), tt)))

-- A list of a store that is no longer declared.
abbrev old_keys : Bytes → Entry
old_keys k =
    if eqs k (codes "p:old")
    then record { elements = codes "a" ∷ []; deadline = none }
    else no_keys k

-- The deadline of a removed store.
removed_store :
    ((reconcile_keys plain_lists redis_urls none none live_context
        (codes "p:old" ∷ codes "p:urls" ∷ [])
        old_keys).1
      (codes "p:old")).deadline
    ≡ some 604_800_000
unfolding reconcile_keys reconcile_pipeline trim_prefix matches_name has_prefix lookup eqs has_byte
removed_store = refl

-- A key that has gone since the scan gets none.
gone_store :
    ((reconcile_keys plain_lists redis_urls none none live_context (codes "p:gone" ∷ []) old_keys).1
      (codes "p:gone")).deadline
    ≡ none
unfolding reconcile_keys reconcile_pipeline trim_prefix matches_name has_prefix lookup eqs has_byte
gone_store = refl

reconcile_keys_example :
    let q =
      reconcile_keys plain_lists redis_urls none none live_context (codes "p:old" ∷ []) old_keys in
    (q.0 ≡ ok tt)
    × ((j : Bytes) → (q.1 j).elements ≡ (old_keys j).elements)
    × ((j : Bytes)
        → (q.1 j).deadline ≡ (
            if elem j (codes "p:old" ∷ []) && names_store redis_urls j
            then settled
                (lookup (store_of redis_urls j) redis_urls.limits)
                (filled (old_keys j).elements)
                (old_keys j).deadline
            else (old_keys j).deadline))
reconcile_keys_example = reconcile_keys_lem plain_lists redis_urls (codes "p:old" ∷ []) old_keys

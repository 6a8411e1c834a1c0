-- ===== src/Store/Memory.antt =====
-- internal/runner/store.go: pools in the memory of one runner. A pool is a ring once it is full.
pub mod Ring
use kurama.Base.{
  ltb, ◌==◌, if◌then◌else◌, length, get_elem?, set, Bytes, eqs, ℕ, ◌+◌, ◌%◌, Option, none, some,
  List, [], ◌∷◌, ◌++◌,
}
use kurama.Base.Result.{Result, ok, err, ◌>>=◌, ◌>>◌, fail_if}
use kurama.Base.Context.{Context, check_context}
use kurama.Base.Assoc.{lookup, insert}
use kurama.Config.{StoreConfig}
use kurama.Store.{
  ValueStore, StoreError, store_context, empty_store_value, store_not_found, StoreConfigError,
  validate_store_configs,
}

pub record MemoryPool : Type 0 where
  pub values : List Bytes
  pub next : ℕ
  pub limit : ℕ

pub record MemoryStore : Type 0 where
  pub stores : List (Bytes × MemoryPool)

abbrev pub empty_pools : List (Bytes × ℕ) → List (Bytes × MemoryPool)
empty_pools [] = []
empty_pools ((name, capacity) ∷ cs) =
    (name, record { values = []; next = 0; limit = capacity }) ∷ empty_pools cs

unfoldable pub new_memory_store : List StoreConfig → Result StoreConfigError MemoryStore
new_memory_store configs = do
  validated ← validate_store_configs configs
  ok (record { stores = empty_pools validated.capacities })

-- The part of `Put` that holds the pool's lock.
unfoldable pub put_value : Bytes → MemoryPool → MemoryPool
put_value value p =
    if ltb (length p.values) p.limit
    then record p { values = p.values ++ (value ∷ []) }
    else record p { values = set p.values p.next value; next = (p.next + 1) % p.limit }

put_found :
    Bytes → Bytes → Option MemoryPool → MemoryStore → Result StoreError (Unit {0}) × MemoryStore
put_found store value none s = (err (store_not_found store), s)
put_found store value (some p) s =
    (ok tt, record s { stores = insert store (put_value value p) s.stores })

-- `MemoryStore.Put`
unfoldable pub put :
    Context → Bytes → Bytes → MemoryStore → Result StoreError (Unit {0}) × MemoryStore
unfolding put_found
put ctx store value s =
    elim (do check_context ctx store_context; fail_if (eqs value []) empty_store_value) [
      | err e ↦ (err e, s)
      | ok _ ↦ put_found store value (lookup store s.stores) s
    ]

random_found : Bytes → ℕ → Option MemoryPool → Result StoreError (Option Bytes)
random_found store draw none = err (store_not_found store)
random_found store draw (some p) =
    if length p.values == 0 then ok none else ok (get_elem? p.values draw)

-- `MemoryStore.Random`; `draw` is what `rand.IntN(len(pool.values))` returns.
unfoldable pub random :
    ℕ → Context → Bytes → MemoryStore → Result StoreError (Option Bytes) × MemoryStore
unfolding random_found
random draw ctx store s = elim (check_context ctx store_context) [
  | err e ↦ (err e, s)
  | ok _ ↦ (random_found store draw (lookup store s.stores), s)
]

-- The interface, for one draw.
abbrev pub memory_store : ℕ → ValueStore MemoryStore
memory_store draw = record { random = random draw; put = put }

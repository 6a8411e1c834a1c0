-- ===== src/Store/Latest.antt =====
-- What a sequence of puts leaves in the memory store and in the Redis store.
use kurama.Base.{last, length, All, Bytes, ℕ, ◌≤◌, ◌≡◌, some, List, ◌++◌}
use kurama.Base.RedisKeys.{RedisLists}
use kurama.Store.Memory.{MemoryStore}
use kurama.Store.Memory.Ring.{IsGood, memory_pools}
use kurama.Store.Pool.{put_all, values_for, put_all-contents, IsAccepted}
use kurama.Store.Redis.{RedisStore}
use kurama.Store.Redis.Shared.{Positive, redis_pools}

-- After any sequence of accepted puts a declared pool of the memory store holds the most recent
-- values that it has been given, in order, and no more of them than its capacity.
pub memory_keeps_latest :
    (draw : ℕ) (ps : List (Bytes × Bytes)) (s : MemoryStore) (j : Bytes) (limit : ℕ)
    → IsGood s
    → (memory_pools draw).limit_of j s ≡ some limit
    → length ((memory_pools draw).contents j s) ≤ limit
    → All (IsAccepted (memory_pools draw) s) ps
    → (memory_pools draw).contents j (put_all (memory_pools draw) ps s)
      ≡ last limit ((memory_pools draw).contents j s ++ values_for (memory_pools draw) j ps)
memory_keeps_latest draw ps s j limit good declared fits accepted =
    put_all-contents (memory_pools draw) ps s j limit good declared fits accepted

-- After any sequence of accepted puts, by any replicas, a declared list of the Redis store holds the
-- most recent values that it has been given, in order, and no more of them than its capacity. All
-- capacities are positive.
pub redis_keeps_latest :
    (R : RedisLists) (r : RedisStore) (draw : ℕ) (ps : List (Bytes × Bytes)) (s : R.State)
    (j : Bytes) (limit : ℕ)
    → Positive R r
    → (redis_pools R r draw).limit_of j s ≡ some limit
    → length ((redis_pools R r draw).contents j s) ≤ limit
    → All (IsAccepted (redis_pools R r draw) s) ps
    → (redis_pools R r draw).contents j (put_all (redis_pools R r draw) ps s)
      ≡ last limit ((redis_pools R r draw).contents j s ++ values_for (redis_pools R r draw) j ps)
redis_keeps_latest R r draw ps s j limit positive declared fits accepted =
    put_all-contents (redis_pools R r draw) ps s j limit positive declared fits accepted

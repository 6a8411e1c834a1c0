-- ===== src/RateLimit/Totals.antt =====
-- How much a sequence of calls receives from the local and from the Redis limiter.
use kurama.Base.{All, Bytes, ℕ, ◌≤◌, ◌≡◌, List, arith}
use kurama.Base.RedisHash.{RedisHashes}
use kurama.RateLimit.Budget.{Call, Within}
use kurama.RateLimit.Contract.{total, total-le, Valid}
use kurama.RateLimit.Local
use kurama.RateLimit.Local.{LocalLimiter, local_budget}
use kurama.RateLimit.Redis
use kurama.RateLimit.Redis.{redis_budget}

-- Admissible calls on one local limiter that all fall into one window receive together at most the
-- largest request budget that one of them names, whatever the limiter gave in earlier windows.
pub local_total-le :
    (window start most : ℕ) (cs : List Call) (l : LocalLimiter)
    → 1 ≤ window
    → All (Valid local_budget) cs
    → All (Within window start most) cs
    → ((Local.view window l).start ≡ start → (Local.view window l).used ≤ most)
    → total local_budget window cs l ≤ most
local_total-le window start most cs l w valid within used =
    total-le local_budget window start most cs l w (omega arith) valid within (λ now. used)

-- The same of all replicas that share a Redis key, whichever of them calls: together they receive at
-- most the largest request budget that one of their calls in the window names.
pub redis_total-le :
    (R : RedisHashes) (key : Bytes) (window start most : ℕ) (cs : List Call) (s : R.State)
    → 1 ≤ window
    → All (Valid (redis_budget R key)) cs
    → All (Within window start most) cs
    → ((now : ℕ) → (Redis.view R now key s).start ≡ start → (Redis.view R now key s).used ≤ most)
    → total (redis_budget R key) window cs s ≤ most
redis_total-le R key window start most cs s w valid within used =
    total-le (redis_budget R key) window start most cs s w (omega arith) valid within used

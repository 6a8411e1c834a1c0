-- ===== src/RateLimit/Tests.antt =====
-- Runs of the limiters, and the theorems at concrete inputs.
use kurama.Base.{All, pos, codes, ℕ, ◌*◌, ◌≤◌, ◌≡◌, refl, List, [], ◌∷◌, arith}
use kurama.Base.Result.{ok, err}
use kurama.Base.Context.{live_context, cancelled_context, canceled}
use kurama.Base.RedisHash.{plain_hashes, no_hashes}
use kurama.RateLimit.{Limit, Admissible, limit_context, permits_exceed_budget, check_call, decision}
use kurama.RateLimit.Budget.{Call, Within, window_start, grant, spend, until_next}
use kurama.RateLimit.Contract.{total}
use kurama.RateLimit.Totals.{local_total-le, redis_total-le}
use kurama.RateLimit.Local
use kurama.RateLimit.Local.{LocalLimiter, new_local_limiter, local_limiter, local_budget}
use kurama.RateLimit.Redis
use kurama.RateLimit.Redis.{acquire_script, redis_budget}

abbrev five_a_minute : Limit
five_a_minute = record { requests = pos 5; window = pos 60_000_000_000 }

abbrev three_used : LocalLimiter
three_used = record { window_start = 0; window = 60_000_000_000; used = 3 }

-- Two of four permits are left, and the next window begins in 40 seconds.
partial_grant : Local.try_acquire live_context 20_000_000_000 five_a_minute (pos 4) three_used ≡ (
  ok (record { granted = pos 2; retry_after = pos 40_000_000_000 }),
  record three_used { used = 5 },
)
unfolding Local.try_acquire check_call
partial_grant = refl

-- A new window has the whole budget.
next_window :
    (Local.try_acquire live_context 61_000_000_000 five_a_minute (pos 4) three_used).0
    ≡ ok (record { granted = pos 4; retry_after = pos 0 })
unfolding Local.try_acquire check_call
next_window = refl

cancelled_call :
    Local.try_acquire cancelled_context 0 five_a_minute (pos 4) three_used
    ≡ (err (limit_context canceled), three_used)
unfolding Local.try_acquire check_call
cancelled_call = refl

too_many :
    (Local.try_acquire live_context 0 five_a_minute (pos 6) three_used).0
    ≡ err permits_exceed_budget
unfolding Local.try_acquire check_call
too_many = refl

abbrev four_of_five : Admissible five_a_minute (pos 4) 5 60_000_000_000 4
four_of_five = record {
  requests_eq = refl;
  window_eq = refl;
  permits_eq = refl;
  window_pos = omega arith;
  wanted_pos = omega arith;
  wanted_le = omega arith;
}

local_grant_example :
    let b = Local.view 60_000_000_000 three_used in
    let r = Local.try_acquire live_context 20_000_000_000 five_a_minute (pos 4) three_used in
    (r.0
      ≡ ok (
          decision 4
            (grant 60_000_000_000 5 4 20_000_000_000 b)
            (until_next 60_000_000_000 20_000_000_000)))
    × (Local.view 60_000_000_000 r.1 ≡ spend 60_000_000_000 5 4 20_000_000_000 b)
local_grant_example =
    Local.try_acquire-grant 20_000_000_000 5 60_000_000_000 4 five_a_minute (pos 4) three_used
      four_of_five

redis_grant_example :
    let b = Redis.view plain_hashes 7 (codes "k") no_hashes in
    let r =
      Redis.try_acquire
        (acquire_script plain_hashes 7)
        (codes "k")
        live_context
        five_a_minute
        (pos 4)
        no_hashes in
    (r.0 ≡ ok (decision 4 (grant 60_000_000 5 4 7 b) (until_next 60_000_000 7 * 1000)))
    × ((later : ℕ)
        → window_start 60_000_000 later ≡ window_start 60_000_000 7
        → Redis.view plain_hashes later (codes "k") r.1 ≡ spend 60_000_000 5 4 7 b)
redis_grant_example =
    Redis.redis_try_acquire-grant plain_hashes (codes "k") 7 5 60_000_000 4 five_a_minute (pos 4)
      no_hashes four_of_five (omega arith)

abbrev two_calls : List Call
two_calls =
    record { now = 10; requests = 5; permits = 4 }
    ∷ record { now = 70; requests = 3; permits = 3 }
    ∷ []

two_calls-Within : All (Within 100 0 5) two_calls
unfolding window_start
two_calls-Within = omega arith

local_total_example : total local_budget 100 two_calls new_local_limiter ≤ 5
local_total_example =
    local_total-le 100 0 5 two_calls new_local_limiter (omega arith) (omega arith) two_calls-Within
      starts_empty
  where
    starts_empty :
        (local_budget.view 0 100 new_local_limiter).start ≡ 0
        → (local_budget.view 0 100 new_local_limiter).used ≤ 5
    starts_empty e = omega arith

redis_total_example : total (redis_budget plain_hashes (codes "k")) 100 two_calls no_hashes ≤ 5
redis_total_example =
    redis_total-le plain_hashes (codes "k") 100 0 5 two_calls no_hashes (omega arith) (omega arith)
      two_calls-Within (λ now e. omega arith)

-- ===== src/RateSchedule/Tests.antt =====
-- Runs of the schedules, and the theorems at concrete inputs.
use kurama.Base.{
  All, pos, Bytes, codes, eqs, has_byte, ℕ, ◌/◌, ◌≤◌, ◌≡◌, refl, true, [], ◌∷◌, arith,
}
use kurama.Base.Result.{ok, err}
use kurama.Base.Context.{live_context, cancelled_context, canceled}
use kurama.Base.RedisHash.{plain_hashes, no_hashes}
use kurama.RateLimit.Budget.{window_start}
use kurama.RedisKey.{Scope, validate, rate_schedule_prefix, kind_prefix, join}
use kurama.RateSchedule.{new_fixed, fixed_requests_per_minute, schedule_context}
use kurama.RateSchedule.RedisUniform.{
  RedisUniform, RedisUniformConfig, window_not_whole_minutes, new_redis_uniform, select_script,
  requests_per_minute,
}
use kurama.RateSchedule.RedisUniform.Agreement.{
  WellFormed, HoldsIn, replies, replicas_agree, requests_per_minute_in_range,
}

abbrev shop : Scope
shop = record { namespace = codes "shop"; scenario = codes "links"; uid = codes "17" }

abbrev two_minutes : RedisUniformConfig
two_minutes = record {
  min_requests_per_minute = pos 10;
  max_requests_per_minute = pos 19;
  window = pos 120_000_000_000;
}

abbrev ten_to_nineteen : RedisUniform
ten_to_nineteen = record {
  key = codes "kurama:v2:rate-schedule:shop:links:17:n:n:n";
  min_requests = 10;
  range_size = 10;
  window = 120_000_000_000;
}

-- With a fixed text in place of each number.
new_uniform : new_redis_uniform (λ n. codes "n") true shop two_minutes ≡ ok ten_to_nineteen
unfolding new_redis_uniform validate rate_schedule_prefix kind_prefix join eqs has_byte
new_uniform = refl

rejects_half_minute :
    new_redis_uniform
      (λ n. codes "n")
      true
      shop
      (record two_minutes { window = pos 90_000_000_000 })
    ≡ err window_not_whole_minutes
unfolding new_redis_uniform validate eqs has_byte
rejects_half_minute = refl

first_choice :
    (requests_per_minute (select_script plain_hashes 5) ten_to_nineteen 3 live_context no_hashes).0
    ≡ ok (pos 13)
unfolding requests_per_minute select_script window_start
first_choice = refl

fixed_cancelled :
    fixed_requests_per_minute (new_fixed (pos 60)) cancelled_context
    ≡ err (schedule_context canceled)
unfolding fixed_requests_per_minute
fixed_cancelled = refl

empty-WellFormed : (now : ℕ) (k : Bytes) → WellFormed plain_hashes now k no_hashes
empty-WellFormed now k w e = absurd (grind (arith, e))

replicas_agree_example :
    let first = select_script plain_hashes 5 (codes "k") 100 13 no_hashes in
    All (λ r. r ≡ first.0) (replies plain_hashes (codes "k") 100 ((50, 17) ∷ (99, 12) ∷ []) first.1)
unfolding window_start
replicas_agree_example =
    replicas_agree plain_hashes (codes "k") 100 5 13 ((50, 17) ∷ (99, 12) ∷ []) no_hashes
      (omega arith) (empty-WellFormed 5 (codes "k")) (omega arith)

in_range_example :
    (n : ℕ) × ((requests_per_minute
        (select_script plain_hashes 5)
        ten_to_nineteen
        3
        live_context
        no_hashes).0
      ≡ ok (pos n))
    × (10 ≤ n)
    × (n ≤ 19)
    × HoldsIn plain_hashes
        (ten_to_nineteen.window / 1000)
        ten_to_nineteen.key
        (window_start (ten_to_nineteen.window / 1000) 5)
        n
        (requests_per_minute
          (select_script plain_hashes 5)
          ten_to_nineteen
          3
          live_context
          no_hashes).1
in_range_example =
    requests_per_minute_in_range plain_hashes ten_to_nineteen 5 3 19 no_hashes (omega arith)
      (empty-WellFormed 5 ten_to_nineteen.key) (λ n e. absurd (grind (arith, e))) refl (omega arith)

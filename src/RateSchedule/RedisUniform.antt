-- ===== src/RateSchedule/RedisUniform.antt =====
-- internal/runner/rateschedule/redis_uniform.go and select_uniform_window.lua: one random rate for
-- each window, chosen by the first replica that reaches Redis. Times are microseconds.
pub mod Agreement
use kurama.Base.{
  ltb, ◌==◌, if◌then◌else◌, ℤ, pos, ltz, to_ℕ, Bytes, codes, ℕ, ◌+◌, ◌-◌, ◌/◌, ◌%◌, ◌^◌, Bool, true,
  ◌||◌, not, Option, none, some, ◌∷◌, ◌++◌,
}
use kurama.Base.Result.{Result, ok, err, ◌>>=◌, ◌>>◌, fail_if, wrap_err}
use kurama.Base.Context.{Context, check_context, live_context}
use kurama.Base.RedisHash.{RedisHashes, or_zero}
use kurama.RateLimit.{RedisError, nil_reply}
use kurama.RateLimit.Budget.{window_start}
use kurama.RateSchedule.{Schedule, ScheduleError, schedule_context, select_failed}
use kurama.RedisKey.{Scope, ScopeError, validate, rate_schedule_prefix, separator}

pub record RedisUniformConfig : Type 0 where
  pub min_requests_per_minute : ℤ
  pub max_requests_per_minute : ℤ
  pub window : ℤ

pub record RedisUniform : Type 0 where
  pub key : Bytes
  pub min_requests : ℕ
  pub range_size : ℕ
  pub window : ℕ

pub data UniformError : Type 0 where
  nil_client : UniformError
  bad_scope : ScopeError → UniformError
  minimum_not_positive maximum_below_minimum window_not_whole_minutes : UniformError
  range_too_large : UniformError

-- Durations are nanoseconds.
abbrev minute : ℕ
minute = 60_000_000_000

-- The largest `int`.
abbrev max_int : ℕ
max_int = 2 ^ 63 - 1

-- `maximum - minimum + 1` in 64 bits, as an unsigned number: the sum wraps to a negative value only
-- when it passes the largest integer.
abbrev range_of : ℕ → ℕ → ℕ
range_of mn mx = mx - mn + 1

-- `newRedisUniform`. The decimal text of a number, as `strconv.Itoa` writes it, is a parameter.
module _ (itoa : ℕ → Bytes) where
  schedule_key : Scope → ℕ → ℕ → ℕ → Bytes
  schedule_key scope mn mx window =
      rate_schedule_prefix scope
      ++ (separator ∷ itoa mn ++ (separator ∷ itoa mx ++ (separator ∷ itoa (window / 1000))))

  unfoldable pub new_redis_uniform :
      Bool → Scope → RedisUniformConfig → Result UniformError RedisUniform
  unfolding schedule_key
  new_redis_uniform connected scope config = do
    fail_if (not connected) nil_client
    wrap_err bad_scope (validate scope)
    fail_if (ltz config.min_requests_per_minute (pos 1)) minimum_not_positive
    fail_if (ltz config.max_requests_per_minute config.min_requests_per_minute)
        maximum_below_minimum
    fail_if (ltz config.window (pos minute) || not (to_ℕ config.window % minute == 0))
        window_not_whole_minutes
    let mn = to_ℕ config.min_requests_per_minute
    let mx = to_ℕ config.max_requests_per_minute
    let window = to_ℕ config.window
    fail_if (ltb max_int (range_of mn mx)) range_too_large
    ok (record {
      key = schedule_key scope mn mx window;
      min_requests = mn;
      range_size = range_of mn mx;
      window = window;
    })

-- `selectUniformWindowScript.Run(...).Int()`: the key, the window in microseconds, the candidate.
abbrev pub Script {ℓ} : Type ℓ → Type ℓ
Script S = Bytes → ℕ → ℕ → S → Result RedisError ℤ × S

decode_reply : Result RedisError ℤ → Result ScheduleError ℤ
decode_reply (ok n) = ok n
decode_reply (err e) = err (select_failed e)

-- `RedisUniform.RequestsPerMinute`; `draw` is what `random.IntN(rangeSize)` returns.
unfoldable pub requests_per_minute {ℓ} :
    {S : Type ℓ} → Script S → RedisUniform → ℕ → Context → S → Result ScheduleError ℤ × S
unfolding decode_reply
requests_per_minute script u draw ctx s = elim (check_context ctx schedule_context) [
  | err e ↦ (err e, s)
  | ok _ ↦
      let (r, s') = script u.key (u.window / 1000) (u.min_requests + draw) s in (decode_reply r, s')
]

module _ (R : RedisHashes) where
  open R use {State, hget, hset, pexpire, hget-hset, hget-pexpire}

  abbrev pub window_field : Bytes
  window_field = codes "window"

  abbrev pub rpm_field : Bytes
  rpm_field = codes "rpm"

  pub stale : Option ℕ → ℕ → Bool
  stale none start = true
  stale (some w) start = not (w == start)

  -- The script stores the candidate in a new window, and reads what is stored in the current one.
  pub choose : ℕ → Bytes → ℕ → ℕ → State → Option ℕ × State
  unfolding stale
  choose now key start candidate s =
      if stale (hget now key window_field s) start
      then (some candidate, hset now key rpm_field candidate (hset now key window_field start s))
      else (hget now key rpm_field s, s)

  -- A missing field comes back as a nil reply.
  abbrev pub reply : Option ℕ → Result RedisError ℤ
  reply none = err nil_reply
  reply (some n) = ok (pos n)

  -- select_uniform_window.lua at the time `now`.
  unfoldable pub select_script : ℕ → Script State
  unfolding choose window_start
  select_script now key window candidate s =
      let start = window_start window now in
      let (selected, s₁) = choose now key start candidate s in
      let remaining = start + window - now in
      let ttl = (remaining + window + 999) / 1000 in (reply selected, pexpire now key ttl s₁)

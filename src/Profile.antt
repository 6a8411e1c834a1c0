-- ===== src/Profile.antt =====
-- internal/runner/profile: how many requests a batch reserves and how long the scheduler waits
-- after each of them. Durations are nanoseconds.
pub mod Accepts
pub mod Pacing
mod Tests
use kurama.Base.{
  ltb, if◌then◌else◌, ℤ, pos, ltz, eqz, to_ℕ, outside, Bytes, codes, eqs, ℕ, ◌+◌, ◌-◌, ◌*◌, ◌/◌,
  ◌<◌, min, Bool, ◌||◌, not, [],
}
use kurama.Base.Result.{Result, ok, err, ◌>>=◌, ◌>>◌, fail_if}

-- The values of `Config.Type`.
abbrev pub type_fixed : Bytes
type_fixed = codes "fixed"

abbrev pub type_uniform : Bytes
type_uniform = codes "uniform"

abbrev pub type_burst : Bytes
type_burst = codes "burst"

abbrev pub default_burst_delay_divisor : ℕ
default_burst_delay_divisor = 10

abbrev pub minimum_burst_delay_divisor : ℕ
minimum_burst_delay_divisor = 2

abbrev pub maximum_burst_delay_divisor : ℕ
maximum_burst_delay_divisor = 100

-- `time.Minute`
abbrev pub minute : ℕ
minute = 60_000_000_000

pub record Config : Type 0 where
  pub type : Bytes
  pub min_burst_size : ℤ
  pub max_burst_size : ℤ
  pub delay_divisor : ℤ

-- The scheduler calls a profile with a positive rate, position and batch size only.
pub record DelayContext : Type 0 where
  pub requests_per_minute : ℕ
  pub position : ℕ
  pub batch_size : ℕ

-- `math/rand`: a draw below a positive bound.
pub record RandomSource : Type 0 where
  pub int64_n : ℕ → ℕ
  pub int64_n_lt : (n : ℕ) → 0 < n → int64_n n < n

pub record BurstProfile : Type 0 where
  pub min_burst_size : ℕ
  pub max_burst_size : ℕ
  pub delay_divisor : ℕ

-- The implementations of the interface `Timing`.
pub data Timing : Type 0 where
  fixed_profile : Timing
  uniform_profile : Timing
  burst_profile : BurstProfile → Timing

pub data ProfileError : Type 0 where
  fixed_sets_burst_fields uniform_sets_burst_fields : ProfileError
  min_burst_size_too_small max_burst_size_below_min delay_divisor_out_of_range : ProfileError
  unsupported_type : Bytes → ProfileError

-- One of the burst fields is set.
pub burst_fields_set : Config → Bool
burst_fields_set c =
    not (eqz c.min_burst_size (pos 0))
    || not (eqz c.max_burst_size (pos 0))
    || not (eqz c.delay_divisor (pos 0))

-- A zero divisor stands for the default.
unfoldable pub effective_delay_divisor : ℤ → ℤ
effective_delay_divisor d = if eqz d (pos 0) then pos default_burst_delay_divisor else d

new_burst : Config → Result ProfileError Timing
unfolding effective_delay_divisor
new_burst c = do
  fail_if (ltz c.min_burst_size (pos 2)) min_burst_size_too_small
  fail_if (ltz c.max_burst_size c.min_burst_size) max_burst_size_below_min
  let divisor = effective_delay_divisor c.delay_divisor
  fail_if (outside minimum_burst_delay_divisor maximum_burst_delay_divisor divisor)
      delay_divisor_out_of_range
  ok (
      burst_profile (record {
        min_burst_size = to_ℕ c.min_burst_size;
        max_burst_size = to_ℕ c.max_burst_size;
        delay_divisor = to_ℕ divisor;
      }))

-- `profile.New`; the random source that it passes on is never nil.
unfoldable pub new : Config → Result ProfileError Timing
unfolding burst_fields_set new_burst
new c =
    if eqs c.type [] || eqs c.type type_fixed
    then (do fail_if (burst_fields_set c) fixed_sets_burst_fields; ok fixed_profile)
    else if eqs c.type type_uniform
    then (do fail_if (burst_fields_set c) uniform_sets_burst_fields; ok uniform_profile)
    else if eqs c.type type_burst
    then new_burst c
    else err (unsupported_type c.type)

pub mean_delay : ℕ → ℕ
mean_delay requests_per_minute = minute / requests_per_minute

burst_batch_size : RandomSource → BurstProfile → ℕ → ℕ
burst_batch_size random p requests_per_minute =
    let max_size = min p.max_burst_size requests_per_minute in
    let min_size = min p.min_burst_size max_size in
    min_size + random.int64_n (max_size - min_size + 1)

unfoldable pub batch_size : RandomSource → Timing → ℕ → ℕ
unfolding burst_batch_size
batch_size random fixed_profile rpm = 1
batch_size random uniform_profile rpm = 1
batch_size random (burst_profile p) rpm = burst_batch_size random p rpm

-- The wait between two requests of a burst, at least one nanosecond.
pub intra_burst_delay : BurstProfile → ℕ → ℕ
unfolding mean_delay
intra_burst_delay p rpm =
    let delay = mean_delay rpm / p.delay_divisor in if ltb delay 1 then 1 else delay

burst_next_delay : BurstProfile → DelayContext → ℕ
unfolding intra_burst_delay
burst_next_delay p input =
    if ltb input.position input.batch_size
    then intra_burst_delay p input.requests_per_minute
    else input.batch_size * mean_delay input.requests_per_minute
      - (input.batch_size - 1) * intra_burst_delay p input.requests_per_minute

unfoldable pub next_delay : RandomSource → Timing → DelayContext → ℕ
unfolding burst_next_delay mean_delay
next_delay random fixed_profile input = mean_delay input.requests_per_minute
next_delay random uniform_profile input =
    random.int64_n (2 * mean_delay input.requests_per_minute) + 1
next_delay random (burst_profile p) input = burst_next_delay p input

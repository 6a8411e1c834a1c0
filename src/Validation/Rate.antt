-- ===== src/Validation/Rate.antt =====
-- `validateRateSchedule` and `validateRateProfile` of internal/runner/config_validation.go.
use kurama.Base.{
  if◌then◌else◌, ℤ, pos, ltz, eqz, outside, Bytes, codes, eqs, Bool, ◌&&◌, ◌||◌, not, Option, none,
  some, [],
}
use kurama.Base.Result.{Result, ok, err, ◌>>◌, fail_if}
use kurama.Config.{
  RateProfileConfig, RateScheduleConfig, max_requests_per_minute, max_schedule_window_minutes,
  max_profile_burst_size, max_profile_delay_divisor,
}

pub data RateError : Type 0 where
  fixed_rpm_out_of_range fixed_sets_uniform_fields : RateError
  uniform_sets_rpm min_rpm_out_of_range max_rpm_out_of_range window_out_of_range : RateError
  unsupported_schedule : Bytes → RateError
  sets_burst_fields : Bytes → RateError
  min_burst_out_of_range max_burst_out_of_range divisor_out_of_range : RateError
  unsupported_profile : Bytes → RateError

abbrev pub schedule_fixed : Bytes
schedule_fixed = codes "fixed"

abbrev pub schedule_uniform : Bytes
schedule_uniform = codes "uniform"

abbrev pub nonzero : ℤ → Bool
nonzero z = not (eqz z (pos 0))

-- `validateRateSchedule`
unfoldable pub validate_rate_schedule : RateScheduleConfig → Result RateError (Unit {0})
validate_rate_schedule c =
    if eqs c.type schedule_fixed
    then (do
      fail_if (outside 1 max_requests_per_minute c.requests_per_minute) fixed_rpm_out_of_range
      fail_if
          (nonzero c.min_requests_per_minute
            || nonzero c.max_requests_per_minute
            || nonzero c.window_minutes)
          fixed_sets_uniform_fields)
    else if eqs c.type schedule_uniform
    then (do
      fail_if (nonzero c.requests_per_minute) uniform_sets_rpm
      fail_if (outside 1 max_requests_per_minute c.min_requests_per_minute) min_rpm_out_of_range
      fail_if
          (ltz c.max_requests_per_minute c.min_requests_per_minute
            || ltz (pos max_requests_per_minute) c.max_requests_per_minute)
          max_rpm_out_of_range
      fail_if (outside 1 max_schedule_window_minutes c.window_minutes) window_out_of_range)
    else err (unsupported_schedule c.type)

-- `normalizedProfileType`
unfoldable pub normalized_profile_type : Bytes → Bytes
normalized_profile_type type = if eqs type [] then codes "fixed" else type

validate_burst : RateProfileConfig → Result RateError (Unit {0})
validate_burst c = do
  fail_if (outside 2 max_profile_burst_size c.min_burst_size) min_burst_out_of_range
  fail_if
      (ltz c.max_burst_size c.min_burst_size || ltz (pos max_profile_burst_size) c.max_burst_size)
      max_burst_out_of_range
  fail_if (nonzero c.delay_divisor && outside 2 max_profile_delay_divisor c.delay_divisor)
      divisor_out_of_range

-- `validateRateProfile` of a profile that is set
unfoldable pub validate_profile : RateProfileConfig → Result RateError (Unit {0})
unfolding normalized_profile_type validate_burst
validate_profile c =
    if eqs c.type [] || eqs c.type (codes "fixed") || eqs c.type (codes "uniform")
    then fail_if (nonzero c.min_burst_size || nonzero c.max_burst_size || nonzero c.delay_divisor)
        (sets_burst_fields (normalized_profile_type c.type))
    else if eqs c.type (codes "burst")
    then validate_burst c
    else err (unsupported_profile c.type)

-- `validateRateProfile`
unfoldable pub validate_rate_profile : Option RateProfileConfig → Result RateError (Unit {0})
unfolding validate_profile
validate_rate_profile none = ok tt
validate_rate_profile (some c) = validate_profile c

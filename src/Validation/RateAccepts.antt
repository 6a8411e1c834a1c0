-- ===== src/Validation/RateAccepts.antt =====
-- Which schedules the validation accepts.
use kurama.Base.{
  Bool-cases, ℤ, pos, negsuc, ltz, eqz, to_ℕ, InRange, outside, outside-InRange, InRange-outside,
  Bytes, eqs→eq, eqs_iff, eqs, ℕ, ◌≡◌, refl, ◌↔◌, ◌⊎◌, inl, inr, true, false, ◌||◌, arith,
}
use kurama.Base.Result.{ok}
use kurama.Config.{RateScheduleConfig}
use kurama.Validation.Rate.{validate_rate_schedule, schedule_fixed, schedule_uniform}

-- A fixed schedule, and a uniform one.
pub record FixedOk (c : RateScheduleConfig) : Type 0 where
  pub is_fixed : c.type ≡ schedule_fixed
  pub rpm_range : InRange 1 6_000 c.requests_per_minute
  pub no_min : c.min_requests_per_minute ≡ pos 0
  pub no_max : c.max_requests_per_minute ≡ pos 0
  pub no_window : c.window_minutes ≡ pos 0

pub record UniformOk (c : RateScheduleConfig) : Type 0 where
  pub is_uniform : c.type ≡ schedule_uniform
  pub no_rpm : c.requests_per_minute ≡ pos 0
  pub min_range : InRange 1 6_000 c.min_requests_per_minute
  pub max_range : InRange (to_ℕ c.min_requests_per_minute) 6_000 c.max_requests_per_minute
  pub window_range : InRange 1 1_440 c.window_minutes

uniform_not_fixed : (type : Bytes) → type ≡ schedule_uniform → eqs type schedule_fixed ≡ false
unfolding eqs
uniform_not_fixed type h = rw h refl

max_range_iff :
    (lo hi : ℤ)
    → InRange 1 6_000 lo
    → ((ltz hi lo || ltz (pos 6_000) hi) ≡ false) ↔ InRange (to_ℕ lo) 6_000 hi
max_range_iff (pos a) (pos b) h = ground arith
max_range_iff (pos a) (negsuc b) h = ground arith
max_range_iff (negsuc a) b h = absurd h

range_iff : (lo hi : ℕ) (z : ℤ) → (outside lo hi z ≡ false) ↔ InRange lo hi z
range_iff lo hi z = (outside-InRange lo hi z, InRange-outside lo hi z)

pub zero_iff : (z : ℤ) → (eqz z (pos 0) ≡ true) ↔ (z ≡ pos 0)
zero_iff (pos n) = ground arith
zero_iff (negsuc n) = ground arith

schedule_sound :
    (c : RateScheduleConfig) → validate_rate_schedule c ≡ ok tt → FixedOk c ⊎ UniformOk c
unfolding validate_rate_schedule
schedule_sound c h = elim (Bool-cases (eqs c.type schedule_fixed)) [
  | inl fixed ↦ inl (record {
    is_fixed = eqs→eq c.type schedule_fixed fixed;
    rpm_range = outside-InRange 1 6_000 c.requests_per_minute (ground (arith, fixed));
    no_min = (zero_iff c.min_requests_per_minute).0 (ground (arith, fixed));
    no_max = (zero_iff c.max_requests_per_minute).0 (ground (arith, fixed));
    no_window = (zero_iff c.window_minutes).0 (ground (arith, fixed));
  })
  | inr other ↦
      let min_ok : InRange 1 6_000 c.min_requests_per_minute =
        outside-InRange 1 6_000 c.min_requests_per_minute (ground (arith, other)) in
      inr (record {
        is_uniform = eqs→eq c.type schedule_uniform (ground (arith, other));
        no_rpm = (zero_iff c.requests_per_minute).0 (ground (arith, other));
        min_range = min_ok;
        max_range =
            (max_range_iff c.min_requests_per_minute c.max_requests_per_minute min_ok).0
              (ground (arith, other));
        window_range = outside-InRange 1 1_440 c.window_minutes (ground (arith, other));
      })
]

schedule_complete :
    (c : RateScheduleConfig) → FixedOk c ⊎ UniformOk c → validate_rate_schedule c ≡ ok tt
unfolding validate_rate_schedule
schedule_complete c (inl k) = ground (
  arith,
  eqs_iff c.type schedule_fixed,
  k.is_fixed,
  InRange-outside 1 6_000 c.requests_per_minute k.rpm_range,
  (zero_iff c.min_requests_per_minute).1 k.no_min,
  (zero_iff c.max_requests_per_minute).1 k.no_max,
  (zero_iff c.window_minutes).1 k.no_window,
)
schedule_complete c (inr k) = ground (
  arith,
  uniform_not_fixed c.type k.is_uniform,
  eqs_iff c.type schedule_uniform,
  k.is_uniform,
  (zero_iff c.requests_per_minute).1 k.no_rpm,
  InRange-outside 1 6_000 c.min_requests_per_minute k.min_range,
  (max_range_iff c.min_requests_per_minute c.max_requests_per_minute k.min_range).1 k.max_range,
  InRange-outside 1 1_440 c.window_minutes k.window_range,
)

-- A schedule is accepted exactly when it is a fixed one with a rate from 1 to 6000 and no other
-- field, or a uniform one with 1 ≤ min ≤ max ≤ 6000, a window from 1 to 1440 minutes and no fixed
-- rate.
pub validate_rate_schedule_iff :
    (c : RateScheduleConfig) → (validate_rate_schedule c ≡ ok tt) ↔ (FixedOk c ⊎ UniformOk c)
validate_rate_schedule_iff c = (schedule_sound c, schedule_complete c)

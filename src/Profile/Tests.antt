-- ===== src/Profile/Tests.antt =====
-- Runs of the profiles, and the theorems at concrete inputs.
use kurama.Base.{pos, eqs, ◌*◌, ◌≤◌, ◌≡◌, refl, ◌↔◌, arith}
use kurama.Base.Result.{ok, err}
use kurama.Profile.{
  Config, RandomSource, BurstProfile, burst_profile, max_burst_size_below_min, new, batch_size,
  next_delay, mean_delay, type_burst, minute,
}
use kurama.Profile.Accepts.{Describes, new_iff, BurstOk}
use kurama.Profile.Pacing.{batch_size_bounds, total_delay, burst_cycle, steady_cycle}

-- The source that always draws zero.
abbrev lowest : RandomSource
lowest = record { int64_n = λ n. 0; int64_n_lt = λ n h. h }

abbrev bursts : BurstProfile
bursts = record { min_burst_size = 3; max_burst_size = 8; delay_divisor = 10 }

abbrev burst_config : Config
burst_config = record {
  type = type_burst;
  min_burst_size = pos 3;
  max_burst_size = pos 8;
  delay_divisor = pos 0;
}

bursts-BurstOk : BurstOk bursts
bursts-BurstOk = omega arith

new-burst_config : new burst_config ≡ ok (burst_profile bursts)
unfolding new eqs
new-burst_config = refl

new_rejects : new (record burst_config { max_burst_size = pos 2 }) ≡ err max_burst_size_below_min
unfolding new eqs
new_rejects = refl

burst_pause :
    next_delay lowest
      (burst_profile bursts)
      (record { requests_per_minute = 60; position = 3; batch_size = 3 })
    ≡ 2_800_000_000
unfolding next_delay
burst_pause = refl

new_iff_example :
    (new burst_config ≡ ok (burst_profile bursts)) ↔ Describes burst_config (burst_profile bursts)
new_iff_example = new_iff burst_config (burst_profile bursts)

batch_size_bounds_example :
    (1 ≤ batch_size lowest (burst_profile bursts) 2)
    × (batch_size lowest (burst_profile bursts) 2 ≤ 2)
batch_size_bounds_example =
    batch_size_bounds lowest (burst_profile bursts) 2 bursts-BurstOk (omega arith)

burst_cycle_example : total_delay lowest (burst_profile bursts) 60 3 3 ≡ 3 * mean_delay 60
burst_cycle_example =
    burst_cycle lowest bursts 60 3 bursts-BurstOk (omega arith) (omega arith) (omega arith)

steady_cycle_example :
    (total_delay lowest (burst_profile bursts) 60 3 3 ≡ 3 * mean_delay 60)
    × (total_delay lowest (burst_profile bursts) 60 3 3 ≤ minute)
steady_cycle_example =
    steady_cycle lowest (burst_profile bursts) 60 3 bursts-BurstOk (omega arith) (omega arith)
      (omega arith)

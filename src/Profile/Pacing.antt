-- ===== src/Profile/Pacing.antt =====
-- How long a batch takes, and the bounds of batch sizes and delays.
use kurama.Base.{
  last, ltb, Bool-cases, ℕ, zero, suc, ◌+◌, ◌-◌, ◌*◌, ◌/◌, ◌≤◌, ◌<◌, min, ◌≡◌, inl, inr, arith,
}
use kurama.Profile.{
  RandomSource, BurstProfile, Timing, fixed_profile, uniform_profile, burst_profile, batch_size,
  next_delay, mean_delay, intra_burst_delay, minute, DelayContext,
}
use kurama.Profile.Accepts.{BurstOk}

-- The profile has passed `New`.
abbrev pub Ready : Timing → Type 0
Ready fixed_profile = Unit {0}
Ready uniform_profile = Unit {0}
Ready (burst_profile p) = BurstOk p

burst_draw : (mn mx draw : ℕ) → mn ≤ mx → draw < mx - mn + 1 → (mn ≤ mn + draw) × (mn + draw ≤ mx)
burst_draw mn mx draw h k = omega arith

-- Every profile reserves at least one request and never more than a minute's budget.
pub batch_size_bounds :
    (r : RandomSource) (t : Timing) (rpm : ℕ)
    → Ready t
    → 1 ≤ rpm
    → (1 ≤ batch_size r t rpm) × (batch_size r t rpm ≤ rpm)
unfolding batch_size
batch_size_bounds r fixed_profile rpm t h = omega arith
batch_size_bounds r uniform_profile rpm t h = omega arith
batch_size_bounds r (burst_profile p) rpm t h =
    let mx = min p.max_burst_size rpm in
    let mn = min p.min_burst_size mx in omega (arith, r.int64_n_lt (mx - mn + 1) (omega arith))

-- The waits after the first `k` requests of a batch, added up.
pub total_delay : RandomSource → Timing → ℕ → ℕ → ℕ → ℕ
total_delay r t rpm n zero = 0
total_delay r t rpm n (suc k) =
    total_delay r t rpm n k
    + next_delay r t (record { requests_per_minute = rpm; position = suc k; batch_size = n })

within_burst :
    (r : RandomSource) (p : BurstProfile) (rpm n k : ℕ)
    → k < n
    → total_delay r (burst_profile p) rpm n k ≡ k * intra_burst_delay p rpm
unfolding total_delay next_delay intra_burst_delay
within_burst r p rpm n zero h = omega arith
within_burst r p rpm n (suc k) h = grind (arith, within_burst r p rpm n k)

-- An intra-burst delay is at most the mean delay, which is positive up to 60,000,000,000 a minute.
pub intra_le_mean :
    (p : BurstProfile) (rpm : ℕ)
    → BurstOk p
    → 1 ≤ rpm
    → rpm ≤ minute
    → (1 ≤ intra_burst_delay p rpm) × (intra_burst_delay p rpm ≤ mean_delay rpm)
unfolding intra_burst_delay mean_delay
intra_le_mean p rpm b h k = grind arith

mul_le_mean : (k a m : ℕ) → a ≤ m → k * a ≤ suc k * m
mul_le_mean k a m h = grind arith

div_mul_le : (m r : ℕ) → r * (m / r) ≤ m
div_mul_le m r = grind arith

-- A full burst of `n` requests takes exactly `n` mean delays: what the requests of a burst gain on
-- the mean, the wait after the last one gives back.
pub burst_cycle :
    (r : RandomSource) (p : BurstProfile) (rpm n : ℕ)
    → BurstOk p
    → 1 ≤ rpm
    → rpm ≤ minute
    → 1 ≤ n
    → total_delay r (burst_profile p) rpm n n ≡ n * mean_delay rpm
unfolding total_delay next_delay
burst_cycle r p rpm zero b h k l = absurd (omega arith)
burst_cycle r p rpm (suc m) b h k l = grind (
  arith,
  within_burst r p rpm (suc m) m,
  mul_le_mean m (intra_burst_delay p rpm) (mean_delay rpm),
  intra_le_mean p rpm b h k,
)

-- The pace of a fixed profile.
fixed_cycle :
    (r : RandomSource) (rpm n k : ℕ) → total_delay r fixed_profile rpm n k ≡ k * mean_delay rpm
unfolding total_delay next_delay
fixed_cycle r rpm n zero = omega arith
fixed_cycle r rpm n (suc k) = grind (arith, fixed_cycle r rpm n k)

-- The deterministic profiles.
abbrev pub IsSteady : Timing → Type 0
IsSteady fixed_profile = Unit {0}
IsSteady uniform_profile = ⊥
IsSteady (burst_profile p) = BurstOk p

-- Under a fixed or burst profile a batch of `n` requests, `n` at most the rate, takes exactly `n`
-- mean delays, and these are at most one minute.
pub steady_cycle :
    (r : RandomSource) (t : Timing) (rpm n : ℕ)
    → IsSteady t
    → rpm ≤ minute
    → 1 ≤ n
    → n ≤ rpm
    → (total_delay r t rpm n n ≡ n * mean_delay rpm) × (total_delay r t rpm n n ≤ minute)
unfolding mean_delay
steady_cycle r fixed_profile rpm n s h k l =
    let e = fixed_cycle r rpm n n in (e, rw e (grind (arith, div_mul_le minute rpm)))
steady_cycle r uniform_profile rpm n s h k l = absurd s
steady_cycle r (burst_profile p) rpm n s h k l =
    let e = burst_cycle r p rpm n s (omega arith) h k in
    (e, rw e (grind (arith, div_mul_le minute rpm)))

-- Under a uniform profile each wait is positive and at most twice the mean delay.
pub uniform_delay_bounds :
    (r : RandomSource) (input : DelayContext)
    → 1 ≤ input.requests_per_minute
    → input.requests_per_minute ≤ minute
    → (1 ≤ next_delay r uniform_profile input)
      × (next_delay r uniform_profile input ≤ 2 * mean_delay input.requests_per_minute)
unfolding next_delay mean_delay
uniform_delay_bounds r input h k =
    grind (arith, r.int64_n_lt (2 * mean_delay input.requests_per_minute))

last_wait :
    (m a mean : ℕ)
    → a ≤ mean
    → (mean ≤ suc m * mean - (suc m - 1) * a) × (suc m * mean - (suc m - 1) * a ≤ suc m * mean)
last_wait m a mean h = let e : suc m - 1 ≡ m = omega arith in rw e (grind arith)

-- The wait after the last request of a burst of `n` lies between one and `n` mean delays.
pub burst_last_delay :
    (r : RandomSource) (p : BurstProfile) (rpm n : ℕ)
    → BurstOk p
    → 1 ≤ rpm
    → rpm ≤ minute
    → 1 ≤ n
    → (mean_delay rpm
        ≤ next_delay r
            (burst_profile p)
            (record { requests_per_minute = rpm; position = n; batch_size = n }))
      × (next_delay r
            (burst_profile p)
            (record { requests_per_minute = rpm; position = n; batch_size = n })
          ≤ n * mean_delay rpm)
unfolding next_delay
burst_last_delay r p rpm zero b h k l = absurd (omega arith)
burst_last_delay r p rpm (suc m) b h k l =
    ground
      (arith, intra_le_mean p rpm b h k, last_wait m (intra_burst_delay p rpm) (mean_delay rpm))

-- Every wait inside a batch is positive.
pub next_delay-pos :
    (r : RandomSource) (t : Timing) (rpm position n : ℕ)
    → Ready t
    → 1 ≤ rpm
    → rpm ≤ minute
    → 1 ≤ position
    → position ≤ n
    → 1 ≤ next_delay r t (record { requests_per_minute = rpm; position = position; batch_size = n })
unfolding next_delay mean_delay
next_delay-pos r fixed_profile rpm position n ready lo hi k l = grind arith
next_delay-pos r uniform_profile rpm position n ready lo hi k l = omega arith
next_delay-pos r (burst_profile p) rpm position n b lo hi k l =
    let bounds = intra_le_mean p rpm b lo hi in
    elim (Bool-cases (ltb position n)) [
      | inl inside ↦ ground (arith, inside, bounds)
      | inr last ↦
          let e : position ≡ n = ground (arith, last, l) in
          rw e (ground (arith, bounds, burst_last_delay r p rpm n b lo hi (ground (arith, e, k))))
    ]

-- ===== src/Validation/ProfileAccepts.antt =====
-- What the validation of a profile promises to the scheduler: `profile.New` accepts it.
use kurama.Base.{
  Bool-cases, ℤ, pos, negsuc, ltz, eqz, outside, eqs→eq, eqs_iff, eqs, ℕ, zero, suc, ◌≤◌, ◌≡◌, refl,
  inl, inr, true, false, ◌&&◌, ◌||◌, not, Option, none, some, [], arith,
}
use kurama.Base.Result.{ok}
use kurama.Config.{RateProfileConfig}
use kurama.Profile.{
  Timing, new, fixed_profile, uniform_profile, burst_profile, type_fixed, type_uniform, type_burst,
}
use kurama.Profile.Accepts.{DivisorOf, new_iff}
use kurama.Validation.Rate.{validate_profile, validate_rate_profile}
use kurama.Validation.RateAccepts.{zero_iff}

-- The configuration that `NewScheduler` passes to `profile.New`.
unfoldable pub profile_config : Option RateProfileConfig → kurama.Profile.Config
profile_config none = record {
  type = [];
  min_burst_size = pos 0;
  max_burst_size = pos 0;
  delay_divisor = pos 0;
}
profile_config (some c) = record {
  type = c.type;
  min_burst_size = c.min_burst_size;
  max_burst_size = c.max_burst_size;
  delay_divisor = c.delay_divisor;
}

-- The batches of the profile stay small.
abbrev pub SmallBatches : Timing → Type 0
SmallBatches fixed_profile = Unit {0}
SmallBatches uniform_profile = Unit {0}
SmallBatches (burst_profile p) = p.max_burst_size ≤ 100

sizes :
    (lo hi : ℤ)
    → outside 2 100 lo ≡ false
    → (ltz hi lo || ltz (pos 100) hi) ≡ false
    → (a : ℕ) × (b : ℕ) × (lo ≡ pos a) × (hi ≡ pos b) × (2 ≤ a) × (a ≤ b) × (b ≤ 100)
sizes (pos a) (pos b) h k =
    (a, b, refl, refl, ground (arith, h), ground (arith, k), ground (arith, k))
sizes (pos a) (negsuc b) h k = absurd (ground (arith, k))
sizes (negsuc a) b h k = absurd (ground (arith, h))

divisor :
    (d : ℤ)
    → (not (eqz d (pos 0)) && outside 2 100 d) ≡ false
    → (n : ℕ) × DivisorOf d n × (2 ≤ n) × (n ≤ 100)
divisor (pos zero) h = (10, inl (refl, refl), omega arith, omega arith)
divisor (pos (suc d)) h = (suc d, inr refl, ground (arith, h), ground (arith, h))
divisor (negsuc d) h = absurd (ground (arith, h))

abbrev Accepted : RateProfileConfig → Type 0
Accepted c = (t : Timing) × (new (profile_config (some c)) ≡ ok t) × SmallBatches t

steady-Accepted :
    (c : RateProfileConfig)
    → (eqs c.type [] || eqs c.type type_fixed || eqs c.type type_uniform) ≡ true
    → validate_profile c ≡ ok tt
    → Accepted c
unfolding validate_profile profile_config
steady-Accepted c known h = elim (Bool-cases (eqs c.type type_uniform)) [
  | inl u ↦ (
    uniform_profile,
    (new_iff _ uniform_profile).1 (
        ground (
          arith,
          known,
          eqs_iff c.type type_uniform,
          zero_iff c.min_burst_size,
          zero_iff c.max_burst_size,
          zero_iff c.delay_divisor,
        )),
    tt,
  )
  | inr f ↦ (
    fixed_profile,
    (new_iff _ fixed_profile).1 (
        ground (
          arith,
          known,
          eqs_iff c.type type_fixed,
          eqs_iff c.type [],
          zero_iff c.min_burst_size,
          zero_iff c.max_burst_size,
          zero_iff c.delay_divisor,
        )),
    tt,
  )
]

burst-Accepted :
    (c : RateProfileConfig)
    → (eqs c.type [] || eqs c.type type_fixed || eqs c.type type_uniform) ≡ false
    → validate_profile c ≡ ok tt
    → Accepted c
unfolding validate_profile profile_config
burst-Accepted c other h =
    let (a, b, lo, hi, two, le, small) =
      sizes c.min_burst_size c.max_burst_size (ground (arith, other)) (ground (arith, other)) in
    let (n, d, n_two, n_small) = divisor c.delay_divisor (ground (arith, other)) in
    let is_burst : c.type ≡ type_burst = eqs→eq c.type type_burst (ground (arith, other)) in
    (
      burst_profile (record { min_burst_size = a; max_burst_size = b; delay_divisor = n }),
      (new_iff _ (burst_profile _)).1 (
        is_burst,
        lo,
        hi,
        d,
        record {
          min_ge_two = two;
          min_le_max = le;
          divisor_ge_two = n_two;
          divisor_le_hundred = n_small;
        },
      ),
      small,
    )

-- A profile that the validation of the configuration accepts is one that `profile.New` accepts, with
-- bursts of at most 100 requests.
pub validate_rate_profile-new :
    (p : Option RateProfileConfig)
    → validate_rate_profile p ≡ ok tt
    → (t : Timing) × (new (profile_config p) ≡ ok t) × SmallBatches t
unfolding profile_config validate_rate_profile
validate_rate_profile-new none h = (
  fixed_profile,
  (new_iff _ fixed_profile).1
      (inl refl, record { no_min = refl; no_max = refl; no_divisor = refl }),
  tt,
)
validate_rate_profile-new (some c) h =
    elim (Bool-cases (eqs c.type [] || eqs c.type type_fixed || eqs c.type type_uniform)) [
      | inl known ↦ steady-Accepted c known h
      | inr other ↦ burst-Accepted c other h
    ]

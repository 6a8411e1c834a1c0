-- ===== src/Profile/Accepts.antt =====
-- Which configurations `profile.New` accepts, and what it makes of them.
use kurama.Base.{
  Bool-cases, set, ℤ, pos, eqz, eqz→eq, eqs_iff, eqs, ℕ, ◌≤◌, ◌≡◌, refl, ◌↔◌, ◌⊎◌, inl, inr, false,
  [], arith,
}
use kurama.Base.Result.{ok}
use kurama.Profile.{
  Config, BurstProfile, Timing, fixed_profile, uniform_profile, burst_profile, new, type_fixed,
  type_uniform, type_burst, effective_delay_divisor,
}

-- The burst fields are left out.
pub record NoBurstFields (c : Config) : Type 0 where
  pub no_min : c.min_burst_size ≡ pos 0
  pub no_max : c.max_burst_size ≡ pos 0
  pub no_divisor : c.delay_divisor ≡ pos 0

-- A profile whose sizes and divisor are in range.
pub record BurstOk (p : BurstProfile) : Type 0 where
  pub min_ge_two : 2 ≤ p.min_burst_size
  pub min_le_max : p.min_burst_size ≤ p.max_burst_size
  pub divisor_ge_two : 2 ≤ p.delay_divisor
  pub divisor_le_hundred : p.delay_divisor ≤ 100

-- A divisor that is given, or ten for one that is left out.
abbrev pub DivisorOf : ℤ → ℕ → Type 0
DivisorOf given divisor = ((given ≡ pos 0) × (divisor ≡ 10)) ⊎ (given ≡ pos divisor)

effective_delay_divisor-DivisorOf :
    (given : ℤ) (divisor : ℕ)
    → effective_delay_divisor given ≡ pos divisor
    → DivisorOf given divisor
unfolding effective_delay_divisor
effective_delay_divisor-DivisorOf given divisor h = elim (Bool-cases (eqz given (pos 0))) [
  | inl left_out ↦ inl (eqz→eq given (pos 0) left_out, ground (arith, h, left_out))
  | inr set ↦ inr (ground (arith, h, set))
]

DivisorOf-effective_delay_divisor :
    (given : ℤ) (divisor : ℕ)
    → 2 ≤ divisor
    → DivisorOf given divisor
    → effective_delay_divisor given ≡ pos divisor
unfolding effective_delay_divisor
DivisorOf-effective_delay_divisor given divisor two (inl (left_out, ten)) =
    ground (arith, left_out, ten)
DivisorOf-effective_delay_divisor given divisor two (inr set) = ground (arith, set, two)

-- What the accepted profile is, in terms of the configuration.
abbrev pub Describes : Config → Timing → Type 0
Describes c fixed_profile = ((c.type ≡ []) ⊎ (c.type ≡ type_fixed)) × NoBurstFields c
Describes c uniform_profile = (c.type ≡ type_uniform) × NoBurstFields c
Describes c (burst_profile p) =
    (c.type ≡ type_burst)
    × (c.min_burst_size ≡ pos p.min_burst_size)
    × (c.max_burst_size ≡ pos p.max_burst_size)
    × DivisorOf c.delay_divisor p.delay_divisor
    × BurstOk p

pub new-Describes : (c : Config) (t : Timing) → new c ≡ ok t → Describes c t
unfolding new effective_delay_divisor
new-Describes c fixed_profile h = ground (
  arith,
  eqs_iff c.type [],
  eqs_iff c.type type_fixed,
  eqz→eq c.min_burst_size (pos 0),
  eqz→eq c.max_burst_size (pos 0),
  eqz→eq c.delay_divisor (pos 0),
)
new-Describes c uniform_profile h = ground (
  arith,
  eqs_iff c.type type_uniform,
  eqz→eq c.min_burst_size (pos 0),
  eqz→eq c.max_burst_size (pos 0),
  eqz→eq c.delay_divisor (pos 0),
)
new-Describes c (burst_profile p) h =
    let divisor : effective_delay_divisor c.delay_divisor ≡ pos p.delay_divisor =
      ground (arith, h) in
    (
      ground (arith, h, eqs_iff c.type type_burst),
      ground (arith, h),
      ground (arith, h),
      effective_delay_divisor-DivisorOf c.delay_divisor p.delay_divisor divisor,
      ground (arith, h),
    )

-- The tests of the other types fail.
uniform_not_fixed :
    (c : Config) → c.type ≡ type_uniform → (eqs c.type [] ≡ false) × (eqs c.type type_fixed ≡ false)
unfolding eqs
uniform_not_fixed c h = rw h (refl, refl)

burst_not_other :
    (c : Config)
    → c.type ≡ type_burst
    → (eqs c.type [] ≡ false) × (eqs c.type type_fixed ≡ false) × (eqs c.type type_uniform ≡ false)
unfolding eqs
burst_not_other c h = rw h (refl, refl, refl)

Describes-new : (c : Config) (t : Timing) → Describes c t → new c ≡ ok t
unfolding new effective_delay_divisor
Describes-new c fixed_profile h = ground (arith, eqs_iff c.type [], eqs_iff c.type type_fixed)
Describes-new c uniform_profile h =
    ground (arith, eqs_iff c.type type_uniform, uniform_not_fixed c h.0)
Describes-new c (burst_profile p) h =
    let two : 2 ≤ p.delay_divisor = h.4.divisor_ge_two in
    let divisor = DivisorOf-effective_delay_divisor c.delay_divisor p.delay_divisor two h.3 in
    ground (arith, eqs_iff c.type type_burst, burst_not_other c h.0, divisor)

-- A profile is returned exactly when the configuration describes it: the type is a known one, a
-- fixed or uniform profile sets no burst field, and a burst profile has 2 ≤ min ≤ max and a divisor
-- from 2 to 100, where 0 stands for 10.
pub new_iff : (c : Config) (t : Timing) → (new c ≡ ok t) ↔ Describes c t
new_iff c t = (new-Describes c t, Describes-new c t)

-- ===== src/Scheduler/Iteration.antt =====
-- One iteration of `Run`, whatever the schedule and the limiter answer.
use kurama.Base.{
  ltb, Bool-cases, Option-cases, ℤ, pos, negsuc, ltz, to_ℕ, ℕ, ◌≤◌, ◌≡◌, refl, subst, inl, inr,
  Bool, true, false, ◌||◌, Option, none, some, List, arith,
}
use kurama.Base.Result.{Result, ok, err}
use kurama.Base.Context.{Context}
use kurama.Profile.{RandomSource, batch_size, minute}
use kurama.Profile.Pacing.{Ready}
use kurama.RateLimit.{Decision, LimitError}
use kurama.Scheduler.Paced.{Positive, waits, slots, run_decision-Paces, accept_rate-range}
use kurama.Scheduler.Run.{
  Event, Clock, accept_decision, current_requests_per_minute, reserve_batch, run_rate,
  run_iteration,
}
use kurama.Scheduler.State.{Scheduler}

accept_decision-granted :
    (requested : ℕ) (r : Result LimitError Decision) (d : Decision)
    → accept_decision requested r ≡ some d
    → (ltz d.granted (pos 0) ≡ false) × (ltz (pos requested) d.granted ≡ false)
unfolding accept_decision
accept_decision-granted requested (err e) d h = absurd (ground (arith, h))
accept_decision-granted requested (ok b) d h =
    elim (Bool-cases (ltz b.granted (pos 0) || ltz (pos requested) b.granted)) [
      | inl bad ↦ absurd (ground (arith, rw (bad, accept_decision) at h))
      | inr good ↦
          let same : b ≡ d = ground (arith, rw (good, accept_decision) at h) in
          subst (λ x. (ltz x.granted (pos 0) ≡ false) × (ltz (pos requested) x.granted ≡ false))
            same (ground (arith, good), ground (arith, good))
    ]

to_ℕ-le : (n : ℕ) (z : ℤ) → ltz (pos n) z ≡ false → to_ℕ z ≤ n
to_ℕ-le n (pos a) h = ground (arith, h)
to_ℕ-le n (negsuc a) h = omega arith

module _ {ℓ} {S : Type ℓ} (r : RandomSource) (clock : Clock S) (sch : Scheduler S) where
  -- Whatever the limiter answers, a reserved batch has between 0 permits and the planned rate.
  pub reserve_batch-granted :
      (ctx : Context) (rpm : ℕ) (s : S) (d : Decision)
      → (reserve_batch r sch ctx rpm s).0 ≡ some d
      → (ltz d.granted (pos 0) ≡ false) × (to_ℕ d.granted ≤ rpm)
  unfolding reserve_batch
  reserve_batch-granted ctx rpm s d h =
      let requested = batch_size r sch.profile rpm in
      elim (Bool-cases (ltb requested 1 || ltb rpm requested)) [
        | inl bad ↦ absurd (ground (arith, rw (bad, reserve_batch) at h))
        | inr good ↦
            let reply =
              (sch.limiter.try_acquire ctx (record { requests = pos rpm; window = pos minute })
                (pos requested) s).0 in
            let h' : accept_decision requested reply ≡ some d = rw (good, reserve_batch) at h in
            let (nonneg, fits) = accept_decision-granted requested reply d h' in
            (nonneg, ground (arith, good, to_ℕ-le requested d.granted fits))
      ]

  -- An accepted rate lies between 1 and 6000, whatever the schedule answers.
  pub current_requests_per_minute-range :
      (ctx : Context) (s : S) (rpm : ℕ)
      → (current_requests_per_minute r sch ctx s).0 ≡ some rpm
      → (1 ≤ rpm) × (rpm ≤ 6_000)
  unfolding current_requests_per_minute
  current_requests_per_minute-range ctx s rpm h = elim (Option-cases sch.schedule) [
    | inl e ↦ absurd (ground (arith, rw (e, current_requests_per_minute) at h))
    | inr (p, e) ↦
        accept_rate-range (p.requests_per_minute ctx s).0 rpm
          (rw (e, current_requests_per_minute) at h)
  ]

  -- One part of a run that may have executed slots.
  abbrev pub Steady : ℕ → Bool × List Event × S → Type 0
  Steady most out = Positive out.1 × (slots out.1 ≤ most) × (out.0 ≡ true → 1 ≤ waits out.1)

  run_rate-Steady :
      (rate : Option ℕ) (s : S)
      → Ready sch.profile
      → ((rpm : ℕ) → rate ≡ some rpm → (1 ≤ rpm) × (rpm ≤ 6_000))
      → Steady 6_000 (run_rate r clock sch rate s)
  unfolding run_rate
  run_rate-Steady none s ready range = elim (Option-cases (clock.context s).error) [
    | inl live ↦ rw (live, run_rate) ((refl, tt), omega arith, λ g. omega arith)
    | inr (e, ended) ↦ rw (ended, run_rate) (tt, omega arith, λ g. absurd (ground (arith, g)))
  ]
  run_rate-Steady (some rpm) s ready range =
      let (lo, hi) = range rpm refl in
      let reserved = reserve_batch r sch (clock.context s) rpm s in
      elim (Option-cases reserved.0) [
        | inl e ↦ rw (e, run_rate) ((refl, tt), omega arith, λ g. omega arith)
        | inr (d, e) ↦
            let (nonneg, fits) = reserve_batch-granted (clock.context s) rpm s d e in
            let (p, most, all_of, once) =
              run_decision-Paces r clock sch d rpm reserved.1 ready lo hi nonneg in
            rw (e, run_rate) (p, omega (arith, most, fits, hi), λ g. once)
      ]

  -- An iteration waits a positive time whenever it waits, executes at most 6000 slots, and goes on
  -- only after it has waited, whatever the schedule and the limiter answer. The profile is valid.
  pub run_iteration-Steady :
      (s : S) → Ready sch.profile → Steady 6_000 (run_iteration r clock sch s)
  unfolding run_iteration
  run_iteration-Steady s ready =
      let rate = current_requests_per_minute r sch (clock.context s) s in
      run_rate-Steady rate.0 rate.1 ready (current_requests_per_minute-range (clock.context s) s)

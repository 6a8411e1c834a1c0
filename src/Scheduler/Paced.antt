-- ===== src/Scheduler/Paced.antt =====
-- The pace of a run: it never spins, and it executes what the limiter has granted.
use kurama.Base.{
  Bool-cases, ℤ, pos, negsuc, ltz, eqz, to_ℕ, ℕ, zero, suc, ◌+◌, ◌≤◌, ◌≡◌, refl, sym, ap, subst,
  inl, inr, Bool, true, false, some, List, [], ◌∷◌, arith,
}
use kurama.Base.Result.{Result, ok, err}
use kurama.Profile.{RandomSource}
use kurama.Profile.Pacing.{Ready, next_delay-pos}
use kurama.RateLimit.{Decision}
use kurama.Scheduler.Run.{
  Event, executed, waited, Clock, accept_rate, empty_delay, batch_delay, wait_for, run_batch,
  run_decision,
}
use kurama.Scheduler.Slot.{Handled, execute_reserved_slot}
use kurama.Scheduler.State.{Scheduler}

-- The waits are positive.
abbrev pub Positive : List Event → Type 0
Positive [] = Unit {0}
Positive (executed hs ∷ es) = Positive es
Positive (waited d ∷ es) = (ltz (pos 0) d ≡ true) × Positive es

abbrev pub waits : List Event → ℕ
waits [] = 0
waits (executed hs ∷ es) = waits es
waits (waited d ∷ es) = suc (waits es)

abbrev pub slots : List Event → ℕ
slots [] = 0
slots (executed hs ∷ es) = suc (slots es)
slots (waited d ∷ es) = slots es

empty_delay-pos : (d : Decision) → ltz (pos 0) (empty_delay d) ≡ true
unfolding empty_delay
empty_delay-pos d = ground arith

later_pos : (a : ℕ) (b : ℤ) → 1 ≤ a → ltz (pos a) b ≡ true → ltz (pos 0) b ≡ true
later_pos a (pos b) h k = ground arith
later_pos a (negsuc b) h k = ground arith

pub accept_rate-range :
    (r : Result kurama.RateSchedule.ScheduleError ℤ) (rpm : ℕ)
    → accept_rate r ≡ some rpm
    → (1 ≤ rpm) × (rpm ≤ 6_000)
unfolding accept_rate
accept_rate-range (err e) rpm h = absurd (ground (arith, h))
accept_rate-range (ok (pos n)) rpm h = ground (arith, h)
accept_rate-range (ok (negsuc n)) rpm h = absurd (ground (arith, h))

module _ {ℓ} {S : Type ℓ} (r : RandomSource) (clock : Clock S) (sch : Scheduler S) where
  batch_delay-pos :
      (d : Decision) (rpm position : ℕ)
      → Ready sch.profile
      → 1 ≤ rpm
      → rpm ≤ 6_000
      → 1 ≤ position
      → position ≤ to_ℕ d.granted
      → ltz (pos 0) (batch_delay r sch d rpm position) ≡ true
  unfolding batch_delay
  batch_delay-pos d rpm position ready lo hi k l =
      let delay_pos =
        next_delay-pos r sch.profile rpm position (to_ℕ d.granted) ready lo (omega (arith, hi)) k
          l in
      ground (arith, delay_pos, later_pos _ d.retry_after delay_pos)

  -- What one part of a run did, when it was to execute some slots.
  record Paced (planned : ℕ) (out : Bool × List Event × S) : Type 0 where
    positive : Positive out.1
    at_most : slots out.1 ≤ planned
    all_of : out.0 ≡ true → slots out.1 ≡ planned
    waits_once : 1 ≤ planned → 1 ≤ waits out.1

  one_more :
      (go : Bool) (hs : List Handled) (delay : ℤ) (s : S) (left : ℕ) (rest : Bool × List Event × S)
      → ltz (pos 0) delay ≡ true
      → Paced left rest
      → Paced (suc left) (elim go [
        | false ↦ (false, executed hs ∷ (waited delay ∷ []), s)
        | true ↦ (rest.0, executed hs ∷ (waited delay ∷ rest.1), rest.2)
      ])
  one_more false hs delay s left rest d p = record {
    positive = (d, tt);
    at_most = omega arith;
    all_of = λ g. absurd (ground (arith, g));
    waits_once = λ q. omega arith;
  }
  one_more true hs delay s left rest d p = record {
    positive = (d, p.positive);
    at_most = omega (arith, p.at_most);
    all_of = λ g. ap suc (p.all_of g);
    waits_once = λ q. omega arith;
  }

  run_batch-Paced :
      (left position : ℕ) (d : Decision) (rpm : ℕ) (s : S)
      → Ready sch.profile
      → 1 ≤ rpm
      → rpm ≤ 6_000
      → 1 ≤ position
      → position + left ≡ suc (to_ℕ d.granted)
      → Paced left (run_batch r clock left position sch d rpm s)
  unfolding run_batch
  run_batch-Paced zero position d rpm s ready lo hi k e = record {
    positive = tt;
    at_most = omega arith;
    all_of = λ g. refl;
    waits_once = λ p. absurd (omega (arith, p));
  }
  run_batch-Paced (suc left) position d rpm s ready lo hi k e =
      let slot = execute_reserved_slot sch.executor sch.random (clock.context s) sch.operations s in
      let delay = batch_delay r sch d rpm position in
      let waiting = clock.wait delay slot.1 in
      one_more waiting.0 slot.0 delay waiting.1 left
        (run_batch r clock left (position + 1) sch d rpm waiting.1)
        (batch_delay-pos d rpm position ready lo hi k (omega (arith, e)))
        (run_batch-Paced left (position + 1) d rpm waiting.1 ready lo hi (omega arith)
          (omega (arith, e)))

  -- The events of a part that had a number of permits.
  abbrev pub Paces : ℕ → Bool × List Event × S → Type 0
  Paces granted out =
      Positive out.1
      × (slots out.1 ≤ granted)
      × (out.0 ≡ true → slots out.1 ≡ granted)
      × (1 ≤ waits out.1)

  no_permits : (z : ℤ) → eqz z (pos 0) ≡ true → to_ℕ z ≡ 0
  no_permits (pos n) h = ground (arith, h)
  no_permits (negsuc n) h = refl

  some_permits : (z : ℤ) → ltz z (pos 0) ≡ false → eqz z (pos 0) ≡ false → 1 ≤ to_ℕ z
  some_permits (pos n) h k = ground (arith, k)
  some_permits (negsuc n) h k = absurd (ground (arith, h))

  -- With a decision, a run waits a positive time whenever it waits, it waits at least once, and it
  -- executes at most as many slots as the decision grants: exactly as many when no wait was cut
  -- short by the end of the context. The profile is valid, the rate is in range, and the number of
  -- permits is not negative.
  pub run_decision-Paces :
      (d : Decision) (rpm : ℕ) (s : S)
      → Ready sch.profile
      → 1 ≤ rpm
      → rpm ≤ 6_000
      → ltz d.granted (pos 0) ≡ false
      → Paces (to_ℕ d.granted) (run_decision r clock sch d rpm s)
  unfolding run_decision
  run_decision-Paces d rpm s ready lo hi granted = elim (Bool-cases (eqz d.granted (pos 0))) [
    | inl nothing ↦
        let same : run_decision r clock sch d rpm s ≡ wait_for r clock (empty_delay d) s =
          rw (nothing, run_decision) refl in
        let none : to_ℕ d.granted ≡ 0 = no_permits d.granted nothing in
        subst (Paces (to_ℕ d.granted)) (sym same)
          ((empty_delay-pos d, tt), omega arith, λ g. sym none, omega arith)
    | inr something ↦
        let same : run_decision r clock sch d rpm s
            ≡ run_batch r clock (to_ℕ d.granted) 1 sch d rpm s =
          rw (something, run_decision) refl in
        let p =
          run_batch-Paced (to_ℕ d.granted) 1 d rpm s ready lo hi (omega arith) (omega arith) in
        subst (Paces (to_ℕ d.granted)) (sym same)
          (p.positive, p.at_most, p.all_of, p.waits_once (some_permits d.granted granted something))
  ]

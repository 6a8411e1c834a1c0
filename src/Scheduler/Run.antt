-- ===== src/Scheduler/Run.antt =====
-- `Run` of internal/runner/scheduler.go and the operations of scheduler_execution.go that it calls.
use kurama.Base.{
  ltb, if◌then◌else◌, ℤ, pos, ltz, eqz, to_ℕ, outside, ℕ, zero, suc, ◌+◌, Bool, true, false, ◌&&◌,
  ◌||◌, Option, none, some, List, [], ◌∷◌, ◌++◌,
}
use kurama.Base.Result.{Result, ok, err}
use kurama.Base.Context.{Context}
use kurama.Config.{max_requests_per_minute}
use kurama.Profile.{RandomSource, minute, batch_size, next_delay}
use kurama.RateLimit.{Decision, LimitError}
use kurama.RateSchedule.{ScheduleError}
use kurama.Scheduler.Slot.{Handled, execute_reserved_slot}
use kurama.Scheduler.State.{Scheduler}

-- `time.Second`
abbrev pub second : ℕ
second = 1_000_000_000

-- What a run does in order: the outcomes of a slot, and a wait.
pub data Event : Type 0 where
  executed : List Handled → Event
  waited : ℤ → Event

-- How a run uses its context: what it is at a state, and a wait, which reports `false` when the
-- context ended before the delay did.
pub record Clock {ℓ} (S : Type ℓ) : Type ℓ where
  pub context : S → Context
  pub wait : ℤ → S → Bool × S

-- An accepted rate.
unfoldable pub accept_rate : Result ScheduleError ℤ → Option ℕ
accept_rate (err e) = none
accept_rate (ok rpm) = if outside 1 max_requests_per_minute rpm then none else some (to_ℕ rpm)

-- An accepted decision for a request of some permits.
unfoldable pub accept_decision : ℕ → Result LimitError Decision → Option Decision
accept_decision requested (err e) = none
accept_decision requested (ok d) =
    if ltz d.granted (pos 0) || ltz (pos requested) d.granted then none else some d

-- The wait when nothing was granted.
unfoldable pub empty_delay : Decision → ℤ
empty_delay d = if ltz (pos 0) d.retry_after then d.retry_after else pos second

module _ {ℓ} {S : Type ℓ} (profile_random : RandomSource) where
  -- `currentRequestsPerMinute`; a scheduler that `NewScheduler` made has a schedule.
  unfoldable pub current_requests_per_minute : Scheduler S → Context → S → Option ℕ × S
  unfolding accept_rate
  current_requests_per_minute sch ctx s = elim sch.schedule [
    | none ↦ (none, s)
    | some p ↦ let (r, s') = p.requests_per_minute ctx s in (accept_rate r, s')
  ]

  -- `reserveBatch`
  unfoldable pub reserve_batch : Scheduler S → Context → ℕ → S → Option Decision × S
  unfolding accept_decision
  reserve_batch sch ctx rpm s =
      let requested = batch_size profile_random sch.profile rpm in
      if ltb requested 1 || ltb rpm requested
      then (none, s)
      else let (r, s') =
          sch.limiter.try_acquire ctx (record { requests = pos rpm; window = pos minute })
            (pos requested) s in
        (accept_decision requested r, s')

  abbrev pub execute_slots : ℕ → Scheduler S → Context → S → List Event × S
  execute_slots zero sch ctx s = ([], s)
  execute_slots (suc k) sch ctx s =
      let (handled, s') = execute_reserved_slot sch.executor sch.random ctx sch.operations s in
      let (events, s'') = execute_slots k sch ctx s' in (executed handled ∷ events, s'')

  -- `executeSlot`
  unfoldable pub execute_slot : Scheduler S → Context → S → List Event × S
  unfolding current_requests_per_minute reserve_batch
  execute_slot sch ctx s =
      let (rate, s1) = current_requests_per_minute sch ctx s in
      elim rate [
        | none ↦ ([], s1)
        | some rpm ↦
            let (reserved, s2) = reserve_batch sch ctx rpm s1 in
            elim reserved [ none ↦ ([], s2) | some d ↦ execute_slots (to_ℕ d.granted) sch ctx s2 ]
      ]

  -- The wait after the request at a position of the batch.
  unfoldable pub batch_delay : Scheduler S → Decision → ℕ → ℕ → ℤ
  batch_delay sch d rpm position =
      let delay = pos (
        next_delay profile_random sch.profile (record {
          requests_per_minute = rpm;
          position = position;
          batch_size = to_ℕ d.granted;
        })) in
      if eqz (pos position) d.granted && ltz delay d.retry_after then d.retry_after else delay

  module _ (clock : Clock S) where
    -- One wait, and whether the run goes on.
    abbrev pub wait_for : ℤ → S → Bool × List Event × S
    wait_for delay s = let (go, s') = clock.wait delay s in (go, waited delay ∷ [], s')

    -- The loop over the positions of a batch.
    unfoldable pub run_batch : ℕ → ℕ → Scheduler S → Decision → ℕ → S → Bool × List Event × S
    unfolding batch_delay
    run_batch zero position sch d rpm s = (true, [], s)
    run_batch (suc left) position sch d rpm s =
        let (handled, s1) =
          execute_reserved_slot sch.executor sch.random (clock.context s) sch.operations s in
        let delay = batch_delay sch d rpm position in
        let (go, s2) = clock.wait delay s1 in
        let (go', events, s3) = run_batch left (position + 1) sch d rpm s2 in
        elim go [
          | false ↦ (false, executed handled ∷ (waited delay ∷ []), s2)
          | true ↦ (go', executed handled ∷ (waited delay ∷ events), s3)
        ]

    -- The part of an iteration that has a decision.
    unfoldable pub run_decision : Scheduler S → Decision → ℕ → S → Bool × List Event × S
    unfolding run_batch empty_delay
    run_decision sch d rpm s =
        if eqz d.granted (pos 0)
        then wait_for (empty_delay d) s
        else run_batch (to_ℕ d.granted) 1 sch d rpm s

    unfoldable pub run_rate : Scheduler S → Option ℕ → S → Bool × List Event × S
    unfolding run_decision reserve_batch
    run_rate sch none s = elim (clock.context s).error [
      | some e ↦ (false, [], s)
      | none ↦ wait_for (pos second) s
    ]
    run_rate sch (some rpm) s =
        let (reserved, s') = reserve_batch sch (clock.context s) rpm s in
        elim reserved [ none ↦ wait_for (pos second) s' | some d ↦ run_decision sch d rpm s' ]

    -- One iteration of the loop of `Run`, and whether the loop goes on.
    unfoldable pub run_iteration : Scheduler S → S → Bool × List Event × S
    unfolding run_rate current_requests_per_minute
    run_iteration sch s =
        let (rate, s') = current_requests_per_minute sch (clock.context s) s in run_rate sch rate s'

    -- `Run`, for a number of iterations; it ends only when a context does.
    unfoldable pub run : ℕ → Scheduler S → S → List Event × S
    unfolding run_iteration
    run zero sch s = ([], s)
    run (suc n) sch s =
        let (go, events, s') = run_iteration sch s in
        let (more, s'') = run n sch s' in
        elim go [ false ↦ (events, s') | true ↦ (events ++ more, s'') ]

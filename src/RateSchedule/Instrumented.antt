-- ===== src/RateSchedule/Instrumented.antt =====
-- internal/runner/rateschedule/instrumented.go: a schedule that reports each resolution.
use kurama.Base.{
  elapsed, if◌then◌else◌, ℤ, pos, Bytes, eqs, ℕ, ◌≡◌, refl, Bool, not, Option, none, some, List, [],
  ◌∷◌, ◌++◌,
}
use kurama.Base.Result.{Result, ok, err}
use kurama.Base.Context.{Context}
use kurama.RateSchedule.{Schedule, ScheduleError}

-- The constants `ResultSuccess` and `ResultError`.
pub data Outcome : Type 0 where
  success error : Outcome

pub record Observation : Type 0 where
  pub type : Bytes
  pub result : Outcome
  pub requests_per_minute : ℤ
  pub duration : ℤ

pub record InstrumentedSchedule {ℓ} (S : Type ℓ) : Type ℓ where
  pub schedule : Schedule S
  pub schedule_type : Bytes

pub data InstrumentError : Type 0 where
  nil_schedule empty_schedule_type nil_observer : InstrumentError

-- `NewInstrumented`; `observed` says that the observer is not nil.
unfoldable pub new_instrumented {ℓ} :
    {S : Type ℓ}
    → Option (Schedule S)
    → Bytes
    → Bool
    → Result InstrumentError (InstrumentedSchedule S)
new_instrumented none schedule_type observed = err nil_schedule
new_instrumented (some s) schedule_type observed =
    if eqs schedule_type []
    then err empty_schedule_type
    else if not observed
    then err nil_observer
    else ok (record { schedule = s; schedule_type = schedule_type })

outcome_of : Result ScheduleError ℤ → Outcome
outcome_of (ok n) = success
outcome_of (err e) = error

-- An error comes with a zero rate.
abbrev rate_of : Result ScheduleError ℤ → ℤ
rate_of (ok n) = n
rate_of (err e) = pos 0

unfoldable pub requests_per_minute {ℓ} :
    {S : Type ℓ}
    → InstrumentedSchedule S
    → ℕ
    → ℕ
    → Context
    → S × List Observation
    → Result ScheduleError ℤ × (S × List Observation)
unfolding outcome_of
requests_per_minute i started finished ctx (s, log) =
    let (r, s') = i.schedule.requests_per_minute ctx s in
    let seen : Observation = record {
      type = i.schedule_type;
      result = outcome_of r;
      requests_per_minute = rate_of r;
      duration = elapsed started finished;
    } in
    (r, (s', log ++ (seen ∷ [])))

abbrev pub Reports : Result ScheduleError ℤ → Observation → Type 0
Reports (ok n) o = (o.result ≡ success) × (o.requests_per_minute ≡ n)
Reports (err e) o = (o.result ≡ error) × (o.requests_per_minute ≡ pos 0)

resolution-Reports :
    (r : Result ScheduleError ℤ) (o : Observation)
    → o.result ≡ outcome_of r
    → o.requests_per_minute ≡ rate_of r
    → Reports r o
unfolding outcome_of
resolution-Reports (ok n) o p q = (p, q)
resolution-Reports (err e) o p q = (p, q)

-- The decorator returns the rate or error of the schedule it wraps and leaves it in the state that
-- the bare call leaves, and adds one observation, of that rate or error.
pub requests_per_minute_transparent {ℓ} :
    {S : Type ℓ} (i : InstrumentedSchedule S) (started finished : ℕ) (ctx : Context) (s : S)
    (log : List Observation)
    → let bare = i.schedule.requests_per_minute ctx s in
      let r = requests_per_minute i started finished ctx (s, log) in
      (r.0 ≡ bare.0)
      × (r.1.0 ≡ bare.1)
      × ((o : Observation) × (r.1.1 ≡ log ++ (o ∷ []))
          × (o.type ≡ i.schedule_type)
          × Reports bare.0 o)
unfolding requests_per_minute
requests_per_minute_transparent i started finished ctx s log =
    (refl, refl, (_, refl, refl, resolution-Reports _ _ refl refl))

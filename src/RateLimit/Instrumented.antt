-- ===== src/RateLimit/Instrumented.antt =====
-- internal/runner/ratelimit/instrumented.go: a limiter that reports each acquisition. The observer
-- is a list of observations, the oldest first; the clock is read before and after the call.
use kurama.Base.{
  elapsed, if◌then◌else◌, ℤ, pos, ltz, eqz, eqz→eq, eqz_refl, Bytes, eqs, ℕ, ◌≡◌, refl, ◌≢◌, ◌↔◌,
  Bool, true, not, Option, none, some, List, [], ◌∷◌, ◌++◌, arith,
}
use kurama.Base.Result.{Result, ok, err}
use kurama.Base.Context.{Context}
use kurama.RateLimit.{Limit, Decision, LimitError, Limiter}

-- The constants `ResultAllowed`, `ResultPartial`, `ResultRejected` and `ResultError`.
pub data Outcome : Type 0 where
  allowed partial rejected error : Outcome

pub record Observation : Type 0 where
  pub backend : Bytes
  pub result : Outcome
  pub duration : ℤ
  pub requested_permits : ℤ
  pub granted_permits : ℤ

pub record InstrumentedLimiter {ℓ} (S : Type ℓ) : Type ℓ where
  pub limiter : Limiter S
  pub backend : Bytes

pub data InstrumentError : Type 0 where
  nil_limiter empty_backend nil_observer : InstrumentError

-- `NewInstrumentedLimiter`; `observed` says that the observer is not nil.
unfoldable pub new_instrumented_limiter {ℓ} :
    {S : Type ℓ}
    → Option (Limiter S)
    → Bytes
    → Bool
    → Result InstrumentError (InstrumentedLimiter S)
new_instrumented_limiter none backend observed = err nil_limiter
new_instrumented_limiter (some l) backend observed =
    if eqs backend []
    then err empty_backend
    else if not observed
    then err nil_observer
    else ok (record { limiter = l; backend = backend })

-- The zero decision that accompanies an error.
abbrev decision_of : Result LimitError Decision → Decision
decision_of (ok d) = d
decision_of (err e) = record { granted = pos 0; retry_after = pos 0 }

outcome_of : ℤ → Result LimitError Decision → Outcome
outcome_of permits (err e) = error
outcome_of permits (ok d) =
    if eqz d.granted permits then allowed else if ltz (pos 0) d.granted then partial else rejected

unfoldable pub try_acquire {ℓ} :
    {S : Type ℓ}
    → InstrumentedLimiter S
    → ℕ
    → ℕ
    → Context
    → Limit
    → ℤ
    → S × List Observation
    → Result LimitError Decision × (S × List Observation)
unfolding outcome_of
try_acquire l started finished ctx limit permits (s, log) =
    let (r, s') = l.limiter.try_acquire ctx limit permits s in
    let seen : Observation = record {
      backend = l.backend;
      result = outcome_of permits r;
      duration = elapsed started finished;
      requested_permits = permits;
      granted_permits = (decision_of r).granted;
    } in
    (r, (s', log ++ (seen ∷ [])))

-- What an observation says of the decision that it reports.
abbrev pub Reports : ℤ → Result LimitError Decision → Observation → Type 0
Reports permits (err e) o = (o.result ≡ error) × (o.granted_permits ≡ pos 0)
Reports permits (ok d) o =
    (o.granted_permits ≡ d.granted)
    × ((o.result ≡ allowed) ↔ (d.granted ≡ permits))
    × ((o.result ≡ partial) ↔ ((d.granted ≢ permits) × (ltz (pos 0) d.granted ≡ true)))
    × (o.result ≢ error)

eqz_iff : (a b : ℤ) → (eqz a b ≡ true) ↔ (a ≡ b)
eqz_iff a b = (eqz→eq a b, λ e. rw e (eqz_refl b))

outcome-Reports :
    (permits : ℤ) (r : Result LimitError Decision) (o : Observation)
    → o.result ≡ outcome_of permits r
    → o.granted_permits ≡ (decision_of r).granted
    → Reports permits r o
unfolding outcome_of
outcome-Reports permits (err e) o p q = (p, q)
outcome-Reports permits (ok d) o p q = ground (arith, eqz_iff d.granted permits)

-- The decorator returns the decision or error of the limiter it wraps and leaves it in the state
-- that the bare call leaves, and it adds one observation, which names the backend and the permits
-- asked for, calls a full grant allowed and a smaller positive one partial, and tells errors apart.
pub try_acquire_transparent {ℓ} :
    {S : Type ℓ} (l : InstrumentedLimiter S) (started finished : ℕ) (ctx : Context) (limit : Limit)
    (permits : ℤ) (s : S) (log : List Observation)
    → let bare = l.limiter.try_acquire ctx limit permits s in
      let r = try_acquire l started finished ctx limit permits (s, log) in
      (r.0 ≡ bare.0)
      × (r.1.0 ≡ bare.1)
      × ((o : Observation) × (r.1.1 ≡ log ++ (o ∷ []))
          × (o.backend ≡ l.backend)
          × (o.requested_permits ≡ permits)
          × Reports permits bare.0 o)
unfolding try_acquire
try_acquire_transparent l started finished ctx limit permits s log =
    (refl, refl, (_, refl, refl, refl, outcome-Reports permits _ _ refl refl))

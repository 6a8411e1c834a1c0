-- ===== src/RateLimit/Contract.antt =====
-- The contract of a limiter that keeps one budget per window, and what every such limiter promises
-- to its callers. The implementations fill the record; the theorems take it as a parameter.
use kurama.Base.{All, ℤ, pos, to_ℕ, ℕ, ◌+◌, ◌*◌, ◌≤◌, ◌≡◌, refl, sym, ap, ◌∙◌, List, [], ◌∷◌, arith}
use kurama.Base.Result.{Result, ok, err}
use kurama.RateLimit.{Limit, Decision, LimitError, Admissible, decision}
use kurama.RateLimit.Budget.{
  Budget, grant, spend, until_next, granted_total, granted_total-le, Call, Within, window_start,
}

-- The clock of the limiter ticks once in `unit` nanoseconds. The budget that a state holds is read at
-- a time, since a store may forget it; within the window of an acquisition it does not.
pub record BudgetLimiter {ℓ} (S : Type ℓ) : Type ℓ where
  pub unit : ℕ
  pub acquire : ℕ → Limit → ℤ → S → Result LimitError Decision × S
  pub view : ℕ → ℕ → S → Budget
  pub acquire-grant :
      (now requests window wanted : ℕ) (limit : Limit) (permits : ℤ) (s : S)
      → Admissible limit permits requests (window * unit) wanted
      → 1 ≤ window
      → ((acquire now limit permits s).0
          ≡ ok (
              decision wanted
                (grant window requests wanted now (view now window s))
                (until_next window now * unit)))
        × ((later : ℕ)
            → window_start window later ≡ window_start window now
            → view later window (acquire now limit permits s).1
              ≡ spend window requests wanted now (view now window s))

abbrev pub granted_by : Result LimitError Decision → ℕ
granted_by (ok d) = to_ℕ d.granted
granted_by (err e) = 0

module _ {ℓ} {S : Type ℓ} (L : BudgetLimiter S) where
  open L use {unit, acquire, view, acquire-grant}

  -- The arguments of a call, for windows of one length.
  abbrev limit_of : ℕ → Call → Limit
  limit_of window c = record { requests = pos c.requests; window = pos (window * unit) }

  -- The permits that a sequence of calls receives.
  pub total : ℕ → List Call → S → ℕ
  total window [] s = 0
  total window (c ∷ cs) s =
      let (r, s') = acquire c.now (limit_of window c) (pos c.permits) s in
      granted_by r + total window cs s'

  -- The calls are admissible.
  abbrev pub Valid : Call → Type 0
  Valid c = (1 ≤ c.permits) × (c.permits ≤ c.requests)

  admissible :
      (window : ℕ) (c : Call)
      → 1 ≤ window
      → 1 ≤ unit
      → Valid c
      → Admissible (limit_of window c) (pos c.permits) c.requests (window * unit) c.permits
  admissible window c w u v = record {
    requests_eq = refl;
    window_eq = refl;
    permits_eq = refl;
    window_pos = grind arith;
    wanted_pos = v.0;
    wanted_le = v.1;
  }

  -- Calls of one window, all of which see the budget `b` when they begin.
  total-eq-granted_total :
      (window start : ℕ) (cs : List Call) (s : S) (b : Budget) (most : ℕ)
      → 1 ≤ window
      → 1 ≤ unit
      → All Valid cs
      → All (Within window start most) cs
      → ((later : ℕ) → window_start window later ≡ start → view later window s ≡ b)
      → total window cs s ≡ granted_total window cs b
  unfolding total granted_total decision
  total-eq-granted_total window start [] s b most w u v k same = refl
  total-eq-granted_total window start (c ∷ cs) s b most w u v k same =
      let (r, after) =
        acquire-grant c.now c.requests window c.permits (limit_of window c) (pos c.permits) s
          (admissible window c w u v.0) w in
      let first = same c.now k.0.at_start in
      let next : Budget = spend window c.requests c.permits c.now b in
      let held = λ (later : ℕ) (e : window_start window later ≡ start).
        after later (e ∙ sym k.0.at_start) ∙ ap (spend window c.requests c.permits c.now) first in
      rw (r, first, total-eq-granted_total window start cs _ next most w u v.1 k.1 held) refl

  -- Admissible calls that all fall into one window of the clock receive together at most the
  -- largest request budget that one of them names, whatever earlier windows used.
  pub total-le :
      (window start most : ℕ) (cs : List Call) (s : S)
      → 1 ≤ window
      → 1 ≤ unit
      → All Valid cs
      → All (Within window start most) cs
      → ((now : ℕ) → (view now window s).start ≡ start → (view now window s).used ≤ most)
      → total window cs s ≤ most
  unfolding total decision grant granted_total
  total-le window start most [] s w u v h k = omega arith
  total-le window start most (c ∷ cs) s w u v h k =
      let (r, after) =
        acquire-grant c.now c.requests window c.permits (limit_of window c) (pos c.permits) s
          (admissible window c w u v.0) w in
      let b = view c.now window s in
      let next = spend window c.requests c.permits c.now b in
      let rest =
        total-eq-granted_total window start cs _ next most w u v.1 h.1
          (λ later e. after later (e ∙ sym h.0.at_start)) in
      rw (r, rest) (granted_total-le window start most (c ∷ cs) b h (k c.now))

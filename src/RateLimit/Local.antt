-- ===== src/RateLimit/Local.antt =====
-- internal/runner/ratelimit/local.go: a fixed-window budget in one process. A time is the number of
-- nanoseconds since Go's zero time, so `Truncate` rounds down to a multiple of the window.
use native.Mathlib.Nat.{mul-one}
use kurama.Base.{
  ◌==◌, if◌then◌else◌, eq→==, Bool-cases, ℤ, to_ℕ, ℕ, ◌+◌, ◌-◌, ◌*◌, ◌%◌, ◌≤◌, min, ◌≡◌, refl, inl,
  inr, ◌||◌, not, arith,
}
use kurama.Base.Result.{Result, ok, err}
use kurama.Base.Context.{Context, live_context}
use kurama.RateLimit.{
  Limit, Decision, LimitError, Limiter, check_call, check_call-Admissible, Admissible, decision,
}
use kurama.RateLimit.Contract.{BudgetLimiter}
use kurama.RateLimit.Budget.{Budget, window_start, used_at, grant, spend, until_next}

pub record LocalLimiter : Type 0 where
  pub window_start : ℕ
  pub window : ℕ
  pub used : ℕ

abbrev pub new_local_limiter : LocalLimiter
new_local_limiter = record { window_start = 0; window = 0; used = 0 }

-- The limiter enters the window that holds `now` with an empty count, unless it is in it already.
roll_over : ℕ → ℕ → LocalLimiter → LocalLimiter
roll_over window start l =
    if not (l.window == window) || not (l.window_start == start)
    then record { window_start = start; window = window; used = 0 }
    else l

-- The part of `TryAcquire` that holds the lock: the guards have shown the arguments positive.
take_permits : ℕ → ℕ → ℕ → ℕ → LocalLimiter → Decision × LocalLimiter
unfolding roll_over window_start decision
take_permits now requests window permits l =
    let start = window_start window now in
    let l' = roll_over window start l in
    let granted = min permits (requests - l'.used) in
    (decision permits granted (start + window - now), record l' { used = l'.used + granted })

unfoldable pub try_acquire :
    Context → ℕ → Limit → ℤ → LocalLimiter → Result LimitError Decision × LocalLimiter
unfolding take_permits
try_acquire ctx now limit permits l = elim (check_call ctx limit permits) [
  | err e ↦ (err e, l)
  | ok _ ↦
      let (d, l') = take_permits now (to_ℕ limit.requests) (to_ℕ limit.window) (to_ℕ permits) l in
      (ok d, l')
]

-- The limiter as the scheduler sees it, over the clock that `l.now` reads and its own state.
abbrev pub local_limiter : Limiter (ℕ × LocalLimiter)
local_limiter = record {
  try_acquire =
      λ ctx limit permits s. let (r, l') = try_acquire ctx s.0 limit permits s.1 in (r, (s.0, l'));
}

-- The budget that a limiter keeps for windows of one length.
abbrev pub view : ℕ → LocalLimiter → Budget
view window l = record { start = l.window_start; used = if l.window == window then l.used else 0 }

take_permits-grant :
    (now requests window wanted : ℕ) (l : LocalLimiter)
    → let b = view window l in
      let r = take_permits now requests window wanted l in
      (r.0 ≡ decision wanted (grant window requests wanted now b) (until_next window now))
      × (view window r.1 ≡ spend window requests wanted now b)
unfolding take_permits grant spend used_at until_next
take_permits-grant now requests window wanted l = elim (Bool-cases (l.window == window)) [
  | inl e ↦ elim (Bool-cases (l.window_start == (now - now % window))) [
    | inl s ↦ ground (arith, eq→== window window refl)
    | inr s ↦ ground (arith, eq→== window window refl)
  ]
  | inr e ↦ ground (arith, eq→== window window refl)
]

-- An admissible call on a live context grants what the budget of the current window allows, names
-- the time to the next window when it grants less than was asked for, and leaves the budget spent.
pub try_acquire-grant :
    (now requests window wanted : ℕ) (limit : Limit) (permits : ℤ) (l : LocalLimiter)
    → Admissible limit permits requests window wanted
    → let b = view window l in
      let r = try_acquire live_context now limit permits l in
      (r.0 ≡ ok (decision wanted (grant window requests wanted now b) (until_next window now)))
      × (view window r.1 ≡ spend window requests wanted now b)
unfolding try_acquire
try_acquire-grant now requests window wanted limit permits l a =
    ground (
      arith,
      check_call-Admissible limit permits a,
      take_permits-grant now requests window wanted l,
    )

-- The same, in the form of the contract.
pub local_acquire :
    (now requests window wanted : ℕ) (limit : Limit) (permits : ℤ) (l : LocalLimiter)
    → Admissible limit permits requests (window * 1) wanted
    → 1 ≤ window
    → let b = view window l in
      let r = try_acquire live_context now limit permits l in
      (r.0 ≡ ok (decision wanted (grant window requests wanted now b) (until_next window now * 1)))
      × (view window r.1 ≡ spend window requests wanted now b)
local_acquire now requests window wanted limit permits l a w =
    rw mul-one (try_acquire-grant now requests window wanted limit permits l (rw mul-one at a))

-- The local limiter fills the contract, on a clock of nanoseconds.
abbrev pub local_budget : BudgetLimiter LocalLimiter
local_budget = record {
  unit = 1;
  acquire = try_acquire live_context;
  view = λ now. view;
  acquire-grant = λ now requests window wanted limit permits l a w.
      let (reply, spent) = local_acquire now requests window wanted limit permits l a w in
      (reply, λ later same. spent);
}

-- ===== src/RateLimit/Budget.antt =====
-- What a limiter promises: a budget for each window of the clock, shared by all acquisitions.
use kurama.Base.{
  ◌==◌, if◌then◌else◌, ==→eq, eq→==, Bool-cases, All, ℕ, ◌+◌, ◌-◌, ◌/◌, ◌%◌, ◌≤◌, min, ◌≡◌, inl,
  inr, true, List, [], ◌∷◌, arith,
}
use kurama.Base.RedisHash.{lives}
use native.Mathlib.Nat.{mod-lt}

-- The permits used in the window that began at `start`.
pub record Budget : Type 0 where
  pub start : ℕ
  pub used : ℕ

-- The beginning of the window that holds `now`: `now.Truncate(window)`.
unfoldable pub window_start : ℕ → ℕ → ℕ
window_start window now = now - now % window

-- The permits already used in the window that holds `now`.
unfoldable pub used_at : ℕ → ℕ → Budget → ℕ
unfolding window_start
used_at window now b = if b.start == window_start window now then b.used else 0

unfoldable pub grant : ℕ → ℕ → ℕ → ℕ → Budget → ℕ
grant window requests permits now b = min permits (requests - used_at window now b)

pub grant-le :
    (window requests permits now : ℕ) (b : Budget) → grant window requests permits now b ≤ permits
unfolding grant
grant-le window requests permits now b = omega arith

unfoldable pub spend : ℕ → ℕ → ℕ → ℕ → Budget → Budget
unfolding window_start
spend window requests permits now b = record {
  start = window_start window now;
  used = used_at window now b + grant window requests permits now b;
}

-- The time from `now` to the next window.
unfoldable pub until_next : ℕ → ℕ → ℕ
until_next window now = window_start window now + window - now

-- A deadline that the scripts set, the rest of the window and one more, lies after the window.
pub window-lives :
    (window now later : ℕ)
    → 1 ≤ window
    → window_start window later ≡ window_start window now
    → lives now ((window_start window now + window - now + window + 999) / 1000) later ≡ true
unfolding window_start
window-lives window now later w same =
    let a = mod-lt now {m = window} w in
    let b = mod-lt later {m = window} w in ground (arith, a, b, same)

-- An acquisition: when, out of which budget, and how many permits.
pub record Call : Type 0 where
  pub now : ℕ
  pub requests : ℕ
  pub permits : ℕ

-- The permits granted to a sequence of calls.
unfoldable pub granted_total : ℕ → List Call → Budget → ℕ
granted_total window [] b = 0
granted_total window (c ∷ cs) b =
    grant window c.requests c.permits c.now b
    + granted_total window cs (spend window c.requests c.permits c.now b)

-- The call falls into the window that begins at `start`, and its budget is at most `most`.
pub record Within (window start most : ℕ) (c : Call) : Type 0 where
  pub at_start : window_start window c.now ≡ start
  pub requests_le : c.requests ≤ most

-- One more acquisition inside the window adds its grant to what is used.
spend-Within :
    (window start most : ℕ) (c : Call) (b : Budget)
    → Within window start most c
    → b.start ≡ start
    → b.used ≤ most
    → let b' = spend window c.requests c.permits c.now b in
      (b'.start ≡ start)
      × (b'.used ≡ b.used + grant window c.requests c.permits c.now b)
      × (b'.used ≤ most)
unfolding spend grant used_at
spend-Within window start most c b w e h =
    ground (arith, w.at_start, w.requests_le, eq→== b.start (window_start window c.now))

granted_from :
    (window start most : ℕ) (cs : List Call) (b : Budget)
    → All (Within window start most) cs
    → b.start ≡ start
    → b.used ≤ most
    → b.used + granted_total window cs b ≤ most
unfolding granted_total
granted_from window start most [] b w e h = omega arith
granted_from window start most (c ∷ cs) b w e h =
    let (p, q, r) = spend-Within window start most c b w.0 e h in
    omega (
      arith,
      granted_from window start most cs (spend window c.requests c.permits c.now b) w.1 p r,
      q,
    )

-- The first call of a window starts from what was used in it, or afresh.
first_call :
    (window start most : ℕ) (c : Call) (b : Budget)
    → Within window start most c
    → (b.start ≡ start → b.used ≤ most)
    → let b' = spend window c.requests c.permits c.now b in
      (b'.start ≡ start) × (grant window c.requests c.permits c.now b ≤ b'.used) × (b'.used ≤ most)
unfolding spend grant used_at
first_call window start most c b w h = elim (Bool-cases (b.start == window_start window c.now)) [
  | inl same ↦ ground (arith, w.at_start, w.requests_le, ==→eq b.start (window_start window c.now))
  | inr other ↦ ground (arith, w.at_start, w.requests_le)
]

-- Calls that all fall into one window are together granted no more than the largest budget that one
-- of them names, whatever was used before in another window.
pub granted_total-le :
    (window start most : ℕ) (cs : List Call) (b : Budget)
    → All (Within window start most) cs
    → ((b.start ≡ start) → b.used ≤ most)
    → granted_total window cs b ≤ most
unfolding granted_total
granted_total-le window start most [] b w h = omega arith
granted_total-le window start most (c ∷ cs) b w h =
    let (p, q, r) = first_call window start most c b w.0 h in
    omega (
      arith,
      granted_from window start most cs (spend window c.requests c.permits c.now b) w.1 p r,
      q,
    )

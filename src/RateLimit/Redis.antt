-- ===== src/RateLimit/Redis.antt =====
-- internal/runner/ratelimit/redis_rate_limiter.go and acquire_rate_limit.lua: one budget for all
-- replicas, kept in a Redis hash. The script's clock is Redis TIME, in microseconds.
use kurama.Base.{
  ltb, ◌==◌, if◌then◌else◌, ==→eq, Bool-cases, Option-cases, length, ℤ, pos, negsuc, to_ℕ, Bytes,
  codes, eqs_refl, eqs, ℕ, suc, ◌+◌, ◌-◌, ◌*◌, ◌/◌, ◌≤◌, min, ◌≡◌, refl, inl, inr, Bool, true,
  false, not, Option, none, some, List, [], ◌∷◌, arith,
}
use kurama.Base.Result.{Result, ok, err}
use kurama.Base.Context.{live_context, Context}
use kurama.Base.RedisHash.{RedisHashes, or_zero, lives}
use kurama.RateLimit.{
  check_call-Admissible, Admissible, decision, Limit, Decision, RedisError, LimitError,
  window_below_microsecond, redis_failed, unexpected_result_length, check_call,
}
use kurama.RateLimit.Contract.{BudgetLimiter}
use kurama.RateLimit.Budget.{
  grant-le, used_at, grant, spend, until_next, Budget, window_start, window-lives,
}

-- `acquireRateLimitScript.Run(...).Int64Slice()`: the arguments are the key, the budget, the window
-- in microseconds and the permits.
abbrev pub Script {ℓ} : Type ℓ → Type ℓ
Script S = Bytes → ℕ → ℕ → ℕ → S → Result RedisError (List ℤ) × S

-- `time.Duration(micros) * time.Microsecond`
abbrev pub micros : ℤ → ℤ
micros (pos n) = pos (n * 1000)
micros (negsuc n) = negsuc (suc n * 1000 - 1)

decode_reply : Result RedisError (List ℤ) → Result LimitError Decision
decode_reply (err e) = err (redis_failed e)
decode_reply (ok (granted ∷ retry ∷ [])) =
    ok (record { granted = granted; retry_after = micros retry })
decode_reply (ok xs) = err (unexpected_result_length (length xs))

-- `RedisRateLimiter.TryAcquire`, for the limiter's key.
unfoldable pub try_acquire {ℓ} :
    {S : Type ℓ} → Script S → Bytes → Context → Limit → ℤ → S → Result LimitError Decision × S
unfolding decode_reply
try_acquire script key ctx limit permits s = elim (check_call ctx limit permits) [
  | err e ↦ (err e, s)
  | ok _ ↦
      let window_micros = to_ℕ limit.window / 1000 in
      if ltb window_micros 1
      then (err window_below_microsecond, s)
      else (let (r, s') = script key (to_ℕ limit.requests) window_micros (to_ℕ permits) s in
          (decode_reply r, s'))
]

module _ (R : RedisHashes) where
  open R use {State, hget, hset, hincrby, pexpire, hget-hset, hget-hincrby, hget-pexpire}

  abbrev window_field : Bytes
  window_field = codes "window"

  abbrev count_field : Bytes
  count_field = codes "count"

  -- The test `not stored_window or stored_window ~= window_token`.
  stale : Option ℕ → ℕ → Bool
  stale none start = true
  stale (some w) start = not (w == start)

  -- The first part of the script: the count of the current window, in a hash that belongs to it.
  enter_window : ℕ → Bytes → ℕ → State → ℕ × State
  unfolding stale
  enter_window now key start s =
      if stale (hget now key window_field s) start
      then (0, hset now key count_field 0 (hset now key window_field start s))
      else (or_zero (hget now key count_field s), s)

  -- acquire_rate_limit.lua at the time `now`.
  pub acquire_script : ℕ → Script State
  unfolding enter_window window_start
  acquire_script now key requests window permits s =
      let start = window_start window now in
      let (count, s₁) = enter_window now key start s in
      let granted = min permits (requests - count) in
      let s₂ = if ltb 0 granted then hincrby now key count_field granted s₁ else s₁ in
      let retry = start + window - now in
      let ttl = (retry + window + 999) / 1000 in
      let s₃ = pexpire now key ttl s₂ in
      (ok (pos granted ∷ (if granted == permits then pos 0 else pos retry) ∷ []), s₃)

  -- The budget that the hash of a key holds.
  abbrev pub view : ℕ → Bytes → State → Budget
  view now key s = elim (hget now key window_field s) [
    | none ↦ record { start = 0; used = 0 }
    | some w ↦ record { start = w; used = or_zero (hget now key count_field s) }
  ]

  fields_differ : (eqs window_field count_field ≡ false) × (eqs count_field window_field ≡ false)
  unfolding eqs
  fields_differ = (refl, refl)

  enter_window-fresh :
      (now : ℕ) (key : Bytes) (start : ℕ) (s : State)
      → stale (hget now key window_field s) start ≡ true
      → let r = enter_window now key start s in
        (r.0 ≡ 0)
        × (hget now key window_field r.1 ≡ some start)
        × (hget now key count_field r.1 ≡ some 0)
  unfolding enter_window
  enter_window-fresh now key start s h =
      rw h (refl, simp (hget-hset, eqs_refl, fields_differ.0), simp (hget-hset, eqs_refl))

  enter_window-view :
      (key : Bytes) (window now : ℕ) (s : State)
      → let r = enter_window now key (window_start window now) s in
        (r.0 ≡ used_at window now (view now key s))
        × (hget now key window_field r.1 ≡ some (window_start window now))
        × (or_zero (hget now key count_field r.1) ≡ r.0)
  unfolding enter_window used_at
  enter_window-view key window now s = elim (Option-cases (hget now key window_field s)) [
    | inl e ↦ ground (arith, e, enter_window-fresh now key (window_start window now) s)
    | inr (w, e) ↦ elim (Bool-cases (w == window_start window now)) [
      | inl same ↦ ground (arith, e, ==→eq w (window_start window now))
      | inr other ↦ ground (arith, e, enter_window-fresh now key (window_start window now) s)
    ]
  ]

  view_of :
      (now : ℕ) (key : Bytes) (s : State) (start count : ℕ)
      → hget now key window_field s ≡ some start
      → or_zero (hget now key count_field s) ≡ count
      → view now key s ≡ record { start = start; used = count }
  view_of now key s start count h k = ground arith

  -- Booking the grant adds it to the count and leaves the window, as long as the key lives.
  booked-view :
      (key : Bytes) (g ttl now later start count : ℕ) (s : State)
      → lives now ttl later ≡ true
      → hget now key window_field s ≡ some start
      → or_zero (hget now key count_field s) ≡ count
      → view later key
          (pexpire now key ttl (if ltb 0 g then hincrby now key count_field g s else s))
        ≡ record { start = start; used = count + g }
  booked-view key g ttl now later start count s there h k = elim (Bool-cases (ltb 0 g)) [
    | inl more ↦ rw more (
        view_of later key _ start (count + g)
          (simp (hget-pexpire, there, hget-hincrby, fields_differ.0) h)
          (simp (hget-pexpire, there, hget-hincrby, eqs_refl) (omega (arith, k))))
    | inr none_left ↦ rw none_left (
        view_of later key _ start (count + g) (simp (hget-pexpire, there) h)
          (simp (hget-pexpire, there) (ground arith)))
  ]

  -- The script replies with the grant and the wait, and leaves the budget spent for its window.
  acquire_script-grant :
      (now : ℕ) (key : Bytes) (requests window wanted : ℕ) (s : State)
      → 1 ≤ window
      → let b = view now key s in
        let r = acquire_script now key requests window wanted s in
        let g = grant window requests wanted now b in
        (r.0 ≡ ok (pos g ∷ (if g == wanted then pos 0 else pos (until_next window now)) ∷ []))
        × ((later : ℕ)
            → window_start window later ≡ window_start window now
            → view later key r.1 ≡ spend window requests wanted now b)
  unfolding acquire_script grant until_next spend
  acquire_script-grant now key requests window wanted s one =
      let (c, w, k) = enter_window-view key window now s in
      (
        rw (← c),
        (λ later same.
            rw (← c) (booked-view key _ _ _ _ _ _ _ (window-lives window now later one same) w k)),
      )

  decode_grant :
      (g wanted wait : ℕ)
      → g ≤ wanted
      → decode_reply (ok (pos g ∷ (if g == wanted then pos 0 else pos wait) ∷ []))
        ≡ ok (decision wanted g (wait * 1000))
  unfolding decode_reply decision
  decode_grant g wanted wait h = ground arith

  window_micros :
      (window : ℕ) → 1 ≤ window → (window * 1000 / 1000 ≡ window) × (ltb window 1 ≡ false)
  window_micros window h = (omega arith, ground arith)

  -- With the script run by Redis, an admissible call on a live context grants what the shared budget
  -- of the current window allows, and leaves it spent: at any time of this window Redis still has the
  -- key, with the permits granted so far.
  pub redis_try_acquire-grant :
      (key : Bytes) (now requests window wanted : ℕ) (limit : Limit) (permits : ℤ) (s : State)
      → Admissible limit permits requests (window * 1000) wanted
      → 1 ≤ window
      → let b = view now key s in
        let r = try_acquire (acquire_script now) key live_context limit permits s in
        (r.0
          ≡ ok
              (decision wanted (grant window requests wanted now b) (until_next window now * 1000)))
        × ((later : ℕ)
            → window_start window later ≡ window_start window now
            → view later key r.1 ≡ spend window requests wanted now b)
  unfolding try_acquire
  redis_try_acquire-grant key now requests window wanted limit permits s a w =
      let (reply, held) = acquire_script-grant now key requests window wanted s w in
      let (exact, large) = window_micros window w in
      rw
        (
          check_call-Admissible limit permits a,
          try_acquire,
          a.requests_eq,
          a.window_eq,
          a.permits_eq,
          exact,
          large,
        )
        (
          rw reply (
              decode_grant (grant window requests wanted now (view now key s)) wanted
                (until_next window now) (grant-le window requests wanted now (view now key s))),
          held,
        )

  -- The Redis limiter fills the contract, on a clock of microseconds.
  abbrev pub redis_budget : Bytes → BudgetLimiter State
  redis_budget key = record {
    unit = 1000;
    acquire = λ now. try_acquire (acquire_script now) key live_context;
    view = λ now window. view now key;
    acquire-grant =
        λ now requests window wanted. redis_try_acquire-grant key now requests window wanted;
  }

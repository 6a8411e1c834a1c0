-- ===== src/RateSchedule/RedisUniform/Agreement.antt =====
-- All replicas plan with one rate in each window, and the rate is in the configured range.
use kurama.Base.{
  ◌==◌, ==→eq, eq→==, Bool-cases, Option-cases, All, ℤ, pos, Bytes, eqs_refl, eqs, ℕ, ◌+◌, ◌-◌, ◌/◌,
  ◌≤◌, ◌<◌, ◌≡◌, refl, sym, subst, ◌⊎◌, inl, inr, true, false, some, List, [], ◌∷◌, arith,
}
use kurama.Base.Result.{Result, ok}
use kurama.Base.Context.{live_context}
use kurama.Base.RedisHash.{RedisHashes}
use kurama.RateLimit.Budget.{window-lives}
use kurama.RateLimit.{RedisError}
use kurama.RateLimit.Budget.{window_start}
use kurama.RateSchedule.RedisUniform.{
  RedisUniform, window_field, rpm_field, stale, choose, select_script, requests_per_minute,
}

module _ (R : RedisHashes) where
  open R use {State, hget, hset, pexpire, hget-hset, hget-pexpire}

  -- At a time, the hash of a key holds the rate `n` for the window that begins at `start`.
  pub record Holds (now : ℕ) (key : Bytes) (start n : ℕ) (s : State) : Type 0 where
    pub window_held : hget now key (window_field R) s ≡ some start
    pub rpm_held : hget now key (rpm_field R) s ≡ some n

  -- It does so throughout the window.
  abbrev pub HoldsIn : ℕ → Bytes → ℕ → ℕ → State → Type 0
  HoldsIn window key start n s =
      (later : ℕ) → window_start window later ≡ start → Holds later key start n s

  fields_differ : (eqs (window_field R) (rpm_field R) ≡ false)
  unfolding eqs
  fields_differ = refl

  -- The deadline that the script sets lies after the window.
  Holds-pexpire :
      (window now : ℕ) (key : Bytes) (n : ℕ) (s : State)
      → 1 ≤ window
      → Holds now key (window_start window now) n s
      → HoldsIn window key
          (window_start window now)
          n
          (pexpire now key ((window_start window now + window - now + window + 999) / 1000) s)
  Holds-pexpire window now key n s one h later same =
      let there = window-lives window now later one same in
      record {
        window_held = simp (hget-pexpire, there) h.window_held;
        rpm_held = simp (hget-pexpire, there) h.rpm_held;
      }

  -- A rate that is held is returned, and stays.
  pub select_script-Holds :
      (now : ℕ) (key : Bytes) (window candidate n : ℕ) (s : State)
      → 1 ≤ window
      → Holds now key (window_start window now) n s
      → let r = select_script R now key window candidate s in
        (r.0 ≡ ok (pos n)) × HoldsIn window key (window_start window now) n r.1
  unfolding select_script
  select_script-Holds now key window candidate n s one h =
      rw (h.window_held, choose, eq→== (window_start window now) (window_start window now) refl)
        (rw h.rpm_held refl, Holds-pexpire window now key n s one h)

  -- In a new window the candidate is chosen, and held.
  select_script-stale :
      (now : ℕ) (key : Bytes) (window candidate : ℕ) (s : State)
      → 1 ≤ window
      → stale R (hget now key (window_field R) s) (window_start window now) ≡ true
      → let r = select_script R now key window candidate s in
        (r.0 ≡ ok (pos candidate)) × HoldsIn window key (window_start window now) candidate r.1
  unfolding select_script choose
  select_script-stale now key window candidate s one h = rw h (
    refl,
    Holds-pexpire window now key candidate _ one (record {
      window_held = simp (hget-hset, eqs_refl, fields_differ);
      rpm_held = simp (hget-hset, eqs_refl);
    }),
  )

  -- A hash that names a window has a rate for it.
  abbrev pub WellFormed : ℕ → Bytes → State → Type 0
  WellFormed now key s =
      (w : ℕ)
      → hget now key (window_field R) s ≡ some w
      → (n : ℕ) × (hget now key (rpm_field R) s ≡ some n)

  -- Whatever the state, a call settles the rate of its window, on a stored value or on its candidate.
  select_script_settles :
      (now : ℕ) (key : Bytes) (window candidate : ℕ) (s : State)
      → 1 ≤ window
      → WellFormed now key s
      → let r = select_script R now key window candidate s in
        (n : ℕ) × (r.0 ≡ ok (pos n))
        × HoldsIn window key (window_start window now) n r.1
        × ((n ≡ candidate) ⊎ (hget now key (rpm_field R) s ≡ some n))
  unfolding stale
  select_script_settles now key window candidate s one wf =
      elim (Option-cases (hget now key (window_field R) s)) [
        | inl e ↦
            let (a, b) = select_script-stale now key window candidate s one (rw (e, stale) refl) in
            (candidate, a, b, inl refl)
        | inr (w, e) ↦ elim (Bool-cases (w == window_start window now)) [
          | inl same ↦
              let (n, f) = wf w e in
              let (a, b) =
                select_script-Holds now key window candidate n s one
                  (record { window_held = rw (e, ==→eq _ _ same) refl; rpm_held = f }) in
              (n, a, b, inr f)
          | inr other ↦
              let (a, b) =
                select_script-stale now key window candidate s one (rw (e, stale, other) refl) in
              (candidate, a, b, inl refl)
        ]
      ]

  -- The replies to further calls on the key, each a time and a candidate.
  pub replies : Bytes → ℕ → List (ℕ × ℕ) → State → List (Result RedisError ℤ)
  replies key window [] s = []
  replies key window ((now, candidate) ∷ cs) s =
      let (r, s') = select_script R now key window candidate s in r ∷ replies key window cs s'

  abbrev pub InWindow : ℕ → ℕ → ℕ × ℕ → Type 0
  InWindow window start (now, candidate) = window_start window now ≡ start

  replies-Holds :
      (key : Bytes) (window start n : ℕ) (cs : List (ℕ × ℕ)) (s : State)
      → 1 ≤ window
      → All (InWindow window start) cs
      → HoldsIn window key start n s
      → All (λ r. r ≡ ok (pos n)) (replies key window cs s)
  unfolding replies
  replies-Holds key window start n [] s one w h = tt
  replies-Holds key window start n ((now, candidate) ∷ cs) s one w h =
      let (a, b) =
        select_script-Holds now key window candidate n s one
          (subst (λ x. Holds now key x n s) (sym w.0) (h now w.0)) in
      (
        a,
        replies-Holds key window start n cs _ one w.1 (
            subst (λ x. HoldsIn window key x n (select_script R now key window candidate s).1) w.0
              b),
      )

  -- After the first call of a window every other call in that window gets the same rate, whatever
  -- it proposes. A window lasts at least a microsecond.
  pub replicas_agree :
      (key : Bytes) (window now candidate : ℕ) (cs : List (ℕ × ℕ)) (s : State)
      → 1 ≤ window
      → WellFormed now key s
      → All (InWindow window (window_start window now)) cs
      → let first = select_script R now key window candidate s in
        All (λ r. r ≡ first.0) (replies key window cs first.1)
  replicas_agree key window now candidate cs s one wf w =
      let (n, e, h, _) = select_script_settles now key window candidate s one wf in
      rw e (replies-Holds key window (window_start window now) n cs _ one w h)

  -- A schedule with a live context and a working Redis returns a rate of its range, if the rate that
  -- Redis may already hold is one. At any later time of the window Redis still has the hash, with this
  -- rate. A window lasts at least a microsecond.
  pub requests_per_minute_in_range :
      (u : RedisUniform) (now draw most : ℕ) (s : State)
      → 1000 ≤ u.window
      → WellFormed now u.key s
      → ((n : ℕ) → hget now u.key (rpm_field R) s ≡ some n → (u.min_requests ≤ n) × (n ≤ most))
      → u.min_requests + u.range_size ≡ most + 1
      → draw < u.range_size
      → let r = requests_per_minute (select_script R now) u draw live_context s in
        (n : ℕ) × (r.0 ≡ ok (pos n))
        × (u.min_requests ≤ n)
        × (n ≤ most)
        × HoldsIn (u.window / 1000) u.key (window_start (u.window / 1000) now) n r.1
  unfolding requests_per_minute
  requests_per_minute_in_range u now draw most s one wf stored e h =
      let (n, r, held, origin) =
        select_script_settles now u.key (u.window / 1000) (u.min_requests + draw) s (omega arith)
          wf in
      let b : (u.min_requests ≤ n) × (n ≤ most) = elim origin [
        | inl c ↦ omega arith
        | inr o ↦ stored n o
      ] in
      (n, rw r refl, b.0, b.1, held)

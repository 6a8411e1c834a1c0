-- ===== src/Scheduler/Fallback.antt =====
-- What one slot of the scheduler tries: each operation once at most, and every operation before it
-- gives up on an empty store.
use kurama.Base.{
  ◌==◌, if◌then◌else◌, Bool-cases, length, get_elem?, All, ℕ, zero, suc, ◌+◌, ◌≤◌, ◌<◌, ◌≡◌, refl,
  sym, ap, ◌⊎◌, inl, inr, Bool, true, false, ◌&&◌, ◌||◌, not, none, some, List, [], ◌∷◌, arith,
}
use kurama.Base.Context.{Context}
use kurama.Config.{OperationConfig}
use kurama.Execution.{OperationExecutor, is_unavailable}
use kurama.Scheduler.Picker.{
  Candidate, WeightedRandom, weight_of, total_weight, pick_weighted, pick_weighted-eligible,
}
use kurama.Scheduler.Slot.{
  Handled, exclude, candidates_of, attempts_from, execute_reserved_slot, attempts_from-retry,
  attempts_from-settled, attempts_from-none, outcome,
}

-- How many positions are not excluded.
free_count : List Candidate → ℕ
free_count [] = 0
free_count (c ∷ cs) = if c.excluded then free_count cs else suc (free_count cs)

-- All weights are positive, as `NewScheduler` checks.
abbrev pub Weighted : List Candidate → Type 0
Weighted cs = All (λ c. 1 ≤ weight_of c) cs

-- The position is in the list and not excluded.
free_at : List Candidate → ℕ → Bool
free_at [] k = false
free_at (c ∷ cs) zero = not c.excluded
free_at (c ∷ cs) (suc k) = free_at cs k

abbrev pub occurs : ℕ → List Handled → Bool
occurs k [] = false
occurs k (h ∷ hs) = (h.index == k) || occurs k hs

-- No position is handled twice.
abbrev pub Distinct : List Handled → Type 0
Distinct [] = Unit {0}
Distinct (h ∷ hs) = (occurs h.index hs ≡ false) × Distinct hs

-- The last outcome is not about an empty store.
abbrev pub settled : List Handled → Bool
settled [] = false
settled (h ∷ []) = not (is_unavailable h.error)
settled (h ∷ g ∷ hs) = settled (g ∷ hs)

-- Every outcome but the last is about an empty store.
abbrev pub Retried : List Handled → Type 0
Retried [] = Unit {0}
Retried (h ∷ []) = Unit {0}
Retried (h ∷ g ∷ hs) = (is_unavailable h.error ≡ true) × Retried (g ∷ hs)

settled-cons : (h : Handled) (hs : List Handled) → settled hs ≡ true → settled (h ∷ hs) ≡ true
settled-cons h [] s = absurd (ground (arith, s))
settled-cons h (g ∷ gs) s = s

Retried-cons :
    (h : Handled) (hs : List Handled)
    → is_unavailable h.error ≡ true
    → Retried hs
    → Retried (h ∷ hs)
Retried-cons h [] again r = tt
Retried-cons h (g ∷ gs) again r = (again, r)

free_at-get :
    (cs : List Candidate) (k : ℕ) (c : Candidate)
    → get_elem? cs k ≡ some c
    → c.excluded ≡ false
    → free_at cs k ≡ true
unfolding free_at
free_at-get [] k c g f = absurd (ground (arith, g))
free_at-get (d ∷ cs) zero c g f = ground (arith, g, f)
free_at-get (d ∷ cs) (suc k) c g f = free_at-get cs k c g f

free_count-exclude :
    (cs : List Candidate) (k : ℕ)
    → free_at cs k ≡ true
    → free_count cs ≡ suc (free_count (exclude k cs))
unfolding free_count free_at exclude
free_count-exclude [] k h = absurd (ground (arith, h))
free_count-exclude (d ∷ cs) zero h = ground (arith, h)
free_count-exclude (d ∷ cs) (suc k) h = ground (arith, free_count-exclude cs k h)

free_at-exclude :
    (cs : List Candidate) (k j : ℕ) → free_at (exclude k cs) j ≡ (free_at cs j && not (k == j))
unfolding free_at exclude
free_at-exclude [] k j = refl
free_at-exclude (d ∷ cs) zero zero = ground arith
free_at-exclude (d ∷ cs) zero (suc j) = ground arith
free_at-exclude (d ∷ cs) (suc k) zero = ground arith
free_at-exclude (d ∷ cs) (suc k) (suc j) = ground (arith, free_at-exclude cs k j)

Weighted-exclude : (cs : List Candidate) (k : ℕ) → Weighted cs → Weighted (exclude k cs)
unfolding exclude
Weighted-exclude [] k w = w
Weighted-exclude (d ∷ cs) zero w = w
Weighted-exclude (d ∷ cs) (suc k) w = (w.0, Weighted-exclude cs k w.1)

total-free_count : (cs : List Candidate) → Weighted cs → 0 < free_count cs → 0 < total_weight cs
unfolding free_count total_weight
total-free_count [] w h = h
total-free_count (d ∷ cs) w h = ground (arith, w, total-free_count cs w.1)

total-all_excluded : (cs : List Candidate) → free_count cs ≡ 0 → total_weight cs ≡ 0
unfolding free_count total_weight
total-all_excluded [] h = refl
total-all_excluded (d ∷ cs) h = ground (arith, h, total-all_excluded cs)

pick_weighted-all_excluded :
    (cs : List Candidate) (r : WeightedRandom) → free_count cs ≡ 0 → pick_weighted cs r ≡ none
unfolding pick_weighted
pick_weighted-all_excluded cs r h = ground (arith, total-all_excluded cs h)

free_count-candidates_of :
    (operations : List OperationConfig) → free_count (candidates_of operations) ≡ length operations
unfolding free_count
free_count-candidates_of [] = refl
free_count-candidates_of (o ∷ os) = ap suc (free_count-candidates_of os)

-- What the loop keeps: positions that were excluded before it are not handled.
record Fallback (cs : List Candidate) (hs : List Handled) : Type 0 where
  distinct : Distinct hs
  fresh : (j : ℕ) → free_at cs j ≡ false → occurs j hs ≡ false
  retried : Retried hs
  stops : (settled hs ≡ true) ⊎ (length hs ≡ free_count cs)

Fallback-empty : (cs : List Candidate) → free_count cs ≡ 0 → Fallback cs []
Fallback-empty cs none_left = record {
  distinct = tt;
  fresh = λ j f. refl;
  retried = tt;
  stops = inr (sym none_left);
}

Fallback-settled :
    (cs : List Candidate) (h : Handled)
    → free_at cs h.index ≡ true
    → is_unavailable h.error ≡ false
    → Fallback cs (h ∷ [])
Fallback-settled cs h free done = record {
  distinct = (refl, tt);
  fresh = λ j f. ground (arith, f, free);
  retried = tt;
  stops = inl (ground (arith, done));
}

Fallback-retry :
    (cs : List Candidate) (h : Handled) (hs : List Handled)
    → free_at cs h.index ≡ true
    → is_unavailable h.error ≡ true
    → Fallback (exclude h.index cs) hs
    → Fallback cs (h ∷ hs)
Fallback-retry cs h hs free again more = record {
  distinct =
      (more.fresh h.index (ground (arith, free_at-exclude cs h.index h.index)), more.distinct);
  fresh = λ j f. ground (arith, f, free, more.fresh j, free_at-exclude cs h.index j);
  retried = Retried-cons h hs again more.retried;
  stops = elim more.stops [
    | inl s ↦ inl (settled-cons h hs s)
    | inr all ↦ inr (ground (arith, all, free_count-exclude cs h.index free))
  ];
}

module _ {ℓ} {S : Type ℓ} (executor : OperationExecutor S) (random : ℕ → WeightedRandom) where
  gives_up :
      (left n : ℕ) (ctx : Context) (cs : List Candidate) (s : S)
      → free_count cs ≡ 0
      → Fallback cs (attempts_from executor random left n ctx cs s).0
  gives_up left n ctx cs s none_left =
      rw
        (attempts_from-none executor random left n ctx cs s
          (pick_weighted-all_excluded cs (random n) none_left))
        (Fallback-empty cs none_left)

  attempts_from-Fallback :
      (left n : ℕ) (ctx : Context) (cs : List Candidate) (s : S)
      → Weighted cs
      → free_count cs ≤ left
      → Fallback cs (attempts_from executor random left n ctx cs s).0
  attempts_from-Fallback zero n ctx cs s w fuel = gives_up zero n ctx cs s (ground (arith, fuel))
  attempts_from-Fallback (suc left) n ctx cs s w fuel = elim (Bool-cases (free_count cs == 0)) [
    | inl empty ↦ gives_up (suc left) n ctx cs s (ground (arith, empty))
    | inr some_left ↦
        let (k, c, p, g, f) =
          pick_weighted-eligible cs (random n)
            (total-free_count cs w (ground (arith, some_left))) in
        let free = free_at-get cs k c g f in
        let after = (executor.execute ctx c.operation s).1 in
        elim (Bool-cases (is_unavailable (executor.execute ctx c.operation s).0.1)) [
          | inl again ↦ rw (attempts_from-retry executor random left n ctx cs s k c p g again) (
              Fallback-retry cs (outcome executor random left n ctx cs s k c p g)
                (attempts_from executor random left (n + 1) ctx (exclude k cs) after).0 free again
                (attempts_from-Fallback left (n + 1) ctx (exclude k cs) after
                  (Weighted-exclude cs k w) (ground (arith, fuel, free_count-exclude cs k free))))
          | inr done ↦
              rw (attempts_from-settled executor random left n ctx cs s k c p g done)
                (Fallback-settled cs (outcome executor random left n ctx cs s k c p g) free done)
        ]
  ]

  -- A slot handles no operation twice, and tries another one only after an outcome about an empty
  -- store: every outcome but the last is one. It gives up on empty stores only when it has tried
  -- every operation: its last outcome is not about an empty store, or there is one outcome for each
  -- operation. The weights are positive.
  pub execute_reserved_slot-falls_back :
      (ctx : Context) (operations : List OperationConfig) (s : S)
      → Weighted (candidates_of operations)
      → let handled = (execute_reserved_slot executor random ctx operations s).0 in
        Distinct handled
        × Retried handled
        × ((settled handled ≡ true) ⊎ (length handled ≡ length operations))
  unfolding execute_reserved_slot
  execute_reserved_slot-falls_back ctx operations s w =
      let count = free_count-candidates_of operations in
      let kept =
        attempts_from-Fallback (length operations) 0 ctx (candidates_of operations) s w
          (ground (arith, count)) in
      (kept.distinct, kept.retried, ground (arith, kept.stops, count))

-- ===== src/Scheduler/Picker.antt =====
-- internal/runner/weighted_picker.go: the operation that a slot executes, with a probability that
-- is proportional to its weight.
use kurama.Config.{OperationConfig}
use kurama.Base.{
  ltb, ◌==◌, if◌then◌else◌, Bool-cases, get_elem?, take, to_ℕ, ℕ, zero, suc, ◌+◌, ◌-◌, ◌≤◌, ◌<◌,
  ◌≡◌, refl, ◌≢◌, ◌↔◌, inl, inr, Bool, false, Option, none, some, List, [], ◌∷◌, arith,
}

-- The slices `operations` and `excluded`, which have the same length. A scheduler's operations have
-- positive weights.
pub record Candidate : Type 0 where
  pub operation : OperationConfig
  pub excluded : Bool

abbrev pub weight_of : Candidate → ℕ
weight_of c = to_ℕ c.operation.weight

-- `WeightedRandomSource.IntN`: a draw below a positive bound.
pub record WeightedRandom : Type 0 where
  pub int_n : ℕ → ℕ
  pub int_n_lt : (n : ℕ) → 0 < n → int_n n < n

-- The weight of what is not excluded.
unfoldable pub total_weight : List Candidate → ℕ
total_weight [] = 0
total_weight (e ∷ es) = if e.excluded then total_weight es else weight_of e + total_weight es

abbrev pub shift : Option ℕ → Option ℕ
shift none = none
shift (some k) = some (suc k)

-- The second loop; a position counts from the start of the list.
unfoldable pub pick_from : ℕ → List Candidate → Option ℕ
pick_from selected [] = none
pick_from selected (e ∷ es) =
    let later = shift (pick_from selected es) in
    let after = shift (pick_from (selected - weight_of e) es) in
    if e.excluded then later else if ltb selected (weight_of e) then some 0 else after

-- `pickWeighted`
unfoldable pub pick_weighted : List Candidate → WeightedRandom → Option ℕ
unfolding total_weight pick_from
pick_weighted candidates random =
    if total_weight candidates == 0
    then none
    else pick_from (random.int_n (total_weight candidates)) candidates

-- The weight in front of a position.
abbrev pub weight_before : ℕ → List Candidate → ℕ
unfolding total_weight
weight_before k candidates = total_weight (take k candidates)

shift-zero : (r : Option ℕ) → shift r ≢ some 0
shift-zero none h = cc
shift-zero (some j) h = absurd (ground (arith, h))

shift-some : (r : Option ℕ) (k : ℕ) → (shift r ≡ some (suc k)) ↔ (r ≡ some k)
shift-some none k = ground arith
shift-some (some j) k = ground arith

pick_from_iff :
    (selected : ℕ) (es : List Candidate) (k : ℕ)
    → (pick_from selected es ≡ some k)
      ↔ ((weight_before k es ≤ selected) × (selected < weight_before (suc k) es))
unfolding pick_from total_weight
pick_from_iff selected [] k = ground arith
pick_from_iff selected (e ∷ es) zero =
    ground (
      arith,
      shift-zero (pick_from selected es),
      shift-zero (pick_from (selected - weight_of e) es),
    )
pick_from_iff selected (e ∷ es) (suc k) = ground (
  arith,
  shift-some (pick_from selected es) k,
  shift-some (pick_from (selected - weight_of e) es) k,
  pick_from_iff selected es k,
  pick_from_iff (selected - weight_of e) es k,
)

total_weight-take : (k : ℕ) (es : List Candidate) → total_weight (take k es) ≤ total_weight es
unfolding total_weight
total_weight-take zero es = omega arith
total_weight-take (suc k) [] = omega arith
total_weight-take (suc k) (e ∷ es) = ground (arith, total_weight-take k es)

-- `pick_weighted` picks position `k` exactly when the draw below the total weight falls into the
-- interval of that position: at least the weight in front of it, and less than this weight and its
-- own. An excluded position has an empty interval.
pub pick_weighted_iff :
    (candidates : List Candidate) (random : WeightedRandom) (k : ℕ)
    → let draw = random.int_n (total_weight candidates) in
      (pick_weighted candidates random ≡ some k)
      ↔ ((weight_before k candidates ≤ draw) × (draw < weight_before (suc k) candidates))
unfolding pick_weighted
pick_weighted_iff candidates random k = elim (Bool-cases (total_weight candidates == 0)) [
  | inl empty ↦ ground (arith, empty, total_weight-take (suc k) candidates)
  | inr some_left ↦
      ground (arith, some_left, pick_from_iff (random.int_n (total_weight candidates)) candidates k)
]

-- A draw below the total weight picks a position that is not excluded.
pick_from-eligible :
    (selected : ℕ) (es : List Candidate)
    → selected < total_weight es
    → (k : ℕ) × (c : Candidate) × (pick_from selected es ≡ some k)
      × (get_elem? es k ≡ some c)
      × (c.excluded ≡ false)
unfolding pick_from total_weight
pick_from-eligible selected [] lt = absurd (ground (arith, lt))
pick_from-eligible selected (e ∷ es) lt = elim (Bool-cases e.excluded) [
  | inl gone ↦
      let (k, c, p, g, f) = pick_from-eligible selected es (ground (arith, gone, lt)) in
      (suc k, c, rw (gone, p) refl, g, f)
  | inr free ↦ elim (Bool-cases (ltb selected (weight_of e))) [
    | inl here ↦ (0, e, rw (free, here) refl, refl, free)
    | inr after ↦
        let (k, c, p, g, f) =
          pick_from-eligible (selected - weight_of e) es (ground (arith, free, after, lt)) in
        (suc k, c, rw (free, after, p) refl, g, f)
  ]
]

pub pick_weighted-eligible :
    (es : List Candidate) (random : WeightedRandom)
    → 0 < total_weight es
    → (k : ℕ) × (c : Candidate) × (pick_weighted es random ≡ some k)
      × (get_elem? es k ≡ some c)
      × (c.excluded ≡ false)
unfolding pick_weighted
pick_weighted-eligible es random pos_total =
    let (k, c, p, g, f) =
      pick_from-eligible (random.int_n (total_weight es)) es
        (random.int_n_lt (total_weight es) pos_total) in
    (k, c, ground (arith, p, pos_total), g, f)

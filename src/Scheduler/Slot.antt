-- ===== src/Scheduler/Slot.antt =====
-- `executeReservedSlot` of internal/runner/scheduler_execution.go: one reserved request, with other
-- operations in its place while stores are empty.
use kurama.Base.{
  if◌then◌else◌, length, get_elem?, eqs, ℕ, zero, suc, ◌+◌, ◌≡◌, refl, true, false, Option, none,
  some, List, [], ◌∷◌,
}
use kurama.Base.Context.{Context}
use kurama.Config.{OperationConfig}
use kurama.Execution.{ExecutionResult, ExecutionError, OperationExecutor, is_unavailable}
use kurama.Scheduler.Picker.{Candidate, WeightedRandom, pick_weighted}

-- What the execution handler is called with, beside the position of the operation.
pub record Handled : Type 0 where
  pub index : ℕ
  pub result : ExecutionResult
  pub error : Option ExecutionError

-- `if result.Operation == "" { result.Operation = operation.Name }`
pub name_result : OperationConfig → ExecutionResult → ExecutionResult
name_result operation result =
    if eqs result.operation [] then record result { operation = operation.name } else result

-- `excluded[index] = true`
unfoldable pub exclude : ℕ → List Candidate → List Candidate
exclude k [] = []
exclude zero (c ∷ cs) = record c { excluded = true } ∷ cs
exclude (suc k) (c ∷ cs) = c ∷ exclude k cs

abbrev pub candidates_of : List OperationConfig → List Candidate
candidates_of [] = []
candidates_of (o ∷ os) = record { operation = o; excluded = false } ∷ candidates_of os

module _ {ℓ} {S : Type ℓ} (executor : OperationExecutor S) (random : ℕ → WeightedRandom) where
  -- The loop, from the attempt `n`; `random n` is the random source at that attempt.
  unfoldable pub attempts_from : ℕ → ℕ → Context → List Candidate → S → List Handled × S
  unfolding name_result exclude
  attempts_from zero n ctx candidates s = ([], s)
  attempts_from (suc left) n ctx candidates s = elim (pick_weighted candidates (random n)) [
    | none ↦ ([], s)
    | some k ↦ elim (get_elem? candidates k) [
      | none ↦ ([], s)
      | some c ↦
          let ((result, error), s') = executor.execute ctx c.operation s in
          let handled : Handled = record {
            index = k;
            result = name_result c.operation result;
            error = error;
          } in
          elim (is_unavailable error) [
            | false ↦ (handled ∷ [], s')
            | true ↦
                let (more, s'') = attempts_from left (n + 1) ctx (exclude k candidates) s' in
                (handled ∷ more, s'')
          ]
    ]
  ]

  -- `executeReservedSlot`
  unfoldable pub execute_reserved_slot : Context → List OperationConfig → S → List Handled × S
  unfolding attempts_from
  execute_reserved_slot ctx operations s =
      attempts_from (length operations) 0 ctx (candidates_of operations) s

  -- The two steps of the loop that execute an operation.
  module _ (left n : ℕ) (ctx : Context) (cs : List Candidate) (s : S) (k : ℕ) (c : Candidate)
      (picked : pick_weighted cs (random n) ≡ some k) (at : get_elem? cs k ≡ some c) where
    abbrev pub outcome : Handled
    outcome =
        let r = (executor.execute ctx c.operation s).0 in
        record { index = k; result = name_result c.operation r.0; error = r.1 }

    pub attempts_from-settled :
        is_unavailable outcome.error ≡ false
        → (attempts_from (suc left) n ctx cs s).0 ≡ outcome ∷ []
    unfolding attempts_from name_result
    attempts_from-settled h = rw (picked, attempts_from, at, h) refl

    pub attempts_from-retry :
        is_unavailable outcome.error ≡ true
        → (attempts_from (suc left) n ctx cs s).0
          ≡ outcome
            ∷ (attempts_from left
                (n + 1)
                ctx
                (exclude k cs)
                (executor.execute ctx c.operation s).1).0
    unfolding attempts_from name_result
    attempts_from-retry h = rw (picked, attempts_from, at, h) refl

  pub attempts_from-none :
      (left n : ℕ) (ctx : Context) (cs : List Candidate) (s : S)
      → pick_weighted cs (random n) ≡ none
      → (attempts_from left n ctx cs s).0 ≡ []
  unfolding attempts_from
  attempts_from-none zero n ctx cs s h = refl
  attempts_from-none (suc left) n ctx cs s h = rw (h, attempts_from) refl

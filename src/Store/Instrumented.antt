-- ===== src/Store/Instrumented.antt =====
-- internal/runner/instrumented_store.go: a value store that reports each operation.
use kurama.Base.{
  elapsed, if◌then◌else◌, ℤ, Bytes, eqs, ℕ, ◌≡◌, refl, Bool, not, Option, none, some, List, [], ◌∷◌,
  ◌++◌,
}
use kurama.Base.Result.{Result, ok, err}
use kurama.Base.Context.{Context}
use kurama.Store.{ValueStore, StoreError}

-- The constants `StoreOperationPut` and `StoreOperationRandom`.
pub data StoreOperation : Type 0 where
  put_operation random_operation : StoreOperation

-- The constants `StoreResultSuccess`, `StoreResultEmpty` and `StoreResultError`.
pub data StoreResult : Type 0 where
  success empty error : StoreResult

pub record Observation : Type 0 where
  pub backend : Bytes
  pub store : Bytes
  pub operation : StoreOperation
  pub result : StoreResult
  pub duration : ℤ

pub record InstrumentedStore {ℓ} (S : Type ℓ) : Type ℓ where
  pub store : ValueStore S
  pub backend : Bytes

pub data InstrumentError : Type 0 where
  nil_store empty_backend nil_observer : InstrumentError

-- `NewInstrumentedStore`; `observed` says that the observer is not nil.
unfoldable pub new_instrumented_store {ℓ} :
    {S : Type ℓ}
    → Option (ValueStore S)
    → Bytes
    → Bool
    → Result InstrumentError (InstrumentedStore S)
new_instrumented_store none backend observed = err nil_store
new_instrumented_store (some s) backend observed =
    if eqs backend []
    then err empty_backend
    else if not observed
    then err nil_observer
    else ok (record { store = s; backend = backend })

put_result : Result StoreError (Unit {0}) → StoreResult
put_result (ok u) = success
put_result (err e) = error

random_result : Result StoreError (Option Bytes) → StoreResult
random_result (ok none) = empty
random_result (ok (some v)) = success
random_result (err e) = error

-- `observe`; the clock is read before and after the call.
abbrev observe {ℓ} :
    {S : Type ℓ} → InstrumentedStore S → Bytes → StoreOperation → StoreResult → ℕ → ℕ → Observation
observe i store operation result started finished = record {
  backend = i.backend;
  store = store;
  operation = operation;
  result = result;
  duration = elapsed started finished;
}

module _ {ℓ} {S : Type ℓ} (i : InstrumentedStore S) (started finished : ℕ) where
  unfoldable pub put :
      Context
      → Bytes
      → Bytes
      → S × List Observation
      → Result StoreError (Unit {0}) × (S × List Observation)
  unfolding put_result
  put ctx store value (s, log) =
      let (r, s') = i.store.put ctx store value s in
      (r, (s', log ++ (observe i store put_operation (put_result r) started finished ∷ [])))

  unfoldable pub random :
      Context
      → Bytes
      → S × List Observation
      → Result StoreError (Option Bytes) × (S × List Observation)
  unfolding random_result
  random ctx store (s, log) =
      let (r, s') = i.store.random ctx store s in
      (r, (s', log ++ (observe i store random_operation (random_result r) started finished ∷ [])))

  -- What an observation says of a put and of a read.
  abbrev pub PutReported : Result StoreError (Unit {0}) → StoreResult → Type 0
  PutReported (ok u) r = r ≡ success
  PutReported (err e) r = r ≡ error

  abbrev pub RandomReported : Result StoreError (Option Bytes) → StoreResult → Type 0
  RandomReported (ok none) r = r ≡ empty
  RandomReported (ok (some v)) r = r ≡ success
  RandomReported (err e) r = r ≡ error

  put_reported : (r : Result StoreError (Unit {0})) → PutReported r (put_result r)
  unfolding put_result
  put_reported (ok u) = refl
  put_reported (err e) = refl

  random_reported : (r : Result StoreError (Option Bytes)) → RandomReported r (random_result r)
  unfolding random_result
  random_reported (ok none) = refl
  random_reported (ok (some v)) = refl
  random_reported (err e) = refl

  -- The decorator passes both operations on: results and state are those of the bare store, and one
  -- observation is added for each, which names the store and the operation and tells success, an
  -- empty pool and an error apart.
  pub store_transparent :
      (ctx : Context) (name value : Bytes) (s : S) (log : List Observation)
      → let p = put ctx name value (s, log) in
        let q = random ctx name (s, log) in
        let bare_put = i.store.put ctx name value s in
        let bare_random = i.store.random ctx name s in
        ((p.0 ≡ bare_put.0)
          × (p.1.0 ≡ bare_put.1)
          × ((o : Observation) × (p.1.1 ≡ log ++ (o ∷ []))
              × (o.store ≡ name)
              × (o.operation ≡ put_operation)
              × PutReported bare_put.0 o.result))
        × ((q.0 ≡ bare_random.0)
            × (q.1.0 ≡ bare_random.1)
            × ((o : Observation) × (q.1.1 ≡ log ++ (o ∷ []))
                × (o.store ≡ name)
                × (o.operation ≡ random_operation)
                × RandomReported bare_random.0 o.result))
  unfolding put random
  store_transparent ctx name value s log = (
    (refl, refl, (_, refl, refl, refl, put_reported _)),
    (refl, refl, (_, refl, refl, refl, random_reported _)),
  )

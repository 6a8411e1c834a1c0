-- ===== src/Store/Pool.antt =====
-- The contract of a value store: every declared name has a pool of the most recent values.
use mathlib.Core.List.{append-nil, append_assoc}
use kurama.Base.{
  last, last-last-append, if◌then◌else◌, Bool-cases, length, All, length-drop, Bytes, eqs→eq, eqs,
  ℕ, ◌-◌, ◌≤◌, ◌≡◌, ◌∙◌, ◌≢◌, inl, inr, Bool, true, false, Option, some, List, [], ◌∷◌, ◌++◌, arith,
}
use kurama.Base.Result.{ok}
use kurama.Base.Context.{live_context}
use kurama.Store.{ValueStore}

-- The names and limits are fixed when the store is created. `IsGood` is the store's invariant, and
-- `contents` is a pool, oldest value first.
pub record PoolStore {ℓ} (S : Type ℓ) : Type (ℓ + 1) where
  pub store : ValueStore S
  pub limit_of : Bytes → S → Option ℕ
  pub contents : Bytes → S → List Bytes
  pub IsGood : S → Type ℓ
  pub put-contents :
      (k v : Bytes) (limit : ℕ) (s : S)
      → IsGood s
      → limit_of k s ≡ some limit
      → v ≢ []
      → let r = store.put live_context k v s in
        (r.0 ≡ ok tt)
        × IsGood r.1
        × ((j : Bytes) → limit_of j r.1 ≡ limit_of j s)
        × ((j : Bytes)
            → contents j r.1
              ≡ (if eqs k j then last limit (contents k s ++ (v ∷ [])) else contents j s))

pool_fits :
    (hit : Bool) (limit : ℕ) (c : List Bytes) (v : Bytes)
    → length c ≤ limit
    → length (if hit then last limit (c ++ (v ∷ [])) else c) ≤ limit
pool_fits true limit c v h =
    omega (arith, length-drop (length (c ++ (v ∷ [])) - limit) (c ++ (v ∷ [])))
pool_fits false limit c v h = h

module _ {ℓ} {S : Type ℓ} (P : PoolStore S) where
  open P use {store, limit_of, contents, IsGood, put-contents}

  -- A sequence of puts, each a name and a value.
  pub put_all : List (Bytes × Bytes) → S → S
  put_all [] s = s
  put_all ((k, v) ∷ ps) s = put_all ps (store.put live_context k v s).1

  -- The values of a sequence that go to one name.
  pub values_for : Bytes → List (Bytes × Bytes) → List Bytes
  values_for j [] = []
  values_for j ((k, v) ∷ ps) = if eqs k j then v ∷ values_for j ps else values_for j ps

  -- The name is declared and the value is not empty.
  abbrev pub IsAccepted : S → Bytes × Bytes → Type 0
  IsAccepted s (k, v) = ((limit : ℕ) × (limit_of k s ≡ some limit)) × (v ≢ [])

  IsAccepted-later :
      (s t : S) (ps : List (Bytes × Bytes))
      → ((j : Bytes) → limit_of j t ≡ limit_of j s)
      → All (IsAccepted s) ps
      → All (IsAccepted t) ps
  IsAccepted-later s t [] same h = tt
  IsAccepted-later s t ((k, v) ∷ ps) same h =
      (((h.0.0.0, same k ∙ h.0.0.1), h.0.1), IsAccepted-later s t ps same h.1)

  same_pool :
      (k j v : Bytes) (l limit : ℕ) (s : S)
      → k ≡ j
      → limit_of k s ≡ some l
      → limit_of j s ≡ some limit
      → last l (contents k s ++ (v ∷ [])) ≡ last limit (contents j s ++ (v ∷ []))
  same_pool k j v l limit s e p q = cc

  -- One put, seen from the pool of `j`.
  put_step :
      (k v j : Bytes) (limit : ℕ) (s : S)
      → IsGood s
      → IsAccepted s (k, v)
      → limit_of j s ≡ some limit
      → contents j (store.put live_context k v s).1
        ≡ (if eqs k j then last limit (contents j s ++ (v ∷ [])) else contents j s)
  put_step k v j limit s good ok_put declared =
      (put-contents k v ok_put.0.0 s good ok_put.0.1 ok_put.1).3 j ∙ elim (Bool-cases (eqs k j)) [
        | inl same ↦
            rw same (same_pool k j v ok_put.0.0 limit s (eqs→eq k j same) ok_put.0.1 declared)
        | inr other ↦ rw other
      ]

  -- After any sequence of accepted puts every declared pool holds the most recent values that it has
  -- been given, in order, and no more of them than its capacity.
  pub put_all-contents :
      (ps : List (Bytes × Bytes)) (s : S) (j : Bytes) (limit : ℕ)
      → IsGood s
      → limit_of j s ≡ some limit
      → length (contents j s) ≤ limit
      → All (IsAccepted s) ps
      → contents j (put_all ps s) ≡ last limit (contents j s ++ values_for j ps)
  unfolding put_all values_for
  put_all-contents [] s j limit good declared fits h =
      let none_over : length (contents j s) - limit ≡ 0 = omega arith in rw (append-nil, none_over)
  put_all-contents ((k, v) ∷ ps) s j limit good declared fits h =
      let (l, le) = h.0.0 in
      let (p, g, same, c) = put-contents k v l s good le h.0.1 in
      let s₁ = (store.put live_context k v s).1 in
      let step = put_step k v j limit s good h.0 declared in
      put_all-contents ps s₁ j limit g (same j ∙ declared)
        (rw step (pool_fits (eqs k j) limit (contents j s) v fits))
        (IsAccepted-later s s₁ ps same h.1)
      ∙ rw step (elim (Bool-cases (eqs k j)) [
        | inl hit ↦
            rw hit (
              last-last-append limit (contents j s ++ (v ∷ [])) (values_for j ps) ∙ rw append_assoc)
        | inr miss ↦ rw miss
      ])

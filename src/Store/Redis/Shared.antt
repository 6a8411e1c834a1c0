-- ===== src/Store/Redis/Shared.antt =====
-- The Redis store fills the contract of a value store.
use kurama.Base.{
  last, ltb, if◌then◌else◌, Bool-cases, Bytes, eqs_refl, eqs_iff, eqs, ℕ, ◌≤◌, ◌≡◌, refl, ◌∙◌, ◌≢◌,
  inl, inr, true, Option, none, some, List, [], ◌∷◌, ◌++◌, arith,
}
use kurama.Base.Result.{ok}
use kurama.Base.Context.{live_context}
use kurama.Base.Assoc.{lookup}
use kurama.Base.RedisKeys.{RedisLists}
use kurama.Store.Pool.{PoolStore}
use kurama.Store.Redis.{RedisStore, key, put, redis_store}

-- Keys of one store are equal exactly when the names are.
eqs-append : (p a b : Bytes) → eqs (p ++ a) (p ++ b) ≡ eqs a b
unfolding eqs
eqs-append [] a b = refl
eqs-append (x ∷ p) a b = ground (arith, eqs-append p a b)

eqs-key : (r : RedisStore) (j k : Bytes) → eqs (key r j) (key r k) ≡ eqs j k
unfolding eqs
eqs-key r j k = eqs-append r.key_prefix _ _ ∙ ground arith

module _ (R : RedisLists) (r : RedisStore) where
  open R use {State, items, rpush, ltrim_last, items-rpush, items-ltrim_last}

  abbrev pub limit_of : Bytes → State → Option ℕ
  limit_of k s = lookup k r.limits

  abbrev pub contents : Bytes → State → List Bytes
  contents k s = items (key r k) s

  put_declared :
      (k v : Bytes) (limit : ℕ) (s : State)
      → lookup k r.limits ≡ some limit
      → v ≢ []
      → put R r none live_context k v s ≡ (ok tt, ltrim_last (key r k) limit (rpush (key r k) v s))
  unfolding put
  put_declared k v limit s e given = ground (arith, e, eqs_iff v [])

  -- Every capacity is positive, as `validateStoreConfigs` checks.
  abbrev pub Positive : Type 0
  Positive = (k : Bytes) (limit : ℕ) → lookup k r.limits ≡ some limit → 1 ≤ limit

  pushed :
      (k v : Bytes) (limit : ℕ) (s : State) (j : Bytes)
      → 1 ≤ limit
      → items (key r j) (ltrim_last (key r k) limit (rpush (key r k) v s))
        ≡ (if eqs k j then last limit (items (key r k) s ++ (v ∷ [])) else items (key r j) s)
  pushed k v limit s j positive =
      let some_kept : ltb 0 limit ≡ true = ground arith in
      simp (items-ltrim_last, some_kept, items-rpush, eqs-key r k j, eqs_refl)
        (elim (Bool-cases (eqs k j)) [ inl hit ↦ rw hit | inr miss ↦ rw miss ])

  pub put-contents :
      (k v : Bytes) (limit : ℕ) (s : State)
      → Positive
      → limit_of k s ≡ some limit
      → v ≢ []
      → let q = put R r none live_context k v s in
        (q.0 ≡ ok tt)
        × Positive
        × ((j : Bytes) → limit_of j q.1 ≡ limit_of j s)
        × ((j : Bytes)
            → contents j q.1
              ≡ (if eqs k j then last limit (contents k s ++ (v ∷ [])) else contents j s))
  put-contents k v limit s good h given =
      rw (put_declared k v limit s h given)
        (refl, good, (λ j. refl), (λ j. pushed k v limit s j (good k limit h)))

  -- The Redis store keeps its contract, for any draw.
  abbrev pub redis_pools : ℕ → PoolStore State
  redis_pools draw = record {
    store = redis_store R r draw;
    limit_of = limit_of;
    contents = contents;
    IsGood = λ s. Positive;
    put-contents = put-contents;
  }

-- ===== src/Store/Memory/Ring.antt =====
-- The memory store fills the contract of a value store.
use mathlib.Core.List.{append-nil}
use native.Mathlib.Nat.{mod-lt}
use kurama.Base.{
  last, unroll, unroll-set, ltb, if◌then◌else◌, ltb→lt, tests, Bool-cases, Option-cases, length,
  set, length-append, length-set, Bytes, eqs_iff, eqs, ℕ, ◌+◌, ◌-◌, ◌%◌, ◌≤◌, ◌<◌, ◌≡◌, refl, ◌≢◌,
  inl, inr, Option, none, some, List, [], ◌∷◌, ◌++◌, arith,
}
use kurama.Base.Result.{ok}
use kurama.Base.Context.{live_context}
use kurama.Base.Assoc.{lookup, insert, lookup-insert}
use kurama.Store.Pool.{PoolStore}
use kurama.Store.Memory.{MemoryPool, MemoryStore, put_value, put, memory_store}

-- A ring that is not full begins at its start.
pub record PoolOk (p : MemoryPool) : Type 0 where
  pub limit_pos : 1 ≤ p.limit
  pub within : length p.values ≤ p.limit
  pub next_lt : p.next < p.limit
  pub filling : length p.values < p.limit → p.next ≡ 0

abbrev pub pool_contents : MemoryPool → List Bytes
pool_contents p = unroll p.next p.values

-- A ring after a write.
ring_ok :
    (xs : List Bytes) (i limit : ℕ) (v : Bytes)
    → 1 ≤ limit
    → limit ≡ length xs
    → PoolOk (record { values = set xs i v; next = (i + 1) % limit; limit = limit })
ring_ok xs i limit v h e = record {
  limit_pos = h;
  within = omega (arith, length-set xs i v);
  next_lt = mod-lt (i + 1) h;
  filling = λ k. absurd (omega (arith, length-set xs i v));
}

put_value-PoolOk : (v : Bytes) (p : MemoryPool) → PoolOk p → PoolOk (put_value v p)
unfolding put_value
put_value-PoolOk v p h = elim (Bool-cases (ltb (length p.values) p.limit)) [
  | inl room ↦ rw room (record {
    limit_pos = h.limit_pos;
    within = omega (tests, length-append p.values (v ∷ []));
    next_lt = h.next_lt;
    filling = λ k. h.filling (ltb→lt _ _ room);
  })
  | inr full ↦ rw full (ring_ok p.values p.next p.limit v h.limit_pos (ground (arith, h.within)))
]

append_ring :
    (xs : List Bytes) (i limit : ℕ) (v : Bytes)
    → i ≡ 0
    → length xs < limit
    → unroll i (xs ++ (v ∷ [])) ≡ last limit (unroll i xs ++ (v ∷ []))
append_ring xs i limit v e h =
    let none_over : length (xs ++ (v ∷ [])) - limit ≡ 0 =
      omega (arith, length-append xs (v ∷ [])) in
    rw e (rw (append-nil (xs ++ (v ∷ [])), append-nil xs, none_over))

full_ring :
    (xs : List Bytes) (i limit : ℕ) (v : Bytes)
    → limit ≡ length xs
    → i < limit
    → unroll ((i + 1) % limit) (set xs i v) ≡ last limit (unroll i xs ++ (v ∷ []))
full_ring xs i limit v e h = rw e (unroll-set xs i v (omega arith))

-- A put adds the newest value, and drops the oldest of a full pool.
pub put_value-contents :
    (v : Bytes) (p : MemoryPool)
    → PoolOk p
    → pool_contents (put_value v p) ≡ last p.limit (pool_contents p ++ (v ∷ []))
unfolding put_value
put_value-contents v p h = elim (Bool-cases (ltb (length p.values) p.limit)) [
  | inl room ↦
      rw room
        (append_ring p.values p.next p.limit v (h.filling (ltb→lt _ _ room)) (ltb→lt _ _ room))
  | inr full ↦ rw full (full_ring p.values p.next p.limit v (ground (arith, h.within)) h.next_lt)
]

-- Every pool of the store is well-formed.
abbrev pub IsGood : MemoryStore → Type 0
IsGood s = (k : Bytes) (p : MemoryPool) → lookup k s.stores ≡ some p → PoolOk p

abbrev pub limit_of : Bytes → MemoryStore → Option ℕ
limit_of k s = elim (lookup k s.stores) [ none ↦ none | some p ↦ some p.limit ]

abbrev pub contents : Bytes → MemoryStore → List Bytes
contents k s = elim (lookup k s.stores) [ none ↦ [] | some p ↦ pool_contents p ]

put_value-limit : (v : Bytes) (p : MemoryPool) → (put_value v p).limit ≡ p.limit
unfolding put_value
put_value-limit v p = ground arith

put_declared :
    (k v : Bytes) (p : MemoryPool) (s : MemoryStore)
    → lookup k s.stores ≡ some p
    → v ≢ []
    → put live_context k v s ≡ (ok tt, record s { stores = insert k (put_value v p) s.stores })
unfolding put
put_declared k v p s e given = ground (arith, e, eqs_iff v [])

declared_pool :
    (k : Bytes) (limit : ℕ) (s : MemoryStore)
    → limit_of k s ≡ some limit
    → (p : MemoryPool) × (lookup k s.stores ≡ some p) × (p.limit ≡ limit)
declared_pool k limit s h = elim (Option-cases (lookup k s.stores)) [
  | inl e ↦ absurd (ground (arith, e, h))
  | inr (p, e) ↦ (p, e, ground (arith, e, h))
]

same_limit :
    (k j v : Bytes) (p : MemoryPool) (s : MemoryStore)
    → lookup k s.stores ≡ some p
    → ◌≡◌ {A = Option ℕ}
        (elim (if eqs k j then some (put_value v p) else lookup j s.stores) [
          | none ↦ none
          | some q ↦ some q.limit
        ])
        (limit_of j s)
same_limit k j v p s e = elim (Bool-cases (eqs k j)) [
  | inl hit ↦ rw hit (ground (arith, put_value-limit v p, eqs_iff k j, e))
  | inr miss ↦ rw miss refl
]

pub put-contents :
    (k v : Bytes) (limit : ℕ) (s : MemoryStore)
    → IsGood s
    → limit_of k s ≡ some limit
    → v ≢ []
    → let r = put live_context k v s in
      (r.0 ≡ ok tt)
      × IsGood r.1
      × ((j : Bytes) → limit_of j r.1 ≡ limit_of j s)
      × ((j : Bytes)
          → contents j r.1
            ≡ (if eqs k j then last limit (contents k s ++ (v ∷ [])) else contents j s))
put-contents k v limit s good h given =
    let (p, e, l) = declared_pool k limit s h in
    rw (put_declared k v p s e given) (
      refl,
      (λ j q f. ground (
        arith,
        f,
        lookup-insert k j (put_value v p) s.stores,
        put_value-PoolOk v p (good k p e),
        good j q,
      )),
      (λ j. rw (lookup-insert k j (put_value v p) s.stores, limit_of) (same_limit k j v p s e)),
      (λ j.
          rw (lookup-insert k j (put_value v p) s.stores, contents)
            (ground (arith, e, put_value-contents v p (good k p e), l))),
    )

-- The memory store keeps its contract, for any draw.
abbrev pub memory_pools : ℕ → PoolStore MemoryStore
memory_pools draw = record {
  store = memory_store draw;
  limit_of = limit_of;
  contents = contents;
  IsGood = IsGood;
  put-contents = put-contents;
}

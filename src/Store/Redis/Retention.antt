-- ===== src/Store/Redis/Retention.antt =====
-- What `ReconcileKeys` does to the deadlines of store keys.
use kurama.Base.{
  ◌==◌, if◌then◌else◌, Bool-cases, length, Bytes, eqs→eq, eqs_refl, eqs_iff, eqs, has_byte, elem, ℕ,
  ◌≡◌, refl, ◌∙◌, ◌⊎◌, inl, inr, Bool, true, false, ◌&&◌, ◌||◌, not, Option, none, some, List, [],
  ◌∷◌, ◌++◌, arith,
}
use kurama.Base.Result.{Result, ok}
use kurama.Base.Context.{live_context}
use kurama.Base.Assoc.{lookup}
use kurama.Base.RedisKeys.{RedisLists}
use kurama.RedisKey.{separator}
use kurama.Names.{matches_name}
use kurama.Store.{StoreError}
use kurama.Store.Redis.{
  RedisStore, trim_prefix, removed_store_ttl, reconciled_keys, reconcile_pipeline, reconcile_keys,
}

-- The store that a key belongs to.
abbrev pub store_of : RedisStore → Bytes → Bytes
store_of r k = trim_prefix (r.key_prefix ++ (separator ∷ [])) k

-- That is a name, with no colon.
abbrev pub names_store : RedisStore → Bytes → Bool
names_store r k = not (has_byte separator (store_of r k)) && matches_name (store_of r k)

-- The deadline after reconciliation, of a key that is there or not: none for a declared store, and
-- the first one that was set, or seven days, for another. What is not there gets no deadline.
abbrev pub settled : Option ℕ → Bool → Option ℕ → Option ℕ
settled (some limit) there old = none
settled none false old = old
settled none true none = some removed_store_ttl
settled none true (some old) = some old

-- Settling twice is settling once.
settled_twice :
    (limit : Option ℕ) (there : Bool) (old : Option ℕ)
    → settled limit there (settled limit there old) ≡ settled limit there old
settled_twice (some l) there old = refl
settled_twice none false old = refl
settled_twice none true none = refl
settled_twice none true (some o) = refl

-- A key that comes up twice is settled once.
once :
    (later : Bool) (k j : Bytes) (lk lj : Option ℕ) (pk pj : Bool) (tk tj : Option ℕ)
    → (k ≡ j → lk ≡ lj)
    → (k ≡ j → pk ≡ pj)
    → (k ≡ j → tk ≡ tj)
    → ◌≡◌ {A = Option ℕ}
        (if later
          then settled lj pj (if eqs k j then settled lk pk tk else tj)
          else (if eqs k j then settled lk pk tk else tj))
        (if eqs j k || later then settled lj pj tj else tj)
once later k j lk lj pk pj tk tj f p g = elim (Bool-cases (eqs k j)) [
  | inl hit ↦
      let e = eqs→eq k j hit in
      rw (f e, p e, g e, e, eqs_refl) (ground (arith, settled_twice lj pj tj))
  | inr miss ↦ ground (arith, miss, eqs_iff k j, eqs_iff j k)
]

module _ (R : RedisLists) (r : RedisStore) where
  open R use {
    State, items, ttl, persist, expire_nx, ttl-persist, ttl-expire_nx, items-persist,
    items-expire_nx, present, present-persist, present-expire_nx,
  }

  one_key :
      (k j : Bytes) (s : State)
      → ttl j (elim (lookup (store_of r k) r.limits) [
        | some limit ↦ persist k s
        | none ↦ expire_nx k removed_store_ttl s
      ])
        ≡ (if eqs k j
            then settled (lookup (store_of r k) r.limits) (present k s) (ttl k s)
            else ttl j s)
  one_key k j s = one_key_by (lookup (store_of r k) r.limits) (Bool-cases (present k s))
    where
      one_key_by :
          (limit : Option ℕ)
          → (present k s ≡ true) ⊎ (present k s ≡ false)
          → ttl j (elim limit [ some l ↦ persist k s | none ↦ expire_nx k removed_store_ttl s ])
            ≡ (if eqs k j then settled limit (present k s) (ttl k s) else ttl j s)
      one_key_by (some l) there = ttl-persist k s j
      one_key_by none (inl there) = ground (arith, there, ttl-expire_nx k removed_store_ttl s j)
      one_key_by none (inr missing) =
          ground (arith, missing, ttl-expire_nx k removed_store_ttl s j, eqs→eq k j)

  one_present :
      (k j : Bytes) (s : State)
      → present j (elim (lookup (store_of r k) r.limits) [
        | some limit ↦ persist k s
        | none ↦ expire_nx k removed_store_ttl s
      ])
        ≡ present j s
  one_present k j s =
      ground (arith, present-persist k s j, present-expire_nx k removed_store_ttl s j)

  pipeline_ttl :
      (ks : List Bytes) (j : Bytes) (s : State)
      → ttl j (reconcile_pipeline R r ks s) ≡ (
          if elem j ks
          then settled (lookup (store_of r j) r.limits) (present j s) (ttl j s)
          else ttl j s)
  unfolding reconcile_pipeline elem
  pipeline_ttl [] j s = refl
  pipeline_ttl (k ∷ ks) j s =
      pipeline_ttl ks j _
      ∙ rw (one_key k j s, one_present k j s)
          (once (elem j ks) k j (lookup (store_of r k) r.limits) (lookup (store_of r j) r.limits)
            (present k s) (present j s) (ttl k s) (ttl j s) (λ e. rw e) (λ e. rw e) (λ e. rw e))

  pipeline_items :
      (ks : List Bytes) (j : Bytes) (s : State) → items j (reconcile_pipeline R r ks s) ≡ items j s
  unfolding reconcile_pipeline
  pipeline_items [] j s = refl
  pipeline_items (k ∷ ks) j s =
      pipeline_items ks j _
      ∙ ground (arith, items-persist k s j, items-expire_nx k removed_store_ttl s j)

  skip_empty :
      (ks : List Bytes) (s : State)
      → ◌≡◌ {A = Result StoreError (Unit {0}) × State}
          (if length ks == 0 then (ok tt, s) else (ok tt, reconcile_pipeline R r ks s))
          (ok tt, reconcile_pipeline R r ks s)
  unfolding reconcile_pipeline
  skip_empty [] s = refl
  skip_empty (k ∷ ks) s = ground arith

  elem-reconciled_keys :
      (ks : List Bytes) (j : Bytes)
      → elem j (reconciled_keys R r ks) ≡ (elem j ks && names_store r j)
  unfolding reconciled_keys elem
  elem-reconciled_keys [] j = refl
  elem-reconciled_keys (k ∷ ks) j = ground (arith, elem-reconciled_keys ks j, eqs_iff j k)

  -- Where Redis answers, reconciliation leaves every value in place and settles the deadline of
  -- exactly those keys that SCAN returned and that name a store of the scenario: a key of a declared
  -- store does not expire, and a key of a removed store that is still there expires seven days after
  -- the first reconciliation that saw it, which later ones do not put off.
  pub reconcile_keys_lem :
      (scanned : List Bytes) (s : State)
      → let q = reconcile_keys R r none none live_context scanned s in
        (q.0 ≡ ok tt)
        × ((j : Bytes) → items j q.1 ≡ items j s)
        × ((j : Bytes)
            → ttl j q.1 ≡ (
                if elem j scanned && names_store r j
                then settled (lookup (store_of r j) r.limits) (present j s) (ttl j s)
                else ttl j s))
  unfolding reconcile_keys
  reconcile_keys_lem scanned s = rw (skip_empty (reconciled_keys R r scanned) s) (
    refl,
    (λ j. pipeline_items (reconciled_keys R r scanned) j s),
    (λ j.
        pipeline_ttl (reconciled_keys R r scanned) j s ∙ rw (elem-reconciled_keys scanned j) refl),
  )

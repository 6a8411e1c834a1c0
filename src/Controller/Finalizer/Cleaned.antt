-- ===== src/Controller/Finalizer/Cleaned.antt =====
-- What a clean-up deletes, and when it removes the finalizer.
use kurama.Base.{
  if◌then◌else◌, Bool-cases, Bytes, ◌≡◌, refl, ap, ◌∙◌, inl, inr, Bool, true, false, ◌&&◌, ◌||◌,
  Option, none, some, List, [], ◌∷◌, ◌++◌, arith,
}
use kurama.Base.Result.{Result, ok, err, Result-cases}
use kurama.Controller.Finalizer.{
  scan_all, redis_unavailable, bad_scope, Scenario, Answers, Action, Cause, delete_runner,
  delete_keys, remove_finalizer, report_abandoned, grace_period_expired,
  remove_redis_cleanup_finalizer, abandon_cleanup, retry_or_abandon_cleanup,
  delete_scenario_redis_keys, clean_up,
}
use kurama.RedisKey.{Scope, new_scope, cleanup_patterns}

abbrev pub no_keys : List Bytes → Bool
no_keys [] = true
no_keys (k ∷ ks) = false

abbrev pub removes : List Action → Bool
removes [] = false
removes (remove_finalizer ∷ rest) = true
removes (delete_runner ∷ rest) = removes rest
removes (delete_keys ks ∷ rest) = removes rest
removes (report_abandoned c ∷ rest) = removes rest

-- The keys that Redis is told to delete.
abbrev pub deleted_keys : List Action → List Bytes
deleted_keys [] = []
deleted_keys (delete_keys ks ∷ rest) = ks ++ deleted_keys rest
deleted_keys (remove_finalizer ∷ rest) = deleted_keys rest
deleted_keys (delete_runner ∷ rest) = deleted_keys rest
deleted_keys (report_abandoned c ∷ rest) = deleted_keys rest

-- Redis answers the scan of every pattern.
pub answered : (Bytes → Option (List Bytes)) → List Bytes → Bool
answered scan [] = true
answered scan (p ∷ ps) =
    let rest = answered scan ps in elim (scan p) [ none ↦ false | some keys ↦ rest ]

-- The keys that the patterns find.
pub found_keys : (Bytes → Option (List Bytes)) → List Bytes → List Bytes
found_keys scan [] = []
found_keys scan (p ∷ ps) =
    let rest = found_keys scan ps in elim (scan p) [ none ↦ rest | some keys ↦ keys ++ rest ]

-- The patterns of a scenario, if its names can be parts of Redis keys.
abbrev pub patterns_of : Scenario → Option (List Bytes)
patterns_of scenario = elim (new_scope scenario.namespace scenario.name scenario.uid) [
  | err e ↦ none
  | ok scope ↦ some (cleanup_patterns scope)
]

-- Every pattern of the scenario was scanned, and the keys that were found, if any, were deleted.
abbrev pub cleaned : Scenario → Answers → Bool
cleaned scenario a = elim (patterns_of scenario) [
  | none ↦ false
  | some ps ↦ answered a.scan ps && (no_keys (found_keys a.scan ps) || a.del_succeeds)
]

-- The keys that the patterns of the scenario find.
abbrev pub keys_of : Scenario → Answers → List Bytes
keys_of scenario a = elim (patterns_of scenario) [ none ↦ [] | some ps ↦ found_keys a.scan ps ]

pub removes-retry_or_abandon_cleanup :
    (scenario : Scenario) (a : Answers) (c : Cause)
    → removes (retry_or_abandon_cleanup scenario a c).1 ≡ grace_period_expired scenario a.now
unfolding retry_or_abandon_cleanup abandon_cleanup remove_redis_cleanup_finalizer
removes-retry_or_abandon_cleanup scenario a c = ground arith

removes-delete_scenario_redis_keys :
    (a : Answers) (scope : Scope) → removes (delete_scenario_redis_keys a scope).1 ≡ false
unfolding delete_scenario_redis_keys
removes-delete_scenario_redis_keys a scope = ground arith

scan_all-answered :
    (scan : Bytes → Option (List Bytes)) (ps : List Bytes)
    → scan_all scan ps ≡ (if answered scan ps then some (found_keys scan ps) else none)
unfolding scan_all answered found_keys
scan_all-answered scan [] = refl
scan_all-answered scan (p ∷ ps) = ground (arith, scan_all-answered scan ps)

append_nil : (ks : List Bytes) → ks ++ [] ≡ ks
append_nil [] = refl
append_nil (k ∷ ks) = ap (λ xs. k ∷ xs) (append_nil ks)

-- The outcome of a deletion of keys.
abbrev Deletes : Bool → List Bytes → Bool → Result Cause (Unit {0}) × List Action → Type 0
Deletes answers keys succeeds (ok u, actions) =
    ((answers && (no_keys keys || succeeds)) ≡ true) × (deleted_keys actions ≡ keys)
Deletes answers keys succeeds (err c, actions) = (answers && (no_keys keys || succeeds)) ≡ false

after_scan :
    (a : Answers) (answers : Bool) (keys : List Bytes) (scope : Scope)
    → scan_all a.scan (cleanup_patterns scope) ≡ (if answers then some keys else none)
    → Deletes answers keys a.del_succeeds (delete_scenario_redis_keys a scope)
unfolding delete_scenario_redis_keys
after_scan a false keys scope h = rw (h, delete_scenario_redis_keys) refl
after_scan a true [] scope h = rw (h, delete_scenario_redis_keys) (refl, refl)
after_scan a true (k ∷ ks) scope h = elim (Bool-cases a.del_succeeds) [
  | inl fine ↦ rw (h, fine, delete_scenario_redis_keys) (refl, append_nil (k ∷ ks))
  | inr broken ↦ rw (h, broken, delete_scenario_redis_keys) refl
]

delete_scenario_redis_keys-Deletes :
    (a : Answers) (scope : Scope)
    → let ps = cleanup_patterns scope in
      Deletes
        (answered a.scan ps)
        (found_keys a.scan ps)
        a.del_succeeds
        (delete_scenario_redis_keys a scope)
delete_scenario_redis_keys-Deletes a scope =
    let ps = cleanup_patterns scope in
    after_scan a (answered a.scan ps) (found_keys a.scan ps) scope (scan_all-answered a.scan ps)

removes-append : (xs ys : List Action) → removes (xs ++ ys) ≡ (removes xs || removes ys)
removes-append [] ys = refl
removes-append (remove_finalizer ∷ rest) ys = refl
removes-append (delete_runner ∷ rest) ys = removes-append rest ys
removes-append (delete_keys ks ∷ rest) ys = removes-append rest ys
removes-append (report_abandoned c ∷ rest) ys = removes-append rest ys

deleted_keys-finish :
    (xs : List Action) → deleted_keys (xs ++ (remove_finalizer ∷ [])) ≡ deleted_keys xs
deleted_keys-finish [] = refl
deleted_keys-finish (remove_finalizer ∷ rest) = deleted_keys-finish rest
deleted_keys-finish (delete_runner ∷ rest) = deleted_keys-finish rest
deleted_keys-finish (delete_keys ks ∷ rest) = ap (λ xs. ks ++ xs) (deleted_keys-finish rest)
deleted_keys-finish (report_abandoned c ∷ rest) = deleted_keys-finish rest

module _ (scenario : Scenario) (a : Answers) where
  -- What a clean-up with a client and a scope does.
  abbrev cleaned_up : Result Cause (Unit {0}) × List Action → List Action
  cleaned_up (err c, actions) = actions ++ (retry_or_abandon_cleanup scenario a c).1
  cleaned_up (ok u, actions) = actions ++ (remove_finalizer ∷ [])

  clean_up-connected :
      (scope : Scope)
      → a.has_redis ≡ true
      → new_scope scenario.namespace scenario.name scenario.uid ≡ ok scope
      → (clean_up scenario a).1 ≡ cleaned_up (delete_scenario_redis_keys a scope)
  unfolding clean_up remove_redis_cleanup_finalizer
  clean_up-connected scope client valid =
      elim (Result-cases (delete_scenario_redis_keys a scope).0) [
        | inr (c, failed) ↦ ground (arith, client, valid, failed)
        | inl (u, done) ↦ ground (arith, client, valid, done)
      ]

  -- Actions that remove the finalizer exactly on time or after a complete clean-up, which deletes the
  -- keys.
  abbrev pub Removes : Bool → List Bytes → List Action → Type 0
  Removes complete keys actions =
      (removes actions ≡ (grace_period_expired scenario a.now || complete))
      × (removes actions ≡ true
          → grace_period_expired scenario a.now ≡ false
          → deleted_keys actions ≡ keys)

  cleaned_up-Removes :
      (answers : Bool) (keys : List Bytes) (out : Result Cause (Unit {0}) × List Action)
      → removes out.1 ≡ false
      → Deletes answers keys a.del_succeeds out
      → Removes (answers && (no_keys keys || a.del_succeeds)) keys (cleaned_up out)
  cleaned_up-Removes answers keys (err c, actions) quiet d =
      let kept = removes-retry_or_abandon_cleanup scenario a c in
      let split = removes-append actions (retry_or_abandon_cleanup scenario a c).1 in
      (
        rw (split, quiet, d) (ground (arith, kept)),
        λ h g. absurd (ground (arith, h, g, split, quiet, kept)),
      )
  cleaned_up-Removes answers keys (ok u, actions) quiet d = (
    rw (removes-append actions (remove_finalizer ∷ []), quiet, d.0) (ground arith),
    λ h g. deleted_keys-finish actions ∙ d.1,
  )

  retried-Removes :
      (c : Cause) (keys : List Bytes) → Removes false keys (retry_or_abandon_cleanup scenario a c).1
  retried-Removes c keys =
      let kept = removes-retry_or_abandon_cleanup scenario a c in
      (ground (arith, kept), λ h g. absurd (ground (arith, h, g, kept)))

  Removes-eq :
      (b c : Bool) (ks js : List Bytes) (xs ys : List Action)
      → b ≡ c
      → ks ≡ js
      → xs ≡ ys
      → Removes c js ys
      → Removes b ks xs
  Removes-eq b c ks js xs ys p q s h = rw (p, q, s) h

  pub clean_up-Removes :
      Removes (a.has_redis && cleaned scenario a) (keys_of scenario a) (clean_up scenario a).1
  unfolding clean_up
  clean_up-Removes =
      let complete = a.has_redis && cleaned scenario a in
      let keys = keys_of scenario a in
      let done = (clean_up scenario a).1 in
      let retried = λ (c : Cause). (retry_or_abandon_cleanup scenario a c).1 in
      elim (Bool-cases a.has_redis) [
        | inr no_client ↦
            Removes-eq complete false keys keys done (retried redis_unavailable)
              (ground (arith, no_client)) refl (ground (arith, no_client))
              (retried-Removes redis_unavailable keys)
        | inl client ↦
            elim (Result-cases (new_scope scenario.namespace scenario.name scenario.uid)) [
              | inr (e, bad) ↦
                  Removes-eq complete false keys keys done (retried (bad_scope e))
                    (ground (arith, bad)) refl (ground (arith, client, bad))
                    (retried-Removes (bad_scope e) keys)
              | inl (scope, valid) ↦
                  let ps = cleanup_patterns scope in
                  let found = found_keys a.scan ps in
                  Removes-eq complete (answered a.scan ps && (no_keys found || a.del_succeeds)) keys
                    found done (cleaned_up (delete_scenario_redis_keys a scope))
                    (ground (arith, client, valid)) (ground (arith, valid))
                    (clean_up-connected scope client valid)
                    (cleaned_up-Removes (answered a.scan ps) found
                      (delete_scenario_redis_keys a scope)
                      (removes-delete_scenario_redis_keys a scope)
                      (delete_scenario_redis_keys-Deletes a scope))
            ]
      ]

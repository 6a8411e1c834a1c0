-- ===== src/RedisKey/Ownership.antt =====
-- Which keys the cleanup patterns of a scope match.
use mathlib.Core.List.{append_assoc, append-nil}
use kurama.Base.{
  Bool-cases, Bytes, eqs→eq, eqs_iff, has_prefix-append, eqs, has_prefix, has_byte, ◌≡◌, refl, ap,
  ◌≢◌, inl, inr, true, false, [], ◌∷◌, ◌++◌, arith,
}
use kurama.Base.Result.{ok}
use kurama.RedisKey.{
  Scope, validate, separator, kind_prefix, store_kind, rate_limit_kind, rate_schedule_kind,
  rate_limit_key, root_prefix,
}
use kurama.RedisKey.Split.{IsColonFree, split_prefix}

-- Every part is non-empty and free of colons.
pub record IsValid (s : Scope) : Type 0 where
  pub namespace_given : s.namespace ≢ []
  pub scenario_given : s.scenario ≢ []
  pub uid_given : s.uid ≢ []
  pub namespace_free : IsColonFree s.namespace
  pub scenario_free : IsColonFree s.scenario
  pub uid_free : IsColonFree s.uid

pub validate-IsValid : (s : Scope) → validate s ≡ ok tt → IsValid s
unfolding validate
validate-IsValid s h =
    ground (arith, eqs_iff s.namespace [], eqs_iff s.scenario [], eqs_iff s.uid [])

IsValid-validate : (s : Scope) → IsValid s → validate s ≡ ok tt
unfolding validate
IsValid-validate s h =
    ground (arith, eqs_iff s.namespace [], eqs_iff s.scenario [], eqs_iff s.uid [])

-- A prefix, cut into its fields.
prefix_fields :
    (kind : Bytes) (s : Scope) (rest : Bytes)
    → kind_prefix kind s ++ rest
      ≡ root_prefix
        ++ (separator
            ∷ (kind
                ++ (separator
                    ∷ (s.namespace
                        ++ (separator ∷ (s.scenario ++ (separator ∷ (s.uid ++ rest))))))))
unfolding kind_prefix
prefix_fields kind s rest = simp append_assoc

-- The keys of the other kinds are out of reach.
kinds_agree :
    (k l : Bytes) (s t : Scope) (p q : Bytes)
    → IsColonFree k
    → IsColonFree l
    → has_prefix (kind_prefix k s ++ p) (kind_prefix l t ++ q) ≡ true
    → k ≡ l
unfolding has_prefix
kinds_agree k l s t p q hk hl h =
    (split_prefix k l _ _ hk hl (rw (prefix_fields k s p, prefix_fields l t q) at h)).0

-- A prefix that ends in a separator belongs to one scope only.
pub scopes_agree :
    (k l : Bytes) (s t : Scope) (q : Bytes)
    → IsColonFree k
    → IsColonFree l
    → IsValid s
    → IsValid t
    → has_prefix (kind_prefix k s ++ (separator ∷ [])) (kind_prefix l t ++ (separator ∷ q)) ≡ true
    → s ≡ t
unfolding has_prefix
scopes_agree k l s t q hk hl vs vt h =
    let h₁ =
      split_prefix k l _ _ hk hl
        (rw (prefix_fields k s (separator ∷ []), prefix_fields l t (separator ∷ q)) at h) in
    let h₂ = split_prefix s.namespace t.namespace _ _ vs.namespace_free vt.namespace_free h₁.1 in
    let h₃ = split_prefix s.scenario t.scenario _ _ vs.scenario_free vt.scenario_free h₂.1 in
    let h₄ = split_prefix s.uid t.uid _ _ vs.uid_free vt.uid_free h₃.1 in
    λ i. record { namespace = h₂.0 i; scenario = h₃.0 i; uid = h₄.0 i }

has_prefix_refl : (a : Bytes) → has_prefix a a ≡ true
unfolding has_prefix
has_prefix_refl [] = refl
has_prefix_refl (x ∷ a) = ground (arith, has_prefix_refl a)

-- The key of the shared budget names its scope.
pub limit_keys_agree :
    (s t : Scope) → IsValid s → IsValid t → rate_limit_key s ≡ rate_limit_key t → s ≡ t
unfolding rate_limit_key has_byte
limit_keys_agree s t vs vt h =
    scopes_agree rate_limit_kind rate_limit_kind s t [] refl refl vs vt
      (rw (ap (λ (x : Bytes). x ++ (separator ∷ [])) h) (has_prefix_refl _))

-- The three kinds are distinct words without a colon.
pub kind_free :
    IsColonFree store_kind × IsColonFree rate_limit_kind × IsColonFree rate_schedule_kind
unfolding has_byte
kind_free = (refl, refl, refl)

pub kinds_differ :
    (store_kind ≢ rate_limit_kind)
    × (store_kind ≢ rate_schedule_kind)
    × (rate_limit_kind ≢ rate_schedule_kind)
kinds_differ = (λ e. ground (arith, e), λ e. ground (arith, e), λ e. ground (arith, e))

-- A key of another kind is neither below a starred pattern nor equal to a plain one.
pub other_prefix :
    (k l : Bytes) (s t : Scope) (p q : Bytes)
    → IsColonFree k
    → IsColonFree l
    → k ≢ l
    → has_prefix (kind_prefix k s ++ p) (kind_prefix l t ++ q) ≡ false
other_prefix k l s t p q hk hl d =
    elim (Bool-cases (has_prefix (kind_prefix k s ++ p) (kind_prefix l t ++ q))) [
      | inl y ↦ absurd (d (kinds_agree k l s t p q hk hl y))
      | inr n ↦ n
    ]

pub other_key :
    (k l : Bytes) (s t : Scope) (q : Bytes)
    → IsColonFree k
    → IsColonFree l
    → k ≢ l
    → eqs (kind_prefix k s) (kind_prefix l t ++ q) ≡ false
other_key k l s t q hk hl d = elim (Bool-cases (eqs (kind_prefix k s) (kind_prefix l t ++ q))) [
  | inl y ↦
      absurd
        (d (kinds_agree k l s t [] q hk hl (rw (append-nil, eqs→eq _ _ y) (has_prefix_refl _))))
  | inr n ↦ n
]

pub own_prefix :
    (k : Bytes) (s : Scope) (q : Bytes)
    → has_prefix (kind_prefix k s ++ (separator ∷ [])) (kind_prefix k s ++ (separator ∷ q)) ≡ true
own_prefix k s q = rw (← append_assoc (kind_prefix k s) (separator ∷ []) q) (has_prefix-append _ q)

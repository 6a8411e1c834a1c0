-- ===== src/RedisKey/Cleanup.antt =====
-- What the cleanup of a scope deletes.
use mathlib.Core.List.{append_assoc, append-nil}
use kurama.Base.{
  Bytes, codes, eqs→eq, eqs_refl, eqs, has_prefix, contains_any, ◌≡◌, refl, sym, ◌↔◌, Bool, true,
  false, ◌||◌, List, [], ◌∷◌, ◌++◌, arith,
}
use kurama.RedisKey.{
  Scope, separator, kind_prefix, store_kind, rate_limit_kind, rate_schedule_kind, store_prefix,
  rate_limit_key, rate_schedule_prefix, cleanup_patterns, cleanup_pattern_tail,
}
use kurama.RedisKey.Ownership.{
  IsValid, scopes_agree, limit_keys_agree, kind_free, kinds_differ, other_prefix, other_key,
  own_prefix,
}

-- `SCAN ... MATCH` in Redis: what a pattern without special characters matches, alone and before
-- a final star.
abbrev pub glob_specials : Bytes
glob_specials = codes "*?[\\"

abbrev pub NoSpecials : Bytes → Type 0
NoSpecials p = contains_any p glob_specials ≡ false

pub record GlobMatch : Type 0 where
  pub matches : Bytes → Bytes → Bool
  pub plain : (p k : Bytes) → NoSpecials p → matches p k ≡ eqs p k
  pub starred :
      (p k : Bytes) → NoSpecials p → matches (p ++ cleanup_pattern_tail) k ≡ has_prefix p k

pub record IsPlain (s : Scope) : Type 0 where
  pub namespace_plain : NoSpecials s.namespace
  pub scenario_plain : NoSpecials s.scenario
  pub uid_plain : NoSpecials s.uid

contains_any-append :
    (a b cs : Bytes) → contains_any (a ++ b) cs ≡ (contains_any a cs || contains_any b cs)
unfolding contains_any
contains_any-append [] b cs = refl
contains_any-append (x ∷ a) b cs = ground (arith, contains_any-append a b cs)

kind_prefix-NoSpecials :
    (k : Bytes) (s : Scope) (rest : Bytes)
    → NoSpecials k
    → NoSpecials rest
    → IsPlain s
    → NoSpecials (kind_prefix k s ++ rest)
unfolding kind_prefix contains_any
kind_prefix-NoSpecials k s rest hk hr v =
    simp
      (append_assoc, contains_any-append, hk, hr, v.namespace_plain, v.scenario_plain, v.uid_plain)

-- The keys that a runner writes: one for each value store, one for the budget, and one for each
-- parameter set of a schedule.
pub data Key : Type 0 where
  store_key : Bytes → Key
  limit_key : Key
  schedule_key : Bytes → Key

abbrev pub key_of : Scope → Key → Bytes
key_of t (store_key name) = store_prefix t ++ (separator ∷ name)
key_of t limit_key = rate_limit_key t
key_of t (schedule_key suffix) = rate_schedule_prefix t ++ (separator ∷ suffix)

abbrev pub matched_by : GlobMatch → List Bytes → Bytes → Bool
matched_by g [] k = false
matched_by g (p ∷ ps) k = g.matches p k || matched_by g ps k

module _ (g : GlobMatch) (s : Scope) (plain : IsPlain s) where
  starred_prefix :
      (kind k : Bytes)
      → NoSpecials kind
      → g.matches (kind_prefix kind s ++ (separator ∷ cleanup_pattern_tail)) k
        ≡ has_prefix (kind_prefix kind s ++ (separator ∷ [])) k
  unfolding contains_any
  starred_prefix kind k h =
      rw (← append_assoc (kind_prefix kind s) (separator ∷ []) cleanup_pattern_tail)
        (g.starred _ k (kind_prefix-NoSpecials kind s (separator ∷ []) h refl plain))

  plain_key :
      (kind k : Bytes)
      → NoSpecials kind
      → g.matches (kind_prefix kind s) k ≡ eqs (kind_prefix kind s) k
  unfolding contains_any
  plain_key kind k h =
      g.plain _ k (rw append-nil at (kind_prefix-NoSpecials kind s [] h refl plain))

  -- What the three patterns test.
  matches_patterns :
      (k : Bytes)
      → matched_by g (cleanup_patterns s) k ≡ (
          has_prefix (store_prefix s ++ (separator ∷ [])) k
          || (eqs (rate_limit_key s) k
              || (has_prefix (rate_schedule_prefix s ++ (separator ∷ [])) k || false)))
  unfolding cleanup_patterns store_prefix rate_limit_key rate_schedule_prefix contains_any
  matches_patterns k = rw (
    starred_prefix store_kind k refl,
    plain_key rate_limit_kind k refl,
    starred_prefix rate_schedule_kind k refl,
  )

module _ (g : GlobMatch) (s t : Scope) (vs : IsValid s) (vt : IsValid t) (plain : IsPlain s) where
  -- On the keys of each kind one of the three patterns decides.
  matches_key : (k : Key) → matched_by g (cleanup_patterns s) (key_of t k) ≡ true → s ≡ t
  unfolding store_prefix rate_limit_key rate_schedule_prefix
  matches_key (store_key name) h =
      scopes_agree store_kind store_kind s t name kind_free.0 kind_free.0 vs vt (
        ground (
          arith,
          h,
          matches_patterns g s plain (key_of t (store_key name)),
          other_key rate_limit_kind store_kind s t (separator ∷ name) kind_free.1 kind_free.0
              (λ e. kinds_differ.0 (sym e)),
          other_prefix rate_schedule_kind store_kind s t (separator ∷ []) (separator ∷ name)
              kind_free.2 kind_free.0 (λ e. kinds_differ.1 (sym e)),
        ))
  matches_key limit_key h = limit_keys_agree s t vs vt (
      eqs→eq _ _ (
        ground (
          arith,
          h,
          matches_patterns g s plain (rate_limit_key t),
          rw append-nil at (
              other_prefix store_kind rate_limit_kind s t (separator ∷ []) [] kind_free.0
                kind_free.1 kinds_differ.0),
          rw append-nil at (
              other_prefix rate_schedule_kind rate_limit_kind s t (separator ∷ []) [] kind_free.2
                kind_free.1 (λ e. kinds_differ.2 (sym e))),
        )))
  matches_key (schedule_key suffix) h =
      scopes_agree rate_schedule_kind rate_schedule_kind s t suffix kind_free.2 kind_free.2 vs vt (
        ground (
          arith,
          h,
          matches_patterns g s plain (key_of t (schedule_key suffix)),
          other_key rate_limit_kind rate_schedule_kind s t (separator ∷ suffix) kind_free.1
              kind_free.2 kinds_differ.2,
          other_prefix store_kind rate_schedule_kind s t (separator ∷ []) (separator ∷ suffix)
              kind_free.0 kind_free.2 kinds_differ.1,
        ))

own_key :
    (g : GlobMatch) (s : Scope)
    → IsPlain s
    → (k : Key) → matched_by g (cleanup_patterns s) (key_of s k) ≡ true
unfolding store_prefix rate_limit_key rate_schedule_prefix
own_key g s plain (store_key name) =
    ground
      (arith, matches_patterns g s plain (key_of s (store_key name)), own_prefix store_kind s name)
own_key g s plain limit_key =
    ground (arith, matches_patterns g s plain (rate_limit_key s), eqs_refl (rate_limit_key s))
own_key g s plain (schedule_key suffix) = ground (
  arith,
  matches_patterns g s plain (key_of s (schedule_key suffix)),
  own_prefix rate_schedule_kind s suffix,
)

-- Cleaning up a scope matches every key that its own runner writes, and no key that the runner of
-- another valid scope writes, where the parts of the scope hold no special characters of a pattern.
pub cleanup_exact :
    (g : GlobMatch) (s t : Scope)
    → IsValid s
    → IsValid t
    → IsPlain s
    → (k : Key) → (matched_by g (cleanup_patterns s) (key_of t k) ≡ true) ↔ (s ≡ t)
cleanup_exact g s t vs vt plain k =
    (matches_key g s t vs vt plain k, λ e. rw (← e) (own_key g s plain k))

-- ===== src/RedisKey/Tests.antt =====
-- Keys of sample scopes, and the theorems at concrete inputs.
use kurama.Base.{
  ◌==◌, if◌then◌else◌, Bytes, codes, eqs, has_prefix, has_byte, contains_any, ◌≡◌, refl, ap, ◌↔◌,
  Bool, true, false, [], ◌∷◌, ◌++◌, arith,
}
use kurama.Base.Result.{err}
use kurama.RedisKey.{
  Scope, validate, new_scope, colon_in_part, empty_part, namespace_part, scenario_part,
  store_prefix, kind_prefix, cleanup_patterns, join,
}
use kurama.RedisKey.Ownership.{IsValid, validate-IsValid}
use kurama.RedisKey.Cleanup.{
  GlobMatch, IsPlain, NoSpecials, store_key, key_of, matched_by, cleanup_exact,
}

abbrev demo : Scope
demo = record { namespace = codes "shop"; scenario = codes "links"; uid = codes "17" }

demo_store : store_prefix demo ≡ codes "kurama:v2:store:shop:links:17"
unfolding store_prefix kind_prefix join
demo_store = refl

rejects_colon :
    new_scope (codes "shop") (codes "a:b") (codes "17") ≡ err (colon_in_part scenario_part)
unfolding new_scope eqs has_byte
rejects_colon = refl

rejects_zero_value :
    validate (record { namespace = []; scenario = []; uid = [] }) ≡ err (empty_part namespace_part)
unfolding validate eqs
rejects_zero_value = refl

demo-IsValid : IsValid demo
unfolding validate eqs has_byte
demo-IsValid = validate-IsValid demo refl

demo-IsPlain : IsPlain demo
unfolding contains_any
demo-IsPlain = record { namespace_plain = refl; scenario_plain = refl; uid_plain = refl }

-- A matcher for patterns with at most one star, at the end.
ends_in_star : Bytes → Bool
ends_in_star [] = false
ends_in_star (x ∷ []) = x == b'*'
ends_in_star (x ∷ (y ∷ p)) = ends_in_star (y ∷ p)

drop_last : Bytes → Bytes
drop_last [] = []
drop_last (x ∷ []) = []
drop_last (x ∷ (y ∷ p)) = x ∷ drop_last (y ∷ p)

star_match : Bytes → Bytes → Bool
star_match p k = if ends_in_star p then has_prefix (drop_last p) k else eqs p k

no_final_star : (p : Bytes) → NoSpecials p → ends_in_star p ≡ false
unfolding ends_in_star contains_any
no_final_star [] h = refl
no_final_star (x ∷ []) h = ground arith
no_final_star (x ∷ (y ∷ p)) h = no_final_star (y ∷ p) (ground arith)

final_star : (p : Bytes) → (ends_in_star (p ++ codes "*") ≡ true) × (drop_last (p ++ codes "*") ≡ p)
unfolding ends_in_star drop_last
final_star [] = (refl, refl)
final_star (x ∷ []) = (refl, refl)
final_star (x ∷ (y ∷ p)) = let (a, b) = final_star (y ∷ p) in (a, ap (◌∷◌ x) b)

star_match-plain : (p k : Bytes) → NoSpecials p → star_match p k ≡ eqs p k
unfolding star_match
star_match-plain p k h = rw (no_final_star p h)

star_match-starred : (p k : Bytes) → NoSpecials p → star_match (p ++ codes "*") k ≡ has_prefix p k
unfolding star_match
star_match-starred p k h = rw ((final_star p).0, (final_star p).1)

abbrev star_glob : GlobMatch
star_glob = record { matches = star_match; plain = star_match-plain; starred = star_match-starred }

cleanup_exact_example :
    (matched_by star_glob (cleanup_patterns demo) (key_of demo (store_key (codes "urls"))) ≡ true)
    ↔ (demo ≡ demo)
cleanup_exact_example =
    cleanup_exact star_glob demo demo demo-IsValid demo-IsValid demo-IsPlain
      (store_key (codes "urls"))

-- ===== src/RedisKey.antt =====
-- internal/runner/rediskey/key.go: the Redis keys that belong to one TrafficScenario.
pub mod Split
pub mod Ownership
pub mod Cleanup
mod Tests
use kurama.Base.{Bytes, codes, eqs, has_byte, ℕ, ◌*◌, List, [], ◌∷◌, ◌++◌}
use kurama.Base.Result.{Result, ok, ◌>>=◌, ◌>>◌, fail_if}

abbrev pub root_prefix : Bytes
root_prefix = codes "kurama:v2"

abbrev pub store_kind : Bytes
store_kind = codes "store"

abbrev pub rate_limit_kind : Bytes
rate_limit_kind = codes "rate-limit"

abbrev pub rate_schedule_kind : Bytes
rate_schedule_kind = codes "rate-schedule"

abbrev pub separator : ℕ
separator = b':'

abbrev pub cleanup_pattern_tail : Bytes
cleanup_pattern_tail = codes "*"

pub record Scope : Type 0 where
  pub namespace : Bytes
  pub scenario : Bytes
  pub uid : Bytes

pub data Component : Type 0 where
  namespace_part scenario_part uid_part : Component

pub data ScopeError : Type 0 where
  empty_part colon_in_part : Component → ScopeError

abbrev part : Scope → Component → Bytes
part s namespace_part = s.namespace
part s scenario_part = s.scenario
part s uid_part = s.uid

-- One round of the loop in `Scope.Validate`.
pub check_part : Scope → Component → Result ScopeError (Unit {0})
check_part s c = do
  fail_if (eqs (part s c) []) (empty_part c)
  fail_if (has_byte separator (part s c)) (colon_in_part c)

-- The loop ranges over a Go map, in an order that the runtime chooses.
unfoldable pub validate_in : List Component → Scope → Result ScopeError (Unit {0})
unfolding check_part
validate_in [] s = ok tt
validate_in (c ∷ cs) s = let rest = validate_in cs s in check_part s c >> rest

-- `Scope.Validate`, in the order of the map literal.
unfoldable pub validate : Scope → Result ScopeError (Unit {0})
unfolding validate_in
validate = validate_in (namespace_part ∷ scenario_part ∷ uid_part ∷ [])

unfoldable pub new_scope : Bytes → Bytes → Bytes → Result ScopeError Scope
unfolding validate
new_scope namespace scenario uid =
    let scope : Scope = record { namespace = namespace; scenario = scenario; uid = uid } in
    do validate scope; ok scope

-- `strings.Join(parts, ":")`
unfoldable pub join : List Bytes → Bytes
join [] = []
join (x ∷ []) = x
join (x ∷ (y ∷ ys)) = x ++ (separator ∷ join (y ∷ ys))

unfoldable pub kind_prefix : Bytes → Scope → Bytes
unfolding join
kind_prefix kind s = join (root_prefix ∷ kind ∷ s.namespace ∷ s.scenario ∷ s.uid ∷ [])

unfoldable pub store_prefix : Scope → Bytes
store_prefix = kind_prefix store_kind

unfoldable pub rate_limit_key : Scope → Bytes
rate_limit_key = kind_prefix rate_limit_kind

unfoldable pub rate_schedule_prefix : Scope → Bytes
rate_schedule_prefix = kind_prefix rate_schedule_kind

unfoldable pub cleanup_patterns : Scope → List Bytes
cleanup_patterns s =
    (store_prefix s ++ (separator ∷ cleanup_pattern_tail))
    ∷ rate_limit_key s
    ∷ (rate_schedule_prefix s ++ (separator ∷ cleanup_pattern_tail))
    ∷ []

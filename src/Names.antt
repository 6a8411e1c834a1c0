-- ===== src/Names.antt =====
-- The pattern `^[a-z][a-z0-9-]{0,62}$` of internal/runner/operation_validation.go.
use kurama.Base.{
  leb, ◌==◌, length, Bytes, has_byte, ℕ, ◌≡◌, refl, Bool, true, false, ◌&&◌, ◌||◌, not, [], ◌∷◌,
  arith,
}
use kurama.Base.Result.{Result, fail_if}

abbrev pub is_lower : ℕ → Bool
is_lower c = leb b'a' c && leb c b'z'

abbrev pub is_digit : ℕ → Bool
is_digit c = leb b'0' c && leb c b'9'

-- `[a-z0-9-]`
abbrev pub name_byte : ℕ → Bool
name_byte c = is_lower c || is_digit c || (c == b'-')

pub all_name_bytes : Bytes → Bool
all_name_bytes [] = true
all_name_bytes (c ∷ cs) = name_byte c && all_name_bytes cs

-- `namePattern.MatchString`
unfoldable pub matches_name : Bytes → Bool
unfolding all_name_bytes
matches_name [] = false
matches_name (c ∷ cs) = is_lower c && all_name_bytes cs && leb (length cs) 62

pub data NameError : Type 0 where
  name_mismatch : Bytes → NameError

-- `validateName`
unfoldable pub validate_name : Bytes → Result NameError (Unit {0})
validate_name name = fail_if (not (matches_name name)) (name_mismatch name)

-- A byte outside `[a-z0-9-]` does not occur in a valid name.
pub name-lacks :
    (b : ℕ) (name : Bytes)
    → name_byte b ≡ false
    → matches_name name ≡ true
    → has_byte b name ≡ false
unfolding matches_name has_byte
name-lacks b [] h k = refl
name-lacks b (c ∷ cs) h k = ground (arith, rest cs)
  where
    rest : (cs : Bytes) → all_name_bytes cs ≡ true → has_byte b cs ≡ false
    rest [] e = refl
    rest (d ∷ ds) e = ground (arith, rest ds)

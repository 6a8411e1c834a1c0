-- ===== src/JsonPointer.antt =====
-- JSON pointers (RFC 6901): `validateJSONPointer` of internal/runner/operation_validation.go and
-- `resolveJSONPointer` of executor_capture.go.
pub mod Tokens
mod Tests
use kurama.Base.{
  leb, ◌==◌, if◌then◌else◌, drop, Bytes, codes, eqs, has_prefix, ℕ, zero, suc, ◌+◌, ◌-◌, ◌*◌, ◌/◌,
  Bool, true, ◌&&◌, ◌||◌, not, Option, none, some, List, [], ◌∷◌,
}
use kurama.Base.Result.{Result, ok, err, ◌>>=◌, ◌>>◌, fail_if}

-- What `encoding/json` decodes into, with numbers kept as texts.
mutual
  pub data Json : Type 0 where
    null : Json
    boolean : Bool → Json
    number : Bytes → Json
    string : Bytes → Json
    array : Items → Json
    object : Fields → Json

  pub data Items : Type 0 where
    no_items : Items
    item : Json → Items → Items

  pub data Fields : Type 0 where
    no_fields : Fields
    field : Bytes → Json → Fields → Fields

pub data PointerError : Type 0 where
  no_leading_slash invalid_escape : PointerError
  pointer_missing pointer_bad_index pointer_at_leaf : Bytes → PointerError

-- `container[token]` on a map with distinct keys.
unfoldable pub field_of : Bytes → Fields → Option Json
field_of token no_fields = none
field_of token (field k v fs) = if eqs k token then some v else field_of token fs

-- `container[index]`, or nothing where `index >= len(container)`.
unfoldable pub item_of : ℕ → Items → Option Json
item_of i no_items = none
item_of zero (item v vs) = some v
item_of (suc i) (item v vs) = item_of i vs

-- The escapes after the first byte of a pointer: `~` is followed by `0` or `1`.
unfoldable pub escapes_ok : Bytes → Bool
escapes_ok [] = true
escapes_ok (c ∷ []) = not (c == b'~')
escapes_ok (c ∷ (d ∷ s)) =
    if c == b'~' then ((d == b'0') || (d == b'1')) && escapes_ok s else escapes_ok (d ∷ s)

-- `validateJSONPointer`
unfoldable pub validate_json_pointer : Bytes → Result PointerError (Unit {0})
unfolding escapes_ok
validate_json_pointer pointer = do
  fail_if (not (has_prefix (codes "/") pointer)) no_leading_slash
  fail_if (not (escapes_ok pointer)) invalid_escape

-- `strings.Split(s, "/")`
unfoldable pub split_tokens : Bytes → List Bytes
split_tokens [] = [] ∷ []
split_tokens (c ∷ s) =
    let rest = split_tokens s in
    if c == b'/' then [] ∷ rest else (elim rest [ [] ↦ (c ∷ []) ∷ [] | t ∷ ts ↦ (c ∷ t) ∷ ts ])

-- `strings.ReplaceAll(s, "~1", "/")`
unfoldable pub replace_slash : Bytes → Bytes
replace_slash [] = []
replace_slash (c ∷ []) = c ∷ []
replace_slash (c ∷ (d ∷ s)) =
    if (c == b'~') && (d == b'1') then b'/' ∷ replace_slash s else c ∷ replace_slash (d ∷ s)

-- `strings.ReplaceAll(s, "~0", "~")`
unfoldable pub replace_tilde : Bytes → Bytes
replace_tilde [] = []
replace_tilde (c ∷ []) = c ∷ []
replace_tilde (c ∷ (d ∷ s)) =
    if (c == b'~') && (d == b'0') then b'~' ∷ replace_tilde s else c ∷ replace_tilde (d ∷ s)

unfoldable pub decode_token : Bytes → Bytes
unfolding replace_slash replace_tilde
decode_token encoded = replace_tilde (replace_slash encoded)

abbrev pub is_digit : ℕ → Bool
is_digit c = leb b'0' c && leb c b'9'

unfoldable pub digits : ℕ → Bytes → Option ℕ
digits acc [] = some acc
digits acc (c ∷ s) = if is_digit c then digits (10 * acc + (c - b'0')) s else none

-- `strconv.Atoi`, for an index: a sign is allowed, a negative value is no index, and a value of 64
-- bits or more, which `Atoi` refuses, is out of range in either case.
unfoldable pub parse_index : Bytes → Option ℕ
unfolding digits
parse_index [] = none
parse_index (c ∷ []) = digits 0 (c ∷ [])
parse_index (c ∷ (d ∷ s)) =
    if c == b'+'
    then digits 0 (d ∷ s)
    else if c == b'-'
    then (elim (digits 0 (d ∷ s)) [ some zero ↦ some 0 | some (suc n) ↦ none | none ↦ none ])
    else digits 0 (c ∷ (d ∷ s))

-- One token of the loop.
unfoldable pub resolve_token : Bytes → Bytes → Json → Result PointerError Json
unfolding field_of item_of parse_index
resolve_token pointer token (object fs) = elim (field_of token fs) [
  | none ↦ err (pointer_missing pointer)
  | some v ↦ ok v
]
resolve_token pointer token (array vs) = elim (parse_index token) [
  | none ↦ err (pointer_bad_index token)
  | some i ↦ elim (item_of i vs) [ none ↦ err (pointer_bad_index token) | some v ↦ ok v ]
]
resolve_token pointer token null = err (pointer_at_leaf token)
resolve_token pointer token (boolean b) = err (pointer_at_leaf token)
resolve_token pointer token (number n) = err (pointer_at_leaf token)
resolve_token pointer token (string s) = err (pointer_at_leaf token)

unfoldable pub resolve_tokens : Bytes → List Bytes → Json → Result PointerError Json
unfolding resolve_token decode_token
resolve_tokens pointer [] document = ok document
resolve_tokens pointer (t ∷ ts) document = do
  next ← resolve_token pointer (decode_token t) document
  resolve_tokens pointer ts next

-- `resolveJSONPointer`; `pointer[1:]` of an empty pointer is not reached, since it is validated.
unfoldable pub resolve_json_pointer : Json → Bytes → Result PointerError Json
unfolding resolve_tokens split_tokens
resolve_json_pointer document pointer =
    resolve_tokens pointer (split_tokens (drop 1 pointer)) document

-- ===== src/Template.antt =====
-- The templates of request paths and bodies: `templateVarPattern` and the functions of
-- internal/runner/operation_validation.go and executor_variables.go that use it. Texts are ASCII
-- where they are trimmed.
pub mod Scan
pub mod Render
mod Tests
use kurama.Base.{
  leb, ◌==◌, if◌then◌else◌, length, Bytes, codes, contains, ℕ, zero, suc, Bool, true, ◌&&◌, ◌||◌,
  not, Option, none, some, List, [], ◌∷◌, ◌++◌,
}
use kurama.Base.Result.{Result, ok, ◌>>=◌, ◌>>◌, fail_if}
use kurama.Base.Assoc.{lookup}
use kurama.Names.{matches_name}

-- The pattern `\{\{([^{}]*)\}\}` cuts a text into plain bytes and markers.
pub data Piece : Type 0 where
  plain : ℕ → Piece
  marker : Bytes → Piece

abbrev pub is_brace : ℕ → Bool
is_brace c = (c == b'{') || (c == b'}')

-- The text inside a marker, and what follows the two closing braces.
unfoldable pub marker_tail : Bytes → Option (Bytes × Bytes)
marker_tail [] = none
marker_tail (c ∷ []) = none
marker_tail (c ∷ (d ∷ s)) =
    let rest = marker_tail (d ∷ s) in
    if is_brace c
    then (if (c == b'}') && (d == b'}') then some ([], s) else none)
    else (elim rest [ none ↦ none | some (name, t) ↦ some (c ∷ name, t) ])

-- A match at the start of a text.
unfoldable pub marker_at : Bytes → Option (Bytes × Bytes)
marker_at [] = none
marker_at (c ∷ []) = none
marker_at (c ∷ (d ∷ s)) = if (c == b'{') && (d == b'{') then marker_tail s else none

-- The leftmost matches that do not overlap. Every piece takes a byte, so the length is enough fuel.
unfoldable pub scan : ℕ → Bytes → List Piece
scan zero s = []
scan (suc fuel) [] = []
scan (suc fuel) (c ∷ s) = elim (marker_at (c ∷ s)) [
  | none ↦ plain c ∷ scan fuel s
  | some (name, rest) ↦ marker name ∷ scan fuel rest
]

unfoldable pub pieces : Bytes → List Piece
pieces s = scan (length s) s

abbrev pub is_space : ℕ → Bool
is_space c = (c == 32) || (leb 9 c && leb c 13)

unfoldable pub trim_left : Bytes → Bytes
trim_left [] = []
trim_left (c ∷ s) = if is_space c then trim_left s else c ∷ s

unfoldable pub trim_right : Bytes → Bytes
trim_right [] = []
trim_right (c ∷ s) =
    let rest = trim_right s in
    elim rest [ [] ↦ if is_space c then [] else c ∷ [] | d ∷ t ↦ c ∷ (d ∷ t) ]

-- `strings.TrimSpace`
unfoldable pub trim_space : Bytes → Bytes
unfolding trim_left trim_right
trim_space s = trim_right (trim_left s)

-- The name that a marker's text stands for.
abbrev pub variable_name : Bytes → Bytes
variable_name text = trim_space text

-- The names that a text refers to, in order.
unfoldable pub names_of : List Piece → List Bytes
names_of [] = []
names_of (plain c ∷ ps) = names_of ps
names_of (marker text ∷ ps) = variable_name text ∷ names_of ps

-- What is left when each marker is replaced by the empty string.
unfoldable pub remaining : List Piece → Bytes
remaining [] = []
remaining (plain c ∷ ps) = c ∷ remaining ps
remaining (marker text ∷ ps) = remaining ps

pub data TemplateError : Type 0 where
  malformed_marker : TemplateError
  bad_variable_name : TemplateError

unfoldable pub all_match : List Bytes → Bool
all_match [] = true
all_match (n ∷ ns) = matches_name n && all_match ns

-- `templateVariables`; the set of names is a list.
unfoldable pub template_variables : Bytes → Result TemplateError (List Bytes)
template_variables template =
    let ps = pieces template in
    do
      fail_if (contains (remaining ps) (codes "{{") || contains (remaining ps) (codes "}}"))
          malformed_marker
      fail_if (not (all_match (names_of ps))) bad_variable_name
      ok (names_of ps)

-- A Go map returns the empty string for a missing key.
abbrev pub value_of : Bytes → List (Bytes × Bytes) → Bytes
value_of name values = elim (lookup name values) [ none ↦ [] | some v ↦ v ]

unfoldable pub render_pieces : (Bytes → Bytes) → List (Bytes × Bytes) → List Piece → Bytes
render_pieces escape values [] = []
render_pieces escape values (plain c ∷ ps) = c ∷ render_pieces escape values ps
render_pieces escape values (marker text ∷ ps) =
    escape (value_of (variable_name text) values) ++ render_pieces escape values ps

-- `replaceTemplateVariables`
unfoldable pub replace_template_variables : Bytes → List (Bytes × Bytes) → (Bytes → Bytes) → Bytes
replace_template_variables template values escape = render_pieces escape values (pieces template)

-- ===== src/Template/Render.antt =====
-- What a rendered template depends on: the values of the names that its validation reports.
use kurama.Base.{All, Bytes, ◌≡◌, refl, ap, subst, List, [], ◌∷◌, arith}
use kurama.Base.Result.{ok}
use kurama.Template.{
  Piece, plain, marker, pieces, names_of, template_variables, value_of, render_pieces,
  replace_template_variables,
}

-- Two sets of values that agree on some names.
unfoldable pub AgreeOn : List Bytes → List (Bytes × Bytes) → List (Bytes × Bytes) → Type 0
AgreeOn names v w = All (λ n. value_of n v ≡ value_of n w) names

render_agrees :
    (escape : Bytes → Bytes) (v w : List (Bytes × Bytes)) (ps : List Piece)
    → AgreeOn (names_of ps) v w
    → render_pieces escape v ps ≡ render_pieces escape w ps
unfolding AgreeOn names_of render_pieces
render_agrees escape v w [] h = refl
render_agrees escape v w (plain c ∷ ps) h = ap (λ t. c ∷ t) (render_agrees escape v w ps h)
render_agrees escape v w (marker text ∷ ps) h = rw (h.0, render_agrees escape v w ps h.1) refl

-- A template that validates with a set of names renders to the same text under all values that
-- agree on these names.
pub replace_template_variables-agree :
    (template : Bytes) (names : List Bytes) (v w : List (Bytes × Bytes)) (escape : Bytes → Bytes)
    → template_variables template ≡ ok names
    → AgreeOn names v w
    → replace_template_variables template v escape ≡ replace_template_variables template w escape
unfolding template_variables replace_template_variables
replace_template_variables-agree template names v w escape valid agree =
    render_agrees escape v w (pieces template) (subst (λ ns. AgreeOn ns v w) (ground arith) agree)

-- ===== src/Template/Tests.antt =====
-- Templates that are scanned and rendered, and the theorems at concrete inputs.
use kurama.Base.{Bytes, codes, eqs, has_prefix, contains, ◌≡◌, refl, [], ◌∷◌}
use kurama.Base.Result.{ok}
use kurama.Base.Assoc.{lookup}
use kurama.Names.{matches_name}
use kurama.Template.{
  plain, marker, pieces, scan, marker_at, marker_tail, template_variables,
  replace_template_variables, remaining, names_of, all_match, trim_space, trim_left, trim_right,
  render_pieces,
}

abbrev path : Bytes
path = codes "/u/{{ id }}/{x"

path_pieces : pieces (codes "a{{ id }}{") ≡ plain b'a' ∷ marker (codes " id ") ∷ plain b'{' ∷ []
unfolding pieces scan marker_at marker_tail
path_pieces = refl

path_valid : template_variables path ≡ ok (codes "id" ∷ [])
unfolding template_variables pieces scan marker_at marker_tail remaining names_of all_match
    trim_space trim_left trim_right contains has_prefix matches_name
path_valid = refl

path_rendered :
    replace_template_variables path ((codes "id", codes "7") ∷ []) (λ s. s) ≡ codes "/u/7/{x"
unfolding replace_template_variables render_pieces pieces scan marker_at marker_tail trim_space
    trim_left trim_right lookup eqs
path_rendered = refl

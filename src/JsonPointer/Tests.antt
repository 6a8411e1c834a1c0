-- ===== src/JsonPointer/Tests.antt =====
-- Pointers into a document, and the theorem at a concrete input.
use kurama.Base.{codes, eqs, ◌≡◌, refl, [], ◌∷◌}
use kurama.Base.Result.{ok}
use kurama.JsonPointer.{
  Json, string, object, array, field, no_fields, item, no_items, validate_json_pointer,
  resolve_json_pointer, resolve_token, field_of, item_of, parse_index, digits, split_tokens,
  decode_token,
}
use kurama.JsonPointer.Tokens.{pointer_to, follow, resolve_json_pointer-pointer_to}

-- `{"a/b": ["x", "y"]}`
abbrev document : Json
document = object (
    field (codes "a/b") (array (item (string (codes "x")) (item (string (codes "y")) no_items)))
      no_fields)

document_resolved : resolve_json_pointer document (codes "/a~1b/1") ≡ ok (string (codes "y"))
unfolding resolve_json_pointer resolve_token field_of item_of parse_index digits split_tokens
    decode_token eqs
document_resolved = refl

pointer_to_example :
    let pointer = pointer_to (codes "a/b" ∷ (codes "1" ∷ [])) in
    (validate_json_pointer pointer ≡ ok tt)
    × (resolve_json_pointer document pointer
        ≡ follow pointer (codes "a/b" ∷ (codes "1" ∷ [])) document)
pointer_to_example = resolve_json_pointer-pointer_to (codes "a/b") (codes "1" ∷ []) document

-- ===== src/Validation/Headers.antt =====
-- `validateHeaders` of internal/runner/operation_validation.go and the tests it uses.
use kurama.Base.{
  ltb, if◌then◌else◌, length, drop, Bytes, codes, eqs, has_prefix, contains_any, contains, to_lower,
  elem, ℕ, ◌+◌, Bool, ◌&&◌, ◌||◌, not, List, [], ◌∷◌, ◌++◌,
}
use kurama.Base.Result.{Result, ok, ◌>>=◌, ◌>>◌, fail_if}
use kurama.Config.{SecretHeaderConfig, max_secret_headers, secret_headers_mount_path}
use kurama.JsonPointer.{split_tokens}

pub data HeadersError : Type 0 where
  invalid_name sensitive_header line_break template_in_value transport_header : Bytes → HeadersError
  too_many_secret_headers : HeadersError
  invalid_secret_name : ℕ → HeadersError
  duplicate_header : Bytes → HeadersError
  bad_value_file : ℕ → HeadersError

-- `validHeaderName`
unfoldable pub valid_header_name : Bytes → Bool
valid_header_name name =
    not (eqs name []) && not (contains_any name (32 ∷ (9 ∷ (13 ∷ (10 ∷ codes ":")))))

-- `isTransportHeader`
unfoldable pub is_transport_header : Bytes → Bool
is_transport_header name = elem (to_lower name) (
    codes "host"
    ∷ (codes "content-length" ∷ (codes "transfer-encoding" ∷ (codes "connection" ∷ []))))

-- `isSensitiveHeader`
unfoldable pub is_sensitive_header : Bytes → Bool
is_sensitive_header name = elem (to_lower name) (
    codes "authorization"
    ∷ (codes "proxy-authorization"
        ∷ (codes "cookie" ∷ (codes "set-cookie" ∷ (codes "x-api-key" ∷ [])))))

-- The elements of a rooted path that `path.Clean` keeps, the last one first.
unfoldable pub clean_elements : List Bytes → List Bytes → List Bytes
clean_elements kept [] = kept
clean_elements kept (e ∷ es) =
    if eqs e [] || eqs e (codes ".")
    then clean_elements kept es
    else if eqs e (codes "..")
    then clean_elements (drop 1 kept) es
    else clean_elements (e ∷ kept) es

-- Elements with a slash before each, from the last one.
unfoldable pub join_reversed : List Bytes → Bytes → Bytes
join_reversed [] suffix = suffix
join_reversed (e ∷ es) suffix = join_reversed es (b'/' ∷ (e ++ suffix))

-- `path.Clean` of a path that begins with a slash.
unfoldable pub clean_rooted : Bytes → Bytes
unfolding clean_elements join_reversed
clean_rooted path =
    let cleaned = join_reversed (clean_elements [] (split_tokens path)) [] in
    if eqs cleaned [] then codes "/" else cleaned

-- `secretHeaderPathAllowed`; cleaning a path that is not rooted gives one that is not rooted.
unfoldable pub secret_header_path_allowed : Bytes → Bool
unfolding clean_rooted
secret_header_path_allowed path =
    has_prefix (codes "/") path
    && has_prefix (clean_rooted secret_headers_mount_path ++ codes "/") (clean_rooted path)

-- The loop over the plain headers; it returns the canonical names. A Go map is traversed in any
-- order, so the order of the list is any.
unfoldable pub validate_plain_headers :
    List Bytes → List (Bytes × Bytes) → Result HeadersError (List Bytes)
unfolding valid_header_name is_transport_header is_sensitive_header
validate_plain_headers seen [] = ok seen
validate_plain_headers seen ((name, value) ∷ hs) = do
  fail_if (not (valid_header_name name)) (invalid_name name)
  fail_if (is_sensitive_header name) (sensitive_header name)
  fail_if (contains_any value (13 ∷ (10 ∷ []))) (line_break name)
  fail_if (contains value (codes "{{") || contains value (codes "}}")) (template_in_value name)
  fail_if (is_transport_header (to_lower name)) (transport_header name)
  validate_plain_headers (to_lower name ∷ seen) hs

-- The loop over the secret headers.
unfoldable pub validate_secret_headers :
    ℕ → List Bytes → List SecretHeaderConfig → Result HeadersError (Unit {0})
unfolding valid_header_name is_transport_header secret_header_path_allowed
validate_secret_headers i seen [] = ok tt
validate_secret_headers i seen (h ∷ hs) = do
  fail_if (not (valid_header_name h.name)) (invalid_secret_name i)
  fail_if (is_transport_header (to_lower h.name)) (transport_header h.name)
  fail_if (elem (to_lower h.name) seen) (duplicate_header h.name)
  fail_if (not (secret_header_path_allowed h.value_file)) (bad_value_file i)
  validate_secret_headers (i + 1) (to_lower h.name ∷ seen) hs

-- `validateHeaders`
unfoldable pub validate_headers :
    List (Bytes × Bytes) → List SecretHeaderConfig → Result HeadersError (Unit {0})
unfolding validate_plain_headers validate_secret_headers
validate_headers headers secret_headers = do
  seen ← validate_plain_headers [] headers
  fail_if (ltb max_secret_headers (length secret_headers)) too_many_secret_headers
  validate_secret_headers 0 seen secret_headers

-- ===== src/Validation/Operation.antt =====
-- `validateOperation` and `validateVariable` of internal/runner/operation_validation.go.
use kurama.Base.{
  ltb, ◌==◌, if◌then◌else◌, length, ℤ, pos, eqz, outside, Bytes, codes, eqs, has_prefix,
  contains_any, elem, ℕ, ◌+◌, Bool, false, ◌&&◌, ◌||◌, not, Option, none, some, List, [], ◌∷◌, ◌++◌,
}
use kurama.Base.Result.{Result, ok, err, ◌>>=◌, ◌>>◌, fail_if, wrap_err}
use kurama.Config.{
  OperationConfig, RequestConfig, VariableConfig, VariableSource, CaptureConfig,
  max_request_body_bytes,
}
use kurama.JsonPointer.{PointerError, validate_json_pointer}
use kurama.Names.{NameError, validate_name}
use kurama.Template.{TemplateError, template_variables}
use kurama.Validation.Headers.{HeadersError, validate_headers}

pub data VariableError : Type 0 where
  bad_variable_name : NameError → VariableError
  uuid_sets_fields base62_bad_fields store_sets_length : VariableError
  undeclared_store unsupported_source : Bytes → VariableError

pub data OperationError : Type 0 where
  bad_name : NameError → OperationError
  weight_out_of_range : OperationError
  unsupported_method : Bytes → OperationError
  path_not_rooted path_bad_character body_too_large body_of_get : OperationError
  bad_headers : HeadersError → OperationError
  no_status : OperationError
  bad_status duplicate_status : ℤ → OperationError
  bad_variable : ℕ → VariableError → OperationError
  duplicate_variable : ℕ → OperationError
  bad_template : TemplateError → OperationError
  undefined_variable unused_variable : Bytes → OperationError
  bad_pointer : PointerError → OperationError
  undeclared_capture_store : Bytes → OperationError

-- The switch on the type of the source.
unfoldable pub validate_source : VariableSource → List Bytes → Result VariableError (Unit {0})
validate_source s stores =
    if eqs s.type (codes "randomUUID")
    then fail_if (not (eqs s.store []) || not (eqz s.length (pos 0))) uuid_sets_fields
    else if eqs s.type (codes "randomBase62")
    then fail_if (not (eqs s.store []) || outside 1 128 s.length) base62_bad_fields
    else if eqs s.type (codes "store")
    then (do
      fail_if (not (eqz s.length (pos 0))) store_sets_length
      fail_if (not (elem s.store stores)) (undeclared_store s.store))
    else err (unsupported_source s.type)

-- `validateVariable`, with the names of the declared stores
unfoldable pub validate_variable : VariableConfig → List Bytes → Result VariableError (Unit {0})
unfolding validate_source
validate_variable v stores = do
  wrap_err bad_variable_name (validate_name v.name)
  validate_source v.source stores

unfoldable pub elem_status : ℤ → List ℤ → Bool
elem_status s [] = false
elem_status s (t ∷ ts) = eqz t s || elem_status s ts

-- The loop over the status codes.
unfoldable pub validate_statuses : List ℤ → List ℤ → Result OperationError (Unit {0})
unfolding elem_status
validate_statuses seen [] = ok tt
validate_statuses seen (s ∷ ss) = do
  fail_if (outside 100 599 s) (bad_status s)
  fail_if (elem_status s seen) (duplicate_status s)
  validate_statuses (s ∷ seen) ss

-- The loop over the variables; it returns their names.
unfoldable pub validate_variables :
    ℕ → List Bytes → List Bytes → List VariableConfig → Result OperationError (List Bytes)
unfolding validate_variable
validate_variables i names stores [] = ok names
validate_variables i names stores (v ∷ vs) = do
  wrap_err (bad_variable i) (validate_variable v stores)
  fail_if (elem v.name names) (duplicate_variable i)
  validate_variables (i + 1) (v.name ∷ names) stores vs

-- Each name of the first list is in the second.
unfoldable pub check_subset :
    (Bytes → OperationError) → List Bytes → List Bytes → Result OperationError (Unit {0})
check_subset e [] names = ok tt
check_subset e (n ∷ ns) names = do fail_if (not (elem n names)) (e n); check_subset e ns names

unfoldable pub validate_capture :
    Option CaptureConfig → List Bytes → Result OperationError (Unit {0})
validate_capture none stores = ok tt
validate_capture (some c) stores = do
  wrap_err bad_pointer (validate_json_pointer c.json_pointer)
  fail_if (not (elem c.store stores)) (undeclared_capture_store c.store)

-- The guards on the method, the path and the body.
unfoldable pub validate_request : RequestConfig → Result OperationError (Unit {0})
validate_request r = do
  fail_if (not (eqs r.method (codes "GET")) && not (eqs r.method (codes "POST")))
      (unsupported_method r.method)
  fail_if (not (has_prefix (codes "/") r.path_template) || has_prefix (codes "//") r.path_template)
      path_not_rooted
  fail_if (contains_any r.path_template (13 ∷ (10 ∷ (92 ∷ codes "#")))) path_bad_character
  fail_if (ltb max_request_body_bytes (length r.body_template)) body_too_large
  fail_if (eqs r.method (codes "GET") && not (eqs r.body_template [])) body_of_get
  wrap_err bad_headers (validate_headers r.headers r.secret_headers)

-- The templates of the path and the body, and the variables that are defined for them.
unfoldable pub validate_references : RequestConfig → List Bytes → Result OperationError (Unit {0})
unfolding check_subset
validate_references r variables = do
  used ← wrap_err bad_template (template_variables (r.path_template ++ (10 ∷ r.body_template)))
  check_subset undefined_variable used variables
  check_subset unused_variable variables used

-- `validateOperation`
unfoldable pub validate_operation : OperationConfig → List Bytes → Result OperationError (Unit {0})
unfolding validate_request validate_statuses validate_variables validate_references validate_capture
validate_operation o stores = do
  wrap_err bad_name (validate_name o.name)
  fail_if (outside 1 10_000 o.weight) weight_out_of_range
  validate_request o.request
  fail_if (length o.expected_status_codes == 0) no_status
  validate_statuses [] o.expected_status_codes
  variables ← validate_variables 0 [] stores o.request.variables
  validate_references o.request variables
  validate_capture o.capture stores

-- ===== src/Executor.antt =====
-- internal/runner/executor.go, executor_variables.go, executor_headers.go, executor_http.go and
-- executor_capture.go: one operation, from its variables to the captured value. HTTP, URLs, files,
-- JSON decoding, the clock and the generator of values are parameters.
pub mod Execute
pub mod SecretFiles
pub mod Outcomes
pub mod Responses
pub mod Success
pub mod Confined
mod Tests
use kurama.Base.{
  ltb, leb, ◌==◌, if◌then◌else◌, length, take, ℤ, pos, eqz, Bytes, codes, eqs, contains_any,
  to_lower, ℕ, ◌+◌, Bool, false, ◌&&◌, ◌||◌, Option, none, some, List, [], ◌∷◌,
}
use kurama.Base.Result.{Result, ok, err, ◌>>=◌, ◌>>◌, fail_if}
use kurama.Base.Assoc.{insert}
use kurama.Base.Context.{Context}
use kurama.Config.{
  OperationConfig, RequestConfig, VariableConfig, VariableSource, SecretHeaderConfig, CaptureConfig,
  max_request_body_bytes, max_response_body_bytes, max_secret_header_bytes,
}
use kurama.Execution.{
  ExecutionResult, ExecutionError, VariableError, HeaderError, CaptureError, OperationExecutor,
  store_not_configured, store_empty, store_read_failed, unsupported_source, generator_failed,
  projected_unreadable, projected_too_large, projected_empty, projected_line_break,
  no_store_configured, capture_not_json, pointer_failed, capture_not_string, capture_empty,
  capture_too_large, store_put_failed, variables_failed, request_body_too_large, bad_request_url,
  origin_overridden, bad_request, headers_failed, transport_failed, response_unreadable,
  response_too_large, unexpected_status, capture_failed,
}
use kurama.JsonPointer.{Json, string, resolve_json_pointer}
use kurama.Store.{ValueStore, StoreError}
use kurama.Template.{replace_template_variables}

abbrev pub max_captured_value_bytes : ℕ
max_captured_value_bytes = 4_096

pub record Url : Type 0 where
  pub scheme : Bytes
  pub host : Bytes
  pub text : Bytes

pub record Request : Type 0 where
  pub method : Bytes
  pub url : Url
  pub body : Bytes
  pub headers : List (Bytes × Bytes)

-- `body_fails`: reading ends with an error after the bytes of the body.
pub record Response : Type 0 where
  pub status : ℕ
  pub body : Bytes
  pub body_fails : Bool

-- The libraries and devices. `resolve_reference` parses a path and resolves it against the base URL.
pub record Platform {ℓ} (S : Type ℓ) : Type ℓ where
  pub now : S → ℕ
  pub uuid : S → Option Bytes × S
  pub base62 : ℤ → S → Option Bytes × S
  pub path_escape : Bytes → Bytes
  pub json_escape : Bytes → Bytes
  pub resolve_reference : Bytes → Option Url
  pub method_ok : Bytes → Bool
  pub read_file : Bytes → S → Option Bytes
  pub send : Context → Request → S → Option Response × S
  pub decode_json : Bytes → Option Json

pub record Executor {ℓ} (S : Type ℓ) : Type ℓ where
  pub base_url : Url
  pub stores : Option (ValueStore S)

-- `strings.TrimRight(s, "\r\n")`
unfoldable pub trim_line_end : Bytes → Bytes
trim_line_end [] = []
trim_line_end (c ∷ s) =
    let rest = trim_line_end s in
    elim rest [ [] ↦ if (c == 13) || (c == 10) then [] else c ∷ [] | d ∷ t ↦ c ∷ (d ∷ t) ]

-- `readSecretHeaderValue`, from what the file holds
unfoldable pub read_secret_header_value : Option Bytes → Result HeaderError Bytes
unfolding trim_line_end
read_secret_header_value none = err projected_unreadable
read_secret_header_value (some content) = do
  fail_if (ltb max_secret_header_bytes (length content)) projected_too_large
  fail_if (eqs (trim_line_end content) []) projected_empty
  fail_if (contains_any (trim_line_end content) (13 ∷ (10 ∷ []))) projected_line_break
  ok (trim_line_end content)

-- `containsStatus`
unfoldable pub contains_status : List ℤ → ℕ → Bool
contains_status [] actual = false
contains_status (s ∷ ss) actual = eqz s (pos actual) || contains_status ss actual

-- `readBoundedResponse`: the limit lets one byte more through, to see that there is one.
unfoldable pub read_bounded_response : Response → Result ExecutionError Bytes
read_bounded_response r =
    let read = take (max_response_body_bytes + 1) r.body in
    do
      fail_if (r.body_fails && leb (length r.body) max_response_body_bytes) response_unreadable
      fail_if (ltb max_response_body_bytes (length read)) response_too_large
      ok read

-- `Header.Set`; two spellings of a name that differ in case are one header.
abbrev pub set_header : Bytes → Bytes → List (Bytes × Bytes) → List (Bytes × Bytes)
set_header name value headers = insert (to_lower name) value headers

abbrev pub set_headers : List (Bytes × Bytes) → List (Bytes × Bytes) → List (Bytes × Bytes)
set_headers [] headers = headers
set_headers ((name, value) ∷ hs) headers = set_headers hs (set_header name value headers)

-- The checks of `captureJSONString` on the value that the pointer finds.
unfoldable pub captured_text : Json → Result CaptureError Bytes
captured_text (string text) = do
  fail_if (eqs text []) capture_empty
  fail_if (ltb max_captured_value_bytes (length text)) capture_too_large
  ok text
captured_text v = err capture_not_string

module _ {ℓ} {S : Type ℓ} (p : Platform S) (e : Executor S) where
  abbrev pub generated : Bytes → Option Bytes → Result VariableError Bytes
  generated name none = err (generator_failed name)
  generated name (some v) = ok v

  abbrev pub stored : Bytes → Result StoreError (Option Bytes) → Result VariableError Bytes
  stored store (err x) = err (store_read_failed store x)
  stored store (ok none) = err (store_empty store)
  stored store (ok (some v)) = ok v

  -- The switch of `resolveVariables`.
  unfoldable pub resolve_variable : Context → VariableConfig → S → Result VariableError Bytes × S
  resolve_variable ctx v s =
      if eqs v.source.type (codes "randomUUID")
      then (let (r, s') = p.uuid s in (generated v.name r, s'))
      else if eqs v.source.type (codes "randomBase62")
      then (let (r, s') = p.base62 v.source.length s in (generated v.name r, s'))
      else if eqs v.source.type (codes "store")
      then (elim e.stores [
        | none ↦ (err (store_not_configured v.source.store), s)
        | some stores ↦
            let (r, s') = stores.random ctx v.source.store s in (stored v.source.store r, s')
      ])
      else (err (unsupported_source v.source.type), s)

  -- `resolveVariables`
  unfoldable pub resolve_variables :
      Context
      → List VariableConfig
      → List (Bytes × Bytes)
      → S
      → Result VariableError (List (Bytes × Bytes)) × S
  unfolding resolve_variable
  resolve_variables ctx [] values s = (ok values, s)
  resolve_variables ctx (v ∷ vs) values s =
      let (r, s') = resolve_variable ctx v s in
      elim r [
        | err x ↦ (err x, s')
        | ok value ↦ resolve_variables ctx vs (insert v.name value values) s'
      ]

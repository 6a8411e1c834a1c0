-- ===== src/Executor/Execute.antt =====
-- `Execute` of internal/runner/executor.go.
use kurama.Base.{
  ltb, length, Bytes, eqs, ℕ, ◌-◌, Bool, true, false, ◌||◌, not, Option, none, some, List, [], ◌∷◌,
}
use kurama.Base.Result.{Result, ok, err, ◌>>=◌, ◌>>◌, fail_if, wrap_err}
use kurama.Base.Context.{Context}
use kurama.Config.{OperationConfig, SecretHeaderConfig, CaptureConfig, max_request_body_bytes}
use kurama.Execution.{
  ExecutionResult, ExecutionError, CaptureError, OperationExecutor, no_store_configured,
  capture_not_json, pointer_failed, store_put_failed, variables_failed, request_body_too_large,
  bad_request_url, origin_overridden, bad_request, headers_failed, transport_failed,
  unexpected_status, capture_failed,
}
use kurama.Executor.{
  Platform, Executor, Request, Response, Url, read_secret_header_value, contains_status,
  read_bounded_response, set_header, set_headers, captured_text, resolve_variables,
}
use kurama.JsonPointer.{resolve_json_pointer}
use kurama.Template.{replace_template_variables}

module _ {ℓ} {S : Type ℓ} (p : Platform S) (e : Executor S) where
  -- `resolveRequestURL`
  unfoldable pub resolve_request_url : Bytes → Result ExecutionError Url
  resolve_request_url path = elim (p.resolve_reference path) [
    | none ↦ err bad_request_url
    | some u ↦ do
      fail_if (not (eqs u.scheme e.base_url.scheme) || not (eqs u.host e.base_url.host))
          origin_overridden
      ok u
  ]

  -- The secret headers of `applyRequestHeaders`.
  unfoldable pub apply_secret_headers :
      List SecretHeaderConfig
      → S
      → List (Bytes × Bytes)
      → Result ExecutionError (List (Bytes × Bytes))
  apply_secret_headers [] s headers = ok headers
  apply_secret_headers (h ∷ hs) s headers = do
    value ← wrap_err headers_failed (read_secret_header_value (p.read_file h.value_file s))
    apply_secret_headers hs s (set_header h.name value headers)

  -- From the values of the variables to the request.
  unfoldable pub prepare :
      OperationConfig → List (Bytes × Bytes) → S → Result ExecutionError Request
  unfolding resolve_request_url apply_secret_headers
  prepare o values s =
      let path = replace_template_variables o.request.path_template values p.path_escape in
      let body = replace_template_variables o.request.body_template values p.json_escape in
      do
        fail_if (ltb max_request_body_bytes (length body)) request_body_too_large
        url ← resolve_request_url path
        fail_if (not (p.method_ok o.request.method)) bad_request
        headers ← apply_secret_headers o.request.secret_headers s (set_headers o.request.headers [])
        ok (record { method = o.request.method; url = url; body = body; headers = headers })

  -- `captureJSONString`
  unfoldable pub capture_json_string : Bytes → Bytes → Result CaptureError Bytes
  capture_json_string body pointer = elim (p.decode_json body) [
    | none ↦ err capture_not_json
    | some document ↦ do
      value ← wrap_err pointer_failed (resolve_json_pointer document pointer)
      captured_text value
  ]

  -- The part of `Execute` that captures; whether it captured, and the error.
  unfoldable pub capture :
      Context → Option CaptureConfig → Bytes → S → (Bool × Option ExecutionError) × S
  unfolding capture_json_string
  capture ctx none body s = ((false, none), s)
  capture ctx (some c) body s = elim e.stores [
    | none ↦ ((false, some (capture_failed no_store_configured)), s)
    | some stores ↦ elim (capture_json_string body c.json_pointer) [
      | err x ↦ ((false, some (capture_failed x)), s)
      | ok value ↦
          let (r, s') = stores.put ctx c.store value s in
          elim r [
            | err x ↦ ((false, some (capture_failed (store_put_failed c.store x))), s')
            | ok u ↦ ((true, none), s')
          ]
    ]
  ]

  -- The result without its duration, which is added at the end.
  abbrev pub report : OperationConfig → ℕ → ℕ → Bool → ExecutionResult
  report o status bytes captured = record {
    operation = o.name;
    status_code = status;
    response_bytes = bytes;
    duration = 0;
    captured = captured;
  }

  -- From the response to the outcome.
  unfoldable pub receive :
      Context → OperationConfig → Response → S → (ExecutionResult × Option ExecutionError) × S
  unfolding capture
  receive ctx o r s = elim (read_bounded_response r) [
    | err x ↦ ((report o r.status 0 false, some x), s)
    | ok body ↦ elim (contains_status o.expected_status_codes r.status) [
      | false ↦ ((report o r.status (length body) false, some (unexpected_status r.status)), s)
      | true ↦
          let ((captured, error), s') = capture ctx o.capture body s in
          ((report o r.status (length body) captured, error), s')
    ]
  ]

  -- From the values of the variables to the outcome.
  unfoldable pub perform :
      Context
      → OperationConfig
      → List (Bytes × Bytes)
      → S
      → (ExecutionResult × Option ExecutionError) × S
  unfolding prepare receive
  perform ctx o values s = elim (prepare o values s) [
    | err x ↦ ((report o 0 0 false, some x), s)
    | ok request ↦
        let (response, s') = p.send ctx request s in
        elim response [
          | none ↦ ((report o 0 0 false, some transport_failed), s')
          | some r ↦ receive ctx o r s'
        ]
  ]

  -- The body of `Execute`, without the time it takes.
  unfoldable pub execute_untimed :
      Context → OperationConfig → S → (ExecutionResult × Option ExecutionError) × S
  unfolding perform
  execute_untimed ctx o s =
      let (values, s') = resolve_variables p e ctx o.request.variables [] s in
      elim values [
        | err x ↦ ((report o 0 0 false, some (variables_failed x)), s')
        | ok vs ↦ perform ctx o vs s'
      ]

  -- `Execute`
  unfoldable pub execute :
      Context → OperationConfig → S → (ExecutionResult × Option ExecutionError) × S
  unfolding execute_untimed
  execute ctx o s =
      let ((result, error), s') = execute_untimed ctx o s in
      ((record result { duration = p.now s' - p.now s }, error), s')

  -- The executor as the scheduler sees it.
  abbrev pub operation_executor : OperationExecutor S
  operation_executor = record { execute = execute }

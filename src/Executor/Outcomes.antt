-- ===== src/Executor/Outcomes.antt =====
-- What an outcome of `Execute` says about the request that was sent.
use kurama.Base.{
  ltb, Option-cases, length, Bytes, eqs, ◌≡◌, refl, inl, inr, Bool, true, false, ◌||◌, not, some,
  List, [], ◌∷◌,
}
use kurama.Base.Result.{Result, ok, err, ◌>>=◌, ◌>>◌, fail_if, wrap_err}
use kurama.Template.{replace_template_variables}
use kurama.Config.{max_request_body_bytes, OperationConfig, SecretHeaderConfig}
use kurama.Execution.{
  ExecutionError, is_unavailable, request_body_too_large, bad_request, origin_overridden,
  headers_failed,
}
use kurama.Executor.{Platform, Executor, read_secret_header_value, set_header, set_headers}
use kurama.Executor.Execute.{resolve_request_url, apply_secret_headers, prepare}

-- An error of this chain is not about an empty store.
abbrev pub Available {ℓ} : {A : Type ℓ} → Result ExecutionError A → Type 0
Available (ok a) = Unit {0}
Available (err x) = is_unavailable (some x) ≡ false

Available-bind {ℓ κ} :
    {A : Type ℓ} {B : Type κ} (m : Result ExecutionError A) (f : A → Result ExecutionError B)
    → Available m
    → ((a : A) → Available (f a))
    → Available (m >>= f)
Available-bind (ok a) f h k = k a
Available-bind (err x) f h k = h

Available-fail_if :
    (b : Bool) (x : ExecutionError) → is_unavailable (some x) ≡ false → Available (fail_if b x)
Available-fail_if true x h = h
Available-fail_if false x h = tt

Available-wrap {ℓ κ} :
    {E : Type ℓ} {A : Type κ} (f : E → ExecutionError) (m : Result E A)
    → ((x : E) → is_unavailable (some (f x)) ≡ false)
    → Available (wrap_err f m)
Available-wrap f (ok a) h = tt
Available-wrap f (err x) h = h x

module _ {ℓ} {S : Type ℓ} (p : Platform S) (e : Executor S) where
  resolve_request_url-Available : (path : Bytes) → Available (resolve_request_url p e path)
  unfolding resolve_request_url is_unavailable
  resolve_request_url-Available path = elim (Option-cases (p.resolve_reference path)) [
    | inl none_found ↦ rw (none_found, resolve_request_url) refl
    | inr (u, found) ↦
        rw (found, resolve_request_url)
          (Available-bind
            (fail_if (not (eqs u.scheme e.base_url.scheme) || not (eqs u.host e.base_url.host))
              origin_overridden)
            (λ _. ok u) (Available-fail_if _ origin_overridden refl) (λ _. tt))
  ]

  apply_secret_headers-Available :
      (hs : List SecretHeaderConfig) (s : S) (headers : List (Bytes × Bytes))
      → Available (apply_secret_headers p e hs s headers)
  unfolding apply_secret_headers is_unavailable
  apply_secret_headers-Available [] s headers = tt
  apply_secret_headers-Available (h ∷ hs) s headers =
      Available-bind
        (wrap_err headers_failed (read_secret_header_value (p.read_file h.value_file s)))
        (λ value. apply_secret_headers p e hs s (set_header h.name value headers))
        (Available-wrap headers_failed (read_secret_header_value (p.read_file h.value_file s))
          (λ x. refl))
        (λ value. apply_secret_headers-Available hs s (set_header h.name value headers))

  pub prepare-Available :
      (o : OperationConfig) (values : List (Bytes × Bytes)) (s : S)
      → Available (prepare p e o values s)
  unfolding prepare is_unavailable
  prepare-Available o values s =
      let path = replace_template_variables o.request.path_template values p.path_escape in
      let body = replace_template_variables o.request.body_template values p.json_escape in
      let plain = set_headers o.request.headers [] in
      let secret = apply_secret_headers p e o.request.secret_headers s plain in
      Available-bind (fail_if (ltb max_request_body_bytes (length body)) request_body_too_large)
        (λ _. resolve_request_url p e path >>= λ url.
          fail_if (not (p.method_ok o.request.method)) bad_request
          >> (secret >>= λ headers.
              ok (record { method = o.request.method; url = url; body = body; headers = headers })))
        (Available-fail_if (ltb max_request_body_bytes (length body)) request_body_too_large refl)
        (λ _.
          Available-bind (resolve_request_url p e path)
            (λ url.
              fail_if (not (p.method_ok o.request.method)) bad_request
              >> (secret >>= λ headers. ok (record {
                method = o.request.method;
                url = url;
                body = body;
                headers = headers;
              })))
            (resolve_request_url-Available path)
            (λ url.
              Available-bind (fail_if (not (p.method_ok o.request.method)) bad_request)
                (λ _. secret >>= λ headers.
                  ok (record {
                    method = o.request.method;
                    url = url;
                    body = body;
                    headers = headers;
                  }))
                (Available-fail_if (not (p.method_ok o.request.method)) bad_request refl)
                (λ _.
                  Available-bind secret
                    (λ headers. ok (record {
                      method = o.request.method;
                      url = url;
                      body = body;
                      headers = headers;
                    }))
                    (apply_secret_headers-Available o.request.secret_headers s plain)
                    (λ headers. tt))))

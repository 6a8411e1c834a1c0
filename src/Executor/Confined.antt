-- ===== src/Executor/Confined.antt =====
-- Where a request may go and how large it may be.
use kurama.Base.{
  ltb, Option-cases, length, Bytes, eqs→eq, eqs, ◌≤◌, ◌≡◌, refl, subst, inl, inr, ◌||◌, not, List,
  [], arith,
}
use kurama.Base.Result.{ok, fail_if, fail_if-eq-ok, >>=-eq-ok}
use kurama.Config.{OperationConfig, max_request_body_bytes}
use kurama.Execution.{request_body_too_large, bad_request, origin_overridden}
use kurama.Executor.{Platform, Executor, Request, Url, set_headers}
use kurama.Executor.Execute.{resolve_request_url, apply_secret_headers, prepare}
use kurama.Template.{replace_template_variables}

module _ {ℓ} {S : Type ℓ} (p : Platform S) (e : Executor S) where
  resolve_request_url-origin :
      (path : Bytes) (u : Url)
      → resolve_request_url p e path ≡ ok u
      → (u.scheme ≡ e.base_url.scheme) × (u.host ≡ e.base_url.host)
  unfolding resolve_request_url
  resolve_request_url-origin path u h = elim (Option-cases (p.resolve_reference path)) [
    | inl missing ↦ absurd (ground (arith, rw (missing, resolve_request_url) at h))
    | inr (v, found) ↦
        let other = not (eqs v.scheme e.base_url.scheme) || not (eqs v.host e.base_url.host) in
        let (a, same, here) =
          >>=-eq-ok (fail_if other origin_overridden) (λ _. ok v)
            (rw (found, resolve_request_url) at h) in
        let kept = fail_if-eq-ok other origin_overridden a same in
        let is_v : v ≡ u = ground (arith, here) in
        subst (λ x. (x.scheme ≡ e.base_url.scheme) × (x.host ≡ e.base_url.host)) is_v
          (
            eqs→eq v.scheme e.base_url.scheme (ground (arith, kept)),
            eqs→eq v.host e.base_url.host (ground (arith, kept)),
          )
  ]

  -- A request that is built for the HTTP client goes to the scheme and the host of the target,
  -- whatever the values of the variables are, uses the method of the operation, and has a body of at
  -- most 64 KiB.
  pub prepare-confined :
      (o : OperationConfig) (values : List (Bytes × Bytes)) (s : S) (request : Request)
      → prepare p e o values s ≡ ok request
      → (request.url.scheme ≡ e.base_url.scheme)
        × (request.url.host ≡ e.base_url.host)
        × (request.method ≡ o.request.method)
        × (length request.body ≤ max_request_body_bytes)
  unfolding prepare
  prepare-confined o values s request h =
      let path = replace_template_variables o.request.path_template values p.path_escape in
      let body = replace_template_variables o.request.body_template values p.json_escape in
      let (a, small, h1) =
        >>=-eq-ok (fail_if (ltb max_request_body_bytes (length body)) request_body_too_large) _ h in
      let (url, resolved, h2) = >>=-eq-ok (resolve_request_url p e path) _ h1 in
      let (b, known, h3) =
        >>=-eq-ok (fail_if (not (p.method_ok o.request.method)) bad_request) _ h2 in
      let (headers, applied, h4) =
        >>=-eq-ok
          (apply_secret_headers p e o.request.secret_headers s (set_headers o.request.headers [])) _
          h3 in
      let built : Request = record {
        method = o.request.method;
        url = url;
        body = body;
        headers = headers;
      } in
      let same : built ≡ request = ground (arith, h4) in
      let (scheme, host) = resolve_request_url-origin path url resolved in
      let fits =
        fail_if-eq-ok (ltb max_request_body_bytes (length body)) request_body_too_large a small in
      subst
        (λ r.
          (r.url.scheme ≡ e.base_url.scheme)
          × (r.url.host ≡ e.base_url.host)
          × (r.method ≡ o.request.method)
          × (length r.body ≤ max_request_body_bytes))
        same (scheme, host, refl, ground (arith, fits))

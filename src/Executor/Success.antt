-- ===== src/Executor/Success.antt =====
-- What the outcome of a whole execution says about the request that was sent.
use kurama.Base.{
  Bool-cases, Option-cases, length, Bytes, ℕ, ◌≤◌, ◌≡◌, refl, sym, subst, inl, inr, Bool, true,
  false, Option, none, some, List, [], arith,
}
use kurama.Base.Result.{ok, wrap_err, Result-cases, >>=-eq-ok}
use kurama.Base.Context.{Context}
use kurama.Config.{OperationConfig, CaptureConfig, max_response_body_bytes, max_request_body_bytes}
use kurama.Execution.{
  ExecutionResult, ExecutionError, is_unavailable, transport_failed, pointer_failed,
}
use kurama.Executor.{
  Platform, Executor, Request, Response, contains_status, captured_text, read_bounded_response,
  resolve_variables,
}
use kurama.Executor.Confined.{prepare-confined}
use kurama.Executor.Execute.{
  prepare, capture_json_string, capture, receive, perform, execute_untimed, execute, report,
}
use kurama.Executor.Outcomes.{Available, prepare-Available}
use kurama.Executor.Responses.{
  StatusIn, Text, contains_status-StatusIn, captured_text-Text, read_bounded_response-Available,
  read_bounded_response-Whole,
}
use kurama.JsonPointer.{Json, resolve_json_pointer}
use kurama.Store.{ValueStore}

module _ {ℓ} {S : Type ℓ} (p : Platform S) (e : Executor S) (ctx : Context) where
  -- A text of the body that is put into the store of the capture.
  pub record Stored (c : CaptureConfig) (body : Bytes) (before after : S) : Type ℓ where
    pub stores : ValueStore S
    pub set_up : e.stores ≡ some stores
    pub document : Json
    pub decoded : p.decode_json body ≡ some document
    pub found : Json
    pub resolved : resolve_json_pointer document c.json_pointer ≡ ok found
    pub value : Bytes
    pub text : Text found value
    pub accepted : (stores.put ctx c.store value before).0 ≡ ok tt
    pub after_eq : after ≡ (stores.put ctx c.store value before).1

  -- What a capture does, if there is one.
  abbrev pub Captures : Option CaptureConfig → Bytes → S → Bool → S → Type ℓ
  Captures none body before captured after = (captured ≡ false) × (after ≡ before)
  Captures (some c) body before captured after = (captured ≡ true) × Stored c body before after

  -- A response that is accepted, with what is reported of it.
  pub record Received (o : OperationConfig) (r : Response) (before : S) (status bytes : ℕ)
      (captured : Bool) (after : S) : Type ℓ where
    pub expected : StatusIn o.expected_status_codes r.status
    pub status_eq : status ≡ r.status
    pub bytes_eq : bytes ≡ length r.body
    pub complete : r.body_fails ≡ false
    pub fits : length r.body ≤ max_response_body_bytes
    pub captures : Captures o.capture r.body before captured after

  -- A request to the target that gets an accepted response.
  pub record Sent (o : OperationConfig) (start : S) (status bytes : ℕ) (captured : Bool) (after : S)
      : Type ℓ where
    pub request : Request
    pub scheme_eq : request.url.scheme ≡ e.base_url.scheme
    pub host_eq : request.url.host ≡ e.base_url.host
    pub method_eq : request.method ≡ o.request.method
    pub small : length request.body ≤ max_request_body_bytes
    pub response : Response
    pub answered : (p.send ctx request start).0 ≡ some response
    pub received : Received o response (p.send ctx request start).1 status bytes captured after

  capture_json_string-Stored :
      (c : CaptureConfig) (body : Bytes) (before : S) (stores : ValueStore S) (value : Bytes)
      → e.stores ≡ some stores
      → capture_json_string p e body c.json_pointer ≡ ok value
      → (stores.put ctx c.store value before).0 ≡ ok tt
      → Stored c body before (stores.put ctx c.store value before).1
  unfolding capture_json_string
  capture_json_string-Stored c body before stores value set_up found accepted =
      elim (Option-cases (p.decode_json body)) [
        | inl bad ↦ absurd (ground (arith, rw (bad, capture_json_string) at found))
        | inr (document, decoded) ↦
            let (v, resolved, kept) =
              >>=-eq-ok (wrap_err pointer_failed (resolve_json_pointer document c.json_pointer))
                captured_text (rw (decoded, capture_json_string) at found) in
            record {
              stores = stores;
              set_up = set_up;
              document = document;
              decoded = decoded;
              found = v;
              resolved = ground (arith, resolved);
              value = value;
              text = captured_text-Text v value kept;
              accepted = accepted;
              after_eq = refl;
            }
      ]

  -- A capture without an error has done its work, and no error of it is about an empty store.
  abbrev Captured : Option CaptureConfig → Bytes → S → (Bool × Option ExecutionError) × S → Type ℓ
  Captured c body before out =
      (is_unavailable out.0.1 ≡ false) × (out.0.1 ≡ none → Captures c body before out.0.0 out.1)

  capture-Captured :
      (c : Option CaptureConfig) (body : Bytes) (s : S)
      → Captured c body s (capture p e ctx c body s)
  unfolding capture is_unavailable
  capture-Captured none body s = (refl, (λ h. (refl, refl)))
  capture-Captured (some c) body s = elim (Option-cases e.stores) [
    | inl no_stores ↦ rw (no_stores, capture) (refl, (λ h. absurd (ground (arith, h))))
    | inr (stores, set_up) ↦ elim (Result-cases (capture_json_string p e body c.json_pointer)) [
      | inr (x, bad) ↦ rw (set_up, bad, capture) (refl, (λ h. absurd (ground (arith, h))))
      | inl (value, found) ↦ elim (Result-cases (stores.put ctx c.store value s).0) [
        | inr (x, bad) ↦ rw (set_up, found, bad, capture) (refl, (λ h. absurd (ground (arith, h))))
        | inl (u, done) ↦
            let s' = (stores.put ctx c.store value s).1 in
            let put : capture p e ctx (some c) body s ≡ ((true, none), s') =
              rw (set_up, found, done, capture) refl in
            subst (λ out. Captured (some c) body s out) (sym put)
              (
                refl,
                (λ h. (refl, capture_json_string-Stored c body s stores value set_up found done)),
              )
      ]
    ]
  ]

  -- What an execution without an error has done, after the variables were resolved.
  abbrev Honest : OperationConfig → S → (ExecutionResult × Option ExecutionError) × S → Type ℓ
  Honest o start out =
      (is_unavailable out.0.1 ≡ false)
      × (out.0.1 ≡ none
          → Sent o start out.0.0.status_code out.0.0.response_bytes out.0.0.captured out.1)

  failed-Honest :
      (o : OperationConfig) (start : S) (r : ExecutionResult) (x : ExecutionError) (after : S)
      → is_unavailable (some x) ≡ false
      → Honest o start ((r, some x), after)
  failed-Honest o start r x after h = (h, (λ e. absurd (ground (arith, e))))

  -- The same of the part from the response on.
  abbrev ReceivedWell :
      OperationConfig → Response → S → (ExecutionResult × Option ExecutionError) × S → Type ℓ
  ReceivedWell o r before out =
      (is_unavailable out.0.1 ≡ false)
      × (out.0.1 ≡ none
          → Received o r before out.0.0.status_code out.0.0.response_bytes out.0.0.captured out.1)

  receive-Received :
      (o : OperationConfig) (r : Response) (s : S) → ReceivedWell o r s (receive p e ctx o r s)
  unfolding receive is_unavailable
  receive-Received o r s = elim (Result-cases (read_bounded_response r)) [
    | inr (x, bad) ↦
        rw (bad, receive)
          (
            (subst Available bad (read_bounded_response-Available r)),
            (λ h. absurd (ground (arith, h))),
          )
    | inl (body, read) ↦ elim (Bool-cases (contains_status o.expected_status_codes r.status)) [
      | inr other ↦ rw (read, other, receive) (refl, (λ h. absurd (ground (arith, h))))
      | inl expected ↦
          let (available, captures) = capture-Captured o.capture body s in
          let whole = read_bounded_response-Whole r body read in
          rw (read, expected, receive)
            (
              available,
              (λ h. record {
                expected = contains_status-StatusIn o.expected_status_codes r.status expected;
                status_eq = refl;
                bytes_eq = subst (λ x. length x ≡ length r.body) whole.all refl;
                complete = whole.complete;
                fits = whole.fits;
                captures =
                    subst
                      (λ x.
                        Captures o.capture x s (capture p e ctx o.capture body s).0.0
                          (capture p e ctx o.capture body s).1)
                      (sym whole.all) (captures h);
              }),
            )
    ]
  ]

  perform-Honest :
      (o : OperationConfig) (values : List (Bytes × Bytes)) (s : S)
      → Honest o s (perform p e ctx o values s)
  unfolding perform is_unavailable
  perform-Honest o values s = elim (Result-cases (prepare p e o values s)) [
    | inr (x, bad) ↦
        rw (bad, perform)
          (failed-Honest o s (report p e o 0 0 false) x s
            (subst Available bad (prepare-Available p e o values s)))
    | inl (request, ready) ↦ elim (Option-cases (p.send ctx request s).0) [
      | inl lost ↦
          rw (ready, lost, perform)
            (failed-Honest o s (report p e o 0 0 false) transport_failed (p.send ctx request s).1
              refl)
      | inr (r, answered) ↦
          let (scheme, host, method, small) = prepare-confined p e o values s request ready in
          let (available, accepted) = receive-Received o r (p.send ctx request s).1 in
          rw (ready, answered, perform)
            (
              available,
              (λ h. record {
                request = request;
                scheme_eq = scheme;
                host_eq = host;
                method_eq = method;
                small = small;
                response = r;
                answered = answered;
                received = accepted h;
              }),
            )
    ]
  ]

  -- What an execution without an error has done.
  pub record Succeeded (o : OperationConfig) (s : S) (result : ExecutionResult) (after : S)
      : Type ℓ where
    pub values : List (Bytes × Bytes)
    pub values_eq : (resolve_variables p e ctx o.request.variables [] s).0 ≡ ok values
    pub sent :
        Sent o
          (resolve_variables p e ctx o.request.variables [] s).1
          result.status_code
          result.response_bytes
          result.captured
          after

  -- An execution without an error resolved its variables and sent a request to the scheme and the
  -- host of the target, with the method of the operation and a body of at most 64 KiB. The response
  -- had an expected status, which is reported, and its whole body, whose length is reported, was
  -- read without an error and has at most 1 MiB. Without a capture nothing more happened; with one,
  -- the text that the pointer finds in the body, which is not empty and has at most 4096 bytes, was
  -- put into the store of the capture. An execution that reports an empty or missing store stopped
  -- before anything was sent: it leaves the state that the resolution of its variables leaves, and
  -- no status.
  pub execute_outcome :
      (o : OperationConfig) (s : S)
      → let out = execute p e ctx o s in
        (out.0.1 ≡ none → Succeeded o s out.0.0 out.1)
        × (is_unavailable out.0.1 ≡ true
            → (out.1 ≡ (resolve_variables p e ctx o.request.variables [] s).1)
              × (out.0.0.status_code ≡ 0))
  unfolding execute execute_untimed
  execute_outcome o s = elim (Result-cases (resolve_variables p e ctx o.request.variables [] s).0) [
    | inr (x, bad) ↦
        rw (bad, execute, execute_untimed) ((λ h. absurd (ground (arith, h))), (λ h. (refl, refl)))
    | inl (values, resolved) ↦
        let s' = (resolve_variables p e ctx o.request.variables [] s).1 in
        let (available, good) = perform-Honest o values s' in
        rw (resolved, execute, execute_untimed)
          (
            (λ h. record { values = values; values_eq = resolved; sent = good h }),
            (λ h. absurd (ground (arith, h, available))),
          )
  ]

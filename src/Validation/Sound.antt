-- ===== src/Validation/Sound.antt =====
-- What an accepted operation guarantees to the executor.
use kurama.Base.{
  ◌==◌, Bool-cases, length, All, pos, InRange, outside, outside-InRange, eqz→eq, Bytes, codes,
  eqs→eq, eqs_refl, eqs, elem, ℕ, ◌+◌, ◌≡◌, sym, ◌∙◌, ◌⊎◌, inl, inr, true, ◌||◌, Option, none, some,
  List, [], ◌∷◌, ◌++◌, map, arith,
}
use kurama.Base.Result.{ok, fail_if, wrap_err, fail_if-eq-ok, >>=-eq-ok}
use kurama.Config.{OperationConfig, VariableConfig, VariableSource, CaptureConfig}
use kurama.JsonPointer.{validate_json_pointer}
use kurama.Names.{validate_name}
use kurama.Template.{template_variables}
use kurama.Validation.Operation.{
  OperationError, bad_name, weight_out_of_range, no_status, bad_template, undefined_variable,
  unused_variable, bad_variable, duplicate_variable, validate_source, validate_variable,
  validate_statuses, validate_variables, check_subset, validate_capture, validate_request,
  validate_references, validate_operation,
}

-- Every name of the first list is in the second.
abbrev pub Subset : List Bytes → List Bytes → Type 0
Subset ns names = All (λ n. elem n names ≡ true) ns

-- Each kind of source has what it needs and nothing else.
abbrev pub SourceOk : List Bytes → VariableSource → Type 0
SourceOk stores s =
    ((eqs s.type (codes "randomUUID") ≡ true) × (s.store ≡ []) × (s.length ≡ pos 0))
    ⊎ ((eqs s.type (codes "randomBase62") ≡ true) × (s.store ≡ []) × InRange 1 128 s.length)
    ⊎ ((eqs s.type (codes "store") ≡ true) × (elem s.store stores ≡ true) × (s.length ≡ pos 0))

abbrev pub VariablesOk : List Bytes → List VariableConfig → Type 0
VariablesOk stores vs = All (λ v. SourceOk stores v.source) vs

abbrev pub names_of_variables : List VariableConfig → List Bytes
names_of_variables vs = map (λ v. v.name) vs

-- What is captured goes to a declared store, by a valid pointer.
abbrev pub CaptureOk : List Bytes → Option CaptureConfig → Type 0
CaptureOk stores none = Unit {0}
CaptureOk stores (some c) =
    (validate_json_pointer c.json_pointer ≡ ok tt) × (elem c.store stores ≡ true)

check_subset-Subset :
    (e : Bytes → OperationError) (ns names : List Bytes)
    → check_subset e ns names ≡ ok tt
    → Subset ns names
unfolding check_subset
check_subset-Subset e [] names h = tt
check_subset-Subset e (n ∷ ns) names h =
    (ground (arith, h), check_subset-Subset e ns names (ground (arith, h)))

validate_source-SourceOk :
    (s : VariableSource) (stores : List Bytes)
    → validate_source s stores ≡ ok tt
    → SourceOk stores s
unfolding validate_source
validate_source-SourceOk s stores h =
    ground (arith, h, outside-InRange 1 128 s.length, eqs→eq s.store [], eqz→eq s.length (pos 0))

validate_capture-CaptureOk :
    (c : Option CaptureConfig) (stores : List Bytes)
    → validate_capture c stores ≡ ok tt
    → CaptureOk stores c
unfolding validate_capture
validate_capture-CaptureOk none stores h = tt
validate_capture-CaptureOk (some c) stores h = ground (arith, h)

validate_variables-VariablesOk :
    (i : ℕ) (names stores out : List Bytes) (vs : List VariableConfig)
    → validate_variables i names stores vs ≡ ok out
    → VariablesOk stores vs
      × ((n : Bytes) → elem n out ≡ (elem n names || elem n (names_of_variables vs)))
unfolding validate_variables validate_variable elem
validate_variables-VariablesOk i names stores out [] h = (tt, λ n. ground (arith, h))
validate_variables-VariablesOk i names stores out (v ∷ vs) h =
    let (a, accepted, h1) =
      >>=-eq-ok (wrap_err (bad_variable i) (validate_variable v stores)) _ h in
    let (b, fresh, h2) = >>=-eq-ok (fail_if (elem v.name names) (duplicate_variable i)) _ h1 in
    let (more, members) =
      validate_variables-VariablesOk (i + 1) (v.name ∷ names) stores out vs h2 in
    (
      (validate_source-SourceOk v.source stores (ground (arith, accepted)), more),
      λ n. ground (arith, members n),
    )

defined_names :
    (stores names : List Bytes) (vs : List VariableConfig)
    → validate_variables 0 [] stores vs ≡ ok names
    → (n : Bytes) → elem n names ≡ elem n (names_of_variables vs)
unfolding elem
defined_names stores names vs h n = (validate_variables-VariablesOk 0 [] stores names vs h).1 n

Subset-elem :
    (ns names : List Bytes) (n : Bytes) → Subset ns names → elem n ns ≡ true → elem n names ≡ true
unfolding elem
Subset-elem [] names n s h = absurd (ground (arith, h))
Subset-elem (m ∷ ms) names n s h = elim (Bool-cases (eqs n m)) [
  | inl same ↦ rw (eqs→eq n m same) s.0
  | inr other ↦ Subset-elem ms names n s.1 (ground (arith, h, other))
]

elem-Subset :
    (ns names : List Bytes)
    → ((n : Bytes) → elem n ns ≡ true → elem n names ≡ true)
    → Subset ns names
unfolding elem
elem-Subset [] names f = tt
elem-Subset (m ∷ ms) names f =
    (f m (ground (arith, eqs_refl m)), elem-Subset ms names (λ n h. f n (ground (arith, h))))

-- The guarantees.
pub record OperationOk (stores : List Bytes) (o : OperationConfig) : Type 0 where
  pub weight_range : InRange 1 10_000 o.weight
  pub variables_ok : VariablesOk stores o.request.variables
  pub used : List Bytes
  pub used_eq :
      template_variables (o.request.path_template ++ (10 ∷ o.request.body_template)) ≡ ok used
  pub used_defined : Subset used (names_of_variables o.request.variables)
  pub defined_used : Subset (names_of_variables o.request.variables) used
  pub capture_ok : CaptureOk stores o.capture

-- An accepted operation has a weight from 1 to 10000; each of its variables is a random UUID without
-- a store and a length, a random text without a store and with a length from 1 to 128, or read from
-- a declared store and without a length; its templates are well formed and refer to exactly the
-- names of its variables; and what it captures goes to a declared store by a valid pointer.
pub validate_operation-OperationOk :
    (o : OperationConfig) (stores : List Bytes)
    → validate_operation o stores ≡ ok tt
    → OperationOk stores o
unfolding validate_operation validate_references
validate_operation-OperationOk o stores h =
    let (a, e1, h1) = >>=-eq-ok (wrap_err bad_name (validate_name o.name)) _ h in
    let (b, weight, h2) =
      >>=-eq-ok (fail_if (outside 1 10_000 o.weight) weight_out_of_range) _ h1 in
    let (c, e3, h3) = >>=-eq-ok (validate_request o.request) _ h2 in
    let (d, e4, h4) = >>=-eq-ok (fail_if (length o.expected_status_codes == 0) no_status) _ h3 in
    let (e, e5, h5) = >>=-eq-ok (validate_statuses [] o.expected_status_codes) _ h4 in
    let (names, defined, h6) =
      >>=-eq-ok (validate_variables 0 [] stores o.request.variables) _ h5 in
    let (f, refs, capture) = >>=-eq-ok (validate_references o.request names) _ h6 in
    let members = defined_names stores names o.request.variables defined in
    let text = o.request.path_template ++ (10 ∷ o.request.body_template) in
    let (used, rendered, r1) = >>=-eq-ok (wrap_err bad_template (template_variables text)) _ refs in
    let (g, undefined, r2) = >>=-eq-ok (check_subset undefined_variable used names) _ r1 in
    let forth = check_subset-Subset undefined_variable used names undefined in
    let back = check_subset-Subset unused_variable names used r2 in
    record {
      weight_range =
          outside-InRange 1 10_000 o.weight
            (fail_if-eq-ok (outside 1 10_000 o.weight) weight_out_of_range b weight);
      variables_ok =
          (validate_variables-VariablesOk 0 [] stores names o.request.variables defined).0;
      used = used;
      used_eq = ground (arith, rendered);
      used_defined =
          elem-Subset used (names_of_variables o.request.variables)
            (λ n u. sym (members n) ∙ Subset-elem used names n forth u);
      defined_used =
          elem-Subset (names_of_variables o.request.variables) used
            (λ n v. Subset-elem names used n back (members n ∙ v));
      capture_ok = validate_capture-CaptureOk o.capture stores capture;
    }

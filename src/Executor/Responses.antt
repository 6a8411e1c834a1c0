-- ===== src/Executor/Responses.antt =====
-- What the checks on a response let through.
use kurama.Base.{
  ltb, leb, Bool-cases, length, take, ℤ, pos, eqz, eqz→eq, Bytes, eqs, ℕ, zero, suc, ◌+◌, ◌≤◌, ◌<◌,
  ◌≡◌, refl, ap, subst, ◌⊎◌, inl, inr, Bool, true, false, ◌&&◌, List, [], ◌∷◌, arith,
}
use kurama.Base.Result.{Result, ok, ◌>>◌, fail_if}
use kurama.Config.{max_response_body_bytes}
use kurama.Execution.{ExecutionError, is_unavailable, response_unreadable, response_too_large}
use kurama.Executor.{
  Response, max_captured_value_bytes, contains_status, captured_text, read_bounded_response,
}
use kurama.Executor.Outcomes.{Available}
use kurama.JsonPointer.{Json, null, boolean, number, string, array, object}

-- The status is one of the expected ones.
abbrev pub StatusIn : List ℤ → ℕ → Type 0
StatusIn [] status = ⊥
StatusIn (s ∷ ss) status = (s ≡ pos status) ⊎ StatusIn ss status

pub contains_status-StatusIn :
    (ss : List ℤ) (status : ℕ) → contains_status ss status ≡ true → StatusIn ss status
unfolding contains_status
contains_status-StatusIn [] status h = absurd (ground (arith, h))
contains_status-StatusIn (s ∷ ss) status h = elim (Bool-cases (eqz s (pos status))) [
  | inl same ↦ inl (eqz→eq s (pos status) same)
  | inr other ↦ inr (contains_status-StatusIn ss status (ground (arith, h, other)))
]

-- A text that may be kept as the value of a variable.
pub record Text (v : Json) (value : Bytes) : Type 0 where
  pub is_string : v ≡ string value
  pub nonempty : eqs value [] ≡ false
  pub short : length value ≤ max_captured_value_bytes

pub captured_text-Text : (v : Json) (value : Bytes) → captured_text v ≡ ok value → Text v value
unfolding captured_text
captured_text-Text null value h = absurd (ground (arith, h))
captured_text-Text (boolean b) value h = absurd (ground (arith, h))
captured_text-Text (number n) value h = absurd (ground (arith, h))
captured_text-Text (string text) value h = elim (Bool-cases (eqs text [])) [
  | inl empty ↦ absurd (ground (arith, h, empty))
  | inr some_text ↦
      let same : text ≡ value = ground (arith, h, some_text) in
      subst (λ x. Text (string text) x) same
        (record { is_string = refl; nonempty = some_text; short = ground (arith, h, some_text) })
]
captured_text-Text (array vs) value h = absurd (ground (arith, h))
captured_text-Text (object fs) value h = absurd (ground (arith, h))

take-short {ℓ} : {A : Type ℓ} (n : ℕ) (xs : List A) → length (take n xs) < n → take n xs ≡ xs
take-short zero xs h = absurd (ground (arith, h))
take-short (suc n) [] h = refl
take-short (suc n) (x ∷ xs) h = ap (λ ys. x ∷ ys) (take-short n xs (ground (arith, h)))

-- The checks on what was read, for any limit.
abbrev bounded : ℕ → Bool → Bytes → Result ExecutionError Bytes
bounded limit unreadable read = do
  fail_if unreadable response_unreadable
  fail_if (ltb limit (length read)) response_too_large
  ok read

bounded-Available :
    (limit : ℕ) (unreadable : Bool) (read : Bytes) → Available (bounded limit unreadable read)
unfolding is_unavailable
bounded-Available limit unreadable read = ground arith

bounded-ok :
    (limit : ℕ) (unreadable : Bool) (read body : Bytes)
    → bounded limit unreadable read ≡ ok body
    → (read ≡ body) × (length read ≤ limit) × (unreadable ≡ false)
bounded-ok limit unreadable read body h = ground (arith, h)

-- The whole body of a response, read without an error.
pub record Whole (limit : ℕ) (r : Response) (body : Bytes) : Type 0 where
  pub all : r.body ≡ body
  pub complete : r.body_fails ≡ false
  pub fits : length r.body ≤ limit

bounded-Whole :
    (limit : ℕ) (r : Response) (body : Bytes)
    → bounded limit (r.body_fails && leb (length r.body) limit) (take (limit + 1) r.body) ≡ ok body
    → Whole limit r body
bounded-Whole limit r body h =
    let (same, small, readable) =
      bounded-ok limit (r.body_fails && leb (length r.body) limit) (take (limit + 1) r.body) body
        h in
    let all : take (limit + 1) r.body ≡ r.body =
      take-short (limit + 1) r.body (ground (arith, small)) in
    let size : length r.body ≤ limit = subst (λ x. length x ≤ limit) all small in
    record {
      all = subst (λ x. x ≡ body) all same;
      complete = ground (arith, readable, size);
      fits = size;
    }

pub read_bounded_response-Available : (r : Response) → Available (read_bounded_response r)
unfolding read_bounded_response
read_bounded_response-Available r =
    bounded-Available max_response_body_bytes
      (r.body_fails && leb (length r.body) max_response_body_bytes)
      (take (max_response_body_bytes + 1) r.body)

pub read_bounded_response-Whole :
    (r : Response) (body : Bytes)
    → read_bounded_response r ≡ ok body
    → Whole max_response_body_bytes r body
unfolding read_bounded_response
read_bounded_response-Whole r body h = bounded-Whole max_response_body_bytes r body h

-- ===== src/Controller/Resources/Bounds.antt =====
-- What the merged lists of resources hold.
use kurama.Base.{
  All-append, Bool-cases, All, Bytes, eqs→eq, eqs_iff, eqs, ◌≡◌, refl, inl, inr, true, false, not,
  Option, none, some, [], ◌∷◌, ◌++◌, arith,
}
use kurama.Base.Assoc.{lookup, has_key}
use kurama.Base.Result.{ok, fail_if, fail_if-eq-ok, >>=-eq-ok}
use kurama.Api.{ResourceList}
use kurama.Controller.Resources.{
  merge_missing_resources, Quantities, unsupported_resource, negative_quantity, above_maximum,
  is_allowed_runner_resource, max_runner_resource, validate_runner_resource_list,
}

-- The limit of a name in a list after merging: its own, or the default.
unfoldable pub or_default : Option Bytes → Option Bytes → Option Bytes
or_default none d = d
or_default (some q) d = some q

lookup-append :
    (asked : Bytes) (m n : ResourceList)
    → lookup asked (m ++ n) ≡ or_default (lookup asked m) (lookup asked n)
unfolding lookup or_default
lookup-append asked [] n = refl
lookup-append asked ((name, q) ∷ m) n = ground (arith, lookup-append asked m n)

has_key-lookup : (name : Bytes) (m : ResourceList) → has_key name m ≡ false → lookup name m ≡ none
unfolding lookup
has_key-lookup name [] h = refl
has_key-lookup name ((other, q) ∷ m) h = ground (arith, has_key-lookup name m)

lookup-has_key :
    (name : Bytes) (m : ResourceList)
    → has_key name m ≡ true
    → (q : Bytes) × (lookup name m ≡ some q)
unfolding lookup
lookup-has_key name [] h = cc
lookup-has_key name ((other, q) ∷ m) h = elim (Bool-cases (eqs other name)) [
  | inl same ↦ (q, rw same refl)
  | inr differ ↦
      let (q', found) = lookup-has_key name m (ground (arith, h, differ)) in (q', rw differ found)
]

-- Merging keeps what is set and adds the defaults that are missing.
pub lookup-merge_missing_resources :
    (asked : Bytes) (target defaults : ResourceList)
    → lookup asked (merge_missing_resources target defaults)
      ≡ or_default (lookup asked target) (lookup asked defaults)
unfolding merge_missing_resources lookup or_default
lookup-merge_missing_resources asked target [] = ground arith
lookup-merge_missing_resources asked target ((name, q) ∷ defaults) =
    elim (Bool-cases (has_key name target)) [
      | inl there ↦
          let (q', found) = lookup-has_key name target there in
          rw (there, lookup-merge_missing_resources asked target defaults)
            (ground (arith, eqs_iff name asked, found))
      | inr missing ↦
          rw
            (
              missing,
              lookup-merge_missing_resources asked (target ++ ((name, q) ∷ [])) defaults,
              lookup-append asked target ((name, q) ∷ []),
            )
            (ground (arith, eqs_iff name asked, has_key-lookup name target missing))
    ]

-- An entry of a list of resources that the validation accepts.
abbrev pub EntryOk : Quantities → Bytes × Bytes → Type 0
EntryOk q (name, quantity) =
    (is_allowed_runner_resource name ≡ true)
    × (q.is_negative quantity ≡ false)
    × (q.exceeds quantity (max_runner_resource name) ≡ false)

pub validate_runner_resource_list-EntryOk :
    (q : Quantities) (m : ResourceList)
    → validate_runner_resource_list q m ≡ ok tt
    → All (EntryOk q) m
unfolding validate_runner_resource_list
validate_runner_resource_list-EntryOk q [] h = tt
validate_runner_resource_list-EntryOk q ((name, quantity) ∷ m) h =
    let (a, allowed, h1) =
      >>=-eq-ok (fail_if (not (is_allowed_runner_resource name)) (unsupported_resource name)) _ h in
    let (b, sign, h2) =
      >>=-eq-ok (fail_if (q.is_negative quantity) (negative_quantity name)) _ h1 in
    let (c, bound, h3) =
      >>=-eq-ok (fail_if (q.exceeds quantity (max_runner_resource name)) (above_maximum name)) _
        h2 in
    (
      (
        ground (arith, fail_if-eq-ok _ _ a allowed),
        fail_if-eq-ok _ _ b sign,
        fail_if-eq-ok _ _ c bound,
      ),
      validate_runner_resource_list-EntryOk q m h3,
    )

pub merge-EntryOk :
    (q : Quantities) (target defaults : ResourceList)
    → All (EntryOk q) target
    → All (EntryOk q) defaults
    → All (EntryOk q) (merge_missing_resources target defaults)
unfolding merge_missing_resources
merge-EntryOk q target [] h k = h
merge-EntryOk q target ((name, quantity) ∷ defaults) h k = elim (Bool-cases (has_key name target)) [
  | inl there ↦ rw (there, merge_missing_resources) (merge-EntryOk q target defaults h k.1)
  | inr missing ↦
      rw (missing, merge_missing_resources)
        (merge-EntryOk q (target ++ ((name, quantity) ∷ [])) defaults
          (All-append (EntryOk q) target ((name, quantity) ∷ []) (k.0, tt) h) k.1)
]

pub lookup-EntryOk :
    (q : Quantities) (name quantity : Bytes) (m : ResourceList)
    → All (EntryOk q) m
    → lookup name m ≡ some quantity
    → q.exceeds quantity (max_runner_resource name) ≡ false
unfolding lookup
lookup-EntryOk q name quantity [] h e = cc
lookup-EntryOk q name quantity ((other, x) ∷ m) h e = elim (Bool-cases (eqs other name)) [
  | inl same ↦
      let names : other ≡ name = eqs→eq other name same in
      let values : x ≡ quantity = ground (arith, e, same) in rw (← names, ← values) h.0.2
  | inr differ ↦ lookup-EntryOk q name quantity m h.1 (ground (arith, e, differ))
]

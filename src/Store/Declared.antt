-- ===== src/Store/Declared.antt =====
-- What `validateStoreConfigs` accepts, and the stores that it declares.
use kurama.Base.{
  if◌then◌else◌, Bool-cases, length, to_ℕ, InRange, outside-InRange, InRange-outside, Bytes, eqs→eq,
  eqs_refl, eqs_iff, eqs, elem, ℕ, ◌+◌, ◌≤◌, ◌≡◌, refl, ◌∙◌, ◌↔◌, inl, inr, true, false, Option,
  none, some, List, [], ◌∷◌, arith,
}
use kurama.Base.Result.{ok}
use kurama.Base.Assoc.{insert, lookup, lookup-insert}
use kurama.Config.{StoreConfig, max_stores, max_store_capacity}
use kurama.Names.{matches_name, validate_name}
use kurama.Store.{ValidatedStoreConfigs, validate_each, validate_store_configs}

-- One declaration is well-formed, and its name is not among those seen.
pub record DeclaredOk (seen : List Bytes) (c : StoreConfig) : Type 0 where
  pub name_ok : matches_name c.name ≡ true
  pub name_new : elem c.name seen ≡ false
  pub capacity_ok : InRange 1 max_store_capacity c.capacity

-- So are all, each against the names before it.
abbrev pub AllDeclared : List Bytes → List StoreConfig → Type 0
AllDeclared seen [] = Unit
AllDeclared seen (c ∷ cs) = DeclaredOk seen c × AllDeclared (c.name ∷ seen) cs

-- The capacity that a list of declarations gives to a name; the names are distinct.
abbrev pub capacity_in : Bytes → List StoreConfig → Option ℕ
capacity_in k [] = none
capacity_in k (c ∷ cs) = if eqs c.name k then some (to_ℕ c.capacity) else capacity_in k cs

head_ok :
    (i : ℕ) (c : StoreConfig) (cs : List StoreConfig) (v w : ValidatedStoreConfigs)
    → validate_each i (c ∷ cs) v ≡ ok w
    → DeclaredOk v.names c
      × (validate_each (i + 1) cs (record {
        names = c.name ∷ v.names;
        capacities = insert c.name (to_ℕ c.capacity) v.capacities;
      })
          ≡ ok w)
unfolding validate_each validate_name
head_ok i c cs v w h = ground (arith, outside-InRange 1 max_store_capacity c.capacity)

step_ok :
    (i : ℕ) (c : StoreConfig) (cs : List StoreConfig) (v w : ValidatedStoreConfigs)
    → DeclaredOk v.names c
    → validate_each i (c ∷ cs) v
      ≡ validate_each (i + 1) cs (record {
        names = c.name ∷ v.names;
        capacities = insert c.name (to_ℕ c.capacity) v.capacities;
      })
unfolding validate_each validate_name
step_ok i c cs v w d =
    ground
      (arith, d.name_ok, d.name_new, InRange-outside 1 max_store_capacity c.capacity d.capacity_ok)

validate_each-AllDeclared :
    (i : ℕ) (cs : List StoreConfig) (v w : ValidatedStoreConfigs)
    → validate_each i cs v ≡ ok w
    → AllDeclared v.names cs
validate_each-AllDeclared i [] v w h = tt
validate_each-AllDeclared i (c ∷ cs) v w h =
    let (d, rest) = head_ok i c cs v w h in (d, validate_each-AllDeclared (i + 1) cs _ w rest)

AllDeclared-validate_each :
    (i : ℕ) (cs : List StoreConfig) (v : ValidatedStoreConfigs)
    → AllDeclared v.names cs
    → (w : ValidatedStoreConfigs) × (validate_each i cs v ≡ ok w)
unfolding validate_each
AllDeclared-validate_each i [] v d = (v, refl)
AllDeclared-validate_each i (c ∷ cs) v d =
    let (w, e) =
      AllDeclared-validate_each (i + 1) cs
        (record {
          names = c.name ∷ v.names;
          capacities = insert c.name (to_ℕ c.capacity) v.capacities;
        })
        d.1 in
    (w, step_ok i c cs v w d.0 ∙ e)

abbrev pub nothing_yet : ValidatedStoreConfigs
nothing_yet = record { names = []; capacities = [] }

accepted :
    (cs : List StoreConfig) (w : ValidatedStoreConfigs)
    → validate_store_configs cs ≡ ok w
    → (length cs ≤ max_stores) × (validate_each 0 cs nothing_yet ≡ ok w)
unfolding validate_store_configs
accepted cs w h = ground arith

-- The declarations are accepted exactly when there are at most 32 of them, every name matches the
-- name pattern, no name occurs twice, and every capacity lies between 1 and 100,000.
pub validate_store_configs_iff :
    (cs : List StoreConfig)
    → ((w : ValidatedStoreConfigs) × (validate_store_configs cs ≡ ok w))
      ↔ ((length cs ≤ max_stores) × AllDeclared [] cs)
unfolding validate_store_configs
validate_store_configs_iff cs = (
  (λ x.
      let (fits, each) = accepted cs x.0 x.1 in
      (fits, validate_each-AllDeclared 0 cs nothing_yet x.0 each)),
  (λ x. let (w, e) = AllDeclared-validate_each 0 cs nothing_yet x.1 in (w, ground (arith, e))),
)

-- A name that was seen is not declared again.
seen_not_declared :
    (k : Bytes) (seen : List Bytes) (cs : List StoreConfig)
    → elem k seen ≡ true
    → AllDeclared seen cs
    → capacity_in k cs ≡ none
unfolding elem
seen_not_declared k seen [] h d = refl
seen_not_declared k seen (c ∷ cs) h d = ground (
  arith,
  d.0.name_new,
  eqs_iff c.name k,
  seen_not_declared k (c.name ∷ seen) cs (ground (arith, h)) d.1,
)

abbrev or_else : Option ℕ → Option ℕ → Option ℕ
or_else none o = o
or_else (some n) o = some n

just_seen : (name k : Bytes) (seen : List Bytes) → eqs name k ≡ true → elem k (name ∷ seen) ≡ true
unfolding elem
just_seen name k seen h = rw (eqs→eq name k h, eqs_refl)

capacities_of :
    (k : Bytes) (i : ℕ) (cs : List StoreConfig) (v w : ValidatedStoreConfigs)
    → validate_each i cs v ≡ ok w
    → lookup k w.capacities ≡ or_else (capacity_in k cs) (lookup k v.capacities)
unfolding validate_each
capacities_of k i [] v w h = ground (arith, h)
capacities_of k i (c ∷ cs) v w h =
    let (d, rest) = head_ok i c cs v w h in
    let all = validate_each-AllDeclared (i + 1) cs _ w rest in
    capacities_of k (i + 1) cs _ w rest
    ∙ rw (lookup-insert c.name k (to_ℕ c.capacity) v.capacities) (elim (Bool-cases (eqs c.name k)) [
      | inl same ↦ rw (
        same,
        capacity_in,
        seen_not_declared k (c.name ∷ v.names) cs (just_seen c.name k v.names same) all,
      )
      | inr other ↦ rw (other, capacity_in)
    ])

-- An accepted declaration gives every name the capacity that it is declared with, and no capacity to
-- a name that is not declared.
pub declared_capacity :
    (cs : List StoreConfig) (w : ValidatedStoreConfigs) (k : Bytes)
    → validate_store_configs cs ≡ ok w
    → lookup k w.capacities ≡ capacity_in k cs
unfolding lookup
declared_capacity cs w k h = ground (arith, capacities_of k 0 cs nothing_yet w (accepted cs w h).1)

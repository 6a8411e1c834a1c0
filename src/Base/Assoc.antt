-- ===== src/Base/Assoc.antt =====
-- Go maps with string keys, as association lists with distinct keys.
use mathlib.Core.Path.{◌≡◌, refl}
use mathlib.Core.Bool.{Bool, false, ◌||◌}
use mathlib.Core.List.{List, [], ◌∷◌}
use mathlib.Core.Option.{Option, none, some}
use native.Mathlib.Omega.{arith}
use kurama.Base.Tests.{if◌then◌else◌}
use kurama.Base.Strings.{Bytes, eqs, eqs_iff, eqs_refl}

module _ {ℓ} {V : Type ℓ} where
  -- `m[key]`, with whether the key is there.
  unfoldable pub lookup : Bytes → List (Bytes × V) → Option V
  lookup key [] = none
  lookup key ((other, value) ∷ rest) = if eqs other key then some value else lookup key rest

  -- `m[key] = value`
  unfoldable pub insert : Bytes → V → List (Bytes × V) → List (Bytes × V)
  insert key value [] = (key, value) ∷ []
  insert key value ((other, old) ∷ rest) =
      if eqs other key then (key, value) ∷ rest else (other, old) ∷ insert key value rest

  pub lookup-insert :
      (key asked : Bytes) (value : V) (entries : List (Bytes × V))
      → lookup asked (insert key value entries)
        ≡ (if eqs key asked then some value else lookup asked entries)
  unfolding lookup insert
  lookup-insert key asked value [] = refl
  lookup-insert key asked value ((other, old) ∷ rest) = ground (
    arith,
    eqs_iff key asked,
    eqs_iff other key,
    eqs_iff other asked,
    lookup-insert key asked value rest,
  )

  pub lookup-insert_self :
      (key : Bytes) (value : V) (entries : List (Bytes × V))
      → lookup key (insert key value entries) ≡ some value
  lookup-insert_self key value entries = simp (eqs_refl, lookup-insert)

  -- A key is in the map.
  abbrev pub has_key : Bytes → List (Bytes × V) → Bool
  has_key k [] = false
  has_key k ((j, v) ∷ m) = eqs j k || has_key k m

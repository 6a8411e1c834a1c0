-- ===== src/Controller/Apply/Managed.antt =====
-- Setting managed values twice is setting them once.
use kurama.Base.{
  Bool-cases, Bytes, eqs_refl, eqs_iff, eqs, ◌≡◌, refl, ap, ◌∙◌, inl, inr, false, Option, none,
  some, List, [], ◌∷◌, arith,
}
use kurama.Base.Assoc.{lookup, insert, has_key, lookup-insert}
use kurama.Controller.Apply.{
  set_managed_map_values, apply_managed_pod_security_context,
  apply_managed_container_security_context, apply_container, apply_managed_runner_container,
  apply_source, apply_managed_scenario_volume,
}
use kurama.Controller.Workload.{
  StringMap, SecurityContext, Container, VolumeSource, config_map, projected, other_source, Volume,
  PodSecurityContext,
}

-- No key occurs twice in a map.
abbrev pub Distinct : StringMap → Type 0
Distinct [] = Unit {0}
Distinct ((key, value) ∷ rest) = (has_key key rest ≡ false) × Distinct rest

-- The entries of a map are those that another map holds.
abbrev pub Holds : StringMap → StringMap → Type 0
Holds m [] = Unit {0}
Holds m ((key, value) ∷ rest) = (lookup key m ≡ some value) × Holds m rest

pub insert-same :
    (key value : Bytes) (m : StringMap) → lookup key m ≡ some value → insert key value m ≡ m
unfolding insert lookup
insert-same key value [] h = cc
insert-same key value ((other, old) ∷ m) h =
    ground (arith, eqs_iff other key, insert-same key value m)

set_managed-Holds : (m d : StringMap) → Holds m d → set_managed_map_values m d ≡ m
unfolding set_managed_map_values
set_managed-Holds m [] h = refl
set_managed-Holds m ((key, value) ∷ d) h =
    rw (insert-same key value m h.0) (set_managed-Holds m d h.1)

-- A key that is not managed keeps its value.
pub lookup-set_managed_map_values :
    (key : Bytes) (m d : StringMap)
    → has_key key d ≡ false
    → lookup key (set_managed_map_values m d) ≡ lookup key m
unfolding set_managed_map_values
lookup-set_managed_map_values key m [] h = refl
lookup-set_managed_map_values key m ((j, v) ∷ d) h =
    let apart : eqs j key ≡ false = ground (arith, h) in
    lookup-set_managed_map_values key (insert j v m) d (ground (arith, h))
    ∙ (lookup-insert j key v m ∙ rw apart refl)

-- After managed values are set, the map holds them.
pub set_managed_map_values-Holds :
    (m d : StringMap) → Distinct d → Holds (set_managed_map_values m d) d
unfolding set_managed_map_values
set_managed_map_values-Holds m [] h = tt
set_managed_map_values-Holds m ((key, value) ∷ d) h = (
  lookup-set_managed_map_values key (insert key value m) d h.0
      ∙ (lookup-insert key key value m ∙ rw (eqs_refl key) refl),
  set_managed_map_values-Holds (insert key value m) d h.1,
)

pub set_managed_map_values-twice :
    (m d : StringMap)
    → Distinct d
    → set_managed_map_values (set_managed_map_values m d) d ≡ set_managed_map_values m d
set_managed_map_values-twice m d h =
    set_managed-Holds (set_managed_map_values m d) d (set_managed_map_values-Holds m d h)

pub pod_security_context-twice :
    (e d : Option PodSecurityContext)
    → let a = apply_managed_pod_security_context e d in apply_managed_pod_security_context a d ≡ a
unfolding apply_managed_pod_security_context
pod_security_context-twice e none = refl
pod_security_context-twice none (some d) = refl
pod_security_context-twice (some e) (some d) = refl

container_security_context-twice :
    (e d : Option SecurityContext)
    → let a = apply_managed_container_security_context e d in
      apply_managed_container_security_context a d ≡ a
unfolding apply_managed_container_security_context
container_security_context-twice e none = refl
container_security_context-twice none (some d) = refl
container_security_context-twice (some e) (some d) = refl

container_security_context_self :
    (d : Option SecurityContext) → apply_managed_container_security_context d d ≡ d
unfolding apply_managed_container_security_context
container_security_context_self none = refl
container_security_context_self (some d) = refl

pub container-twice :
    (es : List Container) (d : Container)
    → let a = apply_managed_runner_container es d in apply_managed_runner_container a d ≡ a
unfolding apply_managed_runner_container apply_container
container-twice [] d = rw (eqs_refl d.name) (
    ap (λ c. record d { security_context = c } ∷ [])
      (container_security_context_self d.security_context))
container-twice (e ∷ es) d = elim (Bool-cases (eqs e.name d.name)) [
  | inl same ↦
      rw (same, same)
        (ap (λ c. record (apply_container e d) { security_context = c } ∷ es)
          (container_security_context-twice e.security_context d.security_context))
  | inr differ ↦ rw (differ, differ) (ap (λ cs. e ∷ cs) (container-twice es d))
]

source_self : (d : VolumeSource) → apply_source d d ≡ d
unfolding apply_source
source_self (config_map d) = refl
source_self (projected d) = refl
source_self (other_source d) = refl

source-twice : (e d : VolumeSource) → apply_source (apply_source e d) d ≡ apply_source e d
unfolding apply_source
source-twice (config_map e) (config_map d) = refl
source-twice (config_map e) (projected d) = refl
source-twice (config_map e) (other_source d) = refl
source-twice (projected e) d = source_self d
source-twice (other_source e) d = source_self d

pub scenario_volume-twice :
    (es : List Volume) (d : Volume)
    → let a = apply_managed_scenario_volume es d in apply_managed_scenario_volume a d ≡ a
unfolding apply_managed_scenario_volume
scenario_volume-twice [] d =
    rw (eqs_refl d.name) (ap (λ c. record d { source = c } ∷ []) (source_self d.source))
scenario_volume-twice (e ∷ es) d = elim (Bool-cases (eqs e.name d.name)) [
  | inl same ↦
      rw (same, same) (ap (λ c. record e { source = c } ∷ es) (source-twice e.source d.source))
  | inr differ ↦ rw (differ, differ) (ap (λ cs. e ∷ cs) (scenario_volume-twice es d))
]

Holds-cons :
    (key value : Bytes) (m d : StringMap)
    → has_key key d ≡ false
    → Holds m d
    → Holds ((key, value) ∷ m) d
unfolding lookup
Holds-cons key value m [] n h = tt
Holds-cons key value m ((j, v) ∷ d) n h =
    let apart : eqs key j ≡ false = ground (arith, n, eqs_iff key j, eqs_iff j key) in
    (rw apart h.0, Holds-cons key value m d (ground (arith, n)) h.1)

Holds-self : (m : StringMap) → Distinct m → Holds m m
unfolding lookup
Holds-self [] h = tt
Holds-self ((key, value) ∷ m) h =
    (rw (eqs_refl key) refl, Holds-cons key value m m h.0 (Holds-self m h.1))

-- A map that is all managed stays as it is.
pub set_managed_map_values_self : (m : StringMap) → Distinct m → set_managed_map_values m m ≡ m
set_managed_map_values_self m h = set_managed-Holds m m (Holds-self m h)

pub container_self :
    (d : Container) (ds : List Container) → apply_managed_runner_container (d ∷ ds) d ≡ d ∷ ds
unfolding apply_managed_runner_container apply_container
container_self d ds = rw (eqs_refl d.name) (
    ap (λ c. record d { security_context = c } ∷ ds)
      (container_security_context_self d.security_context))

pub scenario_volume_self :
    (d : Volume) (ds : List Volume) → apply_managed_scenario_volume (d ∷ ds) d ≡ d ∷ ds
unfolding apply_managed_scenario_volume
scenario_volume_self d ds =
    rw (eqs_refl d.name) (ap (λ c. record d { source = c } ∷ ds) (source_self d.source))

pub pod_security_context_self :
    (d : Option PodSecurityContext) → apply_managed_pod_security_context d d ≡ d
unfolding apply_managed_pod_security_context
pod_security_context_self none = refl
pod_security_context_self (some d) = refl

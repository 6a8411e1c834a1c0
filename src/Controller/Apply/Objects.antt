-- ===== src/Controller/Apply/Objects.antt =====
-- `ensureControlledBy`, `applyConfigMap` and `applyDeployment` of
-- internal/controller/trafficscenario_apply.go.
use kurama.Base.{
  if◌then◌else◌, Bytes, codes, eqs, ◌≡◌, ◌↔◌, Bool, true, false, not, Option, none, some, List, [],
  ◌∷◌,
}
use kurama.Base.Assoc.{lookup, insert}
use kurama.Base.Result.{Result, ok, err, fail_if}
use kurama.Api.{TrafficScenario}
use kurama.Controller.Apply.{set_managed_map_values, apply_managed_deployment_fields}
use kurama.Controller.Desired.{scenario_config_key}
use kurama.Controller.Workload.{StringMap, OwnerReference, ConfigMap, Deployment}

-- `Semantic.DeepEqual`
pub record DeepEqual (A : Type 0) : Type 0 where
  pub deep_equal : A → A → Bool
  pub deep_equal_iff : (a b : A) → (deep_equal a b ≡ true) ↔ (a ≡ b)

-- `Get` of an object.
pub data Found (A : Type 0) : Type 0 where
  not_found read_failed : Found A
  found : A → Found A

-- How the API server answers about one object, and whether an owner can be set.
pub record ObjectApi (A : Type 0) : Type 0 where
  pub get : Found A
  pub owner_settable : Bool
  pub create_succeeds : Bool
  pub patch_succeeds : Bool

pub data ApplyError : Type 0 where
  get_failed owner_failed create_failed patch_failed : ApplyError
  not_controlled : ApplyError
  controlled_by : OwnerReference → ApplyError
  unexpected_selector : ApplyError

-- A request that changes an object, with the object that it asks for.
pub data Write (A : Type 0) : Type 0 where
  create patch : A → Write A

-- `metav1.IsControlledBy` compares the UID of the controller.
unfoldable pub is_controlled_by : Option OwnerReference → TrafficScenario → Bool
is_controlled_by none s = false
is_controlled_by (some owner) s = eqs owner.uid s.uid

-- `ensureControlledBy`
unfoldable pub ensure_controlled_by :
    Option OwnerReference → TrafficScenario → Result ApplyError (Unit {0})
unfolding is_controlled_by
ensure_controlled_by none s = err not_controlled
ensure_controlled_by (some owner) s = fail_if (not (eqs owner.uid s.uid)) (controlled_by owner)

-- `controllerutil.SetControllerReference`
abbrev pub owner_of : TrafficScenario → OwnerReference
owner_of s = record { kind = codes "TrafficScenario"; name = s.name; uid = s.uid }

-- `desired.Data[scenarioConfigKey]`: a missing value is empty.
abbrev pub value_or_empty : Option Bytes → Bytes
value_or_empty none = []
value_or_empty (some v) = v

-- What `applyConfigMap` sets of a ConfigMap that is there.
unfoldable pub update_config_map : ConfigMap → ConfigMap → ConfigMap
update_config_map e d = record e {
  labels = set_managed_map_values e.labels d.labels;
  annotations = set_managed_map_values e.annotations d.annotations;
  contents =
      insert scenario_config_key (value_or_empty (lookup scenario_config_key d.contents))
        e.contents;
}

unfoldable pub patch_config_map :
    DeepEqual ConfigMap
    → ObjectApi ConfigMap
    → ConfigMap
    → ConfigMap
    → Result ApplyError (Unit {0}) × List (Write ConfigMap)
patch_config_map eq api before after =
    if eq.deep_equal before after
    then (ok tt, [])
    else (if api.patch_succeeds then ok tt else err patch_failed, patch after ∷ [])

-- `applyConfigMap`
unfoldable pub apply_config_map :
    DeepEqual ConfigMap
    → ObjectApi ConfigMap
    → TrafficScenario
    → ConfigMap
    → Result ApplyError (Unit {0}) × List (Write ConfigMap)
unfolding ensure_controlled_by update_config_map patch_config_map
apply_config_map eq api s desired = elim api.get [
  | read_failed ↦ (err get_failed, [])
  | not_found ↦ if not api.owner_settable then (err owner_failed, []) else (
    if api.create_succeeds then ok tt else err create_failed,
    create (record desired { controller = some (owner_of s) }) ∷ [],
  )
  | found existing ↦ elim (ensure_controlled_by existing.controller s) [
    | err e ↦ (err e, [])
    | ok u ↦ patch_config_map eq api existing (update_config_map existing desired)
  ]
]

unfoldable pub patch_deployment :
    DeepEqual Deployment
    → ObjectApi Deployment
    → Deployment
    → Deployment
    → Result ApplyError Bool × List (Write Deployment)
patch_deployment eq api before after =
    if eq.deep_equal before after
    then (ok false, [])
    else (if api.patch_succeeds then ok true else err patch_failed, patch after ∷ [])

-- `applyDeployment`; it returns whether the Deployment was changed. `same_selector` is
-- `Semantic.DeepEqual` of selectors.
unfoldable pub apply_deployment :
    DeepEqual Deployment
    → DeepEqual StringMap
    → ObjectApi Deployment
    → TrafficScenario
    → Deployment
    → Result ApplyError Bool × List (Write Deployment)
unfolding ensure_controlled_by patch_deployment
apply_deployment eq same_selector api s desired = elim api.get [
  | read_failed ↦ (err get_failed, [])
  | not_found ↦ if not api.owner_settable then (err owner_failed, []) else (
    if api.create_succeeds then ok true else err create_failed,
    create (record desired { controller = some (owner_of s) }) ∷ [],
  )
  | found existing ↦ elim (ensure_controlled_by existing.controller s) [
    | err e ↦ (err e, [])
    | ok u ↦
        if not (same_selector.deep_equal existing.selector desired.selector)
        then (err unexpected_selector, [])
        else patch_deployment eq api existing (apply_managed_deployment_fields existing desired)
  ]
]

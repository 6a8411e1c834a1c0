-- ===== src/Controller/Apply/Owned.antt =====
-- The controller writes only objects that are missing or its own.
use kurama.Base.{Bool-cases, All, eqs_refl, ◌≡◌, refl, inl, inr, true, Option, none, some, arith}
use kurama.Base.Result.{ok, Result-cases, fail_if-eq-ok}
use kurama.Api.{TrafficScenario}
use kurama.Controller.Apply.{apply_managed_deployment_fields}
use kurama.Controller.Apply.Objects.{
  DeepEqual, Found, not_found, read_failed, found, ObjectApi, Write, create, patch, owner_of,
  is_controlled_by, ensure_controlled_by, apply_config_map, apply_deployment, patch_deployment,
  patch_config_map, update_config_map,
}
use kurama.Controller.Workload.{StringMap, OwnerReference, ConfigMap, Deployment}

-- The Deployment or ConfigMap that was found is the scenario's own.
abbrev pub Owned : {A : Type 0} → (A → Option OwnerReference) → Found A → TrafficScenario → Type 0
Owned controller not_found s = ⊥
Owned controller read_failed s = ⊥
Owned controller (found a) s = is_controlled_by (controller a) s ≡ true

-- A write creates what is missing, or changes what is the scenario's own.
abbrev pub Allowed :
    {A : Type 0} → (A → Option OwnerReference) → Found A → TrafficScenario → Write A → Type 0
Allowed controller get s (create a) = (get ≡ not_found) × (is_controlled_by (controller a) s ≡ true)
Allowed controller get s (patch a) =
    Owned controller get s × (is_controlled_by (controller a) s ≡ true)

abbrev pub asked_for : {A : Type 0} → Write A → A
asked_for (create a) = a
asked_for (patch a) = a

pub ensure_controlled_by-owned :
    (o : Option OwnerReference) (s : TrafficScenario)
    → ensure_controlled_by o s ≡ ok tt
    → is_controlled_by o s ≡ true
unfolding ensure_controlled_by is_controlled_by
ensure_controlled_by-owned none s h = cc
ensure_controlled_by-owned (some owner) s h = ground (arith, fail_if-eq-ok _ _ tt h)

owner-owns : (s : TrafficScenario) → is_controlled_by (some (owner_of s)) s ≡ true
unfolding is_controlled_by
owner-owns s = eqs_refl s.uid

-- The object that a write asks for: the desired one with its owner, or an update of the one found.
abbrev pub Asks : {A : Type 0} → A → (A → A) → Found A → A → Type 0
Asks fresh update not_found a = a ≡ fresh
Asks fresh update read_failed a = ⊥
Asks fresh update (found e) a = a ≡ update e

module _ (eq : DeepEqual Deployment) (same : DeepEqual StringMap) (s : TrafficScenario)
    (d : Deployment) where
  abbrev pub DeploymentWrite : Found Deployment → Write Deployment → Type 0
  DeploymentWrite get w =
      Allowed (λ (x : Deployment). x.controller) get s w
      × Asks (record d { controller = some (owner_of s) })
          (λ e. apply_managed_deployment_fields e d) get (asked_for w)

  patch-DeploymentWrite :
      (api : ObjectApi Deployment) (e : Deployment)
      → is_controlled_by e.controller s ≡ true
      → All
          (DeploymentWrite (found e))
          (patch_deployment eq api e (apply_managed_deployment_fields e d)).1
  unfolding patch_deployment apply_managed_deployment_fields
  patch-DeploymentWrite api e owned =
      elim (Bool-cases (eq.deep_equal e (apply_managed_deployment_fields e d))) [
        | inl held ↦ rw (held, patch_deployment) tt
        | inr changed ↦ rw (changed, patch_deployment) (((owned, owned), refl), tt)
      ]

  write_found :
      (api : ObjectApi Deployment) (e : Deployment)
      → All
          (DeploymentWrite (found e))
          (apply_deployment eq same (record api { get = found e }) s d).1
  unfolding apply_deployment
  write_found api e = elim (Result-cases (ensure_controlled_by e.controller s)) [
    | inr (x, foreign) ↦ rw (foreign, apply_deployment) tt
    | inl (u, owned) ↦ elim (Bool-cases (same.deep_equal e.selector d.selector)) [
      | inl equal ↦
          rw (owned, equal, apply_deployment)
            (patch-DeploymentWrite (record api { get = found e }) e
              (ensure_controlled_by-owned e.controller s owned))
      | inr other ↦ rw (owned, other, apply_deployment) tt
    ]
  ]

  by_get :
      (api : ObjectApi Deployment) (get : Found Deployment)
      → All (DeploymentWrite get) (apply_deployment eq same (record api { get = get }) s d).1
  unfolding apply_deployment
  by_get api not_found = elim (Bool-cases api.owner_settable) [
    | inl settable ↦ rw (settable, apply_deployment) (((refl, owner-owns s), refl), tt)
    | inr stuck ↦ rw (stuck, apply_deployment) tt
  ]
  by_get api read_failed = tt
  by_get api (found e) = write_found api e

  -- Every write of a Deployment creates a missing one as desired, or updates the scenario's own.
  pub apply_deployment-DeploymentWrite :
      (api : ObjectApi Deployment)
      → All (DeploymentWrite api.get) (apply_deployment eq same api s d).1
  apply_deployment-DeploymentWrite api = by_get api api.get

module _ (eq : DeepEqual ConfigMap) (s : TrafficScenario) (d : ConfigMap) where
  abbrev pub ConfigMapWrite : Found ConfigMap → Write ConfigMap → Type 0
  ConfigMapWrite get w =
      Allowed (λ (x : ConfigMap). x.controller) get s w
      × Asks (record d { controller = some (owner_of s) }) (λ e. update_config_map e d) get
          (asked_for w)

  patch-ConfigMapWrite :
      (api : ObjectApi ConfigMap) (e : ConfigMap)
      → is_controlled_by e.controller s ≡ true
      → All (ConfigMapWrite (found e)) (patch_config_map eq api e (update_config_map e d)).1
  unfolding patch_config_map update_config_map
  patch-ConfigMapWrite api e owned = elim (Bool-cases (eq.deep_equal e (update_config_map e d))) [
    | inl held ↦ rw (held, patch_config_map) tt
    | inr changed ↦ rw (changed, patch_config_map) (((owned, owned), refl), tt)
  ]

  config_by_get :
      (api : ObjectApi ConfigMap) (get : Found ConfigMap)
      → All (ConfigMapWrite get) (apply_config_map eq (record api { get = get }) s d).1
  unfolding apply_config_map
  config_by_get api not_found = elim (Bool-cases api.owner_settable) [
    | inl settable ↦ rw (settable, apply_config_map) (((refl, owner-owns s), refl), tt)
    | inr stuck ↦ rw (stuck, apply_config_map) tt
  ]
  config_by_get api read_failed = tt
  config_by_get api (found e) = elim (Result-cases (ensure_controlled_by e.controller s)) [
    | inr (x, foreign) ↦ rw (foreign, apply_config_map) tt
    | inl (u, owned) ↦
        rw (owned, apply_config_map)
          (patch-ConfigMapWrite (record api { get = found e }) e
            (ensure_controlled_by-owned e.controller s owned))
  ]

  pub apply_config_map-ConfigMapWrite :
      (api : ObjectApi ConfigMap) → All (ConfigMapWrite api.get) (apply_config_map eq api s d).1
  apply_config_map-ConfigMapWrite api = config_by_get api api.get

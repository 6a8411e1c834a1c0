-- ===== src/Controller/Apply/Latest.antt =====
-- Applying an object again, once the API server has stored what a successful application asked for.
use kurama.Base.{
  leb, if◌then◌else◌, Bool-cases, length, Bytes, eqs_refl, eqs, ◌+◌, ◌≡◌, refl, sym, inl, inr, Bool,
  true, false, Option, some, List, [], ◌∷◌, arith,
}
use kurama.Base.Assoc.{lookup, insert, lookup-insert_self}
use kurama.Base.Result.{ok, err, Result-cases}
use kurama.Api.{TrafficScenario}
use kurama.Controller.Apply.{apply_managed_deployment_fields}
use kurama.Controller.Apply.Managed.{
  Distinct, insert-same, set_managed_map_values-twice, set_managed_map_values_self,
}
use kurama.Controller.Apply.Objects.{
  DeepEqual, Found, not_found, read_failed, found, ObjectApi, Write, patch, patch_failed, owner_of,
  value_or_empty, ensure_controlled_by, update_config_map, patch_config_map, apply_config_map,
  patch_deployment, apply_deployment,
}
use kurama.Controller.Apply.Owned.{asked_for}
use kurama.Controller.Apply.Settles.{FoundOnce, annotations-Distinct, settled, owned_by_creator}
use kurama.Controller.Apply.Twice.{
  DesiredOk, apply_managed_deployment_fields-twice, apply_managed_deployment_fields-created,
}
use kurama.Controller.Desired.{
  desired_config_map, labels, scenario_annotations, scenario_config_key,
}
use kurama.Controller.Identity.{Sha256}
use kurama.Controller.Workload.{StringMap, OwnerReference, ConfigMap, Deployment}

-- What is stored after some writes.
abbrev pub latest : {A : Type 0} → List (Write A) → Found A → Found A
latest [] g = g
latest (w ∷ ws) g = latest ws (found (asked_for w))

module _ (eq : DeepEqual Deployment) (same : DeepEqual StringMap) (s : TrafficScenario)
    (d : Deployment) (k : DesiredOk d) (api later : ObjectApi Deployment) where
  patches :
      (e : Deployment)
      → ensure_controlled_by e.controller s ≡ ok tt
      → same.deep_equal e.selector d.selector ≡ true
      → eq.deep_equal e (apply_managed_deployment_fields e d) ≡ false
      → apply_deployment eq same (record api { get = found e }) s d ≡ (
        if api.patch_succeeds then ok true else err patch_failed,
        patch (apply_managed_deployment_fields e d) ∷ [],
      )
  unfolding apply_deployment patch_deployment
  patches e owned selector changes = rw (apply_deployment, owned, selector, changes) refl

  pub apply_deployment-latest :
      (g : Found Deployment) (changed : Bool)
      → FoundOnce g
      → (apply_deployment eq same (record api { get = g }) s d).0 ≡ ok changed
      → apply_deployment eq same
          (record later {
            get = latest (apply_deployment eq same (record api { get = g }) s d).1 g;
          })
          s
          d
        ≡ (ok false, [])
  unfolding apply_deployment patch_deployment apply_managed_deployment_fields
  apply_deployment-latest not_found changed once h = elim (Bool-cases api.owner_settable) [
    | inr stuck ↦ absurd (ground (arith, h, stuck))
    | inl settable ↦ rw settable (
        settled eq same s d later (record d { controller = some (owner_of s) })
          (owned_by_creator eq same s d) ((same.deep_equal_iff d.selector d.selector).1 refl)
          (apply_managed_deployment_fields-created d (some (owner_of s)) k))
  ]
  apply_deployment-latest read_failed changed once h = cc
  apply_deployment-latest (found e) changed once h =
      elim (Result-cases (ensure_controlled_by e.controller s)) [
        | inr (x, foreign) ↦ absurd (ground (arith, h, foreign))
        | inl (u, owned) ↦ elim (Bool-cases (same.deep_equal e.selector d.selector)) [
          | inr differ ↦ absurd (ground (arith, h, owned, differ))
          | inl selector ↦
              elim (Bool-cases (eq.deep_equal e (apply_managed_deployment_fields e d))) [
                | inl equal ↦
                    let holds =
                      sym ((eq.deep_equal_iff e (apply_managed_deployment_fields e d)).0 equal) in
                    rw (settled eq same s d api e owned selector holds)
                      (settled eq same s d later e owned selector holds)
                | inr changes ↦ rw (patches e owned selector changes) (
                    settled eq same s d later (apply_managed_deployment_fields e d) owned selector
                      (apply_managed_deployment_fields-twice e d k once))
              ]
        ]
      ]

-- What a desired ConfigMap has, for setting it twice to be setting it once.
pub record PlainConfigMap (d : ConfigMap) : Type 0 where
  pub labels_distinct : Distinct d.labels
  pub annotations_distinct : Distinct d.annotations
  pub value_set :
      insert scenario_config_key (value_or_empty (lookup scenario_config_key d.contents)) d.contents
      ≡ d.contents

pub desired_config_map-PlainConfigMap :
    (sha : Sha256) (s : TrafficScenario) (name config : Bytes)
    → PlainConfigMap (desired_config_map sha s name config)
unfolding desired_config_map labels scenario_annotations lookup insert eqs
desired_config_map-PlainConfigMap sha s name config = record {
  labels_distinct = (refl, (refl, tt));
  annotations_distinct = annotations-Distinct (leb (length s.name + 7) 63) s.name;
  value_set = refl;
}

update_config_map-twice :
    (e d : ConfigMap)
    → PlainConfigMap d
    → update_config_map (update_config_map e d) d ≡ update_config_map e d
unfolding update_config_map
update_config_map-twice e d k =
    let value = value_or_empty (lookup scenario_config_key d.contents) in
    rw
      (
        set_managed_map_values-twice e.labels d.labels k.labels_distinct,
        set_managed_map_values-twice e.annotations d.annotations k.annotations_distinct,
        insert-same scenario_config_key value (insert scenario_config_key value e.contents)
            (lookup-insert_self scenario_config_key value e.contents),
      )
      refl

update_config_map-created :
    (d : ConfigMap) (owner : Option OwnerReference)
    → PlainConfigMap d
    → let e = record d { controller = owner } in update_config_map e d ≡ e
unfolding update_config_map
update_config_map-created d owner k =
    rw
      (
        set_managed_map_values_self d.labels k.labels_distinct,
        set_managed_map_values_self d.annotations k.annotations_distinct,
        k.value_set,
      )
      refl

module _ (eq : DeepEqual ConfigMap) (s : TrafficScenario) (d : ConfigMap) (k : PlainConfigMap d)
    (api later : ObjectApi ConfigMap) where
  -- A ConfigMap that holds what is desired is left alone.
  config_map_settled :
      (any : ObjectApi ConfigMap) (e : ConfigMap)
      → ensure_controlled_by e.controller s ≡ ok tt
      → update_config_map e d ≡ e
      → apply_config_map eq (record any { get = found e }) s d ≡ (ok tt, [])
  unfolding apply_config_map patch_config_map
  config_map_settled any e owned held =
      let unchanged = (eq.deep_equal_iff e (update_config_map e d)).1 (sym held) in
      rw (apply_config_map, owned, unchanged) refl

  config_map_patches :
      (e : ConfigMap)
      → ensure_controlled_by e.controller s ≡ ok tt
      → eq.deep_equal e (update_config_map e d) ≡ false
      → apply_config_map eq (record api { get = found e }) s d ≡ (
        if api.patch_succeeds then ok tt else err patch_failed,
        patch (update_config_map e d) ∷ [],
      )
  unfolding apply_config_map patch_config_map
  config_map_patches e owned changes = rw (apply_config_map, owned, changes) refl

  owner_controls : ensure_controlled_by (some (owner_of s)) s ≡ ok tt
  unfolding ensure_controlled_by
  owner_controls = rw (eqs_refl s.uid) refl

  pub apply_config_map-latest :
      (g : Found ConfigMap) (u : Unit {0})
      → (apply_config_map eq (record api { get = g }) s d).0 ≡ ok u
      → apply_config_map eq
          (record later { get = latest (apply_config_map eq (record api { get = g }) s d).1 g })
          s
          d
        ≡ (ok tt, [])
  unfolding apply_config_map patch_config_map update_config_map
  apply_config_map-latest not_found u h = elim (Bool-cases api.owner_settable) [
    | inr stuck ↦ absurd (ground (arith, h, stuck))
    | inl settable ↦ rw settable (
        config_map_settled later (record d { controller = some (owner_of s) }) owner_controls
          (update_config_map-created d (some (owner_of s)) k))
  ]
  apply_config_map-latest read_failed u h = cc
  apply_config_map-latest (found e) u h =
      elim (Result-cases (ensure_controlled_by e.controller s)) [
        | inr (x, foreign) ↦ absurd (ground (arith, h, foreign))
        | inl (v, owned) ↦ elim (Bool-cases (eq.deep_equal e (update_config_map e d))) [
          | inl equal ↦
              let holds = sym ((eq.deep_equal_iff e (update_config_map e d)).0 equal) in
              rw (config_map_settled api e owned holds) (config_map_settled later e owned holds)
          | inr changes ↦ rw (config_map_patches e owned changes) (
              config_map_settled later (update_config_map e d) owned
                (update_config_map-twice e d k))
        ]
      ]

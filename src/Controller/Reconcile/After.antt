-- ===== src/Controller/Reconcile/After.antt =====
-- What the API server holds after the steps of a reconciliation.
use kurama.Base.{All, ◌≡◌, refl, Bool, true, List, [], ◌∷◌, ◌++◌, map}
use kurama.Controller.Apply.Latest.{latest}
use kurama.Controller.Apply.Objects.{Found, not_found, found, Write}
use kurama.Controller.Apply.Owned.{asked_for}
use kurama.Controller.Cluster.{
  Action, add_finalizer, delete_runner, delete_step, write_config_map, write_deployment,
  write_status,
}
use kurama.Controller.Workload.{ConfigMap, Deployment}

abbrev pub config_map_after : List Action → Found ConfigMap → Found ConfigMap
config_map_after [] g = g
config_map_after (write_config_map w ∷ rest) g = config_map_after rest (found (asked_for w))
config_map_after (write_deployment w ∷ rest) g = config_map_after rest g
config_map_after (write_status s ∷ rest) g = config_map_after rest g
config_map_after (add_finalizer ∷ rest) g = config_map_after rest g
config_map_after (delete_runner ∷ rest) g = config_map_after rest g
config_map_after (delete_step a ∷ rest) g = config_map_after rest g

abbrev pub deployment_after : List Action → Found Deployment → Found Deployment
deployment_after [] g = g
deployment_after (write_deployment w ∷ rest) g = deployment_after rest (found (asked_for w))
deployment_after (delete_runner ∷ rest) g = deployment_after rest not_found
deployment_after (write_config_map w ∷ rest) g = deployment_after rest g
deployment_after (write_status s ∷ rest) g = deployment_after rest g
deployment_after (add_finalizer ∷ rest) g = deployment_after rest g
deployment_after (delete_step a ∷ rest) g = deployment_after rest g

abbrev pub finalizer_after : List Action → Bool → Bool
finalizer_after [] b = b
finalizer_after (add_finalizer ∷ rest) b = true
finalizer_after (delete_runner ∷ rest) b = finalizer_after rest b
finalizer_after (write_config_map w ∷ rest) b = finalizer_after rest b
finalizer_after (write_deployment w ∷ rest) b = finalizer_after rest b
finalizer_after (write_status s ∷ rest) b = finalizer_after rest b
finalizer_after (delete_step a ∷ rest) b = finalizer_after rest b

-- A step that changes no object but the status of the scenario.
abbrev pub StatusOnly : Action → Type 0
StatusOnly (write_status s) = Unit {0}
StatusOnly add_finalizer = ⊥
StatusOnly delete_runner = ⊥
StatusOnly (write_config_map w) = ⊥
StatusOnly (write_deployment w) = ⊥
StatusOnly (delete_step a) = ⊥

pub finalizer_after-true : (rest : List Action) → finalizer_after rest true ≡ true
finalizer_after-true [] = refl
finalizer_after-true (add_finalizer ∷ rest) = refl
finalizer_after-true (delete_runner ∷ rest) = finalizer_after-true rest
finalizer_after-true (write_config_map w ∷ rest) = finalizer_after-true rest
finalizer_after-true (write_deployment w ∷ rest) = finalizer_after-true rest
finalizer_after-true (write_status s ∷ rest) = finalizer_after-true rest
finalizer_after-true (delete_step a ∷ rest) = finalizer_after-true rest

-- Steps that write only the status leave both objects as they are.
pub deployment_after-StatusOnly :
    (rest : List Action) (g : Found Deployment) → All StatusOnly rest → deployment_after rest g ≡ g
deployment_after-StatusOnly [] g h = refl
deployment_after-StatusOnly (write_status s ∷ rest) g h = deployment_after-StatusOnly rest g h.1
deployment_after-StatusOnly (add_finalizer ∷ rest) g h = absurd h.0
deployment_after-StatusOnly (delete_runner ∷ rest) g h = absurd h.0
deployment_after-StatusOnly (write_config_map w ∷ rest) g h = absurd h.0
deployment_after-StatusOnly (write_deployment w ∷ rest) g h = absurd h.0
deployment_after-StatusOnly (delete_step a ∷ rest) g h = absurd h.0

pub config_map_after-StatusOnly :
    (rest : List Action) (g : Found ConfigMap) → All StatusOnly rest → config_map_after rest g ≡ g
config_map_after-StatusOnly [] g h = refl
config_map_after-StatusOnly (write_status s ∷ rest) g h = config_map_after-StatusOnly rest g h.1
config_map_after-StatusOnly (add_finalizer ∷ rest) g h = absurd h.0
config_map_after-StatusOnly (delete_runner ∷ rest) g h = absurd h.0
config_map_after-StatusOnly (write_config_map w ∷ rest) g h = absurd h.0
config_map_after-StatusOnly (write_deployment w ∷ rest) g h = absurd h.0
config_map_after-StatusOnly (delete_step a ∷ rest) g h = absurd h.0

-- The writes of one application, followed by other steps.
pub deployment_after-writes :
    (ws : List (Write Deployment)) (rest : List Action) (g : Found Deployment)
    → deployment_after (map write_deployment ws ++ rest) g ≡ deployment_after rest (latest ws g)
deployment_after-writes [] rest g = refl
deployment_after-writes (w ∷ ws) rest g = deployment_after-writes ws rest (found (asked_for w))

pub deployment_after-others :
    (ws : List (Write ConfigMap)) (rest : List Action) (g : Found Deployment)
    → deployment_after (map write_config_map ws ++ rest) g ≡ deployment_after rest g
deployment_after-others [] rest g = refl
deployment_after-others (w ∷ ws) rest g = deployment_after-others ws rest g

pub config_map_after-writes :
    (ws : List (Write ConfigMap)) (rest : List Action) (g : Found ConfigMap)
    → config_map_after (map write_config_map ws ++ rest) g ≡ config_map_after rest (latest ws g)
config_map_after-writes [] rest g = refl
config_map_after-writes (w ∷ ws) rest g = config_map_after-writes ws rest (found (asked_for w))

pub config_map_after-others :
    (ws : List (Write Deployment)) (rest : List Action) (g : Found ConfigMap)
    → config_map_after (map write_deployment ws ++ rest) g ≡ config_map_after rest g
config_map_after-others [] rest g = refl
config_map_after-others (w ∷ ws) rest g = config_map_after-others ws rest g

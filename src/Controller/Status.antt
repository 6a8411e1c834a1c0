-- ===== src/Controller/Status.antt =====
-- internal/controller/trafficscenario_status.go: the state of a scenario, the conditions that report
-- it, and what is read off the runner Deployment. Setting one condition is a parameter.
pub mod Conditions
pub mod Readiness
mod Tests
use kurama.Base.{
  if◌then◌else◌, ℤ, pos, ltz, eqz, Bytes, codes, eqs, ℕ, ◌≡◌, Bool, true, false, ◌&&◌, not, Option,
  none, some, List, [], ◌∷◌,
}
use kurama.Base.Result.{}

-- `TrafficScenarioPhase`
pub data Phase : Type 0 where
  progressing ready degraded suspended failed : Phase

abbrev pub condition_ready : Bytes
condition_ready = codes "Ready"

abbrev pub condition_progressing : Bytes
condition_progressing = codes "Progressing"

abbrev pub condition_degraded : Bytes
condition_degraded = codes "Degraded"

abbrev pub condition_suspended : Bytes
condition_suspended = codes "Suspended"

abbrev pub rollout_requeue_interval : ℕ
rollout_requeue_interval = 5_000_000_000

pub record ScenarioState : Type 0 where
  pub phase : Phase
  pub active_condition : Bytes
  pub reason : Bytes
  pub message : Bytes
  pub requeue_after : ℕ

-- `progressingState`
unfoldable pub progressing_state : Bytes → Bytes → ScenarioState
progressing_state reason message = record {
  phase = progressing;
  active_condition = condition_progressing;
  reason = reason;
  message = message;
  requeue_after = rollout_requeue_interval;
}

-- `degradedState`
unfoldable pub degraded_state : Phase → Bytes → Bytes → ScenarioState
degraded_state phase reason message = record {
  phase = phase;
  active_condition = condition_degraded;
  reason = reason;
  message = message;
  requeue_after = 0;
}

-- A condition of the scenario, without the time of its last transition.
pub record Condition : Type 0 where
  pub type : Bytes
  pub status : Bool
  pub observed_generation : ℤ
  pub reason : Bytes
  pub message : Bytes

-- The first condition of a type.
unfoldable pub find_condition : Bytes → List Condition → Option Condition
find_condition type [] = none
find_condition type (c ∷ cs) = if eqs c.type type then some c else find_condition type cs

-- `apimeta.SetStatusCondition`: afterwards the condition of its type is the given one, and those of
-- other types are what they were.
pub record ConditionSetter : Type 0 where
  pub set_status_condition : Condition → List Condition → List Condition
  pub find-set :
      (type : Bytes) (c : Condition) (cs : List Condition)
      → find_condition type (set_status_condition c cs)
        ≡ (if eqs c.type type then some c else find_condition type cs)

pub record Status : Type 0 where
  pub phase : Phase
  pub message : Bytes
  pub observed_generation : ℤ
  pub conditions : List Condition

abbrev pub condition_types : List Bytes
condition_types =
    condition_ready ∷ condition_progressing ∷ condition_degraded ∷ condition_suspended ∷ []

-- The condition of a type for a state.
abbrev pub condition_for : ScenarioState → ℤ → Bytes → Condition
condition_for state generation type = record {
  type = type;
  status = eqs type state.active_condition;
  observed_generation = generation;
  reason = state.reason;
  message = state.message;
}

-- The loop of `updateScenarioStatus` over the types.
unfoldable pub set_conditions :
    ConditionSetter → ScenarioState → ℤ → List Bytes → List Condition → List Condition
set_conditions setter state generation [] cs = cs
set_conditions setter state generation (t ∷ ts) cs =
    set_conditions setter state generation ts
      (setter.set_status_condition (condition_for state generation t) cs)

-- The status that `updateScenarioStatus` writes, unless it is the one that is there already.
unfoldable pub updated_status : ConditionSetter → ScenarioState → ℤ → Status → Status
unfolding set_conditions
updated_status setter state generation before = record {
  phase = state.phase;
  message = state.message;
  observed_generation = generation;
  conditions = set_conditions setter state generation condition_types before.conditions;
}

-- What the reconciler reads of a Deployment; a condition of it has a type, whether it is true or
-- false or neither, a reason and a message.
pub data Truth : Type 0 where
  is_true is_false unknown : Truth

pub record DeploymentCondition : Type 0 where
  pub type : Bytes
  pub status : Truth
  pub reason : Bytes
  pub message : Bytes

pub record Deployment : Type 0 where
  pub spec_replicas : Option ℤ
  pub generation : ℤ
  pub observed_generation : ℤ
  pub updated_replicas : ℤ
  pub available_replicas : ℤ
  pub unavailable_replicas : ℤ
  pub conditions : List DeploymentCondition

-- `deploymentCondition`
unfoldable pub deployment_condition : List DeploymentCondition → Bytes → Option DeploymentCondition
deployment_condition [] type = none
deployment_condition (c ∷ cs) type =
    if eqs c.type type then some c else deployment_condition cs type

abbrev pub desired_replicas : Deployment → ℤ
desired_replicas d = elim d.spec_replicas [ none ↦ pos 1 | some n ↦ n ]

-- The Deployment controller has given up on the rollout.
unfoldable pub deadline_exceeded : Option DeploymentCondition → Bool
deadline_exceeded none = false
deadline_exceeded (some c) =
    (elim c.status [ is_false ↦ true | is_true ↦ false | unknown ↦ false ])
    && eqs c.reason (codes "ProgressDeadlineExceeded")

unfoldable pub replica_failure : Option DeploymentCondition → Bool
replica_failure none = false
replica_failure (some c) = elim c.status [ is_true ↦ true | is_false ↦ false | unknown ↦ false ]

abbrev pub message_of : Option DeploymentCondition → Bytes
message_of none = []
message_of (some c) = c.message

abbrev pub rolled_out : Deployment → Bool
rolled_out d =
    not (ltz d.updated_replicas (desired_replicas d))
    && not (ltz d.available_replicas (desired_replicas d))
    && eqz d.unavailable_replicas (pos 0)

-- `stateFromDeployment`; `progress` is the text with the numbers of replicas.
unfoldable pub state_from_deployment : Bytes → Deployment → ScenarioState
unfolding degraded_state progressing_state deployment_condition deadline_exceeded replica_failure
state_from_deployment progress d =
    let progressing_condition = deployment_condition d.conditions (codes "Progressing") in
    let failure_condition = deployment_condition d.conditions (codes "ReplicaFailure") in
    let rollout = progressing_state (codes "RunnerProgressing") progress in
    if ltz d.observed_generation d.generation
    then rollout
    else if deadline_exceeded progressing_condition
    then degraded_state degraded (codes "RolloutFailed") (message_of progressing_condition)
    else if replica_failure failure_condition
    then degraded_state degraded (codes "RolloutFailed") (message_of failure_condition)
    else if rolled_out d
    then record {
      phase = ready;
      active_condition = condition_ready;
      reason = codes "RunnerReady";
      message = codes "Runner Deployment is ready";
      requeue_after = 0;
    }
    else rollout

-- ===== src/Controller/Status/Tests.antt =====
-- Conditions in a list, and the theorems at concrete inputs.
use kurama.Base.{
  if◌then◌else◌, All, pos, ltz, Bytes, codes, eqs, elem, ◌≡◌, refl, ◌⊎◌, false, none, some, List,
  [], ◌∷◌,
}
use kurama.Controller.Status.{
  ScenarioState, Condition, ConditionSetter, Status, ready, find_condition, updated_status,
  progressing_state, Deployment, is_false, state_from_deployment, deployment_condition,
  deadline_exceeded, degraded_state, degraded,
}
use kurama.Controller.Status.Conditions.{Reported, scenario_conditions, updated_status-conditions}
use kurama.Controller.Status.Readiness.{
  AllThere, GaveUp, Failing, condition_of, delay_of, state_from_deployment_lem,
}

prepended :
    (type : Bytes) (c : Condition) (cs : List Condition)
    → find_condition type (c ∷ cs) ≡ (if eqs c.type type then some c else find_condition type cs)
unfolding find_condition
prepended type c cs = refl

-- The newest condition stands first.
abbrev prepend_setter : ConditionSetter
prepend_setter = record { set_status_condition = λ c cs. c ∷ cs; find-set = prepended }

abbrev before : Status
before = record { phase = ready; message = []; observed_generation = pos 1; conditions = [] }

abbrev rollout : ScenarioState
rollout = progressing_state (codes "RunnerProgressing") (codes "0/1")

conditions_example :
    let after = (updated_status prepend_setter rollout (pos 2) before).conditions in
    All (Reported rollout (pos 2) after) scenario_conditions
    × ((type : Bytes)
        → elem type scenario_conditions ≡ false
        → find_condition type after ≡ find_condition type before.conditions)
conditions_example = updated_status-conditions prepend_setter rollout (pos 2) before

abbrev stuck : Deployment
stuck = record {
  spec_replicas = none;
  generation = pos 2;
  observed_generation = pos 2;
  updated_replicas = pos 1;
  available_replicas = pos 1;
  unavailable_replicas = pos 0;
  conditions =
      record {
        type = codes "Progressing";
        status = is_false;
        reason = codes "ProgressDeadlineExceeded";
        message = codes "too slow";
      }
      ∷ [];
}

stuck_is_degraded :
    state_from_deployment [] stuck
    ≡ degraded_state degraded (codes "RolloutFailed") (codes "too slow")
unfolding state_from_deployment deployment_condition deadline_exceeded eqs
stuck_is_degraded = refl

state_example :
    let state = state_from_deployment [] stuck in
    ((state.phase ≡ ready → AllThere stuck) × (AllThere stuck → state.phase ≡ ready))
    × (state.phase ≡ degraded
        → (ltz stuck.observed_generation stuck.generation ≡ false) × (GaveUp stuck ⊎ Failing stuck))
    × (state.active_condition ≡ condition_of state.phase)
    × (state.requeue_after ≡ delay_of state.phase)
state_example = state_from_deployment_lem [] stuck

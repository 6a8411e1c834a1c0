-- ===== src/Controller/Status/Conditions.antt =====
-- What the conditions and the state say.
use kurama.Base.{
  if◌then◌else◌, Bool-cases, All, ℤ, Bytes, codes, eqs→eq, eqs_refl, eqs_iff, eqs, elem, ◌≡◌, refl,
  ◌∙◌, inl, inr, true, false, some, List, [], ◌∷◌, arith,
}
use kurama.Controller.Status.{
  ScenarioState, Condition, ConditionSetter, Status, find_condition, condition_types, condition_for,
  set_conditions, updated_status,
}

find-set_conditions :
    (setter : ConditionSetter) (state : ScenarioState) (generation : ℤ) (ts : List Bytes)
    (cs : List Condition) (type : Bytes)
    → find_condition type (set_conditions setter state generation ts cs) ≡ (
        if elem type ts then some (condition_for state generation type) else find_condition type cs)
unfolding set_conditions elem
find-set_conditions setter state generation [] cs type = refl
find-set_conditions setter state generation (t ∷ ts) cs type =
    let c = condition_for state generation t in
    let later =
      find-set_conditions setter state generation ts (setter.set_status_condition c cs) type in
    elim (Bool-cases (eqs type t)) [
      | inl same ↦
          let e : type ≡ t = eqs→eq type t same in
          let found : find_condition type (setter.set_status_condition c cs)
              ≡ some (condition_for state generation type) =
            rw e (setter.find-set t c cs ∙ ground (arith, eqs_refl t)) in
          rw (later, found, same) (ground arith)
      | inr other ↦
          let differ : eqs t type ≡ false = ground (arith, other, eqs_iff t type, eqs_iff type t) in
          let kept : find_condition type (setter.set_status_condition c cs)
              ≡ find_condition type cs =
            setter.find-set type c cs ∙ ground (arith, differ) in
          rw (later, kept, other) refl
    ]

-- A condition that reports a state: it is true exactly when it is the active one.
pub record Reported (state : ScenarioState) (generation : ℤ) (cs : List Condition) (type : Bytes)
    : Type 0 where
  pub condition : Condition
  pub found : find_condition type cs ≡ some condition
  pub true_active : condition.status ≡ true → type ≡ state.active_condition
  pub active_true : type ≡ state.active_condition → condition.status ≡ true
  pub observed_eq : condition.observed_generation ≡ generation
  pub reason_eq : condition.reason ≡ state.reason
  pub message_eq : condition.message ≡ state.message

-- The conditions of a scenario.
abbrev pub scenario_conditions : List Bytes
scenario_conditions =
    codes "Ready" ∷ (codes "Progressing" ∷ (codes "Degraded" ∷ (codes "Suspended" ∷ [])))

module _ (setter : ConditionSetter) (state : ScenarioState) (generation : ℤ) (before : Status) where
  updated_status-Reported :
      (type : Bytes)
      → elem type condition_types ≡ true
      → Reported state generation (updated_status setter state generation before).conditions type
  unfolding updated_status
  updated_status-Reported type known = record {
    condition = condition_for state generation type;
    found =
        find-set_conditions setter state generation condition_types before.conditions type
        ∙ rw known refl;
    true_active = λ h. eqs→eq type state.active_condition h;
    active_true = λ h. ground (arith, h, eqs_refl state.active_condition);
    observed_eq = refl;
    reason_eq = refl;
    message_eq = refl;
  }

  -- After an update the conditions Ready, Progressing, Degraded and Suspended of the scenario are
  -- there, each with the generation, the reason and the message of the state, and true exactly when
  -- it is the active one; conditions of other types are what they were.
  pub updated_status-conditions :
      let after = (updated_status setter state generation before).conditions in
      All (Reported state generation after) scenario_conditions
      × ((type : Bytes)
          → elem type scenario_conditions ≡ false
          → find_condition type after ≡ find_condition type before.conditions)
  unfolding updated_status elem eqs
  updated_status-conditions = (
    (
      updated_status-Reported (codes "Ready") refl,
      (
        updated_status-Reported (codes "Progressing") refl,
        (
          updated_status-Reported (codes "Degraded") refl,
          (updated_status-Reported (codes "Suspended") refl, tt),
        ),
      ),
    ),
    λ type other.
        find-set_conditions setter state generation condition_types before.conditions type
        ∙ rw other refl,
  )

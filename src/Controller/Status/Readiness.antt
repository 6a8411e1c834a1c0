-- ===== src/Controller/Status/Readiness.antt =====
-- What the state of a scenario says of its Deployment.
use kurama.Base.{
  Bool-cases, ℤ, pos, ltz, eqz→eq, eqz_refl, Bytes, codes, eqs→eq, eqs_refl, ℕ, ◌≡◌, refl, ◌⊎◌, inl,
  inr, true, false, Option, none, some, arith,
}
use kurama.Controller.Status.{
  Phase, progressing, ready, degraded, suspended, failed, Deployment, DeploymentCondition, is_true,
  is_false, deployment_condition, deadline_exceeded, replica_failure, state_from_deployment,
  degraded_state, progressing_state,
}

-- The Deployment controller has given up on the rollout.
pub record GaveUp (d : Deployment) : Type 0 where
  pub condition : DeploymentCondition
  pub found : deployment_condition d.conditions (codes "Progressing") ≡ some condition
  pub is_false_eq : condition.status ≡ is_false
  pub reason_eq : condition.reason ≡ codes "ProgressDeadlineExceeded"

-- Replicas cannot be created.
pub record Failing (d : Deployment) : Type 0 where
  pub condition : DeploymentCondition
  pub found : deployment_condition d.conditions (codes "ReplicaFailure") ≡ some condition
  pub is_true_eq : condition.status ≡ is_true

-- The replicas that are wanted: one if nothing is said.
abbrev pub wanted : Option ℤ → ℤ
wanted none = pos 1
wanted (some n) = n

-- All replicas of the latest generation are there.
pub record AllThere (d : Deployment) : Type 0 where
  pub seen : ltz d.observed_generation d.generation ≡ false
  pub going : ¬ GaveUp d
  pub creating : ¬ Failing d
  pub updated : ltz d.updated_replicas (wanted d.spec_replicas) ≡ false
  pub available : ltz d.available_replicas (wanted d.spec_replicas) ≡ false
  pub none_missing : d.unavailable_replicas ≡ pos 0

deadline_exceeded-some :
    (o : Option DeploymentCondition)
    → deadline_exceeded o ≡ true
    → (c : DeploymentCondition) × (o ≡ some c)
      × (c.status ≡ is_false)
      × (c.reason ≡ codes "ProgressDeadlineExceeded")
unfolding deadline_exceeded
deadline_exceeded-some none h = absurd (ground (arith, h))
deadline_exceeded-some (some c) h = (
  c,
  refl,
  ground (arith, h),
  eqs→eq c.reason (codes "ProgressDeadlineExceeded") (ground (arith, h)),
)

replica_failure-some :
    (o : Option DeploymentCondition)
    → replica_failure o ≡ true
    → (c : DeploymentCondition) × (o ≡ some c) × (c.status ≡ is_true)
unfolding replica_failure
replica_failure-some none h = absurd (ground (arith, h))
replica_failure-some (some c) h = (c, refl, ground (arith, h))

deadline_exceeded-GaveUp :
    (d : Deployment)
    → deadline_exceeded (deployment_condition d.conditions (codes "Progressing")) ≡ true
    → GaveUp d
deadline_exceeded-GaveUp d h =
    let (c, found, status, reason) =
      deadline_exceeded-some (deployment_condition d.conditions (codes "Progressing")) h in
    record { condition = c; found = found; is_false_eq = status; reason_eq = reason }

GaveUp-deadline_exceeded :
    (d : Deployment)
    → GaveUp d
    → deadline_exceeded (deployment_condition d.conditions (codes "Progressing")) ≡ true
unfolding deadline_exceeded
GaveUp-deadline_exceeded d g =
    rw (g.found, g.is_false_eq, g.reason_eq, deadline_exceeded)
      (eqs_refl (codes "ProgressDeadlineExceeded"))

replica_failure-Failing :
    (d : Deployment)
    → replica_failure (deployment_condition d.conditions (codes "ReplicaFailure")) ≡ true
    → Failing d
replica_failure-Failing d h =
    let (c, found, status) =
      replica_failure-some (deployment_condition d.conditions (codes "ReplicaFailure")) h in
    record { condition = c; found = found; is_true_eq = status }

Failing-replica_failure :
    (d : Deployment)
    → Failing d
    → replica_failure (deployment_condition d.conditions (codes "ReplicaFailure")) ≡ true
unfolding replica_failure
Failing-replica_failure d f = rw (f.found, f.is_true_eq, replica_failure) refl

-- The type of the condition that is true in a phase.
abbrev pub condition_of : Phase → Bytes
condition_of ready = codes "Ready"
condition_of progressing = codes "Progressing"
condition_of degraded = codes "Degraded"
condition_of failed = codes "Degraded"
condition_of suspended = codes "Suspended"

-- After how many nanoseconds the reconciler comes back, 0 for never.
abbrev pub delay_of : Phase → ℕ
delay_of progressing = 5_000_000_000
delay_of ready = 0
delay_of degraded = 0
delay_of failed = 0
delay_of suspended = 0

module _ (progress : Bytes) (d : Deployment) where
  ready-AllThere : (state_from_deployment progress d).phase ≡ ready → AllThere d
  unfolding state_from_deployment degraded_state progressing_state
  ready-AllThere h = record {
    seen = ground (arith, h);
    going = λ g. ground (arith, h, GaveUp-deadline_exceeded d g);
    creating = λ f. ground (arith, h, Failing-replica_failure d f);
    updated = ground (arith, h);
    available = ground (arith, h);
    none_missing = eqz→eq d.unavailable_replicas (pos 0) (ground (arith, h));
  }

  AllThere-ready : AllThere d → (state_from_deployment progress d).phase ≡ ready
  unfolding state_from_deployment degraded_state progressing_state
  AllThere-ready a =
      elim (Bool-cases
        (deadline_exceeded (deployment_condition d.conditions (codes "Progressing")))) [
          | inl given_up ↦ absurd (a.going (deadline_exceeded-GaveUp d given_up))
          | inr going ↦
              elim (Bool-cases
                (replica_failure (deployment_condition d.conditions (codes "ReplicaFailure")))) [
                  | inl failing ↦ absurd (a.creating (replica_failure-Failing d failing))
                  | inr creating ↦ ground (
                    arith,
                    a.seen,
                    going,
                    creating,
                    a.updated,
                    a.available,
                    a.none_missing,
                    eqz_refl d.unavailable_replicas,
                  )
                ]
        ]

  degraded_why :
      (state_from_deployment progress d).phase ≡ degraded
      → (ltz d.observed_generation d.generation ≡ false) × (GaveUp d ⊎ Failing d)
  unfolding state_from_deployment degraded_state progressing_state
  degraded_why h = (
    ground (arith, h),
    elim (Bool-cases
        (deadline_exceeded (deployment_condition d.conditions (codes "Progressing")))) [
          | inl given_up ↦ inl (deadline_exceeded-GaveUp d given_up)
          | inr going ↦ inr (replica_failure-Failing d (ground (arith, h, going)))
        ],
  )

  -- A Deployment makes the scenario ready exactly when its controller has seen the latest
  -- generation, has not given up on the rollout, reports no failure to create replicas, and has
  -- updated and made available all replicas that are wanted with none unavailable. Only a
  -- Deployment whose latest generation was seen and whose rollout was given up or whose replicas
  -- cannot be created makes it degraded. The active condition is the one of the phase, and the
  -- reconciler comes back, after five seconds, exactly while the rollout is progressing.
  pub state_from_deployment_lem :
      let state = state_from_deployment progress d in
      ((state.phase ≡ ready → AllThere d) × (AllThere d → state.phase ≡ ready))
      × (state.phase ≡ degraded
          → (ltz d.observed_generation d.generation ≡ false) × (GaveUp d ⊎ Failing d))
      × (state.active_condition ≡ condition_of state.phase)
      × (state.requeue_after ≡ delay_of state.phase)
  unfolding state_from_deployment degraded_state progressing_state
  state_from_deployment_lem =
      ((ready-AllThere, AllThere-ready), degraded_why, ground arith, ground arith)

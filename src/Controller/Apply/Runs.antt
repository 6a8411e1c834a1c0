-- ===== src/Controller/Apply/Runs.antt =====
-- What the container of the runner and the security contexts of a pod are made to be.
use kurama.Base.{
  if◌then◌else◌, Bool-cases, codes, eqs→eq, eqs_iff, eqs, ◌≡◌, refl, inl, inr, Bool, true, false,
  Option, none, some, List, [], ◌∷◌, arith,
}
use kurama.Controller.Apply.{
  apply_container, apply_managed_runner_container, apply_managed_container_security_context,
  apply_managed_pod_security_context,
}
use kurama.Controller.Workload.{Container, SecurityContext, PodSecurityContext}

abbrev pub is_runner : Container → Bool
is_runner c = eqs c.name (codes "runner")

-- The first container of the runner.
unfoldable pub find_runner : List Container → Option Container
find_runner [] = none
find_runner (c ∷ cs) = if is_runner c then some c else find_runner cs

-- A security context has the settings that are managed.
abbrev pub SecuredAs : Option SecurityContext → Option SecurityContext → Type 0
SecuredAs none a = Unit {0}
SecuredAs (some d) none = ⊥
SecuredAs (some d) (some a) =
    (a.privileged ≡ d.privileged)
    × (a.allow_privilege_escalation ≡ d.allow_privilege_escalation)
    × (a.read_only_root_filesystem ≡ d.read_only_root_filesystem)
    × (a.dropped_capabilities ≡ d.dropped_capabilities)

pub SecuredAs-self : (x : Option SecurityContext) → SecuredAs x x
SecuredAs-self none = tt
SecuredAs-self (some d) = (refl, refl, refl, refl)

SecuredAs-apply :
    (e d : Option SecurityContext) → SecuredAs d (apply_managed_container_security_context e d)
unfolding apply_managed_container_security_context
SecuredAs-apply e none = tt
SecuredAs-apply none (some d) = (refl, refl, refl, refl)
SecuredAs-apply (some e) (some d) = (refl, refl, refl, refl)

-- The same for a pod.
abbrev pub PodSecuredAs : Option PodSecurityContext → Option PodSecurityContext → Type 0
PodSecuredAs none a = Unit {0}
PodSecuredAs (some d) none = ⊥
PodSecuredAs (some d) (some a) =
    (a.run_as_non_root ≡ d.run_as_non_root) × (a.seccomp_profile ≡ d.seccomp_profile)

pub PodSecuredAs-apply :
    (e d : Option PodSecurityContext) → PodSecuredAs d (apply_managed_pod_security_context e d)
unfolding apply_managed_pod_security_context
PodSecuredAs-apply e none = tt
PodSecuredAs-apply none (some d) = (refl, refl)
PodSecuredAs-apply (some e) (some d) = (refl, refl)

-- What the runner's container is made to run.
pub record RunsAs (d c : Container) : Type 0 where
  pub image_eq : c.image ≡ d.image
  pub command_eq : c.command ≡ d.command
  pub args_eq : c.args ≡ d.args
  pub env_eq : c.env ≡ d.env
  pub mounts_eq : c.volume_mounts ≡ d.volume_mounts
  pub ports_eq : c.ports ≡ d.ports
  pub resources_eq : c.resources ≡ d.resources
  pub secured : SecuredAs d.security_context c.security_context
  pub startup_eq : c.startup_probe ≡ d.startup_probe
  pub liveness_eq : c.liveness_probe ≡ d.liveness_probe
  pub readiness_eq : c.readiness_probe ≡ d.readiness_probe

pub find_runner-apply :
    (es : List Container) (d : Container)
    → is_runner d ≡ true
    → (c : Container) × (find_runner (apply_managed_runner_container es d) ≡ some c) × RunsAs d c
unfolding find_runner apply_managed_runner_container apply_container
find_runner-apply [] d r = (
  d,
  rw r refl,
  record {
    image_eq = refl;
    command_eq = refl;
    args_eq = refl;
    env_eq = refl;
    mounts_eq = refl;
    ports_eq = refl;
    resources_eq = refl;
    secured = SecuredAs-self d.security_context;
    startup_eq = refl;
    liveness_eq = refl;
    readiness_eq = refl;
  },
)
find_runner-apply (e ∷ es) d r = elim (Bool-cases (eqs e.name d.name)) [
  | inl same ↦
      let runner : is_runner e ≡ true = rw (eqs→eq e.name d.name same) r in
      (
        apply_container e d,
        rw (same, runner) refl,
        record {
          image_eq = refl;
          command_eq = refl;
          args_eq = refl;
          env_eq = refl;
          mounts_eq = refl;
          ports_eq = refl;
          resources_eq = refl;
          secured = SecuredAs-apply e.security_context d.security_context;
          startup_eq = refl;
          liveness_eq = refl;
          readiness_eq = refl;
        },
      )
  | inr differ ↦
      let (c, there, runs) = find_runner-apply es d r in
      let apart : is_runner e ≡ false = ground (
        arith,
        differ,
        eqs_iff e.name (codes "runner"),
        eqs_iff d.name (codes "runner"),
        eqs_iff e.name d.name,
        r,
      ) in
      (c, rw (differ, apart) there, runs)
]

-- ===== src/System.antt =====
-- The controller and the runner together: what internal/controller writes is what cmd/runner reads.
pub mod Agreement
pub mod Components
pub mod Assembles
pub mod Starts
mod Tests
use kurama.Base.{if◌then◌else◌, Bytes, codes, eqs, List, [], ◌∷◌}
use kurama.Api.{TrafficScenario}
use kurama.Controller.Desired.{runner_environment}
use kurama.Controller.Workload.{EnvValue, literal, field_ref, EnvVar}
use kurama.Runtime.{StoreSettings, store_settings_from_env}

-- The environment of a container in a pod of a namespace, as `os.Getenv` reads it: a variable that is
-- not set is empty, and the only field that is referred to is the namespace.
abbrev value_in : Bytes → EnvValue → Bytes
value_in namespace (literal v) = v
value_in namespace (field_ref path) =
    if eqs path (codes "metadata.namespace") then namespace else []

unfoldable pub getenv : Bytes → List EnvVar → Bytes → Bytes
getenv namespace [] name = []
getenv namespace (v ∷ vs) name =
    if eqs v.name name then value_in namespace v.value else getenv namespace vs name

-- The settings that the runner of a scenario reads.
unfoldable pub runner_settings : TrafficScenario → Bytes → StoreSettings
unfolding getenv
runner_settings s redis_address =
    store_settings_from_env (getenv s.namespace (runner_environment s redis_address))

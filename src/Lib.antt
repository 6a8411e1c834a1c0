-- ===== src/Lib.antt =====
-- Kurama sends HTTP traffic to a service according to a Kubernetes resource, a TrafficScenario. A
-- controller turns the resource into a runner Deployment; the runner reads a configuration, plans a
-- rate, reserves requests from a limiter, and executes operations whose templates take values from
-- stores. This library models the runner, internal/runner and its packages, the state that
-- cmd/runner sets up for it, and the controller, internal/controller; and it composes the two.
--
-- Modules and the code they are about:
--   Base            helpers: native lists, Go's integers and strings, results of fallible calls,
--                   contexts, Go maps, and what the runner relies on of Redis (hashes, lists, expiry)
--   Profile         internal/runner/profile: batch sizes and delays. Profile/Accepts is about what
--                   `New` accepts, Profile/Pacing about the time that a batch takes
--   RateLimit       internal/runner/ratelimit: the guards of a call. RateLimit/Budget is the abstract
--                   budget of one window, RateLimit/Contract what a limiter with such a budget
--                   promises; RateLimit/Local (local.go) and RateLimit/Redis (redis_rate_limiter.go
--                   and acquire_rate_limit.lua) fill the contract; RateLimit/Instrumented
--                   (instrumented.go) wraps any limiter
--   RedisKey        internal/runner/rediskey/key.go: the keys of a scenario and their cleanup
--   RateSchedule    internal/runner/rateschedule: fixed and shared random rates, with
--                   select_uniform_window.lua, and the decorator
--   Config          the records and limits of internal/runner/config.go
--   Names, Template, JsonPointer
--                   names, templates and JSON pointers of operation_validation.go,
--                   executor_variables.go and executor_capture.go
--   Store           store.go, store_validation.go, redis_store.go and instrumented_store.go. Store/Pool
--                   is the contract of a bounded pool, which Store/Memory and Store/Redis fill
--   Validation      config_validation.go and operation_validation.go
--   Execution       what an execution reports, from executor.go
--   Executor        executor.go, executor_variables.go, executor_headers.go, executor_http.go and
--                   executor_capture.go: Executor/Execute composes the steps, Executor/Outcomes and
--                   Executor/Success are about what an outcome says, Executor/Responses and
--                   Executor/Confined about responses and requests
--   Scheduler       weighted_picker.go, scheduler.go, scheduler_options.go and scheduler_execution.go
--   Api             api/v1alpha1/trafficscenario_types.go
--   Controller      internal/controller. Controller/Backends and Controller/Conversion
--                   (trafficscenario_config.go), Controller/Secrets (trafficscenario_secrets.go),
--                   Controller/Resources (trafficscenario_runner_pod.go and the bounds of
--                   trafficscenario_validation.go) and Controller/Validation work out what a scenario
--                   asks for; Controller/Workload has the Kubernetes objects, Controller/Desired
--                   (trafficscenario_resources.go) makes them, Controller/Apply
--                   (trafficscenario_apply.go) writes them; Controller/Finalizer
--                   (trafficscenario_finalizer.go), Controller/Status (trafficscenario_status.go) and
--                   Controller/Identity (trafficscenario_identity.go) serve Controller/Reconcile
--                   (trafficscenario_controller.go), which works on the answers of a
--                   Controller/Cluster. Reconcile/Justified and Reconcile/Writes are about what one
--                   reconciliation does, Reconcile/After and Reconcile/Rests about the next one
--   Runtime         cmd/runner/runtime.go: how a runner sets up its store, limiter and schedule, and
--                   what becomes of its Redis client
--   System          the environment and the configuration that the controller writes, read by the
--                   runner
--
-- Stateful code passes its state: an interface is a record of functions over a state type, and an
-- implementation is such a record. An error is a constructor in place of its text. Numbers are the
-- native naturals, Go's signed integers the type ℤ over them; products of durations and counts stay
-- below 2^63 under the limits of Config. Mutexes make each method one step. A run of the scheduler
-- is a list of events, cut off after a number of iterations. `Template.scan` has the length of the
-- text as its fuel and the loop of a slot the number of operations; both are enough, the first by a
-- lemma of Template/Scan. The digits of an index have the index and one as fuel, and no number has
-- more digits.
--
-- Parameters: random draws (below their bound), the commands of Redis on hashes and lists (records
-- of operations and laws, with plain instances in Base; a command on a hash is told the time, and a
-- key is there until its deadline has passed), the pattern match of SCAN, the parser of URLs, the
-- clock and the waits of a run, and for the executor HTTP, files, JSON, escaping and generated
-- values; for the controller the answers of the API server to each call of one reconciliation, the
-- digest of names, the setting of one condition, `Semantic.DeepEqual` (which decides equality), the
-- JSON of a configuration, the checks of Kubernetes names and the order of quantities; for the state
-- of a runner `os.Getenv` and the answers of Redis to its first calls. The scheduler takes any
-- executor of operations. Fields of Kubernetes objects that the controller neither reads nor sets
-- are one field `other` of a record.
--
-- Not modelled: the generated deep copies (a value is its own copy), the readiness of a runner, the
-- settings of the HTTP client (its timeout and its refusal of redirects), decoding JSON, the flags,
-- servers and signals of the commands in cmd, the registration with the manager, Prometheus
-- collectors, events and logging.
pub mod Base
pub mod Api
pub mod Profile
pub mod RateLimit
pub mod RedisKey
pub mod RateSchedule
pub mod Config
pub mod Names
pub mod Store
pub mod Template
pub mod JsonPointer
pub mod Execution
pub mod Executor
pub mod Validation
pub mod Scheduler
pub mod Controller
pub mod Runtime
pub mod System

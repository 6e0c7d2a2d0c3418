-- ===== src/Lib.antt =====
-- The AxonOps operator. One Kubernetes controller installs AxonOps itself (the server, its time
-- series and search databases, the dashboard) from an AxonOpsPlatform resource. The others bring
-- resources of an AxonOps cluster (Kafka topics, ACLs and connectors, scheduled and adaptive
-- repairs, log collectors, silence windows, healthchecks, backups) to the state that custom resources describe,
-- over the HTTP API of AxonOps.
--
-- The `Reconcile` of the platform controller creates or updates the objects of each component in the
-- order in which they depend on each other, waits where one is not ready, deletes what is no longer
-- asked for, and writes the status. It talks to the Kubernetes API alone.
--
-- The `Reconcile` of another controller is called with the key of an object. It fetches the object,
-- puts a finalizer on it, resolves the AxonOpsConnection that the object names to an API client,
-- calls the API if the object is not up to date, and writes the object's status. When the object is
-- being deleted it deletes what the API holds, if that can be deleted, and removes the finalizer.
-- Everything that a reconcile leaves behind is in these calls, so they are the state of the model.
--
-- The files, and the code that each is about:
--   Prelude       library names passed on, Boolean tests on numbers, text helpers
--     Tests         the tests and their reading as propositions
--     Text          decimals, search and comparison in texts, as Go's `strings` has them
--   Errors        the errors of internal/axonops/client.go and their wrapping; what condition
--                 messages show of them (internal/controller/common/connection.go)
--     Safe          laws of condition messages
--   Json          JSON values, and what encoding/json makes of them for the types of
--                 internal/axonops/types.go
--   K8s           objects, conditions and outcomes; the functions of the Kubernetes libraries that
--                 the controllers call, as a parameter, with what the code relies on
--   Status        the conditions that the controllers set
--   Http          requests, responses, connections, the world, and runs
--     Trace         the requests, updates and status updates of a run
--   Client        internal/axonops/client.go: `NewClient`, `DefaultTokenType`, `setAuthHeader`,
--                 `checkBodyError`, and the skeleton that the methods share
--     Escape        `p`, that is `url.PathEscape`
--     Urls          the shape of the URLs of the Kafka methods
--     Kafka         the Kafka methods, with their payloads and URLs
--     Repair        the methods on scheduled repairs
--     Collector     the methods on log collectors
--     Silence       the methods on silence windows
--     Backup        the methods on scheduled snapshots
--     Adaptive      the methods on adaptive repair settings
--     Healthcheck   the methods on healthchecks
--       Records       their payload, in JSON
--       Decode        what is read of it
--     Limit         `limitTransport` and `limitedBody`
--     Laws          laws of clients
--   Connection    internal/controller/common/connection.go: `ResolveAPIClient`, `BuildHostURL`,
--                 `HandleConnectionPaused`
--     Laws          laws of resolving a connection
--   Metrics       internal/metrics/metrics.go and the deferred block of every `Reconcile`
--   Kafka         internal/controller/kafka and api/kafka/v1alpha1
--     Topic         `AxonOpsKafkaTopic`: the resource, and the pure parts of its controller
--       Steps         `Reconcile`, `handleDeletion`, `setFailedCondition`
--       Sync          what a sync sends
--       Records       what a sync writes
--       Deletion      what a deletion does
--       Settled       what later reconciles do with a topic that was synced
--       Observed      what the metrics see
--     Acl           `AxonOpsKafkaACL`, likewise: Steps, Sync, Records
--     Connector     `AxonOpsKafkaConnector`, likewise: Steps, Records
--   Repair        internal/controller/alerts/axonopsscheduledrepair_controller.go: the resource, the
--                 payload, the drift check
--     Steps         `Reconcile`, `checkDrift`, `handleDeletion`
--     Params        laws of the payload and of the search by tag
--     Sync          laws of a sync
--     Repeats       where a repair is created a second time
--   Collector     internal/controller/alerts/axonopslogcollector_controller.go: the resource, and how
--                 the list of collectors of a cluster is changed
--     Steps         `Reconcile`, `checkDrift`, `handleDeletion`
--     Merge         laws of the list
--     Sync          what a sync and a deletion send
--     Records       what a reconcile records
--   Silence       internal/controller/alerts/axonopssilencewindow_controller.go: the resource and its
--                 window
--     Steps         `Reconcile`, `checkDrift`, `handleDeletion`
--     Sync          what a sync sends and records
--   Backup        internal/controller/backups/axonopsbackup_controller.go and
--                 api/backups/v1alpha1/axonopsbackup_types.go: the resource and its payload
--     Remote        the credentials and the configuration of the remote storage
--       Lines         texts of lines `key = value`, and how they are read
--       Reading       the text of a configuration, read back
--     Steps         `Reconcile`, `checkDrift`, `handleDeletion`
--     Tables        which tables a payload asks for
--     Sync          what a sync sends
--     Records       what a failure records
--   Adaptive      internal/controller/alerts/axonopsadaptiverepair_controller.go and
--                 api/alerts/v1alpha1/axonopsadaptiverepair_types.go: the resource and its settings
--     Steps         `Reconcile`, `checkDrift`, `handleDeletion`, `updateReadyStatus`
--     Settled       where the API holds the settings
--   Healthcheck   internal/controller/alerts/axonopshealthcheck{http,tcp,shell}_controller.go: what the
--                 three reconcilers share, for a `Kind` of healthcheck with its laws
--     Steps         `Reconcile`, `checkDrift`, `handleDeletion`
--     Http, Tcp, Shell
--                   the three kinds, with api/alerts/v1alpha1/axonopshealthcheck{http,tcp,shell}_types.go
--     Accepted      what a sync leaves when the API accepts its update
--     Concurrent    two reconcilers of different kinds at once
--     Lists         laws of overwriting an entry and of leaving one out
--     Sync          what a sync and a deletion send
--     Records       what a reconcile records
--   Image         internal/controller/image_registry.go
--   ConfigHash    internal/controller/config_hash.go
--     Order         the checksum and the order of a map
--   Platform      internal/controller/axonopsplatform_controller.go and
--                 api/v1alpha1/axonopsplatform_types.go
--     Types         the resource, and the tests and names that depend on it alone
--     Objects       the Kubernetes objects that the controller writes
--     Cluster       the Kubernetes API: a store for each kind of object; steps that may fail
--     Password      `generateRandomPassword`
--       Classes       what a password holds
--     Secrets       `ensureAuthenticationSecret`, `ensureKeystorePasswordSecret`, and what they call
--       Retention     `shouldRetainCredentials`
--       Origin        how credentials come about
--       Stable        the credentials over several reconciles
--     Certificates  the `ensure...Certificate` methods, the cluster issuer
--     Services      the `ensure...Service` and `ensure...ServiceAccount` methods
--     Cleanup       the `cleanup...` and `delete...` methods
--       Order         what a clean-up deletes, and in which order
--     Config        `buildServerConfig`, `ensureServerConfigSecret`, the dashboard's configuration
--       Text          the text of the templates
--     Workloads     what the stateful sets and the deployment share
--       Timeseries    `ensureTimeseriesStatefulSet`
--       Search        `ensureSearchStatefulSet`
--       Server        `ensureServerStatefulSet`
--       Dashboard     `ensureDashboardDeployment`
--       Mounts, Files, Ports, Credentials
--                     what the containers mount, read and listen on, against what there is
--     Ingresses     ingresses, HTTP routes and gateways
--       Routes        what the routes are attached to
--     Steps         how a component is put together, and whether it is ready
--     Status        the conditions of the resource
--       Conditions    what the last status update says
--     Components    the part of `Reconcile` for the server and the dashboard
--       Gates         the order in which the components come up
--     Databases     the part of `Reconcile` for the two databases
--     Reconcile     `Reconcile` up to these parts
--       Paused        what is written while the resource is paused
--       Deletion      what becomes of a platform that is deleted
--   Tests         a world to run against, and the results at concrete inputs
--
-- State. The Kubernetes API server, the AxonOps API, the clock and the source of UUIDs are the
-- operations of an `Env W O` on a world `W` of which nothing is assumed: other writers and any
-- failure are among its behaviours. A `Run` holds the world and the calls made so far, the last
-- first. A step is a function in `M`, a state monad over runs; a reconcile composes the steps as the
-- code does, early returns as branches. The platform controller has a `Cluster W` in place of `Env`,
-- with the get, create-or-update and delete of each kind of object, and records what it writes.
-- `CreateOrUpdate` is given the mutation as a function of the object that is there, so what the code
-- leaves as it is stays as the store has it. A `Step` is such a function with a result that may be
-- an error. `Outcome` is `(ctrl.Result, error)`, delays in seconds. Where the code changes an object
-- in place and hands it to a call, the model hands on the changed record.
--
-- Parameters. `K8s` holds the functions of `meta`, `controllerutil`, `apierrors` and
-- `client.IgnoreNotFound`; `K8s.IsLawful` states what setting and removing a condition do to a lookup,
-- and what adding and removing a finalizer do to a test for it. `Std` holds `%q`,
-- `time.ParseDuration`, `url.Parse`, and what encoding/json makes of a value that it decodes to
-- `any` and encodes again. A reader of a response body returns no more bytes than it is asked for.
-- `Tools` holds what the platform controller uses of libraries: `%q`, lower case, SHA-256, the YAML
-- printer, `SetControllerReference`, the operator's flags. `IsFaithful` states that a store of
-- secrets reads back what was written to it, and `IsRandom` that a random number is below its bound.
--
-- Where a Go pointer, map or string may be unset, the model has an Option, an empty list, or the
-- zero value, as the code tests it; an index out of range, a panic in Go, is an error.
--
-- Numbers. Replica and partition counts, ports, generations and counts of a specification are
-- natural numbers, since the validation of the custom resources makes them so; durations are
-- integers, since the code tests their sign, and so is the status that a healthcheck expects. No arithmetic on them can overflow: the code only
-- compares and prints them. The bytes left of a response body are a natural number: the code's
-- `left` goes below zero only between two statements of one read.
--
-- Not modelled. The text grammar of JSON (a response carries its decoded value), the order in which
-- Go ranges over a map (a map is a list in the order of a run, or its keys in that order and a
-- function), the transition time of a condition, logs, tracing, durations of metrics, the TLS
-- settings and the logging transport. A response body is read whole. Every recursion is structural;
-- the printing of a number runs on fuel, one more than the number, and more fuel gives the same
-- digits (Prelude/Text). `SetupWithManager`, which says what the controllers watch, and the metrics
-- that the platform controller counts at each CreateOrUpdate are not modelled. Neither are the
-- controllers of metric and log alerts, alert routes and endpoints, dashboard templates and commit
-- log archives with the client's methods that they call, which have the skeleton of the modelled
-- ones and other payloads, and the export command.
pub mod Prelude
pub mod Errors
pub mod Json
pub mod K8s
pub mod Status
pub mod Http
pub mod Client
pub mod Connection
pub mod Metrics
pub mod Kafka
pub mod Repair
pub mod Collector
pub mod Silence
pub mod Image
pub mod ConfigHash
pub mod Platform
pub mod Backup
pub mod Adaptive
pub mod Healthcheck
mod Tests

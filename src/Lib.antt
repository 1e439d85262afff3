-- ===== src/Lib.antt =====
-- The control plane of aistio: a Kubernetes operator for agents, and the server to which the data
-- planes of the agents connect. This development models its core logic in Go and proves it.
--
-- The parts, and how they work together:
--   * Api (api/v1alpha1) is the data of the resources: agents, teams, tasks, messages, sessions,
--     servers of tools, models and sandboxes. Every other part reads these.
--   * Admission (internal/discovery) decides which resources the cluster admits, and sets the
--     defaults of an agent. Agents is webhook.go and defaulting_webhook.go, Teams is
--     agentteam_webhook.go, and Configs is the webhooks of servers, models and sessions. The
--     webhook's `Handle` is `Checks.handle`; `validate` is `validate_agent`, `validate_team` and so
--     on, with `none` for no error.
--   * Team.TaskStore (internal/team/task_store.go) is the shared task list of a team. Its methods
--     keep their names and take the store, and a time where the code reads the clock; a method
--     that mutates a task returns the new store with the reply.
--   * Team.KubeTaskStore (internal/team/task_store_k8s.go) is the same list as objects of the
--     cluster, which all replicas share; Team.Stores is the interface of the two.
--   * Team.Router (internal/team/message_router.go) puts the messages between members into an
--     outbox, and Team.Spawner (internal/team/session_spawner.go) makes a session for a member.
--   * Team.Recovery, Team.Lifecycle and its children (internal/team/lifecycle.go) start, end and
--     recover a team over these: Recovery decides what the failure of a member makes of it, Members
--     has the operations on members, Ends the end of a team.
--   * Controller (internal/controller) reconciles: Teams is agentteam_controller.go, over the
--     lifecycle; Outbox is teamevent_watcher.go, which delivers the messages of the router through
--     the distributor; TeamSink is team_sink.go and SessionSink asdp_sink.go, which take what the
--     streams report; SandboxBroker is sandbox_broker_controller.go.
--   * Discovery (internal/discovery/label_discovery.go and adopt.go) reads which deployments are
--     agents, and adopts one; Sandbox (internal/sandbox) provisions and releases sandboxes, which no
--     other code asks it for yet: the controller of claims leaves them pending.
--   * Http.Authz (internal/httpapi/authz.go, and the authentication of server.go) decides which
--     requests reach the REST handlers.
--   * Asdp (internal/asdp) is the data-plane protocol. Protocol is asdp.proto; Snapshot is
--     snapshot.go, the versioned configuration; Server is server.go, the registry of connections;
--     Handshake is connect_handler.go; Distributor is distributor.go, which sends the snapshots
--     to the registered connections; Service is service.go, one stream.
-- Kube is the client of the Kubernetes API: reads and writes on a state of the server, with what it
-- documents as named laws (Optimistic: a write of a stale object is a conflict; Stored: an accepted
-- status is what is read back; Retry: a body is run again after a conflict), and Memory and
-- Stored.single as servers that have them.
-- Prelude holds what these share: lists and maps over the native numbers, keys of two parts, and
-- decimal numbers.
--
-- State. A Go map is an association list (Prelude.Dict), whose order stands for the order of one
-- `range`. The pointers to connections that the registry compares are numbers into a heap, so that
-- a connection replaced by an equal one is a different object. Mutexes are not modelled: a locked
-- method is one function, and Asdp.Server.Invariant.Runs.run takes such functions in any order, with the
-- operations of the channels between them. A channel of capacity 64 is a list of at most 64.
--
-- Numbers. A sequence number, a resource version and the version of a snapshot are 64-bit and
-- wrap at 2 ^ 64; a summary's counts wrap at 2 ^ 32. Theorems that need a counter not to wrap say
-- so. No definition that models code uses fuel: all loops are structural. The retry of the examples,
-- Kube.Retry.retry_up_to, stops after a number of runs, as the backoff of the code does.
--
-- Parameters, for what is not in the repository or only formats a text: the clients of Kubernetes,
-- its reviews of tokens and access, and the retry on conflicts; the encoder and the digest of a
-- configuration (Asdp.Snapshot.Codec), the JSON of a member's context, the quoting of a text in a
-- message, the formats and parsers of times and durations, the test for a DNS name and the
-- hexadecimal SHA-1 of the id of a session, the version of the build, and the adapters that are
-- registered. What a theorem assumes of a parameter stands among its hypotheses, as one of the laws
-- of Kube or as a record of its own (IsFaithful, IsLogged, IsApart), and its example shows a server
-- that has it.
--
-- A read of the cluster gives its current state; the code reads through a cache, which may lag. A run
-- of a watcher is one function; runs of several replicas at once are not modelled, save in the race of
-- two claims (Team.KubeTaskStore.Race).
--
-- Not modelled: the controllers of agents, sessions, workloads, discovery, models and tool
-- servers, the rendering of an agent's configuration, and the handlers of the HTTP
-- interface, which come next; the command lines, metrics and traces, which only do input and
-- output; the gRPC and TLS set-up of the servers; and the JSON patch that the defaulting webhook
-- returns.
pub mod Prelude
pub mod Api
pub mod Kube
pub mod Controller
pub mod Http
pub mod Discovery
pub mod Sandbox
pub mod Team
pub mod Asdp
pub mod Admission

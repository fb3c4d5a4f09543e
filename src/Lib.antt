-- ===== src/Lib.antt =====
-- The element manager of an LTE base station: a model of its Go packages and their theorems.
--
-- The program supervises an srsRAN base station. NETCONF sessions edit its configuration under
-- datastore locks; telemetry raises and clears alarms through threshold rules, and alarm events go
-- into a queue of notifications; the health of the parts is tracked and announced; workers and the
-- station's containers are restarted. A handler is a function from a state to the next state and
-- its results, and the theorems quantify over sequences of such calls where the code is reached in
-- any order.
--
-- Files and sources, from the repository's root:
--   * Prelude: names, lists, Go's strings functions (Text), maps as association lists of which the
--     first entry counts (Map), and int64 values (Int).
--   * Netconfcm.RpcError, Netconfcm.Locks: internal/ems/netconfcm/{rpc_error,types,locks}.go. The
--     methods of lockManager are the functions of the same names. Locks.View is the abstract view,
--     the lock that a datastore has at a time; Locks.Requests, Ownership, Holding, Keeping,
--     Exclusion, Cleanup, Sweep and Validity hold the theorems.
--   * Configuration: internal/ems/configuration/store.go. Values, Config, Dirty, Change and Validate
--     are the conversions, the struct, markDirtyLocked, applyChange and validate; Store has the
--     methods on the two configurations; Files and Persist write the files over the interface `Os`
--     of package os. Samples holds data for runs.
--   * Configuration.Render: internal/ems/configuration/renderer.go, the tables of what is written for
--     a key. Its `render` is a patch that Persist takes. Render.Lines is a table of the keys of
--     enb.conf that is written apart from the model's.
--   * Netconfcm.Manager: internal/ems/netconfcm/manager.go, over the locks, the store and its files;
--     Edits, Commit and Sessions hold its methods, the other modules the theorems. Manager.Calls
--     puts its methods one after the other.
--   * Alarms.Types, Dictionary, Store, Manager, Notifications: internal/ems/fcaps/alarms/*.go and
--     the alarm of internal/ems/domain/types.go. The manager keeps its store and appends to events.
--   * Tca.Config, Tca.Engine: internal/ems/fcaps/tca/{config,engine}.go, where `transition` drives
--     the alarm manager. Engine.Phase is the abstract state machine of one threshold.
--   * Health.Tracker: internal/ems/health/health.go.
--   * Bus: internal/ems/bus/bus.go. Bus.Steps puts its methods and the readers in any order.
--   * Worker.Backoff, Worker.Supervisor, Worker.Lifecycle: internal/ems/worker/{backoff,supervisor,
--     lifecycle}.go. Lifecycle.Ledger is an observer of the requests that a restart makes.
--   * Pm.Engine: internal/ems/fcaps/pm/{engine,store,types}.go, with the metrics and samples of
--     internal/ems/domain/canonical/canonical.go.
--
-- Conventions. A time is its nanoseconds since the zero time, which is 0; a duration is an integer,
-- and the int64 arithmetic of the backoff and of request timeouts wraps around. Each reading of a
-- clock is an argument. What the operating system is relied on for is the record IsPosix, and
-- IsReliable says that no call fails; Samples has an instance of both. A Go map
-- that a loop ranges over is a list in the order of that loop, so that two loops over one map have
-- two permutations. An error that the code drops
-- is dropped, or returned beside the result where a theorem speaks of it. A mutex makes a method one
-- step, and one publish of the bus comes after another; only the report of the health tracker is
-- two, as it gives its mutex up between them. Errors are values with unrendered messages; `none` is
-- nil. ToLower is modelled on ASCII and on the two other characters that it takes to ASCII letters.
-- What the program does not implement is an argument: writing and encoding files and JSON, random
-- jitter and floats, and the Docker daemon with the clock and the context. So are, for the
-- measurement engine, the registry's resolution of a sample and its table of metric names, and for
-- the configuration the edits of file contents, YANG validation and the bindings of leaves, which
-- are parts of the program that are not modelled.
--
-- Loops are structural recursion. The one loop on fuel is the wait for a container, with 31 rounds:
-- a round that goes on sleeps 500 ms, and the deadline is 15 s away.
--
-- Not modelled: the rule families of the threshold engine's Evaluate, the parsers of configuration
-- files and the renderer's edits of their bytes, the bindings of YANG leaves, mediation of
-- samples, distinguished names, services and wiring; and, as input and output through libraries,
-- the NETCONF server's processes, the C bridge, adapters, logging and the building of HTTP
-- requests.
pub mod Prelude
pub mod Alarms
pub mod Bus
pub mod Configuration
pub mod Health
pub mod Netconfcm
pub mod Pm
pub mod Tca
pub mod Worker

-- ===== src/Lib.antt =====
-- The controller's core that decides what a device is told to do: how a configuration change is
-- checked, queued to one device, reported on and settled, how a rollout over the devices of a site
-- is planned, drafted, claimed and advanced by a worker, and how commands are rendered for the
-- shell of a device; and what decides who may do so: logins and the tenant a request runs in,
-- WebSocket tickets, the enrollment of devices, and the surveys that take samples from outside.
--
-- How the parts work together. A request carries a signed token or a WebSocket ticket; the
-- middleware reads who it is from and picks the tenant schema that its statements run in. A device
-- joins a site with the site's enrollment token, and gets the token that it reports with. An
-- operator plans a change; the handlers store it as a DRAFT row of rollout_runs. Claiming the
-- draft queues a change set to devices of the site, each under the next desired generation of the
-- device, and leaves the run QUEUED. A device agent fetches its pending document and reports
-- states; a terminal report clears the pending document and, where the run is QUEUED, is entered
-- in its results. The rollout worker leases a run, reads its progress and moves its cursor. The
-- devices, the runs and the audit log are rows of one PostgreSQL schema per tenant.
--
-- Files and code:
--   Schema: the tables and documents. Schema/Devices and Schema/Rollouts are the columns of devices
--     and rollout_runs (internal/database/postgres.go) that these functions read or write;
--     Schema/Documents the JSON documents; Schema/Errors the errors; Schema/External the functions of
--     the Go library and of PostgreSQL that are parameters.
--   Identity: identifier checks of internal/database/device_operations.go, device_change_sets.go,
--     postgres.go (SafeSchemaIdent, SafeTenantSchema) and internal/services/uci_bridge.go.
--   ChangeSet: parseDeviceChangeSet and what it calls, internal/database/device_change_sets.go.
--   DeviceChangeSet: queueDeviceChangeSet, its callers and the getters in Queue,
--     RecordDeviceChangeSetStatus in Status (the same source file).
--   DeviceOperation: internal/database/device_operations.go, in the same split.
--   Delivery: any sequence of the calls above, at any times.
--   RolloutDraft: internal/database/rollout_drafts.go; Drafts has CreateRolloutDraft, GetRolloutDraft
--     and ClaimRolloutDraft, Queueing has ClaimAndQueueDeviceChangeSets, Closing has the rest.
--   RolloutWorker: internal/database/rollout_worker.go, and the decisions of
--     internal/rolloutworker/worker.go that read its progress.
--     RolloutWorker/Phase is the choice of the next device and its operations by queueNextPhase.
--   ChangePlan: ValidateDeviceChangeSet of internal/services/device_change_set.go, with
--     ValidateDeviceOperation of device_operation.go and ValidateHealthTargets of uci_bridge.go.
--     ChangePlan/Rollout is NewDeviceChangeSetForRolloutOperations of device_change_set.go.
--   FleetPlan: the planning of a rollout by internal/api/handlers/site_orchestrator.go, from the
--     results of a draft to the change set of each device and the phases of the fleet; Operations and
--     Order compare it with RolloutWorker/Phase.
--   Access: WithAuth and the role gates of internal/api/middleware/auth.go; Issuing is
--     IssueWSTicketHandler (internal/api/handlers/ws_ticket.go) with getTenantSchema (adoption.go),
--     SignIn is LoginHandler (internal/api/handlers/auth.go), Handshake the ticket from its issue to
--     the request that presents it.
--   Enrollment: internal/database/enrollment.go; Enroll has EnrollDevice, Handler has the device
--     endpoint of internal/api/handlers/enrollment.go.
--   Surveys: internal/database/surveys.go; Handlers has the endpoint for samples, Manage those that
--     manage a survey (internal/api/handlers/surveys.go).
--   Uci: internal/services/uci_bridge.go; Uci/Shell is a reader of POSIX shell words that the
--     rendered lines are compared with, up to the files that a pattern matches.
--   AuthTickets: internal/authtickets/authtickets.go; Registry is a registry of tickets that the
--     store is compared with.
--   Base: lists, texts, integers, results and table rows; Tests: the theorems at concrete values.
--
-- How code becomes definitions. A Go string is a list of bytes. A table is a list of rows; an
-- UPDATE is update_rows with the WHERE as a Boolean test and the SET as a function on rows, its
-- count of affected rows is count_rows, and a SELECT of one row is select_row. SQL's NULL is none,
-- and a test that would be NULL is false, as in a WHERE. A function that writes takes the tables
-- and gives its result with the tables after it; a statement is atomic, as are the transactions,
-- and an error rolls back. CURRENT_TIMESTAMP, time.Now and generated identifiers are arguments. A
-- Go error is err. A JSON document is given decoded: none is a document that json.Unmarshal
-- refuses. The change set of the planner is written and read back by encoding/json (ChangePlan,
-- envelope_of): a text may change on the way, and an empty slice with omitempty is read as nil.
-- BIGINT columns are natural numbers, and a step that would pass the largest BIGINT is an error of
-- PostgreSQL. All definitions are structural but two. The decimal text of a number (Uci/Translate)
-- runs on fuel, the number and one more, of which a step on the number takes a tenth. The loop
-- over the phases of a fleet (FleetPlan) runs on fuel, the number of devices, of which each turn
-- takes at least one.
--
-- Parameters. Schema/External: strings.EqualFold, strings.TrimSpace, LOWER, net.ParseIP, the
-- SHA-256 of a change set's JSON encoding, equality and containment of JSONB, utf8.ValidString,
-- and the text that encoding/json reads back from a text it wrote. Access: strings.ToUpper,
-- jwt.Parse, bcrypt and SignedString. Enrollment: the SHA-256 of a token, and the body as the JSON
-- decoder gives it. ChangePlan/Rollout: the encoding of the seeds of an identifier. Surveys: the
-- SHA-256 of a token, PostgreSQL's reading of an address, and whether the coordinates of a body
-- are in range. Where a property needs something of a parameter, it is a named hypothesis of the
-- property.
--
-- Not modelled: routing and the HTTP handlers other than those named; the vault, metrics, influx,
-- orchestrator, mesh and sentinel services; the merge of network identities; the points of a
-- survey and the worker that correlates them; the agent's shell scripts and the web client. In the
-- modelled files: audit and log entries, the lock around a script and the batch templates of
-- uci_bridge.go, ActiveTenantSchemas, the rendering of a draft and its verification in
-- site_orchestrator.go, what the worker does with the phase it chose, connection errors where no
-- fault is named, and serialisation of transactions by advisory locks, which the atomic steps
-- stand for. ClaimQueuedRollout takes no such lock: its one statement is modelled as a step of its
-- own, and two claims that overlap in PostgreSQL, each on a snapshot without the other, are
-- outside of the model.
pub mod Base
pub mod Schema
pub mod Identity
pub mod ChangeSet
pub mod ChangePlan
pub mod DeviceChangeSet
pub mod DeviceOperation
pub mod Delivery
pub mod RolloutDraft
pub mod RolloutWorker
pub mod FleetPlan
pub mod Uci
pub mod Access
pub mod Enrollment
pub mod Surveys
pub mod AuthTickets
pub mod Tests

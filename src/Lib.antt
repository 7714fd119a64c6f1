-- ===== src/Lib.antt =====
-- BoxFleet: the control plane's work on its nodes. The server (internal/server) keeps a SQLite
-- database; an administrator queues operations for a node (an update, a reconciliation, a
-- collection of logs), or an update campaign over many nodes; the agent of a node claims the
-- operation under a lease, renews the lease, and reports numbered events until a terminal one. Beside
-- this stand the paths by which clients reach proxies, the telemetry of connections, the catalog of
-- services, and the guard of the agent's own update.
--
-- The parts, and the files that model them:
--
-- - Base: Go strings as lists of bytes (`Text`; `same`, `before`, `trim_space`), tests on numbers,
--   and tables as lists of rows (`find_row` is SELECT ... LIMIT 1, `update_rows` is UPDATE ...
--   WHERE), with the lemmas that the other parts share.
-- - Platform: encoding/json, crypto/sha256 and the time formats of package time and of SQLite, as
--   a record of functions that every theorem takes as a parameter. No law of them is assumed, but
--   in Operation/Lease that a SHA-256 text is not blank.
-- - Database/Tables: the rows of the tables in use (internal/server/store/sqlc/models.go), with
--   the statuses that the CHECKs of migrations/020_node_operations.sql allow. Database: a method of
--   DB is a function from the database to a result and the database after it; `with_tx` is withTx,
--   which undoes the writes of a function that fails.
-- - Operation/Sql: the statements of internal/server/store/sqlc/node_operations.sql.go, each UPDATE
--   as its WHERE and its SET. Operation/Validate: the checks and normal forms of
--   internal/server/db/node_operations.go. Operation/Calls: its parameters and views, and
--   resolveNode (internal/server/db/nodes.go). Operation/Methods: CreateNodeOperation,
--   GetActiveNodeOperation, ClaimNodeOperation, RenewNodeOperationLease, RequestNodeOperationCancel
--   and CancelUnclaimedNodeOperation. Operation/Report: RecordNodeOperationEvent.
-- - Operation/Steps: the calls as steps of the database, and the writes that a call is made of;
--   Operation/Steps/Rules, Writes and Reports derive the writes of each method. Operation/Facts,
--   OneActive, Frozen, Stuck, Log and Lease prove what follows for every list of calls; Replay and
--   Recorded say what an event report does; Keeps and Unlogged, what the other methods leave as it
--   was.
-- - Campaign/Sql: the statements of internal/server/store/sqlc/node_update_campaigns.sql.go and the
--   methods of internal/server/db/node_update_campaigns.go that run them. Campaign/Create:
--   CreateNodeUpdateCampaign. Campaign/Plan: the end of buildUpdateCampaignMembers. Campaign/Sync and
--   Campaign/Reconcile: the reconciliation of internal/server/api/update_campaigns.go.
--   Campaign/Admin: the handlers that cancel and resume a campaign.
-- - Campaign/Batches states the order of the batches, Snapshot and Covers relate a reading of the
--   members to their table, Visits, Members and Loops follow the loops over the members, Unmoved,
--   Progress, Ordered and Advance an iteration, Runs and Steps the calls. Safe and Kept carry the
--   invariants of operations over to the calls on campaigns; Canary and BatchSize
--   are about the plan of the batches.
-- - Catalog: internal/servicecatalog/catalog.go, a host's service by the operator's overrides, the
--   data set or the public suffix; Catalog/Parse is parse, Catalog/Write the writer of the data set
--   in internal/servicecatalog/gen/main.go. Suffix and Longest are about the lookup, Lines, Blocks
--   and RoundTrip about reading what was written, Prune and Pruned about the rules that the
--   generator leaves out, Labelled and Overrides about classifications.
--   net.ParseIP and publicsuffix are a parameter, `HostRules`.
-- - Paths: the rows of internal/server/db/paths.go and validatePathGraph. Chain, Graph and Rounds say
--   what it accepts and that it ends, Acyclic and Writes what the table's writes keep.
-- - Resolve: the end of ForUser of internal/server/pathresolve/resolve.go; Sorted and Order say what
--   its order promises.
-- - Telemetry: internal/model/connection_telemetry.go, a connection's snapshot, with
--   Hosts for addresses and chains, and what the collector of internal/agent/connections.go does
--   with it under its key; Merge, Collect, Kept, Key, Accepted and
--   Address are about its parts. Package time is the parameter `Instants`.
-- - Guard: writing, reading and restoring in internal/agent/update_guard.go and service_files.go;
--   Guard/Run is RunAgentGuard. Restore, Rollback and Safety are about it. The operating system is the
--   parameter `Machine`: which paths can be written, where links lead, what the time text means.
-- - Outbox: the state file of internal/agent/operations.go, reportOperationEventWithRetry and its
--   flush, which send to RecordNodeOperationEvent as nodeOperationEventHandler calls it
--   (internal/server/api/node_operations.go), without the authentication before it and the
--   reconciliation of the campaign after it. What else the server does between two requests is a
--   function of its database; Apart is about the calls on operations that it may stand for. Server is
--   about one request, Once about one report, Reports about many.
-- - The modules Examples, Operation's with the data of Operation/Samples, apply the theorems at
--   concrete inputs.
--
-- Conventions. A call takes one reading of the clock, in nanoseconds since the epoch, and the
-- identifiers and secrets that the source draws at random, as arguments; nothing is assumed of
-- them, and an identifier that is taken is refused as the primary keys refuse it. A call is one
-- step: the statements of a claim, which the source runs one by one, are not interleaved with
-- those of another call. Texts are compared by bytes, as SQLite and Go do; strings.TrimSpace is
-- modelled on ASCII. Loops are recursion on their lists; the reconciliation has the source's bound
-- of four iterations as its fuel, so that no result of it depends on fuel that ran out. The visit of
-- a path has four rounds, which its depth never uses up (Paths/Rounds), and the lookup of a suffix
-- as many as the name has bytes (Catalog/Suffix). A current
-- batch of -1 is `none`. A negative attempt, sequence, position or batch is refused by the source
-- and has no counterpart here; attempts stay far below 2 ^ 63.
--
-- A sum of measures wraps at 64 bits; the guard's count of starts is a natural number.
--
-- Not modelled: HTTP, JSON decoding and templates; the lists that the admin pages read; of the agent
-- its main loop, the updater, the executors of operations, and the deltas and the coverage of the
-- collector of connections; rendering of configurations (internal/server/render,
-- internal/server/mihomo); proxies, grants of paths, users and traffic; the generated code of internal/v2rayapi and internal/singboxapi; the web client.
-- A node is its names and its flags. The state file of the outbox is taken to be writable.

mod Base
pub mod Database
pub mod Platform
pub mod Operation
pub mod Campaign
pub mod Catalog
pub mod Paths
pub mod Telemetry
pub mod Guard
pub mod Outbox
pub mod Resolve

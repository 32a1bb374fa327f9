-- ===== src/Lib.antt =====
-- Verification library of SoHoLINK, a marketplace that places compute, storage and print jobs on
-- machines of small offices and homes.
--
-- An orchestrator keeps a registry of the nodes that send heartbeats, matches a consumer's job
-- against it, and places the job in a table of a PostgreSQL database. Nodes poll for their jobs,
-- start them and report the outcome, over the bespoke API or a signed protocol. Prints wait for the
-- confirmation of their node's owner, and end with a pickup by the consumer. A loop of the
-- orchestrator times jobs out and gives declined or stranded jobs another node. Operators, which
-- front for members, register seven keys, verify their address and pass a conformance run; what
-- they sign is checked against replays.
--
-- Which file models which part:
--   Base, Base/*: truth values, numbers, Go's int, lists and maps, used throughout.
--   Workload: internal/types/workload.go and internal/orchestrator/workload.go, the workload types
--     and their mapping (IsValid, MarketplaceToAgent, MustValidateWorkloadMapping).
--   Registry: internal/orchestrator/registry.go, NodeRegistry as an association list from node ids
--     to entries; one function for each method, in its spelling (register is Register, find_match
--     FindMatch, add_in_flight AddInFlight, evict_stale evictStale, …). Registry/Match is about
--     matching, Registry/Invariant about runs of operations, Registry/Tests has examples.
--   Allowlist: internal/agent/allowlist.go, digest extraction and lookup (Allowlist/Digest).
--   Token: internal/orchestrator/token.go, job tokens (GenerateJobToken, VerifyJobToken);
--     Token/RoundTrip is about both, Token/Tests has an example.
--   Store: the tables of internal/store/migrations that the lifecycle of a job touches, and the
--     state that an operation runs on. Store/Sql is a monad of that state, errors and failing
--     statements; Store/Effects, Store/Atomic and Store/Knowing have one proof rule for each way to
--     build an operation, Store/Returns those for what holds when it returns; Store/Rows and
--     Store/Counts are about updates, Store/Clocked about the clock.
--   Jobs/Requests, Jobs/Submit: SubmitJob of internal/orchestrator/orchestrator.go; Submit/Atomic
--     is about its failures, Submit/Row and Submit/Places about what it has done when it returns.
--   Jobs/Expire, Jobs/Reroute: the loop of the same file (StartDeclineRerouteLoop is tick);
--     Expire/Timed is about the passes that time jobs out, Reroute/Rebinds about what becomes of a
--     declined job.
--   Jobs/Dispatch: internal/store/dispatch.go and the job handlers of internal/api/nodes.go;
--     Dispatch/Poll is about what a poll hands out.
--   Jobs/Portal: the print handlers of internal/portal/server.go; Portal/Declines is about the
--     owner's refusal.
--   Jobs/Protocol: bind, nodeKey, bumpSeq, Decline and ReportJob of
--     internal/protocoladapter/adapter.go; Protocol/Replay is about sequence numbers,
--     Protocol/Window about the start that a node reports.
--   Jobs/Lifecycle: the diagram of statuses, and under it a module for each group of operations
--     that shows them to keep to it; Lifecycle/Runs puts them together for any sequence of
--     operations, Lifecycle/Outcomes draws the conclusions. Jobs/Tests, Jobs/NodeTests,
--     Jobs/PortalTests, Jobs/RerouteTests and Jobs/SubmitTests have examples.
--   Operator: internal/operator, the registry of the operators that front for members. Tables has
--     their rows, Sql the statements on them, and Holds, like Store/Effects, one proof rule for
--     each way to build an operation. Accounts (sign-up, revocation, the lookup of keys), Keyset
--     and Activation (keyset hash, conformance pass, AddKeys, AutoActivate), Rotation (usage,
--     expiry, replacement), Window (advanceWindow) and Replay (CheckAndAdvance) are repository.go;
--     Verification is verification.go, Fees governance.go, and Conformance conformance.go, with the
--     graders in Conformance/Grading, FinalizeRun in Conformance/Finalize and runSuiteCScratch in
--     Conformance/Scratch. Keyset/Order is about the hash, Activation/Binds about what an
--     activation has checked, Rotation/Expiry and Rotation/Floor about expiry, Rotation/Replaced
--     about the replacement of a key, Window/Bits and Window/Refines about the bitmap,
--     Replay/Spent, Replay/Accepts and Replay/Nonces about transmissions, Verification/Codes,
--     Fees/Later, Conformance/Tallied and Conformance/Final about what these operations have done
--     when they return, Conformance/Once and Conformance/Others about the verdict on a challenge.
--     Lifecycle has the steps of the registry and its runs; its children are about a column or a
--     table each, Authority and Revoked about who authenticates, and Verdicts about the verdict
--     that a challenge has. Operator/Tests and Operator/RunTests have examples.
--   Login: internal/portal/ratelimit.go and its calls in handleLogin of internal/portal/server.go;
--     Login/Limit is about how many failed logins go through, Login/Tests has an example.
--   Sounding: internal/sounding/classify.go, the ladder of rungs (NewLadder, FitRung,
--     ClassifyRejection); Sounding/Order is about its order, Sounding/Loops about its loops,
--     Sounding/Rungs about the answer, and Sounding/Tests has examples.
--
-- How the code is read. A handler or method is a function from the world (tables, registry, clock,
-- telemetry) to a result and a world; an error is a value, an HTTP error one with its status code.
-- Each statement, BEGIN and COMMIT takes the next of a list of truth values that says whether it
-- fails, so that every pattern of database failures is a run; a transaction restores the tables
-- when anything fails before or at its COMMIT. The clock stands still within one operation, and an
-- operation is not interleaved with another between two of its statements; between operations
-- anything but the jobs may change. Nullable columns are options, and a comparison with NULL in a
-- WHERE clause is false. The order of a map or of a table is that of its list. Numbers are
-- unbounded but for the counters of the node registry, which wrap as Go's int does, and for the
-- sequence numbers of operators, which are cast between uint64 and int64. The range of an INT
-- column and the CHECK on an e-mail address are left out; addresses are trimmed and lowered in
-- ASCII. Go's strings are read as their code points, in a token's payload too; ORDER BY printer_id
-- follows code points, where the database has a collation; a time is in nanoseconds, also in a
-- column, which keeps microseconds. A scheduling function that ranks no node gives an error, where
-- the code's index panics. There is no fuel but in the printing of a number in decimal, where the
-- number and one more is enough.
--
-- Parameters: the scheduling function that New is given, the allowlist that the file holds (or
-- none, if it cannot be read), base64, HMAC and SHA-256, the draw of crypto/rand, and of the
-- protocol library the binding, the signatures, the canonical bytes and the check of a rotation;
-- the database's order of texts.
--
-- Not modelled: the content of telemetry, capacity samples, metering (its call is recorded),
-- payments, the read model and the API of operators, the scheduler's scores, heartbeat handlers,
-- the agent, page rendering and I/O.
pub mod Base
pub mod Workload
pub mod Registry
pub mod Store
pub mod Allowlist
pub mod Token
pub mod Operator
pub mod Jobs
pub mod Login
pub mod Sounding

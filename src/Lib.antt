-- ===== src/Lib.antt =====
-- tokeninsights: a model of the core of the collector of token usage, written in Go.
--
-- What is kept of a source's record is chosen field by field (packages/core/evidence), and the
-- server checks it again. Sources of usage are read by a few readers and committed by one writer, in
-- a window (packages/core/pipeline/extract_prepare.go). While they are captured, a reporter
-- (packages/core/pipeline/capture_progress.go) keeps one measurement for each harness and gives
-- every change of it to a callback. The observer of the local runtime
-- (packages/core/localruntime/observer.go) turns each into a capture and hands it to the registry
-- (packages/core/collectorprogress), which keeps the attempts to collect, their leases and the
-- captures of each, and answers snapshots. What is stored as evidence is then processed component by
-- component: the data engine (packages/core/dataengine) loads components from its backend, works on
-- two at a time, and delays those whose projection turned out to be stale. The facts so interpreted
-- get their identities from packages/core/publication, which also validates them. A viewer
-- (packages/core/application) answers queries about them from a repository, as far as the policy of
-- the server (packages/core/serverfeatures) allows it.
--
-- Modules:
-- - Prelude: names passed on, Boolean tests, lists, integers over the native numbers, maps as
--   association lists in which an id may stand once, and results with an error.
-- - CollectorProgress: registry.go and capture.go. Message is the wire message and its validation,
--   Capture the measurement, Registry the state with `Apply` (apply), `UpdateCapture`
--   (update_capture), `InterruptAll` (interrupt_all) and `expire`; Snapshot has `Snapshot` and
--   `Details`. The modules below Registry hold the proofs, named for what they prove.
-- - CaptureReporter: capture_progress.go, each method as a function on the measurement of one
--   harness. Protocol says in which order they may be called, Delivery has the observer's hand-over.
-- - Pipeline: the window of `extractPrepared` in extract_prepare.go as a pool of jobs, and what a
--   reader or the writer does next as an action on it (step), which has no result where the code
--   would wait. A run is a list of actions, in any order that the waiting allows, with the calls of
--   the reporter that it makes. What comes of reading and committing a source is an argument of the
--   action by which the writer receives it; each call that it then makes of the reporter is an
--   action by itself. Delivered has the events of all harnesses, as they come. Summed has the
--   summary, from what is discovered and what comes of the sources.
-- - Evidence: packages/core/evidence. Json has decoded JSON and its leaves, Sanitize what
--   whitelist.go keeps of a record, Records and Batch what codec.go takes from a collector, Scope
--   the scopes and identities of records.
-- - DataEngine: stale.go (Stale) and worker.go, the dispatcher runConcurrent in Dispatch and
--   ProcessNext in Next. The backend and the interpretation are parameters; Processing has a worker
--   that interprets by `Process`.
-- - Publication: types.go, identity.go and validation.go. Identity has `SetIDs` with the hash of a
--   tuple as a parameter, Text the texts that may be published, Validation `ValidateFact`.
-- - Processor: Json has the values of decoded objects and the integers read from them, Tokens the
--   sums of helpers.go and the counts of one Codex usage in codex.go, Select what `Process` in
--   process.go makes of the candidates for one fact, with the hash of the JSON text of a fact as a
--   parameter. Native, Session, Snapshot and Event have the metadata of a Codex session, its state,
--   the snapshots of its usage and what a token count of it makes (native_types.go, helpers.go,
--   codex.go); Messages, Pi, Claude and OpenCode have the parsers of the other harnesses
--   (helpers.go, pi.go, claude.go, opencode.go), Canonical the names of providers and models, and
--   Parse `parseEvidence` of process.go, from a stored record to the fact that it proves; Process is
--   `Process` whole, with the ids of its records different from each other, and with what its checks
--   of the context find as a function of the turn; Replay and Ancestry are `resolveCodexEvidence` in
--   process.go, which tells replayed token counts from new ones.
-- - Observer: observer.go, the messages that the observer of a command publishes.
-- - ServerFeatures: features.go, the capabilities, the policies and what they permit.
-- - SqlBinding: packages/core/persistence/sqlutil/bind.go, the numbering of parameters. FlagValues:
--   packages/core/flagvalue, the values of repeated flags and the harnesses they name
--   (packages/core/capture/types.go).
-- - Application: Selection has the selection of packages/core/analytics/selection.go and its
--   validation, Normalize `NormalizeQuery` of validation.go, Viewer the operations of query.go on a
--   repository that is a parameter.
--
-- How the model stands to the code. The registry is a record of two maps. A Go map is an association
-- list in no particular order, and iteration over it goes by that list. A method under the mutex is
-- a function from a registry to a registry and a result; calls of several goroutines are a sequence
-- of such steps in any order. The clock is an argument of each call, a number of milliseconds.
-- `int64` is read as an integer, of Prelude.Int; the registry and the validation of facts check a
-- counter against 2^53 - 1 before they add or keep it, and where `int64` can be left otherwise the
-- test of the code for it is written out. The filling loop of the dispatcher recurses on a number of
-- turns, the number of workers, each turn filling the place of one; the walk through the parents of
-- Codex sessions recurses on a number of steps, one more than there are sessions with metadata,
-- which no line of parents without a repetition exceeds; a number is printed in as many steps as it
-- is large, and one more; every other loop is over a list. The dispatcher's rounds are a list, the
-- backend's answers in a round a function of the exclusions and the limit, and the reports of the
-- goroutines are events in any order.
--
-- Parameters stand for encoding/json with crypto/sha256 (the hash of a tuple, of a fact, of a
-- snapshot, of a proof), for the reading of timestamps by package time (both in
-- Processor/Outside.antt), for the storage backend, for the repository of the viewer, and for the
-- interpretation that the data engine calls. A JSON text is read as the object that it decodes to.
-- What the backend promises is stated as `Answers` in DataEngine/Dispatch/Filled.antt, and in which
-- order the reporter may be called as `Allowed` in CaptureReporter/Protocol.antt, which the runs of
-- Pipeline keep to.
--
-- A key of an object is matched as it is written, as sanitized records have it, and where sort.Slice
-- leaves open the order of equals, the model keeps that of the list.
--
-- Not modelled: pointers and copies of maps (values are immutable here); what consists of input and
-- output: SQLite (packages/core/datastore, rawcollectorstore, collectordb, persistence/sqlitecore),
-- HTTP, sockets and SSH (packages/core/server, collector, localbackend, localclient, sshtransport,
-- tcptransport, remoteaccess), files and processes (packages/core/config, deployment,
-- pipeline/extract_stream.go); endpoints, which package net/url parses (packages/core/endpoint); the
-- tables of the terminal (packages/cli), which only show what the queries answer; the keys of facts
-- that only captured facts had (packages/core/processor), the polling loop of the data engine, the
-- callback of `SyncOptions`, the conformance tests of storage (packages/core/storagecontract), and
-- the interfaces in TypeScript.
pub mod Prelude
pub mod CollectorProgress
pub mod CaptureReporter
pub mod DataEngine
pub mod Publication
pub mod Processor
pub mod Observer
pub mod ServerFeatures
pub mod Application
pub mod Pipeline
pub mod Evidence
pub mod SqlBinding
pub mod FlagValues

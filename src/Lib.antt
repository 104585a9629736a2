-- ===== src/Lib.antt =====
-- The worker of the Omarchy package pool (worker/src): the brain of a pool of packages, on a
-- database of tables and two buckets.
--
-- Parts, and how they meet:
--   Factory  the queue of build tasks and pool jobs, worker/src/routes/factory.ts. Rows has the
--            tables; Enqueue (handleEnqueue, handleCancelTask), Claim (handleClaim), Lease (owned,
--            handleHeartbeat, handleFail, requeueExpiredLeases), Complete (handleComplete, with its
--            children Job and Build) and Workers (touchWorker, workerReady, pruneWorkers) have one
--            function per handler; Record is worker/src/record.ts. Queue holds the proofs about the
--            table of tasks, Rules those about single parts.
--   Token    the credential that a claim hands out, worker/src/jobtoken.ts: Claims, Scopes
--            (scopesFor), Base64, Verify (issueJobToken, jobOf) and the proofs in RoundTrip.
--   Auth     worker/src/auth.ts, which reads a token's scopes; the proofs in Staging.
--   Release  the rings and their releases, worker/src/routes/releases.ts and worker/src/db.ts: Rows
--            has the tables, Selection the pinned packages of a key, Members (ringMembers,
--            releaseMembers, ensureCheckpoint), Create and Write (handleCreateRelease: the plan of a
--            release, then the batch that writes it). The specification is a history, which tells
--            what each release was made to hold (Replay); Checkpoint, Delta, History, Served, Plan,
--            Trace, Reach and Promote prove what the code does to it. It shares the factory's
--            replies and architectures.
--            Retention is worker/src/routes/gc.ts; Kept tells what a run never deletes, and Line,
--            Prune, Cuts, Readable and Promise prove that it leaves protected releases readable.
--   Review   worker/src/routes/review.ts: Decide (handleProjectBuild) and Approve (handleApprove,
--            handleReject); Approval, Rebuild and Rejection hold what their answers tell.
--   Schedule worker/src/scheduler.ts: Rules (SYNC_SOURCES, RULES, jobsOf), Due (isDue), Queue
--            (recentJobs, createJob, the turn over the rules, factoryDemand); Jobs is
--            worker/src/jobs.ts (handleQueueJob). Timing, Daily, Once and Guard are the proofs.
--   Blocks   worker/src/routes/blocks.ts: Contributors and Packages, which makes a release through
--            Release for each ring that serves a blocked package; People holds the proofs.
--   Contributors  of worker/src/routes/contributors.ts, removing a package, asking for its builds and
--            revoking a worker.
--   Governance  worker/src/governance.ts, with the proofs in Trust and Table.
--   Updates  worker/src/updates.ts, with the proofs in Bumps.
--   World    the whole pool as one step over the factory's store and the releases (Trace); what
--            each operation keeps (Evolves, Sound and the files behind them), the invariant of all
--            operations in any order (Vouched, Pool), and what they do to releases and approvals
--            (Shelf, Approved).
--   Checks   concrete inputs, and the theorems at them.
--   Base     what the parts share: tests, tables with SELECT, UPDATE and DELETE, texts.
--
-- How the code is read. A handler is a function from the request, the time and the store to a
-- reply; a refusal is its HTTP status. The store is a record of tables, a table the list of its
-- rows, newest first; an SQL statement is a function on such a list, with its WHERE clause a
-- Boolean test and its SET clause a record update. Where SQL leaves the order of rows open, the
-- list's order is taken. Columns that the database restricts to a few words are data types; JSON
-- columns are their parsed values; times are milliseconds, one instant for a whole request. Prose
-- (log lines, notes, errors) is the list of its code units, names are native strings. `-` on
-- numbers stops at 0, which no modelled code relies on.
--
-- Fuel: `decimal` has one more than the number printed, which has fewer digits; `chain_from` has
-- the bound at which ensureCheckpoint itself throws.
--
-- Parameters, for what is not the repository's code: the runtime's HMAC and JSON (Token.Verify); the
-- latest tag that GitHub answers (Updates); the stamps of times and the text of a record (Blocks);
-- the parsed TOML file, its digest and the order of names (Governance); the cost guard, and which
-- kinds run as pulled jobs (Schedule); the numbers of a query (Retention).
-- Not modelled: a release's cached counts and the manifests read from it, the payload column of
-- events, the read-only views, the signatures beside recorded files, and what PROJECT.json lists; the
-- attestation that a completion writes (worker/src/routes/seal.ts) and the parser of a staged
-- vet.json are arguments of the completion.
mod Base
pub mod Token
pub mod Factory
pub mod Release
pub mod Review
pub mod Schedule
pub mod Blocks
pub mod Contributors
pub mod Governance
pub mod Updates
pub mod World
pub mod Auth
mod Checks

-- ===== src/Lib.antt =====
-- The durable core of the Sage coding agent and of its repair loop, and the state of knowledge
-- imports.
--
-- Journal models core/coding/persistence/session_event_journal.py, the SQLite journal of one
-- session: its events, the lease of the one run that is active, and the counter of fencing
-- tokens. A database is the record `Journal.Rows.Db`: the rows of `session_events` in the order
-- of their sequence, the counter of AUTOINCREMENT, the row of `active_run_lease` if there is one,
-- and `next_token`. A method of `SessionEventJournal` is a function of the same name from its
-- arguments and a database to a result or an exception and the database afterwards
-- (`Base.Effect`). Its BEGIN IMMEDIATE, COMMIT and rollback are `transaction`, and the `except`
-- clauses of `_connect` are `translate`. A call of any writing method is a
-- `Journal.Requests.Request`, `step` makes one call, and `serve` a sequence of them: since each
-- is one immediate transaction, any interleaving of processes on one database is such a sequence.
--
-- Journal/Rows: tables, exceptions, and the context of a call (uuid4, clock, fromisoformat,
-- process identities, repr). Journal/Input: `_validated_event_input`, `_event_from_row` and their
-- checks. Journal/Lease: tokens and `_assert_run_lease`. Journal/Writes: the three forms of
-- append. Journal/Runs: acquire, begin, resume, release. Journal/Approvals and Journal/Recovery:
-- `recover_run_lease`. Journal/Reads: replay and the other queries. The other modules prove.
--
-- Choices. A payload column holds the value that the strict `json.loads` reads, not its text: the
-- order of an object's keys, which `sort_keys` changes, is not modelled, and equality of Python
-- dicts does not see it; the size limit is computed from the value (`Base.Json`). A fencing token
-- is a natural number, so a negative argument is not distinguished from 0: both are refused. A
-- payload that only the plain `json.loads` of `_has_unresolved_approval` would read, with a key
-- twice or a NaN, which no call writes, counts as no JSON there. Python's limit of 4300 digits on
-- printed integers is not modelled. SQLite's BUSY and other failures of the disk, which end a
-- call before it commits, are not modelled, nor are the checks of paths, inodes and schema
-- versions around the connection. The fuel of the decimal printer is the number itself, which has
-- at most as many digits.
--
-- Loop models core/loop_harness/state.py, the SQLite state of the loop that finds and repairs
-- faults. `Loop.Tables.Db` has the tables of leases, fence state, runs, scan cursors, pull
-- requests and settings. A method of `LoopState` is again a function of the same name,
-- `Loop.Requests.Request` is a call of one that writes, and `serve` runs any sequence of them.
-- Loop/Tables: rows. Loop/Lease: acquire, check, release. Loop/Runs: runs, `terminalize`,
-- outcomes, settings, cursors. Loop/PullRequests: quota, record, review, merge. Loop/Fencing,
-- Loop/Gates and Loop/Pause prove. Times are ticks of the clock instead of floats of seconds; the
-- day in Asia/Shanghai of a quota is an argument. A row whose optional columns came from an older
-- schema is not modelled, nor are the tables of candidates, findings, artifacts and digests,
-- which the other methods use.
--
-- Policy models core/loop_harness/policy.py: which candidate the loop may work on, and which diff
-- it may propose, in which tier. Policy/Paths: the normal form of a path and the rules on paths,
-- with a text as its code points. Policy/Rules: `classify_candidate` and `evaluate_diff`.
-- Policy/Bounds proves. `str.casefold` is a parameter; a confidence counts units of 2^-52, of
-- which the float 0.8 is a whole number.
--
-- Thread models the reducers of packages/sage_harness/sage_harness/state.py, which merge an
-- update into the state of a thread. A TypedDict is a record whose fields are `none` where the
-- key is missing, so the order of keys is not modelled. `Thread.Update.reduce` applies a row of
-- updates. Thread/Update: what the reducers share. Thread/Binding: the identity and the sandbox
-- of a thread. Thread/Goal: goals and approvals. Thread/Keyed: artifacts, memories and
-- delegations, merged by id in a dict that keeps the order of first insertion;
-- `Thread.Keyed.collect` is the loop of all three. Thread/Unique and Thread/Ended prove.
-- Thread/Evidence: evidence as sorted sets of texts, each its code points, where an entry that is
-- no text, which the declared type excludes, is left out of the model. Thread/Order proves.
-- Thread/Tools: the promoted tools of one catalog. Thread/Skills: the skills, whose bodies a
-- thread does not keep. The keys of a delegation that no reducer reads are `contents`.
--
-- Jobs models core/knowledge/jobs/repository.py, the PostgreSQL state of the imports of
-- documents: jobs, their items, the tickets of an external parser, the idempotency keys, the
-- events, and what the end of a job does to its sync plan and to the manifest of its source.
-- `Jobs.Tables.Db` has the tables (db/models.py), each a dict from the row's id. A method of
-- `KnowledgeJobRepository` is a function of the same name. Most lock one item and its job:
-- `Jobs.Changes.on_item` finds the two rows, a function of the rows decides (refuse, nothing, or
-- an `Update`), and `commit` writes, with `_refresh_job` where the method calls it.
-- `Jobs.Requests.Request` is a call and `serve` makes any sequence of them: each method is one
-- transaction that holds the locks of its rows, so calls of several workers are taken one after
-- another. Jobs/Refresh: `_append_event`, `_refresh_job`, `_finalize_sync_plan`. Jobs/Changes: an
-- update and how it is written. Jobs/Creation, Jobs/Methods, Jobs/Endings, Jobs/Cancelling and
-- Jobs/Claims: the methods. Jobs/Edges: the life of an item as an abstract machine, whose edges
-- are the calls. Jobs/Moved: what a method decides is an edge. Jobs/Called, Jobs/OneItem,
-- Jobs/Selected, Jobs/ManyItems and Jobs/Stepped: a call is at most one edge of an item.
-- Jobs/Machine and Jobs/Changed: what an update may do to the rows. Jobs/Kept, Jobs/Created and
-- Jobs/Served: what every update keeps, every sequence of calls keeps. Jobs/Refreshed,
-- Jobs/Opened, Jobs/JobRows, Jobs/Tally, Jobs/Right and Jobs/Keys: the rows after an update.
-- Jobs/Life, Jobs/Over, Jobs/Stopped, Jobs/Cancelled, Jobs/Once, Jobs/Leases, Jobs/Attempts
-- and Jobs/Enabled prove. Statuses of items, jobs and keys are data types with the texts of the source; other
-- states are texts. Times are ticks of a second; `created_at`, `updated_at` and the detail of an
-- event, which no method reads, are left out. The hash that names a row of the manifest is an
-- argument of a call (`Context`). Of the constraints of the database, the model has those that a
-- call can break: an id that is taken, a path twice in a job, a job of a source that is not
-- there, and an external task of two items end the call with an integrity error. A row that is
-- missing against a foreign key is an exception, or no row, as in the source; only the views that
-- end `create_job` and `cancel_job`, which would raise where the source of a job is missing, are
-- not modelled. The random ids of a new job and its items are arguments. The lock of a source
-- around it only orders calls. Making plans, scanning and the views are not modelled, nor is the
-- worker, whose calls are the requests.
--
-- Sync models core/knowledge/jobs/sync.py: the changes between a scan of a source and the
-- manifest of its last import, which become the items of a job. A manifest is a dict from a path
-- to a revision and a status. Sync/Sorted: `sorted` by a text, as a stable insertion sort.
-- Sync/Changes: `build_sync_changes`, and the loop of `build_manifest_hash` that applies changes
-- (`target_manifest`). Sync/Rows and Sync/Target: the changes of one path, and the row that they
-- write. Sync/Roundtrip proves. The items of a dict are sorted by their keys, which are distinct.
-- SHA-256 of a text is an argument; the JSON texts that are hashed to a plan id and a manifest
-- hash are not modelled.
--
-- The parts meet in the agent: a thread's state is checkpointed while its run writes the journal
-- under its lease; the repair loop keeps a database of its own, and so do the imports, whose job
-- events the interface reads.
pub mod Base
pub mod Jobs
pub mod Journal
pub mod Loop
pub mod Policy
pub mod Sync
pub mod Thread

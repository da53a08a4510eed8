-- ===== src/Lib.antt =====
-- TelDrive Lab: jobs, the safety boundary, workers and transfers, and the services around them, the
-- lifecycle of files, the catalog, integrity, monitoring, backups and bounded walks.
--
-- A worker (teldrive_lab/worker.py) claims a job from the durable store (teldrive_lab/jobs.py), has
-- its operation and paths judged by the safety boundary (teldrive_lab/safety.py), hands it to the
-- executor that the registry (teldrive_lab/execution.py) has for its type, and records the outcome
-- in the store and in the audit log (teldrive_lab/audit.py). The executor of transfers
-- (teldrive_lab/transfer_executor.py) goes through the manager of teldrive_lab/transfer.py, which is
-- admitted by the limiter of teldrive_lab/concurrency.py and copies through a temporary file; retries
-- wait as teldrive_lab/retry.py says. teldrive_lab/job_lifecycle.py wraps the store with audit events.
--
-- teldrive_lab/lifecycle.py plans quarantines, purges and restores, and its executor runs a plan
-- through the manager of transfers and the safety boundary. teldrive_lab/catalog.py keeps the records
-- of teldrive_lab/models.py, which teldrive_lab/indexer.py finds and teldrive_lab/integrity.py verifies against the files;
-- teldrive_lab/monitoring.py raises and resolves alerts on what it reads of the job store;
-- teldrive_lab/backups.py schedules backups as jobs of that store. teldrive_lab/resources.py has the walk
-- over a directory tree and the loops over chunks.
--
-- Prelude: library names, lists, numbers, texts. Text: Python's operations on texts, by code points.
-- Exec: methods as state passing with errors; a state that was committed stays after an error.
-- Sql: WHERE, ORDER BY and UPDATE on a list of rows; Sql.Upsert is INSERT … ON CONFLICT.
-- Files: the name of a path, its text, `path / text` and Path.resolve.
-- Jobs: the states, Job and the row of the table; Jobs.Store, Jobs.Updates and Jobs.Claims are the
--   methods of JobStore under their own names, each one transaction, except that retry is a SELECT
--   (retry_read) and an UPDATE (retry_write). Jobs.Trace puts them into one type of operations, so
--   that Jobs.Invariant, Jobs.History, Jobs.Atomic, Jobs.Ownership speak of all of them; Jobs.Claiming,
--   Jobs.Retrying and Jobs.Listing are about single methods.
-- Safety: operations, Safety.Paths (is_protected and what it resolves), Safety.Policy (authorize,
--   receipts), Safety.Laws and Safety.Boundary. The host's working directory, resolution of links,
--   home directories and environment variables are the fields of Host.
-- Audit, JobLifecycle: record_event and AuditedJobStore; JobLifecycle.Calls puts its methods into one
--   type of calls, beside the plain ones and what the log is meant to hold.
-- Retry: RetryPolicy and both classifications of errors.
-- Concurrency: TransferLimiter, its threads and those that sleep on the condition; Concurrency.Steps
--   lets the threads interleave. A thread that waits for the semaphore takes no step.
-- Worker: run_once, in the parts handle, refuse, approve and settle; the executor maps the stores
--   before its call to the stores after it, since other processes act while it runs.
-- Transfer, TransferExecutor, Execution: LocalCopyBackend.transfer, TransferManager,
--   TransferJobExecutor.execute, DispatchingExecutor and DurableExecutionRegistry.
-- Organization: the planner's verdict on a classified record, apply, and OrganizationJobExecutor.
-- Archive: the verdict of the archive planner on a record; Archive.Execution is apply and
--   ArchiveJobExecutor.
-- Reconcile, Runtime: reconcile_file, and the checks of the Lab's own directories.
-- Lifecycle: the types; Lifecycle.Store is LifecycleStore, Lifecycle.Plans is LifecyclePlanner (one
--   function to a turn of each loop), Lifecycle.Execution is LifecycleExecutor on one state of disk,
--   records and audit log; StoreLaws, PlanLaws and PurgeLaws prove.
-- Models, Catalog: FileRecord and the methods of Catalog.
-- Indexer: IndexLimits and Indexer.scan.
-- Integrity: IntegrityStore, verify_path, verify_records, the reports on stale and missing files, and
--   duplicate_groups; Integrity.Freshness and Integrity.Groups prove.
-- Monitoring: snapshots and evaluate; Monitoring.Store is MonitoringStore, Monitoring.Collect is collect.
-- Backups: verify and reconcile; Backups.Plans is BackupPlanner, Backups.Execution apply and restore,
--   Backups.Purge the table of backups with its locks and purge, Backups.Schedules the scheduler,
--   Backups.Queued the jobs it adds.
-- Resources: iter_files; Resources.Preorder is the recursive walk that it is compared with;
--   Resources.Streams: stream_sha256, copy_stream, bounded_sample.
-- Witnesses: the theorems at concrete inputs.
--
-- Units: times and delays are whole microseconds, progress is in millionths (1.0 is 1000000), jitter
-- and random values in millionths, and the delay that Retry returns in millionths of a millionth of
-- a microsecond, so that no step rounds. The dates of the lifecycle and of backups are microseconds too,
-- those of the catalog and of alerts stay texts. Functions are by structural recursion, but for three
-- loops on fuel: the scan of the indexer takes one turn more than its limit of entries; iter_files takes one turn to a directory, and the number of directories that the recursive walk
-- reads is enough, however links lead; the loops over chunks take a turn to a byte and one more.
-- A number that Python allows to be negative is an ℤ, and its check is part of the method.
--
-- Not modelled: SQLite itself, connections and the creation of tables; SHA-256 and JSON texts; floats of
-- percentages, which are arguments; the callbacks of progress; the digests and counts of plans; OSErrors
-- while a lifecycle or backup plan is made or verified, and changes of files during such a call; the
-- classification of records by names and media types; the corpus and search; the planners of advanced.py and extended.py; health probes,
-- command lines, scripts and calls of external programs.
pub mod Prelude
pub mod Text
pub mod Exec
pub mod Sql
pub mod Jobs
pub mod Safety
pub mod Audit
pub mod JobLifecycle
pub mod Retry
pub mod Concurrency
pub mod Worker
pub mod Transfer
pub mod TransferExecutor
pub mod Execution
pub mod Witnesses
pub mod Runtime
pub mod Models
pub mod Reconcile
pub mod Backups
pub mod Monitoring
pub mod Organization
pub mod Lifecycle
pub mod Resources
pub mod Files
pub mod Catalog
pub mod Archive
pub mod Indexer
pub mod Integrity

-- ===== src/Execution.antt =====
-- teldrive_lab/execution.py: the registry of executors by job type, and the executor that dispatches to
-- them. The installed executors are arguments, by the names of their classes.
pub mod Laws
use teldrive_lab.Prelude.{
  String, Bool, true, false, Option, none, some, List, [], ◌∷◌, map, if◌then◌else◌, eqb, ◌==◌, pos,
}
use teldrive_lab.Exec.{Action, Result, ok, err, value_error}
use teldrive_lab.Text.{append}
use teldrive_lab.Safety.{AuthorizationReceipt}
use teldrive_lab.Safety.Paths.{Host}
use teldrive_lab.Jobs.{JobType, Job, type_value}
use teldrive_lab.JobLifecycle.{Stores}
use teldrive_lab.Worker.{
  ExecutionStatus, ExecutionResult, Outcome, returns, raises, Executor, Worker, Session, execute,
  run_once,
}
use teldrive_lab.TransferExecutor.{ends}

-- `self._executors`, with distinct keys.
abbrev pub Executors : Type 0
Executors = List (JobType × Executor)

abbrev pub same_type : JobType → JobType → Bool
same_type a b = type_value a == type_value b

unfoldable pub lookup : JobType → Executors → Option Executor
lookup t [] = none
lookup t ((u, e) ∷ rest) = if same_type u t then some e else lookup t rest

abbrev dispatch_to : Job → Option AuthorizationReceipt → Option Executor → Stores → Outcome × Stores
dispatch_to job authorization none s = (
  returns (
      ends ExecutionStatus.permanent "UNSUPPORTED_JOB_TYPE"
        (append "no durable executor registered for " (type_value job.type))),
  s,
)
dispatch_to job authorization (some e) s = execute e job authorization s

-- `DispatchingExecutor.execute`
unfoldable pub dispatch : Executors → Job → Option AuthorizationReceipt → Stores → Outcome × Stores
dispatch executors job authorization = dispatch_to job authorization (lookup job.type executors)

-- The instances that the registry builds.
pub record Installed : Type 0 where
  pub transfer : Executor
  pub archive : Executor
  pub organization : Executor
  pub backup : Executor
  pub lifecycle : Executor
  pub verification : Executor

-- `DurableExecutionRegistry.__init__`
abbrev pub registry : Installed → Executors
registry i =
    (JobType.upload, i.transfer)
    ∷ (JobType.download, i.transfer)
    ∷ (JobType.archive, i.archive)
    ∷ (JobType.organize, i.organization)
    ∷ (JobType.backup, i.backup)
    ∷ (JobType.snapshot, i.backup)
    ∷ (JobType.cleanup, i.lifecycle)
    ∷ (JobType.restore, i.lifecycle)
    ∷ (JobType.verify, i.verification)
    ∷ []

abbrev pub capabilities : Executors → List JobType
capabilities = map (λ entry. entry.0)

abbrev installed_or_error : JobType → Option Executor → Result Executor
installed_or_error t none =
    err (value_error (append "no durable executor registered for " (type_value t)))
installed_or_error t (some e) = ok e

unfoldable pub executor_for : Executors → JobType → Result Executor
executor_for executors t = installed_or_error t (lookup t executors)

-- `worker`: the fields but the executor are the caller's.
unfoldable pub registry_worker : Executors → Worker → Worker
registry_worker executors w = record w { executor = Executor.modern (dispatch executors) }

unfoldable pub registry_run_once : Executors → Worker → Session → Host → Action Stores (Option Job)
registry_run_once executors w session h = run_once (registry_worker executors w) session h

-- ===== src/Worker.antt =====
-- teldrive_lab/worker.py: one worker that claims a job, has it judged by the safety boundary, hands it to
-- an executor and records the outcome. The executor, the provider of receipts, the clock and the
-- fresh event identifiers are arguments. An executor runs for as long as other processes need to
-- change the stores, so it maps the stores before its call to the stores after it.
pub mod Gate
pub mod Traces
use teldrive_lab.Prelude.{
  ℕ, String, Bool, true, false, not, ◌&&◌, ◌||◌, Option, none, some, List, [], ◌∷◌, map,
  if◌then◌else◌, ◌==◌, or_text, truthy, holds, filter_by, ℤ, pos, negsuc,
}
use teldrive_lab.Exec.{Action, Result, ok, err, pure, gets, or_raise, ◌>>=◌, ◌>>◌}
use teldrive_lab.Audit.{Detail, text, null, Event, record_event}
use teldrive_lab.Safety.{Operation, Decision, AuthorizationReceipt}
use teldrive_lab.Safety.Paths.{Host}
use teldrive_lab.Safety.Policy.{authorize}
use teldrive_lab.Jobs.{JobState, JobType, Job, state_value, type_value, is_active}
use teldrive_lab.Jobs.Store.{get}
use teldrive_lab.Jobs.Updates.{begin_verification, complete_verification, cancel, fail}
use teldrive_lab.Jobs.Claims.{claim, retry}
use teldrive_lab.JobLifecycle.{Stores, on_jobs, on_events, Stamp}

pub data ExecutionStatus : Type 0 where
  success retryable permanent unsafe cancelled : ExecutionStatus

abbrev pub status_value : ExecutionStatus → String
status_value ExecutionStatus.success = "SUCCESS"
status_value ExecutionStatus.retryable = "RETRYABLE"
status_value ExecutionStatus.permanent = "PERMANENT"
status_value ExecutionStatus.unsafe = "UNSAFE"
status_value ExecutionStatus.cancelled = "CANCELLED"

-- Delays are whole microseconds here.
pub record ExecutionResult : Type 0 where
  pub status : ExecutionStatus
  pub error_code : Option String
  pub error_message : Option String
  pub delay_seconds : ℤ

-- What a call of an executor ends with: a result, or an exception with its text.
pub data Outcome : Type 0 where
  returns : ExecutionResult → Outcome
  raises : String → Outcome

-- `JobExecutor`: one that takes the authorization, and a legacy one that takes the job only.
pub data Executor : Type 0 where
  modern : (Job → Option AuthorizationReceipt → Stores → Outcome × Stores) → Executor
  legacy : (Job → Stores → Outcome × Stores) → Executor

pub record Worker : Type 0 where
  pub executor : Executor
  pub worker_id : String
  pub audits : Bool
  pub lease_seconds : ℤ
  pub provider : Option (Job → Result (Option AuthorizationReceipt))

-- The readings of the clock at the calls on the job store, and the stamps of the audit events,
-- each by its number in the run.
pub record Session : Type 0 where
  pub now : ℕ → ℕ
  pub stamp : ℕ → Stamp

-- `_operation_for`
unfoldable pub operation_for : Job → Operation
operation_for job =
    if type_value job.type == "INDEX"
    then Operation.index
    else if type_value job.type == "VERIFY"
    then Operation.verify
    else Operation.transfer

abbrev keep : Option String → List String → List String
keep none rest = rest
keep (some p) rest = if p == "" then rest else p ∷ rest

-- `[p for p in (job.source, job.destination, job.path) if p]`
abbrev pub job_paths : Job → List String
job_paths job = keep job.source (keep job.destination (keep job.path []))

-- `_safety_decision`
unfoldable pub safety_decision : Host → Job → Option AuthorizationReceipt → Decision
safety_decision h job authorization =
    authorize h (operation_for job) (job_paths job) false authorization

-- `_audit`
unfoldable pub audit :
    Worker
    → Stamp
    → (operation : String) → Job
    → (decision result : String) → (error_code : Option String) → (details : List (String × Detail))
    → Action Stores (Unit {0})
audit w stamp operation job decision result error_code details =
    if not w.audits
    then pure tt
    else on_events (
        record_event (record {
          event_id = stamp.event_id;
          timestamp = stamp.timestamp;
          operation = operation;
          job_id = some job.job_id;
          source = job.source;
          destination = job.destination;
          decision = decision;
          result = some result;
          checksum = none;
          error_code = error_code;
          details = details;
        }))

-- `_execute`
unfoldable pub execute : Executor → Job → Option AuthorizationReceipt → Stores → Outcome × Stores
execute (Executor.modern run) job authorization = run job authorization
execute (Executor.legacy run) job authorization = run job

-- `except Exception as exc`
abbrev pub result_of : Outcome → ExecutionResult
result_of (returns r) = r
result_of (raises message) = record {
  status = ExecutionStatus.retryable;
  error_code = some "EXECUTOR_EXCEPTION";
  error_message = some message;
  delay_seconds = pos 0;
}

abbrev pub attempted : Executor → Job → Option AuthorizationReceipt → Action Stores ExecutionResult
attempted e job authorization s =
    let (outcome, s') = execute e job authorization s in (ok (result_of outcome), s')

-- `authorization_provider(job) if authorization_provider else None`
abbrev pub provided : Worker → Job → Result (Option AuthorizationReceipt)
provided w job = elim w.provider [ none ↦ ok none | some ask ↦ ask job ]

abbrev pub from_result : {A : Type 0} → Result A → Action Stores A
from_result r s = (r, s)

abbrev pub floor : ℤ → ℤ
floor (pos n) = pos n
floor (negsuc n) = pos 0

abbrev pub authorization_detail : Option AuthorizationReceipt → Detail
authorization_detail none = null
authorization_detail (some r) = text r.authorization_id

-- `result.error_code or default`
abbrev pub or_default : Option String → String → String
or_default none default = default
or_default (some s) default = if s == "" then default else s

module _ (w : Worker) (session : Session) where
  -- The branch of `run_once` for a denied job.
  unfoldable pub refuse : Job → Decision → Action Stores (Option Job)
  refuse job decision = do
    audit w (session.stamp 1) "worker.safety_gate" job "DENIED" "BLOCKED" (some "UNSAFE_OPERATION")
        (("reason", text decision.reason) ∷ [])
    failed ←
        on_jobs (fail job.job_id w.worker_id "UNSAFE_OPERATION" decision.reason (session.now 1))
    audit w (session.stamp 2) "worker.failure" failed "DENIED" "FAILED" (some "UNSAFE_OPERATION") []
    pure (some failed)

  -- The end of the branch for a success.
  unfoldable pub confirm : Job → Action Stores (Option Job)
  confirm job = do
    completed ← on_jobs (complete_verification job.job_id w.worker_id (session.now 2))
    audit w (session.stamp 2) "worker.complete" completed "ALLOWED" "COMPLETED" none
        (("verification_state", text (state_value JobState.verifying)) ∷ [])
    pure (some completed)

  unfoldable pub succeed : Job → Action Stores (Option Job)
  succeed job = do on_jobs (begin_verification job.job_id w.worker_id (session.now 1)); confirm job

  unfoldable pub drop_job : Job → Action Stores (Option Job)
  drop_job job = do
    dropped ← on_jobs (cancel job.job_id (session.now 1))
    audit w (session.stamp 2) "worker.cancel" dropped "ALLOWED" "CANCELLED" none []
    pure (some dropped)

  unfoldable pub retry_job : Job → ExecutionResult → Action Stores (Option Job)
  retry_job job result = do
    retried ← on_jobs (
        retry job.job_id w.worker_id (or_default result.error_code "RETRYABLE")
          (or_default result.error_message "retryable execution failure")
          (floor result.delay_seconds) (session.now 1))
    audit w (session.stamp 2) "worker.retry" retried "ALLOWED" (state_value retried.state)
        retried.error_code []
    pure (some retried)

  unfoldable pub fail_job : Job → ExecutionResult → Action Stores (Option Job)
  fail_job job result = do
    failed ← on_jobs (
        fail job.job_id w.worker_id (or_default result.error_code (status_value result.status))
          (or_default result.error_message "execution failed") (session.now 1))
    audit w (session.stamp 2) "worker.failure" failed "ALLOWED" "FAILED" failed.error_code []
    pure (some failed)

  -- The branches on the status.
  abbrev pub settle_status : ExecutionStatus → Job → ExecutionResult → Action Stores (Option Job)
  settle_status ExecutionStatus.success job result = succeed job
  settle_status ExecutionStatus.cancelled job result = drop_job job
  settle_status ExecutionStatus.retryable job result = retry_job job result
  settle_status ExecutionStatus.permanent job result = fail_job job result
  settle_status ExecutionStatus.unsafe job result = fail_job job result

  -- The worker still has the job that the store shows.
  abbrev pub still_owns : Job → Bool
  still_owns current = is_active current.state && holds current.worker_id w.worker_id

  unfoldable pub yield_job : Job → ExecutionResult → Action Stores (Option Job)
  yield_job current result = do
    audit w (session.stamp 2) "worker.control_race" current "ALLOWED" (state_value current.state)
        none (("execution_status", text (status_value result.status)) ∷ [])
    pure (some current)

  abbrev pub settle_current : Job → ExecutionResult → Job → Action Stores (Option Job)
  settle_current job result current =
      if still_owns current
      then settle_status result.status job result
      else yield_job current result

  -- `run_once` from the result of the executor on.
  unfoldable pub settle : Job → ExecutionResult → Action Stores (Option Job)
  settle job result = do current ← on_jobs (get job.job_id); settle_current job result current

  unfoldable pub approve : Job → Option AuthorizationReceipt → Action Stores (Option Job)
  approve job authorization = do
    audit w (session.stamp 1) "worker.safety_gate" job "ALLOWED" "APPROVED" none
        (("authorization_id", authorization_detail authorization) ∷ [])
    result ← attempted w.executor job authorization
    settle job result

  -- The test of the decision.
  abbrev pub gate : Host → Job → Option AuthorizationReceipt → Action Stores (Option Job)
  gate h job authorization =
      if (safety_decision h job authorization).allowed
      then approve job authorization
      else refuse job (safety_decision h job authorization)

  -- `run_once` from the claimed job on.
  unfoldable pub handle : Host → Job → Action Stores (Option Job)
  handle h job = do
    audit w (session.stamp 0) "worker.claim" job "ALLOWED" "CLAIMED" none []
    authorization ← from_result (provided w job)
    gate h job authorization

  abbrev pub handle_claimed : Host → Option Job → Action Stores (Option Job)
  handle_claimed h none = pure none
  handle_claimed h (some job) = handle h job

  unfoldable pub run_once : Host → Action Stores (Option Job)
  run_once h = on_jobs (claim w.worker_id w.lease_seconds (session.now 0)) >>= handle_claimed h

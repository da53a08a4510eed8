-- ===== src/JobLifecycle.antt =====
-- teldrive_lab/job_lifecycle.py: the job store with an audit event for each lifecycle action, and the
-- comparison of intended work with an observed outcome.
pub mod Calls
pub mod Laws
use teldrive_lab.Prelude.{
  ℕ, String, Bool, true, false, Option, none, some, List, [], ◌∷◌, if◌then◌else◌, ◌==◌, or_text,
  truthy, ℤ, eqb, not,
}
use teldrive_lab.Exec.{Action, Result, ok, err, pure, ◌>>=◌, ◌>>◌}
use teldrive_lab.Audit.{Detail, text, number, null, Event, record_event}
use teldrive_lab.Jobs.{JobState, JobType, Job, state_value}
use teldrive_lab.Jobs.Store.{Table, Request}
use teldrive_lab.Jobs.Store
use teldrive_lab.Jobs.Updates
use teldrive_lab.Jobs.Claims

pub record Reconciliation : Type 0 where
  pub safe_to_execute : Bool
  pub reason : String

-- Both checksums are there and not empty.
abbrev compare_checksums : Option String → Option String → Reconciliation
compare_checksums (some a) (some b) =
    if a == ""
    then record {
      safe_to_execute = false;
      reason = "existing artifact cannot be safely identified";
    }
    else if b == ""
    then record {
      safe_to_execute = false;
      reason = "existing artifact cannot be safely identified";
    }
    else if a == b
    then record { safe_to_execute = false; reason = "matching checksum already observed" }
    else record { safe_to_execute = false; reason = "existing artifact has a different checksum" }
compare_checksums _ _ = record {
  safe_to_execute = false;
  reason = "existing artifact cannot be safely identified";
}

unfoldable pub reconcile :
    (intended_checksum observed_checksum : Option String) (observed_exists : Bool) → Reconciliation
reconcile intended observed exists =
    if not exists
    then record { safe_to_execute = true; reason = "no matching completed artifact observed" }
    else compare_checksums intended observed

-- The two files of an `AuditedJobStore`.
pub record Stores : Type 0 where
  pub jobs : Table
  pub events : List Event

abbrev pub on_jobs : {A : Type 0} → Action Table A → Action Stores A
on_jobs m s = let (r, jobs) = m s.jobs in (r, record s { jobs = jobs })

abbrev pub on_events : {A : Type 0} → Action (List Event) A → Action Stores A
on_events m s = let (r, events) = m s.events in (r, record s { events = events })

-- What a call of `_audit` is given; the decision is always "ALLOW". A stamp is the fresh
-- identifier of the event and the reading of the clock.
pub record Stamp : Type 0 where
  pub event_id : String
  pub timestamp : ℕ

abbrev pub job_event :
    Stamp
    → (operation : String) → Job
    → (result : String) → (error_code : Option String) → List (String × Detail)
    → Event
job_event stamp operation job result error_code details = record {
  event_id = stamp.event_id;
  timestamp = stamp.timestamp;
  operation = operation;
  job_id = some job.job_id;
  source = job.source;
  destination = job.destination;
  decision = "ALLOW";
  result = some result;
  checksum = job.checksum;
  error_code = error_code;
  details = details;
}

-- `_audit`
unfoldable pub audit :
    Stamp
    → (operation : String) → Job
    → (result : String) → (error_code : Option String) → List (String × Detail)
    → Action Stores (Unit {0})
audit stamp operation job result error_code details =
    on_events (record_event (job_event stamp operation job result error_code details))

unfoldable pub enqueue : JobType → Request → (fresh : String) (now : ℕ) → Stamp → Action Stores Job
enqueue job_type q fresh now stamp = do
  job ← on_jobs (Store.enqueue job_type q fresh now)
  audit stamp "JOB_ENQUEUE" job "QUEUED" none []
  pure job

-- `lease_text` is the float as the JSON holds it.
abbrev claim_event : Stamp → String → String → Option Job → Action Stores (Option Job)
claim_event stamp worker_id lease_text none = pure none
claim_event stamp worker_id lease_text (some job) = do
  audit stamp "JOB_CLAIM" job "RUNNING" none
      (("worker_id", text worker_id) ∷ ("lease_seconds", text lease_text) ∷ [])
  pure (some job)

unfoldable pub claim :
    (worker_id : String) (lease_seconds : ℤ) (lease_text : String) (now : ℕ)
    → Stamp
    → Action Stores (Option Job)
claim worker_id lease_seconds lease_text now stamp = do
  claimed ← on_jobs (Claims.claim worker_id lease_seconds now)
  claim_event stamp worker_id lease_text claimed

unfoldable pub complete : (job_id worker_id : String) (now : ℕ) → Stamp → Action Stores Job
complete job_id worker_id now stamp = do
  job ← on_jobs (Updates.complete job_id worker_id now)
  audit stamp "JOB_COMPLETE" job "COMPLETED" none []
  pure job

abbrev pub optional_text : Option String → Detail
optional_text none = null
optional_text (some s) = text s

unfoldable pub pause :
    (job_id : String) (worker_id : Option String) (now : ℕ) → Stamp → Action Stores Job
pause job_id worker_id now stamp = do
  job ← on_jobs (Updates.pause job_id worker_id now)
  audit stamp "JOB_PAUSE" job "PAUSED" none (("worker_id", optional_text worker_id) ∷ [])
  pure job

unfoldable pub resume : (job_id : String) (now : ℕ) → Stamp → Action Stores Job
resume job_id now stamp = do
  job ← on_jobs (Updates.resume job_id now)
  audit stamp "JOB_RESUME" job "QUEUED" none []
  pure job

unfoldable pub cancel : (job_id : String) (now : ℕ) → Stamp → Action Stores Job
cancel job_id now stamp = do
  job ← on_jobs (Updates.cancel job_id now)
  audit stamp "JOB_CANCEL" job "CANCELLED" none []
  pure job

unfoldable pub retry :
    (job_id worker_id error_code error_message : String) (delay_seconds : ℤ) (delay_text : String)
    (now : ℕ)
    → Stamp
    → Action Stores Job
retry job_id worker_id error_code error_message delay_seconds delay_text now stamp = do
  job ← on_jobs (Claims.retry job_id worker_id error_code error_message delay_seconds now)
  audit stamp "JOB_RETRY" job (state_value job.state) (some error_code)
      (("delay_seconds", text delay_text) ∷ [])
  pure job

abbrev pub recovery_event : Stamp → ℕ → Event
recovery_event stamp count = record {
  event_id = stamp.event_id;
  timestamp = stamp.timestamp;
  operation = "JOB_LEASE_RECOVERY";
  job_id = none;
  source = none;
  destination = none;
  decision = "ALLOW";
  result = some "REQUEUED";
  checksum = none;
  error_code = none;
  details = ("count", number count) ∷ [];
}

unfoldable pub recover_expired_leases : (now : ℕ) → Stamp → Action Stores ℕ
recover_expired_leases now stamp = do
  count ← on_jobs (Claims.recover_expired_leases now)
  if eqb count 0
      then pure count
      else do on_events (record_event (recovery_event stamp count)); pure count

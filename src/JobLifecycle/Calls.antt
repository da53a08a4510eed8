-- ===== src/JobLifecycle/Calls.antt =====
-- The methods of the audited store as one type of calls, beside those of the store itself, and what
-- the log is meant to hold of each.
use teldrive_lab.Prelude.{ℕ, String, Option, none, some, List, [], ◌∷◌, ◌++◌, if◌then◌else◌, ℤ, eqb}
use teldrive_lab.Exec.{Action, Result, ok, err, integrity_error, pure, ◌>>=◌}
use teldrive_lab.Audit.{text, Event, event_row, known_event}
use teldrive_lab.Jobs.{JobType, Job, state_value}
use teldrive_lab.Jobs.Store.{Table, Request}
use teldrive_lab.Jobs.Store
use teldrive_lab.Jobs.Updates
use teldrive_lab.Jobs.Claims
use teldrive_lab.JobLifecycle.{
  Stores, Stamp, job_event, optional_text, recovery_event, enqueue, claim, complete, pause, resume,
  cancel, retry, recover_expired_leases,
}

pub data Call : Type 0 where
  enqueues : JobType → Request → (fresh : String) → (now : ℕ) → Call
  claims : (worker_id : String) → (lease_seconds : ℤ) → (lease_text : String) → (now : ℕ) → Call
  completes : (job_id worker_id : String) → (now : ℕ) → Call
  pauses : (job_id : String) → (worker_id : Option String) → (now : ℕ) → Call
  resumes : (job_id : String) → (now : ℕ) → Call
  cancels : (job_id : String) → (now : ℕ) → Call
  retries :
      (job_id worker_id error_code error_message : String)
      → (delay_seconds : ℤ) → (delay_text : String) → (now : ℕ) → Call
  recovers : (now : ℕ) → Call

-- What the methods return.
pub data Answer : Type 0 where
  one : Job → Answer
  perhaps : Option Job → Answer
  many : ℕ → Answer

abbrev pub answer : {S A : Type 0} → (A → Answer) → Action S A → Action S Answer
answer f m = m >>= λ a. pure (f a)

-- The method of `JobStore`.
abbrev pub plain : Call → Action Table Answer
plain (enqueues ty q fresh now) = answer one (Store.enqueue ty q fresh now)
plain (claims w lease lease_text now) = answer perhaps (Claims.claim w lease now)
plain (completes k w now) = answer one (Updates.complete k w now)
plain (pauses k w now) = answer one (Updates.pause k w now)
plain (resumes k now) = answer one (Updates.resume k now)
plain (cancels k now) = answer one (Updates.cancel k now)
plain (retries k w code message delay delay_text now) =
    answer one (Claims.retry k w code message delay now)
plain (recovers now) = answer many (Claims.recover_expired_leases now)

-- The method of `AuditedJobStore`.
abbrev pub audited : Call → Stamp → Action Stores Answer
audited (enqueues ty q fresh now) stamp = answer one (enqueue ty q fresh now stamp)
audited (claims w lease lease_text now) stamp = answer perhaps (claim w lease lease_text now stamp)
audited (completes k w now) stamp = answer one (complete k w now stamp)
audited (pauses k w now) stamp = answer one (pause k w now stamp)
audited (resumes k now) stamp = answer one (resume k now stamp)
audited (cancels k now) stamp = answer one (cancel k now stamp)
audited (retries k w code message delay delay_text now) stamp =
    answer one (retry k w code message delay delay_text now stamp)
audited (recovers now) stamp = answer many (recover_expired_leases now stamp)

-- The event that the log is to hold of a call that returned this, if any.
abbrev pub logged : Stamp → Call → Answer → Option Event
logged stamp (enqueues ty q fresh now) (one job) =
    some (job_event stamp "JOB_ENQUEUE" job "QUEUED" none [])
logged stamp (claims w lease lease_text now) (perhaps (some job)) = some (
    job_event stamp "JOB_CLAIM" job "RUNNING" none
      (("worker_id", text w) ∷ ("lease_seconds", text lease_text) ∷ []))
logged stamp (completes k w now) (one job) =
    some (job_event stamp "JOB_COMPLETE" job "COMPLETED" none [])
logged stamp (pauses k w now) (one job) =
    some (job_event stamp "JOB_PAUSE" job "PAUSED" none (("worker_id", optional_text w) ∷ []))
logged stamp (resumes k now) (one job) = some (job_event stamp "JOB_RESUME" job "QUEUED" none [])
logged stamp (cancels k now) (one job) = some (job_event stamp "JOB_CANCEL" job "CANCELLED" none [])
logged stamp (retries k w code message delay delay_text now) (one job) = some (
    job_event stamp "JOB_RETRY" job (state_value job.state) (some code)
      (("delay_seconds", text delay_text) ∷ []))
logged stamp (recovers now) (many count) =
    if eqb count 0 then none else some (recovery_event stamp count)
logged stamp _ _ = none

-- The event on the log: its identifier must be a new one.
abbrev written : Answer → Option Event → List Event → Result Answer × List Event
written a none events = (ok a, events)
written a (some e) events =
    if known_event e.event_id events
    then (err integrity_error, events)
    else (ok a, events ++ event_row e ∷ [])

-- The outcome of an audited call and its log, from the outcome of the plain call and the event that
-- is meant for it.
abbrev pub on_log :
    (Answer → Option Event) → Result Answer → List Event → Result Answer × List Event
on_log meant (err e) events = (err e, events)
on_log meant (ok a) events = written a (meant a) events

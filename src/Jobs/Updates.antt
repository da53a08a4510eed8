-- ===== src/Jobs/Updates.antt =====
-- The methods of `JobStore` that change one row: an UPDATE whose WHERE clause names the job, its
-- owner and the states that it may be in, an error if no row was changed, and the job as it is then.
use teldrive_lab.Prelude.{
  ℕ, ◌+◌, min, String, Bool, ◌&&◌, Option, none, some, leb, eqb, if◌then◌else◌, count_by, ◌==◌,
  holds, ℤ, pos, negsuc, positive,
}
use teldrive_lab.Exec.{Action, ok, raise, raise_if, ◌>>=◌, ◌>>◌, value_error}
use teldrive_lab.Sql.{update_where}
use teldrive_lab.Jobs.{
  JobState, Job, Row, is_running, is_paused, is_verifying, is_active, is_cancellable,
}
use teldrive_lab.Jobs.Store.{Table, whole, get}

-- UPDATE jobs SET … WHERE …, with its rowcount.
unfoldable pub update : (Row → Bool) → (Row → Row) → Action Table ℕ
unfolding update_where
update matching change table = (ok (count_by matching table), update_where matching change table)

-- `if not changed: raise ValueError(message)`, then `return self.get(job_id)`.
unfoldable pub update_one : (Row → Bool) → (Row → Row) → String → String → Action Table Job
update_one matching change message job_id = do
  changed ← update matching change
  raise_if (eqb changed 0) (value_error message)
  get job_id

-- WHERE job_id=? AND worker_id=? AND (state test)
abbrev pub owned : String → String → (JobState → Bool) → Row → Bool
owned job_id worker_id test r = r.job_id == job_id && holds r.worker_id worker_id && test r.state

-- WHERE job_id=? AND (state test)
abbrev pub in_state : String → (JobState → Bool) → Row → Bool
in_state job_id test r = r.job_id == job_id && test r.state

abbrev renew_for : String → String → ℕ → Option ℕ → Action Table Job
renew_for job_id worker_id now none = raise (value_error "lease_seconds must be positive")
renew_for job_id worker_id now (some lease) =
    update_one (owned job_id worker_id is_running)
      (λ r. record r { lease_until = some (now + lease); updated = now })
      "job is not owned by worker or is not running" job_id

unfoldable pub renew_lease :
    (job_id worker_id : String) (lease_seconds : ℤ) (now : ℕ) → Action Table Job
renew_lease job_id worker_id lease_seconds now =
    renew_for job_id worker_id now (positive lease_seconds)

-- `0 <= progress <= 1`
abbrev pub fraction : ℤ → Option ℕ
fraction (pos n) = if leb n whole then some n else none
fraction (negsuc n) = none

abbrev progress_for : String → String → ℕ → Option ℕ → Action Table Job
progress_for job_id worker_id now none = raise (value_error "progress must be between 0 and 1")
progress_for job_id worker_id now (some p) =
    update_one (owned job_id worker_id is_running) (λ r. record r { progress = p; updated = now })
      "job is not owned by this worker or is not running" job_id

unfoldable pub update_progress :
    (job_id worker_id : String) (progress : ℤ) (now : ℕ) → Action Table Job
update_progress job_id worker_id progress now =
    progress_for job_id worker_id now (fraction progress)

unfoldable pub begin_verification : (job_id worker_id : String) (now : ℕ) → Action Table Job
begin_verification job_id worker_id now =
    update_one (owned job_id worker_id is_running)
      (λ r. record r {
        state = JobState.verifying;
        progress = min r.progress 999999;
        updated = now;
      })
      "job cannot enter VERIFYING by this worker" job_id

-- SET state='COMPLETED', progress=1, completed=?, updated=?, lease_until=NULL, worker_id=NULL
abbrev pub completed_row : ℕ → Row → Row
completed_row now r = record r {
  state = JobState.completed;
  progress = whole;
  completed = some now;
  updated = now;
  lease_until = none;
  worker_id = none;
}

unfoldable pub complete_verification : (job_id worker_id : String) (now : ℕ) → Action Table Job
complete_verification job_id worker_id now =
    update_one (owned job_id worker_id is_verifying) (completed_row now)
      "job cannot complete verification by this worker" job_id

unfoldable pub complete : (job_id worker_id : String) (now : ℕ) → Action Table Job
complete job_id worker_id now =
    update_one (owned job_id worker_id is_running) (completed_row now)
      "job cannot be completed by this worker" job_id

-- The two statements of `pause`: with a worker, and with none.
abbrev pub pausable : String → Option String → Row → Bool
pausable job_id none = in_state job_id is_running
pausable job_id (some worker_id) = owned job_id worker_id is_running

unfoldable pub pause : (job_id : String) (worker_id : Option String) (now : ℕ) → Action Table Job
pause job_id worker_id now =
    update_one (pausable job_id worker_id)
      (λ r. record r {
        state = JobState.paused;
        updated = now;
        worker_id = none;
        lease_until = none;
      })
      "job cannot be paused from its current state or by this worker" job_id

unfoldable pub resume : (job_id : String) (now : ℕ) → Action Table Job
resume job_id now =
    update_one (in_state job_id is_paused)
      (λ r. record r { state = JobState.queued; retry_at = none; updated = now })
      "job cannot be resumed from its current state" job_id

unfoldable pub fail :
    (job_id worker_id : String) (error_code error_message : String) (now : ℕ) → Action Table Job
fail job_id worker_id error_code error_message now =
    update_one (owned job_id worker_id is_active)
      (λ r. record r {
        state = JobState.failed;
        attempts = r.attempts + 1;
        error_code = some error_code;
        error_message = some error_message;
        updated = now;
        lease_until = none;
        worker_id = none;
      })
      "job cannot be failed by this worker" job_id

unfoldable pub cancel : (job_id : String) (now : ℕ) → Action Table Job
cancel job_id now =
    update_one (in_state job_id is_cancellable)
      (λ r. record r {
        state = JobState.cancelled;
        updated = now;
        lease_until = none;
        worker_id = none;
      })
      "job cannot be cancelled from its current state" job_id

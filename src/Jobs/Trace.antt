-- ===== src/Jobs/Trace.antt =====
-- The methods of `JobStore` as one type of operations, and sequences of them: what any number of
-- workers and operators do to the table, one committed method after another.
use teldrive_lab.Prelude.{ℕ, String, Option, List, [], ◌∷◌, ◌≡◌, arith, ℤ}
use teldrive_lab.Exec.{Action, pure, ◌>>=◌}
use teldrive_lab.Jobs.{JobType}
use teldrive_lab.Jobs.Store.{Table, Request, enqueue}
use teldrive_lab.Jobs.Updates.{
  renew_lease, update_progress, begin_verification, complete_verification, complete, pause, resume,
  fail, cancel,
}
use teldrive_lab.Jobs.Claims.{claim, recover_expired_leases, retry}
use teldrive_lab.Jobs.Invariant.{IsValid, Effect}
use teldrive_lab.Jobs.Effects.{
  renew_lease-Effect, update_progress-Effect, begin_verification-Effect,
  complete_verification-Effect, complete-Effect, pause-Effect, resume-Effect, fail-Effect,
  cancel-Effect,
}
use teldrive_lab.Jobs.Handover.{claim-Effect, recover_expired_leases-Effect, retry-Effect}
use teldrive_lab.Jobs.Enqueue.{enqueue-Effect}

pub data Op : Type 0 where
  enqueue_op : JobType → Request → (fresh : String) → (now : ℕ) → Op
  claim_op : (worker_id : String) → (lease_seconds : ℤ) → (now : ℕ) → Op
  renew_op : (job_id worker_id : String) → (lease_seconds : ℤ) → (now : ℕ) → Op
  progress_op : (job_id worker_id : String) → (progress : ℤ) → (now : ℕ) → Op
  begin_verification_op : (job_id worker_id : String) → (now : ℕ) → Op
  complete_verification_op : (job_id worker_id : String) → (now : ℕ) → Op
  complete_op : (job_id worker_id : String) → (now : ℕ) → Op
  pause_op : (job_id : String) → (worker_id : Option String) → (now : ℕ) → Op
  resume_op : (job_id : String) → (now : ℕ) → Op
  fail_op : (job_id worker_id code message : String) → (now : ℕ) → Op
  cancel_op : (job_id : String) → (now : ℕ) → Op
  recover_op : (now : ℕ) → Op
  retry_op : (job_id worker_id code message : String) → (delay_seconds : ℤ) → (now : ℕ) → Op

-- The result of a method is dropped; its error and its table are kept.
abbrev pub discard : {A : Type 0} → Action Table A → Action Table (Unit {0})
discard m = m >>= λ _. pure tt

unfoldable pub perform : Op → Action Table (Unit {0})
perform (enqueue_op ty q fresh now) = discard (enqueue ty q fresh now)
perform (claim_op w lease now) = discard (claim w lease now)
perform (renew_op k w lease now) = discard (renew_lease k w lease now)
perform (progress_op k w progress now) = discard (update_progress k w progress now)
perform (begin_verification_op k w now) = discard (begin_verification k w now)
perform (complete_verification_op k w now) = discard (complete_verification k w now)
perform (complete_op k w now) = discard (complete k w now)
perform (pause_op k w now) = discard (pause k w now)
perform (resume_op k now) = discard (resume k now)
perform (fail_op k w code message now) = discard (fail k w code message now)
perform (cancel_op k now) = discard (cancel k now)
perform (recover_op now) = discard (recover_expired_leases now)
perform (retry_op k w code message delay now) = discard (retry k w code message delay now)

-- An error is the caller's affair: the next method runs on what the failed one left.
unfoldable pub run : List Op → Table → Table
run [] t = t
run (op ∷ ops) t = run ops (perform op t).1

pub discard_table : {A : Type 0} (m : Action Table A) (t : Table) → (discard m t).1 ≡ (m t).1
discard_table m t = ground arith

-- In one method each job keeps its key, parent and retry ceiling, loses no attempt, and stays as
-- it is or moves along one edge of the state machine; new jobs are valid; the invariant stays.
pub perform-Effect : (op : Op) (t : Table) → IsValid t → Effect t (perform op t).1
unfolding perform
perform-Effect (enqueue_op ty q fresh now) t v =
    rw (discard_table (enqueue ty q fresh now) t) (enqueue-Effect ty q fresh now t v)
perform-Effect (claim_op w lease now) t v =
    rw (discard_table (claim w lease now) t) (claim-Effect w lease now t v)
perform-Effect (renew_op k w lease now) t v =
    rw (discard_table (renew_lease k w lease now) t) (renew_lease-Effect k w now t v lease)
perform-Effect (progress_op k w p now) t v =
    rw (discard_table (update_progress k w p now) t) (update_progress-Effect k w now t v p)
perform-Effect (begin_verification_op k w now) t v =
    rw (discard_table (begin_verification k w now) t) (begin_verification-Effect k w now t v)
perform-Effect (complete_verification_op k w now) t v =
    rw (discard_table (complete_verification k w now) t) (complete_verification-Effect k w now t v)
perform-Effect (complete_op k w now) t v =
    rw (discard_table (complete k w now) t) (complete-Effect k w now t v)
perform-Effect (pause_op k w now) t v =
    rw (discard_table (pause k w now) t) (pause-Effect k now t v w)
perform-Effect (resume_op k now) t v = rw (discard_table (resume k now) t) (resume-Effect k now t v)
perform-Effect (fail_op k w code message now) t v =
    rw (discard_table (fail k w code message now) t) (fail-Effect k w now t v code message)
perform-Effect (cancel_op k now) t v = rw (discard_table (cancel k now) t) (cancel-Effect k now t v)
perform-Effect (recover_op now) t v =
    rw (discard_table (recover_expired_leases now) t) (recover_expired_leases-Effect now t v)
perform-Effect (retry_op k w code message delay now) t v =
    rw (discard_table (retry k w code message delay now) t)
      (retry-Effect k w code message delay now t v)

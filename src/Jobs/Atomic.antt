-- ===== src/Jobs/Atomic.antt =====
-- A method that raises has changed nothing.
mod Updates
mod Handover
use teldrive_lab.Prelude.{
  ℕ, ◌+◌, String, Bool, true, false, Option, none, some, List, [], ◌∷◌, ◌++◌, ◌≡◌, ◌≢◌, refl, arith,
  ◌==◌, inl, inr, ◌⊎◌, ℤ, pos, negsuc, positive, nonnegative, leb, All, if◌then◌else◌, Bool-cases,
  Option-cases, eqb, count_by, eq_iff, eq_refl, or_text,
}
use teldrive_lab.Exec.{Action, Error, Result, Result-cases, Any-cases, ok, err, pure, ◌>>=◌, ◌>>◌}
use teldrive_lab.Sql.{update_where, select_one}
use teldrive_lab.Sql.Laws.{update_where_none, select_one_weaken, select_one-none, All-map}
use teldrive_lab.Jobs.{
  JobState, JobType, Job, Row, is_terminal, is_active, is_running, is_verifying, is_paused,
  is_cancellable,
}
use teldrive_lab.Jobs.Store.{
  Table, Request, find, get, enqueue, insert, check_parent, whole, new_row,
}
use teldrive_lab.Jobs.Updates.{
  update, update_one, owned, in_state, renew_lease, update_progress, begin_verification,
  complete_verification, complete, pause, resume, fail, cancel,
}
use teldrive_lab.Jobs.Claims.{
  claim, claim_for, next_claim, claimed_row, recover_expired_leases, retry, retry_for, retry_read,
  retry_write, retried_row,
}
use teldrive_lab.Jobs.Effects.{get_table, update_one_table}
use teldrive_lab.Jobs.Handover.{next_claim-All, claim_for-none}
use teldrive_lab.Jobs.Enqueue.{enqueue_table, check_parent_table}
use teldrive_lab.Jobs.Trace.{
  Op, perform, discard, discard_table, enqueue_op, claim_op, renew_op, progress_op,
  begin_verification_op, complete_verification_op, complete_op, pause_op, resume_op, fail_op,
  cancel_op, recover_op, retry_op,
}
use teldrive_lab.Jobs.Atomic.Updates.{
  renew_lease_error, update_progress_error, begin_verification_error, complete_verification_error,
  complete_error, pause_error, resume_error, fail_error, cancel_error,
}
use teldrive_lab.Jobs.Atomic.Handover.{claim_error, retry_error, enqueue_error}

-- An abandoned `get` of a row that is there cannot raise.
discard_error :
    {A : Type 0} (m : Action Table A) (t : Table) (e : Error)
    → (discard m t).0 ≡ err e
    → (m t).0 ≡ err e
discard_error m t e h = elim (Any-cases (m t).0) [
  | inl (a, fine) ↦ ground arith
  | inr (x, raised) ↦ ground arith
]

-- The two halves of a discarded result.
lift_error :
    {A : Type 0} (m : Action Table A) (t : Table) (e : Error)
    → ((m t).0 ≡ err e → (m t).1 ≡ t)
    → (discard m t).0 ≡ err e
    → (discard m t).1 ≡ t
lift_error m t e keeps h = rw (discard_table m t) (keeps (discard_error m t e h))

-- A method that raises an exception leaves the table exactly as it was.
pub perform_error :
    (op : Op) (t : Table) (e : Error) → (perform op t).0 ≡ err e → (perform op t).1 ≡ t
unfolding perform
perform_error (enqueue_op ty q fresh now) t e =
    lift_error (enqueue ty q fresh now) t e (enqueue_error ty q fresh now t e)
perform_error (claim_op w lease now) t e =
    lift_error (claim w lease now) t e (claim_error w lease now t e)
perform_error (renew_op k w lease now) t e =
    lift_error (renew_lease k w lease now) t e (renew_lease_error k w now t e lease)
perform_error (progress_op k w p now) t e =
    lift_error (update_progress k w p now) t e (update_progress_error k w now t e p)
perform_error (begin_verification_op k w now) t e =
    lift_error (begin_verification k w now) t e (begin_verification_error k w now t e)
perform_error (complete_verification_op k w now) t e =
    lift_error (complete_verification k w now) t e (complete_verification_error k w now t e)
perform_error (complete_op k w now) t e =
    lift_error (complete k w now) t e (complete_error k w now t e)
perform_error (pause_op k w now) t e = lift_error (pause k w now) t e (pause_error k "" now t e w)
perform_error (resume_op k now) t e = lift_error (resume k now) t e (resume_error k "" now t e)
perform_error (fail_op k w code message now) t e =
    lift_error (fail k w code message now) t e (fail_error k w now t e code message)
perform_error (cancel_op k now) t e = lift_error (cancel k now) t e (cancel_error k "" now t e)
perform_error (recover_op now) t e = λ h. unfold recover_expired_leases in cc
perform_error (retry_op k w code message delay now) t e =
    lift_error (retry k w code message delay now) t e (retry_error k w code message delay now t e)

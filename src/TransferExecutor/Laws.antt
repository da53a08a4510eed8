-- ===== src/TransferExecutor/Laws.antt =====
-- What the executor of transfers reports.
use teldrive_lab.Prelude.{
  ℕ, String, true, false, Option, ◌≡◌, arith, if◌then◌else◌, truthy, or_text,
}
use teldrive_lab.Exec.{ok}
use teldrive_lab.Safety.{AuthorizationReceipt}
use teldrive_lab.Jobs.{Job}
use teldrive_lab.Retry.{RetryPolicy}
use teldrive_lab.Transfer.{Disk}
use teldrive_lab.Worker.{ExecutionStatus, ExecutionResult}
use teldrive_lab.TransferExecutor.{Manager, supported, spec_for, mismatched, judge, execute}

no_success :
    (p : RetryPolicy) (n : ℕ) (message : String) (r : ExecutionResult)
    → judge p n message ≡ ok r
    → r.status ≡ ExecutionStatus.success
    → ⊥
unfolding judge
no_success p n message r h s = ground arith

module _ (p : RetryPolicy) (manager : Manager) (job : Job)
    (receipt : Option AuthorizationReceipt) where
  -- The executor reports SUCCESS only of an UPLOAD or DOWNLOAD job with a source and a destination
  -- whose receipt, if any, is for a transfer, and only if the manager's transfer of exactly this
  -- source to this destination has succeeded; the disk is then the one that transfer left.
  pub execute_success :
      (disk after : Disk) (r : ExecutionResult)
      → execute p manager job receipt disk ≡ (ok r, after)
      → r.status ≡ ExecutionStatus.success
      → (supported job.type ≡ true)
        × (truthy job.source ≡ true)
        × (truthy job.destination ≡ true)
        × (mismatched receipt ≡ false)
        × ((manager (spec_for job) receipt disk).0.success ≡ true)
        × ((manager (spec_for job) receipt disk).1 ≡ after)
  unfolding execute
  execute_success disk after r h s =
      let message =
        if truthy (manager (spec_for job) receipt disk).0.error
        then or_text (manager (spec_for job) receipt disk).0.error ""
        else "transfer failed" in
      let never = no_success p job.attempts message r in
      (ground arith, ground arith, ground arith, ground arith, ground arith, ground arith)

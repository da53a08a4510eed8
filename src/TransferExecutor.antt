-- ===== src/TransferExecutor.antt =====
-- teldrive_lab/transfer_executor.py: the executor of UPLOAD and DOWNLOAD jobs. The manager is an
-- argument. The delay before a retry is taken with the random value 0.5, which makes the jitter's
-- factor 1, so that whole microseconds are exact.
pub mod Laws
use teldrive_lab.Prelude.{
  ℕ, ◌+◌, ◌*◌, ◌/◌, String, Bool, true, false, not, ◌&&◌, ◌||◌, Option, none, some, if◌then◌else◌,
  or_text, truthy, pos, max,
}
use teldrive_lab.Exec.{Action, Result, ok, err}
use teldrive_lab.Text.{append, contains}
use teldrive_lab.Safety.{Operation, AuthorizationReceipt, same_operation}
use teldrive_lab.Jobs.{JobType, Job, type_value}
use teldrive_lab.Retry.{RetryClass, RetryPolicy, one, delay, classify_transfer_error}
use teldrive_lab.Transfer.{TransferKind, TransferSpec, TransferResult, Disk}
use teldrive_lab.Worker.{ExecutionStatus, ExecutionResult, or_default}

abbrev pub Manager : Type 0
Manager = TransferSpec → Option AuthorizationReceipt → Disk → TransferResult × Disk

-- `job.type in SUPPORTED`
abbrev pub supported : JobType → Bool
supported JobType.upload = true
supported JobType.download = true
supported _ = false

abbrev pub spec_for : Job → TransferSpec
spec_for job = record {
  source = or_text job.source "";
  destination = or_text job.destination "";
  kind = TransferKind.copy;
  overwrite = false;
}

abbrev pub ends : ExecutionStatus → String → String → ExecutionResult
ends status code message = record {
  status = status;
  error_code = some code;
  error_message = some message;
  delay_seconds = pos 0;
}

abbrev pub succeeded : ExecutionResult
succeeded = record {
  status = ExecutionStatus.success;
  error_code = none;
  error_message = none;
  delay_seconds = pos 0;
}

abbrev delayed : String → String → Result ℕ → Result ExecutionResult
delayed code message (err e) = err e
delayed code message (ok d) = ok (record {
  status = ExecutionStatus.retryable;
  error_code = some code;
  error_message = some message;
  delay_seconds = pos (d / (one * one));
})

abbrev by_class : RetryPolicy → ℕ → String → String → RetryClass → Result ExecutionResult
by_class p attempts code message RetryClass.integrity =
    delayed code message (delay p (pos (max 1 (attempts + 1))) (pos 500000))
by_class p attempts code message RetryClass.transient =
    delayed code message (delay p (pos (max 1 (attempts + 1))) (pos 500000))
by_class p attempts code message RetryClass.rate_limited =
    delayed code message (delay p (pos (max 1 (attempts + 1))) (pos 500000))
by_class p attempts code message RetryClass.permanent =
    ok (ends ExecutionStatus.permanent code message)
by_class p attempts code message RetryClass.unsafe =
    ok (ends ExecutionStatus.permanent code message)

-- `execute` from the error's text on.
unfoldable pub judge : RetryPolicy → ℕ → String → Result ExecutionResult
judge p attempts message =
    if contains "protected production boundary" message
    then ok (ends ExecutionStatus.unsafe "PROTECTED_PRODUCTION" message)
    else if contains "authorization" message
    then ok (ends ExecutionStatus.unsafe "UNAUTHORIZED" message)
    else if contains "destination exists" message || contains "source is not" message
    then ok (ends ExecutionStatus.permanent "TRANSFER_INPUT" message)
    else if contains "exceeds max_inflight_bytes" message
    then ok (ends ExecutionStatus.permanent "TRANSFER_RESOURCE_LIMIT" message)
    else let code =
        if contains "checksum mismatch" message then "VERIFY_MISMATCH" else "TRANSFER_FAILED" in
      by_class p attempts code message (classify_transfer_error (some code) false)

abbrev finished : RetryPolicy → ℕ → TransferResult × Disk → Result ExecutionResult × Disk
finished p attempts (result, disk) = (
  if result.success
      then ok succeeded
      else judge p attempts
          (if truthy result.error then or_text result.error "" else "transfer failed"),
  disk,
)

-- The receipt is for another operation.
abbrev pub mismatched : Option AuthorizationReceipt → Bool
mismatched none = false
mismatched (some r) = not (same_operation r.operation Operation.transfer)

unfoldable pub execute :
    RetryPolicy → Manager → Job → Option AuthorizationReceipt → Action Disk ExecutionResult
execute p manager job authorization disk =
    if not (supported job.type)
    then (
      ok (
          ends ExecutionStatus.permanent "UNSUPPORTED_JOB_TYPE"
            (append "transfer executor cannot execute " (type_value job.type))),
      disk,
    )
    else if not (truthy job.source) || not (truthy job.destination)
    then (
      ok (
          ends ExecutionStatus.permanent "MISSING_TRANSFER_PATH"
            "transfer job requires source and destination"),
      disk,
    )
    else if mismatched authorization
    then (
      ok (
          ends ExecutionStatus.unsafe "AUTHORIZATION_SCOPE_MISMATCH"
            "transfer authorization does not match TRANSFER"),
      disk,
    )
    else finished p job.attempts (manager (spec_for job) authorization disk)

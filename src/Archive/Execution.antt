-- ===== src/Archive/Execution.antt =====
-- `ArchiveExecutor.apply` and `ArchiveJobExecutor.execute`, with the manager of transfers as an argument.
use teldrive_lab.Prelude.{
  ℕ, String, Bool, true, false, not, ◌&&◌, ◌||◌, Option, some, List, [], ◌∷◌, if◌then◌else◌, any_by,
  all_by, count_by, eqb, truthy, or_text,
}
use teldrive_lab.Exec.{Action, Result, ok, err, value_error, pure, raise, ◌>>=◌}
use teldrive_lab.Text.{append, contains}
use teldrive_lab.Safety.{Operation, AuthorizationReceipt}
use teldrive_lab.Safety.Paths.{Host}
use teldrive_lab.Safety.Policy.{for_paths}
use teldrive_lab.Jobs.{JobType, Job, type_value}
use teldrive_lab.Retry.{RetryPolicy, classify_transfer_error}
use teldrive_lab.Worker.{ExecutionStatus, ExecutionResult}
use teldrive_lab.Transfer.{TransferKind, TransferResult, Disk}
use teldrive_lab.TransferExecutor.{Manager, mismatched, ends, succeeded, spec_for}
use teldrive_lab.Organization.{retry_later}
use teldrive_lab.Archive.{copy_item, noop, duplicate, conflict, blocked, ArchiveItem}

abbrev pub is_copy : ArchiveItem → Bool
is_copy item = elim item.action [ copy_item ↦ true | _ ↦ false ]

abbrev is_blocked : ArchiveItem → Bool
is_blocked item = elim item.action [ blocked ↦ true | _ ↦ false ]

abbrev is_conflict : ArchiveItem → Bool
is_conflict item = elim item.action [ conflict ↦ true | _ ↦ false ]

abbrev is_duplicate : ArchiveItem → Bool
is_duplicate item = elim item.action [ duplicate ↦ true | _ ↦ false ]

abbrev pub copy_count : List ArchiveItem → ℕ
copy_count = count_by is_copy

abbrev pub blocked_count : List ArchiveItem → ℕ
blocked_count = count_by is_blocked

abbrev pub conflict_count : List ArchiveItem → ℕ
conflict_count = count_by is_conflict

abbrev pub archived : TransferResult → Bool
archived r = r.success && r.verified

-- `ArchiveApplyResult.success`
abbrev pub apply_success : List TransferResult → Bool
apply_success = all_by (λ r. r.success)

module _ (h : Host) (manager : Manager) (authorization_id : String) where
  -- The transfer of one COPY item.
  unfoldable pub copy_one : ArchiveItem → Action Disk TransferResult
  copy_one item disk =
      elim (for_paths h Operation.transfer (item.candidate.source ∷ item.candidate.destination ∷ [])
        authorization_id) [
          | err e ↦ (err e, disk)
          | ok receipt ↦
              let (result, after) =
                manager
                  (record {
                    source = item.candidate.source;
                    destination = item.candidate.destination;
                    kind = TransferKind.copy;
                    overwrite = false;
                  })
                  (some receipt) disk in
              (ok result, after)
        ]

  -- The loop over the items: the first transfer that is not verified ends it.
  unfoldable pub apply_items : List ArchiveItem → Action Disk (List TransferResult)
  apply_items [] = pure []
  apply_items (item ∷ items) =
      let rest = apply_items items in
      elim item.action [
        | noop ↦ rest
        | copy_item ↦ copy_one item >>= λ result.
            if archived result
            then (rest >>= λ results. pure (result ∷ results))
            else pure (result ∷ [])
        | duplicate ↦ raise (value_error "unsupported archive action: DUPLICATE")
        | conflict ↦ raise (value_error "unsupported archive action: CONFLICT")
        | blocked ↦ raise (value_error "unsupported archive action: BLOCKED")
      ]

  unfoldable pub apply : List ArchiveItem → Action Disk (List TransferResult)
  apply items =
      if not (eqb (blocked_count items) 0) || not (eqb (conflict_count items) 0)
      then raise (value_error "archive plan contains blocked or conflicting items")
      else if any_by is_duplicate items
      then raise (value_error "archive plan contains duplicate items requiring review")
      else apply_items items

unfoldable pub judge : RetryPolicy → ℕ → String → Result ExecutionResult
judge p attempts message =
    if contains "protected production boundary" message
    then ok (ends ExecutionStatus.unsafe "PROTECTED_PRODUCTION" message)
    else if contains "authorization" message
    then ok (ends ExecutionStatus.unsafe "UNAUTHORIZED" message)
    else if contains "destination exists" message || contains "source is not" message
    then ok (ends ExecutionStatus.permanent "ARCHIVE_INPUT" message)
    else let code =
        if contains "checksum mismatch" message then "VERIFY_MISMATCH" else "ARCHIVE_FAILED" in
      retry_later p attempts code message (classify_transfer_error (some code) false)

abbrev is_archive : JobType → Bool
is_archive JobType.archive = true
is_archive _ = false

abbrev finished : RetryPolicy → ℕ → TransferResult × Disk → Result ExecutionResult × Disk
finished p attempts (result, disk) = (
  (if archived result
      then ok succeeded
      else judge p attempts (
          if truthy result.error
          then or_text result.error ""
          else "archive transfer failed or verification was incomplete")),
  disk,
)

-- `ArchiveJobExecutor.execute`
unfoldable pub execute :
    RetryPolicy → Manager → Job → Option AuthorizationReceipt → Action Disk ExecutionResult
execute p manager job authorization disk =
    if not (is_archive job.type)
    then (
      ok (
          ends ExecutionStatus.permanent "UNSUPPORTED_JOB_TYPE"
            (append "archive executor cannot execute " (type_value job.type))),
      disk,
    )
    else if not (truthy job.source) || not (truthy job.destination)
    then (
      ok (
          ends ExecutionStatus.permanent "MISSING_ARCHIVE_PATH"
            "archive job requires source and destination"),
      disk,
    )
    else if mismatched authorization
    then (
      ok (
          ends ExecutionStatus.unsafe "AUTHORIZATION_SCOPE_MISMATCH"
            "archive authorization does not match TRANSFER"),
      disk,
    )
    else finished p job.attempts (manager (spec_for job) authorization disk)

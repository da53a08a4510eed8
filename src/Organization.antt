-- ===== src/Organization.antt =====
-- teldrive_lab/organization.py: what the planner does with a classified record, the plan and its
-- counts, `apply`, and the executor of ORGANIZE jobs. The classification of a record and the digest
-- of a plan are not modelled: an item starts from its class, and a plan is its items.
pub mod Laws
use teldrive_lab.Prelude.{
  ℕ, ◌+◌, ◌*◌, ◌/◌, String, Bool, true, false, not, ◌&&◌, ◌||◌, Option, none, some, List, [], ◌∷◌,
  ◌++◌, if◌then◌else◌, or_text, truthy, pos, max, count_by, all_by, is_some, eqb, length,
}
use teldrive_lab.Exec.{Action, Result, ok, err, value_error}
use teldrive_lab.Text.{append, contains}
use teldrive_lab.Safety.{Operation, AuthorizationReceipt, same_operation}
use teldrive_lab.Safety.Paths.{Host}
use teldrive_lab.Files.{real_path}
use teldrive_lab.Safety.Policy.{same_texts, authorize, for_paths}
use teldrive_lab.Jobs.{JobType, Job, type_value}
use teldrive_lab.Retry.{RetryClass, RetryPolicy, one, delay, classify_transfer_error}
use teldrive_lab.Transfer.{TransferKind, TransferSpec, TransferResult, Disk, content_at}
use teldrive_lab.Worker.{ExecutionStatus, ExecutionResult}
use teldrive_lab.TransferExecutor.{Manager, spec_for, ends, succeeded, mismatched}

pub data FileClass : Type 0 where
  project backup movie dataset image video audio document archive other unknown : FileClass

pub data OrganizationAction : Type 0 where
  copy_item noop conflict blocked : OrganizationAction

pub data StorageClass : Type 0 where
  raw crypt : StorageClass

pub record OrganizationItem : Type 0 where
  pub source : String
  pub destination : String
  pub file_class : FileClass
  pub storage_class : StorageClass
  pub rule_id : String
  pub action : OrganizationAction
  pub reason : String

abbrev pub is_copy : OrganizationItem → Bool
is_copy i = elim i.action [ copy_item ↦ true | noop ↦ false | conflict ↦ false | blocked ↦ false ]

abbrev pub is_conflict : OrganizationItem → Bool
is_conflict i = elim i.action [
  | copy_item ↦ false
  | noop ↦ false
  | conflict ↦ true
  | blocked ↦ false
]

abbrev pub is_blocked : OrganizationItem → Bool
is_blocked i = elim i.action [
  | copy_item ↦ false
  | noop ↦ false
  | conflict ↦ false
  | blocked ↦ true
]

-- `copy_count`, `conflict_count` and `blocked_count`
abbrev pub copy_count : List OrganizationItem → ℕ
copy_count = count_by is_copy

abbrev pub conflict_count : List OrganizationItem → ℕ
conflict_count = count_by is_conflict

abbrev pub blocked_count : List OrganizationItem → ℕ
blocked_count = count_by is_blocked

-- The action and the reason of one item of `plan`.
unfoldable pub plan_action :
    Host
    → (is_folder : String → Bool) → Disk
    → (source destination : String) → OrganizationAction × String
plan_action h is_folder disk source destination =
    let decision = authorize h Operation.transfer (source ∷ destination ∷ []) false none in
    if same_texts (real_path h source) (real_path h destination)
    then (noop, "source already equals deterministic destination")
    else if is_some (content_at destination disk) || is_folder destination
    then (conflict, "destination already exists; planner will not overwrite")
    else if decision.allowed
    then (copy_item, "deterministic policy match")
    else if decision.requires_authorization
    then (copy_item, "deterministic policy match; explicit authorization required to apply")
    else (blocked, decision.reason)

abbrev pub item_spec : OrganizationItem → TransferSpec
item_spec item = record {
  source = item.source;
  destination = item.destination;
  kind = TransferKind.copy;
  overwrite = false;
}

-- One turn of the loop of `apply` for a COPY item: the transfer with its receipt.
abbrev pub copy_one :
    Manager → OrganizationItem → Result AuthorizationReceipt → Disk → Result TransferResult × Disk
copy_one manager item (err e) disk = (err e, disk)
copy_one manager item (ok receipt) disk =
    let (result, after) = manager (item_spec item) (some receipt) disk in (ok result, after)

abbrev pub with_first :
    TransferResult → Result (List TransferResult) × Disk → Result (List TransferResult) × Disk
with_first r (ok rs, disk) = (ok (r ∷ rs), disk)
with_first r (err e, disk) = (err e, disk)

-- What follows the transfer of one item: the rest of the loop only after a success.
abbrev pub proceed :
    Result TransferResult × Disk
    → (Disk → Result (List TransferResult) × Disk)
    → Result (List TransferResult) × Disk
proceed (err e, disk) rest = (err e, disk)
proceed (ok r, disk) rest = if r.success then with_first r (rest disk) else (ok (r ∷ []), disk)

module _ (h : Host) (manager : Manager) (authorization_id : String) where
  -- The loop of `apply`.
  unfoldable pub apply_items : List OrganizationItem → Disk → Result (List TransferResult) × Disk
  apply_items [] disk = (ok [], disk)
  apply_items (item ∷ items) disk = elim item.action [
    | noop ↦ apply_items items disk
    | copy_item ↦
        proceed
          (copy_one manager item
            (for_paths h Operation.transfer (item.source ∷ item.destination ∷ []) authorization_id)
            disk)
          (apply_items items)
    | conflict ↦ (err (value_error "unsupported plan action: CONFLICT"), disk)
    | blocked ↦ (err (value_error "unsupported plan action: BLOCKED"), disk)
  ]

  -- `OrganizationExecutor.apply`
  unfoldable pub apply : List OrganizationItem → Disk → Result (List TransferResult) × Disk
  apply items disk =
      if not (eqb (blocked_count items) 0) || not (eqb (conflict_count items) 0)
      then (err (value_error "organization plan contains blocked or conflicting items"), disk)
      else apply_items items disk

-- `OrganizationApplyResult.success`
abbrev pub apply_success : List TransferResult → Bool
apply_success = all_by (λ r. r.success)

abbrev pub retry_later : RetryPolicy → ℕ → String → String → RetryClass → Result ExecutionResult
retry_later p attempts code message RetryClass.permanent =
    ok (ends ExecutionStatus.permanent code message)
retry_later p attempts code message RetryClass.unsafe =
    ok (ends ExecutionStatus.permanent code message)
retry_later p attempts code message _ = elim (delay p (pos (max 1 (attempts + 1))) (pos 500000)) [
  | err e ↦ err e
  | ok d ↦ ok (record {
    status = ExecutionStatus.retryable;
    error_code = some code;
    error_message = some message;
    delay_seconds = pos (d / (one * one));
  })
]

unfoldable pub judge : RetryPolicy → ℕ → String → Result ExecutionResult
judge p attempts message =
    if contains "protected production boundary" message
    then ok (ends ExecutionStatus.unsafe "PROTECTED_PRODUCTION" message)
    else if contains "authorization" message
    then ok (ends ExecutionStatus.unsafe "UNAUTHORIZED" message)
    else if contains "destination exists" message || contains "source is not" message
    then ok (ends ExecutionStatus.permanent "ORGANIZATION_INPUT" message)
    else let code =
        if contains "checksum mismatch" message then "VERIFY_MISMATCH" else "ORGANIZATION_FAILED" in
      retry_later p attempts code message (classify_transfer_error (some code) false)

abbrev pub is_organize : JobType → Bool
is_organize JobType.organize = true
is_organize _ = false

abbrev finished : RetryPolicy → ℕ → TransferResult × Disk → Result ExecutionResult × Disk
finished p attempts (result, disk) = (
  if result.success
      then ok succeeded
      else judge p attempts
          (if truthy result.error then or_text result.error "" else "organization transfer failed"),
  disk,
)

-- `OrganizationJobExecutor.execute`
unfoldable pub execute :
    RetryPolicy → Manager → Job → Option AuthorizationReceipt → Action Disk ExecutionResult
execute p manager job authorization disk =
    if not (is_organize job.type)
    then (
      ok (
          ends ExecutionStatus.permanent "UNSUPPORTED_JOB_TYPE"
            (append "organization executor cannot execute " (type_value job.type))),
      disk,
    )
    else if not (truthy job.source) || not (truthy job.destination)
    then (
      ok (
          ends ExecutionStatus.permanent "MISSING_ORGANIZATION_PATH"
            "organization job requires source and destination"),
      disk,
    )
    else if mismatched authorization
    then (
      ok (
          ends ExecutionStatus.unsafe "AUTHORIZATION_SCOPE_MISMATCH"
            "organization authorization does not match TRANSFER"),
      disk,
    )
    else finished p job.attempts (manager (spec_for job) authorization disk)

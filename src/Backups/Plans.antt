-- ===== src/Backups/Plans.antt =====
-- `BackupPlanner.plan` and `snapshot_plan`. The text that the date has in the name of a manifest is an argument.
use teldrive_lab.Prelude.{
  ℕ, ◌+◌, ◌*◌, String, Bool, false, not, ◌&&◌, ◌||◌, Option, none, some, List, [], ◌∷◌, ◌++◌,
  if◌then◌else◌, ◌==◌, length, text_le, is_some,
}
use teldrive_lab.Exec.{Result, ok, err, value_error, permission_error, os_error}
use teldrive_lab.Text.{append}
use teldrive_lab.Sql.{order_by}
use teldrive_lab.Safety.{Operation, Decision}
use teldrive_lab.Safety.Paths.{Host}
use teldrive_lab.Safety.Policy.{path_text, authorize}
use teldrive_lab.Files.{plain_text, real_text, real_child, file_name, anchored}
use teldrive_lab.Transfer.{Content, Disk, content_at}
use teldrive_lab.Backups.{BackupPolicy, BackupItem, BackupPlan, effective_retention_seconds}

abbrev with_item : BackupItem → Result (List BackupItem) → Result (List BackupItem)
with_item item (ok items) = ok (item ∷ items)
with_item item (err e) = err e

module _ (sha256 : Content → String) (h : Host) (is_folder : String → Bool) (disk : Disk) where
  abbrev exists : String → Bool
  exists p = is_some (content_at p disk) || is_folder p

  abbrev refusal : Decision → String
  refusal d = if d.reason == "" then "protected boundary" else d.reason

  abbrev plan_file : (source destination : String) → Decision → Option Content → Result BackupItem
  plan_file source destination decision none =
      err (value_error (append "backup source is not a regular file: " source))
  plan_file source destination decision (some c) =
      if not decision.allowed && not decision.requires_authorization
      then err (permission_error (refusal decision))
      else if exists destination
      then err (os_error destination)
      else ok (record {
        source = source;
        destination = destination;
        size = length c;
        sha256 = sha256 c;
      })

  -- One turn of the loop.
  unfoldable pub plan_item : (root : List String) → (raw : String) → Result BackupItem
  plan_item root raw =
      let source = real_text h raw in
      let destination = real_child h root (file_name source) in
      plan_file source destination
        (authorize h Operation.transfer (source ∷ destination ∷ []) false none)
        (content_at source disk)

  abbrev and_items : Result BackupItem → Result (List BackupItem) → Result (List BackupItem)
  and_items (ok item) items = with_item item items
  and_items (err e) items = err e

  -- The loop; the first error ends it.
  unfoldable pub plan_items : (root : List String) → List String → Result (List BackupItem)
  plan_items root [] = ok []
  plan_items root (raw ∷ sources) =
      let rest = plan_items root sources in and_items (plan_item root raw) rest

  abbrev finish_plan :
      (manifest_path : String)
      → (policy : BackupPolicy) → (now : ℕ) → Result (List BackupItem)
      → Result BackupPlan
  finish_plan manifest_path policy now (err e) = err e
  finish_plan manifest_path policy now (ok items) = ok (record {
    items = items;
    manifest_path = manifest_path;
    created_at = now;
    purge_after = now + effective_retention_seconds policy * 1000000;
  })

  unfoldable pub plan :
      (stamp : ℕ → String)
      → List String
      → (backup_root : List String) → BackupPolicy
      → (now : ℕ) → Result BackupPlan
  plan stamp sources backup_root policy now =
      let root = h.real backup_root in
      finish_plan (path_text (h.real (root ++ "manifests" ∷ append (stamp now) ".json" ∷ [])))
        policy now
        (plan_items root (order_by (λ a b. text_le (plain_text a) (plain_text b)) sources))

  abbrev snapshot_policy : BackupPolicy
  snapshot_policy = record {
    retention_seconds = 365 * 24 * 60 * 60;
    safety_window_seconds = 7 * 24 * 60 * 60;
    interval_seconds = 24 * 60 * 60;
  }

  unfoldable pub snapshot_plan :
      (stamp : ℕ → String) → List String → (snapshot_root : String) → (now : ℕ) → Result BackupPlan
  snapshot_plan stamp sources snapshot_root now =
      plan stamp sources (anchored h snapshot_root ++ "snapshot" ∷ []) snapshot_policy now

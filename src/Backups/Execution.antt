-- ===== src/Backups/Execution.antt =====
-- `BackupExecutor.apply` and `restore` on the disk, the table of backups and the audit log. The manager of transfers, the digest and
-- the text of a plan's manifest are arguments, and the stamp of the one audit event of a run.
use teldrive_lab.Prelude.{
  String, Bool, true, false, not, ◌&&◌, ◌||◌, Option, none, some, List, [], ◌∷◌, if◌then◌else◌,
  ◌==◌, holds, is_some, length,
}
use teldrive_lab.Exec.{Action, Result, ok, pure, ◌>>=◌, ◌>>◌}
use teldrive_lab.Audit.{Detail, text, number, Event, record_event}
use teldrive_lab.Sql.{select_one}
use teldrive_lab.Sql.Upsert.{upsert}
use teldrive_lab.Safety.{Operation, AuthorizationReceipt}
use teldrive_lab.Safety.Paths.{Host}
use teldrive_lab.Safety.Policy.{for_paths}
use teldrive_lab.Files.{real_path, real_child, file_name}
use teldrive_lab.Transfer.{
  TransferKind, TransferSpec, TransferResult, Content, Disk, content_at, write,
}
use teldrive_lab.TransferExecutor.{Manager}
use teldrive_lab.JobLifecycle.{Stamp}
use teldrive_lab.Backups.{BackupItem, BackupPlan}
use teldrive_lab.Backups.Purge.{BackupRow, Backups, has_digest}

abbrev items_of : Option BackupRow → List BackupItem
items_of none = []
items_of (some r) = r.items

-- INSERT OR REPLACE of the items, one row to a digest and a source.
unfoldable pub put_items : List BackupItem → List BackupItem → List BackupItem
put_items [] stored = stored
put_items (item ∷ items) stored = put_items items (upsert (λ i. i.source) item stored)

abbrev pub row_of : (digest_of : BackupPlan → String) → BackupPlan → Backups → BackupRow
row_of digest_of plan rows = record {
  digest = digest_of plan;
  manifest_path = plan.manifest_path;
  created_at = plan.created_at;
  purge_after = plan.purge_after;
  locked = false;
  items = put_items plan.items (items_of (select_one (has_digest (digest_of plan)) rows));
}

-- `put`: the row of the digest is replaced, with locked 0.
unfoldable pub put : (digest_of : BackupPlan → String) → BackupPlan → Backups → Backups
put digest_of plan rows = upsert (λ r. r.digest) (row_of digest_of plan rows) rows

pub record BackupsState : Type 0 where
  pub disk : Disk
  pub rows : Backups
  pub events : List Event

abbrev pub Run : Type 0 → Type 0
Run A = Action BackupsState A

abbrev on_events : {A : Type 0} → Action (List Event) A → Run A
on_events m s = let (r, events) = m s.events in (r, record s { events = events })

abbrev from_result : {A : Type 0} → Result A → Run A
from_result r s = (r, s)

abbrev Report : Type 0
Report = Bool × List String

-- `_audit`
unfoldable pub audit :
    Stamp
    → (operation : String) → (source destination : Option String) → (decision result : String)
    → (error_code : Option String) → List (String × Detail)
    → Run (Unit {0})
audit stamp operation source destination decision result error_code details = on_events (
    record_event (record {
      event_id = stamp.event_id;
      timestamp = stamp.timestamp;
      operation = operation;
      job_id = none;
      source = source;
      destination = destination;
      decision = decision;
      result = some result;
      checksum = none;
      error_code = error_code;
      details = details;
    }))

abbrev copy_spec : String → String → TransferSpec
copy_spec source destination = record {
  source = source;
  destination = destination;
  kind = TransferKind.copy;
  overwrite = false;
}

abbrev run_manager : Manager → TransferSpec → AuthorizationReceipt → Run TransferResult
run_manager manager spec receipt s =
    let (result, disk) = manager spec (some receipt) s.disk in (ok result, record s { disk = disk })

-- The copy of an item arrived with the item's sum.
abbrev pub arrived : TransferResult → String → Bool
arrived result digest =
    result.success && (result.verified && holds result.destination_sha256 digest)

abbrev with_path : String → Report → Report
with_path p (done, paths) = (done, p ∷ paths)

module _ (h : Host) (manager : Manager) (authorization_id : String) (stamp : Stamp) where
  -- An item's copy, and whether the loop of `apply` goes on.
  unfoldable pub back_up : BackupItem → Run Bool
  back_up item = do
    receipt ←
        from_result
          (for_paths h Operation.transfer (item.source ∷ item.destination ∷ []) authorization_id)
    result ← run_manager manager (copy_spec item.source item.destination) receipt
    if arrived result item.sha256 then pure true else (do
      audit stamp "BACKUP" (some item.source) (some item.destination) "ALLOW" "FAILED"
          (some "BACKUP_VERIFY") []
      pure false)

  unfoldable pub back_up_all : List BackupItem → Run Report
  back_up_all [] = pure (true, [])
  back_up_all (item ∷ items) =
      let rest = back_up_all items in
      do
        goes_on ← back_up item
        if goes_on
            then (rest >>= λ report. pure (with_path item.destination report))
            else pure (false, [])

  abbrev publish :
      (digest_of : BackupPlan → String)
      → (manifest : BackupPlan → Content) → BackupPlan
      → Run (Unit {0})
  publish digest_of manifest plan s = (
    ok tt,
    record s {
      disk = write plan.manifest_path (manifest plan) s.disk;
      rows = put digest_of plan s.rows;
    },
  )

  unfoldable pub apply :
      (digest_of : BackupPlan → String)
      → (manifest : BackupPlan → Content) → BackupPlan
      → Run Report
  apply digest_of manifest plan = do
    report ← back_up_all plan.items
    if not report.0 then pure report else (do
      publish digest_of manifest plan
      audit stamp "BACKUP" none none "ALLOW" "SUCCESS" none (
          ("digest", text (digest_of plan))
          ∷ ("items", number (length plan.items))
          ∷ ("authorization_id", text authorization_id)
          ∷ [])
      pure report)

  abbrev is_intact : (sha256 : Content → String) → Option Content → String → Bool
  is_intact sha256 none digest = false
  is_intact sha256 (some c) digest = sha256 c == digest

  abbrev blocked : (source destination code : String) → (decision result : String) → Run Report
  blocked source destination code decision result = do
    audit stamp "BACKUP_RESTORE" (some source) (some destination) decision result (some code) []
    pure (false, [])

  abbrev copy_back : BackupItem → (destination : String) → Run Report → Run Report
  copy_back item destination rest = do
    receipt ←
        from_result
          (for_paths h Operation.transfer (item.destination ∷ destination ∷ []) authorization_id)
    result ← run_manager manager (copy_spec item.destination destination) receipt
    if arrived result item.sha256
        then (rest >>= λ report. pure (with_path destination report))
        else blocked item.destination destination "RESTORE_VERIFY" "ALLOW" "FAILED"

  -- The loop of `restore`, below a root.
  unfoldable pub restore_items :
      (sha256 : Content → String)
      → (is_folder : String → Bool) → (root : List String) → List BackupItem
      → Run Report
  restore_items sha256 is_folder root [] s = (ok (true, []), s)
  restore_items sha256 is_folder root (item ∷ items) s =
      let rest = restore_items sha256 is_folder root items in
      let destination = real_child h root (file_name item.source) in
      if is_some (content_at destination s.disk) || is_folder destination
      then blocked item.destination destination "DESTINATION_EXISTS" "DENY" "BLOCKED" s
      else if not (is_intact sha256 (content_at item.destination s.disk) item.sha256)
      then blocked item.destination destination "BACKUP_NOT_VERIFIED" "DENY" "BLOCKED" s
      else copy_back item destination rest s

  unfoldable pub restore :
      (sha256 : Content → String)
      → (is_folder : String → Bool) → (restore_root : String) → BackupPlan
      → Run Report
  restore sha256 is_folder restore_root plan = do
    report ← restore_items sha256 is_folder (real_path h restore_root) plan.items
    if not report.0 then pure report else (do
      audit stamp "BACKUP_RESTORE" none none "ALLOW" "SUCCESS" none
          (("items", number (length report.1)) ∷ ("authorization_id", text authorization_id) ∷ [])
      pure report)

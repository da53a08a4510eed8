-- ===== src/Backups/Purge.antt =====
-- The tables of backups and of their items, and `BackupExecutor.purge`. The digest of a plan is an argument, with the folders of the
-- disk, the clock and the stamp of the audit event.
use teldrive_lab.Prelude.{
  ℕ, String, Bool, true, false, not, ◌&&◌, ◌||◌, Option, none, some, List, [], ◌∷◌, map,
  if◌then◌else◌, ◌==◌, filter_by, leb, ltb, count_by, eqb, is_some,
}
use teldrive_lab.Exec.{Action, Result, ok, err, key_error, os_error}
use teldrive_lab.Audit.{text, Event, record_event}
use teldrive_lab.Sql.{update_where, select_one, order_by}
use teldrive_lab.Safety.{Operation}
use teldrive_lab.Safety.Paths.{Host}
use teldrive_lab.Safety.Policy.{authorize, for_paths}
use teldrive_lab.Files.{real_text}
use teldrive_lab.Transfer.{Disk, content_at, remove}
use teldrive_lab.JobLifecycle.{Stamp}
use teldrive_lab.Backups.{BackupItem, BackupPlan}

-- A row of `backups` with the rows of `backup_items` that carry its digest.
pub record BackupRow : Type 0 where
  pub digest : String
  pub manifest_path : String
  pub created_at : ℕ
  pub purge_after : ℕ
  pub locked : Bool
  pub items : List BackupItem

abbrev pub Backups : Type 0
Backups = List BackupRow

abbrev pub has_digest : String → BackupRow → Bool
has_digest digest r = r.digest == digest

abbrev pub locked_now : Option BackupRow → Bool
locked_now none = false
locked_now (some r) = r.locked

unfoldable pub is_locked : String → Backups → Bool
is_locked digest rows = locked_now (select_one (has_digest digest) rows)

-- `lock`: no row changed is a KeyError.
unfoldable pub lock : String → Action Backups (Unit {0})
lock digest rows =
    if eqb (count_by (has_digest digest) rows) 0
    then (err (key_error digest), rows)
    else (ok tt, update_where (has_digest digest) (λ r. record r { locked = true }) rows)

pub record PurgeState : Type 0 where
  pub disk : Disk
  pub events : List Event

module _ (digest_of : BackupPlan → String) where
  -- The two tests at the start of `purge`.
  abbrev pub is_kept : Backups → (now : ℕ) → BackupPlan → Bool
  is_kept rows now plan = is_locked (digest_of plan) rows || ltb now plan.purge_after

  abbrev plan_of : BackupRow → BackupPlan
  plan_of r = record {
    items = r.items;
    manifest_path = r.manifest_path;
    created_at = r.created_at;
    purge_after = r.purge_after;
  }

  -- `plans`, whose items come in the order of their sources.
  unfoldable pub plans : (by_source : List BackupItem → List BackupItem) → Backups → List BackupPlan
  plans by_source rows =
      map (λ r. plan_of (record r { items = by_source r.items }))
        (order_by (λ a b. leb a.created_at b.created_at) rows)

  unfoldable pub retention_ready :
      (by_source : List BackupItem → List BackupItem) → (now : ℕ) → Backups → List BackupPlan
  retention_ready by_source now rows =
      filter_by (λ p. leb p.purge_after now && not (is_locked (digest_of p) rows))
        (plans by_source rows)

module _ (digest_of : BackupPlan → String) (h : Host) (is_folder : String → Bool)
    (authorization_id : String) where
  -- What the loop over the items has done: whether it went through and the paths removed, or what
  -- it raised; and the disk.
  abbrev pub Purged : Type 0
  Purged = Result (Bool × List String) × Disk

  abbrev pub with_removed : String → Purged → Purged
  with_removed p (ok (done, removed), disk) = (ok (done, p ∷ removed), disk)
  with_removed p (err e, disk) = (err e, disk)

  abbrev delete_receipt : String → List String
  delete_receipt p = p ∷ []

  -- `authorize` with the receipt that `for_paths` makes for the path.
  unfoldable pub may_delete : String → Bool
  may_delete p = elim (for_paths h Operation.delete (delete_receipt p) authorization_id) [
    | ok receipt ↦ (authorize h Operation.delete (delete_receipt p) false (some receipt)).allowed
    | err e ↦ false
  ]

  -- The loop over the items: a path that is not there is passed over, and `unlink` raises on a
  -- folder.
  unfoldable pub purge_items : List BackupItem → Disk → Purged
  purge_items [] disk = (ok (true, []), disk)
  purge_items (item ∷ items) disk =
      let p = real_text h item.destination in
      let after_removal = purge_items items (remove p disk) in
      let unchanged = purge_items items disk in
      if not (may_delete p)
      then (ok (false, []), disk)
      else if is_some (content_at p disk)
      then with_removed p after_removal
      else if is_folder p
      then (err (os_error p), disk)
      else unchanged

  abbrev pub purge_event : Stamp → BackupPlan → Event
  purge_event stamp plan = record {
    event_id = stamp.event_id;
    timestamp = stamp.timestamp;
    operation = "BACKUP_PURGE";
    job_id = none;
    source = none;
    destination = none;
    decision = "ALLOW";
    result = some "SUCCESS";
    checksum = none;
    error_code = none;
    details = ("digest", text (digest_of plan)) ∷ ("authorization_id", text authorization_id) ∷ [];
  }

  -- The end of `purge`, for the outcome of the loop.
  abbrev pub finish :
      Stamp → BackupPlan → Purged → List Event → Result (Bool × List String) × PurgeState
  finish stamp plan (err e, disk) events = (err e, record { disk = disk; events = events })
  finish stamp plan (ok (false, removed), disk) events =
      (ok (false, removed), record { disk = disk; events = events })
  finish stamp plan (ok (true, removed), disk) events =
      let after = remove plan.manifest_path disk in
      let (r, recorded) = record_event (purge_event stamp plan) events in
      if is_folder plan.manifest_path
      then (err (os_error plan.manifest_path), record { disk = disk; events = events })
      else (
        elim r [ ok u ↦ ok (true, removed) | err e ↦ err e ],
        record { disk = after; events = recorded },
      )

  unfoldable pub purge :
      Backups → (now : ℕ) → Stamp → BackupPlan → Action PurgeState (Bool × List String)
  purge rows now stamp plan s =
      if is_kept digest_of rows now plan
      then (ok (false, []), s)
      else finish stamp plan (purge_items plan.items s.disk) s.events

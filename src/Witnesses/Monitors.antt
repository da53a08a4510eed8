-- ===== src/Witnesses/Monitors.antt =====
-- The theorems on alerts, schedules and the purge of backups, at concrete inputs.
use teldrive_lab.Prelude.{
  ℕ, String, Bool, true, false, ltb, ◌&&◌, ◌||◌, List, [], ◌∷◌, ◌≡◌, refl, arith, All, any_by, ◌==◌,
}
use teldrive_lab.Exec.{ok}
use teldrive_lab.Text.{is_one_of}
use teldrive_lab.Transfer.{content_at}
use teldrive_lab.Monitoring.{Candidate, of_number}
use teldrive_lab.Monitoring.Store.{Alert, has_fingerprint}
use teldrive_lab.Monitoring.Collect.{MonitorState, MonitorSession, fingerprints_of, collect}
use teldrive_lab.Monitoring.Resolve.{collect_active}
use teldrive_lab.Backups.{BackupPlan, BackupItem}
use teldrive_lab.Backups.Schedules.{
  BackupSchedule, SchedulerState, SchedulerSession, due_schedules, run_due,
}
use teldrive_lab.Backups.Queued.{Adds}
use teldrive_lab.Backups.Due.{run_due_clears}
use teldrive_lab.Backups.Purge.{Backups, has_digest, is_locked, lock, PurgeState, purge}
use teldrive_lab.Backups.Retained.{is_outside, backup_purge_keeps}
use teldrive_lab.JobLifecycle.{Stamp}
use teldrive_lab.Witnesses.Boundary.{host}

abbrev stuck : Candidate ℕ
stuck = record {
  code = "JOB_STUCK";
  severity = "WARNING";
  message = "1 job(s) appear stuck";
  fingerprint = "jobs:stuck";
  details = of_number "stuck" 1;
}

abbrev alert : String → String → Bool → Alert ℕ
alert alert_id fingerprint active = record {
  alert_id = alert_id;
  code = "JOB_STUCK";
  severity = "WARNING";
  message = "1 job(s) appear stuck";
  fingerprint = fingerprint;
  first_seen = "2026-01-02";
  last_seen = "2026-01-02";
  active = active;
  occurrences = 1;
  details = of_number "stuck" 1;
}

abbrev session : MonitorSession
session = record {
  now = "2026-01-02";
  alert_id = λ n. "b";
  notification_id = λ n. "n";
  notified_at = λ n. "2026-01-02";
  event_id = λ n. "e";
  event_time = λ n. 1;
}

-- One alert that nothing asks for any more.
abbrev before : MonitorState ℕ
before = record {
  alerts = alert "a" "workers:unavailable" true ∷ [];
  notifications = [];
  events = [];
}

collected :
    (collect session true true (stuck ∷ []) before).0 ≡ ok (alert "b" "jobs:stuck" true ∷ [])
unfolding collect teldrive_lab.Monitoring.Collect.report_all teldrive_lab.Monitoring.Collect.report
    teldrive_lab.Monitoring.Store.upsert_alert teldrive_lab.Sql.select_one
    teldrive_lab.Monitoring.Store.get teldrive_lab.Monitoring.Store.notify
    teldrive_lab.Audit.record_event teldrive_lab.Monitoring.Store.alerts_of
    teldrive_lab.Sql.order_by teldrive_lab.Monitoring.Store.resolve_missing
    teldrive_lab.Sql.update_where
collected = refl

collect_active_example :
    let after = (collect session true true (stuck ∷ []) before).1.alerts in
    All (λ a. a.active ≡ is_one_of a.fingerprint ("jobs:stuck" ∷ [])) after
    × All (λ c. any_by (has_fingerprint c.fingerprint) after ≡ true) (stuck ∷ [])
collect_active_example =
    collect_active session true true (stuck ∷ []) before (alert "b" "jobs:stuck" true ∷ [])
      (refl, tt) collected

abbrev schedule : BackupSchedule
schedule = record {
  schedule_id = "s";
  sources = "/srv/in" ∷ [];
  destination = "/backups";
  interval_seconds = 10;
  next_run_at = 3;
  enabled = true;
}

abbrev scheduler : SchedulerState
scheduler = record { rows = schedule ∷ []; jobs = [] }

abbrev turn : SchedulerSession
turn = record { fresh = λ n. "j"; time = λ n. 5; dumps = λ sources. "[]" }

abbrev made : List String
made = "j" ∷ []

ran : (run_due turn 5 scheduler).0 ≡ ok made
unfolding run_due teldrive_lab.Backups.Schedules.run_all due_schedules
    teldrive_lab.Backups.Schedules.schedules teldrive_lab.Sql.order_by
    teldrive_lab.Backups.Schedules.run_one teldrive_lab.Jobs.Store.enqueue
    teldrive_lab.Jobs.Store.check_parent teldrive_lab.Jobs.Store.insert teldrive_lab.Jobs.Store.find
    teldrive_lab.Jobs.Store.get teldrive_lab.Backups.Schedules.advance_schedule
ran = refl

run_due_clears_example :
    (due_schedules 5 (run_due turn 5 scheduler).1.rows ≡ [])
    × Adds turn.dumps (due_schedules 5 (schedule ∷ [])) made [] (run_due turn 5 scheduler).1.jobs
run_due_clears_example = run_due_clears turn 5 scheduler made (omega arith, tt) ran

abbrev plan : BackupPlan
plan = record {
  items = record { source = "/srv/in"; destination = "/backups/in"; size = 1; sha256 = "1" } ∷ [];
  manifest_path = "/backups/manifests/1.json";
  created_at = 1;
  purge_after = 3;
}

abbrev stamp : Stamp
stamp = record { event_id = "e"; timestamp = 5 }

abbrev disks : PurgeState
disks = record { disk = ("/srv/in", 7 ∷ []) ∷ ("/backups/in", 7 ∷ []) ∷ []; events = [] }

abbrev stored : Backups
stored =
    record {
      digest = "digest";
      manifest_path = "/backups/manifests/1.json";
      created_at = 1;
      purge_after = 3;
      locked = false;
      items = plan.items;
    }
    ∷ []

copy_kept :
    (any_by (has_digest "digest") stored && "digest" == "digest"
      || is_locked "digest" stored
      || ltb 5 plan.purge_after
      || is_outside (λ p. "digest") host (λ p. false) "id" plan "/backups/in")
    ≡ true
copy_kept = refl

backup_purge_keeps_example :
    content_at "/backups/in"
      (purge
        (λ p. "digest")
        host
        (λ p. false)
        "id"
        (lock "digest" stored).1
        5
        stamp
        plan
        disks).1.disk
    ≡ content_at "/backups/in" disks.disk
backup_purge_keeps_example =
    backup_purge_keeps (λ p. "digest") host (λ p. false) "id" stored "digest" 5 stamp plan
      "/backups/in" disks copy_kept

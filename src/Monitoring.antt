-- ===== src/Monitoring.antt =====
-- teldrive_lab/monitoring.py: snapshots and the alerts that they call for. The floats of the percentages, the texts
-- of numbers and what the probes report are arguments.
pub mod Store
pub mod Collect
pub mod Snapshots
pub mod Active
pub mod Resolve
use teldrive_lab.Prelude.{
  ℕ, ◌+◌, ◌-◌, String, Bool, true, false, not, ◌&&◌, ◌||◌, Option, none, some, List, [], ◌∷◌, ◌++◌,
  map, if◌then◌else◌, ◌==◌, filter_by, count_by, length, ltb, eqb, truthy, or_text,
}
use teldrive_lab.Text.{append, join, distinct}
use teldrive_lab.Jobs.{JobState, same_state, Row}

-- `health.Check`
pub record Check : Type 0 where
  pub name : String
  pub is_ok : Bool
  pub detail : String

-- Python's floats, as far as the code uses them: `free / total * 100.0`, `<=`, and `:.1f`.
pub record Floats (F : Type 0) : Type 0 where
  pub zero_percent : F
  pub percent_of : ℕ → ℕ → F
  pub at_most : F → F → Bool
  pub shown : F → String

pub record StorageSnapshot (F : Type 0) : Type 0 where
  pub path : String
  pub total_bytes : ℕ
  pub used_bytes : ℕ
  pub free_bytes : ℕ
  pub free_percent : F

pub record JobSnapshot : Type 0 where
  pub total : ℕ
  pub queued : ℕ
  pub running : ℕ
  pub verifying : ℕ
  pub completed : ℕ
  pub failed : ℕ
  pub cancelled : ℕ
  pub paused : ℕ
  pub stuck : ℕ
  pub workers : ℕ

abbrev pub no_jobs : JobSnapshot
no_jobs = record {
  total = 0;
  queued = 0;
  running = 0;
  verifying = 0;
  completed = 0;
  failed = 0;
  cancelled = 0;
  paused = 0;
  stuck = 0;
  workers = 0;
}

-- The truth values of the entries that the code reads of the backup's status.
pub record BackupStatus : Type 0 where
  pub overdue : Bool
  pub failed : Bool
  pub corrupt : Bool

-- What an alert keeps as its details.
pub data AlertDetails (F : Type 0) : Type 0 where
  of_storage : StorageSnapshot F → AlertDetails F
  of_checks : List String → AlertDetails F
  of_number : (key : String) → ℕ → AlertDetails F
  of_backup : BackupStatus → AlertDetails F

-- The tuple that `evaluate` returns for an alert.
pub record Candidate (F : Type 0) : Type 0 where
  pub code : String
  pub severity : String
  pub message : String
  pub fingerprint : String
  pub details : AlertDetails F

abbrev in_state : JobState → List Row → ℕ
in_state state rows = count_by (λ r. same_state r.state state) rows

abbrev pub is_stuck : (now stuck_after : ℕ) → Row → Bool
is_stuck now stuck_after r =
    (same_state r.state JobState.running || same_state r.state JobState.verifying)
    && ltb stuck_after (now - r.updated)

abbrev workers_of : List Row → List String
workers_of [] = []
workers_of (r ∷ rows) =
    let rest = workers_of rows in if truthy r.worker_id then or_text r.worker_id "" ∷ rest else rest

-- `sum(states.values())`
abbrev sum_of : List ℕ → ℕ
sum_of [] = 0
sum_of (n ∷ ns) = n + sum_of ns

-- `job_snapshot`, with the rows of the table, none where the file is not there; the times are in one unit.
unfoldable pub job_snapshot : Option (List Row) → (now stuck_after : ℕ) → JobSnapshot
job_snapshot none now stuck_after = no_jobs
job_snapshot (some rows) now stuck_after = record {
  total = sum_of (
      in_state JobState.queued rows
      ∷ in_state JobState.running rows
      ∷ in_state JobState.verifying rows
      ∷ in_state JobState.completed rows
      ∷ in_state JobState.failed rows
      ∷ in_state JobState.cancelled rows
      ∷ in_state JobState.paused rows
      ∷ []);
  queued = in_state JobState.queued rows;
  running = in_state JobState.running rows;
  verifying = in_state JobState.verifying rows;
  completed = in_state JobState.completed rows;
  failed = in_state JobState.failed rows;
  cancelled = in_state JobState.cancelled rows;
  paused = in_state JobState.paused rows;
  stuck = count_by (is_stuck now stuck_after) rows;
  workers = length (distinct (workers_of rows));
}

module _ {F : Type 0} (floats : Floats F) (decimal : ℕ → String) where
  -- `storage_snapshot`, from what `shutil.disk_usage` returns.
  unfoldable pub storage_snapshot : String → (total used free : ℕ) → StorageSnapshot F
  storage_snapshot path total used free = record {
    path = path;
    total_bytes = total;
    used_bytes = used;
    free_bytes = free;
    free_percent = if eqb total 0 then floats.zero_percent else floats.percent_of free total;
  }

  abbrev pub candidate : (code severity message fingerprint : String) → AlertDetails F → Candidate F
  candidate code severity message fingerprint details = record {
    code = code;
    severity = severity;
    message = message;
    fingerprint = fingerprint;
    details = details;
  }

  -- `f"… on {item.path}: {item.free_percent:.1f}%"`
  abbrev space_message : String → StorageSnapshot F → String
  space_message start item =
      append start (append item.path (append ": " (append (floats.shown item.free_percent) "%")))

  unfoldable pub storage_alerts : (low critical : F) → List (StorageSnapshot F) → List (Candidate F)
  storage_alerts low critical [] = []
  storage_alerts low critical (item ∷ storage) =
      let rest = storage_alerts low critical storage in
      if floats.at_most item.free_percent critical
      then candidate "DISK_SPACE_CRITICAL" "CRITICAL" (space_message "Critical free space on " item)
          (append "disk:" (append item.path ":critical")) (of_storage item)
        ∷ rest
      else if floats.at_most item.free_percent low
      then candidate "DISK_SPACE_LOW" "WARNING" (space_message "Low free space on " item)
          (append "disk:" (append item.path ":low")) (of_storage item)
        ∷ rest
      else rest

  abbrev pub alert_if : Bool → Candidate F → List (Candidate F)
  alert_if b c = if b then c ∷ [] else []

  abbrev pub failed_health : List Check → List String
  failed_health health = map (λ c. c.name) (filter_by (λ c. not c.is_ok) health)

  abbrev pub positive_count : ℕ → Bool
  positive_count n = not (eqb n 0)

  abbrev pub backup_alerts : Option BackupStatus → List (Candidate F)
  backup_alerts none = []
  backup_alerts (some status) =
      alert_if status.overdue (
        candidate "BACKUP_OVERDUE" "WARNING" "A scheduled backup is overdue" "backup:overdue"
          (of_backup status))
      ++ (alert_if status.failed (
            candidate "BACKUP_FAILED" "CRITICAL" "The latest backup failed" "backup:failed"
              (of_backup status))
          ++ alert_if status.corrupt (
              candidate "BACKUP_CORRUPT" "CRITICAL"
                "A backup verification detected corruption or missing data" "backup:corrupt"
                (of_backup status)))

  unfoldable pub evaluate :
      List Check
      → List (StorageSnapshot F)
      → JobSnapshot
      → Option BackupStatus
      → (integrity_failure_count : ℕ) → (low critical : F) → List (Candidate F)
  evaluate health storage jobs backup_status failures low critical =
      storage_alerts low critical storage
      ++ (alert_if (positive_count (length (failed_health health))) (
            candidate "TELDRIVE_UNHEALTHY" "CRITICAL"
              (append "Health checks failed: " (join ", " (failed_health health)))
              (append "health:" (join "," (failed_health health)))
              (of_checks (failed_health health)))
          ++ (alert_if (positive_count jobs.stuck) (
                candidate "JOB_STUCK" "WARNING" (append (decimal jobs.stuck) " job(s) appear stuck")
                  "jobs:stuck" (of_number "stuck" jobs.stuck))
              ++ (alert_if (positive_count jobs.running && eqb jobs.workers 0) (
                    candidate "WORKER_UNAVAILABLE" "CRITICAL"
                      "Jobs are running but no worker identity is recorded" "workers:unavailable"
                      (of_number "running" jobs.running))
                  ++ (alert_if (positive_count failures) (
                        candidate "INTEGRITY_FAILURE" "CRITICAL"
                          (append (decimal failures) " integrity failure(s) reported")
                          "integrity:failure" (of_number "count" failures))
                      ++ backup_alerts backup_status))))

-- ===== src/Backups/Schedules.antt =====
-- The table of schedules and `BackupScheduler.run_due`. `json.dumps` of a schedule's sources, the fresh identifiers and the clock
-- of each turn are arguments.
use teldrive_lab.Prelude.{
  map, ℤ, true, positive, ℕ, suc, ◌+◌, String, Bool, ◌&&◌, Option, none, some, List, [], ◌∷◌, ◌==◌,
  filter_by, leb, max, text_le, pos,
}
use teldrive_lab.Exec.{Action, ok, err, pure, key_error, value_error, ◌>>=◌, ◌>>◌}
use teldrive_lab.Sql.{update_where, select_one, order_by}
use teldrive_lab.Sql.Upsert.{upsert}
use teldrive_lab.Safety.Paths.{Host}
use teldrive_lab.Safety.Policy.{sorted}
use teldrive_lab.Files.{real_text}
use teldrive_lab.Jobs.{JobType}
use teldrive_lab.Jobs.Store.{Table, Request, enqueue}

pub record BackupSchedule : Type 0 where
  pub schedule_id : String
  pub sources : List String
  pub destination : String
  pub interval_seconds : ℕ
  pub next_run_at : ℕ
  pub enabled : Bool

abbrev pub Schedules : Type 0
Schedules = List BackupSchedule

abbrev pub has_schedule : String → BackupSchedule → Bool
has_schedule schedule_id s = s.schedule_id == schedule_id

-- INSERT OR REPLACE
unfoldable pub add_schedule : BackupSchedule → Schedules → Schedules
add_schedule = upsert (λ s. s.schedule_id)

abbrev pub by_id : BackupSchedule → BackupSchedule → Bool
by_id a b = text_le a.schedule_id b.schedule_id

unfoldable pub schedules : Schedules → List BackupSchedule
schedules rows = order_by by_id rows

abbrev pub is_due : (now : ℕ) → BackupSchedule → Bool
is_due now s = s.enabled && leb s.next_run_at now

unfoldable pub due_schedules : (now : ℕ) → Schedules → List BackupSchedule
due_schedules now rows = filter_by (is_due now) (schedules rows)

abbrev pub next_run : (now : ℕ) → BackupSchedule → ℕ
next_run now s = max (s.next_run_at + s.interval_seconds) (now + s.interval_seconds)

abbrev pub advance_found : String → (now : ℕ) → Option BackupSchedule → Action Schedules (Unit {0})
advance_found schedule_id now none rows = (err (key_error schedule_id), rows)
advance_found schedule_id now (some row) rows = (
  ok tt,
  update_where (has_schedule schedule_id) (λ s. record s { next_run_at = next_run now row }) rows,
)

unfoldable pub advance_schedule : String → (now : ℕ) → Action Schedules (Unit {0})
advance_schedule schedule_id now rows =
    advance_found schedule_id now (select_one (has_schedule schedule_id) rows) rows

pub record SchedulerState : Type 0 where
  pub rows : Schedules
  pub jobs : Table

pub record SchedulerSession : Type 0 where
  pub fresh : ℕ → String
  pub time : ℕ → ℕ
  pub dumps : List String → String

-- What `enqueue` gets, with its defaults.
abbrev pub backup_request : (source destination : String) → Request
backup_request source destination = record {
  priority = "NORMAL";
  max_attempts = pos 3;
  source = some source;
  destination = some destination;
  path = none;
  checksum = none;
  parent_job_id = none;
  job_id = none;
}

abbrev on_jobs : {A : Type 0} → Action Table A → Action SchedulerState A
on_jobs m s = let (r, jobs) = m s.jobs in (r, record s { jobs = jobs })

abbrev on_rows : {A : Type 0} → Action Schedules A → Action SchedulerState A
on_rows m s = let (r, rows) = m s.rows in (r, record s { rows = rows })

module _ (session : SchedulerSession) where
  -- The body of the loop, with the id of the job that it creates.
  unfoldable pub run_one : (now n : ℕ) → BackupSchedule → Action SchedulerState String
  run_one now n s = do
    job ← on_jobs (
        enqueue JobType.backup (backup_request (session.dumps s.sources) s.destination)
          (session.fresh n) (session.time n))
    on_rows (advance_schedule s.schedule_id now)
    pure job.job_id

  unfoldable pub run_all : (now n : ℕ) → List BackupSchedule → Action SchedulerState (List String)
  run_all now n [] = pure []
  run_all now n (s ∷ due) = do
    job_id ← run_one now n s
    created ← run_all now (suc n) due
    pure (job_id ∷ created)

  unfoldable pub run_due : (now : ℕ) → Action SchedulerState (List String)
  run_due now s = run_all now 0 (due_schedules now s.rows) s

-- `BackupScheduler.add`; `now` is the clock's reading, `fresh` is `uuid.uuid4().hex`.
abbrev new_schedule :
    Host
    → List String
    → String
    → (first_run_at : Option ℕ) → (fresh : String) → (now interval : ℕ) → BackupSchedule
new_schedule h sources destination first_run_at fresh now interval = record {
  schedule_id = fresh;
  sources = sorted (map (real_text h) sources);
  destination = real_text h destination;
  interval_seconds = interval;
  next_run_at = elim first_run_at [ none ↦ now | some t ↦ t ];
  enabled = true;
}

abbrev add_checked : (ℕ → BackupSchedule) → Option ℕ → Action Schedules BackupSchedule
add_checked new none rows = (err (value_error "interval_seconds must be positive"), rows)
add_checked new (some interval) rows = (ok (new interval), add_schedule (new interval) rows)

unfoldable pub add :
    Host
    → (sources : List String) → (destination : String) → (interval_seconds : ℤ)
    → (first_run_at : Option ℕ) → (fresh : String) → (now : ℕ) → Action Schedules BackupSchedule
add h sources destination interval_seconds first_run_at fresh now =
    add_checked (new_schedule h sources destination first_run_at fresh now)
      (positive interval_seconds)

-- `schedule_backup`
unfoldable pub schedule_backup :
    Host
    → (dumps : List String → String) → (sources : List String) → (destination : String)
    → (fresh : String) → (now : ℕ) → Action Table String
schedule_backup h dumps sources destination fresh now =
    enqueue JobType.backup
      (backup_request (dumps (sorted (map (real_text h) sources))) (real_text h destination)) fresh
      now
    >>= λ job. pure job.job_id

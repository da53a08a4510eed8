-- ===== src/Monitoring/Snapshots.antt =====
-- What a job snapshot counts, and when `evaluate` asks for no alert.
use teldrive_lab.Prelude.{
  ℕ, String, Bool, true, false, not, ◌&&◌, ◌||◌, Option, none, some, List, [], ◌∷◌, ◌++◌, all_by,
  length, eqb, ◌≡◌, refl, ap₂, ◌∙◌, arith,
}
use teldrive_lab.Jobs.{Row}
use teldrive_lab.Monitoring.{
  Check, Floats, StorageSnapshot, JobSnapshot, BackupStatus, Candidate, job_snapshot,
  storage_alerts, evaluate, failed_health, alert_if, positive_count, backup_alerts,
}

-- The total of a snapshot is the number of jobs in the table: each is counted in one state.
pub job_snapshot-length :
    (rows : List Row) (now stuck_after : ℕ)
    → (job_snapshot (some rows) now stuck_after).total ≡ length rows
unfolding job_snapshot
job_snapshot-length [] now stuck_after = omega arith
job_snapshot-length (r ∷ rows) now stuck_after =
    ground (arith, job_snapshot-length rows now stuck_after)

is_empty-append :
    {A : Type 0} (is_nil : List A → Bool) (xs ys : List A)
    → is_nil [] ≡ true
    → ((x : A) (l : List A) → is_nil (x ∷ l) ≡ false)
    → is_nil (xs ++ ys) ≡ (is_nil xs && is_nil ys)
is_empty-append is_nil [] ys n c = rw n refl
is_empty-append is_nil (x ∷ xs) ys n c = rw (c x (xs ++ ys)) (rw (c x xs) refl)

module _ {F : Type 0} (floats : Floats F) (decimal : ℕ → String) where
  abbrev pub none_of : List (Candidate F) → Bool
  none_of [] = true
  none_of (c ∷ cs) = false

  none_of-append : (xs ys : List (Candidate F)) → none_of (xs ++ ys) ≡ (none_of xs && none_of ys)
  none_of-append xs ys = is_empty-append none_of xs ys refl (λ x l. refl)

  abbrev pub has_room : (low critical : F) → StorageSnapshot F → Bool
  has_room low critical item =
      not (floats.at_most item.free_percent critical) && not (floats.at_most item.free_percent low)

  none_of-storage_alerts :
      (low critical : F) (storage : List (StorageSnapshot F))
      → none_of (storage_alerts floats decimal low critical storage)
        ≡ all_by (has_room low critical) storage
  unfolding storage_alerts
  none_of-storage_alerts low critical [] = refl
  none_of-storage_alerts low critical (item ∷ storage) =
      ground (arith, none_of-storage_alerts low critical storage)

  healthy :
      (health : List Check)
      → not (positive_count floats decimal (length (failed_health floats decimal health)))
        ≡ all_by (λ c. c.is_ok) health
  healthy [] = refl
  healthy (c ∷ health) = ground (arith, healthy health)

  abbrev pub backup_fine : Option BackupStatus → Bool
  backup_fine none = true
  backup_fine (some status) = not status.overdue && (not status.failed && not status.corrupt)

  backup_quiet :
      (o : Option BackupStatus) → none_of (backup_alerts floats decimal o) ≡ backup_fine o
  backup_quiet none = refl
  backup_quiet (some status) = ground arith

  one_alert :
      (b : Bool) (c : Candidate F) (rest : List (Candidate F))
      → none_of (alert_if floats decimal b c ++ rest) ≡ (not b && none_of rest)
  one_alert true c rest = refl
  one_alert false c rest = refl

  zero_count : (n : ℕ) → not (positive_count floats decimal n) ≡ eqb n 0
  zero_count n = ground arith

  idle_workers :
      (running workers : ℕ)
      → not (positive_count floats decimal running && eqb workers 0)
        ≡ (eqb running 0 || not (eqb workers 0))
  idle_workers running workers = ground arith

  -- `evaluate` asks for no alert exactly when every disk has more free space than both limits, every health check is ok, no
  -- job is stuck, running jobs have a worker, no integrity failure is reported, and the backup is not overdue, failed or
  -- corrupt.
  pub evaluate_quiet :
      (health : List Check) (storage : List (StorageSnapshot F)) (jobs : JobSnapshot)
      (backup : Option BackupStatus) (failures : ℕ) (low critical : F)
      → none_of (evaluate floats decimal health storage jobs backup failures low critical) ≡ (
          all_by (has_room low critical) storage
          && (all_by (λ c. c.is_ok) health
              && (eqb jobs.stuck 0
                  && ((eqb jobs.running 0 || not (eqb jobs.workers 0))
                      && (eqb failures 0 && backup_fine backup)))))
  unfolding evaluate
  evaluate_quiet health storage jobs backup failures low critical =
      none_of-append (storage_alerts floats decimal low critical storage) _
      ∙ ap₂ ◌&&◌ (none_of-storage_alerts low critical storage) (
          one_alert _ _ _
          ∙ ap₂ ◌&&◌ (healthy health) (
              one_alert _ _ _
              ∙ ap₂ ◌&&◌ (zero_count jobs.stuck) (
                  one_alert _ _ _
                  ∙ ap₂ ◌&&◌ (idle_workers jobs.running jobs.workers)
                      (one_alert _ _ _ ∙ ap₂ ◌&&◌ (zero_count failures) (backup_quiet backup)))))

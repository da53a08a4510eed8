-- ===== src/Backups/Queued.antt =====
-- The jobs that a turn of the scheduler adds to the table of jobs.
use teldrive_lab.Prelude.{
  ℕ, String, some, List, [], ◌∷◌, ◌++◌, map, ◌≡◌, refl, sym, ◌∙◌, ap, arith, All, inl, inr,
  Option-cases, eq_iff, ◌==◌,
}
use mathlib.Core.List.{append_assoc, append-nil}
use teldrive_lab.Exec.{ok}
use teldrive_lab.Sql.Laws.{select_one_test}
use teldrive_lab.Jobs.{JobState, JobType, Job, Row}
use teldrive_lab.Jobs.Store.{Table, find, get, new_row, to_job, enqueue}
use teldrive_lab.Jobs.Effects.{get_table}
use teldrive_lab.Backups.Schedules.{BackupSchedule, backup_request}

abbrev pub backup_row : (source destination fresh : String) → (now : ℕ) → Row
backup_row source destination fresh now =
    new_row JobType.backup (backup_request source destination) fresh 3 now

find_key : (k : String) (t : Table) (r : Row) → find k t ≡ some r → r.job_id ≡ k
unfolding find
find_key k t r h = (eq_iff r.job_id k).0 (select_one_test (λ x. x.job_id == k) t r h)

get_key : (k : String) (t : Table) (job : Job) → (get k t).0 ≡ ok job → job.job_id ≡ k
unfolding get to_job
get_key k t job h = elim (Option-cases (find k t)) [
  | inl missing ↦ absurd (ground (arith, missing, h))
  | inr (r, found) ↦ ground (arith, found, h, find_key k t r found)
]

-- A backup that is enqueued is the last row of the table, under the identifier that is returned.
pub enqueue_lem :
    (source destination fresh : String) (now : ℕ) (t : Table) (job : Job)
    → (enqueue JobType.backup (backup_request source destination) fresh now t).0 ≡ ok job
    → ((enqueue JobType.backup (backup_request source destination) fresh now t).1
        ≡ t ++ backup_row source destination fresh now ∷ [])
      × (job.job_id ≡ fresh)
unfolding enqueue teldrive_lab.Jobs.Store.check_parent teldrive_lab.Jobs.Store.insert
enqueue_lem source destination fresh now t job h = elim (Option-cases (find fresh t)) [
  | inr (r, taken) ↦ absurd (ground (arith, taken, h))
  | inl free ↦
      let grown = t ++ backup_row source destination fresh now ∷ [] in
      (
        ground (arith, free, get_table fresh grown),
        get_key fresh grown job (ground (arith, free, h)),
      )
]

-- The table has grown by one queued backup job for each of the schedules, in their order, with the
-- identifiers that were created.
abbrev pub Adds :
    (dumps : List String → String) → List BackupSchedule → List String → Table → Table → Type 0
Adds dumps due created before after =
    (new : Table) × (after ≡ before ++ new)
    × (map (λ r. r.job_id) new ≡ created)
    × (map (λ r. r.source) new ≡ map (λ s. some (dumps s.sources)) due)
    × (map (λ r. r.destination) new ≡ map (λ s. some s.destination) due)
    × All (λ r. (r.type ≡ JobType.backup) × (r.state ≡ JobState.queued)) new

pub Adds-none : (dumps : List String → String) (t : Table) → Adds dumps [] [] t t
Adds-none dumps t = ([], sym (append-nil t), refl, refl, refl, tt)

pub Adds-one :
    (dumps : List String → String) (s : BackupSchedule) (due : List BackupSchedule) (fresh : String)
    (now : ℕ) (created : List String) (before middle after : Table)
    → middle ≡ before ++ backup_row (dumps s.sources) s.destination fresh now ∷ []
    → Adds dumps due created middle after
    → Adds dumps (s ∷ due) (fresh ∷ created) before after
Adds-one dumps s due fresh now created before middle after grown (new, e, ids, from, to, all) =
    let row = backup_row (dumps s.sources) s.destination fresh now in
    (
      row ∷ new,
      e ∙ ap (λ t. t ++ new) grown ∙ append_assoc before (row ∷ []) new,
      ap (λ t. fresh ∷ t) ids,
      ap (λ t. some (dumps s.sources) ∷ t) from,
      ap (λ t. some s.destination ∷ t) to,
      ((refl, refl), all),
    )

-- ===== src/Jobs/Invariant.antt =====
-- What holds of every row of `jobs` between two methods, what may become of a row in one method,
-- and the rule for an UPDATE.
use teldrive_lab.Prelude.{
  ◌≤◌, ◌<◌, String, Bool, true, false, Option, none, some, List, [], ◌∷◌, map, ◌≡◌, refl, ◌⊎◌, inl,
  inr, arith, All, any_by, is_some, ◌==◌, Bool-cases,
}
use teldrive_lab.Sql.{update_where, AreDistinct}
use teldrive_lab.Sql.Laws.{All-update_where, map-update_where}
use teldrive_lab.Jobs.{JobState, Row, is_active, is_verifying}
use teldrive_lab.Jobs.Store.{Table, whole}

abbrev pub is_failed : JobState → Bool
is_failed JobState.failed = true
is_failed _ = false

abbrev pub is_completed : JobState → Bool
is_completed JobState.completed = true
is_completed _ = false

pub record IsRow (r : Row) : Type 0 where
  -- the retry ceiling
  pub attempts_le : r.attempts ≤ r.max_attempts
  pub attempts_left : is_failed r.state ≡ false → r.attempts < r.max_attempts
  -- an owner and a lease just while a worker executes or verifies
  pub owner : is_some r.worker_id ≡ is_active r.state
  pub lease : is_some r.lease_until ≡ is_active r.state
  -- 1.0 is for completed jobs and for workers that report it
  pub progress_le : r.progress ≤ whole
  pub unverified : is_verifying r.state ≡ true → r.progress < whole
  pub finished : is_completed r.state ≡ true → r.progress ≡ whole
  pub finish_time : is_completed r.state ≡ true → is_some r.completed ≡ true

abbrev pub ids : Table → List String
ids = map (λ r. r.job_id)

-- parent_job_id TEXT REFERENCES jobs(job_id)
abbrev pub known : List String → Option String → Bool
known keys none = true
known keys (some p) = any_by (λ j. j == p) keys

pub record IsValid (table : Table) : Type 0 where
  pub rows : All IsRow table
  pub keys : AreDistinct (ids table)
  pub parents : All (λ r. known (ids table) r.parent_job_id ≡ true) table

-- The moves of a job. All but `finish` and `abandon` stand in section 7 of JOB_MODEL.md.
pub data Edge : JobState → JobState → Type 0 where
  start : Edge JobState.queued JobState.running
  drop : Edge JobState.queued JobState.cancelled
  work : Edge JobState.running JobState.running
  hold : Edge JobState.running JobState.paused
  check : Edge JobState.running JobState.verifying
  requeue : Edge JobState.running JobState.queued
  give_up : Edge JobState.running JobState.failed
  stop : Edge JobState.running JobState.cancelled
  finish : Edge JobState.running JobState.completed
  release : Edge JobState.paused JobState.queued
  discard : Edge JobState.paused JobState.cancelled
  accept : Edge JobState.verifying JobState.completed
  recheck : Edge JobState.verifying JobState.queued
  reject : Edge JobState.verifying JobState.failed
  abandon : Edge JobState.verifying JobState.cancelled

pub ruleset edges = (
  start, drop, work, hold, check, requeue, give_up, stop, finish, release, discard, accept, recheck,
  reject, abandon,
)

-- One method either leaves a row whole, or moves it along an edge; what identifies the job stays.
pub record RowStep (r r' : Row) : Type 0 where
  pub same_id : r'.job_id ≡ r.job_id
  pub same_parent : r'.parent_job_id ≡ r.parent_job_id
  pub same_ceiling : r'.max_attempts ≡ r.max_attempts
  pub attempts_grow : r.attempts ≤ r'.attempts
  pub moved : (r' ≡ r) ⊎ Edge r.state r'.state

pub RowStep-refl : (r : Row) → RowStep r r
RowStep-refl r = record {
  same_id = refl;
  same_parent = refl;
  same_ceiling = refl;
  attempts_grow = omega arith;
  moved = inl refl;
}

-- The rows of `t` stand in `t'`, each after one step, and perhaps new valid rows after them.
abbrev pub Evolves : Table → Table → Type 0
Evolves [] t' = All IsRow t'
Evolves (r ∷ t) [] = ⊥
Evolves (r ∷ t) (r' ∷ t') = RowStep r r' × Evolves t t'

pub Evolves-refl : (t : Table) → Evolves t t
Evolves-refl [] = tt
Evolves-refl (r ∷ t) = (RowStep-refl r, Evolves-refl t)

abbrev pub Effect : Table → Table → Type 0
Effect t t' = Evolves t t' × IsValid t'

-- The rows that an UPDATE matches move along an edge and stay valid.
abbrev pub IsSound : (Row → Bool) → (Row → Row) → Table → Type 0
IsSound p f t = All (λ r. p r ≡ true → IsRow r → RowStep r (f r) × IsRow (f r)) t

Evolves-update_where :
    (p : Row → Bool) (f : Row → Row) (t : Table)
    → IsSound p f t
    → All IsRow t
    → Evolves t (update_where p f t) × All IsRow (update_where p f t)
unfolding update_where
Evolves-update_where p f [] sound rows = (tt, tt)
Evolves-update_where p f (r ∷ t) sound rows =
    let (later, valid) = Evolves-update_where p f t sound.1 rows.1 in
    elim (Bool-cases (p r)) [
      | inl e ↦ rw e (((sound.0 e rows.0).0, later), ((sound.0 e rows.0).1, valid))
      | inr e ↦ rw e ((RowStep-refl r, later), (rows.0, valid))
    ]

-- A sound UPDATE that sets neither key nor parent keeps the table valid.
pub update_where-Effect :
    (p : Row → Bool) (f : Row → Row) (t : Table)
    → ((r : Row) → (f r).job_id ≡ r.job_id)
    → ((r : Row) → (f r).parent_job_id ≡ r.parent_job_id)
    → IsSound p f t
    → IsValid t
    → Effect t (update_where p f t)
update_where-Effect p f t keeps_id keeps_parent sound v =
    let (evolves, rows) = Evolves-update_where p f t sound v.rows in
    let same : ids (update_where p f t) ≡ ids t = map-update_where (λ r. r.job_id) p f t keeps_id in
    (
      evolves,
      record {
        rows = rows;
        keys = rw same v.keys;
        parents = rw same (
            All-update_where (λ r. known (ids t) r.parent_job_id ≡ true) p f t
              (λ r _ h. rw (keeps_parent r) h) v.parents);
      },
    )

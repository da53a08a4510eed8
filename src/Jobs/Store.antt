-- ===== src/Jobs/Store.antt =====
-- The class `JobStore` of teldrive_lab/jobs.py. A method takes the readings of the clock and the
-- fresh identifier that it asks for; the table is the file that the connection opens.
use Prim.Native.String.{compare}
use text.Mathlib.Text.{is_le}
use teldrive_lab.Prelude.{
  ℕ, ◌+◌, String, Bool, true, ◌&&◌, Option, none, some, List, [], ◌∷◌, ◌++◌, map, ltb, eqb,
  if◌then◌else◌, length, take, filter_by, count_by, ◌==◌, holds, or_text, ℤ, pos, negsuc, positive,
  ◌||◌,
}
use teldrive_lab.Exec.{
  Action, ok, err, pure, raise, raise_if, ◌>>◌, value_error, key_error, integrity_error,
}
use teldrive_lab.Sql.{select_one, order_by}
use teldrive_lab.Jobs.{JobState, same_state, JobType, Job, Row, is_terminal}

abbrev pub Table : Type 0
Table = List Row

-- The scale of `progress`: 1.0 is a million millionths.
abbrev pub whole : ℕ
whole = 1000000

unfoldable pub to_job : Row → Job
to_job r = record {
  job_id = r.job_id;
  type = r.type;
  state = r.state;
  priority = r.priority;
  attempts = r.attempts;
  max_attempts = r.max_attempts;
  retry_at = r.retry_at;
  source = r.source;
  destination = r.destination;
  path = r.path;
  checksum = r.checksum;
  progress = r.progress;
  error_code = r.error_code;
  error_message = r.error_message;
  worker_id = r.worker_id;
  lease_until = r.lease_until;
  parent_job_id = r.parent_job_id;
}

unfoldable pub find : String → Table → Option Row
unfolding select_one
find job_id = select_one (λ r. r.job_id == job_id)

abbrev job_or_key_error : String → Option Row → Action Table Job
job_or_key_error job_id none = raise (key_error job_id)
job_or_key_error job_id (some r) = pure (to_job r)

unfoldable pub get : String → Action Table Job
unfolding to_job
get job_id table = job_or_key_error job_id (find job_id table) table

-- The keyword arguments of `enqueue`.
pub record Request : Type 0 where
  pub priority : String
  pub max_attempts : ℤ
  pub source : Option String
  pub destination : Option String
  pub path : Option String
  pub checksum : Option String
  pub parent_job_id : Option String
  pub job_id : Option String

abbrev pub new_row : JobType → Request → String → ℕ → ℕ → Row
new_row job_type q job_id max_attempts now = record {
  job_id = job_id;
  type = job_type;
  state = JobState.queued;
  priority = q.priority;
  created = now;
  started = none;
  updated = now;
  completed = none;
  attempts = 0;
  max_attempts = max_attempts;
  retry_at = none;
  source = q.source;
  destination = q.destination;
  path = q.path;
  size = none;
  checksum = q.checksum;
  progress = 0;
  error_code = none;
  error_message = none;
  worker_id = none;
  lease_until = none;
  parent_job_id = q.parent_job_id;
}

-- The check of the parent in `enqueue`.
abbrev check_parent_row : String → Option Row → Action Table (Unit {0})
check_parent_row p none = raise (key_error p)
check_parent_row p (some r) =
    raise_if (is_terminal r.state) (value_error "cannot add a child to a terminal parent")

unfoldable pub check_parent : Option String → Action Table (Unit {0})
check_parent none table = (ok tt, table)
check_parent (some p) table = check_parent_row p (find p table) table

-- INSERT; a second row with the same PRIMARY KEY is refused.
abbrev insert_unless : Option Row → Row → Action Table (Unit {0})
insert_unless (some _) r table = (err integrity_error, table)
insert_unless none r table = (ok tt, table ++ r ∷ [])

unfoldable pub insert : Row → Action Table (Unit {0})
insert r table = insert_unless (find r.job_id table) r table

abbrev enqueue_checked : JobType → Request → String → ℕ → Option ℕ → Action Table Job
enqueue_checked job_type q job_id now none = raise (value_error "max_attempts must be >= 1")
enqueue_checked job_type q job_id now (some max_attempts) = do
  check_parent q.parent_job_id
  insert (new_row job_type q job_id max_attempts now)
  get job_id

-- `fresh` is `uuid.uuid4().hex`.
unfoldable pub enqueue : JobType → Request → (fresh : String) (now : ℕ) → Action Table Job
enqueue job_type q fresh now =
    enqueue_checked job_type q (or_text q.job_id fresh) now (positive q.max_attempts)

-- ORDER BY created DESC, job_id
unfoldable pub newest_first : Row → Row → Bool
newest_first a b =
    ltb b.created a.created || eqb a.created b.created && is_le (compare a.job_id b.job_id)

-- ORDER BY created, job_id
unfoldable pub oldest_first : Row → Row → Bool
oldest_first a b =
    ltb a.created b.created || eqb a.created b.created && is_le (compare a.job_id b.job_id)

abbrev pub wanted : Option JobState → Row → Bool
wanted none r = true
wanted (some s) r = same_state r.state s

unfoldable pub list_jobs : Option JobState → ℤ → Action Table (List Job)
unfolding newest_first order_by to_job
list_jobs state (negsuc _) table = (err (value_error "limit must be between 1 and 1000"), table)
list_jobs state (pos limit) table =
    if ltb limit 1 || ltb 1000 limit
    then (err (value_error "limit must be between 1 and 1000"), table)
    else (
      ok (map to_job (take limit (order_by newest_first (filter_by (wanted state) table)))),
      table,
    )

abbrev child_of : String → Row → Bool
child_of parent r = holds r.parent_job_id parent

unfoldable pub children : String → Table → List Job
unfolding oldest_first order_by to_job
children parent table = map to_job (order_by oldest_first (filter_by (child_of parent) table))

pub record ChildSummary : Type 0 where
  pub total : ℕ
  pub queued : ℕ
  pub running : ℕ
  pub paused : ℕ
  pub verifying : ℕ
  pub completed : ℕ
  pub failed : ℕ
  pub cancelled : ℕ

-- `counts[state]` after the loop of `child_summary`
abbrev pub counted : JobState → List Job → ℕ
counted s = count_by (λ j. same_state j.state s)

abbrev pub summary_of : List Job → ChildSummary
summary_of jobs = record {
  total = length jobs;
  queued = counted JobState.queued jobs;
  running = counted JobState.running jobs;
  paused = counted JobState.paused jobs;
  verifying = counted JobState.verifying jobs;
  completed = counted JobState.completed jobs;
  failed = counted JobState.failed jobs;
  cancelled = counted JobState.cancelled jobs;
}

unfoldable pub child_summary : String → Table → ChildSummary
child_summary parent table = summary_of (children parent table)

-- `ChildSummary.terminal` and `ChildSummary.successful`
unfoldable pub terminal : ChildSummary → Bool
terminal c = ltb 0 c.total && eqb (c.completed + c.failed + c.cancelled) c.total

unfoldable pub successful : ChildSummary → Bool
unfolding terminal
successful c = terminal c && eqb c.completed c.total

-- ===== src/Jobs/Claims.antt =====
-- The methods of `JobStore` that hand jobs to workers and take them back: `claim`, the recovery of
-- expired leases, and `retry`.
use teldrive_lab.Prelude.{
  ℕ, ◌+◌, String, Bool, true, false, ◌&&◌, Option, none, some, [], ◌∷◌, ltb, leb, if◌then◌else◌,
  filter_by, ◌==◌, ℤ, positive, nonnegative,
}
use teldrive_lab.Exec.{Action, pure, raise, ◌>>=◌, ◌>>◌, value_error}
use teldrive_lab.Sql.{select_one, order_by}
use teldrive_lab.Jobs.{JobState, Job, Row, is_queued, is_active}
use teldrive_lab.Jobs.Store.{Table, get}
use teldrive_lab.Jobs.Updates.{owned, update}

-- CASE priority WHEN 'CRITICAL' THEN 0 …
unfoldable pub rank : String → ℕ
rank priority =
    if priority == "CRITICAL"
    then 0
    else if priority == "HIGH"
    then 1
    else if priority == "NORMAL"
    then 2
    else if priority == "LOW"
    then 3
    else 4

-- retry_at IS NULL OR retry_at <= now
abbrev pub is_due : ℕ → Option ℕ → Bool
is_due now none = true
is_due now (some t) = leb t now

unfoldable pub claimable : ℕ → Row → Bool
claimable now r = is_queued r.state && is_due now r.retry_at

-- ORDER BY CASE priority … END, created
unfoldable pub claim_order : Row → Row → Bool
claim_order a b =
    let ra = rank a.priority in
    let rb = rank b.priority in
    if ltb ra rb then true else if ltb rb ra then false else leb a.created b.created

-- LIMIT 1
abbrev pub first : Table → Option Row
first [] = none
first (r ∷ rows) = some r

unfoldable pub next_claim : ℕ → Table → Option Row
next_claim now table = first (order_by claim_order (filter_by (claimable now) table))

-- COALESCE(started,?)
abbrev coalesce : Option ℕ → ℕ → Option ℕ
coalesce none now = some now
coalesce (some t) now = some t

abbrev pub claimed_row : String → ℕ → ℕ → Row → Row
claimed_row worker_id lease now r = record r {
  state = JobState.running;
  worker_id = some worker_id;
  lease_until = some (now + lease);
  started = coalesce r.started now;
  updated = now;
}

abbrev claim_row : String → ℕ → ℕ → Option Row → Action Table (Option Job)
claim_row worker_id lease now none = pure none
claim_row worker_id lease now (some row) = do
  update (λ r. r.job_id == row.job_id) (claimed_row worker_id lease now)
  job ← get row.job_id
  pure (some job)

unfoldable pub claim_for : String → ℕ → ℕ → Action Table (Option Job)
claim_for worker_id lease now table = claim_row worker_id lease now (next_claim now table) table

abbrev claim_checked : String → ℕ → Option ℕ → Action Table (Option Job)
claim_checked worker_id now none = raise (value_error "lease_seconds must be positive")
claim_checked worker_id now (some lease) = claim_for worker_id lease now

unfoldable pub claim :
    (worker_id : String) (lease_seconds : ℤ) (now : ℕ) → Action Table (Option Job)
claim worker_id lease_seconds now = claim_checked worker_id now (positive lease_seconds)

-- lease_until IS NOT NULL AND lease_until < now
abbrev pub is_past : ℕ → Option ℕ → Bool
is_past now none = false
is_past now (some t) = ltb t now

unfoldable pub expired : ℕ → Row → Bool
expired now r = is_active r.state && is_past now r.lease_until

abbrev pub recovered_row : ℕ → Row → Row
recovered_row now r = record r {
  state = JobState.queued;
  worker_id = none;
  lease_until = none;
  retry_at = some now;
  updated = now;
}

unfoldable pub recover_expired_leases : (now : ℕ) → Action Table ℕ
unfolding update expired
recover_expired_leases now = update (expired now) (recovered_row now)

-- The SELECT of `retry`: the attempts and the ceiling of the job, if the worker owns it.
unfoldable pub retry_read : (job_id worker_id : String) → Table → Option (ℕ × ℕ)
retry_read job_id worker_id table = elim (select_one (owned job_id worker_id is_active) table) [
  | none ↦ none
  | some r ↦ some (r.attempts, r.max_attempts)
]

abbrev pub retried_row : ℕ → ℕ → ℕ → String → String → ℕ → Row → Row
retried_row attempts max_attempts delay error_code error_message now r =
    let exhausted = leb max_attempts attempts in
    record r {
      attempts = attempts;
      state = if exhausted then JobState.failed else JobState.queued;
      retry_at = if exhausted then none else some (now + delay);
      error_code = some error_code;
      error_message = some error_message;
      worker_id = none;
      lease_until = none;
      updated = now;
    }

-- The UPDATE of `retry`. Its WHERE clause names the job alone.
unfoldable pub retry_write : String → ℕ → ℕ → ℕ → String → String → ℕ → Action Table ℕ
unfolding update
retry_write job_id attempts max_attempts delay error_code error_message now =
    update (λ r. r.job_id == job_id)
      (retried_row attempts max_attempts delay error_code error_message now)

abbrev retry_found : String → ℕ → String → String → ℕ → Option (ℕ × ℕ) → Action Table Job
retry_found job_id delay error_code error_message now none =
    raise (value_error "job is not owned by this worker or is not running")
retry_found job_id delay error_code error_message now (some (attempts, max_attempts)) = do
  retry_write job_id (attempts + 1) max_attempts delay error_code error_message now
  get job_id

unfoldable pub retry_for : String → String → ℕ → String → String → ℕ → Action Table Job
retry_for job_id worker_id delay error_code error_message now table =
    retry_found job_id delay error_code error_message now (retry_read job_id worker_id table) table

abbrev retry_checked : String → String → Option ℕ → String → String → ℕ → Action Table Job
retry_checked job_id worker_id none error_code error_message now =
    raise (value_error "delay_seconds must be non-negative")
retry_checked job_id worker_id (some delay) error_code error_message now =
    retry_for job_id worker_id delay error_code error_message now

unfoldable pub retry :
    (job_id worker_id error_code error_message : String) (delay_seconds : ℤ) (now : ℕ)
    → Action Table Job
retry job_id worker_id error_code error_message delay_seconds now =
    retry_checked job_id worker_id (nonnegative delay_seconds) error_code error_message now

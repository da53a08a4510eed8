-- ===== src/Jobs/Retrying.antt =====
-- `retry` and the recovery of leases: what they do to the job, and what comes between the two
-- statements of `retry`.
use teldrive_lab.Prelude.{
  ℕ, ◌+◌, ◌≤◌, ◌<◌, String, Bool, true, false, none, some, [], ◌∷◌, ◌≡◌, refl, arith, ◌==◌, pos,
  leb, holds, if◌then◌else◌, All, eq_refl, eq_iff, count_by,
}
use teldrive_lab.Exec.{ok}
use teldrive_lab.Sql.{update_where, select_one}
use teldrive_lab.Sql.Laws.{select_one_test}
use teldrive_lab.Jobs.{JobState, Row, is_active, is_cancellable}
use teldrive_lab.Jobs.Store.{Table, find}
use teldrive_lab.Jobs.Updates.{update, owned, cancel, in_state}
use teldrive_lab.Jobs.Claims.{
  retry, retry_read, retry_write, retried_row, recover_expired_leases, expired, recovered_row,
  claimable,
}
use teldrive_lab.Jobs.Handover.{retry_for_table}
use teldrive_lab.Jobs.Effects.{update_one_table}
use teldrive_lab.Jobs.Find.{find-update_id, find-update_where}

select_one_refine :
    (p q : Row → Bool) (t : Table) (a : Row)
    → ((r : Row) → q r ≡ true → p r ≡ true)
    → select_one p t ≡ some a
    → q a ≡ true
    → select_one q t ≡ some a
unfolding select_one
select_one_refine p q [] a weaker h qa = cc
select_one_refine p q (r ∷ t) a weaker h qa =
    ground (arith, weaker r, select_one_refine p q t a weaker)

-- A job found by its key and owned by the worker is the one that the SELECT of `retry` returns.
found_selected :
    (k w : String) (t : Table) (r : Row)
    → find k t ≡ some r
    → holds r.worker_id w ≡ true
    → is_active r.state ≡ true
    → select_one (owned k w is_active) t ≡ some r
unfolding find
found_selected k w t r h owner active =
    select_one_refine (λ x. x.job_id == k) (owned k w is_active) t r (λ x m. ground arith) h
      (ground (arith, select_one_test (λ x. x.job_id == k) t r h))

-- The row of a job after a retry by its owner.
abbrev pub Retried : Row → Row → ℕ → ℕ → Type 0
Retried r r' delay now =
    (r'.attempts ≡ r.attempts + 1)
    × (r.attempts + 1 < r.max_attempts
        → (r'.state ≡ JobState.queued)
          × ((later : ℕ) → claimable later r' ≡ leb (now + delay) later))
    × (r.max_attempts ≤ r.attempts + 1 → r'.state ≡ JobState.failed)

-- A retry by the owner of a RUNNING or VERIFYING job uses up one attempt. Below the ceiling the
-- job is queued, and can be claimed from now + delay on and not before; at the ceiling it has
-- FAILED. Under every other key the table holds what it held.
pub retry_outcome :
    (k w code message : String) (delay now : ℕ) (t : Table) (r : Row)
    → find k t ≡ some r
    → holds r.worker_id w ≡ true
    → is_active r.state ≡ true
    → (r' : Row) × Retried r r' delay now
      × ((j : String)
          → find j (retry k w code message (pos delay) now t).1
            ≡ (if k == j then some r' else find j t))
unfolding retry
retry_outcome k w code message delay now t r h owner active =
    let f = retried_row (r.attempts + 1) r.max_attempts delay code message now in
    (
      f r,
      (refl, (λ low. unfold claimable in ground arith), (λ high. ground arith)),
      (λ j.
          rw
            (retry_for_table k w delay code message now t r (found_selected k w t r h owner active))
            (ground (arith, find-update_id k j f t (λ x. refl), h, eq_iff k j))),
    )

-- After a recovery no lease in the table has run out.
pub recover_clears :
    (now : ℕ) (t : Table) → All (λ r. expired now r ≡ false) (recover_expired_leases now t).1
unfolding recover_expired_leases update_where
recover_clears now [] = tt
recover_clears now (r ∷ t) = (ground arith, recover_clears now t)

-- A recovery puts exactly the jobs whose lease has run out back into the queue, where they can be
-- claimed at once, with their attempts as they were; every other job keeps its row; and it
-- reports how many it put back.
pub recover_outcome :
    (now : ℕ) (k : String) (t : Table) (r : Row)
    → find k t ≡ some r
    → (r' : Row) × (find k (recover_expired_leases now t).1 ≡ some r')
      × (expired now r ≡ true → (claimable now r' ≡ true) × (r'.attempts ≡ r.attempts))
      × (expired now r ≡ false → r' ≡ r)
      × ((recover_expired_leases now t).0 ≡ ok (count_by (expired now) t))
unfolding recover_expired_leases claimable
recover_outcome now k t r h = (
  (if expired now r then recovered_row now r else r),
  ground (arith, find-update_where (expired now) (recovered_row now) k t (λ x. refl), h),
  ground arith,
  ground arith,
  refl,
)

abbrev cancelled_row : ℕ → Row → Row
cancelled_row now r = record r {
  state = JobState.cancelled;
  updated = now;
  lease_until = none;
  worker_id = none;
}

find-cancel :
    (k : String) (now : ℕ) (t : Table) (r : Row)
    → find k t ≡ some r
    → is_cancellable r.state ≡ true
    → find k (cancel k now t).1 ≡ some (cancelled_row now r)
unfolding cancel
find-cancel k now t r h live =
    let message : String = "job cannot be cancelled from its current state" in
    rw (update_one_table (in_state k is_cancellable) (cancelled_row now) message k t) (
      ground (
        arith,
        find-update_where (in_state k is_cancellable) (cancelled_row now) k t (λ x. refl),
        h,
        found_key k t r h,
      ))
  where
    found_key : (k : String) (t : Table) (r : Row) → find k t ≡ some r → (r.job_id == k) ≡ true
    found_key k t r h = unfold find in select_one_test (λ x. x.job_id == k) t r h

-- The SELECT and the UPDATE of `retry` are two transactions. If an operator cancels the job
-- between them, the cancellation is accepted, and the UPDATE puts the CANCELLED job back into the
-- queue, whenever the attempts that the SELECT read leave one more.
pub retry_overrides_cancel :
    (k w code message : String) (delay now now' attempts max_attempts : ℕ) (t : Table) (r : Row)
    → find k t ≡ some r
    → is_cancellable r.state ≡ true
    → retry_read k w t ≡ some (attempts, max_attempts)
    → attempts + 1 < max_attempts
    → let cancelled = (cancel k now t).1 in
      let after = (retry_write k (attempts + 1) max_attempts delay code message now' cancelled).1 in
      (c : Row) × (find k cancelled ≡ some c)
      × (c.state ≡ JobState.cancelled)
      × ((q : Row) × (find k after ≡ some q) × (q.state ≡ JobState.queued))
unfolding retry_write update
retry_overrides_cancel k w code message delay now now' attempts max_attempts t r h live read low =
    let f = retried_row (attempts + 1) max_attempts delay code message now' in
    let c = cancelled_row now r in
    let stored : find k (cancel k now t).1 ≡ some c = find-cancel k now t r h live in
    (
      c,
      stored,
      refl,
      (
        f c,
        ground (arith, find-update_id k k f (cancel k now t).1 (λ x. refl), stored, eq_refl k),
        ground arith,
      ),
    )

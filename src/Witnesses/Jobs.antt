-- ===== src/Witnesses/Jobs.antt =====
-- The theorems on the job store, on the sample.
use teldrive_lab.Prelude.{
  ℕ, ◌≤◌, String, true, false, none, some, List, [], ◌∷◌, ◌++◌, pos, ◌≡◌, ◌≢◌, refl, arith,
  count_by, if◌then◌else◌, ◌==◌, positive,
}
use teldrive_lab.Exec.{ok, err, value_error}
use teldrive_lab.Sql.{update_where, select_one, order_by, insert_sorted}
use teldrive_lab.Jobs.{JobState, Row}
use teldrive_lab.Jobs.Store
use teldrive_lab.Jobs.Updates
use teldrive_lab.Jobs.Claims
use teldrive_lab.Jobs.Store.{
  Table, find, children, child_summary, ChildSummary, terminal, successful, list_jobs, to_job,
}
use teldrive_lab.Jobs.Updates.{cancel}
use teldrive_lab.Jobs.Claims.{
  claim, claimable, claimed_row, retry, retry_read, retry_write, expired, recover_expired_leases,
}
use teldrive_lab.Jobs.Trace.{Op, run, perform, cancel_op, resume_op, complete_op, claim_op}
use teldrive_lab.Jobs.Invariant.{IsValid}
use teldrive_lab.Jobs.History.{run-IsValid, terminal_frozen, job_history, Reaches}
use teldrive_lab.Jobs.Atomic.{perform_error}
use teldrive_lab.Jobs.Claiming.{Takes, claim-Takes, no_double_claim}
use teldrive_lab.Jobs.Ownership.{Refused, not_owner-Refused}
use teldrive_lab.Jobs.Retrying.{Retried, retry_outcome, recover_outcome, retry_overrides_cancel}
use teldrive_lab.Witnesses.Sample.{
  queued_ops, claimed_ops, queued_table, claimed_table, row_b, running_a, claimed_found,
}

run-IsValid_example : IsValid claimed_table
run-IsValid_example = run-IsValid claimed_ops

abbrev cancelled_ops : List Op
cancelled_ops = claimed_ops ++ cancel_op "a" 6 ∷ []

abbrev cancelled_a : Row
cancelled_a = record running_a {
  state = JobState.cancelled;
  updated = 6;
  lease_until = none;
  worker_id = none;
}

cancelled_found : find "a" (run cancelled_ops []) ≡ some cancelled_a
unfolding find run perform cancel Updates.update_one Updates.update Updates.resume claim
    Claims.claim_for Claims.next_claim order_by Store.enqueue Store.check_parent Store.insert
    Store.get claimable Claims.claim_order Claims.rank retry_read to_job select_one update_where
    insert_sorted
cancelled_found = refl

terminal_frozen_example :
    find "a" (run (resume_op "a" 7 ∷ complete_op "a" "w" 8 ∷ []) (run cancelled_ops []))
    ≡ some cancelled_a
terminal_frozen_example =
    terminal_frozen "a" (resume_op "a" 7 ∷ complete_op "a" "w" 8 ∷ []) (run cancelled_ops [])
      cancelled_a (run-IsValid cancelled_ops) cancelled_found refl

job_history_example :
    (r' : Row) × (find "a" (run (cancel_op "a" 6 ∷ []) claimed_table) ≡ some r')
    × Reaches JobState.running r'.state
    × (0 ≤ r'.attempts)
    × (r'.attempts ≤ 2)
job_history_example =
    job_history "a" (cancel_op "a" 6 ∷ []) claimed_table running_a (run-IsValid claimed_ops)
      claimed_found

resume_raises :
    (perform (resume_op "a" 6) claimed_table).0
    ≡ err (value_error "job cannot be resumed from its current state")
unfolding find run perform cancel Updates.update_one Updates.update Updates.resume claim
    Claims.claim_for Claims.next_claim order_by Store.enqueue Store.check_parent Store.insert
    Store.get claimable Claims.claim_order Claims.rank retry_read to_job select_one update_where
    insert_sorted
resume_raises = refl

perform_error_example : (perform (resume_op "a" 6) claimed_table).1 ≡ claimed_table
perform_error_example =
    perform_error (resume_op "a" 6) claimed_table
      (value_error "job cannot be resumed from its current state") resume_raises

claimed_first : (claim "w" (pos 10) 5 queued_table).0 ≡ ok (some (to_job running_a))
unfolding find run perform cancel Updates.update_one Updates.update Updates.resume claim
    Claims.claim_for Claims.next_claim order_by Store.enqueue Store.check_parent Store.insert
    Store.get claimable Claims.claim_order Claims.rank retry_read to_job select_one update_where
    insert_sorted
claimed_first = refl

claim-Takes_example :
    (n : ℕ) × (positive (pos 10) ≡ some n)
    × (a : Row) × Takes "w" n 5 queued_table (to_job running_a) a
claim-Takes_example =
    claim-Takes "w" (pos 10) 5 queued_table (to_job running_a) (run-IsValid queued_ops)
      claimed_first

claimed_second :
    (claim "v" (pos 10) 6 (claim "w" (pos 10) 5 queued_table).1).0
    ≡ ok (some (to_job (claimed_row "v" 10 6 row_b)))
unfolding find run perform cancel Updates.update_one Updates.update Updates.resume claim
    Claims.claim_for Claims.next_claim order_by Store.enqueue Store.check_parent Store.insert
    Store.get claimable Claims.claim_order Claims.rank retry_read to_job select_one update_where
    insert_sorted
claimed_second = refl

no_double_claim_example : (to_job running_a).job_id ≢ (to_job (claimed_row "v" 10 6 row_b)).job_id
no_double_claim_example =
    no_double_claim "w" "v" (pos 10) (pos 10) 5 6 queued_table (to_job running_a)
      (to_job (claimed_row "v" 10 6 row_b)) (run-IsValid queued_ops) claimed_first claimed_second

abbrev taken_ops : List Op
taken_ops = claimed_ops ++ claim_op "v" (pos 10) 6 ∷ []

nothing_left : (claim "u" (pos 10) 7 (run taken_ops [])).0 ≡ ok none
unfolding find run perform cancel Updates.update_one Updates.update Updates.resume claim
    Claims.claim_for Claims.next_claim order_by Store.enqueue Store.check_parent Store.insert
    Store.get claimable Claims.claim_order Claims.rank retry_read to_job select_one update_where
    insert_sorted
nothing_left = refl

not_owner-Refused_example : Refused (perform (complete_op "a" "v" 6)) claimed_table
not_owner-Refused_example =
    not_owner-Refused (complete_op "a" "v" 6) claimed_table "a" "v" running_a
      (run-IsValid claimed_ops) refl claimed_found refl

retry_outcome_example :
    (r' : Row) × Retried running_a r' 3 6
    × ((j : String)
        → find j (retry "a" "w" "E" "message" (pos 3) 6 claimed_table).1
          ≡ (if "a" == j then some r' else find j claimed_table))
retry_outcome_example =
    retry_outcome "a" "w" "E" "message" 3 6 claimed_table running_a claimed_found refl refl

recover_outcome_example :
    (r' : Row) × (find "a" (recover_expired_leases 100 claimed_table).1 ≡ some r')
    × (expired 100 running_a ≡ true → (claimable 100 r' ≡ true) × (r'.attempts ≡ 0))
    × (expired 100 running_a ≡ false → r' ≡ running_a)
    × ((recover_expired_leases 100 claimed_table).0 ≡ ok (count_by (expired 100) claimed_table))
recover_outcome_example = recover_outcome 100 "a" claimed_table running_a claimed_found

read_a : retry_read "a" "w" claimed_table ≡ some (0, 2)
unfolding find run perform cancel Updates.update_one Updates.update Updates.resume claim
    Claims.claim_for Claims.next_claim order_by Store.enqueue Store.check_parent Store.insert
    Store.get claimable Claims.claim_order Claims.rank retry_read to_job select_one update_where
    insert_sorted
read_a = refl

retry_overrides_cancel_example :
    (c : Row) × (find "a" (cancel "a" 6 claimed_table).1 ≡ some c)
    × (c.state ≡ JobState.cancelled)
    × ((q : Row) × (find "a"
            (retry_write "a" 1 2 3 "E" "message" 7 (cancel "a" 6 claimed_table).1).1
          ≡ some q)
        × (q.state ≡ JobState.queued))
retry_overrides_cancel_example =
    retry_overrides_cancel "a" "w" "E" "message" 3 6 7 0 2 claimed_table running_a claimed_found
      refl read_a (omega arith)

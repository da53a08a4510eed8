-- ===== src/Witnesses/Sample.antt =====
-- Two enqueued jobs, and the table after a worker has claimed the first.
use teldrive_lab.Prelude.{String, none, some, List, [], ◌∷◌, pos, ◌≡◌, refl}
use teldrive_lab.Jobs.{JobState, JobType, Row}
use teldrive_lab.Jobs.Store.{Table, Request, new_row, find}
use teldrive_lab.Jobs.Claims.{claimed_row}
use teldrive_lab.Jobs.Trace.{Op, run, enqueue_op, claim_op}

abbrev pub request : String → Request
request key = record {
  priority = "NORMAL";
  max_attempts = pos 2;
  source = some "/srv/in";
  destination = some "/srv/out";
  path = none;
  checksum = none;
  parent_job_id = none;
  job_id = some key;
}

abbrev pub queued_ops : List Op
queued_ops =
    enqueue_op JobType.upload (request "a") "x" 1
    ∷ enqueue_op JobType.upload (request "b") "y" 2
    ∷ []

abbrev pub claimed_ops : List Op
claimed_ops =
    enqueue_op JobType.upload (request "a") "x" 1
    ∷ enqueue_op JobType.upload (request "b") "y" 2
    ∷ claim_op "w" (pos 10) 5
    ∷ []

abbrev pub queued_table : Table
queued_table = run queued_ops []

abbrev pub claimed_table : Table
claimed_table = run claimed_ops []

abbrev pub row_a : Row
row_a = new_row JobType.upload (request "a") "a" 2 1

abbrev pub row_b : Row
row_b = new_row JobType.upload (request "b") "b" 2 2

abbrev pub running_a : Row
running_a = claimed_row "w" 10 5 row_a

pub queued_found : find "a" queued_table ≡ some row_a
unfolding find run teldrive_lab.Jobs.Trace.perform teldrive_lab.Jobs.Store.enqueue
    teldrive_lab.Jobs.Store.check_parent teldrive_lab.Jobs.Store.insert teldrive_lab.Jobs.Store.get
queued_found = refl

pub claimed_found : find "a" claimed_table ≡ some running_a
unfolding find run teldrive_lab.Jobs.Trace.perform teldrive_lab.Jobs.Claims.claim
    teldrive_lab.Jobs.Claims.claim_for teldrive_lab.Jobs.Claims.next_claim teldrive_lab.Sql.order_by
    teldrive_lab.Jobs.Store.enqueue teldrive_lab.Jobs.Store.check_parent
    teldrive_lab.Jobs.Store.insert teldrive_lab.Jobs.Store.get teldrive_lab.Jobs.Claims.claimable
    teldrive_lab.Jobs.Claims.claim_order teldrive_lab.Jobs.Claims.rank
    teldrive_lab.Jobs.Updates.update
claimed_found = refl

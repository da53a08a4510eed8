-- ===== src/Witnesses/Workers.antt =====
-- The theorems on the worker and the registry, at concrete inputs.
use teldrive_lab.Prelude.{String, true, false, Option, none, some, [], ◌≡◌, refl, pos, any_by}
use teldrive_lab.Exec.{ok}
use teldrive_lab.Safety.{AuthorizationReceipt, is_mutating}
use teldrive_lab.Safety.Paths
use teldrive_lab.Safety.Paths.{is_protected}
use teldrive_lab.Safety.Policy
use teldrive_lab.Jobs.{JobState, JobType, Job, Row, is_terminal}
use teldrive_lab.Jobs.Store.{to_job, find}
use teldrive_lab.Jobs.Trace.{run}
use teldrive_lab.Jobs.Invariant.{IsValid}
use teldrive_lab.Jobs.History.{run-IsValid}
use teldrive_lab.JobLifecycle.{Stores}
use teldrive_lab.Worker.{
  Worker, Session, Executor, raises, execute, operation_for, job_paths, handle, run_once,
  safety_decision,
}
use teldrive_lab.Worker.Gate.{with_executor, denied_not_executed}
use teldrive_lab.Worker.Traces.{Follows, run_once-IsValid}
use teldrive_lab.Witnesses.Sample.{claimed_ops, claimed_table, running_a}
use teldrive_lab.Witnesses.Boundary.{host, stamp, stores}

-- An executor that changes nothing and fails, and one that empties the log.
abbrev idle : Executor
idle = Executor.legacy (λ job s. (raises "idle", s))

abbrev forgetful : Executor
forgetful = Executor.legacy (λ job s. (raises "done", record s { events = [] }))

abbrev worker : Worker
worker = record {
  executor = idle;
  worker_id = "w";
  audits = true;
  lease_seconds = pos 10;
  provider = none;
}

abbrev session : Session
session = record { now = λ n. 20; stamp = λ n. stamp }

abbrev job : Job
job = to_job running_a

abbrev vault_job : Job
vault_job = record job { destination = some "/vault/out" }

transfers : is_mutating (operation_for job) ≡ true
unfolding is_mutating operation_for teldrive_lab.Jobs.type_value to_job
transfers = refl

vault_named : any_by (is_protected host) (job_paths vault_job) ≡ true
unfolding to_job is_protected Paths.protected_roots Paths.is_within Paths.resolve_path Paths.resolve
    Paths.protected_state
vault_named = refl

all_denied :
    (a : Option AuthorizationReceipt)
    → ok none ≡ ok a
    → (safety_decision host job a).allowed ≡ false
unfolding safety_decision Policy.authorize is_mutating operation_for teldrive_lab.Jobs.type_value
    to_job Policy.protected_paths is_protected Paths.protected_roots Paths.is_within
    Paths.resolve_path Paths.resolve Paths.protected_state
all_denied none e = refl
all_denied (some r) e = absurd (cc)

denied_not_executed_example :
    handle (with_executor forgetful worker) session host job stores
    ≡ handle worker session host job stores
denied_not_executed_example =
    denied_not_executed worker session host job forgetful stores all_denied

idle_behaves :
    (j : Job) (a : Option AuthorizationReceipt) (s : Stores)
    → Follows s.jobs (execute idle j a s).1.jobs
unfolding execute run
idle_behaves j a s = ([], refl)

run_once-IsValid_example :
    IsValid (run_once worker session host stores).1.jobs
    × ((k : String) (r : Row)
        → find k claimed_table ≡ some r
        → is_terminal r.state ≡ true
        → find k (run_once worker session host stores).1.jobs ≡ some r)
run_once-IsValid_example =
    run_once-IsValid worker session host idle_behaves stores (run-IsValid claimed_ops)

-- ===== src/Worker/Traces.antt =====
-- A run of the worker changes the jobs by the store's methods only.
use mathlib.Core.Path.{subst}
use teldrive_lab.Prelude.{
  String, Bool, true, false, Option, none, some, List, [], ◌∷◌, ◌++◌, ◌≡◌, refl, arith, inl, inr,
  ◌⊎◌, ◌∙◌, ap, sym, if◌then◌else◌,
}
use teldrive_lab.Exec.{Action, Error, ok, err, pure, Any-cases, ◌>>=◌}
use teldrive_lab.Audit.{Detail, record_event}
use teldrive_lab.Safety.{AuthorizationReceipt, Decision}
use teldrive_lab.Safety.Paths.{Host}
use teldrive_lab.Jobs.{Job, Row, is_terminal}
use teldrive_lab.Jobs.Invariant.{IsValid}
use teldrive_lab.Jobs.History.{run-IsValid_from, terminal_frozen}
use teldrive_lab.Jobs.Store.{Table, get, find}
use teldrive_lab.Jobs.Updates.{begin_verification}
use teldrive_lab.Jobs.Claims.{claim}
use teldrive_lab.Jobs.Trace
use teldrive_lab.Jobs.Trace.{
  Op, fail_op, cancel_op, retry_op, claim_op, begin_verification_op, complete_verification_op,
  perform, run, discard_table,
}
use teldrive_lab.JobLifecycle.{Stores, on_jobs, Stamp}
use teldrive_lab.Worker.{
  Worker, Session, ExecutionStatus, ExecutionResult, execute, provided, from_result,
  safety_decision, audit, handle, handle_claimed, approve, refuse, attempted, settle, settle_status,
  settle_current, yield_job, confirm, gate, still_owns, succeed, drop_job, retry_job, fail_job,
  run_once, authorization_detail, or_default, floor, status_value,
}

-- The table is what some sequence of methods makes of the other.
abbrev pub Follows : Table → Table → Type 0
Follows t t' = (ops : List Op) × (run ops t ≡ t')

abbrev pub IsTraced : {A : Type 0} → Action Stores A → Type 0
IsTraced m = (s : Stores) → Follows s.jobs (m s).1.jobs

run-append : (ops more : List Op) (t : Table) → run (ops ++ more) t ≡ run more (run ops t)
unfolding run
run-append [] more t = refl
run-append (op ∷ ops) more t = run-append ops more (perform op t).1

nothing : {t : Table} → Follows t t
unfolding run
nothing = ([], refl)

then_on : (t u w : Table) → Follows t u → Follows u w → Follows t w
then_on t u w (ops, p) (more, q) = (ops ++ more, run-append ops more t ∙ (ap (run more) p ∙ q))

one_method :
    {A : Type 0} (op : Op) (m : Action Table A)
    → perform op ≡ Trace.discard m
    → IsTraced (on_jobs m)
unfolding run
one_method op m e s = (op ∷ [], ap (λ f. (f s.jobs).1) e ∙ discard_table m s.jobs)

bind_ok :
    {A B : Type 0} (m : Action Stores A) (f : A → Action Stores B) (s : Stores) (a : A)
    → (m s).0 ≡ ok a
    → (m >>= f) s ≡ f a (m s).1
bind_ok m f s a e = ground arith

bind_err :
    {A B : Type 0} (m : Action Stores A) (f : A → Action Stores B) (s : Stores) (x : Error)
    → (m s).0 ≡ err x
    → (m >>= f) s ≡ (err x, (m s).1)
bind_err m f s x e = ground arith

bind-IsTraced :
    {A B : Type 0} (m : Action Stores A) (f : A → Action Stores B)
    → IsTraced m
    → ((a : A) → IsTraced (f a))
    → IsTraced (m >>= f)
bind-IsTraced m f first rest s = elim (Any-cases (m s).0) [
  | inl (a, e) ↦
      subst (λ r. Follows s.jobs r.1.jobs) (sym (bind_ok m f s a e))
        (then_on s.jobs (m s).1.jobs (f a (m s).1).1.jobs (first s) (rest a (m s).1))
  | inr (x, e) ↦ subst (λ r. Follows s.jobs r.1.jobs) (sym (bind_err m f s x e)) (first s)
]

pure-IsTraced : {A : Type 0} (a : A) → IsTraced (pure a)
pure-IsTraced a s = nothing

if-IsTraced :
    {A : Type 0} (b : Bool) (m n : Action Stores A)
    → IsTraced m
    → IsTraced n
    → IsTraced (if b then m else n)
if-IsTraced true m n h g = h
if-IsTraced false m n h g = g

get_same : (k : String) (s : Stores) → run [] s.jobs ≡ (on_jobs (get k) s).1.jobs
unfolding get run
get_same k s = ground arith

get-IsTraced : (k : String) → IsTraced (on_jobs (get k))
get-IsTraced k s = ([], get_same k s)

module _ (w : Worker) (session : Session) where
  audit-IsTraced :
      (stamp : Stamp) (operation : String) (job : Job) (decision result : String)
      (code : Option String) (details : List (String × Detail))
      → IsTraced (audit w stamp operation job decision result code details)
  unfolding audit run
  audit-IsTraced stamp operation job decision result code details s = ([], ground arith)

  -- The table is as it was, or one method has changed it.
  abbrev retry_op_of : Job → ExecutionResult → Op
  retry_op_of job r =
      retry_op job.job_id w.worker_id (or_default r.error_code "RETRYABLE")
        (or_default r.error_message "retryable execution failure") (floor r.delay_seconds)
        (session.now 1)

  abbrev fail_op_of : Job → ExecutionResult → Op
  fail_op_of job r =
      fail_op job.job_id w.worker_id (or_default r.error_code (status_value r.status))
        (or_default r.error_message "execution failed") (session.now 1)

  one_of : (op : Op) (t u : Table) → (u ≡ t) ⊎ (u ≡ (perform op t).1) → Follows t u
  unfolding run
  one_of op t u (inl same) = ([], sym same)
  one_of op t u (inr done) = (op ∷ [], sym done)

  refuse_jobs :
      (job : Job) (d : Decision) (s : Stores)
      → ((refuse w session job d s).1.jobs ≡ s.jobs)
        ⊎ ((refuse w session job d s).1.jobs
            ≡ (perform
                (fail_op job.job_id w.worker_id "UNSAFE_OPERATION" d.reason (session.now 1))
                s.jobs).1)
  unfolding refuse audit record_event perform
  refuse_jobs job d s = ground arith

  refuse-IsTraced : (job : Job) (d : Decision) → IsTraced (refuse w session job d)
  refuse-IsTraced job d s =
      one_of (fail_op job.job_id w.worker_id "UNSAFE_OPERATION" d.reason (session.now 1)) s.jobs
        (refuse w session job d s).1.jobs (refuse_jobs job d s)

  drop_jobs :
      (job : Job) (s : Stores)
      → ((drop_job w session job s).1.jobs ≡ s.jobs)
        ⊎ ((drop_job w session job s).1.jobs
            ≡ (perform (cancel_op job.job_id (session.now 1)) s.jobs).1)
  unfolding drop_job audit record_event perform
  drop_jobs job s = ground arith

  retry_jobs :
      (job : Job) (r : ExecutionResult) (s : Stores)
      → ((retry_job w session job r s).1.jobs ≡ s.jobs)
        ⊎ ((retry_job w session job r s).1.jobs ≡ (perform (retry_op_of job r) s.jobs).1)
  unfolding retry_job audit record_event perform
  retry_jobs job r s = ground arith

  fail_jobs :
      (job : Job) (r : ExecutionResult) (s : Stores)
      → ((fail_job w session job r s).1.jobs ≡ s.jobs)
        ⊎ ((fail_job w session job r s).1.jobs ≡ (perform (fail_op_of job r) s.jobs).1)
  unfolding fail_job audit record_event perform
  fail_jobs job r s = ground arith

  confirm_jobs :
      (job : Job) (s : Stores)
      → ((confirm w session job s).1.jobs ≡ s.jobs)
        ⊎ ((confirm w session job s).1.jobs
            ≡ (perform (complete_verification_op job.job_id w.worker_id (session.now 2)) s.jobs).1)
  unfolding confirm audit record_event perform
  confirm_jobs job s = ground arith

  confirm-IsTraced : (job : Job) → IsTraced (confirm w session job)
  confirm-IsTraced job s =
      one_of (complete_verification_op job.job_id w.worker_id (session.now 2)) s.jobs
        (confirm w session job s).1.jobs (confirm_jobs job s)

  begin-IsTraced :
      (k : String) → IsTraced (on_jobs (begin_verification k w.worker_id (session.now 1)))
  unfolding perform
  begin-IsTraced k =
      one_method (begin_verification_op k w.worker_id (session.now 1))
        (begin_verification k w.worker_id (session.now 1)) refl

  yield_jobs :
      (job : Job) (r : ExecutionResult) (s : Stores)
      → run [] s.jobs ≡ (yield_job w session job r s).1.jobs
  unfolding yield_job audit record_event run
  yield_jobs job r s = ground arith

  yield-IsTraced : (job : Job) (r : ExecutionResult) → IsTraced (yield_job w session job r)
  yield-IsTraced job r s = ([], yield_jobs job r s)

  status-IsTraced :
      (status : ExecutionStatus) (job : Job) (r : ExecutionResult)
      → IsTraced (settle_status w session status job r)
  unfolding succeed
  status-IsTraced ExecutionStatus.success job r =
      bind-IsTraced (on_jobs (begin_verification job.job_id w.worker_id (session.now 1)))
        (λ _. confirm w session job) (begin-IsTraced job.job_id) (λ _. confirm-IsTraced job)
  status-IsTraced ExecutionStatus.cancelled job r = λ s.
      one_of (cancel_op job.job_id (session.now 1)) s.jobs (drop_job w session job s).1.jobs
        (drop_jobs job s)
  status-IsTraced ExecutionStatus.retryable job r = λ s.
      one_of (retry_op_of job r) s.jobs (retry_job w session job r s).1.jobs (retry_jobs job r s)
  status-IsTraced ExecutionStatus.permanent job r =
      λ s. one_of (fail_op_of job r) s.jobs (fail_job w session job r s).1.jobs (fail_jobs job r s)
  status-IsTraced ExecutionStatus.unsafe job r =
      λ s. one_of (fail_op_of job r) s.jobs (fail_job w session job r s).1.jobs (fail_jobs job r s)

  settle-IsTraced : (job : Job) (r : ExecutionResult) → IsTraced (settle w session job r)
  unfolding settle
  settle-IsTraced job r =
      bind-IsTraced (on_jobs (get job.job_id)) (settle_current w session job r)
        (get-IsTraced job.job_id)
        (λ current.
          if-IsTraced (still_owns w session current) (settle_status w session r.status job r)
            (yield_job w session current r) (status-IsTraced r.status job r)
            (yield-IsTraced current r))

  -- The executor, and whoever acts while it runs, change the jobs by the store's methods only.
  abbrev pub Behaves : Type 0
  Behaves =
      (job : Job) (a : Option AuthorizationReceipt) (s : Stores)
      → Follows s.jobs (execute w.executor job a s).1.jobs

  approve-IsTraced :
      Behaves → (job : Job) (a : Option AuthorizationReceipt) → IsTraced (approve w session job a)
  unfolding approve
  approve-IsTraced behaves job a =
      bind-IsTraced
        (audit w (session.stamp 1) "worker.safety_gate" job "ALLOWED" "APPROVED" none
          (("authorization_id", authorization_detail a) ∷ []))
        (λ _. attempted w.executor job a >>= λ result. settle w session job result)
        (audit-IsTraced (session.stamp 1) "worker.safety_gate" job "ALLOWED" "APPROVED" none
          (("authorization_id", authorization_detail a) ∷ []))
        (λ _.
          bind-IsTraced (attempted w.executor job a) (settle w session job) (behaves job a)
            (settle-IsTraced job))

  handle-IsTraced : (h : Host) → Behaves → (job : Job) → IsTraced (handle w session h job)
  unfolding handle
  handle-IsTraced h behaves job =
      bind-IsTraced (audit w (session.stamp 0) "worker.claim" job "ALLOWED" "CLAIMED" none [])
        (λ _. from_result (provided w job) >>= gate w session h job)
        (audit-IsTraced (session.stamp 0) "worker.claim" job "ALLOWED" "CLAIMED" none [])
        (λ _.
          bind-IsTraced (from_result (provided w job)) (gate w session h job) (λ s. nothing)
            (λ a.
              if-IsTraced (safety_decision h job a).allowed (approve w session job a)
                (refuse w session job (safety_decision h job a)) (approve-IsTraced behaves job a)
                (refuse-IsTraced job (safety_decision h job a))))

  claimed-IsTraced :
      (h : Host) → Behaves → (claimed : Option Job) → IsTraced (handle_claimed w session h claimed)
  claimed-IsTraced h behaves none = pure-IsTraced {A = Option Job} none
  claimed-IsTraced h behaves (some job) = handle-IsTraced h behaves job

  pub run_once-IsTraced : (h : Host) → Behaves → IsTraced (run_once w session h)
  unfolding run_once perform
  run_once-IsTraced h behaves =
      bind-IsTraced (on_jobs (claim w.worker_id w.lease_seconds (session.now 0)))
        (handle_claimed w session h)
        (one_method (claim_op w.worker_id w.lease_seconds (session.now 0))
          (claim w.worker_id w.lease_seconds (session.now 0)) refl)
        (claimed-IsTraced h behaves)

  -- With such an executor, a run of the worker keeps the invariant of the job store, and leaves each
  -- completed, failed or cancelled job as it was.
  pub run_once-IsValid :
      (h : Host)
      → Behaves
      → (s : Stores) → IsValid s.jobs
      → IsValid (run_once w session h s).1.jobs
        × ((k : String) (r : Row)
            → find k s.jobs ≡ some r
            → is_terminal r.state ≡ true
            → find k (run_once w session h s).1.jobs ≡ some r)
  run_once-IsValid h behaves s v =
      let (ops, e) = run_once-IsTraced h behaves s in
      (
        subst IsValid e (run-IsValid_from ops s.jobs v),
        λ k r found done. ap (find k) (sym e) ∙ terminal_frozen k ops s.jobs r v found done,
      )

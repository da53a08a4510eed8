-- ===== src/Worker/Gate.antt =====
-- The safety gate of the worker: the executor runs for approved jobs only.
use teldrive_lab.Prelude.{true, false, Option, none, ◌≡◌, arith, inl, inr, any_by}
use teldrive_lab.Exec.{ok, Any-cases}
use teldrive_lab.Safety.{AuthorizationReceipt, is_mutating}
use teldrive_lab.Safety.Paths.{Host, is_protected}
use teldrive_lab.Safety.Policy.{authorize}
use teldrive_lab.Safety.Laws.{protected_mutation_denied}
use teldrive_lab.Jobs.{Job}
use teldrive_lab.JobLifecycle.{Stores}
use teldrive_lab.Worker.{
  Worker, Session, Executor, provided, safety_decision, operation_for, job_paths, audit, handle,
  refuse,
}

-- A worker like this one, with another executor.
abbrev pub with_executor : Executor → Worker → Worker
with_executor e w = record w { executor = e }

module _ (w : Worker) (session : Session) (h : Host) where
  -- Unless the safety boundary allows the claimed job, with whatever receipt the provider gives,
  -- the run ends in the same result and the same stores with every executor: none is called.
  pub denied_not_executed :
      (job : Job) (e : Executor) (s : Stores)
      → ((authorization : Option AuthorizationReceipt)
          → provided w job ≡ ok authorization
          → (safety_decision h job authorization).allowed ≡ false)
      → handle (with_executor e w) session h job s ≡ handle w session h job s
  unfolding handle audit refuse
  denied_not_executed job e s denied = elim (Any-cases (provided w job)) [
    | inl (a, given) ↦ ground (arith, given, denied a given)
    | inr (x, failed) ↦ ground (arith, failed)
  ]

  -- A claimed job whose operation mutates and that names a protected path never reaches the
  -- executor, whatever receipt the provider gives and whatever executor is installed.
  pub protected_not_executed :
      (job : Job) (e : Executor) (s : Stores)
      → is_mutating (operation_for job) ≡ true
      → any_by (is_protected h) (job_paths job) ≡ true
      → handle (with_executor e w) session h job s ≡ handle w session h job s
  unfolding safety_decision
  protected_not_executed job e s mutates touches =
      denied_not_executed job e s (λ authorization given.
        (protected_mutation_denied h (operation_for job) (job_paths job) false authorization mutates
          touches).0)

  -- Without a provider of receipts, a worker executes no job whose operation mutates.
  pub unauthorized_not_executed :
      (job : Job) (e : Executor) (s : Stores)
      → w.provider ≡ none
      → is_mutating (operation_for job) ≡ true
      → handle (with_executor e w) session h job s ≡ handle w session h job s
  unfolding safety_decision authorize
  unauthorized_not_executed job e s no_provider mutates =
      denied_not_executed job e s (λ authorization given. ground arith)

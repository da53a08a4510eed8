-- ===== src/Execution/Laws.antt =====
-- The registry covers every job type but INDEX.
use teldrive_lab.Prelude.{
  Bool, true, false, not, Option, none, some, [], ◌∷◌, ◌≡◌, refl, arith, inl, inr, any_by,
  Bool-cases,
}
use teldrive_lab.Exec.{ok}
use teldrive_lab.Safety.{AuthorizationReceipt}
use teldrive_lab.Jobs.{JobType, Job, type_value}
use teldrive_lab.JobLifecycle.{Stores}
use teldrive_lab.Worker.{ExecutionStatus, ExecutionResult, returns, Executor, execute}
use teldrive_lab.Text.{append}
use teldrive_lab.TransferExecutor.{ends}
use teldrive_lab.Execution.{
  Executors, Installed, same_type, lookup, dispatch, registry, capabilities, executor_for,
}

abbrev pub lists : JobType → Executors → Bool
lists t executors = any_by (λ u. same_type u t) (capabilities executors)

lookup-none :
    (t : JobType) (executors : Executors) → lists t executors ≡ false → lookup t executors ≡ none
unfolding lookup
lookup-none t [] h = refl
lookup-none t ((u, e) ∷ rest) h = ground (arith, lookup-none t rest)

lookup-some :
    (t : JobType) (executors : Executors)
    → lists t executors ≡ true
    → (e : Executor) × (lookup t executors ≡ some e)
unfolding lookup
lookup-some t [] h = absurd (cc)
lookup-some t ((u, e) ∷ rest) h = elim (Bool-cases (same_type u t)) [
  | inl same ↦ (e, ground arith)
  | inr other ↦ let (e', found) = lookup-some t rest (ground arith) in (e', ground arith)
]

abbrev unsupported : Job → ExecutionResult
unsupported job =
    ends ExecutionStatus.permanent "UNSUPPORTED_JOB_TYPE"
      (append "no durable executor registered for " (type_value job.type))

-- A job whose type the registry does not list ends PERMANENT with the stores as they were; any
-- other is run by exactly the executor that `executor_for` names for its type.
pub dispatch_lem :
    (executors : Executors) (job : Job) (a : Option AuthorizationReceipt) (s : Stores)
    → (lists job.type executors ≡ false
        → ((dispatch executors job a s).1 ≡ s)
          × ((r : ExecutionResult) × ((dispatch executors job a s).0 ≡ returns r)
              × (r.status ≡ ExecutionStatus.permanent)))
      × (lists job.type executors ≡ true
          → (e : Executor) × (executor_for executors job.type ≡ ok e)
            × (dispatch executors job a s ≡ execute e job a s))
unfolding dispatch executor_for
dispatch_lem executors job a s = (
  (λ absent.
      let none_found = lookup-none job.type executors absent in
      (rw none_found refl, (unsupported job, rw none_found refl, refl))),
  (λ listed.
      let (e, found) = lookup-some job.type executors listed in (e, rw found refl, rw found refl)),
)

-- The registry that the library builds lists every job type but INDEX.
pub registry_covers :
    (i : Installed) (t : JobType) → lists t (registry i) ≡ not (same_type t JobType.index)
unfolding type_value
registry_covers i JobType.upload = refl
registry_covers i JobType.download = refl
registry_covers i JobType.archive = refl
registry_covers i JobType.verify = refl
registry_covers i JobType.backup = refl
registry_covers i JobType.snapshot = refl
registry_covers i JobType.organize = refl
registry_covers i JobType.cleanup = refl
registry_covers i JobType.index = refl
registry_covers i JobType.restore = refl

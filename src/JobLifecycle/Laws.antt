-- ===== src/JobLifecycle/Laws.antt =====
-- The audited store does what the plain store does, and logs each success once.
use teldrive_lab.Prelude.{Option, some, refl, false, true, Bool, String, ◌≡◌, arith, inl, inr, ◌↔◌}
use teldrive_lab.Exec.{Action, Any-cases, pure, ◌>>=◌, ◌>>◌}
use teldrive_lab.Audit.{Event, record_event}
use teldrive_lab.Jobs.{Job}
use teldrive_lab.Jobs.Store.{Table}
use teldrive_lab.Jobs.Store
use teldrive_lab.Jobs.Updates
use teldrive_lab.Jobs.Claims
use teldrive_lab.JobLifecycle.{
  reconcile, Stores, Stamp, on_jobs, on_events, audit, enqueue, claim, complete, pause, resume,
  cancel, retry, recover_expired_leases,
}
use teldrive_lab.JobLifecycle.Calls.{
  Call, Answer, one, answer, logged, enqueues, claims, completes, pauses, resumes, cancels, retries,
  recovers, plain, audited, on_log,
}

-- The audited action changes the jobs as the plain one does, and ends and logs as its event asks.
abbrev pub Logs :
    Action Stores Answer → Action Table Answer → (Answer → Option Event) → Stores → Type 0
Logs m p meant s =
    ((m s).1.jobs ≡ (p s.jobs).1)
    × ((m s).0 ≡ (on_log meant (p s.jobs).0 s.events).0)
    × ((m s).1.events ≡ (on_log meant (p s.jobs).0 s.events).1)

-- The pattern of the methods that return a job.
one-Logs :
    (m : Action Table Job) (event : Job → Event) (meant : Answer → Option Event) (s : Stores)
    → ((job : Job) → meant (one job) ≡ some (event job))
    → Logs
        (answer one (do job ← on_jobs m; on_events (record_event (event job)); pure job))
        (answer one m)
        meant
        s
unfolding record_event
one-Logs m event meant s own = elim (Any-cases (m s.jobs).0) [
  | inl (job, done) ↦
      (ground (arith, done, own job), ground (arith, done, own job), ground (arith, done, own job))
  | inr (e, raised) ↦ (ground (arith, raised), ground (arith, raised), ground (arith, raised))
]

-- Every method of the audited store changes the jobs as the method of the plain store does. When
-- that raises, it raises the same and logs nothing. When that returns, it logs the method's own
-- event of the job once and returns the same; a claim of no job and a recovery of no lease log
-- nothing. When the identifier of the event is taken, the jobs have changed, the log has not, and
-- the method raises.
pub audited_lem :
    (call : Call) (stamp : Stamp) (s : Stores)
    → Logs (audited call stamp) (plain call) (logged stamp call) s
unfolding enqueue claim complete pause resume cancel retry recover_expired_leases audit record_event
audited_lem (enqueues ty q fresh now) stamp s =
    one-Logs (Store.enqueue ty q fresh now) _ (logged stamp (enqueues ty q fresh now)) s
      (λ job. refl)
audited_lem (completes k w now) stamp s =
    one-Logs (Updates.complete k w now) _ (logged stamp (completes k w now)) s (λ job. refl)
audited_lem (pauses k w now) stamp s =
    one-Logs (Updates.pause k w now) _ (logged stamp (pauses k w now)) s (λ job. refl)
audited_lem (resumes k now) stamp s =
    one-Logs (Updates.resume k now) _ (logged stamp (resumes k now)) s (λ job. refl)
audited_lem (cancels k now) stamp s =
    one-Logs (Updates.cancel k now) _ (logged stamp (cancels k now)) s (λ job. refl)
audited_lem (retries k w code message delay delay_text now) stamp s =
    one-Logs (Claims.retry k w code message delay now) _
      (logged stamp (retries k w code message delay delay_text now)) s (λ job. refl)
audited_lem (claims w lease lease_text now) stamp s =
    elim (Any-cases (Claims.claim w lease now s.jobs).0) [
      | inl (a, done) ↦ (ground (arith, done), ground (arith, done), ground (arith, done))
      | inr (e, raised) ↦ (ground (arith, raised), ground (arith, raised), ground (arith, raised))
    ]
audited_lem (recovers now) stamp s = elim (Any-cases (Claims.recover_expired_leases now s.jobs).0) [
  | inl (a, done) ↦ (ground (arith, done), ground (arith, done), ground (arith, done))
  | inr (e, raised) ↦ (ground (arith, raised), ground (arith, raised), ground (arith, raised))
]

-- Work is declared safe to execute exactly when no artifact was observed: an existing artifact is
-- never overwritten on the strength of checksums, whether they match, differ or are missing.
pub reconcile_iff :
    (intended observed : Option String) (exists : Bool)
    → ((reconcile intended observed exists).safe_to_execute ≡ true) ↔ (exists ≡ false)
unfolding reconcile
reconcile_iff intended observed exists = (λ h. ground arith, λ h. ground arith)

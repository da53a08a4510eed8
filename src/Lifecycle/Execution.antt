-- ===== src/Lifecycle/Execution.antt =====
-- `LifecycleExecutor`: the three loops over a plan, on the disk, the records and the audit log. The
-- manager of transfers is an argument, and so are the clock and the stamp of the audit event of
-- each item, by its place in the plan.
use teldrive_lab.Prelude.{
  ℕ, suc, String, Bool, true, false, not, ◌||◌, Option, none, some, List, [], ◌∷◌, if◌then◌else◌,
  ◌==◌, or_text, truthy, is_some,
}
use teldrive_lab.Exec.{Action, Result, ok, err, pure, os_error, ◌>>=◌, ◌>>◌}
use teldrive_lab.Audit.{Detail, text, null, Event, record_event}
use teldrive_lab.Safety.{Operation, AuthorizationReceipt}
use teldrive_lab.Safety.Paths.{Host}
use teldrive_lab.Safety.Policy.{authorize, for_paths}
use teldrive_lab.Files.{real_text}
use teldrive_lab.Transfer.{TransferKind, TransferSpec, TransferResult, Disk, content_at, remove}
use teldrive_lab.TransferExecutor.{Manager}
use teldrive_lab.JobLifecycle.{Stamp}
use teldrive_lab.Lifecycle.{
  LifecycleAction, quarantined, purge_ready, restored, LifecycleRecord, LifecyclePlanItem,
}
use teldrive_lab.Lifecycle.Store.{Records, put}

pub record LifecycleState : Type 0 where
  pub disk : Disk
  pub records : Records
  pub events : List Event

abbrev pub State : Type 0 → Type 0
State A = Action LifecycleState A

abbrev pub on_disk : {A : Type 0} → Action Disk A → State A
on_disk m s = let (r, disk) = m s.disk in (r, record s { disk = disk })

abbrev pub on_records : {A : Type 0} → Action Records A → State A
on_records m s = let (r, records) = m s.records in (r, record s { records = records })

abbrev pub on_events : {A : Type 0} → Action (List Event) A → State A
on_events m s = let (r, events) = m s.events in (r, record s { events = events })

abbrev pub from_result : {A : Type 0} → Result A → State A
from_result r s = (r, s)

-- What a run is given: the readings of the clock and the stamps of the audit events.
pub record LifecycleSession : Type 0 where
  pub now : ℕ → ℕ
  pub stamp : ℕ → Stamp

-- `_audit`
unfoldable pub audit :
    Stamp
    → (operation : String) → (source destination : Option String) → (decision result : String)
    → (error_code : Option String) → List (String × Detail)
    → State (Unit {0})
audit stamp operation source destination decision result error_code details = on_events (
    record_event (record {
      event_id = stamp.event_id;
      timestamp = stamp.timestamp;
      operation = operation;
      job_id = none;
      source = source;
      destination = destination;
      decision = decision;
      result = some result;
      checksum = none;
      error_code = error_code;
      details = details;
    }))

abbrev pub transfer_of : String → String → TransferSpec
transfer_of source destination = record {
  source = source;
  destination = destination;
  kind = TransferKind.copy;
  overwrite = false;
}

abbrev pub run_manager : Manager → TransferSpec → AuthorizationReceipt → State TransferResult
run_manager manager spec receipt s =
    let (result, disk) = manager spec (some receipt) s.disk in (ok result, record s { disk = disk })

-- `path.unlink()`
abbrev pub unlink : String → Action Disk (Unit {0})
unlink p disk =
    if is_some (content_at p disk) then (ok tt, remove p disk) else (err (os_error p), disk)

abbrev pub Report : Type 0
Report = Bool × List String

abbrev pub with_path : String → Report → Report
with_path p (done, paths) = (done, p ∷ paths)

abbrev is_quarantined : LifecycleAction → Bool
is_quarantined quarantined = true
is_quarantined _ = false

abbrev pub is_purge_ready : LifecycleAction → Bool
is_purge_ready purge_ready = true
is_purge_ready _ = false

abbrev is_restored : LifecycleAction → Bool
is_restored restored = true
is_restored _ = false

-- `a or b`
abbrev first_text : Option String → Option String → Option String
first_text none b = b
first_text (some s) b = if s == "" then b else some s

abbrev or_now : Option ℕ → ℕ → ℕ
or_now none now = now
or_now (some t) now = t

abbrev pub record_of : LifecyclePlanItem → TransferResult → ℕ → LifecycleRecord
record_of item result now = record {
  source = item.source;
  quarantine = item.quarantine;
  size = item.size;
  sha256 = or_text (first_text item.sha256 result.destination_sha256) "";
  quarantined_at = now;
  purge_after = or_now item.purge_after now;
  locked = false;
}

-- `result.destination_sha256 != item.sha256`, negated
abbrev pub same_sum : Option String → Option String → Bool
same_sum none none = true
same_sum (some a) (some b) = a == b
same_sum _ _ = false

abbrev sum_detail : Option String → Detail
sum_detail none = null
sum_detail (some s) = text s

module _ (h : Host) (manager : Manager) (authorization_id : String)
    (session : LifecycleSession) where
  -- The body of the loop of `quarantine` for a QUARANTINE item; whether the loop goes on.
  unfoldable pub quarantine_one : ℕ → LifecyclePlanItem → State Bool
  quarantine_one n item = do
    receipt ←
        from_result
          (for_paths h Operation.transfer (item.source ∷ item.quarantine ∷ []) authorization_id)
    result ← run_manager manager (transfer_of item.source item.quarantine) receipt
    if not result.success || not result.verified
        then (do
          audit (session.stamp n) "QUARANTINE" (some item.source) (some item.quarantine) "ALLOW"
              "FAILED" (some "QUARANTINE_VERIFY") []
          pure false)
        else (do
          on_records (put (record_of item result (session.now n)))
          audit (session.stamp n) "QUARANTINE" (some item.source) (some item.quarantine) "ALLOW"
              "SUCCESS" none
              (("sha256", text (record_of item result (session.now n)).sha256)
                ∷ ("authorization_id", text authorization_id)
                ∷ [])
          pure true)

  -- The body of the loop of `purge` for a PURGE_READY item.
  unfoldable pub purge_one : ℕ → LifecyclePlanItem → State Bool
  purge_one n item = do
    receipt ←
        from_result
          (for_paths h Operation.delete (real_text h item.quarantine ∷ []) authorization_id)
    if not
          (authorize h Operation.delete (real_text h item.quarantine ∷ []) false
            (some receipt)).allowed
        then (do
          audit (session.stamp n) "PURGE" (some item.source) (some (real_text h item.quarantine))
              "DENY" "BLOCKED" (some "POLICY_DENIED") []
          pure false)
        else (do
          on_disk (unlink (real_text h item.quarantine))
          audit (session.stamp n) "PURGE" (some item.source) (some (real_text h item.quarantine))
              "ALLOW" "SUCCESS" none (("authorization_id", text authorization_id) ∷ [])
          pure true)

  abbrev restore_to : ℕ → LifecyclePlanItem → String → State Bool
  restore_to n item destination = do
    receipt ←
        from_result
          (for_paths h Operation.transfer (item.quarantine ∷ destination ∷ []) authorization_id)
    result ← run_manager manager (transfer_of item.quarantine destination) receipt
    if not result.success
          || not result.verified
          || not (same_sum result.destination_sha256 item.sha256)
        then (do
          audit (session.stamp n) "RESTORE" (some item.quarantine) (some destination) "ALLOW"
              "FAILED" (some "RESTORE_VERIFY") []
          pure false)
        else (do
          audit (session.stamp n) "RESTORE" (some item.quarantine) (some destination) "ALLOW"
              "SUCCESS" none
              (("sha256", sum_detail item.sha256)
                ∷ ("authorization_id", text authorization_id)
                ∷ [])
          pure true)

  -- The body of the loop of `restore` for a RESTORE item.
  unfoldable pub restore_one : ℕ → LifecyclePlanItem → State Bool
  restore_one n item =
      if truthy item.destination then restore_to n item (or_text item.destination "") else do
        audit (session.stamp n) "RESTORE" (some item.quarantine) none "ALLOW" "FAILED"
            (some "MISSING_DESTINATION") []
        pure false

-- The loop over a plan: the items of one action, until a body stops it. `shown` is the path that the
-- report lists for an item that is done.
unfoldable pub over_items :
    (LifecycleAction → Bool)
    → (ℕ → LifecyclePlanItem → State Bool)
    → (LifecyclePlanItem → String)
    → ℕ
    → List LifecyclePlanItem
    → State Report
over_items wanted body shown n [] = pure (true, [])
over_items wanted body shown n (item ∷ items) =
    let rest = over_items wanted body shown (suc n) items in
    if not (wanted item.action) then rest else do
      goes_on ← body n item
      if goes_on
          then (rest >>= λ report. pure (with_path (shown item) report))
          else pure (false, [])

module _ (h : Host) (manager : Manager) (authorization_id : String)
    (session : LifecycleSession) where
  unfoldable pub quarantine : List LifecyclePlanItem → State Report
  quarantine =
      over_items is_quarantined (quarantine_one h manager authorization_id session)
        (λ item. item.quarantine) 0

  unfoldable pub purge : List LifecyclePlanItem → State Report
  purge =
      over_items is_purge_ready (purge_one h manager authorization_id session)
        (λ item. real_text h item.quarantine) 0

  unfoldable pub restore : List LifecyclePlanItem → State Report
  restore =
      over_items is_restored (restore_one h manager authorization_id session)
        (λ item. or_text item.destination "") 0

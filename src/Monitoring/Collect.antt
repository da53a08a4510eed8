-- ===== src/Monitoring/Collect.antt =====
-- `collect`: an alert for each candidate, its notification and its audit event, and then the alerts that no candidate
-- asks for any more are resolved. The fresh identifiers and the readings of the clock are arguments, by the place
-- of the candidate.
use teldrive_lab.Prelude.{ℕ, suc, String, Bool, true, none, some, List, [], ◌∷◌, map, if◌then◌else◌}
use teldrive_lab.Exec.{Action, ok, pure, ◌>>=◌, ◌>>◌, gets}
use teldrive_lab.Audit.{text, Event, record_event}
use teldrive_lab.Monitoring.{Candidate}
use teldrive_lab.Monitoring.Store.{
  Alert, Notification, upsert_alert, notify, resolve_missing, alerts_of,
}

pub record MonitorState (F : Type 0) : Type 0 where
  pub alerts : List (Alert F)
  pub notifications : List Notification
  pub events : List Event

-- The identifiers and clock readings of a run.
pub record MonitorSession : Type 0 where
  pub now : String
  pub alert_id : ℕ → String
  pub notification_id : ℕ → String
  pub notified_at : ℕ → String
  pub event_id : ℕ → String
  pub event_time : ℕ → ℕ

module _ {F : Type 0} where
  abbrev on_alerts : {A : Type 0} → Action (List (Alert F)) A → Action (MonitorState F) A
  on_alerts m s = let (r, alerts) = m s.alerts in (r, record s { alerts = alerts })

  abbrev on_notifications : {A : Type 0} → Action (List Notification) A → Action (MonitorState F) A
  on_notifications m s =
      let (r, notifications) = m s.notifications in (r, record s { notifications = notifications })

  abbrev on_events : {A : Type 0} → Action (List Event) A → Action (MonitorState F) A
  on_events m s = let (r, events) = m s.events in (r, record s { events = events })

  abbrev alert_event : MonitorSession → ℕ → Candidate F → Event
  alert_event session n c = record {
    event_id = session.event_id n;
    timestamp = session.event_time n;
    operation = "MONITOR";
    job_id = none;
    source = none;
    destination = none;
    decision = "ALERT";
    result = some c.severity;
    checksum = none;
    error_code = some c.code;
    details = ("fingerprint", text c.fingerprint) ∷ [];
  }

  -- The body of the loop over the candidates.
  unfoldable pub report :
      MonitorSession
      → (notifies has_audit : Bool) → ℕ
      → Candidate F
      → Action (MonitorState F) (Unit {0})
  report session notifies has_audit n c = do
    alert ← on_alerts (upsert_alert (session.alert_id n) session.now c)
    if notifies
        then (on_notifications
              (notify (session.notification_id n) (session.notified_at n) "local" alert)
            >> pure tt)
        else pure tt
    if has_audit then on_events (record_event (alert_event session n c)) else pure tt

  unfoldable pub report_all :
      MonitorSession
      → (notifies has_audit : Bool) → ℕ
      → List (Candidate F)
      → Action (MonitorState F) (Unit {0})
  report_all session notifies has_audit n [] = pure tt
  report_all session notifies has_audit n (c ∷ candidates) =
      report session notifies has_audit n c
      >> report_all session notifies has_audit (suc n) candidates

  abbrev pub fingerprints_of : List (Candidate F) → List String
  fingerprints_of candidates = map (λ c. c.fingerprint) candidates

  -- `collect` from the candidates on, with the active alerts of the snapshot that it returns.
  unfoldable pub collect :
      MonitorSession
      → (notifies has_audit : Bool) → List (Candidate F)
      → Action (MonitorState F) (List (Alert F))
  collect session notifies has_audit candidates = do
    report_all session notifies has_audit 0 candidates
    on_alerts (λ alerts. (ok tt, resolve_missing (fingerprints_of candidates) session.now alerts))
    gets (λ s. alerts_of true s.alerts)

-- ===== src/Monitoring/Store.antt =====
-- `MonitoringStore`: the tables `alerts`, with UNIQUE fingerprints, and `notifications`. A fresh `uuid4` is an argument.
use teldrive_lab.Prelude.{
  ℕ, suc, String, Bool, true, false, not, ◌&&◌, Option, none, some, List, [], ◌∷◌, ◌++◌,
  if◌then◌else◌, ◌==◌, any_by, filter_by, text_le,
}
use teldrive_lab.Exec.{Action, ok, err, integrity_error, key_error, ◌>>◌}
use teldrive_lab.Sql.{update_where, select_one, order_by}
use teldrive_lab.Safety.Policy.{is_empty}
use teldrive_lab.Text.{is_one_of}
use teldrive_lab.Monitoring.{AlertDetails, Candidate}

pub record Alert (F : Type 0) : Type 0 where
  pub alert_id : String
  pub code : String
  pub severity : String
  pub message : String
  pub fingerprint : String
  pub first_seen : String
  pub last_seen : String
  pub active : Bool
  pub occurrences : ℕ
  pub details : AlertDetails F

pub record Notification : Type 0 where
  pub notification_id : String
  pub alert_id : String
  pub channel : String
  pub created_at : String
  pub message : String

module _ {F : Type 0} where
  abbrev pub new_alert : (alert_id : String) → Candidate F → (now : String) → Alert F
  new_alert alert_id c now = record {
    alert_id = alert_id;
    code = c.code;
    severity = c.severity;
    message = c.message;
    fingerprint = c.fingerprint;
    first_seen = now;
    last_seen = now;
    active = true;
    occurrences = 1;
    details = c.details;
  }

  -- UPDATE alerts SET …, active=1, occurrences=occurrences+1
  abbrev pub seen_again : Candidate F → (now : String) → Alert F → Alert F
  seen_again c now a = record a {
    severity = c.severity;
    message = c.message;
    last_seen = now;
    active = true;
    occurrences = suc a.occurrences;
    details = c.details;
  }

  abbrev pub has_fingerprint : String → Alert F → Bool
  has_fingerprint fingerprint a = a.fingerprint == fingerprint

  abbrev pub has_id : String → Alert F → Bool
  has_id alert_id a = a.alert_id == alert_id

  abbrev pub or_missing : String → Option (Alert F) → Action (List (Alert F)) (Alert F)
  or_missing alert_id none alerts = (err (key_error alert_id), alerts)
  or_missing alert_id (some a) alerts = (ok a, alerts)

  unfoldable pub get : String → Action (List (Alert F)) (Alert F)
  get alert_id alerts = or_missing alert_id (select_one (has_id alert_id) alerts) alerts

  abbrev pub insert_alert : Alert F → Action (List (Alert F)) (Unit {0})
  insert_alert a alerts =
      if any_by (has_id a.alert_id) alerts
      then (err integrity_error, alerts)
      else (ok tt, alerts ++ a ∷ [])

  abbrev pub upsert_found :
      (fresh now : String) → Candidate F → Option (Alert F) → Action (List (Alert F)) (Alert F)
  upsert_found fresh now c none = insert_alert (new_alert fresh c now) >> get fresh
  upsert_found fresh now c (some a) =
      (λ alerts. (ok tt, update_where (has_id a.alert_id) (seen_again c now) alerts))
      >> get a.alert_id

  unfoldable pub upsert_alert :
      (fresh now : String) → Candidate F → Action (List (Alert F)) (Alert F)
  upsert_alert fresh now c alerts =
      upsert_found fresh now c (select_one (has_fingerprint c.fingerprint) alerts) alerts

  abbrev pub resolved : (now : String) → Alert F → Alert F
  resolved now a = record a { active = false; last_seen = now }

  unfoldable pub resolve_missing :
      (active_fingerprints : List String) → (now : String) → List (Alert F) → List (Alert F)
  resolve_missing fingerprints now alerts =
      if is_empty fingerprints
      then update_where (λ a. a.active) (resolved now) alerts
      else update_where (λ a. a.active && not (is_one_of a.fingerprint fingerprints)) (resolved now)
          alerts

  -- ORDER BY last_seen DESC, alert_id
  abbrev pub latest_first : Alert F → Alert F → Bool
  latest_first a b =
      if not (a.last_seen == b.last_seen)
      then text_le b.last_seen a.last_seen
      else text_le a.alert_id b.alert_id

  unfoldable pub alerts_of : (active_only : Bool) → List (Alert F) → List (Alert F)
  alerts_of active_only alerts =
      order_by latest_first (if active_only then filter_by (λ a. a.active) alerts else alerts)

  unfoldable pub notify :
      (fresh now channel : String) → Alert F → Action (List Notification) Notification
  notify fresh now channel a notifications =
      let n : Notification = record {
        notification_id = fresh;
        alert_id = a.alert_id;
        channel = channel;
        created_at = now;
        message = a.message;
      } in
      if any_by (λ m. m.notification_id == fresh) notifications
      then (err integrity_error, notifications)
      else (ok n, notifications ++ n ∷ [])

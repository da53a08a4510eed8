-- ===== src/Backups.antt =====
-- teldrive_lab/backups.py: the policy, the verification of a plan's copies, the records of backups and their locks, the purge of a
-- backup, and the schedules. Dates are microseconds on one clock; digests are an argument.
pub mod Schedules
pub mod Purge
pub mod Queued
pub mod Due
pub mod Retained
pub mod Plans
pub mod Execution
pub mod Applied
use teldrive_lab.Prelude.{
  ℕ, ◌*◌, String, Bool, true, false, not, ◌&&◌, Option, none, some, List, [], ◌∷◌, map,
  if◌then◌else◌, ◌==◌, ℤ, pos, negsuc, max, eqb, length, is_some,
}
use teldrive_lab.Exec.{Result, ok, err, value_error}
use teldrive_lab.Transfer.{Content, Disk, content_at}

pub data BackupState : Type 0 where
  verified missing corrupt : BackupState

pub record BackupPolicy : Type 0 where
  pub retention_seconds : ℕ
  pub safety_window_seconds : ℕ
  pub interval_seconds : ℕ

-- The constructor with `__post_init__`.
unfoldable pub backup_policy : (retention safety_window interval : ℤ) → Result BackupPolicy
backup_policy (pos r) (pos w) (pos i) =
    ok (record { retention_seconds = r; safety_window_seconds = w; interval_seconds = i })
backup_policy _ _ _ = err (value_error "backup policy intervals must be non-negative")

abbrev pub effective_retention_seconds : BackupPolicy → ℕ
effective_retention_seconds p = max p.retention_seconds p.safety_window_seconds

pub record BackupItem : Type 0 where
  pub source : String
  pub destination : String
  pub size : ℕ
  pub sha256 : String

pub record BackupPlan : Type 0 where
  pub items : List BackupItem
  pub manifest_path : String
  pub created_at : ℕ
  pub purge_after : ℕ

pub record BackupVerification : Type 0 where
  pub path : String
  pub expected_sha256 : String
  pub actual_sha256 : Option String
  pub expected_size : ℕ
  pub actual_size : Option ℕ
  pub state : BackupState

pub record BackupReconciliation : Type 0 where
  pub source : String
  pub destination : String
  pub expected_sha256 : String
  pub exists : Bool
  pub size_matches : Option Bool
  pub sha256_matches : Option Bool
  pub state : BackupState

module _ (sha256 : Content → String) where
  abbrev state_of : BackupItem → Content → BackupState
  state_of item c =
      if eqb (length c) item.size && sha256 c == item.sha256
      then BackupState.verified
      else BackupState.corrupt

  abbrev verify_copy : BackupItem → Option Content → BackupVerification
  verify_copy item none = record {
    path = item.destination;
    expected_sha256 = item.sha256;
    actual_sha256 = none;
    expected_size = item.size;
    actual_size = none;
    state = BackupState.missing;
  }
  verify_copy item (some c) = record {
    path = item.destination;
    expected_sha256 = item.sha256;
    actual_sha256 = some (sha256 c);
    expected_size = item.size;
    actual_size = some (length c);
    state = state_of item c;
  }

  -- The loop of `verify`.
  unfoldable pub verify : Disk → List BackupItem → List BackupVerification
  verify disk items = map (λ item. verify_copy item (content_at item.destination disk)) items

  abbrev reconcile_copy : BackupItem → Option Content → BackupReconciliation
  reconcile_copy item none = record {
    source = item.source;
    destination = item.destination;
    expected_sha256 = item.sha256;
    exists = false;
    size_matches = none;
    sha256_matches = none;
    state = BackupState.missing;
  }
  reconcile_copy item (some c) = record {
    source = item.source;
    destination = item.destination;
    expected_sha256 = item.sha256;
    exists = true;
    size_matches = some (eqb (length c) item.size);
    sha256_matches = some (sha256 c == item.sha256);
    state = state_of item c;
  }

  unfoldable pub reconcile : Disk → List BackupItem → List BackupReconciliation
  reconcile disk items = map (λ item. reconcile_copy item (content_at item.destination disk)) items

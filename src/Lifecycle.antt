-- ===== src/Lifecycle.antt =====
-- teldrive_lab/lifecycle.py: quarantine, retention, purge and restore. Dates are microseconds on one
-- clock; a path is the text that pathlib prints for it.
pub mod Store
pub mod Plans
pub mod Execution
pub mod StoreLaws
pub mod PlanLaws
pub mod PurgeLaws
use teldrive_lab.Prelude.{ℕ, ◌*◌, String, Bool, Option, ℤ, pos, negsuc, max}
use teldrive_lab.Exec.{Result, ok, err, value_error}

pub data LifecycleAction : Type 0 where
  keep quarantined purge_ready purge_blocked locked restored : LifecycleAction

pub record RetentionPolicy : Type 0 where
  pub retention_seconds : ℕ
  pub safety_window_seconds : ℕ

abbrev pub default_retention : RetentionPolicy
default_retention = record {
  retention_seconds = 30 * 24 * 60 * 60;
  safety_window_seconds = 7 * 24 * 60 * 60;
}

-- The constructor with `__post_init__`.
unfoldable pub retention_policy :
    (retention_seconds safety_window_seconds : ℤ) → Result RetentionPolicy
retention_policy (pos r) (pos w) = ok (record { retention_seconds = r; safety_window_seconds = w })
retention_policy (pos r) (negsuc w) =
    err (value_error "retention and safety windows must be non-negative")
retention_policy (negsuc r) w =
    err (value_error "retention and safety windows must be non-negative")

abbrev pub effective_retention_seconds : RetentionPolicy → ℕ
effective_retention_seconds p = max p.retention_seconds p.safety_window_seconds

pub record LifecycleRecord : Type 0 where
  pub source : String
  pub quarantine : String
  pub size : ℕ
  pub sha256 : String
  pub quarantined_at : ℕ
  pub purge_after : ℕ
  pub locked : Bool

pub record LifecyclePlanItem : Type 0 where
  pub source : String
  pub quarantine : String
  pub action : LifecycleAction
  pub reason : String
  pub size : ℕ
  pub sha256 : Option String
  pub purge_after : Option ℕ
  pub destination : Option String

pub record LifecycleReconciliation : Type 0 where
  pub source : String
  pub quarantine : String
  pub source_exists : Bool
  pub quarantine_exists : Bool
  pub size_matches : Option Bool
  pub sha256_matches : Option Bool
  pub locked : Bool
  pub state : String
  pub reason : String

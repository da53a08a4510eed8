-- ===== src/Jobs.antt =====
-- The data of teldrive_lab/jobs.py: states, types, the rows of the table `jobs` and the job that
-- a caller sees. Times are counted in microseconds and progress in millionths, both as numbers;
-- an argument that the code tests against zero is an integer.
pub mod Store
pub mod Updates
pub mod Claims
pub mod Invariant
pub mod Effects
pub mod Handover
pub mod Enqueue
pub mod Trace
pub mod History
pub mod Find
pub mod Claiming
pub mod Ownership
pub mod Retrying
pub mod Listing
pub mod Atomic
use teldrive_lab.Prelude.{ℕ, String, Bool, true, false, Option, eqb}

pub data JobState : Type 0 where
  queued running paused verifying completed failed cancelled : JobState

pub data JobType : Type 0 where
  upload download archive verify backup snapshot organize cleanup index restore : JobType

-- Equality of states, by their places in the enumeration.
abbrev place : JobState → ℕ
place JobState.queued = 0
place JobState.running = 1
place JobState.paused = 2
place JobState.verifying = 3
place JobState.completed = 4
place JobState.failed = 5
place JobState.cancelled = 6

abbrev pub same_state : JobState → JobState → Bool
same_state a b = eqb (place a) (place b)

-- `JobType.value` and `JobState.value`
unfoldable pub type_value : JobType → String
type_value JobType.upload = "UPLOAD"
type_value JobType.download = "DOWNLOAD"
type_value JobType.archive = "ARCHIVE"
type_value JobType.verify = "VERIFY"
type_value JobType.backup = "BACKUP"
type_value JobType.snapshot = "SNAPSHOT"
type_value JobType.organize = "ORGANIZE"
type_value JobType.cleanup = "CLEANUP"
type_value JobType.index = "INDEX"
type_value JobType.restore = "RESTORE"

unfoldable pub state_value : JobState → String
state_value JobState.queued = "QUEUED"
state_value JobState.running = "RUNNING"
state_value JobState.paused = "PAUSED"
state_value JobState.verifying = "VERIFYING"
state_value JobState.completed = "COMPLETED"
state_value JobState.failed = "FAILED"
state_value JobState.cancelled = "CANCELLED"

-- The tests on the column `state` in the statements of the store.
abbrev pub is_queued : JobState → Bool
is_queued JobState.queued = true
is_queued _ = false

abbrev pub is_running : JobState → Bool
is_running JobState.running = true
is_running _ = false

abbrev pub is_paused : JobState → Bool
is_paused JobState.paused = true
is_paused _ = false

abbrev pub is_verifying : JobState → Bool
is_verifying JobState.verifying = true
is_verifying _ = false

-- state IN ('RUNNING','VERIFYING')
abbrev pub is_active : JobState → Bool
is_active JobState.running = true
is_active JobState.verifying = true
is_active _ = false

-- state IN ('QUEUED','RUNNING','PAUSED','VERIFYING')
abbrev pub is_cancellable : JobState → Bool
is_cancellable JobState.queued = true
is_cancellable JobState.running = true
is_cancellable JobState.paused = true
is_cancellable JobState.verifying = true
is_cancellable _ = false

abbrev pub is_terminal : JobState → Bool
is_terminal JobState.completed = true
is_terminal JobState.failed = true
is_terminal JobState.cancelled = true
is_terminal _ = false

pub record Job : Type 0 where
  pub job_id : String
  pub type : JobType
  pub state : JobState
  pub priority : String
  pub attempts : ℕ
  pub max_attempts : ℕ
  pub retry_at : Option ℕ
  pub source : Option String
  pub destination : Option String
  pub path : Option String
  pub checksum : Option String
  pub progress : ℕ
  pub error_code : Option String
  pub error_message : Option String
  pub worker_id : Option String
  pub lease_until : Option ℕ
  pub parent_job_id : Option String

-- One row of the table `jobs`, a field for each column.
pub record Row : Type 0 where
  pub job_id : String
  pub type : JobType
  pub state : JobState
  pub priority : String
  pub created : ℕ
  pub started : Option ℕ
  pub updated : ℕ
  pub completed : Option ℕ
  pub attempts : ℕ
  pub max_attempts : ℕ
  pub retry_at : Option ℕ
  pub source : Option String
  pub destination : Option String
  pub path : Option String
  pub size : Option ℕ
  pub checksum : Option String
  pub progress : ℕ
  pub error_code : Option String
  pub error_message : Option String
  pub worker_id : Option String
  pub lease_until : Option ℕ
  pub parent_job_id : Option String

-- ===== src/Models.antt =====
-- teldrive_lab/models.py: the metadata of one observed file. Dates stay texts in ISO form, as the catalog
-- keeps them.
use teldrive_lab.Prelude.{ℕ, String, Bool, Option, List, ℤ, eqb}

pub data SourceType : Type 0 where
  local teldrive rclone telegram archive backup unknown : SourceType

pub data DestinationType : Type 0 where
  local raw crypt teldrive backup quarantine unknown : DestinationType

pub data EncryptionClass : Type 0 where
  raw crypt unknown : EncryptionClass

pub data HashState : Type 0 where
  unknown pending computed verified failed stale : HashState

pub data VerificationState : Type 0 where
  unverified pending verified failed stale : VerificationState

pub record FileRecord : Type 0 where
  pub path : String
  pub name : String
  pub parent_path : Option String
  pub size : Option ℤ
  pub mime_type : Option String
  pub extension : Option String
  pub created_at : Option String
  pub modified_at : Option String
  pub sha256 : Option String
  pub hash_state : HashState
  pub source_type : SourceType
  pub source_identifier : String
  pub destination_type : Option DestinationType
  pub destination_identifier : Option String
  pub telegram_file_id : Option String
  pub telegram_message_id : Option String
  pub telegram_channel_id : Option String
  pub encryption_class : EncryptionClass
  pub verification_state : VerificationState
  pub tags : Option (List String)
  pub job_id : Option String
  pub first_seen_at : String
  pub last_seen_at : String
  pub id : Option ℕ

-- The place of a source type in the enumeration, for its equality.
abbrev source_place : SourceType → ℕ
source_place SourceType.local = 0
source_place SourceType.teldrive = 1
source_place SourceType.rclone = 2
source_place SourceType.telegram = 3
source_place SourceType.archive = 4
source_place SourceType.backup = 5
source_place SourceType.unknown = 6

abbrev pub same_source_type : SourceType → SourceType → Bool
same_source_type a b = eqb (source_place a) (source_place b)

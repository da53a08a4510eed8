-- ===== src/Transfer.antt =====
-- teldrive_lab/transfer.py: the local backend, which copies to a temporary file, compares SHA-256 sums and
-- renames, and the manager before it. The disk is the regular files by their paths; what the
-- operating system does in a copy (the bytes it reads, the place where it fails) is an argument,
-- and so are the hash function and the name of the temporary file.
pub mod Laws
use teldrive_lab.Prelude.{
  ℕ, ◌+◌, String, Bool, true, false, not, ◌&&◌, ◌||◌, Option, none, some, List, [], ◌∷◌, ◌++◌, map,
  if◌then◌else◌, ◌==◌, length, take, filter_by, is_some, leb, ltb, pos,
}
use teldrive_lab.Exec.{
  Result, ok, err, Error, value_error, key_error, permission_error, runtime_error, os_error,
  overflow_error, integrity_error,
}
use teldrive_lab.Text.{append}
use teldrive_lab.Safety.{Operation, Decision, AuthorizationReceipt}
use teldrive_lab.Safety.Paths.{Host}
use teldrive_lab.Safety.Policy.{authorize}
use teldrive_lab.Concurrency.{TransferLimits, check_size}

pub data TransferKind : Type 0 where
  copy : TransferKind

pub record TransferSpec : Type 0 where
  pub source : String
  pub destination : String
  pub kind : TransferKind
  pub overwrite : Bool

pub record TransferPlan : Type 0 where
  pub spec : TransferSpec
  pub source_exists : Bool
  pub source_size : Option ℕ
  pub destination_exists : Bool
  pub allowed : Bool
  pub reason : String

pub record TransferResult : Type 0 where
  pub success : Bool
  pub bytes_transferred : ℕ
  pub source : String
  pub destination : String
  pub source_sha256 : Option String
  pub destination_sha256 : Option String
  pub verified : Bool
  pub error : Option String

abbrev pub Content : Type 0
Content = List ℕ

abbrev pub Disk : Type 0
Disk = List (String × Content)

-- The file at a path.
unfoldable pub content_at : String → Disk → Option Content
content_at p [] = none
content_at p ((q, c) ∷ disk) = if q == p then some c else content_at p disk

unfoldable pub remove : String → Disk → Disk
remove p [] = []
remove p ((q, c) ∷ disk) = let rest = remove p disk in if q == p then rest else (q, c) ∷ rest

abbrev pub write : String → Content → Disk → Disk
write p c disk = (p, c) ∷ remove p disk

-- Where an OSError strikes: before the temporary file has its name, while so many chunks are
-- written, at the flush, the second hash, the copy of the times, or the rename.
pub data Stage : Type 0 where
  at_create : Stage
  at_chunk : ℕ → Stage
  at_sync at_hash at_stat at_replace : Stage

-- What the operating system does in one copy: the bytes that each reading gets, since other
-- processes may write in between, and the failures.
pub record Copying : Type 0 where
  pub temporary : String
  pub hashed : Content
  pub chunks : List Content
  pub read_back : Content
  pub fault : Option (Stage × String)
  pub unlink_fails : Bool

abbrev pub joined : List Content → Content
joined [] = []
joined (c ∷ cs) = c ++ joined cs

abbrev pub operation_of : TransferSpec → Operation
operation_of spec = if spec.overwrite then Operation.overwrite else Operation.transfer

abbrev pub refused : TransferSpec → String → TransferResult
refused spec reason = record {
  success = false;
  bytes_transferred = 0;
  source = spec.source;
  destination = spec.destination;
  source_sha256 = none;
  destination_sha256 = none;
  verified = false;
  error = some reason;
}

-- The `finally` block, with the temporary file there.
unfoldable pub clean_up : Copying → Disk → Disk
clean_up os disk = if os.unlink_fails then disk else remove os.temporary disk

module _ (sha256 : Content → String) where
  abbrev pub io_error : TransferSpec → Copying → ℕ → String → TransferResult
  io_error spec os copied message = record {
    success = false;
    bytes_transferred = copied;
    source = spec.source;
    destination = spec.destination;
    source_sha256 = some (sha256 os.hashed);
    destination_sha256 = none;
    verified = false;
    error = some (append "transfer I/O error: " message);
  }

  -- The result once both sums are known.
  abbrev pub compared : TransferSpec → Copying → Bool → Option String → TransferResult
  compared spec os success error = record {
    success = success;
    bytes_transferred = length (joined os.chunks);
    source = spec.source;
    destination = spec.destination;
    source_sha256 = some (sha256 os.hashed);
    destination_sha256 = some (sha256 os.read_back);
    verified = success;
    error = error;
  }

  -- The comparison of the sums, and what follows it up to the rename.
  abbrev verify_and_replace : TransferSpec → Copying → Option String → Disk → TransferResult × Disk
  verify_and_replace spec os late disk =
      if not (sha256 os.hashed == sha256 os.read_back)
      then (compared spec os false (some "post-transfer checksum mismatch"), clean_up os disk)
      else elim late [
        | some message ↦ (io_error spec os (length (joined os.chunks)) message, clean_up os disk)
        | none ↦ (
          compared spec os true none,
          write spec.destination (joined os.chunks) (remove os.temporary disk),
        )
      ]

  -- The `try` statement.
  unfoldable pub copy_file : TransferSpec → Copying → Disk → TransferResult × Disk
  copy_file spec os disk = elim os.fault [
    | none ↦ verify_and_replace spec os none (write os.temporary (joined os.chunks) disk)
    | some (stage, message) ↦ elim stage [
      | at_create ↦ (io_error spec os 0 message, disk)
      | at_chunk n ↦
          let some_bytes = joined (take n os.chunks) in
          (
            io_error spec os (length some_bytes) message,
            clean_up os (write os.temporary some_bytes disk),
          )
      | at_sync ↦ (
        io_error spec os (length (joined os.chunks)) message,
        clean_up os (write os.temporary (joined os.chunks) disk),
      )
      | at_hash ↦ (
        io_error spec os (length (joined os.chunks)) message,
        clean_up os (write os.temporary (joined os.chunks) disk),
      )
      | at_stat ↦
          verify_and_replace spec os (some message) (write os.temporary (joined os.chunks) disk)
      | at_replace ↦
          verify_and_replace spec os (some message) (write os.temporary (joined os.chunks) disk)
    ]
  ]

  -- `LocalCopyBackend.transfer`; `is_folder` tells the paths of folders.
  unfoldable pub transfer :
      Host
      → (is_folder : String → Bool) → TransferSpec
      → (explicit_authorization : Bool) → Option AuthorizationReceipt
      → Copying
      → Disk
      → TransferResult × Disk
  transfer h is_folder spec explicit receipt os disk =
      let decision =
        authorize h (operation_of spec) (spec.source ∷ spec.destination ∷ []) explicit receipt in
      if not decision.allowed
      then (refused spec decision.reason, disk)
      else if not (is_some (content_at spec.source disk))
      then (refused spec "source is not a regular file", disk)
      else if (is_some (content_at spec.destination disk) || is_folder spec.destination)
          && not spec.overwrite
      then (refused spec "destination exists", disk)
      else copy_file spec os disk

-- `TransferManager.plan`
unfoldable pub plan : Host → (is_folder : String → Bool) → TransferSpec → Disk → TransferPlan
plan h is_folder spec disk =
    let decision =
      authorize h (operation_of spec) (spec.source ∷ spec.destination ∷ []) false none in
    record {
      spec = spec;
      source_exists = is_some (content_at spec.source disk);
      source_size = elim (content_at spec.source disk) [ none ↦ none | some c ↦ some (length c) ];
      destination_exists = is_some (content_at spec.destination disk) || is_folder spec.destination;
      allowed = decision.allowed;
      reason = decision.reason;
    }

abbrev pub size_at : String → Disk → ℕ
size_at p disk = elim (content_at p disk) [ none ↦ 0 | some c ↦ length c ]

abbrev pub error_text : Error → String
error_text (value_error s) = s
error_text (key_error s) = s
error_text (permission_error s) = s
error_text (runtime_error s) = s
error_text (os_error s) = s
error_text (overflow_error s) = s
error_text integrity_error = ""

abbrev admitted :
    TransferSpec → Result ℕ → (Disk → TransferResult × Disk) → Disk → TransferResult × Disk
admitted spec (ok size) backend disk = backend disk
admitted spec (err e) backend disk = (refused spec (error_text e), disk)

-- `TransferManager.transfer`, up to the steps of the limiter, which only make it wait.
unfoldable pub managed :
    Option TransferLimits
    → TransferSpec
    → (Disk → TransferResult × Disk)
    → Disk
    → TransferResult × Disk
managed none spec backend disk = backend disk
managed (some l) spec backend disk =
    admitted spec (check_size l (pos (size_at spec.source disk))) backend disk

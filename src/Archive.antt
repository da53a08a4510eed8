-- ===== src/Archive.antt =====
-- teldrive_lab/archive.py: what the planner does with each record, from the tests of its
-- source to the verdict.
-- Of a record the planner reads the fields below; the digest of a plan and the order in which
-- records are taken are not modelled. The name of a path comes with the record; paths and
-- the root of the archive are texts as pathlib prints them.
pub mod Laws
pub mod Execution
pub mod Applied
use teldrive_lab.Prelude.{
  ℕ, String, Bool, true, false, not, ◌&&◌, ◌||◌, Option, none, some, List, [], ◌∷◌, ◌++◌, map,
  if◌then◌else◌, ◌==◌, or_text, truthy, count_by, any_by, all_by, is_some, eqb, length,
}
use teldrive_lab.Exec.{Result, ok, err, Error, value_error}
use teldrive_lab.Text.{append}
use teldrive_lab.Safety.{Operation}
use teldrive_lab.Safety.Paths.{Host, parse}
use teldrive_lab.Safety.Policy.{same_texts, authorize, for_paths}
use teldrive_lab.Transfer.{Content, TransferKind, TransferSpec, TransferResult, Disk, content_at}
use teldrive_lab.TransferExecutor.{Manager}
use teldrive_lab.Files.{real_path, printed, divided}
use teldrive_lab.Organization.{with_first}
use teldrive_lab.Models.{SourceType}

pub data ArchiveAction : Type 0 where
  copy_item noop duplicate conflict blocked : ArchiveAction

pub record ArchivePolicy : Type 0 where
  pub directory : String
  pub require_local_source : Bool
  pub require_hash : Bool

abbrev pub default_archive_policy : ArchivePolicy
default_archive_policy = record {
  directory = "archive";
  require_local_source = true;
  require_hash = true;
}

-- The fields of `FileRecord` that the planner reads, and `Path(path).name`.
pub record ArchiveRecord : Type 0 where
  pub path : String
  pub file_name : String
  pub size : Option ℕ
  pub sha256 : Option String
  pub source_type : SourceType

pub record ArchiveCandidate : Type 0 where
  pub source : String
  pub destination : String
  pub size : ℕ
  pub sha256 : String
  pub source_type : SourceType
  pub duplicate_of : Option String

pub record ArchiveItem : Type 0 where
  pub candidate : ArchiveCandidate
  pub action : ArchiveAction
  pub reason : String

abbrev pub is_local : SourceType → Bool
is_local SourceType.local = true
is_local _ = false

abbrev or_zero : Option ℕ → ℕ
or_zero none = 0
or_zero (some n) = n

-- `_existing_hashes`, looked up: the last record with this size and sum counts.
unfoldable pub known_path : ℕ → String → List ArchiveRecord → Option String
known_path size digest [] = none
known_path size digest (r ∷ records) =
    let later = known_path size digest records in
    if is_some later then later else elim r.size [
      | none ↦ none
      | some n ↦
          if truthy r.sha256 && or_text r.sha256 "" == digest && eqb n size
          then some r.path
          else none
    ]

abbrev rejected : ArchiveRecord → String → ArchiveItem
rejected r reason = record {
  candidate = record {
    source = r.path;
    destination = "";
    size = or_zero r.size;
    sha256 = or_text r.sha256 "";
    source_type = r.source_type;
    duplicate_of = none;
  };
  action = blocked;
  reason = reason;
}

-- `ArchivePolicy.destination`
unfoldable pub destination : ArchivePolicy → String → (archive_root : String) → Result String
destination policy name root =
    if name == "" || name == "." || name == ".."
    then err (value_error "invalid archive source filename")
    else ok (printed (divided (divided (parse root) policy.directory) name))

module _ (sha256 : Content → String) (h : Host) (is_folder : String → Bool) (disk : Disk) where
  -- The end of the loop, from the test of the destination on.
  unfoldable pub decide : ArchiveCandidate → ArchiveItem
  decide c =
      let decision = authorize h Operation.transfer (c.source ∷ c.destination ∷ []) false none in
      if same_texts (real_path h c.source) (real_path h c.destination)
      then record {
        candidate = c;
        action = noop;
        reason = "source already equals archive destination";
      }
      else if is_some (content_at c.destination disk) || is_folder c.destination
      then record {
        candidate = c;
        action = conflict;
        reason = "archive destination already exists; planner will not overwrite";
      }
      else if decision.allowed
      then record { candidate = c; action = copy_item; reason = "archive policy approved" }
      else if decision.requires_authorization
      then record {
        candidate = c;
        action = copy_item;
        reason = "archive policy approved; explicit authorization required to apply";
      }
      else record { candidate = c; action = blocked; reason = decision.reason }

  -- The path of another file with the same size and sum.
  abbrev other_path : String → Option String → Option String
  other_path source none = none
  other_path source (some p) =
      if not (p == "") && not (same_texts (real_path h p) (real_path h source))
      then some p
      else none

  abbrev weigh : ArchiveCandidate → Option String → ArchiveItem
  weigh c none = decide c
  weigh c (some p) = record {
    candidate = record c { duplicate_of = some p };
    action = duplicate;
    reason = append "matching size+SHA-256 already known at " p;
  }

  abbrev pub candidate_of : ArchiveRecord → Content → String → Bool → ArchiveCandidate
  candidate_of r content destination require_hash = record {
    source = r.path;
    destination = destination;
    size = length content;
    sha256 = if require_hash then sha256 content else or_text r.sha256 "";
    source_type = r.source_type;
    duplicate_of = none;
  }

  abbrev judged : List ArchiveRecord → ArchiveCandidate → ArchiveItem
  judged existing c =
      weigh c
        (if c.sha256 == "" then none else other_path c.source (known_path c.size c.sha256 existing))

  abbrev archive_local :
      ArchivePolicy
      → List ArchiveRecord
      → ArchiveRecord
      → Option Content
      → Result String
      → Result ArchiveItem
  archive_local policy existing r none target =
      ok (rejected r "archive source is not a regular file")
  archive_local policy existing r (some content) (err e) = err e
  archive_local policy existing r (some content) (ok target) =
      ok (judged existing (candidate_of r content target policy.require_hash))

  -- The body of the loop of `plan`.
  unfoldable pub archive_item :
      ArchivePolicy
      → (archive_root : String) → (existing : List ArchiveRecord) → ArchiveRecord
      → Result ArchiveItem
  archive_item policy root existing r =
      if policy.require_local_source && not (is_local r.source_type)
      then ok (rejected r "archive source must be LOCAL")
      else archive_local policy existing r (content_at r.path disk)
          (destination policy r.file_name root)

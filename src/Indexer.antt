-- ===== src/Indexer.antt =====
-- teldrive_lab/indexer.py: the scan of a tree into the catalog, as the loop over a stack that the code runs. What `os.scandir`
-- and the calls on its entries say is an argument, and so are the ids of new rows.
pub mod Bounds
use teldrive_lab.Prelude.{
  ℕ, zero, suc, ◌+◌, String, Bool, true, false, not, ◌&&◌, Option, none, some, List, [], ◌∷◌, ◌++◌,
  if◌then◌else◌, or_text, leb, ltb, ℤ, pos, negsuc, positive, nonnegative,
}
use teldrive_lab.Exec.{Result, ok, err, value_error, permission_error, os_error}
use teldrive_lab.Safety.{Operation}
use teldrive_lab.Safety.Paths.{Host}
use teldrive_lab.Safety.Policy.{authorize}
use teldrive_lab.Models.{SourceType, EncryptionClass, HashState, VerificationState, FileRecord}
use teldrive_lab.Catalog.{Files, upsert}

pub record IndexLimits : Type 0 where
  pub max_entries : ℕ
  pub max_depth : ℕ

-- The checks of the constructor.
abbrev checked_limits : Option ℕ → Option ℕ → Result IndexLimits
checked_limits none max_depth = err (value_error "max_entries must be positive")
checked_limits (some n) none = err (value_error "max_depth must be non-negative")
checked_limits (some n) (some d) = ok (record { max_entries = n; max_depth = d })

unfoldable pub index_limits : (max_entries max_depth : ℤ) → Result IndexLimits
index_limits max_entries max_depth = checked_limits (positive max_entries) (nonnegative max_depth)

-- An entry of `os.scandir` with what the calls on it say; `stat_fails` stands for an OSError of `stat`.
pub record ScanEntry : Type 0 where
  pub name : String
  pub path : String
  pub parent : String
  pub stat_fails : Bool
  pub is_symlink : Bool
  pub is_dir : Bool
  pub size : ℕ
  pub suffix : Option String
  pub created_at : Option String
  pub modified_at : String

-- The variables of the loop.
pub record IndexState : Type 0 where
  pub indexed : ℕ
  pub skipped : ℕ
  pub seen : List String
  pub bounded : Bool
  pub stack : List (String × ℕ)
  pub files : Files

abbrev pub entry_record : SourceType → (identifier timestamp : String) → ScanEntry → FileRecord
entry_record source_type identifier timestamp e = record {
  path = e.path;
  name = e.name;
  parent_path = some e.parent;
  size = if e.is_dir then none else some (pos e.size);
  mime_type = none;
  extension = if e.is_dir then none else e.suffix;
  created_at = e.created_at;
  modified_at = some e.modified_at;
  sha256 = none;
  hash_state = HashState.unknown;
  source_type = source_type;
  source_identifier = identifier;
  destination_type = none;
  destination_identifier = none;
  telegram_file_id = none;
  telegram_message_id = none;
  telegram_channel_id = none;
  encryption_class = EncryptionClass.unknown;
  verification_state = VerificationState.unverified;
  tags = none;
  job_id = none;
  first_seen_at = timestamp;
  last_seen_at = timestamp;
  id = none;
}

module _ (scandir : String → Option (List ScanEntry)) (limits : IndexLimits)
    (source_type : SourceType) (identifier timestamp : String) (fresh : ℕ → ℕ) where
  -- `seen.append(…)`, `stack.append(…)` and the upsert of an entry.
  abbrev indexed_entry : ℕ → ScanEntry → IndexState → IndexState
  indexed_entry depth e s = record s {
    indexed = suc s.indexed;
    seen = s.seen ++ e.path ∷ [];
    stack =
        if e.is_dir && leb (suc depth) limits.max_depth
        then (e.path, suc depth) ∷ s.stack
        else s.stack;
    files = (upsert (fresh s.indexed) (entry_record source_type identifier timestamp e) s.files).1;
  }

  abbrev skipped_entry : IndexState → IndexState
  skipped_entry s = record s { skipped = suc s.skipped }

  -- The body of the loop over the entries, where the limit is not reached.
  unfoldable pub index_entry : ℕ → ScanEntry → IndexState → IndexState
  index_entry depth e s =
      if e.stat_fails
      then skipped_entry s
      else if e.is_symlink
      then skipped_entry s
      else indexed_entry depth e s

  unfoldable pub index_entries : ℕ → List ScanEntry → IndexState → IndexState
  index_entries depth [] s = s
  index_entries depth (e ∷ entries) s =
      let next = index_entries depth entries (index_entry depth e s) in
      if leb limits.max_entries (s.indexed + s.skipped) then record s { bounded = true } else next

  abbrev popped : List (String × ℕ) → IndexState → IndexState
  popped stack s = record s { stack = stack }

  abbrev pub read_directory : Option (List ScanEntry) → ℕ → IndexState → IndexState
  read_directory none depth s = skipped_entry s
  read_directory (some entries) depth s = index_entries depth entries s

  -- The loop over the stack, whose last element is the head here; none when the fuel runs out.
  unfoldable pub scan_loop : (fuel : ℕ) → IndexState → List (String × ℕ) → Option IndexState
  scan_loop fuel s [] = some s
  scan_loop zero s (top ∷ stack) = none
  scan_loop (suc fuel) s ((directory, depth) ∷ stack) =
      let after = read_directory (scandir directory) depth (popped stack s) in
      let rest = scan_loop fuel after after.stack in if after.bounded then some after else rest

  abbrev pub start : Files → IndexState
  start files = record {
    indexed = 0;
    skipped = 0;
    seen = [];
    bounded = false;
    stack = [];
    files = files;
  }

-- `scan`, from what the calls on the root say; the scan keeps the catalog when it raises.
unfoldable pub scan :
    Host
    → (scandir : String → Option (List ScanEntry)) → IndexLimits
    → SourceType
    → (source_identifier : Option String) → (timestamp : String) → (fresh : ℕ → ℕ) → (is_dir : Bool)
    → (candidate root : String) → (fuel : ℕ) → Files
    → Result (Option IndexState)
scan h scandir limits source_type source_identifier timestamp fresh is_dir candidate root fuel
      files =
    let d = authorize h Operation.index (candidate ∷ []) false none in
    let identifier = or_text source_identifier root in
    if not d.allowed
    then err (permission_error d.reason)
    else if not is_dir
    then err (os_error candidate)
    else ok (
        scan_loop scandir limits source_type identifier timestamp fresh fuel
          (start scandir limits source_type identifier timestamp fresh files) ((root, 0) ∷ []))

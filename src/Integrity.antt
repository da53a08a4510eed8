-- ===== src/Integrity.antt =====
-- teldrive_lab/integrity.py: checksum evidence and duplicates. What the operating system says of the files (their
-- bytes, the times of their last change, which of them raise an OSError when they are read) is an
-- argument, and does not change during a call.
pub mod Laws
pub mod Freshness
pub mod Groups
use teldrive_lab.Prelude.{
  ℕ, zero, suc, ◌-◌, ◌*◌, String, Bool, true, false, not, ◌&&◌, ◌||◌, Option, none, some, List, [],
  ◌∷◌, ◌++◌, map, if◌then◌else◌, ◌==◌, any_by, filter_by, count_by, is_some, length, ltb, eqb, leb,
  text_le, truthy, or_text, ℤ, pos, negsuc, holds,
}
use teldrive_lab.Sql.{select_one, order_by}
use teldrive_lab.Sql.Upsert.{upsert}
use teldrive_lab.Text.{distinct}
use teldrive_lab.Files.{plain_text}
use teldrive_lab.Transfer.{Content, Disk, content_at}
use teldrive_lab.Models.{FileRecord, VerificationState}

pub data IntegrityState : Type 0 where
  verified missing changed mismatch unverifiable : IntegrityState

pub record ChecksumEvidence : Type 0 where
  pub path : String
  pub size : ℕ
  pub sha256 : String
  pub modified_ns : ℕ
  pub computed_at : String
  pub state : IntegrityState

pub record IntegrityResult : Type 0 where
  pub path : String
  pub expected_sha256 : Option String
  pub actual_sha256 : Option String
  pub expected_size : Option ℤ
  pub actual_size : Option ℕ
  pub state : IntegrityState

pub record DuplicateGroup : Type 0 where
  pub size : ℕ
  pub sha256 : String
  pub paths : List String

-- `max(0, len(paths) - 1) * size`
abbrev pub reclaimable_bytes : DuplicateGroup → ℕ
reclaimable_bytes g = (length g.paths - 1) * g.size

-- What the operating system says.
pub record FileSystem : Type 0 where
  pub disk : Disk
  pub unreadable : String → Bool
  pub modified_ns : String → ℕ

-- The table of evidence, its key the path.
abbrev pub Evidence : Type 0
Evidence = List ChecksumEvidence

unfoldable pub store_evidence : ChecksumEvidence → Evidence → Evidence
store_evidence = upsert (λ e. e.path)

unfoldable pub get_evidence : String → Evidence → Option ChecksumEvidence
get_evidence path evidence = select_one (λ e. e.path == path) evidence

-- `expected_size is not None and actual_size != expected_size`
abbrev pub size_differs : Option ℤ → ℕ → Bool
size_differs none n = false
size_differs (some (pos m)) n = not (eqb n m)
size_differs (some (negsuc m)) n = true

-- `expected_sha256 and actual_hash != expected_sha256`
abbrev pub sum_differs : Option String → String → Bool
sum_differs none digest = false
sum_differs (some d) digest = if d == "" then false else not (digest == d)

module _ (sha256 : Content → String) (fs : FileSystem) where
  abbrev at_file : String → Option String → Option ℤ → Option Content → IntegrityResult
  at_file path digest size none = record {
    path = path;
    expected_sha256 = digest;
    actual_sha256 = none;
    expected_size = size;
    actual_size = none;
    state = IntegrityState.missing;
  }
  at_file path digest size (some c) =
      if fs.unreadable path
      then record {
        path = path;
        expected_sha256 = digest;
        actual_sha256 = none;
        expected_size = size;
        actual_size = none;
        state = IntegrityState.unverifiable;
      }
      else record {
        path = path;
        expected_sha256 = digest;
        actual_sha256 = some (sha256 c);
        expected_size = size;
        actual_size = some (length c);
        state =
            if size_differs size (length c)
            then IntegrityState.changed
            else if sum_differs digest (sha256 c)
            then IntegrityState.mismatch
            else IntegrityState.verified;
      }

  unfoldable pub verify_path :
      String → (expected_sha256 : Option String) → (expected_size : Option ℤ) → IntegrityResult
  verify_path path digest size =
      at_file (plain_text path) digest size (content_at (plain_text path) fs.disk)

  -- `stat().st_size`, for a file that is there
  abbrev pub size_of : Option Content → ℕ
  size_of none = 0
  size_of (some c) = length c

  abbrev pub evidence_of :
      FileRecord → (digest computed_at : String) → IntegrityState → ChecksumEvidence
  evidence_of r digest computed_at state = record {
    path = r.path;
    size = size_of (content_at (plain_text r.path) fs.disk);
    sha256 = digest;
    modified_ns = fs.modified_ns (plain_text r.path);
    computed_at = computed_at;
    state = state;
  }

  abbrev pub recorded :
      FileRecord → (computed_at : String) → IntegrityState → Option String → Evidence → Evidence
  recorded r computed_at state none evidence = evidence
  recorded r computed_at state (some digest) evidence =
      store_evidence (evidence_of r digest computed_at state) evidence

  -- The loop of `verify_records` with a store, the clock read at each turn.
  unfoldable pub verify_each :
      (clock : ℕ → String) → ℕ → List FileRecord → Evidence → List IntegrityResult × Evidence
  verify_each clock n [] evidence = ([], evidence)
  verify_each clock n (r ∷ records) evidence =
      let result = verify_path r.path r.sha256 r.size in
      let (results, after) =
        verify_each clock (suc n) records
          (recorded r (clock n) result.state result.actual_sha256 evidence) in
      (result ∷ results, after)

  abbrev id_of : Option ℕ → ℕ
  id_of none = 0
  id_of (some n) = n

  -- The key `(item.path, item.name, item.id or 0)`.
  abbrev pub in_order : FileRecord → FileRecord → Bool
  in_order a b =
      if not (a.path == b.path)
      then text_le a.path b.path
      else if not (a.name == b.name)
      then text_le a.name b.name
      else leb (id_of a.id) (id_of b.id)

  unfoldable pub verify_records :
      (clock : ℕ → String) → List FileRecord → Evidence → List IntegrityResult × Evidence
  verify_records clock records evidence = verify_each clock 0 (order_by in_order records) evidence

  abbrev pub is_verified : VerificationState → Bool
  is_verified VerificationState.verified = true
  is_verified _ = false

  unfoldable pub missing_verified_copies : List FileRecord → List String
  missing_verified_copies records = order_by text_le (
      map (λ r. r.path)
        (filter_by
          (λ r.
            is_verified r.verification_state
            && not (is_some (content_at (plain_text r.path) fs.disk)))
          records))

  abbrev pub is_stale_at : String → Option ChecksumEvidence → Option Content → Bool
  is_stale_at path (some e) (some c) =
      not (eqb e.size (length c)) || not (eqb e.modified_ns (fs.modified_ns path))
  is_stale_at path _ _ = false

  abbrev pub is_stale : Evidence → FileRecord → Bool
  is_stale evidence r =
      is_stale_at (plain_text r.path) (get_evidence r.path evidence)
        (content_at (plain_text r.path) fs.disk)

  unfoldable pub stale_checksum_paths : List FileRecord → Evidence → List String
  stale_checksum_paths records evidence =
      order_by text_le (map (λ r. r.path) (filter_by (is_stale evidence) records))

-- A dictionary of lists of paths, in the order in which its keys came in.
abbrev pub Groups : Type 0
Groups = List ((ℕ × String) × List String)

-- `groups.setdefault(key, []).append(path)`
unfoldable pub add_path : ℕ → String → String → Groups → Groups
add_path size digest path [] = ((size, digest), path ∷ []) ∷ []
add_path size digest path (((n, d), paths) ∷ groups) =
    let rest = add_path size digest path groups in
    if eqb n size && d == digest
    then ((n, d), paths ++ path ∷ []) ∷ groups
    else ((n, d), paths) ∷ rest

abbrev pub add_known : Option String → Option ℤ → String → Groups → Groups
add_known (some digest) (some (pos n)) path groups =
    if digest == "" then groups else add_path n digest path groups
add_known _ _ path groups = groups

unfoldable pub grouped : List FileRecord → Groups → Groups
grouped [] groups = groups
grouped (r ∷ records) groups = grouped records (add_known r.sha256 r.size r.path groups)

unfoldable pub duplicates_of : Groups → List DuplicateGroup
duplicates_of [] = []
duplicates_of (((n, d), paths) ∷ groups) =
    let rest = duplicates_of groups in
    if ltb 1 (length (distinct paths))
    then record { size = n; sha256 = d; paths = order_by text_le (distinct paths) } ∷ rest
    else rest

-- Tuples of texts in lexicographic order.
unfoldable pub texts_le : List String → List String → Bool
texts_le [] ts = true
texts_le (s ∷ ss) [] = false
texts_le (s ∷ ss) (t ∷ ts) = let rest = texts_le ss ts in if s == t then rest else text_le s t

abbrev pub group_le : DuplicateGroup → DuplicateGroup → Bool
group_le a b =
    if not (eqb a.size b.size)
    then ltb a.size b.size
    else if not (a.sha256 == b.sha256)
    then text_le a.sha256 b.sha256
    else texts_le a.paths b.paths

unfoldable pub duplicate_groups : List FileRecord → List DuplicateGroup
duplicate_groups records = order_by group_le (duplicates_of (grouped records []))

-- ===== src/Reconcile.antt =====
-- teldrive_lab/reconcile.py: the comparison of one file with what is expected of it. A file that is
-- there can be read; the source lets an OSError of its hashing through.
pub mod Laws
use teldrive_lab.Prelude.{
  ℕ, String, Bool, true, false, not, ◌&&◌, Option, none, some, if◌then◌else◌, eqb, ◌==◌, length,
  is_some,
}
use teldrive_lab.Transfer.{Content, Disk, content_at}

pub record FileReconciliation : Type 0 where
  pub exists : Bool
  pub size : Option ℕ
  pub sha256 : Option String
  pub matches_size : Bool
  pub matches_sha256 : Bool
  pub verified : Bool
  pub reason : String

abbrev pub size_matches : Option ℕ → ℕ → Bool
size_matches none size = true
size_matches (some n) size = eqb size n

abbrev pub sum_matches : Option String → String → Bool
sum_matches none digest = true
sum_matches (some d) digest = digest == d

module _ (sha256 : Content → String) where
  abbrev compare_file : Option ℕ → Option String → Option Content → FileReconciliation
  compare_file size digest none = record {
    exists = false;
    size = none;
    sha256 = none;
    matches_size = not (is_some size);
    matches_sha256 = not (is_some digest);
    verified = false;
    reason = "file missing";
  }
  compare_file size digest (some c) =
      let size_ok = size_matches size (length c) in
      let hash_ok = sum_matches digest (sha256 c) in
      record {
        exists = true;
        size = some (length c);
        sha256 = if is_some digest then some (sha256 c) else none;
        matches_size = size_ok;
        matches_sha256 = hash_ok;
        verified = size_ok && hash_ok;
        reason =
            if size_ok && hash_ok
            then "verified"
            else if not size_ok
            then "size mismatch"
            else "checksum mismatch";
      }

  unfoldable pub reconcile_file :
      (path : String) (expected_size : Option ℕ) (expected_sha256 : Option String)
      → Disk
      → FileReconciliation
  reconcile_file path size digest disk = compare_file size digest (content_at path disk)

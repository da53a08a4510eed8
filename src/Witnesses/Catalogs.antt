-- ===== src/Witnesses/Catalogs.antt =====
-- The theorems on the catalog, the indexer and integrity, at a file of two bytes.
use teldrive_lab.Prelude.{
  List, Option, ◌≤◌, ◌+◌, String, true, false, none, some, [], ◌∷◌, if◌then◌else◌, ◌≡◌, ◌↔◌, ◌⊎◌,
  refl, arith, All, length, pos, is_some,
}
use teldrive_lab.Models.{SourceType, EncryptionClass, HashState, VerificationState, FileRecord}
use teldrive_lab.Catalog.{get, upsert}
use teldrive_lab.Catalog.Laws.{row_of, get-upsert}
use teldrive_lab.Catalog.Unique.{IsUnique, upsert-IsUnique}
use teldrive_lab.Indexer.{IndexLimits, ScanEntry, IndexState, scan_loop, start}
use teldrive_lab.Indexer.Bounds.{scan_loop_ends}
use teldrive_lab.Files.{plain_text}
use teldrive_lab.Reconcile.{reconcile_file}
use teldrive_lab.Integrity.{
  IntegrityState, FileSystem, verify_path, verify_records, stale_checksum_paths, duplicate_groups,
}
use teldrive_lab.Integrity.Laws.{verify_path-reconcile_file}
use teldrive_lab.Integrity.Freshness.{stale_checksum_paths-verify_records}
use teldrive_lab.Integrity.Groups.{IsDuplicate, duplicate_groups-IsDuplicate}
use teldrive_lab.Witnesses.Transfers.{disk, sum_text}

abbrev seen : String → FileRecord
seen path = record {
  path = path;
  name = "in";
  parent_path = none;
  size = some (pos 2);
  mime_type = none;
  extension = none;
  created_at = none;
  modified_at = none;
  sha256 = some "1";
  hash_state = HashState.computed;
  source_type = SourceType.local;
  source_identifier = "host";
  destination_type = none;
  destination_identifier = none;
  telegram_file_id = none;
  telegram_message_id = none;
  telegram_channel_id = none;
  encryption_class = EncryptionClass.raw;
  verification_state = VerificationState.verified;
  tags = none;
  job_id = none;
  first_seen_at = "2026-01-01";
  last_seen_at = "2026-01-02";
  id = none;
}

abbrev file_system : FileSystem
file_system = record { disk = disk; unreadable = λ p. false; modified_ns = λ p. 5 }

get-upsert_example :
    ((upsert 1 (seen "/srv/in") []).0
      ≡ some (row_of 1 (seen "/srv/in") (get SourceType.local "host" "/srv/in" [])))
    × (get SourceType.local "host" "/srv/in" (upsert 1 (seen "/srv/in") []).1
        ≡ some (row_of 1 (seen "/srv/in") (get SourceType.local "host" "/srv/in" [])))
get-upsert_example = get-upsert 1 (seen "/srv/in") SourceType.local "host" "/srv/in" []

empty-IsUnique : IsUnique []
empty-IsUnique t i p = omega arith

upsert-IsUnique_example :
    IsUnique (upsert 1 (seen "/srv/in") []).1
    × (length (upsert 1 (seen "/srv/in") []).1
        ≡ 0 + (if is_some (get SourceType.local "host" "/srv/in" []) then 0 else 1))
upsert-IsUnique_example = upsert-IsUnique 1 (seen "/srv/in") [] empty-IsUnique

verify_path-reconcile_file_example :
    ((verify_path sum_text file_system "/srv/in" (some "") (some (pos 2))).state
      ≡ IntegrityState.verified)
    ↔ ((false ≡ false)
        × (((reconcile_file sum_text (plain_text "/srv/in") (some 2) (some "") disk).verified
              ≡ true)
            ⊎ ((◌≡◌ {A = Option String} (some "") (some ""))
                × ((reconcile_file sum_text (plain_text "/srv/in") (some 2) none disk).verified
                    ≡ true))))
verify_path-reconcile_file_example =
    verify_path-reconcile_file sum_text file_system "/srv/in" (some "") (some 2)

stale_checksum_paths-verify_records_example :
    stale_checksum_paths sum_text file_system
      (seen "/srv/in" ∷ seen "/srv/gone" ∷ [])
      (verify_records sum_text file_system
        (λ n. "now")
        (seen "/srv/in" ∷ seen "/srv/gone" ∷ [])
        []).1
    ≡ []
stale_checksum_paths-verify_records_example =
    stale_checksum_paths-verify_records sum_text file_system (λ n. "now")
      (seen "/srv/in" ∷ seen "/srv/gone" ∷ []) [] (refl, (refl, tt))

duplicate_groups-IsDuplicate_example :
    All
      (IsDuplicate (seen "/srv/in" ∷ seen "/srv/copy" ∷ []))
      (duplicate_groups (seen "/srv/in" ∷ seen "/srv/copy" ∷ []))
duplicate_groups-IsDuplicate_example =
    duplicate_groups-IsDuplicate (seen "/srv/in" ∷ seen "/srv/copy" ∷ [])

abbrev nested : ScanEntry
nested = record {
  name = "d";
  path = "/srv/d";
  parent = "/srv";
  stat_fails = false;
  is_symlink = false;
  is_dir = true;
  size = 0;
  suffix = none;
  created_at = none;
  modified_at = "2026-01-01";
}

-- Every directory holds the same directory.
abbrev scandir : String → Option (List ScanEntry)
scandir p = some (nested ∷ [])

abbrev limits : IndexLimits
limits = record { max_entries = 2; max_depth = 9 }

scan_loop_ends_example :
    (t : IndexState) × (scan_loop scandir limits SourceType.local "host" "now"
        (λ n. n)
        3
        (start scandir limits SourceType.local "host" "now" (λ n. n) [])
        (("/srv", 0) ∷ [])
      ≡ some t)
    × (t.indexed ≤ 2)
    × (length t.seen ≡ t.indexed)
scan_loop_ends_example =
    scan_loop_ends scandir limits SourceType.local "host" "now" (λ n. n) 3 "/srv" [] (omega arith)

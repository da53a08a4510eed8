-- ===== src/Witnesses/Archives.antt =====
-- The theorem on archival plans, at a concrete record.
use teldrive_lab.Prelude.{
  true, false, not, ◌&&◌, ◌||◌, none, some, [], ◌∷◌, ◌≡◌, refl, any_by, is_some, length,
  if◌then◌else◌, or_text,
}
use teldrive_lab.Exec.{ok}
use teldrive_lab.Archive
use teldrive_lab.Text
use teldrive_lab.Safety
use teldrive_lab.Safety.Policy
use teldrive_lab.Safety.Paths
use teldrive_lab.Safety.Paths.{is_protected}
use teldrive_lab.Transfer.{Content, content_at}
use teldrive_lab.Models.{SourceType}
use teldrive_lab.Archive.{
  copy_item, default_archive_policy, ArchiveRecord, ArchiveItem, archive_item, is_local,
}
use teldrive_lab.Archive.Laws.{archive_item_lem}
use teldrive_lab.Witnesses.Boundary.{host}
use teldrive_lab.Witnesses.Transfers.{disk, no_folder, sum_text}

abbrev input : ArchiveRecord
input = record {
  path = "/srv/in";
  file_name = "in";
  size = some 2;
  sha256 = none;
  source_type = SourceType.local;
}

abbrev archived : ArchiveItem
archived = record {
  candidate = record {
    source = "/srv/in";
    destination = "/store/archive/in";
    size = 2;
    sha256 = "1";
    source_type = SourceType.local;
    duplicate_of = none;
  };
  action = copy_item;
  reason = "archive policy approved; explicit authorization required to apply";
}

planned :
    archive_item sum_text host no_folder disk default_archive_policy "/store" [] input ≡ ok archived
unfolding archive_item content_at Archive.destination Archive.known_path Archive.decide
    Policy.same_texts Paths.parse Text.join Text.append Policy.authorize Safety.is_mutating
    Policy.protected_paths Policy.path_text is_protected Paths.protected_roots Paths.protected_state
    Paths.is_within Paths.resolve_path Paths.resolve Paths.configured_paths Text.split Text.has_text
planned = refl

archive_item_lem_example :
    (true && not (is_local SourceType.local) ≡ false)
    × ((c : Content) × (content_at "/srv/in" disk ≡ some c)
        × (archived.candidate.source ≡ "/srv/in")
        × (archived.candidate.size ≡ length c)
        × (archived.candidate.sha256 ≡ (if true then sum_text c else or_text input.sha256 "")))
    × (is_some (content_at "/store/archive/in" disk) || no_folder "/store/archive/in" ≡ false)
    × (any_by (is_protected host) ("/srv/in" ∷ "/store/archive/in" ∷ []) ≡ false)
archive_item_lem_example =
    archive_item_lem sum_text host no_folder disk default_archive_policy "/store" [] input archived
      planned refl

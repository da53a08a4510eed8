-- ===== src/Witnesses/Plans.antt =====
-- The theorems on plans, the Lab's own state and single files, at concrete inputs.
use teldrive_lab.Prelude.{
  true, false, ◌||◌, none, some, List, [], ◌∷◌, ◌≡◌, ◌↔◌, refl, any_by, is_some,
}
use teldrive_lab.Exec.{ok}
use teldrive_lab.Safety.Paths.{is_protected}
use teldrive_lab.Safety.Policy.{path_text, same_texts}
use teldrive_lab.Transfer.{TransferResult, content_at}
use teldrive_lab.TransferExecutor.{Manager}
use teldrive_lab.Files.{real_path}
use teldrive_lab.Organization.{
  FileClass, StorageClass, OrganizationAction, OrganizationItem, copy_item, noop, conflict, blocked,
  plan_action, apply, apply_success, copy_count, conflict_count,
}
use teldrive_lab.Organization.Laws.{plan_action_iff}
use teldrive_lab.Runtime.{RuntimePaths, ensure_runtime}
use teldrive_lab.Witnesses.Boundary.{host}
use teldrive_lab.Witnesses.Transfers.{disk, no_folder}

abbrev item : OrganizationAction → OrganizationItem
item action = record {
  source = "/srv/in";
  destination = "/srv/out";
  file_class = FileClass.project;
  storage_class = StorageClass.crypt;
  rule_id = "projects";
  action = action;
  reason = "";
}

abbrev good : List OrganizationItem
good = item noop ∷ item copy_item ∷ []

abbrev done : TransferResult
done = record {
  success = true;
  bytes_transferred = 2;
  source = "/srv/in";
  destination = "/srv/out";
  source_sha256 = some "1";
  destination_sha256 = some "1";
  verified = true;
  error = none;
}

abbrev willing : Manager
willing spec receipt d = (done, d)

abbrev results : List TransferResult
results = done ∷ []

applied : (apply host willing "id" good disk).0 ≡ ok results
unfolding apply teldrive_lab.Organization.apply_items teldrive_lab.Safety.Policy.for_paths
    teldrive_lab.Safety.is_mutating
applied = refl

plan_action_iff_example :
    ((plan_action host no_folder disk "/srv/in" "/vault/out").0 ≡ copy_item) ↔ (
      (same_texts (real_path host "/srv/in") (real_path host "/vault/out") ≡ false)
      × (is_some (content_at "/vault/out" disk) || no_folder "/vault/out" ≡ false)
      × (any_by (is_protected host) ("/srv/in" ∷ "/vault/out" ∷ []) ≡ false))
plan_action_iff_example = plan_action_iff host no_folder disk "/srv/in" "/vault/out"

abbrev paths : RuntimePaths
paths = record {
  root = "lab" ∷ [];
  state = "lab" ∷ "state" ∷ [];
  cache = "lab" ∷ "cache" ∷ [];
  logs = "lab" ∷ "logs" ∷ [];
  backups = "lab" ∷ "backups" ∷ [];
}

accepted : ensure_runtime host paths ≡ ok paths
unfolding ensure_runtime is_protected teldrive_lab.Safety.Paths.protected_roots
    teldrive_lab.Safety.Paths.is_within teldrive_lab.Safety.Paths.resolve_path
    teldrive_lab.Safety.Paths.resolve path_text teldrive_lab.Text.append teldrive_lab.Text.join
    teldrive_lab.Safety.Paths.protected_state
accepted = refl

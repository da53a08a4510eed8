-- ===== src/Archive/Laws.antt =====
-- What a plan of archival copies.
use teldrive_lab.Prelude.{
  String, Bool, false, not, ◌&&◌, ◌||◌, some, List, [], ◌∷◌, ◌≡◌, arith, inl, inr, any_by, is_some,
  Option-cases, if◌then◌else◌, length, or_text,
}
use teldrive_lab.Exec.{ok, Any-cases}
use teldrive_lab.Safety.{is_mutating}
use teldrive_lab.Safety.Paths.{Host, is_protected}
use teldrive_lab.Safety.Policy.{authorize, protected_paths}
use teldrive_lab.Transfer.{Content, Disk, content_at}
use teldrive_lab.Archive.{
  ArchivePolicy, ArchiveRecord, ArchiveItem, copy_item, is_local, decide, archive_item,
  ArchiveCandidate, candidate_of, destination,
}

module _ (sha256 : Content → String) (h : Host) (is_folder : String → Bool) (disk : Disk) where
  decide_free :
      (c : ArchiveCandidate)
      → (decide sha256 h is_folder disk c).action ≡ copy_item
      → ((decide sha256 h is_folder disk c).candidate ≡ c)
        × (is_some (content_at c.destination disk) || is_folder c.destination ≡ false)
        × (any_by (is_protected h) (c.source ∷ c.destination ∷ []) ≡ false)
  unfolding decide authorize protected_paths is_mutating
  decide_free c e = (ground arith, ground arith, ground arith)

  -- An item that the planner marks COPY has as its source a regular file, a LOCAL one where the
  -- policy asks for that, with the size of that file and, where the policy asks for it, the sum of
  -- its bytes; nothing is at its destination, and neither path is protected.
  pub archive_item_lem :
      (policy : ArchivePolicy) (root : String) (existing : List ArchiveRecord) (r : ArchiveRecord)
      (i : ArchiveItem)
      → archive_item sha256 h is_folder disk policy root existing r ≡ ok i
      → i.action ≡ copy_item
      → (policy.require_local_source && not (is_local r.source_type) ≡ false)
        × ((c : Content) × (content_at r.path disk ≡ some c)
            × (i.candidate.source ≡ r.path)
            × (i.candidate.size ≡ length c)
            × (i.candidate.sha256
                ≡ (if policy.require_hash then sha256 c else or_text r.sha256 "")))
        × (is_some (content_at i.candidate.destination disk) || is_folder i.candidate.destination
            ≡ false)
        × (any_by (is_protected h) (i.candidate.source ∷ i.candidate.destination ∷ []) ≡ false)
  unfolding archive_item
  archive_item_lem policy root existing r i e marked =
      elim (Option-cases (content_at r.path disk)) [
        | inl missing ↦ absurd (ground arith)
        | inr (c, found) ↦ elim (Any-cases (destination policy r.file_name root)) [
          | inl (target, named) ↦
              let candidate = candidate_of sha256 h is_folder disk r c target policy.require_hash in
              let free = decide_free candidate in
              (
                ground arith,
                (c, found, ground arith, ground arith, ground arith),
                ground arith,
                ground arith,
              )
          | inr (x, bad) ↦ absurd (ground arith)
        ]
      ]

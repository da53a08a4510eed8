-- ===== src/Reconcile/Laws.antt =====
-- What "verified" means.
use teldrive_lab.Prelude.{ℕ, String, true, Option, some, ◌≡◌, ◌↔◌, arith, inl, inr, Option-cases}
use teldrive_lab.Transfer.{Content, Disk, content_at}
use teldrive_lab.Reconcile.{size_matches, sum_matches, reconcile_file}
use teldrive_lab.Prelude.{length}

-- A file is verified exactly when it is there and has the size and the sum that are expected, where
-- any is.
pub reconcile_file_iff :
    (sha256 : Content → String) (path : String) (size : Option ℕ) (digest : Option String)
    (disk : Disk)
    → ((reconcile_file sha256 path size digest disk).verified ≡ true) ↔ (
        (c : Content) × (content_at path disk ≡ some c)
        × (size_matches size (length c) ≡ true)
        × (sum_matches digest (sha256 c) ≡ true))
unfolding reconcile_file
reconcile_file_iff sha256 path size digest disk = elim (Option-cases (content_at path disk)) [
  | inl missing ↦ ((λ v. absurd (ground arith)), (λ (c, there, s, d). absurd (ground arith)))
  | inr (c, found) ↦
      ((λ v. (c, found, ground arith, ground arith)), (λ (c', there, s, d). ground arith))
]

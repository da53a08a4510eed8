-- ===== src/Integrity/Laws.antt =====
-- What each state of a verification means, and how it compares with the reconciliation of one file.
use teldrive_lab.Prelude.{
  ℕ, String, true, false, not, Option, none, some, ◌≡◌, ◌↔◌, refl, arith, length, inl, inr,
  Option-cases, ℤ, pos, ◌⊎◌, Bool-cases, ap, ◌==◌, eq_iff,
}
use teldrive_lab.Files.{plain_text}
use teldrive_lab.Transfer.{Content, content_at}
use teldrive_lab.Reconcile.{size_matches, sum_matches, reconcile_file}
use teldrive_lab.Integrity.{IntegrityState, FileSystem, verify_path, size_differs, sum_differs}

abbrev pub widened : Option ℕ → Option ℤ
widened none = none
widened (some n) = some (pos n)

size_tests : (size : Option ℕ) (n : ℕ) → size_differs (widened size) n ≡ not (size_matches size n)
size_tests none n = refl
size_tests (some m) n = refl

-- An empty sum is compared by one of the two only.
sum_tests :
    (digest : Option String) (d : String)
    → (sum_differs digest d ≡ false) ↔ ((sum_matches digest d ≡ true) ⊎ (digest ≡ some ""))
sum_tests none d = ((λ h. inl refl), (λ h. refl))
sum_tests (some e) d = elim (Bool-cases (e == "")) [
  | inl empty ↦ ((λ h. inr (ap some ((eq_iff e "").0 empty))), (λ h. rw empty refl))
  | inr given ↦ (
    (λ h. inl (ground (arith, given, h))),
    (λ h. elim h [
      | inl same ↦ ground (arith, given, same)
      | inr empty ↦ absurd (ground (arith, given, empty, eq_iff e ""))
    ]),
  )
]

-- `verify_path` says VERIFIED exactly when the file can be read and `reconcile_file` reports it as verified, either
-- against the same size and sum, or, where the expected sum is the empty text, against the size alone.
pub verify_path-reconcile_file :
    (sha256 : Content → String) (fs : FileSystem) (path : String) (digest : Option String)
    (size : Option ℕ)
    → ((verify_path sha256 fs path digest (widened size)).state ≡ IntegrityState.verified) ↔ (
        (fs.unreadable (plain_text path) ≡ false)
        × (((reconcile_file sha256 (plain_text path) size digest fs.disk).verified ≡ true)
            ⊎ ((digest ≡ some "")
                × ((reconcile_file sha256 (plain_text path) size none fs.disk).verified ≡ true))))
unfolding verify_path reconcile_file
verify_path-reconcile_file sha256 fs path digest size =
    elim (Option-cases (content_at (plain_text path) fs.disk)) [
      | inl missing ↦
          ((λ v. absurd (ground (arith, missing, v))), (λ h. absurd (ground (arith, missing, h))))
      | inr (c, there) ↦
          let sizes = size_tests size (length c) in
          let (to, from) = sum_tests digest (sha256 c) in
          (
            (λ v.
                let readable : fs.unreadable (plain_text path) ≡ false = ground (arith, there, v) in
                let fits : size_matches size (length c) ≡ true = ground (arith, there, sizes, v) in
                let same : sum_differs digest (sha256 c) ≡ false =
                  ground (arith, there, sizes, v) in
                (
                  readable,
                  elim (to same) [
                    | inl m ↦ inl (ground (arith, there, fits, m))
                    | inr empty ↦ inr (empty, ground (arith, there, fits))
                  ],
                )),
            (λ (readable, h). elim h [
              | inl m ↦
                  let both : (size_matches size (length c) ≡ true)
                      × (sum_matches digest (sha256 c) ≡ true) =
                    ground (arith, there, m) in
                  ground (arith, there, readable, sizes, both, from (inl both.1))
              | inr (empty, m) ↦
                  let fits : size_matches size (length c) ≡ true = ground (arith, there, m) in
                  ground (arith, there, readable, sizes, fits, from (inr empty))
            ]),
          )
    ]

-- ===== src/Integrity/Freshness.antt =====
-- Evidence that a verification has just recorded is not stale.
use teldrive_lab.Prelude.{
  ℕ, suc, String, Bool, true, false, Option, none, some, List, [], ◌∷◌, ◌≡◌, refl, arith, eq_iff,
  eq_refl, if◌then◌else◌, inl, inr, Bool-cases, Option-cases, ◌==◌, All, filter_by,
}
use teldrive_lab.Sql.{order_by}
use teldrive_lab.Sql.Order.{All-order_by, All-order_by_inv}
use teldrive_lab.Sql.Upsert.{select_one-upsert}
use teldrive_lab.Files.{plain_text}
use teldrive_lab.Transfer.{Content, content_at}
use teldrive_lab.Models.{FileRecord}
use teldrive_lab.Integrity.{
  IntegrityState, ChecksumEvidence, FileSystem, Evidence, store_evidence, get_evidence, verify_path,
  evidence_of, recorded, verify_each, in_order, verify_records, is_stale_at, is_stale,
  stale_checksum_paths,
}

module _ (sha256 : Content → String) (fs : FileSystem) where
  -- `is_stale`, for a path.
  abbrev stale_at : String → Option ChecksumEvidence → Bool
  stale_at k e = is_stale_at sha256 fs (plain_text k) e (content_at (plain_text k) fs.disk)

  abbrev stale : String → Evidence → Bool
  stale k evidence = stale_at k (get_evidence k evidence)

  get-store_evidence :
      (e : ChecksumEvidence) (k : String) (evidence : Evidence)
      → get_evidence k (store_evidence e evidence)
        ≡ (if e.path == k then some e else get_evidence k evidence)
  unfolding get_evidence store_evidence
  get-store_evidence e k evidence = select_one-upsert (λ e. e.path) e k evidence

  -- Evidence that is taken now is not stale.
  fresh_now :
      (r : FileRecord) (digest time : String) (state : IntegrityState)
      → stale_at r.path (some (evidence_of sha256 fs r digest time state)) ≡ false
  fresh_now r digest time state = elim (Option-cases (content_at (plain_text r.path) fs.disk)) [
    | inl missing ↦ rw missing refl
    | inr (c, there) ↦ rw there (ground arith)
  ]

  fresh_after :
      (r : FileRecord) (digest time : String) (state : IntegrityState) (k : String)
      → (r.path == k) ≡ true
      → stale_at k (some (evidence_of sha256 fs r digest time state)) ≡ false
  fresh_after r digest time state k same =
      let path : r.path ≡ k = ground (arith, eq_iff r.path k) in
      rw (← path) (fresh_now r digest time state)

  -- Recording one file's evidence makes no evidence stale.
  recorded_keeps :
      (r : FileRecord) (time : String) (state : IntegrityState) (o : Option String) (k : String)
      (evidence : Evidence)
      → stale k evidence ≡ false
      → stale k (recorded sha256 fs r time state o evidence) ≡ false
  recorded_keeps r time state none k evidence h = h
  recorded_keeps r time state (some digest) k evidence h =
      rw (get-store_evidence (evidence_of sha256 fs r digest time state) k evidence)
        (elim (Bool-cases (r.path == k)) [
          | inl same ↦ rw same (fresh_after r digest time state k same)
          | inr other ↦ rw other h
        ])

  read_sum :
      (r : FileRecord) (c : Content)
      → content_at (plain_text r.path) fs.disk ≡ some c
      → fs.unreadable (plain_text r.path) ≡ false
      → (verify_path sha256 fs r.path r.sha256 r.size).actual_sha256 ≡ some (sha256 c)
  unfolding verify_path
  read_sum r c there readable = rw there (rw readable refl)

  stale_missing :
      (k : String) (e : Option ChecksumEvidence) → is_stale_at sha256 fs k e none ≡ false
  stale_missing k none = refl
  stale_missing k (some e) = refl

  -- The turn of a file that can be read leaves its own evidence fresh.
  recorded_own :
      (r : FileRecord) (time : String) (evidence : Evidence)
      → fs.unreadable (plain_text r.path) ≡ false
      → let result = verify_path sha256 fs r.path r.sha256 r.size in
        stale r.path (recorded sha256 fs r time result.state result.actual_sha256 evidence) ≡ false
  recorded_own r time evidence readable =
      elim (Option-cases (content_at (plain_text r.path) fs.disk)) [
        | inl missing ↦ rw missing (stale_missing (plain_text r.path) _)
        | inr (c, there) ↦ rw (read_sum r c there readable) (
            rw
              (get-store_evidence
                (evidence_of sha256 fs r (sha256 c) time
                  (verify_path sha256 fs r.path r.sha256 r.size).state)
                r.path evidence)
              (rw (eq_refl r.path)
                (fresh_now r (sha256 c) time (verify_path sha256 fs r.path r.sha256 r.size).state)))
      ]

  verify_each_keeps :
      (clock : ℕ → String) (n : ℕ) (records : List FileRecord) (k : String) (evidence : Evidence)
      → stale k evidence ≡ false
      → stale k (verify_each sha256 fs clock n records evidence).1 ≡ false
  unfolding verify_each
  verify_each_keeps clock n [] k evidence h = h
  verify_each_keeps clock n (r ∷ records) k evidence h =
      verify_each_keeps clock (suc n) records k _ (recorded_keeps r (clock n) _ _ k evidence h)

  -- The files of the records can be read.
  abbrev pub IsReadable : List FileRecord → Type 0
  IsReadable records = All (λ r. fs.unreadable (plain_text r.path) ≡ false) records

  verify_each_fresh :
      (clock : ℕ → String) (n : ℕ) (records : List FileRecord) (evidence : Evidence)
      → IsReadable records
      → All (λ r. stale r.path (verify_each sha256 fs clock n records evidence).1 ≡ false) records
  unfolding verify_each
  verify_each_fresh clock n [] evidence ok = tt
  verify_each_fresh clock n (r ∷ records) evidence (readable, ok) = (
    verify_each_keeps clock (suc n) records r.path _ (recorded_own r (clock n) evidence readable),
    verify_each_fresh clock (suc n) records _ ok,
  )

  filtered_none :
      (evidence : Evidence) (records : List FileRecord)
      → All (λ r. stale r.path evidence ≡ false) records
      → filter_by (is_stale sha256 fs evidence) records ≡ []
  filtered_none evidence [] ok = refl
  filtered_none evidence (r ∷ records) (fresh, ok) = rw fresh (filtered_none evidence records ok)

  -- After `verify_records` with a store no record's checksum is stale, whatever evidence there was before, when the
  -- files of the records can be read and do not change.
  pub stale_checksum_paths-verify_records :
      (clock : ℕ → String) (records : List FileRecord) (evidence : Evidence)
      → IsReadable records
      → stale_checksum_paths sha256 fs records (verify_records sha256 fs clock records evidence).1
        ≡ []
  unfolding stale_checksum_paths verify_records order_by
  stale_checksum_paths-verify_records clock records evidence ok =
      let after =
        (verify_each sha256 fs clock 0 (order_by (in_order sha256 fs) records) evidence).1 in
      let sorted_fresh =
        verify_each_fresh clock 0 (order_by (in_order sha256 fs) records) evidence
          (All-order_by (in_order sha256 fs) _ records ok) in
      rw
        (filtered_none after records (
          All-order_by_inv (in_order sha256 fs) (λ r. stale r.path after ≡ false) records
            sorted_fresh))
        refl

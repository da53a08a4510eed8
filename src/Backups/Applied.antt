-- ===== src/Backups/Applied.antt =====
-- What a plan of a backup promises, and what applying it records.
use teldrive_lab.Prelude.{
  ℕ, ◌+◌, ◌*◌, ◌≤◌, eq_refl, String, Bool, true, false, ◌||◌, some, List, [], ◌∷◌, map, any_by, ◌≡◌,
  refl, arith, All, length, is_some, text_le, inl, inr, Option-cases,
}
use teldrive_lab.Exec.{ok, Any-cases}
use teldrive_lab.Audit.{record_event}
use teldrive_lab.Sql.Upsert.{select_one-upsert}
use teldrive_lab.Safety.{is_mutating}
use teldrive_lab.Safety.Paths.{Host, is_protected}
use teldrive_lab.Safety.Policy.{authorize, protected_paths, for_paths}
use teldrive_lab.Sql.{order_by}
use teldrive_lab.Files.{plain_text, real_text, real_child, file_name}
use teldrive_lab.Transfer.{Content, Disk, content_at}
use teldrive_lab.TransferExecutor.{Manager}
use teldrive_lab.JobLifecycle.{Stamp}
use teldrive_lab.Backups.{BackupItem, BackupPlan, BackupPolicy, effective_retention_seconds}
use teldrive_lab.Backups.Purge.{Backups, is_locked}
use teldrive_lab.Backups.Plans.{plan_item, plan_items, plan}
use teldrive_lab.Backups.Execution.{put, row_of, BackupsState, audit, back_up, back_up_all, apply}

module _ (sha256 : Content → String) (h : Host) (is_folder : String → Bool) (disk : Disk) where
  -- What an item of a plan promises.
  abbrev pub IsCopyable : BackupItem → Type 0
  IsCopyable item =
      ((c : Content) × (content_at item.source disk ≡ some c)
        × (item.size ≡ length c)
        × (item.sha256 ≡ sha256 c))
      × (is_some (content_at item.destination disk) || is_folder item.destination ≡ false)
      × (any_by (is_protected h) (item.source ∷ item.destination ∷ []) ≡ false)

  abbrev made : List String → String → Content → BackupItem
  made root raw c = record {
    source = real_text h raw;
    destination = real_child h root (file_name (real_text h raw));
    size = length c;
    sha256 = sha256 c;
  }

  plan_item-IsCopyable :
      (root : List String) (raw : String) (item : BackupItem)
      → plan_item sha256 h is_folder disk root raw ≡ ok item
      → IsCopyable item
  unfolding plan_item authorize protected_paths is_mutating
  plan_item-IsCopyable root raw item e = elim (Option-cases (content_at (real_text h raw) disk)) [
    | inl missing ↦ absurd (ground (arith, missing, e))
    | inr (c, there) ↦
        let same : item ≡ made root raw c = ground (arith, there, e) in
        rw same ((c, there, refl, refl), ground (arith, there, e), ground (arith, there, e))
  ]

  plan_items-IsCopyable :
      (root : List String) (sources : List String) (items : List BackupItem)
      → plan_items sha256 h is_folder disk root sources ≡ ok items
      → All IsCopyable items
  unfolding plan_items
  plan_items-IsCopyable root [] items e = let empty : items ≡ [] = ground (arith, e) in rw empty tt
  plan_items-IsCopyable root (raw ∷ sources) items e =
      elim (Any-cases (plan_item sha256 h is_folder disk root raw)) [
        | inr (er, refused) ↦ absurd (ground (arith, refused, e))
        | inl (item, first) ↦ elim (Any-cases (plan_items sha256 h is_folder disk root sources)) [
          | inr (er, refused) ↦ absurd (ground (arith, first, refused, e))
          | inl (rest, planned) ↦
              let same : items ≡ item ∷ rest = ground (arith, first, planned, e) in
              rw same (
                plan_item-IsCopyable root raw item first,
                plan_items-IsCopyable root sources rest planned,
              )
        ]
      ]

  -- Every item of a plan has the size and the sum of the file at its source, has nothing at its destination, and names no protected
  -- path; and the plan may be purged only after both windows of its policy.
  pub plan-IsCopyable :
      (stamp : ℕ → String) (sources : List String) (root : List String) (policy : BackupPolicy)
      (now : ℕ) (p : BackupPlan)
      → plan sha256 h is_folder disk stamp sources root policy now ≡ ok p
      → All IsCopyable p.items
        × (now + policy.retention_seconds * 1000000 ≤ p.purge_after)
        × (now + policy.safety_window_seconds * 1000000 ≤ p.purge_after)
  unfolding plan
  plan-IsCopyable stamp sources root policy now p e =
      elim (Any-cases (
        plan_items sha256 h is_folder disk (h.real root)
          (order_by (λ a b. text_le (plain_text a) (plain_text b)) sources))) [
            | inr (er, refused) ↦ absurd (ground (arith, refused, e))
            | inl (items, planned) ↦
                let same : p.items ≡ items = ground (arith, planned, e) in
                let until : p.purge_after ≡ now + effective_retention_seconds policy * 1000000 =
                  ground (arith, planned, e) in
                (
                  rw same (plan_items-IsCopyable (h.real root) _ items planned),
                  ground (arith, until),
                  ground (arith, until),
                )
          ]

module _ (h : Host) (manager : Manager) (id : String) (stamp : Stamp) where
  back_up_rows :
      (item : BackupItem) (s : BackupsState) → (back_up h manager id stamp item s).1.rows ≡ s.rows
  unfolding back_up audit for_paths is_mutating record_event
  back_up_rows item s = ground arith

  back_up_all_rows :
      (items : List BackupItem) (s : BackupsState)
      → (back_up_all h manager id stamp items s).1.rows ≡ s.rows
  unfolding back_up_all
  back_up_all_rows [] s = refl
  back_up_all_rows (item ∷ items) s = grind (arith, back_up_all_rows items, back_up_rows item)

  back_up_all_paths :
      (items : List BackupItem) (s : BackupsState) (paths : List String)
      → (back_up_all h manager id stamp items s).0 ≡ ok (true, paths)
      → paths ≡ map (λ item. item.destination) items
  unfolding back_up_all
  back_up_all_paths [] s paths e = ground (arith, e)
  back_up_all_paths (item ∷ items) s paths e =
      elim (Any-cases (back_up h manager id stamp item s).0) [
        | inr (er, raised) ↦ absurd (ground (arith, raised, e))
        | inl (goes_on, done) ↦
            elim (Any-cases
              (back_up_all h manager id stamp items (back_up h manager id stamp item s).1).0) [
                | inr (er, raised) ↦ absurd (ground (arith, done, raised, e))
                | inl ((went, rest), last) ↦ ground (
                  arith,
                  done,
                  last,
                  e,
                  back_up_all_paths items (back_up h manager id stamp item s).1 rest,
                )
              ]
      ]

  apply_loop :
      (digest_of : BackupPlan → String) (manifest : BackupPlan → Content) (p : BackupPlan)
      (s : BackupsState) (paths : List String)
      → (apply h manager id stamp digest_of manifest p s).0 ≡ ok (true, paths)
      → (back_up_all h manager id stamp p.items s).0 ≡ ok (true, paths)
  unfolding apply
  apply_loop digest_of manifest p s paths e = ground (arith, e)

  -- An apply that returns with success has put the plan into the table and lists the destinations of all its items.
  pub apply-put :
      (digest_of : BackupPlan → String) (manifest : BackupPlan → Content) (p : BackupPlan)
      (s : BackupsState) (paths : List String)
      → (apply h manager id stamp digest_of manifest p s).0 ≡ ok (true, paths)
      → ((apply h manager id stamp digest_of manifest p s).1.rows ≡ put digest_of p s.rows)
        × (paths ≡ map (λ item. item.destination) p.items)
  unfolding apply audit
  apply-put digest_of manifest p s paths e = (
    ground (arith, e, back_up_all_rows p.items s),
    back_up_all_paths p.items s paths (apply_loop digest_of manifest p s paths e),
  )

-- After a `put` the backup of the plan's digest is not locked, whatever it was before.
pub is_locked-put :
    (digest_of : BackupPlan → String) (p : BackupPlan) (rows : Backups)
    → is_locked (digest_of p) (put digest_of p rows) ≡ false
unfolding is_locked put
is_locked-put digest_of p rows =
    rw (select_one-upsert (λ r. r.digest) (row_of digest_of p rows) (digest_of p) rows)
      (rw (eq_refl (digest_of p)) refl)

-- ===== src/Backups/Retained.antt =====
-- What the purge of a backup leaves on the disk, and what a lock does.
use teldrive_lab.Prelude.{
  ℕ, String, Bool, true, false, not, ◌&&◌, ◌||◌, List, [], ◌∷◌, if◌then◌else◌, ◌==◌, any_by,
  count_by, eqb, ltb, ◌≡◌, refl, arith, eq_iff, inl, inr, Bool-cases,
}
use teldrive_lab.Exec.{ok, err, key_error}
use teldrive_lab.Audit.{Event}
use teldrive_lab.Sql.{update_where, select_one}
use teldrive_lab.Safety.{is_mutating}
use teldrive_lab.Safety.Paths.{Host, is_protected}
use teldrive_lab.Safety.Policy.{authorize, for_paths, protected_paths}
use teldrive_lab.Files.{real_text}
use teldrive_lab.Transfer.{Disk, content_at, remove}
use teldrive_lab.JobLifecycle.{Stamp}
use teldrive_lab.Lifecycle.PurgeLaws.{content_at-remove}
use teldrive_lab.Backups.{BackupItem, BackupPlan}
use teldrive_lab.Backups.Purge.{
  Backups, has_digest, is_locked, locked_now, lock, PurgeState, is_kept, may_delete, Purged,
  with_removed, purge_items, purge, finish,
}

any_by-count_by :
    {A : Type 0} (p : A → Bool) (rows : List A) → eqb (count_by p rows) 0 ≡ not (any_by p rows)
any_by-count_by p [] = refl
any_by-count_by p (r ∷ rows) = ground (arith, any_by-count_by p rows)

locked_after :
    (digest k : String) (rows : Backups)
    → locked_now (
        select_one
          (has_digest k)
          (update_where (has_digest digest) (λ r. record r { locked = true }) rows))
      ≡ (if digest == k
          then any_by (has_digest digest) rows
          else locked_now (select_one (has_digest k) rows))
unfolding select_one update_where
locked_after digest k [] = ground arith
locked_after digest k (r ∷ rows) =
    ground (
      arith,
      locked_after digest k rows,
      eq_iff r.digest digest,
      eq_iff r.digest k,
      eq_iff digest k,
    )

-- A lock that returns locks the backup of that digest and changes the lock of no other; it raises exactly when no
-- backup has the digest.
pub is_locked-lock :
    (digest k : String) (rows : Backups)
    → ((lock digest rows).0
        ≡ (if any_by (has_digest digest) rows then ok tt else err (key_error digest)))
      × (is_locked k (lock digest rows).1
          ≡ (if any_by (has_digest digest) rows && digest == k then true else is_locked k rows))
unfolding lock is_locked
is_locked-lock digest k rows = elim (Bool-cases (any_by (has_digest digest) rows)) [
  | inl there ↦
      let counted = any_by-count_by (has_digest digest) rows in
      (ground (arith, there, counted), ground (arith, there, counted, locked_after digest k rows))
  | inr missing ↦
      let counted = any_by-count_by (has_digest digest) rows in
      (ground (arith, missing, counted), ground (arith, missing, counted))
]

module _ (digest_of : BackupPlan → String) (h : Host) (is_folder : String → Bool)
    (id : String) where
  -- Items whose copy is at the path.
  abbrev pub at_path : String → BackupItem → Bool
  at_path p item = real_text h item.destination == p

  -- No item has its copy at the path, or no removal of it is allowed; nor is it the manifest.
  abbrev pub is_outside : BackupPlan → String → Bool
  is_outside plan p =
      not (plan.manifest_path == p) && (is_protected h p || not (any_by (at_path p) plan.items))

  not_deleted :
      (p : String) → is_protected h p ≡ true → may_delete digest_of h is_folder id p ≡ false
  unfolding may_delete for_paths authorize protected_paths is_mutating
  not_deleted p protected = ground (arith, protected)

  removed_disk :
      (p : String) (r : Purged digest_of h is_folder id)
      → (with_removed digest_of h is_folder id p r).1 ≡ r.1
  removed_disk p (ok (done, removed), disk) = refl
  removed_disk p (err e, disk) = refl

  purge_items_keeps :
      (p : String) (items : List BackupItem) (disk : Disk)
      → (is_protected h p || not (any_by (at_path p) items)) ≡ true
      → content_at p (purge_items digest_of h is_folder id items disk).1 ≡ content_at p disk
  unfolding purge_items
  purge_items_keeps p [] disk kept = refl
  purge_items_keeps p (item ∷ items) disk kept = ground (
    arith,
    kept,
    purge_items_keeps p items disk,
    purge_items_keeps p items (remove (real_text h item.destination) disk),
    removed_disk (real_text h item.destination)
        (purge_items digest_of h is_folder id items (remove (real_text h item.destination) disk)),
    content_at-remove p (real_text h item.destination) disk,
    not_deleted p,
    eq_iff (real_text h item.destination) p,
  )

  finish_keeps :
      (stamp : Stamp) (plan : BackupPlan) (r : Purged digest_of h is_folder id)
      (events : List Event) (p : String)
      → (plan.manifest_path == p) ≡ false
      → content_at p (finish digest_of h is_folder id stamp plan r events).1.disk ≡ content_at p r.1
  finish_keeps stamp plan (err e, disk) events p other = refl
  finish_keeps stamp plan (ok (false, removed), disk) events p other = refl
  finish_keeps stamp plan (ok (true, removed), disk) events p other =
      ground
        (arith, other, content_at-remove p plan.manifest_path disk, eq_iff plan.manifest_path p)

  outside_keeps :
      (rows : Backups) (now : ℕ) (stamp : Stamp) (plan : BackupPlan) (p : String) (s : PurgeState)
      → is_outside plan p ≡ true
      → content_at p (purge digest_of h is_folder id rows now stamp plan s).1.disk
        ≡ content_at p s.disk
  unfolding purge
  outside_keeps rows now stamp plan p s outside =
      let done = purge_items digest_of h is_folder id plan.items s.disk in
      ground (
        arith,
        outside,
        purge_items_keeps p plan.items s.disk,
        finish_keeps stamp plan done s.events p,
      )

  -- After a lock, a purge that raises or returns leaves a file as it is when the lock was that of
  -- the plan's backup and a backup had its digest, or that backup was locked before, or the
  -- plan's retention still runs, or the file is not the plan's manifest and either no item has its copy there
  -- or the path is protected.
  pub backup_purge_keeps :
      (rows : Backups) (digest : String) (now : ℕ) (stamp : Stamp) (plan : BackupPlan) (p : String)
      (s : PurgeState)
      → (any_by (has_digest digest) rows && digest == digest_of plan
          || is_locked (digest_of plan) rows
          || ltb now plan.purge_after
          || is_outside plan p)
        ≡ true
      → content_at p (purge digest_of h is_folder id (lock digest rows).1 now stamp plan s).1.disk
        ≡ content_at p s.disk
  backup_purge_keeps rows digest now stamp plan p s kept =
      elim (Bool-cases (is_kept digest_of (lock digest rows).1 now plan)) [
        | inl held ↦ unfold purge in rw held refl
        | inr over ↦
            outside_keeps (lock digest rows).1 now stamp plan p s
              (ground (arith, kept, over, (is_locked-lock digest (digest_of plan) rows).1))
      ]

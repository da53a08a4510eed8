-- ===== src/Lifecycle/PurgeLaws.antt =====
-- What a purge leaves as it is.
use teldrive_lab.Prelude.{
  ℕ, suc, String, Bool, true, false, List, [], ◌∷◌, if◌then◌else◌, ◌==◌, ◌≡◌, refl, arith, any_by,
  eq_iff, ◌⊎◌, inl, inr, All, map, ◌<◌, Bool-cases,
}
use teldrive_lab.Audit.{record_event}
use teldrive_lab.Safety.{is_mutating}
use teldrive_lab.Safety.Paths.{Host, is_protected}
use teldrive_lab.Safety.Policy.{authorize, for_paths, protected_paths}
use teldrive_lab.Files.{real_text}
use teldrive_lab.Transfer.{Content, Disk, content_at, remove}
use teldrive_lab.TransferExecutor.{Manager}
use teldrive_lab.Lifecycle.{LifecyclePlanItem, LifecycleRecord}
use teldrive_lab.Lifecycle.Store.{Records, all, by_source}
use teldrive_lab.Lifecycle.Plans.{purge_item, purge_plan, purge_verdict}
use teldrive_lab.Sql.Order.{All-order_by}
use teldrive_lab.Lifecycle.Execution.{
  LifecycleState, LifecycleSession, audit, is_purge_ready, over_items, purge, purge_one,
}

pub content_at-remove :
    (p q : String) (disk : Disk)
    → (q == p) ≡ false
    → content_at p (remove q disk) ≡ content_at p disk
unfolding content_at remove
content_at-remove p q [] h = refl
content_at-remove p q ((r, c) ∷ disk) h =
    ground (arith, content_at-remove p q disk h, eq_iff r q, eq_iff r p, eq_iff q p)

module _ (h : Host) (manager : Manager) (id : String) (session : LifecycleSession) where
  -- The plan has the path among those that the purge removes.
  abbrev pub names : String → LifecyclePlanItem → Bool
  names p item = if is_purge_ready item.action then real_text h item.quarantine == p else false

  -- One turn leaves every other file as it is, and every file at a protected path.
  purge_one_keeps :
      (p : String) (n : ℕ) (item : LifecyclePlanItem) (s : LifecycleState)
      → (if is_protected h p then false else real_text h item.quarantine == p) ≡ false
      → content_at p (purge_one h manager id session n item s).1.disk ≡ content_at p s.disk
  unfolding purge_one for_paths authorize protected_paths is_mutating audit record_event
  purge_one_keeps p n item s apart = ground (
    arith,
    content_at-remove p (real_text h item.quarantine) s.disk,
    eq_iff (real_text h item.quarantine) p,
  )

  purge_items_keeps :
      (p : String) (n : ℕ) (items : List LifecyclePlanItem) (s : LifecycleState)
      → (if is_protected h p then false else any_by (names p) items) ≡ false
      → content_at p
          (over_items is_purge_ready
            (purge_one h manager id session)
            (λ item. real_text h item.quarantine)
            n
            items
            s).1.disk
        ≡ content_at p s.disk
  unfolding over_items
  purge_items_keeps p n [] s apart = refl
  purge_items_keeps p n (item ∷ items) s apart =
      grind (arith, purge_items_keeps p (suc n) items, purge_one_keeps p n item)

  -- A purge changes no file but those at the quarantine paths of the PURGE_READY items of its plan, and
  -- no file at a protected path, whether it returns a report or raises half way.
  pub purge_keeps :
      (p : String) (items : List LifecyclePlanItem) (s : LifecycleState)
      → (if is_protected h p then false else any_by (names p) items) ≡ false
      → content_at p (purge h manager id session items s).1.disk ≡ content_at p s.disk
  unfolding purge
  purge_keeps p items s apart = purge_items_keeps p 0 items s apart

module _ (sha256 : Content → String) (h : Host) (is_folder : String → Bool) (disk : Disk)
    (now : ℕ) where
  -- The record protects the file at the path, or has another one.
  abbrev pub Holds : String → LifecycleRecord → Type 0
  Holds p r = (real_text h r.quarantine == p) ≡ true → (r.locked ≡ true) ⊎ (now < r.purge_after)

  names_not_held :
      (manager : Manager) (id : String) (session : LifecycleSession) (p : String)
      (r : LifecycleRecord)
      → Holds p r
      → names h manager id session p (purge_item sha256 h is_folder disk now r) ≡ false
  unfolding purge_verdict
  names_not_held manager id session p r held = elim (Bool-cases (real_text h r.quarantine == p)) [
    | inl same ↦ elim (held same) [ inl is_locked ↦ ground arith | inr early ↦ ground arith ]
    | inr other ↦ ground arith
  ]

  plan_not_held :
      (manager : Manager) (id : String) (session : LifecycleSession) (p : String)
      (records : Records)
      → All (Holds p) records
      → any_by (names h manager id session p) (map (purge_item sha256 h is_folder disk now) records)
        ≡ false
  plan_not_held manager id session p [] held = refl
  plan_not_held manager id session p (r ∷ records) held =
      rw (names_not_held manager id session p r held.0)
        (plan_not_held manager id session p records held.1)

  -- The purge of the plan that `purge_plan` makes leaves a file as it is when every record whose quarantine
  -- copy it is has a lock or an end of retention after the plan's time.
  pub purge-purge_plan :
      (manager : Manager) (id : String) (session : LifecycleSession) (p : String)
      (records : Records) (s : LifecycleState)
      → All (Holds p) records
      → content_at p
          (purge h manager id session (purge_plan sha256 h is_folder disk now records) s).1.disk
        ≡ content_at p s.disk
  unfolding purge_plan all
  purge-purge_plan manager id session p records s held =
      purge_keeps h manager id session p (purge_plan sha256 h is_folder disk now records) s (
        let none_named =
          plan_not_held manager id session p (all records)
            (All-order_by by_source (Holds p) records held) in
        ground arith)

-- ===== src/Organization/Laws.antt =====
-- What a plan allows, and what applying it does.
use teldrive_lab.Prelude.{
  String, Bool, true, false, ◌||◌, List, [], ◌∷◌, ◌≡◌, ◌↔◌, ◌⊎◌, arith, any_by, is_some, length,
}
use teldrive_lab.Exec.{ok, err, value_error, Error}
use teldrive_lab.Safety.{is_mutating}
use teldrive_lab.Safety.Paths.{Host, is_protected}
use teldrive_lab.Safety.Policy.{same_texts, authorize, protected_paths}
use teldrive_lab.Transfer.{TransferResult, Disk, content_at}
use teldrive_lab.TransferExecutor.{Manager}
use teldrive_lab.Files.{real_path}
use teldrive_lab.Organization.{
  OrganizationItem, copy_item, plan_action, apply_items, apply, apply_success, copy_count,
  conflict_count, blocked_count,
}

module _ (h : Host) (manager : Manager) (id : String) where
  -- A plan with a blocked or conflicting item is not applied: `apply` raises and moves nothing.
  pub apply_refuses :
      (items : List OrganizationItem) (disk : Disk)
      → (blocked_count items ≡ 0 → ⊥) ⊎ (conflict_count items ≡ 0 → ⊥)
      → ((e : Error) × ((apply h manager id items disk).0 ≡ err e))
        × ((apply h manager id items disk).1 ≡ disk)
  unfolding apply
  apply_refuses items disk bad = (
    (value_error "organization plan contains blocked or conflicting items", ground arith),
    ground arith,
  )

  items_complete :
      (items : List OrganizationItem) (disk : Disk) (rs : List TransferResult)
      → (apply_items h manager id items disk).0 ≡ ok rs
      → apply_success rs ≡ true
      → length rs ≡ copy_count items
  unfolding apply_items
  items_complete [] disk rs e s = ground arith
  items_complete (item ∷ items) disk rs e s = grind (arith, items_complete items)

  -- When `apply` returns results that are all successes, every COPY item of the plan has its
  -- result.
  pub apply_complete :
      (items : List OrganizationItem) (disk : Disk) (rs : List TransferResult)
      → (apply h manager id items disk).0 ≡ ok rs
      → apply_success rs ≡ true
      → length rs ≡ copy_count items
  unfolding apply
  apply_complete items disk rs e s = ground (arith, items_complete items disk rs)

-- The planner marks an item COPY exactly when its source is not its destination already, nothing
-- is at the destination, and neither path is protected.
pub plan_action_iff :
    (h : Host) (is_folder : String → Bool) (disk : Disk) (source destination : String)
    → ((plan_action h is_folder disk source destination).0 ≡ copy_item) ↔ (
        (same_texts (real_path h source) (real_path h destination) ≡ false)
        × (is_some (content_at destination disk) || is_folder destination ≡ false)
        × (any_by (is_protected h) (source ∷ destination ∷ []) ≡ false))
unfolding plan_action authorize protected_paths is_mutating
plan_action_iff h is_folder disk source destination =
    ((λ e. (ground arith, ground arith, ground arith)), (λ (apart, free, clear). ground arith))

-- ===== src/Lifecycle/PlanLaws.antt =====
-- What the actions of a lifecycle plan and the states of a reconciliation mean.
use teldrive_lab.Prelude.{
  ℕ, ◌+◌, ◌*◌, ◌≤◌, String, Bool, true, false, ◌||◌, Option, none, some, List, [], ◌∷◌, map,
  if◌then◌else◌, ◌==◌, ◌≡◌, refl, ◌↔◌, arith, any_by, eq_iff, inl, inr, Option-cases, length, All,
  is_some,
}
use teldrive_lab.Safety.{is_mutating}
use teldrive_lab.Safety.Paths.{Host, is_protected}
use teldrive_lab.Safety.Policy.{authorize, protected_paths}
use teldrive_lab.Transfer.{Content, Disk, content_at}
use teldrive_lab.Files.{real_text, real_path}
use teldrive_lab.Lifecycle.{
  RetentionPolicy, effective_retention_seconds, LifecycleRecord, LifecyclePlanItem, quarantined,
  purge_ready,
}
use teldrive_lab.Lifecycle.Plans.{
  second, quarantine_item, quarantine_plan, purge_verdict, reconciled_state, reconcile_record,
}

-- A record is ready for the purge exactly when it is not locked, its quarantine copy is there, and
-- the end of its retention is not in the future.
pub purge_verdict_iff :
    (sha256 : Content → String) (h : Host) (is_folder : String → Bool) (disk : Disk) (now : ℕ)
    (r : LifecycleRecord)
    → ((purge_verdict sha256 h is_folder disk now r).0 ≡ purge_ready) ↔ (
        (r.locked ≡ false)
        × (is_some (content_at r.quarantine disk) ≡ true)
        × (r.purge_after ≤ now))
unfolding purge_verdict
purge_verdict_iff sha256 h is_folder disk now r =
    ((λ e. (ground arith, ground arith, ground arith)), (λ (a, b, c). ground arith))

All-map :
    {A B : Type 0} (P : B → Type 0) (f : A → B)
    → ((x : A) → P (f x))
    → (xs : List A) → All P (map f xs)
All-map P f h [] = tt
All-map P f h (x ∷ xs) = (h x, All-map P f h xs)

module _ (sha256 : Content → String) (h : Host) (is_folder : String → Bool) (disk : Disk)
    (policy : RetentionPolicy) (now : ℕ) where
  -- What a QUARANTINE item promises.
  abbrev pub IsSafe : LifecyclePlanItem → Type 0
  IsSafe item =
      ((c : Content) × (content_at item.source disk ≡ some c)
        × (item.size ≡ length c)
        × (item.sha256 ≡ some (sha256 c)))
      × ((t : ℕ) × (item.purge_after ≡ some t)
          × (now + policy.retention_seconds * second ≤ t)
          × (now + policy.safety_window_seconds * second ≤ t))
      × (is_some (content_at item.quarantine disk) || is_folder item.quarantine ≡ false)
      × (any_by (is_protected h) (item.source ∷ item.quarantine ∷ []) ≡ false)

  quarantine_item-IsSafe :
      (root : List String) (raw : String)
      → (quarantine_item sha256 h is_folder disk policy now root raw).action ≡ quarantined
      → IsSafe (quarantine_item sha256 h is_folder disk policy now root raw)
  unfolding quarantine_item authorize protected_paths is_mutating
  quarantine_item-IsSafe root raw e = elim (Option-cases (content_at (real_text h raw) disk)) [
    | inl missing ↦ ground arith
    | inr (c, there) ↦ (
      (c, ground arith, ground arith, ground arith),
      (now + effective_retention_seconds policy * second, ground arith, ground arith, ground arith),
      ground arith,
      ground arith,
    )
  ]

  -- Every QUARANTINE item of a plan has the size and the sum of the file at its source, waits for both
  -- windows of the policy from now on, has nothing at its destination, and names no protected path.
  pub quarantine_plan-IsSafe :
      (root : String) (paths : List String)
      → All
          (λ item. item.action ≡ quarantined → IsSafe item)
          (quarantine_plan sha256 h is_folder disk policy now root paths)
  unfolding quarantine_plan
  quarantine_plan-IsSafe root paths = All-map _ _ (quarantine_item-IsSafe (real_path h root)) _

abbrev pub verified_state : Bool → String
verified_state b = if b then "LOCKED_VERIFIED" else "VERIFIED"

not_verified :
    (b : Bool)
    → (("MISSING_QUARANTINE" == verified_state b) || ("CORRUPT_QUARANTINE" == verified_state b))
      ≡ false
not_verified true = refl
not_verified false = refl

reconciled_state_iff :
    (sha256 : Content → String) (h : Host) (is_folder : String → Bool) (disk : Disk)
    (r : LifecycleRecord) (o : Option Content)
    → ((reconciled_state sha256 h is_folder disk r o).0 ≡ verified_state r.locked)
      ↔ ((c : Content) × (o ≡ some c) × (length c ≡ r.size) × (sha256 c ≡ r.sha256))
reconciled_state_iff sha256 h is_folder disk r none = (
  (λ e. absurd (
      ground
        (arith, not_verified r.locked, eq_iff "MISSING_QUARANTINE" (verified_state r.locked)))),
  (λ (c, e, size, sum). absurd (cc)),
)
reconciled_state_iff sha256 h is_folder disk r (some c) = (
  (λ e. (
    c,
    refl,
    ground (
      arith,
      eq_iff (sha256 c) r.sha256,
      not_verified r.locked,
      eq_iff "CORRUPT_QUARANTINE" (verified_state r.locked),
    ),
    ground (
      arith,
      eq_iff (sha256 c) r.sha256,
      not_verified r.locked,
      eq_iff "CORRUPT_QUARANTINE" (verified_state r.locked),
    ),
  )),
  (λ (d, e, size, sum). ground (arith, eq_iff (sha256 c) r.sha256)),
)

-- A record is reconciled as verified, locked or not, exactly when its quarantine copy is there with the
-- size and the sum of the record.
pub reconcile_record_iff :
    (sha256 : Content → String) (h : Host) (is_folder : String → Bool) (disk : Disk)
    (r : LifecycleRecord)
    → ((reconcile_record sha256 h is_folder disk r).state ≡ verified_state r.locked) ↔ (
        (c : Content) × (content_at r.quarantine disk ≡ some c)
        × (length c ≡ r.size)
        × (sha256 c ≡ r.sha256))
unfolding reconcile_record
reconcile_record_iff sha256 h is_folder disk r =
    reconciled_state_iff sha256 h is_folder disk r (content_at r.quarantine disk)

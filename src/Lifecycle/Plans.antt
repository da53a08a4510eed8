-- ===== src/Lifecycle/Plans.antt =====
-- `LifecyclePlanner`. A plan is its items, one to a path or record.
use teldrive_lab.Prelude.{
  ℕ, ◌+◌, ◌*◌, String, Bool, true, false, not, ◌&&◌, ◌||◌, Option, none, some, List, [], ◌∷◌, map,
  if◌then◌else◌, ◌==◌, ltb, eqb, is_some, any_by, filter_by, length, text_le,
}
use teldrive_lab.Sql.{order_by}
use teldrive_lab.Safety.{Operation, Decision}
use teldrive_lab.Safety.Paths.{Host}
use teldrive_lab.Safety.Policy.{authorize}
use teldrive_lab.Files.{anchored, file_name, plain_text, real_path, real_text, real_child}
use teldrive_lab.Transfer.{Content, Disk, content_at}
use teldrive_lab.Lifecycle.{
  LifecycleAction, purge_ready, purge_blocked, quarantined, locked, restored, RetentionPolicy,
  effective_retention_seconds, LifecycleRecord, LifecyclePlanItem, LifecycleReconciliation,
}
use teldrive_lab.Lifecycle.Store.{Records, all}

abbrev pub second : ℕ
second = 1000000

-- `not decision.allowed and not decision.requires_authorization`
abbrev pub refuses : Decision → Bool
refuses d = not d.allowed && not d.requires_authorization

-- `decision.reason or "protected production boundary"`
abbrev reason_of : Decision → String
reason_of d = if d.reason == "" then "protected production boundary" else d.reason

abbrev pub is_file : Disk → String → Bool
is_file disk p = is_some (content_at p disk)

abbrev blocked_source : String → String → String → ℕ → LifecyclePlanItem
blocked_source source quarantine reason size = record {
  source = source;
  quarantine = quarantine;
  action = purge_blocked;
  reason = reason;
  size = size;
  sha256 = none;
  purge_after = none;
  destination = none;
}

module _ (sha256 : Content → String) (h : Host) (is_folder : String → Bool) (disk : Disk) where
  -- `path.exists()`
  abbrev pub exists : String → Bool
  exists p = is_file disk p || is_folder p

  abbrev quarantine_file :
      RetentionPolicy
      → ℕ
      → (target destination : String) → Decision
      → Option Content
      → LifecyclePlanItem
  quarantine_file policy now target destination decision none =
      blocked_source target destination "source is not a regular file" 0
  quarantine_file policy now target destination decision (some content) =
      if refuses decision
      then blocked_source target destination (reason_of decision) (length content)
      else if exists destination
      then blocked_source target destination "quarantine destination already exists"
          (length content)
      else record {
        source = target;
        quarantine = destination;
        action = quarantined;
        reason = "explicit authorization required to quarantine; source remains intact";
        size = length content;
        sha256 = some (sha256 content);
        purge_after = some (now + effective_retention_seconds policy * second);
        destination = none;
      }

  -- One turn of the loop of `quarantine_plan`.
  unfoldable pub quarantine_item :
      RetentionPolicy → ℕ → (root : List String) → (raw : String) → LifecyclePlanItem
  quarantine_item policy now root raw =
      let target = real_text h raw in
      let destination = real_child h root (file_name raw) in
      quarantine_file policy now target destination
        (authorize h Operation.transfer (target ∷ destination ∷ []) false none)
        (content_at target disk)

  unfoldable pub quarantine_plan :
      RetentionPolicy → ℕ → (quarantine_root : String) → List String → List LifecyclePlanItem
  quarantine_plan policy now root paths =
      map (quarantine_item policy now (real_path h root))
        (order_by (λ a b. text_le (plain_text a) (plain_text b)) paths)

  -- One turn of the loop of `purge_plan`.
  unfoldable pub purge_verdict : ℕ → LifecycleRecord → LifecycleAction × String
  purge_verdict now r =
      if r.locked
      then (locked, "immutable lifecycle lock")
      else if not (is_file disk r.quarantine)
      then (purge_blocked, "quarantine copy is missing")
      else if ltb now r.purge_after
      then (purge_blocked, "retention/safety window has not elapsed")
      else (purge_ready, "retention and safety windows elapsed")

  abbrev pub purge_item : ℕ → LifecycleRecord → LifecyclePlanItem
  purge_item now r = record {
    source = r.source;
    quarantine = r.quarantine;
    action = (purge_verdict now r).0;
    reason = (purge_verdict now r).1;
    size = r.size;
    sha256 = some r.sha256;
    purge_after = some r.purge_after;
    destination = none;
  }

  unfoldable pub purge_plan : ℕ → Records → List LifecyclePlanItem
  purge_plan now records = map (purge_item now) (all records)

  -- `selected is None or … in selected`; an empty list of sources selects all.
  abbrev pub is_selected : Option (List String) → LifecycleRecord → Bool
  is_selected none r = true
  is_selected (some []) r = true
  is_selected (some (s ∷ sources)) r =
      any_by (λ p. real_text h p == real_text h r.quarantine) (s ∷ sources)

  abbrev pub restore_verdict : LifecycleRecord → String → Decision → LifecycleAction × String
  restore_verdict r destination decision =
      if not (is_file disk r.quarantine)
      then (purge_blocked, "quarantine copy is missing")
      else if exists destination
      then (purge_blocked, "restore destination exists; overwrite is forbidden")
      else if refuses decision
      then (purge_blocked, reason_of decision)
      else (restored, "explicit authorization required; verified restore copy; quarantine retained")

  -- One turn of the loop of `restore_plan`.
  unfoldable pub restore_item : (destination_root : String) → LifecycleRecord → LifecyclePlanItem
  restore_item root r =
      let destination = real_child h (anchored h root) (file_name r.source) in
      let verdict =
        restore_verdict r destination
          (authorize h Operation.transfer (r.quarantine ∷ destination ∷ []) false none) in
      record {
        source = r.source;
        quarantine = r.quarantine;
        action = verdict.0;
        reason = verdict.1;
        size = r.size;
        sha256 = some r.sha256;
        purge_after = some r.purge_after;
        destination = some destination;
      }

  unfoldable pub restore_plan :
      (destination_root : String) → Option (List String) → Records → List LifecyclePlanItem
  restore_plan root sources records =
      map (restore_item root) (filter_by (is_selected sources) (all records))

  abbrev sizes_match : LifecycleRecord → Option Content → Option Bool
  sizes_match r none = none
  sizes_match r (some c) = some (eqb (length c) r.size)

  abbrev sums_match : LifecycleRecord → Option Content → Option Bool
  sums_match r none = none
  sums_match r (some c) = if eqb (length c) r.size then some (sha256 c == r.sha256) else none

  -- `bool` of an optional truth value
  abbrev holds_true : Option Bool → Bool
  holds_true none = false
  holds_true (some b) = b

  abbrev pub reconciled_state : LifecycleRecord → Option Content → String × String
  reconciled_state r c =
      if not (is_some c)
      then ("MISSING_QUARANTINE", "durable record exists but quarantine copy is missing")
      else if not (holds_true (sizes_match r c)) || not (holds_true (sums_match r c))
      then ("CORRUPT_QUARANTINE", "quarantine evidence does not match durable checksum")
      else if r.locked
      then ("LOCKED_VERIFIED", "quarantine is verified and lifecycle-locked")
      else ("VERIFIED", "quarantine is present and checksum verified")

  -- One turn of the loop of `reconcile`.
  unfoldable pub reconcile_record : LifecycleRecord → LifecycleReconciliation
  reconcile_record r =
      let c = content_at r.quarantine disk in
      record {
        source = r.source;
        quarantine = r.quarantine;
        source_exists = is_file disk r.source;
        quarantine_exists = is_some c;
        size_matches = sizes_match r c;
        sha256_matches = sums_match r c;
        locked = r.locked;
        state = (reconciled_state r c).0;
        reason = (reconciled_state r c).1;
      }

  unfoldable pub reconcile : Records → List LifecycleReconciliation
  reconcile records = map reconcile_record (all records)
